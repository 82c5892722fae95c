-- ===== src/Linker/Selection.antt =====
-- linker/src/core/selection.rs: which objects of the inputs are linked. A set of names is a list of
-- names; a work budget is passed on as a number. The loop over one archive takes the rounds that it
-- may make; `rounds_exhausted` is no error of the source, and is never returned.
pub mod Budget
pub mod Rounds
pub mod Demand
pub mod Pulled
pub mod Closed
use whale.Prelude.{
  ℕ, zero, suc, Bool, true, false, not, ◌&&◌, List, [], ◌∷◌, ◌++◌, map, length, get_elem?, set,
  replicate, Option, none, some, Result, ok, err, ◌>>=◌, ◌>>◌, fail_if, or_fail, ltb, leb,
  if◌then◌else◌,
}
use whale.Prelude.Words.{checked_add}
use whale.Names.{Name, member}
use whale.Object.{Section, is_local, is_weak, ObjectSymbol, ObjectRelocation, ObjectFile}
use whale.Linker.Symbols.{is_some}

pub record ArchiveObject : Type 0 where
  pub name : Name
  pub object : ObjectFile

pub data LinkInput : Type 0 where
  object_input : ObjectFile → LinkInput
  archive_input : List ArchiveObject → LinkInput

pub data SelectError : Type 0 where
  object_limit work_budget payload_limit rounds_exhausted panicked : SelectError

abbrev pub max_objects : ℕ
max_objects = 4096

abbrev pub work_fuel : ℕ
work_fuel = 10_000_000

-- `fuel.checked_sub(1)`.
abbrev pub charge : ℕ → Result SelectError ℕ
charge zero = err work_budget
charge (suc fuel) = ok fuel

-- A defined symbol that other objects see.
abbrev pub exported : ObjectSymbol → Bool
exported s = is_some s.section_index && not (is_local s.binding)

abbrev pub add_if : Bool → Name → List Name → List Name
add_if b name names = if b then name ∷ names else names

unfoldable pub define_symbols :
    ℕ → List Name → List ObjectSymbol → Result SelectError (ℕ × List Name)
define_symbols fuel names [] = ok (fuel, names)
define_symbols fuel names (s ∷ ss) = do
  fuel' ← charge fuel
  define_symbols fuel' (add_if (exported s) s.name names) ss

unfoldable pub define_objects : ℕ → List Name → List ObjectFile → Result SelectError (ℕ × List Name)
define_objects fuel names [] = ok (fuel, names)
define_objects fuel names (o ∷ os) = do
  (fuel', names') ← define_symbols fuel names o.symbols
  define_objects fuel' names' os

abbrev pub names_where : (ObjectSymbol → Bool) → List ObjectSymbol → List Name
names_where p [] = []
names_where p (s ∷ ss) = add_if (p s) s.name (names_where p ss)

-- The names that a relocation of this object may use without asking for a definition.
abbrev pub own_names : ObjectFile → List Name
own_names o =
    names_where (λ s. is_local s.binding && is_some s.section_index) o.symbols
    ++ names_where (λ s. is_weak s.binding && not (is_some s.section_index)) o.symbols

unfoldable pub need_relocations :
    ℕ
    → List Name
    → List Name
    → List Name
    → List ObjectRelocation
    → Result SelectError (ℕ × List Name)
need_relocations fuel defined own needed [] = ok (fuel, needed)
need_relocations fuel defined own needed (r ∷ rs) = do
  fuel' ← charge fuel
  need_relocations fuel' defined own
      (add_if (not (member r.symbol defined) && not (member r.symbol own)) r.symbol needed) rs

unfoldable pub need_objects :
    ℕ → List Name → List Name → List ObjectFile → Result SelectError (ℕ × List Name)
need_objects fuel defined needed [] = ok (fuel, needed)
need_objects fuel defined needed (o ∷ os) = do
  (fuel', needed') ← need_relocations fuel defined (own_names o) needed o.relocations
  need_objects fuel' defined needed' os

-- `unresolved`: the names that the selected objects ask for and none of them defines.
unfoldable pub unresolved : List ObjectFile → Name → ℕ → Result SelectError (ℕ × List Name)
unresolved objects entry fuel = do
  (fuel', defined) ← define_objects fuel [] objects
  need_objects fuel' defined (add_if (not (member entry defined)) entry []) objects

-- `check_payload`: the bytes of the sections are added to the total while it stays in the limit.
unfoldable pub check_payload : List Section → ℕ → ℕ → Result SelectError ℕ
check_payload [] total limit = ok total
check_payload (s ∷ ss) total limit = do
  total' ← or_fail (checked_add total (length s.bytes)) payload_limit
  fail_if (ltb limit total') payload_limit
  check_payload ss total' limit

-- The symbols of one member, up to the first that is demanded.
unfoldable pub scan_symbols : List Name → ℕ → List ObjectSymbol → Result SelectError (ℕ × Bool)
scan_symbols demand fuel [] = ok (fuel, false)
scan_symbols demand fuel (s ∷ ss) = do
  fuel' ← charge fuel
  let rest = scan_symbols demand fuel' ss
  if exported s && member s.name demand then ok (fuel', true) else rest

-- What follows the scan of the member `i`.
abbrev pub hit_or :
    ℕ → (ℕ → Result SelectError (ℕ × Option ℕ)) → ℕ × Bool → Result SelectError (ℕ × Option ℕ)
hit_or i next (fuel, true) = ok (fuel, some i)
hit_or i next (fuel, false) = next fuel

-- The first unused member, from the index `i` on, with a demanded symbol.
unfoldable pub scan_members :
    List Name → ℕ → ℕ → List Bool → List ArchiveObject → Result SelectError (ℕ × Option ℕ)
scan_members demand i fuel [] ms = ok (fuel, none)
scan_members demand i fuel (u ∷ us) [] = ok (fuel, none)
scan_members demand i fuel (true ∷ us) (m ∷ ms) = scan_members demand (suc i) fuel us ms
scan_members demand i fuel (false ∷ us) (m ∷ ms) =
    scan_symbols demand fuel m.object.symbols
    >>= hit_or i (λ fuel'. scan_members demand (suc i) fuel' us ms)

pub record Selection : Type 0 where
  pub selected : List ObjectFile
  pub fuel : ℕ
  pub payload_bytes : ℕ

-- `check_payload` and `selected.push`.
unfoldable pub add_object : ℕ → ObjectFile → Selection → Result SelectError Selection
add_object max_bytes o st = do
  total ← check_payload o.sections st.payload_bytes max_bytes
  ok (record st { selected = st.selected ++ o ∷ []; payload_bytes = total })

-- The selected member: its object is added, and counted after the push.
unfoldable pub take_member : ℕ → List ArchiveObject → ℕ → Selection → Result SelectError Selection
take_member max_bytes members i st = do
  m ← or_fail (get_elem? members i) panicked
  st' ← add_object max_bytes m.object st
  fail_if (ltb max_objects (length st'.selected)) object_limit
  ok st'

-- The end of a round: nothing was found, or the member found is taken and the loop goes on.
abbrev pub end_round :
    ℕ
    → List ArchiveObject
    → List Bool
    → Selection
    → (List Bool → Selection → Result SelectError (List Bool × Selection))
    → Option ℕ
    → Result SelectError (List Bool × Selection)
end_round max_bytes members used st next none = ok (used, st)
end_round max_bytes members used st next (some i) =
    take_member max_bytes members i st >>= next (set used i true)

-- One archive, scanned again until nothing is found; it returns the flags too.
unfoldable pub select_archive :
    ℕ
    → Name
    → ℕ
    → List ArchiveObject
    → List Bool
    → Selection
    → Result SelectError (List Bool × Selection)
select_archive zero entry max_bytes members used st = err rounds_exhausted
select_archive (suc rounds) entry max_bytes members used st = do
  (fuel, demand) ← unresolved st.selected entry st.fuel
  (fuel', found) ← scan_members demand 0 fuel used members
  end_round max_bytes members used (record st { fuel = fuel' })
      (select_archive rounds entry max_bytes members) found

-- One input.
unfoldable pub select_input : Name → ℕ → LinkInput → Selection → Result SelectError Selection
select_input entry max_bytes (object_input o) st = do
  fail_if (leb max_objects (length st.selected)) object_limit
  add_object max_bytes o st
select_input entry max_bytes (archive_input members) st = do
  (_, st') ←
      select_archive (suc (length members)) entry max_bytes members
        (replicate (length members) false) st
  ok st'

unfoldable pub select_inputs : Name → ℕ → List LinkInput → Selection → Result SelectError Selection
select_inputs entry max_bytes [] st = ok st
select_inputs entry max_bytes (i ∷ is) st = do
  st' ← select_input entry max_bytes i st
  select_inputs entry max_bytes is st'

unfoldable pub select : List LinkInput → Name → ℕ → Result SelectError (List ObjectFile)
select inputs entry max_bytes = do
  st ←
      select_inputs entry max_bytes inputs
        (record { selected = []; fuel = work_fuel; payload_bytes = 0 })
  ok st.selected
