-- ===== src/Linker/Relocation.antt =====
-- linker/src/core/relocation.rs: the AMD64 relocations, checked and then applied to copies of the
-- section payloads. An error keeps its kind and its place; messages are not modelled, but the kinds
-- `Layout` and `Range` are told apart by what went wrong. A `BTreeMap`
-- is the list of its entries; its range queries look for the nearest key.
pub mod Nearest
pub mod Disjoint
pub mod Written
pub mod Value
pub mod Made
pub mod Applied
use whale.Prelude.{
  ℕ, zero, suc, ◌+◌, ◌^◌, ◌-◌, Bool, true, false, not, ◌&&◌, ◌||◌, List, [], ◌∷◌, ◌++◌, map, take,
  length, get_elem?, get_in, modify_at, Option, none, some, Result, ok, err, ◌>>=◌, ◌>>◌, fail_if,
  or_fail, map_err, ltb, leb, ◌==◌, if◌then◌else◌,
}
use whale.Prelude.Int.{ℤ, pos, ◌+ℤ◌, ◌-ℤ◌, leb_ℤ, ltb_ℤ, negate, wrap}
use whale.Prelude.Bytes.{to_le_bytes, copy_at}
use whale.Prelude.Words.{checked_add}
use whale.Object.{
  Section, SizeFault, memory_size, RelocKind, absolute64, absolute32, signed_absolute32, relative32,
  relative8, gotpcrel, plt32, target_specific, coff_specific, mach_specific, ObjectRelocation,
  ObjectFile,
}
use whale.Linker.Layout.{Layout}
use whale.Linker.Symbols
use whale.Linker.Symbols.{ResolvedSymbol, ResolvedReference, SymbolTable, ResolveError, lookup}

-- `panicked` stands for a panic of an index or a lookup.
pub data RelocationErrorKind : Type 0 where
  resolution : ResolveError → RelocationErrorKind
  invalid_input : SizeFault → RelocationErrorKind
  missing_placement address_overflow unsupported out_of_range outside_payload overlapping
        payload_limit panicked :
      RelocationErrorKind

pub record RelocationError : Type 0 where
  pub kind : RelocationErrorKind
  pub object : Option ℕ
  pub section : Option ℕ
  pub offset : Option ℕ

-- `error(kind, message)`.
abbrev pub plain : RelocationErrorKind → RelocationError
plain k = record { kind = k; object = none; section = none; offset = none }

-- The check of one section: its place, its end, and the bytes so far.
unfoldable pub check_extent : Layout → ℕ → ℕ → ℕ → Section → ℕ → Result RelocationErrorKind ℕ
check_extent layout max_bytes oi si s total = do
  address ← or_fail (get_in layout.section_offsets oi si) missing_placement
  size ← map_err invalid_input (memory_size s)
  _ ← or_fail (checked_add address size) address_overflow
  total' ← or_fail (checked_add total (length s.bytes)) payload_limit
  fail_if (ltb max_bytes total') payload_limit
  ok total'

unfoldable pub check_sections : Layout → ℕ → ℕ → ℕ → List Section → ℕ → Result RelocationErrorKind ℕ
check_sections layout max_bytes oi si [] total = ok total
check_sections layout max_bytes oi si (s ∷ ss) total = do
  total' ← check_extent layout max_bytes oi si s total
  check_sections layout max_bytes oi (suc si) ss total'

unfoldable pub check_objects : Layout → ℕ → ℕ → List ObjectFile → ℕ → Result RelocationErrorKind ℕ
check_objects layout max_bytes oi [] total = ok total
check_objects layout max_bytes oi (o ∷ os) total = do
  total' ← check_sections layout max_bytes oi 0 o.sections total
  check_objects layout max_bytes (suc oi) os total'

-- `base.checked_add(symbol.value)` where the base is there.
abbrev pub add_to : Option ℕ → ℕ → Option ℕ
add_to none n = none
add_to (some base) n = checked_add base n

-- The target's address, by the owner and the section of the symbol.
abbrev pub address_at :
    Layout → ResolvedReference → ℕ → Option ℕ → Option ℕ → Result RelocationErrorKind ℕ
address_at layout f value (some owner) (some section) =
    or_fail (add_to (get_in layout.section_offsets owner section) value) missing_placement
address_at layout f value none none = if f.weak_undefined then ok 0 else err unsupported
address_at layout f value _ _ = err unsupported

unfoldable pub target_address :
    Layout → SymbolTable → ResolvedReference → Result RelocationErrorKind ℕ
target_address layout table f = do
  symbol ← or_fail (lookup f.target table.symbols) panicked
  address_at layout f symbol.value symbol.object_index symbol.section_index

unfoldable pub place_address :
    Layout → ObjectRelocation → ResolvedReference → Result RelocationErrorKind ℕ
place_address layout r f = do
  base ← or_fail (get_in layout.section_offsets f.object_index f.section_index) panicked
  or_fail (checked_add base r.offset) address_overflow

-- The value and the width of the patch; `none` for what needs dynamic structures.
unfoldable pub patch_value : RelocKind → ℤ → ℕ → Option (ℤ × ℕ)
patch_value absolute64 absolute place = some (absolute, 8)
patch_value absolute32 absolute place = some (absolute, 4)
patch_value signed_absolute32 absolute place = some (absolute, 4)
patch_value relative32 absolute place = some (absolute -ℤ pos place, 4)
patch_value plt32 absolute place = some (absolute -ℤ pos place, 4)
patch_value relative8 absolute place = some (absolute -ℤ pos place, 1)
patch_value _ absolute place = none

abbrev pub fits_unsigned : ℕ → ℤ → Bool
fits_unsigned w v = leb_ℤ (pos 0) v && ltb_ℤ v (pos (2 ^ w))

abbrev pub fits_signed : ℕ → ℤ → Bool
fits_signed w v = leb_ℤ (negate (2 ^ (w - 1))) v && ltb_ℤ v (pos (2 ^ (w - 1)))

unfoldable pub fits : RelocKind → ℤ → Bool
fits absolute64 v = fits_unsigned 64 v
fits absolute32 v = fits_unsigned 32 v
fits signed_absolute32 v = fits_signed 32 v
fits relative32 v = fits_signed 32 v
fits plt32 v = fits_signed 32 v
fits relative8 v = fits_signed 8 v
fits _ v = false

-- A key of `occupied`: object, section and offset, in lexicographic order; and its end.
abbrev pub Key : Type 0
Key = ℕ × ℕ × ℕ

abbrev pub leb_key : Key → Key → Bool
leb_key (a, b, c) (x, y, z) = ltb a x || a == x && (ltb b y || b == y && leb c z)

abbrev pub Occupied : Type 0
Occupied = List (Key × ℕ)

abbrev pub later_entry : Key × ℕ → Option (Key × ℕ) → Key × ℕ
later_entry e none = e
later_entry e (some f) = if leb_key f.0 e.0 then e else f

abbrev pub earlier_entry : Key × ℕ → Option (Key × ℕ) → Key × ℕ
earlier_entry e none = e
earlier_entry e (some f) = if leb_key e.0 f.0 then e else f

-- `occupied.range(..=key).next_back()` and `occupied.range(key..).next()`
unfoldable pub entry_before : Key → Occupied → Option (Key × ℕ)
entry_before k [] = none
entry_before k (e ∷ es) =
    let rest = entry_before k es in if leb_key e.0 k then some (later_entry e rest) else rest

unfoldable pub entry_after : Key → Occupied → Option (Key × ℕ)
entry_after k [] = none
entry_after k (e ∷ es) =
    let rest = entry_after k es in if leb_key k e.0 then some (earlier_entry e rest) else rest

abbrev pub ends_after : ℕ → ℕ → ℕ → Option (Key × ℕ) → Bool
ends_after oi si offset none = false
ends_after oi si offset (some ((o, s, start), end)) = o == oi && s == si && ltb offset end

abbrev pub starts_before : ℕ → ℕ → ℕ → Option (Key × ℕ) → Bool
starts_before oi si end none = false
starts_before oi si end (some ((o, s, start), _)) = o == oi && s == si && ltb start end

unfoldable pub overlaps : ℕ → ℕ → ℕ → ℕ → Occupied → Bool
overlaps oi si offset end occupied =
    ends_after oi si offset (entry_before (oi, si, offset) occupied)
    || starts_before oi si end (entry_after (oi, si, offset) occupied)

pub record Patch : Type 0 where
  pub object : ℕ
  pub section : ℕ
  pub offset : ℕ
  pub width : ℕ
  pub bytes : List ℕ

-- The value of a relocation, in its range.
unfoldable pub relocation_value :
    Layout → SymbolTable → ObjectRelocation → ResolvedReference → Result RelocationErrorKind (ℤ × ℕ)
relocation_value layout table r f = do
  target ← target_address layout table f
  place ← place_address layout r f
  (value, width) ← or_fail (patch_value r.kind (pos target +ℤ r.addend) place) unsupported
  fail_if (not (fits r.kind value)) out_of_range
  ok (value, width)

-- The body of the loop over the relocations: the patch, and where it ends.
unfoldable pub make_patch :
    List ObjectFile
    → Layout
    → SymbolTable
    → Occupied
    → ObjectRelocation
    → ResolvedReference
    → Result RelocationErrorKind (Patch × ℕ)
make_patch objects layout table occupied r f = do
  (value, width) ← relocation_value layout table r f
  object ← or_fail (get_elem? objects f.object_index) panicked
  section ← or_fail (get_elem? object.sections f.section_index) panicked
  end ← or_fail (checked_add r.offset width) outside_payload
  fail_if (ltb (length section.bytes) end) outside_payload
  fail_if (overlaps f.object_index f.section_index r.offset end occupied) overlapping
  ok (
    record {
      object = f.object_index;
      section = f.section_index;
      offset = r.offset;
      width = width;
      bytes = to_le_bytes 8 (wrap 64 value);
    },
    end,
  )

abbrev pub located : ResolvedReference → RelocationErrorKind → RelocationError
located f k = record {
  kind = k;
  object = some f.object_index;
  section = some f.section_index;
  offset = some f.offset;
}

-- `relocations.zip(&symbols.references)`
abbrev pub Sites : Type 0
Sites = List (ObjectRelocation × ResolvedReference)

abbrev pub zip : List ObjectRelocation → List ResolvedReference → Sites
zip [] fs = []
zip (r ∷ rs) [] = []
zip (r ∷ rs) (f ∷ fs) = (r, f) ∷ zip rs fs

abbrev pub relocations_of : List ObjectFile → List ObjectRelocation
relocations_of [] = []
relocations_of (o ∷ os) = o.relocations ++ relocations_of os

unfoldable pub make_patches :
    List ObjectFile → Layout → SymbolTable → Occupied → Sites → Result RelocationError (List Patch)
make_patches objects layout table occupied [] = ok []
make_patches objects layout table occupied ((r, f) ∷ sites) = do
  (p, end) ← map_err (located f) (make_patch objects layout table occupied r f)
  ps ← make_patches objects layout table (((p.object, p.section, p.offset), end) ∷ occupied) sites
  ok (p ∷ ps)

abbrev pub Payloads : Type 0
Payloads = List (List (List ℕ))

abbrev pub payload_rows : List ObjectFile → Payloads
payload_rows = map (λ (o : ObjectFile). map (λ (s : Section). s.bytes) o.sections)

unfoldable pub apply_patch : Patch → Payloads → Payloads
apply_patch p = modify_at (modify_at (copy_at p.offset (take p.width p.bytes)) p.section) p.object

unfoldable pub apply_patches : List Patch → Payloads → Payloads
apply_patches [] rows = rows
apply_patches (p ∷ ps) rows = apply_patches ps (apply_patch p rows)

unfoldable pub apply_relocations : List ObjectFile → Layout → ℕ → Result RelocationError Payloads
apply_relocations objects layout max_bytes = do
  table ← map_err (λ e. plain (resolution e)) (Symbols.resolve objects)
  _ ← map_err plain (check_objects layout max_bytes 0 objects 0)
  ps ← make_patches objects layout table [] (zip (relocations_of objects) table.references)
  ok (apply_patches ps (payload_rows objects))
