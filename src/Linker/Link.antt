-- ===== src/Linker/Link.antt =====
-- linker/src/core/linker.rs: the inputs of a link, and the steps from them to the executable. Inputs
-- that are read from bytes are those of the archive and object readers, which are not modelled here;
-- the read budget is theirs. There is one output format.
use whale.Prelude.{
  ℕ, ◌≡◌, List, [], ◌∷◌, ◌++◌, Result, ok, ◌>>=◌, ◌>>◌, >>=-eq-ok, map_err, map_err-ok, All,
}
use whale.Names.{Name}
use whale.Target
use whale.Object.{ObjectFile}
use whale.Object.Validate
use whale.Object.Validate.Sound.{IsValid, validate-IsValid}
use whale.Linker.Symbols
use whale.Linker.Selection
use whale.Linker.Selection.{LinkInput, object_input, archive_input, ArchiveObject}
use whale.Linker.Executable.Emit.{
  LinkErrorKind, bad_input, bad_input_target, selection, symbol_table, write_executable_checked,
}
use whale.Linker.Executable.Emitted.{IsElf, write_executable-IsElf}

-- `entry_name` is the field `entry`.
pub record Linker : Type 0 where
  pub inputs : List LinkInput
  pub entry_name : Name

-- `Linker::new`: no inputs, and the entry `_start`.
abbrev pub new : Linker
new = record { inputs = []; entry_name = 95 ∷ 115 ∷ 116 ∷ 97 ∷ 114 ∷ 116 ∷ [] }

unfoldable pub add_object : ObjectFile → Linker → Linker
add_object o l = record l { inputs = l.inputs ++ object_input o ∷ [] }

unfoldable pub set_entry : Name → Linker → Linker
set_entry name l = record l { entry_name = name }

unfoldable pub check_members : List ArchiveObject → Result LinkErrorKind (Unit {0})
check_members [] = ok tt
check_members (m ∷ ms) = do map_err bad_input (Validate.validate m.object); check_members ms

unfoldable pub check_input : LinkInput → Result LinkErrorKind (Unit {0})
check_input (object_input o) = do
  map_err bad_input_target (Target.validate_amd64 o.target)
  map_err bad_input (Validate.validate o)
check_input (archive_input members) = check_members members

unfoldable pub check_inputs : List LinkInput → Result LinkErrorKind (Unit {0})
check_inputs [] = ok tt
check_inputs (i ∷ is) = do check_input i; check_inputs is

unfoldable pub link_with_limit : Linker → ℕ → Result LinkErrorKind (List ℕ)
link_with_limit l max_bytes = do
  check_inputs l.inputs
  objects ← map_err selection (Selection.select l.inputs l.entry_name max_bytes)
  _ ← map_err symbol_table (Symbols.resolve objects)
  write_executable_checked objects l.entry_name max_bytes

-- `link_checked`
abbrev pub link_checked : Linker → Result LinkErrorKind (List ℕ)
link_checked l = link_with_limit l 268435456

-- The objects of an input.
abbrev pub IsInput : LinkInput → Type 0
IsInput (object_input o) = IsValid o
IsInput (archive_input members) = All (λ (m : ArchiveObject). IsValid m.object) members

check_members-All :
    (ms : List ArchiveObject)
    → check_members ms ≡ ok tt
    → All (λ (m : ArchiveObject). IsValid m.object) ms
unfolding check_members
check_members-All [] h = tt
check_members-All (m ∷ ms) h =
    let (_, h1, h2) = >>=-eq-ok (map_err bad_input (Validate.validate m.object)) _ h in
    (
      validate-IsValid m.object (map_err-ok bad_input (Validate.validate m.object) h1),
      check_members-All ms h2,
    )

check_input-IsInput : (i : LinkInput) → check_input i ≡ ok tt → IsInput i
unfolding check_input
check_input-IsInput (object_input o) h =
    let (_, h1, h2) = >>=-eq-ok (map_err bad_input_target (Target.validate_amd64 o.target)) _ h in
    validate-IsValid o (map_err-ok bad_input (Validate.validate o) h2)
check_input-IsInput (archive_input members) h = check_members-All members h

check_inputs-All : (is : List LinkInput) → check_inputs is ≡ ok tt → All IsInput is
unfolding check_inputs
check_inputs-All [] h = tt
check_inputs-All (i ∷ is) h =
    let (_, h1, h2) = >>=-eq-ok (check_input i) _ h in
    (check_input-IsInput i h1, check_inputs-All is h2)

-- A link that returns had well-formed inputs only; it selected objects from them, and the bytes that
-- it returns are an executable of exactly the selected objects with the entry symbol of the linker.
pub link-IsElf :
    (l : Linker) (max_bytes : ℕ) (out : List ℕ)
    → link_with_limit l max_bytes ≡ ok out
    → All IsInput l.inputs
      × ((objects : List ObjectFile) × (Selection.select l.inputs l.entry_name max_bytes
            ≡ ok objects)
          × IsElf objects l.entry_name max_bytes out)
unfolding link_with_limit
link-IsElf l max_bytes out h =
    let (_, hi, h1) = >>=-eq-ok (check_inputs l.inputs) _ h in
    let (objects, hs, h2) =
      >>=-eq-ok (map_err selection (Selection.select l.inputs l.entry_name max_bytes)) _ h1 in
    let (_, hr, h3) = >>=-eq-ok (map_err symbol_table (Symbols.resolve objects)) _ h2 in
    (
      check_inputs-All l.inputs hi,
      (
        objects,
        map_err-ok selection (Selection.select l.inputs l.entry_name max_bytes) hs,
        write_executable-IsElf objects l.entry_name max_bytes out h3,
      ),
    )
