-- ===== src/Linker/Executable/Emit.antt =====
-- linker/src/core/executable.rs, `write_executable_checked`: the bytes of the executable. The writes
-- into the output are listed in the order of the source, and then carried out.
use whale.Prelude.{
  ℕ, suc, ◌+◌, ◌*◌, not, ◌||◌, List, [], ◌∷◌, ◌++◌, replicate, length, get_elem?, get_in, Result,
  ok, ◌>>=◌, ◌>>◌, fail_if, or_fail, map_err, ltb, leb, if◌then◌else◌,
}
use whale.Prelude.Words.{checked_add}
use whale.Prelude.Bytes.{to_le_bytes, copy_at}
use whale.Names.{Name}
use whale.Object.{text, is_bss, ObjectFile}
use whale.Object.Validate.{ObjectError}
use whale.Target.{TargetError}
use whale.Linker.Layout.{Layout, SectionPlacement}
use whale.Linker.Symbols
use whale.Linker.Symbols.{ResolveError, ResolvedSymbol, SymbolTable, global_key, lookup}
use whale.Linker.Selection.{SelectError}
use whale.Linker.Relocation.{RelocationError, Payloads, apply_relocations}
use whale.Linker.Executable.{ImageFault, Segment, page, same_kind, executable_layout}

-- `panicked` stands for a panic of an index or a slice.
pub data LinkErrorKind : Type 0 where
  bad_input : ObjectError → LinkErrorKind
  bad_input_target : TargetError → LinkErrorKind
  selection : SelectError → LinkErrorKind
  symbol_table : ResolveError → LinkErrorKind
  layout_fault : ImageFault → LinkErrorKind
  relocation : RelocationError → LinkErrorKind
  entry panicked : LinkErrorKind

-- `out[at..at + bytes.len()].copy_from_slice(bytes)`
abbrev pub Write : Type 0
Write = ℕ × List ℕ

abbrev put16 : ℕ → ℕ → Write
put16 at value = (at, to_le_bytes 2 value)

abbrev put32 : ℕ → ℕ → Write
put32 at value = (at, to_le_bytes 4 value)

abbrev put64 : ℕ → ℕ → Write
put64 at value = (at, to_le_bytes 8 value)

unfoldable pub put : Write → List ℕ → Result LinkErrorKind (List ℕ)
put (at, bytes) out = do
  fail_if (ltb (length out) (at + length bytes)) panicked
  ok (copy_at at bytes out)

unfoldable pub put_all : List Write → List ℕ → Result LinkErrorKind (List ℕ)
put_all [] out = ok out
put_all (w ∷ ws) out = do out' ← put w out; put_all ws out'

abbrev magic : List ℕ
magic = 127 ∷ 69 ∷ 76 ∷ 70 ∷ 2 ∷ 1 ∷ 1 ∷ 0 ∷ 0 ∷ 0 ∷ 0 ∷ 0 ∷ 0 ∷ 0 ∷ 0 ∷ 0 ∷ []

abbrev pub header_writes : ℕ → List Segment → List Write
header_writes address segments =
    (0, magic)
    ∷ put16 16 2
    ∷ put16 18 62
    ∷ put32 20 1
    ∷ put64 24 address
    ∷ put64 32 64
    ∷ put16 52 64
    ∷ put16 54 56
    ∷ put16 56 (length segments + 1)
    ∷ []

abbrev pub segment_writes : ℕ → Segment → List Write
segment_writes at s =
    put32 at 1
    ∷ put32 (at + 4) s.flags
    ∷ put64 (at + 8) s.start
    ∷ put64 (at + 16) s.address
    ∷ put64 (at + 24) s.address
    ∷ put64 (at + 32) s.bytes_in_file
    ∷ put64 (at + 40) s.bytes_in_memory
    ∷ put64 (at + 48) page
    ∷ []

-- The loop over the segments, from the index `i` on.
abbrev pub segments_writes : ℕ → List Segment → List Write
segments_writes i [] = []
segments_writes i (s ∷ ss) = segment_writes (64 + i * 56) s ++ segments_writes (suc i) ss

abbrev pub stack_writes : ℕ → List Write
stack_writes stack = put32 stack 1685382481 ∷ put32 (stack + 4) 6 ∷ put64 (stack + 48) 16 ∷ []

-- One section: what BSS holds is not written.
unfoldable pub payload_write : Payloads → SectionPlacement → Result LinkErrorKind (List Write)
payload_write payloads p =
    if is_bss p.kind
    then ok []
    else (or_fail (get_in payloads p.object_index p.section_index) panicked >>= λ payload.
        ok ((p.file_offset, payload) ∷ []))

unfoldable pub payload_writes : Payloads → List SectionPlacement → Result LinkErrorKind (List Write)
payload_writes payloads [] = ok []
payload_writes payloads (p ∷ ps) = do
  w ← payload_write payloads p
  ws ← payload_writes payloads ps
  ok (w ++ ws)

unfoldable pub emit : ℕ → Layout → List Segment → Payloads → Result LinkErrorKind (List ℕ)
emit address layout segments payloads = do
  ws ← payload_writes payloads layout.sections
  put_all
      (header_writes address segments
        ++ (segments_writes 0 segments ++ (stack_writes (64 + length segments * 56) ++ ws)))
      (replicate layout.total_file_size 0)

-- The object and the section that define the entry symbol, and its value.
unfoldable pub find_entry : List ObjectFile → SymbolTable → Name → Result LinkErrorKind (ℕ × ℕ × ℕ)
find_entry objects table name = do
  selected ← or_fail (lookup (global_key name) table.symbols) entry
  owner ← or_fail selected.object_index entry
  section ← or_fail selected.section_index entry
  object ← or_fail (get_elem? objects owner) panicked
  source ← or_fail (get_elem? object.sections section) panicked
  fail_if (not (same_kind source.kind text) || leb (length source.bytes) selected.value) entry
  ok (owner, section, selected.value)

unfoldable pub write_executable_checked : List ObjectFile → Name → ℕ → Result LinkErrorKind (List ℕ)
write_executable_checked objects name max_bytes = do
  fail_if (leb (length name) 0) entry
  table ← map_err symbol_table (Symbols.resolve objects)
  (owner, section, value) ← find_entry objects table name
  (layout, segments) ← map_err layout_fault (executable_layout objects max_bytes)
  start ← or_fail (get_in layout.section_offsets owner section) panicked
  address ← or_fail (checked_add start value) entry
  payloads ← map_err relocation (apply_relocations objects layout max_bytes)
  emit address layout segments payloads
