-- ===== src/Linker/Executable/Emitted.antt =====
-- The bytes of the executable: headers and payloads stand where they belong, and writing them
-- never panics.
use whale.Prelude.{
  ℕ, ◌+◌, ◌*◌, ◌%◌, ◌^◌, ◌<◌, arith, ◌≡◌, sym, subst, ◌∙◌, List, ◌++◌, some, ok, ok-injective,
  >>=-eq-ok, fail_if, or_fail, or_fail-some, map_err, map_err-ok, All, All-append, All-split,
  length, length-replicate, replicate, get_in, leb,
}
use whale.Prelude.Words.{checked_add, checked_add-some}
use whale.Names.{Name}
use whale.Object.{ObjectFile}
use whale.Linker.Layout.{Layout}
use whale.Linker.Symbols
use whale.Linker.Symbols.{SymbolTable}
use whale.Linker.Relocation.{Payloads, apply_relocations}
use whale.Linker.Executable.{Segment, header_size, executable_layout}
use whale.Linker.Executable.Loaded.{executable_layout-IsLoadable}
use whale.Linker.Executable.Emit.{
  LinkErrorKind, panicked, entry, symbol_table, layout_fault, relocation, payload_writes,
  header_writes, segments_writes, stack_writes, emit, find_entry, write_executable_checked,
}
use whale.Linker.Executable.Writes.{
  Ascends, Wrote, Fits, put_all-length, put_all-Wrote, put_all-returns,
}
use whale.Linker.Executable.Headers.{
  number, IsHeader, AreLoads, IsStack, header_writes-IsHeader, segments_writes-AreLoads,
  stack_writes-IsStack,
}
use whale.Linker.Executable.Payload.{InFile, payload_writes-InFile}
use whale.Linker.Executable.Arranged.{
  header_size-length, all_writes, layout_writes, all_writes-Ascends, all_writes-Fits,
}

-- Once the sections are placed and the relocations are applied, writing the executable returns:
-- no index and no slice of the emission panics, whatever the entry address.
pub emit-returns :
    (objects : List ObjectFile) (max_bytes : ℕ) (l : Layout) (segments : List Segment)
    (payloads : Payloads) (address : ℕ)
    → executable_layout objects max_bytes ≡ ok (l, segments)
    → apply_relocations objects l max_bytes ≡ ok payloads
    → (out : List ℕ) × (emit address l segments payloads ≡ ok out)
unfolding emit
emit-returns objects max_bytes l segments payloads address hl hr =
    let good = executable_layout-IsLoadable objects max_bytes l segments hl in
    let w = layout_writes objects max_bytes l segments payloads hl hr in
    let zeros = replicate l.total_file_size 0 in
    let size : length zeros ≡ l.total_file_size = length-replicate l.total_file_size 0 in
    let (out, h) = put_all-returns (all_writes address segments w.writes) zeros (
      subst (λ n. All (Fits n) (all_writes address segments w.writes)) (sym size)
        (all_writes-Fits address segments w.writes (header_size objects) l.total_file_size
          (header_size-length objects max_bytes l segments hl) good.headed w.fits)) in
    (out, rw w.returned h)

-- What the bytes `out` of an executable hold: the values of the steps, the size, the headers, and the
-- payload of every section that is not BSS.
pub record IsElf (objects : List ObjectFile) (name : Name) (max_bytes : ℕ) (out : List ℕ)
    : Type 0 where
  pub table : SymbolTable
  pub owner : ℕ
  pub section : ℕ
  pub value : ℕ
  pub layout : Layout
  pub segments : List Segment
  pub start : ℕ
  pub payloads : Payloads
  pub resolved : Symbols.resolve objects ≡ ok table
  pub defined : find_entry objects table name ≡ ok (owner, section, value)
  pub laid_out : executable_layout objects max_bytes ≡ ok (layout, segments)
  pub at_start : get_in layout.section_offsets owner section ≡ some start
  pub relocated : apply_relocations objects layout max_bytes ≡ ok payloads
  pub size : length out ≡ layout.total_file_size
  pub headers : All (Wrote out) (
      header_writes (start + value) segments
      ++ (segments_writes 0 segments ++ stack_writes (64 + length segments * 56)))
  pub header : IsHeader out (start + value) (length segments + 1)
  pub entry_point : number out 24 8 ≡ start + value
  pub loads : AreLoads out 0 segments
  pub stack : IsStack out (64 + length segments * 56)
  pub sections : All (InFile payloads out) layout.sections

-- What a run of `emit` writes.
record Emitted (address : ℕ) (l : Layout) (segments : List Segment) (payloads : Payloads)
    (out : List ℕ) : Type 0 where
  size : length out ≡ l.total_file_size
  headers : All (Wrote out) (
      header_writes address segments
      ++ (segments_writes 0 segments ++ stack_writes (64 + length segments * 56)))
  sections : All (InFile payloads out) l.sections

emit-Emitted :
    (objects : List ObjectFile) (max_bytes : ℕ) (l : Layout) (segments : List Segment)
    (payloads : Payloads) (address : ℕ) (out : List ℕ)
    → executable_layout objects max_bytes ≡ ok (l, segments)
    → apply_relocations objects l max_bytes ≡ ok payloads
    → emit address l segments payloads ≡ ok out
    → Emitted address l segments payloads out
unfolding emit
emit-Emitted objects max_bytes l segments payloads address out hl hr h =
    let (ws, hw, hp) = >>=-eq-ok (payload_writes payloads l.sections) _ h in
    let w = layout_writes objects max_bytes l segments payloads hl hr in
    let same : w.writes ≡ ws = ok-injective {E = LinkErrorKind} w.writes ws (sym w.returned ∙ hw) in
    let zeros = replicate l.total_file_size 0 in
    let stack = 64 + length segments * 56 in
    let wrote =
      put_all-Wrote (all_writes address segments ws) 0 l.total_memory_size zeros out
        (all_writes-Ascends address segments ws (header_size objects) l.total_memory_size
          (header_size-length objects max_bytes l segments hl)
          (subst (λ v. Ascends (header_size objects) v l.total_memory_size) same w.ascends))
        hp in
    let (first, r1) =
      All-split (Wrote out) (header_writes address segments)
        (segments_writes 0 segments ++ (stack_writes stack ++ ws)) wrote in
    let (second, r2) =
      All-split (Wrote out) (segments_writes 0 segments) (stack_writes stack ++ ws) r1 in
    let (third, last) = All-split (Wrote out) (stack_writes stack) ws r2 in
    record {
      size =
          put_all-length (all_writes address segments ws) zeros out hp
          ∙ length-replicate l.total_file_size 0;
      headers =
          All-append (Wrote out) (header_writes address segments)
            (segments_writes 0 segments ++ stack_writes stack) first
            (All-append (Wrote out) (segments_writes 0 segments) (stack_writes stack) second third);
      sections = payload_writes-InFile payloads out l.sections ws hw last;
    }

mod-lt_lem : (n : ℕ) → n < 2 ^ 64 → n % 2 ^ 64 ≡ n
mod-lt_lem n h = omega arith

headers_split :
    (out : List ℕ) (address : ℕ) (segments : List Segment)
    → All (Wrote out) (
        header_writes address segments
        ++ (segments_writes 0 segments ++ stack_writes (64 + length segments * 56)))
    → All (Wrote out) (header_writes address segments)
      × (All (Wrote out) (segments_writes 0 segments)
          × All (Wrote out) (stack_writes (64 + length segments * 56)))
headers_split out address segments h =
    let stack = stack_writes (64 + length segments * 56) in
    let (first, rest) =
      All-split (Wrote out) (header_writes address segments) (segments_writes 0 segments ++ stack)
        h in
    (first, All-split (Wrote out) (segments_writes 0 segments) stack rest)

-- The executable that is returned holds what its parts computed: its header has the entry address,
-- which is the address of the section that defines the entry symbol plus the symbol's value; its
-- program headers, read back from the bytes, describe the segments and the stack; and at the file offset of every section that is not BSS
-- stands the relocated payload of that section. Nothing that is written later overwrites it, and
-- the file is as long as the layout says.
pub write_executable-IsElf :
    (objects : List ObjectFile) (name : Name) (max_bytes : ℕ) (out : List ℕ)
    → write_executable_checked objects name max_bytes ≡ ok out
    → IsElf objects name max_bytes out
unfolding write_executable_checked
write_executable-IsElf objects name max_bytes out h =
    let (_, hn, h0) = >>=-eq-ok (fail_if (leb (length name) 0) entry) _ h in
    let (table, ht, h1) = >>=-eq-ok (map_err symbol_table (Symbols.resolve objects)) _ h0 in
    let ((owner, section, value), he, h2) = >>=-eq-ok (find_entry objects table name) _ h1 in
    let ((l, segments), hl, h3) =
      >>=-eq-ok (map_err layout_fault (executable_layout objects max_bytes)) _ h2 in
    let (start, hs, h4) =
      >>=-eq-ok (or_fail (get_in l.section_offsets owner section) panicked) _ h3 in
    let (address, ha, h5) = >>=-eq-ok (or_fail (checked_add start value) entry) _ h4 in
    let (payloads, hr, h6) =
      >>=-eq-ok (map_err relocation (apply_relocations objects l max_bytes)) _ h5 in
    let laid = map_err-ok layout_fault (executable_layout objects max_bytes) hl in
    let applied = map_err-ok relocation (apply_relocations objects l max_bytes) hr in
    let (sum, bound) =
      checked_add-some start value (or_fail-some (checked_add start value) entry ha) in
    let small : start + value < 2 ^ 64 = subst (λ n. n < 2 ^ 64) sum bound in
    let e =
      emit-Emitted objects max_bytes l segments payloads (start + value) out laid applied
        (subst (λ a. emit a l segments payloads ≡ ok out) sum h6) in
    let (first, programs) = headers_split out (start + value) segments e.headers in
    let header = header_writes-IsHeader out (start + value) segments first in
    record {
      table = table;
      owner = owner;
      section = section;
      value = value;
      layout = l;
      segments = segments;
      start = start;
      payloads = payloads;
      resolved = map_err-ok symbol_table (Symbols.resolve objects) ht;
      defined = he;
      laid_out = laid;
      at_start = or_fail-some (get_in l.section_offsets owner section) panicked hs;
      relocated = applied;
      size = e.size;
      headers = e.headers;
      header = header;
      entry_point = header.entry_address ∙ mod-lt_lem (start + value) small;
      loads = segments_writes-AreLoads out 0 segments programs.0;
      stack = stack_writes-IsStack out (64 + length segments * 56) programs.1;
      sections = e.sections;
    }
