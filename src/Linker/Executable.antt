-- ===== src/Linker/Executable.antt =====
-- linker/src/core/executable.rs: the placement of the sections in loadable segments. Messages are
-- not modelled, and a `usize` has 64 bits.
pub mod Filled
pub mod Full
pub mod Segments
pub mod Closing
pub mod Loaded
pub mod Covered
pub mod Found
pub mod Complete
pub mod Emit
pub mod Writes
pub mod Sized
pub mod Payload
pub mod Headers
pub mod Emitted
pub mod Arranged
use whale.Prelude.{
  ℕ, zero, suc, ◌+◌, ◌*◌, ◌-◌, ◌^◌, Bool, true, false, not, ◌&&◌, ◌||◌, List, [], ◌∷◌, ◌++◌, map,
  any, replicate, length, set, get_elem?, modify_at, max, Option, none, some, Result, ok, err,
  ◌>>=◌, ◌>>◌, fail_if, or_fail, map_err, ltb, leb, ◌==◌, if◌then◌else◌,
}
use whale.Prelude.Words.{checked_add, round_up}
use whale.Prelude.Bytes.{to_le_bytes, copy_at}
use whale.Names.{Name}
use whale.Target
use whale.Target.{TargetError}
use whale.Object.{
  Section, SectionKind, text, data_section, bss, read_only_data, is_bss, SizeFault, memory_size,
  file_size, ObjectFile,
}
use whale.Object.Validate
use whale.Object.Validate.{ObjectError}
use whale.Linker.Layout.{Layout, SectionPlacement}
use whale.Linker.Symbols
use whale.Linker.Symbols.{ResolveError, SymbolTable, global_key, lookup}
use whale.Linker.Selection
use whale.Linker.Selection.{LinkInput, object_input, archive_input, ArchiveObject, SelectError}
use whale.Linker.Relocation.{RelocationError, Payloads, apply_relocations}

abbrev pub base : ℕ
base = 4194304

abbrev pub page : ℕ
page = 4096

abbrev pub user_end : ℕ
user_end = 2 ^ 47 - page

pub record Segment : Type 0 where
  pub flags : ℕ
  pub start : ℕ
  pub address : ℕ
  pub bytes_in_file : ℕ
  pub bytes_in_memory : ℕ

pub data ImageFault : Type 0 where
  bad_target : TargetError → ImageFault
  bad_object : ObjectError → ImageFault
  bad_size : SizeFault → ImageFault
  alignment_overflow address_overflow memory_overflow byte_limit beyond_user_space : ImageFault

-- `align`.
unfoldable pub align : ℕ → ℕ → Result ImageFault ℕ
unfolding checked_add
align value alignment = or_fail (round_up value alignment) alignment_overflow

abbrev pub same_kind : SectionKind → SectionKind → Bool
same_kind text text = true
same_kind data_section data_section = true
same_kind bss bss = true
same_kind read_only_data read_only_data = true
same_kind _ _ = false

-- What the loops over the sections of one segment carry.
pub record Filling : Type 0 where
  pub cursor : ℕ
  pub file_end : ℕ
  pub offsets : List (List ℕ)
  pub placements : List SectionPlacement

abbrev pub placed_at : ℕ → ℕ → SectionKind → Section → ℕ → ℕ → SectionPlacement
placed_at oi si kind s va size = record {
  object_index = oi;
  section_index = si;
  kind = kind;
  align = max s.align 1;
  file_offset = va - base;
  memory_address = va;
  placed_file_size = file_size s;
  placed_memory_size = size;
}

-- The body of the innermost loop behind its `continue`.
unfoldable pub fill_section : SectionKind → ℕ → ℕ → Section → Filling → Result ImageFault Filling
fill_section kind oi si s p = do
  address ← or_fail (checked_add base p.cursor) address_overflow
  va ← align address (max s.align 1)
  size ← map_err bad_size (memory_size s)
  cursor ← or_fail (checked_add (va - base) size) memory_overflow
  ok (record {
    cursor = cursor;
    file_end = if is_bss kind then p.file_end else cursor;
    offsets = modify_at (modify_at (λ _. va) si) oi p.offsets;
    placements = p.placements ++ placed_at oi si kind s va size ∷ [];
  })

unfoldable pub fill_kind : SectionKind → ℕ → ℕ → Section → Filling → Result ImageFault Filling
fill_kind kind oi si s p = if same_kind s.kind kind then fill_section kind oi si s p else ok p

unfoldable pub fill_sections :
    SectionKind → ℕ → ℕ → List Section → Filling → Result ImageFault Filling
fill_sections kind oi si [] p = ok p
fill_sections kind oi si (s ∷ ss) p = do
  p' ← fill_kind kind oi si s p
  fill_sections kind oi (suc si) ss p'

unfoldable pub fill_objects :
    SectionKind → ℕ → List ObjectFile → Filling → Result ImageFault Filling
fill_objects kind oi [] p = ok p
fill_objects kind oi (o ∷ os) p = do
  p' ← fill_sections kind oi 0 o.sections p
  fill_objects kind (suc oi) os p'

unfoldable pub fill_kinds : List SectionKind → List ObjectFile → Filling → Result ImageFault Filling
fill_kinds [] objects p = ok p
fill_kinds (k ∷ ks) objects p = do p' ← fill_objects k 0 objects p; fill_kinds ks objects p'

-- `objects.iter().any(|o| o.sections.iter().any(|s| kinds.contains(&s.kind)))`
abbrev pub has_kinds : List SectionKind → List ObjectFile → Bool
has_kinds ks = any (λ (o : ObjectFile). any (λ (s : Section). any (same_kind s.kind) ks) o.sections)

-- What the loop over the segments carries: the parts of the layout, and the segments.
pub record Image : Type 0 where
  pub offsets : List (List ℕ)
  pub placements : List SectionPlacement
  pub file_size : ℕ
  pub memory_size : ℕ
  pub segments : List Segment

abbrev pub segment_of : ℕ → ℕ → Filling → Segment
segment_of flags start p = record {
  flags = flags;
  start = start;
  address = base + start;
  bytes_in_file = p.file_end - start;
  bytes_in_memory = p.cursor - start;
}

-- One segment whose start and first cursor are known.
unfoldable pub close_segment :
    ℕ → ℕ → ℕ → List SectionKind → List ObjectFile → ℕ → Image → Result ImageFault Image
close_segment max_bytes flags start kinds objects cursor m = do
  p ← fill_kinds kinds objects (record {
    cursor = cursor;
    file_end = cursor;
    offsets = m.offsets;
    placements = m.placements;
  })
  fail_if (ltb max_bytes p.file_end) byte_limit
  memory_end ← or_fail (checked_add base p.cursor) address_overflow
  fail_if (ltb user_end memory_end) beyond_user_space
  ok (record {
    offsets = p.offsets;
    placements = p.placements;
    file_size = p.file_end;
    memory_size = p.cursor;
    segments = m.segments ++ segment_of flags start p ∷ [];
  })

-- The text segment starts at the headers; another one on the next page, where it exists.
unfoldable pub add_text : ℕ → ℕ → List ObjectFile → Image → Result ImageFault Image
add_text max_bytes header_size objects m =
    close_segment max_bytes 5 0 (text ∷ []) objects header_size m

unfoldable pub add_paged :
    ℕ → ℕ → List SectionKind → List ObjectFile → Image → Result ImageFault Image
add_paged max_bytes flags kinds objects m = do
  start ← align m.file_size page
  close_segment max_bytes flags start kinds objects start m

abbrev pub add_segment :
    ℕ → ℕ → List SectionKind → List ObjectFile → Image → Result ImageFault Image
add_segment max_bytes flags kinds objects m =
    if has_kinds kinds objects then add_paged max_bytes flags kinds objects m else ok m

abbrev pub data_kinds : List SectionKind
data_kinds = data_section ∷ bss ∷ []

abbrev pub count : Bool → ℕ
count true = 1
count false = 0

abbrev pub header_size : List ObjectFile → ℕ
header_size objects =
    64
    + 56
      * (2 + count (has_kinds (read_only_data ∷ []) objects) + count (has_kinds data_kinds objects))

abbrev pub check_inputs : List ObjectFile → Result ImageFault (Unit {0})
check_inputs [] = ok tt
check_inputs (o ∷ os) = do
  map_err bad_target (Target.validate_amd64 o.target)
  map_err bad_object (Validate.validate o)
  check_inputs os

abbrev pub sizes_of : List Section → Result ImageFault (List ℕ)
sizes_of [] = ok []
sizes_of (s ∷ ss) = do
  size ← map_err bad_size (memory_size s)
  sizes ← sizes_of ss
  ok (size ∷ sizes)

abbrev pub sections_of : List ObjectFile → List Section
sections_of [] = []
sections_of (o ∷ os) = o.sections ++ sections_of os

-- `vec![0; o.sections.len()]` for every object.
abbrev pub zero_offsets : List ObjectFile → List (List ℕ)
zero_offsets = map (λ (o : ObjectFile). replicate (length o.sections) 0)

unfoldable pub executable_layout : List ObjectFile → ℕ → Result ImageFault (Layout × List Segment)
executable_layout objects max_bytes = do
  check_inputs objects
  let size = header_size objects
  let empty : Image = record {
    offsets = zero_offsets objects;
    placements = [];
    file_size = size;
    memory_size = size;
    segments = [];
  }
  m1 ← add_text max_bytes size objects empty
  m2 ← add_segment max_bytes 4 (read_only_data ∷ []) objects m1
  m3 ← add_segment max_bytes 6 data_kinds objects m2
  sizes ← sizes_of (sections_of objects)
  ok (
    record {
      section_offsets = m3.offsets;
      section_sizes = sizes;
      sections = m3.placements;
      base_address = base;
      total_file_size = m3.file_size;
      total_memory_size = m3.memory_size;
    },
    m3.segments,
  )
