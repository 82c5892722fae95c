-- ===== src/Linker/Layout.antt =====
-- linker/src/core/layout.rs: the placement of every input section, in input order, at one running
-- memory address and one running file offset. The loops carry the state `Progress`.
pub mod Placed
pub mod Correct
use whale.Prelude.{
  ℕ, suc, ◌-◌, Bool, true, false, not, ◌&&◌, List, [], ◌∷◌, ◌++◌, Option, none, some, Result, ok,
  err, ◌>>=◌, ◌>>◌, fail_if, or_fail, map_err, max, if◌then◌else◌,
}
use whale.Prelude.Words.{checked_add, is_power_of_two, round_up}
use whale.Target
use whale.Target.{TargetError}
use whale.Object.{Section, SectionKind, is_bss, SizeFault, memory_size, file_size, ObjectFile}

pub record SectionPlacement : Type 0 where
  pub object_index : ℕ
  pub section_index : ℕ
  pub kind : SectionKind
  pub align : ℕ
  pub file_offset : ℕ
  pub memory_address : ℕ
  pub placed_file_size : ℕ
  pub placed_memory_size : ℕ

pub record Layout : Type 0 where
  pub section_offsets : List (List ℕ)
  pub section_sizes : List ℕ
  pub sections : List SectionPlacement
  pub base_address : ℕ
  pub total_file_size : ℕ
  pub total_memory_size : ℕ

pub data LayoutFault : Type 0 where
  link_input : ℕ → TargetError → LayoutFault
  bad_alignment memory_alignment_overflow memory_size_overflow file_alignment_overflow
        file_size_overflow :
      ℕ → ℕ → LayoutFault
  section_size : SizeFault → LayoutFault

-- `align_up`.
unfoldable pub align_up : ℕ → ℕ → Option ℕ
unfolding checked_add
align_up value align = round_up value align

-- What the two loops of `Layout::compute` carry: `memory_end`, `layout.file_size`, the addresses
-- of the current object and the three lists of the layout.
pub record Progress : Type 0 where
  pub memory_end : ℕ
  pub file_end : ℕ
  pub offsets : List ℕ
  pub sizes : List ℕ
  pub placements : List SectionPlacement

-- `layout.file_size` moves only past a section that has file bytes.
unfoldable pub advance_file : SectionKind → ℕ → ℕ → ℕ → LayoutFault → Result LayoutFault ℕ
unfolding checked_add
advance_file kind file_end offset size fault =
    if is_bss kind then ok file_end else or_fail (checked_add offset size) fault

abbrev pub placement_of : ℕ → ℕ → Section → ℕ → ℕ → ℕ → SectionPlacement
placement_of oi si sec address size file_offset = record {
  object_index = oi;
  section_index = si;
  kind = sec.kind;
  align = max sec.align 1;
  file_offset = file_offset;
  memory_address = address;
  placed_file_size = file_size sec;
  placed_memory_size = size;
}

-- The body of the inner loop.
unfoldable pub place : ℕ → ℕ → Section → Progress → Result LayoutFault Progress
place oi si sec p = do
  let align = max sec.align 1
  fail_if (not (is_power_of_two align)) (bad_alignment oi si)
  size ← map_err section_size (memory_size sec)
  address ← or_fail (align_up p.memory_end align) (memory_alignment_overflow oi si)
  memory_end ← or_fail (checked_add address size) (memory_size_overflow oi si)
  file_offset ← or_fail (align_up p.file_end align) (file_alignment_overflow oi si)
  file_end ← advance_file sec.kind p.file_end file_offset (file_size sec) (file_size_overflow oi si)
  ok (record {
    memory_end = memory_end;
    file_end = file_end;
    offsets = p.offsets ++ address ∷ [];
    sizes = p.sizes ++ size ∷ [];
    placements = p.placements ++ placement_of oi si sec address size file_offset ∷ [];
  })

unfoldable pub place_sections : ℕ → ℕ → List Section → Progress → Result LayoutFault Progress
place_sections oi si [] p = ok p
place_sections oi si (s ∷ ss) p = place oi si s p >>= place_sections oi (suc si) ss

-- The outer loop; it returns the addresses of each object too.
unfoldable pub place_objects :
    ℕ → List ObjectFile → List (List ℕ) → Progress → Result LayoutFault (List (List ℕ) × Progress)
place_objects oi [] offsets p = ok (offsets, p)
place_objects oi (o ∷ os) offsets p = do
  map_err (link_input oi) (Target.validate_amd64 o.target)
  p' ← place_sections oi 0 o.sections (record p { offsets = [] })
  place_objects (suc oi) os (offsets ++ p'.offsets ∷ []) p'

unfoldable pub compute : List ObjectFile → ℕ → Result LayoutFault Layout
compute objects base = do
  let start : Progress = record {
    memory_end = base;
    file_end = 0;
    offsets = [];
    sizes = [];
    placements = [];
  }
  (offsets, p) ← place_objects 0 objects [] start
  ok (record {
    section_offsets = offsets;
    section_sizes = p.sizes;
    sections = p.placements;
    base_address = base;
    total_file_size = p.file_end;
    total_memory_size = p.memory_end - base;
  })
