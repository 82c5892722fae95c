-- ===== src/Tests/Executing.antt =====
-- Selection, relocation and the executable, for one archive whose only member defines the entry
-- symbol and calls it.
use whale.Prelude.{
  ℕ, ◌≡◌, ◌≢◌, ◌≤◌, refl, Bool, true, false, List, [], ◌∷◌, All, some, none, ok, err, replicate,
  length, get_elem?, arith,
}
use whale.Names.{Name}
use whale.Target.{amd64_elf}
use whale.Object.{
  Section, text, global, default_visible, function, ObjectSymbol, relative32, ObjectRelocation,
  ObjectFile,
}
use whale.Prelude.Int.{pos}
use whale.Linker.Layout.{Layout, SectionPlacement}
use whale.Linker.Symbols.{SymbolTable, global_key, resolved_of, reference_of, resolve}
use whale.Linker.Selection.{
  ArchiveObject, LinkInput, archive_input, Selection, select, select_archive, rounds_exhausted,
}
use whale.Linker.Selection.Budget.{payload, select_bounds}
use whale.Linker.Selection.Rounds.{select_terminates}
use whale.Linker.Relocation.{Payloads, payload_rows, zip, relocations_of, apply_relocations}
use whale.Linker.Relocation.Written.{read_field}
use whale.Linker.Relocation.Applied.{
  IsRelocated, apply_relocations-IsRelocated, apply_relocations-keeps,
}
use whale.Linker.Executable.{Segment, base, executable_layout}
use whale.Linker.Executable.Loaded.{IsLoadable, executable_layout-IsLoadable}
use whale.Linker.Executable.Covered.{Located}
use whale.Linker.Executable.Complete.{executable_layout-Located}
use whale.Linker.Executable.Emit.{emit, write_executable_checked}
use whale.Linker.Executable.Emitted.{IsElf, write_executable-IsElf, emit-returns}
use whale.Linker.Link.{Linker, IsInput, link_with_limit, link-IsElf}

abbrev start : Name
start = 115 ∷ []

abbrev code : Section
code = record { name = 116 ∷ []; kind = text; bytes = replicate 20 144; zero_fill = 0; align = 16 }

abbrev start_symbol : ObjectSymbol
start_symbol = record {
  kind = function;
  name = start;
  section_index = some 0;
  value = 4;
  size = 16;
  binding = global;
  visibility = default_visible;
}

abbrev call : ObjectRelocation
call = record { section_index = 0; offset = 8; symbol = start; addend = pos 0; kind = relative32 }

abbrev caller : ObjectFile
caller = record {
  target = amd64_elf;
  sections = code ∷ [];
  symbols = start_symbol ∷ [];
  relocations = call ∷ [];
}

abbrev member : ArchiveObject
member = record { name = 109 ∷ []; object = caller }

abbrev inputs : List LinkInput
inputs = archive_input (member ∷ []) ∷ []

caller_selected : select inputs start 4096 ≡ ok (caller ∷ [])
unfolding select whale.Linker.Selection.select_inputs whale.Linker.Selection.select_input
    select_archive whale.Linker.Selection.unresolved whale.Linker.Selection.define_objects
    whale.Linker.Selection.need_objects whale.Linker.Selection.scan_members
    whale.Linker.Selection.scan_symbols whale.Linker.Selection.take_member
    whale.Linker.Selection.add_object whale.Linker.Selection.check_payload
    whale.Prelude.Words.checked_add whale.Linker.Selection.define_symbols
    whale.Linker.Selection.need_relocations
caller_selected = refl

select_bounds_example : (length (caller ∷ []) ≤ 4096) × (payload (caller ∷ []) ≤ 4096)
select_bounds_example = select_bounds inputs start 4096 (caller ∷ []) caller_selected

select_terminates_example : select inputs start 4096 ≢ err rounds_exhausted
select_terminates_example = select_terminates inputs start 4096

abbrev table : SymbolTable
table = record {
  symbols = (global_key start, resolved_of 0 start_symbol) ∷ [];
  references = reference_of 0 call (global_key start) false ∷ [];
}

caller_resolves : resolve (caller ∷ []) ≡ ok table
unfolding resolve whale.Target.validate_amd64 whale.Object.Validate.validate whale.Target.validate
    whale.Object.Validate.check_section whale.Object.Validate.check_symbol
    whale.Object.Validate.check_relocation whale.Linker.Symbols.add_symbol
    whale.Linker.Symbols.add_reference
caller_resolves = refl

abbrev code_placed : SectionPlacement
code_placed = record {
  object_index = 0;
  section_index = 0;
  kind = text;
  align = 16;
  file_offset = 176;
  memory_address = 4194480;
  placed_file_size = 20;
  placed_memory_size = 20;
}

abbrev image : Layout
image = record {
  section_offsets = (4194480 ∷ []) ∷ [];
  section_sizes = 20 ∷ [];
  sections = code_placed ∷ [];
  base_address = base;
  total_file_size = 196;
  total_memory_size = 196;
}

abbrev code_segment : Segment
code_segment = record {
  flags = 5;
  start = 0;
  address = 4194304;
  bytes_in_file = 196;
  bytes_in_memory = 196;
}

caller_laid_out : executable_layout (caller ∷ []) 4096 ≡ ok (image, code_segment ∷ [])
unfolding whale.Linker.Executable.align whale.Linker.Executable.fill_section
    whale.Linker.Executable.fill_kind whale.Linker.Executable.fill_sections
    whale.Linker.Executable.fill_objects whale.Linker.Executable.fill_kinds
    whale.Linker.Executable.close_segment whale.Linker.Executable.add_text
    whale.Linker.Executable.add_paged whale.Linker.Executable.executable_layout
    whale.Object.Validate.check_section whale.Object.Validate.check_sections
    whale.Object.Validate.check_extent whale.Object.Validate.check_symbol
    whale.Object.Validate.check_symbols whale.Object.Validate.check_relocation
    whale.Object.Validate.check_relocations whale.Object.Validate.validate
    whale.Target.validate_amd64 whale.Target.validate whale.Prelude.Words.checked_add
    whale.Prelude.Words.checked_mul whale.Prelude.Words.wrapping_neg
    whale.Prelude.Words.is_power_of_two whale.Object.memory_size whale.Object.file_size
    whale.Object.coff_encoding whale.Object.macho_encoding whale.Object.elf_encoding
    whale.Object.encoding
caller_laid_out = refl

executable_layout-IsLoadable_example : IsLoadable (caller ∷ []) 4096 image (code_segment ∷ [])
executable_layout-IsLoadable_example =
    executable_layout-IsLoadable (caller ∷ []) 4096 image (code_segment ∷ []) caller_laid_out

executable_layout-Located_example : Located 0 0 code ((4194480 ∷ []) ∷ []) (code_placed ∷ [])
executable_layout-Located_example =
    executable_layout-Located (caller ∷ []) 4096 image (code_segment ∷ []) 0 0 caller code
      caller_laid_out refl refl

abbrev relocated : Payloads
relocated =
    ((144 ∷ 144 ∷ 144 ∷ 144 ∷ 144 ∷ 144 ∷ 144 ∷ 144 ∷ 252 ∷ 255 ∷ 255 ∷ 255 ∷ 144 ∷ 144 ∷ 144 ∷ 144
        ∷ 144 ∷ 144 ∷ 144 ∷ 144 ∷ [])
      ∷ [])
    ∷ []

caller_relocated : apply_relocations (caller ∷ []) image 4096 ≡ ok relocated
unfolding whale.Linker.Symbols.add_symbol whale.Linker.Symbols.add_reference
    whale.Linker.Symbols.resolve whale.Object.Validate.check_section
    whale.Object.Validate.check_sections whale.Object.Validate.check_extent
    whale.Object.Validate.check_symbol whale.Object.Validate.check_symbols
    whale.Object.Validate.check_relocation whale.Object.Validate.check_relocations
    whale.Object.Validate.validate whale.Target.validate_amd64 whale.Target.validate
    whale.Prelude.Words.checked_add whale.Prelude.Words.checked_mul whale.Prelude.Words.wrapping_neg
    whale.Prelude.Words.is_power_of_two whale.Object.memory_size whale.Object.file_size
    whale.Object.coff_encoding whale.Object.macho_encoding whale.Object.elf_encoding
    whale.Object.encoding whale.Prelude.Bytes.to_le_bytes whale.Prelude.Bytes.from_le_bytes
    whale.Prelude.Bytes.copy_at whale.Prelude.Int.◌+ℤ◌ whale.Prelude.Int.◌-ℤ◌ whale.Prelude.Int.◌*ℤ◌
    whale.Prelude.Int.wrap whale.Linker.Relocation.check_extent
    whale.Linker.Relocation.check_sections whale.Linker.Relocation.check_objects
    whale.Linker.Relocation.target_address whale.Linker.Relocation.place_address
    whale.Linker.Relocation.patch_value whale.Linker.Relocation.fits
    whale.Linker.Relocation.entry_before whale.Linker.Relocation.entry_after
    whale.Linker.Relocation.overlaps whale.Linker.Relocation.relocation_value
    whale.Linker.Relocation.make_patch whale.Linker.Relocation.make_patches
    whale.Linker.Relocation.apply_patch whale.Linker.Relocation.apply_patches
    whale.Linker.Relocation.apply_relocations
caller_relocated = refl

apply_relocations-IsRelocated_example :
    All (IsRelocated image table relocated) (zip (relocations_of (caller ∷ [])) table.references)
apply_relocations-IsRelocated_example =
    apply_relocations-IsRelocated (caller ∷ []) image 4096 table relocated caller_resolves
      caller_relocated

apply_relocations-keeps_example :
    read_field relocated 0 0 12 8 ≡ read_field (payload_rows (caller ∷ [])) 0 0 12 8
apply_relocations-keeps_example =
    apply_relocations-keeps (caller ∷ []) image 4096 table relocated 0 0 12 8 caller_resolves
      caller_relocated (refl, tt)

emit-returns_example : (out : List ℕ) × (emit 4194484 image (code_segment ∷ []) relocated ≡ ok out)
emit-returns_example =
    emit-returns (caller ∷ []) 4096 image (code_segment ∷ []) relocated 4194484 caller_laid_out
      caller_relocated

abbrev file : List ℕ
file =
    127 ∷ 69 ∷ 76 ∷ 70 ∷ 2 ∷ 1 ∷ 1 ∷ 0 ∷ 0 ∷ 0 ∷ 0 ∷ 0 ∷ 0 ∷ 0 ∷ 0 ∷ 0 ∷ 2 ∷ 0 ∷ 62 ∷ 0 ∷ 1 ∷ 0 ∷ 0
    ∷ 0 ∷ 180 ∷ 0 ∷ 64 ∷ 0 ∷ 0 ∷ 0 ∷ 0 ∷ 0 ∷ 64 ∷ 0 ∷ 0 ∷ 0 ∷ 0 ∷ 0 ∷ 0 ∷ 0 ∷ 0 ∷ 0 ∷ 0 ∷ 0 ∷ 0 ∷ 0
    ∷ 0 ∷ 0 ∷ 0 ∷ 0 ∷ 0 ∷ 0 ∷ 64 ∷ 0 ∷ 56 ∷ 0 ∷ 2 ∷ 0 ∷ 0 ∷ 0 ∷ 0 ∷ 0 ∷ 0 ∷ 0 ∷ 1 ∷ 0 ∷ 0 ∷ 0 ∷ 5
    ∷ 0 ∷ 0 ∷ 0 ∷ 0 ∷ 0 ∷ 0 ∷ 0 ∷ 0 ∷ 0 ∷ 0 ∷ 0 ∷ 0 ∷ 0 ∷ 64 ∷ 0 ∷ 0 ∷ 0 ∷ 0 ∷ 0 ∷ 0 ∷ 0 ∷ 64 ∷ 0
    ∷ 0 ∷ 0 ∷ 0 ∷ 0 ∷ 196 ∷ 0 ∷ 0 ∷ 0 ∷ 0 ∷ 0 ∷ 0 ∷ 0 ∷ 196 ∷ 0 ∷ 0 ∷ 0 ∷ 0 ∷ 0 ∷ 0 ∷ 0 ∷ 0 ∷ 16 ∷ 0
    ∷ 0 ∷ 0 ∷ 0 ∷ 0 ∷ 0 ∷ 81 ∷ 229 ∷ 116 ∷ 100 ∷ 6 ∷ 0 ∷ 0 ∷ 0 ∷ 0 ∷ 0 ∷ 0 ∷ 0 ∷ 0 ∷ 0 ∷ 0 ∷ 0 ∷ 0
    ∷ 0 ∷ 0 ∷ 0 ∷ 0 ∷ 0 ∷ 0 ∷ 0 ∷ 0 ∷ 0 ∷ 0 ∷ 0 ∷ 0 ∷ 0 ∷ 0 ∷ 0 ∷ 0 ∷ 0 ∷ 0 ∷ 0 ∷ 0 ∷ 0 ∷ 0 ∷ 0 ∷ 0
    ∷ 0 ∷ 0 ∷ 0 ∷ 0 ∷ 0 ∷ 0 ∷ 0 ∷ 16 ∷ 0 ∷ 0 ∷ 0 ∷ 0 ∷ 0 ∷ 0 ∷ 0 ∷ 144 ∷ 144 ∷ 144 ∷ 144 ∷ 144 ∷ 144
    ∷ 144 ∷ 144 ∷ 252 ∷ 255 ∷ 255 ∷ 255 ∷ 144 ∷ 144 ∷ 144 ∷ 144 ∷ 144 ∷ 144 ∷ 144 ∷ 144 ∷ []

caller_written : write_executable_checked (caller ∷ []) start 4096 ≡ ok file
unfolding whale.Linker.Symbols.add_symbol whale.Linker.Symbols.add_reference
    whale.Linker.Symbols.resolve whale.Object.Validate.check_section
    whale.Object.Validate.check_sections whale.Object.Validate.check_extent
    whale.Object.Validate.check_symbol whale.Object.Validate.check_symbols
    whale.Object.Validate.check_relocation whale.Object.Validate.check_relocations
    whale.Object.Validate.validate whale.Target.validate_amd64 whale.Target.validate
    whale.Prelude.Words.checked_add whale.Prelude.Words.checked_mul whale.Prelude.Words.wrapping_neg
    whale.Prelude.Words.is_power_of_two whale.Object.memory_size whale.Object.file_size
    whale.Object.coff_encoding whale.Object.macho_encoding whale.Object.elf_encoding
    whale.Object.encoding whale.Prelude.Bytes.to_le_bytes whale.Prelude.Bytes.from_le_bytes
    whale.Prelude.Bytes.copy_at whale.Prelude.Int.◌+ℤ◌ whale.Prelude.Int.◌-ℤ◌ whale.Prelude.Int.◌*ℤ◌
    whale.Prelude.Int.wrap whale.Linker.Relocation.check_extent
    whale.Linker.Relocation.check_sections whale.Linker.Relocation.check_objects
    whale.Linker.Relocation.target_address whale.Linker.Relocation.place_address
    whale.Linker.Relocation.patch_value whale.Linker.Relocation.fits
    whale.Linker.Relocation.entry_before whale.Linker.Relocation.entry_after
    whale.Linker.Relocation.overlaps whale.Linker.Relocation.relocation_value
    whale.Linker.Relocation.make_patch whale.Linker.Relocation.make_patches
    whale.Linker.Relocation.apply_patch whale.Linker.Relocation.apply_patches
    whale.Linker.Relocation.apply_relocations whale.Linker.Executable.align
    whale.Linker.Executable.fill_section whale.Linker.Executable.fill_kind
    whale.Linker.Executable.fill_sections whale.Linker.Executable.fill_objects
    whale.Linker.Executable.fill_kinds whale.Linker.Executable.close_segment
    whale.Linker.Executable.add_text whale.Linker.Executable.add_paged
    whale.Linker.Executable.executable_layout whale.Linker.Executable.Emit.put
    whale.Linker.Executable.Emit.put_all whale.Linker.Executable.Emit.payload_write
    whale.Linker.Executable.Emit.payload_writes whale.Linker.Executable.Emit.emit
    whale.Linker.Executable.Emit.find_entry whale.Linker.Executable.Emit.write_executable_checked
caller_written = refl

write_executable-IsElf_example : IsElf (caller ∷ []) start 4096 file
write_executable-IsElf_example = write_executable-IsElf (caller ∷ []) start 4096 file caller_written

abbrev linker : Linker
linker = record { inputs = inputs; entry_name = start }

caller_links : link_with_limit linker 4096 ≡ ok file
unfolding whale.Linker.Symbols.add_symbol whale.Linker.Symbols.add_reference
    whale.Linker.Symbols.resolve whale.Object.Validate.check_section
    whale.Object.Validate.check_sections whale.Object.Validate.check_extent
    whale.Object.Validate.check_symbol whale.Object.Validate.check_symbols
    whale.Object.Validate.check_relocation whale.Object.Validate.check_relocations
    whale.Object.Validate.validate whale.Target.validate_amd64 whale.Target.validate
    whale.Prelude.Words.checked_add whale.Prelude.Words.checked_mul whale.Prelude.Words.wrapping_neg
    whale.Prelude.Words.is_power_of_two whale.Object.memory_size whale.Object.file_size
    whale.Object.coff_encoding whale.Object.macho_encoding whale.Object.elf_encoding
    whale.Object.encoding whale.Prelude.Bytes.to_le_bytes whale.Prelude.Bytes.from_le_bytes
    whale.Prelude.Bytes.copy_at whale.Prelude.Int.◌+ℤ◌ whale.Prelude.Int.◌-ℤ◌ whale.Prelude.Int.◌*ℤ◌
    whale.Prelude.Int.wrap whale.Linker.Relocation.check_extent
    whale.Linker.Relocation.check_sections whale.Linker.Relocation.check_objects
    whale.Linker.Relocation.target_address whale.Linker.Relocation.place_address
    whale.Linker.Relocation.patch_value whale.Linker.Relocation.fits
    whale.Linker.Relocation.entry_before whale.Linker.Relocation.entry_after
    whale.Linker.Relocation.overlaps whale.Linker.Relocation.relocation_value
    whale.Linker.Relocation.make_patch whale.Linker.Relocation.make_patches
    whale.Linker.Relocation.apply_patch whale.Linker.Relocation.apply_patches
    whale.Linker.Relocation.apply_relocations whale.Linker.Executable.align
    whale.Linker.Executable.fill_section whale.Linker.Executable.fill_kind
    whale.Linker.Executable.fill_sections whale.Linker.Executable.fill_objects
    whale.Linker.Executable.fill_kinds whale.Linker.Executable.close_segment
    whale.Linker.Executable.add_text whale.Linker.Executable.add_paged
    whale.Linker.Executable.executable_layout whale.Linker.Executable.Emit.put
    whale.Linker.Executable.Emit.put_all whale.Linker.Executable.Emit.payload_write
    whale.Linker.Executable.Emit.payload_writes whale.Linker.Executable.Emit.emit
    whale.Linker.Executable.Emit.find_entry whale.Linker.Executable.Emit.write_executable_checked
    whale.Linker.Selection.define_symbols whale.Linker.Selection.define_objects
    whale.Linker.Selection.need_relocations whale.Linker.Selection.need_objects
    whale.Linker.Selection.unresolved whale.Linker.Selection.check_payload
    whale.Linker.Selection.scan_symbols whale.Linker.Selection.scan_members
    whale.Linker.Selection.add_object whale.Linker.Selection.take_member
    whale.Linker.Selection.select_archive whale.Linker.Selection.select_input
    whale.Linker.Selection.select_inputs whale.Linker.Selection.select whale.Linker.Link.add_object
    whale.Linker.Link.set_entry whale.Linker.Link.check_members whale.Linker.Link.check_input
    whale.Linker.Link.check_inputs whale.Linker.Link.link_with_limit
caller_links = refl

link-IsElf_example :
    All IsInput inputs
    × ((objects : List ObjectFile) × (select inputs start 4096 ≡ ok objects)
        × IsElf objects start 4096 file)
link-IsElf_example = link-IsElf linker 4096 file caller_links
