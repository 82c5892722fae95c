-- ===== src/Tests/Linking.antt =====
-- An object with a text section, a BSS section and one relocation, linked on its own.
use whale.Prelude.{
  ℕ, ◌≡◌, ◌<◌, ◌≤◌, ◌+◌, refl, List, [], ◌∷◌, map, All, some, none, ok, replicate, get_elem?, true,
  arith, false,
}
use whale.Prelude.Int.{pos}
use whale.Prelude.Words.{IsU64, IsPower, Rounds}
use whale.Target.{amd64_elf, amd64_storage}
use whale.Object.{
  Section, text, bss, global, weak, default_visible, function, ObjectSymbol, relative32,
  ObjectRelocation, ObjectFile,
}
use whale.Object.Validate.{validate}
use whale.Object.Validate.Sound.{IsValid, validate-IsValid}
use whale.Linker.Layout.{align_up, Layout, SectionPlacement, compute, place_objects}
use whale.Linker.Layout.Placed.{align_up_lem}
use whale.Linker.Layout.Correct.{IsLayout, compute-IsLayout, compute-disjoint}
use whale.Linker.Symbols.{
  global_key, resolved_of, Symbols, SymbolTable, lookup, reference_of, add_objects, resolve,
}
use whale.Linker.Symbols.Chosen.{chosen, definitions, add_objects-chosen}
use whale.Linker.Symbols.Unique.{strong_count, add_objects_unique}
use whale.Linker.Symbols.Bound.{reference_place, places, HasTarget, resolve-HasTargets}

abbrev code : Section
code = record { name = 116 ∷ []; kind = text; bytes = replicate 20 144; zero_fill = 0; align = 16 }

abbrev zeros : Section
zeros = record { name = 98 ∷ []; kind = bss; bytes = []; zero_fill = 24; align = 8 }

abbrev start_name : List ℕ
start_name = 115 ∷ []

abbrev start_symbol : ObjectSymbol
start_symbol = record {
  kind = function;
  name = start_name;
  section_index = some 0;
  value = 4;
  size = 16;
  binding = global;
  visibility = default_visible;
}

abbrev call : ObjectRelocation
call = record {
  section_index = 0;
  offset = 8;
  symbol = start_name;
  addend = pos 0;
  kind = relative32;
}

abbrev input : ObjectFile
input = record {
  target = amd64_elf;
  sections = code ∷ zeros ∷ [];
  symbols = start_symbol ∷ [];
  relocations = call ∷ [];
}

input_validates : validate input ≡ ok tt
unfolding validate whale.Target.validate whale.Object.Validate.check_section
    whale.Object.Validate.check_symbol whale.Object.Validate.check_relocation
input_validates = refl

validate-IsValid_example : IsValid input
validate-IsValid_example = validate-IsValid input input_validates

align_up_lem_example : Rounds 37 16 (align_up 37 16)
align_up_lem_example = align_up_lem 37 16 (omega arith) (4, omega arith, refl)

abbrev code_placed : SectionPlacement
code_placed = record {
  object_index = 0;
  section_index = 0;
  kind = text;
  align = 16;
  file_offset = 0;
  memory_address = 4096;
  placed_file_size = 20;
  placed_memory_size = 20;
}

abbrev zeros_placed : SectionPlacement
zeros_placed = record {
  object_index = 0;
  section_index = 1;
  kind = bss;
  align = 8;
  file_offset = 24;
  memory_address = 4120;
  placed_file_size = 0;
  placed_memory_size = 24;
}

abbrev image : Layout
image = record {
  section_offsets = (4096 ∷ 4120 ∷ []) ∷ [];
  section_sizes = 20 ∷ 24 ∷ [];
  sections = code_placed ∷ zeros_placed ∷ [];
  base_address = 4096;
  total_file_size = 20;
  total_memory_size = 48;
}

input_computes : compute (input ∷ []) 4096 ≡ ok image
unfolding compute place_objects whale.Target.validate_amd64 whale.Linker.Layout.place_sections
    whale.Linker.Layout.place whale.Prelude.Words.is_power_of_two whale.Object.memory_size align_up
    whale.Prelude.Words.wrapping_neg whale.Linker.Layout.advance_file whale.Object.file_size
input_computes = refl

compute-IsLayout_example : IsLayout (input ∷ []) 4096 image
compute-IsLayout_example = compute-IsLayout (input ∷ []) 4096 image (omega arith) input_computes

compute-disjoint_example : (4116 ≤ 4120) × (20 ≤ 24)
compute-disjoint_example =
    compute-disjoint (input ∷ []) 4096 image 0 1 code_placed zeros_placed (omega arith)
      input_computes refl refl (omega arith)

abbrev weak_start : ObjectSymbol
weak_start = record start_symbol { binding = weak; value = 0 }

abbrev weak_input : ObjectFile
weak_input = record input { symbols = weak_start ∷ []; relocations = [] }

abbrev collected : Symbols
collected =
    (global_key start_name, resolved_of 1 start_symbol)
    ∷ (global_key start_name, resolved_of 0 weak_start)
    ∷ []

input_collects : add_objects 0 [] (weak_input ∷ input ∷ []) ≡ ok collected
unfolding whale.Linker.Symbols.add_symbol
input_collects = refl

add_objects-chosen_example :
    lookup (global_key start_name) collected
    ≡ chosen (definitions (global_key start_name) 0 (weak_input ∷ input ∷ []))
add_objects-chosen_example =
    add_objects-chosen (weak_input ∷ input ∷ []) collected (global_key start_name) input_collects

add_objects_unique_example :
    strong_count (definitions (global_key start_name) 0 (weak_input ∷ input ∷ [])) ≤ 1
add_objects_unique_example =
    add_objects_unique (weak_input ∷ input ∷ []) collected (global_key start_name) input_collects

abbrev table : SymbolTable
table = record {
  symbols = collected;
  references = reference_of 1 call (global_key start_name) false ∷ [];
}

input_resolves : resolve (weak_input ∷ input ∷ []) ≡ ok table
unfolding resolve whale.Target.validate_amd64 validate whale.Target.validate
    whale.Object.Validate.check_section whale.Object.Validate.check_symbol
    whale.Object.Validate.check_relocation whale.Linker.Symbols.add_symbol
    whale.Linker.Symbols.add_reference
input_resolves = refl

resolve-HasTargets_example :
    (map reference_place table.references ≡ places 0 (weak_input ∷ input ∷ []))
    × All (HasTarget table.symbols) table.references
resolve-HasTargets_example = resolve-HasTargets (weak_input ∷ input ∷ []) table input_resolves
