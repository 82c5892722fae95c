-- ===== src/Tests/Selecting.antt =====
-- The loop over an archive of three members: the second defines the entry and calls what the first
-- defines, and nobody asks for the third.
use whale.Prelude.{ℕ, ◌≡◌, refl, true, false, List, [], ◌∷◌, some, ok, replicate}
use whale.Prelude.Int.{pos}
use whale.Names.{Name}
use whale.Target.{amd64_elf}
use whale.Object.{
  Section, text, global, default_visible, function, ObjectSymbol, relative32, ObjectRelocation,
  ObjectFile,
}
use whale.Linker.Selection.{ArchiveObject, Selection, select_archive}
use whale.Linker.Selection.Pulled.{Pulls, select_archive-Pulls}
use whale.Linker.Selection.Closed.{IsClosed, select_archive-IsClosed}

abbrev start : Name
start = 115 ∷ []

abbrev helper : Name
helper = 104 ∷ []

abbrev code : Section
code = record { name = 116 ∷ []; kind = text; bytes = replicate 20 144; zero_fill = 0; align = 16 }

abbrev defined : Name → ObjectSymbol
defined name = record {
  kind = function;
  name = name;
  section_index = some 0;
  value = 0;
  size = 16;
  binding = global;
  visibility = default_visible;
}

abbrev call : ObjectRelocation
call = record { section_index = 0; offset = 8; symbol = helper; addend = pos 0; kind = relative32 }

abbrev object_of : Name → List ObjectRelocation → ObjectFile
object_of name relocations = record {
  target = amd64_elf;
  sections = code ∷ [];
  symbols = defined name ∷ [];
  relocations = relocations;
}

abbrev helper_object : ObjectFile
helper_object = object_of helper []

abbrev root_object : ObjectFile
root_object = object_of start (call ∷ [])

abbrev spare : ArchiveObject
spare = record { name = 120 ∷ []; object = object_of (120 ∷ []) [] }

abbrev members : List ArchiveObject
members =
    record { name = helper; object = helper_object }
    ∷ record { name = start; object = root_object }
    ∷ spare
    ∷ []

abbrev nothing_selected : Selection
nothing_selected = record { selected = []; fuel = 100; payload_bytes = 0 }

abbrev both_taken : Selection
both_taken = record { selected = root_object ∷ helper_object ∷ []; fuel = 91; payload_bytes = 40 }

archive_ends :
    select_archive 4 start 4096 members (false ∷ false ∷ false ∷ []) nothing_selected
    ≡ ok (true ∷ true ∷ false ∷ [], both_taken)
unfolding select_archive whale.Linker.Selection.unresolved whale.Linker.Selection.define_objects
    whale.Linker.Selection.need_objects whale.Linker.Selection.scan_members
    whale.Linker.Selection.scan_symbols whale.Linker.Selection.take_member
    whale.Linker.Selection.add_object whale.Linker.Selection.check_payload
    whale.Prelude.Words.checked_add whale.Linker.Selection.define_symbols
    whale.Linker.Selection.need_relocations
archive_ends = refl

select_archive-Pulls_example :
    Pulls start members
      (true ∷ true ∷ false ∷ [])
      (root_object ∷ helper_object ∷ [])
      (false ∷ false ∷ false ∷ [])
      []
select_archive-Pulls_example =
    select_archive-Pulls 4 start 4096 members (false ∷ false ∷ false ∷ [])
      (true ∷ true ∷ false ∷ []) nothing_selected both_taken archive_ends

select_archive-IsClosed_example : IsClosed start (root_object ∷ helper_object ∷ []) spare
select_archive-IsClosed_example =
    select_archive-IsClosed 4 start 4096 members (false ∷ false ∷ false ∷ [])
      (true ∷ true ∷ false ∷ []) nothing_selected both_taken 2 spare archive_ends refl refl
