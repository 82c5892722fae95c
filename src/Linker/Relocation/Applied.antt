-- ===== src/Linker/Relocation/Applied.antt =====
-- Every relocation holds in the payloads that `apply_relocations` returns, and nothing else changes.
use whale.Prelude.{
  ℕ, ◌*◌, ◌≡◌, sym, subst, ap, ◌∙◌, true, List, [], ◌∷◌, map, take, some, ok, ok-injective,
  >>=-eq-ok, map_err-ok, map_err, All,
}
use whale.Prelude.Int.{ℤ, wrap}
use whale.Prelude.Bytes.{from_le_bytes, from_le_bytes-take}
use whale.Object.{ObjectRelocation, ObjectFile}
use whale.Linker.Layout.{Layout}
use whale.Linker.Symbols
use whale.Linker.Symbols.{ResolvedReference, SymbolTable, ResolveError}
use whale.Linker.Relocation.{
  resolution, RelocationError, plain, Patch, make_patches, Sites, zip, relocations_of, Payloads,
  payload_rows, apply_patches, check_objects, apply_relocations,
}
use whale.Linker.Relocation.Disjoint.{apart, AllApart}
use whale.Linker.Relocation.Written.{
  read_field, field_entry, entry_of, written, Stored, apply_patches-other, apply_patches-Stored,
}
use whale.Linker.Relocation.Made.{
  Wrote, AllWrote, none_wrote, one_wrote, Made, make_patches-Made, small_lem,
}
use whale.Linker.Relocation.Value.{width_of, Computes, wrap_low}

-- A relocation holds in the payloads: its field reads as its value, modulo the field's width.
pub record IsRelocated (layout : Layout) (table : SymbolTable) (payloads : Payloads)
    (site : ObjectRelocation × ResolvedReference) : Type 0 where
  pub value : ℤ
  pub width : ℕ
  pub computed : Computes layout table site.0 site.1 value width
  pub bytes : List ℕ
  pub stored :
      read_field payloads site.1.object_index site.1.section_index site.0.offset width ≡ some bytes
  pub number : from_le_bytes bytes ≡ wrap (8 * width) value

Wrote-IsRelocated :
    (layout : Layout) (table : SymbolTable) (payloads : Payloads)
    (s : ObjectRelocation × ResolvedReference) (p : Patch)
    → Wrote layout table s p
    → Stored payloads p
    → IsRelocated layout table payloads s
Wrote-IsRelocated layout table payloads s p w h = record {
  value = w.value;
  width = p.width;
  computed = w.computed;
  bytes = written p;
  stored =
      subst (λ i. read_field payloads i s.1.section_index s.0.offset p.width ≡ some (written p))
        w.same_object
        (subst (λ j. read_field payloads p.object j s.0.offset p.width ≡ some (written p))
          w.same_section
          (subst (λ k. read_field payloads p.object p.section k p.width ≡ some (written p))
            w.same_offset h));
  number =
      ap (λ b. from_le_bytes (take p.width b)) w.encoded
      ∙ from_le_bytes-take p.width 8 (wrap 64 w.value) (small_lem p.width w.computed.allowed)
      ∙ wrap_low p.width w.value w.computed.allowed;
}

All-IsRelocated :
    (layout : Layout) (table : SymbolTable) (payloads : Payloads) (sites : Sites) (ps : List Patch)
    → AllWrote layout table sites ps
    → All (Stored payloads) ps
    → All (IsRelocated layout table payloads) sites
All-IsRelocated layout table payloads [] [] none_wrote h = tt
All-IsRelocated layout table payloads [] (p ∷ ps) w h = elim w [ ]
All-IsRelocated layout table payloads (s ∷ ss) [] w h = elim w [ ]
All-IsRelocated layout table payloads (s ∷ ss) (p ∷ ps) (one_wrote w ws) h = (
  Wrote-IsRelocated layout table payloads s p w h.0,
  All-IsRelocated layout table payloads ss ps ws h.1,
)

-- The parts of a run of `apply_relocations` that returns.
record Applied (objects : List ObjectFile) (layout : Layout) (table : SymbolTable)
    (payloads : Payloads) : Type 0 where
  patches : List Patch
  made : Made objects layout table [] (zip (relocations_of objects) table.references) patches
  result : apply_patches patches (payload_rows objects) ≡ payloads

apply_relocations-Applied :
    (objects : List ObjectFile) (layout : Layout) (max_bytes : ℕ) (table : SymbolTable)
    (payloads : Payloads)
    → Symbols.resolve objects ≡ ok table
    → apply_relocations objects layout max_bytes ≡ ok payloads
    → Applied objects layout table payloads
unfolding apply_relocations
apply_relocations-Applied objects layout max_bytes table payloads ht h =
    let (t, resolved, h1) =
      >>=-eq-ok (map_err (λ e. plain (resolution e)) (Symbols.resolve objects)) _ h in
    let (_, checked, h2) =
      >>=-eq-ok (map_err plain (check_objects layout max_bytes 0 objects 0)) _ h1 in
    let (ps, made, h3) =
      >>=-eq-ok (make_patches objects layout t [] (zip (relocations_of objects) t.references)) _
        h2 in
    let same : t ≡ table =
      ok-injective {E = ResolveError} t table
        (sym (map_err-ok (λ e. plain (resolution e)) (Symbols.resolve objects) resolved) ∙ ht) in
    record {
      patches = ps;
      made =
          subst
            (λ (u : SymbolTable).
              Made objects layout u [] (zip (relocations_of objects) u.references) ps)
            same
            (make_patches-Made objects layout t [] (zip (relocations_of objects) t.references) ps tt
              made);
      result =
          ok-injective {E = RelocationError} (apply_patches ps (payload_rows objects)) payloads h3;
    }

-- When the relocations of objects with the symbol table `table` are applied without an error, then
-- every one of them holds in the payloads that are returned: its field, read as a little-endian
-- number, is the value S + A or S + A - P that its kind computes, modulo the width of the field,
-- and the value is in the range of the kind. No later relocation overwrites it.
pub apply_relocations-IsRelocated :
    (objects : List ObjectFile) (layout : Layout) (max_bytes : ℕ) (table : SymbolTable)
    (payloads : Payloads)
    → Symbols.resolve objects ≡ ok table
    → apply_relocations objects layout max_bytes ≡ ok payloads
    → All (IsRelocated layout table payloads) (zip (relocations_of objects) table.references)
apply_relocations-IsRelocated objects layout max_bytes table payloads ht h =
    let run = apply_relocations-Applied objects layout max_bytes table payloads ht h in
    let sites = zip (relocations_of objects) table.references in
    subst (λ rows. All (IsRelocated layout table rows) sites) run.result
      (All-IsRelocated layout table (apply_patches run.patches (payload_rows objects)) sites
        run.patches run.made.wrote
        (apply_patches-Stored run.patches (payload_rows objects) run.made.room run.made.spread))

-- A field of a section, from `at` on, that the field of a relocation does not touch.
abbrev Misses : ℕ → ℕ → ℕ → ℕ → ObjectRelocation × ResolvedReference → Type 0
Misses oi si at n (r, f) =
    apart (field_entry oi si at n)
      (field_entry f.object_index f.section_index r.offset (width_of r.kind))
    ≡ true

field_entry_eq :
    (oi si at n : ℕ) (p : Patch)
    → p.object ≡ oi
    → p.section ≡ si
    → p.offset ≡ at
    → p.width ≡ n
    → field_entry oi si at n ≡ entry_of p
field_entry_eq oi si at n p o s a w = cc

All-missed :
    (layout : Layout) (table : SymbolTable) (oi si at n : ℕ) (sites : Sites) (ps : List Patch)
    → AllWrote layout table sites ps
    → All (Misses oi si at n) sites
    → AllApart (field_entry oi si at n) (map entry_of ps)
All-missed layout table oi si at n [] [] none_wrote h = tt
All-missed layout table oi si at n [] (p ∷ ps) w h = elim w [ ]
All-missed layout table oi si at n (s ∷ ss) [] w h = elim w [ ]
All-missed layout table oi si at n ((r, f) ∷ ss) (p ∷ ps) (one_wrote w ws) h = (
  subst (λ e. apart (field_entry oi si at n) e ≡ true)
      (field_entry_eq f.object_index f.section_index r.offset (width_of r.kind) p w.same_object
        w.same_section w.same_offset w.computed.width_of_kind)
      h.0,
  All-missed layout table oi si at n ss ps ws h.1,
)

-- When relocations are applied without an error, whatever no relocation fills keeps the bytes of
-- the input: a field of any section that is apart from the fields of all relocations.
pub apply_relocations-keeps :
    (objects : List ObjectFile) (layout : Layout) (max_bytes : ℕ) (table : SymbolTable)
    (payloads : Payloads) (oi si at n : ℕ)
    → Symbols.resolve objects ≡ ok table
    → apply_relocations objects layout max_bytes ≡ ok payloads
    → All (Misses oi si at n) (zip (relocations_of objects) table.references)
    → read_field payloads oi si at n ≡ read_field (payload_rows objects) oi si at n
apply_relocations-keeps objects layout max_bytes table payloads oi si at n ht h misses =
    let run = apply_relocations-Applied objects layout max_bytes table payloads ht h in
    subst (λ rows. read_field rows oi si at n ≡ read_field (payload_rows objects) oi si at n)
      run.result
      (apply_patches-other run.patches (payload_rows objects) oi si at n run.made.room (
        All-missed layout table oi si at n (zip (relocations_of objects) table.references)
          run.patches run.made.wrote misses))
