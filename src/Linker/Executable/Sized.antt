-- ===== src/Linker/Executable/Sized.antt =====
-- The payloads of the sections in the file: each has the place that its placement gives.
use whale.Prelude.{
  ℕ, zero, suc, ◌≤◌, ◌≡◌, refl, sym, subst, ap, ◌∙◌, List, [], ◌∷◌, map, map_err, some, ok,
  ok-injective, >>=-eq-ok, or_fail-some, All, All-append, fail_if, not, ◌&&◌, ◌==◌, arith, length,
  get_elem?-map, get_elem?_of_map, get_in, modify_at,
}
use whale.Prelude.Bytes.{length-copy_at}
use whale.Object.{
  Section, SectionKind, is_bss, memory_size, ObjectFile, has_nonzero, zero_fill_outside_bss,
  nonzero_initializer, size_overflow,
}
use whale.Prelude.Words.{checked_add, checked_add-some}
use whale.Linker.Layout.{Layout, SectionPlacement}
use whale.Linker.Symbols
use whale.Linker.Relocation.{
  Patch, Payloads, payload_rows, apply_patch, apply_patches, apply_relocations, plain, resolution,
  check_objects, make_patches, zip, relocations_of, RelocationError,
}
use whale.Linker.Relocation.Made.{get_in-payload_rows}
use whale.Linker.Executable.{
  base, Segment, Filling, Image, placed_at, fill_section, header_size, data_kinds,
  executable_layout,
}
use whale.Linker.Executable.Closing.{AllSections}
use whale.Linker.Executable.Filled.{fill_section-Fills}
use whale.Linker.Executable.Covered.{At, At-IsSection}
use whale.Linker.Executable.Complete.{close_segment-keeps, add_segment-keeps}
use whale.Linker.Executable.Loaded.{executable_layout-Builds, empty_image}

-- Every placement places a section.
abbrev IsOf : List ObjectFile → SectionPlacement → Type 0
IsOf objects p =
    (s : Section) × At objects p.object_index p.section_index s
    × (memory_size s ≡ ok p.placed_memory_size)

step-IsOf :
    (objects : List ObjectFile) (valid : AllSections objects) (kind : SectionKind) (oi si : ℕ)
    (s : Section) (p q : Filling)
    → At objects oi si s
    → s.kind ≡ kind
    → fill_section kind oi si s p ≡ ok q
    → All (IsOf objects) p.placements
    → All (IsOf objects) q.placements
step-IsOf objects valid kind oi si s p q at k h all =
    let f = fill_section-Fills kind oi si s p q (At-IsSection objects valid oi si s at) h in
    subst (λ (r : Filling). All (IsOf objects) r.placements) f.result
      (All-append (IsOf objects) p.placements (placed_at oi si kind s f.va f.size ∷ []) all
        ((s, at, f.sized), tt))

executable_layout-IsOf :
    (objects : List ObjectFile) (max_bytes : ℕ) (l : Layout) (segments : List Segment)
    → executable_layout objects max_bytes ≡ ok (l, segments)
    → All (IsOf objects) l.sections
unfolding whale.Linker.Executable.add_text
executable_layout-IsOf objects max_bytes l segments h =
    let b = executable_layout-Builds objects max_bytes l segments h in
    let step = step-IsOf objects b.valid in
    let P = λ (x : List (List ℕ)) (ps : List SectionPlacement). All (IsOf objects) ps in
    let i1 =
      close_segment-keeps objects P step max_bytes 5 0 (SectionKind.text ∷ []) (header_size objects)
        (empty_image objects) b.m1 b.with_text tt in
    let i2 =
      add_segment-keeps objects P step max_bytes 4 (SectionKind.read_only_data ∷ []) b.m1 b.m2
        b.with_constants i1 in
    let i3 = add_segment-keeps objects P step max_bytes 6 data_kinds b.m2 b.m3 b.with_data i2 in
    subst (λ (x : Layout × List Segment). All (IsOf objects) x.0.sections) b.same i3

-- The lengths of the payloads do not change when relocations are applied.
abbrev lengths : Payloads → List (List ℕ)
lengths = map (map length)

map-modify_at {ℓ κ} :
    {A : Type ℓ} {B : Type κ} (f : A → B) (g : A → A) (i : ℕ) (xs : List A)
    → ((x : A) → f (g x) ≡ f x)
    → map f (modify_at g i xs) ≡ map f xs
map-modify_at f g i [] h = refl
map-modify_at f g zero (x ∷ xs) h = ap (λ y. y ∷ map f xs) (h x)
map-modify_at f g (suc i) (x ∷ xs) h = ap (λ ys. f x ∷ ys) (map-modify_at f g i xs h)

lengths-apply_patches :
    (ps : List Patch) (rows : Payloads) → lengths (apply_patches ps rows) ≡ lengths rows
unfolding apply_patches apply_patch
lengths-apply_patches [] rows = refl
lengths-apply_patches (p ∷ ps) rows =
    lengths-apply_patches ps (apply_patch p rows)
    ∙ map-modify_at (map length) _ p.object rows
        (λ row. map-modify_at length _ p.section row (λ xs. length-copy_at p.offset _ xs))

get_in-lengths :
    (rows : Payloads) (i j : ℕ) (xs : List ℕ)
    → get_in rows i j ≡ some xs
    → get_in (lengths rows) i j ≡ some (length xs)
get_in-lengths [] i j xs h = cc
get_in-lengths (row ∷ rows) zero j xs h = get_elem?-map length row j xs h
get_in-lengths (row ∷ rows) (suc i) j xs h = get_in-lengths rows i j xs h

get_in_of_lengths :
    (rows : Payloads) (i j n : ℕ)
    → get_in (lengths rows) i j ≡ some n
    → (xs : List ℕ) × (get_in rows i j ≡ some xs) × (length xs ≡ n)
get_in_of_lengths [] i j n h = cc
get_in_of_lengths (row ∷ rows) zero j n h = get_elem?_of_map length row j n h
get_in_of_lengths (row ∷ rows) (suc i) j n h = get_in_of_lengths rows i j n h

-- The payload of a placed section is there, and fits in the memory of the placement.
abbrev pub Sized : Payloads → SectionPlacement → Type 0
Sized rows p =
    (xs : List ℕ) × (get_in rows p.object_index p.section_index ≡ some xs)
    × (length xs ≤ p.placed_memory_size)

length-memory_size : (s : Section) (n : ℕ) → memory_size s ≡ ok n → length s.bytes ≤ n
unfolding memory_size
length-memory_size s n h =
    let (_, h0, h1) =
      >>=-eq-ok (fail_if (not (is_bss s.kind) && not (s.zero_fill == 0)) zero_fill_outside_bss) _
        h in
    let (_, h2, h3) =
      >>=-eq-ok (fail_if (is_bss s.kind && has_nonzero s.bytes) nonzero_initializer) _ h1 in
    omega (
      arith,
      (checked_add-some (length s.bytes) s.zero_fill
          (or_fail-some (checked_add (length s.bytes) s.zero_fill) size_overflow h3)).0,
    )

IsOf-Sized :
    (objects : List ObjectFile) (rows : Payloads) (p : SectionPlacement)
    → lengths rows ≡ lengths (payload_rows objects)
    → IsOf objects p
    → Sized rows p
IsOf-Sized objects rows p e (s, (o, ho, hs), size) =
    let before =
      get_in-lengths (payload_rows objects) p.object_index p.section_index s.bytes
        (get_in-payload_rows objects p.object_index p.section_index o s ho hs) in
    let (xs, found, same) = get_in_of_lengths rows p.object_index p.section_index (length s.bytes) (
      subst (λ t. get_in t p.object_index p.section_index ≡ some (length s.bytes)) (sym e)
        before) in
    (xs, found, omega (arith, same, length-memory_size s p.placed_memory_size size))

All-Sized :
    (objects : List ObjectFile) (rows : Payloads) (ps : List SectionPlacement)
    → lengths rows ≡ lengths (payload_rows objects)
    → All (IsOf objects) ps
    → All (Sized rows) ps
All-Sized objects rows [] e h = tt
All-Sized objects rows (p ∷ ps) e h =
    (IsOf-Sized objects rows p e h.0, All-Sized objects rows ps e h.1)

pub relocated-Sized :
    (objects : List ObjectFile) (max_bytes : ℕ) (l : Layout) (segments : List Segment)
    (payloads : Payloads)
    → executable_layout objects max_bytes ≡ ok (l, segments)
    → apply_relocations objects l max_bytes ≡ ok payloads
    → All (Sized payloads) l.sections
unfolding apply_relocations
relocated-Sized objects max_bytes l segments payloads hl hr =
    let (table, ht, h1) =
      >>=-eq-ok (map_err (λ e. plain (resolution e)) (Symbols.resolve objects)) _ hr in
    let (_, hc, h2) = >>=-eq-ok (map_err plain (check_objects l max_bytes 0 objects 0)) _ h1 in
    let (ps, hm, h3) =
      >>=-eq-ok (make_patches objects l table [] (zip (relocations_of objects) table.references)) _
        h2 in
    All-Sized objects payloads l.sections
      (ap lengths (
          sym (
            ok-injective {E = RelocationError} (apply_patches ps (payload_rows objects)) payloads
              h3))
        ∙ lengths-apply_patches ps (payload_rows objects))
      (executable_layout-IsOf objects max_bytes l segments hl)
