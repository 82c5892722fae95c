-- ===== src/Linker/Executable/Complete.antt =====
-- The layout of an executable places every section of every object.
use whale.Prelude.{
  ℕ, zero, suc, ◌≡◌, inl, inr, refl, sym, subst, Bool, true, List, [], ◌∷◌, any, replicate, some,
  some-injective, ok, ok-injective, >>=-eq-ok, arith, Bool-cases, length, get_elem?, get_in,
}
use whale.Object.{Section, SectionKind, text, data_section, bss, read_only_data, ObjectFile}
use whale.Linker.Layout.{Layout, SectionPlacement}
use whale.Linker.Executable.{
  ImageFault, page, align, same_kind, Segment, Filling, Image, has_kinds, close_segment, add_text,
  add_paged, add_segment, data_kinds, zero_offsets, header_size, fill_section, executable_layout,
}
use whale.Linker.Executable.Closing.{AllSections, close_segment-Closes, opening}
use whale.Linker.Executable.Covered.{Located, At, fill_kinds-keeps, step-Present, step-Located}
use whale.Linker.Executable.Found.{fill_kinds-finds}
use whale.Linker.Executable.Loaded.{empty_image, executable_layout-Builds}

-- The table starts with an entry for every section.
get_elem?-replicate :
    (ss : List Section) (j : ℕ) (s : Section)
    → get_elem? ss j ≡ some s
    → get_elem? {A = ℕ} (replicate (length ss) 0) j ≡ some 0
get_elem?-replicate [] j s h = cc
get_elem?-replicate (x ∷ ss) zero s h = refl
get_elem?-replicate (x ∷ ss) (suc j) s h = get_elem?-replicate ss j s h

zero_offsets-Present :
    (objects : List ObjectFile) (i j : ℕ) (s : Section)
    → At objects i j s
    → get_in (zero_offsets objects) i j ≡ some 0
zero_offsets-Present [] i j s (o, ho, hs) = cc
zero_offsets-Present (x ∷ xs) zero j s (o, ho, hs) =
    get_elem?-replicate x.sections j s
      (subst (λ (y : ObjectFile). get_elem? y.sections j ≡ some s) (sym (some-injective x o ho)) hs)
zero_offsets-Present (x ∷ xs) (suc i) j s at = zero_offsets-Present xs i j s at

any-At {ℓ} :
    {A : Type ℓ} (p : A → Bool) (xs : List A) (i : ℕ) (x : A)
    → get_elem? xs i ≡ some x
    → p x ≡ true
    → any p xs ≡ true
any-At p [] i x h y = cc
any-At p (z ∷ xs) zero x h y =
    let first : p z ≡ true = subst (λ a. p a ≡ true) (sym (some-injective z x h)) y in
    ground (arith, first)
any-At p (z ∷ xs) (suc i) x h y = ground (arith, any-At p xs i x h y)

has_kinds-At :
    (ks : List SectionKind) (objects : List ObjectFile) (i j : ℕ) (s : Section)
    → At objects i j s
    → any (same_kind s.kind) ks ≡ true
    → has_kinds ks objects ≡ true
has_kinds-At ks objects i j s (o, ho, hs) y =
    any-At (λ (x : ObjectFile). any (λ (r : Section). any (same_kind r.kind) ks) x.sections) objects
      i o ho (any-At (λ (r : Section). any (same_kind r.kind) ks) o.sections j s hs y)

abbrev Table : Type 1
Table = List (List ℕ) → List SectionPlacement → Type 0

module _ (objects : List ObjectFile) (P : Table)
    (step : (kind : SectionKind) (oi si : ℕ) (s : Section) (p q : Filling)
      → At objects oi si s
      → s.kind ≡ kind
      → fill_section kind oi si s p ≡ ok q
      → P p.offsets p.placements
      → P q.offsets q.placements) where
  pub close_segment-keeps :
      (max_bytes flags start : ℕ) (kinds : List SectionKind) (cursor : ℕ) (m m' : Image)
      → close_segment max_bytes flags start kinds objects cursor m ≡ ok m'
      → P m.offsets m.placements
      → P m'.offsets m'.placements
  close_segment-keeps max_bytes flags start kinds cursor m m' h i =
      let c = close_segment-Closes max_bytes flags start kinds objects cursor m m' h in
      subst (λ (x : Image). P x.offsets x.placements) c.closed
        (fill_kinds-keeps objects (λ p. P p.offsets p.placements) step kinds (opening cursor m)
          c.filling c.fills i)

  pub add_segment-keeps :
      (max_bytes flags : ℕ) (kinds : List SectionKind) (m m' : Image)
      → add_segment max_bytes flags kinds objects m ≡ ok m'
      → P m.offsets m.placements
      → P m'.offsets m'.placements
  unfolding add_paged
  add_segment-keeps max_bytes flags kinds m m' h i = elim (Bool-cases (has_kinds kinds objects)) [
    | inr without ↦
        subst (λ (x : Image). P x.offsets x.placements)
          (ok-injective {E = ImageFault} m m' (ground (arith, h, without))) i
    | inl present ↦
        let (start, ha, h1) =
          >>=-eq-ok (align m.file_size page)
            (λ start. close_segment max_bytes flags start kinds objects start m)
            (ground (arith, h, present)) in
        close_segment-keeps max_bytes flags start kinds start m m' h1 i
  ]

module _ (objects : List ObjectFile) (valid : AllSections objects) (i j : ℕ) (t : Section)
    (at_t : At objects i j t) where
  abbrev Here : Image → Type 0
  Here m = Located i j t m.offsets m.placements

  abbrev There : Image → Type 0
  There m = (x : ℕ) × (get_in m.offsets i j ≡ some x)

  close_segment-finds :
      (max_bytes flags start : ℕ) (kinds : List SectionKind) (cursor : ℕ) (m m' : Image)
      → any (same_kind t.kind) kinds ≡ true
      → close_segment max_bytes flags start kinds objects cursor m ≡ ok m'
      → There m
      → Here m'
  close_segment-finds max_bytes flags start kinds cursor m m' k h here =
      let c = close_segment-Closes max_bytes flags start kinds objects cursor m m' h in
      subst Here c.closed (
        fill_kinds-finds objects valid i j t at_t kinds (opening cursor m) c.filling k c.fills here)

  add_segment-finds :
      (max_bytes flags : ℕ) (kinds : List SectionKind) (m m' : Image)
      → any (same_kind t.kind) kinds ≡ true
      → add_segment max_bytes flags kinds objects m ≡ ok m'
      → There m
      → Here m'
  unfolding add_paged
  add_segment-finds max_bytes flags kinds m m' k h here =
      let present = has_kinds-At kinds objects i j t at_t k in
      let (start, ha, h1) =
        >>=-eq-ok (align m.file_size page)
          (λ start. close_segment max_bytes flags start kinds objects start m)
          (ground (arith, h, present)) in
      close_segment-finds max_bytes flags start kinds start m m' k h1 here

  add_text-finds :
      (max_bytes size : ℕ) (m m' : Image)
      → t.kind ≡ text
      → add_text max_bytes size objects m ≡ ok m'
      → There m
      → Here m'
  unfolding add_text
  add_text-finds max_bytes size m m' k h here =
      close_segment-finds max_bytes 5 0 (text ∷ []) size m m'
        (subst (λ x. any (same_kind x) (text ∷ []) ≡ true) (sym k) refl) h here

  add_text-There :
      (max_bytes size : ℕ) (m m' : Image)
      → add_text max_bytes size objects m ≡ ok m'
      → There m
      → There m'
  unfolding add_text
  add_text-There max_bytes size m m' h here =
      close_segment-keeps objects (λ xs _. (x : ℕ) × (get_in xs i j ≡ some x))
        (step-Present objects valid i j) max_bytes 5 0 (text ∷ []) size m m' h here

  add_segment-There :
      (max_bytes flags : ℕ) (kinds : List SectionKind) (m m' : Image)
      → add_segment max_bytes flags kinds objects m ≡ ok m'
      → There m
      → There m'
  add_segment-There =
      add_segment-keeps objects (λ xs _. (x : ℕ) × (get_in xs i j ≡ some x))
        (step-Present objects valid i j)

  add_segment-Here :
      (max_bytes flags : ℕ) (kinds : List SectionKind) (m m' : Image)
      → add_segment max_bytes flags kinds objects m ≡ ok m'
      → Here m
      → Here m'
  add_segment-Here =
      add_segment-keeps objects (Located i j t) (step-Located objects valid i j t at_t)

  -- The segment of the section's kind locates it.
  Builds-Here :
      (k : SectionKind) (max_bytes : ℕ) (m1 m2 m3 : Image)
      → t.kind ≡ k
      → There m1
      → (k ≡ text → Here m1)
      → add_segment max_bytes 4 (read_only_data ∷ []) objects m1 ≡ ok m2
      → add_segment max_bytes 6 data_kinds objects m2 ≡ ok m3
      → Here m3
  Builds-Here text max_bytes m1 m2 m3 k there found h2 h3 =
      add_segment-Here max_bytes 6 data_kinds m2 m3 h3
        (add_segment-Here max_bytes 4 (read_only_data ∷ []) m1 m2 h2 (found refl))
  Builds-Here read_only_data max_bytes m1 m2 m3 k there found h2 h3 =
      add_segment-Here max_bytes 6 data_kinds m2 m3 h3 (
        add_segment-finds max_bytes 4 (read_only_data ∷ []) m1 m2
          (subst (λ x. any (same_kind x) (read_only_data ∷ []) ≡ true) (sym k) refl) h2 there)
  Builds-Here data_section max_bytes m1 m2 m3 k there found h2 h3 =
      add_segment-finds max_bytes 6 data_kinds m2 m3
        (subst (λ x. any (same_kind x) data_kinds ≡ true) (sym k) refl) h3
        (add_segment-There max_bytes 4 (read_only_data ∷ []) m1 m2 h2 there)
  Builds-Here bss max_bytes m1 m2 m3 k there found h2 h3 =
      add_segment-finds max_bytes 6 data_kinds m2 m3
        (subst (λ x. any (same_kind x) data_kinds ≡ true) (sym k) refl) h3
        (add_segment-There max_bytes 4 (read_only_data ∷ []) m1 m2 h2 there)

-- In an executable layout every section of every object is placed: a placement with its object and
-- section index, its kind and its memory size is among the placements, and the layout's table of
-- section addresses holds the address of that placement under the two indices.
pub executable_layout-Located :
    (objects : List ObjectFile) (max_bytes : ℕ) (l : Layout) (segments : List Segment) (i j : ℕ)
    (o : ObjectFile) (s : Section)
    → executable_layout objects max_bytes ≡ ok (l, segments)
    → get_elem? objects i ≡ some o
    → get_elem? o.sections j ≡ some s
    → Located i j s l.section_offsets l.sections
executable_layout-Located objects max_bytes l segments i j o s h ho hs =
    let b = executable_layout-Builds objects max_bytes l segments h in
    let at : At objects i j s = (o, ho, hs) in
    let start : (x : ℕ) × (get_in (zero_offsets objects) i j ≡ some x) =
      (0, zero_offsets-Present objects i j s at) in
    subst (λ (x : Layout × List Segment). Located i j s x.0.section_offsets x.0.sections) b.same
      (Builds-Here objects b.valid i j s at s.kind max_bytes b.m1 b.m2 b.m3 refl
        (add_text-There objects b.valid i j s at max_bytes (header_size objects)
          (empty_image objects) b.m1 b.with_text start)
        (λ k.
          add_text-finds objects b.valid i j s at max_bytes (header_size objects)
            (empty_image objects) b.m1 k b.with_text start)
        b.with_constants b.with_data)
