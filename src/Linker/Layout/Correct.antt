-- ===== src/Linker/Layout/Correct.antt =====
-- The layout that `Layout::compute` returns, as a whole.
use whale.Prelude.{
  ℕ, suc, zero, ◌+◌, ◌-◌, ◌≤◌, ◌<◌, ◌≡◌, refl, sym, subst, ap, List, [], ◌∷◌, ◌++◌, map,
  append_assoc, append-nil, some, ok, arith, if◌then◌else◌, length, get_elem?, map-append,
  Result-cases, inl, inr,
}
use whale.Prelude.Words.{IsU64}
use whale.Object.{Section, is_bss, ObjectFile}
use mathlib.Core.Option.{some-injective}
use whale.Linker.Layout.{SectionPlacement, Layout, Progress, place_sections, place_objects, compute}
use whale.Linker.Layout.Placed.{
  Input, section_inputs, inputs, Places, Placed, done, next, Placed-append, place_sections-Extends,
}

abbrev pub flat {ℓ} : {A : Type ℓ} → List (List A) → List A
flat [] = []
flat (x ∷ xs) = x ++ flat xs

-- What the outer loop adds.
pub record Collects (oi : ℕ) (os : List ObjectFile) (before after : List (List ℕ)) (p q : Progress)
    : Type 0 where
  pub added : List SectionPlacement
  pub groups : List (List ℕ)
  pub placed : Placed p.memory_end p.file_end (inputs oi os) added q.memory_end q.file_end
  pub placements : q.placements ≡ p.placements ++ added
  pub sizes : q.sizes ≡ p.sizes ++ map (λ x. x.placed_memory_size) added
  pub grouped : after ≡ before ++ groups
  pub addresses : flat groups ≡ map (λ x. x.memory_address) added
  pub per_object : map length groups ≡ map (λ o. length o.sections) os
  pub memory_fits : IsU64 q.memory_end
  pub file_fits : IsU64 q.file_end

length-map {ℓ κ} :
    {A : Type ℓ} {B : Type κ} (f : A → B) (xs : List A) → length (map f xs) ≡ length xs
length-map f [] = refl
length-map f (x ∷ xs) = ap suc (length-map f xs)

Placed-length :
    {m f a b : ℕ} {is : List Input} {ps : List SectionPlacement}
    → Placed m f is ps a b
    → length ps ≡ length is
Placed-length done = refl
Placed-length (next h l) = ap suc (Placed-length l)

length-section_inputs :
    (oi si : ℕ) (ss : List Section) → length (section_inputs oi si ss) ≡ length ss
length-section_inputs oi si [] = refl
length-section_inputs oi si (s ∷ ss) = ap suc (length-section_inputs oi (suc si) ss)

place_objects-Collects :
    (oi : ℕ) (os : List ObjectFile) (before after : List (List ℕ)) (p q : Progress)
    → place_objects oi os before p ≡ ok (after, q)
    → IsU64 p.memory_end
    → IsU64 p.file_end
    → Collects oi os before after p q
unfolding place_objects
place_objects-Collects oi [] before after p q h hm hf =
    let e : before ≡ after = ground arith in
    let e' : p ≡ q = ground arith in
    subst (λ x. Collects oi [] before x p q) e
      (subst (λ x. Collects oi [] before before p x) e'
        (record {
          added = [];
          groups = [];
          placed = done;
          placements = sym (append-nil _);
          sizes = sym (append-nil _);
          grouped = sym (append-nil _);
          addresses = refl;
          per_object = refl;
          memory_fits = hm;
          file_fits = hf;
        }))
place_objects-Collects oi (o ∷ os) before after p q h hm hf =
    elim (Result-cases (place_sections oi 0 o.sections (record p { offsets = [] }))) [
      | inl (e, bad) ↦ absurd (ground arith)
      | inr (r, first) ↦
          let rest : place_objects (suc oi) os (before ++ r.offsets ∷ []) r ≡ ok (after, q) =
            ground arith in
          let one =
            place_sections-Extends oi 0 o.sections (record p { offsets = [] }) r first hm hf in
          let more =
            place_objects-Collects (suc oi) os (before ++ r.offsets ∷ []) after r q rest
              one.memory_fits one.file_fits in
          record {
            added = one.added ++ more.added;
            groups = r.offsets ∷ more.groups;
            placed = Placed-append one.placed more.placed;
            placements = rw (more.placements, one.placements, append_assoc);
            sizes = rw (more.sizes, one.sizes, append_assoc, map-append);
            grouped = rw (more.grouped, append_assoc);
            addresses = rw (more.addresses, one.offsets, map-append);
            per_object = rw (
              more.per_object,
              one.offsets,
              length-map,
              Placed-length one.placed,
              length-section_inputs,
            );
            memory_fits = more.memory_fits;
            file_fits = more.file_fits;
          }
    ]

-- A correct layout of the objects at a base address.
pub record IsLayout (objects : List ObjectFile) (base : ℕ) (l : Layout) : Type 0 where
  pub placed :
      Placed base 0 (inputs 0 objects) l.sections (base + l.total_memory_size) l.total_file_size
  pub based : l.base_address ≡ base
  pub sizes : l.section_sizes ≡ map (λ x. x.placed_memory_size) l.sections
  pub addresses : flat l.section_offsets ≡ map (λ x. x.memory_address) l.sections
  pub per_object : map length l.section_offsets ≡ map (λ o. length o.sections) objects
  pub memory_fits : IsU64 (base + l.total_memory_size)
  pub file_fits : IsU64 l.total_file_size

Placed-le :
    {m f a b : ℕ} {is : List Input} {ps : List SectionPlacement} → Placed m f is ps a b → m ≤ a
Placed-le done = omega arith
Placed-le (next h l) = omega (arith, Placed-le l)

abbrev start : ℕ → Progress
start base = record { memory_end = base; file_end = 0; offsets = []; sizes = []; placements = [] }

compute_finish :
    (objects : List ObjectFile) (base : ℕ) (l : Layout) (after : List (List ℕ)) (q : Progress)
    → Collects 0 objects [] after (start base) q
    → l ≡ record {
      section_offsets = after;
      section_sizes = q.sizes;
      sections = q.placements;
      base_address = base;
      total_file_size = q.file_end;
      total_memory_size = q.memory_end - base;
    }
    → IsLayout objects base l
compute_finish objects base l after q c e =
    let end : base + (q.memory_end - base) ≡ q.memory_end = omega (arith, Placed-le c.placed) in
    rw e (record {
      placed = rw (end, c.placements) c.placed;
      based = refl;
      sizes = rw (c.sizes, c.placements);
      addresses = rw (c.grouped, c.placements) c.addresses;
      per_object = rw c.grouped c.per_object;
      memory_fits = rw end c.memory_fits;
      file_fits = c.file_fits;
    })

-- A layout that is computed from a 64-bit base places every input section once, in input order,
-- with its kind, its memory size and a power-of-two alignment; each starts at the least aligned
-- memory address and file offset behind its predecessor, a BSS section takes no file bytes, and
-- no end passes 2^64. The address table has a row for each object, with the placements' addresses.
pub compute-IsLayout :
    (objects : List ObjectFile) (base : ℕ) (l : Layout)
    → IsU64 base
    → compute objects base ≡ ok l
    → IsLayout objects base l
unfolding compute
compute-IsLayout objects base l hb h =
    elim (Result-cases (place_objects 0 objects [] (start base))) [
      | inl (e, bad) ↦ absurd (ground arith)
      | inr ((after, q), ran) ↦
          compute_finish objects base l after q
            (place_objects-Collects 0 objects [] after (start base) q ran hb (omega arith))
            (ground arith)
    ]

-- The file bytes of a section with file bytes.
abbrev pub file_end_of : SectionPlacement → ℕ
file_end_of p = if is_bss p.kind then 0 else p.file_offset + p.placed_file_size

Places-ends :
    {m f a b : ℕ} {i : Input} {p : SectionPlacement}
    → Places m f i p a b
    → (m ≤ a) × (f ≤ b) × (file_end_of p ≤ b)
Places-ends h = ground arith

-- Behind a run's first end no placement begins earlier.
Placed-after :
    {m f a b : ℕ} {is : List Input} {ps : List SectionPlacement} (j : ℕ) (p : SectionPlacement)
    → Placed m f is ps a b
    → get_elem? ps j ≡ some p
    → (m ≤ p.memory_address) × (f ≤ p.file_offset)
Placed-after j p done e = cc
Placed-after zero p (next h l) e = ground (arith, h.after_memory, h.after_file)
Placed-after (suc j) p (next h l) e =
    let (memory, file) = Placed-after j p l e in
    let (mend, fend, _) = Places-ends h in (omega arith, omega arith)

Placed-disjoint :
    {m f a b : ℕ} {is : List Input} {ps : List SectionPlacement} (j k : ℕ) (p q : SectionPlacement)
    → Placed m f is ps a b
    → get_elem? ps j ≡ some p
    → get_elem? ps k ≡ some q
    → j < k
    → (p.memory_address + p.placed_memory_size ≤ q.memory_address) × (file_end_of p ≤ q.file_offset)
Placed-disjoint j k p q done ep eq lt = cc
Placed-disjoint j zero p q (next h l) ep eq lt = absurd (omega arith)
Placed-disjoint zero (suc k) p q (next {p = r} h l) ep eq lt =
    let (memory, file) = Placed-after k q l eq in
    let (_, _, fend) = Places-ends h in
    let same : r ≡ p = some-injective _ _ ep in
    rw (← same) (omega (arith, h.memory_end), omega arith)
Placed-disjoint (suc j) (suc k) p q (next h l) ep eq lt =
    Placed-disjoint j k p q l ep eq (omega arith)

-- In a computed layout an earlier placement ends before a later one starts, in memory, and in the
-- file if it has file bytes: no two sections overlap.
pub compute-disjoint :
    (objects : List ObjectFile) (base : ℕ) (l : Layout) (j k : ℕ) (p q : SectionPlacement)
    → IsU64 base
    → compute objects base ≡ ok l
    → get_elem? l.sections j ≡ some p
    → get_elem? l.sections k ≡ some q
    → j < k
    → (p.memory_address + p.placed_memory_size ≤ q.memory_address) × (file_end_of p ≤ q.file_offset)
compute-disjoint objects base l j k p q hb h ep eq lt =
    Placed-disjoint j k p q (compute-IsLayout objects base l hb h).placed ep eq lt
