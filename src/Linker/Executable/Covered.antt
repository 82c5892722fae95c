-- ===== src/Linker/Executable/Covered.antt =====
-- Every section of every object has a placement, and the layout's table gives its address.
use whale.Prelude.{
  ℕ, suc, ◌+◌, ◌≡◌, ◌⊎◌, inl, inr, refl, sym, subst, ◌∙◌, true, ◌&&◌, ◌==◌, List, [], ◌∷◌, ◌++◌,
  some, some-injective, ok, ok-injective, >>=-eq-ok, All, All-get, arith, Bool-cases, get_elem?,
  get_in, modify_at, get_in-modify_self, get_in-modify_other,
}
use whale.Object.{Section, SectionKind, memory_size, ObjectFile}
use whale.Object.Validate.Sound.{IsSection}
use whale.Linker.Layout.{SectionPlacement}
use whale.Linker.Executable.{
  ImageFault, same_kind, Filling, placed_at, fill_section, fill_kind, fill_sections, fill_objects,
  fill_kinds,
}
use whale.Linker.Executable.Segments.{same_kind-eq}
use whale.Linker.Executable.Filled.{fill_section-Fills}

abbrev Member : SectionPlacement → List SectionPlacement → Type 0
Member p [] = ⊥
Member p (x ∷ xs) = (x ≡ p) ⊎ Member p xs

Member-left :
    (p : SectionPlacement) (xs ys : List SectionPlacement) → Member p xs → Member p (xs ++ ys)
Member-left p [] ys h = absurd h
Member-left p (x ∷ xs) ys (inl h) = inl h
Member-left p (x ∷ xs) ys (inr h) = inr (Member-left p xs ys h)

Member-last : (p : SectionPlacement) (xs : List SectionPlacement) → Member p (xs ++ p ∷ [])
Member-last p [] = inl refl
Member-last p (x ∷ xs) = inr (Member-last p xs)

-- The section `s` with the indices `i` and `j` is placed, and the table holds its address.
pub record Located (i j : ℕ) (s : Section) (offsets : List (List ℕ))
    (placements : List SectionPlacement) : Type 0 where
  pub placement : SectionPlacement
  pub member : Member placement placements
  pub same_object : placement.object_index ≡ i
  pub same_section : placement.section_index ≡ j
  pub of_kind : placement.kind ≡ s.kind
  pub size : memory_size s ≡ ok placement.placed_memory_size
  pub address : get_in offsets i j ≡ some placement.memory_address

abbrev pub At : List ObjectFile → ℕ → ℕ → Section → Type 0
At objects i j s =
    (o : ObjectFile) × (get_elem? objects i ≡ some o) × (get_elem? o.sections j ≡ some s)

At-unique :
    (objects : List ObjectFile) (i j : ℕ) (s t : Section)
    → At objects i j s
    → At objects i j t
    → s ≡ t
At-unique objects i j s t (o, ho, hs) (p, hp, ht) =
    let e : o ≡ p = some-injective o p (sym ho ∙ hp) in
    some-injective s t
      (sym hs ∙ subst (λ (x : ObjectFile). get_elem? x.sections j ≡ some t) (sym e) ht)

-- What every placement of a section preserves, the loops preserve.
module _ (objects : List ObjectFile) (I : Filling → Type 0)
    (step : (kind : SectionKind) (oi si : ℕ) (s : Section) (p q : Filling)
      → At objects oi si s
      → s.kind ≡ kind
      → fill_section kind oi si s p ≡ ok q
      → I p
      → I q) where
  pub fill_kind-keeps :
      (kind : SectionKind) (oi si : ℕ) (s : Section) (p q : Filling)
      → At objects oi si s
      → fill_kind kind oi si s p ≡ ok q
      → I p
      → I q
  unfolding fill_kind
  fill_kind-keeps kind oi si s p q at h i = elim (Bool-cases (same_kind s.kind kind)) [
    | inl y ↦ step kind oi si s p q at (same_kind-eq s.kind kind y) (ground (arith, h, y)) i
    | inr n ↦ subst I (ok-injective {E = ImageFault} p q (ground (arith, h, n))) i
  ]

  pub fill_sections-keeps :
      (kind : SectionKind) (oi si : ℕ) (ss : List Section) (p q : Filling)
      → ((n : ℕ) (s : Section) → get_elem? ss n ≡ some s → At objects oi (si + n) s)
      → fill_sections kind oi si ss p ≡ ok q
      → I p
      → I q
  unfolding fill_sections
  fill_sections-keeps kind oi si [] p q at h i = subst I (ok-injective {E = ImageFault} p q h) i
  fill_sections-keeps kind oi si (s ∷ ss) p q at h i =
      let (m, h1, h2) = >>=-eq-ok (fill_kind kind oi si s p) _ h in
      fill_sections-keeps kind oi (suc si) ss m q
        (λ n t e. subst (λ k. At objects oi k t) {x = si + suc n} (omega arith) (at (suc n) t e)) h2
        (fill_kind-keeps kind oi si s p m
          (subst (λ k. At objects oi k s) {x = si + 0} (omega arith) (at 0 s refl)) h1 i)

  pub fill_objects-keeps :
      (kind : SectionKind) (oi : ℕ) (os : List ObjectFile) (p q : Filling)
      → ((n : ℕ) (o : ObjectFile) → get_elem? os n ≡ some o → get_elem? objects (oi + n) ≡ some o)
      → fill_objects kind oi os p ≡ ok q
      → I p
      → I q
  unfolding fill_objects
  fill_objects-keeps kind oi [] p q at h i = subst I (ok-injective {E = ImageFault} p q h) i
  fill_objects-keeps kind oi (o ∷ os) p q at h i =
      let (m, h1, h2) = >>=-eq-ok (fill_sections kind oi 0 o.sections p) _ h in
      let here : get_elem? objects oi ≡ some o =
        subst (λ k. get_elem? objects k ≡ some o) {x = oi + 0} (omega arith) (at 0 o refl) in
      fill_objects-keeps kind (suc oi) os m q
        (λ n t e.
          subst (λ k. get_elem? objects k ≡ some t) {x = oi + suc n} (omega arith) (at (suc n) t e))
        h2
        (fill_sections-keeps kind oi 0 o.sections p m
          (λ n s e. (o, here, subst (λ k. get_elem? o.sections k ≡ some s) {x = n} (omega arith) e))
          h1 i)

  pub fill_kinds-keeps :
      (ks : List SectionKind) (p q : Filling) → fill_kinds ks objects p ≡ ok q → I p → I q
  unfolding fill_kinds
  fill_kinds-keeps [] p q h i = subst I (ok-injective {E = ImageFault} p q h) i
  fill_kinds-keeps (k ∷ ks) p q h i =
      let (m, h1, h2) = >>=-eq-ok (fill_objects k 0 objects p) _ h in
      fill_kinds-keeps ks m q h2 (
        fill_objects-keeps k 0 objects p m
          (λ n o e. subst (λ k. get_elem? objects k ≡ some o) {x = n} (omega arith) e) h1 i)

-- One placement of a section keeps the others and the table's entries.
abbrev pub Present : ℕ → ℕ → Filling → Type 0
Present i j p = (x : ℕ) × (get_in p.offsets i j ≡ some x)

module _ (objects : List ObjectFile)
    (valid : All (λ (o : ObjectFile). All IsSection o.sections) objects) where
  pub At-IsSection : (i j : ℕ) (s : Section) → At objects i j s → IsSection s
  At-IsSection i j s (o, ho, hs) =
      All-get IsSection o.sections j
        (All-get (λ (x : ObjectFile). All IsSection x.sections) objects i valid ho) hs

  same_place : (i j oi si : ℕ) → ((oi == i) && (si == j)) ≡ true → (i ≡ oi) × (j ≡ si)
  same_place i j oi si h = ground (arith, h)

  pub step-Present :
      (i j : ℕ) (kind : SectionKind) (oi si : ℕ) (s : Section) (p q : Filling)
      → At objects oi si s
      → s.kind ≡ kind
      → fill_section kind oi si s p ≡ ok q
      → Present i j p
      → Present i j q
  step-Present i j kind oi si s p q at k h (x, e) =
      let f = fill_section-Fills kind oi si s p q (At-IsSection oi si s at) h in
      subst (Present i j) f.result (elim (Bool-cases ((oi == i) && (si == j))) [
        | inr other ↦ (x, get_in-modify_other (λ _. f.va) p.offsets oi si i j other ∙ e)
        | inl here ↦
            let (ei, ej) = same_place i j oi si here in
            (
              f.va,
              subst
                  (λ a. get_in (modify_at (modify_at (λ _. f.va) si) oi p.offsets) a j ≡ some f.va)
                  (sym ei)
                  (subst
                    (λ b.
                      get_in (modify_at (modify_at (λ _. f.va) si) oi p.offsets) oi b ≡ some f.va)
                    (sym ej)
                    (get_in-modify_self (λ _. f.va) p.offsets oi si x
                      (subst (λ b. get_in p.offsets oi b ≡ some x) ej
                        (subst (λ a. get_in p.offsets a j ≡ some x) ei e)))),
            )
      ])

  -- The section that is placed is located.
  pub placed-Located :
      (kind : SectionKind) (oi si : ℕ) (s : Section) (p q : Filling)
      → At objects oi si s
      → s.kind ≡ kind
      → fill_section kind oi si s p ≡ ok q
      → Present oi si p
      → Located oi si s q.offsets q.placements
  placed-Located kind oi si s p q at k h (x, e) =
      let f = fill_section-Fills kind oi si s p q (At-IsSection oi si s at) h in
      subst (λ (r : Filling). Located oi si s r.offsets r.placements) f.result
        (record {
          placement = placed_at oi si kind s f.va f.size;
          member = Member-last (placed_at oi si kind s f.va f.size) p.placements;
          same_object = refl;
          same_section = refl;
          of_kind = sym k;
          size = f.sized;
          address = get_in-modify_self (λ _. f.va) p.offsets oi si x e;
        })

  pub step-Located :
      (i j : ℕ) (t : Section)
      → At objects i j t
      → (kind : SectionKind) (oi si : ℕ) (s : Section) (p q : Filling) → At objects oi si s
      → s.kind ≡ kind
      → fill_section kind oi si s p ≡ ok q
      → Located i j t p.offsets p.placements
      → Located i j t q.offsets q.placements
  step-Located i j t at' kind oi si s p q at k h l = elim (Bool-cases ((oi == i) && (si == j))) [
    | inl here ↦
        let (ei, ej) = same_place i j oi si here in
        let same : s ≡ t =
          At-unique objects oi si s t at
            (subst (λ a. At objects a si t) ei (subst (λ b. At objects i b t) ej at')) in
        subst (λ a. Located a j t q.offsets q.placements) (sym ei)
          (subst (λ b. Located oi b t q.offsets q.placements) (sym ej)
            (subst (λ r. Located oi si r q.offsets q.placements) same
              (placed-Located kind oi si s p q at k h (
                l.placement.memory_address,
                subst (λ a. get_in p.offsets a si ≡ some l.placement.memory_address) ei
                    (subst (λ b. get_in p.offsets i b ≡ some l.placement.memory_address) ej
                      l.address),
              ))))
    | inr other ↦
        let f = fill_section-Fills kind oi si s p q (At-IsSection oi si s at) h in
        subst (λ (r : Filling). Located i j t r.offsets r.placements) f.result
          (record {
            placement = l.placement;
            member =
                Member-left l.placement p.placements (placed_at oi si kind s f.va f.size ∷ [])
                  l.member;
            same_object = l.same_object;
            same_section = l.same_section;
            of_kind = l.of_kind;
            size = l.size;
            address = get_in-modify_other (λ _. f.va) p.offsets oi si i j other ∙ l.address;
          })
  ]
