-- ===== src/Linker/Executable/Found.antt =====
-- A pass over a kind locates every section of that kind; the whole layout locates every section.
use whale.Prelude.{
  ℕ, zero, suc, ◌+◌, ◌≡◌, inl, inr, refl, sym, subst, true, List, [], ◌∷◌, any, some,
  some-injective, ok, >>=-eq-ok, All, arith, Bool-cases, get_elem?,
}
use whale.Object.{Section, SectionKind, text, data_section, bss, read_only_data, ObjectFile}
use whale.Object.Validate.Sound.{IsSection}
use whale.Linker.Executable.{same_kind, Filling, fill_kind, fill_sections, fill_objects, fill_kinds}
use whale.Linker.Executable.Segments.{same_kind-eq}
use whale.Linker.Executable.Covered.{
  Located, At, Present, fill_kind-keeps, fill_sections-keeps, fill_objects-keeps, fill_kinds-keeps,
  step-Present, placed-Located, step-Located,
}

same_kind_self : (k : SectionKind) → same_kind k k ≡ true
same_kind_self text = refl
same_kind_self data_section = refl
same_kind_self bss = refl
same_kind_self read_only_data = refl

module _ (objects : List ObjectFile)
    (valid : All (λ (o : ObjectFile). All IsSection o.sections) objects) (i j : ℕ) (t : Section)
    (at_t : At objects i j t) where
  abbrev IsLocated : Filling → Type 0
  IsLocated p = Located i j t p.offsets p.placements

  fill_kind-finds : (p q : Filling) → fill_kind t.kind i j t p ≡ ok q → Present i j p → IsLocated q
  unfolding fill_kind
  fill_kind-finds p q h e =
      placed-Located objects valid t.kind i j t p q at_t refl
        (ground (arith, h, same_kind_self t.kind)) e

  -- The section is the `n`-th of the rest of its object.
  fill_sections-finds :
      (si n : ℕ) (ss : List Section) (p q : Filling)
      → ((m : ℕ) (s : Section) → get_elem? ss m ≡ some s → At objects i (si + m) s)
      → get_elem? ss n ≡ some t
      → si + n ≡ j
      → fill_sections t.kind i si ss p ≡ ok q
      → Present i j p
      → IsLocated q
  unfolding fill_sections
  fill_sections-finds si n [] p q at g e h here = cc
  fill_sections-finds si zero (s ∷ ss) p q at g e h here =
      let (m, h1, h2) = >>=-eq-ok (fill_kind t.kind i si s p) _ h in
      let same : s ≡ t = some-injective s t g in
      let place : si ≡ j = omega (arith, e) in
      let h1' : fill_kind t.kind i j t p ≡ ok m =
        subst (λ (x : Section). fill_kind t.kind i j x p ≡ ok m) same
          (subst (λ k. fill_kind t.kind i k s p ≡ ok m) place h1) in
      fill_sections-keeps objects IsLocated (step-Located objects valid i j t at_t) t.kind i
        (suc si) ss m q
        (λ n' x e'.
          subst (λ k. At objects i k x) {x = si + suc n'} (omega arith) (at (suc n') x e'))
        h2 (fill_kind-finds p m h1' here)
  fill_sections-finds si (suc n) (s ∷ ss) p q at g e h here =
      let (m, h1, h2) = >>=-eq-ok (fill_kind t.kind i si s p) _ h in
      fill_sections-finds (suc si) n ss m q
        (λ n' x e'.
          subst (λ k. At objects i k x) {x = si + suc n'} (omega arith) (at (suc n') x e'))
        g (omega (arith, e)) h2
        (fill_kind-keeps objects (Present i j) (step-Present objects valid i j) t.kind i si s p m
          (subst (λ k. At objects i k s) {x = si + 0} (omega arith) (at 0 s refl)) h1 here)

  fill_objects-finds :
      (oi n : ℕ) (os : List ObjectFile) (o : ObjectFile) (p q : Filling)
      → ((m : ℕ) (x : ObjectFile) → get_elem? os m ≡ some x → get_elem? objects (oi + m) ≡ some x)
      → get_elem? os n ≡ some o
      → get_elem? o.sections j ≡ some t
      → oi + n ≡ i
      → fill_objects t.kind oi os p ≡ ok q
      → Present i j p
      → IsLocated q
  unfolding fill_objects
  fill_objects-finds oi n [] o p q at g gs e h here = cc
  fill_objects-finds oi zero (x ∷ os) o p q at g gs e h here =
      let (m, h1, h2) = >>=-eq-ok (fill_sections t.kind oi 0 x.sections p) _ h in
      let same : x ≡ o = some-injective x o g in
      let place : oi ≡ i = omega (arith, e) in
      let found : get_elem? objects i ≡ some x =
        subst (λ k. get_elem? objects k ≡ some x) e (at 0 x refl) in
      fill_objects-keeps objects IsLocated (step-Located objects valid i j t at_t) t.kind (suc oi)
        os m q
        (λ n' y e'.
          subst (λ k. get_elem? objects k ≡ some y) {x = oi + suc n'} (omega arith)
            (at (suc n') y e'))
        h2
        (fill_sections-finds 0 j x.sections p m
          (λ n' s e'.
            (x, found, subst (λ k. get_elem? x.sections k ≡ some s) {x = n'} (omega arith) e'))
          (subst (λ (y : ObjectFile). get_elem? y.sections j ≡ some t) (sym same) gs) (omega arith)
          (subst (λ k. fill_sections t.kind k 0 x.sections p ≡ ok m) place h1) here)
  fill_objects-finds oi (suc n) (x ∷ os) o p q at g gs e h here =
      let (m, h1, h2) = >>=-eq-ok (fill_sections t.kind oi 0 x.sections p) _ h in
      let found : get_elem? objects oi ≡ some x =
        subst (λ k. get_elem? objects k ≡ some x) {x = oi + 0} (omega arith) (at 0 x refl) in
      fill_objects-finds (suc oi) n os o m q
        (λ n' y e'.
          subst (λ k. get_elem? objects k ≡ some y) {x = oi + suc n'} (omega arith)
            (at (suc n') y e'))
        g gs (omega (arith, e)) h2
        (fill_sections-keeps objects (Present i j) (step-Present objects valid i j) t.kind oi 0
          x.sections p m
          (λ n' s e'.
            (x, found, subst (λ k. get_elem? x.sections k ≡ some s) {x = n'} (omega arith) e'))
          h1 here)

  -- The kinds of a segment, one of which is the section's.
  pub fill_kinds-finds :
      (ks : List SectionKind) (p q : Filling)
      → any (same_kind t.kind) ks ≡ true
      → fill_kinds ks objects p ≡ ok q
      → Present i j p
      → IsLocated q
  unfolding fill_kinds
  fill_kinds-finds [] p q k h here = cc
  fill_kinds-finds (x ∷ ks) p q k h here =
      let (m, h1, h2) = >>=-eq-ok (fill_objects x 0 objects p) _ h in
      elim (Bool-cases (same_kind t.kind x)) [
        | inl y ↦
            fill_kinds-keeps objects IsLocated (step-Located objects valid i j t at_t) ks m q h2 (
              fill_objects-finds 0 i objects at_t.0 p m
                (λ n o e. subst (λ a. get_elem? objects a ≡ some o) {x = n} (omega arith) e) at_t.1
                at_t.2 (omega arith)
                (subst (λ a. fill_objects a 0 objects p ≡ ok m) (sym (same_kind-eq t.kind x y)) h1)
                here)
        | inr n ↦ fill_kinds-finds ks m q (ground (arith, k, n)) h2 (
            fill_objects-keeps objects (Present i j) (step-Present objects valid i j) x 0 objects p
              m (λ n' o e. subst (λ a. get_elem? objects a ≡ some o) {x = n'} (omega arith) e) h1
              here)
      ]
