-- ===== src/Linker/Executable/Full.antt =====
-- Kinds without BSS: the file ends where the memory does.
use whale.Prelude.{
  ℕ, suc, ◌≡◌, inl, inr, refl, subst, false, List, [], ◌∷◌, ok, ok-injective, >>=-eq-ok, All, arith,
  Bool-cases,
}
use whale.Object.{Section, SectionKind, is_bss, ObjectFile}
use whale.Object.Validate.Sound.{IsSection}
use whale.Linker.Executable.{
  ImageFault, same_kind, Filling, fill_kind, fill_sections, fill_objects, fill_kinds,
}
use whale.Linker.Executable.Filled.{fill_section-Fills}

-- Without BSS, the file ends where the memory does.
abbrev IsFull : Filling → Type 0
IsFull p = p.file_end ≡ p.cursor

fill_kind-IsFull :
    (kind : SectionKind) (oi si : ℕ) (s : Section) (p q : Filling)
    → is_bss kind ≡ false
    → IsSection s
    → IsFull p
    → fill_kind kind oi si s p ≡ ok q
    → IsFull q
unfolding fill_kind
fill_kind-IsFull kind oi si s p q b v full h = elim (Bool-cases (same_kind s.kind kind)) [
  | inl y ↦
      let f = fill_section-Fills kind oi si s p q v (ground (arith, h, y)) in
      subst IsFull f.result (rw b refl)
  | inr n ↦ subst IsFull (ok-injective {E = ImageFault} p q (ground (arith, h, n))) full
]

fill_sections-IsFull :
    (kind : SectionKind) (oi si : ℕ) (ss : List Section) (p q : Filling)
    → is_bss kind ≡ false
    → All IsSection ss
    → IsFull p
    → fill_sections kind oi si ss p ≡ ok q
    → IsFull q
unfolding fill_sections
fill_sections-IsFull kind oi si [] p q b v full h =
    subst IsFull (ok-injective {E = ImageFault} p q h) full
fill_sections-IsFull kind oi si (s ∷ ss) p q b v full h =
    let (m, h1, h2) = >>=-eq-ok (fill_kind kind oi si s p) _ h in
    fill_sections-IsFull kind oi (suc si) ss m q b v.1
      (fill_kind-IsFull kind oi si s p m b v.0 full h1) h2

fill_objects-IsFull :
    (kind : SectionKind) (oi : ℕ) (os : List ObjectFile) (p q : Filling)
    → is_bss kind ≡ false
    → All (λ (o : ObjectFile). All IsSection o.sections) os
    → IsFull p
    → fill_objects kind oi os p ≡ ok q
    → IsFull q
unfolding fill_objects
fill_objects-IsFull kind oi [] p q b v full h =
    subst IsFull (ok-injective {E = ImageFault} p q h) full
fill_objects-IsFull kind oi (o ∷ os) p q b v full h =
    let (m, h1, h2) = >>=-eq-ok (fill_sections kind oi 0 o.sections p) _ h in
    fill_objects-IsFull kind (suc oi) os m q b v.1
      (fill_sections-IsFull kind oi 0 o.sections p m b v.0 full h1) h2

pub fill_kinds-IsFull :
    (ks : List SectionKind) (os : List ObjectFile) (p q : Filling)
    → All (λ k. is_bss k ≡ false) ks
    → All (λ (o : ObjectFile). All IsSection o.sections) os
    → p.file_end ≡ p.cursor
    → fill_kinds ks os p ≡ ok q
    → q.file_end ≡ q.cursor
unfolding fill_kinds
fill_kinds-IsFull [] os p q b v full h = subst IsFull (ok-injective {E = ImageFault} p q h) full
fill_kinds-IsFull (k ∷ ks) os p q b v full h =
    let (m, h1, h2) = >>=-eq-ok (fill_objects k 0 os p) _ h in
    fill_kinds-IsFull ks os m q b.1 v (fill_objects-IsFull k 0 os p m b.0 v full h1) h2
