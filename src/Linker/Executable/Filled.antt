-- ===== src/Linker/Executable/Filled.antt =====
-- What the loops over the sections of one segment do.
use whale.Prelude.{
  ℕ, suc, ◌+◌, ◌-◌, ◌%◌, ◌≤◌, ◌≡◌, ◌⊎◌, inl, inr, refl, sym, subst, ap, ◌∙◌, true, List, [], ◌∷◌,
  ◌++◌, any, append_assoc, append-nil, max, modify_at, some, ok, ok-injective, >>=-eq-ok,
  or_fail-some, map_err-ok, or_fail, map_err, if◌then◌else◌, All, All-append, arith, Bool-cases,
}
use whale.Prelude.Words.{
  IsU64, IsPower, checked_add, checked_add-some, Rounds, round_up, round_up-Rounds,
}
use whale.Prelude.Bits.{pow_pos}
use whale.Object.{Section, SectionKind, is_bss, memory_size, ObjectFile}
use whale.Object.Validate.Sound.{IsSection}
use whale.Linker.Layout.{SectionPlacement}
use whale.Linker.Executable.{
  base, ImageFault, align, alignment_overflow, address_overflow, memory_overflow, bad_size,
  same_kind, Filling, placed_at, fill_section, fill_kind, fill_sections, fill_objects, fill_kinds,
}

-- A run of placements, each aligned and behind the one before, at the address of its file offset.
abbrev pub Chain : ℕ → List SectionPlacement → ℕ → Type 0
Chain a [] b = a ≤ b
Chain a (p ∷ ps) b =
    (a ≤ p.file_offset)
    × (p.memory_address ≡ base + p.file_offset)
    × (p.memory_address % p.align ≡ 0)
    × Chain (p.file_offset + p.placed_memory_size) ps b

Chain-from : (a b c : ℕ) (xs : List SectionPlacement) → a ≤ b → Chain b xs c → Chain a xs c
Chain-from a b c [] h k = omega arith
Chain-from a b c (x ∷ xs) h k = (omega (arith, k.0), k.1, k.2, k.3)

pub Chain-append :
    (a b c : ℕ) (ps qs : List SectionPlacement) → Chain a ps b → Chain b qs c → Chain a (ps ++ qs) c
Chain-append a b c [] qs h k = Chain-from a b c qs h k
Chain-append a b c (p ∷ ps) qs h k =
    (h.0, h.1, h.2, Chain-append (p.file_offset + p.placed_memory_size) b c ps qs h.3 k)

pub align-Rounds : (v a r : ℕ) → IsU64 v → IsPower a → align v a ≡ ok r → Rounds v a (some r)
unfolding align
align-Rounds v a r hv pow h =
    subst (Rounds v a) (or_fail-some (round_up v a) alignment_overflow h)
      (round_up-Rounds v a hv pow)

-- Inside the file, or BSS.
abbrev pub EndsIn : ℕ → SectionPlacement → Type 0
EndsIn end x = (is_bss x.kind ≡ true) ⊎ (x.file_offset + x.placed_memory_size ≤ end)

abbrev pub OfKind : List SectionKind → SectionPlacement → Type 0
OfKind ks x = any (same_kind x.kind) ks ≡ true

-- What a part of the loops adds to the placements.
pub record Grows (ks : List SectionKind) (p q : Filling) : Type 0 where
  pub new : List SectionPlacement
  pub added : q.placements ≡ p.placements ++ new
  pub chain : Chain p.cursor new q.cursor
  pub in_file : All (EndsIn q.file_end) new
  pub of_kinds : All (OfKind ks) new
  pub file_grows : p.file_end ≤ q.file_end
  pub inside : q.file_end ≤ q.cursor

EndsIn-grow : (a b : ℕ) (xs : List SectionPlacement) → a ≤ b → All (EndsIn a) xs → All (EndsIn b) xs
EndsIn-grow a b [] h k = tt
EndsIn-grow a b (x ∷ xs) h (inl z, k) = (inl z, EndsIn-grow a b xs h k)
EndsIn-grow a b (x ∷ xs) h (inr z, k) = (inr (omega arith), EndsIn-grow a b xs h k)

Grows-none : (ks : List SectionKind) (p : Filling) → p.file_end ≤ p.cursor → Grows ks p p
Grows-none ks p h = record {
  new = [];
  added = sym (append-nil p.placements);
  chain = omega arith;
  in_file = tt;
  of_kinds = tt;
  file_grows = omega arith;
  inside = h;
}

Grows-both : (ks : List SectionKind) (p q r : Filling) → Grows ks p q → Grows ks q r → Grows ks p r
Grows-both ks p q r g h = record {
  new = g.new ++ h.new;
  added = h.added ∙ ap (λ xs. xs ++ h.new) g.added ∙ append_assoc p.placements g.new h.new;
  chain = Chain-append p.cursor q.cursor r.cursor g.new h.new g.chain h.chain;
  in_file =
      All-append (EndsIn r.file_end) g.new h.new
        (EndsIn-grow q.file_end r.file_end g.new h.file_grows g.in_file) h.in_file;
  of_kinds = All-append (OfKind ks) g.new h.new g.of_kinds h.of_kinds;
  file_grows = omega (arith, g.file_grows, h.file_grows);
  inside = h.inside;
}

IsSection-IsPower : (s : Section) → IsSection s → IsPower (max s.align 1)
IsSection-IsPower s v = elim v.aligned [
  | inl z ↦ (0, omega arith, omega (arith, z))
  | inr (k, lt, e) ↦ (k, lt, omega (arith, e, pow_pos k))
]

-- One section: the progress behind it, where it is placed at `va`.
abbrev filled : SectionKind → ℕ → ℕ → Section → Filling → ℕ → ℕ → Filling
filled kind oi si s p va size = record {
  cursor = va - base + size;
  file_end = if is_bss kind then p.file_end else va - base + size;
  offsets = modify_at (modify_at (λ _. va) si) oi p.offsets;
  placements = p.placements ++ placed_at oi si kind s va size ∷ [];
}

pub record Fills (kind : SectionKind) (oi si : ℕ) (s : Section) (p q : Filling) : Type 0 where
  pub va : ℕ
  pub size : ℕ
  pub above : base + p.cursor ≤ va
  pub aligned : va % max s.align 1 ≡ 0
  pub sized : memory_size s ≡ ok size
  pub result : filled kind oi si s p va size ≡ q

pub fill_section-Fills :
    (kind : SectionKind) (oi si : ℕ) (s : Section) (p q : Filling)
    → IsSection s
    → fill_section kind oi si s p ≡ ok q
    → Fills kind oi si s p q
unfolding fill_section
fill_section-Fills kind oi si s p q v h =
    let (address, ha, h1) = >>=-eq-ok (or_fail (checked_add base p.cursor) address_overflow) _ h in
    let (va, hv, h2) = >>=-eq-ok (align address (max s.align 1)) _ h1 in
    let (size, hs, h3) = >>=-eq-ok (map_err bad_size (memory_size s)) _ h2 in
    let (cursor, hc, h4) =
      >>=-eq-ok (or_fail (checked_add (va - base) size) memory_overflow) _ h3 in
    let start =
      checked_add-some base p.cursor
        (or_fail-some (checked_add base p.cursor) address_overflow ha) in
    let up = align-Rounds address (max s.align 1) va start.1 (IsSection-IsPower s v) hv in
    let sum =
      checked_add-some (va - base) size
        (or_fail-some (checked_add (va - base) size) memory_overflow hc) in
    record {
      va = va;
      size = size;
      above = subst (λ a. a ≤ va) start.0 up.0;
      aligned = up.2;
      sized = map_err-ok bad_size (memory_size s) hs;
      result =
          subst
            (λ c.
              record {
                cursor = c;
                file_end = if is_bss kind then p.file_end else c;
                offsets = modify_at (modify_at (λ _. va) si) oi p.offsets;
                placements = p.placements ++ placed_at oi si kind s va size ∷ [];
              }
              ≡ q)
            sum.0 (ok-injective {E = ImageFault} _ q h4);
    }

filled-Grows :
    (ks : List SectionKind) (kind : SectionKind) (oi si : ℕ) (s : Section) (p : Filling)
    (va size : ℕ)
    → any (same_kind kind) ks ≡ true
    → p.file_end ≤ p.cursor
    → base + p.cursor ≤ va
    → va % max s.align 1 ≡ 0
    → Grows ks p (filled kind oi si s p va size)
filled-Grows ks kind oi si s p va size k inside above aligned = record {
  new = placed_at oi si kind s va size ∷ [];
  added = refl;
  chain = (omega arith, omega arith, aligned, omega arith);
  in_file = (ends kind, tt);
  of_kinds = (k, tt);
  file_grows = grows kind;
  inside = stays kind;
}
  where
    ends :
        (x : SectionKind)
        → (is_bss x ≡ true)
          ⊎ (va - base + size ≤ (if is_bss x then p.file_end else va - base + size))
    ends x = elim (Bool-cases (is_bss x)) [ inl y ↦ inl y | inr n ↦ inr (rw n (omega arith)) ]

    grows : (x : SectionKind) → p.file_end ≤ (if is_bss x then p.file_end else va - base + size)
    grows x = elim (Bool-cases (is_bss x)) [
      | inl y ↦ rw y (omega arith)
      | inr n ↦ rw n (omega arith)
    ]

    stays :
        (x : SectionKind) → (if is_bss x then p.file_end else va - base + size) ≤ va - base + size
    stays x = elim (Bool-cases (is_bss x)) [
      | inl y ↦ rw y (omega arith)
      | inr n ↦ rw n (omega arith)
    ]

module _ (ks : List SectionKind) (kind : SectionKind)
    (chosen : any (same_kind kind) ks ≡ true) where
  fill_section-Grows :
      (oi si : ℕ) (s : Section) (p q : Filling)
      → IsSection s
      → p.file_end ≤ p.cursor
      → fill_section kind oi si s p ≡ ok q
      → Grows ks p q
  fill_section-Grows oi si s p q v inside h =
      let f = fill_section-Fills kind oi si s p q v h in
      subst (Grows ks p) f.result
        (filled-Grows ks kind oi si s p f.va f.size chosen inside f.above f.aligned)

  fill_kind-Grows :
      (oi si : ℕ) (s : Section) (p q : Filling)
      → IsSection s
      → p.file_end ≤ p.cursor
      → fill_kind kind oi si s p ≡ ok q
      → Grows ks p q
  unfolding fill_kind
  fill_kind-Grows oi si s p q v inside h = elim (Bool-cases (same_kind s.kind kind)) [
    | inl y ↦ fill_section-Grows oi si s p q v inside (ground (arith, h, y))
    | inr n ↦
        subst (Grows ks p) (ok-injective {E = ImageFault} p q (ground (arith, h, n)))
          (Grows-none ks p inside)
  ]

  fill_sections-Grows :
      (oi si : ℕ) (ss : List Section) (p q : Filling)
      → All IsSection ss
      → p.file_end ≤ p.cursor
      → fill_sections kind oi si ss p ≡ ok q
      → Grows ks p q
  unfolding fill_sections
  fill_sections-Grows oi si [] p q v inside h =
      subst (Grows ks p) (ok-injective {E = ImageFault} p q h) (Grows-none ks p inside)
  fill_sections-Grows oi si (s ∷ ss) p q v inside h =
      let (m, h1, h2) = >>=-eq-ok (fill_kind kind oi si s p) _ h in
      let g = fill_kind-Grows oi si s p m v.0 inside h1 in
      Grows-both ks p m q g (fill_sections-Grows oi (suc si) ss m q v.1 g.inside h2)

  fill_objects-Grows :
      (oi : ℕ) (os : List ObjectFile) (p q : Filling)
      → All (λ (o : ObjectFile). All IsSection o.sections) os
      → p.file_end ≤ p.cursor
      → fill_objects kind oi os p ≡ ok q
      → Grows ks p q
  unfolding fill_objects
  fill_objects-Grows oi [] p q v inside h =
      subst (Grows ks p) (ok-injective {E = ImageFault} p q h) (Grows-none ks p inside)
  fill_objects-Grows oi (o ∷ os) p q v inside h =
      let (m, h1, h2) = >>=-eq-ok (fill_sections kind oi 0 o.sections p) _ h in
      let g = fill_sections-Grows oi 0 o.sections p m v.0 inside h1 in
      Grows-both ks p m q g (fill_objects-Grows (suc oi) os m q v.1 g.inside h2)

-- All the kinds of one segment.
pub fill_kinds-Grows :
    (ks all_kinds : List SectionKind) (os : List ObjectFile) (p q : Filling)
    → All (λ k. any (same_kind k) all_kinds ≡ true) ks
    → All (λ (o : ObjectFile). All IsSection o.sections) os
    → p.file_end ≤ p.cursor
    → fill_kinds ks os p ≡ ok q
    → Grows all_kinds p q
unfolding fill_kinds
fill_kinds-Grows [] all_kinds os p q c v inside h =
    subst (Grows all_kinds p) (ok-injective {E = ImageFault} p q h) (Grows-none all_kinds p inside)
fill_kinds-Grows (k ∷ ks) all_kinds os p q c v inside h =
    let (m, h1, h2) = >>=-eq-ok (fill_objects k 0 os p) _ h in
    let g = fill_objects-Grows all_kinds k c.0 0 os p m v inside h1 in
    Grows-both all_kinds p m q g (fill_kinds-Grows ks all_kinds os m q c.1 v g.inside h2)
