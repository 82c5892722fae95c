-- ===== src/Ir/Layout/Natural.antt =====
-- What every computed layout promises: a power-of-two alignment that divides the size, and fields
-- that lie in order, aligned, without overlap and inside the whole.
use whale.Prelude.{
  ℕ, ◌+◌, ◌*◌, ◌/◌, ◌%◌, ◌^◌, ◌≤◌, ◌<◌, max, ◌≡◌, sym, subst, ◌∙◌, ◌⊎◌, inl, inr, List, [], ◌∷◌,
  ◌++◌, some, ok, ◌>>=◌, leb, get_elem?, arith, Bool-cases, Option-cases, Result-cases,
}
use whale.Prelude.Words.{
  IsU64, IsPower, IsPower-mod, mod-mul_right, checked_add, checked_add-some, checked_mul, round_up,
  round_up-Rounds, Rounds,
}
use native.Mathlib.Nat.{pow-le-pow_right}
use whale.Target.{StorageLayout}
use whale.Ir.{Ty, Tys}
use whale.Ir.Layout.{
  TypeLayout, scalar, scalar_for, align_up, bounded, array_layout, add_field, close_fields,
  layout_storage,
}

pub record IsNatural (l : TypeLayout) : Type 0 where
  pub power : IsPower l.align
  pub whole : l.size % l.align ≡ 0
  pub fits : IsU64 l.size

-- `layout` can be asked for a scalar: its alignments are powers of two within the scalar's size.
pub record IsStorage (s : StorageLayout) : Type 0 where
  pub scalars : (i a : ℕ) → get_elem? s.scalar_align i ≡ some a → IsPower a × (a ≤ 2 ^ i)
  pub pointer : IsPower s.pointer_align
  pub width : (s.layout.ptr_bits ≡ 32) ⊎ (s.layout.ptr_bits ≡ 64)
  pub pointer_fits : s.pointer_align ≤ s.layout.ptr_bits / 8

pub align_up-ok :
    {r : ℕ} (v a : ℕ) → IsU64 v → IsPower a → align_up v a ≡ ok r → Rounds v a (some r)
unfolding align_up checked_add
align_up-ok v a hv p h =
    let e : round_up v a ≡ some _ = ground arith in subst (Rounds v a) e (round_up-Rounds v a hv p)

pub bounded-ok : (s : StorageLayout) (l : TypeLayout) {r : TypeLayout} → bounded s l ≡ ok r → l ≡ r
unfolding bounded
bounded-ok s l h = ground arith

pub scalar-IsNatural :
    (s : StorageLayout) (i : ℕ) {r : TypeLayout}
    → IsStorage s
    → i ≤ 4
    → (scalar_for s (2 ^ i) i >>= bounded s) ≡ ok r
    → IsNatural r
scalar-IsNatural s i {r} valid hi h = elim (Option-cases (get_elem? s.scalar_align i)) [
  | inl bad ↦ absurd (ground arith)
  | inr (a, e) ↦
      let (power, small) = valid.scalars i a e in
      let b : bounded s (scalar (2 ^ i) a) ≡ ok r = ground arith in
      subst IsNatural (bounded-ok s _ b) (record {
        power = power;
        whole = IsPower-mod i a power small;
        fits = omega (arith, pow-le-pow_right {n = 2} (omega arith) hi);
      })
]

pointer_small : (s : StorageLayout) → IsStorage s → IsU64 (s.layout.ptr_bits / 8)
pointer_small s valid = omega (arith, valid.width)

pointer_whole : (s : StorageLayout) → IsStorage s → s.layout.ptr_bits / 8 % s.pointer_align ≡ 0
pointer_whole s valid = elim (valid.width) [
  | inl e ↦
      rw e (IsPower-mod 2 s.pointer_align valid.pointer (omega (arith, valid.pointer_fits, e)))
  | inr e ↦
      rw e (IsPower-mod 3 s.pointer_align valid.pointer (omega (arith, valid.pointer_fits, e)))
]

pub pointer-IsNatural :
    (s : StorageLayout) {r : TypeLayout}
    → IsStorage s
    → bounded s (scalar (s.layout.ptr_bits / 8) s.pointer_align) ≡ ok r
    → IsNatural r
pointer-IsNatural s valid h =
    subst IsNatural (bounded-ok s _ h) (record {
      power = valid.pointer;
      whole = pointer_whole s valid;
      fits = pointer_small s valid;
    })

array_layout-ok :
    (n : ℕ) (e l : TypeLayout)
    → array_layout n e ≡ ok l
    → (l.align ≡ e.align) × (l.size ≡ e.size * n) × IsU64 l.size
unfolding array_layout checked_mul
array_layout-ok n e l h = ground arith

pub array-IsNatural :
    (s : StorageLayout) (n : ℕ) (e l : TypeLayout) {r : TypeLayout}
    → IsNatural e
    → array_layout n e ≡ ok l
    → bounded s l ≡ ok r
    → IsNatural r
array-IsNatural s n e l nat h b =
    let (align, size, fits) = array_layout-ok n e l h in
    subst IsNatural (bounded-ok s _ b) (record {
      power = subst IsPower (sym align) nat.power;
      whole = rw (align, size) (mod-mul_right e.align e.size n nat.whole);
      fits = fits;
    })

pub max-IsPower : (a b : ℕ) → IsPower a → IsPower b → IsPower (max a b)
max-IsPower a b p q = elim (Bool-cases (leb a b)) [
  | inl h ↦ let e : max a b ≡ b = ground arith in subst IsPower (sym e) q
  | inr h ↦ let e : max a b ≡ a = ground arith in subst IsPower (sym e) p
]

-- The fields of an aggregate: `FieldsAt s d i ts os j` says that the fields `ts` stand at the
-- offsets `os`, from `i` on and up to `j`, each aligned and behind the one before.
pub data FieldsAt (s : StorageLayout) (d : ℕ) : ℕ → Tys → List ℕ → ℕ → Type 0 where
  none_left : {i : ℕ} → FieldsAt s d i Tys.nil [] i
  field_at :
      {i o j : ℕ} {t : Ty} {ts : Tys} {os : List ℕ} {l : TypeLayout}
      → layout_storage s d t ≡ ok l
      → i ≤ o
      → o < i + l.align
      → o % l.align ≡ 0
      → FieldsAt s d (o + l.size) ts os j
      → FieldsAt s d i (Tys.cons t ts) (o ∷ os) j

pub add_field-ok :
    (r f q : TypeLayout)
    → IsPower f.align
    → IsU64 r.size
    → add_field r f ≡ ok q
    → (o : ℕ) × (r.size ≤ o)
      × (o < r.size + f.align)
      × (o % f.align ≡ 0)
      × (q.size ≡ o + f.size)
      × IsU64 q.size
      × (q.align ≡ max r.align f.align)
      × (q.field_offsets ≡ r.field_offsets ++ o ∷ [])
unfolding add_field
add_field-ok r f q pf hr h = elim (Result-cases (align_up r.size f.align)) [
  | inl (e, bad) ↦ absurd (ground arith)
  | inr (o, up) ↦
      let bounds = align_up-ok r.size f.align hr pf up in
      elim (Option-cases (checked_add o f.size)) [
        | inl bad ↦ absurd (ground arith)
        | inr (end, ended) ↦
            let sum = checked_add-some o f.size ended in
            (
              o,
              bounds.0,
              bounds.1,
              bounds.2,
              ground (arith, sum.0),
              ground (arith, sum.1),
              ground arith,
              ground arith,
            )
      ]
]

-- The state of the loop over the fields.
pub record FieldsDone (s : StorageLayout) (d : ℕ) (ts : Tys) (r q : TypeLayout) : Type 0 where
  pub offsets : List ℕ
  pub appended : q.field_offsets ≡ r.field_offsets ++ offsets
  pub at_offsets : FieldsAt s d r.size ts offsets q.size
  pub power : IsPower q.align
  pub fits : IsU64 q.size

pub close_fields-IsNatural :
    (s : StorageLayout) (q l : TypeLayout) {r : TypeLayout}
    → IsPower q.align
    → IsU64 q.size
    → close_fields q ≡ ok l
    → bounded s l ≡ ok r
    → IsNatural r
unfolding close_fields
close_fields-IsNatural s q l pq hq h b = elim (Result-cases (align_up q.size q.align)) [
  | inl (e, bad) ↦ absurd (ground arith)
  | inr (o, up) ↦
      let bounds = align_up-ok q.size q.align hq pq up in
      let e : l ≡ record q { size = o } = ground arith in
      subst IsNatural (sym e ∙ bounded-ok s _ b)
        (record { power = pq; whole = bounds.2; fits = bounds.3 })
]
