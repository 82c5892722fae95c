-- ===== src/Ir/Layout/Correct.antt =====
-- Every layout that `layout_storage` computes on a valid target is natural, by induction on the
-- type; the fields of an aggregate stand in order.
use whale.Prelude.{
  ℕ, suc, zero, ◌+◌, ◌≤◌, ◌≡◌, refl, sym, subst, ◌∙◌, inl, inr, true, false, ◌^◌, List, [], ◌∷◌,
  append_assoc, append-nil, some, ok, >>=-eq-ok, get_elem?, all, arith, Result-cases, min,
}
use native.Mathlib.Nat.{add-zero}
use Prim.Native.Nat.add
use whale.Prelude.Words.{IsU64, IsPower, is_power_of_two, is_power_of_two_sound}
use whale.Target.{StorageLayout, validate_storage, exceeds_from}
use whale.Ir.{Ty, Tys}
use whale.Ir.Layout.{
  TypeLayout, scalar, align_up, bounded, array_layout, add_field, close_fields, layout_storage,
  layout_fields, layout_for_storage, max_ir_nesting,
}
use whale.Ir.Layout.Natural.{
  IsNatural, IsStorage, scalar-IsNatural, pointer-IsNatural, array-IsNatural, add_field-ok,
  close_fields-IsNatural, max-IsPower, bounded-ok, align_up-ok, FieldsAt, none_left, field_at,
  FieldsDone,
}

-- A field, then the rest of the loop.
fields_step :
    (s : StorageLayout) (d : ℕ) (t : Ty) (ts : Tys) (r f r' q : TypeLayout)
    → IsNatural f
    → IsPower r.align
    → IsU64 r.size
    → layout_storage s d t ≡ ok f
    → add_field r f ≡ ok r'
    → (IsPower r'.align → IsU64 r'.size → FieldsDone s d ts r' q)
    → FieldsDone s d (Tys.cons t ts) r q
fields_step s d t ts r f r' q nat pr hr ef er rest =
    let (o, low, high, whole, size, fits, align, offsets) = add_field-ok r f r' nat.power hr er in
    let pr' = subst IsPower (sym align) (max-IsPower r.align f.align pr nat.power) in
    let more = rest pr' fits in
    record {
      offsets = o ∷ more.offsets;
      appended = more.appended ∙ rw (offsets, append_assoc);
      at_offsets =
          field_at ef low high whole
            (subst (λ x. FieldsAt s d x ts more.offsets q.size) size more.at_offsets);
      power = more.power;
      fits = more.fits;
    }

aggregate-IsNatural :
    (s : StorageLayout) (d : ℕ) (ts : Tys) (q l r : TypeLayout)
    → FieldsDone s d ts (scalar 0 1) q
    → close_fields q ≡ ok l
    → bounded s l ≡ ok r
    → IsNatural r
aggregate-IsNatural s d ts q l r done closed b =
    close_fields-IsNatural s q l done.power done.fits closed b

one-IsPower : IsPower 1
one-IsPower = (0, omega arith, refl)

mutual
  unfolding layout_storage layout_fields

  natural :
      (s : StorageLayout) (d : ℕ) (t : Ty) (r : TypeLayout)
      → IsStorage s
      → layout_storage s d t ≡ ok r
      → IsNatural r
  natural s d Ty.void r v h = cc
  natural s d Ty.bool r v h = scalar-IsNatural s 0 v (omega arith) h
  natural s d Ty.i1 r v h = scalar-IsNatural s 0 v (omega arith) h
  natural s d Ty.u1 r v h = scalar-IsNatural s 0 v (omega arith) h
  natural s d Ty.i8 r v h = scalar-IsNatural s 0 v (omega arith) h
  natural s d Ty.u8 r v h = scalar-IsNatural s 0 v (omega arith) h
  natural s d Ty.i16 r v h = scalar-IsNatural s 1 v (omega arith) h
  natural s d Ty.u16 r v h = scalar-IsNatural s 1 v (omega arith) h
  natural s d Ty.f16 r v h = scalar-IsNatural s 1 v (omega arith) h
  natural s d Ty.i32 r v h = scalar-IsNatural s 2 v (omega arith) h
  natural s d Ty.u32 r v h = scalar-IsNatural s 2 v (omega arith) h
  natural s d Ty.f32 r v h = scalar-IsNatural s 2 v (omega arith) h
  natural s d Ty.i64 r v h = scalar-IsNatural s 3 v (omega arith) h
  natural s d Ty.u64 r v h = scalar-IsNatural s 3 v (omega arith) h
  natural s d Ty.f64 r v h = scalar-IsNatural s 3 v (omega arith) h
  natural s d Ty.i128 r v h = scalar-IsNatural s 4 v (omega arith) h
  natural s d Ty.u128 r v h = scalar-IsNatural s 4 v (omega arith) h
  natural s d (Ty.ptr t) r v h = pointer-IsNatural s v h
  natural s d (Ty.fn_ptr ps t c b) r v h = pointer-IsNatural s v h
  natural s zero (Ty.array t n) r v h = cc
  natural s (suc d) (Ty.array t n) r v h =
      let (e, he, rest) = >>=-eq-ok (layout_storage s d t) _ h in
      let (l, hl, last) = >>=-eq-ok (array_layout n e) (bounded s) rest in
      array-IsNatural s n e l (natural s d t e v he) hl last
  natural s zero (Ty.struct ts) r v h = cc
  natural s (suc d) (Ty.struct ts) r v h =
      let (q, hq, rest) = >>=-eq-ok (layout_fields s d (scalar 0 1) ts) _ h in
      let (l, hl, last) = >>=-eq-ok (close_fields q) (bounded s) rest in
      aggregate-IsNatural s d ts q l r (fields s d (scalar 0 1) ts q v one-IsPower (omega arith) hq)
        hl last
  natural s zero (Ty.tuple ts) r v h = cc
  natural s (suc d) (Ty.tuple ts) r v h =
      let (q, hq, rest) = >>=-eq-ok (layout_fields s d (scalar 0 1) ts) _ h in
      let (l, hl, last) = >>=-eq-ok (close_fields q) (bounded s) rest in
      aggregate-IsNatural s d ts q l r (fields s d (scalar 0 1) ts q v one-IsPower (omega arith) hq)
        hl last

  fields :
      (s : StorageLayout) (d : ℕ) (r : TypeLayout) (ts : Tys) (q : TypeLayout)
      → IsStorage s
      → IsPower r.align
      → IsU64 r.size
      → layout_fields s d r ts ≡ ok q
      → FieldsDone s d ts r q
  fields s d r Tys.nil q v pr hr h =
      let e : r ≡ q = ground arith in
      subst (λ x. FieldsDone s d Tys.nil r x) e
        (record {
          offsets = [];
          appended = sym (append-nil _);
          at_offsets = none_left;
          power = pr;
          fits = hr;
        })
  fields s d r (Tys.cons t ts) q v pr hr h =
      let (f, hf, rest) = >>=-eq-ok (layout_storage s d t) _ h in
      let (r', hr', more) = >>=-eq-ok (add_field r f) _ rest in
      fields_step s d t ts r f r' q (natural s d t f v hf) pr hr hf hr'
        (λ p u. fields s d r' ts q v p u more)

alignments-valid :
    (i j a : ℕ) (as' : List ℕ)
    → exceeds_from i as' ≡ false
    → all is_power_of_two as' ≡ true
    → get_elem? as' j ≡ some a
    → IsPower a × (a ≤ 2 ^ (i + j))
alignments-valid i j a [] h p e = cc
alignments-valid i zero a (x ∷ xs) h p e =
    let same : x ≡ a = cc in
    (is_power_of_two_sound a (rw (← same) (ground arith)), rw (← same, add-zero i) (ground arith))
alignments-valid i (suc j) a (x ∷ xs) h p e =
    let (power, small) = alignments-valid (suc i) j a xs (ground arith) (ground arith) e in
    let same : suc i + j ≡ i + suc j = omega arith in (power, subst (λ n. a ≤ 2 ^ n) same small)

validate_storage-IsStorage : (s : StorageLayout) → validate_storage s ≡ ok tt → IsStorage s
unfolding validate_storage
validate_storage-IsStorage s h =
    let powers : all is_power_of_two s.scalar_align ≡ true = ground arith in
    let small : exceeds_from 0 s.scalar_align ≡ false = ground arith in
    record {
      scalars = λ i a e.
          subst (λ n. IsPower a × (a ≤ 2 ^ n)) (add.zero i)
            (alignments-valid 0 i a s.scalar_align small powers e);
      pointer = is_power_of_two_sound s.pointer_align (ground arith);
      width = ground arith;
      pointer_fits = ground arith;
    }

-- Whatever the target's storage contract and the nesting limit, a layout that is returned has a
-- power of two below 2^64 as alignment, which divides the size, and its size fits in 64 bits.
pub layout-IsNatural :
    (s : StorageLayout) (depth : ℕ) (t : Ty) (l : TypeLayout)
    → layout_for_storage s depth t ≡ ok l
    → IsNatural l
unfolding layout_for_storage
layout-IsNatural s depth t l h =
    let valid : validate_storage s ≡ ok tt = ground arith in
    natural s (min depth max_ir_nesting) t l (validate_storage-IsStorage s valid) (ground arith)

struct_fields :
    (s : StorageLayout) (d : ℕ) (ts : Tys) (q l r : TypeLayout)
    → FieldsDone s d ts (scalar 0 1) q
    → close_fields q ≡ ok l
    → bounded s l ≡ ok r
    → (j : ℕ) × FieldsAt s d 0 ts r.field_offsets j × (j ≤ r.size)
unfolding close_fields
struct_fields s d ts q l r done closed b = elim (Result-cases (align_up q.size q.align)) [
  | inl (e, bad) ↦ absurd (ground arith)
  | inr (o, up) ↦
      let bounds = align_up-ok q.size q.align done.fits done.power up in
      let e : l ≡ record q { size = o } = ground arith in
      subst (λ x. (j : ℕ) × FieldsAt s d 0 ts x.field_offsets j × (j ≤ x.size))
        (sym e ∙ bounded-ok s l b)
        (
          q.size,
          subst (λ x. FieldsAt s d 0 ts x q.size) (sym done.appended) done.at_offsets,
          bounds.0,
        )
]

-- The fields of a struct stand at its offsets in declaration order: each at the least offset behind
-- the one before that its own alignment divides, with the last one's end inside the size.
pub layout-fields :
    (s : StorageLayout) (d : ℕ) (ts : Tys) (r : TypeLayout)
    → validate_storage s ≡ ok tt
    → layout_storage s (suc d) (Ty.struct ts) ≡ ok r
    → (j : ℕ) × FieldsAt s d 0 ts r.field_offsets j × (j ≤ r.size)
unfolding layout_storage
layout-fields s d ts r valid h =
    let v = validate_storage-IsStorage s valid in
    let (q, hq, rest) = >>=-eq-ok (layout_fields s d (scalar 0 1) ts) _ h in
    let (l, hl, last) = >>=-eq-ok (close_fields q) (bounded s) rest in
    struct_fields s d ts q l r (fields s d (scalar 0 1) ts q v one-IsPower (omega arith) hq) hl last
