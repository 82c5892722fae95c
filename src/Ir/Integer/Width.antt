-- ===== src/Ir/Integer/Width.antt =====
-- The six integer widths, and packing a pattern into a constant and back.
use whale.Prelude.{
  refl, ℕ, ◌+◌, ◌-◌, ◌*◌, ◌%◌, ◌^◌, ◌<◌, ◌≡◌, sym, ap, subst, Bool, true, false, some, ok, arith,
  Result-cases, ◌∙◌, inl, inr,
}
use native.Mathlib.Nat.{mod-mod}
use whale.Prelude.Int.{wrap, ℤ, pos}
use whale.Ir.{Ty, ConstValue, int, uint}
use whale.Ir.Integer.{
  shape, masked, raw, signed, pack_shape, pack, BinOp, add, sub, mul, bin_value, bin,
  valid_constant, bool_bit,
}

pub data Width : Type 0 where
  w1 w8 w16 w32 w64 w128 : Width

abbrev pub bits_of : Width → ℕ
bits_of w1 = 1
bits_of w8 = 8
bits_of w16 = 16
bits_of w32 = 32
bits_of w64 = 64
bits_of w128 = 128

pub shape-Width :
    (t : Ty) {n : ℕ} {s : Bool} → shape t ≡ some (n, s) → (w : Width) × (n ≡ bits_of w)
unfolding shape
shape-Width Ty.i1 h = (w1, ground arith)
shape-Width Ty.u1 h = (w1, ground arith)
shape-Width Ty.i8 h = (w8, ground arith)
shape-Width Ty.u8 h = (w8, ground arith)
shape-Width Ty.i16 h = (w16, ground arith)
shape-Width Ty.u16 h = (w16, ground arith)
shape-Width Ty.i32 h = (w32, ground arith)
shape-Width Ty.u32 h = (w32, ground arith)
shape-Width Ty.i64 h = (w64, ground arith)
shape-Width Ty.u64 h = (w64, ground arith)
shape-Width Ty.i128 h = (w128, ground arith)
shape-Width Ty.u128 h = (w128, ground arith)
shape-Width Ty.void h = (w1, cc)
shape-Width _ h = (w1, cc)

-- The number that an N-bit pattern stands for.
abbrev pub value_of : ℕ → Bool → ℕ → ℤ
value_of bits true p = signed p bits
value_of bits false p = pos p

-- The pattern of the number that a pattern stands for.
signed_pattern :
    (w : Width) (p : ℕ) → p < 2 ^ bits_of w → wrap 128 (signed p (bits_of w)) % 2 ^ bits_of w ≡ p
unfolding wrap signed
signed_pattern w1 p h = ground arith
signed_pattern _ p h = ground arith

masked-lt : (w : Width) (v : ℕ) → masked (bits_of w) v < 2 ^ bits_of w
masked-lt w1 v = omega arith
masked-lt _ v = omega arith

pack_shape-raw :
    (w : Width) (s : Bool) (v : ℕ)
    → raw (pack_shape (bits_of w, s) v) (bits_of w) ≡ ok (v % 2 ^ bits_of w)
unfolding raw pack_shape
pack_shape-raw w true v = ap ok (signed_pattern w (masked (bits_of w) v) (masked-lt w v))
pack_shape-raw w false v = ap ok (mod-mod v (2 ^ bits_of w))

pub pack-shape :
    (t : Ty) (v : ℕ) {n : ℕ} {s : Bool} {c : ConstValue}
    → shape t ≡ some (n, s)
    → pack t v ≡ ok c
    → pack_shape (n, s) v ≡ c
unfolding pack
pack-shape t v h e = ground arith

raw-pack-ok :
    (t : Ty) (v : ℕ) {n : ℕ} {s : Bool} {c : ConstValue}
    → shape t ≡ some (n, s)
    → pack t v ≡ ok c
    → raw c n ≡ ok (v % 2 ^ n)
raw-pack-ok t v {n} {s} {c} h e =
    let (w, same) = shape-Width t h in
    let packed : pack_shape (n, s) v ≡ c = pack-shape t v h e in
    rw (← packed, same) (pack_shape-raw w s v)

pack_returns :
    (t : Ty) (v : ℕ) {n : ℕ} {s : Bool}
    → shape t ≡ some (n, s)
    → pack t v ≡ ok (pack_shape (n, s) v)
unfolding pack
pack_returns t v h = ground arith

-- Every value packs at every integer type, and packing keeps the low bits: the pattern of the packed
-- constant is the value modulo 2^N.
pub raw-pack :
    (t : Ty) (v : ℕ) {n : ℕ} {s : Bool}
    → shape t ≡ some (n, s)
    → (c : ConstValue) × (pack t v ≡ ok c) × (raw c n ≡ ok (v % 2 ^ n))
raw-pack t v {n} {s} h =
    let packed = pack_returns t v h in (pack_shape (n, s) v, packed, raw-pack-ok t v h packed)

-- A packed constant is a valid literal of its type.
pub pack-valid : (t : Ty) (v : ℕ) {c : ConstValue} → pack t v ≡ ok c → valid_constant t c ≡ true
unfolding pack pack_shape shape valid_constant
pack-valid Ty.void v h = ground arith
pack-valid _ v h = ground arith

raw_lt : (w : Width) (c : ConstValue) (p : ℕ) → raw c (bits_of w) ≡ ok p → p < 2 ^ bits_of w
unfolding raw
raw_lt w (ConstValue.boolean x) p h = ground (arith, masked-lt w (bool_bit x))
raw_lt w (int x) p h = ground (arith, masked-lt w (wrap 128 x))
raw_lt w (uint x) p h = ground (arith, masked-lt w x)
raw_lt w (ConstValue.float x) p h = cc

-- Every operand's pattern is below 2^N.
pub raw-lt :
    (t : Ty) {n : ℕ} {s : Bool} (c : ConstValue) (p : ℕ)
    → shape t ≡ some (n, s)
    → raw c n ≡ ok p
    → p < 2 ^ n
raw-lt t {n} c p h e =
    let (w, same) = shape-Width t h in
    subst (λ k. p < 2 ^ k) (sym same) (raw_lt w c p (subst (λ k. raw c k ≡ ok p) same e))

abbrev pub is_ring : BinOp → Bool
is_ring add = true
is_ring sub = true
is_ring mul = true
is_ring _ = false

-- The mathematical sum, difference (kept above zero by a multiple of 2^N) or product of patterns.
abbrev pub ring_value : BinOp → ℕ → ℕ → ℕ → ℕ
ring_value add bits a b = a + b
ring_value sub bits a b = a + 2 ^ bits - b
ring_value mul bits a b = a * b
ring_value _ bits a b = 0

ring_wraps :
    (op : BinOp) (w : Width) (a b v : ℕ)
    → is_ring op ≡ true
    → b < 2 ^ bits_of w
    → bin_value op (bits_of w) a b ≡ ok v
    → v % 2 ^ bits_of w ≡ ring_value op (bits_of w) a b % 2 ^ bits_of w
unfolding bin_value
ring_wraps add w1 a b v r hb h = ground arith
ring_wraps add _ a b v r hb h = ground arith
ring_wraps sub w1 a b v r hb h = ground arith
ring_wraps sub _ a b v r hb h = ground arith
ring_wraps mul w1 a b v r hb h = ground arith
ring_wraps mul _ a b v r hb h = ground arith
ring_wraps _ _ a b v r hb h = cc

bin_result_wraps :
    (op : BinOp) (t : Ty) (lhs rhs c : ConstValue) (a b : ℕ) {n : ℕ} {s : Bool}
    → shape t ≡ some (n, s)
    → is_ring op ≡ true
    → raw lhs n ≡ ok a
    → raw rhs n ≡ ok b
    → bin op t lhs rhs ≡ ok c
    → raw c n ≡ ok (ring_value op n a b % 2 ^ n)
unfolding bin
bin_result_wraps op t lhs rhs c a b {n} {s} h r ha hb e =
    let (w, same) = shape-Width t h in
    elim (Result-cases (bin_value op n a b)) [
      | inl (x, bad) ↦ absurd (ground arith)
      | inr (v, value) ↦
          let packed : pack t v ≡ ok c = ground arith in
          let value' : bin_value op (bits_of w) a b ≡ ok v =
            subst (λ k. bin_value op k a b ≡ ok v) same value in
          let small : b < 2 ^ bits_of w = subst (λ k. b < 2 ^ k) same (raw-lt t rhs b h hb) in
          let wraps = ring_wraps op w a b v r small value' in
          raw-pack-ok t v h packed
          ∙ ap ok (subst (λ k. v % 2 ^ k ≡ ring_value op k a b % 2 ^ k) (sym same) wraps)
    ]

ring_returns : (op : BinOp) (n a b : ℕ) → is_ring op ≡ true → (v : ℕ) × (bin_value op n a b ≡ ok v)
unfolding bin_value
ring_returns add n a b r = (_, refl)
ring_returns sub n a b r = (_, refl)
ring_returns mul n a b r = (_, refl)
ring_returns _ n a b r = cc

-- Addition, subtraction and multiplication return, and wrap modulo 2^N for every integer type: the pattern of
-- the result is the sum, difference or product of the operands' patterns modulo 2^N.
pub bin_wraps :
    (op : BinOp) (t : Ty) (lhs rhs : ConstValue) (a b : ℕ) {n : ℕ} {s : Bool}
    → shape t ≡ some (n, s)
    → is_ring op ≡ true
    → raw lhs n ≡ ok a
    → raw rhs n ≡ ok b
    → (c : ConstValue) × (bin op t lhs rhs ≡ ok c) × (raw c n ≡ ok (ring_value op n a b % 2 ^ n))
unfolding bin
bin_wraps op t lhs rhs a b {n} {s} h r ha hb =
    let (v, value) = ring_returns op n a b r in
    let packed = pack_returns t v h in
    let returned : bin op t lhs rhs ≡ ok (pack_shape (n, s) v) = ground (arith, value, packed) in
    (
      pack_shape (n, s) v,
      returned,
      bin_result_wraps op t lhs rhs (pack_shape (n, s) v) a b h r ha hb returned,
    )
