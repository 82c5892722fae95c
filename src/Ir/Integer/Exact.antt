-- ===== src/Ir/Integer/Exact.antt =====
-- The checked operations and casts against the integers that the patterns stand for.
use whale.Prelude.{
  ℕ, ◌+◌, ◌-◌, ◌*◌, ◌%◌, ◌^◌, ◌<◌, ◌≡◌, refl, inl, inr, leb, Bool-cases, Bool, true, false, not,
  ◌&&◌, arith,
}
use whale.Prelude.Int.{*ℤ_parts, negate, ℤ, pos, pos_part, neg_part, ◌+ℤ◌, ◌-ℤ◌, ◌*ℤ◌, leb_ℤ, ltb_ℤ}
use whale.Ir.Integer.{
  masked, signed, signed_overflow, CheckedOp, uadd, usub, umul, sadd, ssub, smul, checked_value,
}
use whale.Ir.Integer.Width.{Width, w1, bits_of, value_of}

abbrev pub is_signed : CheckedOp → Bool
is_signed uadd = false
is_signed usub = false
is_signed umul = false
is_signed _ = true

-- The operation on the integers.
abbrev pub exact : CheckedOp → ℤ → ℤ → ℤ
exact uadd a b = a +ℤ b
exact usub a b = a -ℤ b
exact umul a b = a *ℤ b
exact sadd a b = a +ℤ b
exact ssub a b = a -ℤ b
exact smul a b = a *ℤ b

-- The integers that N bits can hold.
abbrev pub in_range : ℕ → Bool → ℤ → Bool
in_range bits true z = leb_ℤ (negate (2 ^ (bits - 1))) z && ltb_ℤ z (pos (2 ^ (bits - 1)))
in_range bits false z = leb_ℤ (pos 0) z && ltb_ℤ z (pos (2 ^ bits))

-- The flag against the exact result, and the value where the flag is clear.
abbrev Agrees : CheckedOp → ℕ → ℕ → ℕ → Type 0
Agrees op bits a b =
    ((checked_value op bits a b).1
      ≡ not (
          in_range bits (is_signed op)
            (exact op (value_of bits (is_signed op) a) (value_of bits (is_signed op) b))))
    × ((checked_value op bits a b).1 ≡ false
        → value_of bits (is_signed op) (masked bits (checked_value op bits a b).0)
          ≡ exact op (value_of bits (is_signed op) a) (value_of bits (is_signed op) b))

uadd-Agrees :
    (w : Width) (a b : ℕ) → a < 2 ^ bits_of w → b < 2 ^ bits_of w → Agrees uadd (bits_of w) a b
unfolding checked_value ◌+ℤ◌
uadd-Agrees w1 a b ha hb = ground arith
uadd-Agrees _ a b ha hb = ground arith

usub-Agrees :
    (w : Width) (a b : ℕ) → a < 2 ^ bits_of w → b < 2 ^ bits_of w → Agrees usub (bits_of w) a b
unfolding checked_value ◌-ℤ◌
usub-Agrees w1 a b ha hb = ground arith
usub-Agrees _ a b ha hb = ground arith

umul-Agrees :
    (w : Width) (a b : ℕ) → a < 2 ^ bits_of w → b < 2 ^ bits_of w → Agrees umul (bits_of w) a b
unfolding checked_value ◌*ℤ◌
umul-Agrees w1 a b ha hb = ground arith
umul-Agrees _ a b ha hb = ground arith

sadd-Agrees :
    (w : Width) (a b : ℕ) → a < 2 ^ bits_of w → b < 2 ^ bits_of w → Agrees sadd (bits_of w) a b
unfolding checked_value ◌+ℤ◌
sadd-Agrees w1 a b ha hb = ground arith
sadd-Agrees _ a b ha hb = ground arith

ssub-Agrees :
    (w : Width) (a b : ℕ) → a < 2 ^ bits_of w → b < 2 ^ bits_of w → Agrees ssub (bits_of w) a b
unfolding checked_value ◌-ℤ◌
ssub-Agrees w1 a b ha hb = ground arith
ssub-Agrees _ a b ha hb = ground arith

-- The integer z and the pattern c leave the same remainder modulo 2^bits.
abbrev Congruent : ℕ → ℕ → ℤ → Type 0
Congruent bits c z = (k : ℕ) × (l : ℕ) × (c + neg_part z + 2 ^ bits * k ≡ pos_part z + 2 ^ bits * l)

-- The sign bit, as the multiple of the modulus M between a pattern and its integer.
signed_parts :
    (w : Width) (a : ℕ)
    → a < 2 ^ bits_of w
    → (s : ℕ) × (a + neg_part (signed a (bits_of w))
        ≡ pos_part (signed a (bits_of w)) + 2 ^ bits_of w * s)
unfolding signed
signed_parts w a ha = elim (Bool-cases (leb (2 ^ (bits_of w - 1)) a)) [
  | inl y ↦ (1, ground (arith, y))
  | inr n ↦ (0, ground (arith, n))
]

-- The product of two such sums: with a = p - x + M s and b = q - y + M t.
product_parts :
    (m a b p q x y s t : ℕ)
    → a + x ≡ p + m * s
    → b + y ≡ q + m * t
    → a * b + (p * y + x * q) + m * (s * y + x * t)
      ≡ p * q + x * y + m * (s * q + p * t + m * (s * t))
product_parts m a b p q x y s t ha hb =
    let both : (a + x) * (b + y) ≡ (p + m * s) * (q + m * t) = rw (ha, hb) refl in
    let left : (a + x) * y ≡ (p + m * s) * y = rw (ha) refl in
    let right : x * (b + y) ≡ x * (q + m * t) = rw (hb) refl in omega (arith, both, left, right)

*ℤ-Congruent :
    (w : Width) (a b : ℕ)
    → a < 2 ^ bits_of w
    → b < 2 ^ bits_of w
    → Congruent (bits_of w) (a * b) (signed a (bits_of w) *ℤ signed b (bits_of w))
*ℤ-Congruent w a b ha hb =
    let (s, ea) = signed_parts w a ha in
    let (t, eb) = signed_parts w b hb in
    let sa = signed a (bits_of w) in
    let sb = signed b (bits_of w) in
    let parts =
      product_parts (2 ^ bits_of w) a b (pos_part sa) (pos_part sb) (neg_part sa) (neg_part sb) s t
        ea eb in
    (
      s * neg_part sb + neg_part sa * t,
      s * pos_part sb + pos_part sa * t + 2 ^ bits_of w * (s * t),
      omega (arith, parts, *ℤ_parts sa sb),
    )

-- A signed integer that fits is what its pattern stands for.
fitting_value :
    (w : Width) (c : ℕ) (z : ℤ)
    → Congruent (bits_of w) c z
    → in_range (bits_of w) true z ≡ true
    → value_of (bits_of w) true (masked (bits_of w) (c % 2 ^ 128)) ≡ z
unfolding signed
fitting_value w1 c z (k, l, e) h = ground arith
fitting_value _ c z (k, l, e) h = ground arith

signed_overflow-in_range :
    (w : Width) (z : ℤ) → signed_overflow (bits_of w) z ≡ not (in_range (bits_of w) true z)
unfolding signed_overflow
signed_overflow-in_range w1 z = ground arith
signed_overflow-in_range _ z = ground arith

smul-Agrees :
    (w : Width) (a b : ℕ) → a < 2 ^ bits_of w → b < 2 ^ bits_of w → Agrees smul (bits_of w) a b
unfolding checked_value
smul-Agrees w a b ha hb =
    let z = signed a (bits_of w) *ℤ signed b (bits_of w) in
    let flag = signed_overflow-in_range w z in
    (
      flag,
      λ clear. fitting_value w (a * b) z (*ℤ-Congruent w a b ha hb) (ground (arith, flag, clear)),
    )

-- What the overflow flag, the fit of the exact result, the value of the wrapped pattern and the
-- exact result must satisfy.
abbrev pub Outcome : Bool → Bool → ℤ → ℤ → Type 0
Outcome true fits value z = fits ≡ false
Outcome false fits value z = (fits ≡ true) × (value ≡ z)

outcome :
    (flag fits : Bool) (v z : ℤ) → flag ≡ not fits → (flag ≡ false → v ≡ z) → Outcome flag fits v z
outcome true fits v z f k = ground (arith, f)
outcome false fits v z f k = (ground (arith, f), k refl)

-- What a checked operation must return on the patterns `a` and `b`.
abbrev pub IsExact : CheckedOp → ℕ → ℕ → ℕ → Type 0
IsExact op bits a b =
    let z = exact op (value_of bits (is_signed op) a) (value_of bits (is_signed op) b) in
    Outcome (checked_value op bits a b).1 (in_range bits (is_signed op) z)
      (value_of bits (is_signed op) (masked bits (checked_value op bits a b).0)) z

agrees :
    (op : CheckedOp) (w : Width) (a b : ℕ)
    → a < 2 ^ bits_of w
    → b < 2 ^ bits_of w
    → Agrees op (bits_of w) a b
agrees uadd w a b ha hb = uadd-Agrees w a b ha hb
agrees usub w a b ha hb = usub-Agrees w a b ha hb
agrees umul w a b ha hb = umul-Agrees w a b ha hb
agrees sadd w a b ha hb = sadd-Agrees w a b ha hb
agrees ssub w a b ha hb = ssub-Agrees w a b ha hb
agrees smul w a b ha hb = smul-Agrees w a b ha hb

-- For every checked operation, the signed multiplication among them, at every integer width and on
-- every two patterns of that width: the overflow flag is set exactly when the result over the integers does
-- not fit, and when it is clear the wrapped pattern stands for that result.
pub checked_value-IsExact :
    (op : CheckedOp) (w : Width) (a b : ℕ)
    → a < 2 ^ bits_of w
    → b < 2 ^ bits_of w
    → IsExact op (bits_of w) a b
checked_value-IsExact op w a b ha hb =
    let (flag, value) = agrees op w a b ha hb in
    outcome (checked_value op (bits_of w) a b).1 _ _ _ flag value
