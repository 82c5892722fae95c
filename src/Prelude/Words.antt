-- ===== src/Prelude/Words.antt =====
-- Operations of Rust's `u64` that the source uses: checked sums and products, the two's complement
-- negation, the test for a power of two, and the padding `x.wrapping_neg() & (align - 1)`.
use Prim.Native.Nat.{bit_and}
use Prim.Native.Nat.add
use native.Mathlib.Nat.{
  pow-suc, zero-mod, mod-eq_of_lt, mod-lt, mul-mod_right, add-mod-mod, div-add-mod, mul_assoc,
  pow-le-pow_right,
}
use whale.Prelude.{
  ℕ, zero, suc, ◌+◌, ◌-◌, ◌*◌, ◌%◌, ◌^◌, ◌<◌, ◌≡◌, refl, subst, ap, ◌∙◌, arith, Bool, true, false,
  ◌||◌, Option, none, some, ltb, ◌==◌, if◌then◌else◌, inl, inr, Bool-cases, ==_iff, ltb→lt, leb,
  ◌≤◌, ◌/◌,
}
use whale.Prelude.Bits.{bit_and-mask, pow_pos}

abbrev pub IsU64 : ℕ → Type 0
IsU64 n = n < 2 ^ 64

unfoldable pub checked_add : ℕ → ℕ → Option ℕ
checked_add a b = if ltb (a + b) (2 ^ 64) then some (a + b) else none

pub checked_add-some : (a b : ℕ) {c : ℕ} → checked_add a b ≡ some c → (c ≡ a + b) × IsU64 c
unfolding checked_add
checked_add-some a b h = ground arith

unfoldable pub checked_mul : ℕ → ℕ → Option ℕ
checked_mul a b = if ltb (a * b) (2 ^ 64) then some (a * b) else none

unfoldable pub wrapping_neg : ℕ → ℕ
wrapping_neg a = (2 ^ 64 - a) % 2 ^ 64

-- Some `2^i` with `i` below `n` is `a`.
power_below : ℕ → ℕ → Bool
power_below zero a = false
power_below (suc n) a = a == 2 ^ n || power_below n a

unfoldable pub is_power_of_two : ℕ → Bool
unfolding power_below
is_power_of_two a = power_below 64 a

abbrev pub IsPower : ℕ → Type 0
IsPower a = (k : ℕ) × (k < 64) × (a ≡ 2 ^ k)

power_below_sound : (n a : ℕ) → power_below n a ≡ true → (k : ℕ) × (k < n) × (a ≡ 2 ^ k)
unfolding power_below
power_below_sound zero a h = cc
power_below_sound (suc n) a h = elim (Bool-cases (a == 2 ^ n)) [
  | inl e ↦ (n, omega arith, (==_iff a (2 ^ n)).0 e)
  | inr e ↦ let (k, lt, eq) = power_below_sound n a (rw e at h) in (k, omega arith, eq)
]

pub is_power_of_two_sound : (a : ℕ) → is_power_of_two a ≡ true → IsPower a
unfolding is_power_of_two
is_power_of_two_sound a h = power_below_sound 64 a h

pow-add : (i j : ℕ) → 2 ^ (i + j) ≡ 2 ^ i * 2 ^ j
pow-add zero j = rw add.zero (omega arith)
pow-add (suc i) j = rw (add.suc i j, pow-suc 2 (i + j), pow-suc 2 i, pow-add i j) (omega arith)

-- The bytes that an alignment adds behind offset `v`.
abbrev pub padding : ℕ → ℕ → ℕ
padding v a = bit_and (wrapping_neg v) (a - 1)

pub IsPower-pos : (a : ℕ) → IsPower a → 0 < a
IsPower-pos a (k, hk, e) = rw e (pow_pos k)

-- 2^64 is a multiple of every power that fits.
IsPower-dvd : (a : ℕ) → IsPower a → (q : ℕ) × (◌≡◌ {A = ℕ} (2 ^ 64) (a * q))
IsPower-dvd a (k, hk, e) =
    let whole : k + (64 - k) ≡ 64 = omega arith in
    (2 ^ (64 - k), rw e (subst (λ x. 2 ^ x ≡ 2 ^ k * 2 ^ (64 - k)) whole (pow-add k (64 - k))))

padding-mod : (v a : ℕ) → IsPower a → padding v a ≡ wrapping_neg v % a
padding-mod v a (k, hk, e) = rw e (bit_and-mask k (wrapping_neg v))

-- For a power of two, `v + padding v a` is the least multiple of `a` from `v` on.
pub padding_lem : (v a : ℕ) → IsU64 v → IsPower a → (padding v a < a) × ((v + padding v a) % a ≡ 0)
unfolding wrapping_neg
padding_lem zero a hv p = rw (padding-mod zero a p, zero-mod a, zero-mod a) (IsPower-pos a p, refl)
padding_lem (suc v) a hv p =
    let (q, eq) = IsPower-dvd a p in
    let neg : wrapping_neg (suc v) ≡ 2 ^ 64 - suc v = mod-eq_of_lt (omega arith) in
    let whole : suc v + (2 ^ 64 - suc v) ≡ a * q = omega (arith, eq) in
    rw (padding-mod (suc v) a p, neg)
      (
        mod-lt _ (IsPower-pos a p),
        add-mod-mod (suc v) _ a ∙ ap (λ x. x % a) whole ∙ mul-mod_right a q,
      )

-- `v.checked_add(v.wrapping_neg() & (a - 1))`.
abbrev pub round_up : ℕ → ℕ → Option ℕ
round_up v a = checked_add v (padding v a)

multiples_apart : (a r w : ℕ) → 0 < a → r % a ≡ 0 → w % a ≡ 0 → r < w → r + a ≤ w
multiples_apart a r w ha hr hw lt =
    let er : r ≡ a * (r / a) = omega (arith, div-add-mod r a) in
    let ew : w ≡ a * (w / a) = omega (arith, div-add-mod w a) in
    elim (Bool-cases (ltb (r / a) (w / a))) [
      | inl h ↦
          let h' : r / a + 1 ≤ w / a = ground arith in
          let m : a * (r / a + 1) ≤ a * (w / a) = grind arith in omega arith
      | inr h ↦
          let h' : w / a ≤ r / a = ground arith in
          let m : a * (w / a) ≤ a * (r / a) = grind arith in absurd (omega arith)
    ]

-- The least multiple of `a` from `v` on, or none where it does not fit in 64 bits.
abbrev pub Rounds : ℕ → ℕ → Option ℕ → Type 0
Rounds v a none = (r : ℕ) → v ≤ r → r % a ≡ 0 → 2 ^ 64 ≤ r
Rounds v a (some r) = (v ≤ r) × (r < v + a) × (r % a ≡ 0) × IsU64 r

pub round_up-Rounds : (v a : ℕ) → IsU64 v → IsPower a → Rounds v a (round_up v a)
unfolding checked_add
round_up-Rounds v a hv p =
    let (small, whole) = padding_lem v a hv p in
    let pos = IsPower-pos a p in
    elim (Bool-cases (ltb (v + padding v a) (2 ^ 64))) [
      | inl fits ↦ rw fits (omega arith, omega arith, whole, ltb→lt _ _ fits)
      | inr over ↦ rw over (λ r le hr. elim (Bool-cases (ltb r (v + padding v a))) [
        | inl below ↦
            let apart = multiples_apart a r _ pos hr whole (ltb→lt _ _ below) in
            absurd (omega arith)
        | inr above ↦ ground arith
      ])
    ]

pub IsPower-mod : (i a : ℕ) → IsPower a → a ≤ 2 ^ i → 2 ^ i % a ≡ 0
IsPower-mod i a (k, hk, e) h = elim (Bool-cases (leb k i)) [
  | inl le ↦
      let split : k + (i - k) ≡ i = ground arith in
      rw e (
        subst (λ x. 2 ^ x % 2 ^ k ≡ 0) split
          (rw (pow-add k (i - k)) (mul-mod_right (2 ^ k) (2 ^ (i - k)))))
  | inr gt ↦
      let more : suc i ≤ k = ground arith in
      let big : 2 ^ suc i ≤ 2 ^ k = pow-le-pow_right {n = 2} (omega arith) more in
      absurd (omega (arith, pow-suc 2 i, pow_pos i))
]

pub mod-mul_right : (a s n : ℕ) → s % a ≡ 0 → s * n % a ≡ 0
mod-mul_right a s n h =
    let exact : s ≡ a * (s / a) = omega (arith, div-add-mod s a) in
    let e : s * n ≡ a * (s / a * n) = ap (λ x. x * n) exact ∙ mul_assoc a (s / a) n in
    rw e (mul-mod_right a (s / a * n))
