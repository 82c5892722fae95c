-- ===== src/Prelude/Bytes.antt =====
-- Byte strings: little-endian numbers, and the copy of bytes into a buffer.
use native.Mathlib.Nat.{mod-one}
use whale.Prelude.Bits.{pow_pos, pow_byte, mod_byte}
use whale.Prelude.{
  ℕ, zero, suc, ◌+◌, ◌*◌, ◌/◌, ◌%◌, ◌^◌, ◌≤◌, ◌<◌, ◌≡◌, ◌⊎◌, inl, inr, refl, ap, ◌∙◌, List, [], ◌∷◌,
  length, length-set, set, take, drop, arith,
}

-- The low `n` bytes of a number, the lowest first.
unfoldable pub to_le_bytes : ℕ → ℕ → List ℕ
to_le_bytes zero v = []
to_le_bytes (suc n) v = v % 256 ∷ to_le_bytes n (v / 256)

unfoldable pub from_le_bytes : List ℕ → ℕ
from_le_bytes [] = 0
from_le_bytes (b ∷ bs) = b + 256 * from_le_bytes bs

-- `buffer[at..at + bytes.len()].copy_from_slice(bytes)`
unfoldable pub copy_at : ℕ → List ℕ → List ℕ → List ℕ
copy_at at [] xs = xs
copy_at at (b ∷ bs) xs = copy_at (suc at) bs (set xs at b)

-- `buffer[at..at + n]`
abbrev pub window : ℕ → ℕ → List ℕ → List ℕ
window at n xs = take n (drop at xs)

pub length-copy_at : (at : ℕ) (bs xs : List ℕ) → length (copy_at at bs xs) ≡ length xs
unfolding copy_at
length-copy_at at [] xs = refl
length-copy_at at (b ∷ bs) xs = length-copy_at (suc at) bs (set xs at b) ∙ length-set xs at b

copy_at-suc : (at x : ℕ) (bs xs : List ℕ) → copy_at (suc at) bs (x ∷ xs) ≡ x ∷ copy_at at bs xs
unfolding copy_at
copy_at-suc at x [] xs = refl
copy_at-suc at x (b ∷ bs) xs = copy_at-suc (suc at) x bs (set xs at b)

copy_at-zero : (b x : ℕ) (bs xs : List ℕ) → copy_at zero (b ∷ bs) (x ∷ xs) ≡ b ∷ copy_at zero bs xs
unfolding copy_at
copy_at-zero b x bs xs = copy_at-suc zero b bs xs

-- What was copied is read back.
pub window-copy_at :
    (at : ℕ) (bs xs : List ℕ)
    → at + length bs ≤ length xs
    → window at (length bs) (copy_at at bs xs) ≡ bs
window-copy_at at [] xs h = refl
window-copy_at zero (b ∷ bs) [] h = absurd (omega arith)
window-copy_at zero (b ∷ bs) (x ∷ xs) h =
    ap (window zero (suc (length bs))) (copy_at-zero b x bs xs)
    ∙ ap (λ r. b ∷ r) (window-copy_at zero bs xs (omega arith))
window-copy_at (suc at) (b ∷ bs) [] h = absurd (omega arith)
window-copy_at (suc at) (b ∷ bs) (x ∷ xs) h =
    ap (window (suc at) (suc (length bs))) (copy_at-suc at x (b ∷ bs) xs)
    ∙ window-copy_at at (b ∷ bs) xs (omega arith)

-- A write outside a window is not seen in it.
window-set :
    (o n : ℕ) (xs : List ℕ) (i v : ℕ)
    → (i < o) ⊎ (o + n ≤ i)
    → window o n (set xs i v) ≡ window o n xs
window-set o n [] i v h = refl
window-set zero zero (x ∷ xs) i v h = refl
window-set zero (suc n) (x ∷ xs) zero v (inl h) = absurd (omega arith)
window-set zero (suc n) (x ∷ xs) zero v (inr h) = absurd (omega arith)
window-set zero (suc n) (x ∷ xs) (suc i) v (inl h) = absurd (omega arith)
window-set zero (suc n) (x ∷ xs) (suc i) v (inr h) =
    ap (λ r. x ∷ r) (window-set zero n xs i v (inr (omega arith)))
window-set (suc o) n (x ∷ xs) zero v h = refl
window-set (suc o) n (x ∷ xs) (suc i) v (inl h) = window-set o n xs i v (inl (omega arith))
window-set (suc o) n (x ∷ xs) (suc i) v (inr h) = window-set o n xs i v (inr (omega arith))

pub window-copy_at_other :
    (o n at : ℕ) (bs xs : List ℕ)
    → (at + length bs ≤ o) ⊎ (o + n ≤ at)
    → window o n (copy_at at bs xs) ≡ window o n xs
unfolding copy_at
window-copy_at_other o n at [] xs h = refl
window-copy_at_other o n at (b ∷ bs) xs (inl h) =
    window-copy_at_other o n (suc at) bs (set xs at b) (inl (omega arith))
    ∙ window-set o n xs at b (inl (omega arith))
window-copy_at_other o n at (b ∷ bs) xs (inr h) =
    window-copy_at_other o n (suc at) bs (set xs at b) (inr (omega arith))
    ∙ window-set o n xs at b (inr h)

pub length-to_le_bytes : (n v : ℕ) → length (to_le_bytes n v) ≡ n
unfolding to_le_bytes
length-to_le_bytes zero v = refl
length-to_le_bytes (suc n) v = ap suc (length-to_le_bytes n (v / 256))

-- The low bytes of a number hold its remainder.
pub from_le_bytes-take :
    (w n v : ℕ) → w ≤ n → from_le_bytes (take w (to_le_bytes n v)) ≡ v % 2 ^ (8 * w)
unfolding from_le_bytes to_le_bytes
from_le_bytes-take zero n v h = omega (arith, mod-one v)
from_le_bytes-take (suc w) zero v h = absurd (omega arith)
from_le_bytes-take (suc w) (suc n) v h =
    rw
      (
        pow_byte w,
        mod_byte v (2 ^ (8 * w)) (pow_pos (8 * w)),
        from_le_bytes-take w n (v / 256) (omega arith),
      )
      refl

pub from_le_bytes-to_le_bytes : (n v : ℕ) → from_le_bytes (to_le_bytes n v) ≡ v % 2 ^ (8 * n)
unfolding from_le_bytes to_le_bytes
from_le_bytes-to_le_bytes zero v = omega (arith, mod-one v)
from_le_bytes-to_le_bytes (suc n) v =
    rw
      (
        pow_byte n,
        mod_byte v (2 ^ (8 * n)) (pow_pos (8 * n)),
        from_le_bytes-to_le_bytes n (v / 256),
      )
      refl
