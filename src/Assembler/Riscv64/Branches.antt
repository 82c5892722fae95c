-- ===== src/Assembler/Riscv64/Branches.antt =====
-- The conditional branch is read back from its word.
use whale.Prelude.{
  ℕ, suc, ◌+◌, ◌-◌, ◌*◌, ◌/◌, ◌%◌, ◌^◌, ◌<◌, ◌≤◌, ◌≡◌, ◌↔◌, refl, sym, ap, subst, ◌∙◌, not, Bool,
  true, false, ◌||◌, ltb, if◌then◌else◌, Result, ok, ok-injective, ◌>>=◌, >>=-eq-ok, fail_if,
  fail_if-false, arith,
}
use whale.Prelude.Int.{ℤ, pos, negsuc, negate, wrap, leb_ℤ, ltb_ℤ}
use whale.Assembler.{AsmError, misaligned, out_of_range, divides, quotient, displacement}
use whale.Assembler.Riscv64.{◌bor◌, ◌<<◌, field, r, branch}
use whale.Assembler.Riscv64.Formats.{bits_at, join, field_lem}

-- The B format as a sum of its fields, which have the widths 7, 1, 4, 3, 5, 5, 6 and 1.
abbrev branch_word : ℕ → ℕ → ℕ → ℕ → ℕ → ℕ → ℕ → ℕ
branch_word b11 b4 f3 rs1 rs2 b10 b12 =
    99
    + b11 * 2 ^ 7
    + b4 * 2 ^ 8
    + f3 * 2 ^ 12
    + rs1 * 2 ^ 15
    + rs2 * 2 ^ 20
    + b10 * 2 ^ 25
    + b12 * 2 ^ 31

branch_sum :
    (b11 b4 f3 rs1 rs2 b10 b12 : ℕ)
    → b11 < 2
    → b4 < 16
    → f3 < 8
    → rs1 < 32
    → rs2 < 32
    → b10 < 64
    → b12 < 2
    → (99
        bor b11 << 7
        bor b4 << 8
        bor f3 << 12
        bor rs1 << 15
        bor rs2 << 20
        bor b10 << 25
        bor b12 << 31)
      ≡ branch_word b11 b4 f3 rs1 rs2 b10 b12
branch_sum b11 b4 f3 rs1 rs2 b10 b12 h11 h4 h3 h1 h2 h10 h12 =
    rw
      (
        join 7 99 b11 (omega arith) (omega arith),
        join 8 (99 + b11 * 2 ^ 7) b4 (omega arith) (omega arith),
        join 12 (99 + b11 * 2 ^ 7 + b4 * 2 ^ 8) f3 (omega arith) (omega arith),
        join 15 (99 + b11 * 2 ^ 7 + b4 * 2 ^ 8 + f3 * 2 ^ 12) rs1 (omega arith) (omega arith),
        join 20 (99 + b11 * 2 ^ 7 + b4 * 2 ^ 8 + f3 * 2 ^ 12 + rs1 * 2 ^ 15) rs2 (omega arith)
            (omega arith),
        join 25 (99 + b11 * 2 ^ 7 + b4 * 2 ^ 8 + f3 * 2 ^ 12 + rs1 * 2 ^ 15 + rs2 * 2 ^ 20) b10
            (omega arith) (omega arith),
        join 31
            (99
              + b11 * 2 ^ 7
              + b4 * 2 ^ 8
              + f3 * 2 ^ 12
              + rs1 * 2 ^ 15
              + rs2 * 2 ^ 20
              + b10 * 2 ^ 25)
            b12 (omega arith) (omega arith),
      )
      refl

-- The number that the manual reads in a B word, without its sign: the immediate's bits are
-- scattered over the word.
abbrev pub branch_immediate : ℕ → ℕ
branch_immediate w =
    bits_at w 8 4 * 2 + bits_at w 25 6 * 32 + bits_at w 7 1 * 2048 + bits_at w 31 1 * 4096

-- A pattern of 13 bits as a signed number.
abbrev pub sign_extend13 : ℕ → ℤ
sign_extend13 p = if ltb p 4096 then pos p else negate (8192 - p)

record Split (w b11 b4 f3 rs1 rs2 b10 b12 : ℕ) : Type 0 where
  opcode : bits_at w 0 7 ≡ 99
  at_f3 : bits_at w 12 3 ≡ f3
  at_rs1 : bits_at w 15 5 ≡ rs1
  at_rs2 : bits_at w 20 5 ≡ rs2
  immediate : branch_immediate w ≡ b4 * 2 + b10 * 32 + b11 * 2048 + b12 * 4096

branch_word-Split :
    (b11 b4 f3 rs1 rs2 b10 b12 : ℕ)
    → b11 < 2
    → b4 < 16
    → f3 < 8
    → rs1 < 32
    → rs2 < 32
    → b10 < 64
    → b12 < 2
    → Split (branch_word b11 b4 f3 rs1 rs2 b10 b12) b11 b4 f3 rs1 rs2 b10 b12
branch_word-Split b11 b4 f3 rs1 rs2 b10 b12 h11 h4 h3 h1 h2 h10 h12 = record {
  opcode = omega arith;
  at_f3 = omega arith;
  at_rs1 = omega arith;
  at_rs2 = omega arith;
  immediate = omega arith;
}

displacement_lem :
    (offset : ℤ) (x : ℕ)
    → displacement offset 12 2 ≡ ok x
    → (divides 2 offset ≡ true)
      × ((ltb_ℤ (quotient offset 2) (negate 2048) || leb_ℤ (pos 2048) (quotient offset 2)) ≡ false)
unfolding displacement
displacement_lem offset x h =
    let (_, ha, h1) = >>=-eq-ok (fail_if (not (divides 2 offset)) misaligned) _ h in
    let (_, hr, h2) =
      >>=-eq-ok
        (fail_if (ltb_ℤ (quotient offset 2) (negate 2048) || leb_ℤ (pos 2048) (quotient offset 2))
          out_of_range)
        _ h1 in
    (
      not_lem (divides 2 offset) (fail_if-false (not (divides 2 offset)) misaligned ha),
      fail_if-false
          (ltb_ℤ (quotient offset 2) (negate 2048) || leb_ℤ (pos 2048) (quotient offset 2))
          out_of_range hr,
    )
  where
    not_lem : (b : Bool) → not b ≡ false → b ≡ true
    not_lem true h' = refl
    not_lem false h' = cc

-- The even offsets from -4096 to 4094.
abbrev pub IsOffset : ℤ → Type 0
IsOffset (pos n) = (n < 4096) × (n % 2 ≡ 0)
IsOffset (negsuc n) = (n < 4096) × (n % 2 ≡ 1)

displacement-IsOffset : (offset : ℤ) (x : ℕ) → displacement offset 12 2 ≡ ok x → IsOffset offset
displacement-IsOffset (pos n) x h =
    let (even, range) = displacement_lem (pos n) x h in (in_range n range, ground (arith, even))
  where
    in_range :
        (n : ℕ)
        → (ltb_ℤ (pos (n / 2)) (negate 2048) || leb_ℤ (pos 2048) (pos (n / 2))) ≡ false
        → n < 4096
    in_range n h = ground arith
displacement-IsOffset (negsuc n) x h =
    let (even, range) = displacement_lem (negsuc n) x h in
    let e : suc n % 2 ≡ 0 = ground (arith, even) in (in_range n e range, omega (arith, e))
  where
    in_range :
        (n : ℕ)
        → suc n % 2 ≡ 0
        → (ltb_ℤ (negate (suc n / 2)) (negate 2048) || leb_ℤ (pos 2048) (negate (suc n / 2)))
          ≡ false
        → n < 4096
    in_range n e h = ground arith

gather :
    (m : ℕ)
    → m % 2 ≡ 0
    → m / 2 ^ 1 % 2 ^ 4 * 2
        + m / 2 ^ 5 % 2 ^ 6 * 32
        + m / 2 ^ 11 % 2 ^ 1 * 2048
        + m / 2 ^ 12 % 2 ^ 1 * 4096
      ≡ m % 8192
gather m h = omega arith

wrap_even : (offset : ℤ) → IsOffset offset → wrap 32 offset % 2 ≡ 0
unfolding wrap
wrap_even (pos n) (s, e) = omega arith
wrap_even (negsuc n) (s, e) = omega arith

sign_extend13-wrap : (offset : ℤ) → IsOffset offset → sign_extend13 (wrap 32 offset % 8192) ≡ offset
unfolding wrap
sign_extend13-wrap (pos n) (s, e) =
    let p : n % 2 ^ 32 % 8192 ≡ n = omega arith in rw p (ground arith)
sign_extend13-wrap (negsuc n) (s, e) =
    let p : (2 ^ 32 - 1 - n % 2 ^ 32) % 8192 ≡ 8191 - n = omega arith in rw p (ground arith)

branch_fields :
    (m f3 rs1 rs2 : ℕ)
    → f3 < 8
    → rs1 < 32
    → rs2 < 32
    → (99
        bor field m 11 1 << 7
        bor field m 1 4 << 8
        bor f3 << 12
        bor rs1 << 15
        bor rs2 << 20
        bor field m 5 6 << 25
        bor field m 12 1 << 31)
      ≡ branch_word (m / 2 ^ 11 % 2) (m / 2 ^ 1 % 16) f3 rs1 rs2 (m / 2 ^ 5 % 64) (m / 2 ^ 12 % 2)
branch_fields m f3 rs1 rs2 h3 h1 h2 =
    rw (field_lem m 11 1, field_lem m 1 4, field_lem m 5 6, field_lem m 12 1)
      (branch_sum (m / 2 ^ 11 % 2) (m / 2 ^ 1 % 16) f3 rs1 rs2 (m / 2 ^ 5 % 64) (m / 2 ^ 12 % 2)
        (omega arith) (omega arith) h3 h1 h2 (omega arith) (omega arith))

-- A conditional branch is read back: when `branch` accepts an offset, the word that it returns has
-- the branch opcode and the operands in their fields, and the scattered bits of its immediate, put
-- together and sign-extended as the manual says, are the offset, for registers and a function code
-- that have the widths of their fields.
pub branch-decodes :
    (f3 rs1 rs2 : ℕ) (offset : ℤ) (w : ℕ)
    → f3 < 8
    → rs1 < 32
    → rs2 < 32
    → branch f3 rs1 rs2 offset ≡ ok w
    → (sign_extend13 (branch_immediate w) ≡ offset)
      × (bits_at w 0 7 ≡ 99)
      × (bits_at w 12 3 ≡ f3)
      × (bits_at w 15 5 ≡ rs1)
      × (bits_at w 20 5 ≡ rs2)
unfolding branch
branch-decodes f3 rs1 rs2 offset w h3 h1 h2 h =
    let (x, hd, hw) = >>=-eq-ok (displacement offset 12 2) _ h in
    let o = displacement-IsOffset offset x hd in
    let m = wrap 32 offset in
    let s =
      branch_word-Split (m / 2 ^ 11 % 2) (m / 2 ^ 1 % 16) f3 rs1 rs2 (m / 2 ^ 5 % 64)
        (m / 2 ^ 12 % 2) (omega arith) (omega arith) h3 h1 h2 (omega arith) (omega arith) in
    let made : branch_word (m / 2 ^ 11 % 2) (m / 2 ^ 1 % 16) f3 rs1 rs2 (m / 2 ^ 5 % 64)
          (m / 2 ^ 12 % 2)
        ≡ w =
      sym (branch_fields m f3 rs1 rs2 h3 h1 h2) ∙ ok-injective {E = AsmError} _ w hw in
    subst
      (λ v.
        (sign_extend13 (branch_immediate v) ≡ offset)
        × (bits_at v 0 7 ≡ 99)
        × (bits_at v 12 3 ≡ f3)
        × (bits_at v 15 5 ≡ rs1)
        × (bits_at v 20 5 ≡ rs2))
      made
      (
        ap sign_extend13 (s.immediate ∙ gather m (wrap_even offset o))
            ∙ sign_extend13-wrap offset o,
        s.opcode,
        s.at_f3,
        s.at_rs1,
        s.at_rs2,
      )

displacement-returns : (offset : ℤ) → IsOffset offset → (x : ℕ) × (displacement offset 12 2 ≡ ok x)
unfolding displacement
displacement-returns (pos n) (s, e) =
    let even : divides 2 (pos n) ≡ true = ground (arith, e) in
    let range : (ltb_ℤ (pos (n / 2)) (negate 2048) || leb_ℤ (pos 2048) (pos (n / 2))) ≡ false =
      ground (arith, s) in
    (wrap 32 (pos (n / 2)) % 4096, rw (even, range) refl)
displacement-returns (negsuc n) (s, e) =
    let even : divides 2 (negsuc n) ≡ true =
      let z : suc n % 2 ≡ 0 = omega (arith, e) in ground (arith, z) in
    let half : suc n / 2 ≤ 2048 = omega (arith, s) in
    let range : (ltb_ℤ (negate (suc n / 2)) (negate 2048) || leb_ℤ (pos 2048) (negate (suc n / 2)))
        ≡ false =
      in_range (suc n / 2) half in
    (wrap 32 (negate (suc n / 2)) % 4096, rw (even, range) refl)
  where
    in_range :
        (k : ℕ) → k ≤ 2048 → (ltb_ℤ (negate k) (negate 2048) || leb_ℤ (pos 2048) (negate k)) ≡ false
    in_range k h = ground (arith, h)

bind-returns : (r : Result AsmError ℕ) (x w : ℕ) → r ≡ ok x → (r >>= λ _. ok w) ≡ ok w
bind-returns r x w h = rw h refl

-- A branch accepts exactly the even offsets from -4096 to 4094, whatever its operands: it returns a
-- word for each of them, and an error for every other offset.
pub branch_iff :
    (f3 rs1 rs2 : ℕ) (offset : ℤ) → ((w : ℕ) × (branch f3 rs1 rs2 offset ≡ ok w)) ↔ IsOffset offset
unfolding branch
branch_iff f3 rs1 rs2 offset = (
  (λ (w, h).
      let (x, hd, hw) = >>=-eq-ok (displacement offset 12 2) _ h in
      displacement-IsOffset offset x hd),
  (λ o.
      let (x, hd) = displacement-returns offset o in
      (_, bind-returns (displacement offset 12 2) x _ hd)),
)
