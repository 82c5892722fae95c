-- ===== src/Assembler.antt =====
-- assembler/src: what the encoders of the machines with fixed-width words share.
pub mod Riscv64
use whale.Prelude.{
  ℕ, suc, ◌+◌, ◌-◌, ◌*◌, ◌/◌, ◌%◌, ◌^◌, Bool, not, ◌&&◌, ◌||◌, Result, ok, err, ◌>>=◌, ◌>>◌,
  fail_if, ltb, leb, ◌==◌,
}
use whale.Prelude.Int.{ℤ, pos, negsuc, negate, wrap, leb_ℤ, ltb_ℤ}

pub data AsmError : Type 0 where
  invalid_field misaligned out_of_range : AsmError

-- `value / alignment` and `value % alignment != 0`, where Rust rounds to zero.
abbrev pub quotient : ℤ → ℕ → ℤ
quotient (pos n) a = pos (n / a)
quotient (negsuc n) a = negate (suc n / a)

abbrev pub divides : ℕ → ℤ → Bool
divides a (pos n) = n % a == 0
divides a (negsuc n) = suc n % a == 0

-- `fixed::displacement` in assembler/src/fixed.rs; the alignment is a number.
unfoldable pub displacement : ℤ → ℕ → ℕ → Result AsmError ℕ
displacement value bits alignment = do
  fail_if (not (leb 1 bits && leb bits 32) || alignment == 0) invalid_field
  fail_if (not (divides alignment value)) misaligned
  let scaled = quotient value alignment
  fail_if (ltb_ℤ scaled (negate (2 ^ (bits - 1))) || leb_ℤ (pos (2 ^ (bits - 1))) scaled)
      out_of_range
  ok (wrap 32 scaled % 2 ^ bits)
