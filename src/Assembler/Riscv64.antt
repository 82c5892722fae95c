-- ===== src/Assembler/Riscv64.antt =====
-- assembler/riscv64/src/encoding: the words of the RISC-V instruction formats. A `u32` is a number
-- below 2^32; a left shift drops what leaves the word.
pub mod Formats
pub mod Branches
use Prim.Native.Nat.{bit_and, bit_or}
use whale.Prelude.{ℕ, ◌*◌, ◌/◌, ◌%◌, ◌-◌, ◌^◌, Result, ok, ◌>>=◌}
use whale.Prelude.Int.{ℤ, wrap}
use whale.Assembler.{AsmError, displacement}

infixl 30 ◌bor◌
infixl 60 ◌<<◌
abbrev pub ◌bor◌ : ℕ → ℕ → ℕ
a bor b = bit_or a b

abbrev pub ◌<<◌ : ℕ → ℕ → ℕ
a << k = a * 2 ^ k % 2 ^ 32

-- `(imm >> from) & (2^n - 1)`
abbrev pub field : ℕ → ℕ → ℕ → ℕ
field imm from n = bit_and (imm / 2 ^ from) (2 ^ n - 1)

-- formats.rs
unfoldable pub r : ℕ → ℕ → ℕ → ℕ → ℕ → ℕ → ℕ
r opcode f3 f7 rd rs1 rs2 = opcode bor rd << 7 bor f3 << 12 bor rs1 << 15 bor rs2 << 20 bor f7 << 25

unfoldable pub i : ℕ → ℕ → ℕ → ℕ → ℕ → ℕ
i opcode f3 rd rs1 imm = opcode bor rd << 7 bor f3 << 12 bor rs1 << 15 bor imm << 20

unfoldable pub store : ℕ → ℕ → ℕ → ℕ → ℕ
store f3 rs1 rs2 imm =
    35 bor bit_and imm 31 << 7 bor f3 << 12 bor rs1 << 15 bor rs2 << 20 bor imm / 2 ^ 5 << 25

unfoldable pub upper : ℕ → ℕ → ℕ → ℕ
upper opcode rd imm = opcode bor rd << 7 bor bit_and imm 1048575 << 12

-- branch.rs
unfoldable pub branch : ℕ → ℕ → ℕ → ℤ → Result AsmError ℕ
branch f3 rs1 rs2 offset = do
  _ ← displacement offset 12 2
  let imm = wrap 32 offset
  ok (
      99
      bor field imm 11 1 << 7
      bor field imm 1 4 << 8
      bor f3 << 12
      bor rs1 << 15
      bor rs2 << 20
      bor field imm 5 6 << 25
      bor field imm 12 1 << 31)
