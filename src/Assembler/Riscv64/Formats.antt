-- ===== src/Assembler/Riscv64/Formats.antt =====
-- The fields of the words of the R, I, S and U formats.
use native.Mathlib.Nat.{mod-eq_of_lt}
use Prim.Native.Nat.{bit_and}
use whale.Prelude.{ℕ, ◌+◌, ◌*◌, ◌/◌, ◌%◌, ◌^◌, ◌<◌, ◌≡◌, refl, ap, ◌∙◌, arith}
use whale.Prelude.Bits.{bit_or-shifted, bit_and-mask}
use whale.Assembler.Riscv64.{◌bor◌, ◌<<◌, field, r, i, store, upper}

-- The bits of a word from a position on.
abbrev pub bits_at : ℕ → ℕ → ℕ → ℕ
bits_at w from n = w / 2 ^ from % 2 ^ n

pub join : (k a b : ℕ) → a < 2 ^ k → b * 2 ^ k < 2 ^ 32 → (a bor b << k) ≡ a + b * 2 ^ k
join k a b small fits = ap (λ x. a bor x) (mod-eq_of_lt fits) ∙ bit_or-shifted k a b small

pub field_lem : (imm from n : ℕ) → field imm from n ≡ imm / 2 ^ from % 2 ^ n
field_lem imm from n = bit_and-mask n (imm / 2 ^ from)

-- Six fields of the widths 7, 5, 3, 5, 5 and 7 as a sum.
fields_sum :
    (opcode rd f3 rs1 rs2 f7 : ℕ)
    → opcode < 128
    → rd < 32
    → f3 < 8
    → rs1 < 32
    → rs2 < 32
    → f7 < 128
    → (opcode bor rd << 7 bor f3 << 12 bor rs1 << 15 bor rs2 << 20 bor f7 << 25)
      ≡ opcode + rd * 2 ^ 7 + f3 * 2 ^ 12 + rs1 * 2 ^ 15 + rs2 * 2 ^ 20 + f7 * 2 ^ 25
fields_sum opcode rd f3 rs1 rs2 f7 ho hd h3 h1 h2 h7 =
    rw
      (
        join 7 opcode rd ho (omega arith),
        join 12 (opcode + rd * 2 ^ 7) f3 (omega arith) (omega arith),
        join 15 (opcode + rd * 2 ^ 7 + f3 * 2 ^ 12) rs1 (omega arith) (omega arith),
        join 20 (opcode + rd * 2 ^ 7 + f3 * 2 ^ 12 + rs1 * 2 ^ 15) rs2 (omega arith) (omega arith),
        join 25 (opcode + rd * 2 ^ 7 + f3 * 2 ^ 12 + rs1 * 2 ^ 15 + rs2 * 2 ^ 20) f7 (omega arith)
            (omega arith),
      )
      refl

-- The word of the R format holds its operands: every field of the word, read at its place in the
-- manual, is the operand that was given, for operands that have the widths of their fields.
pub r-decodes :
    (opcode f3 f7 rd rs1 rs2 : ℕ)
    → opcode < 128
    → rd < 32
    → f3 < 8
    → rs1 < 32
    → rs2 < 32
    → f7 < 128
    → (bits_at (r opcode f3 f7 rd rs1 rs2) 0 7 ≡ opcode)
      × (bits_at (r opcode f3 f7 rd rs1 rs2) 7 5 ≡ rd)
      × (bits_at (r opcode f3 f7 rd rs1 rs2) 12 3 ≡ f3)
      × (bits_at (r opcode f3 f7 rd rs1 rs2) 15 5 ≡ rs1)
      × (bits_at (r opcode f3 f7 rd rs1 rs2) 20 5 ≡ rs2)
      × (bits_at (r opcode f3 f7 rd rs1 rs2) 25 7 ≡ f7)
unfolding r
r-decodes opcode f3 f7 rd rs1 rs2 ho hd h3 h1 h2 h7 =
    rw (fields_sum opcode rd f3 rs1 rs2 f7 ho hd h3 h1 h2 h7)
      (omega arith, omega arith, omega arith, omega arith, omega arith, omega arith)

-- The S format holds its operands: the two parts of the immediate, put together, are the immediate
-- that was given, when the operands have the widths of their fields.
pub store-decodes :
    (f3 rs1 rs2 imm : ℕ)
    → f3 < 8
    → rs1 < 32
    → rs2 < 32
    → imm < 4096
    → (bits_at (store f3 rs1 rs2 imm) 25 7 * 32 + bits_at (store f3 rs1 rs2 imm) 7 5 ≡ imm)
      × (bits_at (store f3 rs1 rs2 imm) 0 7 ≡ 35)
      × (bits_at (store f3 rs1 rs2 imm) 12 3 ≡ f3)
      × (bits_at (store f3 rs1 rs2 imm) 15 5 ≡ rs1)
      × (bits_at (store f3 rs1 rs2 imm) 20 5 ≡ rs2)
unfolding store
store-decodes f3 rs1 rs2 imm h3 h1 h2 hi =
    let low : imm % 32 < 32 = omega arith in
    let sum : (35
          bor bit_and imm 31 << 7
          bor f3 << 12
          bor rs1 << 15
          bor rs2 << 20
          bor imm / 2 ^ 5 << 25)
        ≡ 35 + imm % 32 * 2 ^ 7 + f3 * 2 ^ 12 + rs1 * 2 ^ 15 + rs2 * 2 ^ 20 + imm / 32 * 2 ^ 25 =
      rw (bit_and-mask 5 imm)
        (fields_sum 35 (imm % 32) f3 rs1 rs2 (imm / 32) (omega arith) low h3 h1 h2 (omega arith)) in
    rw sum (omega arith, omega arith, omega arith, omega arith, omega arith)

-- The I format holds its operands, when they have the widths of their fields.
pub i-decodes :
    (opcode f3 rd rs1 imm : ℕ)
    → opcode < 128
    → rd < 32
    → f3 < 8
    → rs1 < 32
    → imm < 4096
    → (bits_at (i opcode f3 rd rs1 imm) 20 12 ≡ imm)
      × (bits_at (i opcode f3 rd rs1 imm) 0 7 ≡ opcode)
      × (bits_at (i opcode f3 rd rs1 imm) 7 5 ≡ rd)
      × (bits_at (i opcode f3 rd rs1 imm) 12 3 ≡ f3)
      × (bits_at (i opcode f3 rd rs1 imm) 15 5 ≡ rs1)
unfolding i
i-decodes opcode f3 rd rs1 imm ho hd h3 h1 hi =
    let sum : (opcode bor rd << 7 bor f3 << 12 bor rs1 << 15 bor imm << 20)
        ≡ opcode + rd * 2 ^ 7 + f3 * 2 ^ 12 + rs1 * 2 ^ 15 + imm * 2 ^ 20 =
      rw
        (
          join 7 opcode rd ho (omega arith),
          join 12 (opcode + rd * 2 ^ 7) f3 (omega arith) (omega arith),
          join 15 (opcode + rd * 2 ^ 7 + f3 * 2 ^ 12) rs1 (omega arith) (omega arith),
          join 20 (opcode + rd * 2 ^ 7 + f3 * 2 ^ 12 + rs1 * 2 ^ 15) imm (omega arith)
              (omega arith),
        )
        refl in
    rw sum (omega arith, omega arith, omega arith, omega arith, omega arith)

-- The U format holds the low 20 bits of its immediate, whatever the immediate is, beside its other
-- operands, when these have the widths of their fields.
pub upper-decodes :
    (opcode rd imm : ℕ)
    → opcode < 128
    → rd < 32
    → (bits_at (upper opcode rd imm) 12 20 ≡ imm % 2 ^ 20)
      × (bits_at (upper opcode rd imm) 0 7 ≡ opcode)
      × (bits_at (upper opcode rd imm) 7 5 ≡ rd)
unfolding upper
upper-decodes opcode rd imm ho hd =
    let low : imm % 1048576 < 1048576 = omega arith in
    let sum : (opcode bor rd << 7 bor bit_and imm 1048575 << 12)
        ≡ opcode + rd * 2 ^ 7 + imm % 1048576 * 2 ^ 12 =
      rw
        (
          bit_and-mask 20 imm,
          join 7 opcode rd ho (omega arith),
          join 12 (opcode + rd * 2 ^ 7) (imm % 1048576) (omega arith) (omega arith),
        )
        refl in
    rw sum (omega arith, omega arith, omega arith)
