-- ===== src/Tests/Assembling.antt =====
-- Words of RISC-V instructions: `add x3, x1, x2`, `sd x2, 40(x1)`, `addi x5, x6, -1`, `lui` and `beq x1, x2, -8`.
use whale.Prelude.{ℕ, ◌+◌, ◌*◌, ◌%◌, ◌^◌, ◌≡◌, ◌↔◌, refl, ok, arith}
use whale.Prelude.Int.{ℤ, negsuc}
use whale.Assembler.Riscv64.{r, i, store, upper, branch}
use whale.Assembler.Riscv64.Formats.{bits_at, r-decodes, store-decodes, i-decodes, upper-decodes}
use whale.Assembler.Riscv64.Branches.{
  sign_extend13, branch_immediate, IsOffset, branch-decodes, branch_iff,
}

add_word : r 51 0 0 3 1 2 ≡ 2130355
unfolding r
add_word = refl

r-decodes_example :
    (bits_at (r 51 0 0 3 1 2) 0 7 ≡ 51)
    × (bits_at (r 51 0 0 3 1 2) 7 5 ≡ 3)
    × (bits_at (r 51 0 0 3 1 2) 12 3 ≡ 0)
    × (bits_at (r 51 0 0 3 1 2) 15 5 ≡ 1)
    × (bits_at (r 51 0 0 3 1 2) 20 5 ≡ 2)
    × (bits_at (r 51 0 0 3 1 2) 25 7 ≡ 0)
r-decodes_example =
    r-decodes 51 0 0 3 1 2 (omega arith) (omega arith) (omega arith) (omega arith) (omega arith)
      (omega arith)

store-decodes_example :
    (bits_at (store 3 1 2 40) 25 7 * 32 + bits_at (store 3 1 2 40) 7 5 ≡ 40)
    × (bits_at (store 3 1 2 40) 0 7 ≡ 35)
    × (bits_at (store 3 1 2 40) 12 3 ≡ 3)
    × (bits_at (store 3 1 2 40) 15 5 ≡ 1)
    × (bits_at (store 3 1 2 40) 20 5 ≡ 2)
store-decodes_example =
    store-decodes 3 1 2 40 (omega arith) (omega arith) (omega arith) (omega arith)

abbrev back_word : ℕ
back_word = 4263546083

back_branches : branch 0 1 2 (negsuc 7) ≡ ok back_word
unfolding branch whale.Assembler.displacement whale.Prelude.Int.wrap
back_branches = refl

branch-decodes_example :
    (sign_extend13 (branch_immediate back_word) ≡ negsuc 7)
    × (bits_at back_word 0 7 ≡ 99)
    × (bits_at back_word 12 3 ≡ 0)
    × (bits_at back_word 15 5 ≡ 1)
    × (bits_at back_word 20 5 ≡ 2)
branch-decodes_example =
    branch-decodes 0 1 2 (negsuc 7) back_word (omega arith) (omega arith) (omega arith)
      back_branches

branch_iff_example : ((w : ℕ) × (branch 0 1 2 (negsuc 7) ≡ ok w)) ↔ IsOffset (negsuc 7)
branch_iff_example = branch_iff 0 1 2 (negsuc 7)

i-decodes_example :
    (bits_at (i 19 0 5 6 4095) 20 12 ≡ 4095)
    × (bits_at (i 19 0 5 6 4095) 0 7 ≡ 19)
    × (bits_at (i 19 0 5 6 4095) 7 5 ≡ 5)
    × (bits_at (i 19 0 5 6 4095) 12 3 ≡ 0)
    × (bits_at (i 19 0 5 6 4095) 15 5 ≡ 6)
i-decodes_example =
    i-decodes 19 0 5 6 4095 (omega arith) (omega arith) (omega arith) (omega arith) (omega arith)

upper-decodes_example :
    (bits_at (upper 55 3 1048577) 12 20 ≡ 1048577 % 2 ^ 20)
    × (bits_at (upper 55 3 1048577) 0 7 ≡ 55)
    × (bits_at (upper 55 3 1048577) 7 5 ≡ 3)
upper-decodes_example = upper-decodes 55 3 1048577 (omega arith) (omega arith)
