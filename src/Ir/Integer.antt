-- ===== src/Ir/Integer.antt =====
-- ir/src/interpreter/integer.rs and ir/src/constant.rs: N-bit integers of the interpreter. A value
-- travels as the `u128` pattern of its low N bits. The calls that the source marks unreachable for
-- verified code end in `unreachable` here.
pub mod Width
pub mod Exact
pub mod Cast
use Prim.Native.Nat.{bit_and, bit_or, bit_xor}
use whale.Prelude.{
  ℕ, zero, ◌+◌, ◌-◌, ◌*◌, ◌/◌, ◌%◌, ◌^◌, Bool, true, false, not, ◌&&◌, ◌||◌, Option, none, some,
  Result, ok, err, ◌>>=◌, ◌>>◌, fail_if, or_fail, ltb, leb, ◌==◌, if◌then◌else◌,
}
use whale.Prelude.Int.{
  wrap, negate, ℤ, pos, negsuc, pos_part, neg_part, ◌+ℤ◌, ◌-ℤ◌, ◌*ℤ◌, ltb_ℤ, leb_ℤ, sub_ℕ,
}
use whale.Ir.{Ty, ConstValue, boolean, int, uint, float, bits16, bits32, bits64}

pub data TrapReason : Type 0 where
  division_by_zero remainder_by_zero invalid_conversion unreachable : TrapReason

-- Width and signedness.
unfoldable pub shape : Ty → Option (ℕ × Bool)
shape Ty.i1 = some (1, true)
shape Ty.u1 = some (1, false)
shape Ty.i8 = some (8, true)
shape Ty.u8 = some (8, false)
shape Ty.i16 = some (16, true)
shape Ty.u16 = some (16, false)
shape Ty.i32 = some (32, true)
shape Ty.u32 = some (32, false)
shape Ty.i64 = some (64, true)
shape Ty.u64 = some (64, false)
shape Ty.i128 = some (128, true)
shape Ty.u128 = some (128, false)
shape _ = none

-- `x & mask(bits)`.
abbrev pub masked : ℕ → ℕ → ℕ
masked bits x = x % 2 ^ bits

unfoldable pub bool_bit : Bool → ℕ
bool_bit true = 1
bool_bit false = 0

unfoldable pub raw : ConstValue → ℕ → Result TrapReason ℕ
unfolding wrap bool_bit
raw (int v) bits = ok (masked bits (wrap 128 v))
raw (uint v) bits = ok (masked bits v)
raw (boolean b) bits = ok (masked bits (bool_bit b))
raw (float f) bits = err unreachable

-- The two's complement reading of a pattern below 2^bits: its sign bit is set from 2^(bits-1) on.
unfoldable pub signed : ℕ → ℕ → ℤ
signed value bits = if leb (2 ^ (bits - 1)) value then negsuc (2 ^ bits - value - 1) else pos value

unfoldable pub pack_shape : ℕ × Bool → ℕ → ConstValue
unfolding signed
pack_shape (bits, s) value =
    if s then int (signed (masked bits value) bits) else uint (masked bits value)

unfoldable pub pack : Ty → ℕ → Result TrapReason ConstValue
pack t value = do s ← or_fail (shape t) unreachable; ok (pack_shape s value)

pub data BinOp : Type 0 where
  add sub mul udiv sdiv urem srem fadd fsub fmul fdiv frem and_op or_op xor_op shl lshr ashr : BinOp

abbrev pub is_zero : ℤ → Bool
is_zero (pos zero) = true
is_zero _ = false

abbrev pub magnitude : ℤ → ℕ
magnitude z = pos_part z + neg_part z

abbrev pub is_negative : ℤ → Bool
is_negative (pos n) = false
is_negative (negsuc n) = true

-- `i128::wrapping_div` and `wrapping_rem` truncate toward zero; the wrap is that of `as u128`.
unfoldable pub quotient : ℤ → ℤ → ℤ
quotient a b =
    let q = magnitude a / magnitude b in
    elim (is_negative a) [
      | true ↦ if is_negative b then pos q else negate q
      | false ↦ if is_negative b then negate q else pos q
    ]

unfoldable pub remainder : ℤ → ℤ → ℤ
remainder a b = let r = magnitude a % magnitude b in if is_negative a then negate r else pos r

-- `>>` on `i128` rounds down.
unfoldable pub shift_right : ℤ → ℕ → ℤ
shift_right (pos n) c = pos (n / 2 ^ c)
shift_right (negsuc n) c = negsuc (n / 2 ^ c)

-- The `match` of `bin`, on the two patterns.
unfoldable pub bin_value : BinOp → ℕ → ℕ → ℕ → Result TrapReason ℕ
unfolding signed wrap quotient remainder shift_right
bin_value add bits a b = ok ((a + b) % 2 ^ 128)
bin_value sub bits a b = ok ((a + 2 ^ 128 - b) % 2 ^ 128)
bin_value mul bits a b = ok (a * b % 2 ^ 128)
bin_value udiv bits a b = if b == 0 then err division_by_zero else ok (a / b)
bin_value sdiv bits a b =
    if b == 0
    then err division_by_zero
    else ok (wrap 128 (quotient (signed a bits) (signed b bits)))
bin_value urem bits a b = if b == 0 then err remainder_by_zero else ok (a % b)
bin_value srem bits a b =
    if b == 0
    then err remainder_by_zero
    else ok (wrap 128 (remainder (signed a bits) (signed b bits)))
bin_value and_op bits a b = ok (bit_and a b)
bin_value or_op bits a b = ok (bit_or a b)
bin_value xor_op bits a b = ok (bit_xor a b)
bin_value shl bits a b = ok (a * 2 ^ (b % bits) % 2 ^ 128)
bin_value lshr bits a b = ok (a / 2 ^ (b % bits))
bin_value ashr bits a b = ok (wrap 128 (shift_right (signed a bits) (b % bits)))
bin_value _ bits a b = err unreachable

unfoldable pub bin : BinOp → Ty → ConstValue → ConstValue → Result TrapReason ConstValue
bin op t lhs rhs = do
  (bits, s) ← or_fail (shape t) unreachable
  a ← raw lhs bits
  b ← raw rhs bits
  value ← bin_value op bits a b
  pack t value

pub data CheckedOp : Type 0 where
  uadd usub umul sadd ssub smul : CheckedOp

abbrev pub in_i128 : ℤ → Bool
in_i128 v = leb_ℤ (negsuc (2 ^ 127 - 1)) v && leb_ℤ v (pos (2 ^ 127 - 1))

-- `exact.is_none_or(...)`: the `i128` operation overflowed, or the width is smaller and left.
unfoldable pub signed_overflow : ℕ → ℤ → Bool
signed_overflow bits v =
    not (in_i128 v)
    || ltb bits 128 && (ltb_ℤ v (negate (2 ^ (bits - 1))) || leb_ℤ (pos (2 ^ (bits - 1))) v)

-- The wrapped pattern before packing, and the overflow flag.
unfoldable pub checked_value : CheckedOp → ℕ → ℕ → ℕ → ℕ × Bool
unfolding signed_overflow signed
checked_value uadd bits a b =
    ((a + b) % 2 ^ 128, leb (2 ^ 128) (a + b) || ltb (2 ^ bits - 1) ((a + b) % 2 ^ 128))
checked_value usub bits a b = ((a + 2 ^ 128 - b) % 2 ^ 128, ltb a b)
checked_value umul bits a b = (a * b % 2 ^ 128, leb (2 ^ 128) (a * b) || ltb (2 ^ bits - 1) (a * b))
checked_value sadd bits a b =
    ((a + b) % 2 ^ 128, signed_overflow bits (signed a bits +ℤ signed b bits))
checked_value ssub bits a b =
    ((a + 2 ^ 128 - b) % 2 ^ 128, signed_overflow bits (signed a bits -ℤ signed b bits))
checked_value smul bits a b =
    (a * b % 2 ^ 128, signed_overflow bits (signed a bits *ℤ signed b bits))

unfoldable pub checked :
    CheckedOp → Ty → ConstValue → ConstValue → Result TrapReason (ConstValue × Bool)
checked op t lhs rhs = do
  (bits, s) ← or_fail (shape t) unreachable
  a ← raw lhs bits
  b ← raw rhs bits
  let value = checked_value op bits a b
  v ← pack t value.0
  ok (v, value.1)

-- `shape(ty).map_or(1, |s| s.0)`
abbrev pub width_or_one : Option (ℕ × Bool) → ℕ
width_or_one none = 1
width_or_one (some (bits, s)) = bits

-- `cast` for the widening and narrowing of integers; `sext` says whether the op is `SExt`.
unfoldable pub cast : Bool → Ty → Ty → ConstValue → Result TrapReason ConstValue
cast sext src dst value = do
  let bits = width_or_one (shape src)
  v ← raw value bits
  pack dst (if sext then wrap 128 (signed v bits) else v)

pub data ICmpPred : Type 0 where
  eq ne ult ule ugt uge slt sle sgt sge : ICmpPred

unfoldable pub compare_patterns : ICmpPred → ℕ → ℕ → ℕ → Bool
unfolding signed
compare_patterns eq bits a b = a == b
compare_patterns ne bits a b = not (a == b)
compare_patterns ult bits a b = ltb a b
compare_patterns ule bits a b = leb a b
compare_patterns ugt bits a b = ltb b a
compare_patterns uge bits a b = leb b a
compare_patterns slt bits a b = ltb_ℤ (signed a bits) (signed b bits)
compare_patterns sle bits a b = leb_ℤ (signed a bits) (signed b bits)
compare_patterns sgt bits a b = ltb_ℤ (signed b bits) (signed a bits)
compare_patterns sge bits a b = leb_ℤ (signed b bits) (signed a bits)

unfoldable pub compare : ICmpPred → Ty → ConstValue → ConstValue → Result TrapReason Bool
compare pred t lhs rhs = do
  let bits = width_or_one (shape t)
  a ← raw lhs bits
  b ← raw rhs bits
  ok (compare_patterns pred bits a b)

-- The range check of `checked_cast` on sign and magnitude.
unfoldable pub cast_pattern : ℕ × Bool → ℕ × Bool → ℕ → Result TrapReason ℕ
unfolding signed
cast_pattern (sb, ss) (db, ds) raw_value = do
  let negative = ss && is_negative (signed raw_value sb)
  let size = if negative then magnitude (signed raw_value sb) else raw_value
  let maximum = if ds then 2 ^ (db - 1) - (if negative then 0 else 1) else 2 ^ db - 1
  fail_if (negative && not ds || ltb maximum size) invalid_conversion
  ok (if negative then (2 ^ 128 - size) % 2 ^ 128 else size)

unfoldable pub checked_cast : Ty → Ty → ConstValue → Result TrapReason ConstValue
checked_cast src dst value = do
  (sb, ss) ← or_fail (shape src) unreachable
  (db, ds) ← or_fail (shape dst) unreachable
  v ← raw value sb
  size ← cast_pattern (sb, ss) (db, ds) v
  pack dst size

-- `valid_constant`: the literal has the type's category and its range.
abbrev pub in_signed : ℕ → ℤ → Bool
in_signed bits v = leb_ℤ (negate (2 ^ (bits - 1))) v && ltb_ℤ v (pos (2 ^ (bits - 1)))

unfoldable pub valid_constant : Ty → ConstValue → Bool
valid_constant Ty.bool (boolean b) = true
valid_constant Ty.f16 (float (bits16 b)) = true
valid_constant Ty.f32 (float (bits32 b)) = true
valid_constant Ty.f64 (float (bits64 b)) = true
valid_constant Ty.i128 (int v) = true
valid_constant Ty.u128 (uint v) = true
valid_constant Ty.i1 (int v) = in_signed 1 v
valid_constant Ty.i8 (int v) = in_signed 8 v
valid_constant Ty.i16 (int v) = in_signed 16 v
valid_constant Ty.i32 (int v) = in_signed 32 v
valid_constant Ty.i64 (int v) = in_signed 64 v
valid_constant Ty.u1 (uint v) = ltb v (2 ^ 1)
valid_constant Ty.u8 (uint v) = ltb v (2 ^ 8)
valid_constant Ty.u16 (uint v) = ltb v (2 ^ 16)
valid_constant Ty.u32 (uint v) = ltb v (2 ^ 32)
valid_constant Ty.u64 (uint v) = ltb v (2 ^ 64)
valid_constant _ _ = false
