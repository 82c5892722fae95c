-- ===== src/Ir/Memory/Access.antt =====
-- The checks in front of every access, and pointer arithmetic: `identity`, `access`, `difference`,
-- `compare_order`, `gep` and `equal`. They read the memory only.
use Prim.Native.Nat.{Ordering}
use whale.Prelude.{
  ℕ, zero, suc, ◌-◌, ◌%◌, ◌^◌, Bool, true, false, not, ◌&&◌, ◌||◌, List, [], ◌∷◌, length, get_elem?,
  Option, none, some, Result, ok, err, ◌>>=◌, ◌>>◌, fail_if, or_fail, ltb, ◌==◌, if◌then◌else◌,
}
use whale.Prelude.Words.{checked_add}
use whale.Prelude.Int.{ℤ, pos, negsuc, ◌+ℤ◌, ◌-ℤ◌, ◌*ℤ◌, leb_ℤ, sub_ℕ}
use whale.Ir.{ConstValue}
use whale.Ir.Integer.{in_i128}
use whale.Ir.Memory.State.{
  null_pointer, missing_provenance, expired_allocation, out_of_bounds, address_overflow,
  permission_denied, misaligned, different_allocation, Fault, trap, panicked, Capability, Pointer,
  Allocation, GepStep, stride, field, Memory,
}

unfoldable pub equals_some : Option ℕ → ℕ → Bool
equals_some none b = false
equals_some (some a) b = a == b

unfoldable pub identity : Memory → Pointer → Result Fault (ℕ × Capability)
identity m p = do
  fail_if (p.address == 0) (trap null_pointer)
  cap ← or_fail p.capability (trap missing_provenance)
  fail_if (not (cap.arena == m.arena)) (trap expired_allocation)
  a ← or_fail (get_elem? m.allocations cap.allocation) (trap expired_allocation)
  fail_if (not a.alive || not (a.generation == cap.generation)) (trap expired_allocation)
  fail_if
      (ltb cap.offset cap.lower
        || ltb cap.upper cap.offset
        || ltb (length a.bytes) cap.upper
        || not (equals_some (checked_add a.address cap.offset) p.address))
      (trap out_of_bounds)
  ok (cap.allocation, cap)

-- The permission of the capability and of the allocation, for reading or writing.
abbrev pub permitted : Bool → Capability → Allocation → Bool
permitted write cap a = if write then cap.write && a.write else cap.read && a.read

unfoldable pub access : Memory → Pointer → ℕ → ℕ → Bool → Result Fault (ℕ × ℕ × ℕ)
access m p n align write = do
  (id, cap) ← identity m p
  end ← or_fail (checked_add cap.offset n) (trap address_overflow)
  fail_if (ltb cap.upper end) (trap out_of_bounds)
  a ← or_fail (get_elem? m.allocations id) panicked
  fail_if (not (permitted write cap a)) (trap permission_denied)
  fail_if (align == 0) panicked
  fail_if (not (p.address % align == 0)) (trap (misaligned p.address align))
  ok (id, cap.offset, end)

unfoldable pub difference : Memory → Pointer → Pointer → Result Fault ℤ
difference m lhs rhs = do
  (a, left) ← identity m lhs
  (b, right) ← identity m rhs
  fail_if (not (a == b) || not (left.generation == right.generation)) (trap different_allocation)
  ok (sub_ℕ left.offset right.offset)

abbrev pub sign : ℤ → Ordering
sign (pos zero) = Ordering.eq
sign (pos (suc n)) = Ordering.gt
sign (negsuc n) = Ordering.lt

unfoldable pub compare_order : Memory → Pointer → Pointer → Result Fault Ordering
compare_order m lhs rhs = do d ← difference m lhs rhs; ok (sign d)

abbrev pub checked_i128 : ℤ → Result Fault ℤ
checked_i128 z = if in_i128 z then ok z else err (trap address_overflow)

-- The index of a stride, as an `i128`.
abbrev pub index_value : ConstValue → Result Fault ℤ
index_value (ConstValue.int v) = ok v
index_value (ConstValue.uint v) =
    if ltb v (2 ^ 127) then ok (pos v) else err (trap address_overflow)
index_value (ConstValue.boolean b) = err panicked
index_value (ConstValue.float f) = err panicked

unfoldable pub gep_delta : GepStep → ConstValue → Result Fault ℤ
gep_delta (field o) index = ok (pos o)
gep_delta (stride s) index = do v ← index_value index; checked_i128 (v *ℤ pos s)

abbrev pub in_u64 : ℤ → Bool
in_u64 z = leb_ℤ (pos 0) z && leb_ℤ z (pos (2 ^ 64 - 1))

-- The loop of `gep`; it stops with the shorter of plan and indices.
unfoldable pub gep_offset : ℤ → ℤ → List GepStep → List ConstValue → Result Fault ℤ
gep_offset base offset [] indices = ok offset
gep_offset base offset (s ∷ plan) [] = ok offset
gep_offset base offset (s ∷ plan) (i ∷ indices) = do
  delta ← gep_delta s i
  offset' ← checked_i128 (offset +ℤ delta)
  address ← checked_i128 (base +ℤ offset')
  fail_if (not (in_u64 address)) (trap address_overflow)
  gep_offset base offset' plan indices

abbrev pub as_u64 : ℤ → Result Fault ℕ
as_u64 (pos n) = if ltb n (2 ^ 64) then ok n else err (trap out_of_bounds)
as_u64 (negsuc n) = err (trap out_of_bounds)

-- The end of `gep`: the offset stays in the capability's range. The `unwrap` of the last
-- conversion is `panicked`.
unfoldable pub gep_finish : Capability → ℤ → ℤ → Result Fault Pointer
gep_finish cap base offset = do
  o ← as_u64 offset
  fail_if (ltb o cap.lower || ltb cap.upper o) (trap out_of_bounds)
  fail_if (not (in_u64 (base +ℤ pos o))) panicked
  a ← as_u64 (base +ℤ pos o)
  ok (record { address = a; capability = some (record cap { offset = o }) })

unfoldable pub gep : Memory → Pointer → List GepStep → List ConstValue → Result Fault Pointer
gep m p plan [] = ok p
gep m p plan (i ∷ indices) = do
  (_, cap) ← identity m p
  let base = pos p.address -ℤ pos cap.offset
  offset ← gep_offset base (pos cap.offset) plan (i ∷ indices)
  gep_finish cap base offset

-- Two pointers into the memory, by identity.
unfoldable pub same_place : Memory → Pointer → Pointer → Result Fault Bool
same_place m lhs rhs = do
  (_, a) ← identity m lhs
  (_, b) ← identity m rhs
  ok (a.allocation == b.allocation && a.generation == b.generation && a.offset == b.offset)

-- The null pointer equals itself, and no pointer that has an identity.
unfoldable pub equal : Memory → Pointer → Pointer → Result Fault Bool
equal m lhs rhs =
    let against_rhs : Result Fault Bool = identity m rhs >>= λ _. ok false in
    let against_lhs : Result Fault Bool = identity m lhs >>= λ _. ok false in
    if lhs.address == 0 && rhs.address == 0
    then ok true
    else (if lhs.address == 0
        then against_rhs
        else (if rhs.address == 0 then against_lhs else same_place m lhs rhs))
