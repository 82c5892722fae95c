-- ===== src/Ir/Layout.antt =====
-- ir/src/layout.rs: size, alignment and field offsets of a type on a target.
pub mod Natural
pub mod Correct
use whale.Prelude.{
  ℕ, zero, suc, ◌-◌, ◌/◌, ◌^◌, min, max, Bool, true, false, ◌&&◌, List, [], ◌∷◌, ◌++◌, Option, none,
  some, Result, ok, err, ◌>>=◌, ◌>>◌, fail_if, or_fail, map_err, ltb, leb, ◌==◌, if◌then◌else◌,
  get_elem?,
}
use whale.Prelude.Words.{checked_add, checked_mul, round_up}
use whale.Target.{StorageLayout, validate_storage, amd64_storage}
use whale.Ir.{Ty, Tys}
use whale.Ir

pub record TypeLayout : Type 0 where
  pub size : ℕ
  pub align : ℕ
  pub field_offsets : List ℕ
  pub element_stride : Option ℕ

pub data LayoutError : Type 0 where
  void_layout overflow depth_limit zero_sized_pointer_arithmetic invalid_target : LayoutError

abbrev pub scalar : ℕ → ℕ → TypeLayout
scalar size align = record { size = size; align = align; field_offsets = []; element_stride = none }

-- `scalar_align[index]` of an array of five; a shorter list has no such target.
abbrev pub align_at : StorageLayout → ℕ → Result LayoutError ℕ
align_at storage index = or_fail (get_elem? storage.scalar_align index) invalid_target

abbrev pub scalar_for : StorageLayout → ℕ → ℕ → Result LayoutError TypeLayout
scalar_for storage size index = do align ← align_at storage index; ok (scalar size align)

unfoldable pub align_up : ℕ → ℕ → Result LayoutError ℕ
unfolding checked_add
align_up size align = or_fail (round_up size align) overflow

-- `max_depth.checked_sub(1)`
abbrev pub remaining : ℕ → Result LayoutError ℕ
remaining zero = err depth_limit
remaining (suc d) = ok d

abbrev pub max_size : StorageLayout → ℕ
max_size storage = if storage.layout.ptr_bits == 32 then 2 ^ 32 - 1 else 2 ^ 64 - 1

-- The check at the end of `layout_storage`.
unfoldable pub bounded : StorageLayout → TypeLayout → Result LayoutError TypeLayout
bounded storage r = if ltb (max_size storage) r.size then err overflow else ok r

unfoldable pub array_layout : ℕ → TypeLayout → Result LayoutError TypeLayout
array_layout count element = do
  size ← or_fail (checked_mul element.size count) overflow
  ok (record {
    size = size;
    align = element.align;
    field_offsets = [];
    element_stride = some element.size;
  })

-- One round of the loop over the fields.
unfoldable pub add_field : TypeLayout → TypeLayout → Result LayoutError TypeLayout
add_field r field = do
  start ← align_up r.size field.align
  end ← or_fail (checked_add start field.size) overflow
  ok (record r {
    size = end;
    align = max r.align field.align;
    field_offsets = r.field_offsets ++ start ∷ [];
  })

-- Tail padding.
unfoldable pub close_fields : TypeLayout → Result LayoutError TypeLayout
close_fields r = do size ← align_up r.size r.align; ok (record r { size = size })

unfoldable mutual
  pub layout_storage : StorageLayout → ℕ → Ty → Result LayoutError TypeLayout
  layout_storage storage depth Ty.void = err void_layout
  layout_storage storage depth Ty.bool = scalar_for storage 1 0 >>= bounded storage
  layout_storage storage depth Ty.i1 = scalar_for storage 1 0 >>= bounded storage
  layout_storage storage depth Ty.u1 = scalar_for storage 1 0 >>= bounded storage
  layout_storage storage depth Ty.i8 = scalar_for storage 1 0 >>= bounded storage
  layout_storage storage depth Ty.u8 = scalar_for storage 1 0 >>= bounded storage
  layout_storage storage depth Ty.i16 = scalar_for storage 2 1 >>= bounded storage
  layout_storage storage depth Ty.u16 = scalar_for storage 2 1 >>= bounded storage
  layout_storage storage depth Ty.f16 = scalar_for storage 2 1 >>= bounded storage
  layout_storage storage depth Ty.i32 = scalar_for storage 4 2 >>= bounded storage
  layout_storage storage depth Ty.u32 = scalar_for storage 4 2 >>= bounded storage
  layout_storage storage depth Ty.f32 = scalar_for storage 4 2 >>= bounded storage
  layout_storage storage depth Ty.i64 = scalar_for storage 8 3 >>= bounded storage
  layout_storage storage depth Ty.u64 = scalar_for storage 8 3 >>= bounded storage
  layout_storage storage depth Ty.f64 = scalar_for storage 8 3 >>= bounded storage
  layout_storage storage depth Ty.i128 = scalar_for storage 16 4 >>= bounded storage
  layout_storage storage depth Ty.u128 = scalar_for storage 16 4 >>= bounded storage
  layout_storage storage depth (Ty.ptr t) =
      bounded storage (scalar (storage.layout.ptr_bits / 8) storage.pointer_align)
  layout_storage storage depth (Ty.fn_ptr ps r c v) =
      bounded storage (scalar (storage.layout.ptr_bits / 8) storage.pointer_align)
  layout_storage storage depth (Ty.array t count) = do
    d ← remaining depth
    element ← layout_storage storage d t
    r ← array_layout count element
    bounded storage r
  layout_storage storage depth (Ty.struct ts) = do
    d ← remaining depth
    r ← layout_fields storage d (scalar 0 1) ts
    r' ← close_fields r
    bounded storage r'
  layout_storage storage depth (Ty.tuple ts) = do
    d ← remaining depth
    r ← layout_fields storage d (scalar 0 1) ts
    r' ← close_fields r
    bounded storage r'

  pub layout_fields : StorageLayout → ℕ → TypeLayout → Tys → Result LayoutError TypeLayout
  layout_fields storage depth r Tys.nil = ok r
  layout_fields storage depth r (Tys.cons t ts) = do
    field ← layout_storage storage depth t
    r' ← add_field r field
    layout_fields storage depth r' ts

abbrev pub max_ir_nesting : ℕ
max_ir_nesting = 256

-- `layout_for_target`, from the target's storage on: `TargetSpec::validate` is taken as far as its
-- storage contract.
unfoldable pub layout_for_storage : StorageLayout → ℕ → Ty → Result LayoutError TypeLayout
layout_for_storage storage max_depth t = do
  map_err (λ _. invalid_target) (validate_storage storage)
  layout_storage storage (min max_depth max_ir_nesting) t

-- `layout_of_with_limit` and `layout_of` for the built-in target.
unfoldable pub layout_of_with_limit : ℕ → Ty → Result LayoutError TypeLayout
unfolding layout_for_storage validate_storage
layout_of_with_limit max_depth t = layout_for_storage amd64_storage max_depth t

unfoldable pub layout_of : Ty → Result LayoutError TypeLayout
unfolding layout_of_with_limit
layout_of t = layout_of_with_limit 128 t

abbrev is_array : Ty → Bool
is_array (Ty.array t n) = true
is_array _ = false

abbrev large_align : Option (ℕ × ℕ) → Bool → TypeLayout → ℕ
large_align none arrays l = l.align
large_align (some (threshold, align)) arrays l =
    if arrays && leb threshold l.size then max l.align align else l.align

-- `allocation_align_for_target`.
unfoldable pub allocation_align : StorageLayout → Ty → Result LayoutError ℕ
unfolding layout_for_storage
allocation_align storage t = do
  l ← layout_for_storage storage 128 t
  ok (large_align storage.large_array (is_array t) l)

unfoldable pub pointer_stride : Ty → Result LayoutError ℕ
unfolding layout_of
pointer_stride t = do
  l ← layout_of t
  if l.size == 0 then err zero_sized_pointer_arithmetic else ok l.size
