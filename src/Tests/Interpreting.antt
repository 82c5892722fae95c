-- ===== src/Tests/Interpreting.antt =====
-- Layouts, integers and one small memory.
use whale.Prelude.{
  ℕ, ◌≡◌, ◌≢◌, ◌<◌, ◌≤◌, ◌^◌, ◌%◌, refl, List, [], ◌∷◌, Bool, true, false, some, none, Result, ok,
  err, arith, get_elem?,
}
use whale.Prelude.Int.{pos, negsuc}
use whale.Target.{amd64_storage, validate_storage}
use whale.Ir.{Ty, Tys, ConstValue, int, uint}
use whale.Ir.Layout.{TypeLayout, layout_for_storage}
use whale.Ir.Layout.Natural.{IsNatural, FieldsAt}
use whale.Ir.Layout.Correct.{layout-IsNatural, layout-fields}
use whale.Ir.Integer.{
  pack, raw, bin, BinOp, checked_value, CheckedOp, smul, cast_pattern, shape, valid_constant,
}
use whale.Ir.Integer.Width.{w8, w16, raw-pack, pack-valid, bin_wraps}
use whale.Ir.Integer.Exact.{IsExact, checked_value-IsExact}
use whale.Ir.Integer.Cast.{Casts, cast_pattern-Casts}
use whale.Ir.Memory.State.{trap, permission_denied, Memory, stack, Pointer, Value}
use whale.Ir.Memory.Monad.{Host}
use whale.Ir.Memory.Access.{access}
use whale.Ir.Memory.Safe.{Grants, access-Grants}
use whale.Ir.Memory.Keeps.{Charged}
use whale.Ir.Memory.Atomic.{Write, perform, store_at, perform-Charged}

abbrev pair : Tys
pair = Tys.cons Ty.u8 (Tys.cons Ty.u32 Tys.nil)

abbrev pair_layout : TypeLayout
pair_layout = record { size = 8; align = 4; field_offsets = 0 ∷ 4 ∷ []; element_stride = none }

pair_lays_out : layout_for_storage amd64_storage 8 (Ty.struct pair) ≡ ok pair_layout
unfolding layout_for_storage validate_storage whale.Prelude.Words.is_power_of_two
    whale.Ir.Layout.layout_storage whale.Ir.Layout.bounded whale.Ir.Layout.add_field
    whale.Ir.Layout.align_up whale.Prelude.Words.wrapping_neg whale.Ir.Layout.close_fields
pair_lays_out = refl

layout-IsNatural_example : IsNatural pair_layout
layout-IsNatural_example =
    layout-IsNatural amd64_storage 8 (Ty.struct pair) pair_layout pair_lays_out

storage_validates : validate_storage amd64_storage ≡ ok tt
unfolding validate_storage whale.Prelude.Words.is_power_of_two
storage_validates = refl

pair_stores : whale.Ir.Layout.layout_storage amd64_storage 8 (Ty.struct pair) ≡ ok pair_layout
unfolding whale.Ir.Layout.layout_storage whale.Ir.Layout.bounded whale.Ir.Layout.add_field
    whale.Ir.Layout.align_up whale.Prelude.Words.wrapping_neg whale.Ir.Layout.close_fields
pair_stores = refl

layout-fields_example : (j : ℕ) × FieldsAt amd64_storage 7 0 pair (0 ∷ 4 ∷ []) j × (j ≤ 8)
layout-fields_example = layout-fields amd64_storage 7 pair pair_layout storage_validates pair_stores

byte_shape : shape Ty.i8 ≡ some (8, true)
unfolding shape
byte_shape = refl

byte_packs : pack Ty.i8 456 ≡ ok (int (negsuc 55))
unfolding pack shape whale.Ir.Integer.pack_shape
byte_packs = refl

raw-pack_example : (c : ConstValue) × (pack Ty.i8 456 ≡ ok c) × (raw c 8 ≡ ok (456 % 2 ^ 8))
raw-pack_example = raw-pack Ty.i8 456 byte_shape

pack-valid_example : valid_constant Ty.i8 (int (negsuc 55)) ≡ true
pack-valid_example = pack-valid Ty.i8 456 byte_packs

left_raw : raw (int (pos 100)) 8 ≡ ok 100
unfolding raw
left_raw = refl

bin_wraps_example :
    (c : ConstValue) × (bin BinOp.add Ty.i8 (int (pos 100)) (int (pos 100)) ≡ ok c)
    × (raw c 8 ≡ ok (200 % 2 ^ 8))
bin_wraps_example =
    bin_wraps BinOp.add Ty.i8 (int (pos 100)) (int (pos 100)) 100 100 byte_shape refl left_raw
      left_raw

checked_value-IsExact_example : IsExact smul 8 251 12
checked_value-IsExact_example = checked_value-IsExact smul w8 251 12 (omega arith) (omega arith)

cast_pattern-Casts_example :
    Casts (16, true) (8, false) 65535 (cast_pattern (16, true) (8, false) 65535)
cast_pattern-Casts_example = cast_pattern-Casts w16 w8 true false 65535 (omega arith)

-- Eight bytes at 4096 that may be read and not written.
abbrev constant_memory : Memory
constant_memory = record {
  arena = 1;
  allocations =
      record {
        kind = stack;
        address = 4096;
        generation = 0;
        alive = true;
        read = true;
        write = false;
        bytes = 0 ∷ 0 ∷ 0 ∷ 0 ∷ 0 ∷ 0 ∷ 0 ∷ 0 ∷ [];
        initialized = 1 ∷ 1 ∷ 1 ∷ 1 ∷ 1 ∷ 1 ∷ 1 ∷ 1 ∷ [];
        fragments = [];
      }
      ∷ [];
  limits = record {
    max_bytes = 100;
    max_allocations = 4;
    max_pointer_fragments = 8;
    max_work = 1000;
  };
  bytes = 8;
  fragments = 0;
  work = 17;
  next_address = 4105;
}

abbrev second_word : Pointer
second_word = record {
  address = 4100;
  capability = some (record {
    arena = 1;
    allocation = 0;
    generation = 0;
    lower = 0;
    upper = 8;
    offset = 4;
    read = true;
    write = true;
  });
}

word_reads : access constant_memory second_word 4 4 false ≡ ok (0, 4, 8)
unfolding access whale.Ir.Memory.Access.identity whale.Ir.Memory.Access.equals_some
    whale.Prelude.Words.checked_add
word_reads = refl

access-Grants_example : Grants constant_memory second_word 4 4 false 0 4 8
access-Grants_example = access-Grants constant_memory second_word 4 4 false 0 4 8 word_reads

abbrev roomy : Host
roomy = record { can_reserve = λ n. true; capacity = λ fs. 0 }

abbrev word_write : Write
word_write = store_at second_word Ty.u32 (Value.scalar (uint 7)) 4

word_denied : (perform roomy word_write constant_memory).0 ≡ err (trap permission_denied)
unfolding whale.Ir.Memory.Typed.store whale.Ir.Layout.layout_of_with_limit
    whale.Prelude.Words.is_power_of_two whale.Ir.Layout.layout_storage whale.Ir.Layout.bounded
    access whale.Ir.Memory.Access.identity whale.Ir.Memory.Access.equals_some
    whale.Prelude.Words.checked_add
word_denied = refl

perform-Charged_example : Charged constant_memory (perform roomy word_write constant_memory).1
perform-Charged_example =
    perform-Charged roomy word_write constant_memory (trap permission_denied) word_denied
