-- ===== src/Ir.antt =====
-- ir/src: the types and constants of the intermediate representation, storage layout, and the
-- interpreter's integers and memory.
pub mod Layout
pub mod Integer
pub mod Memory
use native.Mathlib.Decide.{ℕ_discrete}
use whale.Prelude.{ℕ, Bool}
use whale.Prelude.Int.{ℤ}

pub data CallingConvention : Type 0 where
  whale_call sysv64 : CallingConvention

-- `Type` of ir/src/types.rs. A `FunctionSignature` stands as the fields of `fn_ptr`: parameters,
-- result, convention and whether it is variadic.
mutual
  pub data Ty : Type 0 where
    void bool i1 u1 i8 i16 i32 i64 i128 u8 u16 u32 u64 u128 f16 f32 f64 : Ty
    ptr : Ty → Ty
    fn_ptr : Tys → Ty → CallingConvention → Bool → Ty
    array : Ty → ℕ → Ty
    struct tuple : Tys → Ty

  pub data Tys : Type 0 where
    nil : Tys
    cons : Ty → Tys → Tys

pub data FloatBits : Type 0 where
  bits16 bits32 bits64 : ℕ → FloatBits

pub data ConstValue : Type 0 where
  boolean : Bool → ConstValue
  int : ℤ → ConstValue
  uint : ℕ → ConstValue
  float : FloatBits → ConstValue

unfoldable pub Ty-discrete : Discrete Ty
Ty-discrete = hlevel ℕ_discrete
