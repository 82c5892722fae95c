-- ===== src/Ir/Memory/State.antt =====
-- The data of the memory: pointers and capabilities, fragments, allocations, limits and faults.
use native.Mathlib.Decide.{ℕ_discrete}
use whale.Prelude.{ℕ, Bool, true, false, List, [], ◌+◌, Option, none}
use whale.Ir.{Ty, ConstValue, Ty-discrete}

pub record MemoryLimits : Type 0 where
  pub max_bytes : ℕ
  pub max_allocations : ℕ
  pub max_pointer_fragments : ℕ
  pub max_work : ℕ

pub data MemoryResource : Type 0 where
  bytes_resource allocations_resource fragments_resource work_resource host_resource :
      MemoryResource

pub data MemoryTrap : Type 0 where
  null_pointer missing_provenance expired_allocation out_of_bounds address_overflow
        permission_denied overlapping_copy different_allocation invalid_lifetime_end :
      MemoryTrap
  misaligned : ℕ → ℕ → MemoryTrap
  uninitialized invalid_bool : ℕ → MemoryTrap

-- `panicked` is no value of the source: it stands for a panic, of an index out of range or of a
-- call that the source marks unreachable for verified code.
pub data Fault : Type 0 where
  trap : MemoryTrap → Fault
  limit : MemoryResource → ℕ → Fault
  panicked : Fault

pub record Capability : Type 0 where
  pub arena : ℕ
  pub allocation : ℕ
  pub generation : ℕ
  pub lower : ℕ
  pub upper : ℕ
  pub offset : ℕ
  pub read : Bool
  pub write : Bool

pub record Pointer : Type 0 where
  pub address : ℕ
  pub capability : Option Capability

-- `Pointer::raw`.
abbrev pub raw_pointer : ℕ → Pointer
raw_pointer a = record { address = a; capability = none }

pub data FunctionTarget : Type 0 where
  null_function : FunctionTarget
  defined invalid_bits : ℕ → FunctionTarget

-- The signature is the `Ty.fn_ptr` that it makes.
pub record FunctionPointer : Type 0 where
  pub signature : Ty
  pub target : FunctionTarget

unfoldable pub function_bits : FunctionTarget → ℕ
function_bits null_function = 0
function_bits (defined id) = id + 1
function_bits (invalid_bits b) = b

pub data StoredPointer : Type 0 where
  data_pointer : Pointer → StoredPointer
  function_pointer : FunctionPointer → StoredPointer

unfoldable pub stored_bits : StoredPointer → ℕ
unfolding function_bits
stored_bits (data_pointer p) = p.address
stored_bits (function_pointer f) = function_bits f.target

pub record Fragment : Type 0 where
  pub pointer : StoredPointer
  pub byte : ℕ

unfoldable pub Fragment-discrete : Discrete Fragment
Fragment-discrete = hlevel (ℕ_discrete, Ty-discrete)

pub data AllocationKind : Type 0 where
  stack global : AllocationKind

abbrev pub is_stack : AllocationKind → Bool
is_stack stack = true
is_stack global = false

abbrev pub Fragments : Type 0
Fragments = List (ℕ × Fragment)

pub record Allocation : Type 0 where
  pub kind : AllocationKind
  pub address : ℕ
  pub generation : ℕ
  pub alive : Bool
  pub read : Bool
  pub write : Bool
  pub bytes : List ℕ
  pub initialized : List ℕ
  pub fragments : Fragments

pub data GepStep : Type 0 where
  stride field : ℕ → GepStep

pub record Memory : Type 0 where
  pub arena : ℕ
  pub allocations : List Allocation
  pub limits : MemoryLimits
  pub bytes : ℕ
  pub fragments : ℕ
  pub work : ℕ
  pub next_address : ℕ

-- `Value` of ir/src/interpreter/mod.rs.
pub data Value : Type 0 where
  scalar : ConstValue → Value
  checked : ConstValue → Bool → Value
  pointer : Pointer → Value
  function : FunctionPointer → Value

-- `Memory::new`; the arena number comes from a global counter.
unfoldable pub new_memory : ℕ → MemoryLimits → Memory
new_memory arena limits = record {
  arena = arena;
  allocations = [];
  limits = limits;
  bytes = 0;
  fragments = 0;
  work = 0;
  next_address = 0x1000;
}
