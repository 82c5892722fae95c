-- ===== src/Ir/Memory/Encoding.antt =====
-- The bytes of typed values: `load_scalar` and `encode`, with the storage patterns of scalars
-- (ir/src/interpreter/scalar.rs).
use whale.Prelude.{
  ℕ, zero, suc, ◌+◌, ◌%◌, ◌^◌, Bool, true, false, not, ◌&&◌, List, [], ◌∷◌, ◌++◌, ◌>>=◌, ◌>>◌,
  or_fail, take, get_elem?, set, Option, none, some, Result, ok, err, ◌==◌, ltb, if◌then◌else◌,
}
use whale.Prelude.Bytes.{to_le_bytes, from_le_bytes}
use whale.Ir.{Ty, Tys, ConstValue, FloatBits, bits16, bits32, bits64, Ty-discrete}
use whale.Ir.Layout.{TypeLayout, layout_of_with_limit, max_ir_nesting}
use whale.Ir.Integer
use whale.Ir.Integer.{TrapReason, width_or_one, shape}
use whale.Ir.Memory.State.{
  uninitialized, invalid_bool, Fault, trap, panicked, Pointer, raw_pointer, null_function,
  invalid_bits, function_bits, FunctionPointer, StoredPointer, data_pointer, function_pointer,
  stored_bits, Fragment, Fragment-discrete, Fragments, Allocation, Memory, Value,
}
use whale.Ir.Memory.Bytes.{slice}

-- A result of the scalar functions, where anything but a value is a panic.
abbrev pub expect : {A : Type 0} {E : Type 0} → Result E A → Result Fault A
expect (ok a) = ok a
expect (err e) = err panicked

-- `layout(ty).expect(...)`.
abbrev pub layout : Ty → Result Fault TypeLayout
layout t = expect (layout_of_with_limit max_ir_nesting t)

abbrev pub float_bits : FloatBits → ℕ
float_bits (bits16 b) = b
float_bits (bits32 b) = b
float_bits (bits64 b) = b

-- `scalar::raw` and `scalar::pack`.
unfoldable pub scalar_raw : Ty → ConstValue → Result Fault ℕ
scalar_raw t (ConstValue.float f) = ok (float_bits f)
scalar_raw t (ConstValue.int v) = expect (Integer.raw (ConstValue.int v) (width_or_one (shape t)))
scalar_raw t (ConstValue.uint v) = expect (Integer.raw (ConstValue.uint v) (width_or_one (shape t)))
scalar_raw t (ConstValue.boolean b) =
    expect (Integer.raw (ConstValue.boolean b) (width_or_one (shape t)))

unfoldable pub scalar_pack : Ty → ℕ → Result Fault ConstValue
scalar_pack Ty.f16 bits = ok (ConstValue.float (bits16 (bits % 2 ^ 16)))
scalar_pack Ty.f32 bits = ok (ConstValue.float (bits32 (bits % 2 ^ 32)))
scalar_pack Ty.f64 bits = ok (ConstValue.float (bits64 (bits % 2 ^ 64)))
scalar_pack t bits = expect (Integer.pack t bits)

-- The loop over `start..start + n` that refuses the first uninitialized byte.
unfoldable pub check_initialized : List ℕ → ℕ → ℕ → Result Fault (Unit {0})
check_initialized flags start zero = ok tt
check_initialized flags start (suc n) =
    let rest = check_initialized flags (suc start) n in
    elim (get_elem? flags start) [
      | none ↦ err panicked
      | some flag ↦ if flag == 0 then err (trap (uninitialized start)) else rest
    ]

-- `fragments.get(&i)`.
unfoldable pub fragment_at : ℕ → Fragments → Option Fragment
fragment_at i [] = none
fragment_at i ((j, f) ∷ fs) = if i == j then some f else fragment_at i fs

abbrev pub is_fragment : Option Fragment → Fragment → Bool
is_fragment none f = false
is_fragment (some g) f = elim (Fragment-discrete g f) [ yes p ↦ true | no p ↦ false ]

-- `(0..8).all(...)`, for the `n` bytes from `i` on.
unfoldable pub continues : Fragments → StoredPointer → ℕ → ℕ → ℕ → Bool
continues fs p start i zero = true
continues fs p start i (suc n) =
    is_fragment (fragment_at (start + i) fs) (record { pointer = p; byte = i })
    && continues fs p start (suc i) n

-- The pointer whose eight fragments stand whole and in order at `start`.
unfoldable pub complete : Fragments → ℕ → ℕ → Option StoredPointer
complete fs start address = elim (fragment_at start fs) [
  | none ↦ none
  | some f ↦
      if f.byte == 0 && stored_bits f.pointer == address && continues fs f.pointer start 0 8
      then some f.pointer
      else none
]

unfoldable pub restore_pointer : ℕ → Option StoredPointer → Pointer
restore_pointer address (some (data_pointer p)) = if address == 0 then raw_pointer 0 else p
restore_pointer address _ = raw_pointer address

abbrev same_signature : Ty → Ty → Bool
same_signature a b = elim (Ty-discrete a b) [ yes p ↦ true | no p ↦ false ]

abbrev invalid_function : Ty → ℕ → FunctionPointer
invalid_function signature address = record {
  signature = signature;
  target = if address == 0 then null_function else invalid_bits address;
}

unfoldable pub restore_function : Ty → ℕ → Option StoredPointer → FunctionPointer
restore_function signature address (some (function_pointer f)) =
    if not (address == 0) && same_signature f.signature signature
    then f
    else invalid_function signature address
restore_function signature address _ = invalid_function signature address

abbrev signature_or : Option Ty → Ty → Ty
signature_or none t = t
signature_or (some s) t = s

abbrev boolean_byte : List ℕ → Result Fault Value
boolean_byte [] = err panicked
boolean_byte (b ∷ bs) =
    if b == 0
    then ok (Value.scalar (ConstValue.boolean false))
    else (if b == 1
        then ok (Value.scalar (ConstValue.boolean true))
        else err (trap (invalid_bool b)))

-- The value of initialized bytes, by type.
unfoldable pub decode : Allocation → ℕ → Ty → Option Ty → List ℕ → Result Fault Value
decode a start Ty.bool signature bytes = boolean_byte bytes
decode a start (Ty.ptr t) signature bytes =
    let address = from_le_bytes bytes in
    ok (Value.pointer (restore_pointer address (complete a.fragments start address)))
decode a start (Ty.fn_ptr ps r c v) signature bytes =
    let address = from_le_bytes bytes in
    ok (
      Value.function (
        restore_function (signature_or signature (Ty.fn_ptr ps r c v)) address
          (complete a.fragments start address)))
decode a start t signature bytes = scalar_pack t (from_le_bytes bytes) >>= λ c. ok (Value.scalar c)

unfoldable pub load_scalar : Memory → ℕ → ℕ → Ty → Option Ty → Result Fault Value
load_scalar m id start t signature = do
  a ← or_fail (get_elem? m.allocations id) panicked
  l ← layout t
  check_initialized a.initialized start l.size
  decode a start t signature (slice start (start + l.size) a.bytes)

-- The eight fragments of a stored pointer, from byte `i` on.
unfoldable pub fragments_of : StoredPointer → ℕ → ℕ → ℕ → Fragments
fragments_of p start i zero = []
fragments_of p start i (suc n) =
    (start + i, record { pointer = p; byte = i }) ∷ fragments_of p start (suc i) n

-- `enumerate().map(|(i, b)| (start + i, *b))`.
unfoldable pub numbered : ℕ → List ℕ → List (ℕ × ℕ)
numbered start [] = []
numbered start (b ∷ bs) = (start, b) ∷ numbered (suc start) bs

-- `data[..n]` of the 16 bytes of a pattern.
abbrev data_bytes : ℕ → ℕ → Result Fault (List ℕ)
data_bytes n pattern_bits =
    if ltb 16 n then err panicked else ok (take n (to_le_bytes 16 pattern_bits))

-- `encode`: the bytes to write and the fragments to install.
unfoldable pub encode : Ty → Value → ℕ → Result Fault (List (ℕ × ℕ) × Fragments)
encode t (Value.pointer p) start = do
  l ← layout t
  bytes ← data_bytes l.size p.address
  ok (numbered start bytes, fragments_of (data_pointer p) start 0 8)
encode t (Value.function f) start = do
  l ← layout t
  bytes ← data_bytes l.size (function_bits f.target)
  ok (numbered start bytes, fragments_of (function_pointer f) start 0 8)
encode t (Value.scalar c) start = do
  l ← layout t
  pattern_bits ← scalar_raw t c
  bytes ← data_bytes l.size pattern_bits
  ok (numbered start bytes, [])
encode t (Value.checked c b) start = err panicked

-- `v[i]`, where an index out of range panics.
abbrev pub index {ℓ} : {A : Type ℓ} → List A → ℕ → Result Fault A
index xs i = or_fail (get_elem? xs i) panicked

abbrev pub field_types : Tys → List Ty
field_types Tys.nil = []
field_types (Tys.cons t ts) = t ∷ field_types ts

abbrev pub scalar_of : Value → Result Fault ConstValue
scalar_of (Value.scalar c) = ok c
scalar_of _ = err panicked

abbrev pub boolean_of : Value → Result Fault Bool
boolean_of (Value.scalar (ConstValue.boolean b)) = ok b
boolean_of _ = err panicked

-- A checked result: the value and its flag, at the two offsets of the tuple.
unfoldable pub load_checked : Memory → ℕ → ℕ → Tys → List ℕ → Result Fault Value
load_checked m id start fields offsets = do
  o₀ ← index offsets 0
  o₁ ← index offsets 1
  t₀ ← index (field_types fields) 0
  t₁ ← index (field_types fields) 1
  a ← load_scalar m id (start + o₀) t₀ none
  b ← load_scalar m id (start + o₁) t₁ none
  c ← scalar_of a
  flag ← boolean_of b
  ok (Value.checked c flag)

unfoldable pub load_value : Memory → ℕ → ℕ → Ty → Option Ty → Result Fault Value
load_value m id start (Ty.tuple fields) signature = do
  l ← layout (Ty.tuple fields)
  load_checked m id start fields l.field_offsets
load_value m id start t signature = load_scalar m id start t signature

unfoldable pub encode_checked :
    Tys → List ℕ → ConstValue → Bool → ℕ → Result Fault (List (ℕ × ℕ) × Fragments)
encode_checked fields offsets c flag start = do
  o₀ ← index offsets 0
  o₁ ← index offsets 1
  t₀ ← index (field_types fields) 0
  t₁ ← index (field_types fields) 1
  a ← encode t₀ (Value.scalar c) (start + o₀)
  b ← encode t₁ (Value.scalar (ConstValue.boolean flag)) (start + o₁)
  ok (a.0 ++ b.0, a.1 ++ b.1)

-- The choice of `store`.
unfoldable pub encode_value : Ty → Value → ℕ → Result Fault (List (ℕ × ℕ) × Fragments)
encode_value (Ty.tuple fields) (Value.checked c flag) start = do
  l ← layout (Ty.tuple fields)
  encode_checked fields l.field_offsets c flag start
encode_value t v start = encode t v start

-- `for (at, byte) in bytes`. The indices lie in the span that `access` returned, inside the bytes of
-- the allocation; the flags are as many as the bytes in every allocation that is made.
unfoldable pub write_each : List (ℕ × ℕ) → Allocation → Allocation
write_each [] a = a
write_each ((i, b) ∷ bs) a =
    write_each bs (record a { bytes = set a.bytes i b; initialized = set a.initialized i 1 })
