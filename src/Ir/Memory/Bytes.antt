-- ===== src/Ir/Memory/Bytes.antt =====
-- Writing and copying bytes: `replace_fragments`, `uninit`, `copy` and `set`.
use whale.Prelude.{
  ℕ, ◌+◌, ◌-◌, ◌*◌, min, Bool, true, false, not, ◌&&◌, List, [], ◌∷◌, ◌++◌, length, take, drop,
  replicate, Option, none, some, ok, ltb, leb, ◌==◌, if◌then◌else◌, map,
}
use whale.Prelude.Words.{checked_add, checked_mul}
use whale.Ir.Memory.State.{
  fragments_resource, host_resource, address_overflow, overlapping_copy, trap, limit, Pointer,
  Fragment, Fragments, Allocation,
}
use whale.Ir.Memory.Monad.{
  Host, M, pure, ◌>>=◌, ◌>>◌, reads, modify, fault_if, or_fault, allocation_at, put_allocation,
}
use whale.Ir.Memory.Access.{access}
use whale.Ir.Memory.Allocate.{charge}

-- `xs[start..end]` and the assignment of a slice.
abbrev pub slice {ℓ} : {A : Type ℓ} → ℕ → ℕ → List A → List A
slice start end xs = take (end - start) (drop start xs)

abbrev pub splice {ℓ} : {A : Type ℓ} → ℕ → ℕ → List A → List A → List A
splice start end new xs = take start xs ++ (new ++ drop end xs)

abbrev pub inside : ℕ → ℕ → ℕ → Bool
inside start end i = leb start i && ltb i end

-- The entries of a fragment map with a key in a range, or outside it.
abbrev pub keys_inside : ℕ → ℕ → Fragments → Fragments
keys_inside start end [] = []
keys_inside start end ((i, f) ∷ fs) =
    let rest = keys_inside start end fs in if inside start end i then (i, f) ∷ rest else rest

abbrev pub keys_outside : ℕ → ℕ → Fragments → Fragments
keys_outside start end [] = []
keys_outside start end ((i, f) ∷ fs) =
    let rest = keys_outside start end fs in if inside start end i then rest else (i, f) ∷ rest

-- The first half of `replace_fragments`: the charge and the budget.
unfoldable pub admit_fragments : Host → ℕ → ℕ → ℕ → Fragments → M Allocation
admit_fragments host id start end new = do
  a ← allocation_at id
  charge (3 * host.capacity a.fragments + length new)
  count ← reads (λ m. ok (m.fragments - length (keys_inside start end a.fragments) + length new))
  most ← reads (λ m. ok m.limits.max_pointer_fragments)
  fault_if (ltb most count) (limit fragments_resource most)
  fault_if (not (host.can_reserve (length new))) (limit host_resource (length new))
  pure a

-- The second half. The new keys lie in the range that was cleared, so extending the map is adding
-- entries to it.
unfoldable pub install_fragments : ℕ → ℕ → ℕ → Fragments → Allocation → M (Unit {0})
install_fragments id start end new a = do
  put_allocation id (record a { fragments = keys_outside start end a.fragments ++ new })
  modify (λ m. record m {
    fragments = m.fragments - length (keys_inside start end a.fragments) + length new;
  })

unfoldable pub replace_fragments : Host → ℕ → ℕ → ℕ → Fragments → M (Unit {0})
replace_fragments host id start end new = do
  a ← admit_fragments host id start end new
  install_fragments id start end new a

-- The byte writes behind `replace_fragments`, over a span that `access` returned, inside the bytes of
-- the allocation. An allocation keeps a flag for each byte, so both slices stand in range.
unfoldable pub write_bytes : ℕ → ℕ → ℕ → List ℕ → List ℕ → M (Unit {0})
write_bytes id start end bytes initialized = do
  a ← allocation_at id
  put_allocation id (record a {
    bytes = splice start end bytes a.bytes;
    initialized = splice start end initialized a.initialized;
  })

-- `uninit` keeps the physical bytes.
unfoldable pub clear_initialized : ℕ → ℕ → ℕ → M (Unit {0})
clear_initialized id start end = do
  a ← allocation_at id
  put_allocation id
      (record a { initialized = splice start end (replicate (end - start) 0) a.initialized })

unfoldable pub uninit : Host → Pointer → ℕ → ℕ → M (Unit {0})
uninit host p size align = do
  (id, start, end) ← reads (λ m. access m p size align true)
  charge (end - start)
  replace_fragments host id start end []
  clear_initialized id start end

abbrev pub overlap : ℕ → ℕ → ℕ → ℕ → ℕ → ℕ → Bool
overlap source destination ss se ds de = source == destination && ltb ss de && ltb ds se

abbrev pub then_add : Option ℕ → ℕ → Option ℕ
then_add none n = none
then_add (some x) n = checked_add x n

-- The copied tags, moved to the destination.
abbrev pub moved : ℕ → ℕ → ℕ × Fragment → ℕ × Fragment
moved ss ds (i, f) = (ds + (i - ss), f)

-- The end of `copy`: the bytes, the flags and the tags of the allocation `s` over the span `from`,
-- installed over the span `to`.
unfoldable pub copy_install : Host → ℕ × ℕ → ℕ × ℕ × ℕ → Allocation → M (Unit {0})
copy_install host (ss, se) (destination, ds, de) s = do
  replace_fragments host destination ds de (map (moved ss ds) (keys_inside ss se s.fragments))
  write_bytes destination ds de (slice ss se s.bytes) (slice ss se s.initialized)

-- The charge of `copy` and its two reservations, before the end.
unfoldable pub copy_charged : Host → ℕ → ℕ × ℕ → ℕ × ℕ × ℕ → Allocation → M (Unit {0})
copy_charged host size (ss, se) to s = do
  cost ←
      or_fault (then_add (checked_mul size 4) (host.capacity s.fragments)) (trap address_overflow)
  charge cost
  let count = min (length s.fragments) (se - ss)
  fault_if (not (host.can_reserve (se - ss))) (limit host_resource size)
  fault_if (not (host.can_reserve count)) (limit host_resource count)
  copy_install host (ss, se) to s

unfoldable pub copy_some : Host → Pointer → Pointer → ℕ → ℕ → M (Unit {0})
copy_some host dst src size align = do
  (source, ss, se) ← reads (λ m. access m src size align false)
  (destination, ds, de) ← reads (λ m. access m dst size align true)
  fault_if (overlap source destination ss se ds de) (trap overlapping_copy)
  s ← allocation_at source
  copy_charged host size (ss, se) (destination, ds, de) s

-- No access occurs for an empty copy.
unfoldable pub copy : Host → Pointer → Pointer → ℕ → ℕ → M (Unit {0})
copy host dst src size align = if size == 0 then pure tt else copy_some host dst src size align

unfoldable pub set_some : Host → Pointer → ℕ → ℕ → ℕ → M (Unit {0})
set_some host dst byte size align = do
  (id, start, end) ← reads (λ m. access m dst size align true)
  cost ← or_fault (checked_mul size 2) (trap address_overflow)
  charge cost
  replace_fragments host id start end []
  write_bytes id start end (replicate (end - start) byte) (replicate (end - start) 1)

unfoldable pub set_bytes : Host → Pointer → ℕ → ℕ → ℕ → M (Unit {0})
set_bytes host dst byte size align =
    if size == 0 then pure tt else set_some host dst byte size align
