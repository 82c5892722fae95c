-- ===== src/Ir/Memory/Allocate.antt =====
-- Allocation and lifetime: `charge`, `allocate`, `allocate_global`, `seal_global`, `retire_stack`,
-- `retire_allocation` and `retire_from`.
use Prim.Native.Nat.{bit_and}
use whale.Prelude.{
  ℕ, zero, suc, ◌+◌, ◌-◌, max, Bool, true, false, not, ◌||◌, [], ◌∷◌, ◌++◌, length, set, replicate,
  Option, none, some, ok, err, ltb, leb, ◌==◌, if◌then◌else◌,
}
use whale.Prelude.Words.{checked_add, checked_mul}
use whale.Ir.Memory.State.{
  bytes_resource, allocations_resource, work_resource, host_resource, address_overflow,
  invalid_lifetime_end, trap, limit, panicked, Pointer, stack, global, is_stack, Allocation, Memory,
}
use whale.Ir.Memory.Monad.{
  Host, M, pure, ◌>>=◌, ◌>>◌, reads, fault_if, or_fault, allocation_at, put_allocation,
}
use whale.Ir.Memory.Access.{identity}

-- `x.checked_add(n).filter(|n| *n <= limit)`.
abbrev pub add_within : ℕ → ℕ → ℕ → Option ℕ
add_within x n most = elim (checked_add x n) [
  | none ↦ none
  | some s ↦ if leb s most then some s else none
]

unfoldable pub charge : ℕ → M (Unit {0})
charge n m = elim (add_within m.work n m.limits.max_work) [
  | none ↦ (err (limit work_resource m.limits.max_work), m)
  | some w ↦ (ok tt, record m { work = w })
]

abbrev then_add : Option ℕ → ℕ → Option ℕ
then_add none n = none
then_add (some x) n = checked_add x n

-- `a & !(alignment - 1)` clears the low bits.
abbrev pub round_down : ℕ → ℕ → ℕ
round_down a alignment = a - bit_and a (alignment - 1)

abbrev round_down? : Option ℕ → ℕ → Option ℕ
round_down? none alignment = none
round_down? (some a) alignment = some (round_down a alignment)

abbrev pub fresh_allocation : ℕ → ℕ → Allocation
fresh_allocation address size = record {
  kind = stack;
  address = address;
  generation = 0;
  alive = true;
  read = true;
  write = true;
  bytes = replicate size 0;
  initialized = replicate size 0;
  fragments = [];
}

abbrev pub fresh_pointer : Memory → ℕ → ℕ → Pointer
fresh_pointer m address size = record {
  address = address;
  capability = some (record {
    arena = m.arena;
    allocation = length m.allocations;
    generation = 0;
    lower = 0;
    upper = size;
    offset = 0;
    read = true;
    write = true;
  });
}

-- The end of `allocate`: the new allocation and the counters.
unfoldable pub push_allocation : ℕ → ℕ → ℕ → ℕ → M Pointer
push_allocation size bytes address next_address m = (
  ok (fresh_pointer m address size),
  record m {
    allocations = m.allocations ++ fresh_allocation address size ∷ [];
    bytes = bytes;
    next_address = next_address;
  },
)

unfoldable pub allocate : Host → ℕ → ℕ → ℕ → M Pointer
allocate host size natural align m =
    (do
      fault_if (leb m.limits.max_allocations (length m.allocations))
          (limit allocations_resource m.limits.max_allocations)
      bytes ←
          or_fault (add_within m.bytes size m.limits.max_bytes)
            (limit bytes_resource m.limits.max_bytes)
      let alignment = max align natural
      address ←
          or_fault (round_down? (checked_add m.next_address (alignment - 1)) alignment)
            (trap address_overflow)
      next_address ←
          or_fault (then_add (checked_add address (max size 1)) 1) (trap address_overflow)
      cost ← or_fault (then_add (checked_mul size 2) 1) (trap address_overflow)
      charge cost
      fault_if (not (host.can_reserve size)) (limit host_resource size)
      fault_if (not (host.can_reserve 1)) (limit host_resource size)
      push_allocation size bytes address next_address)
      m

-- An index that `identity` or `allocate` returned.
abbrev pub index_of : Pointer → Option ℕ
index_of p = elim p.capability [ none ↦ none | some c ↦ some c.allocation ]

unfoldable pub allocate_global : Host → ℕ → ℕ → ℕ → M Pointer
allocate_global host size natural align = do
  p ← allocate host size natural align
  id ← or_fault (index_of p) panicked
  a ← allocation_at id
  put_allocation id (record a { kind = global })
  pure p

unfoldable pub seal_global : Pointer → Bool → M Pointer
seal_global p readonly = do
  (id, cap) ← reads (λ m. identity m p)
  a ← allocation_at id
  fault_if (is_stack a.kind) (trap invalid_lifetime_end)
  put_allocation id (record a { write = not readonly })
  pure (record p { capability = some (record cap { write = not readonly }) })

abbrev pub retired : Allocation → Allocation
retired a = record a { alive = false; fragments = []; bytes = []; initialized = [] }

-- The body of `if allocation.alive`.
unfoldable pub retire_live : ℕ → Allocation → M (Unit {0})
retire_live id a m = (
  ok tt,
  record m {
    fragments = m.fragments - length a.fragments;
    allocations = set m.allocations id (retired a);
  },
)

unfoldable pub retire_allocation : ℕ → M (Unit {0})
retire_allocation id = do a ← allocation_at id; if a.alive then retire_live id a else pure tt

unfoldable pub retire_stack : Pointer → ℕ → M (Unit {0})
retire_stack p owner_start = do
  (id, cap) ← reads (λ m. identity m p)
  a ← allocation_at id
  fault_if
      (ltb id owner_start
        || not (is_stack a.kind)
        || not (cap.offset == 0)
        || not (cap.lower == 0)
        || not (cap.upper == length a.bytes))
      (trap invalid_lifetime_end)
  charge (1 + length a.fragments)
  retire_allocation id

-- The loop of `retire_from` over the next `n` allocations.
unfoldable pub retire_each : ℕ → ℕ → M (Unit {0})
retire_each zero id = pure tt
retire_each (suc n) id = do
  a ← allocation_at id
  if is_stack a.kind then retire_allocation id else pure tt
  retire_each n (suc id)

-- `len() - start` panics where it would be negative.
unfoldable pub retire_from : ℕ → M (Unit {0})
retire_from start = do
  n ← reads (λ m. ok (length m.allocations))
  fault_if (ltb n start) panicked
  charge (n - start)
  retire_each (n - start) start
