-- ===== src/Ir/Memory/Safe.antt =====
-- What a granted access means.
use whale.Prelude.{
  ℕ, ◌+◌, ◌%◌, ◌≤◌, ◌≡◌, refl, Bool, true, length, get_elem?, some, ok, arith, Option-cases,
  Result-cases, inl, inr,
}
use whale.Prelude.Words.{checked_add, checked_add-some, IsU64}
use whale.Ir.Memory.State.{Capability, Pointer, Allocation, Memory}
use whale.Ir.Memory.Access.{equals_some, identity, permitted, access}

-- The pointer names a live allocation of this memory, at an offset inside its own range and inside
-- the allocation's bytes.
pub record Identifies (m : Memory) (p : Pointer) (id : ℕ) (cap : Capability) (a : Allocation)
    : Type 0 where
  pub nonnull : ¬ (p.address ≡ 0)
  pub holds : p.capability ≡ some cap
  pub names : cap.allocation ≡ id
  pub same_arena : cap.arena ≡ m.arena
  pub found : get_elem? m.allocations id ≡ some a
  pub alive : a.alive ≡ true
  pub same_generation : a.generation ≡ cap.generation
  pub above : cap.lower ≤ cap.offset
  pub below : cap.offset ≤ cap.upper
  pub within : cap.upper ≤ length a.bytes
  pub address : p.address ≡ a.address + cap.offset
  pub fits : IsU64 p.address

equals_some-sum : (a b c : ℕ) → equals_some (checked_add a b) c ≡ true → (c ≡ a + b) × IsU64 c
unfolding equals_some checked_add
equals_some-sum a b c h = ground arith

identity_finish :
    (m : Memory) (p : Pointer) (id : ℕ) (cap c : Capability) (a : Allocation)
    → p.capability ≡ some c
    → get_elem? m.allocations c.allocation ≡ some a
    → identity m p ≡ ok (id, cap)
    → Identifies m p id cap a
unfolding identity
identity_finish m p id cap c a hc ha h =
    let same : c ≡ cap = ground arith in
    let place : c.allocation ≡ id = ground arith in
    let sum = equals_some-sum a.address c.offset p.address (ground arith) in
    rw (← same, ← place)
      (record {
        nonnull = ground arith;
        holds = hc;
        names = refl;
        same_arena = ground arith;
        found = ha;
        alive = ground arith;
        same_generation = ground arith;
        above = ground arith;
        below = ground arith;
        within = ground arith;
        address = sum.0;
        fits = sum.1;
      })

pub identity-Identifies :
    (m : Memory) (p : Pointer) (id : ℕ) (cap : Capability)
    → identity m p ≡ ok (id, cap)
    → (a : Allocation) × Identifies m p id cap a
unfolding identity
identity-Identifies m p id cap h = elim (Option-cases p.capability) [
  | inl bad ↦ absurd (ground arith)
  | inr (c, hc) ↦ elim (Option-cases (get_elem? m.allocations c.allocation)) [
    | inl bad ↦ absurd (ground arith)
    | inr (a, ha) ↦ (a, identity_finish m p id cap c a hc ha h)
  ]
]

-- A granted access of `n` bytes: `start` and `end` in allocation `id`.
pub record Grants (m : Memory) (p : Pointer) (n align : ℕ) (write : Bool) (id start end : ℕ)
    : Type 0 where
  pub cap : Capability
  pub allocation : Allocation
  pub identifies : Identifies m p id cap allocation
  pub starts : start ≡ cap.offset
  pub ends : end ≡ start + n
  pub in_capability : end ≤ cap.upper
  pub in_bytes : end ≤ length allocation.bytes
  pub allowed : permitted write cap allocation ≡ true
  pub aligned : p.address % align ≡ 0

access_finish :
    (m : Memory) (p : Pointer) (n align : ℕ) (write : Bool) (id start end i e : ℕ)
    (cap : Capability) (a : Allocation)
    → identity m p ≡ ok (i, cap)
    → Identifies m p i cap a
    → checked_add cap.offset n ≡ some e
    → access m p n align write ≡ ok (id, start, end)
    → Grants m p n align write id start end
unfolding access
access_finish m p n align write id start end i e cap a hi who he h =
    let sum = checked_add-some cap.offset n he in
    let found = who.found in
    let place : i ≡ id = ground arith in
    let first : cap.offset ≡ start = ground arith in
    let last : e ≡ end = ground arith in
    rw (← place, ← first, ← last)
      (record {
        cap = cap;
        allocation = a;
        identifies = who;
        starts = refl;
        ends = sum.0;
        in_capability = ground arith;
        in_bytes = ground (arith, who.within);
        allowed = ground arith;
        aligned = ground arith;
      })

-- An access is granted only through a pointer that names a live allocation of this memory, with
-- the permission that the capability and the allocation both give, at an aligned address, and for a
-- range of the requested length that lies inside the capability and inside the allocation's bytes.
pub access-Grants :
    (m : Memory) (p : Pointer) (n align : ℕ) (write : Bool) (id start end : ℕ)
    → access m p n align write ≡ ok (id, start, end)
    → Grants m p n align write id start end
unfolding access
access-Grants m p n align write id start end h = elim (Result-cases (identity m p)) [
  | inl (x, bad) ↦ absurd (ground arith)
  | inr ((i, cap), hi) ↦ elim (Option-cases (checked_add cap.offset n)) [
    | inl bad ↦ absurd (ground arith)
    | inr (e, he) ↦
        let (a, who) = identity-Identifies m p i cap hi in
        access_finish m p n align write id start end i e cap a hi who he h
  ]
]
