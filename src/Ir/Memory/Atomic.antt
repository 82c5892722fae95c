-- ===== src/Ir/Memory/Atomic.antt =====
-- A faulting write leaves the memory as it was, but for the work that it was charged.
use whale.Prelude.{
  ℕ, ◌-◌, ◌≡◌, err, refl, Bool, true, false, not, List, [], length, replicate, min, map, ◌==◌,
  if◌then◌else◌,
}
use whale.Prelude.Words.{checked_mul}
use whale.Ir.{Ty}
use whale.Ir.Layout.{TypeLayout}
use whale.Ir.Memory.Encoding.{layout, encode_value}
use whale.Ir.Memory.State.{
  trap, limit, address_overflow, overlapping_copy, host_resource, Fault, Pointer, Fragments,
  Allocation, Memory, Value,
}
use whale.Ir.Memory.Monad.{Host, M, pure, ◌>>=◌, ◌>>◌, reads, fault_if, or_fault, allocation_at}
use whale.Ir.Memory.Access.{access}
use whale.Ir.Memory.Allocate.{charge}
use whale.Ir.Memory.Bytes.{
  replace_fragments, write_bytes, clear_initialized, uninit, copy_some, copy, set_some, set_bytes,
  copy_install, copy_charged, moved, keys_inside, slice, overlap, then_add,
}
use whale.Ir.Memory.Typed.{write_encoded, store}
use whale.Ir.Memory.Keeps.{
  Charged, KeepsAt, bind-keeps, charge-Charged, fault_if-Charged, or_fault-Charged,
  allocation_at-Charged, replace-keeps, write_bytes-Finishes, clear-Finishes,
  write_encoded-Finishes, charged-keeps,
}

abbrev Span : Type 0
Span = ℕ × ℕ × ℕ

uninit-keeps :
    (host : Host) (p : Pointer) (size align : ℕ) (m : Memory) → KeepsAt (uninit host p size align) m
unfolding uninit
uninit-keeps host p size align m =
    bind-keeps (reads (λ m. access m p size align true))
      (λ (a : Span).
        charge (a.2 - a.1)
        >> (replace_fragments host a.0 a.1 a.2 [] >> clear_initialized a.0 a.1 a.2))
      m refl
      (λ a _.
        charged-keeps (a.2 - a.1) host a.0 a.1 a.2 [] (clear_initialized a.0 a.1 a.2) m
          (clear-Finishes a.0 a.1 a.2))

set_some-keeps :
    (host : Host) (p : Pointer) (byte size align : ℕ) (m : Memory)
    → KeepsAt (set_some host p byte size align) m
unfolding set_some
set_some-keeps host p byte size align m =
    let fill = λ (a : Span).
      write_bytes a.0 a.1 a.2 (replicate (a.2 - a.1) byte) (replicate (a.2 - a.1) 1) in
    let write = λ (a : Span). replace_fragments host a.0 a.1 a.2 [] >> fill a in
    let overflow = trap address_overflow in
    bind-keeps (reads (λ m. access m p size align true))
      (λ (a : Span). or_fault (checked_mul size 2) overflow >>= λ cost. charge cost >> write a) m
      refl
      (λ a _.
        bind-keeps (or_fault (checked_mul size 2) overflow) (λ cost. charge cost >> write a) m
          (or_fault-Charged (checked_mul size 2) overflow m)
          (λ cost _.
            charged-keeps cost host a.0 a.1 a.2 [] (fill a)
              (or_fault (checked_mul size 2) overflow m).1 (write_bytes-Finishes a.0 a.1 a.2 _ _)))

if-keeps :
    (b : Bool) (c : M (Unit {0})) (m : Memory) → KeepsAt c m → KeepsAt (if b then pure tt else c) m
if-keeps true c m h = λ e bad. refl
if-keeps false c m h = h

set_bytes-keeps :
    (host : Host) (p : Pointer) (byte size align : ℕ) (m : Memory)
    → KeepsAt (set_bytes host p byte size align) m
unfolding set_bytes
set_bytes-keeps host p byte size align m =
    if-keeps (size == 0) (set_some host p byte size align) m
      (set_some-keeps host p byte size align m)

store-keeps :
    (host : Host) (p : Pointer) (t : Ty) (v : Value) (align : ℕ) (m : Memory)
    → KeepsAt (store host p t v align) m
unfolding store
store-keeps host p t v align m =
    let write = λ (a : Span) (w : List (ℕ × ℕ) × Fragments).
      charge (a.2 - a.1) >> (replace_fragments host a.0 a.1 a.2 w.1 >> write_encoded a.0 w.0) in
    bind-keeps (reads (λ m. layout t))
      (λ (l : TypeLayout). reads (λ m. access m p l.size align true) >>= λ (a : Span).
        reads (λ m. encode_value t v a.1) >>= write a)
      m refl
      (λ l _.
        bind-keeps (reads (λ m. access m p l.size align true))
          (λ (a : Span). reads (λ m. encode_value t v a.1) >>= write a) m refl
          (λ a _. bind-keeps (reads (λ m. encode_value t v a.1)) (write a) m refl (λ w _.
            charged-keeps (a.2 - a.1) host a.0 a.1 a.2 w.1 (write_encoded a.0 w.0) m
              (write_encoded-Finishes a.0 w.0))))

copy_install-keeps :
    (host : Host) (from : ℕ × ℕ) (to : Span) (s : Allocation) (m : Memory)
    → KeepsAt (copy_install host from to s) m
unfolding copy_install
copy_install-keeps host (ss, se) (id, ds, de) s m =
    replace-keeps host id ds de (map (moved ss ds) (keys_inside ss se s.fragments))
      (write_bytes id ds de (slice ss se s.bytes) (slice ss se s.initialized)) m
      (write_bytes-Finishes id ds de _ _)

fault_if-keeps :
    (b : Bool) (x : Fault) (c : M (Unit {0})) (m : Memory)
    → ((n : Memory) → KeepsAt c n)
    → KeepsAt (fault_if b x >> c) m
fault_if-keeps b x c m h =
    bind-keeps (fault_if b x) (λ _. c) m (fault_if-Charged b x m) (λ _ _. h _)

copy_charged-keeps :
    (host : Host) (size : ℕ) (from : ℕ × ℕ) (to : Span) (s : Allocation) (m : Memory)
    → KeepsAt (copy_charged host size from to s) m
unfolding copy_charged
copy_charged-keeps host size (ss, se) to s m =
    let install = copy_install host (ss, se) to s in
    let count = min (length s.fragments) (se - ss) in
    let b = not (host.can_reserve count) in
    let a = not (host.can_reserve (se - ss)) in
    let guards =
      fault_if a (limit host_resource size)
      >> (fault_if b (limit host_resource count) >> install) in
    let o = then_add (checked_mul size 4) (host.capacity s.fragments) in
    bind-keeps (or_fault o (trap address_overflow)) (λ cost. charge cost >> guards) m
      (or_fault-Charged o (trap address_overflow) m)
      (λ cost _.
        bind-keeps (charge cost) (λ _. guards) (or_fault o (trap address_overflow) m).1
          (charge-Charged cost (or_fault o (trap address_overflow) m).1)
          (λ _ _.
            fault_if-keeps a (limit host_resource size)
              (fault_if b (limit host_resource count) >> install) _
              (λ n.
                fault_if-keeps b (limit host_resource count) install n
                  (λ n'. copy_install-keeps host (ss, se) to s n'))))

copy_some-keeps :
    (host : Host) (dst src : Pointer) (size align : ℕ) (m : Memory)
    → KeepsAt (copy_some host dst src size align) m
unfolding copy_some
copy_some-keeps host dst src size align m =
    let rest = λ (s : Span) (d : Span).
      allocation_at s.0 >>= λ a. copy_charged host size (s.1, s.2) (d.0, d.1, d.2) a in
    let guard = λ (s : Span) (d : Span).
      fault_if (overlap s.0 d.0 s.1 s.2 d.1 d.2) (trap overlapping_copy) >> rest s d in
    bind-keeps (reads (λ m. access m src size align false))
      (λ (s : Span). reads (λ m. access m dst size align true) >>= guard s) m refl
      (λ s _. bind-keeps (reads (λ m. access m dst size align true)) (guard s) m refl (λ d _.
        fault_if-keeps (overlap s.0 d.0 s.1 s.2 d.1 d.2) (trap overlapping_copy) (rest s d) m (λ n.
          bind-keeps (allocation_at s.0) (λ a. copy_charged host size (s.1, s.2) (d.0, d.1, d.2) a)
            n (allocation_at-Charged s.0 n)
            (λ a _. copy_charged-keeps host size (s.1, s.2) (d.0, d.1, d.2) a _))))

copy-keeps :
    (host : Host) (dst src : Pointer) (size align : ℕ) (m : Memory)
    → KeepsAt (copy host dst src size align) m
unfolding copy
copy-keeps host dst src size align m =
    if-keeps (size == 0) (copy_some host dst src size align) m
      (copy_some-keeps host dst src size align m)

-- The writes of the memory: a typed store, a copy, a fill, and making bytes uninitialized.
pub data Write : Type 0 where
  store_at : Pointer → Ty → Value → ℕ → Write
  copy_at : Pointer → Pointer → ℕ → ℕ → Write
  set_at : Pointer → ℕ → ℕ → ℕ → Write
  uninit_at : Pointer → ℕ → ℕ → Write

abbrev pub perform : Host → Write → M (Unit {0})
perform host (store_at p t v align) = store host p t v align
perform host (copy_at dst src size align) = copy host dst src size align
perform host (set_at p byte size align) = set_bytes host p byte size align
perform host (uninit_at p size align) = uninit host p size align

perform-keeps : (host : Host) (w : Write) (m : Memory) → KeepsAt (perform host w) m
perform-keeps host (store_at p t v align) m = store-keeps host p t v align m
perform-keeps host (copy_at dst src size align) m = copy-keeps host dst src size align m
perform-keeps host (set_at p byte size align) m = set_bytes-keeps host p byte size align m
perform-keeps host (uninit_at p size align) m = uninit-keeps host p size align m

-- A store, a copy, a fill or an uninit that faults, at any point and for any reason (access,
-- overlap, encoding, work, fragment budget or host), leaves every allocation, identity and count of
-- the memory as it was: only the account of the work differs.
pub perform-Charged :
    (host : Host) (w : Write) (m : Memory) (e : Fault)
    → (perform host w m).0 ≡ err e
    → Charged m (perform host w m).1
perform-Charged host w m e h = perform-keeps host w m e h
