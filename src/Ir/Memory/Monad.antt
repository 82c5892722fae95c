-- ===== src/Ir/Memory/Monad.antt =====
-- State and faults, and the host's part.
use whale.Prelude.{ℕ, Bool, true, false, get_elem?, set, Option, none, some, Result, ok, err}
use whale.Ir.Memory.State.{Fault, panicked, Allocation, Fragments, Memory}

pub record Host : Type 0 where
  pub can_reserve : ℕ → Bool
  pub capacity : Fragments → ℕ

abbrev pub M : Type 0 → Type 0
M A = Memory → Result Fault A × Memory

abbrev pub pure : {A : Type 0} → A → M A
pure a m = (ok a, m)

abbrev pub fault : {A : Type 0} → Fault → M A
fault e m = (err e, m)

infixl 5 ◌>>=◌ ◌>>◌
abbrev pub ◌>>=◌ : {A B : Type 0} → M A → (A → M B) → M B
◌>>=◌ m f s = let (r, s') = m s in elim r [ ok a ↦ f a s' | err e ↦ (err e, s') ]

abbrev pub ◌>>◌ : {A B : Type 0} → M A → M B → M B
m >> k = m >>= λ _. k

-- A step that reads the memory only.
abbrev pub reads : {A : Type 0} → (Memory → Result Fault A) → M A
reads f m = (f m, m)

abbrev pub modify : (Memory → Memory) → M (Unit {0})
modify f m = (ok tt, f m)

abbrev pub fault_if : Bool → Fault → M (Unit {0})
fault_if true e = fault e
fault_if false e = pure tt

abbrev pub or_fault : {A : Type 0} → Option A → Fault → M A
or_fault none e = fault e
or_fault (some a) e = pure a

-- `self.allocations[id]`.
abbrev pub allocation_at : ℕ → M Allocation
allocation_at id m = elim (get_elem? m.allocations id) [
  | none ↦ (err panicked, m)
  | some a ↦ (ok a, m)
]

abbrev pub put_allocation : ℕ → Allocation → M (Unit {0})
put_allocation id a m = (ok tt, record m { allocations = set m.allocations id a })
