-- ===== src/Ir/Memory/Keeps.antt =====
-- How a monadic step that only charges, and a last step that cannot fault, compose.
use whale.Prelude.{
  ℕ, zero, suc, ◌≡◌, refl, sym, subst, ap, ◌∙◌, Bool, true, false, List, [], ◌∷◌, get_elem?, set,
  Option, none, some, Result, ok, err, arith,
}
use whale.Ir.Memory.State.{Fault, Fragments, Allocation, Memory}
use whale.Ir.Memory.Monad.{Host, M, ◌>>=◌, ◌>>◌, fault_if, or_fault, allocation_at}
use whale.Ir.Memory.Allocate.{charge}
use whale.Ir.Memory.Bytes.{
  admit_fragments, install_fragments, replace_fragments, write_bytes, clear_initialized,
}
use whale.Ir.Memory.Typed.{write_encoded}

-- `m'` is `m` with another account of the work.
abbrev pub Charged : Memory → Memory → Type 0
Charged m m' = m' ≡ record m { work = m'.work }

-- An outcome that is no fault, or leaves all but the work.
abbrev pub Keeps : {A : Type 0} → Memory → Result Fault A × Memory → Type 0
Keeps m r = (e : Fault) → r.0 ≡ err e → Charged m r.1

abbrev pub KeepsAt : {A : Type 0} → M A → Memory → Type 0
KeepsAt c m = Keeps m (c m)

pub set_work : ℕ → Memory → Memory
set_work w m = record m { work = w }

pub Charged-trans : (m n o : Memory) → Charged m n → Charged n o → Charged m o
unfolding set_work
Charged-trans m n o p q = q ∙ ap (set_work o.work) p

pub run-keeps :
    {A B : Type 0} (r : Result Fault A) (s : Memory) (f : A → M B) (m : Memory)
    → Charged m s
    → ((a : A) → r ≡ ok a → KeepsAt (f a) s)
    → KeepsAt ((λ _. (r, s)) >>= f) m
run-keeps (ok a) s f m quiet rest e h = Charged-trans m s _ quiet (rest a refl e h)
run-keeps (err x) s f m quiet rest e h = quiet

pub bind-keeps :
    {A B : Type 0} (c : M A) (f : A → M B) (m : Memory)
    → Charged m (c m).1
    → ((a : A) → (c m).0 ≡ ok a → KeepsAt (f a) (c m).1)
    → KeepsAt (c >>= f) m
bind-keeps c f m quiet rest = run-keeps (c m).0 (c m).1 f m quiet rest

pub charge-Charged : (n : ℕ) (m : Memory) → Charged m (charge n m).1
unfolding charge
charge-Charged n m = ground arith

pub fault_if-Charged : (b : Bool) (x : Fault) (m : Memory) → Charged m (fault_if b x m).1
fault_if-Charged true x m = refl
fault_if-Charged false x m = refl

pub or_fault-Charged :
    {A : Type 0} (o : Option A) (x : Fault) (m : Memory) → Charged m (or_fault o x m).1
or_fault-Charged none x m = refl
or_fault-Charged (some a) x m = refl

pub allocation_at-Charged : (id : ℕ) (m : Memory) → Charged m (allocation_at id m).1
allocation_at-Charged id m = ground arith

-- The charge and the budget of `replace_fragments` change the work alone, and return the allocation.
pub admit-Charged :
    (host : Host) (id start end : ℕ) (new : Fragments) (m : Memory)
    → Charged m (admit_fragments host id start end new m).1
unfolding admit_fragments charge
admit-Charged host id start end new m = ground arith

pub admit-found :
    (host : Host) (id start end : ℕ) (new : Fragments) (m : Memory) (a : Allocation)
    → (admit_fragments host id start end new m).0 ≡ ok a
    → get_elem? (admit_fragments host id start end new m).1.allocations id ≡ some a
unfolding admit_fragments charge
admit-found host id start end new m a h = ground arith

pub get_elem?-set {ℓ} :
    {A : Type ℓ} (xs : List A) (i : ℕ) (x y : A)
    → get_elem? xs i ≡ some x
    → get_elem? (set xs i y) i ≡ some y
get_elem?-set [] i x y h = cc
get_elem?-set (z ∷ xs) zero x y h = refl
get_elem?-set (z ∷ xs) (suc i) x y h = get_elem?-set xs i x y h

pub ok-not-err : {A : Type 0} {a : A} {e : Fault} → ok a ≡ err e → ⊥
ok-not-err h = cc

pub bind_assoc :
    {A B C : Type 0} (r : Result Fault A) (s : Memory) (f : A → M B) (g : B → M C)
    → (((λ (_ : Memory). (r, s)) >>= f) >>= g) s ≡ ((λ (_ : Memory). (r, s)) >>= λ a. f a >>= g) s
bind_assoc (ok a) s f g = refl
bind_assoc (err e) s f g = refl

-- A last step that cannot fault where its allocation is there.
abbrev pub Finishes : ℕ → M (Unit {0}) → Type 0
Finishes id tail =
    (m : Memory) (a : Allocation) → get_elem? m.allocations id ≡ some a → (tail m).0 ≡ ok tt

pub install-succeeds :
    (id start end : ℕ) (new : Fragments) (a : Allocation) (tail : M (Unit {0})) (m : Memory)
    → Finishes id tail
    → get_elem? m.allocations id ≡ some a
    → ((install_fragments id start end new a >> tail) m).0 ≡ ok tt
unfolding install_fragments
install-succeeds id start end new a tail m fin found =
    fin _ _ (get_elem?-set m.allocations id a _ found)

pub replace-keeps :
    (host : Host) (id start end : ℕ) (new : Fragments) (tail : M (Unit {0})) (m : Memory)
    → Finishes id tail
    → KeepsAt (replace_fragments host id start end new >> tail) m
unfolding replace_fragments
replace-keeps host id start end new tail m fin =
    subst (Keeps m)
      (sym (
        bind_assoc (admit_fragments host id start end new m).0 _
          (install_fragments id start end new) (λ _. tail)))
      (bind-keeps (admit_fragments host id start end new)
        (λ a. install_fragments id start end new a >> tail) m
        (admit-Charged host id start end new m)
        (λ a found e h. absurd (
          ok-not-err (
            sym (
              install-succeeds id start end new a tail _ fin
                (admit-found host id start end new m a found))
            ∙ h))))

pub write_bytes-Finishes :
    (id start end : ℕ) (bytes flags : List ℕ) → Finishes id (write_bytes id start end bytes flags)
unfolding write_bytes
write_bytes-Finishes id start end bytes flags m a h = ground arith

pub clear-Finishes : (id start end : ℕ) → Finishes id (clear_initialized id start end)
unfolding clear_initialized
clear-Finishes id start end m a h = ground arith

pub write_encoded-Finishes : (id : ℕ) (bytes : List (ℕ × ℕ)) → Finishes id (write_encoded id bytes)
unfolding write_encoded
write_encoded-Finishes id bytes m a h = ground arith

-- A charge, the fragments, and a last step that cannot fault: the end of every write.
pub charged-keeps :
    (n : ℕ) (host : Host) (id start end : ℕ) (new : Fragments) (tail : M (Unit {0})) (m : Memory)
    → Finishes id tail
    → KeepsAt (charge n >> (replace_fragments host id start end new >> tail)) m
charged-keeps n host id start end new tail m fin =
    bind-keeps (charge n) (λ _. replace_fragments host id start end new >> tail) m
      (charge-Charged n m) (λ _ _. replace-keeps host id start end new tail (charge n m).1 fin)
