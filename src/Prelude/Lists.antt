-- ===== src/Prelude/Lists.antt =====
-- Lists measured and indexed by native numbers, under the library's names.
use Prim.Native.Nat.{ℕ, zero, suc, ◌+◌, ◌-◌, min}
use mathlib.Core.Path.{◌≡◌, refl, ap, subst}
use mathlib.Core.Bool.{Bool, true, false, ◌&&◌, ◌||◌}
use whale.Prelude.Tests.{◌==◌}
use mathlib.Core.List.{List, [], ◌∷◌, ◌++◌, map}
use mathlib.Core.Option.{Option, none, some, some-injective}
use native.Mathlib.Omega.{arith}

-- A predicate of every element, which computes to a tuple.
abbrev pub All {ℓ κ} : {A : Type ℓ} → (A → Type κ) → List A → Type κ
All P [] = Unit
All P (x ∷ xs) = P x × All P xs

module _ {ℓ} {A : Type ℓ} where
  abbrev pub length : List A → ℕ
  length [] = 0
  length (x ∷ xs) = suc (length xs)

  abbrev pub get_elem? : List A → ℕ → Option A
  get_elem? [] i = none
  get_elem? (x ∷ xs) zero = some x
  get_elem? (x ∷ xs) (suc i) = get_elem? xs i

  -- A write out of bounds changes nothing.
  abbrev pub set : List A → ℕ → A → List A
  set [] i v = []
  set (x ∷ xs) zero v = v ∷ xs
  set (x ∷ xs) (suc i) v = x ∷ set xs i v

  abbrev pub take : ℕ → List A → List A
  take zero xs = []
  take (suc n) [] = []
  take (suc n) (x ∷ xs) = x ∷ take n xs

  abbrev pub drop : ℕ → List A → List A
  drop zero xs = xs
  drop (suc n) [] = []
  drop (suc n) (x ∷ xs) = drop n xs

  abbrev pub replicate : ℕ → A → List A
  replicate zero a = []
  replicate (suc n) a = a ∷ replicate n a

  abbrev pub any : (A → Bool) → List A → Bool
  any p [] = false
  any p (x ∷ xs) = p x || any p xs

  abbrev pub all : (A → Bool) → List A → Bool
  all p [] = true
  all p (x ∷ xs) = p x && all p xs

  pub length-append : (xs ys : List A) → length (xs ++ ys) ≡ length xs + length ys
  length-append [] ys = omega arith
  length-append (x ∷ xs) ys = omega (arith, length-append xs ys)

module _ {ℓ} {A : Type ℓ} where
  pub length-set : (xs : List A) (i : ℕ) (v : A) → length (set xs i v) ≡ length xs
  length-set [] i v = refl
  length-set (x ∷ xs) zero v = refl
  length-set (x ∷ xs) (suc i) v = ap suc (length-set xs i v)

  pub length-take : (n : ℕ) (xs : List A) → length (take n xs) ≡ min n (length xs)
  length-take zero xs = omega arith
  length-take (suc n) [] = omega arith
  length-take (suc n) (x ∷ xs) = omega (arith, length-take n xs)

  pub length-drop : (n : ℕ) (xs : List A) → length (drop n xs) ≡ length xs - n
  length-drop zero xs = omega arith
  length-drop (suc n) [] = omega arith
  length-drop (suc n) (x ∷ xs) = omega (arith, length-drop n xs)

  pub length-replicate : (n : ℕ) (a : A) → length (replicate n a) ≡ n
  length-replicate zero a = refl
  length-replicate (suc n) a = ap suc (length-replicate n a)

pub All-append {ℓ κ} :
    {A : Type ℓ} (P : A → Type κ) (xs ys : List A) → All P xs → All P ys → All P (xs ++ ys)
All-append P [] ys h k = k
All-append P (x ∷ xs) ys h k = (h.0, All-append P xs ys h.1 k)

pub All-split {ℓ κ} :
    {A : Type ℓ} (P : A → Type κ) (xs ys : List A) → All P (xs ++ ys) → All P xs × All P ys
All-split P [] ys h = (tt, h)
All-split P (x ∷ xs) ys h = let (front, back) = All-split P xs ys h.1 in ((h.0, front), back)

pub All-get {ℓ κ} :
    {A : Type ℓ} (P : A → Type κ) (xs : List A) (i : ℕ) {x : A}
    → All P xs
    → get_elem? xs i ≡ some x
    → P x
All-get P [] i h e = cc
All-get P (x ∷ xs) zero h e = subst P (some-injective _ _ e) h.0
All-get P (x ∷ xs) (suc i) h e = All-get P xs i h.1 e

-- `xs.get(i).and_then(|row| row.get(j))`
abbrev pub get_in {ℓ} : {A : Type ℓ} → List (List A) → ℕ → ℕ → Option A
get_in xs i j = elim (get_elem? xs i) [ none ↦ none | some row ↦ get_elem? row j ]

-- `xs[i] = f(xs[i])`
abbrev pub modify_at {ℓ} : {A : Type ℓ} → (A → A) → ℕ → List A → List A
modify_at f i [] = []
modify_at f zero (x ∷ xs) = f x ∷ xs
modify_at f (suc i) (x ∷ xs) = x ∷ modify_at f i xs

get_elem?-modify_at {ℓ} :
    {A : Type ℓ} (f : A → A) (i j : ℕ) (xs : List A)
    → (i == j) ≡ false
    → get_elem? (modify_at f i xs) j ≡ get_elem? xs j
get_elem?-modify_at f i j [] h = refl
get_elem?-modify_at f zero zero (x ∷ xs) h = cc
get_elem?-modify_at f zero (suc j) (x ∷ xs) h = refl
get_elem?-modify_at f (suc i) zero (x ∷ xs) h = refl
get_elem?-modify_at f (suc i) (suc j) (x ∷ xs) h = get_elem?-modify_at f i j xs (ground (arith, h))

get_elem?-modify_at_self {ℓ} :
    {A : Type ℓ} (f : A → A) (i : ℕ) (x : A) (xs : List A)
    → get_elem? xs i ≡ some x
    → get_elem? (modify_at f i xs) i ≡ some (f x)
get_elem?-modify_at_self f i x [] h = cc
get_elem?-modify_at_self f zero x (y ∷ xs) h = ap some (ap f (some-injective y x h))
get_elem?-modify_at_self f (suc i) x (y ∷ xs) h = get_elem?-modify_at_self f i x xs h

-- The section that is changed, and the others.
pub get_in-modify_self {ℓ} :
    {A : Type ℓ} (f : A → A) (rows : List (List A)) (i j : ℕ) (xs : A)
    → get_in rows i j ≡ some xs
    → get_in (modify_at (modify_at f j) i rows) i j ≡ some (f xs)
get_in-modify_self f [] i j xs h = cc
get_in-modify_self f (row ∷ rows) zero j xs h = get_elem?-modify_at_self f j xs row h
get_in-modify_self f (row ∷ rows) (suc i) j xs h = get_in-modify_self f rows i j xs h

pub get_in-modify_other {ℓ} :
    {A : Type ℓ} (f : A → A) (rows : List (List A)) (i j a b : ℕ)
    → ((i == a) && (j == b)) ≡ false
    → get_in (modify_at (modify_at f j) i rows) a b ≡ get_in rows a b
get_in-modify_other f [] i j a b h = refl
get_in-modify_other f (row ∷ rows) zero j zero b h =
    get_elem?-modify_at f j b row (ground (arith, h))
get_in-modify_other f (row ∷ rows) zero j (suc a) b h = refl
get_in-modify_other f (row ∷ rows) (suc i) j zero b h = refl
get_in-modify_other f (row ∷ rows) (suc i) j (suc a) b h =
    get_in-modify_other f rows i j a b (ground (arith, h))

pub get_elem?-map {ℓ κ} :
    {A : Type ℓ} {B : Type κ} (f : A → B) (xs : List A) (i : ℕ) (x : A)
    → get_elem? xs i ≡ some x
    → get_elem? (map f xs) i ≡ some (f x)
get_elem?-map f [] i x h = cc
get_elem?-map f (y ∷ xs) zero x h = ap some (ap f (some-injective y x h))
get_elem?-map f (y ∷ xs) (suc i) x h = get_elem?-map f xs i x h

pub get_elem?_of_map {ℓ κ} :
    {A : Type ℓ} {B : Type κ} (f : A → B) (xs : List A) (i : ℕ) (y : B)
    → get_elem? (map f xs) i ≡ some y
    → (x : A) × (get_elem? xs i ≡ some x) × (f x ≡ y)
get_elem?_of_map f [] i y h = cc
get_elem?_of_map f (x ∷ xs) zero y h = (x, refl, some-injective (f x) y h)
get_elem?_of_map f (x ∷ xs) (suc i) y h = get_elem?_of_map f xs i y h
