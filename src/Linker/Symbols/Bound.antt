-- ===== src/Linker/Symbols/Bound.antt =====
-- Every relocation has a resolved target.
use whale.Prelude.{
  ℕ, suc, ◌≡◌, ◌⊎◌, refl, sym, subst, ap, ◌∙◌, Bool, true, false, not, List, [], ◌∷◌, ◌++◌, map,
  Option, none, some, ok, ok-injective, Bool-cases, inl, inr, >>=-eq-ok, arith, All, append_assoc,
  append-nil, map-append,
}
use whale.Names.{Name, same_name_self}
use whale.Object.{is_local, is_weak, ObjectSymbol, ObjectRelocation, ObjectFile}
use whale.Linker.Symbols.{
  SymbolKey, global_key, local_key, same_key, ResolvedReference, Symbols, SymbolTable, lookup,
  ResolveError, is_some, key_for, declaration, declared, or_insert, reference_of, refer,
  add_reference, add_references, refer_objects, resolve, check_inputs, add_objects,
}

same_key_self : (k : SymbolKey) → same_key k k ≡ true
same_key_self (global_key a) = same_name_self a
same_key_self (local_key i a) = ground (arith, same_name_self a)

-- A reference and the entry that its target has: an entry of an input, or the zero of a weak
-- reference that no input defines.
abbrev pub Bound : Symbols → Symbols → ResolvedReference → Type 0
Bound zeros symbols r =
    ((r.weak_undefined ≡ false) × (is_some (lookup r.target symbols) ≡ true))
    ⊎ ((r.weak_undefined ≡ true)
        × (is_some (lookup r.target symbols) ≡ false)
        × (is_some (lookup r.target zeros) ≡ true))

-- The relocations of the inputs, in input order.
abbrev pub Place : Type 0
Place = ℕ × ℕ × ℕ

abbrev pub place_of : ℕ → ObjectRelocation → Place
place_of i r = (i, r.section_index, r.offset)

abbrev pub places : ℕ → List ObjectFile → List Place
places i [] = []
places i (o ∷ os) = map (place_of i) o.relocations ++ places (suc i) os

abbrev pub reference_place : ResolvedReference → Place
reference_place r = (r.object_index, r.section_index, r.offset)

or_insert-keeps :
    (k k' : SymbolKey) (name : Name) (d : Option ObjectSymbol) (t : Symbols)
    → is_some (lookup k t) ≡ true
    → is_some (lookup k (or_insert k' name d t)) ≡ true
or_insert-keeps k k' name none t h = h
or_insert-keeps k k' name (some s) t h = elim (Bool-cases (is_some (lookup k' t))) [
  | inl y ↦ ground (arith, y, h)
  | inr n ↦ elim (Bool-cases (same_key k k')) [
    | inl same ↦ ground (arith, n, same, h)
    | inr other ↦ ground (arith, n, other, h)
  ]
]

or_insert-there :
    (k : SymbolKey) (name : Name) (d : Option ObjectSymbol) (t : Symbols)
    → declared is_weak d ≡ true
    → is_some (lookup k (or_insert k name d t)) ≡ true
or_insert-there k name none t h = cc
or_insert-there k name (some s) t h = elim (Bool-cases (is_some (lookup k t))) [
  | inl y ↦ ground (arith, y, h)
  | inr n ↦ ground (arith, n, same_key_self k)
]

-- The zero entries of `u` cover those of `t`.
abbrev Covers : Symbols → Symbols → Type 0
Covers u t = (k : SymbolKey) → is_some (lookup k t) ≡ true → is_some (lookup k u) ≡ true

Bound-Covers :
    (t u symbols : Symbols) (r : ResolvedReference)
    → Covers u t
    → Bound t symbols r
    → Bound u symbols r
Bound-Covers t u symbols r c (inl h) = inl h
Bound-Covers t u symbols r c (inr (w, m, h)) = inr (w, m, c r.target h)

All-Covers :
    (t u symbols : Symbols) (rs : List ResolvedReference)
    → Covers u t
    → All (Bound t symbols) rs
    → All (Bound u symbols) rs
All-Covers t u symbols [] c h = tt
All-Covers t u symbols (r ∷ rs) c (b, h) =
    (Bound-Covers t u symbols r c b, All-Covers t u symbols rs c h)

All-append {ℓ} :
    {A : Type 0} (P : A → Type ℓ) (xs ys : List A) → All P xs → All P ys → All P (xs ++ ys)
All-append P [] ys h k = k
All-append P (x ∷ xs) ys (a, h) k = (a, All-append P xs ys h k)

-- The state of the second loop: every reference is bound, and `done` are their places.
record IsBound (symbols : Symbols) (done : List Place) (t : SymbolTable) : Type 0 where
  bound : All (Bound t.symbols symbols) t.references
  placed : map reference_place t.references ≡ done

extended :
    (symbols : Symbols) (done : List Place) (t : SymbolTable) (zeros : Symbols) (i : ℕ)
    (r : ObjectRelocation) (key : SymbolKey) (missing : Bool)
    → IsBound symbols done t
    → Covers zeros t.symbols
    → Bound zeros symbols (reference_of i r key missing)
    → IsBound symbols
        (done ++ place_of i r ∷ [])
        (record { symbols = zeros; references = t.references ++ reference_of i r key missing ∷ [] })
extended symbols done t zeros i r key missing h c b = record {
  bound =
      All-append (Bound zeros symbols) t.references (reference_of i r key missing ∷ [])
        (All-Covers t.symbols zeros symbols t.references c h.bound) (b, tt);
  placed =
      map-append reference_place t.references (reference_of i r key missing ∷ [])
      ∙ ap (λ ps. ps ++ place_of i r ∷ []) h.placed;
}

refer-IsBound :
    (missing : Bool) (i : ℕ) (key : SymbolKey) (d : Option ObjectSymbol) (symbols : Symbols)
    (done : List Place) (t u : SymbolTable) (r : ObjectRelocation)
    → is_some (lookup key symbols) ≡ not missing
    → IsBound symbols done t
    → refer missing i key d t r ≡ ok u
    → IsBound symbols (done ++ place_of i r ∷ []) u
refer-IsBound false i key d symbols done t u r m h e =
    subst (IsBound symbols (done ++ place_of i r ∷ [])) (ok-injective {E = ResolveError} _ u e)
      (extended symbols done t t.symbols i r key false h (λ k y. y) (inl (refl, m)))
refer-IsBound true i key d symbols done t u r m h e = elim (Bool-cases (declared is_weak d)) [
  | inl y ↦
      subst (IsBound symbols (done ++ place_of i r ∷ []))
        (ok-injective {E = ResolveError}
          (record {
            symbols = or_insert key r.symbol d t.symbols;
            references = t.references ++ reference_of i r key true ∷ [];
          })
          u (ground (arith, y, e)))
        (extended symbols done t (or_insert key r.symbol d t.symbols) i r key true h
          (λ k. or_insert-keeps k key r.symbol d t.symbols)
          (inr (refl, m, or_insert-there key r.symbol d t.symbols y)))
  | inr n ↦ absurd (ground (arith, n, e))
]

not-not : (b : Bool) → b ≡ not (not b)
not-not true = refl
not-not false = refl

add_reference-IsBound :
    (i : ℕ) (o : ObjectFile) (symbols : Symbols) (done : List Place) (t u : SymbolTable)
    (r : ObjectRelocation)
    → IsBound symbols done t
    → add_reference i o symbols t r ≡ ok u
    → IsBound symbols (done ++ place_of i r ∷ []) u
unfolding add_reference
add_reference-IsBound i o symbols done t u r h e =
    let d = declaration r.symbol o.symbols in
    let key = key_for (declared is_local d) i r.symbol in
    refer-IsBound (not (is_some (lookup key symbols))) i key d symbols done t u r
      (not-not (is_some (lookup key symbols))) h e

add_references-IsBound :
    (i : ℕ) (o : ObjectFile) (symbols : Symbols) (done : List Place) (t u : SymbolTable)
    (rs : List ObjectRelocation)
    → IsBound symbols done t
    → add_references i o symbols t rs ≡ ok u
    → IsBound symbols (done ++ map (place_of i) rs) u
add_references-IsBound i o symbols done t u [] h e =
    subst (IsBound symbols (done ++ [])) (ok-injective {E = ResolveError} t u e)
      (subst (λ ps. IsBound symbols ps t) (sym (append-nil done)) h)
add_references-IsBound i o symbols done t u (r ∷ rs) h e =
    let (v, one, rest) = >>=-eq-ok (add_reference i o symbols t r) _ e in
    subst (λ ps. IsBound symbols ps u) (append_assoc done (place_of i r ∷ []) (map (place_of i) rs))
      (add_references-IsBound i o symbols _ v u rs
        (add_reference-IsBound i o symbols done t v r h one) rest)

refer_objects-IsBound :
    (i : ℕ) (symbols : Symbols) (done : List Place) (t u : SymbolTable) (os : List ObjectFile)
    → IsBound symbols done t
    → refer_objects i symbols t os ≡ ok u
    → IsBound symbols (done ++ places i os) u
refer_objects-IsBound i symbols done t u [] h e =
    subst (IsBound symbols (done ++ [])) (ok-injective {E = ResolveError} t u e)
      (subst (λ ps. IsBound symbols ps t) (sym (append-nil done)) h)
refer_objects-IsBound i symbols done t u (o ∷ os) h e =
    let (v, one, rest) = >>=-eq-ok (add_references i o symbols t o.relocations) _ e in
    subst (λ ps. IsBound symbols ps u)
      (append_assoc done (map (place_of i) o.relocations) (places (suc i) os))
      (refer_objects-IsBound (suc i) symbols _ v u os
        (add_references-IsBound i o symbols done t v o.relocations h one) rest)

is_some-append :
    (k : SymbolKey) (t u : Symbols)
    → is_some (lookup k t) ≡ true ⊎ is_some (lookup k u) ≡ true
    → is_some (lookup k (t ++ u)) ≡ true
is_some-append k [] u (inl h) = cc
is_some-append k [] u (inr h) = h
is_some-append k ((k', e) ∷ t) u h = elim (Bool-cases (same_key k k')) [
  | inl y ↦ ground (arith, y)
  | inr n ↦ ground (arith, n, h, is_some-append k t u)
]

-- The target of a reference is an entry of the table.
abbrev pub HasTarget : Symbols → ResolvedReference → Type 0
HasTarget symbols r = is_some (lookup r.target symbols) ≡ true

Bound-HasTarget :
    (zeros symbols : Symbols) (r : ResolvedReference)
    → Bound zeros symbols r
    → HasTarget (zeros ++ symbols) r
Bound-HasTarget zeros symbols r (inl h) = is_some-append r.target zeros symbols (inr h.1)
Bound-HasTarget zeros symbols r (inr h) = is_some-append r.target zeros symbols (inl h.2)

Bound-HasTargets :
    (zeros symbols : Symbols) (rs : List ResolvedReference)
    → All (Bound zeros symbols) rs
    → All (HasTarget (zeros ++ symbols)) rs
Bound-HasTargets zeros symbols [] h = tt
Bound-HasTargets zeros symbols (r ∷ rs) (b, h) =
    (Bound-HasTarget zeros symbols r b, Bound-HasTargets zeros symbols rs h)

-- When symbol resolution succeeds, the references of the table are the relocations of the inputs,
-- each one once and in input order, and the target of each has an entry in the table.
pub resolve-HasTargets :
    (objects : List ObjectFile) (t : SymbolTable)
    → resolve objects ≡ ok t
    → (map reference_place t.references ≡ places 0 objects) × All (HasTarget t.symbols) t.references
unfolding resolve
resolve-HasTargets objects t h =
    let (_, _, h1) = >>=-eq-ok (check_inputs 0 objects) _ h in
    let (symbols, _, h2) = >>=-eq-ok (add_objects 0 [] objects) _ h1 in
    let (u, refers, h3) =
      >>=-eq-ok (refer_objects 0 symbols (record { symbols = []; references = [] }) objects) _ h2 in
    let b =
      refer_objects-IsBound 0 symbols [] (record { symbols = []; references = [] }) u objects
        (record { bound = tt; placed = refl }) refers in
    subst
      (λ (v : SymbolTable).
        (map reference_place v.references ≡ places 0 objects)
        × All (HasTarget v.symbols) v.references)
      (ok-injective {E = ResolveError}
        (record { symbols = u.symbols ++ symbols; references = u.references }) t h3)
      (b.placed, Bound-HasTargets u.symbols symbols u.references b.bound)
