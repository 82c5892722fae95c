-- ===== src/Linker/Symbols/Chosen.antt =====
-- Which definition a name resolves to.
use whale.Prelude.{
  ℕ, suc, ◌≡◌, refl, sym, subst, ap, ◌∙◌, Bool, true, false, not, ◌&&◌, List, [], ◌∷◌, ◌++◌, Option,
  none, some, some-injective, ok, ok-injective, if◌then◌else◌, Bool-cases, inl, inr, ◌⊎◌, >>=-eq-ok,
  arith,
}
use whale.Names.{Name, same_name, same_name-eq}
use whale.Object.{SymbolBinding, local, global, weak, is_local, ObjectSymbol, ObjectFile}
use whale.Linker.Symbols.{
  SymbolKey, global_key, local_key, same_key, ResolvedSymbol, Symbols, lookup, ResolveError,
  is_some, key_for, key_of, resolved_of, add_over, add_at, add_symbol, add_defined, add_symbols,
  add_objects,
}

pub same_key-eq : (a b : SymbolKey) → same_key a b ≡ true → a ≡ b
same_key-eq (global_key a) (global_key b) h = ap global_key (same_name-eq a b h)
same_key-eq (local_key i a) (local_key j b) h = ground (arith, same_name-eq a b)
same_key-eq (global_key a) (local_key j b) h = cc
same_key-eq (local_key i a) (global_key b) h = cc

-- The definitions of the key `k`, in input order.
unfoldable pub definition_of : SymbolKey → ℕ → ObjectSymbol → List ResolvedSymbol
definition_of k i s =
    if is_some s.section_index && same_key k (key_of i s) then resolved_of i s ∷ [] else []

unfoldable pub definitions_in : SymbolKey → ℕ → List ObjectSymbol → List ResolvedSymbol
unfolding definition_of
definitions_in k i [] = []
definitions_in k i (s ∷ ss) = definition_of k i s ++ definitions_in k i ss

abbrev pub definitions : SymbolKey → ℕ → List ObjectFile → List ResolvedSymbol
definitions k i [] = []
definitions k i (o ∷ os) = definitions_in k i o.symbols ++ definitions k (suc i) os

abbrev pub is_strong : SymbolBinding → Bool
is_strong global = true
is_strong _ = false

-- The first strong definition, or the given one.
abbrev pub strong_or : Option ResolvedSymbol → List ResolvedSymbol → Option ResolvedSymbol
strong_or o [] = o
strong_or o (d ∷ ds) = if is_strong d.binding then some d else strong_or o ds

-- The first definition.
abbrev pub first : List ResolvedSymbol → Option ResolvedSymbol
first [] = none
first (d ∷ ds) = some d

-- The chosen definition: the first strong one, else the first.
abbrev pub chosen : List ResolvedSymbol → Option ResolvedSymbol
chosen ds = strong_or (first ds) ds

-- The same after an entry has been made.
abbrev pub after : Option ResolvedSymbol → List ResolvedSymbol → Option ResolvedSymbol
after none ds = chosen ds
after (some e) ds = if is_strong e.binding then some e else strong_or (some e) ds

strong_or-append :
    (e : ResolvedSymbol) (ds es : List ResolvedSymbol)
    → is_strong e.binding ≡ false
    → after (strong_or (some e) ds) es ≡ strong_or (some e) (ds ++ es)
strong_or-append e [] es w = ground (arith, w)
strong_or-append e (d ∷ ds) es w = elim (Bool-cases (is_strong d.binding)) [
  | inl y ↦ ground (arith, y)
  | inr n ↦ ground (arith, n, strong_or-append e ds es w)
]

after-append :
    (o : Option ResolvedSymbol) (ds es : List ResolvedSymbol)
    → after (after o ds) es ≡ after o (ds ++ es)
after-append none [] es = refl
after-append none (d ∷ ds) es = elim (Bool-cases (is_strong d.binding)) [
  | inl y ↦ ground (arith, y)
  | inr n ↦ ground (arith, n, strong_or-append d ds es n)
]
after-append (some e) ds es = elim (Bool-cases (is_strong e.binding)) [
  | inl y ↦ ground (arith, y)
  | inr n ↦ ground (arith, n, strong_or-append e ds es n)
]

-- An entry under a global key is global or weak.
abbrev pub Keyed : Symbols → Type 0
Keyed t =
    (name : Name) (e : ResolvedSymbol)
    → lookup (global_key name) t ≡ some e
    → is_local e.binding ≡ false

-- The entry for `k` after one more definition.
abbrev pub Updated : SymbolKey → ℕ → Symbols → ObjectSymbol → Symbols → Type 0
Updated k i t s t' =
    lookup k t'
    ≡ (if same_key k (key_of i s) then after (lookup k t) (resolved_of i s ∷ []) else lookup k t)

insert-Updated :
    (k : SymbolKey) (i : ℕ) (t : Symbols) (s : ObjectSymbol)
    → after (lookup (key_of i s) t) (resolved_of i s ∷ []) ≡ some (resolved_of i s)
    → Updated k i t s ((key_of i s, resolved_of i s) ∷ t)
insert-Updated k i t s h = elim (Bool-cases (same_key k (key_of i s))) [
  | inl y ↦ ground (
    arith,
    y,
    subst (λ key. after (lookup key t) (resolved_of i s ∷ []) ≡ some (resolved_of i s))
        (sym (same_key-eq k (key_of i s) y)) h,
  )
  | inr n ↦ ground (arith, n)
]

keep-Updated :
    (k : SymbolKey) (i : ℕ) (t : Symbols) (s : ObjectSymbol)
    → after (lookup (key_of i s) t) (resolved_of i s ∷ []) ≡ lookup (key_of i s) t
    → Updated k i t s t
keep-Updated k i t s h = elim (Bool-cases (same_key k (key_of i s))) [
  | inl y ↦ ground (
    arith,
    y,
    subst (λ key. after (lookup key t) (resolved_of i s ∷ []) ≡ lookup key t)
        (sym (same_key-eq k (key_of i s) y)) h,
  )
  | inr n ↦ ground (arith, n)
]

-- What `after` gives for one more definition, from the two bindings.
after-one :
    (eb sb : SymbolBinding) (o : Option ResolvedSymbol) (e r : ResolvedSymbol)
    → eb ≡ e.binding
    → sb ≡ r.binding
    → o ≡ some e
    → after o (r ∷ []) ≡ some (if not (is_strong eb) && is_strong sb then r else e)
after-one eb sb none e r p q found = cc
after-one eb sb (some e') e r p q found =
    subst
      (λ x. after (some x) (r ∷ []) ≡ some (if not (is_strong eb) && is_strong sb then r else e))
      (sym (some-injective e' e found))
      (subst
        (λ b.
          (if is_strong e.binding then some e else if is_strong r.binding then some r else some e)
          ≡ some (if not (is_strong b) && is_strong sb then r else e))
        (sym p)
        (subst
          (λ b.
            (if is_strong e.binding then some e else if is_strong r.binding then some r else some e)
            ≡ some (if not (is_strong e.binding) && is_strong b then r else e))
          (sym q) (ground arith)))

add_over-Updated :
    (k : SymbolKey) (eb sb : SymbolBinding) (i : ℕ) (t t' : Symbols) (s : ObjectSymbol)
    (e : ResolvedSymbol)
    → eb ≡ e.binding
    → sb ≡ s.binding
    → lookup (key_of i s) t ≡ some e
    → is_local eb ≡ false
    → is_local sb ≡ false
    → add_over eb sb i t s e ≡ ok t'
    → Updated k i t s t'
add_over-Updated k global global i t t' s e p q found le ls h = cc
add_over-Updated k global weak i t t' s e p q found le ls h =
    subst (Updated k i t s) (ok-injective _ t' h)
      (keep-Updated k i t s (after-one global weak _ e (resolved_of i s) p q found ∙ sym found))
add_over-Updated k weak weak i t t' s e p q found le ls h =
    subst (Updated k i t s) (ok-injective _ t' h)
      (keep-Updated k i t s (after-one weak weak _ e (resolved_of i s) p q found ∙ sym found))
add_over-Updated k weak global i t t' s e p q found le ls h =
    subst (Updated k i t s) (ok-injective _ t' h)
      (insert-Updated k i t s (after-one weak global _ e (resolved_of i s) p q found))
add_over-Updated k local sb i t t' s e p q found le ls h = cc
add_over-Updated k _ local i t t' s e p q found le ls h = cc

add_at-Updated :
    (k : SymbolKey) (i : ℕ) (t t' : Symbols) (s : ObjectSymbol) (o : Option ResolvedSymbol)
    → lookup (key_of i s) t ≡ o
    → ((e : ResolvedSymbol) → o ≡ some e → is_local s.binding ≡ false → is_local e.binding ≡ false)
    → add_at i t s o ≡ ok t'
    → Updated k i t s t'
add_at-Updated k i t t' s none found keyed h =
    subst (Updated k i t s) (ok-injective _ t' h)
      (insert-Updated k i t s (ground (arith, ap (λ o. after o (resolved_of i s ∷ [])) found)))
add_at-Updated k i t t' s (some e) found keyed h = elim (Bool-cases (is_local s.binding)) [
  | inl y ↦ ground (arith, y)
  | inr n ↦
      add_over-Updated k e.binding s.binding i t t' s e refl refl found (keyed e refl n) n
        (ground (arith, n, h))
]

insert-Keyed :
    (i : ℕ) (t : Symbols) (s : ObjectSymbol) → Keyed t → Keyed ((key_of i s, resolved_of i s) ∷ t)
insert-Keyed i t s keyed name e found = elim (Bool-cases (is_local s.binding)) [
  | inl y ↦ keyed name e (ground (arith, y, found))
  | inr n ↦ elim (Bool-cases (same_name name s.name)) [
    | inl same ↦
        ap (λ (r : ResolvedSymbol). is_local r.binding)
          (sym (some-injective (resolved_of i s) e (ground (arith, n, same, found))))
        ∙ n
    | inr other ↦ keyed name e (ground (arith, n, other, found))
  ]
]

-- A step keeps the table or puts its symbol in front.
add_over-step :
    (eb sb : SymbolBinding) (i : ℕ) (t t' : Symbols) (s : ObjectSymbol) (e : ResolvedSymbol)
    → add_over eb sb i t s e ≡ ok t'
    → (t ≡ t') ⊎ (((key_of i s, resolved_of i s) ∷ t) ≡ t')
add_over-step global global i t t' s e h = cc
add_over-step global weak i t t' s e h = inl (ok-injective _ t' h)
add_over-step weak weak i t t' s e h = inl (ok-injective _ t' h)
add_over-step local sb i t t' s e h = inr (ok-injective _ t' h)
add_over-step global local i t t' s e h = inr (ok-injective _ t' h)
add_over-step weak local i t t' s e h = inr (ok-injective _ t' h)
add_over-step weak global i t t' s e h = inr (ok-injective _ t' h)

add_at-step :
    (i : ℕ) (t t' : Symbols) (s : ObjectSymbol) (o : Option ResolvedSymbol)
    → add_at i t s o ≡ ok t'
    → (t ≡ t') ⊎ (((key_of i s, resolved_of i s) ∷ t) ≡ t')
add_at-step i t t' s none h = inr (ok-injective _ t' h)
add_at-step i t t' s (some e) h = elim (Bool-cases (is_local s.binding)) [
  | inl y ↦ absurd (ground (arith, y, h))
  | inr n ↦ add_over-step e.binding s.binding i t t' s e (ground (arith, n, h))
]

unfoldable pub Step : SymbolKey → ℕ → Symbols → List ResolvedSymbol → Symbols → Type 0
Step k i t ds t' = Keyed t' × (lookup k t' ≡ after (lookup k t) ds)

pub add_symbol-Step :
    (k : SymbolKey) (i : ℕ) (t t' : Symbols) (s : ObjectSymbol)
    → Keyed t
    → add_symbol i t s ≡ ok t'
    → Keyed t' × Updated k i t s t'
unfolding add_symbol
add_symbol-Step k i t t' s keyed h = (
  elim (add_at-step i t t' s (lookup (key_of i s) t) h) [
    | inl same ↦ subst Keyed same keyed
    | inr new ↦ subst Keyed new (insert-Keyed i t s keyed)
  ],
  add_at-Updated k i t t' s (lookup (key_of i s) t) refl
      (λ e found n. keyed s.name e (subst (λ b. lookup (key_for b i s.name) t ≡ some e) n found)) h,
)

-- No definition changes nothing.
after-nil : (o : Option ResolvedSymbol) → after o [] ≡ o
after-nil none = refl
after-nil (some e) = ground arith

pub add_defined-Step :
    (k : SymbolKey) (i : ℕ) (t t' : Symbols) (s : ObjectSymbol)
    → Keyed t
    → add_defined i t s ≡ ok t'
    → Step k i t (definition_of k i s) t'
unfolding definition_of Step
add_defined-Step k i t t' s keyed h = elim (Bool-cases (is_some s.section_index)) [
  | inl y ↦
      let (kept, now) = add_symbol-Step k i t t' s keyed (ground (arith, y, h)) in
      (kept, ground (arith, y, now, after-nil (lookup k t)))
  | inr n ↦
      let same = ok-injective {E = ResolveError} t t' (ground (arith, n, h)) in
      (subst Keyed same keyed, ground (arith, n, same, after-nil (lookup k t)))
]

pub add_symbols-Step :
    (k : SymbolKey) (i : ℕ) (t t' : Symbols) (ss : List ObjectSymbol)
    → Keyed t
    → add_symbols i t ss ≡ ok t'
    → Step k i t (definitions_in k i ss) t'
unfolding Step definitions_in
add_symbols-Step k i t t' [] keyed h =
    let same = ok-injective {E = ResolveError} t t' h in
    (subst Keyed same keyed, sym (ap (lookup k) same) ∙ sym (after-nil (lookup k t)))
add_symbols-Step k i t t' (s ∷ ss) keyed h =
    let (u, one, rest) = >>=-eq-ok (add_defined i t s) _ h in
    let (kept, now) = add_defined-Step k i t u s keyed one in
    let (kept', next) = add_symbols-Step k i u t' ss kept rest in
    (
      kept',
      next
          ∙ ap (λ o. after o (definitions_in k i ss)) now
          ∙ after-append (lookup k t) (definition_of k i s) (definitions_in k i ss),
    )

pub add_objects-Step :
    (k : SymbolKey) (i : ℕ) (t t' : Symbols) (os : List ObjectFile)
    → Keyed t
    → add_objects i t os ≡ ok t'
    → Step k i t (definitions k i os) t'
unfolding Step
add_objects-Step k i t t' [] keyed h =
    let same = ok-injective {E = ResolveError} t t' h in
    (subst Keyed same keyed, sym (ap (lookup k) same) ∙ sym (after-nil (lookup k t)))
add_objects-Step k i t t' (o ∷ os) keyed h =
    let (u, one, rest) = >>=-eq-ok (add_symbols i t o.symbols) _ h in
    let (kept, now) = add_symbols-Step k i t u o.symbols keyed one in
    let (kept', next) = add_objects-Step k (suc i) u t' os kept rest in
    (
      kept',
      next
          ∙ ap (λ r. after r (definitions k (suc i) os)) now
          ∙ after-append (lookup k t) (definitions_in k i o.symbols) (definitions k (suc i) os),
    )

-- When the definitions of the objects are collected without an error, a key stands for the first
-- strong definition of that key in input order, for the first definition when none is strong, and
-- for nothing when there is no definition.
pub add_objects-chosen :
    (objects : List ObjectFile) (t : Symbols) (k : SymbolKey)
    → add_objects 0 [] objects ≡ ok t
    → lookup k t ≡ chosen (definitions k 0 objects)
unfolding Step
add_objects-chosen objects t k h = (add_objects-Step k 0 [] t objects (λ name e bad. absurd cc) h).1
