-- ===== src/Linker/Symbols/Unique.antt =====
-- A name has at most one strong definition.
use whale.Prelude.{
  ℕ, suc, ◌+◌, ◌≤◌, ◌≡◌, refl, sym, subst, Bool, true, false, ◌&&◌, List, [], ◌∷◌, ◌++◌, Option,
  none, some, ok, ok-injective, Bool-cases, inl, inr, >>=-eq-ok, arith,
}
use whale.Object.{SymbolBinding, local, global, weak, is_local, ObjectSymbol, ObjectFile}
use whale.Linker.Symbols.{
  SymbolKey, same_key, ResolvedSymbol, Symbols, lookup, ResolveError, is_some, key_of, resolved_of,
  add_over, add_at, add_symbol, add_defined, add_symbols, add_objects,
}
use whale.Linker.Symbols.Chosen.{
  same_key-eq, definition_of, definitions_in, definitions, is_strong, after, Keyed, Step,
  add_symbol-Step, add_defined-Step, add_symbols-Step,
}

abbrev one_if : Bool → ℕ
one_if true = 1
one_if false = 0

abbrev pub strong_count : List ResolvedSymbol → ℕ
strong_count [] = 0
strong_count (d ∷ ds) = one_if (is_strong d.binding) + strong_count ds

strong_count-append :
    (ds es : List ResolvedSymbol) → strong_count (ds ++ es) ≡ strong_count ds + strong_count es
strong_count-append [] es = omega arith
strong_count-append (d ∷ ds) es = omega (arith, strong_count-append ds es)

abbrev strong_entry : Option ResolvedSymbol → ℕ
strong_entry none = 0
strong_entry (some e) = one_if (is_strong e.binding)

strong_entry-le : (o : Option ResolvedSymbol) → strong_entry o ≤ 1
strong_entry-le none = omega arith
strong_entry-le (some e) = ground arith

add_over-strong :
    (eb sb : SymbolBinding) (i : ℕ) (t t' : Symbols) (s : ObjectSymbol) (e : ResolvedSymbol)
    → add_over eb sb i t s e ≡ ok t'
    → (is_strong eb && is_strong sb) ≡ false
add_over-strong global global i t t' s e h = cc
add_over-strong global weak i t t' s e h = refl
add_over-strong global local i t t' s e h = refl
add_over-strong weak sb i t t' s e h = refl
add_over-strong local sb i t t' s e h = refl

-- The entry after one more definition counts both.
add_at-counts :
    (i : ℕ) (t t' : Symbols) (s : ObjectSymbol) (o : Option ResolvedSymbol)
    → add_at i t s o ≡ ok t'
    → strong_entry o + one_if (is_strong s.binding) ≤ strong_entry (after o (resolved_of i s ∷ []))
add_at-counts i t t' s none h = ground arith
add_at-counts i t t' s (some e) h = elim (Bool-cases (is_local s.binding)) [
  | inl y ↦ absurd (ground (arith, y, h))
  | inr n ↦
      let both = add_over-strong e.binding s.binding i t t' s e (ground (arith, n, h)) in
      ground (arith, both)
]

-- What the entry of `k` counts after the definitions `ds`.
Counts : SymbolKey → Symbols → List ResolvedSymbol → Symbols → Type 0
Counts k t ds t' = strong_entry (lookup k t) + strong_count ds ≤ strong_entry (lookup k t')

add_defined-Counts :
    (k : SymbolKey) (i : ℕ) (t t' : Symbols) (s : ObjectSymbol)
    → Keyed t
    → add_defined i t s ≡ ok t'
    → Counts k t (definition_of k i s) t'
unfolding definition_of Counts add_symbol
add_defined-Counts k i t t' s keyed h = elim (Bool-cases (is_some s.section_index)) [
  | inl y ↦
      let added : add_symbol i t s ≡ ok t' = ground (arith, y, h) in
      let now = (add_symbol-Step k i t t' s keyed added).1 in
      elim (Bool-cases (same_key k (key_of i s))) [
        | inl same ↦
            let counts = add_at-counts i t t' s (lookup (key_of i s) t) added in
            let counts' =
              subst
                (λ key.
                  strong_entry (lookup key t) + one_if (is_strong s.binding)
                  ≤ strong_entry (after (lookup key t) (resolved_of i s ∷ [])))
                (sym (same_key-eq k (key_of i s) same)) counts in
            ground (arith, y, same, now, counts')
        | inr other ↦ ground (arith, y, other, now)
      ]
  | inr n ↦
      let same = ok-injective {E = ResolveError} t t' (ground (arith, n, h)) in
      ground (arith, n, same)
]

Counts-append :
    (k : SymbolKey) (t u v : Symbols) (ds es : List ResolvedSymbol)
    → Counts k t ds u
    → Counts k u es v
    → Counts k t (ds ++ es) v
unfolding Counts
Counts-append k t u v ds es a b = omega (arith, a, b, strong_count-append ds es)

Counts-nil : (k : SymbolKey) (t u : Symbols) → t ≡ u → Counts k t [] u
unfolding Counts
Counts-nil k t u h =
    subst (λ v. strong_entry (lookup k t) + 0 ≤ strong_entry (lookup k v)) h (omega arith)

defined-Keyed :
    (k : SymbolKey) (i : ℕ) (t u : Symbols) (s : ObjectSymbol)
    → Keyed t
    → add_defined i t s ≡ ok u
    → Keyed u
unfolding Step
defined-Keyed k i t u s keyed one = (add_defined-Step k i t u s keyed one).0

add_symbols-Counts :
    (k : SymbolKey) (i : ℕ) (t t' : Symbols) (ss : List ObjectSymbol)
    → Keyed t
    → add_symbols i t ss ≡ ok t'
    → Counts k t (definitions_in k i ss) t'
unfolding definitions_in
add_symbols-Counts k i t t' [] keyed h = Counts-nil k t t' (ok-injective {E = ResolveError} t t' h)
add_symbols-Counts k i t t' (s ∷ ss) keyed h =
    let (u, one, rest) = >>=-eq-ok (add_defined i t s) _ h in
    Counts-append k t u t' (definition_of k i s) (definitions_in k i ss)
      (add_defined-Counts k i t u s keyed one)
      (add_symbols-Counts k i u t' ss (defined-Keyed k i t u s keyed one) rest)

symbols-Keyed :
    (k : SymbolKey) (i : ℕ) (t u : Symbols) (ss : List ObjectSymbol)
    → Keyed t
    → add_symbols i t ss ≡ ok u
    → Keyed u
unfolding Step
symbols-Keyed k i t u ss keyed one = (add_symbols-Step k i t u ss keyed one).0

add_objects-Counts :
    (k : SymbolKey) (i : ℕ) (t t' : Symbols) (os : List ObjectFile)
    → Keyed t
    → add_objects i t os ≡ ok t'
    → Counts k t (definitions k i os) t'
add_objects-Counts k i t t' [] keyed h = Counts-nil k t t' (ok-injective {E = ResolveError} t t' h)
add_objects-Counts k i t t' (o ∷ os) keyed h =
    let (u, one, rest) = >>=-eq-ok (add_symbols i t o.symbols) _ h in
    Counts-append k t u t' (definitions_in k i o.symbols) (definitions k (suc i) os)
      (add_symbols-Counts k i t u o.symbols keyed one)
      (add_objects-Counts k (suc i) u t' os (symbols-Keyed k i t u o.symbols keyed one) rest)

-- Two strong definitions of one name are never collected: where the definitions of the objects are
-- collected without an error, every key has at most one strong definition.
pub add_objects_unique :
    (objects : List ObjectFile) (t : Symbols) (k : SymbolKey)
    → add_objects 0 [] objects ≡ ok t
    → strong_count (definitions k 0 objects) ≤ 1
unfolding Counts
add_objects_unique objects t k h = omega (
  arith,
  add_objects-Counts k 0 [] t objects (λ name e bad. absurd cc) h,
  strong_entry-le (lookup k t),
)
