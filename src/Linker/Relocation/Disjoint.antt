-- ===== src/Linker/Relocation/Disjoint.antt =====
-- The patches that pass the overlap test stand apart: it is enough to look at the nearest entries.
use whale.Prelude.{
  ℕ, ◌≡◌, ◌⊎◌, refl, sym, subst, Bool, true, false, not, ◌||◌, [], ◌∷◌, Option, none, some,
  some-injective, ltb, leb, ◌==◌, arith, All, Bool-cases, inl, inr,
}
use whale.Linker.Relocation.{
  Key, leb_key, Occupied, entry_before, entry_after, ends_after, starts_before, overlaps,
}
use whale.Linker.Relocation.Nearest.{
  Entry, In, leb_key_total, Below, Above, FoundBelow, FoundAbove, entry_before-Below,
  entry_before-FoundBelow, entry_after-Above, entry_after-FoundAbove,
}

-- Two entries of different sections, or of which one ends before the other starts.
abbrev pub apart : Entry → Entry → Bool
apart ((a, b, c), e) ((x, y, z), f) = not (a == x) || not (b == y) || leb e z || leb f c

abbrev pub nonempty : Entry → Bool
nonempty ((a, b, c), e) = ltb c e

abbrev pub AllApart : Entry → Occupied → Type 0
AllApart e = All (λ x. apart e x ≡ true)

-- Every entry has bytes and stands apart from the others.
abbrev pub IsSpread : Occupied → Type 0
IsSpread [] = Unit
IsSpread (e ∷ es) = (nonempty e ≡ true) × AllApart e es × IsSpread es

pub apart_sym : (e f : Entry) → apart e f ≡ true → apart f e ≡ true
apart_sym ((a, b, c), e) ((x, y, z), f) h = ground arith

-- An entry of a spread list is another entry or stands apart from it.
In-apart :
    (es : Occupied) (p : Entry) → IsSpread es → In p es → All (λ x. (x ≡ p) ⊎ (apart p x ≡ true)) es
In-apart [] p s m = tt
In-apart (e ∷ es) p s (inl h) = (inl h, others es s.1)
  where
    others : (xs : Occupied) → AllApart e xs → All (λ x. (x ≡ p) ⊎ (apart p x ≡ true)) xs
    others [] a = tt
    others (x ∷ xs) a = (inr (subst (λ q. apart q x ≡ true) h a.0), others xs a.1)
In-apart (e ∷ es) p s (inr m) = (inr (apart_sym e p (member es m s.1)), In-apart es p s.2 m)
  where
    member : (xs : Occupied) → In p xs → AllApart e xs → apart e p ≡ true
    member [] m' a = absurd m'
    member (x ∷ xs) (inl h) a = subst (λ q. apart e q ≡ true) h a.0
    member (x ∷ xs) (inr m') a = member xs m' a.1

-- What the nearest entries say of the entry `x`, of which the test let the new one pass.
abbrev Facts : Key → Entry → Entry → Type 0
Facts k x p = ((x ≡ p) ⊎ (apart p x ≡ true)) × (nonempty p ≡ true) × (leb_key p.0 k ≡ true)

below_same :
    (oi si offset end : ℕ) (x p : Entry)
    → x ≡ p
    → ends_after oi si offset (some p) ≡ false
    → apart ((oi, si, offset), end) x ≡ true
below_same oi si offset end x ((a, b, c), e) same h =
    subst (λ q. apart ((oi, si, offset), end) q ≡ true) (sym same) (ground arith)

below_far :
    (oi si offset end : ℕ) (x p : Entry)
    → leb_key x.0 p.0 ≡ true
    → apart p x ≡ true
    → nonempty p ≡ true
    → leb_key p.0 (oi, si, offset) ≡ true
    → ends_after oi si offset (some p) ≡ false
    → apart ((oi, si, offset), end) x ≡ true
below_far oi si offset end ((x, y, z), f) ((a, b, c), e) le far ne pk h = ground arith

Below-apart :
    (oi si offset end : ℕ) (x : Entry) (o : Option Entry)
    → Below (oi, si, offset) o x
    → ((p : Entry) → o ≡ some p → Facts (oi, si, offset) x p)
    → ends_after oi si offset o ≡ false
    → leb_key x.0 (oi, si, offset) ≡ true
    → apart ((oi, si, offset), end) x ≡ true
Below-apart oi si offset end x none b facts h le = cc
Below-apart oi si offset end x (some p) (inl b) facts h le = cc
Below-apart oi si offset end x (some p) (inr b) facts h le =
    let (which, ne, pk) = facts p refl in
    elim which [
      | inl same ↦ below_same oi si offset end x p same h
      | inr far ↦ below_far oi si offset end x p b far ne pk h
    ]

above_far :
    (oi si offset end : ℕ) (x p : Entry)
    → leb_key p.0 x.0 ≡ true
    → leb_key (oi, si, offset) p.0 ≡ true
    → starts_before oi si end (some p) ≡ false
    → apart ((oi, si, offset), end) x ≡ true
above_far oi si offset end ((x, y, z), f) ((a, b, c), e) le pk h = ground arith

Above-apart :
    (oi si offset end : ℕ) (x : Entry) (o : Option Entry)
    → Above (oi, si, offset) o x
    → FoundAbove (oi, si, offset) o
    → starts_before oi si end o ≡ false
    → leb_key (oi, si, offset) x.0 ≡ true
    → apart ((oi, si, offset), end) x ≡ true
Above-apart oi si offset end x none b found h le = cc
Above-apart oi si offset end x (some p) (inl b) found h le = cc
Above-apart oi si offset end x (some p) (inr b) found h le =
    above_far oi si offset end x p b found h

In-All : (P : Entry → Type 0) (es : Occupied) (p : Entry) → All P es → In p es → P p
In-All P [] p h m = absurd m
In-All P (x ∷ es) p h (inl e) = subst P e h.0
In-All P (x ∷ es) p h (inr m) = In-All P es p h.1 m

IsSpread-nonempty : (es : Occupied) → IsSpread es → All (λ x. nonempty x ≡ true) es
IsSpread-nonempty [] s = tt
IsSpread-nonempty (e ∷ es) s = (s.0, IsSpread-nonempty es s.2)

-- The facts of every entry, entry by entry.
All-zip :
    (P Q R S : Entry → Type 0) (es : Occupied)
    → ((x : Entry) → P x → Q x → R x → S x)
    → All P es
    → All Q es
    → All R es
    → All S es
All-zip P Q R S [] f p q r = tt
All-zip P Q R S (x ∷ es) f p q r = (f x p.0 q.0 r.0, All-zip P Q R S es f p.1 q.1 r.1)

All-map : (P Q : Entry → Type 0) (es : Occupied) → ((x : Entry) → P x → Q x) → All P es → All Q es
All-map P Q [] f p = tt
All-map P Q (x ∷ es) f p = (f x p.0, All-map P Q es f p.1)

abbrev FactsOf : Key → Option Entry → Entry → Type 0
FactsOf k o x = (p : Entry) → o ≡ some p → Facts k x p

found_facts :
    (k : Key) (es : Occupied) (o : Option Entry)
    → IsSpread es
    → FoundBelow k es o
    → All (FactsOf k o) es
found_facts k es none s f =
    All-map (λ x. nonempty x ≡ true) (FactsOf k none) es (λ x _ p e. cc) (IsSpread-nonempty es s)
found_facts k es (some q) s (m, below) =
    All-map (λ x. (x ≡ q) ⊎ (apart q x ≡ true)) (FactsOf k (some q)) es
      (λ x which p e.
        subst (Facts k x) (some-injective q p e)
          (which, In-All (λ y. nonempty y ≡ true) es q (IsSpread-nonempty es s) m, below))
      (In-apart es q s m)

-- A patch that the test lets pass stands apart from every patch before it.
pub overlaps-AllApart :
    (oi si offset end : ℕ) (es : Occupied)
    → IsSpread es
    → overlaps oi si offset end es ≡ false
    → AllApart ((oi, si, offset), end) es
unfolding overlaps
overlaps-AllApart oi si offset end es s h =
    let k : Key = (oi, si, offset) in
    let ob = entry_before k es in
    let oa = entry_after k es in
    All-zip (Below k ob) (Above k oa) (FactsOf k ob) (λ x. apart (k, end) x ≡ true) es
      (λ x b a f. elim (Bool-cases (leb_key x.0 k)) [
        | inl le ↦ Below-apart oi si offset end x ob b f (ground (arith, h)) le
        | inr gt ↦
            Above-apart oi si offset end x oa a (entry_after-FoundAbove k es) (ground (arith, h))
              (leb_key_total x.0 k gt)
      ])
      (entry_before-Below k es) (entry_after-Above k es)
      (found_facts k es ob s (entry_before-FoundBelow k es))
