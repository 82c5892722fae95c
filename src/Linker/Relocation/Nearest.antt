-- ===== src/Linker/Relocation/Nearest.antt =====
-- The entry that a range query of `occupied` finds is the nearest to the key.
use whale.Prelude.{
  ℕ, ◌≡◌, ◌⊎◌, refl, sym, subst, true, false, [], ◌∷◌, Option, none, some, arith, All, Bool-cases,
  inl, inr,
}
use whale.Linker.Relocation.{
  Key, leb_key, Occupied, later_entry, earlier_entry, entry_before, entry_after,
}

abbrev pub Entry : Type 0
Entry = Key × ℕ

abbrev pub In : Entry → Occupied → Type 0
In p [] = ⊥
In p (x ∷ xs) = (x ≡ p) ⊎ In p xs

leb_key_refl : (k : Key) → leb_key k k ≡ true
leb_key_refl (a, b, c) = ground arith

leb_key_trans : (i j k : Key) → leb_key i j ≡ true → leb_key j k ≡ true → leb_key i k ≡ true
leb_key_trans (a, b, c) (d, e, f) (x, y, z) p q = ground arith

pub leb_key_total : (i j : Key) → leb_key i j ≡ false → leb_key j i ≡ true
leb_key_total (a, b, c) (x, y, z) p = ground arith

-- What the entry found says of the entry `x`, for the nearest from below and from above.
abbrev pub Below : Key → Option Entry → Entry → Type 0
Below k none x = leb_key x.0 k ≡ false
Below k (some p) x = (leb_key x.0 k ≡ false) ⊎ (leb_key x.0 p.0 ≡ true)

abbrev pub Above : Key → Option Entry → Entry → Type 0
Above k none x = leb_key k x.0 ≡ false
Above k (some p) x = (leb_key k x.0 ≡ false) ⊎ (leb_key p.0 x.0 ≡ true)

-- The entry found is one of the entries, and on its side of the key.
abbrev pub FoundBelow : Key → Occupied → Option Entry → Type 0
FoundBelow k es none = Unit
FoundBelow k es (some p) = In p es × (leb_key p.0 k ≡ true)

abbrev pub FoundAbove : Key → Option Entry → Type 0
FoundAbove k none = Unit
FoundAbove k (some p) = leb_key k p.0 ≡ true

later-Below :
    (k : Key) (e x : Entry) (o : Option Entry) → Below k o x → Below k (some (later_entry e o)) x
later-Below k e x none b = inl b
later-Below k e x (some p) (inl b) = inl b
later-Below k e x (some p) (inr b) = elim (Bool-cases (leb_key p.0 e.0)) [
  | inl y ↦ inr (rw y (leb_key_trans x.0 p.0 e.0 b y))
  | inr n ↦ inr (rw n b)
]

later_self : (k : Key) (e : Entry) (o : Option Entry) → Below k (some (later_entry e o)) e
later_self k e none = inr (leb_key_refl e.0)
later_self k e (some p) = elim (Bool-cases (leb_key p.0 e.0)) [
  | inl y ↦ inr (rw y (leb_key_refl e.0))
  | inr n ↦ inr (rw n (leb_key_total p.0 e.0 n))
]

All-later :
    (k : Key) (e : Entry) (o : Option Entry) (es : Occupied)
    → All (Below k o) es
    → All (Below k (some (later_entry e o))) es
All-later k e o [] h = tt
All-later k e o (x ∷ es) (b, h) = (later-Below k e x o b, All-later k e o es h)

before_take :
    (k : Key) (e : Entry) (es : Occupied)
    → leb_key e.0 k ≡ true
    → entry_before k (e ∷ es) ≡ some (later_entry e (entry_before k es))
unfolding entry_before
before_take k e es y = rw y

before_skip :
    (k : Key) (e : Entry) (es : Occupied)
    → leb_key e.0 k ≡ false
    → entry_before k (e ∷ es) ≡ entry_before k es
unfolding entry_before
before_skip k e es n = rw n

skipped-Below : (k : Key) (e : Entry) (o : Option Entry) → leb_key e.0 k ≡ false → Below k o e
skipped-Below k e none n = n
skipped-Below k e (some p) n = inl n

pub entry_before-Below : (k : Key) (es : Occupied) → All (Below k (entry_before k es)) es
entry_before-Below k [] = tt
entry_before-Below k (e ∷ es) = elim (Bool-cases (leb_key e.0 k)) [
  | inl y ↦
      subst (λ o. All (Below k o) (e ∷ es)) (sym (before_take k e es y))
        (
          later_self k e (entry_before k es),
          All-later k e (entry_before k es) es (entry_before-Below k es),
        )
  | inr n ↦
      subst (λ o. All (Below k o) (e ∷ es)) (sym (before_skip k e es n))
        (skipped-Below k e (entry_before k es) n, entry_before-Below k es)
]

later_cases : (e p : Entry) → (later_entry e (some p) ≡ e) ⊎ (later_entry e (some p) ≡ p)
later_cases e p = elim (Bool-cases (leb_key p.0 e.0)) [ inl y ↦ inl (rw y) | inr n ↦ inr (rw n) ]

found_later :
    (k : Key) (e : Entry) (es : Occupied) (o : Option Entry)
    → leb_key e.0 k ≡ true
    → FoundBelow k es o
    → FoundBelow k (e ∷ es) (some (later_entry e o))
found_later k e es none y h = (inl refl, y)
found_later k e es (some p) y h = elim (later_cases e p) [
  | inl t ↦ subst (λ x. FoundBelow k (e ∷ es) (some x)) (sym t) (inl refl, y)
  | inr f ↦ subst (λ x. FoundBelow k (e ∷ es) (some x)) (sym f) (inr h.0, h.1)
]

found_rest :
    (k : Key) (e : Entry) (es : Occupied) (o : Option Entry)
    → FoundBelow k es o
    → FoundBelow k (e ∷ es) o
found_rest k e es none h = tt
found_rest k e es (some p) h = (inr h.0, h.1)

pub entry_before-FoundBelow : (k : Key) (es : Occupied) → FoundBelow k es (entry_before k es)
unfolding entry_before
entry_before-FoundBelow k [] = tt
entry_before-FoundBelow k (e ∷ es) = elim (Bool-cases (leb_key e.0 k)) [
  | inl y ↦
      subst (FoundBelow k (e ∷ es)) (sym (before_take k e es y))
        (found_later k e es (entry_before k es) y (entry_before-FoundBelow k es))
  | inr n ↦
      subst (FoundBelow k (e ∷ es)) (sym (before_skip k e es n))
        (found_rest k e es (entry_before k es) (entry_before-FoundBelow k es))
]

-- The same from above.
after_take :
    (k : Key) (e : Entry) (es : Occupied)
    → leb_key k e.0 ≡ true
    → entry_after k (e ∷ es) ≡ some (earlier_entry e (entry_after k es))
unfolding entry_after
after_take k e es y = rw y

after_skip :
    (k : Key) (e : Entry) (es : Occupied)
    → leb_key k e.0 ≡ false
    → entry_after k (e ∷ es) ≡ entry_after k es
unfolding entry_after
after_skip k e es n = rw n

earlier-Above :
    (k : Key) (e x : Entry) (o : Option Entry) → Above k o x → Above k (some (earlier_entry e o)) x
earlier-Above k e x none b = inl b
earlier-Above k e x (some p) (inl b) = inl b
earlier-Above k e x (some p) (inr b) = elim (Bool-cases (leb_key e.0 p.0)) [
  | inl y ↦ inr (rw y (leb_key_trans e.0 p.0 x.0 y b))
  | inr n ↦ inr (rw n b)
]

earlier_self : (k : Key) (e : Entry) (o : Option Entry) → Above k (some (earlier_entry e o)) e
earlier_self k e none = inr (leb_key_refl e.0)
earlier_self k e (some p) = elim (Bool-cases (leb_key e.0 p.0)) [
  | inl y ↦ inr (rw y (leb_key_refl e.0))
  | inr n ↦ inr (rw n (leb_key_total e.0 p.0 n))
]

All-earlier :
    (k : Key) (e : Entry) (o : Option Entry) (es : Occupied)
    → All (Above k o) es
    → All (Above k (some (earlier_entry e o))) es
All-earlier k e o [] h = tt
All-earlier k e o (x ∷ es) (b, h) = (earlier-Above k e x o b, All-earlier k e o es h)

skipped-Above : (k : Key) (e : Entry) (o : Option Entry) → leb_key k e.0 ≡ false → Above k o e
skipped-Above k e none n = n
skipped-Above k e (some p) n = inl n

pub entry_after-Above : (k : Key) (es : Occupied) → All (Above k (entry_after k es)) es
entry_after-Above k [] = tt
entry_after-Above k (e ∷ es) = elim (Bool-cases (leb_key k e.0)) [
  | inl y ↦
      subst (λ o. All (Above k o) (e ∷ es)) (sym (after_take k e es y))
        (
          earlier_self k e (entry_after k es),
          All-earlier k e (entry_after k es) es (entry_after-Above k es),
        )
  | inr n ↦
      subst (λ o. All (Above k o) (e ∷ es)) (sym (after_skip k e es n))
        (skipped-Above k e (entry_after k es) n, entry_after-Above k es)
]

earlier-FoundAbove :
    (k : Key) (e : Entry) (o : Option Entry)
    → leb_key k e.0 ≡ true
    → FoundAbove k o
    → FoundAbove k (some (earlier_entry e o))
earlier-FoundAbove k e none y h = y
earlier-FoundAbove k e (some p) y h = elim (Bool-cases (leb_key e.0 p.0)) [
  | inl t ↦ rw t y
  | inr f ↦ rw f h
]

pub entry_after-FoundAbove : (k : Key) (es : Occupied) → FoundAbove k (entry_after k es)
unfolding entry_after
entry_after-FoundAbove k [] = tt
entry_after-FoundAbove k (e ∷ es) = elim (Bool-cases (leb_key k e.0)) [
  | inl y ↦
      subst (FoundAbove k) (sym (after_take k e es y))
        (earlier-FoundAbove k e (entry_after k es) y (entry_after-FoundAbove k es))
  | inr n ↦ subst (FoundAbove k) (sym (after_skip k e es n)) (entry_after-FoundAbove k es)
]
