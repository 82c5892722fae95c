-- ===== src/Names.antt =====
-- Names as Rust's `String` holds them: the list of their UTF-8 bytes. Comparison and
-- `name.contains('\0')`.
use whale.Prelude.{ℕ, ◌≡◌, refl, Bool, true, false, ◌&&◌, List, [], ◌∷◌, ◌==◌, any, arith}

abbrev pub Name : Type 0
Name = List ℕ

abbrev pub same_name : Name → Name → Bool
same_name [] [] = true
same_name [] (y ∷ ys) = false
same_name (x ∷ xs) [] = false
same_name (x ∷ xs) (y ∷ ys) = x == y && same_name xs ys

abbrev pub has_nul : Name → Bool
has_nul = any (λ b. b == 0)

pub same_name-eq : (a b : Name) → same_name a b ≡ true → a ≡ b
same_name-eq [] [] h = refl
same_name-eq [] (y ∷ ys) h = cc
same_name-eq (x ∷ xs) [] h = cc
same_name-eq (x ∷ xs) (y ∷ ys) h = ground (arith, same_name-eq xs ys)

pub same_name_self : (a : Name) → same_name a a ≡ true
same_name_self [] = refl
same_name_self (x ∷ xs) = ground (arith, same_name_self xs)

-- `set.contains(name)` for a set of names kept as a list.
abbrev pub member : Name → List Name → Bool
member x = any (same_name x)
