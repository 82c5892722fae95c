-- ===== src/Linker/Selection/Demand.antt =====
-- The names that the selected objects demand, said without the sets and the work budget of
-- `unresolved`.
use whale.Prelude.{
  ℕ, ◌≡◌, refl, ap, sym, ◌∙◌, Bool, true, false, not, ◌&&◌, ◌||◌, List, [], ◌∷◌, ◌++◌, any, ok,
  ok-injective, >>=-eq-ok, arith, inl, inr, Bool-cases,
}
use whale.Names.{Name, same_name, same_name-eq, member}
use whale.Object.{is_local, is_weak, ObjectSymbol, ObjectRelocation, ObjectFile}
use whale.Linker.Symbols.{is_some}
use whale.Linker.Selection.{
  SelectError, charge, exported, add_if, define_symbols, define_objects, names_where, own_names,
  need_relocations, need_objects, unresolved,
}

-- A symbol of the name `n` with a property.
abbrev pub has_symbol : (ObjectSymbol → Bool) → Name → ObjectFile → Bool
has_symbol p n o = any (λ s. p s && same_name n s.name) o.symbols

-- The object has a relocation against `n`, and neither a local definition nor a weak undefined
-- symbol of that name.
abbrev pub asks : Name → ObjectFile → Bool
asks n o =
    any (λ r. same_name n r.symbol) o.relocations
    && not (has_symbol (λ s. is_local s.binding && is_some s.section_index) n o)
    && not (has_symbol (λ s. is_weak s.binding && not (is_some s.section_index)) n o)

-- No object defines `n` for others, and `n` is the entry or an object asks for it.
abbrev pub demanded : Name → List ObjectFile → Name → Bool
demanded entry os n = not (any (has_symbol exported n) os) && (same_name n entry || any (asks n) os)

add_if-member :
    (b : Bool) (n x : Name) (names : List Name)
    → member n (add_if b x names) ≡ (b && same_name n x || member n names)
add_if-member true n x names = refl
add_if-member false n x names = refl

define_symbols-member :
    (n : Name) (fuel fuel' : ℕ) (names names' : List Name) (ss : List ObjectSymbol)
    → define_symbols fuel names ss ≡ ok (fuel', names')
    → member n names' ≡ (any (λ s. exported s && same_name n s.name) ss || member n names)
unfolding define_symbols
define_symbols-member n fuel fuel' names names' [] h =
    let same = ok-injective {E = SelectError} (fuel, names) (fuel', names') h in
    ap (λ x. member n x.1) (sym same)
define_symbols-member n fuel fuel' names names' (s ∷ ss) h =
    let (fuel1, charged, rest) = >>=-eq-ok (charge fuel) _ h in
    let more = define_symbols-member n fuel1 fuel' _ names' ss rest in
    ground (arith, more, add_if-member (exported s) n s.name names)

define_objects-member :
    (n : Name) (fuel fuel' : ℕ) (names names' : List Name) (os : List ObjectFile)
    → define_objects fuel names os ≡ ok (fuel', names')
    → member n names' ≡ (any (has_symbol exported n) os || member n names)
unfolding define_objects
define_objects-member n fuel fuel' names names' [] h =
    let same = ok-injective {E = SelectError} (fuel, names) (fuel', names') h in
    ap (λ x. member n x.1) (sym same)
define_objects-member n fuel fuel' names names' (o ∷ os) h =
    let ((fuel1, names1), here, rest) = >>=-eq-ok (define_symbols fuel names o.symbols) _ h in
    let more = define_objects-member n fuel1 fuel' names1 names' os rest in
    ground (arith, more, define_symbols-member n fuel fuel1 names names1 o.symbols here)

any-append : (n : Name) (xs ys : List Name) → member n (xs ++ ys) ≡ (member n xs || member n ys)
any-append n [] ys = refl
any-append n (x ∷ xs) ys = ground (arith, any-append n xs ys)

names_where-member :
    (p : ObjectSymbol → Bool) (n : Name) (ss : List ObjectSymbol)
    → member n (names_where p ss) ≡ any (λ s. p s && same_name n s.name) ss
names_where-member p n [] = refl
names_where-member p n (s ∷ ss) =
    ground (arith, names_where-member p n ss, add_if-member (p s) n s.name (names_where p ss))

-- What a relocation adds to the needed names.
relocation_adds :
    (n x : Name) (defined own needed : List Name)
    → member n (add_if (not (member x defined) && not (member x own)) x needed)
      ≡ (same_name n x && not (member n defined) && not (member n own) || member n needed)
relocation_adds n x defined own needed = elim (Bool-cases (same_name n x)) [
  | inl y ↦
      let same = same_name-eq n x y in
      let before = ap (λ m. member m defined) same in
      let self = ap (λ m. member m own) same in
      add_if-member _ n x needed ∙ ground (arith, y, before, self)
  | inr d ↦ add_if-member _ n x needed ∙ ground (arith, d)
]

need_relocations-member :
    (n : Name) (fuel fuel' : ℕ) (defined own needed needed' : List Name)
    (rs : List ObjectRelocation)
    → need_relocations fuel defined own needed rs ≡ ok (fuel', needed')
    → member n needed' ≡ (
        any (λ r. same_name n r.symbol) rs && not (member n defined) && not (member n own)
        || member n needed)
unfolding need_relocations
need_relocations-member n fuel fuel' defined own needed needed' [] h =
    let same = ok-injective {E = SelectError} (fuel, needed) (fuel', needed') h in
    ap (λ x. member n x.1) (sym same)
need_relocations-member n fuel fuel' defined own needed needed' (r ∷ rs) h =
    let (fuel1, charged, rest) = >>=-eq-ok (charge fuel) _ h in
    let more = need_relocations-member n fuel1 fuel' defined own _ needed' rs rest in
    ground (arith, more, relocation_adds n r.symbol defined own needed)

own_names-member :
    (n : Name) (o : ObjectFile)
    → (any (λ r. same_name n r.symbol) o.relocations && not (member n (own_names o))) ≡ asks n o
own_names-member n o =
    let local = λ (s : ObjectSymbol). is_local s.binding && is_some s.section_index in
    let weak = λ (s : ObjectSymbol). is_weak s.binding && not (is_some s.section_index) in
    let both = any-append n (names_where local o.symbols) (names_where weak o.symbols) in
    ground (arith, both, names_where-member local n o.symbols, names_where-member weak n o.symbols)

need_objects-member :
    (n : Name) (fuel fuel' : ℕ) (defined needed needed' : List Name) (os : List ObjectFile)
    → need_objects fuel defined needed os ≡ ok (fuel', needed')
    → member n needed' ≡ (not (member n defined) && any (asks n) os || member n needed)
unfolding need_objects
need_objects-member n fuel fuel' defined needed needed' [] h =
    let same = ok-injective {E = SelectError} (fuel, needed) (fuel', needed') h in
    ap (λ x. member n x.1) (sym same) ∙ ground arith
need_objects-member n fuel fuel' defined needed needed' (o ∷ os) h =
    let ((fuel1, needed1), here, rest) =
      >>=-eq-ok (need_relocations fuel defined (own_names o) needed o.relocations) _ h in
    let more = need_objects-member n fuel1 fuel' defined needed1 needed' os rest in
    let step =
      need_relocations-member n fuel fuel1 defined (own_names o) needed needed1 o.relocations
        here in
    ground (arith, more, step, own_names-member n o)

entry_adds :
    (n x : Name) (defined : List Name)
    → member n (add_if (not (member x defined)) x []) ≡ (same_name n x && not (member n defined))
entry_adds n x defined = elim (Bool-cases (same_name n x)) [
  | inl y ↦
      let before = ap (λ m. member m defined) (same_name-eq n x y) in
      add_if-member _ n x [] ∙ ground (arith, y, before)
  | inr d ↦ add_if-member _ n x [] ∙ ground (arith, d)
]

-- A name is in the set that `unresolved` returns exactly when it is demanded.
pub unresolved-demanded :
    (n entry : Name) (fuel fuel' : ℕ) (demand : List Name) (os : List ObjectFile)
    → unresolved os entry fuel ≡ ok (fuel', demand)
    → member n demand ≡ demanded entry os n
unfolding unresolved
unresolved-demanded n entry fuel fuel' demand os h =
    let ((fuel1, defined), here, rest) = >>=-eq-ok (define_objects fuel [] os) _ h in
    let defines = define_objects-member n fuel fuel1 [] defined os here in
    let needs = need_objects-member n fuel1 fuel' defined _ demand os rest in
    ground (arith, needs, defines, entry_adds n entry defined)
