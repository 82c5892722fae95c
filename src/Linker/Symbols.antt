-- ===== src/Linker/Symbols.antt =====
-- linker/src/core/symbol_table.rs: symbol resolution over the selected objects. A hash map is an
-- association list, where an insertion stands in front of what it replaces; no result depends on
-- the order of a map. Errors keep their kind and place; the message text is not modelled.
pub mod Chosen
pub mod Bound
pub mod Unique
use whale.Prelude.{
  ℕ, suc, Bool, true, false, not, ◌&&◌, List, [], ◌∷◌, ◌++◌, Option, none, some, Result, ok, err,
  ◌>>=◌, ◌>>◌, fail_if, map_err, ◌==◌, if◌then◌else◌,
}
use whale.Names.{Name, same_name}
use whale.Target
use whale.Target.{TargetError}
use whale.Object.{
  SymbolBinding, local, global, weak, is_local, is_weak, SymbolVisibility, SymbolKind, ObjectSymbol,
  ObjectRelocation, ObjectFile,
}
use whale.Object.Validate
use whale.Object.Validate.{ObjectError}

pub data SymbolKey : Type 0 where
  global_key : Name → SymbolKey
  local_key : ℕ → Name → SymbolKey

abbrev pub same_key : SymbolKey → SymbolKey → Bool
same_key (global_key a) (global_key b) = same_name a b
same_key (local_key i a) (local_key j b) = i == j && same_name a b
same_key _ _ = false

pub record ResolvedSymbol : Type 0 where
  pub name : Name
  pub object_index : Option ℕ
  pub section_index : Option ℕ
  pub value : ℕ
  pub size : ℕ
  pub binding : SymbolBinding
  pub kind : SymbolKind
  pub visibility : SymbolVisibility

pub record ResolvedReference : Type 0 where
  pub object_index : ℕ
  pub section_index : ℕ
  pub offset : ℕ
  pub target : SymbolKey
  pub weak_undefined : Bool

abbrev pub Symbols : Type 0
Symbols = List (SymbolKey × ResolvedSymbol)

pub record SymbolTable : Type 0 where
  pub symbols : Symbols
  pub references : List ResolvedReference

abbrev pub lookup : SymbolKey → Symbols → Option ResolvedSymbol
lookup k [] = none
lookup k ((k', v) ∷ t) = if same_key k k' then some v else lookup k t

pub data ResolveError : Type 0 where
  bad_target : ℕ → TargetError → ResolveError
  bad_object : ℕ → ObjectError → ResolveError
  duplicate_local : ℕ → Name → ResolveError
  duplicate_global : Name → Option ℕ → ℕ → ResolveError
  unresolved_strong : ℕ → ObjectRelocation → ResolveError

abbrev pub is_some {ℓ} : {A : Type ℓ} → Option A → Bool
is_some none = false
is_some (some _) = true

-- The key of a name in the object `i`.
abbrev pub key_for : Bool → ℕ → Name → SymbolKey
key_for true i name = local_key i name
key_for false i name = global_key name

abbrev pub key_of : ℕ → ObjectSymbol → SymbolKey
key_of i s = key_for (is_local s.binding) i s.name

abbrev pub resolved_of : ℕ → ObjectSymbol → ResolvedSymbol
resolved_of i s = record {
  name = s.name;
  object_index = some i;
  section_index = s.section_index;
  value = s.value;
  size = s.size;
  binding = s.binding;
  kind = s.kind;
  visibility = s.visibility;
}

-- The match on the bindings of the existing entry and of the new symbol.
abbrev pub add_over :
    SymbolBinding
    → SymbolBinding
    → ℕ
    → Symbols
    → ObjectSymbol
    → ResolvedSymbol
    → Result ResolveError Symbols
add_over global global i t s e = err (duplicate_global s.name e.object_index i)
add_over global weak i t s e = ok t
add_over weak weak i t s e = ok t
add_over _ _ i t s e = ok ((key_of i s, resolved_of i s) ∷ t)

abbrev pub add_at : ℕ → Symbols → ObjectSymbol → Option ResolvedSymbol → Result ResolveError Symbols
add_at i t s none = ok ((key_of i s, resolved_of i s) ∷ t)
add_at i t s (some e) =
    if is_local s.binding
    then err (duplicate_local i s.name)
    else add_over e.binding s.binding i t s e

-- One definition of the first loop.
unfoldable pub add_symbol : ℕ → Symbols → ObjectSymbol → Result ResolveError Symbols
add_symbol i t s = add_at i t s (lookup (key_of i s) t)

-- The filter on defined symbols.
abbrev pub add_defined : ℕ → Symbols → ObjectSymbol → Result ResolveError Symbols
add_defined i t s = if is_some s.section_index then add_symbol i t s else ok t

abbrev pub add_symbols : ℕ → Symbols → List ObjectSymbol → Result ResolveError Symbols
add_symbols i t [] = ok t
add_symbols i t (s ∷ ss) = do t' ← add_defined i t s; add_symbols i t' ss

abbrev pub add_objects : ℕ → Symbols → List ObjectFile → Result ResolveError Symbols
add_objects i t [] = ok t
add_objects i t (o ∷ os) = do t' ← add_symbols i t o.symbols; add_objects (suc i) t' os

abbrev pub check_inputs : ℕ → List ObjectFile → Result ResolveError (Unit {0})
check_inputs i [] = ok tt
check_inputs i (o ∷ os) = do
  map_err (bad_target i) (Target.validate_amd64 o.target)
  map_err (bad_object i) (Validate.validate o)
  check_inputs (suc i) os

-- `declarations.get(name)`: the last symbol of that name.
abbrev pub declaration : Name → List ObjectSymbol → Option ObjectSymbol
declaration name [] = none
declaration name (s ∷ ss) =
    later (declaration name ss) (if same_name name s.name then some s else none)
  where
    later : Option ObjectSymbol → Option ObjectSymbol → Option ObjectSymbol
    later none o = o
    later (some s) o = some s

abbrev pub declared : (SymbolBinding → Bool) → Option ObjectSymbol → Bool
declared p none = false
declared p (some s) = p s.binding

abbrev pub zero_of : Name → ObjectSymbol → ResolvedSymbol
zero_of name s = record {
  name = name;
  object_index = none;
  section_index = none;
  value = 0;
  size = 0;
  binding = weak;
  kind = s.kind;
  visibility = s.visibility;
}

-- `weak_undefined.entry(key).or_insert_with(..)`.
abbrev pub or_insert : SymbolKey → Name → Option ObjectSymbol → Symbols → Symbols
or_insert k name none t = t
or_insert k name (some s) t = if is_some (lookup k t) then t else (k, zero_of name s) ∷ t

abbrev pub reference_of : ℕ → ObjectRelocation → SymbolKey → Bool → ResolvedReference
reference_of i r key missing = record {
  object_index = i;
  section_index = r.section_index;
  offset = r.offset;
  target = key;
  weak_undefined = missing;
}

-- During the second loop `t.symbols` holds the zero entries, `weak_undefined` of the source.
-- The refusal of an unresolved strong reference, the zero entry of an unresolved weak one, and the
-- reference.
abbrev pub refer :
    Bool
    → ℕ
    → SymbolKey
    → Option ObjectSymbol
    → SymbolTable
    → ObjectRelocation
    → Result ResolveError SymbolTable
refer false i key d t r =
    ok
      (record { symbols = t.symbols; references = t.references ++ reference_of i r key false ∷ [] })
refer true i key d t r = do
  fail_if (not (declared is_weak d)) (unresolved_strong i r)
  ok (record {
    symbols = or_insert key r.symbol d t.symbols;
    references = t.references ++ reference_of i r key true ∷ [];
  })

-- One relocation of the second loop.
unfoldable pub add_reference :
    ℕ → ObjectFile → Symbols → SymbolTable → ObjectRelocation → Result ResolveError SymbolTable
add_reference i o symbols t r =
    let d = declaration r.symbol o.symbols in
    let key = key_for (declared is_local d) i r.symbol in
    refer (not (is_some (lookup key symbols))) i key d t r

abbrev pub add_references :
    ℕ → ObjectFile → Symbols → SymbolTable → List ObjectRelocation → Result ResolveError SymbolTable
add_references i o symbols t [] = ok t
add_references i o symbols t (r ∷ rs) = do
  t' ← add_reference i o symbols t r
  add_references i o symbols t' rs

abbrev pub refer_objects :
    ℕ → Symbols → SymbolTable → List ObjectFile → Result ResolveError SymbolTable
refer_objects i symbols t [] = ok t
refer_objects i symbols t (o ∷ os) = do
  t' ← add_references i o symbols t o.relocations
  refer_objects (suc i) symbols t' os

-- `SymbolTable::resolve`; the table it starts from is cleared first.
unfoldable pub resolve : List ObjectFile → Result ResolveError SymbolTable
resolve objects = do
  check_inputs 0 objects
  symbols ← add_objects 0 [] objects
  t ← refer_objects 0 symbols (record { symbols = []; references = [] }) objects
  ok (record { symbols = t.symbols ++ symbols; references = t.references })
