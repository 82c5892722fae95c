-- ===== src/Object/Validate/Sound.antt =====
-- What a validated object promises.
use whale.Prelude.{
  ℕ, suc, ◌+◌, ◌≤◌, ◌≡◌, ◌⊎◌, true, false, not, ◌&&◌, List, [], ◌∷◌, length, Option, none, some, ok,
  ◌==◌, get_elem?, arith, >>=-eq-ok, All, All-get, inl, inr, Bool-cases, Option-cases, ◌≢◌, subst,
}
use whale.Prelude.Words.{checked_add, is_power_of_two, IsU64, IsPower, is_power_of_two_sound}
use whale.Names.{Name, has_nul, member, same_name_self}
use whale.Target
use whale.Target.{ObjectTarget}
use whale.Object.{
  Section, is_bss, memory_size, ObjectSymbol, ObjectRelocation, ObjectFile, encoding,
}
use whale.Object.Validate.{
  check_section, check_sections, check_extent, check_symbol, check_symbols, check_relocation,
  check_relocations, validate,
}

-- The memory extent of a section, before any check.
abbrev pub extent : Section → ℕ
extent s = length s.bytes + s.zero_fill

pub record IsSection (s : Section) : Type 0 where
  pub sized : memory_size s ≡ ok (extent s)
  pub fits : IsU64 (extent s)
  pub aligned : (s.align ≡ 0) ⊎ IsPower s.align
  pub named : has_nul s.name ≡ false

aligned_of : (a : ℕ) → (not (a == 0) && not (is_power_of_two a)) ≡ false → (a ≡ 0) ⊎ IsPower a
aligned_of a h = elim (Bool-cases (a == 0)) [
  | inl z ↦ inl (ground arith)
  | inr n ↦ inr (is_power_of_two_sound a (ground arith))
]

check_section-IsSection : (i : ℕ) (s : Section) → check_section i s ≡ ok tt → IsSection s
unfolding check_section memory_size checked_add
check_section-IsSection i s h = record {
  sized = ground arith;
  fits = ground arith;
  aligned = aligned_of s.align (ground arith);
  named = ground arith;
}

check_sections-All : (i : ℕ) (ss : List Section) → check_sections i ss ≡ ok tt → All IsSection ss
unfolding check_sections
check_sections-All i [] h = tt
check_sections-All i (s ∷ ss) h =
    let (_, first, rest) = >>=-eq-ok (check_section i s) _ h in
    (check_section-IsSection i s first, check_sections-All (suc i) ss rest)

-- A defined symbol's range lies in its section.
abbrev pub IsExtent : List Section → ObjectSymbol → Option ℕ → Type 0
IsExtent sections s none = Unit
IsExtent sections s (some i) =
    (section : Section) × (get_elem? sections i ≡ some section)
    × (s.value + s.size ≤ extent section)

abbrev pub IsSymbol : List Section → ObjectSymbol → Type 0
IsSymbol sections s = (has_nul s.name ≡ false) × IsExtent sections s s.section_index

check_extent-IsExtent :
    (sections : List Section) (s : ObjectSymbol) (o : Option ℕ)
    → All IsSection sections
    → check_extent sections s o ≡ ok tt
    → IsExtent sections s o
unfolding check_extent checked_add
check_extent-IsExtent sections s none valid h = tt
check_extent-IsExtent sections s (some i) valid h = elim (Option-cases (get_elem? sections i)) [
  | inl e ↦ ground arith
  | inr (section, e) ↦ (section, e, ground (arith, (All-get IsSection sections i valid e).sized))
]

-- A name seen before is not declared again.
check_symbols_avoid :
    (sections : List Section) (names : List Name) (ss : List ObjectSymbol) (n : Name)
    → check_symbols sections names ss ≡ ok tt
    → member n names ≡ true
    → All (λ t. n ≢ t.name) ss
unfolding check_symbols check_symbol
check_symbols_avoid sections names [] n h m = tt
check_symbols_avoid sections names (t ∷ ss) n h m =
    let (_, first, rest) = >>=-eq-ok (check_symbol sections names t) _ h in
    (
      (λ e.
          let seen : member t.name names ≡ true = subst (λ x. member x names ≡ true) e m in
          ground arith),
      check_symbols_avoid sections (t.name ∷ names) ss n rest (ground arith),
    )

abbrev pub Distinct : List ObjectSymbol → Type 0
Distinct [] = Unit
Distinct (s ∷ ss) = All (λ t. s.name ≢ t.name) ss × Distinct ss

check_symbols-Distinct :
    (sections : List Section) (names : List Name) (ss : List ObjectSymbol)
    → check_symbols sections names ss ≡ ok tt
    → Distinct ss
unfolding check_symbols
check_symbols-Distinct sections names [] h = tt
check_symbols-Distinct sections names (s ∷ ss) h =
    let (_, first, rest) = >>=-eq-ok (check_symbol sections names s) _ h in
    (
      check_symbols_avoid sections (s.name ∷ names) ss s.name rest (rw (same_name_self s.name)),
      check_symbols-Distinct sections (s.name ∷ names) ss rest,
    )

check_symbols-All :
    (sections : List Section) (names : List Name) (ss : List ObjectSymbol)
    → All IsSection sections
    → check_symbols sections names ss ≡ ok tt
    → All (IsSymbol sections) ss
unfolding check_symbols check_symbol
check_symbols-All sections names [] valid h = tt
check_symbols-All sections names (s ∷ ss) valid h =
    let (_, first, rest) = >>=-eq-ok (check_symbol sections names s) _ h in
    let extent_ok : check_extent sections s s.section_index ≡ ok tt = ground arith in
    (
      (ground arith, check_extent-IsExtent sections s s.section_index valid extent_ok),
      check_symbols-All sections (s.name ∷ names) ss valid rest,
    )

-- A relocation patches bytes of its section that exist.
abbrev pub IsRelocation : ObjectTarget → List Section → ObjectRelocation → Type 0
IsRelocation target sections r =
    (section : Section) × (code : ℕ) × (width : ℕ) × (get_elem? sections r.section_index
      ≡ some section)
    × (is_bss section.kind ≡ false)
    × (encoding r.kind target ≡ some (code, width))
    × (r.offset + width ≤ length section.bytes)

check_relocation-IsRelocation :
    (target : ObjectTarget) (sections : List Section) (r : ObjectRelocation)
    → check_relocation target sections r ≡ ok tt
    → IsRelocation target sections r
unfolding check_relocation checked_add
check_relocation-IsRelocation target sections r h =
    elim (Option-cases (get_elem? sections r.section_index)) [
      | inl e ↦ absurd (ground arith)
      | inr (section, e) ↦ elim (Option-cases (encoding r.kind target)) [
        | inl f ↦ absurd (ground arith)
        | inr ((code, width), f) ↦ (section, code, width, e, ground arith, f, ground arith)
      ]
    ]

check_relocations-All :
    (target : ObjectTarget) (sections : List Section) (rs : List ObjectRelocation)
    → check_relocations target sections rs ≡ ok tt
    → All (IsRelocation target sections) rs
unfolding check_relocations
check_relocations-All target sections [] h = tt
check_relocations-All target sections (r ∷ rs) h =
    let (_, first, rest) = >>=-eq-ok (check_relocation target sections r) _ h in
    (
      check_relocation-IsRelocation target sections r first,
      check_relocations-All target sections rs rest,
    )

pub record IsValid (o : ObjectFile) : Type 0 where
  pub target : Target.validate o.target ≡ ok tt
  pub sections : All IsSection o.sections
  pub symbols : All (IsSymbol o.sections) o.symbols
  pub distinct : Distinct o.symbols
  pub relocations : All (IsRelocation o.target o.sections) o.relocations

-- An object that passes the structural check has a supported target; its sections have a memory
-- size below 2^64, no alignment or a power of two, and NUL-free names; its symbols have NUL-free
-- names, pairwise distinct, and a range inside their section; its relocations patch existing bytes
-- of a section that is not BSS, with a width that the target's table gives.
pub validate-IsValid : (o : ObjectFile) → validate o ≡ ok tt → IsValid o
unfolding validate
validate-IsValid o h =
    let target : Target.validate o.target ≡ ok tt = ground arith in
    let sections : check_sections 0 o.sections ≡ ok tt = ground arith in
    let symbols : check_symbols o.sections [] o.symbols ≡ ok tt = ground arith in
    let relocations : check_relocations o.target o.sections o.relocations ≡ ok tt = ground arith in
    let sections_valid = check_sections-All 0 o.sections sections in
    record {
      target = target;
      sections = sections_valid;
      symbols = check_symbols-All o.sections [] o.symbols sections_valid symbols;
      distinct = check_symbols-Distinct o.sections [] o.symbols symbols;
      relocations = check_relocations-All o.target o.sections o.relocations relocations;
    }
