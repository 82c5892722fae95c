-- ===== src/Object/Validate.antt =====
-- object/src/core/object.rs, `validate_diagnostic`: the structural check before an object is
-- written or linked. An error keeps its kind and the section and symbol it is attached to; the
-- message is not modelled. A `usize` is 64 bits wide.
pub mod Sound
use whale.Prelude.{
  ℕ, suc, not, ◌&&◌, List, [], ◌∷◌, length, Option, none, some, Result, ok, ◌>>=◌, ◌>>◌, fail_if,
  or_fail, map_err, ltb, ◌==◌, get_elem?,
}
use whale.Prelude.Words.{checked_add, is_power_of_two}
use whale.Names.{Name, has_nul, member}
use whale.Target
use whale.Target.{ObjectTarget}
use whale.Object.{
  Section, is_bss, has_nonzero, memory_size, ObjectSymbol, ObjectRelocation, ObjectFile, encoding,
}

-- `panicked` is no error value of the source: it stands for a panic of its `expect`.
pub data ErrorKind : Type 0 where
  invalid_target invalid_section overflow invalid_name invalid_alignment duplicate_symbol
        out_of_bounds invalid_relocation panicked :
      ErrorKind

pub record ObjectError : Type 0 where
  pub kind : ErrorKind
  pub section : Option ℕ
  pub symbol : Option Name

abbrev at_section : ErrorKind → ℕ → ObjectError
at_section k i = record { kind = k; section = some i; symbol = none }

abbrev at_symbol : ErrorKind → Name → ObjectError
at_symbol k s = record { kind = k; section = none; symbol = some s }

abbrev at_both : ErrorKind → ℕ → Name → ObjectError
at_both k i s = record { kind = k; section = some i; symbol = some s }

unfoldable pub check_section : ℕ → Section → Result ObjectError (Unit {0})
unfolding checked_add is_power_of_two
check_section i s = do
  fail_if (not (is_bss s.kind) && not (s.zero_fill == 0)) (at_section invalid_section i)
  fail_if (is_bss s.kind && has_nonzero s.bytes) (at_section invalid_section i)
  _ ← or_fail (checked_add (length s.bytes) s.zero_fill) (at_section overflow i)
  fail_if (has_nul s.name) (at_section invalid_name i)
  fail_if (not (s.align == 0) && not (is_power_of_two s.align)) (at_section invalid_alignment i)

unfoldable pub check_sections : ℕ → List Section → Result ObjectError (Unit {0})
check_sections i [] = ok tt
check_sections i (s ∷ ss) = do check_section i s; check_sections (suc i) ss

-- The range of a defined symbol lies in its section.
unfoldable pub check_extent : List Section → ObjectSymbol → Option ℕ → Result ObjectError (Unit {0})
unfolding checked_add memory_size
check_extent sections s none = ok tt
check_extent sections s (some i) = do
  section ← or_fail (get_elem? sections i) (at_both invalid_section i s.name)
  end ← or_fail (checked_add s.value s.size) (at_symbol overflow s.name)
  extent ← map_err (λ _. at_both panicked i s.name) (memory_size section)
  fail_if (ltb extent end) (at_both out_of_bounds i s.name)

-- `names` holds the symbol names seen before.
unfoldable pub check_symbol :
    List Section → List Name → ObjectSymbol → Result ObjectError (Unit {0})
unfolding check_extent
check_symbol sections names s = do
  fail_if (has_nul s.name) (at_symbol invalid_name s.name)
  fail_if (member s.name names) (at_symbol duplicate_symbol s.name)
  check_extent sections s s.section_index

unfoldable pub check_symbols :
    List Section → List Name → List ObjectSymbol → Result ObjectError (Unit {0})
check_symbols sections names [] = ok tt
check_symbols sections names (s ∷ ss) = do
  check_symbol sections names s
  check_symbols sections (s.name ∷ names) ss

unfoldable pub check_relocation :
    ObjectTarget → List Section → ObjectRelocation → Result ObjectError (Unit {0})
unfolding checked_add encoding
check_relocation target sections r = do
  fail_if (has_nul r.symbol) (at_symbol invalid_name r.symbol)
  section ←
      or_fail (get_elem? sections r.section_index) (at_section invalid_section r.section_index)
  fail_if (is_bss section.kind) (at_section invalid_relocation r.section_index)
  (_, width) ← or_fail (encoding r.kind target) (at_section invalid_relocation r.section_index)
  end ← or_fail (checked_add r.offset width) (at_section overflow r.section_index)
  fail_if (ltb (length section.bytes) end) (at_section out_of_bounds r.section_index)

unfoldable pub check_relocations :
    ObjectTarget → List Section → List ObjectRelocation → Result ObjectError (Unit {0})
check_relocations target sections [] = ok tt
check_relocations target sections (r ∷ rs) = do
  check_relocation target sections r
  check_relocations target sections rs

unfoldable pub validate : ObjectFile → Result ObjectError (Unit {0})
unfolding check_sections check_symbols check_relocations
validate o = do
  map_err (λ _. record { kind = invalid_target; section = none; symbol = none })
      (Target.validate o.target)
  check_sections 0 o.sections
  check_symbols o.sections [] o.symbols
  check_relocations o.target o.sections o.relocations
