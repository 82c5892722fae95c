-- ===== src/Object.antt =====
-- object/src/core: the in-memory object file, its sections, symbols and relocations.
pub mod Validate
use whale.Prelude.{
  ℕ, ◌+◌, Bool, true, false, not, ◌&&◌, ◌||◌, List, [], ◌∷◌, any, length, Option, none, some,
  Result, ok, err, ◌>>=◌, ◌>>◌, fail_if, or_fail, leb, ltb, ◌==◌, if◌then◌else◌,
}
use whale.Prelude.Int.{ℤ}
use whale.Prelude.Words.{checked_add}
use whale.Names.{Name}
use whale.Target.{
  ObjectFormat, elf64, coff, macho64, Machine, x86_64, aarch64, riscv64, loongarch64, ObjectTarget,
}

pub data SectionKind : Type 0 where
  text data_section bss read_only_data : SectionKind

abbrev pub is_bss : SectionKind → Bool
is_bss bss = true
is_bss _ = false

pub record Section : Type 0 where
  pub name : Name
  pub kind : SectionKind
  pub bytes : List ℕ
  pub zero_fill : ℕ
  pub align : ℕ

pub data SizeFault : Type 0 where
  zero_fill_outside_bss nonzero_initializer size_overflow : SizeFault

-- `data.iter().any(|b| *b != 0)`
abbrev pub has_nonzero : List ℕ → Bool
has_nonzero = any (λ b. not (b == 0))

unfoldable pub memory_size : Section → Result SizeFault ℕ
unfolding checked_add
memory_size s = do
  fail_if (not (is_bss s.kind) && not (s.zero_fill == 0)) zero_fill_outside_bss
  fail_if (is_bss s.kind && has_nonzero s.bytes) nonzero_initializer
  or_fail (checked_add (length s.bytes) s.zero_fill) size_overflow

unfoldable pub file_size : Section → ℕ
file_size s = if is_bss s.kind then 0 else length s.bytes

pub data SymbolBinding : Type 0 where
  local global weak : SymbolBinding

abbrev pub is_local : SymbolBinding → Bool
is_local local = true
is_local _ = false

abbrev pub is_weak : SymbolBinding → Bool
is_weak weak = true
is_weak _ = false

pub data SymbolVisibility : Type 0 where
  default_visible hidden : SymbolVisibility

pub data SymbolKind : Type 0 where
  no_type function object : SymbolKind

pub record ObjectSymbol : Type 0 where
  pub kind : SymbolKind
  pub name : Name
  pub section_index : Option ℕ
  pub value : ℕ
  pub size : ℕ
  pub binding : SymbolBinding
  pub visibility : SymbolVisibility

pub data RelocKind : Type 0 where
  target_specific coff_specific mach_specific : Machine → ℕ → RelocKind
  absolute64 absolute32 signed_absolute32 relative32 relative8 gotpcrel plt32 : RelocKind

pub record ObjectRelocation : Type 0 where
  pub section_index : ℕ
  pub offset : ℕ
  pub symbol : Name
  pub addend : ℤ
  pub kind : RelocKind

pub record ObjectFile : Type 0 where
  pub target : ObjectTarget
  pub sections : List Section
  pub symbols : List ObjectSymbol
  pub relocations : List ObjectRelocation

-- The relocation tables. `none` stands for the refusal with its message.
unfoldable pub coff_encoding : RelocKind → Machine → Option (ℕ × ℕ)
coff_encoding absolute64 x86_64 = some (1, 8)
coff_encoding absolute32 x86_64 = some (2, 4)
coff_encoding relative32 x86_64 = some (4, 4)
coff_encoding plt32 x86_64 = some (4, 4)
coff_encoding absolute64 aarch64 = some (14, 8)
coff_encoding absolute32 aarch64 = some (1, 4)
coff_encoding (coff_specific aarch64 code) aarch64 =
    if code == 3 || code == 5 || code == 15 then some (code, 4) else none
coff_encoding _ _ = none

unfoldable pub macho_encoding : RelocKind → Machine → Option (ℕ × ℕ)
macho_encoding absolute64 aarch64 = some (0, 8)
macho_encoding (mach_specific aarch64 code) aarch64 =
    if code == 0 then some (0, 8) else if code == 2 then some (2, 4) else none
macho_encoding absolute64 x86_64 = some (0, 8)
macho_encoding relative32 x86_64 = some (1, 4)
macho_encoding plt32 x86_64 = some (2, 4)
macho_encoding (mach_specific x86_64 code) x86_64 =
    if code == 0 then some (0, 8) else if code == 1 || code == 2 then some (code, 4) else none
macho_encoding _ _ = none

unfoldable pub elf_encoding : RelocKind → Machine → Option (ℕ × ℕ)
elf_encoding absolute64 x86_64 = some (1, 8)
elf_encoding absolute32 x86_64 = some (10, 4)
elf_encoding signed_absolute32 x86_64 = some (11, 4)
elf_encoding relative32 x86_64 = some (2, 4)
elf_encoding relative8 x86_64 = some (15, 1)
elf_encoding gotpcrel x86_64 = some (9, 4)
elf_encoding plt32 x86_64 = some (4, 4)
elf_encoding absolute64 aarch64 = some (257, 8)
elf_encoding absolute32 aarch64 = some (258, 4)
elf_encoding absolute64 riscv64 = some (2, 8)
elf_encoding absolute64 loongarch64 = some (2, 8)
elf_encoding absolute32 riscv64 = some (1, 4)
elf_encoding absolute32 loongarch64 = some (1, 4)
elf_encoding (target_specific aarch64 code) aarch64 =
    if code == 274 || code == 280 || code == 282 || code == 283 then some (code, 4) else none
elf_encoding (target_specific riscv64 code) riscv64 =
    if code == 16 || code == 17 then some (code, 4) else none
elf_encoding (target_specific loongarch64 code) loongarch64 =
    if leb 64 code && leb code 66 then some (code, 4) else none
elf_encoding _ _ = none

abbrev encoding_of : ObjectFormat → RelocKind → Machine → Option (ℕ × ℕ)
encoding_of coff = coff_encoding
encoding_of macho64 = macho_encoding
encoding_of elf64 = elf_encoding

-- `RelocKind::encoding`: the file's relocation number and the width of the patched field.
unfoldable pub encoding : RelocKind → ObjectTarget → Option (ℕ × ℕ)
unfolding coff_encoding macho_encoding elf_encoding
encoding kind target = encoding_of target.format kind target.machine
