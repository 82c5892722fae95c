-- ===== src/Target.antt =====
-- target-spec/src/lib.rs and target-spec/src/extension.rs: target identities and storage contracts.
use whale.Prelude.{
  ℕ, suc, ◌/◌, ◌^◌, Bool, true, false, not, ◌&&◌, ◌||◌, List, [], ◌∷◌, all, Option, none, some,
  Result, ok, err, ◌>>◌, fail_if, ltb, ◌==◌, if◌then◌else◌,
}
use whale.Prelude.Words.{is_power_of_two}

pub data Endian : Type 0 where
  little big : Endian

pub record DataLayout : Type 0 where
  pub ptr_bits : ℕ
  pub endian : Endian

pub data ObjectFormat : Type 0 where
  elf64 coff macho64 : ObjectFormat

pub data Machine : Type 0 where
  x86_64 aarch64 riscv64 loongarch64 : Machine

pub record ObjectTarget : Type 0 where
  pub format : ObjectFormat
  pub machine : Machine
  pub endian : Endian
  pub address_bits : ℕ

abbrev pub same_endian : Endian → Endian → Bool
same_endian little little = true
same_endian big big = true
same_endian _ _ = false

abbrev pub same_format : ObjectFormat → ObjectFormat → Bool
same_format elf64 elf64 = true
same_format coff coff = true
same_format macho64 macho64 = true
same_format _ _ = false

abbrev pub same_machine : Machine → Machine → Bool
same_machine x86_64 x86_64 = true
same_machine aarch64 aarch64 = true
same_machine riscv64 riscv64 = true
same_machine loongarch64 loongarch64 = true
same_machine _ _ = false

abbrev pub same_target : ObjectTarget → ObjectTarget → Bool
same_target a b =
    same_format a.format b.format
    && same_machine a.machine b.machine
    && same_endian a.endian b.endian
    && a.address_bits == b.address_bits

-- The one built-in target, `Target::X86_64WhaleLinux.object_target()`.
abbrev pub amd64_elf : ObjectTarget
amd64_elf = record { format = elf64; machine = x86_64; endian = little; address_bits = 64 }

pub data TargetError : Type 0 where
  unsupported_object_target unsupported_amd64_object_target : ObjectTarget → TargetError

abbrev pub writes_foreign : Machine → Bool
writes_foreign x86_64 = true
writes_foreign aarch64 = true
writes_foreign _ = false

unfoldable pub validate : ObjectTarget → Result TargetError (Unit {0})
validate t =
    if same_endian t.endian little
      && t.address_bits == 64
      && (same_format t.format elf64 || writes_foreign t.machine)
    then ok tt
    else err (unsupported_object_target t)

unfoldable pub validate_amd64 : ObjectTarget → Result TargetError (Unit {0})
validate_amd64 t =
    if same_target t amd64_elf then ok tt else err (unsupported_amd64_object_target t)

abbrev pub elf_code : Machine → ℕ
elf_code x86_64 = 62
elf_code aarch64 = 183
elf_code riscv64 = 243
elf_code loongarch64 = 258

unfoldable pub elf_machine : ObjectTarget → Result TargetError ℕ
unfolding validate
elf_machine t = do
  validate t
  fail_if (not (same_format t.format elf64)) (unsupported_object_target t)
  ok (elf_code t.machine)

-- `scalar_align` is indexed by the size class: 1, 2, 4, 8 and 16 bytes.
pub record StorageLayout : Type 0 where
  pub layout : DataLayout
  pub scalar_align : List ℕ
  pub pointer_align : ℕ
  pub large_array : Option (ℕ × ℕ)

pub data StorageFault : Type 0 where
  pointer_width not_power_of_two alignment_exceeds_size : StorageFault

abbrev pub large_array_valid : Option (ℕ × ℕ) → Bool
large_array_valid none = true
large_array_valid (some (_, a)) = is_power_of_two a

-- `enumerate().any(|(i, a)| *a > (1 << i))`
abbrev pub exceeds_from : ℕ → List ℕ → Bool
exceeds_from i [] = false
exceeds_from i (a ∷ as') = ltb (2 ^ i) a || exceeds_from (suc i) as'

unfoldable pub validate_storage : StorageLayout → Result StorageFault (Unit {0})
validate_storage s = do
  fail_if (not (s.layout.ptr_bits == 32 || s.layout.ptr_bits == 64)) pointer_width
  fail_if
      (not (all is_power_of_two s.scalar_align)
        || not (is_power_of_two s.pointer_align)
        || not (large_array_valid s.large_array))
      not_power_of_two
  fail_if (exceeds_from 0 s.scalar_align || ltb (s.layout.ptr_bits / 8) s.pointer_align)
      alignment_exceeds_size

-- `Target::specification().storage` of the built-in target.
abbrev pub amd64_storage : StorageLayout
amd64_storage = record {
  layout = record { ptr_bits = 64; endian = little };
  scalar_align = 1 ∷ 2 ∷ 4 ∷ 8 ∷ 16 ∷ [];
  pointer_align = 8;
  large_array = some (16, 16);
}
