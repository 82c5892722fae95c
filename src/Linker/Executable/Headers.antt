-- ===== src/Linker/Executable/Headers.antt =====
-- The headers of an executable, read back from its bytes at the offsets of the ELF format.
use whale.Prelude.{
  ℕ, suc, ◌+◌, ◌*◌, ◌%◌, ◌^◌, ◌≡◌, subst, ap, ◌∙◌, List, [], ◌∷◌, All, All-split, length,
}
use whale.Prelude.Bytes.{
  to_le_bytes, from_le_bytes, window, length-to_le_bytes, from_le_bytes-to_le_bytes,
}
use whale.Linker.Executable.{Segment}
use whale.Linker.Executable.Emit.{header_writes, segment_writes, segments_writes, stack_writes}
use whale.Linker.Executable.Writes.{Wrote}

-- The little-endian number of `n` bytes at an offset.
abbrev pub number : List ℕ → ℕ → ℕ → ℕ
number out at n = from_le_bytes (window at n out)

-- The header of a 64-bit little-endian executable for AMD64, with program headers behind it.
pub record IsHeader (out : List ℕ) (entry_point count : ℕ) : Type 0 where
  pub ident :
      window 0 16 out
      ≡ 0x7f ∷ 0x45 ∷ 0x4c ∷ 0x46 ∷ 2 ∷ 1 ∷ 1 ∷ 0 ∷ 0 ∷ 0 ∷ 0 ∷ 0 ∷ 0 ∷ 0 ∷ 0 ∷ 0 ∷ []
  pub object_type : number out 16 2 ≡ 2
  pub machine : number out 18 2 ≡ 62
  pub version : number out 20 4 ≡ 1
  pub entry_address : number out 24 8 ≡ entry_point % 2 ^ 64
  pub table_offset : number out 32 8 ≡ 64
  pub header_bytes : number out 52 2 ≡ 64
  pub entry_bytes : number out 54 2 ≡ 56
  pub entries : number out 56 2 ≡ count % 2 ^ 16

-- A program header that loads the segment.
pub record IsLoad (out : List ℕ) (at : ℕ) (s : Segment) : Type 0 where
  pub load : number out at 4 ≡ 1
  pub flags : number out (at + 4) 4 ≡ s.flags % 2 ^ 32
  pub file_offset : number out (at + 8) 8 ≡ s.start % 2 ^ 64
  pub virtual_address : number out (at + 16) 8 ≡ s.address % 2 ^ 64
  pub physical_address : number out (at + 24) 8 ≡ s.address % 2 ^ 64
  pub file_bytes : number out (at + 32) 8 ≡ s.bytes_in_file % 2 ^ 64
  pub memory_bytes : number out (at + 40) 8 ≡ s.bytes_in_memory % 2 ^ 64
  pub alignment : number out (at + 48) 8 ≡ 4096

-- One program header for each segment, in order, 56 bytes apart.
abbrev pub AreLoads : List ℕ → ℕ → List Segment → Type 0
AreLoads out i [] = Unit
AreLoads out i (s ∷ ss) = IsLoad out (64 + i * 56) s × AreLoads out (suc i) ss

-- The program header that makes the stack readable and writable only.
pub record IsStack (out : List ℕ) (at : ℕ) : Type 0 where
  pub stack : number out at 4 ≡ 0x6474_e551
  pub stack_flags : number out (at + 4) 4 ≡ 6
  pub stack_alignment : number out (at + 48) 8 ≡ 16

-- A number that was written is read back, modulo its width.
Wrote-number :
    (out : List ℕ) (at n v : ℕ)
    → Wrote out (at, to_le_bytes n v)
    → number out at n ≡ v % 2 ^ (8 * n)
Wrote-number out at n v h =
    let sized = subst (λ k. window at k out ≡ to_le_bytes n v) (length-to_le_bytes n v) h in
    ap from_le_bytes sized ∙ from_le_bytes-to_le_bytes n v

pub header_writes-IsHeader :
    (out : List ℕ) (address : ℕ) (segments : List Segment)
    → All (Wrote out) (header_writes address segments)
    → IsHeader out address (length segments + 1)
header_writes-IsHeader out address segments
      (w0, (w1, (w2, (w3, (w4, (w5, (w6, (w7, (w8, _))))))))) =
    record {
      ident = w0;
      object_type = Wrote-number out 16 2 2 w1;
      machine = Wrote-number out 18 2 62 w2;
      version = Wrote-number out 20 4 1 w3;
      entry_address = Wrote-number out 24 8 address w4;
      table_offset = Wrote-number out 32 8 64 w5;
      header_bytes = Wrote-number out 52 2 64 w6;
      entry_bytes = Wrote-number out 54 2 56 w7;
      entries = Wrote-number out 56 2 (length segments + 1) w8;
    }

segment_writes-IsLoad :
    (out : List ℕ) (at : ℕ) (s : Segment) → All (Wrote out) (segment_writes at s) → IsLoad out at s
segment_writes-IsLoad out at s (w0, (w1, (w2, (w3, (w4, (w5, (w6, (w7, _)))))))) = record {
  load = Wrote-number out at 4 1 w0;
  flags = Wrote-number out (at + 4) 4 s.flags w1;
  file_offset = Wrote-number out (at + 8) 8 s.start w2;
  virtual_address = Wrote-number out (at + 16) 8 s.address w3;
  physical_address = Wrote-number out (at + 24) 8 s.address w4;
  file_bytes = Wrote-number out (at + 32) 8 s.bytes_in_file w5;
  memory_bytes = Wrote-number out (at + 40) 8 s.bytes_in_memory w6;
  alignment = Wrote-number out (at + 48) 8 4096 w7;
}

pub segments_writes-AreLoads :
    (out : List ℕ) (i : ℕ) (ss : List Segment)
    → All (Wrote out) (segments_writes i ss)
    → AreLoads out i ss
segments_writes-AreLoads out i [] h = tt
segments_writes-AreLoads out i (s ∷ ss) h =
    let (here, rest) =
      All-split (Wrote out) (segment_writes (64 + i * 56) s) (segments_writes (suc i) ss) h in
    (segment_writes-IsLoad out (64 + i * 56) s here, segments_writes-AreLoads out (suc i) ss rest)

pub stack_writes-IsStack :
    (out : List ℕ) (at : ℕ) → All (Wrote out) (stack_writes at) → IsStack out at
stack_writes-IsStack out at (w0, (w1, (w2, _))) = record {
  stack = Wrote-number out at 4 1685382481 w0;
  stack_flags = Wrote-number out (at + 4) 4 6 w1;
  stack_alignment = Wrote-number out (at + 48) 8 16 w2;
}
