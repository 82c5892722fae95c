-- ===== src/Linker/Executable/Arranged.antt =====
-- The writes of an executable are in ascending order and fit in the file.
use whale.Prelude.{
  ℕ, ◌+◌, ◌*◌, ◌≤◌, ◌≡◌, inl, inr, subst, List, [], ◌∷◌, ◌++◌, ok, ok-injective, >>=-eq-ok, All,
  All-append, arith, Bool-cases, length, length-append,
}
use whale.Object.{SectionKind, ObjectFile}
use whale.Linker.Layout.{Layout, SectionPlacement}
use whale.Linker.Relocation.{Payloads, apply_relocations}
use whale.Linker.Executable.{
  ImageFault, page, align, Segment, Image, has_kinds, data_kinds, count, header_size, close_segment,
  add_paged, add_text, add_segment, executable_layout,
}
use whale.Linker.Executable.Filled.{EndsIn}
use whale.Linker.Executable.Segments.{LoadedBy}
use whale.Linker.Executable.Closing.{close_segment-Closes}
use whale.Linker.Executable.Loaded.{
  empty_image, executable_layout-Builds, executable_layout-IsLoadable,
}
use whale.Linker.Executable.Emit.{Write, header_writes, segments_writes, stack_writes}
use whale.Linker.Executable.Writes.{
  Ascends, Ascends-append, Ascends-Fits, Fits, header_writes-Ascends, segments_writes-Ascends,
  stack_writes-Ascends,
}
use whale.Linker.Executable.Sized.{relocated-Sized}
use whale.Linker.Executable.Payload.{Emits, payload_writes-Emits}

-- The number of segments, for which the headers leave room.
close_segment-length :
    (max_bytes flags start : ℕ) (kinds : List SectionKind) (objects : List ObjectFile) (cursor : ℕ)
    (m m' : Image)
    → close_segment max_bytes flags start kinds objects cursor m ≡ ok m'
    → length m'.segments ≡ length m.segments + 1
close_segment-length max_bytes flags start kinds objects cursor m m' h =
    let c = close_segment-Closes max_bytes flags start kinds objects cursor m m' h in
    subst (λ (x : Image). length x.segments ≡ length m.segments + 1) c.closed
      (length-append m.segments _)

add_segment-length :
    (max_bytes flags : ℕ) (kinds : List SectionKind) (objects : List ObjectFile) (m m' : Image)
    → add_segment max_bytes flags kinds objects m ≡ ok m'
    → length m'.segments ≡ length m.segments + count (has_kinds kinds objects)
unfolding add_paged
add_segment-length max_bytes flags kinds objects m m' h =
    elim (Bool-cases (has_kinds kinds objects)) [
      | inr without ↦
          subst
            (λ (x : Image). length x.segments ≡ length m.segments + count (has_kinds kinds objects))
            (ok-injective {E = ImageFault} m m' (ground (arith, h, without)))
            (rw without (omega arith))
      | inl present ↦
          let (start, ha, h1) =
            >>=-eq-ok (align m.file_size page)
              (λ start. close_segment max_bytes flags start kinds objects start m)
              (ground (arith, h, present)) in
          rw present (close_segment-length max_bytes flags start kinds objects start m m' h1)
    ]

pub header_size-length :
    (objects : List ObjectFile) (max_bytes : ℕ) (l : Layout) (segments : List Segment)
    → executable_layout objects max_bytes ≡ ok (l, segments)
    → 64 + length segments * 56 + 56 ≡ header_size objects
unfolding add_text
header_size-length objects max_bytes l segments h =
    let b = executable_layout-Builds objects max_bytes l segments h in
    let one =
      close_segment-length max_bytes 5 0 (SectionKind.text ∷ []) objects (header_size objects)
        (empty_image objects) b.m1 b.with_text in
    let two =
      add_segment-length max_bytes 4 (SectionKind.read_only_data ∷ []) objects b.m1 b.m2
        b.with_constants in
    let three = add_segment-length max_bytes 6 data_kinds objects b.m2 b.m3 b.with_data in
    subst (λ (x : Layout × List Segment). 64 + length x.1 * 56 + 56 ≡ header_size objects) b.same
      (omega (arith, one, two, three))

LoadedBy-EndsIn :
    (n : ℕ) (ss : List Segment) (p : SectionPlacement)
    → All (λ (s : Segment). s.start + s.bytes_in_file ≤ n) ss
    → LoadedBy ss p
    → EndsIn n p
LoadedBy-EndsIn n [] p h l = absurd l
LoadedBy-EndsIn n (s ∷ ss) p h (inl holds) = elim holds.in_file [
  | inl b ↦ inl b
  | inr le ↦ inr (omega (arith, le, h.0))
]
LoadedBy-EndsIn n (s ∷ ss) p h (inr l) = LoadedBy-EndsIn n ss p h.1 l

All-EndsIn :
    (n : ℕ) (ss : List Segment) (ps : List SectionPlacement)
    → All (λ (s : Segment). s.start + s.bytes_in_file ≤ n) ss
    → All (LoadedBy ss) ps
    → All (EndsIn n) ps
All-EndsIn n ss [] h l = tt
All-EndsIn n ss (p ∷ ps) h l = (LoadedBy-EndsIn n ss p h l.0, All-EndsIn n ss ps h l.1)

-- All writes of `emit`.
abbrev pub all_writes : ℕ → List Segment → List Write → List Write
all_writes address segments ws =
    header_writes address segments
    ++ (segments_writes 0 segments ++ (stack_writes (64 + length segments * 56) ++ ws))

-- The payload writes of a relocated layout.
pub layout_writes :
    (objects : List ObjectFile) (max_bytes : ℕ) (l : Layout) (segments : List Segment)
    (payloads : Payloads)
    → executable_layout objects max_bytes ≡ ok (l, segments)
    → apply_relocations objects l max_bytes ≡ ok payloads
    → Emits payloads (header_size objects) l.total_memory_size l.total_file_size l.sections
layout_writes objects max_bytes l segments payloads hl hr =
    let good = executable_layout-IsLoadable objects max_bytes l segments hl in
    payload_writes-Emits payloads (header_size objects) l.total_memory_size l.total_file_size
      l.sections good.chain (relocated-Sized objects max_bytes l segments payloads hl hr)
      (All-EndsIn l.total_file_size segments l.sections good.in_file good.loaded)

pub all_writes-Ascends :
    (address : ℕ) (segments : List Segment) (ws : List Write) (header b : ℕ)
    → 64 + length segments * 56 + 56 ≡ header
    → Ascends header ws b
    → Ascends 0 (all_writes address segments ws) b
all_writes-Ascends address segments ws header b e h =
    let stack = 64 + length segments * 56 in
    Ascends-append 0 64 b (header_writes address segments)
      (segments_writes 0 segments ++ (stack_writes stack ++ ws))
      (header_writes-Ascends address segments)
      (Ascends-append 64 stack b (segments_writes 0 segments) (stack_writes stack ++ ws)
        (subst (Ascends 64 (segments_writes 0 segments)) {x = 64 + (0 + length segments) * 56}
          (omega arith) (segments_writes-Ascends 0 segments))
        (Ascends-append stack header b (stack_writes stack) ws
          (subst (Ascends stack (stack_writes stack)) e (stack_writes-Ascends stack)) h))

pub all_writes-Fits :
    (address : ℕ) (segments : List Segment) (ws : List Write) (header n : ℕ)
    → 64 + length segments * 56 + 56 ≡ header
    → header ≤ n
    → All (Fits n) ws
    → All (Fits n) (all_writes address segments ws)
all_writes-Fits address segments ws header n e le h =
    let stack = 64 + length segments * 56 in
    All-append (Fits n) (header_writes address segments)
      (segments_writes 0 segments ++ (stack_writes stack ++ ws))
      (Ascends-Fits (header_writes address segments) 0 64 n (header_writes-Ascends address segments)
        (omega (arith, e, le)))
      (All-append (Fits n) (segments_writes 0 segments) (stack_writes stack ++ ws)
        (Ascends-Fits (segments_writes 0 segments) 64 stack n
          (subst (Ascends 64 (segments_writes 0 segments)) {x = 64 + (0 + length segments) * 56}
            (omega arith) (segments_writes-Ascends 0 segments))
          (omega (arith, e, le)))
        (All-append (Fits n) (stack_writes stack) ws
          (Ascends-Fits (stack_writes stack) stack (stack + 56) n (stack_writes-Ascends stack)
            (omega (arith, e, le)))
          h))
