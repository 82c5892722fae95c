-- ===== src/Linker/Executable/Loaded.antt =====
-- The theorems on `executable_layout`.
use whale.Prelude.{
  ℕ, ◌+◌, ◌≤◌, ◌≡◌, inl, inr, refl, subst, true, false, List, [], ◌∷◌, any, ok, ok-injective,
  >>=-eq-ok, map_err-ok, map_err, All, arith, Bool-cases,
}
use whale.Prelude.Words.{IsU64}
use whale.Object.{SectionKind, text, read_only_data, is_bss, ObjectFile}
use whale.Object.Validate
use whale.Object.Validate.Sound.{validate-IsValid}
use whale.Target
use whale.Linker.Layout.{Layout}
use whale.Linker.Executable.{
  base, page, user_end, Segment, ImageFault, align, bad_target, bad_object, same_kind, has_kinds,
  Image, close_segment, add_text, add_paged, add_segment, data_kinds, header_size, check_inputs,
  zero_offsets, sizes_of, sections_of, executable_layout,
}
use whale.Linker.Executable.Filled.{Chain, align-Rounds}
use whale.Linker.Executable.Full.{fill_kinds-IsFull}
use whale.Linker.Executable.Segments.{LoadedBy, Pages, flags_of, Pages-to, Chain-to, in_file_grow}
use whale.Linker.Executable.Closing.{
  Opens, close_segment-Closes, Next, close_segment-Next, AllSections, opening,
}

check_inputs-AllSections :
    (objects : List ObjectFile) → check_inputs objects ≡ ok tt → AllSections objects
check_inputs-AllSections [] h = tt
check_inputs-AllSections (o ∷ os) h =
    let (_, ht, h1) = >>=-eq-ok (map_err bad_target (Target.validate_amd64 o.target)) _ h in
    let (_, hv, h2) = >>=-eq-ok (map_err bad_object (Validate.validate o)) _ h1 in
    (
      (validate-IsValid o (map_err-ok bad_object (Validate.validate o) hv)).sections,
      check_inputs-AllSections os h2,
    )

-- An image without BSS so far.
abbrev IsWhole : Image → Type 0
IsWhole m = m.file_size ≡ m.memory_size

close_segment-IsWhole :
    (max_bytes flags start : ℕ) (kinds : List SectionKind) (objects : List ObjectFile) (cursor : ℕ)
    (m m' : Image)
    → AllSections objects
    → All (λ k. is_bss k ≡ false) kinds
    → close_segment max_bytes flags start kinds objects cursor m ≡ ok m'
    → IsWhole m'
close_segment-IsWhole max_bytes flags start kinds objects cursor m m' v b h =
    let c = close_segment-Closes max_bytes flags start kinds objects cursor m m' h in
    subst IsWhole c.closed
      (fill_kinds-IsFull kinds objects (opening cursor m) c.filling b v refl c.fills)

paged-Opens :
    (header max_bytes flags start : ℕ) (kinds : List SectionKind) (m : Image)
    → Next header max_bytes m
    → IsWhole m
    → align m.file_size page ≡ ok start
    → All (λ k. any (same_kind k) kinds ≡ true) kinds
    → All (λ k. flags ≡ flags_of k) kinds
    → Opens header start start flags kinds m
paged-Opens header max_bytes flags start kinds m n whole h k f =
    let small : IsU64 m.file_size = omega (arith, whole, n.bounded.memory_bound) in
    let up = align-Rounds m.file_size page start small (12, omega arith, refl) h in
    let low : m.memory_size ≤ start = omega (arith, whole, up.0) in
    record {
      chain = Chain-to header m.memory_size start m.placements n.image.chain low;
      loaded = n.image.loaded;
      pages = Pages-to 0 m.memory_size start m.segments n.image.pages low;
      in_file = in_file_grow m.file_size start m.segments up.0 n.image.in_file;
      on_page = up.2;
      start_first = omega arith;
      headed = omega (arith, n.image.headed, up.0);
      own_kinds = k;
      own_flags = f;
    }

add_segment-Next :
    (header max_bytes flags : ℕ) (kinds : List SectionKind) (objects : List ObjectFile)
    (m m' : Image)
    → AllSections objects
    → Next header max_bytes m
    → IsWhole m
    → All (λ k. any (same_kind k) kinds ≡ true) kinds
    → All (λ k. flags ≡ flags_of k) kinds
    → add_segment max_bytes flags kinds objects m ≡ ok m'
    → Next header max_bytes m'
unfolding add_paged
add_segment-Next header max_bytes flags kinds objects m m' v n whole k f h =
    elim (Bool-cases (has_kinds kinds objects)) [
      | inr none' ↦
          subst (Next header max_bytes)
            (ok-injective {E = ImageFault} m m' (ground (arith, h, none'))) n
      | inl some' ↦
          let (start, ha, h1) =
            >>=-eq-ok (align m.file_size page)
              (λ start. close_segment max_bytes flags start kinds objects start m)
              (ground (arith, h, some')) in
          close_segment-Next header max_bytes flags start kinds objects start m m' v
            (paged-Opens header max_bytes flags start kinds m n whole ha k f) h1
    ]

add_segment-IsWhole :
    (max_bytes flags : ℕ) (kinds : List SectionKind) (objects : List ObjectFile) (m m' : Image)
    → AllSections objects
    → IsWhole m
    → All (λ k. is_bss k ≡ false) kinds
    → add_segment max_bytes flags kinds objects m ≡ ok m'
    → IsWhole m'
unfolding add_paged
add_segment-IsWhole max_bytes flags kinds objects m m' v whole b h =
    elim (Bool-cases (has_kinds kinds objects)) [
      | inr none' ↦
          subst IsWhole (ok-injective {E = ImageFault} m m' (ground (arith, h, none'))) whole
      | inl some' ↦
          let (start, ha, h1) =
            >>=-eq-ok (align m.file_size page)
              (λ start. close_segment max_bytes flags start kinds objects start m)
              (ground (arith, h, some')) in
          close_segment-IsWhole max_bytes flags start kinds objects start m m' v b h1
    ]

abbrev pub empty_image : List ObjectFile → Image
empty_image objects = record {
  offsets = zero_offsets objects;
  placements = [];
  file_size = header_size objects;
  memory_size = header_size objects;
  segments = [];
}

text-Opens :
    (objects : List ObjectFile)
    → Opens (header_size objects) 0 (header_size objects) 5 (text ∷ []) (empty_image objects)
text-Opens objects = record {
  chain = omega arith;
  loaded = tt;
  pages = omega arith;
  in_file = tt;
  on_page = refl;
  start_first = omega arith;
  headed = omega arith;
  own_kinds = (refl, tt);
  own_flags = (refl, tt);
}

-- What an executable layout promises.
pub record IsLoadable (objects : List ObjectFile) (max_bytes : ℕ) (l : Layout)
    (segments : List Segment) : Type 0 where
  pub chain : Chain (header_size objects) l.sections l.total_memory_size
  pub loaded : All (LoadedBy segments) l.sections
  pub pages : Pages 0 segments l.total_memory_size
  pub in_file : All (λ (s : Segment). s.start + s.bytes_in_file ≤ l.total_file_size) segments
  pub headed : header_size objects ≤ l.total_file_size
  pub file_bound : l.total_file_size ≤ max_bytes
  pub memory_bound : base + l.total_memory_size ≤ user_end

abbrev pub layout_of : Image → List ℕ → Layout
layout_of m sizes = record {
  section_offsets = m.offsets;
  section_sizes = sizes;
  sections = m.placements;
  base_address = base;
  total_file_size = m.file_size;
  total_memory_size = m.memory_size;
}

-- The images behind the three segments.
pub record Builds (objects : List ObjectFile) (max_bytes : ℕ) (l : Layout) (segments : List Segment)
    : Type 0 where
  pub m1 : Image
  pub m2 : Image
  pub m3 : Image
  pub valid : AllSections objects
  pub with_text : add_text max_bytes (header_size objects) objects (empty_image objects) ≡ ok m1
  pub with_constants : add_segment max_bytes 4 (read_only_data ∷ []) objects m1 ≡ ok m2
  pub with_data : add_segment max_bytes 6 data_kinds objects m2 ≡ ok m3
  pub sizes : List ℕ
  pub same : ◌≡◌ {A = Layout × List Segment} (layout_of m3 sizes, m3.segments) (l, segments)

pub executable_layout-Builds :
    (objects : List ObjectFile) (max_bytes : ℕ) (l : Layout) (segments : List Segment)
    → executable_layout objects max_bytes ≡ ok (l, segments)
    → Builds objects max_bytes l segments
unfolding executable_layout
executable_layout-Builds objects max_bytes l segments h =
    let (_, hc, h1) = >>=-eq-ok (check_inputs objects) _ h in
    let (m1, t, h2) =
      >>=-eq-ok (add_text max_bytes (header_size objects) objects (empty_image objects)) _ h1 in
    let (m2, c, h3) = >>=-eq-ok (add_segment max_bytes 4 (read_only_data ∷ []) objects m1) _ h2 in
    let (m3, d, h4) = >>=-eq-ok (add_segment max_bytes 6 data_kinds objects m2) _ h3 in
    let (sizes, hs, h5) = >>=-eq-ok (sizes_of (sections_of objects)) _ h4 in
    record {
      m1 = m1;
      m2 = m2;
      m3 = m3;
      valid = check_inputs-AllSections objects hc;
      with_text = t;
      with_constants = c;
      with_data = d;
      sizes = sizes;
      same = ok-injective {E = ImageFault} (layout_of m3 sizes, m3.segments) (l, segments) h5;
    }

Builds-Next :
    (objects : List ObjectFile) (max_bytes : ℕ) (l : Layout) (segments : List Segment)
    (b : Builds objects max_bytes l segments)
    → Next (header_size objects) max_bytes b.m3
unfolding add_text
Builds-Next objects max_bytes l segments b =
    let size = header_size objects in
    let n1 =
      close_segment-Next size max_bytes 5 0 (text ∷ []) objects size (empty_image objects) b.m1
        b.valid (text-Opens objects) b.with_text in
    let w1 =
      close_segment-IsWhole max_bytes 5 0 (text ∷ []) objects size (empty_image objects) b.m1
        b.valid (refl, tt) b.with_text in
    let n2 =
      add_segment-Next size max_bytes 4 (read_only_data ∷ []) objects b.m1 b.m2 b.valid n1 w1
        (refl, tt) (refl, tt) b.with_constants in
    let w2 =
      add_segment-IsWhole max_bytes 4 (read_only_data ∷ []) objects b.m1 b.m2 b.valid w1 (refl, tt)
        b.with_constants in
    add_segment-Next size max_bytes 6 data_kinds objects b.m2 b.m3 b.valid n2 w2 (refl, (refl, tt))
      (refl, (refl, tt)) b.with_data

-- An executable layout has its segments on whole pages, one behind the other in file and memory,
-- each at the address 0x400000 plus its file offset. The placements of the sections follow each
-- other without overlap behind the headers, each aligned, at the address of its file offset, and
-- inside a segment that has the permissions of its kind: text can be executed and not written,
-- data and BSS can be written and not executed, and constants neither. The file keeps to the byte
-- limit, and the memory to the lower 47-bit address space.
pub executable_layout-IsLoadable :
    (objects : List ObjectFile) (max_bytes : ℕ) (l : Layout) (segments : List Segment)
    → executable_layout objects max_bytes ≡ ok (l, segments)
    → IsLoadable objects max_bytes l segments
executable_layout-IsLoadable objects max_bytes l segments h =
    let b = executable_layout-Builds objects max_bytes l segments h in
    let n = Builds-Next objects max_bytes l segments b in
    subst (λ (x : Layout × List Segment). IsLoadable objects max_bytes x.0 x.1) b.same
      (record {
        chain = n.image.chain;
        loaded = n.image.loaded;
        pages = n.image.pages;
        in_file = n.image.in_file;
        headed = n.image.headed;
        file_bound = n.bounded.file_bound;
        memory_bound = n.bounded.memory_bound;
      })
