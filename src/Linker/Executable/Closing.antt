-- ===== src/Linker/Executable/Closing.antt =====
-- One segment: from what it starts, and what holds behind it.
use whale.Prelude.{
  ℕ, ◌+◌, ◌%◌, ◌≤◌, ◌≡◌, refl, sym, subst, true, false, List, [], ◌∷◌, ◌++◌, any, ok, ok-injective,
  >>=-eq-ok, or_fail-some, fail_if, fail_if-false, or_fail, All, All-append, arith, ltb,
}
use whale.Prelude.Words.{checked_add, checked_add-some}
use whale.Object.{SectionKind, ObjectFile}
use whale.Object.Validate.Sound.{IsSection}
use whale.Linker.Layout.{SectionPlacement}
use whale.Linker.Executable.{
  base, page, user_end, Segment, ImageFault, address_overflow, byte_limit, beyond_user_space,
  same_kind, Filling, fill_kinds, Image, segment_of, close_segment,
}
use whale.Linker.Executable.Filled.{Chain, Chain-append, Grows, fill_kinds-Grows}
use whale.Linker.Executable.Segments.{
  flags_of, Holds, LoadedBy, Pages, Pages-snoc, LoadedBy-last, All-left, new-Held, IsImage,
  IsBounded, in_file_grow,
}

-- What `close_segment` starts from: the old segments end before `start`, the old placements before `cursor`.
pub record Opens (header start cursor flags : ℕ) (kinds : List SectionKind) (m : Image)
    : Type 0 where
  pub chain : Chain header m.placements cursor
  pub loaded : All (LoadedBy m.segments) m.placements
  pub pages : Pages 0 m.segments start
  pub in_file : All (λ (s : Segment). s.start + s.bytes_in_file ≤ cursor) m.segments
  pub on_page : start % page ≡ 0
  pub start_first : start ≤ cursor
  pub headed : header ≤ cursor
  pub own_kinds : All (λ k. any (same_kind k) kinds ≡ true) kinds
  pub own_flags : All (λ k. flags ≡ flags_of k) kinds

abbrev image_of : Image → ℕ → ℕ → Filling → Image
image_of m flags start p = record {
  offsets = p.offsets;
  placements = p.placements;
  file_size = p.file_end;
  memory_size = p.cursor;
  segments = m.segments ++ segment_of flags start p ∷ [];
}

abbrev pub opening : ℕ → Image → Filling
opening cursor m = record {
  cursor = cursor;
  file_end = cursor;
  offsets = m.offsets;
  placements = m.placements;
}

All-Held :
    (ss : List Segment) (s : Segment) (ps : List SectionPlacement)
    → All (Holds s) ps
    → All (LoadedBy (ss ++ s ∷ [])) ps
All-Held ss s [] h = tt
All-Held ss s (p ∷ ps) h = (LoadedBy-last ss s p h.0, All-Held ss s ps h.1)

image_of-IsImage :
    (header start cursor flags : ℕ) (kinds : List SectionKind) (m : Image) (p : Filling)
    → Opens header start cursor flags kinds m
    → Grows kinds (opening cursor m) p
    → IsImage header (image_of m flags start p)
image_of-IsImage header start cursor flags kinds m p o g =
    let s = segment_of flags start p in
    let low : start ≤ p.file_end = omega (arith, o.start_first, g.file_grows) in
    let high : start ≤ p.cursor = omega (arith, low, g.inside) in
    let held =
      new-Held kinds flags start cursor p g.new o.start_first low high o.own_flags g.chain g.in_file
        g.of_kinds in
    record {
      chain =
          subst (λ ps. Chain header ps p.cursor) (sym g.added)
            (Chain-append header cursor p.cursor m.placements g.new o.chain g.chain);
      loaded = subst (All (LoadedBy (m.segments ++ s ∷ []))) (sym g.added) (
          All-append (LoadedBy (m.segments ++ s ∷ [])) m.placements g.new
            (All-left m.segments (s ∷ []) m.placements o.loaded)
            (All-Held m.segments s g.new held));
      pages =
          Pages-snoc 0 start p.cursor m.segments s o.pages
            (omega arith, o.on_page, refl, omega (arith, low, high, g.inside), omega (arith, high));
      in_file =
          All-append (λ (x : Segment). x.start + x.bytes_in_file ≤ p.file_end) m.segments (s ∷ [])
            (in_file_grow cursor p.file_end m.segments g.file_grows o.in_file)
            (omega (arith, low), tt);
      ordered = g.inside;
      headed = omega (arith, o.headed, g.file_grows);
    }

-- The steps of `close_segment`.
pub record Closes (max_bytes flags start : ℕ) (kinds : List SectionKind) (objects : List ObjectFile)
    (cursor : ℕ) (m m' : Image) : Type 0 where
  pub filling : Filling
  pub fills : fill_kinds kinds objects (opening cursor m) ≡ ok filling
  pub file_bound : filling.file_end ≤ max_bytes
  pub memory_bound : base + filling.cursor ≤ user_end
  pub closed : image_of m flags start filling ≡ m'

ltb-false : (a b : ℕ) → ltb a b ≡ false → b ≤ a
ltb-false a b h = ground arith

pub close_segment-Closes :
    (max_bytes flags start : ℕ) (kinds : List SectionKind) (objects : List ObjectFile) (cursor : ℕ)
    (m m' : Image)
    → close_segment max_bytes flags start kinds objects cursor m ≡ ok m'
    → Closes max_bytes flags start kinds objects cursor m m'
unfolding close_segment
close_segment-Closes max_bytes flags start kinds objects cursor m m' h =
    let (p, hp, h1) = >>=-eq-ok (fill_kinds kinds objects (opening cursor m)) _ h in
    let (_, hb, h2) = >>=-eq-ok (fail_if (ltb max_bytes p.file_end) byte_limit) _ h1 in
    let (end, he, h3) = >>=-eq-ok (or_fail (checked_add base p.cursor) address_overflow) _ h2 in
    let (_, hu, h4) = >>=-eq-ok (fail_if (ltb user_end end) beyond_user_space) _ h3 in
    let sum =
      (checked_add-some base p.cursor
        (or_fail-some (checked_add base p.cursor) address_overflow he)).0 in
    record {
      filling = p;
      fills = hp;
      file_bound =
          ltb-false max_bytes p.file_end (fail_if-false (ltb max_bytes p.file_end) byte_limit hb);
      memory_bound =
          subst (λ e. e ≤ user_end) sum
            (ltb-false user_end end (fail_if-false (ltb user_end end) beyond_user_space hu));
      closed = ok-injective {E = ImageFault} (image_of m flags start p) m' h4;
    }

abbrev pub AllSections : List ObjectFile → Type 0
AllSections = All (λ (o : ObjectFile). All IsSection o.sections)

-- A segment of the loop.
pub record Next (header max_bytes : ℕ) (m : Image) : Type 0 where
  pub image : IsImage header m
  pub bounded : IsBounded max_bytes m

pub close_segment-Next :
    (header max_bytes flags start : ℕ) (kinds : List SectionKind) (objects : List ObjectFile)
    (cursor : ℕ) (m m' : Image)
    → AllSections objects
    → Opens header start cursor flags kinds m
    → close_segment max_bytes flags start kinds objects cursor m ≡ ok m'
    → Next header max_bytes m'
close_segment-Next header max_bytes flags start kinds objects cursor m m' v o h =
    let c = close_segment-Closes max_bytes flags start kinds objects cursor m m' h in
    let g =
      fill_kinds-Grows kinds kinds objects (opening cursor m) c.filling o.own_kinds v (omega arith)
        c.fills in
    subst (Next header max_bytes) c.closed (record {
      image = image_of-IsImage header start cursor flags kinds m c.filling o g;
      bounded = record { file_bound = c.file_bound; memory_bound = c.memory_bound };
    })
