-- ===== src/Linker/Executable/Segments.antt =====
-- What the placement promises: page-aligned segments one behind the other, and every placement
-- inside a segment with the permissions of its kind.
use whale.Prelude.{
  ℕ, ◌+◌, ◌-◌, ◌%◌, ◌≤◌, ◌≡◌, ◌⊎◌, inl, inr, refl, sym, subst, ap, ◌∙◌, true, List, [], ◌∷◌, ◌++◌,
  any, All, arith, Bool-cases,
}
use whale.Object.{SectionKind, text, data_section, bss, read_only_data}
use whale.Linker.Layout.{SectionPlacement}
use whale.Linker.Executable.{base, page, user_end, Segment, same_kind, Filling, Image, segment_of}
use whale.Linker.Executable.Filled.{Chain, EndsIn, OfKind}

-- The permissions that a section of each kind is loaded with: text to execute, data to write.
abbrev pub flags_of : SectionKind → ℕ
flags_of text = 5
flags_of read_only_data = 4
flags_of data_section = 6
flags_of bss = 6

-- The segment holds the placement in memory, its file part unless it is BSS, and has its flags.
pub record Holds (s : Segment) (p : SectionPlacement) : Type 0 where
  pub from_start : s.start ≤ p.file_offset
  pub in_memory : p.file_offset + p.placed_memory_size ≤ s.start + s.bytes_in_memory
  pub in_file : EndsIn (s.start + s.bytes_in_file) p
  pub permitted : s.flags ≡ flags_of p.kind

abbrev pub LoadedBy : List Segment → SectionPlacement → Type 0
LoadedBy [] p = ⊥
LoadedBy (s ∷ ss) p = Holds s p ⊎ LoadedBy ss p

-- Segments on whole pages, one behind the other, at the address of their file offset.
abbrev pub Pages : ℕ → List Segment → ℕ → Type 0
Pages a [] b = a ≤ b
Pages a (s ∷ ss) b =
    (a ≤ s.start)
    × (s.start % page ≡ 0)
    × (s.address ≡ base + s.start)
    × (s.bytes_in_file ≤ s.bytes_in_memory)
    × Pages (s.start + s.bytes_in_memory) ss b

pub Pages-snoc :
    (a b c : ℕ) (ss : List Segment) (s : Segment)
    → Pages a ss b
    → Pages b (s ∷ []) c
    → Pages a (ss ++ s ∷ []) c
Pages-snoc a b c [] s h k = (omega (arith, h, k.0), k.1, k.2, k.3, k.4)
Pages-snoc a b c (x ∷ ss) s h k =
    (h.0, h.1, h.2, h.3, Pages-snoc (x.start + x.bytes_in_memory) b c ss s h.4 k)

pub Pages-to : (a b c : ℕ) (ss : List Segment) → Pages a ss b → b ≤ c → Pages a ss c
Pages-to a b c [] h k = omega arith
Pages-to a b c (s ∷ ss) h k =
    (h.0, h.1, h.2, h.3, Pages-to (s.start + s.bytes_in_memory) b c ss h.4 k)

pub Chain-to : (a b c : ℕ) (ps : List SectionPlacement) → Chain a ps b → b ≤ c → Chain a ps c
Chain-to a b c [] h k = omega arith
Chain-to a b c (p ∷ ps) h k =
    (h.0, h.1, h.2, Chain-to (p.file_offset + p.placed_memory_size) b c ps h.3 k)

LoadedBy-left :
    (ss ts : List Segment) (p : SectionPlacement) → LoadedBy ss p → LoadedBy (ss ++ ts) p
LoadedBy-left [] ts p h = absurd h
LoadedBy-left (s ∷ ss) ts p (inl h) = inl h
LoadedBy-left (s ∷ ss) ts p (inr h) = inr (LoadedBy-left ss ts p h)

pub LoadedBy-last :
    (ss : List Segment) (s : Segment) (p : SectionPlacement) → Holds s p → LoadedBy (ss ++ s ∷ []) p
LoadedBy-last [] s p h = inl h
LoadedBy-last (x ∷ ss) s p h = inr (LoadedBy-last ss s p h)

pub All-left :
    (ss ts : List Segment) (ps : List SectionPlacement)
    → All (LoadedBy ss) ps
    → All (LoadedBy (ss ++ ts)) ps
All-left ss ts [] h = tt
All-left ss ts (p ∷ ps) h = (LoadedBy-left ss ts p h.0, All-left ss ts ps h.1)

pub same_kind-eq : (a b : SectionKind) → same_kind a b ≡ true → a ≡ b
same_kind-eq text text h = refl
same_kind-eq data_section data_section h = refl
same_kind-eq bss bss h = refl
same_kind-eq read_only_data read_only_data h = refl
same_kind-eq text data_section h = cc
same_kind-eq text bss h = cc
same_kind-eq text read_only_data h = cc
same_kind-eq data_section text h = cc
same_kind-eq data_section bss h = cc
same_kind-eq data_section read_only_data h = cc
same_kind-eq bss text h = cc
same_kind-eq bss data_section h = cc
same_kind-eq bss read_only_data h = cc
same_kind-eq read_only_data text h = cc
same_kind-eq read_only_data data_section h = cc
same_kind-eq read_only_data bss h = cc

kind_flags :
    (ks : List SectionKind) (flags : ℕ) (k : SectionKind)
    → All (λ x. flags ≡ flags_of x) ks
    → any (same_kind k) ks ≡ true
    → flags ≡ flags_of k
kind_flags [] flags k h e = cc
kind_flags (x ∷ ks) flags k h e = elim (Bool-cases (same_kind k x)) [
  | inl y ↦ h.0 ∙ ap flags_of (sym (same_kind-eq k x y))
  | inr n ↦ kind_flags ks flags k h.1 (ground (arith, e, n))
]

-- The new placements are held by the new segment.
pub new-Held :
    (ks : List SectionKind) (flags start a : ℕ) (q : Filling) (new : List SectionPlacement)
    → start ≤ a
    → start ≤ q.file_end
    → start ≤ q.cursor
    → All (λ x. flags ≡ flags_of x) ks
    → Chain a new q.cursor
    → All (EndsIn q.file_end) new
    → All (OfKind ks) new
    → All (Holds (segment_of flags start q)) new
new-Held ks flags start a q [] low file room f c e o = tt
new-Held ks flags start a q (p ∷ ps) low file room f c e o = (
  record {
    from_start = omega (arith, low, c.0);
    in_memory = Chain_end q.cursor (p.file_offset + p.placed_memory_size) ps room c.3;
    in_file = subst (λ n. EndsIn n p) {x = q.file_end} (omega (arith, file)) e.0;
    permitted = kind_flags ks flags p.kind f o.0;
  },
  new-Held ks flags start (p.file_offset + p.placed_memory_size) q ps (omega (arith, low, c.0)) file
      room f c.3 e.1 o.1,
)
  where
    Chain_end :
        (b x : ℕ) (ps : List SectionPlacement) → start ≤ b → Chain x ps b → x ≤ start + (b - start)
    Chain_end b x [] h k = omega arith
    Chain_end b x (y ∷ ys) h k =
        omega (arith, k.0, Chain_end b (y.file_offset + y.placed_memory_size) ys h k.3)

-- What holds of the image behind each segment.
pub record IsImage (header : ℕ) (m : Image) : Type 0 where
  pub chain : Chain header m.placements m.memory_size
  pub loaded : All (LoadedBy m.segments) m.placements
  pub pages : Pages 0 m.segments m.memory_size
  pub in_file : All (λ (s : Segment). s.start + s.bytes_in_file ≤ m.file_size) m.segments
  pub ordered : m.file_size ≤ m.memory_size
  pub headed : header ≤ m.file_size

-- The bounds that every segment is checked against.
pub record IsBounded (max_bytes : ℕ) (m : Image) : Type 0 where
  pub file_bound : m.file_size ≤ max_bytes
  pub memory_bound : base + m.memory_size ≤ user_end

pub in_file_grow :
    (a b : ℕ) (ss : List Segment)
    → a ≤ b
    → All (λ (s : Segment). s.start + s.bytes_in_file ≤ a) ss
    → All (λ (s : Segment). s.start + s.bytes_in_file ≤ b) ss
in_file_grow a b [] h k = tt
in_file_grow a b (s ∷ ss) h k = (omega (arith, h, k.0), in_file_grow a b ss h k.1)
