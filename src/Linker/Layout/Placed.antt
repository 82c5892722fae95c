-- ===== src/Linker/Layout/Placed.antt =====
-- What a computed layout promises: every input section has one placement, in input order, aligned,
-- behind all earlier ones, and inside the address space.
use whale.Prelude.{
  ℕ, suc, ◌+◌, ◌%◌, ◌≤◌, ◌<◌, ◌≡◌, refl, sym, subst, true, List, [], ◌∷◌, ◌++◌, map, append_assoc,
  append-nil, some, ok, >>=-eq-ok, max, if◌then◌else◌, arith, Option-cases, Result-cases, inl, inr,
}
use whale.Prelude.Words.{
  IsU64, IsPower, checked_add, checked_add-some, is_power_of_two, is_power_of_two_sound, Rounds,
  round_up-Rounds,
}
use whale.Object.{Section, is_bss, memory_size, file_size, ObjectFile}
use whale.Linker.Layout.{
  SectionPlacement, placement_of, LayoutFault, align_up, Progress, advance_file, place,
  place_sections,
}

-- `align_up` gives the least multiple of the alignment from the value on; it fails only where that
-- multiple does not fit in 64 bits.
pub align_up_lem : (v a : ℕ) → IsU64 v → IsPower a → Rounds v a (align_up v a)
unfolding align_up
align_up_lem v a hv p = round_up-Rounds v a hv p

align_up-some :
    {r : ℕ} (v a : ℕ) → IsU64 v → IsPower a → align_up v a ≡ some r → Rounds v a (some r)
align_up-some v a hv p e = subst (Rounds v a) e (align_up_lem v a hv p)

-- An input section with the indices of its object and of itself.
pub record Input : Type 0 where
  pub object_index : ℕ
  pub section_index : ℕ
  pub section : Section

abbrev pub section_inputs : ℕ → ℕ → List Section → List Input
section_inputs oi si [] = []
section_inputs oi si (s ∷ ss) =
    record { object_index = oi; section_index = si; section = s } ∷ section_inputs oi (suc si) ss

abbrev pub inputs : ℕ → List ObjectFile → List Input
inputs oi [] = []
inputs oi (o ∷ os) = section_inputs oi 0 o.sections ++ inputs (suc oi) os

-- `p` places the input `i` where memory is taken up to `m` and the file up to `f`; they are taken
-- up to `a` and `b` behind it.
pub record Places (m f : ℕ) (i : Input) (p : SectionPlacement) (a b : ℕ) : Type 0 where
  pub same_object : p.object_index ≡ i.object_index
  pub same_section : p.section_index ≡ i.section_index
  pub same_kind : p.kind ≡ i.section.kind
  pub same_align : p.align ≡ max i.section.align 1
  pub power : IsPower p.align
  pub size : memory_size i.section ≡ ok p.placed_memory_size
  pub payload : p.placed_file_size ≡ file_size i.section
  pub after_memory : m ≤ p.memory_address
  pub close_memory : p.memory_address < m + p.align
  pub memory_aligned : p.memory_address % p.align ≡ 0
  pub memory_end : a ≡ p.memory_address + p.placed_memory_size
  pub memory_fits : IsU64 a
  pub after_file : f ≤ p.file_offset
  pub close_file : p.file_offset < f + p.align
  pub file_aligned : p.file_offset % p.align ≡ 0
  pub file_end : b ≡ (if is_bss p.kind then f else p.file_offset + p.placed_file_size)
  pub file_fits : IsU64 b

-- A run of placements, each behind the one before.
pub data Placed : ℕ → ℕ → List Input → List SectionPlacement → ℕ → ℕ → Type 0 where
  done : {m f : ℕ} → Placed m f [] [] m f
  next :
      {m f c d a b : ℕ} {i : Input} {p : SectionPlacement} {is : List Input}
      {ps : List SectionPlacement}
      → Places m f i p c d
      → Placed c d is ps a b
      → Placed m f (i ∷ is) (p ∷ ps) a b

advance_file_lem :
    (kind : _) (f off size : ℕ) (fault : _) {b : ℕ}
    → advance_file kind f off size fault ≡ ok b
    → IsU64 f
    → (b ≡ (if is_bss kind then f else off + size)) × IsU64 b
unfolding advance_file checked_add
advance_file_lem kind f off size fault h hf = ground arith

-- One section: what the loop body adds to the progress.
pub record Adds (oi si : ℕ) (s : Section) (p q : Progress) : Type 0 where
  pub placement : SectionPlacement
  pub places :
      Places p.memory_end p.file_end
        (record { object_index = oi; section_index = si; section = s })
        placement
        q.memory_end
        q.file_end
  pub placements : q.placements ≡ p.placements ++ placement ∷ []
  pub offsets : q.offsets ≡ p.offsets ++ placement.memory_address ∷ []
  pub sizes : q.sizes ≡ p.sizes ++ placement.placed_memory_size ∷ []

-- The values of the steps of `place`, put together.
place_finish :
    (oi si : ℕ) (s : Section) (p q : Progress) (address size memory_end offset file_end : ℕ)
    → IsU64 p.memory_end
    → IsU64 p.file_end
    → IsPower (max s.align 1)
    → memory_size s ≡ ok size
    → align_up p.memory_end (max s.align 1) ≡ some address
    → checked_add address size ≡ some memory_end
    → align_up p.file_end (max s.align 1) ≡ some offset
    → advance_file s.kind p.file_end offset (file_size s) (LayoutFault.file_size_overflow oi si)
      ≡ ok file_end
    → q ≡ record {
      memory_end = memory_end;
      file_end = file_end;
      offsets = p.offsets ++ address ∷ [];
      sizes = p.sizes ++ size ∷ [];
      placements = p.placements ++ placement_of oi si s address size offset ∷ [];
    }
    → Adds oi si s p q
place_finish oi si s p q address size memory_end offset file_end hm hf pow sized addressed ended
      offsetted advanced e =
    let align = max s.align 1 in
    let memory = align_up-some p.memory_end align hm pow addressed in
    let file = align_up-some p.file_end align hf pow offsetted in
    let (after, after_fits) = advance_file_lem s.kind p.file_end offset _ _ advanced hf in
    let sum = checked_add-some address size ended in
    rw e (record {
      placement = placement_of oi si s address size offset;
      places = record {
        same_object = refl;
        same_section = refl;
        same_kind = refl;
        same_align = refl;
        power = pow;
        size = sized;
        payload = refl;
        after_memory = memory.0;
        close_memory = memory.1;
        memory_aligned = memory.2;
        memory_end = sum.0;
        memory_fits = sum.1;
        after_file = file.0;
        close_file = file.1;
        file_aligned = file.2;
        file_end = after;
        file_fits = after_fits;
      };
      placements = refl;
      offsets = refl;
      sizes = refl;
    })

place-Adds :
    (oi si : ℕ) (s : Section) (p q : Progress)
    → place oi si s p ≡ ok q
    → IsU64 p.memory_end
    → IsU64 p.file_end
    → Adds oi si s p q
unfolding place
place-Adds oi si s p q h hm hf =
    let align = max s.align 1 in
    let pow : is_power_of_two align ≡ true = ground arith in
    elim (Result-cases (memory_size s)) [
      | inl (e, bad) ↦ absurd (ground arith)
      | inr (size, sized) ↦ elim (Option-cases (align_up p.memory_end align)) [
        | inl bad ↦ absurd (ground arith)
        | inr (address, addressed) ↦ elim (Option-cases (checked_add address size)) [
          | inl bad ↦ absurd (ground arith)
          | inr (memory_end, ended) ↦ elim (Option-cases (align_up p.file_end align)) [
            | inl bad ↦ absurd (ground arith)
            | inr (offset, offsetted) ↦
                elim (Result-cases (
                  advance_file s.kind p.file_end offset (file_size s)
                    (LayoutFault.file_size_overflow oi si))) [
                      | inl (e, bad) ↦ absurd (ground arith)
                      | inr (file_end, advanced) ↦
                          place_finish oi si s p q address size memory_end offset file_end hm hf
                            (is_power_of_two_sound align pow) sized addressed ended offsetted
                            advanced (ground arith)
                    ]
          ]
        ]
      ]
    ]

pub Placed-append :
    {m f c d a b : ℕ} {is js : List Input} {ps qs : List SectionPlacement}
    → Placed m f is ps c d
    → Placed c d js qs a b
    → Placed m f (is ++ js) (ps ++ qs) a b
Placed-append done r = r
Placed-append (next h l) r = next h (Placed-append l r)

-- The fields of the progress that a run of sections extends.
pub record Extends (is : List Input) (p q : Progress) : Type 0 where
  pub added : List SectionPlacement
  pub placed : Placed p.memory_end p.file_end is added q.memory_end q.file_end
  pub placements : q.placements ≡ p.placements ++ added
  pub offsets : q.offsets ≡ p.offsets ++ map (λ x. x.memory_address) added
  pub sizes : q.sizes ≡ p.sizes ++ map (λ x. x.placed_memory_size) added
  pub memory_fits : IsU64 q.memory_end
  pub file_fits : IsU64 q.file_end

pub place_sections-Extends :
    (oi si : ℕ) (ss : List Section) (p q : Progress)
    → place_sections oi si ss p ≡ ok q
    → IsU64 p.memory_end
    → IsU64 p.file_end
    → Extends (section_inputs oi si ss) p q
unfolding place_sections
place_sections-Extends oi si [] p q h hm hf =
    let e : p ≡ q = cc in
    subst (λ x. Extends [] p x) e
      (record {
        added = [];
        placed = done;
        placements = sym (append-nil _);
        offsets = sym (append-nil _);
        sizes = sym (append-nil _);
        memory_fits = hm;
        file_fits = hf;
      })
place_sections-Extends oi si (s ∷ ss) p q h hm hf =
    let (r, first, rest) = >>=-eq-ok (place oi si s p) (place_sections oi (suc si) ss) h in
    let one = place-Adds oi si s p r first hm hf in
    let more =
      place_sections-Extends oi (suc si) ss r q rest one.places.memory_fits one.places.file_fits in
    record {
      added = one.placement ∷ more.added;
      placed = next one.places more.placed;
      placements = rw (more.placements, one.placements, append_assoc);
      offsets = rw (more.offsets, one.offsets, append_assoc);
      sizes = rw (more.sizes, one.sizes, append_assoc);
      memory_fits = more.memory_fits;
      file_fits = more.file_fits;
    }
