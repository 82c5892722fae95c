-- ===== src/Linker/Executable/Payload.antt =====
-- The writes of the payloads, and where the payloads stand in the file.
use whale.Prelude.{
  ℕ, ◌+◌, ◌≤◌, ◌≡◌, ◌⊎◌, inl, inr, refl, sym, subst, true, false, List, [], ◌∷◌, ◌++◌, some, ok,
  ok-injective, >>=-eq-ok, or_fail, or_fail-some, All, All-split, arith, Bool-cases, length, get_in,
}
use whale.Prelude.Bytes.{window}
use whale.Object.{is_bss}
use whale.Linker.Layout.{SectionPlacement}
use whale.Linker.Relocation.{Payloads}
use whale.Linker.Executable.Filled.{Chain, EndsIn}
use whale.Linker.Executable.Emit.{LinkErrorKind, panicked, Write, payload_write, payload_writes}
use whale.Linker.Executable.Writes.{Ascends, Ascends-from, Wrote, Fits}
use whale.Linker.Executable.Sized.{Sized}

-- The payload of a section stands in the file, unless the section is BSS.
abbrev pub InFile : Payloads → List ℕ → SectionPlacement → Type 0
InFile rows out p =
    (is_bss p.kind ≡ true)
    ⊎ ((xs : List ℕ) × (get_in rows p.object_index p.section_index ≡ some xs)
        × (window p.file_offset (length xs) out ≡ xs))

payload_write-some :
    (rows : Payloads) (p : SectionPlacement) (xs : List ℕ)
    → is_bss p.kind ≡ false
    → get_in rows p.object_index p.section_index ≡ some xs
    → payload_write rows p ≡ ok ((p.file_offset, xs) ∷ [])
unfolding payload_write
payload_write-some rows p xs b h = rw (b, h) refl

payload_write-bss :
    (rows : Payloads) (p : SectionPlacement) → is_bss p.kind ≡ true → payload_write rows p ≡ ok []
unfolding payload_write
payload_write-bss rows p b = rw b refl

-- The writes of the payloads: there are some, in ascending order, and they put the payloads in place.
pub record Emits (rows : Payloads) (a b n : ℕ) (ps : List SectionPlacement) : Type 0 where
  pub writes : List Write
  pub returned : payload_writes rows ps ≡ ok writes
  pub ascends : Ascends a writes b
  pub fits : All (Fits n) writes

writes_cons :
    (rows : Payloads) (p : SectionPlacement) (ps : List SectionPlacement) (first rest : List Write)
    → payload_write rows p ≡ ok first
    → payload_writes rows ps ≡ ok rest
    → payload_writes rows (p ∷ ps) ≡ ok (first ++ rest)
unfolding payload_writes
writes_cons rows p ps first rest h k = rw (h, k) refl

payload_fits :
    (n : ℕ) (p : SectionPlacement) (k : ℕ)
    → is_bss p.kind ≡ false
    → k ≤ p.placed_memory_size
    → EndsIn n p
    → p.file_offset + k ≤ n
payload_fits n p k m small (inl b) = cc
payload_fits n p k m small (inr le) = omega arith

pub payload_writes-Emits :
    (rows : Payloads) (a b n : ℕ) (ps : List SectionPlacement)
    → Chain a ps b
    → All (Sized rows) ps
    → All (EndsIn n) ps
    → Emits rows a b n ps
unfolding payload_writes
payload_writes-Emits rows a b n [] c s e = record {
  writes = [];
  returned = refl;
  ascends = c;
  fits = tt;
}
payload_writes-Emits rows a b n (p ∷ ps) c s e =
    let next = p.file_offset + p.placed_memory_size in
    let rest = payload_writes-Emits rows next b n ps c.3 s.1 e.1 in
    elim (Bool-cases (is_bss p.kind)) [
      | inl y ↦ record {
        writes = rest.writes;
        returned = writes_cons rows p ps [] rest.writes (payload_write-bss rows p y) rest.returned;
        ascends = Ascends-from a next b rest.writes (omega (arith, c.0)) rest.ascends;
        fits = rest.fits;
      }
      | inr m ↦
          let (xs, found, small) = s.0 in
          record {
            writes = (p.file_offset, xs) ∷ rest.writes;
            returned =
                writes_cons rows p ps ((p.file_offset, xs) ∷ []) rest.writes
                  (payload_write-some rows p xs m found) rest.returned;
            ascends = (
              c.0,
              Ascends-from (p.file_offset + length xs) next b rest.writes (omega (arith, small))
                  rest.ascends,
            );
            fits = (payload_fits n p (length xs) m small e.0, rest.fits);
          }
    ]

payload_write-InFile :
    (rows : Payloads) (out : List ℕ) (p : SectionPlacement) (first : List Write)
    → payload_write rows p ≡ ok first
    → All (Wrote out) first
    → InFile rows out p
unfolding payload_write
payload_write-InFile rows out p first h w = elim (Bool-cases (is_bss p.kind)) [
  | inl y ↦ inl y
  | inr m ↦
      let (xs, found, made) =
        >>=-eq-ok (or_fail (get_in rows p.object_index p.section_index) panicked)
          (λ payload. ok ((p.file_offset, payload) ∷ [])) (ground (arith, h, m)) in
      let one : ◌≡◌ {A = List Write} ((p.file_offset, xs) ∷ []) first =
        ok-injective {E = LinkErrorKind} ((p.file_offset, xs) ∷ []) first made in
      inr (
        xs,
        or_fail-some (get_in rows p.object_index p.section_index) panicked found,
        (subst (All (Wrote out)) (sym one) w).0,
      )
]

pub payload_writes-InFile :
    (rows : Payloads) (out : List ℕ) (ps : List SectionPlacement) (ws : List Write)
    → payload_writes rows ps ≡ ok ws
    → All (Wrote out) ws
    → All (InFile rows out) ps
unfolding payload_writes
payload_writes-InFile rows out [] ws h w = tt
payload_writes-InFile rows out (p ∷ ps) ws h w =
    let (first, h1, h2) = >>=-eq-ok (payload_write rows p) _ h in
    let (rest, h3, h4) = >>=-eq-ok (payload_writes rows ps) _ h2 in
    let (front, back) =
      All-split (Wrote out) first rest (
        subst (All (Wrote out)) (sym (ok-injective {E = LinkErrorKind} (first ++ rest) ws h4)) w) in
    (payload_write-InFile rows out p first h1 front, payload_writes-InFile rows out ps rest h3 back)
