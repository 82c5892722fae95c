-- ===== src/Linker/Relocation/Written.antt =====
-- What a list of patches does to the payloads.
use whale.Prelude.{
  ℕ, ◌+◌, ◌≤◌, ◌≡◌, ◌⊎◌, refl, sym, subst, ap, ◌∙◌, true, ◌&&◌, ◌||◌, List, [], ◌∷◌, map, take,
  length, get_in, get_in-modify_self, get_in-modify_other, Option, none, some, some-injective, leb,
  ◌==◌, arith, All, Bool-cases, inl, inr,
}
use whale.Prelude.Bytes.{copy_at, window, length-copy_at, window-copy_at, window-copy_at_other}
use whale.Linker.Relocation.{Patch, Payloads, apply_patch, apply_patches}
use whale.Linker.Relocation.Nearest.{Entry}
use whale.Linker.Relocation.Disjoint.{apart, apart_sym, AllApart, IsSpread}

abbrev window_of : ℕ → ℕ → Option (List ℕ) → Option (List ℕ)
window_of at n none = none
window_of at n (some xs) = some (window at n xs)

-- `n` bytes of a section, from an offset on.
abbrev pub read_field : Payloads → ℕ → ℕ → ℕ → ℕ → Option (List ℕ)
read_field rows oi si at n = window_of at n (get_in rows oi si)

abbrev pub field_entry : ℕ → ℕ → ℕ → ℕ → Entry
field_entry oi si at n = ((oi, si, at), at + n)

abbrev pub entry_of : Patch → Entry
entry_of p = field_entry p.object p.section p.offset p.width

-- The bytes that a patch writes.
abbrev pub written : Patch → List ℕ
written p = take p.width p.bytes

-- The section of a patch is there, and the patch lies in it.
abbrev pub HasRoom : Payloads → Patch → Type 0
HasRoom rows p =
    (xs : List ℕ) × (get_in rows p.object p.section ≡ some xs)
    × (p.offset + p.width ≤ length xs)
    × (length (written p) ≡ p.width)

-- A patch is read back.
read_field-apply_patch :
    (p : Patch) (rows : Payloads)
    → HasRoom rows p
    → read_field (apply_patch p rows) p.object p.section p.offset p.width ≡ some (written p)
unfolding apply_patch
read_field-apply_patch p rows (xs, there, room, size) =
    ap (window_of p.offset p.width)
      (get_in-modify_self (copy_at p.offset (written p)) rows p.object p.section xs there)
    ∙ ap some (
        subst (λ n. window p.offset n (copy_at p.offset (written p) xs) ≡ written p) size
          (window-copy_at p.offset (written p) xs (omega (arith, room, size))))

-- A field that stands apart from a patch is not changed by it.
read_field-apply_other :
    (p : Patch) (rows : Payloads) (oi si at n : ℕ)
    → HasRoom rows p
    → apart (entry_of p) (field_entry oi si at n) ≡ true
    → read_field (apply_patch p rows) oi si at n ≡ read_field rows oi si at n
unfolding apply_patch
read_field-apply_other p rows oi si at n (xs, there, room, size) far =
    elim (Bool-cases ((p.object == oi) && (p.section == si))) [
      | inr other ↦
          ap (window_of at n)
            (get_in-modify_other (copy_at p.offset (written p)) rows p.object p.section oi si other)
      | inl here ↦
          let po : p.object ≡ oi = ground (arith, here) in
          let ps : p.section ≡ si = ground (arith, here) in
          let sides : (p.offset + length (written p) ≤ at) ⊎ (at + n ≤ p.offset) =
            apart_sides p.offset p.width (length (written p)) at n size
              (ground (arith, far, here)) in
          subst (λ i. read_field (apply_patch p rows) i si at n ≡ read_field rows i si at n) po
            (subst
              (λ j.
                read_field (apply_patch p rows) p.object j at n ≡ read_field rows p.object j at n)
              ps
              (ap (window_of at n) (
                  get_in-modify_self (copy_at p.offset (written p)) rows p.object p.section xs
                    there)
                ∙ ap some (window-copy_at_other at n p.offset (written p) xs sides)
                ∙ sym (ap (window_of at n) there)))
    ]
  where
    apart_sides :
        (o w l at n : ℕ)
        → l ≡ w
        → (leb (o + w) at || leb (at + n) o) ≡ true
        → (o + l ≤ at) ⊎ (at + n ≤ o)
    apart_sides o w l at n e h = elim (Bool-cases (leb (o + w) at)) [
      | inl y ↦ inl (ground (arith, y, e))
      | inr no' ↦ inr (ground (arith, no', h))
    ]

apply_patch-HasRoom :
    (p q : Patch) (rows : Payloads)
    → HasRoom rows p
    → HasRoom rows q
    → HasRoom (apply_patch p rows) q
unfolding apply_patch
apply_patch-HasRoom p q rows (xs, there, room, size) (ys, yes', room', size') =
    elim (Bool-cases ((p.object == q.object) && (p.section == q.section))) [
      | inr other ↦ (
        ys,
        get_in-modify_other (copy_at p.offset (written p)) rows p.object p.section q.object
              q.section other
            ∙ yes',
        room',
        size',
      )
      | inl here ↦
          let po : p.object ≡ q.object = ground (arith, here) in
          let ps : p.section ≡ q.section = ground (arith, here) in
          let changed =
            subst
              (λ i.
                get_in (apply_patch p rows) i q.section ≡ some (copy_at p.offset (written p) xs))
              po
              (subst
                (λ j.
                  get_in (apply_patch p rows) p.object j ≡ some (copy_at p.offset (written p) xs))
                ps
                (get_in-modify_self (copy_at p.offset (written p)) rows p.object p.section xs
                  there)) in
          let same : xs ≡ ys = some-injective xs ys (
            sym there
            ∙ subst (λ i. get_in rows i p.section ≡ some ys) (sym po)
                (subst (λ j. get_in rows q.object j ≡ some ys) (sym ps) yes')) in
          (
            copy_at p.offset (written p) xs,
            changed,
            omega (arith, length-copy_at p.offset (written p) xs, ap length same),
            size',
          )
    ]

abbrev pub AllRoom : Payloads → List Patch → Type 0
AllRoom rows = All (HasRoom rows)

AllRoom-apply :
    (p : Patch) (rows : Payloads) (ps : List Patch)
    → HasRoom rows p
    → AllRoom rows ps
    → AllRoom (apply_patch p rows) ps
AllRoom-apply p rows [] h hs = tt
AllRoom-apply p rows (q ∷ ps) h hs =
    (apply_patch-HasRoom p q rows h hs.0, AllRoom-apply p rows ps h hs.1)

-- A field apart from every patch is as before.
pub apply_patches-other :
    (ps : List Patch) (rows : Payloads) (oi si at n : ℕ)
    → AllRoom rows ps
    → AllApart (field_entry oi si at n) (map entry_of ps)
    → read_field (apply_patches ps rows) oi si at n ≡ read_field rows oi si at n
unfolding apply_patches
apply_patches-other [] rows oi si at n h a = refl
apply_patches-other (p ∷ ps) rows oi si at n h a =
    apply_patches-other ps (apply_patch p rows) oi si at n (AllRoom-apply p rows ps h.0 h.1) a.1
    ∙ read_field-apply_other p rows oi si at n h.0
        (apart_sym (field_entry oi si at n) (entry_of p) a.0)

-- Every patch of a spread list is found in the result.
abbrev pub Stored : Payloads → Patch → Type 0
Stored rows p = read_field rows p.object p.section p.offset p.width ≡ some (written p)

pub apply_patches-Stored :
    (ps : List Patch) (rows : Payloads)
    → AllRoom rows ps
    → IsSpread (map entry_of ps)
    → All (Stored (apply_patches ps rows)) ps
unfolding apply_patches
apply_patches-Stored [] rows h s = tt
apply_patches-Stored (p ∷ ps) rows h s = (
  apply_patches-other ps (apply_patch p rows) p.object p.section p.offset p.width
        (AllRoom-apply p rows ps h.0 h.1) s.1
      ∙ read_field-apply_patch p rows h.0,
  apply_patches-Stored ps (apply_patch p rows) (AllRoom-apply p rows ps h.0 h.1) s.2,
)
