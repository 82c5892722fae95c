-- ===== src/Linker/Relocation/Made.antt =====
-- The patches that `make_patches` returns: one for each site, apart from each other.
use whale.Prelude.{
  get_elem?-map, get_in, ℕ, zero, suc, ◌+◌, ◌≤◌, ◌<◌, ◌≡◌, ◌⊎◌, refl, sym, subst, true, false, List,
  [], ◌∷◌, map, take, length, length-take, get_elem?, some, ok, ok-injective, >>=-eq-ok,
  or_fail-some, fail_if-false, map_err-ok, some-injective, fail_if, or_fail, map_err, ltb, arith,
  All,
}
use whale.Prelude.Int.{ℤ, wrap}
use whale.Prelude.Bytes.{to_le_bytes, length-to_le_bytes}
use whale.Prelude.Words.{checked_add, checked_add-some}
use whale.Object.{Section, ObjectRelocation, ObjectFile}
use whale.Linker.Layout.{Layout}
use whale.Linker.Symbols.{ResolvedReference, SymbolTable}
use whale.Linker.Relocation.{
  RelocationErrorKind, outside_payload, panicked, overlapping, RelocationError, located, get_in,
  relocation_value, Occupied, overlaps, Patch, make_patch, make_patches, Sites, payload_rows,
}
use whale.Linker.Relocation.Nearest.{Entry}
use whale.Linker.Relocation.Disjoint.{apart_sym, nonempty, AllApart, IsSpread, overlaps-AllApart}
use whale.Linker.Relocation.Written.{entry_of, HasRoom, AllRoom}
use whale.Linker.Relocation.Value.{Computes, relocation_value-Computes}

-- The values of the steps of `make_patch` on the relocation `r` with the reference `f`.
record Makes (objects : List ObjectFile) (layout : Layout) (table : SymbolTable)
    (occupied : Occupied) (r : ObjectRelocation) (f : ResolvedReference) (p : Patch) (end : ℕ)
    : Type 0 where
  value : ℤ
  computed : Computes layout table r f value p.width
  same_object : p.object ≡ f.object_index
  same_section : p.section ≡ f.section_index
  same_offset : p.offset ≡ r.offset
  encoded : p.bytes ≡ to_le_bytes 8 (wrap 64 value)
  ends : end ≡ p.offset + p.width
  room : HasRoom (payload_rows objects) p
  some_bytes : 0 < p.width
  free : overlaps p.object p.section p.offset end occupied ≡ false

pub get_in-payload_rows :
    (objects : List ObjectFile) (oi si : ℕ) (o : ObjectFile) (s : Section)
    → get_elem? objects oi ≡ some o
    → get_elem? o.sections si ≡ some s
    → get_in (payload_rows objects) oi si ≡ some s.bytes
get_in-payload_rows [] oi si o s ho hs = cc
get_in-payload_rows (x ∷ xs) zero si o s ho hs =
    get_elem?-map (λ (y : Section). y.bytes) x.sections si s
      (subst (λ (y : ObjectFile). get_elem? y.sections si ≡ some s) (sym (some-injective x o ho))
        hs)
get_in-payload_rows (x ∷ xs) (suc oi) si o s ho hs = get_in-payload_rows xs oi si o s ho hs

written_width : (w v : ℕ) → w ≤ 8 → length (take w (to_le_bytes 8 v)) ≡ w
written_width w v h = omega (arith, length-take w (to_le_bytes 8 v), length-to_le_bytes 8 v)

pub small_lem : (w : ℕ) → (w ≡ 1) ⊎ (w ≡ 4) ⊎ (w ≡ 8) → w ≤ 8
small_lem w h = ground arith

positive_lem : (w : ℕ) → (w ≡ 1) ⊎ (w ≡ 4) ⊎ (w ≡ 8) → 0 < w
positive_lem w h = ground arith

room_lem : (l o w e : ℕ) → e ≡ o + w → ltb l e ≡ false → o + w ≤ l
room_lem l o w e sum h = ground arith

abbrev patch_at : ResolvedReference → ObjectRelocation → ℤ → ℕ → Patch
patch_at f r value width = record {
  object = f.object_index;
  section = f.section_index;
  offset = r.offset;
  width = width;
  bytes = to_le_bytes 8 (wrap 64 value);
}

make_patch-Makes :
    (objects : List ObjectFile) (layout : Layout) (table : SymbolTable) (occupied : Occupied)
    (r : ObjectRelocation) (f : ResolvedReference) (p : Patch) (end : ℕ)
    → make_patch objects layout table occupied r f ≡ ok (p, end)
    → Makes objects layout table occupied r f p end
unfolding make_patch
make_patch-Makes objects layout table occupied r f p end h =
    let ((value, width), computed, h1) = >>=-eq-ok (relocation_value layout table r f) _ h in
    let (o, ho, h2) = >>=-eq-ok (or_fail (get_elem? objects f.object_index) panicked) _ h1 in
    let (s, hs, h3) = >>=-eq-ok (or_fail (get_elem? o.sections f.section_index) panicked) _ h2 in
    let (e, he, h4) = >>=-eq-ok (or_fail (checked_add r.offset width) outside_payload) _ h3 in
    let (_, inside, h5) = >>=-eq-ok (fail_if (ltb (length s.bytes) e) outside_payload) _ h4 in
    let (_, free, h6) =
      >>=-eq-ok (fail_if (overlaps f.object_index f.section_index r.offset e occupied) overlapping)
        _ h5 in
    let whole : ◌≡◌ {A = Patch × ℕ} (patch_at f r value width, e) (p, end) =
      ok-injective {E = RelocationErrorKind} (patch_at f r value width, e) (p, end) h6 in
    let sum =
      (checked_add-some r.offset width {c = e}
        (or_fail-some (checked_add r.offset width) outside_payload he)).0 in
    let computes = relocation_value-Computes layout table r f value width computed in
    subst (λ (q : Patch × ℕ). Makes objects layout table occupied r f q.0 q.1) whole
      (record {
        value = value;
        computed = computes;
        same_object = refl;
        same_section = refl;
        same_offset = refl;
        encoded = refl;
        ends = sum;
        room = (
          s.bytes,
          get_in-payload_rows objects f.object_index f.section_index o s
              (or_fail-some (get_elem? objects f.object_index) panicked ho)
              (or_fail-some (get_elem? o.sections f.section_index) panicked hs),
          room_lem (length s.bytes) r.offset width e sum
              (fail_if-false (ltb (length s.bytes) e) outside_payload inside),
          written_width width (wrap 64 value) (small_lem width computes.allowed),
        );
        some_bytes = positive_lem width computes.allowed;
        free =
            fail_if-false (overlaps f.object_index f.section_index r.offset e occupied) overlapping
              free;
      })

-- The patches, one for each site, keep apart from each other and from what was there before.
pub record Wrote (layout : Layout) (table : SymbolTable)
    (site : ObjectRelocation × ResolvedReference) (p : Patch) : Type 0 where
  pub value : ℤ
  pub computed : Computes layout table site.0 site.1 value p.width
  pub same_object : p.object ≡ site.1.object_index
  pub same_section : p.section ≡ site.1.section_index
  pub same_offset : p.offset ≡ site.0.offset
  pub encoded : p.bytes ≡ to_le_bytes 8 (wrap 64 value)

pub data AllWrote (layout : Layout) (table : SymbolTable) : Sites → List Patch → Type 0 where
  none_wrote : AllWrote layout table [] []
  one_wrote :
      {s : ObjectRelocation × ResolvedReference} {ss : Sites} {p : Patch} {ps : List Patch}
      → Wrote layout table s p
      → AllWrote layout table ss ps
      → AllWrote layout table (s ∷ ss) (p ∷ ps)

AllApart-rest :
    (e : Entry) (occupied : Occupied) (ps : List Patch)
    → All (λ p. AllApart (entry_of p) (e ∷ occupied)) ps
    → All (λ p. AllApart (entry_of p) occupied) ps × AllApart e (map entry_of ps)
AllApart-rest e occupied [] h = (tt, tt)
AllApart-rest e occupied (p ∷ ps) (h, hs) =
    let (others, apart_all) = AllApart-rest e occupied ps hs in
    ((h.1, others), (apart_sym (entry_of p) e h.0, apart_all))

pub record Made (objects : List ObjectFile) (layout : Layout) (table : SymbolTable)
    (occupied : Occupied) (sites : Sites) (ps : List Patch) : Type 0 where
  pub wrote : AllWrote layout table sites ps
  pub room : AllRoom (payload_rows objects) ps
  pub spread : IsSpread (map entry_of ps)
  pub free : All (λ p. AllApart (entry_of p) occupied) ps

full_lem : (o w : ℕ) → 0 < w → ltb o (o + w) ≡ true
full_lem o w h = ground arith

pub make_patches-Made :
    (objects : List ObjectFile) (layout : Layout) (table : SymbolTable) (occupied : Occupied)
    (sites : Sites) (ps : List Patch)
    → IsSpread occupied
    → make_patches objects layout table occupied sites ≡ ok ps
    → Made objects layout table occupied sites ps
unfolding make_patches
make_patches-Made objects layout table occupied [] ps s h =
    subst (Made objects layout table occupied []) (ok-injective {E = RelocationError} [] ps h)
      (record { wrote = none_wrote; room = tt; spread = tt; free = tt })
make_patches-Made objects layout table occupied ((r, f) ∷ sites) ps s h =
    let ((p, end), here, h1) =
      >>=-eq-ok (map_err (located f) (make_patch objects layout table occupied r f)) _ h in
    let (qs, there, h2) =
      >>=-eq-ok
        (make_patches objects layout table (((p.object, p.section, p.offset), end) ∷ occupied)
          sites)
        _ h1 in
    let m =
      make_patch-Makes objects layout table occupied r f p end
        (map_err-ok (located f) (make_patch objects layout table occupied r f) here) in
    let far : AllApart (entry_of p) occupied =
      subst (λ x. AllApart ((p.object, p.section, p.offset), x) occupied) m.ends
        (overlaps-AllApart p.object p.section p.offset end occupied s m.free) in
    let full : nonempty (entry_of p) ≡ true = full_lem p.offset p.width m.some_bytes in
    let rest =
      make_patches-Made objects layout table (entry_of p ∷ occupied) sites qs (full, far, s)
        (subst
          (λ x.
            make_patches objects layout table (((p.object, p.section, p.offset), x) ∷ occupied)
              sites
            ≡ ok qs)
          m.ends there) in
    let (others, apart_all) = AllApart-rest (entry_of p) occupied qs rest.free in
    subst (Made objects layout table occupied ((r, f) ∷ sites))
      (ok-injective {E = RelocationError} (p ∷ qs) ps h2)
      (record {
        wrote =
            one_wrote
              (record {
                value = m.value;
                computed = m.computed;
                same_object = m.same_object;
                same_section = m.same_section;
                same_offset = m.same_offset;
                encoded = m.encoded;
              })
              rest.wrote;
        room = (m.room, rest.room);
        spread = (full, apart_all, rest.spread);
        free = (far, others);
      })
