-- ===== src/Linker/Relocation/Value.antt =====
-- What a relocation computes, and the bytes of its value.
use whale.Prelude.{
  ℕ, ◌*◌, ◌%◌, ◌^◌, ◌≡◌, ◌⊎◌, refl, sym, subst, Bool, true, false, not, some, ok, ok-injective,
  >>=-eq-ok, or_fail-some, fail_if-false, fail_if, or_fail, arith, inl, inr,
}
use whale.Prelude.Int.{ℤ, pos, ◌+ℤ◌, ◌-ℤ◌, ◌≤ℤ◌, negsuc, wrap, int_laws}
use whale.Object.{
  RelocKind, absolute64, absolute32, signed_absolute32, relative32, relative8, plt32,
  ObjectRelocation,
}
use whale.Linker.Layout.{Layout}
use whale.Linker.Symbols.{ResolvedReference, SymbolTable}
use whale.Linker.Relocation.{
  RelocationErrorKind, unsupported, out_of_range, target_address, place_address, patch_value, fits,
  relocation_value,
}

-- The bytes that a relocation of each kind fills.
abbrev pub width_of : RelocKind → ℕ
width_of absolute64 = 8
width_of absolute32 = 4
width_of signed_absolute32 = 4
width_of relative32 = 4
width_of plt32 = 4
width_of relative8 = 1
width_of _ = 0

patch_value-width :
    (k : RelocKind) (absolute : ℤ) (place : ℕ) (v : ℤ) (w : ℕ)
    → patch_value k absolute place ≡ some (v, w)
    → (w ≡ width_of k) × ((w ≡ 1) ⊎ (w ≡ 4) ⊎ (w ≡ 8))
unfolding patch_value
patch_value-width absolute64 a p v w h = ground arith
patch_value-width absolute32 a p v w h = ground arith
patch_value-width signed_absolute32 a p v w h = ground arith
patch_value-width relative32 a p v w h = ground arith
patch_value-width relative8 a p v w h = ground arith
patch_value-width plt32 a p v w h = ground arith
patch_value-width _ a p v w h = ground arith

-- What the processor adds to the field of each kind before it uses it.
abbrev pub counted_from : RelocKind → ℕ → ℕ
counted_from relative32 place = place
counted_from plt32 place = place
counted_from relative8 place = place
counted_from _ place = 0

-- The least and the greatest value that the field of each kind stands for.
abbrev pub least : RelocKind → ℤ
least absolute64 = pos 0
least absolute32 = pos 0
least signed_absolute32 = negsuc 0x7fff_ffff
least relative32 = negsuc 0x7fff_ffff
least plt32 = negsuc 0x7fff_ffff
least relative8 = negsuc 127
least _ = pos 0

abbrev pub greatest : RelocKind → ℤ
greatest absolute64 = pos 0xffff_ffff_ffff_ffff
greatest absolute32 = pos 0xffff_ffff
greatest signed_absolute32 = pos 0x7fff_ffff
greatest relative32 = pos 0x7fff_ffff
greatest plt32 = pos 0x7fff_ffff
greatest relative8 = pos 127
greatest _ = pos 0

sub_add : (a b : ℤ) → a -ℤ b +ℤ b ≡ a
sub_add a b = omega int_laws

add_zero : (a : ℤ) → a +ℤ pos 0 ≡ a
add_zero a = omega int_laws

patch_value-sum :
    (k : RelocKind) (absolute : ℤ) (place : ℕ) (v : ℤ) (w : ℕ)
    → patch_value k absolute place ≡ some (v, w)
    → v +ℤ pos (counted_from k place) ≡ absolute
unfolding patch_value
patch_value-sum absolute64 a p v w h = ground (arith, add_zero a)
patch_value-sum absolute32 a p v w h = ground (arith, add_zero a)
patch_value-sum signed_absolute32 a p v w h = ground (arith, add_zero a)
patch_value-sum relative32 a p v w h = ground (arith, sub_add a (pos p))
patch_value-sum relative8 a p v w h = ground (arith, sub_add a (pos p))
patch_value-sum plt32 a p v w h = ground (arith, sub_add a (pos p))
patch_value-sum _ a p v w h = cc

fits_bounds : (k : RelocKind) (v : ℤ) → fits k v ≡ true → (least k ≤ℤ v) × (v ≤ℤ greatest k)
unfolding fits
fits_bounds absolute64 v h = ground arith
fits_bounds absolute32 v h = ground arith
fits_bounds signed_absolute32 v h = ground arith
fits_bounds relative32 v h = ground arith
fits_bounds relative8 v h = ground arith
fits_bounds plt32 v h = ground arith
fits_bounds _ v h = cc

-- What a relocation computes: from the target S, the addend A and the place P, a value in range.
pub record Computes (layout : Layout) (table : SymbolTable) (r : ObjectRelocation)
    (f : ResolvedReference) (value : ℤ) (width : ℕ) : Type 0 where
  pub target : ℕ
  pub place : ℕ
  pub found : target_address layout table f ≡ ok target
  pub placed : place_address layout r f ≡ ok place
  pub formula : patch_value r.kind (pos target +ℤ r.addend) place ≡ some (value, width)
  pub in_range : fits r.kind value ≡ true
  pub sum : value +ℤ pos (counted_from r.kind place) ≡ pos target +ℤ r.addend
  pub bounds : (least r.kind ≤ℤ value) × (value ≤ℤ greatest r.kind)
  pub width_of_kind : width ≡ width_of r.kind
  pub allowed : (width ≡ 1) ⊎ (width ≡ 4) ⊎ (width ≡ 8)

pub relocation_value-Computes :
    (layout : Layout) (table : SymbolTable) (r : ObjectRelocation) (f : ResolvedReference) (v : ℤ)
    (w : ℕ)
    → relocation_value layout table r f ≡ ok (v, w)
    → Computes layout table r f v w
unfolding relocation_value
relocation_value-Computes layout table r f v w h =
    let (target, ht, h1) = >>=-eq-ok (target_address layout table f) _ h in
    let (place, hp, h2) = >>=-eq-ok (place_address layout r f) _ h1 in
    let ((v', w'), he, h3) =
      >>=-eq-ok (or_fail (patch_value r.kind (pos target +ℤ r.addend) place) unsupported) _ h2 in
    let (_, fit, h4) = >>=-eq-ok (fail_if (not (fits r.kind v')) out_of_range) _ h3 in
    let e : ◌≡◌ {A = ℤ × ℕ} (v', w') (v, w) =
      ok-injective {E = RelocationErrorKind} (v', w') (v, w) h4 in
    let formula = or_fail-some (patch_value r.kind (pos target +ℤ r.addend) place) unsupported he in
    let widths = patch_value-width r.kind (pos target +ℤ r.addend) place v' w' formula in
    let fitting =
      not_lem (fits r.kind v') (fail_if-false (not (fits r.kind v')) out_of_range fit) in
    subst (λ (q : ℤ × ℕ). Computes layout table r f q.0 q.1) e
      (record {
        target = target;
        place = place;
        found = ht;
        placed = hp;
        formula = formula;
        in_range = fitting;
        sum = patch_value-sum r.kind (pos target +ℤ r.addend) place v' w' formula;
        bounds = fits_bounds r.kind v' fitting;
        width_of_kind = widths.0;
        allowed = widths.1;
      })
  where
    not_lem : (b : Bool) → not b ≡ false → b ≡ true
    not_lem true h' = refl
    not_lem false h' = cc

-- The low bytes of the 64-bit pattern are the pattern of the width.
wrap_low8 : (z : ℤ) → wrap 64 z % 2 ^ 8 ≡ wrap 8 z
unfolding wrap
wrap_low8 (pos n) = omega arith
wrap_low8 (negsuc n) = omega arith

wrap_low32 : (z : ℤ) → wrap 64 z % 2 ^ 32 ≡ wrap 32 z
unfolding wrap
wrap_low32 (pos n) = omega arith
wrap_low32 (negsuc n) = omega arith

wrap_low64 : (z : ℤ) → wrap 64 z % 2 ^ 64 ≡ wrap 64 z
unfolding wrap
wrap_low64 (pos n) = omega arith
wrap_low64 (negsuc n) = omega arith

pub wrap_low :
    (w : ℕ) (v : ℤ) → (w ≡ 1) ⊎ (w ≡ 4) ⊎ (w ≡ 8) → wrap 64 v % 2 ^ (8 * w) ≡ wrap (8 * w) v
wrap_low w v (inl h) = subst (λ k. wrap 64 v % 2 ^ (8 * k) ≡ wrap (8 * k) v) (sym h) (wrap_low8 v)
wrap_low w v (inr (inl h)) =
    subst (λ k. wrap 64 v % 2 ^ (8 * k) ≡ wrap (8 * k) v) (sym h) (wrap_low32 v)
wrap_low w v (inr (inr h)) =
    subst (λ k. wrap 64 v % 2 ^ (8 * k) ≡ wrap (8 * k) v) (sym h) (wrap_low64 v)
