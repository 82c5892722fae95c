-- ===== src/Linker/Selection/Pulled.antt =====
-- The loop over an archive against the rule that it follows: pull the first unused member that
-- defines a demanded name, until there is none.
use whale.Prelude.{
  ℕ, zero, suc, ◌+◌, ◌≡◌, sym, subst, ap, ◌∙◌, Bool, true, false, ◌&&◌, List, [], ◌∷◌, ◌++◌, set,
  get_elem?, any, Option, none, some, Result, ok, ok-injective, >>=-eq-ok, or_fail, fail_if,
  or_fail-some, arith, inl, inr, Bool-cases, ltb, length,
}
use cubical.Cubical.Foundations.Prelude.{fun_ext}
use whale.Names.{Name, member}
use whale.Object.{ObjectSymbol, ObjectFile}
use whale.Linker.Selection.{
  ArchiveObject, SelectError, charge, exported, Selection, take_member, add_object, end_round,
  select_archive, unresolved, scan_symbols, hit_or, scan_members, check_payload, max_objects,
  panicked, object_limit,
}
use whale.Linker.Selection.Demand.{demanded, unresolved-demanded}

-- The member defines, for others, a name with the property `d`.
abbrev pub wanted : (Name → Bool) → ArchiveObject → Bool
wanted d m = any (λ s. exported s && d s.name) m.object.symbols

-- No unused member is wanted.
abbrev pub NothingLeft : (Name → Bool) → List Bool → List ArchiveObject → Type 0
NothingLeft d [] ms = Unit
NothingLeft d (u ∷ us) [] = Unit
NothingLeft d (true ∷ us) (m ∷ ms) = NothingLeft d us ms
NothingLeft d (false ∷ us) (m ∷ ms) = (wanted d m ≡ false) × NothingLeft d us ms

-- The member `k` is the first unused one that is wanted.
abbrev pub FirstWanted : (Name → Bool) → ℕ → List Bool → List ArchiveObject → Type 0
FirstWanted d k [] ms = ⊥
FirstWanted d k (u ∷ us) [] = ⊥
FirstWanted d zero (true ∷ us) (m ∷ ms) = ⊥
FirstWanted d zero (false ∷ us) (m ∷ ms) = wanted d m ≡ true
FirstWanted d (suc k) (true ∷ us) (m ∷ ms) = FirstWanted d k us ms
FirstWanted d (suc k) (false ∷ us) (m ∷ ms) = (wanted d m ≡ false) × FirstWanted d k us ms

-- From these flags and objects, pulling leads to the flags `used'` and the objects `os'`.
pub data Pulls (entry : Name) (members : List ArchiveObject) (used' : List Bool)
    (os' : List ObjectFile) : List Bool → List ObjectFile → Type 0 where
  ended : NothingLeft (demanded entry os') used' members → Pulls entry members used' os' used' os'
  pulled :
      (k : ℕ) (m : ArchiveObject) {used : List Bool} {os : List ObjectFile}
      → FirstWanted (demanded entry os) k used members
      → get_elem? members k ≡ some m
      → Pulls entry members used' os' (set used k true) (os ++ m.object ∷ [])
      → Pulls entry members used' os' used os

scan_symbols-any :
    (demand : List Name) (fuel fuel' : ℕ) (b : Bool) (ss : List ObjectSymbol)
    → scan_symbols demand fuel ss ≡ ok (fuel', b)
    → any (λ s. exported s && member s.name demand) ss ≡ b
unfolding scan_symbols
scan_symbols-any demand fuel fuel' b [] h =
    ap (λ x. x.1) (ok-injective {E = SelectError} (fuel, false) (fuel', b) h)
scan_symbols-any demand fuel fuel' b (s ∷ ss) h =
    let (fuel1, charged, rest) = >>=-eq-ok (charge fuel) _ h in
    elim (Bool-cases (exported s && member s.name demand)) [
      | inl y ↦ ground (arith, y, rest)
      | inr n ↦
          let later = scan_symbols-any demand fuel1 fuel' b ss (ground (arith, n, rest)) in
          ground (arith, n, later)
    ]

-- What a scan from the index `i` on has found.
abbrev Scanned : (Name → Bool) → ℕ → List Bool → List ArchiveObject → Option ℕ → Type 0
Scanned d i us ms none = NothingLeft d us ms
Scanned d i us ms (some k) = (j : ℕ) × (k ≡ i + j) × FirstWanted d j us ms

Scanned-true :
    (d : Name → Bool) (i : ℕ) (us : List Bool) (m : ArchiveObject) (ms : List ArchiveObject)
    (found : Option ℕ)
    → Scanned d (suc i) us ms found
    → Scanned d i (true ∷ us) (m ∷ ms) found
Scanned-true d i us m ms none h = h
Scanned-true d i us m ms (some k) (j, e, h) = (suc j, omega arith, h)

Scanned-false :
    (d : Name → Bool) (i : ℕ) (us : List Bool) (m : ArchiveObject) (ms : List ArchiveObject)
    (found : Option ℕ)
    → wanted d m ≡ false
    → Scanned d (suc i) us ms found
    → Scanned d i (false ∷ us) (m ∷ ms) found
Scanned-false d i us m ms none missed h = (missed, h)
Scanned-false d i us m ms (some k) missed (j, e, h) = (suc j, omega arith, (missed, h))

abbrev scan_end : ℕ → Result SelectError (ℕ × Option ℕ)
scan_end fuel = ok (fuel, none)

-- Nothing is found where the flags or the members end.
found_none : (fuel fuel' : ℕ) (found : Option ℕ) → scan_end fuel ≡ ok (fuel', found) → none ≡ found
found_none fuel fuel' found h =
    ap (λ x. x.1) (ok-injective {E = SelectError} (fuel, none) (fuel', found) h)

hit_or-Scanned :
    (d : Name → Bool) (i fuel' : ℕ) (us : List Bool) (m : ArchiveObject) (ms : List ArchiveObject)
    (found : Option ℕ) (next : ℕ → Result SelectError (ℕ × Option ℕ)) (r : ℕ × Bool)
    → wanted d m ≡ r.1
    → hit_or i next r ≡ ok (fuel', found)
    → (next r.0 ≡ ok (fuel', found) → Scanned d (suc i) us ms found)
    → Scanned d i (false ∷ us) (m ∷ ms) found
hit_or-Scanned d i fuel' us m ms found next (fuel, true) w h later =
    subst (Scanned d i (false ∷ us) (m ∷ ms))
      (ap (λ x. x.1) (ok-injective {E = SelectError} (fuel, some i) (fuel', found) h))
      (zero, omega arith, w)
hit_or-Scanned d i fuel' us m ms found next (fuel, false) w h later =
    Scanned-false d i us m ms found w (later h)

scan_members-Scanned :
    (demand : List Name) (i fuel fuel' : ℕ) (us : List Bool) (ms : List ArchiveObject)
    (found : Option ℕ)
    → scan_members demand i fuel us ms ≡ ok (fuel', found)
    → Scanned (λ n. member n demand) i us ms found
unfolding scan_members
scan_members-Scanned demand i fuel fuel' [] ms found h =
    subst (Scanned (λ n. member n demand) i [] ms) (found_none fuel fuel' found h) tt
scan_members-Scanned demand i fuel fuel' (u ∷ us) [] found h =
    subst (Scanned (λ n. member n demand) i (u ∷ us) []) (found_none fuel fuel' found h) tt
scan_members-Scanned demand i fuel fuel' (true ∷ us) (m ∷ ms) found h =
    Scanned-true (λ n. member n demand) i us m ms found
      (scan_members-Scanned demand (suc i) fuel fuel' us ms found h)
scan_members-Scanned demand i fuel fuel' (false ∷ us) (m ∷ ms) found h =
    let (r, looked, rest) = >>=-eq-ok (scan_symbols demand fuel m.object.symbols) _ h in
    hit_or-Scanned (λ n. member n demand) i fuel' us m ms found
      (λ f. scan_members demand (suc i) f us ms) r
      (scan_symbols-any demand fuel r.0 r.1 m.object.symbols looked) rest
      (scan_members-Scanned demand (suc i) r.0 fuel' us ms found)

take_member-pulls :
    (max_bytes : ℕ) (members : List ArchiveObject) (k : ℕ) (st st' : Selection)
    → take_member max_bytes members k st ≡ ok st'
    → (m : ArchiveObject) × (get_elem? members k ≡ some m)
      × (st'.selected ≡ st.selected ++ m.object ∷ [])
unfolding take_member add_object
take_member-pulls max_bytes members k st st' h =
    let (m, got, h1) = >>=-eq-ok (or_fail (get_elem? members k) panicked) _ h in
    let (st1, added, h2) = >>=-eq-ok (add_object max_bytes m.object st) _ h1 in
    let (total, paid, h3) =
      >>=-eq-ok (check_payload m.object.sections st.payload_bytes max_bytes) _ added in
    let (_, few, h4) =
      >>=-eq-ok (fail_if (ltb max_objects (length st1.selected)) object_limit) _ h2 in
    let made = ok-injective {E = SelectError} _ st1 h3 in
    let returned = ok-injective {E = SelectError} st1 st' h4 in
    (
      m,
      or_fail-some (get_elem? members k) panicked got,
      sym (ap (λ x. x.selected) (made ∙ returned)),
    )

end_round-Pulls :
    (entry : Name) (max_bytes : ℕ) (members : List ArchiveObject) (used used' : List Bool)
    (st st' : Selection) (next : List Bool → Selection → Result SelectError (List Bool × Selection))
    (found : Option ℕ)
    → Scanned (demanded entry st.selected) 0 used members found
    → ((us : List Bool) (st1 : Selection)
        → next us st1 ≡ ok (used', st')
        → Pulls entry members used' st'.selected us st1.selected)
    → end_round max_bytes members used st next found ≡ ok (used', st')
    → Pulls entry members used' st'.selected used st.selected
end_round-Pulls entry max_bytes members used used' st st' next none left more h =
    subst (λ (x : List Bool × Selection). Pulls entry members x.0 x.1.selected used st.selected)
      (ok-injective {E = SelectError} (used, st) (used', st') h) (ended left)
end_round-Pulls entry max_bytes members used used' st st' next (some k) (j, same, first) more h =
    let (st1, taken, rest) = >>=-eq-ok (take_member max_bytes members k st) _ h in
    let (m, got, grown) = take_member-pulls max_bytes members k st st1 taken in
    pulled k m
      (subst (λ x. FirstWanted (demanded entry st.selected) x used members) (omega (arith, same))
        first)
      got
      (subst (Pulls entry members used' st'.selected (set used k true)) grown
        (more (set used k true) st1 rest))

-- When the loop over an archive returns, its flags and its selected objects come from those at the
-- start by pulls, and nothing is left to pull: each pull takes the first unused member that defines
-- for others a name that is demanded at that moment, marks that member alone and puts its object
-- behind those selected so far. A name is demanded when no selected object defines it for others and
-- it is the entry or a relocation asks for it, in an object that has neither a local definition nor
-- a weak undefined symbol of the name.
pub select_archive-Pulls :
    (rounds : ℕ) (entry : Name) (max_bytes : ℕ) (members : List ArchiveObject)
    (used used' : List Bool) (st st' : Selection)
    → select_archive rounds entry max_bytes members used st ≡ ok (used', st')
    → Pulls entry members used' st'.selected used st.selected
unfolding select_archive
select_archive-Pulls zero entry max_bytes members used used' st st' h = cc
select_archive-Pulls (suc rounds) entry max_bytes members used used' st st' h =
    let ((fuel, demand), asked, h1) = >>=-eq-ok (unresolved st.selected entry st.fuel) _ h in
    let ((fuel', found), scanned, h2) = >>=-eq-ok (scan_members demand 0 fuel used members) _ h1 in
    let same = fun_ext (λ n. unresolved-demanded n entry st.fuel fuel demand st.selected asked) in
    end_round-Pulls entry max_bytes members used used' (record st { fuel = fuel' }) st'
      (select_archive rounds entry max_bytes members) found
      (subst (λ d. Scanned d 0 used members found) same
        (scan_members-Scanned demand 0 fuel fuel' used members found scanned))
      (λ us st1 rest. select_archive-Pulls rounds entry max_bytes members us used' st1 st' rest) h2
