-- ===== src/Linker/Selection/Rounds.antt =====
-- The loop over an archive ends by itself.
use whale.Prelude.{
  ℕ, zero, suc, ◌+◌, ◌<◌, ◌≡◌, ◌≢◌, refl, sym, subst, ap, ◌∙◌, Bool, true, false, not, ◌&&◌, List,
  [], ◌∷◌, length, get_elem?, set, replicate, Option, none, some, Result, ok, err, ◌>>=◌, >>=-eq-ok,
  or_fail, fail_if, ltb, leb, arith, inl, inr, Bool-cases,
}
use whale.Prelude.Words.{checked_add}
use whale.Names.{Name, member}
use whale.Object.{Section, ObjectSymbol, ObjectRelocation, ObjectFile}
use whale.Linker.Selection.{
  ArchiveObject, LinkInput, object_input, archive_input, SelectError, rounds_exhausted,
  payload_limit, object_limit, panicked, max_objects, charge, exported, own_names, add_if,
  define_symbols, define_objects, need_relocations, need_objects, check_payload, Selection,
  add_object, take_member, end_round, select_archive, select_input, select_inputs, select,
  unresolved, scan_symbols, hit_or, scan_members,
}

-- A step that never runs out of rounds.
abbrev NeverOut : {A : Type 0} → Result SelectError A → Type 0
NeverOut r = r ≢ err rounds_exhausted

bind-NeverOut :
    {A B : Type 0} (m : Result SelectError A) (f : A → Result SelectError B)
    → NeverOut m
    → ((a : A) → m ≡ ok a → NeverOut (f a))
    → NeverOut (m >>= f)
bind-NeverOut (ok a) f first rest h = rest a refl h
bind-NeverOut (err e) f first rest h = first cc

ok-NeverOut : {A : Type 0} (a : A) → NeverOut (ok a)
ok-NeverOut a h = cc

fail_if-NeverOut : (b : Bool) (e : SelectError) → e ≢ rounds_exhausted → NeverOut (fail_if b e)
fail_if-NeverOut true e other h = other cc
fail_if-NeverOut false e other h = cc

charge-NeverOut : (fuel : ℕ) → NeverOut (charge fuel)
charge-NeverOut zero h = cc
charge-NeverOut (suc fuel) h = cc

define_symbols-NeverOut :
    (fuel : ℕ) (names : List Name) (ss : List ObjectSymbol)
    → NeverOut (define_symbols fuel names ss)
unfolding define_symbols
define_symbols-NeverOut fuel names [] = ok-NeverOut _
define_symbols-NeverOut fuel names (s ∷ ss) =
    bind-NeverOut (charge fuel) _ (charge-NeverOut fuel)
      (λ fuel' _. define_symbols-NeverOut fuel' (add_if (exported s) s.name names) ss)

define_objects-NeverOut :
    (fuel : ℕ) (names : List Name) (os : List ObjectFile) → NeverOut (define_objects fuel names os)
unfolding define_objects
define_objects-NeverOut fuel names [] = ok-NeverOut _
define_objects-NeverOut fuel names (o ∷ os) =
    bind-NeverOut (define_symbols fuel names o.symbols) _
      (define_symbols-NeverOut fuel names o.symbols) (λ r _. define_objects-NeverOut r.0 r.1 os)

need_relocations-NeverOut :
    (fuel : ℕ) (defined own needed : List Name) (rs : List ObjectRelocation)
    → NeverOut (need_relocations fuel defined own needed rs)
unfolding need_relocations
need_relocations-NeverOut fuel defined own needed [] = ok-NeverOut _
need_relocations-NeverOut fuel defined own needed (r ∷ rs) =
    bind-NeverOut (charge fuel) _ (charge-NeverOut fuel) (λ fuel' _.
      need_relocations-NeverOut fuel' defined own
        (add_if (not (member r.symbol defined) && not (member r.symbol own)) r.symbol needed) rs)

need_objects-NeverOut :
    (fuel : ℕ) (defined needed : List Name) (os : List ObjectFile)
    → NeverOut (need_objects fuel defined needed os)
unfolding need_objects
need_objects-NeverOut fuel defined needed [] = ok-NeverOut _
need_objects-NeverOut fuel defined needed (o ∷ os) =
    bind-NeverOut (need_relocations fuel defined (own_names o) needed o.relocations) _
      (need_relocations-NeverOut fuel defined (own_names o) needed o.relocations)
      (λ r _. need_objects-NeverOut r.0 defined r.1 os)

unresolved-NeverOut :
    (os : List ObjectFile) (entry : Name) (fuel : ℕ) → NeverOut (unresolved os entry fuel)
unfolding unresolved
unresolved-NeverOut os entry fuel =
    bind-NeverOut (define_objects fuel [] os) _ (define_objects-NeverOut fuel [] os)
      (λ r _. need_objects-NeverOut r.0 r.1 (add_if (not (member entry r.1)) entry []) os)

scan_symbols-NeverOut :
    (demand : List Name) (fuel : ℕ) (ss : List ObjectSymbol)
    → NeverOut (scan_symbols demand fuel ss)
unfolding scan_symbols
scan_symbols-NeverOut demand fuel [] = ok-NeverOut _
scan_symbols-NeverOut demand fuel (s ∷ ss) =
    bind-NeverOut (charge fuel) _ (charge-NeverOut fuel) (λ fuel' _.
      elim (Bool-cases (exported s && member s.name demand)) [
        | inl y ↦ λ h. ground (arith, y, h)
        | inr n ↦ rw n (scan_symbols-NeverOut demand fuel' ss)
      ])

hit_or-NeverOut :
    (i : ℕ) (next : ℕ → Result SelectError (ℕ × Option ℕ)) (r : ℕ × Bool)
    → ((fuel : ℕ) → NeverOut (next fuel))
    → NeverOut (hit_or i next r)
hit_or-NeverOut i next (fuel, true) k h = cc
hit_or-NeverOut i next (fuel, false) k h = k fuel h

scan_members-NeverOut :
    (demand : List Name) (i fuel : ℕ) (us : List Bool) (ms : List ArchiveObject)
    → NeverOut (scan_members demand i fuel us ms)
unfolding scan_members
scan_members-NeverOut demand i fuel [] ms = ok-NeverOut _
scan_members-NeverOut demand i fuel (u ∷ us) [] = ok-NeverOut _
scan_members-NeverOut demand i fuel (true ∷ us) (m ∷ ms) =
    scan_members-NeverOut demand (suc i) fuel us ms
scan_members-NeverOut demand i fuel (false ∷ us) (m ∷ ms) =
    bind-NeverOut (scan_symbols demand fuel m.object.symbols) _
      (scan_symbols-NeverOut demand fuel m.object.symbols)
      (λ r _. hit_or-NeverOut i _ r (λ fuel'. scan_members-NeverOut demand (suc i) fuel' us ms))

check_payload-NeverOut :
    (ss : List Section) (total limit : ℕ) → NeverOut (check_payload ss total limit)
unfolding check_payload
check_payload-NeverOut [] total limit = ok-NeverOut _
check_payload-NeverOut (s ∷ ss) total limit =
    bind-NeverOut (or_fail (checked_add total (length s.bytes)) payload_limit) _
      (or_fail-NeverOut (checked_add total (length s.bytes)))
      (λ total' _.
        bind-NeverOut (fail_if (ltb limit total') payload_limit) _
          (fail_if-NeverOut (ltb limit total') payload_limit (λ h. cc))
          (λ _ _. check_payload-NeverOut ss total' limit))
  where
    or_fail-NeverOut : (o : Option ℕ) → NeverOut (or_fail o payload_limit)
    or_fail-NeverOut none h = cc
    or_fail-NeverOut (some n) h = cc

add_object-NeverOut :
    (max_bytes : ℕ) (o : ObjectFile) (st : Selection) → NeverOut (add_object max_bytes o st)
unfolding add_object
add_object-NeverOut max_bytes o st =
    bind-NeverOut (check_payload o.sections st.payload_bytes max_bytes) _
      (check_payload-NeverOut o.sections st.payload_bytes max_bytes) (λ _ _. ok-NeverOut _)

take_member-NeverOut :
    (max_bytes : ℕ) (members : List ArchiveObject) (i : ℕ) (st : Selection)
    → NeverOut (take_member max_bytes members i st)
unfolding take_member
take_member-NeverOut max_bytes members i st =
    bind-NeverOut (or_fail (get_elem? members i) panicked) _ (found-NeverOut (get_elem? members i))
      (λ m _.
        bind-NeverOut (add_object max_bytes m.object st) _
          (add_object-NeverOut max_bytes m.object st)
          (λ st' _.
            bind-NeverOut (fail_if (ltb max_objects (length st'.selected)) object_limit) _
              (fail_if-NeverOut (ltb max_objects (length st'.selected)) object_limit (λ h. cc))
              (λ _ _. ok-NeverOut _)))
  where
    found-NeverOut : (o : Option ArchiveObject) → NeverOut (or_fail o panicked)
    found-NeverOut none h = cc
    found-NeverOut (some n) h = cc

-- The members that may still be taken.
abbrev free : List Bool → ℕ
free [] = 0
free (true ∷ us) = free us
free (false ∷ us) = suc (free us)

free-set :
    (us : List Bool) (i : ℕ) → get_elem? us i ≡ some false → suc (free (set us i true)) ≡ free us
free-set [] i h = cc
free-set (false ∷ us) zero h = refl
free-set (true ∷ us) zero h = cc
free-set (false ∷ us) (suc i) h = ap suc (free-set us i h)
free-set (true ∷ us) (suc i) h = free-set us i h

free-replicate : (n : ℕ) → free (replicate n false) ≡ n
free-replicate zero = refl
free-replicate (suc n) = ap suc (free-replicate n)

end_round-NeverOut :
    (max_bytes : ℕ) (members : List ArchiveObject) (used : List Bool) (st : Selection)
    (next : List Bool → Selection → Result SelectError (List Bool × Selection)) (found : Option ℕ)
    → ((k : ℕ) → found ≡ some k → (st' : Selection) → NeverOut (next (set used k true) st'))
    → NeverOut (end_round max_bytes members used st next found)
end_round-NeverOut max_bytes members used st next none more = ok-NeverOut _
end_round-NeverOut max_bytes members used st next (some k) more =
    bind-NeverOut (take_member max_bytes members k st) _
      (take_member-NeverOut max_bytes members k st) (λ st' _. more k refl st')

abbrev Unused : List Bool → ℕ → ℕ → Type 0
Unused us i k = (j : ℕ) × (k ≡ i + j) × (get_elem? us j ≡ some false)

hit_or-Unused :
    (i : ℕ) (us : List Bool) (next : ℕ → Result SelectError (ℕ × Option ℕ)) (r : ℕ × Bool)
    (fuel' k : ℕ)
    → ((fuel : ℕ) → next fuel ≡ ok (fuel', some k) → Unused us (suc i) k)
    → hit_or i next r ≡ ok (fuel', some k)
    → Unused (false ∷ us) i k
hit_or-Unused i us next (fuel, true) fuel' k later h = (0, ground arith, refl)
hit_or-Unused i us next (fuel, false) fuel' k later h =
    let (j, e, unused) = later fuel h in (suc j, omega arith, unused)

-- The member that is found is unused.
scan_members-Unused :
    (demand : List Name) (i fuel : ℕ) (us : List Bool) (ms : List ArchiveObject) (fuel' k : ℕ)
    → scan_members demand i fuel us ms ≡ ok (fuel', some k)
    → Unused us i k
unfolding scan_members
scan_members-Unused demand i fuel [] ms fuel' k h = cc
scan_members-Unused demand i fuel (u ∷ us) [] fuel' k h = cc
scan_members-Unused demand i fuel (true ∷ us) (m ∷ ms) fuel' k h =
    let (j, e, unused) = scan_members-Unused demand (suc i) fuel us ms fuel' k h in
    (suc j, omega arith, unused)
scan_members-Unused demand i fuel (false ∷ us) (m ∷ ms) fuel' k h =
    let (r, looked, rest) = >>=-eq-ok (scan_symbols demand fuel m.object.symbols) _ h in
    hit_or-Unused i us (λ f. scan_members demand (suc i) f us ms) r fuel' k
      (λ f. scan_members-Unused demand (suc i) f us ms fuel' k) rest

-- The loop over one archive ends within as many rounds as it has unused members, and one more.
select_archive-NeverOut :
    (rounds : ℕ) (entry : Name) (max_bytes : ℕ) (members : List ArchiveObject) (used : List Bool)
    (st : Selection)
    → free used < rounds
    → NeverOut (select_archive rounds entry max_bytes members used st)
unfolding select_archive
select_archive-NeverOut zero entry max_bytes members used st lt = absurd (omega arith)
select_archive-NeverOut (suc rounds) entry max_bytes members used st lt =
    bind-NeverOut (unresolved st.selected entry st.fuel) _
      (unresolved-NeverOut st.selected entry st.fuel)
      (λ q _.
        bind-NeverOut (scan_members q.1 0 q.0 used members) _
          (scan_members-NeverOut q.1 0 q.0 used members)
          (λ r scanned.
            end_round-NeverOut max_bytes members used (record st { fuel = r.0 })
              (select_archive rounds entry max_bytes members) r.1
              (λ k yes st'.
                let (j, e, unused) =
                  scan_members-Unused q.1 0 q.0 used members r.0 k
                    (scanned ∙ ap (λ o. ok (r.0, o)) yes) in
                let same : k ≡ j = omega arith in
                select_archive-NeverOut rounds entry max_bytes members (set used k true) st' (
                  omega (
                    arith,
                    free-set used k (subst (λ x. get_elem? used x ≡ some false) (sym same) unused),
                  )))))

select_input-NeverOut :
    (entry : Name) (max_bytes : ℕ) (i : LinkInput) (st : Selection)
    → NeverOut (select_input entry max_bytes i st)
unfolding select_input
select_input-NeverOut entry max_bytes (object_input o) st =
    bind-NeverOut (fail_if (leb max_objects (length st.selected)) object_limit) _
      (fail_if-NeverOut (leb max_objects (length st.selected)) object_limit (λ h. cc))
      (λ _ _. add_object-NeverOut max_bytes o st)
select_input-NeverOut entry max_bytes (archive_input members) st =
    bind-NeverOut
      (select_archive (suc (length members)) entry max_bytes members
        (replicate (length members) false) st)
      _
      (select_archive-NeverOut (suc (length members)) entry max_bytes members _ st
        (omega (arith, free-replicate (length members))))
      (λ _ _. ok-NeverOut _)

select_inputs-NeverOut :
    (entry : Name) (max_bytes : ℕ) (is : List LinkInput) (st : Selection)
    → NeverOut (select_inputs entry max_bytes is st)
unfolding select_inputs
select_inputs-NeverOut entry max_bytes [] st = ok-NeverOut _
select_inputs-NeverOut entry max_bytes (i ∷ is) st =
    bind-NeverOut (select_input entry max_bytes i st) _ (select_input-NeverOut entry max_bytes i st)
      (λ st' _. select_inputs-NeverOut entry max_bytes is st')

-- The rescans of an archive end by themselves: as many rounds as the archive has members, and one
-- more, are always enough, whatever the inputs, the entry name and the limits.
pub select_terminates :
    (inputs : List LinkInput) (entry : Name) (max_bytes : ℕ)
    → select inputs entry max_bytes ≢ err rounds_exhausted
unfolding select
select_terminates inputs entry max_bytes =
    bind-NeverOut (select_inputs entry max_bytes inputs _) _
      (select_inputs-NeverOut entry max_bytes inputs _) (λ _ _. ok-NeverOut _)
