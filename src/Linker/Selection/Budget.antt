-- ===== src/Linker/Selection/Budget.antt =====
-- What the limits of the selection guarantee.
use whale.Prelude.{
  ℕ, zero, suc, ◌+◌, ◌≤◌, ◌≡◌, refl, subst, ap, Bool, true, false, List, [], ◌∷◌, ◌++◌, length,
  length-append, get_elem?, set, replicate, Option, none, some, Result, ok, ok-injective, >>=-eq-ok,
  or_fail, ltb, leb, arith, Option-cases, inl, inr, Bool-cases,
}
use whale.Prelude.Words.{checked_add, checked_add-some}
use whale.Names.{Name}
use whale.Object.{Section, ObjectFile}
use whale.Linker.Selection.{
  ArchiveObject, LinkInput, object_input, archive_input, SelectError, max_objects, check_payload,
  Selection, add_object, take_member, end_round, select_archive, select_input, select_inputs,
  select, unresolved, scan_members,
}

abbrev pub section_bytes : List Section → ℕ
section_bytes [] = 0
section_bytes (s ∷ ss) = length s.bytes + section_bytes ss

-- The payload of the selected objects.
abbrev pub payload : List ObjectFile → ℕ
payload [] = 0
payload (o ∷ os) = section_bytes o.sections + payload os

payload-append : (os ps : List ObjectFile) → payload (os ++ ps) ≡ payload os + payload ps
payload-append [] ps = omega arith
payload-append (o ∷ os) ps = omega (arith, payload-append os ps)

check_payload_lem :
    (ss : List Section) (total limit t : ℕ)
    → check_payload ss total limit ≡ ok t
    → total ≤ limit
    → (t ≡ total + section_bytes ss) × (t ≤ limit)
unfolding check_payload
check_payload_lem [] total limit t h b = ground arith
check_payload_lem (s ∷ ss) total limit t h b =
    elim (Option-cases (checked_add total (length s.bytes))) [
      | inl bad ↦ absurd (ground arith)
      | inr (n, sum) ↦ elim (Bool-cases (ltb limit n)) [
        | inl over ↦ absurd (ground arith)
        | inr within ↦
            let (total', fits) = checked_add-some total (length s.bytes) sum in
            let (e, bound) = check_payload_lem ss n limit t (ground arith) (ground arith) in
            (omega arith, bound)
      ]
    ]

-- The total is the payload of what is selected, within the limits.
record IsBounded (max_bytes : ℕ) (st : Selection) : Type 0 where
  total : st.payload_bytes ≡ payload st.selected
  within : st.payload_bytes ≤ max_bytes
  few : length st.selected ≤ max_objects

add_object_lem :
    (max_bytes : ℕ) (o : ObjectFile) (st st' : Selection)
    → IsBounded max_bytes st
    → add_object max_bytes o st ≡ ok st'
    → (st'.payload_bytes ≡ payload st'.selected)
      × (st'.payload_bytes ≤ max_bytes)
      × (st'.selected ≡ st.selected ++ o ∷ [])
unfolding add_object
add_object_lem max_bytes o st st' b h =
    let (total, checked, rest) =
      >>=-eq-ok (check_payload o.sections st.payload_bytes max_bytes) _ h in
    let e = ok-injective {E = SelectError} _ st' rest in
    let (sum, fits) =
      check_payload_lem o.sections st.payload_bytes max_bytes total checked b.within in
    subst
      (λ (x : Selection).
        (x.payload_bytes ≡ payload x.selected)
        × (x.payload_bytes ≤ max_bytes)
        × (x.selected ≡ st.selected ++ o ∷ []))
      e (omega (arith, b.total, sum, payload-append st.selected (o ∷ [])), fits, refl)

take_member-IsBounded :
    (max_bytes : ℕ) (members : List ArchiveObject) (i : ℕ) (st st' : Selection)
    → IsBounded max_bytes st
    → take_member max_bytes members i st ≡ ok st'
    → IsBounded max_bytes st'
unfolding take_member
take_member-IsBounded max_bytes members i st st' b h =
    let (m, there, h1) = >>=-eq-ok (or_fail (get_elem? members i) SelectError.panicked) _ h in
    let (st1, added, h2) = >>=-eq-ok (add_object max_bytes m.object st) _ h1 in
    let (total, within, grown) = add_object_lem max_bytes m.object st st1 b added in
    elim (Bool-cases (ltb max_objects (length st1.selected))) [
      | inl over ↦ absurd (ground arith)
      | inr small ↦
          subst (IsBounded max_bytes) (ok-injective {E = SelectError} st1 st' (ground arith))
            (record { total = total; within = within; few = ground arith })
    ]

abbrev KeepsBounds :
    ℕ → (List Bool → Selection → Result SelectError (List Bool × Selection)) → Type 0
KeepsBounds max_bytes next =
    (used used' : List Bool) (st st' : Selection)
    → IsBounded max_bytes st
    → next used st ≡ ok (used', st')
    → IsBounded max_bytes st'

end_round-IsBounded :
    (max_bytes : ℕ) (members : List ArchiveObject) (used used' : List Bool) (st st' : Selection)
    (next : List Bool → Selection → Result SelectError (List Bool × Selection)) (found : Option ℕ)
    → KeepsBounds max_bytes next
    → IsBounded max_bytes st
    → end_round max_bytes members used st next found ≡ ok (used', st')
    → IsBounded max_bytes st'
end_round-IsBounded max_bytes members used used' st st' next none keep b h =
    subst (IsBounded max_bytes)
      (ap (λ (x : List Bool × Selection). x.1)
        (ok-injective {E = SelectError} (used, st) (used', st') h))
      b
end_round-IsBounded max_bytes members used used' st st' next (some i) keep b h =
    let (st1, taken, rest) = >>=-eq-ok (take_member max_bytes members i st) _ h in
    keep (set used i true) used' st1 st' (take_member-IsBounded max_bytes members i st st1 b taken)
      rest

select_archive-IsBounded :
    (rounds : ℕ) (entry : Name) (max_bytes : ℕ) (members : List ArchiveObject)
    → KeepsBounds max_bytes (select_archive rounds entry max_bytes members)
unfolding select_archive
select_archive-IsBounded zero entry max_bytes members used used' st st' b h = cc
select_archive-IsBounded (suc rounds) entry max_bytes members used used' st st' b h =
    let ((fuel, demand), asked, h1) = >>=-eq-ok (unresolved st.selected entry st.fuel) _ h in
    let ((fuel', found), scanned, h2) = >>=-eq-ok (scan_members demand 0 fuel used members) _ h1 in
    end_round-IsBounded max_bytes members used used' (record st { fuel = fuel' }) st'
      (select_archive rounds entry max_bytes members) found
      (select_archive-IsBounded rounds entry max_bytes members)
      (record { total = b.total; within = b.within; few = b.few }) h2

select_input-IsBounded :
    (entry : Name) (max_bytes : ℕ) (i : LinkInput) (st st' : Selection)
    → IsBounded max_bytes st
    → select_input entry max_bytes i st ≡ ok st'
    → IsBounded max_bytes st'
unfolding select_input
select_input-IsBounded entry max_bytes (object_input o) st st' b h =
    elim (Bool-cases (leb max_objects (length st.selected))) [
      | inl over ↦ absurd (ground arith)
      | inr small ↦
          let (total, within, grown) = add_object_lem max_bytes o st st' b (ground arith) in
          record {
            total = total;
            within = within;
            few = omega (
              arith,
              ap length grown,
              length-append st.selected (o ∷ []),
              few_of (length st.selected) small,
            );
          }
    ]
  where
    few_of : (n : ℕ) → leb max_objects n ≡ false → suc n ≤ max_objects
    few_of n e = ground arith
select_input-IsBounded entry max_bytes (archive_input members) st st' b h =
    let ((used', st1), ran, h1) =
      >>=-eq-ok
        (select_archive (suc (length members)) entry max_bytes members
          (replicate (length members) false) st)
        _ h in
    subst (IsBounded max_bytes) (ok-injective {E = SelectError} st1 st' h1)
      (select_archive-IsBounded (suc (length members)) entry max_bytes members _ used' st st1 b ran)

select_inputs-IsBounded :
    (entry : Name) (max_bytes : ℕ) (is : List LinkInput) (st st' : Selection)
    → IsBounded max_bytes st
    → select_inputs entry max_bytes is st ≡ ok st'
    → IsBounded max_bytes st'
unfolding select_inputs
select_inputs-IsBounded entry max_bytes [] st st' b h =
    subst (IsBounded max_bytes) (ok-injective {E = SelectError} st st' h) b
select_inputs-IsBounded entry max_bytes (i ∷ is) st st' b h =
    let (st1, one, rest) = >>=-eq-ok (select_input entry max_bytes i st) _ h in
    select_inputs-IsBounded entry max_bytes is st1 st'
      (select_input-IsBounded entry max_bytes i st st1 b one) rest

-- A selection that succeeds takes at most 4096 objects, and the section bytes of all of them
-- together stay within the caller's limit.
pub select_bounds :
    (inputs : List LinkInput) (entry : Name) (max_bytes : ℕ) (os : List ObjectFile)
    → select inputs entry max_bytes ≡ ok os
    → (length os ≤ 4096) × (payload os ≤ max_bytes)
unfolding select
select_bounds inputs entry max_bytes os h =
    let (st, ran, rest) = >>=-eq-ok (select_inputs entry max_bytes inputs _) _ h in
    let b =
      select_inputs-IsBounded entry max_bytes inputs _ st
        (record { total = refl; within = omega arith; few = omega arith }) ran in
    subst (λ xs. (length xs ≤ 4096) × (payload xs ≤ max_bytes))
      (ok-injective {E = SelectError} st.selected os rest) (b.few, omega (arith, b.total, b.within))
