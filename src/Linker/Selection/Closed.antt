-- ===== src/Linker/Selection/Closed.antt =====
-- What is left of an archive when its loop returns.
use whale.Prelude.{
  ℕ, zero, suc, ◌≡◌, refl, sym, ap, ◌∙◌, subst, Bool, true, false, List, [], ◌∷◌, ◌++◌, length, set,
  get_elem?, some, some-injective, ok, arith, ◌⊎◌, inl, inr, Bool-cases, ◌==◌,
}
use whale.Names.{Name}
use whale.Object.{ObjectFile}
use whale.Linker.Selection.{ArchiveObject, Selection, select_archive}
use whale.Linker.Selection.Demand.{demanded}
use whale.Linker.Selection.Pulled.{wanted, NothingLeft, Pulls, ended, pulled, select_archive-Pulls}

-- The object stands at an index of the list.
abbrev pub Stands : ObjectFile → List ObjectFile → Type 0
Stands o os = (j : ℕ) × (get_elem? os j ≡ some o)

-- The member's object is selected, or none of the symbols that it defines for others is demanded.
abbrev pub IsClosed : Name → List ObjectFile → ArchiveObject → Type 0
IsClosed entry os m = Stands m.object os ⊎ (wanted (demanded entry os) m ≡ false)

get_elem?-left :
    (o : ObjectFile) (xs ys : List ObjectFile) (j : ℕ)
    → get_elem? xs j ≡ some o
    → get_elem? (xs ++ ys) j ≡ some o
get_elem?-left o [] ys j h = cc
get_elem?-left o (x ∷ xs) ys zero h = h
get_elem?-left o (x ∷ xs) ys (suc j) h = get_elem?-left o xs ys j h

get_elem?-last :
    (o : ObjectFile) (xs : List ObjectFile) → get_elem? (xs ++ o ∷ []) (length xs) ≡ some o
get_elem?-last o [] = refl
get_elem?-last o (x ∷ xs) = get_elem?-last o xs

-- What is selected stays so.
Pulls-Stands :
    {entry : Name} {members : List ArchiveObject} {used' : List Bool} {os' : List ObjectFile}
    {used : List Bool} {os : List ObjectFile} (o : ObjectFile)
    → Pulls entry members used' os' used os
    → Stands o os
    → Stands o os'
Pulls-Stands o (ended left) h = h
Pulls-Stands {os = os} o (pulled k m first got more) (j, at) =
    Pulls-Stands o more (j, get_elem?-left o os (m.object ∷ []) j at)

unwanted :
    (d : Name → Bool) (us : List Bool) (ms : List ArchiveObject) (i : ℕ) (m : ArchiveObject)
    → NothingLeft d us ms
    → get_elem? us i ≡ some false
    → get_elem? ms i ≡ some m
    → wanted d m ≡ false
unwanted d [] ms i m left unused at = cc
unwanted d (u ∷ us) [] i m left unused at = cc
unwanted d (true ∷ us) (x ∷ ms) zero m left unused at = cc
unwanted d (true ∷ us) (x ∷ ms) (suc i) m left unused at = unwanted d us ms i m left unused at
unwanted d (false ∷ us) (x ∷ ms) zero m left unused at =
    subst (λ y. wanted d y ≡ false) (some-injective x m at) left.0
unwanted d (false ∷ us) (x ∷ ms) (suc i) m left unused at = unwanted d us ms i m left.1 unused at

-- Another flag is not touched.
get_elem?-set_other :
    (us : List Bool) (k i : ℕ)
    → (k == i) ≡ false
    → get_elem? us i ≡ some false
    → get_elem? (set us k true) i ≡ some false
get_elem?-set_other [] k i other h = h
get_elem?-set_other (u ∷ us) zero zero other h = absurd (ground arith)
get_elem?-set_other (u ∷ us) zero (suc i) other h = h
get_elem?-set_other (u ∷ us) (suc k) zero other h = h
get_elem?-set_other (u ∷ us) (suc k) (suc i) other h =
    get_elem?-set_other us k i (ground (arith, other)) h

Pulls-IsClosed :
    {entry : Name} {members : List ArchiveObject} {used' : List Bool} {os' : List ObjectFile}
    {used : List Bool} {os : List ObjectFile} (i : ℕ) (m : ArchiveObject)
    → Pulls entry members used' os' used os
    → get_elem? members i ≡ some m
    → get_elem? used i ≡ some false
    → IsClosed entry os' m
Pulls-IsClosed {entry} {members} {used'} {os' = os'} i m (ended left) at unused =
    inr (unwanted (demanded entry os') used' members i m left unused at)
Pulls-IsClosed {members = members} {used = used} {os = os} i m (pulled k x first got more) at
      unused =
    elim (Bool-cases (k == i)) [
      | inl y ↦
          let same : k ≡ i = ground (arith, y) in
          let member : x ≡ m = some-injective x m (sym got ∙ (ap (get_elem? members) same ∙ at)) in
          inl (
            Pulls-Stands m.object more (
              length os,
              subst (λ z. get_elem? (os ++ x.object ∷ []) (length os) ≡ some z.object) member
                  (get_elem?-last x.object os),
            ))
      | inr n ↦ Pulls-IsClosed i m more at (get_elem?-set_other used k i n unused)
    ]

-- When the loop over an archive returns, every member that was unused when it began is selected, or
-- none of the symbols that it defines for others is demanded: the selected objects are closed under
-- this archive. A name is demanded when no selected object defines it for others and it is the entry
-- or a relocation of a selected object asks for it, an object that has neither a local definition
-- nor a weak undefined symbol of the name.
pub select_archive-IsClosed :
    (rounds : ℕ) (entry : Name) (max_bytes : ℕ) (members : List ArchiveObject)
    (used used' : List Bool) (st st' : Selection) (i : ℕ) (m : ArchiveObject)
    → select_archive rounds entry max_bytes members used st ≡ ok (used', st')
    → get_elem? members i ≡ some m
    → get_elem? used i ≡ some false
    → IsClosed entry st'.selected m
select_archive-IsClosed rounds entry max_bytes members used used' st st' i m h at unused =
    Pulls-IsClosed i m (select_archive-Pulls rounds entry max_bytes members used used' st st' h) at
      unused
