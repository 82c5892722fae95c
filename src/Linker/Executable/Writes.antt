-- ===== src/Linker/Executable/Writes.antt =====
-- Writes in ascending order of their offsets: each one is found in the result.
use whale.Prelude.{
  ℕ, suc, ◌+◌, ◌*◌, ◌≤◌, ◌≡◌, inr, refl, sym, subst, ap, ◌∙◌, false, List, [], ◌∷◌, ◌++◌, ok,
  ok-injective, >>=-eq-ok, fail_if, fail_if-false, All, arith, length, ltb,
}
use whale.Prelude.Bytes.{
  to_le_bytes, copy_at, window, length-copy_at, window-copy_at, window-copy_at_other,
}
use whale.Linker.Executable.{Segment}
use whale.Linker.Executable.Emit.{
  LinkErrorKind, panicked, Write, put, put_all, header_writes, segment_writes, segments_writes,
  stack_writes,
}

abbrev pub Ascends : ℕ → List Write → ℕ → Type 0
Ascends a [] b = a ≤ b
Ascends a ((at, bytes) ∷ ws) b = (a ≤ at) × Ascends (at + length bytes) ws b

pub Ascends-from : (a b c : ℕ) (ws : List Write) → a ≤ b → Ascends b ws c → Ascends a ws c
Ascends-from a b c [] h k = omega (arith, h, k)
Ascends-from a b c ((at, bytes) ∷ ws) h k = (omega (arith, h, k.0), k.1)

pub Ascends-append :
    (a b c : ℕ) (vs ws : List Write) → Ascends a vs b → Ascends b ws c → Ascends a (vs ++ ws) c
Ascends-append a b c [] ws h k = Ascends-from a b c ws h k
Ascends-append a b c ((at, bytes) ∷ vs) ws h k =
    (h.0, Ascends-append (at + length bytes) b c vs ws h.1 k)

-- One write.
put_lem :
    (at : ℕ) (bytes out out' : List ℕ)
    → put (at, bytes) out ≡ ok out'
    → (at + length bytes ≤ length out) × (copy_at at bytes out ≡ out')
unfolding put
put_lem at bytes out out' h =
    let (_, fits, rest) = >>=-eq-ok (fail_if (ltb (length out) (at + length bytes)) panicked) _ h in
    (
      le_lem (length out) (at + length bytes)
          (fail_if-false (ltb (length out) (at + length bytes)) panicked fits),
      ok-injective {E = LinkErrorKind} (copy_at at bytes out) out' rest,
    )
  where
    le_lem : (a b : ℕ) → ltb a b ≡ false → b ≤ a
    le_lem a b h = ground arith

pub put_all-length :
    (ws : List Write) (out out' : List ℕ) → put_all ws out ≡ ok out' → length out' ≡ length out
unfolding put_all
put_all-length [] out out' h = ap length (sym (ok-injective {E = LinkErrorKind} out out' h))
put_all-length ((at, bytes) ∷ ws) out out' h =
    let (mid, h1, h2) = >>=-eq-ok (put (at, bytes) out) _ h in
    put_all-length ws mid out' h2
    ∙ ap length (sym (put_lem at bytes out mid h1).1)
    ∙ length-copy_at at bytes out

-- What lies before the writes is not changed by them.
put_all-before :
    (ws : List Write) (a b o n : ℕ) (out out' : List ℕ)
    → Ascends a ws b
    → o + n ≤ a
    → put_all ws out ≡ ok out'
    → window o n out' ≡ window o n out
unfolding put_all
put_all-before [] a b o n out out' s k h =
    ap (window o n) (sym (ok-injective {E = LinkErrorKind} out out' h))
put_all-before ((at, bytes) ∷ ws) a b o n out out' s k h =
    let (mid, h1, h2) = >>=-eq-ok (put (at, bytes) out) _ h in
    put_all-before ws (at + length bytes) b o n mid out' s.1 (omega (arith, s.0, k)) h2
    ∙ ap (window o n) (sym (put_lem at bytes out mid h1).1)
    ∙ window-copy_at_other o n at bytes out (inr (omega (arith, s.0, k)))

abbrev pub Wrote : List ℕ → Write → Type 0
Wrote out (at, bytes) = window at (length bytes) out ≡ bytes

pub put_all-Wrote :
    (ws : List Write) (a b : ℕ) (out out' : List ℕ)
    → Ascends a ws b
    → put_all ws out ≡ ok out'
    → All (Wrote out') ws
unfolding put_all
put_all-Wrote [] a b out out' s h = tt
put_all-Wrote ((at, bytes) ∷ ws) a b out out' s h =
    let (mid, h1, h2) = >>=-eq-ok (put (at, bytes) out) _ h in
    let (fits, e) = put_lem at bytes out mid h1 in
    (
      put_all-before ws (at + length bytes) b at (length bytes) mid out' s.1 (omega arith) h2
          ∙ ap (window at (length bytes)) (sym e)
          ∙ window-copy_at at bytes out fits,
      put_all-Wrote ws (at + length bytes) b mid out' s.1 h2,
    )

-- Writes that fit do not panic.
abbrev pub Fits : ℕ → Write → Type 0
Fits n (at, bytes) = at + length bytes ≤ n

pub put_all-returns :
    (ws : List Write) (out : List ℕ)
    → All (Fits (length out)) ws
    → (out' : List ℕ) × (put_all ws out ≡ ok out')
unfolding put_all put
put_all-returns [] out h = (out, refl)
put_all-returns ((at, bytes) ∷ ws) out h =
    let fits : ltb (length out) (at + length bytes) ≡ false =
      not_lt (length out) (at + length bytes) h.0 in
    let mid = copy_at at bytes out in
    let rest =
      put_all-returns ws mid
        (subst (λ n. All (Fits n) ws) (sym (length-copy_at at bytes out)) h.1) in
    (rest.0, ground (arith, fits, rest.1))
  where
    not_lt : (a b : ℕ) → b ≤ a → ltb a b ≡ false
    not_lt a b h = ground arith

-- The parts of the header.
pub header_writes-Ascends :
    (address : ℕ) (segments : List Segment) → Ascends 0 (header_writes address segments) 64
unfolding to_le_bytes
header_writes-Ascends address segments = (
  omega arith,
  (
    omega arith,
    (
      omega arith,
      (
        omega arith,
        (omega arith, (omega arith, (omega arith, (omega arith, (omega arith, (omega arith)))))),
      ),
    ),
  ),
)

segment_writes-Ascends : (at : ℕ) (s : Segment) → Ascends at (segment_writes at s) (at + 56)
unfolding to_le_bytes
segment_writes-Ascends at s = (
  omega arith,
  (
    omega arith,
    (
      omega arith,
      (omega arith, (omega arith, (omega arith, (omega arith, (omega arith, (omega arith)))))),
    ),
  ),
)

pub segments_writes-Ascends :
    (i : ℕ) (ss : List Segment)
    → Ascends (64 + i * 56) (segments_writes i ss) (64 + (i + length ss) * 56)
segments_writes-Ascends i [] = omega arith
segments_writes-Ascends i (s ∷ ss) =
    Ascends-append (64 + i * 56) (64 + suc i * 56) (64 + (i + length (s ∷ ss)) * 56)
      (segment_writes (64 + i * 56) s) (segments_writes (suc i) ss)
      (subst (Ascends (64 + i * 56) (segment_writes (64 + i * 56) s)) {x = 64 + i * 56 + 56}
        (omega arith) (segment_writes-Ascends (64 + i * 56) s))
      (subst (Ascends (64 + suc i * 56) (segments_writes (suc i) ss))
        {x = 64 + (suc i + length ss) * 56} (omega arith) (segments_writes-Ascends (suc i) ss))

pub stack_writes-Ascends : (stack : ℕ) → Ascends stack (stack_writes stack) (stack + 56)
unfolding to_le_bytes
stack_writes-Ascends stack = (omega arith, (omega arith, (omega arith, (omega arith))))

pub Ascends-Fits : (ws : List Write) (a b n : ℕ) → Ascends a ws b → b ≤ n → All (Fits n) ws
Ascends-Fits [] a b n s h = tt
Ascends-Fits ((at, bytes) ∷ ws) a b n s h = (
  omega (arith, h, Ascends-le ws (at + length bytes) b s.1),
  Ascends-Fits ws (at + length bytes) b n s.1 h,
)
  where
    Ascends-le : (ws : List Write) (a b : ℕ) → Ascends a ws b → a ≤ b
    Ascends-le [] a b s = s
    Ascends-le ((at, bytes) ∷ ws) a b s =
        omega (arith, s.0, Ascends-le ws (at + length bytes) b s.1)
