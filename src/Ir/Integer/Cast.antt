-- ===== src/Ir/Integer/Cast.antt =====
-- `checked_cast` keeps the mathematical value, and traps exactly where the destination lacks it.
use whale.Prelude.{ℕ, ◌^◌, ◌<◌, ◌≡◌, Bool, true, false, Result, ok, err, arith}
use whale.Ir.Integer.{TrapReason, invalid_conversion, masked, cast_pattern}
use whale.Ir.Integer.Width.{Width, w1, bits_of, value_of}
use whale.Ir.Integer.Exact.{in_range}

-- What a cast must return on the source pattern `p`.
abbrev pub Casts : ℕ × Bool → ℕ × Bool → ℕ → Result TrapReason ℕ → Type 0
Casts (sb, ss) (db, ds) p (ok q) =
    (in_range db ds (value_of sb ss p) ≡ true) × (value_of db ds (masked db q) ≡ value_of sb ss p)
Casts (sb, ss) (db, ds) p (err e) =
    (in_range db ds (value_of sb ss p) ≡ false) × (e ≡ invalid_conversion)

cast_unsigned :
    (v w : Width) (ds : Bool) (p : ℕ)
    → p < 2 ^ bits_of v
    → Casts (bits_of v, false) (bits_of w, ds) p (cast_pattern (bits_of v, false) (bits_of w, ds) p)
unfolding cast_pattern
cast_unsigned w1 w1 true p h = ground arith
cast_unsigned _ _ _ p h = ground arith

cast_signed :
    (v w : Width) (ds : Bool) (p : ℕ)
    → p < 2 ^ bits_of v
    → Casts (bits_of v, true) (bits_of w, ds) p (cast_pattern (bits_of v, true) (bits_of w, ds) p)
unfolding cast_pattern
cast_signed w1 w1 true p h = ground arith
cast_signed _ _ _ p h = ground arith

-- A checked cast between any two integer widths and signednesses keeps the mathematical value of the
-- source pattern when the destination can hold it, and traps as an invalid conversion exactly when
-- it cannot.
pub cast_pattern-Casts :
    (v w : Width) (ss ds : Bool) (p : ℕ)
    → p < 2 ^ bits_of v
    → Casts (bits_of v, ss) (bits_of w, ds) p (cast_pattern (bits_of v, ss) (bits_of w, ds) p)
cast_pattern-Casts v w false ds p h = cast_unsigned v w ds p h
cast_pattern-Casts v w true ds p h = cast_signed v w ds p h
