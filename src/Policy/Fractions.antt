-- ===== src/Policy/Fractions.antt =====
-- Fractions in the place of Python's floats, for theorems at concrete inputs.
use pure_webrtc_transport.Base.Result.{Exception, value_error}
use pure_webrtc_transport.Base.{List, ◌∷◌, ◌⊎◌, inl, inr, ℕ, suc, ◌+◌, ◌-◌, ◌*◌, ◌/◌}
use pure_webrtc_transport.Base.Int.{ℤ, pos, negsuc, ◌+ℤ◌, ◌-ℤ◌, ◌*ℤ◌, ltb_ℤ, leb_ℤ, abs}
use pure_webrtc_transport.Policy.Float.{Float}

-- A numerator over a denominator.
abbrev pub Fraction : Type 0
Fraction = ℤ × ℕ

abbrev pub floor : ℤ → ℕ → ℤ
floor (pos n) d = pos (n / d)
floor (negsuc n) d = negsuc (n / d)

abbrev pub ceiling : ℤ → ℕ → ℤ
ceiling (pos n) d = pos ((n + d - 1) / d)
ceiling (negsuc n) d = pos 0 -ℤ pos (suc n / d)

abbrev pub towards_zero : ℤ → ℕ → ℤ
towards_zero (pos n) d = pos (n / d)
towards_zero (negsuc n) d = pos 0 -ℤ pos (suc n / d)

-- The root is the argument, and none of a negative number.
abbrev pub root : Fraction → Exception ⊎ Fraction
root (pos n, d) = inr (pos n, d)
root (negsuc n, d) = inl value_error

-- The rise from the first point to the second, over a millisecond; no slope without points.
abbrev pub fit : List ℤ → List Fraction → Exception ⊎ Fraction
fit xs (a ∷ b ∷ ys) = inr (b.0 *ℤ pos a.1 -ℤ a.0 *ℤ pos b.1, a.1 * b.1)
fit xs _ = inl value_error

-- A divisor counts by its absolute value, a power as its base.
abbrev pub fractions : Float
fractions = record {
  F = Fraction;
  of_int = λ a. (a, 1);
  ratio = λ a b. (a, b);
  add = λ a b. (a.0 *ℤ pos b.1 +ℤ b.0 *ℤ pos a.1, a.1 * b.1);
  sub = λ a b. (a.0 *ℤ pos b.1 -ℤ b.0 *ℤ pos a.1, a.1 * b.1);
  mul = λ a b. (a.0 *ℤ b.0, a.1 * b.1);
  div = λ a b. (a.0 *ℤ pos b.1, a.1 * abs b.0);
  abs = λ a. (pos (abs a.0), a.1);
  neg = λ a. (pos 0 -ℤ a.0, a.1);
  lt = λ a b. ltb_ℤ (a.0 *ℤ pos b.1) (b.0 *ℤ pos a.1);
  le = λ a b. leb_ℤ (a.0 *ℤ pos b.1) (b.0 *ℤ pos a.1);
  convert = λ a. inr (a, 1);
  quotient = λ a b. inr (a, b);
  sqrt = root;
  pow = λ a b. inr a;
  trunc = λ a. inr (towards_zero a.0 a.1);
  round = λ a. inr (floor (a.0 *ℤ pos 2 +ℤ pos a.1) (2 * a.1));
  ceil = λ a. inr (ceiling a.0 a.1);
  linregress = fit;
}
