-- ===== src/Policy/Float.antt =====
-- Python's floating point numbers, as the code under policy/ uses them: a parameter of the models.
use pure_webrtc_transport.Base.{
  ℕ, List, Bool, true, false, if◌then◌else◌, ◌≡◌, refl, ◌⊎◌, Bool-cases, inl, inr,
}
use pure_webrtc_transport.Base.Int.{ℤ}
use pure_webrtc_transport.Base.Result.{Result, Exception, ok, raise, ◌>>=◌}

-- `ratio a b` is the number nearest to a / b, for literals and other numbers that a float can hold, and
-- `of_int` such an integer. `add`, `sub` and `mul` give infinities and NaN and never raise; nor does
-- `div`, whose divisor is not 0 where it is called. The other operations raise or return: `convert` is
-- the conversion of any integer that meets a float and `quotient` the quotient of two integers
-- (OverflowError), `sqrt` is math.sqrt (ValueError), `pow` the power (OverflowError), and `trunc`,
-- `round` and `ceil` are int(), round() and math.ceil (ValueError at NaN, OverflowError at an infinity).
-- `linregress` is the slope that `scipy.stats.linregress` fits to points (ValueError, or NaN, where all
-- of them have the same x).
pub record Float : Type 1 where
  pub F : Type 0
  pub of_int : ℤ → F
  pub ratio : ℤ → ℕ → F
  pub add : F → F → F
  pub sub : F → F → F
  pub mul : F → F → F
  pub div : F → F → F
  pub abs : F → F
  pub neg : F → F
  pub lt : F → F → Bool
  pub le : F → F → Bool
  pub convert : ℤ → Exception ⊎ F
  pub quotient : ℤ → ℕ → Exception ⊎ F
  pub sqrt : F → Exception ⊎ F
  pub pow : F → F → Exception ⊎ F
  pub trunc : F → Exception ⊎ ℤ
  pub round : F → Exception ⊎ ℤ
  pub ceil : F → Exception ⊎ ℤ
  pub linregress : List ℤ → List F → Exception ⊎ F

-- A call of other code that raises or returns.
abbrev pub call {ℓ} : {A : Type ℓ} → Exception ⊎ A → Result A
call (inl e) = raise e
call (inr x) = ok x

module _ (R : Float) where
  -- `max(a, b)` and `min(a, b)`: the first of equal arguments.
  abbrev pub max_f : R.F → R.F → R.F
  max_f a b = if R.lt a b then b else a

  abbrev pub min_f : R.F → R.F → R.F
  min_f a b = if R.lt b a then b else a

  -- An operation on floats that raises the exception.
  pub data FloatRaises (e : Exception) : Type 0 where
    convert_raises : (n : ℤ) → R.convert n ≡ inl e → FloatRaises e
    quotient_raises : (a : ℤ) (b : ℕ) → R.quotient a b ≡ inl e → FloatRaises e
    sqrt_raises : (x : R.F) → R.sqrt x ≡ inl e → FloatRaises e
    pow_raises : (x y : R.F) → R.pow x y ≡ inl e → FloatRaises e
    trunc_raises : (x : R.F) → R.trunc x ≡ inl e → FloatRaises e
    round_raises : (x : R.F) → R.round x ≡ inl e → FloatRaises e
    ceil_raises : (x : R.F) → R.ceil x ≡ inl e → FloatRaises e
    linregress_raises : (xs : List ℤ) (ys : List R.F) → R.linregress xs ys ≡ inl e → FloatRaises e

  -- Code that returns a value with P, or lets the exception of an operation on floats pass.
  abbrev pub Outcome {ℓ} : {A : Type ℓ} → (A → Type 0) → Result A → Type ℓ
  Outcome {A = A} P m =
      ((x : A) × (m ≡ ok x) × P x) ⊎ ((e : Exception) × (m ≡ raise e) × FloatRaises e)

  module _ {ℓ κ} {A : Type ℓ} {B : Type κ} where
    pub Outcome-bind :
        (P : A → Type 0) (Q : B → Type 0) (m : Result A) (next : A → Result B)
        → Outcome P m
        → ((x : A) → P x → Outcome Q (next x))
        → Outcome Q (m >>= next)
    Outcome-bind P Q m next (inl (x, e, p)) f = rw e (f x p)
    Outcome-bind P Q m next (inr (e, h, raises)) f = rw h (inr (e, refl, raises))

  module _ {A : Type 0} where
    pub Outcome-call :
        (r : Exception ⊎ A)
        → ((e : Exception) → r ≡ inl e → FloatRaises e)
        → Outcome (λ x. r ≡ inr x) (call r)
    Outcome-call (inl e) f = inr (e, refl, f e refl)
    Outcome-call (inr x) f = inl (x, refl, refl)

    pub Outcome-map :
        (P Q : A → Type 0) (m : Result A)
        → Outcome P m
        → ((x : A) → m ≡ ok x → P x → Q x)
        → Outcome Q m
    Outcome-map P Q m (inl (x, e, p)) f = inl (x, e, f x e p)
    Outcome-map P Q m (inr h) f = inr h

  -- Some value, whatever it is.
  abbrev pub Any : {A : Type 0} → A → Type 0
  Any x = Unit {0}

  pub quotient-Outcome :
      (a : ℤ) (b : ℕ) → Outcome (λ x. R.quotient a b ≡ inr x) (call (R.quotient a b))
  quotient-Outcome a b = Outcome-call (R.quotient a b) (λ e h. quotient_raises a b h)

  pub convert-Outcome : (n : ℤ) → Outcome (λ x. R.convert n ≡ inr x) (call (R.convert n))
  convert-Outcome n = Outcome-call (R.convert n) (λ e h. convert_raises n h)

  pub sqrt-Outcome : (x : R.F) → Outcome (λ y. R.sqrt x ≡ inr y) (call (R.sqrt x))
  sqrt-Outcome x = Outcome-call (R.sqrt x) (λ e h. sqrt_raises x h)

  pub pow-Outcome : (x y : R.F) → Outcome (λ z. R.pow x y ≡ inr z) (call (R.pow x y))
  pow-Outcome x y = Outcome-call (R.pow x y) (λ e h. pow_raises x y h)

  pub trunc-Outcome : (x : R.F) → Outcome (λ n. R.trunc x ≡ inr n) (call (R.trunc x))
  trunc-Outcome x = Outcome-call (R.trunc x) (λ e h. trunc_raises x h)

  pub round-Outcome : (x : R.F) → Outcome (λ n. R.round x ≡ inr n) (call (R.round x))
  round-Outcome x = Outcome-call (R.round x) (λ e h. round_raises x h)

  pub ceil-Outcome : (x : R.F) → Outcome (λ n. R.ceil x ≡ inr n) (call (R.ceil x))
  ceil-Outcome x = Outcome-call (R.ceil x) (λ e h. ceil_raises x h)

  pub linregress-Outcome :
      (xs : List ℤ) (ys : List R.F)
      → Outcome (λ y. R.linregress xs ys ≡ inr y) (call (R.linregress xs ys))
  linregress-Outcome xs ys = Outcome-call (R.linregress xs ys) (λ e h. linregress_raises xs ys h)

  -- A threshold between two numbers: from `low` to `high`, or NaN, which is the only float that is not
  -- at most itself.
  abbrev pub Between : (low high x : R.F) → Type 0
  Between low high x = ((R.le low x ≡ true) × (R.le x high ≡ true)) ⊎ (R.le x x ≡ false)

  -- `max(min(x, high), low)`.
  pub clamp-Between :
      (low high x : R.F)
      → ((a b : R.F) → R.le a a ≡ true → R.le b b ≡ true → R.lt a b ≡ false → R.le b a ≡ true)
      → R.lt high low ≡ false
      → R.le low low ≡ true
      → R.le low high ≡ true
      → R.le high high ≡ true
      → Between low high (max_f (min_f x high) low)
  clamp-Between low high x total order l lh h = elim (Bool-cases (R.lt high x)) [
    | inl above ↦ rw (above, order) (inl (lh, h))
    | inr under ↦ elim (Bool-cases (R.lt x low)) [
      | inl below ↦ rw (under, below) (inl (l, lh))
      | inr over ↦ rw (under, over) (number (R.le x x) refl under over)
    ]
  ]
    where
      number :
          (b : Bool) → R.le x x ≡ b → R.lt high x ≡ false → R.lt x low ≡ false → Between low high x
      number false e under over = inr e
      number true e under over = inl (total x low e l over, total high x h e under)
