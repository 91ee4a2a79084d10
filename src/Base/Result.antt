-- ===== src/Base/Result.antt =====
-- Python's outcome of a call: a value, a raised exception, or a loop of the model out of fuel.
use mathlib.Core.Path.{◌≡◌, refl}
use mathlib.Core.Logic.{◌≢◌}
use mathlib.Core.Bool.{Bool, true, false}
use package.pure_webrtc_transport.Base.Tests.{if◌then◌else◌}
use mathlib.Core.List.{List, [], ◌∷◌}

-- The exception classes that the code raises or lets pass. `unicode_error` is a subclass of
-- Python's ValueError.
pub data Exception : Type 0 where
  value_error unicode_error struct_error index_error key_error type_error assertion_error :
      Exception
  zero_division_error connection_error srtp_error attribute_error cancelled_error
        invalid_state_error overflow_error :
      Exception

pub data Result {ℓ} (A : Type ℓ) : Type ℓ where
  stuck : Result A
  raise : Exception → Result A
  ok : A → Result A

module _ {ℓ κ} {A : Type ℓ} {B : Type κ} where
  infixl 5 ◌>>=◌
  -- The next statement runs on the value, if there is one.
  abbrev pub ◌>>=◌ : Result A → (A → Result B) → Result B
  stuck >>= next = stuck
  raise e >>= next = raise e
  ok value >>= next = next value

  -- Where both statements together give a value, so does each.
  pub >>=-eq-ok :
      (m : Result A) (next : A → Result B) {b : B}
      → (m >>= next) ≡ ok b
      → (a : A) × (m ≡ ok a) × (next a ≡ ok b)
  >>=-eq-ok stuck next h = cc
  >>=-eq-ok (raise e) next h = cc
  >>=-eq-ok (ok value) next h = (value, refl, h)

  pub >>=-ne-stuck :
      (m : Result A) (next : A → Result B)
      → m ≢ stuck
      → ((a : A) → m ≡ ok a → next a ≢ stuck)
      → (m >>= next) ≢ stuck
  >>=-ne-stuck stuck next h k = λ p. h refl
  >>=-ne-stuck (raise e) next h k = λ p. cc
  >>=-ne-stuck (ok value) next h k = k value refl

infixl 5 ◌>>◌
abbrev pub ◌>>◌ {ℓ} : {B : Type ℓ} → Result (Unit {0}) → Result B → Result B
first >> second = first >>= λ done. second

-- `if not b: raise e`
abbrev pub guard : Bool → Exception → Result (Unit {0})
guard holds e = if holds then ok tt else raise e

-- `except ValueError:` catches the class and its subclass.
abbrev pub is_value_error : Exception → Bool
is_value_error value_error = true
is_value_error unicode_error = true
is_value_error _ = false

abbrev pub is_connection_error : Exception → Bool
is_connection_error connection_error = true
is_connection_error _ = false

abbrev pub is_srtp_error : Exception → Bool
is_srtp_error srtp_error = true
is_srtp_error _ = false

-- A loop over a list that appends what a fallible call returns for each item.
pub traverse {ℓ κ} : {A : Type ℓ} {B : Type κ} → (A → Result B) → List A → Result (List B)
traverse f [] = ok []
traverse f (x ∷ xs) = do y ← f x; ys ← traverse f xs; ok (y ∷ ys)

pub >>=-assoc {ℓ κ μ} :
    {A : Type ℓ} {B : Type κ} {C : Type μ} (m : Result A) (f : A → Result B) (g : B → Result C)
    → ((m >>= f) >>= g) ≡ (m >>= λ a. (f a >>= g))
>>=-assoc (ok a) f g = refl
>>=-assoc (raise e) f g = refl
>>=-assoc stuck f g = refl
