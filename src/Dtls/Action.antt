-- ===== src/Dtls/Action.antt =====
-- A method that changes its object and can raise: the object as it is left comes with the outcome.
use pure_webrtc_transport.Base.{◌≡◌, ◌∙◌, refl}
use pure_webrtc_transport.Base.Result.{Result, ok, raise, stuck, Exception}

abbrev pub Action : Type 0 → Type 0 → Type 0
Action T A = T → Result A × T

module _ {T : Type 0} where
  abbrev pub continue_with : {A B : Type 0} → Result A → (A → Action T B) → Action T B
  continue_with (ok value) next s = next value s
  continue_with (raise e) next s = (raise e, s)
  continue_with stuck next s = (stuck, s)

  infixl 5 ◌>>=◌
  abbrev pub ◌>>=◌ : {A B : Type 0} → Action T A → (A → Action T B) → Action T B
  (m >>= next) s = continue_with ((m s).0) next ((m s).1)

  abbrev pub return : {A : Type 0} → A → Action T A
  return value s = (ok value, s)

  abbrev pub fail : {A : Type 0} → Exception → Action T A
  fail e s = (raise e, s)

  abbrev pub lift : {A : Type 0} → Result A → Action T A
  lift r s = (r, s)

  abbrev pub modify : (T → T) → Action T (Unit {0})
  modify f s = (ok tt, f s)

  -- A view of the object that an action leaves as it is, whatever its outcome.
  unfoldable pub Preserves : {V A : Type 0} → (T → V) → Action T A → Type 0
  Preserves view m = (s : T) → view ((m s).1) ≡ view s

  module _ {V : Type 0} (view : T → V) where
    pub continue_with-Preserves :
        {A B : Type 0} (r : Result A) (next : A → Action T B)
        → ((a : A) → Preserves view (next a))
        → Preserves view (continue_with r next)
    unfolding Preserves
    continue_with-Preserves (ok value) next h = h value
    continue_with-Preserves (raise e) next h = λ s. refl
    continue_with-Preserves stuck next h = λ s. refl

    pub >>=-Preserves :
        {A B : Type 0} (m : Action T A) (next : A → Action T B)
        → Preserves view m
        → ((a : A) → Preserves view (next a))
        → Preserves view (m >>= next)
    unfolding Preserves
    >>=-Preserves m next h k s = continue_with-Preserves ((m s).0) next k ((m s).1) ∙ h s
