-- ===== src/Peer/States/Tests.antt =====
-- The tests of the states of the transports.
use pure_webrtc_transport.Base.{
  Bool, true, false, Bool-cases, inl, inr, ◌↔◌, ◌≡◌, refl, sym, subst, ◌∙◌, List, [], ◌∷◌,
}
use pure_webrtc_transport.Dtls.Transport.{State, same_state}
use pure_webrtc_transport.Peer.Codecs.Common.{Member}
use pure_webrtc_transport.Peer.States.{
  IceState, GathererState, ice_new, ice_checking, ice_completed, ice_failed, ice_closed,
  gatherer_new, gatherer_gathering, gatherer_completed, same_ice, same_gatherer, any_of, all_of,
  some_all_of,
}

pub same_ice-eq : (a b : IceState) → same_ice a b ≡ true → a ≡ b
same_ice-eq ice_new ice_new h = refl
same_ice-eq ice_new ice_checking h = cc
same_ice-eq ice_new ice_completed h = cc
same_ice-eq ice_new ice_failed h = cc
same_ice-eq ice_new ice_closed h = cc
same_ice-eq ice_checking ice_new h = cc
same_ice-eq ice_checking ice_checking h = refl
same_ice-eq ice_checking ice_completed h = cc
same_ice-eq ice_checking ice_failed h = cc
same_ice-eq ice_checking ice_closed h = cc
same_ice-eq ice_completed ice_new h = cc
same_ice-eq ice_completed ice_checking h = cc
same_ice-eq ice_completed ice_completed h = refl
same_ice-eq ice_completed ice_failed h = cc
same_ice-eq ice_completed ice_closed h = cc
same_ice-eq ice_failed ice_new h = cc
same_ice-eq ice_failed ice_checking h = cc
same_ice-eq ice_failed ice_completed h = cc
same_ice-eq ice_failed ice_failed h = refl
same_ice-eq ice_failed ice_closed h = cc
same_ice-eq ice_closed ice_new h = cc
same_ice-eq ice_closed ice_checking h = cc
same_ice-eq ice_closed ice_completed h = cc
same_ice-eq ice_closed ice_failed h = cc
same_ice-eq ice_closed ice_closed h = refl

same_ice_same : (a : IceState) → same_ice a a ≡ true
same_ice_same ice_new = refl
same_ice_same ice_checking = refl
same_ice_same ice_completed = refl
same_ice_same ice_failed = refl
same_ice_same ice_closed = refl

pub same_ice_iff : (a b : IceState) → (same_ice a b ≡ true) ↔ (a ≡ b)
same_ice_iff a b = (same_ice-eq a b, λ e. subst (λ b. same_ice a b ≡ true) e (same_ice_same a))

pub same_state-eq : (a b : State) → same_state a b ≡ true → a ≡ b
same_state-eq State.new State.new h = refl
same_state-eq State.new State.connecting h = cc
same_state-eq State.new State.connected h = cc
same_state-eq State.new State.closed h = cc
same_state-eq State.new State.failed h = cc
same_state-eq State.connecting State.new h = cc
same_state-eq State.connecting State.connecting h = refl
same_state-eq State.connecting State.connected h = cc
same_state-eq State.connecting State.closed h = cc
same_state-eq State.connecting State.failed h = cc
same_state-eq State.connected State.new h = cc
same_state-eq State.connected State.connecting h = cc
same_state-eq State.connected State.connected h = refl
same_state-eq State.connected State.closed h = cc
same_state-eq State.connected State.failed h = cc
same_state-eq State.closed State.new h = cc
same_state-eq State.closed State.connecting h = cc
same_state-eq State.closed State.connected h = cc
same_state-eq State.closed State.closed h = refl
same_state-eq State.closed State.failed h = cc
same_state-eq State.failed State.new h = cc
same_state-eq State.failed State.connecting h = cc
same_state-eq State.failed State.connected h = cc
same_state-eq State.failed State.closed h = cc
same_state-eq State.failed State.failed h = refl

same_state_same : (a : State) → same_state a a ≡ true
same_state_same State.new = refl
same_state_same State.connecting = refl
same_state_same State.connected = refl
same_state_same State.closed = refl
same_state_same State.failed = refl

pub same_state_iff : (a b : State) → (same_state a b ≡ true) ↔ (a ≡ b)
same_state_iff a b =
    (same_state-eq a b, λ e. subst (λ b. same_state a b ≡ true) e (same_state_same a))

pub same_gatherer-eq : (a b : GathererState) → same_gatherer a b ≡ true → a ≡ b
same_gatherer-eq gatherer_new gatherer_new h = refl
same_gatherer-eq gatherer_new gatherer_gathering h = cc
same_gatherer-eq gatherer_new gatherer_completed h = cc
same_gatherer-eq gatherer_gathering gatherer_new h = cc
same_gatherer-eq gatherer_gathering gatherer_gathering h = refl
same_gatherer-eq gatherer_gathering gatherer_completed h = cc
same_gatherer-eq gatherer_completed gatherer_new h = cc
same_gatherer-eq gatherer_completed gatherer_gathering h = cc
same_gatherer-eq gatherer_completed gatherer_completed h = refl

same_gatherer_same : (a : GathererState) → same_gatherer a a ≡ true
same_gatherer_same gatherer_new = refl
same_gatherer_same gatherer_gathering = refl
same_gatherer_same gatherer_completed = refl

pub same_gatherer_iff : (a b : GathererState) → (same_gatherer a b ≡ true) ↔ (a ≡ b)
same_gatherer_iff a b =
    (same_gatherer-eq a b, λ e. subst (λ b. same_gatherer a b ≡ true) e (same_gatherer_same a))

module _ {A : Type 0} (test : A → A → Bool)
    (test_iff : (a b : A) → (test a b ≡ true) ↔ (a ≡ b)) where
  pub any_of-Member : (x : A) (xs : List A) → any_of (test x) xs ≡ true → Member x xs
  any_of-Member x [] h = cc
  any_of-Member x (y ∷ ys) h = elim (Bool-cases (test x y)) [
    | inl e ↦ inl ((test_iff x y).0 e)
    | inr e ↦ inr (any_of-Member x ys (rw e at h))
  ]

  pub any_of-absent : (x : A) (xs : List A) → any_of (test x) xs ≡ false → Member x xs → ⊥
  any_of-absent x [] h m = absurd m
  any_of-absent x (y ∷ ys) h m = elim (Bool-cases (test x y)) [
    | inl e ↦ let never : true ≡ false = rw e at h in cc
    | inr e ↦ elim m [
      | inl same ↦ let never : true ≡ false = sym ((test_iff x y).1 same) ∙ e in cc
      | inr later ↦ any_of-absent x ys (rw e at h) later
    ]
  ]

module _ {A : Type 0} (p : A → Bool) where
  pub all_of-Member : (xs : List A) → all_of p xs ≡ true → (x : A) → Member x xs → p x ≡ true
  all_of-Member [] h x m = absurd m
  all_of-Member (y ∷ ys) h x m = elim (Bool-cases (p y)) [
    | inr e ↦ let never : false ≡ true = rw e at h in cc
    | inl e ↦ elim m [
      | inl same ↦ subst (λ z. p z ≡ true) (sym same) e
      | inr later ↦ all_of-Member ys (rw e at h) x later
    ]
  ]

  pub Member-all_of : (xs : List A) → ((x : A) → Member x xs → p x ≡ true) → all_of p xs ≡ true
  Member-all_of [] h = refl
  Member-all_of (y ∷ ys) h = rw (h y (inl refl)) (Member-all_of ys (λ x m. h x (inr m)))

  pub some_all_of-first : (xs : List A) → some_all_of p xs ≡ true → (x : A) × Member x xs
  some_all_of-first [] h = cc
  some_all_of-first (x ∷ xs) h = (x, inl refl)

  pub some_all_of-Member :
      (xs : List A) → some_all_of p xs ≡ true → (x : A) → Member x xs → p x ≡ true
  some_all_of-Member [] h x m = absurd m
  some_all_of-Member (y ∷ ys) h x m = all_of-Member (y ∷ ys) h x m

  pub Member-some_all_of :
      (xs : List A) (x : A)
      → Member x xs
      → ((y : A) → Member y xs → p y ≡ true)
      → some_all_of p xs ≡ true
  Member-some_all_of [] x m h = absurd m
  Member-some_all_of (y ∷ ys) x m h = Member-all_of (y ∷ ys) h
