-- ===== src/Peer/States/Meaning.antt =====
-- What each state of the connection says of the transports.
use pure_webrtc_transport.Base.{
  Bool, true, false, Bool-cases, inl, inr, ◌⊎◌, ◌↔◌, ◌≡◌, refl, sym, subst, ◌∙◌, List,
}
use pure_webrtc_transport.Dtls.Transport.{State}
use pure_webrtc_transport.Peer.Codecs.Common.{Member}
use pure_webrtc_transport.Peer.States.{
  IceState, GathererState, ConnectionState, IceConnectionState, GatheringState, ice_new,
  ice_checking, ice_completed, ice_failed, ice_closed, gatherer_gathering, gatherer_completed,
  is_new, is_connecting, is_connected, is_failed, is_closed, now_new, now_checking, now_completed,
  now_failed, now_closed, gathers_new, gathers_gathering, gathers_complete, same_ice, same_gatherer,
  any_of, some_all_of, ice_connection_of, gathering_of,
}
use pure_webrtc_transport.Peer.States.Tests.{
  same_ice_iff, same_gatherer_iff, any_of-Member, any_of-absent, some_all_of-first,
  some_all_of-Member, Member-some_all_of,
}

-- Every transport is new or closed.
abbrev pub IdleIce : List IceState → Type 0
IdleIce ice = (s : IceState) → Member s ice → (s ≡ ice_new) ⊎ (s ≡ ice_closed)

abbrev pub IdleDtls : List State → Type 0
IdleDtls dtls = (s : State) → Member s dtls → (s ≡ State.new) ⊎ (s ≡ State.closed)

-- There are members, and all are x.
abbrev pub Only : {A : Type 0} → A → List A → Type 0
Only {A} x xs = Member x xs × ((y : A) → Member y xs → y ≡ x)

pub data ConnectionMeans (closed : Bool) (ice : List IceState) (dtls : List State)
    : ConnectionState → Type 0 where
  means_closed : closed ≡ true → ConnectionMeans closed ice dtls is_closed
  means_failed :
      closed ≡ false
      → Member ice_failed ice ⊎ Member State.failed dtls
      → ConnectionMeans closed ice dtls is_failed
  means_new : closed ≡ false → IdleIce ice → IdleDtls dtls → ConnectionMeans closed ice dtls is_new
  means_connecting :
      closed ≡ false
      → (Member ice_failed ice ⊎ Member State.failed dtls → ⊥)
      → (IdleIce ice → IdleDtls dtls → ⊥)
      → Member ice_checking ice ⊎ Member State.connecting dtls ⊎ Member State.new dtls
      → ConnectionMeans closed ice dtls is_connecting
  means_connected :
      closed ≡ false
      → (Member ice_failed ice ⊎ Member State.failed dtls → ⊥)
      → (IdleIce ice → IdleDtls dtls → ⊥)
      → (Member ice_checking ice ⊎ Member State.connecting dtls ⊎ Member State.new dtls → ⊥)
      → ConnectionMeans closed ice dtls is_connected

pub data IceMeans (closed : Bool) (ice : List IceState) : IceConnectionState → Type 0 where
  ice_means_closed : closed ≡ true → IceMeans closed ice now_closed
  ice_means_failed : closed ≡ false → Member ice_failed ice → IceMeans closed ice now_failed
  ice_means_completed : closed ≡ false → Only ice_completed ice → IceMeans closed ice now_completed
  ice_means_checking :
      closed ≡ false
      → (Member ice_failed ice → ⊥)
      → Member ice_checking ice
      → IceMeans closed ice now_checking
  ice_means_new :
      closed ≡ false
      → (Member ice_failed ice → ⊥)
      → (Only ice_completed ice → ⊥)
      → (Member ice_checking ice → ⊥)
      → IceMeans closed ice now_new

pub data GatheringMeans (gatherers : List GathererState) : GatheringState → Type 0 where
  means_complete : Only gatherer_completed gatherers → GatheringMeans gatherers gathers_complete
  means_gathering : Member gatherer_gathering gatherers → GatheringMeans gatherers gathers_gathering
  gathering_means_new :
      (Only gatherer_completed gatherers → ⊥)
      → (Member gatherer_gathering gatherers → ⊥)
      → GatheringMeans gatherers gathers_new

module _ {A : Type 0} (test : A → A → Bool)
    (test_iff : (a b : A) → (test a b ≡ true) ↔ (a ≡ b)) where
  some_all_of-Only : (x : A) (xs : List A) → some_all_of (test x) xs ≡ true → Only x xs
  some_all_of-Only x xs h =
      let same : (y : A) → Member y xs → y ≡ x =
        λ y m. sym ((test_iff x y).0 (some_all_of-Member (test x) xs h y m)) in
      let (y, m) = some_all_of-first (test x) xs h in (subst (λ z. Member z xs) (same y m) m, same)

  some_all_of-not_Only : (x : A) (xs : List A) → some_all_of (test x) xs ≡ false → Only x xs → ⊥
  some_all_of-not_Only x xs h (m, same) =
      let all : some_all_of (test x) xs ≡ true =
        Member-some_all_of (test x) xs x m (λ y k. (test_iff x y).1 (sym (same y k))) in
      let never : true ≡ false = sym all ∙ h in cc

pub gathering_of-GatheringMeans :
    (gatherers : List GathererState) → GatheringMeans gatherers (gathering_of gatherers)
gathering_of-GatheringMeans gs =
    elim (Bool-cases (some_all_of (same_gatherer gatherer_completed) gs)) [
      | inl e ↦ rw e (
          means_complete (some_all_of-Only same_gatherer same_gatherer_iff gatherer_completed gs e))
      | inr e ↦ elim (Bool-cases (any_of (same_gatherer gatherer_gathering) gs)) [
        | inl g ↦
            rw (e, g)
              (means_gathering
                (any_of-Member same_gatherer same_gatherer_iff gatherer_gathering gs g))
        | inr g ↦
            rw (e, g)
              (gathering_means_new
                (some_all_of-not_Only same_gatherer same_gatherer_iff gatherer_completed gs e)
                (any_of-absent same_gatherer same_gatherer_iff gatherer_gathering gs g))
      ]
    ]

pub ice_connection_of-IceMeans :
    (closed : Bool) (ice : List IceState) → IceMeans closed ice (ice_connection_of closed ice)
ice_connection_of-IceMeans true ice = ice_means_closed refl
ice_connection_of-IceMeans false ice = elim (Bool-cases (any_of (same_ice ice_failed) ice)) [
  | inl f ↦ rw f (ice_means_failed refl (any_of-Member same_ice same_ice_iff ice_failed ice f))
  | inr f ↦
      let unfailed = any_of-absent same_ice same_ice_iff ice_failed ice f in
      elim (Bool-cases (some_all_of (same_ice ice_completed) ice)) [
        | inl e ↦
            rw (f, e)
              (ice_means_completed refl
                (some_all_of-Only same_ice same_ice_iff ice_completed ice e))
        | inr e ↦ elim (Bool-cases (any_of (same_ice ice_checking) ice)) [
          | inl c ↦
              rw (f, e, c)
                (ice_means_checking refl unfailed
                  (any_of-Member same_ice same_ice_iff ice_checking ice c))
          | inr c ↦
              rw (f, e, c)
                (ice_means_new refl unfailed
                  (some_all_of-not_Only same_ice same_ice_iff ice_completed ice e)
                  (any_of-absent same_ice same_ice_iff ice_checking ice c))
        ]
      ]
]
