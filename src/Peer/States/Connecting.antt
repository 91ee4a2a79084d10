-- ===== src/Peer/States/Connecting.antt =====
-- `connection_of` gives the state that the transports mean.
use pure_webrtc_transport.Base.{
  Bool, true, false, Bool-cases, ◌&&◌, ◌||◌, inl, inr, ◌⊎◌, ◌≡◌, refl, List, if◌then◌else◌,
}
use pure_webrtc_transport.Dtls.Transport.{State, same_state}
use pure_webrtc_transport.Peer.Codecs.Common.{Member}
use pure_webrtc_transport.Peer.States.{
  IceState, ice_new, ice_checking, ice_completed, ice_failed, ice_closed, is_connecting,
  is_connected, same_ice, any_of, all_of, is_idle_ice, is_idle, connection_of,
}
use pure_webrtc_transport.Peer.States.Tests.{
  same_ice_iff, same_state_iff, any_of-Member, any_of-absent, all_of-Member, Member-all_of,
}
use pure_webrtc_transport.Peer.States.Meaning.{
  IdleIce, IdleDtls, ConnectionMeans, means_closed, means_failed, means_new, means_connecting,
  means_connected,
}

-- Either test of two lists.
module _ (x : IceState) (y : State) (ice : List IceState) (dtls : List State) where
  either-Member :
      (any_of (same_ice x) ice || any_of (same_state y) dtls) ≡ true → Member x ice ⊎ Member y dtls
  either-Member h = elim (Bool-cases (any_of (same_ice x) ice)) [
    | inl e ↦ inl (any_of-Member same_ice same_ice_iff x ice e)
    | inr e ↦ inr (any_of-Member same_state same_state_iff y dtls (rw e at h))
  ]

  either-absent :
      (any_of (same_ice x) ice || any_of (same_state y) dtls) ≡ false
      → Member x ice ⊎ Member y dtls
      → ⊥
  either-absent h m = elim (Bool-cases (any_of (same_ice x) ice)) [
    | inl e ↦ let never : true ≡ false = rw e at h in cc
    | inr e ↦ elim m [
      | inl i ↦ any_of-absent same_ice same_ice_iff x ice e i
      | inr d ↦ any_of-absent same_state same_state_iff y dtls (rw e at h) d
    ]
  ]

idle_ice_cases : (s : IceState) → is_idle_ice s ≡ true → (s ≡ ice_new) ⊎ (s ≡ ice_closed)
idle_ice_cases ice_new h = inl refl
idle_ice_cases ice_checking h = cc
idle_ice_cases ice_completed h = cc
idle_ice_cases ice_failed h = cc
idle_ice_cases ice_closed h = inr refl

idle_cases : (s : State) → is_idle s ≡ true → (s ≡ State.new) ⊎ (s ≡ State.closed)
idle_cases State.new h = inl refl
idle_cases State.connecting h = cc
idle_cases State.connected h = cc
idle_cases State.closed h = inr refl
idle_cases State.failed h = cc

idle_ice_test : (s : IceState) → (s ≡ ice_new) ⊎ (s ≡ ice_closed) → is_idle_ice s ≡ true
idle_ice_test s (inl e) = rw e refl
idle_ice_test s (inr e) = rw e refl

idle_test : (s : State) → (s ≡ State.new) ⊎ (s ≡ State.closed) → is_idle s ≡ true
idle_test s (inl e) = rw e refl
idle_test s (inr e) = rw e refl

all_idle :
    (ice : List IceState) (dtls : List State)
    → (all_of is_idle_ice ice && all_of is_idle dtls) ≡ true
    → IdleIce ice × IdleDtls dtls
all_idle ice dtls h = elim (Bool-cases (all_of is_idle_ice ice)) [
  | inl e ↦ (
    λ s m. idle_ice_cases s (all_of-Member is_idle_ice ice e s m),
    λ s m. idle_cases s (all_of-Member is_idle dtls (rw e at h) s m),
  )
  | inr e ↦ let never : false ≡ true = rw e at h in cc
]

not_all_idle :
    (ice : List IceState) (dtls : List State)
    → (all_of is_idle_ice ice && all_of is_idle dtls) ≡ false
    → IdleIce ice
    → IdleDtls dtls
    → ⊥
not_all_idle ice dtls h i d =
    let ice_idle = Member-all_of is_idle_ice ice (λ s m. idle_ice_test s (i s m)) in
    let dtls_idle = Member-all_of is_idle dtls (λ s m. idle_test s (d s m)) in
    let never : true ≡ false = rw (ice_idle, dtls_idle) at h in cc

pub connection_of-ConnectionMeans :
    (closed : Bool) (ice : List IceState) (dtls : List State)
    → ConnectionMeans closed ice dtls (connection_of closed ice dtls)
connection_of-ConnectionMeans true ice dtls = means_closed refl
connection_of-ConnectionMeans false ice dtls =
    elim (Bool-cases (any_of (same_ice ice_failed) ice || any_of (same_state State.failed) dtls)) [
      | inl f ↦ rw f (means_failed refl (either-Member ice_failed State.failed ice dtls f))
      | inr f ↦
          let unfailed = either-absent ice_failed State.failed ice dtls f in
          elim (Bool-cases (all_of is_idle_ice ice && all_of is_idle dtls)) [
            | inl e ↦ let (i, d) = all_idle ice dtls e in rw (f, e) (means_new refl i d)
            | inr e ↦ rw (f, e) (started unfailed (not_all_idle ice dtls e))
          ]
    ]
  where
    widen :
        Member ice_checking ice ⊎ Member State.connecting dtls
        → Member ice_checking ice ⊎ Member State.connecting dtls ⊎ Member State.new dtls
    widen (inl m) = inl m
    widen (inr m) = inr (inl m)

    narrow :
        (Member ice_checking ice ⊎ Member State.connecting dtls → ⊥)
        → (Member State.new dtls → ⊥)
        → Member ice_checking ice ⊎ Member State.connecting dtls ⊎ Member State.new dtls
        → ⊥
    narrow f g (inl m) = f (inl m)
    narrow f g (inr (inl m)) = f (inr m)
    narrow f g (inr (inr m)) = g m

    started :
        (Member ice_failed ice ⊎ Member State.failed dtls → ⊥)
        → (IdleIce ice → IdleDtls dtls → ⊥)
        → ConnectionMeans false ice dtls (
            if any_of (same_ice ice_checking) ice || any_of (same_state State.connecting) dtls
            then is_connecting
            else if any_of (same_state State.new) dtls
            then is_connecting
            else is_connected)
    started unfailed busy =
        elim (Bool-cases
          (any_of (same_ice ice_checking) ice || any_of (same_state State.connecting) dtls)) [
            | inl c ↦ rw c (
                means_connecting refl unfailed busy
                  (widen (either-Member ice_checking State.connecting ice dtls c)))
            | inr c ↦ elim (Bool-cases (any_of (same_state State.new) dtls)) [
              | inl n ↦
                  rw (c, n)
                    (means_connecting refl unfailed busy
                      (inr (inr (any_of-Member same_state same_state_iff State.new dtls n))))
              | inr n ↦
                  rw (c, n)
                    (means_connected refl unfailed busy (
                      narrow (either-absent ice_checking State.connecting ice dtls c)
                        (any_of-absent same_state same_state_iff State.new dtls n)))
            ]
          ]
