-- ===== src/Peer/Signaling/Agreed.antt =====
-- `RTCPeerConnection`: what the two ends have agreed on whenever the signaling is stable.
use pure_webrtc_transport.Base.{
  Bool, true, false, ◌&&◌, Bool-cases, inl, inr, Option, none, some, List, [], ◌∷◌, ◌≡◌, ◌≢◌, refl,
  ap, sym, subst, map, if◌then◌else◌,
}
use pure_webrtc_transport.Base.Dict.{string_key}
use pure_webrtc_transport.Base.Result.{
  Result, ok, raise, stuck, >>=-eq-ok, guard, value_error, invalid_state_error,
}
use pure_webrtc_transport.Text.{Str}
use pure_webrtc_transport.Peer.Signaling.{
  DescriptionType, offer, answer, pranswer, rollback, stable, Kind, audio, video, other, Media,
  Description, PeerConnection, new_peer_connection, local_description, remote_description,
  is_allowed, validate_media, same_kind, same_sections, check_sections, is_answer,
  validate_description, next_state, replace_local, replace_remote, apply_local, apply_remote,
  once_valid, set_local_description, set_remote_description, close,
}

abbrev pub sections : List Media → List (Kind × Str)
sections = map (λ m. (m.kind, m.mux_id))

-- Both descriptions are there, with the same media sections in the same order, or neither is.
unfoldable pub Match : Option Description → Option Description → Type 0
Match none none = Unit {0}
Match (some a) (some b) = sections a.media ≡ sections b.media
Match none (some b) = true ≡ false
Match (some a) none = true ≡ false

pub IsAgreed : PeerConnection → Type 0
IsAgreed self =
    self.signaling_state ≡ stable → Match (local_description self) (remote_description self)

and_parts : (a b : Bool) → (a && b) ≡ true → (a ≡ true) × (b ≡ true)
and_parts true b h = (refl, h)
and_parts false b h = cc

same_kind-eq : (a b : Kind) → same_kind a b ≡ true → a ≡ b
same_kind-eq audio audio h = refl
same_kind-eq video video h = refl
same_kind-eq (other a) (other b) h = ap other ((string_key.test_iff a b).0 h)
same_kind-eq audio video h = cc
same_kind-eq audio (other b) h = cc
same_kind-eq video audio h = cc
same_kind-eq video (other b) h = cc
same_kind-eq (other a) audio h = cc
same_kind-eq (other a) video h = cc

cons_eq {ℓ} : {A : Type ℓ} (x y : A) (xs ys : List A) → x ≡ y → xs ≡ ys → (x ∷ xs) ≡ (y ∷ ys)
cons_eq x y xs ys p q = cc

same_sections-eq : (xs ys : List Media) → same_sections xs ys ≡ true → sections xs ≡ sections ys
unfolding same_sections
same_sections-eq [] [] h = refl
same_sections-eq [] (b ∷ ys) h = cc
same_sections-eq (a ∷ xs) [] h = cc
same_sections-eq (a ∷ xs) (b ∷ ys) h =
    let (front, rest) = and_parts _ _ h in
    let (kinds, ids) = and_parts _ _ front in
    let kind : a.kind ≡ b.kind = same_kind-eq a.kind b.kind kinds in
    let id : a.mux_id ≡ b.mux_id = (string_key.test_iff a.mux_id b.mux_id).0 ids in
    rw (kind, id, same_sections-eq xs ys rest) refl

-- A description is valid as an answer only where the other side's has the same sections.
check_sections-eq :
    (media : List Media) (o : Option Description)
    → check_sections media o ≡ ok tt
    → (d : Description) × (o ≡ some d) × (sections media ≡ sections d.media)
check_sections-eq media none h = cc
check_sections-eq media (some d) h = elim (Bool-cases (same_sections media d.media)) [
  | inl e ↦ (d, refl, same_sections-eq media d.media e)
  | inr e ↦ let never : raise value_error ≡ ok tt = rw e at h in cc
]

-- An answer that is valid has the sections of the other side's description.
valid_sections :
    (d : Description) (is_local : Bool) (self : PeerConnection)
    → is_answer d.kind ≡ true
    → validate_description d is_local self ≡ ok tt
    → (o : Description) × ((if is_local then remote_description self else local_description self)
        ≡ some o)
      × (sections d.media ≡ sections o.media)
unfolding validate_description
valid_sections d is_local self h e =
    let other_side = if is_local then remote_description self else local_description self in
    let (first, allowed, later) =
      >>=-eq-ok (guard (is_allowed is_local d.kind self.signaling_state) invalid_state_error) _ e in
    let (second, valid, last) = >>=-eq-ok (validate_media d.kind d.media) _ later in
    let checked : check_sections d.media other_side ≡ ok tt = rw h at last in
    check_sections-eq d.media other_side checked

Match-local :
    (d : Description) (self : PeerConnection)
    → is_answer d.kind ≡ true
    → validate_description d true self ≡ ok tt
    → Match (some d) (remote_description self)
unfolding Match
Match-local d self h e =
    let (o, there, same) = valid_sections d true self h e in
    subst (λ r. Match (some d) r) (sym there) same

Match-remote :
    (d : Description) (self : PeerConnection)
    → is_answer d.kind ≡ true
    → validate_description d false self ≡ ok tt
    → Match (local_description self) (some d)
unfolding Match
Match-remote d self h e =
    let (o, there, same) = valid_sections d false self h e in
    subst (λ l. Match l (some d)) (sym there) (sym same)

applied_local :
    (k : DescriptionType) (d : Description) (self : PeerConnection)
    → k ≢ rollback
    → (is_answer k ≡ true → Match (some d) (remote_description self))
    → IsAgreed (
        replace_local d k
          (record self { signaling_state = next_state true k self.signaling_state }))
unfolding IsAgreed
applied_local offer d self h m = λ e. cc
applied_local answer d self h m = λ e. m refl
applied_local pranswer d self h m = λ e. m refl
applied_local rollback d self h m = absurd (h refl)

applied_remote :
    (k : DescriptionType) (d : Description) (self : PeerConnection)
    → k ≢ rollback
    → (is_answer k ≡ true → Match (local_description self) (some d))
    → IsAgreed (
        replace_remote d k
          (record self { signaling_state = next_state false k self.signaling_state }))
unfolding IsAgreed
applied_remote offer d self h m = λ e. cc
applied_remote answer d self h m = λ e. m refl
applied_remote pranswer d self h m = λ e. m refl
applied_remote rollback d self h m = absurd (h refl)

set_local-IsAgreed :
    (d : Description) (self : PeerConnection)
    → d.kind ≢ rollback
    → IsAgreed self
    → IsAgreed (set_local_description (ok tt) d self).1
unfolding set_local_description
set_local-IsAgreed d self h agreed = cases (validate_description d true self) refl
  where
    cases :
        (v : Result (Unit {0}))
        → validate_description d true self ≡ v
        → IsAgreed (once_valid v self (apply_local (ok tt) d self)).1
    cases (ok done) e = applied_local d.kind d self h (λ k. Match-local d self k e)
    cases (raise x) e = agreed
    cases stuck e = agreed

set_remote-IsAgreed :
    (configured : Result (Unit {0})) (d : Description) (self : PeerConnection)
    → d.kind ≢ rollback
    → IsAgreed self
    → IsAgreed (set_remote_description configured d self).1
unfolding set_remote_description
set_remote-IsAgreed configured d self h agreed =
    cases (validate_description d false self) configured refl
  where
    cases :
        (v c : Result (Unit {0}))
        → validate_description d false self ≡ v
        → IsAgreed (once_valid v self (apply_remote c d self)).1
    cases (ok done) (ok fine) e = applied_remote d.kind d self h (λ k. Match-remote d self k e)
    cases (ok done) (raise x) e = agreed
    cases (ok done) stuck e = agreed
    cases (raise x) c e = agreed
    cases stuck c e = agreed

-- The calls of an application, those that raise included.
pub data Call : Type 0 where
  sets_local : Description → Call
  sets_remote : Result (Unit {0}) → Description → Call
  closes : Call

unfoldable pub run : List Call → PeerConnection → PeerConnection
run [] self = self
run (sets_local d ∷ calls) self = run calls (set_local_description (ok tt) d self).1
run (sets_remote configured d ∷ calls) self = run calls (set_remote_description configured d self).1
run (closes ∷ calls) self = run calls (close self)

abbrev pub IsNegotiation : List Call → Type 0
IsNegotiation [] = Unit {0}
IsNegotiation (sets_local d ∷ calls) = (d.kind ≢ rollback) × IsNegotiation calls
IsNegotiation (sets_remote configured d ∷ calls) = (d.kind ≢ rollback) × IsNegotiation calls
IsNegotiation (closes ∷ calls) = IsNegotiation calls

run-IsAgreed :
    (calls : List Call) (self : PeerConnection)
    → IsNegotiation calls
    → IsAgreed self
    → IsAgreed (run calls self)
unfolding run close IsAgreed
run-IsAgreed [] self h agreed = agreed
run-IsAgreed (sets_local d ∷ calls) self (h, hs) agreed =
    run-IsAgreed calls _ hs (set_local-IsAgreed d self h agreed)
run-IsAgreed (sets_remote configured d ∷ calls) self (h, hs) agreed =
    run-IsAgreed calls _ hs (set_remote-IsAgreed configured d self h agreed)
run-IsAgreed (closes ∷ calls) self h agreed = run-IsAgreed calls _ h (closed_agrees self)
  where
    closed_agrees : (self : PeerConnection) → IsAgreed (close self)
    closed_agrees self = λ e. cc

-- However offers, answers and provisional answers are set, on either side and in any order, the ones
-- that are refused included: whenever the signaling state is "stable", the local and the remote
-- description have the same media sections, kind and id, in the same order, or there is neither. The
-- set-up of the transceivers may raise in `setRemoteDescription`, but not in `setLocalDescription`;
-- no description is a rollback.
pub run-Match :
    (calls : List Call)
    → IsNegotiation calls
    → (run calls new_peer_connection).signaling_state ≡ stable
    → Match
        (local_description (run calls new_peer_connection))
        (remote_description (run calls new_peer_connection))
unfolding IsAgreed Match
run-Match calls h = run-IsAgreed calls new_peer_connection h (λ e. tt)
