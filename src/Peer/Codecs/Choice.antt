-- ===== src/Peer/Codecs/Choice.antt =====
-- `find_common_codecs` against a relation that says which codec is chosen, and what its copy holds.
use pure_webrtc_transport.Base.{
  ◌≤◌, ◌<◌, Bool, true, false, not, Bool-cases, ◌&&◌, ◌||◌, ◌==◌, ==_iff, inl, inr, ◌⊎◌, Option,
  none, some, List, [], ◌∷◌, ◌≡◌, ◌≢◌, refl, ap, sym, subst, ◌∙◌, All, arith,
}
use pure_webrtc_transport.Base.Dict.{lookup, string_key}
use pure_webrtc_transport.Text.{Str}
use pure_webrtc_transport.Dtls.Transport.Handshake.{lower}
use pure_webrtc_transport.Peer.Codecs.{
  Codec, Feedback, Param, number, text, rtx, video, h264, packetization_mode, profile_level_id,
  is_rtx, is_compatible, agree, first_compatible, find_common_codecs, same_mime_type, same_lower,
  same_param, is_h264, same_parameter, same_option, is_in, common_feedback,
}
use pure_webrtc_transport.Peer.Codecs.Common.{Member}
use pure_webrtc_transport.Peer.Codecs.Agreed.{
  media_codecs, agreed_codecs, and-left, and-right, media_codecs-find_common_codecs,
}

-- The same MIME type up to case, the same clock rate, and for H.264 the same two parameters.
pub record Fits (l c : Codec) : Type 0 where
  pub kind : lower l.kind ≡ lower c.kind
  pub name : lower l.name ≡ lower c.name
  pub clock_rate : l.clock_rate ≡ c.clock_rate
  pub h264_parameters :
      lower l.kind ≡ video
      → lower l.name ≡ h264
      → (lookup packetization_mode c.parameters ≡ lookup packetization_mode l.parameters)
        × (lookup profile_level_id c.parameters ≡ lookup profile_level_id l.parameters)

-- The feedback of the local codec that the remote has too, in the local order.
pub data Shared (remote : List Feedback) : List Feedback → List Feedback → Type 0 where
  none_left : Shared remote [] []
  keeps :
      (f : Feedback) (fs gs : List Feedback)
      → Member f remote
      → Shared remote fs gs
      → Shared remote (f ∷ fs) (f ∷ gs)
  drops :
      (f : Feedback) (fs gs : List Feedback)
      → (Member f remote → ⊥)
      → Shared remote fs gs
      → Shared remote (f ∷ fs) gs

-- The local codec, under the payload type of the remote's where that is a dynamic one, 96 to 127.
pub record IsCopy (l c k : Codec) : Type 0 where
  pub kind : k.kind ≡ l.kind
  pub name : k.name ≡ l.name
  pub clock_rate : k.clock_rate ≡ l.clock_rate
  pub channels : k.channels ≡ l.channels
  pub parameters : k.parameters ≡ l.parameters
  pub dynamic : 96 ≤ c.payload_type → c.payload_type < 128 → k.payload_type ≡ c.payload_type
  pub fixed : (c.payload_type < 96) ⊎ (128 ≤ c.payload_type) → k.payload_type ≡ l.payload_type
  pub feedback : Shared c.rtcp_feedback l.rtcp_feedback k.rtcp_feedback

-- `l` is the first of the local codecs that fits.
pub data First (c l : Codec) : List Codec → Type 0 where
  here : (ls : List Codec) → Fits l c → First c l (l ∷ ls)
  later : (m : Codec) (ls : List Codec) → (Fits m c → ⊥) → First c l ls → First c l (m ∷ ls)

-- The codecs that are agreed on, for the remote codecs in turn.
pub data Chosen (local : List Codec) : List Codec → List Codec → Type 0 where
  all_done : Chosen local [] []
  retransmits :
      (c : Codec) (cs ks : List Codec)
      → lower c.name ≡ rtx
      → Chosen local cs ks
      → Chosen local (c ∷ cs) ks
  refuses :
      (c : Codec) (cs ks : List Codec)
      → lower c.name ≢ rtx
      → All (λ l. Fits l c → ⊥) local
      → Chosen local cs ks
      → Chosen local (c ∷ cs) ks
  agrees :
      (c l k : Codec) (cs ks : List Codec)
      → lower c.name ≢ rtx
      → First c l local
      → IsCopy l c k
      → Chosen local cs ks
      → Chosen local (c ∷ cs) (k ∷ ks)

option_test : (a b : Option Str) → same_option a b ≡ true → a ≡ b
option_test none none h = refl
option_test none (some b) h = cc
option_test (some a) none h = cc
option_test (some a) (some b) h = ap (λ s. some s) ((string_key.test_iff a b).0 h)

option_same : (a : Option Str) → same_option a a ≡ true
option_same none = refl
option_same (some a) = (string_key.test_iff a a).1 refl

param_test : (a b : Option Param) → same_param a b ≡ true → a ≡ b
param_test none none h = refl
param_test none (some (number b)) h = cc
param_test none (some (text b)) h = cc
param_test (some (number a)) none h = cc
param_test (some (text a)) none h = cc
param_test (some (number a)) (some (number b)) h = ap (λ n. some (number n)) ((==_iff a b).0 h)
param_test (some (number a)) (some (text b)) h = cc
param_test (some (text a)) (some (number b)) h = cc
param_test (some (text a)) (some (text b)) h =
    ap (λ s. some (text s)) ((string_key.test_iff a b).0 h)

param_same : (a b : Option Param) → a ≡ b → same_param a b ≡ true
param_same a b h = subst (λ b. same_param a b ≡ true) h (go a)
  where
    go : (a : Option Param) → same_param a a ≡ true
    go none = refl
    go (some (number a)) = (==_iff a a).1 refl
    go (some (text a)) = (string_key.test_iff a a).1 refl

is_in-Member : (f : Feedback) (fs : List Feedback) → is_in f fs ≡ true → Member f fs
is_in-Member f [] h = cc
is_in-Member f (g ∷ gs) h =
    elim (Bool-cases (string_key.test f.kind g.kind && same_option f.parameter g.parameter)) [
      | inl e ↦
          let kind = (string_key.test_iff f.kind g.kind).0 (and-left _ _ e) in
          let parameter =
            option_test f.parameter g.parameter (and-right (string_key.test f.kind g.kind) _ e) in
          inl (
            ap (λ k. record { kind = k; parameter = f.parameter }) kind
            ∙ ap (λ p. record { kind = g.kind; parameter = p }) parameter)
      | inr e ↦ inr (is_in-Member f gs (rw e at h))
    ]

Member-is_in : (f : Feedback) (fs : List Feedback) → Member f fs → is_in f fs ≡ true
Member-is_in f [] h = absurd h
Member-is_in f (g ∷ gs) (inl e) =
    rw (← e) (rw ((string_key.test_iff f.kind f.kind).1 refl, option_same f.parameter) refl)
Member-is_in f (g ∷ gs) (inr h) =
    elim (Bool-cases (string_key.test f.kind g.kind && same_option f.parameter g.parameter)) [
      | inl e ↦ rw e refl
      | inr e ↦ rw e (Member-is_in f gs h)
    ]

common_feedback-Shared : (fs remote : List Feedback) → Shared remote fs (common_feedback fs remote)
common_feedback-Shared [] remote = none_left
common_feedback-Shared (f ∷ fs) remote = elim (Bool-cases (is_in f remote)) [
  | inl e ↦ rw e (
      keeps f fs (common_feedback fs remote) (is_in-Member f remote e)
        (common_feedback-Shared fs remote))
  | inr e ↦ rw e (
      drops f fs (common_feedback fs remote)
        (λ m. let never : true ≡ false = sym (Member-is_in f remote m) ∙ e in cc)
        (common_feedback-Shared fs remote))
]

and-intro : (a b : Bool) → a ≡ true → b ≡ true → (a && b) ≡ true
and-intro a b h k = rw (h, k) refl

implied : (a b : Bool) → (not a || b) ≡ true → a ≡ true → b ≡ true
implied true b h e = h
implied false b h e = cc

implies : (a b : Bool) → (a ≡ true → b ≡ true) → (not a || b) ≡ true
implies true b h = h refl
implies false b h = refl

is_compatible-Fits : (l c : Codec) → is_compatible l c ≡ true → Fits l c
unfolding is_compatible
is_compatible-Fits l c h =
    let base = and-left (same_mime_type l c && l.clock_rate == c.clock_rate) _ h in
    let mime = and-left (same_mime_type l c) _ base in
    let fits = and-right (same_mime_type l c && l.clock_rate == c.clock_rate) _ h in
    let modes = same_parameter packetization_mode c l in
    let levels = same_parameter profile_level_id c l in
    record {
      kind = (string_key.test_iff _ _).0 (and-left (same_lower l.kind c.kind) _ mime);
      name = (string_key.test_iff _ _).0 (and-right (same_lower l.kind c.kind) _ mime);
      clock_rate = (==_iff _ _).0 (and-right (same_mime_type l c) _ base);
      h264_parameters = λ k n.
          let both =
            implied (is_h264 l) (modes && levels) fits
              (and-intro _ _ ((string_key.test_iff _ _).1 k) ((string_key.test_iff _ _).1 n)) in
          (
            param_test _ _ (and-left modes levels both),
            param_test _ _ (and-right modes levels both),
          );
    }

Fits-is_compatible : (l c : Codec) → Fits l c → is_compatible l c ≡ true
unfolding is_compatible
Fits-is_compatible l c h =
    and-intro (same_mime_type l c && l.clock_rate == c.clock_rate) _
      (and-intro (same_mime_type l c) _
        (and-intro (same_lower l.kind c.kind) _ ((string_key.test_iff _ _).1 h.kind)
          ((string_key.test_iff _ _).1 h.name))
        ((==_iff _ _).1 h.clock_rate))
      (implies (is_h264 l) _ (λ e.
        let (modes, levels) =
          h.h264_parameters
            ((string_key.test_iff _ _).0 (and-left (string_key.test (lower l.kind) video) _ e))
            ((string_key.test_iff _ _).0 (and-right (string_key.test (lower l.kind) video) _ e)) in
        and-intro (same_parameter packetization_mode c l) _ (param_same _ _ modes)
          (param_same _ _ levels)))

agree-IsCopy : (l c : Codec) → IsCopy l c (agree l c)
unfolding agree
agree-IsCopy l c = record {
  kind = refl;
  name = refl;
  clock_rate = refl;
  channels = refl;
  parameters = refl;
  dynamic = λ low high. ground arith;
  fixed = λ out. ground arith;
  feedback = common_feedback-Shared l.rtcp_feedback c.rtcp_feedback;
}

unfit : (l c : Codec) → is_compatible l c ≡ false → Fits l c → ⊥
unfit l c h f = let never : true ≡ false = sym (Fits-is_compatible l c f) ∙ h in cc

first_compatible-First :
    (local : List Codec) (c : Codec)
    → ((first_compatible local c ≡ none) × All (λ l. Fits l c → ⊥) local)
      ⊎ ((l : Codec) × (k : Codec) × (first_compatible local c ≡ some k)
          × First c l local
          × IsCopy l c k)
first_compatible-First [] c = inl (refl, tt)
first_compatible-First (l ∷ local) c = elim (Bool-cases (is_compatible l c)) [
  | inl e ↦ inr (l, agree l c, rw e refl, here local (is_compatible-Fits l c e), agree-IsCopy l c)
  | inr e ↦ elim (first_compatible-First local c) [
    | inl h ↦ inl (rw e h.0, (unfit l c e, h.1))
    | inr h ↦
        let (m, k, found, first, copy) = h in
        inr (m, k, rw e found, later l local (unfit l c e) first, copy)
  ]
]

agreed_codecs-Chosen :
    (local remote : List Codec) → Chosen local remote (agreed_codecs local (media_codecs remote))
unfolding is_rtx
agreed_codecs-Chosen local [] = all_done
agreed_codecs-Chosen local (c ∷ remote) =
    let rest = agreed_codecs-Chosen local remote in
    elim (Bool-cases (string_key.test (lower c.name) rtx)) [
      | inl e ↦ rw e (retransmits c remote _ ((string_key.test_iff _ _).0 e) rest)
      | inr e ↦
          let media : lower c.name ≢ rtx =
            λ q. let never : true ≡ false = sym ((string_key.test_iff _ _).1 q) ∙ e in cc in
          elim (first_compatible-First local c) [
            | inl h ↦ rw (e, h.0) (refuses c remote _ media h.1 rest)
            | inr h ↦
                let (l, k, found, first, copy) = h in
                rw (e, found) (agrees c l k remote _ media first copy rest)
          ]
    ]

-- The codecs of the result that are not for retransmission are chosen by the remote codecs in turn: one
-- named rtx, up to case, gives nothing, another gives a copy of the first local codec that fits it, and nothing where
-- none fits. A codec fits with the same MIME type up to case, the same clock rate and, for H.264, the
-- same packetization mode and profile level. The copy has the remote's payload type where that is 96 to
-- 127, and of the local feedback what the remote has too, in the local order.
pub find_common_codecs-Chosen :
    (local remote : List Codec)
    → Chosen local remote (media_codecs (find_common_codecs local remote))
find_common_codecs-Chosen local remote =
    subst (Chosen local remote) (sym (media_codecs-find_common_codecs local remote))
      (agreed_codecs-Chosen local remote)
