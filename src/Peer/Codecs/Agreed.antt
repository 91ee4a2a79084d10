-- ===== src/Peer/Codecs/Agreed.antt =====
-- `find_common_codecs`: which codecs are agreed on, and in which order.
use pure_webrtc_transport.Base.{
  ℕ, Bool, true, false, Bool-cases, ◌&&◌, ◌==◌, inl, inr, Option, none, some, List, [], ◌∷◌, ◌++◌,
  ◌≡◌, refl, append-nil, append_assoc, ap, sym, ◌∙◌, if◌then◌else◌,
}
use pure_webrtc_transport.Base.Dict.{Dict, lookup, string_key}
use pure_webrtc_transport.Dtls.Transport.Handshake.{lower}
use pure_webrtc_transport.Peer.Codecs.{
  Codec, rtx, apt, is_rtx, is_compatible, agree, first_compatible, base_of, add_rtx, add_codec,
  common_loop, find_common_codecs, same_mime_type, same_lower,
}
use pure_webrtc_transport.Peer.Codecs.Common.{first_compatible-some}

-- The codecs that are not for retransmission.
abbrev pub media_codecs : List Codec → List Codec
media_codecs [] = []
media_codecs (c ∷ cs) = let rest = media_codecs cs in if is_rtx c then rest else c ∷ rest

abbrev pub with_codec : Option Codec → List Codec → List Codec
with_codec none rest = rest
with_codec (some codec) rest = codec ∷ rest

-- For each remote media codec in turn, the first local codec that is compatible with it.
abbrev pub agreed_codecs : List Codec → List Codec → List Codec
agreed_codecs local [] = []
agreed_codecs local (c ∷ remote) =
    with_codec (first_compatible local c) (agreed_codecs local remote)

media_codecs-last_rtx :
    (cs : List Codec) (c : Codec)
    → is_rtx c ≡ true
    → media_codecs (cs ++ (c ∷ [])) ≡ media_codecs cs
media_codecs-last_rtx [] c e = rw e refl
media_codecs-last_rtx (d ∷ cs) c e =
    ap (λ rest. if is_rtx d then rest else d ∷ rest) (media_codecs-last_rtx cs c e)

media_codecs-last :
    (cs : List Codec) (c : Codec)
    → is_rtx c ≡ false
    → media_codecs (cs ++ (c ∷ [])) ≡ media_codecs cs ++ (c ∷ [])
media_codecs-last [] c e = rw e refl
media_codecs-last (d ∷ cs) c e = elim (Bool-cases (is_rtx d)) [
  | inl t ↦ rw t (media_codecs-last cs c e)
  | inr t ↦ rw t (ap (λ rest. d ∷ rest) (media_codecs-last cs c e))
]

pub and-left : (a b : Bool) → a && b ≡ true → a ≡ true
and-left true b h = refl
and-left false b h = h

pub and-right : (a b : Bool) → a && b ≡ true → b ≡ true
and-right true b h = h
and-right false b h = cc

same_name : (l c : Codec) → is_compatible l c ≡ true → lower l.name ≡ lower c.name
unfolding is_compatible
same_name l c h =
    let mime = and-left (same_mime_type l c && l.clock_rate == c.clock_rate) _ h in
    let same = and-left (same_mime_type l c) (l.clock_rate == c.clock_rate) mime in
    (string_key.test_iff (lower l.name) (lower c.name)).0
      (and-right (same_lower l.kind c.kind) (same_lower l.name c.name) same)

is_rtx-agree : (l c : Codec) → is_compatible l c ≡ true → is_rtx (agree l c) ≡ is_rtx c
unfolding is_rtx agree
is_rtx-agree l c h = ap (λ name. string_key.test name rtx) (same_name l c h)

add_rtx-media :
    (o : Option Codec) (c : Codec) (common : List Codec)
    → is_rtx c ≡ true
    → media_codecs (add_rtx o c common) ≡ media_codecs common
add_rtx-media none c common e = refl
add_rtx-media (some b) c common e = elim (Bool-cases (c.clock_rate == b.clock_rate)) [
  | inl t ↦ rw t (media_codecs-last_rtx common c e)
  | inr t ↦ rw t refl
]

add_codec-media :
    (local : List Codec) (o : Option Codec) (c : Codec) (common rest : List Codec)
    (base : Dict ℕ Codec)
    → first_compatible local c ≡ o
    → is_rtx c ≡ false
    → media_codecs (add_codec o (common, base)).0 ++ rest ≡ media_codecs common ++ with_codec o rest
add_codec-media local none c common rest base h e = refl
add_codec-media local (some k) c common rest base h e =
    let (l, there, fits, same) = first_compatible-some local c k h in
    let media : is_rtx k ≡ false = ap is_rtx same ∙ is_rtx-agree l c fits ∙ e in
    ap (λ m. m ++ rest) (media_codecs-last common k media)
    ∙ append_assoc (media_codecs common) (k ∷ []) rest

common_loop-media :
    (local remote common : List Codec) (base : Dict ℕ Codec)
    → media_codecs (common_loop local remote (common, base))
      ≡ media_codecs common ++ agreed_codecs local (media_codecs remote)
common_loop-media local [] common base = sym (append-nil (media_codecs common))
common_loop-media local (c ∷ remote) common base =
    let rest = agreed_codecs local (media_codecs remote) in
    let o = base_of (lookup apt c.parameters) base in
    let found = first_compatible local c in
    elim (Bool-cases (is_rtx c)) [
      | inl e ↦ rw e (
          common_loop-media local remote (add_rtx o c common) base
          ∙ ap (λ m. m ++ rest) (add_rtx-media o c common e))
      | inr e ↦ rw e (
          common_loop-media local remote (add_codec found (common, base)).0
            (add_codec found (common, base)).1
          ∙ add_codec-media local found c common rest base refl e)
    ]

pub media_codecs-find_common_codecs :
    (local remote : List Codec)
    → media_codecs (find_common_codecs local remote) ≡ agreed_codecs local (media_codecs remote)
unfolding find_common_codecs
media_codecs-find_common_codecs local remote = common_loop-media local remote [] []
