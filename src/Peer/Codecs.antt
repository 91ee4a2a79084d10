-- ===== src/Peer/Codecs.antt =====
-- transport/rtcpeerconnection.py: the choice of codecs and header extensions. `mimeType` is a kind and
-- a name, which its slash divides; `str.lower()` is that of ASCII.
pub mod Agreed
pub mod Choice
pub mod Common
use pure_webrtc_transport.Base.{
  ℕ, Bool, true, false, not, ◌&&◌, ◌||◌, Option, none, some, List, [], ◌∷◌, ◌++◌, ltb, leb, ◌==◌,
  if◌then◌else◌,
}
use pure_webrtc_transport.Base.Dict.{Key, Dict, lookup, insert, nat_key, string_key}
use pure_webrtc_transport.Text.{Str}
use pure_webrtc_transport.Dtls.Transport.Handshake.{lower}

-- The value of a parameter, an integer or a string.
pub data Param : Type 0 where
  number : ℕ → Param
  text : Str → Param

pub record Feedback : Type 0 where
  pub kind : Str
  pub parameter : Option Str

pub record Codec : Type 0 where
  pub kind : Str
  pub name : Str
  pub clock_rate : ℕ
  pub channels : Option ℕ
  pub payload_type : ℕ
  pub rtcp_feedback : List Feedback
  pub parameters : Dict Str Param

abbrev pub rtx : Str
rtx = 114 ∷ 116 ∷ 120 ∷ []

abbrev pub video : Str
video = 118 ∷ 105 ∷ 100 ∷ 101 ∷ 111 ∷ []

abbrev pub h264 : Str
h264 = 104 ∷ 50 ∷ 54 ∷ 52 ∷ []

abbrev pub apt : Str
apt = 97 ∷ 112 ∷ 116 ∷ []

abbrev pub packetization_mode : Str
packetization_mode =
    112 ∷ 97 ∷ 99 ∷ 107 ∷ 101 ∷ 116 ∷ 105 ∷ 122 ∷ 97 ∷ 116 ∷ 105 ∷ 111 ∷ 110 ∷ 45 ∷ 109 ∷ 111 ∷ 100
    ∷ 101 ∷ []

abbrev pub profile_level_id : Str
profile_level_id =
    112 ∷ 114 ∷ 111 ∷ 102 ∷ 105 ∷ 108 ∷ 101 ∷ 45 ∷ 108 ∷ 101 ∷ 118 ∷ 101 ∷ 108 ∷ 45 ∷ 105 ∷ 100 ∷ []

abbrev pub same_lower : Str → Str → Bool
same_lower a b = string_key.test (lower a) (lower b)

unfoldable pub is_rtx : Codec → Bool
is_rtx codec = string_key.test (lower codec.name) rtx

abbrev pub same_param : Option Param → Option Param → Bool
same_param none none = true
same_param (some (number a)) (some (number b)) = a == b
same_param (some (text a)) (some (text b)) = string_key.test a b
same_param _ _ = false

abbrev pub same_mime_type : Codec → Codec → Bool
same_mime_type a b = same_lower a.kind b.kind && same_lower a.name b.name

abbrev pub is_h264 : Codec → Bool
is_h264 codec = string_key.test (lower codec.kind) video && string_key.test (lower codec.name) h264

abbrev pub same_parameter : Str → Codec → Codec → Bool
same_parameter name a b = same_param (lookup name a.parameters) (lookup name b.parameters)

-- The tests of the inner loop: a local codec and one of the remote's.
unfoldable pub is_compatible : Codec → Codec → Bool
is_compatible codec c =
    (same_mime_type codec c && codec.clock_rate == c.clock_rate)
    && (not (is_h264 codec)
        || (same_parameter packetization_mode c codec && same_parameter profile_level_id c codec))

abbrev pub is_dynamic : ℕ → Bool
is_dynamic payload_type = leb 96 payload_type && ltb payload_type 128

abbrev pub same_option : Option Str → Option Str → Bool
same_option none none = true
same_option (some a) (some b) = string_key.test a b
same_option _ _ = false

abbrev pub is_in : Feedback → List Feedback → Bool
is_in f [] = false
is_in f (g ∷ gs) =
    (string_key.test f.kind g.kind && same_option f.parameter g.parameter) || is_in f gs

abbrev pub common_feedback : List Feedback → List Feedback → List Feedback
common_feedback [] remote = []
common_feedback (f ∷ fs) remote =
    let rest = common_feedback fs remote in if is_in f remote then f ∷ rest else rest

-- The copy of the local codec that is agreed on.
unfoldable pub agree : Codec → Codec → Codec
agree codec c = record codec {
  payload_type = if is_dynamic c.payload_type then c.payload_type else codec.payload_type;
  rtcp_feedback = common_feedback codec.rtcp_feedback c.rtcp_feedback;
}

-- `for codec in local_codecs`, up to its `break`.
abbrev pub first_compatible : List Codec → Codec → Option Codec
first_compatible [] c = none
first_compatible (codec ∷ codecs) c =
    let rest = first_compatible codecs c in
    if is_compatible codec c then some (agree codec c) else rest

-- `common_base` at `apt`, which finds nothing under a string.
abbrev pub base_of : Option Param → Dict ℕ Codec → Option Codec
base_of (some (number n)) base = lookup n base
base_of _ base = none

abbrev pub add_rtx : Option Codec → Codec → List Codec → List Codec
add_rtx none c common = common
add_rtx (some base) c common =
    if c.clock_rate == base.clock_rate then common ++ (c ∷ []) else common

abbrev pub add_codec : Option Codec → List Codec × Dict ℕ Codec → List Codec × Dict ℕ Codec
add_codec none (common, base) = (common, base)
add_codec (some codec) (common, base) =
    (common ++ (codec ∷ []), insert codec.payload_type codec base)

-- The loop over the remote codecs, with `common` and `common_base`.
abbrev pub common_loop : List Codec → List Codec → List Codec × Dict ℕ Codec → List Codec
common_loop local [] (common, base) = common
common_loop local (c ∷ remote) (common, base) =
    let after_rtx =
      common_loop local remote (add_rtx (base_of (lookup apt c.parameters) base) c common, base) in
    let after_codec =
      common_loop local remote (add_codec (first_compatible local c) (common, base)) in
    if is_rtx c then after_rtx else after_codec

unfoldable pub find_common_codecs : List Codec → List Codec → List Codec
find_common_codecs local remote = common_loop local remote ([], [])
