-- ===== src/Rtp/ExtensionsMap.antt =====
-- transport/rtp.py: `HeaderExtensions` and `HeaderExtensionsMap`, which turns the values of known
-- header extensions into (id, bytes) pairs and back. The map's own object holds an id per field.
pub mod Values
pub mod Entries
pub mod RoundTrip
pub mod Offset
use Prim.Native.Nat.{bit_or}
use Prim.Native.String.{String}
use text.Mathlib.Text.{◌==◌ as ◌is◌}
use pure_webrtc_transport.Base.{
  ℕ, ◌+◌, ◌-◌, ◌*◌, ◌/◌, ◌%◌, ◌^◌, Bool, true, false, Option, none, some, List, [], ◌∷◌, ◌++◌, drop,
  take, ltb, ◌==◌, if◌then◌else◌, ◌&&◌, not,
}
use pure_webrtc_transport.Base.Int.{ℤ, pos, negsuc}
use pure_webrtc_transport.Base.Bits.{shr, low_bits, bit}
use pure_webrtc_transport.Base.Result.{Result, ok, ◌>>=◌}
use pure_webrtc_transport.Struct.{
  Bytes, pack_b, pack_h, pack_l, pack_signed, read_b, read_h, read_l, signed, whole,
}
use pure_webrtc_transport.Text.{
  Str, ascii_encode, ascii_decode, utf8_encode, utf8_decode, utf8_loop,
}
use pure_webrtc_transport.Rtp.Extensions.{
  Extension, unpack_header_extensions, pack_header_extensions,
}

pub record HeaderExtensions : Type 0 where
  pub abs_send_time : Option ℕ
  pub audio_level : Option (Bool × ℕ)
  pub mid : Option Str
  pub repaired_rtp_stream_id : Option Str
  pub rtp_stream_id : Option Str
  pub transmission_offset : Option ℤ
  pub transport_sequence_number : Option ℕ

abbrev pub no_extensions : HeaderExtensions
no_extensions = record {
  abs_send_time = none;
  audio_level = none;
  mid = none;
  repaired_rtp_stream_id = none;
  rtp_stream_id = none;
  transmission_offset = none;
  transport_sequence_number = none;
}

-- The `HeaderExtensions` in which the map keeps an id for each field.
pub record ExtensionIds : Type 0 where
  pub abs_send_time : Option ℕ
  pub audio_level : Option ℕ
  pub mid : Option ℕ
  pub repaired_rtp_stream_id : Option ℕ
  pub rtp_stream_id : Option ℕ
  pub transmission_offset : Option ℕ
  pub transport_sequence_number : Option ℕ

abbrev pub no_ids : ExtensionIds
no_ids = record {
  abs_send_time = none;
  audio_level = none;
  mid = none;
  repaired_rtp_stream_id = none;
  rtp_stream_id = none;
  transmission_offset = none;
  transport_sequence_number = none;
}

pub record HeaderExtensionParameters : Type 0 where
  pub id : ℕ
  pub uri : String

-- One round of the loop of `configure`.
unfoldable pub configure_one : ExtensionIds → HeaderExtensionParameters → ExtensionIds
configure_one ids ext =
    if ◌is◌ ext.uri "urn:ietf:params:rtp-hdrext:sdes:mid"
    then record ids { mid = some ext.id }
    else if ◌is◌ ext.uri "urn:ietf:params:rtp-hdrext:sdes:repaired-rtp-stream-id"
    then record ids { repaired_rtp_stream_id = some ext.id }
    else if ◌is◌ ext.uri "urn:ietf:params:rtp-hdrext:sdes:rtp-stream-id"
    then record ids { rtp_stream_id = some ext.id }
    else if ◌is◌ ext.uri "http://www.webrtc.org/experiments/rtp-hdrext/abs-send-time"
    then record ids { abs_send_time = some ext.id }
    else if ◌is◌ ext.uri "urn:ietf:params:rtp-hdrext:toffset"
    then record ids { transmission_offset = some ext.id }
    else if ◌is◌ ext.uri "urn:ietf:params:rtp-hdrext:ssrc-audio-level"
    then record ids { audio_level = some ext.id }
    else if ◌is◌ ext.uri "http://www.ietf.org/id/draft-holmer-rmcat-transport-wide-cc-extensions-01"
    then record ids { transport_sequence_number = some ext.id }
    else ids

unfoldable pub configure : ExtensionIds → List HeaderExtensionParameters → ExtensionIds
unfolding configure_one
configure ids [] = ids
configure ids (ext ∷ more) = configure (configure_one ids ext) more

-- `x_id == self.__ids.f`, where the id may be None.
abbrev pub is_id : ℕ → Option ℕ → Bool
is_id x_id none = false
is_id x_id (some i) = x_id == i

-- n >> k of a signed number rounds down; n << k.
abbrev pub shift_right : ℤ → ℕ → ℤ
shift_right (pos n) k = pos (n / 2 ^ k)
shift_right (negsuc n) k = negsuc (n / 2 ^ k)

abbrev pub shift_left : ℤ → ℕ → ℤ
shift_left (pos n) k = pos (n * 2 ^ k)
shift_left (negsuc n) k = negsuc ((n + 1) * 2 ^ k - 1)

-- The fields that are numbers, as `get` reads them.
unfoldable pub read_abs_send_time : Bytes → Result ℕ
unfolding read_l whole
read_abs_send_time x_value = read_l (0 ∷ x_value) >>= whole

unfoldable pub read_transmission_offset : Bytes → Result ℤ
unfolding read_l whole
read_transmission_offset x_value = do
  bits ← read_l (x_value ++ (0 ∷ [])) >>= whole
  ok (shift_right (signed bits 32) 8)

unfoldable pub read_audio_level : Bytes → Result (Bool × ℕ)
unfolding read_b whole
read_audio_level x_value = do
  vad_level ← read_b x_value >>= whole
  ok (bit vad_level 7 == 1, low_bits vad_level 7)

unfoldable pub read_transport_sequence_number : Bytes → Result ℕ
unfolding read_h whole
read_transport_sequence_number x_value = read_h x_value >>= whole

-- One round of the loop of `get`.
unfoldable pub get_one : ExtensionIds → HeaderExtensions → Extension → Result HeaderExtensions
unfolding read_abs_send_time read_transmission_offset read_audio_level
    read_transport_sequence_number utf8_decode ascii_decode
get_one ids values (x_id, v) =
    if is_id x_id ids.mid
    then (utf8_decode v >>= λ s. ok (record values { mid = some s }))
    else if is_id x_id ids.repaired_rtp_stream_id
    then (ascii_decode v >>= λ s. ok (record values { repaired_rtp_stream_id = some s }))
    else if is_id x_id ids.rtp_stream_id
    then (ascii_decode v >>= λ s. ok (record values { rtp_stream_id = some s }))
    else if is_id x_id ids.abs_send_time
    then (read_abs_send_time v >>= λ n. ok (record values { abs_send_time = some n }))
    else if is_id x_id ids.transmission_offset
    then (read_transmission_offset v >>= λ n. ok (record values { transmission_offset = some n }))
    else if is_id x_id ids.audio_level
    then (read_audio_level v >>= λ n. ok (record values { audio_level = some n }))
    else if is_id x_id ids.transport_sequence_number
    then (read_transport_sequence_number v >>= λ n.
        ok (record values { transport_sequence_number = some n }))
    else ok values

unfoldable pub get_loop : ExtensionIds → HeaderExtensions → List Extension → Result HeaderExtensions
unfolding get_one
get_loop ids values [] = ok values
get_loop ids values (x ∷ more) = do values' ← get_one ids values x; get_loop ids values' more

-- `HeaderExtensionsMap.get`
unfoldable pub get : ExtensionIds → ℕ → Bytes → Result HeaderExtensions
unfolding get_loop unpack_header_extensions
get ids profile value = do
  extensions ← unpack_header_extensions profile value
  get_loop ids no_extensions extensions

unfoldable pub write_transmission_offset : ℤ → Result Bytes
unfolding pack_signed
write_transmission_offset n = do bytes ← pack_signed (shift_left n 8); ok (take 2 bytes)

unfoldable pub write_abs_send_time : ℕ → Result Bytes
unfolding pack_l
write_abs_send_time n = do bytes ← pack_l n; ok (drop 1 bytes)

unfoldable pub write_audio_level : Bool × ℕ → Result Bytes
unfolding pack_b
write_audio_level (voice, level) = pack_b (bit_or (if voice then 0x80 else 0) (low_bits level 7))

-- One `if` of `set`: nothing is appended for a value or an id that is None, nor for the id 0.
unfoldable pub entry {ℓ} :
    {A : Type ℓ} → Option ℕ → Option A → (A → Result Bytes) → Result (List Extension)
entry none value write = ok []
entry (some i) none write = ok []
entry (some i) (some a) write =
    if i == 0 then ok [] else (write a >>= λ bytes. ok ((i, bytes) ∷ []))

-- One `if` after another.
unfoldable pub join : Result (List Extension) → Result (List Extension) → Result (List Extension)
join first rest = do xs ← first; ys ← rest; ok (xs ++ ys)

-- The list that `set` builds.
unfoldable pub set_list : ExtensionIds → HeaderExtensions → Result (List Extension)
unfolding join entry write_transmission_offset write_abs_send_time write_audio_level pack_h
    utf8_encode ascii_encode
set_list ids values = join (entry ids.mid values.mid utf8_encode) (
    join (entry ids.repaired_rtp_stream_id values.repaired_rtp_stream_id ascii_encode) (
      join (entry ids.rtp_stream_id values.rtp_stream_id ascii_encode) (
        join (entry ids.abs_send_time values.abs_send_time write_abs_send_time) (
          join (entry ids.transmission_offset values.transmission_offset write_transmission_offset)
            (join (entry ids.audio_level values.audio_level write_audio_level)
              (entry ids.transport_sequence_number values.transport_sequence_number pack_h))))))

-- `HeaderExtensionsMap.set`
unfoldable pub set : ExtensionIds → HeaderExtensions → Result (ℕ × Bytes)
unfolding set_list pack_header_extensions
set ids values = set_list ids values >>= pack_header_extensions
