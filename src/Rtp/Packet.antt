-- ===== src/Rtp/Packet.antt =====
-- transport/rtp.py: `RtpPacket` with `parse` and `serialize`, and the retransmission packets of
-- `wrap_rtx` and `unwrap_rtx`. The bytes of `os.urandom` are a parameter.
pub mod Parse
pub mod RoundTrip
pub mod Rtx
use Prim.Native.Nat.{bit_or}
use pure_webrtc_transport.Base.{
  ℕ, zero, suc, ◌+◌, ◌-◌, ◌*◌, ◌/◌, ◌%◌, ◌^◌, Bool, true, false, ◌&&◌, ◌||◌, not, List, [], ◌∷◌,
  ◌++◌, length, take, drop, ltb, leb, ◌==◌, if◌then◌else◌,
}
use pure_webrtc_transport.Base.Bits.{shr, low_bits, bit}
use pure_webrtc_transport.Base.Result.{
  Result, ok, raise, ◌>>=◌, ◌>>◌, guard, traverse, value_error, struct_error,
}
use pure_webrtc_transport.Struct.{Bytes, pack_b, pack_h, pack_l, read_b, read_h, read_l, whole}
use pure_webrtc_transport.Rtp.ExtensionsMap.{
  HeaderExtensions, ExtensionIds, no_extensions, get, set,
}

pub record RtpPacket : Type 0 where
  pub version : ℕ
  pub marker : ℕ
  pub payload_type : ℕ
  pub sequence_number : ℕ
  pub timestamp : ℕ
  pub ssrc : ℕ
  pub csrc : List ℕ
  pub extensions : HeaderExtensions
  pub payload : Bytes
  pub padding_size : ℕ
  -- Not in the header.
  pub capture_ms : ℕ
  pub send_ms : ℕ
  pub total_size : ℕ

-- `RtpPacket(payload_type=…, …)`
abbrev pub new_packet : ℕ → ℕ → ℕ → ℕ → ℕ → Bytes → RtpPacket
new_packet payload_type marker sequence_number timestamp ssrc payload = record {
  version = 2;
  marker = marker;
  payload_type = payload_type;
  sequence_number = sequence_number;
  timestamp = timestamp;
  ssrc = ssrc;
  csrc = [];
  extensions = no_extensions;
  payload = payload;
  padding_size = 0;
  capture_ms = 0;
  send_ms = 0;
  total_size = 0;
}

-- `count` numbers of four bytes.
unfoldable pub read_numbers : ℕ → Bytes → Result (List ℕ × Bytes)
read_numbers zero rest = ok ([], rest)
read_numbers (suc count) rest = do
  (n, rest') ← read_l rest
  (ns, rest'') ← read_numbers count rest'
  ok (n ∷ ns, rest'')

-- data[-1], of bytes that are not empty.
abbrev pub last : Bytes → ℕ
last [] = 0
last (b ∷ []) = b
last (a ∷ b ∷ bytes) = last (b ∷ bytes)

-- The extension block, where the bit for it is set.
unfoldable pub parse_extension : ExtensionIds → ℕ → Bytes → Result (HeaderExtensions × Bytes)
parse_extension ids zero rest = ok (no_extensions, rest)
parse_extension ids (suc _) rest = do
  guard (leb 4 (length rest)) value_error
  (profile, rest') ← read_h rest
  (words, rest'') ← read_h rest'
  guard (leb (words * 4) (length rest'')) value_error
  extensions ← get ids profile (take (words * 4) rest'')
  ok (extensions, drop (words * 4) rest'')

-- The padding's length and the payload, from the whole datagram and what is left of it.
unfoldable pub parse_payload : ℕ → Bytes → Bytes → Result (ℕ × Bytes)
parse_payload zero bytes rest = ok (0, rest)
parse_payload (suc _) bytes rest = do
  guard (not (last bytes == 0) && leb (last bytes) (length rest)) value_error
  ok (last bytes, take (length rest - last bytes) rest)

-- `RtpPacket.parse`
unfoldable pub parse : ExtensionIds → Bytes → Result RtpPacket
parse ids bytes = do
  guard (leb 12 (length bytes)) value_error
  (v_p_x_cc, r₁) ← read_b bytes
  (m_pt, r₂) ← read_b r₁
  (sequence_number, r₃) ← read_h r₂
  (timestamp, r₄) ← read_l r₃
  (ssrc, r₅) ← read_l r₄
  guard (shr v_p_x_cc 6 == 2) value_error
  guard (leb (12 + 4 * low_bits v_p_x_cc 4) (length bytes)) value_error
  (csrc, r₆) ← read_numbers (low_bits v_p_x_cc 4) r₅
  (extensions, r₇) ← parse_extension ids (bit v_p_x_cc 4) r₆
  (padding_size, payload) ← parse_payload (bit v_p_x_cc 5) bytes r₇
  ok (record (new_packet (low_bits m_pt 7) (shr m_pt 7) sequence_number timestamp ssrc payload) {
    csrc = csrc;
    extensions = extensions;
    padding_size = padding_size;
  })

abbrev pub flag : Bool → ℕ
flag true = 1
flag false = 0

abbrev pub is_empty : Bytes → Bool
is_empty [] = true
is_empty (b ∷ bytes) = false

-- The fixed header of twelve bytes: the format "!BBHLL".
unfoldable pub pack_header : ℕ → ℕ → ℕ → ℕ → ℕ → Result Bytes
pack_header v_p_x_cc m_pt sequence_number timestamp ssrc = do
  a ← pack_b v_p_x_cc
  b ← pack_b m_pt
  c ← pack_h sequence_number
  d ← pack_l timestamp
  e ← pack_l ssrc
  ok (a ++ (b ++ (c ++ (d ++ e))))

-- pack("!L", n) for each number.
unfoldable pub pack_numbers : List ℕ → Result Bytes
pack_numbers [] = ok []
pack_numbers (n ∷ ns) = do first ← pack_l n; rest ← pack_numbers ns; ok (first ++ rest)

unfoldable pub pack_extension : ℕ → Bytes → Result Bytes
pack_extension profile value =
    if is_empty value
    then ok []
    else (do a ← pack_h profile; b ← pack_h (shr (length value) 2); ok (a ++ (b ++ value)))

-- `random n` stands for os.urandom(n). `bytes([n])` raises ValueError from 256 on.
unfoldable pub pack_padding : (ℕ → Bytes) → ℕ → Result Bytes
pack_padding random padding_size =
    if ltb 0 padding_size
    then (if ltb padding_size 256
        then ok (random (padding_size - 1) ++ (padding_size ∷ []))
        else raise value_error)
    else ok []

-- `RtpPacket.serialize`, which also notes the size.
unfoldable pub serialize : ExtensionIds → (ℕ → Bytes) → RtpPacket → Result (Bytes × RtpPacket)
serialize ids random p = do
  (profile, value) ← set ids p.extensions
  header ←
      pack_header
        (bit_or
          (bit_or (bit_or (p.version * 2 ^ 6) (flag (ltb 0 p.padding_size) * 2 ^ 5))
            (flag (not (is_empty value)) * 2 ^ 4))
          (length p.csrc))
        (bit_or (p.marker * 2 ^ 7) p.payload_type) p.sequence_number p.timestamp p.ssrc
  csrc ← pack_numbers p.csrc
  extension ← pack_extension profile value
  padding ← pack_padding random p.padding_size
  let bytes = header ++ (csrc ++ (extension ++ (p.payload ++ padding)))
  ok (bytes, record p { total_size = length bytes })

-- `unwrap_rtx`: the packet that a retransmission packet carries.
unfoldable pub unwrap_rtx : RtpPacket → ℕ → ℕ → Result RtpPacket
unwrap_rtx rtx payload_type ssrc = do
  sequence_number ← read_h (take 2 rtx.payload) >>= whole
  ok
      (record (new_packet payload_type rtx.marker sequence_number rtx.timestamp ssrc
        (drop 2 rtx.payload)) { csrc = rtx.csrc; extensions = rtx.extensions })

unfoldable pub wrap_rtx : RtpPacket → ℕ → ℕ → ℕ → Result RtpPacket
wrap_rtx packet payload_type sequence_number ssrc = do
  original ← pack_h packet.sequence_number
  ok
      (record (new_packet payload_type packet.marker sequence_number packet.timestamp ssrc
        (original ++ packet.payload)) { csrc = packet.csrc; extensions = packet.extensions })
