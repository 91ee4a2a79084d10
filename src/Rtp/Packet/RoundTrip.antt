-- ===== src/Rtp/Packet/RoundTrip.antt =====
-- transport/rtp.py: `RtpPacket.parse` reads back what `RtpPacket.serialize` wrote.
use Prim.Native.Nat.{bit_or}
use pure_webrtc_transport.Base.{
  ℕ, ◌+◌, ◌*◌, ◌/◌, ◌%◌, ◌^◌, ◌≤◌, ◌<◌, ◌≡◌, refl, ap, ◌∙◌, Bool, true, false, not, none, List, ◌∷◌,
  ◌++◌, length, length-append, arith, All, append_assoc, ltb, leb,
}
use pure_webrtc_transport.Base.Bits.{bit_or-high_low, shr, low_bits, bit}
use pure_webrtc_transport.Base.Result.{ok}
use pure_webrtc_transport.Struct.{Bytes, be16, be32, read_b}
use pure_webrtc_transport.Struct.Laws.{pack_b_lem, pack_h_lem, pack_l_lem, read_h-be16, read_l-be32}
use pure_webrtc_transport.Rtp.ExtensionsMap.{HeaderExtensions, ExtensionIds, set}
use pure_webrtc_transport.Rtp.ExtensionsMap.Entries.{IsConfigured, IsWritable, visible}
use pure_webrtc_transport.Rtp.ExtensionsMap.RoundTrip.{get-set}
use pure_webrtc_transport.Rtp.Packet.{
  RtpPacket, new_packet, read_numbers, parse_extension, parse_payload, parse, flag, is_empty,
  pack_header, pack_numbers, pack_extension, pack_padding, serialize,
}
use pure_webrtc_transport.Rtp.Packet.Parse.{
  le→leb, read_numbers-pack_numbers, parse-pack_extension, parse-pack_padding,
}

-- What the header's fields can hold, and values that the extension map can send.
pub record IsSendable (p : RtpPacket) : Type 0 where
  pub version : p.version ≡ 2
  pub marker : p.marker < 2
  pub payload_type : p.payload_type < 2 ^ 7
  pub sequence_number : p.sequence_number < 2 ^ 16
  pub timestamp : p.timestamp < 2 ^ 32
  pub ssrc : p.ssrc < 2 ^ 32
  pub few : length p.csrc < 2 ^ 4
  pub csrc : All (λ n. n < 2 ^ 32) p.csrc
  pub padding_size : p.padding_size < 256
  pub extensions : IsWritable p.extensions
  pub no_offset : p.extensions.transmission_offset ≡ none

-- The first octet: version, padding bit, extension bit and count of CSRCs.
abbrev first_octet : Bool → Bool → ℕ → ℕ
first_octet padding extension count = 128 + flag padding * 32 + flag extension * 16 + count

first_octet_lem :
    (padding extension : Bool) (count : ℕ)
    → count < 2 ^ 4
    → bit_or (bit_or (bit_or (2 * 2 ^ 6) (flag padding * 2 ^ 5)) (flag extension * 2 ^ 4)) count
      ≡ first_octet padding extension count
first_octet_lem true true count h = bit_or-high_low 4 11 count h
first_octet_lem true false count h = bit_or-high_low 4 10 count h
first_octet_lem false true count h = bit_or-high_low 4 9 count h
first_octet_lem false false count h = bit_or-high_low 4 8 count h

versioned_octet :
    (padding extension : Bool) (count version : ℕ)
    → version ≡ 2
    → count < 2 ^ 4
    → bit_or
        (bit_or (bit_or (version * 2 ^ 6) (flag padding * 2 ^ 5)) (flag extension * 2 ^ 4))
        count
      ≡ first_octet padding extension count
versioned_octet padding extension count version e h =
    rw e (first_octet_lem padding extension count h)

first_octet_fields :
    (padding extension : Bool) (count : ℕ)
    → count < 2 ^ 4
    → (first_octet padding extension count < 2 ^ 8)
      × (shr (first_octet padding extension count) 6 ≡ 2)
      × (bit (first_octet padding extension count) 5 ≡ flag padding)
      × (bit (first_octet padding extension count) 4 ≡ flag extension)
      × (low_bits (first_octet padding extension count) 4 ≡ count)
first_octet_fields true true count h = omega arith
first_octet_fields true false count h = omega arith
first_octet_fields false true count h = omega arith
first_octet_fields false false count h = omega arith

-- The twelve bytes, and those that follow.
abbrev header : ℕ → ℕ → ℕ → ℕ → ℕ → Bytes
header a b c d e = a ∷ b ∷ (be16 c ++ (be32 d ++ be32 e))

abbrev headed : ℕ → ℕ → ℕ → ℕ → ℕ → Bytes → Bytes
headed a b c d e rest = a ∷ b ∷ (be16 c ++ (be32 d ++ (be32 e ++ rest)))

pack_header_lem :
    (a b c d e : ℕ)
    → a < 2 ^ 8
    → b < 2 ^ 8
    → c < 2 ^ 16
    → d < 2 ^ 32
    → e < 2 ^ 32
    → pack_header a b c d e ≡ ok (header a b c d e)
unfolding pack_header
pack_header_lem a b c d e ha hb hc hd he =
    rw (pack_b_lem a ha, pack_b_lem b hb, pack_h_lem c hc, pack_l_lem d hd, pack_l_lem e he)

header-append : (a b c d e : ℕ) (rest : Bytes) → header a b c d e ++ rest ≡ headed a b c d e rest
unfolding be16 be32
header-append a b c d e rest = refl

length-headed : (a b c d e : ℕ) (rest : Bytes) → length (headed a b c d e rest) ≡ 12 + length rest
unfolding be16 be32
length-headed a b c d e rest = omega arith

-- Parsing, once the fields of the first octet and the parts behind the header are known.
parse_lem :
    (ids : ExtensionIds) (a m pt seq ts ssrc x padding_bit : ℕ) (csrc : List ℕ)
    (r₅ r₆ r₇ payload : Bytes) (values : HeaderExtensions) (padding_size : ℕ)
    → shr a 6 ≡ 2
    → bit a 5 ≡ padding_bit
    → bit a 4 ≡ x
    → low_bits a 4 ≡ length csrc
    → m < 2
    → pt < 2 ^ 7
    → 4 * length csrc ≤ length r₅
    → read_numbers (length csrc) r₅ ≡ ok (csrc, r₆)
    → parse_extension ids x r₆ ≡ ok (values, r₇)
    → parse_payload padding_bit (headed a (m * 2 ^ 7 + pt) seq ts ssrc r₅) r₇
      ≡ ok (padding_size, payload)
    → parse ids (headed a (m * 2 ^ 7 + pt) seq ts ssrc r₅)
      ≡ ok (record (new_packet pt m seq ts ssrc payload) {
        csrc = csrc;
        extensions = values;
        padding_size = padding_size;
      })
unfolding parse read_b
parse_lem ids a m pt seq ts ssrc x pb csrc r₅ r₆ r₇ payload values ps v p e n hm hp room rn re rp =
    let size = length-headed a (m * 2 ^ 7 + pt) seq ts ssrc r₅ in
    let long : leb 12 (length (headed a (m * 2 ^ 7 + pt) seq ts ssrc r₅)) ≡ true =
      le→leb _ _ (omega (arith, size)) in
    let all : leb (12 + 4 * length csrc) (length (headed a (m * 2 ^ 7 + pt) seq ts ssrc r₅))
        ≡ true =
      le→leb _ _ (omega (arith, size)) in
    let marker : (m * 2 ^ 7 + pt) / 2 ^ 7 ≡ m = omega arith in
    let kind : (m * 2 ^ 7 + pt) % 2 ^ 7 ≡ pt = omega arith in
    rw (
      long,
      read_h-be16 seq (be32 ts ++ (be32 ssrc ++ r₅)),
      read_l-be32 ts (be32 ssrc ++ r₅),
      read_l-be32 ssrc r₅,
      v,
      n,
      all,
      rn,
      e,
      re,
      p,
      rp,
      marker,
      kind,
    )

-- The parts of the datagram that `serialize` puts together.
record Parts (ids : ExtensionIds) (random : ℕ → Bytes) (p : RtpPacket) : Type 0 where
  profile : ℕ
  value : Bytes
  csrc : Bytes
  extension : Bytes
  padding : Bytes
  set_eq : set ids p.extensions ≡ ok (profile, value)
  csrc_eq : pack_numbers p.csrc ≡ ok csrc
  length_csrc : length csrc ≡ 4 * length p.csrc
  extension_eq : pack_extension profile value ≡ ok extension
  padding_eq : pack_padding random p.padding_size ≡ ok padding
  read_csrc : (rest : Bytes) → read_numbers (length p.csrc) (csrc ++ rest) ≡ ok (p.csrc, rest)
  read_extension :
      (rest : Bytes)
      → parse_extension ids (flag (not (is_empty value))) (extension ++ rest)
        ≡ ok (visible ids p.extensions, rest)
  read_padding :
      (front : Bytes)
      → parse_payload
          (flag (ltb 0 p.padding_size))
          (front ++ (p.payload ++ padding))
          (p.payload ++ padding)
        ≡ ok (p.padding_size, p.payload)

parts :
    (ids : ExtensionIds) (random : ℕ → Bytes) (p : RtpPacket)
    → IsConfigured ids
    → ((n : ℕ) → length (random n) ≡ n)
    → IsSendable p
    → Parts ids random p
parts ids random p c hr s =
    let (profile, value, written, words, size, short, got) =
      get-set ids p.extensions c s.extensions s.no_offset in
    let (csrc, cw, cl, cr) = read_numbers-pack_numbers p.csrc s.csrc in
    let (extension, ew, er) = parse-pack_extension ids profile value short words size got in
    let (padding, pw, pr) = parse-pack_padding random p.padding_size p.payload hr s.padding_size in
    record {
      profile = profile;
      value = value;
      csrc = csrc;
      extension = extension;
      padding = padding;
      set_eq = written;
      csrc_eq = cw;
      length_csrc = cl;
      extension_eq = ew;
      padding_eq = pw;
      read_csrc = cr;
      read_extension = er;
      read_padding = pr;
    }

-- For a sendable packet, ids that fit a byte and differ, and a `random` that returns as many bytes
-- as asked for: `serialize` succeeds and notes the datagram's size, and parsing the datagram with
-- the same ids gives back every field of the header, the CSRCs, the padding size and the payload,
-- with the extensions that have an id; the times and the size outside the header are 0.
pub parse-serialize :
    (ids : ExtensionIds) (random : ℕ → Bytes) (p : RtpPacket)
    → IsConfigured ids
    → ((n : ℕ) → length (random n) ≡ n)
    → IsSendable p
    → (bytes : Bytes) × (serialize ids random p
        ≡ ok (bytes, record p { total_size = length bytes }))
      × (parse ids bytes
          ≡ ok (record p {
            version = 2;
            extensions = visible ids p.extensions;
            capture_ms = 0;
            send_ms = 0;
            total_size = 0;
          }))
unfolding serialize be16 be32
parse-serialize ids random p c hr s =
    let q = parts ids random p c hr s in
    let some_padding = ltb 0 p.padding_size in
    let some_value = not (is_empty q.value) in
    let a = first_octet some_padding some_value (length p.csrc) in
    let m = p.marker * 2 ^ 7 + p.payload_type in
    let (small, version, padding_bit, extension_bit, count) =
      first_octet_fields some_padding some_value (length p.csrc) s.few in
    let r₇ = p.payload ++ q.padding in
    let r₆ = q.extension ++ r₇ in
    let r₅ = q.csrc ++ r₆ in
    let seq = p.sequence_number in
    let head = header a m seq p.timestamp p.ssrc in
    let octet = versioned_octet some_padding some_value (length p.csrc) p.version s.version s.few in
    let whole : (head ++ (q.csrc ++ q.extension)) ++ r₇ ≡ headed a m seq p.timestamp p.ssrc r₅ =
      append_assoc head (q.csrc ++ q.extension) r₇
      ∙ ap (λ rest. head ++ rest) (append_assoc q.csrc q.extension r₇)
      ∙ header-append a m seq p.timestamp p.ssrc r₅ in
    (
      headed a m seq p.timestamp p.ssrc r₅,
      rw (
        q.set_eq,
        octet,
        bit_or-high_low 7 p.marker p.payload_type s.payload_type,
        pack_header_lem a m seq p.timestamp p.ssrc small (omega (arith, s.marker, s.payload_type))
            s.sequence_number s.timestamp s.ssrc,
        q.csrc_eq,
        q.extension_eq,
        q.padding_eq,
        header-append a m seq p.timestamp p.ssrc r₅,
      ),
      parse_lem ids a p.marker p.payload_type seq p.timestamp p.ssrc (flag some_value)
          (flag some_padding) p.csrc r₅ r₆ r₇ p.payload (visible ids p.extensions) p.padding_size
          version padding_bit extension_bit count s.marker s.payload_type
          (omega (arith, q.length_csrc, length-append q.csrc r₆)) (q.read_csrc r₆)
          (q.read_extension r₇) (rw whole at (q.read_padding (head ++ (q.csrc ++ q.extension)))),
    )
