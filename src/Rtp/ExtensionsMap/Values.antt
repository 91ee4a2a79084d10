-- ===== src/Rtp/ExtensionsMap/Values.antt =====
-- transport/rtp.py: each value of a known header extension is read back from its bytes.
use pure_webrtc_transport.Base.{
  ℕ, ◌+◌, ◌-◌, ◌*◌, ◌/◌, ◌%◌, ◌^◌, ◌<◌, ◌≡◌, refl, Bool, true, false, [], ◌∷◌, arith,
}
use pure_webrtc_transport.Base.Int.{ℤ, pos, negsuc, ◌≤ℤ◌}
use pure_webrtc_transport.Base.Bits.{bit_or-high_low}
use pure_webrtc_transport.Base.Result.{ok, raise, struct_error}
use pure_webrtc_transport.Struct.{be16, be24, be32, pack_h}
use pure_webrtc_transport.Rtp.ExtensionsMap.{
  read_abs_send_time, read_transmission_offset, read_audio_level, read_transport_sequence_number,
  write_abs_send_time, write_transmission_offset, write_audio_level,
}

pub read-write_abs_send_time :
    (n : ℕ)
    → n < 2 ^ 24
    → (write_abs_send_time n ≡ ok (be24 n)) × (read_abs_send_time (be24 n) ≡ ok n)
unfolding write_abs_send_time read_abs_send_time be24
read-write_abs_send_time n h = (ground arith, ground arith)

pub read-write_transport_sequence_number :
    (n : ℕ)
    → n < 2 ^ 16
    → (pack_h n ≡ ok (be16 n)) × (read_transport_sequence_number (be16 n) ≡ ok n)
unfolding pack_h read_transport_sequence_number be16
read-write_transport_sequence_number n h = (ground arith, ground arith)

abbrev pub audio_byte : Bool × ℕ → ℕ
audio_byte (true, level) = 128 + level
audio_byte (false, level) = level

pub read-write_audio_level :
    (voice : Bool) (level : ℕ)
    → level < 128
    → (write_audio_level (voice, level) ≡ ok (audio_byte (voice, level) ∷ []))
      × (read_audio_level (audio_byte (voice, level) ∷ []) ≡ ok (voice, level))
unfolding write_audio_level read_audio_level
read-write_audio_level true level h =
    (ground (arith, bit_or-high_low 7 1 (level % 2 ^ 7)), ground arith)
read-write_audio_level false level h =
    (ground (arith, bit_or-high_low 7 0 (level % 2 ^ 7)), ground arith)

-- The writer of a transmission offset leaves two of its three bytes, and the reader wants three.
pub read-write_transmission_offset :
    (n : ℤ)
    → negsuc (2 ^ 23 - 1) ≤ℤ n
    → n ≤ℤ pos (2 ^ 23 - 1)
    → (a b : ℕ) × (write_transmission_offset n ≡ ok (a ∷ b ∷ []))
      × (read_transmission_offset (a ∷ b ∷ []) ≡ raise struct_error)
unfolding write_transmission_offset read_transmission_offset be32
read-write_transmission_offset (pos n) l h =
    let w : ℕ = n * 2 ^ 8 in (w / 2 ^ 24, w / 2 ^ 16 % 2 ^ 8, ground arith, refl)
read-write_transmission_offset (negsuc n) l h =
    let w : ℕ = 2 ^ 32 - 1 - ((n + 1) * 2 ^ 8 - 1) in
    (w / 2 ^ 24, w / 2 ^ 16 % 2 ^ 8, ground arith, refl)
