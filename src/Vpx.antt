-- ===== src/Vpx.antt =====
-- content/vpx.py: `Vp8PayloadDescriptor` and `Vp9PayloadDescriptor`, read from the front of a payload.
-- A descriptor is at the current position, which is the bytes that are left.
pub mod RoundTrip
mod Examples
use pure_webrtc_transport.Base.{
  ℕ, ◌+◌, ◌*◌, ◌/◌, ◌%◌, ◌^◌, Bool, true, false, not, ◌&&◌, ◌||◌, Option, none, some, List, [], ◌∷◌,
  drop, ◌==◌, if◌then◌else◌,
}
use pure_webrtc_transport.Base.Bits.{shr, low_bits, bit}
use pure_webrtc_transport.Base.Result.{Result, ok, raise, ◌>>=◌, value_error, index_error}
use pure_webrtc_transport.Struct.{Bytes}

pub record Vp8PayloadDescriptor : Type 0 where
  pub partition_start : ℕ
  pub partition_id : ℕ
  pub picture_id : Option ℕ
  pub tl0picidx : Option ℕ
  pub tid : Option (ℕ × ℕ)
  pub keyidx : Option ℕ

-- `if ext_I:`
unfoldable pub read_picture_id : Bool → Bytes → Result (Option ℕ × Bytes)
read_picture_id false bytes = ok (none, bytes)
read_picture_id true [] = raise value_error
read_picture_id true (a ∷ rest) =
    if bit a 7 == 1 then read_long_picture_id a rest else ok (some a, rest)
  where
    read_long_picture_id : ℕ → Bytes → Result (Option ℕ × Bytes)
    read_long_picture_id a [] = raise value_error
    read_long_picture_id a (b ∷ rest) = ok (some (low_bits (a * 2 ^ 8 + b) 15), rest)

-- `if ext_L:`
unfoldable pub read_tl0picidx : Bool → Bytes → Result (Option ℕ × Bytes)
read_tl0picidx false bytes = ok (none, bytes)
read_tl0picidx true [] = raise value_error
read_tl0picidx true (a ∷ rest) = ok (some a, rest)

abbrev pub when {ℓ} : {A : Type ℓ} → Bool → A → Option A
when true a = some a
when false a = none

-- `if ext_T or ext_K:`
unfoldable pub read_t_k : Bool → Bool → Bytes → Result ((Option (ℕ × ℕ) × Option ℕ) × Bytes)
read_t_k false false bytes = ok ((none, none), bytes)
read_t_k true k [] = raise value_error
read_t_k false true [] = raise value_error
read_t_k true k (t_k ∷ rest) =
    ok ((some (low_bits (shr t_k 6) 2, bit t_k 5), when k (low_bits t_k 5)), rest)
read_t_k false true (t_k ∷ rest) = ok ((none, some (low_bits t_k 5)), rest)

-- The extended control bits and what they announce.
unfoldable pub read_extended :
    (partition_start partition_id : ℕ) → Bytes → Result (Vp8PayloadDescriptor × Bytes)
read_extended s pid [] = raise value_error
read_extended s pid (octet ∷ r₁) = do
  (picture_id, r₂) ← read_picture_id (bit octet 7 == 1) r₁
  (tl0picidx, r₃) ← read_tl0picidx (bit octet 6 == 1) r₂
  (t_k, r₄) ← read_t_k (bit octet 5 == 1) (bit octet 4 == 1) r₃
  ok (
    record {
      partition_start = s;
      partition_id = pid;
      picture_id = picture_id;
      tl0picidx = tl0picidx;
      tid = t_k.0;
      keyidx = t_k.1;
    },
    r₄,
  )

-- `Vp8PayloadDescriptor.parse`
unfoldable pub parse_vp8 : Bytes → Result (Vp8PayloadDescriptor × Bytes)
parse_vp8 [] = raise value_error
parse_vp8 (octet ∷ rest) =
    let s : ℕ = bit octet 4 in
    let pid : ℕ = low_bits octet 4 in
    if shr octet 7 == 0
    then ok (
      record {
        partition_start = s;
        partition_id = pid;
        picture_id = none;
        tl0picidx = none;
        tid = none;
        keyidx = none;
      },
      rest,
    )
    else read_extended s pid rest

pub record Vp9PayloadDescriptor : Type 0 where
  pub picture_id : Option ℕ
  pub tid : Option ℕ
  pub sid : Option ℕ
  pub keyframe : Bool

-- `data[offset]`
unfoldable pub byte_at : Bytes → Result ℕ
byte_at [] = raise index_error
byte_at (a ∷ rest) = ok a

-- The picture id, and the bytes from `offset` on, which is at its last byte. The test
-- `len(data) < offset` is never true, since the offset is 1.
unfoldable pub read_vp9_picture_id : Bool → Bytes → Result (Option ℕ × Bytes)
read_vp9_picture_id false bytes = ok (none, bytes)
read_vp9_picture_id true [] = raise index_error
read_vp9_picture_id true (a ∷ rest) =
    if bit a 7 == 1
    then (byte_at rest >>= λ low. ok (some (low_bits a 7 * 2 ^ 8 + low), rest))
    else ok (some (low_bits a 7), a ∷ rest)

abbrev pub is_none_or_zero : Option ℕ → Bool
is_none_or_zero none = true
is_none_or_zero (some n) = n == 0

-- `Vp9PayloadDescriptor.parse`: the offset moves on by one after the picture id, also where there is
-- none.
unfoldable pub parse_vp9 : Bytes → Result Vp9PayloadDescriptor
parse_vp9 [] = raise value_error
parse_vp9 (d ∷ rest) = do
  (picture_id, at_offset) ← read_vp9_picture_id (bit d 7 == 1) rest
  layers ←
      if bit d 5 == 1
      then (byte_at (drop 1 at_offset) >>= λ l.
          ok (some (low_bits (shr l 5) 3, low_bits (shr l 1) 3)))
      else ok none
  ok record {
    picture_id = picture_id;
    tid = first layers;
    sid = second layers;
    keyframe = not (bit d 6 == 1) && (bit d 3 == 1 && is_none_or_zero (second layers));
  }
  where
    first : Option (ℕ × ℕ) → Option ℕ
    first none = none
    first (some (t, s)) = some t

    second : Option (ℕ × ℕ) → Option ℕ
    second none = none
    second (some (t, s)) = some s
