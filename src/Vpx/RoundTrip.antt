-- ===== src/Vpx/RoundTrip.antt =====
-- content/vpx.py: descriptors as RFC 7741 lays them out are read back.
use pure_webrtc_transport.Base.{
  ℕ, ◌+◌, ◌*◌, ◌/◌, ◌%◌, ◌^◌, ◌<◌, ◌≡◌, refl, Bool, true, false, Option, none, some, [], ◌∷◌, ◌++◌,
  ◌==◌, ==_iff, arith, append_assoc, not, ◌&&◌,
}
use pure_webrtc_transport.Base.Bits.{shr, low_bits, bit}
use pure_webrtc_transport.Base.Result.{ok}
use pure_webrtc_transport.Struct.{Bytes}
use pure_webrtc_transport.Vpx.{
  Vp8PayloadDescriptor, read_picture_id, read_tl0picidx, read_t_k, read_extended, parse_vp8,
  byte_at, read_vp9_picture_id, parse_vp9,
}

-- The descriptor's fields, and a picture id in one byte or in two.
abbrev pub Below : ℕ → Option ℕ → Type 0
Below n none = Unit {0}
Below n (some m) = m < n

abbrev pub present {ℓ} : {A : Type ℓ} → Option A → ℕ
present none = 0
present (some a) = 1

abbrev pub TidBelow : Option (ℕ × ℕ) → Type 0
TidBelow none = Unit {0}
TidBelow (some (t, y)) = (t < 4) × (y < 2)

pub record IsDescriptor (d : Vp8PayloadDescriptor) : Type 0 where
  pub start : d.partition_start < 2
  pub partition : d.partition_id < 16
  pub picture : Below (2 ^ 15) d.picture_id
  pub tl0 : Below 256 d.tl0picidx
  pub tid : TidBelow d.tid
  pub key : Below 32 d.keyidx

-- The two-byte form of the picture id, for every id.
abbrev pub write_picture_id : Option ℕ → Bytes
write_picture_id none = []
write_picture_id (some n) = (128 + n / 2 ^ 8) ∷ (n % 2 ^ 8) ∷ []

abbrev pub write_tl0picidx : Option ℕ → Bytes
write_tl0picidx none = []
write_tl0picidx (some n) = n ∷ []

abbrev pub write_t_k : Option (ℕ × ℕ) → Option ℕ → Bytes
write_t_k none none = []
write_t_k none (some k) = k ∷ []
write_t_k (some (t, y)) none = (t * 2 ^ 6 + y * 2 ^ 5) ∷ []
write_t_k (some (t, y)) (some k) = (t * 2 ^ 6 + y * 2 ^ 5 + k) ∷ []

unfoldable pub write_vp8 : Vp8PayloadDescriptor → Bytes
write_vp8 d =
    (128 + d.partition_start * 2 ^ 4 + d.partition_id)
    ∷ (present d.picture_id * 2 ^ 7
        + present d.tl0picidx * 2 ^ 6
        + present d.tid * 2 ^ 5
        + present d.keyidx * 2 ^ 4)
    ∷ (write_picture_id d.picture_id ++ (write_tl0picidx d.tl0picidx ++ write_t_k d.tid d.keyidx))

flag_of {ℓ} : {A : Type ℓ} → Option A → Bool
flag_of none = false
flag_of (some a) = true

picture_id_lem :
    (o : Option ℕ) (rest : Bytes)
    → Below (2 ^ 15) o
    → read_picture_id (flag_of o) (write_picture_id o ++ rest) ≡ ok (o, rest)
unfolding read_picture_id flag_of
picture_id_lem none rest h = refl
picture_id_lem (some n) rest h =
    let long : (bit (128 + n / 2 ^ 8) 7 == 1) ≡ true = (==_iff _ 1).1 (omega arith) in
    let same : ((128 + n / 2 ^ 8) * 2 ^ 8 + n % 2 ^ 8) % 2 ^ 15 ≡ n = omega arith in
    rw (long, same) refl

tl0picidx_lem :
    (o : Option ℕ) (rest : Bytes)
    → read_tl0picidx (flag_of o) (write_tl0picidx o ++ rest) ≡ ok (o, rest)
unfolding read_tl0picidx flag_of
tl0picidx_lem none rest = refl
tl0picidx_lem (some n) rest = refl

t_k_lem :
    (t : Option (ℕ × ℕ)) (k : Option ℕ) (rest : Bytes)
    → TidBelow t
    → Below 32 k
    → read_t_k (flag_of t) (flag_of k) (write_t_k t k ++ rest) ≡ ok ((t, k), rest)
unfolding read_t_k flag_of
t_k_lem none none rest h b = refl
t_k_lem none (some k) rest h b = let low : k % 2 ^ 5 ≡ k = omega arith in rw low refl
t_k_lem (some (t, y)) none rest (h, g) b =
    let n : ℕ = t * 2 ^ 6 + y * 2 ^ 5 in
    let tid : n / 2 ^ 6 % 2 ^ 2 ≡ t = omega arith in
    let sync : n / 2 ^ 5 % 2 ≡ y = omega arith in rw (tid, sync) refl
t_k_lem (some (t, y)) (some k) rest (h, g) b =
    let n : ℕ = t * 2 ^ 6 + y * 2 ^ 5 + k in
    let tid : n / 2 ^ 6 % 2 ^ 2 ≡ t = omega arith in
    let sync : n / 2 ^ 5 % 2 ≡ y = omega arith in
    let low : n % 2 ^ 5 ≡ k = omega arith in rw (tid, sync, low) refl

-- The four bits say which fields there are.
bits_lem {ℓ κ} :
    {A : Type ℓ} {B : Type κ} (i l : Option A) (t : Option B) (k : Option A)
    → let o : ℕ = present i * 2 ^ 7 + present l * 2 ^ 6 + present t * 2 ^ 5 + present k * 2 ^ 4 in
      ((bit o 7 == 1) ≡ flag_of i)
      × ((bit o 6 == 1) ≡ flag_of l)
      × ((bit o 5 == 1) ≡ flag_of t)
      × ((bit o 4 == 1) ≡ flag_of k)
unfolding flag_of
bits_lem none none none none = (refl, refl, refl, refl)
bits_lem none none none (some k) = (refl, refl, refl, refl)
bits_lem none none (some t) none = (refl, refl, refl, refl)
bits_lem none none (some t) (some k) = (refl, refl, refl, refl)
bits_lem none (some l) none none = (refl, refl, refl, refl)
bits_lem none (some l) none (some k) = (refl, refl, refl, refl)
bits_lem none (some l) (some t) none = (refl, refl, refl, refl)
bits_lem none (some l) (some t) (some k) = (refl, refl, refl, refl)
bits_lem (some i) none none none = (refl, refl, refl, refl)
bits_lem (some i) none none (some k) = (refl, refl, refl, refl)
bits_lem (some i) none (some t) none = (refl, refl, refl, refl)
bits_lem (some i) none (some t) (some k) = (refl, refl, refl, refl)
bits_lem (some i) (some l) none none = (refl, refl, refl, refl)
bits_lem (some i) (some l) none (some k) = (refl, refl, refl, refl)
bits_lem (some i) (some l) (some t) none = (refl, refl, refl, refl)
bits_lem (some i) (some l) (some t) (some k) = (refl, refl, refl, refl)

-- A VP8 descriptor whose fields fit their bits, laid out with its extension octet and a picture id of
-- two bytes in front of a payload, is read back by `Vp8PayloadDescriptor.parse`, which returns the
-- payload with it, whichever of the optional fields are present.
pub parse_vp8-write_vp8 :
    (d : Vp8PayloadDescriptor) (payload : Bytes)
    → IsDescriptor d
    → parse_vp8 (write_vp8 d ++ payload) ≡ ok (d, payload)
unfolding parse_vp8 write_vp8 read_extended
parse_vp8-write_vp8 d payload v =
    let first : ℕ = 128 + d.partition_start * 2 ^ 4 + d.partition_id in
    let extended : (shr first 7 == 0) ≡ false = unset first (omega (arith, v.start, v.partition)) in
    let start : bit first 4 ≡ d.partition_start = omega (arith, v.start, v.partition) in
    let pid : low_bits first 4 ≡ d.partition_id = omega (arith, v.start, v.partition) in
    let (i, l, t, k) = bits_lem d.picture_id d.tl0picidx d.tid d.keyidx in
    let tail : Bytes = write_t_k d.tid d.keyidx in
    rw
      (
        extended,
        start,
        pid,
        i,
        l,
        t,
        k,
        append_assoc (write_picture_id d.picture_id) (write_tl0picidx d.tl0picidx ++ tail) payload,
        append_assoc (write_tl0picidx d.tl0picidx) tail payload,
        picture_id_lem d.picture_id (write_tl0picidx d.tl0picidx ++ (tail ++ payload)) v.picture,
        tl0picidx_lem d.tl0picidx (tail ++ payload),
        t_k_lem d.tid d.keyidx payload v.tid v.key,
      )
      refl
  where
    unset : (n : ℕ) → shr n 7 ≡ 1 → (shr n 7 == 0) ≡ false
    unset n h = rw h refl

-- A VP9 descriptor that announces a picture id and layer indices (the bits I and L), with the id in
-- two bytes: `Vp9PayloadDescriptor.parse` returns the id and both indices, and the packet starts a
-- keyframe when bit P is not set, bit B is, and the spatial layer is 0.
pub parse_vp9_lem :
    (d n t u s l : ℕ) (rest : Bytes)
    → bit d 7 ≡ 1
    → bit d 5 ≡ 1
    → n < 2 ^ 15
    → t < 8
    → u < 2
    → s < 8
    → l < 2
    → parse_vp9 (d ∷ (128 + n / 2 ^ 8) ∷ (n % 2 ^ 8) ∷ (t * 2 ^ 5 + u * 2 ^ 4 + s * 2 + l) ∷ rest)
      ≡ ok (record {
        picture_id = some n;
        tid = some t;
        sid = some s;
        keyframe = not (bit d 6 == 1) && (bit d 3 == 1 && s == 0);
      })
unfolding parse_vp9 read_vp9_picture_id byte_at
parse_vp9_lem d n t u s l rest i e hn ht hu hs hl =
    let a : ℕ = t * 2 ^ 5 + u * 2 ^ 4 + s * 2 + l in
    let long : bit (128 + n / 2 ^ 8) 7 ≡ 1 = omega arith in
    let same : (128 + n / 2 ^ 8) % 2 ^ 7 * 2 ^ 8 + n % 2 ^ 8 ≡ n = omega arith in
    let tid : a / 2 ^ 5 % 2 ^ 3 ≡ t = omega arith in
    let sid : a / 2 ^ 1 % 2 ^ 3 ≡ s = omega arith in rw (i, e, long, same, tid, sid) refl
