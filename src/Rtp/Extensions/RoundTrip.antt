-- ===== src/Rtp/Extensions/RoundTrip.antt =====
-- transport/rtp.py: what `pack_header_extensions` writes, `unpack_header_extensions` reads back.
use pure_webrtc_transport.Base.{
  ℕ, zero, suc, ◌+◌, ◌-◌, ◌*◌, ◌/◌, ◌%◌, ◌^◌, ◌≤◌, ◌<◌, ◌≡◌, refl, ◌∙◌, List, [], ◌∷◌, ◌++◌, length,
  length-append, length-replicate, take-append, drop-append, replicate, arith, Bool, true, false,
  All, append_assoc, ◌⊎◌, ◌==◌, inl, inr,
}
use pure_webrtc_transport.Base.Bits.{bit_or-high_low}
use pure_webrtc_transport.Base.Result.{ok, ◌>>=◌}
use pure_webrtc_transport.Struct.{Bytes}
use pure_webrtc_transport.Struct.Laws.{pack_b_lem}
use pure_webrtc_transport.Rtp.Extensions.{
  Extension, padl, take_value, one_byte_loop, two_byte_loop, unpack_header_extensions,
  fits_one_byte, pack_one_byte, pack_two_byte, padded, pack_header_extensions,
}

-- What the assertions of the writer ask for.
abbrev pub IsExtension : Extension → Type 0
IsExtension (x_id, x_value) = (0 < x_id) × (x_id < 256) × (length x_value < 256)

-- What the one-byte form can hold.
abbrev pub IsShort : Extension → Type 0
IsShort (x_id, x_value) = (0 < x_id) × (x_id ≤ 14) × (0 < length x_value) × (length x_value ≤ 16)

take_value-append : (v rest : Bytes) → take_value (length v) (v ++ rest) ≡ ok (v, rest)
unfolding take_value
take_value-append v rest =
    ground (arith, length-append v rest, take-append v rest, drop-append v rest)

one_byte_loop-zeros : (n fuel : ℕ) → n ≤ fuel → one_byte_loop fuel (replicate n 0) ≡ ok []
unfolding one_byte_loop
one_byte_loop-zeros zero fuel h = refl
one_byte_loop-zeros (suc n) zero h = absurd (omega arith)
one_byte_loop-zeros (suc n) (suc fuel) h = one_byte_loop-zeros n fuel (omega arith)

two_byte_loop-zeros : (n fuel : ℕ) → n ≤ fuel → two_byte_loop fuel (replicate n 0) ≡ ok []
unfolding two_byte_loop
two_byte_loop-zeros zero fuel h = refl
two_byte_loop-zeros (suc n) zero h = absurd (omega arith)
two_byte_loop-zeros (suc zero) (suc fuel) h = two_byte_loop-zeros zero fuel (omega arith)
two_byte_loop-zeros (suc (suc n)) (suc fuel) h = two_byte_loop-zeros (suc n) fuel (omega arith)

-- One extension read off the front.
one_byte_loop_step :
    (fuel x_id : ℕ) (v rest : Bytes)
    → IsShort (x_id, v)
    → one_byte_loop (suc fuel) ((x_id * 16 + (length v - 1)) ∷ (v ++ rest))
      ≡ (one_byte_loop fuel rest >>= λ more. ok ((x_id, v) ∷ more))
unfolding one_byte_loop
one_byte_loop_step fuel x_id v rest (p, q, r, s) =
    let size : (x_id * 16 + (length v - 1)) % 2 ^ 4 + 1 ≡ length v = omega arith in
    let name : (x_id * 16 + (length v - 1)) / 2 ^ 4 % 2 ^ 4 ≡ x_id = omega arith in
    let more : (x_id * 16 + (length v - 1) == 0) ≡ false = ground arith in
    rw (more, size, name, take_value-append v rest)

two_byte_loop_step :
    (fuel x_id : ℕ) (v rest : Bytes)
    → 0 < x_id
    → two_byte_loop (suc fuel) (x_id ∷ length v ∷ (v ++ rest))
      ≡ (two_byte_loop fuel rest >>= λ more. ok ((x_id, v) ∷ more))
unfolding two_byte_loop
two_byte_loop_step fuel x_id v rest p =
    let more : (x_id == 0) ≡ false = ground arith in rw (more, take_value-append v rest)

abbrev short_bytes : List Extension → Bytes
short_bytes [] = []
short_bytes ((x_id, v) ∷ more) = (x_id * 16 + (length v - 1)) ∷ (v ++ short_bytes more)

abbrev long_bytes : List Extension → Bytes
long_bytes [] = []
long_bytes ((x_id, v) ∷ more) = x_id ∷ length v ∷ (v ++ long_bytes more)

pack_one_byte_lem : (xs : List Extension) → All IsShort xs → pack_one_byte xs ≡ ok (short_bytes xs)
unfolding pack_one_byte
pack_one_byte_lem [] h = refl
pack_one_byte_lem ((x_id, v) ∷ more) ((p, q, r, s), hs) = rw (
  bit_or-high_low 4 x_id (length v - 1) (omega arith),
  pack_b_lem (x_id * 2 ^ 4 + (length v - 1)) (omega arith),
  pack_one_byte_lem more hs,
)

pack_two_byte_lem :
    (xs : List Extension) → All IsExtension xs → pack_two_byte xs ≡ ok (long_bytes xs)
unfolding pack_two_byte
pack_two_byte_lem [] h = refl
pack_two_byte_lem ((x_id, v) ∷ more) ((p, q, r), hs) =
    rw (pack_b_lem x_id q, pack_b_lem (length v) r, pack_two_byte_lem more hs)

one_byte_loop-short :
    (xs : List Extension) (n fuel : ℕ)
    → All IsShort xs
    → length (short_bytes xs) + n ≤ fuel
    → one_byte_loop fuel (short_bytes xs ++ replicate n 0) ≡ ok xs
one_byte_loop-short [] n fuel h le = one_byte_loop-zeros n fuel (omega arith)
one_byte_loop-short ((x_id, v) ∷ more) n zero h le = absurd (omega arith)
one_byte_loop-short ((x_id, v) ∷ more) n (suc fuel) (h, hs) le = rw (append_assoc v) (
    one_byte_loop_step fuel x_id v (short_bytes more ++ replicate n 0) h
    ∙ rw (one_byte_loop-short more n fuel hs (omega (arith, length-append v (short_bytes more)))))

two_byte_loop-long :
    (xs : List Extension) (n fuel : ℕ)
    → All IsExtension xs
    → length (long_bytes xs) + n ≤ fuel
    → two_byte_loop fuel (long_bytes xs ++ replicate n 0) ≡ ok xs
two_byte_loop-long [] n fuel h le = two_byte_loop-zeros n fuel (omega arith)
two_byte_loop-long ((x_id, v) ∷ more) n zero h le = absurd (omega arith)
two_byte_loop-long ((x_id, v) ∷ more) n (suc fuel) (h, hs) le = rw (append_assoc v) (
    two_byte_loop_step fuel x_id v (long_bytes more ++ replicate n 0) h.0
    ∙ rw (two_byte_loop-long more n fuel hs (omega (arith, length-append v (long_bytes more)))))

-- The flag stays up only where every extension is short.
fits_one_byte_cases :
    (xs : List Extension) (one_byte : Bool)
    → All IsExtension xs
    → (fits_one_byte one_byte xs ≡ ok false)
      ⊎ ((fits_one_byte one_byte xs ≡ ok true) × All IsShort xs × (one_byte ≡ true))
unfolding fits_one_byte
fits_one_byte_cases [] true h = inr (refl, tt, refl)
fits_one_byte_cases [] false h = inl refl
fits_one_byte_cases ((x_id, v) ∷ more) one_byte ((p, q, r), hs) =
    ground (arith, fits_one_byte_cases more one_byte hs, fits_one_byte_cases more false hs)

length-padded_add : (v : Bytes) → length (padded v) ≡ length v + padl (length v)
unfolding padded
length-padded_add v =
    let zeros : Bytes = replicate (padl (length v)) 0 in
    omega (arith, length-append v zeros, length-replicate {A = ℕ} (padl (length v)) 0)

pub length-padded : (v : Bytes) → length (padded v) % 4 ≡ 0
unfolding padl
length-padded v = omega (arith, length-padded_add v)

length-short_bytes :
    (xs : List Extension) → All IsShort xs → length (short_bytes xs) ≤ 257 * length xs
length-short_bytes [] h = omega arith
length-short_bytes ((x_id, v) ∷ more) (h, hs) =
    omega (arith, length-append v (short_bytes more), length-short_bytes more hs)

length-long_bytes :
    (xs : List Extension) → All IsExtension xs → length (long_bytes xs) ≤ 257 * length xs
length-long_bytes [] h = omega arith
length-long_bytes ((x_id, v) ∷ more) (h, hs) =
    omega (arith, length-append v (long_bytes more), length-long_bytes more hs)

length-padded-le : (v : Bytes) (n : ℕ) → length v ≤ n → length (padded v) ≤ n + 3
unfolding padl
length-padded-le v n h = omega (arith, length-padded_add v)

-- Every list of extensions with ids from 1 to 255 and values below 256 bytes is packed, in a whole
-- number of 32-bit words (at most 257 bytes an extension and 3 of padding), and reading the profile and value that were written gives the list back.
pub unpack-pack_header_extensions :
    (xs : List Extension)
    → All IsExtension xs
    → (profile : ℕ) × (value : Bytes) × (pack_header_extensions xs ≡ ok (profile, value))
      × (length value % 4 ≡ 0)
      × (length value ≤ 257 * length xs + 3)
      × (profile < 2 ^ 16)
      × (unpack_header_extensions profile value ≡ ok xs)
unfolding pack_header_extensions unpack_header_extensions
unpack-pack_header_extensions [] h = (0, [], refl, refl, omega arith, omega arith, refl)
unpack-pack_header_extensions (x ∷ xs) h = elim (fits_one_byte_cases (x ∷ xs) true h) [
  | inl e ↦ (
    0x1000,
    padded (long_bytes (x ∷ xs)),
    rw (e, pack_two_byte_lem (x ∷ xs) h),
    length-padded (long_bytes (x ∷ xs)),
    length-padded-le (long_bytes (x ∷ xs)) _ (length-long_bytes (x ∷ xs) h),
    omega arith,
    two_byte_loop-long (x ∷ xs) (padl (length (long_bytes (x ∷ xs))))
        (length (padded (long_bytes (x ∷ xs)))) h
        (omega (arith, length-padded_add (long_bytes (x ∷ xs)))),
  )
  | inr (e, short, _) ↦ (
    0xbede,
    padded (short_bytes (x ∷ xs)),
    rw (e, pack_one_byte_lem (x ∷ xs) short),
    length-padded (short_bytes (x ∷ xs)),
    length-padded-le (short_bytes (x ∷ xs)) _ (length-short_bytes (x ∷ xs) short),
    omega arith,
    one_byte_loop-short (x ∷ xs) (padl (length (short_bytes (x ∷ xs))))
        (length (padded (short_bytes (x ∷ xs)))) short
        (omega (arith, length-padded_add (short_bytes (x ∷ xs)))),
  )
]
