-- ===== src/Rtp/Packet/Parse.antt =====
-- transport/rtp.py: the parts of an RTP packet, each read back from what `serialize` wrote.
use pure_webrtc_transport.Base.{
  ℕ, zero, suc, ◌-◌, ◌*◌, ◌/◌, ◌%◌, ◌^◌, ◌≤◌, ◌<◌, ◌≡◌, refl, true, false, not, List, [], ◌∷◌, ◌++◌,
  length, length-append, take-append, drop-append, arith, All, append_assoc, append-nil, ltb, leb,
  ◌==◌,
}
use pure_webrtc_transport.Base.Result.{ok}
use pure_webrtc_transport.Struct.{Bytes, be16, be32}
use pure_webrtc_transport.Struct.Laws.{
  pack_h_lem, pack_l_lem, read_h-be16, read_l-be32, length-be16, length-be32,
}
use pure_webrtc_transport.Rtp.ExtensionsMap.{HeaderExtensions, ExtensionIds, no_extensions, get}
use pure_webrtc_transport.Rtp.Packet.{
  read_numbers, last, parse_extension, parse_payload, flag, is_empty, pack_numbers, pack_extension,
  pack_padding,
}

pub read_numbers-pack_numbers :
    (ns : List ℕ)
    → All (λ n. n < 2 ^ 32) ns
    → (bytes : Bytes) × (pack_numbers ns ≡ ok bytes)
      × (length bytes ≡ 4 * length ns)
      × ((rest : Bytes) → read_numbers (length ns) (bytes ++ rest) ≡ ok (ns, rest))
unfolding read_numbers pack_numbers
read_numbers-pack_numbers [] h = ([], refl, refl, λ rest. refl)
read_numbers-pack_numbers (n ∷ ns) (h, hs) =
    let (bytes, written, size, read) = read_numbers-pack_numbers ns hs in
    (
      be32 n ++ bytes,
      rw (pack_l_lem n h, written),
      omega (arith, length-append (be32 n) bytes, length-be32 n),
      λ rest. rw (append_assoc (be32 n) bytes rest, read_l-be32 n (bytes ++ rest), read rest),
    )

get_nothing : (ids : ExtensionIds) (profile : ℕ) → get ids profile [] ≡ ok no_extensions
unfolding get
get_nothing ids profile = ground arith

pub le→leb : (a b : ℕ) → a ≤ b → leb a b ≡ true
le→leb a b h = ground arith

parse_extension_lem :
    (ids : ExtensionIds) (profile words : ℕ) (value rest : Bytes) {v : HeaderExtensions}
    → words * 4 ≡ length value
    → get ids profile value ≡ ok v
    → parse_extension ids 1 (be16 profile ++ (be16 words ++ (value ++ rest))) ≡ ok (v, rest)
unfolding parse_extension
parse_extension_lem ids profile words value rest e g =
    let whole = be16 words ++ (value ++ rest) in
    let room : leb 4 (length (be16 profile ++ whole)) ≡ true = le→leb _ _ (
      omega (
        arith,
        length-append (be16 profile) whole,
        length-append (be16 words) (value ++ rest),
        length-be16 profile,
        length-be16 words,
      )) in
    let fits : leb (length value) (length (value ++ rest)) ≡ true =
      le→leb _ _ (omega (arith, length-append value rest)) in
    rw (
      room,
      read_h-be16 profile whole,
      read_h-be16 words (value ++ rest),
      e,
      fits,
      take-append value rest,
      drop-append value rest,
      g,
    )

pub parse-pack_extension :
    (ids : ExtensionIds) (profile : ℕ) (value : Bytes) {v : HeaderExtensions}
    → profile < 2 ^ 16
    → length value % 4 ≡ 0
    → length value < 2 ^ 18
    → get ids profile value ≡ ok v
    → (bytes : Bytes) × (pack_extension profile value ≡ ok bytes)
      × ((rest : Bytes)
          → parse_extension ids (flag (not (is_empty value))) (bytes ++ rest) ≡ ok (v, rest))
unfolding parse_extension pack_extension
parse-pack_extension ids profile [] hp hw hs e = ([], refl, λ rest. cc (get_nothing ids profile))
parse-pack_extension ids profile (b ∷ value) hp hw hs e =
    let all : Bytes = b ∷ value in
    let words : length all / 2 ^ 2 * 4 ≡ length all = omega arith in
    (
      be16 profile ++ (be16 (length all / 2 ^ 2) ++ all),
      rw (pack_h_lem profile hp, pack_h_lem (length all / 2 ^ 2) (omega arith)),
      λ rest.
          rw
            (
              append_assoc (be16 profile) (be16 (length all / 2 ^ 2) ++ all) rest,
              append_assoc (be16 (length all / 2 ^ 2)) all rest,
            )
            (parse_extension_lem ids profile (length all / 2 ^ 2) all rest words e),
    )

last-append : (front bytes : Bytes) (n : ℕ) → last (front ++ (bytes ++ (n ∷ []))) ≡ n
last-append [] [] n = refl
last-append [] (b ∷ []) n = refl
last-append [] (b ∷ c ∷ bytes) n = last-append [] (c ∷ bytes) n
last-append (a ∷ []) [] n = refl
last-append (a ∷ []) (b ∷ bytes) n = last-append [] (b ∷ bytes) n
last-append (a ∷ c ∷ front) bytes n = last-append (c ∷ front) bytes n

pub parse-pack_padding :
    (random : ℕ → Bytes) (padding_size : ℕ) (payload : Bytes)
    → ((n : ℕ) → length (random n) ≡ n)
    → padding_size < 256
    → (bytes : Bytes) × (pack_padding random padding_size ≡ ok bytes)
      × ((front : Bytes)
          → parse_payload
              (flag (ltb 0 padding_size))
              (front ++ (payload ++ bytes))
              (payload ++ bytes)
            ≡ ok (padding_size, payload))
unfolding parse_payload pack_padding
parse-pack_padding random zero payload hr h = ([], refl, λ front. rw append-nil)
parse-pack_padding random (suc n) payload hr h =
    let tail : Bytes = random n ++ (suc n ∷ []) in
    let end : (front : Bytes) → last (front ++ (payload ++ tail)) ≡ suc n = λ front.
      rw (← append_assoc payload (random n) (suc n ∷ []))
        (last-append front (payload ++ random n) (suc n)) in
    let size : length tail ≡ suc n = omega (arith, length-append (random n) (suc n ∷ []), hr n) in
    let size' : length (payload ++ tail) - suc n ≡ length payload =
      omega (arith, length-append payload tail, size) in
    let fits : leb (suc n) (length (payload ++ tail)) ≡ true =
      le→leb _ _ (omega (arith, length-append payload tail, size)) in
    let some_padding : ltb 0 (suc n) ≡ true = ground arith in
    let some_size : (suc n == 0) ≡ false = ground arith in
    (
      tail,
      ground arith,
      λ front. rw (some_padding, end front, fits, size', some_size) (rw (take-append payload tail)),
    )
