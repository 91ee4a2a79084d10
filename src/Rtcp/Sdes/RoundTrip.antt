-- ===== src/Rtcp/Sdes/RoundTrip.antt =====
-- transport/rtp.py: source descriptions are read back from their bytes.
use pure_webrtc_transport.Base.{
  ℕ, zero, suc, ◌+◌, ◌-◌, ◌%◌, ◌^◌, ◌≤◌, ◌<◌, ◌≡◌, refl, sym, ◌∙◌, true, false, List, [], ◌∷◌, ◌++◌,
  length, length-append, take-append, drop-append, arith, All, append_assoc, append-nil, leb, ◌==◌,
  Bool-cases, ==_iff, le→leb, inl, inr,
}
use pure_webrtc_transport.Base.Result.{ok}
use pure_webrtc_transport.Struct.{Bytes, be32}
use pure_webrtc_transport.Struct.Laws.{pack_b_lem, pack_l_lem, read_l-be32, length-be32}
use pure_webrtc_transport.Rtcp.Types.{RtcpSourceInfo}
use pure_webrtc_transport.Rtcp.Sdes.{
  write_items, write_chunks, pad_loop, write_sdes, read_items, read_chunks,
}

-- An item's type is not 0, and its value has fewer than 256 bytes.
abbrev pub IsItem : ℕ × Bytes → Type 0
IsItem (d_type, d_value) = (0 < d_type) × (d_type < 256) × (length d_value < 256)

pub record IsSource (s : RtcpSourceInfo) : Type 0 where
  pub ssrc : s.ssrc < 2 ^ 32
  pub items : All IsItem s.items

-- The bytes of the items, and of the chunks before padding.
unfoldable pub items_size : List (ℕ × Bytes) → ℕ
items_size [] = 0
items_size ((d_type, d_value) ∷ items) = 2 + length d_value + items_size items

unfoldable pub chunks_size : List RtcpSourceInfo → ℕ
unfolding items_size
chunks_size [] = 0
chunks_size (s ∷ chunks) = 6 + items_size s.items + chunks_size chunks

read_items_step :
    (fuel t : ℕ) (v tail : Bytes) {items : List (ℕ × Bytes)} {rest : Bytes}
    → 0 < t
    → read_items fuel tail ≡ ok (items, rest)
    → read_items (suc fuel) (t ∷ length v ∷ (v ++ tail)) ≡ ok ((t, v) ∷ items, rest)
unfolding read_items
read_items_step fuel t v tail p e =
    let fits = le→leb (length v) (length (v ++ tail)) (omega (arith, length-append v tail)) in
    let real : (t == 0) ≡ false = ground arith in
    rw (fits, real, take-append v tail, drop-append v tail, e)

items_lem :
    (items : List (ℕ × Bytes))
    → All IsItem items
    → (bytes : Bytes) × (write_items items ≡ ok bytes)
      × (length bytes ≡ items_size items)
      × ((rest : Bytes) (fuel : ℕ)
          → length bytes < fuel
          → read_items fuel (bytes ++ (0 ∷ 0 ∷ rest)) ≡ ok (items, rest))
unfolding write_items items_size
items_lem [] h = ([], refl, refl, λ rest fuel. last fuel rest)
  where
    last : (fuel : ℕ) (rest : Bytes) → 0 < fuel → read_items fuel (0 ∷ 0 ∷ rest) ≡ ok ([], rest)
    last zero rest h = absurd (omega arith)
    last (suc fuel) rest h =
        let fits : leb 0 (length rest) ≡ true = le→leb 0 (length rest) (omega arith) in
        unfold read_items in rw fits
items_lem ((t, v) ∷ items) ((p, q, r), hs) =
    let (bytes, written, size, read) = items_lem items hs in
    (
      t ∷ length v ∷ (v ++ bytes),
      rw (pack_b_lem t q, pack_b_lem (length v) r, written),
      omega (arith, length-append v bytes, size),
      λ rest fuel. next bytes rest fuel read,
    )
  where
    next :
        (bytes rest : Bytes) (fuel : ℕ)
        → ((rest : Bytes) (fuel : ℕ)
            → length bytes < fuel
            → read_items fuel (bytes ++ (0 ∷ 0 ∷ rest)) ≡ ok (items, rest))
        → suc (suc (length (v ++ bytes))) < fuel
        → read_items fuel (t ∷ length v ∷ ((v ++ bytes) ++ (0 ∷ 0 ∷ rest)))
          ≡ ok ((t, v) ∷ items, rest)
    next bytes rest zero read le = absurd (omega arith)
    next bytes rest (suc fuel) read le = rw (append_assoc v bytes (0 ∷ 0 ∷ rest)) (
        read_items_step fuel t v (bytes ++ (0 ∷ 0 ∷ rest)) p
          (read rest fuel (omega (arith, length-append v bytes))))

-- The chunks are read whatever follows them: padding is not looked at.
chunks_lem :
    (chunks : List RtcpSourceInfo)
    → All IsSource chunks
    → (bytes : Bytes) × (write_chunks chunks ≡ ok bytes)
      × (length bytes ≡ chunks_size chunks)
      × ((rest : Bytes) → read_chunks (length chunks) (bytes ++ rest) ≡ ok chunks)
unfolding write_chunks read_chunks chunks_size
chunks_lem [] h = ([], refl, refl, λ rest. refl)
chunks_lem (s ∷ chunks) (h, hs) =
    let (items, written, size, read) = items_lem s.items h.items in
    let (others, written', size', read') = chunks_lem chunks hs in
    let head = be32 s.ssrc in
    (
      head ++ (items ++ (0 ∷ 0 ∷ others)),
      rw (pack_l_lem s.ssrc h.ssrc, written, written'),
      omega (
        arith,
        length-append head (items ++ (0 ∷ 0 ∷ others)),
        length-append items (0 ∷ 0 ∷ others),
        length-be32 s.ssrc,
        size,
        size',
      ),
      λ rest.
          let tail = 0 ∷ 0 ∷ (others ++ rest) in
          let room =
            le→leb 4 (length (head ++ (items ++ tail)))
              (omega (arith, length-append head (items ++ tail), length-be32 s.ssrc)) in
          rw
            (
              append_assoc head (items ++ (0 ∷ 0 ∷ others)) rest,
              append_assoc items (0 ∷ 0 ∷ others) rest,
            )
            (rw (
              room,
              read_l-be32 s.ssrc (items ++ tail),
              read (others ++ rest) (length (items ++ tail))
                  (omega (arith, length-append items tail)),
              read' rest,
            )),
    )

-- Three rounds of padding reach a multiple of four.
pad_loop_lem :
    (rounds : ℕ) (payload : Bytes)
    → (4 - length payload % 4) % 4 ≤ rounds
    → (zeros : Bytes) × (pad_loop rounds payload ≡ payload ++ zeros)
      × (length (payload ++ zeros) % 4 ≡ 0)
      × (length zeros ≤ rounds)
unfolding pad_loop
pad_loop_lem zero payload h =
    ([], sym (append-nil payload), rw append-nil (omega arith), omega arith)
pad_loop_lem (suc rounds) payload h = elim (Bool-cases (length payload % 4 == 0)) [
  | inl e ↦ ([], rw e (sym (append-nil payload)), rw append-nil ((==_iff _ 0).0 e), omega arith)
  | inr e ↦
      let short : (4 - length (payload ++ (0 ∷ [])) % 4) % 4 ≤ rounds =
        ground (arith, length-append payload (0 ∷ [])) in
      let (zeros, padded, words, few) = pad_loop_lem rounds (payload ++ (0 ∷ [])) short in
      let more = append_assoc payload (0 ∷ []) zeros in
      (0 ∷ zeros, rw e (padded ∙ more), rw more at words, omega (arith, few))
]

-- Source descriptions with 32-bit SSRCs, whose items have a type from 1 to 255 and fewer than 256
-- bytes, are written in whole 32-bit words, at most three bytes more than the chunks take, and
-- reading as many chunks as were written gives them back.
pub sdes_lem :
    (chunks : List RtcpSourceInfo)
    → All IsSource chunks
    → (bytes : Bytes) × (write_sdes chunks ≡ ok bytes)
      × (length bytes % 4 ≡ 0)
      × (length bytes ≤ chunks_size chunks + 3)
      × (read_chunks (length chunks) bytes ≡ ok chunks)
unfolding write_sdes
sdes_lem chunks h =
    let (payload, written, size, read) = chunks_lem chunks h in
    let (zeros, padded, words, few) = pad_loop_lem 3 payload (omega arith) in
    (
      payload ++ zeros,
      rw (written, padded),
      words,
      omega (arith, length-append payload zeros, size, few),
      read zeros,
    )
