-- ===== src/Rtcp/Twcc.antt =====
-- transport/rtp.py: transport-wide congestion control feedback (`parse_signed_bytes`, `Chunk` and its
-- subclasses, `RtcpRtpfbTwccPacket`).
-- Times are counted in quarters of a millisecond: the code adds `delta / 4` in floating point, which
-- is exact here, since the numerators stay far below 2^53.
pub mod Sound
use pure_webrtc_transport.Base.{
  ℕ, zero, suc, ◌+◌, ◌-◌, ◌*◌, ◌/◌, ◌%◌, ◌^◌, Bool, true, false, Option, none, some, List, [], ◌∷◌,
  ◌++◌, length, take, drop, replicate, ltb, leb, ◌==◌, if◌then◌else◌, min,
}
use pure_webrtc_transport.Base.Bits.{shr, low_bits, bit}
use pure_webrtc_transport.Base.Int.{ℤ, pos, negsuc, ◌+ℤ◌}
use pure_webrtc_transport.Base.Result.{Result, ok, raise, ◌>>=◌, index_error, value_error}
use pure_webrtc_transport.Struct.{Bytes, read_h}
use pure_webrtc_transport.Rtcp.Types.{TwccPacketResult}

abbrev pub negative : ℕ → ℤ
negative zero = pos 0
negative (suc n) = negsuc n

-- The byte at place `i` of `size` counts 2^(8 * (size - i - 1)).
unfoldable pub value : Bytes → ℕ
value [] = 0
value (d ∷ rest) = d * 2 ^ (8 * length rest) + value rest

-- `~x & (2^n - 1)` of an x below 2^n is 2^n - 1 - x.
unfoldable pub parse_signed_bytes : Bytes → Result ℤ
unfolding value
parse_signed_bytes [] = raise index_error
parse_signed_bytes (d ∷ rest) =
    let bits : ℕ = value (d ∷ rest) in
    let n : ℕ = 8 * length (d ∷ rest) in
    if bit d 7 == 1 then ok (negative (2 ^ n - 1 - (bits - 1))) else ok (pos bits)

pub data ChunkStatus : Type 0 where
  not_received small_delta large_delta reserved : ChunkStatus

-- `Chunk.ChunkStatus(n)` of a number of at most two bits.
unfoldable pub chunk_status : ℕ → ChunkStatus
chunk_status n =
    if n == 0
    then not_received
    else if n == 1
    then small_delta
    else if n == 2
    then large_delta
    else reserved

unfoldable pub received : ChunkStatus → Bool
received not_received = false
received small_delta = true
received large_delta = true
received reserved = false

-- `for i in range(min(14, remain))`, from `i` on.
unfoldable pub one_bit_loop : (rounds i table : ℕ) → List ChunkStatus
unfolding chunk_status
one_bit_loop zero i table = []
one_bit_loop (suc rounds) i table =
    chunk_status (bit table (14 - i - 1)) ∷ one_bit_loop rounds (suc i) table

-- `for i in range(min(7, remain))`, from `i` on.
unfoldable pub two_bit_loop : (rounds i table : ℕ) → List ChunkStatus
unfolding chunk_status
two_bit_loop zero i table = []
two_bit_loop (suc rounds) i table =
    chunk_status (low_bits (shr table (2 * (7 - i - 1))) 2) ∷ two_bit_loop rounds (suc i) table

-- `Chunk.parse` of two bytes, as the list of statuses.
unfoldable pub parse_chunk : (d₀ d₁ remain : ℕ) → List ChunkStatus
unfolding one_bit_loop two_bit_loop chunk_status
parse_chunk d₀ d₁ remain =
    let table : ℕ = low_bits d₀ 6 * 2 ^ 8 + d₁ in
    if bit d₀ 7 == 0
    then replicate (low_bits d₀ 5 * 2 ^ 8 + d₁) (chunk_status (low_bits (shr d₀ 5) 2))
    else if bit d₀ 6 == 1
    then two_bit_loop (min 7 remain) 0 table
    else one_bit_loop (min 14 remain) 0 table

-- `while count < packet_status_count and offset < content_len`: the statuses, and the bytes from the
-- offset on.
unfoldable pub read_statuses :
    (packet_status_count count : ℕ) → Bytes → Result (List ChunkStatus × Bytes)
unfolding parse_chunk
read_statuses total count [] = ok ([], [])
read_statuses total count (d₀ ∷ []) =
    if ltb count total then raise value_error else ok ([], d₀ ∷ [])
read_statuses total count (d₀ ∷ d₁ ∷ rest) =
    let statuses : List ChunkStatus = parse_chunk d₀ d₁ (total - count) in
    let next : Result (List ChunkStatus × Bytes) =
      read_statuses total (count + length statuses) rest in
    if ltb count total
    then (do (more, rest') ← next; ok (statuses ++ more, rest'))
    else ok ([], d₀ ∷ d₁ ∷ rest)

pub record TwccChunk : Type 0 where
  pub status : ChunkStatus
  pub delta : ℤ
  pub seq : ℕ

-- `for c in chunks` in the `try` block: each status gets its number and its delta.
unfoldable pub read_deltas : List ChunkStatus → (seq : ℕ) → Bytes → Result (List TwccChunk)
unfolding parse_signed_bytes
read_deltas [] seq bytes = ok []
read_deltas (not_received ∷ statuses) seq bytes = do
  chunks ← read_deltas statuses (seq + 1) bytes
  ok (record { status = not_received; delta = pos 0; seq = seq } ∷ chunks)
read_deltas (reserved ∷ statuses) seq bytes = do
  chunks ← read_deltas statuses (seq + 1) bytes
  ok (record { status = reserved; delta = pos 0; seq = seq } ∷ chunks)
read_deltas (small_delta ∷ statuses) seq [] = raise index_error
read_deltas (small_delta ∷ statuses) seq (d ∷ bytes) = do
  chunks ← read_deltas statuses (seq + 1) bytes
  ok (record { status = small_delta; delta = pos d; seq = seq } ∷ chunks)
read_deltas (large_delta ∷ statuses) seq bytes = do
  delta ← parse_signed_bytes (take 2 bytes)
  chunks ← read_deltas statuses (seq + 1) (drop 2 bytes)
  ok (record { status = large_delta; delta = delta; seq = seq } ∷ chunks)

-- `int(t)` of a time in quarters rounds towards zero.
unfoldable pub whole_ms : ℤ → ℤ
whole_ms (pos n) = pos (n / 4)
whole_ms (negsuc n) = negative (suc n / 4)

-- `for c in chunks`, the second time.
unfoldable pub results : List TwccChunk → (quarters : ℤ) → List TwccPacketResult
unfolding received whole_ms
results [] quarters = []
results (c ∷ chunks) quarters =
    let time : ℤ = quarters +ℤ c.delta in
    let on_time : List TwccPacketResult = results chunks time in
    let lost : List TwccPacketResult = results chunks quarters in
    if received c.status
    then record {
      t_seq = c.seq;
      receive_ms = whole_ms time;
      received = true;
      payload_size = none;
      send_ms = none;
    }
      ∷ on_time
    else record {
      t_seq = c.seq;
      receive_ms = pos 0;
      received = false;
      payload_size = none;
      send_ms = none;
    }
      ∷ lost

-- A time of 64 ms is 256 quarters.
abbrev pub reference_quarters : ℤ → ℤ
reference_quarters (pos n) = pos (n * 256)
reference_quarters (negsuc n) = negative (suc n * 256)

-- `feedback_packet_count = data[7]`, and the bytes behind it.
unfoldable pub content_from : Bytes → Result Bytes
content_from [] = raise index_error
content_from (feedback_packet_count ∷ content) = ok content

-- `RtcpRtpfbTwccPacket.parse`
unfoldable pub parse_twcc : Bytes → Result (List TwccPacketResult)
unfolding read_statuses read_deltas results parse_signed_bytes content_from
parse_twcc bytes = do
  (base_seq_number, r₁) ← read_h bytes
  (packet_status_count, r₂) ← read_h r₁
  reference_time ← parse_signed_bytes (take 3 r₂)
  content ← content_from (drop 3 r₂)
  (statuses, rest) ← read_statuses packet_status_count 0 content
  chunks ← read_deltas statuses base_seq_number rest
  ok (results chunks (reference_quarters reference_time))
