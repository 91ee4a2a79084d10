-- ===== src/Rtp/ExtensionsMap/Entries.antt =====
-- transport/rtp.py: each entry that `HeaderExtensionsMap.set` appends, and what
-- `HeaderExtensionsMap.get` does with it.
use pure_webrtc_transport.Base.{
  ℕ, zero, suc, ◌+◌, ◌^◌, ◌≤◌, ◌<◌, ◌≡◌, ◌≢◌, refl, ap, ◌∙◌, Bool, true, false, Option, none, some,
  List, [], ◌∷◌, ◌++◌, length, length-append, arith, All, All-append, ◌==◌, if◌then◌else◌,
  append_assoc,
}
use pure_webrtc_transport.Base.Result.{Result, ok, ◌>>=◌}
use pure_webrtc_transport.Struct.{Bytes, be16, be24, pack_h}
use pure_webrtc_transport.Text.{Str, ascii_encode, utf8_encode}
use pure_webrtc_transport.Text.RoundTrip.{
  IsAscii, IsScalar, ascii_encode_lem, ascii_decode_lem, utf8_decode-encode,
}
use pure_webrtc_transport.Rtp.Extensions.{Extension}
use pure_webrtc_transport.Rtp.Extensions.RoundTrip.{IsExtension}
use pure_webrtc_transport.Rtp.ExtensionsMap.{
  HeaderExtensions, ExtensionIds, is_id, get_one, get_loop, entry, join, write_abs_send_time,
  write_audio_level,
}
use pure_webrtc_transport.Rtp.ExtensionsMap.Values.{
  read-write_abs_send_time, read-write_transport_sequence_number, read-write_audio_level,
  audio_byte,
}

abbrev pub Holds {ℓ} : {A : Type ℓ} → (A → Type 0) → Option A → Type 0
Holds P none = Unit {0}
Holds P (some a) = P a

-- Two ids that, where both are set, differ.
abbrev pub Differ : Option ℕ → Option ℕ → Type 0
Differ none j = Unit {0}
Differ (some i) none = Unit {0}
Differ (some i) (some j) = i ≢ j

abbrev pub IsId : Option ℕ → Type 0
IsId = Holds (λ i. i < 256)

-- The ids fit a byte, and no two fields share one.
pub record IsConfigured (ids : ExtensionIds) : Type 0 where
  pub mid : IsId ids.mid
  pub repaired : IsId ids.repaired_rtp_stream_id
  pub stream : IsId ids.rtp_stream_id
  pub send_time : IsId ids.abs_send_time
  pub offset : IsId ids.transmission_offset
  pub level : IsId ids.audio_level
  pub sequence : IsId ids.transport_sequence_number
  pub repaired_differs : Differ ids.mid ids.repaired_rtp_stream_id
  pub stream_differs :
      Differ ids.mid ids.rtp_stream_id × Differ ids.repaired_rtp_stream_id ids.rtp_stream_id
  pub send_time_differs :
      Differ ids.mid ids.abs_send_time
      × Differ ids.repaired_rtp_stream_id ids.abs_send_time
      × Differ ids.rtp_stream_id ids.abs_send_time
  pub offset_differs :
      Differ ids.mid ids.transmission_offset
      × Differ ids.repaired_rtp_stream_id ids.transmission_offset
      × Differ ids.rtp_stream_id ids.transmission_offset
      × Differ ids.abs_send_time ids.transmission_offset
  pub level_differs :
      Differ ids.mid ids.audio_level
      × Differ ids.repaired_rtp_stream_id ids.audio_level
      × Differ ids.rtp_stream_id ids.audio_level
      × Differ ids.abs_send_time ids.audio_level
      × Differ ids.transmission_offset ids.audio_level
  pub sequence_differs :
      Differ ids.mid ids.transport_sequence_number
      × Differ ids.repaired_rtp_stream_id ids.transport_sequence_number
      × Differ ids.rtp_stream_id ids.transport_sequence_number
      × Differ ids.abs_send_time ids.transport_sequence_number
      × Differ ids.transmission_offset ids.transport_sequence_number
      × Differ ids.audio_level ids.transport_sequence_number

-- Text as the map can send it.
abbrev pub IsText : Str → Type 0
IsText s = All IsScalar s × (length s ≤ 63)

abbrev pub IsName : Str → Type 0
IsName s = IsAscii s × (length s ≤ 255)

-- The values fit the bytes that carry them. Text is at most 63 code points long, so that its bytes
-- fit an extension.
pub record IsWritable (values : HeaderExtensions) : Type 0 where
  pub mid : Holds IsText values.mid
  pub repaired : Holds IsName values.repaired_rtp_stream_id
  pub stream : Holds IsName values.rtp_stream_id
  pub send_time : Holds (λ n. n < 2 ^ 24) values.abs_send_time
  pub level : Holds (λ p. p.1 < 128) values.audio_level
  pub sequence : Holds (λ n. n < 2 ^ 16) values.transport_sequence_number

-- What the peer sees of a value: nothing, unless its extension was given an id other than 0.
abbrev pub seen {ℓ} : {A : Type ℓ} → Option ℕ → Option A → Option A
seen none value = none
seen (some i) value = if i == 0 then none else value

abbrev pub visible : ExtensionIds → HeaderExtensions → HeaderExtensions
visible ids values = record {
  abs_send_time = seen ids.abs_send_time values.abs_send_time;
  audio_level = seen ids.audio_level values.audio_level;
  mid = seen ids.mid values.mid;
  repaired_rtp_stream_id = seen ids.repaired_rtp_stream_id values.repaired_rtp_stream_id;
  rtp_stream_id = seen ids.rtp_stream_id values.rtp_stream_id;
  transmission_offset = seen ids.transmission_offset values.transmission_offset;
  transport_sequence_number = seen ids.transport_sequence_number values.transport_sequence_number;
}

pub is_id_self : (i : ℕ) → is_id i (some i) ≡ true
is_id_self i = ground arith

pub is_id_other : (i : ℕ) (j : Option ℕ) → Differ j (some i) → is_id i j ≡ false
is_id_other i none d = refl
is_id_other i (some j) d = ground arith

-- One field: its entry is nothing, or an extension that `get_one` reads into the field `put`.
module _ (ids : ExtensionIds) where
  entry_lem :
      {A : Type 0} (P : A → Type 0) (id : Option ℕ) (value : Option A) (write : A → Result Bytes)
      (put : Option A → HeaderExtensions)
      → Holds (λ i. i < 256) id
      → Holds P value
      → ((i : ℕ) (a : A)
          → id ≡ some i
          → P a
          → (b : Bytes) × (write a ≡ ok b)
            × (length b < 256)
            × (get_one ids (put none) (i, b) ≡ ok (put (some a))))
      → (xs : List Extension) × (length xs ≤ 1)
        × (entry id value write ≡ ok xs)
        × All IsExtension xs
        × ((rest : List Extension)
            → get_loop ids (put none) (xs ++ rest) ≡ get_loop ids (put (seen id value)) rest)
  unfolding entry get_loop
  entry_lem P none value write put h k works = ([], omega arith, refl, tt, λ rest. refl)
  entry_lem P (some i) none write put h k works = ([], omega arith, refl, tt, λ rest. ground arith)
  entry_lem P (some zero) (some a) write put h k works = ([], omega arith, refl, tt, λ rest. refl)
  entry_lem P (some (suc i)) (some a) write put h k works =
      let (b, written, short, read) = works (suc i) a refl k in
      let set : (suc i == 0) ≡ false = ground arith in
      (
        (suc i, b) ∷ [],
        omega arith,
        rw (set, written),
        ((omega arith, h, short), tt),
        λ rest. rw (read, set),
      )

-- One lemma for each field, in the order of `set`; the fields before it are already read.
module _ (ids : ExtensionIds) (c : IsConfigured ids) where
  -- What an entry does to the reader of the list.
  abbrev pub Enters : ℕ → Result (List Extension) → HeaderExtensions → HeaderExtensions → Type 0
  Enters k written before after =
      (xs : List Extension) × (length xs ≤ k)
      × (written ≡ ok xs)
      × All IsExtension xs
      × ((rest : List Extension) → get_loop ids before (xs ++ rest) ≡ get_loop ids after rest)

  pub mid_entry :
      (v : HeaderExtensions) (value : Option Str)
      → Holds IsText value
      → Enters 1
          (entry ids.mid value utf8_encode)
          (record v { mid = none })
          (record v { mid = seen ids.mid value })
  mid_entry v value h =
      entry_lem ids IsText ids.mid value utf8_encode (λ x. record v { mid = x }) c.mid h
        λ i s e (scalar, few).
          let (b, written, short, read) = utf8_decode-encode s scalar in
          (b, written, omega arith, unfold get_one in rw (e, is_id_self i, read))

  pub repaired_entry :
      (v : HeaderExtensions) (value : Option Str)
      → Holds IsName value
      → Enters 1
          (entry ids.repaired_rtp_stream_id value ascii_encode)
          (record v { repaired_rtp_stream_id = none })
          (record v { repaired_rtp_stream_id = seen ids.repaired_rtp_stream_id value })
  repaired_entry v value h =
      entry_lem ids IsName ids.repaired_rtp_stream_id value ascii_encode
        (λ x. record v { repaired_rtp_stream_id = x }) c.repaired h
        λ i s e (ascii, few). (
          s,
          ascii_encode_lem s ascii,
          omega arith,
          unfold get_one in
              rw (
                is_id_other i ids.mid (rw e at c.repaired_differs),
                e,
                is_id_self i,
                ascii_decode_lem s ascii,
              ),
        )

  pub stream_entry :
      (v : HeaderExtensions) (value : Option Str)
      → Holds IsName value
      → Enters 1
          (entry ids.rtp_stream_id value ascii_encode)
          (record v { rtp_stream_id = none })
          (record v { rtp_stream_id = seen ids.rtp_stream_id value })
  stream_entry v value h =
      entry_lem ids IsName ids.rtp_stream_id value ascii_encode
        (λ x. record v { rtp_stream_id = x }) c.stream h
        λ i s e (ascii, few). (
          s,
          ascii_encode_lem s ascii,
          omega arith,
          unfold get_one in
              rw (
                is_id_other i ids.mid (rw e at c.stream_differs.0),
                is_id_other i ids.repaired_rtp_stream_id (rw e at c.stream_differs.1),
                e,
                is_id_self i,
                ascii_decode_lem s ascii,
              ),
        )

  pub send_time_entry :
      (v : HeaderExtensions) (value : Option ℕ)
      → Holds (λ n. n < 2 ^ 24) value
      → Enters 1
          (entry ids.abs_send_time value write_abs_send_time)
          (record v { abs_send_time = none })
          (record v { abs_send_time = seen ids.abs_send_time value })
  send_time_entry v value h =
      entry_lem ids (λ n. n < 2 ^ 24) ids.abs_send_time value write_abs_send_time
        (λ x. record v { abs_send_time = x }) c.send_time h
        λ i n e fit.
          let (written, read) = read-write_abs_send_time n fit in
          (
            be24 n,
            written,
            unfold be24 in omega arith,
            unfold get_one in
                rw (
                  is_id_other i ids.mid (rw e at c.send_time_differs.0),
                  is_id_other i ids.repaired_rtp_stream_id (rw e at c.send_time_differs.1),
                  is_id_other i ids.rtp_stream_id (rw e at c.send_time_differs.2),
                  e,
                  is_id_self i,
                  read,
                ),
          )

  pub level_entry :
      (v : HeaderExtensions) (value : Option (Bool × ℕ))
      → Holds (λ p. p.1 < 128) value
      → Enters 1
          (entry ids.audio_level value write_audio_level)
          (record v { audio_level = none })
          (record v { audio_level = seen ids.audio_level value })
  level_entry v value h =
      entry_lem ids (λ p. p.1 < 128) ids.audio_level value write_audio_level
        (λ x. record v { audio_level = x }) c.level h
        λ i p e fit.
          let (written, read) = read-write_audio_level p.0 p.1 fit in
          (
            audio_byte p ∷ [],
            written,
            omega arith,
            unfold get_one in
                rw
                  (
                    is_id_other i ids.mid (rw e at c.level_differs.0),
                    is_id_other i ids.repaired_rtp_stream_id (rw e at c.level_differs.1),
                    is_id_other i ids.rtp_stream_id (rw e at c.level_differs.2),
                    is_id_other i ids.abs_send_time (rw e at c.level_differs.3),
                    is_id_other i ids.transmission_offset (rw e at c.level_differs.4),
                    e,
                    is_id_self i,
                  )
                  (ap (λ r. r >>= λ n. ok (record v { audio_level = some n })) read),
          )

  pub sequence_entry :
      (v : HeaderExtensions) (value : Option ℕ)
      → Holds (λ n. n < 2 ^ 16) value
      → Enters 1
          (entry ids.transport_sequence_number value pack_h)
          (record v { transport_sequence_number = none })
          (record v { transport_sequence_number = seen ids.transport_sequence_number value })
  sequence_entry v value h =
      entry_lem ids (λ n. n < 2 ^ 16) ids.transport_sequence_number value pack_h
        (λ x. record v { transport_sequence_number = x }) c.sequence h
        λ i n e fit.
          let (written, read) = read-write_transport_sequence_number n fit in
          (
            be16 n,
            written,
            unfold be16 in omega arith,
            unfold get_one in
                rw (
                  is_id_other i ids.mid (rw e at c.sequence_differs.0),
                  is_id_other i ids.repaired_rtp_stream_id (rw e at c.sequence_differs.1),
                  is_id_other i ids.rtp_stream_id (rw e at c.sequence_differs.2),
                  is_id_other i ids.abs_send_time (rw e at c.sequence_differs.3),
                  is_id_other i ids.transmission_offset (rw e at c.sequence_differs.4),
                  is_id_other i ids.audio_level (rw e at c.sequence_differs.5),
                  e,
                  is_id_self i,
                  read,
                ),
          )

  pub Enters-join :
      (k l : ℕ) (a b d : HeaderExtensions) {m n : Result (List Extension)}
      → Enters k m a b
      → Enters l n b d
      → Enters (k + l) (join m n) a d
  unfolding join
  Enters-join k l a b d (xs, p, e, h, r) (ys, q, f, g, s) = (
    xs ++ ys,
    omega (arith, length-append xs ys),
    rw (e, f),
    All-append IsExtension xs ys h g,
    λ rest. rw (append_assoc xs ys rest) (r (ys ++ rest) ∙ s rest),
  )
