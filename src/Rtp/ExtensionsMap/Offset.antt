-- ===== src/Rtp/ExtensionsMap/Offset.antt =====
-- transport/rtp.py: a transmission offset that `HeaderExtensionsMap.set` wrote is refused by
-- `HeaderExtensionsMap.get`, since the slice `[0:2]` keeps two of the three bytes that `get` reads.
use pure_webrtc_transport.Base.{
  ℕ, ◌^◌, ◌-◌, ◌≡◌, ◌≢◌, ◌∙◌, some, List, [], ◌∷◌, ◌++◌, arith, All, All-append, append-nil,
  append_assoc, ◌==◌, false,
}
use pure_webrtc_transport.Base.Int.{ℤ, pos, negsuc, ◌≤ℤ◌}
use pure_webrtc_transport.Base.Result.{Result, ok, raise, struct_error}
use pure_webrtc_transport.Struct.{Bytes}
use pure_webrtc_transport.Rtp.Extensions.{Extension}
use pure_webrtc_transport.Rtp.Extensions.RoundTrip.{IsExtension, unpack-pack_header_extensions}
use pure_webrtc_transport.Rtp.ExtensionsMap.{
  HeaderExtensions, ExtensionIds, no_extensions, get_one, get_loop, get, entry, join, set_list, set,
  write_transmission_offset,
}
use pure_webrtc_transport.Rtp.ExtensionsMap.Values.{read-write_transmission_offset}
use pure_webrtc_transport.Rtp.ExtensionsMap.Entries.{
  IsConfigured, IsWritable, Enters, Enters-join, is_id_self, is_id_other, mid_entry, repaired_entry,
  stream_entry, send_time_entry, level_entry, sequence_entry, seen,
}

module _ (ids : ExtensionIds) (c : IsConfigured ids) where
  -- The entry is written, and the reader stops at it.
  abbrev Fails : Result (List Extension) → HeaderExtensions → Type 0
  Fails written before =
      (xs : List Extension) × (written ≡ ok xs)
      × All IsExtension xs
      × ((rest : List Extension) → get_loop ids before (xs ++ rest) ≡ raise struct_error)

  join-Fails :
      (k : ℕ) (a b : HeaderExtensions) {m n : Result (List Extension)}
      → Enters ids c k m a b
      → Fails n b
      → Fails (join m n) a
  unfolding join
  join-Fails k a b (xs, p, e, h, r) (ys, f, g, s) = (
    xs ++ ys,
    rw (e, f),
    All-append IsExtension xs ys h g,
    λ rest. rw (append_assoc xs ys rest) (r (ys ++ rest) ∙ s rest),
  )

  Fails-join :
      (k : ℕ) (a b d : HeaderExtensions) {m n : Result (List Extension)}
      → Fails m a
      → Enters ids c k n b d
      → Fails (join m n) a
  unfolding join
  Fails-join k a b d (xs, e, h, r) (ys, p, f, g, s) = (
    xs ++ ys,
    rw (e, f),
    All-append IsExtension xs ys h g,
    λ rest. rw (append_assoc xs ys rest) (r (ys ++ rest)),
  )

  offset_entry-Fails :
      (v : HeaderExtensions) (i : ℕ) (n : ℤ)
      → ids.transmission_offset ≡ some i
      → i ≢ 0
      → negsuc (2 ^ 23 - 1) ≤ℤ n
      → n ≤ℤ pos (2 ^ 23 - 1)
      → Fails (entry ids.transmission_offset (some n) write_transmission_offset) v
  offset_entry-Fails v i n e ne lo hi =
      let (a, b, written, read) = read-write_transmission_offset n lo hi in
      let set : (i == 0) ≡ false = ground arith in
      let small = rw e at c.offset in
      let d = c.offset_differs in
      (
        (i, a ∷ b ∷ []) ∷ [],
        unfold entry in rw (e, set, written),
        ((ground arith, small, omega arith), tt),
        λ rest.
            unfold get_loop get_one in
            rw (
              is_id_other i ids.mid (rw e at d.0),
              is_id_other i ids.repaired_rtp_stream_id (rw e at d.1),
              is_id_other i ids.rtp_stream_id (rw e at d.2),
              is_id_other i ids.abs_send_time (rw e at d.3),
              e,
              is_id_self i,
            ),
      )

  set_list-Fails :
      (values : HeaderExtensions) (i : ℕ) (n : ℤ)
      → IsWritable values
      → values.transmission_offset ≡ some n
      → ids.transmission_offset ≡ some i
      → i ≢ 0
      → negsuc (2 ^ 23 - 1) ≤ℤ n
      → n ≤ℤ pos (2 ^ 23 - 1)
      → Fails (set_list ids values) no_extensions
  unfolding set_list
  set_list-Fails values i n w f e ne lo hi =
      let v₁ = record no_extensions { mid = seen ids.mid values.mid } in
      let v₂ = record v₁ {
        repaired_rtp_stream_id = seen ids.repaired_rtp_stream_id values.repaired_rtp_stream_id;
      } in
      let v₃ = record v₂ { rtp_stream_id = seen ids.rtp_stream_id values.rtp_stream_id } in
      let v₄ = record v₃ { abs_send_time = seen ids.abs_send_time values.abs_send_time } in
      let v₅ = record v₄ { audio_level = seen ids.audio_level values.audio_level } in
      let v₆ = record v₅ {
        transport_sequence_number =
            seen ids.transport_sequence_number values.transport_sequence_number;
      } in
      join-Fails 1 no_extensions v₁ (mid_entry ids c no_extensions values.mid w.mid) (
        join-Fails 1 v₁ v₂ (repaired_entry ids c v₁ values.repaired_rtp_stream_id w.repaired) (
          join-Fails 1 v₂ v₃ (stream_entry ids c v₂ values.rtp_stream_id w.stream) (
            join-Fails 1 v₃ v₄ (send_time_entry ids c v₃ values.abs_send_time w.send_time) (
              Fails-join 2 v₄ v₄ v₆ (rw f (offset_entry-Fails v₄ i n e ne lo hi)) (
                Enters-join ids c 1 1 v₄ v₅ v₆ (level_entry ids c v₄ values.audio_level w.level)
                  (sequence_entry ids c v₅ values.transport_sequence_number w.sequence))))))

-- For ids that fit a byte and differ, and writable values with a transmission offset that fits 24
-- bits and whose id is not 0: `set` succeeds, and `get` of what it wrote raises struct.error.
pub get-set_transmission_offset :
    (ids : ExtensionIds) (values : HeaderExtensions) (i : ℕ) (n : ℤ)
    → IsConfigured ids
    → IsWritable values
    → values.transmission_offset ≡ some n
    → ids.transmission_offset ≡ some i
    → i ≢ 0
    → negsuc (2 ^ 23 - 1) ≤ℤ n
    → n ≤ℤ pos (2 ^ 23 - 1)
    → (profile : ℕ) × (bytes : Bytes) × (set ids values ≡ ok (profile, bytes))
      × (get ids profile bytes ≡ raise struct_error)
unfolding set get
get-set_transmission_offset ids values i n c w f e ne lo hi =
    let (xs, written, valid, read) = set_list-Fails ids c values i n w f e ne lo hi in
    let (profile, bytes, packed, words, size, short, unpacked) =
      unpack-pack_header_extensions xs valid in
    (profile, bytes, rw (written, packed), rw unpacked (rw append-nil at (read [])))
