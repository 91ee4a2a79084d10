-- ===== src/Rtp/ExtensionsMap/RoundTrip.antt =====
-- transport/rtp.py: `HeaderExtensionsMap.get` reads what `HeaderExtensionsMap.set` wrote.
use pure_webrtc_transport.Base.{
  ℕ, ◌^◌, ◌<◌, ◌≡◌, refl, ◌%◌, Option, none, some, [], length, arith, append-nil, inl, inr,
  Option-cases,
}
use pure_webrtc_transport.Base.Int.{ℤ}
use pure_webrtc_transport.Base.Result.{ok}
use pure_webrtc_transport.Struct.{Bytes}
use pure_webrtc_transport.Rtp.Extensions.RoundTrip.{unpack-pack_header_extensions}
use pure_webrtc_transport.Rtp.ExtensionsMap.{
  HeaderExtensions, ExtensionIds, no_extensions, get_loop, get, entry, set_list, set,
  write_transmission_offset,
}
use pure_webrtc_transport.Rtp.ExtensionsMap.Entries.{
  IsConfigured, IsWritable, seen, visible, Enters, Enters-join, mid_entry, repaired_entry,
  stream_entry, send_time_entry, level_entry, sequence_entry,
}

module _ (ids : ExtensionIds) (c : IsConfigured ids) where
  -- No transmission offset is written where the value has none.
  offset_entry :
      (v : HeaderExtensions) (value : Option ℤ)
      → value ≡ none
      → Enters ids c 1 (entry ids.transmission_offset value write_transmission_offset) v v
  unfolding entry
  offset_entry v value e = rw e (elim (Option-cases ids.transmission_offset) [
    | inl f ↦ rw f ([], omega arith, refl, tt, λ rest. refl)
    | inr (i, f) ↦ rw f ([], omega arith, refl, tt, λ rest. refl)
  ])

  seen-none {ℓ} :
      {A : Type ℓ} (id : Option ℕ) {value : Option A} → value ≡ none → seen id value ≡ none
  seen-none none e = refl
  seen-none (some i) e = ground arith

  set_list_lem :
      (values : HeaderExtensions)
      → IsWritable values
      → values.transmission_offset ≡ none
      → Enters ids c 7 (set_list ids values) no_extensions (visible ids values)
  unfolding set_list
  set_list_lem values w e =
      let v₁ = record no_extensions { mid = seen ids.mid values.mid } in
      let v₂ = record v₁ {
        repaired_rtp_stream_id = seen ids.repaired_rtp_stream_id values.repaired_rtp_stream_id;
      } in
      let v₃ = record v₂ { rtp_stream_id = seen ids.rtp_stream_id values.rtp_stream_id } in
      let v₄ = record v₃ { abs_send_time = seen ids.abs_send_time values.abs_send_time } in
      let v₅ = record v₄ { audio_level = seen ids.audio_level values.audio_level } in
      let v = visible ids values in
      Enters-join ids c 1 6 no_extensions v₁ v (mid_entry ids c no_extensions values.mid w.mid) (
        Enters-join ids c 1 5 v₁ v₂ v
          (repaired_entry ids c v₁ values.repaired_rtp_stream_id w.repaired)
          (Enters-join ids c 1 4 v₂ v₃ v (stream_entry ids c v₂ values.rtp_stream_id w.stream) (
            Enters-join ids c 1 3 v₃ v₄ v
              (send_time_entry ids c v₃ values.abs_send_time w.send_time)
              (Enters-join ids c 1 2 v₄ v₄ v (offset_entry v₄ values.transmission_offset e) (
                Enters-join ids c 1 1 v₄ v₅ v (level_entry ids c v₄ values.audio_level w.level) (
                  rw (seen-none ids.transmission_offset e)
                    (sequence_entry ids c v₅ values.transport_sequence_number w.sequence)))))))

-- For ids that fit a byte and differ, and values that fit their bytes (a text has at most 63 code
-- points) with no transmission offset among them, `set` succeeds, and `get` of what it wrote returns every value whose extension has an
-- id other than 0, and none of the others. The bytes are whole words, fewer than 2^16 of them, and the
-- profile fits 16 bits.
pub get-set :
    (ids : ExtensionIds) (values : HeaderExtensions)
    → IsConfigured ids
    → IsWritable values
    → values.transmission_offset ≡ none
    → (profile : ℕ) × (bytes : Bytes) × (set ids values ≡ ok (profile, bytes))
      × (length bytes % 4 ≡ 0)
      × (length bytes < 2 ^ 18)
      × (profile < 2 ^ 16)
      × (get ids profile bytes ≡ ok (visible ids values))
unfolding set get get_loop
get-set ids values c w none_offset =
    let (xs, few, written, valid, read) = set_list_lem ids c values w none_offset in
    let (profile, bytes, packed, words, size, short, unpacked) =
      unpack-pack_header_extensions xs valid in
    (
      profile,
      bytes,
      rw (written, packed),
      words,
      omega arith,
      short,
      rw unpacked (rw append-nil at (read [])),
    )
