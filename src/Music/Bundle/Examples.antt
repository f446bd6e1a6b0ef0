-- ===== src/Music/Bundle/Examples.antt =====
-- A small bundle, and a file whose sizes overflow (src/music_state_bundle_store.h).
use ayther_runtime.Prelude.{◌-◌, ◌<◌, ◌≡◌, ◌≢◌, [], ◌∷◌, arith}
use ayther_runtime.Prelude.Word.{u64_mod}
use ayther_runtime.Music.Bundle.{
  Bundle, append_word, loaded, checksum_from, checksum, framed, encode, returns, out_of_range,
  decode,
}
use ayther_runtime.Music.Bundle.RoundTrip.{decode-encode}
use ayther_runtime.Music.Bundle.Overflow.{
  decode_wrapped_sizes, size_sum, little_endian, decode_in_range,
}

abbrev bundle : Bundle
bundle = record { game_state = 1 ∷ 2 ∷ 3 ∷ []; hd_state = 255 ∷ []; pack_revision = 114 ∷ 49 ∷ [] }

decode-encode_example :
    decode (encode bundle) ≡ returns (record { status = loaded; bundle = bundle })
decode-encode_example = decode-encode bundle (omega arith) (omega arith)

decode_wrapped_sizes_example :
    decode (framed (u64_mod - 2) 5 0 (checksum (7 ∷ 8 ∷ 9 ∷ [])) (7 ∷ 8 ∷ 9 ∷ [])) ≡ out_of_range
decode_wrapped_sizes_example =
    decode_wrapped_sizes (u64_mod - 2) 5 (7 ∷ 8 ∷ 9 ∷ []) (omega arith) (omega arith) (omega arith)

in_range : size_sum (encode bundle) < u64_mod
unfolding little_endian encode framed append_word checksum checksum_from
in_range = omega arith

decode_in_range_example : decode (encode bundle) ≢ out_of_range
decode_in_range_example = decode_in_range (encode bundle) in_range
