-- ===== src/Music/Bundle/Overflow.antt =====
-- Files whose sizes overflow (src/music_state_bundle_store.h): the sum of the sizes in the header is
-- compared with the size of the file as a 64-bit word, and then the sizes are used one by one.
use ayther_runtime.Prelude.{
  ℕ, zero, suc, ◌+◌, ◌-◌, ◌*◌, ◌<◌, ◌≤◌, Bool, true, false, Option, none, some, refl, ap, ◌≡◌, ◌≢◌,
  ◌∙◌, List, [], ◌∷◌, arith, length, drop,
}
use ayther_runtime.Prelude.Word.{u64_mod}
use ayther_runtime.Music.Bundle.{
  framed, checksum, out_of_range, split, decode_fields, decode_sizes, decode_version, decode_magic,
  decode, read_word, above, starts_with, magic,
}
use ayther_runtime.Music.Bundle.RoundTrip.{decode-framed, fields_accepted, checksum-lt}

length-drop : (n : ℕ) (xs : List ℕ) → length (drop n xs) ≡ length xs - n
length-drop zero xs = omega arith
length-drop (suc n) [] = omega arith
length-drop (suc n) (x ∷ xs) = omega (arith, length-drop n xs)

split_beyond :
    (game hd pack : ℕ) (payload : List ℕ)
    → length payload < game
    → split game hd pack payload ≡ out_of_range
unfolding split
split_beyond game hd pack payload h = ground arith

-- Sizes of the game and HD state that add up to the size of the payload and 2^64 pass every check
-- of `decode`, whatever the payload is, and then the game state is read beyond its end.
pub decode_wrapped_sizes :
    (game hd : ℕ) (payload : List ℕ)
    → game < u64_mod
    → hd < u64_mod
    → game + hd ≡ u64_mod + length payload
    → decode (framed game hd 0 (checksum payload) payload) ≡ out_of_range
decode_wrapped_sizes game hd payload g h e =
    decode-framed game hd 0 (checksum payload) payload g h (omega arith) (checksum-lt payload)
    ∙ fields_accepted game hd 0 payload (omega arith)
    ∙ split_beyond game hd 0 payload (omega arith)

-- The word whose `k` bytes stand at the front, lowest byte first.
unfoldable pub little_endian : ℕ → List ℕ → ℕ
little_endian zero bytes = 0
little_endian (suc k) [] = 0
little_endian (suc k) (b ∷ bytes) = b + 256 * little_endian k bytes

-- The sizes in the header of a file.
abbrev pub size_sum : List ℕ → ℕ
size_sum bytes =
    little_endian 8 (drop 12 bytes)
    + little_endian 8 (drop 20 bytes)
    + little_endian 4 (drop 28 bytes)

read_word-little_endian :
    (k : ℕ) (bytes : List ℕ) → k ≤ length bytes → read_word k bytes ≡ some (little_endian k bytes)
unfolding read_word above little_endian
read_word-little_endian zero bytes h = refl
read_word-little_endian (suc k) [] h = absurd (omega arith)
read_word-little_endian (suc k) (b ∷ bytes) h =
    ap (above b) (read_word-little_endian k bytes (omega arith))

-- A word that ends within the bytes is read.
read_at :
    (k o : ℕ) (bytes : List ℕ)
    → o + k ≤ length bytes
    → read_word k (drop o bytes) ≡ some (little_endian k (drop o bytes))
read_at k o bytes h = read_word-little_endian k (drop o bytes) (omega (arith, length-drop o bytes))

starts_with-is_some : (ms bytes : List ℕ) → length ms ≤ length bytes → starts_with ms bytes ≢ none
unfolding starts_with
starts_with-is_some [] bytes h = ground arith
starts_with-is_some (m ∷ ms) [] h = absurd (omega arith)
starts_with-is_some (m ∷ ms) (b ∷ bytes) h =
    ground (arith, starts_with-is_some ms bytes (omega arith))

split_within :
    (game hd pack : ℕ) (payload : List ℕ)
    → game + hd + pack ≡ length payload
    → split game hd pack payload ≢ out_of_range
unfolding split
split_within game hd pack payload e =
    ground (arith, length-drop game payload, length-drop hd (drop game payload))

fields_within :
    (game hd pack sum : ℕ) (payload : List ℕ)
    → game + hd + pack < u64_mod
    → decode_fields game hd pack sum payload ≢ out_of_range
unfolding decode_fields
fields_within game hd pack sum payload h = ground (arith, split_within game hd pack payload)

version_within :
    (bytes : List ℕ)
    → 36 ≤ length bytes
    → size_sum bytes < u64_mod
    → decode_version (read_word 4 (drop 8 bytes)) bytes ≢ out_of_range
unfolding decode_version decode_sizes
version_within bytes l h =
    rw
      (
        read_at 4 8 bytes (omega arith),
        read_at 8 12 bytes (omega arith),
        read_at 8 20 bytes (omega arith),
        read_at 4 28 bytes (omega arith),
        read_at 4 32 bytes (omega arith),
      )
      (ground (
        arith,
        fields_within (little_endian 8 (drop 12 bytes)) (little_endian 8 (drop 20 bytes))
            (little_endian 4 (drop 28 bytes)) (little_endian 4 (drop 32 bytes)) (drop 36 bytes) h,
      ))

magic_within :
    (o : Option Bool) (bytes : List ℕ)
    → o ≢ none
    → 36 ≤ length bytes
    → size_sum bytes < u64_mod
    → decode_magic o bytes ≢ out_of_range
unfolding decode_magic
magic_within none bytes n l h = absurd (n refl)
magic_within (some false) bytes n l h = ground arith
magic_within (some true) bytes n l h = version_within bytes l h

-- A file whose three sizes add up to less than 2^64 is never read beyond its end, neither in the
-- header nor in the payload, whatever else is in it; a file shorter than a header counts 0 for the
-- bytes of the sizes it does not have.
pub decode_in_range : (bytes : List ℕ) → size_sum bytes < u64_mod → decode bytes ≢ out_of_range
unfolding decode
decode_in_range bytes h =
    ground (arith, starts_with-is_some magic bytes, magic_within (starts_with magic bytes) bytes)
