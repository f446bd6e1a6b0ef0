-- ===== src/Music/Bundle/RoundTrip.antt =====
-- What was encoded is decoded (src/music_state_bundle_store.h).
use Prim.Native.Nat.{bit_xor}
use native.Mathlib.Nat.{pow-suc, mod-eq_of_lt}
use ayther_runtime.Prelude.{
  ℕ, zero, suc, ◌+◌, ◌*◌, ◌/◌, ◌%◌, ◌^◌, ◌<◌, ◌≡◌, refl, ap, ◌∙◌, some, ltb, ◌==◌, true, false,
  List, [], ◌∷◌, ◌++◌, arith, length, take, drop, length-append,
}
use ayther_runtime.Prelude.Word.{u32_mod, u64_mod, add_u64}
use ayther_runtime.Music.Bundle.{
  Bundle, append_word, read_word, above, checksum_from, checksum, framed, payload_of, encode,
  starts_with, magic, version, returns, split, decode_fields, decode_sizes, decode_version,
  decode_magic, decode, loaded,
}

read_word-append_word :
    (k v : ℕ) (rest : List ℕ) → v < 256 ^ k → read_word k (append_word k v ++ rest) ≡ some v
unfolding read_word above append_word
read_word-append_word zero v rest h = ap some (omega arith)
read_word-append_word (suc k) v rest h =
    ap (above (v % 256)) (read_word-append_word k (v / 256) rest (omega (arith, pow-suc 256 k)))
    ∙ ap some (omega arith)

checksum_from-lt :
    (value : ℕ) (bytes : List ℕ) → value < u32_mod → checksum_from value bytes < u32_mod
unfolding checksum_from
checksum_from-lt value [] h = h
checksum_from-lt value (b ∷ bytes) h =
    checksum_from-lt (bit_xor value b * 16777619 % u32_mod) bytes (omega arith)

eq_test : (a b : ℕ) → a ≡ b → (a == b) ≡ true
eq_test a b e = ground arith

-- Where the fields of a framed payload stand.
module _ (game hd pack sum : ℕ) (payload : List ℕ) where
  abbrev file : List ℕ
  file = framed game hd pack sum payload

  file_long : ltb (length file) 36 ≡ false
  unfolding framed append_word
  file_long = ground arith

  file-magic : starts_with magic file ≡ some true
  unfolding framed starts_with
  file-magic = refl

  file_payload : drop 36 file ≡ payload
  unfolding framed append_word
  file_payload = refl

  file-version : read_word 4 (drop 8 file) ≡ some version
  unfolding framed append_word
  file-version = read_word-append_word 4 version _ (omega arith)

  file_game : game < u64_mod → read_word 8 (drop 12 file) ≡ some game
  unfolding framed append_word
  file_game h = read_word-append_word 8 game _ h

  file_hd : hd < u64_mod → read_word 8 (drop 20 file) ≡ some hd
  unfolding framed append_word
  file_hd h = read_word-append_word 8 hd _ h

  file_pack : pack < u32_mod → read_word 4 (drop 28 file) ≡ some pack
  unfolding framed append_word
  file_pack h = read_word-append_word 4 pack _ h

  file-sum : sum < u32_mod → read_word 4 (drop 32 file) ≡ some sum
  unfolding framed append_word
  file-sum h = read_word-append_word 4 sum _ h

  -- With fields that fit their words, decoding a framed payload checks those fields.
  pub decode-framed :
      game < u64_mod
      → hd < u64_mod
      → pack < u32_mod
      → sum < u32_mod
      → decode file ≡ decode_fields game hd pack sum payload
  unfolding decode decode_magic decode_version decode_sizes
  decode-framed g h p s = rw (
    file_long,
    file-magic,
    file-version,
    file_game g,
    file_hd h,
    file_pack p,
    file-sum s,
    file_payload,
  )

-- Fields that agree with the payload are accepted, and it is taken apart by them.
pub fields_accepted :
    (game hd pack : ℕ) (payload : List ℕ)
    → add_u64 (add_u64 game hd) pack ≡ length payload
    → decode_fields game hd pack (checksum payload) payload ≡ split game hd pack payload
unfolding decode_fields
fields_accepted game hd pack payload e = rw (
  e,
  eq_test (length payload) (length payload) refl,
  eq_test (checksum payload) (checksum payload) refl,
)

pub checksum-lt : (bytes : List ℕ) → checksum bytes < u32_mod
unfolding checksum
checksum-lt bytes = checksum_from-lt 2166136261 bytes (omega arith)

take_front : (xs ys : List ℕ) → take (length xs) (xs ++ ys) ≡ xs
take_front [] ys = refl
take_front (x ∷ xs) ys = ap (λ l. x ∷ l) (take_front xs ys)

drop_front : (xs ys : List ℕ) → drop (length xs) (xs ++ ys) ≡ ys
drop_front [] ys = refl
drop_front (x ∷ xs) ys = drop_front xs ys

take_all : (xs : List ℕ) → take (length xs) xs ≡ xs
take_all [] = refl
take_all (x ∷ xs) = ap (λ l. x ∷ l) (take_all xs)

-- The payload is taken apart where it was put together.
split-payload :
    (b : Bundle)
    → split (length b.game_state) (length b.hd_state) (length b.pack_revision) (payload_of b)
      ≡ returns (record { status = loaded; bundle = b })
unfolding split
split-payload b =
    rw
      (
        take_front b.game_state (b.hd_state ++ b.pack_revision),
        drop_front b.game_state (b.hd_state ++ b.pack_revision),
        take_front b.hd_state b.pack_revision,
        drop_front b.hd_state b.pack_revision,
        take_all b.pack_revision,
      )
      (ground (
        arith,
        length-append b.game_state (b.hd_state ++ b.pack_revision),
        length-append b.hd_state b.pack_revision,
      ))

length-payload :
    (b : Bundle)
    → length (payload_of b) ≡ length b.game_state + length b.hd_state + length b.pack_revision
length-payload b = omega (
  arith,
  length-append b.game_state (b.hd_state ++ b.pack_revision),
  length-append b.hd_state b.pack_revision,
)

-- Decoding what was encoded gives the bundle back, for every bundle of fewer than 2^64 bytes whose
-- pack revision has fewer than 2^32.
pub decode-encode :
    (b : Bundle)
    → length (payload_of b) < u64_mod
    → length b.pack_revision < u32_mod
    → decode (encode b) ≡ returns (record { status = loaded; bundle = b })
unfolding encode
decode-encode b h p =
    let n = length-payload b in
    rw
      (
        mod-eq_of_lt {n = length b.game_state} {m = u64_mod} (omega (arith, n)),
        mod-eq_of_lt {n = length b.hd_state} {m = u64_mod} (omega (arith, n)),
        mod-eq_of_lt {n = length b.pack_revision} {m = u32_mod} p,
      )
      (decode-framed (length b.game_state) (length b.hd_state) (length b.pack_revision)
          (checksum (payload_of b)) (payload_of b) (omega (arith, n)) (omega (arith, n)) p
          (checksum-lt (payload_of b))
        ∙ fields_accepted (length b.game_state) (length b.hd_state) (length b.pack_revision)
            (payload_of b) (omega (arith, n))
        ∙ split-payload b)
