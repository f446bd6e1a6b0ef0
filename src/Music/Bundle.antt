-- ===== src/Music/Bundle.antt =====
-- src/music_state_bundle_store.h, the file format of `MusicStateBundleStore`: `encode`, `decode`
-- and what they are made of. A file is a list of bytes, and so is a text. The file operations of
-- `save` and `load` are not modelled.
pub mod RoundTrip
pub mod Overflow
mod Examples
use Prim.Native.Nat.{bit_xor}
use ayther_runtime.Prelude.{
  ℕ, zero, suc, ◌+◌, ◌-◌, ◌*◌, ◌/◌, ◌%◌, Bool, true, false, not, ◌&&◌, ◌||◌, Option, none, some,
  List, [], ◌∷◌, ◌++◌, ltb, ◌==◌, if◌then◌else◌, length, take, drop,
}
use ayther_runtime.Prelude.Word.{u32_mod, u64_mod, add_u64}

abbrev pub version : ℕ
version = 1

pub record Bundle : Type 0 where
  pub game_state : List ℕ
  pub hd_state : List ℕ
  pub pack_revision : List ℕ

pub data Status : Type 0 where
  saved loaded missing invalid unsupported_version io_error : Status

pub record BundleResult : Type 0 where
  pub status : Status
  pub bundle : Bundle

abbrev pub no_bundle : Bundle
no_bundle = record { game_state = []; hd_state = []; pack_revision = [] }

-- 'A', 'Y', 'M', 'U', 'S', 'I', 'C', 'S'.
abbrev pub magic : List ℕ
magic = 65 ∷ 89 ∷ 77 ∷ 85 ∷ 83 ∷ 73 ∷ 67 ∷ 83 ∷ []

-- `append` of a word of `k` bytes, lowest byte first.
pub append_word : ℕ → ℕ → List ℕ
append_word zero value = []
append_word (suc k) value = value % 256 ∷ append_word k (value / 256)

-- A byte and, where they were read, the bytes above it; the bytes are disjoint bits, so `|=` adds
-- them.
pub above : ℕ → Option ℕ → Option ℕ
above b none = none
above b (some rest) = some (b + 256 * rest)

-- `read` of a word of `k` bytes, none where it would read beyond the end of the bytes, which the
-- source does not check.
pub read_word : ℕ → List ℕ → Option ℕ
read_word zero bytes = some 0
read_word (suc k) [] = none
read_word (suc k) (b ∷ bytes) = above b (read_word k bytes)

-- The loop of `checksum`, with the value so far.
pub checksum_from : ℕ → List ℕ → ℕ
checksum_from value [] = value
checksum_from value (b ∷ bytes) = checksum_from (bit_xor value b * 16777619 % u32_mod) bytes

pub checksum : List ℕ → ℕ
checksum bytes = checksum_from 2166136261 bytes

-- The header with these fields, and a payload behind it.
pub framed : ℕ → ℕ → ℕ → ℕ → List ℕ → List ℕ
framed game hd pack sum payload =
    magic
    ++ (append_word 4 version
        ++ (append_word 8 game
            ++ (append_word 8 hd ++ (append_word 4 pack ++ (append_word 4 sum ++ payload)))))

abbrev pub payload_of : Bundle → List ℕ
payload_of b = b.game_state ++ (b.hd_state ++ b.pack_revision)

pub encode : Bundle → List ℕ
encode b =
    framed (length b.game_state % u64_mod) (length b.hd_state % u64_mod)
      (length b.pack_revision % u32_mod) (checksum (payload_of b)) (payload_of b)

-- `std::equal` of the magic and the first bytes, none where it would read beyond the end; it stops at
-- the first byte that differs.
pub starts_with : List ℕ → List ℕ → Option Bool
starts_with [] bytes = some true
starts_with (m ∷ ms) [] = none
starts_with (m ∷ ms) (b ∷ bytes) =
    let rest = starts_with ms bytes in if m == b then rest else some false

-- What `decode` comes to: a result, or a read beyond the end of the file or of the payload.
pub data Decoded : Type 0 where
  returns : BundleResult → Decoded
  out_of_range : Decoded

abbrev refuse : Status → Decoded
refuse s = returns (record { status = s; bundle = no_bundle })

-- The three `assign` calls: they read `game`, `hd` and `pack` bytes from the payload, one behind
-- the other.
pub split : ℕ → ℕ → ℕ → List ℕ → Decoded
split game hd pack payload =
    if ltb (length payload) game
      || (ltb (length (drop game payload)) hd || ltb (length (drop hd (drop game payload))) pack)
    then out_of_range
    else returns (record {
      status = loaded;
      bundle = record {
        game_state = take game payload;
        hd_state = take hd (drop game payload);
        pack_revision = take pack (drop hd (drop game payload));
      };
    })

-- The checks of `decode` on the sizes and the checksum.
pub decode_fields : ℕ → ℕ → ℕ → ℕ → List ℕ → Decoded
decode_fields game hd pack sum payload =
    if not (add_u64 (add_u64 game hd) pack == length payload)
    then refuse invalid
    else if not (checksum payload == sum)
    then refuse invalid
    else split game hd pack payload

-- The four reads after the version.
pub decode_sizes : Option ℕ → Option ℕ → Option ℕ → Option ℕ → List ℕ → Decoded
decode_sizes (some game) (some hd) (some pack) (some sum) payload =
    decode_fields game hd pack sum payload
decode_sizes (some game) (some hd) (some pack) none payload = out_of_range
decode_sizes (some game) (some hd) none sum payload = out_of_range
decode_sizes (some game) none pack sum payload = out_of_range
decode_sizes none hd pack sum payload = out_of_range

-- From the version on.
pub decode_version : Option ℕ → List ℕ → Decoded
decode_version none bytes = out_of_range
decode_version (some found) bytes =
    if not (found == version)
    then refuse unsupported_version
    else decode_sizes (read_word 8 (drop 12 bytes)) (read_word 8 (drop 20 bytes))
        (read_word 4 (drop 28 bytes)) (read_word 4 (drop 32 bytes)) (drop 36 bytes)

pub decode_magic : Option Bool → List ℕ → Decoded
decode_magic none bytes = out_of_range
decode_magic (some false) bytes = refuse invalid
decode_magic (some true) bytes = decode_version (read_word 4 (drop 8 bytes)) bytes

pub decode : List ℕ → Decoded
decode bytes =
    if ltb (length bytes) 36 then refuse invalid else decode_magic (starts_with magic bytes) bytes
