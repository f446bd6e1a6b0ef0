-- ===== src/AudioQa/Recording/Registers/Tail.antt =====
-- Where the sections of a take's tail end (tools/audio_qa/recording_header.cpp).
use ayther_runtime.Prelude.{
  ℕ, zero, suc, Bool, true, false, ◌||◌, ltb, ◌==◌, if◌then◌else◌, ◌+◌, ◌*◌, ◌≤◌, ◌<◌, ◌≡◌, refl,
  sym, ap, ◌∙◌, List, [], ◌∷◌, arith, length, take, drop,
}
use ayther_runtime.Prelude.Word.{u64_mod, add_u32}
use ayther_runtime.AudioQa.Recording.{byte_at, has_bytes, read_u32_le}
use ayther_runtime.AudioQa.Recording.Registers.{
  Walk, at, truncated, in_section, and_then, skip, read_u32, skip_hash_history, skip_keyframe,
  skip_keyframes, skip_keyframe_section, skip_sections,
}

abbrev low_first : List ℕ → ℕ
low_first [] = 0
low_first (b ∷ bytes) = b + 256 * low_first bytes

-- The word of four bytes that stands at an offset.
abbrev pub word : List ℕ → ℕ → ℕ
word bytes offset = low_first (take 4 (drop offset bytes))

-- A history: the number of its hashes of 8 bytes, the hashes, and 4 bytes for each frame.
abbrev pub after_history : List ℕ → ℕ → ℕ → ℕ
after_history bytes frames o = o + 4 + 8 * word bytes o + 4 * frames

-- Keyframes from one offset to another: each has a frame of the take or its end, a size that is not
-- 0, and the number of its compressed bytes, which follow.
abbrev pub Keyframes : List ℕ → ℕ → ℕ → ℕ → ℕ → Type 0
Keyframes bytes frames zero o p = p ≡ o
Keyframes bytes frames (suc count) o p =
    (word bytes o ≤ frames)
    × (1 ≤ word bytes (o + 4))
    × Keyframes bytes frames count (o + 12 + word bytes (o + 8)) p

-- The tail of a take up to the size of its registers: 8 bytes, 12 for each frame, a history, at most
-- one keyframe more than there are frames, a second history, and 4 bytes.
abbrev pub Sections : List ℕ → ℕ → ℕ → ℕ → Type 0
Sections bytes frames o p =
    let k = after_history bytes frames (o + 8 + 12 * frames) in
    (m : ℕ) × (word bytes k ≤ frames + 1)
    × Keyframes bytes frames (word bytes k) (k + 4) m
    × (p ≡ after_history bytes frames m + 4)

byte_behind :
    (a : ℕ) (bytes : List ℕ) (o k : ℕ) → byte_at (a ∷ bytes) (suc o + k) ≡ byte_at bytes (o + k)
byte_behind a bytes o k =
    let e : suc o + k ≡ suc (o + k) = omega arith in ap (byte_at (a ∷ bytes)) e

pub read-word : (bytes : List ℕ) (o : ℕ) → read_u32_le bytes o ≡ word bytes o
unfolding read_u32_le
read-word [] zero = omega arith
read-word [] (suc o) = omega arith
read-word (a ∷ []) zero = omega arith
read-word (a ∷ b ∷ []) zero = omega arith
read-word (a ∷ b ∷ c ∷ []) zero = omega arith
read-word (a ∷ b ∷ c ∷ d ∷ bytes) zero = omega arith
read-word (a ∷ bytes) (suc o) = omega (
  arith,
  read-word bytes o,
  byte_behind a bytes o 1,
  byte_behind a bytes o 2,
  byte_behind a bytes o 3,
)

then_at :
    (w : Walk) (k : ℕ → Walk) (p : ℕ) → and_then w k ≡ at p → (q : ℕ) × (w ≡ at q) × (k q ≡ at p)
unfolding and_then
then_at (at q) k p e = (q, refl, e)
then_at truncated k p e = ground arith
then_at in_section k p e = ground arith

guarded :
    (g : Bool) (w : Walk) (p : ℕ) → (if g then in_section else w) ≡ at p → (g ≡ false) × (w ≡ at p)
guarded true w p e = ground arith
guarded false w p e = (refl, e)

keyframe_good :
    (frames frame raw : ℕ) → (ltb frames frame || (raw == 0)) ≡ false → (frame ≤ frames) × (1 ≤ raw)
keyframe_good frames frame raw e = (ground arith, ground arith)

count_good : (frames count : ℕ) → ltb (add_u32 frames 1) count ≡ false → count ≤ frames + 1
count_good frames count e = ground arith

module _ (bytes : List ℕ) (fits : length bytes < u64_mod) where
  skip_at : (count o p : ℕ) → skip bytes count o ≡ at p → (p ≡ o + count) × (p ≤ length bytes)
  unfolding skip has_bytes
  skip_at count o p e = (ground arith, ground arith)

  read_at :
      (o : ℕ) (k : ℕ → ℕ → Walk) (p : ℕ)
      → read_u32 bytes o k ≡ at p
      → k (word bytes o) (o + 4) ≡ at p
  unfolding read_u32 has_bytes
  read_at o k p e = ground (arith, read-word bytes o)

  history_at :
      (frames o p : ℕ) → skip_hash_history bytes frames o ≡ at p → p ≡ after_history bytes frames o
  unfolding skip_hash_history
  history_at frames o p e =
      let r =
        read_at o
          (λ total after.
            and_then (skip bytes (total * 8) after) (λ hashed. skip bytes (frames * 4) hashed))
          p e in
      let s =
        then_at (skip bytes (word bytes o * 8) (o + 4)) (λ hashed. skip bytes (frames * 4) hashed) p
          r in
      omega (arith, skip_at (word bytes o * 8) (o + 4) s.0 s.1, skip_at (frames * 4) s.0 p s.2)

  keyframe_at :
      (frames o p : ℕ)
      → skip_keyframe bytes frames o ≡ at p
      → (word bytes o ≤ frames) × (1 ≤ word bytes (o + 4)) × (p ≡ o + 12 + word bytes (o + 8))
  unfolding skip_keyframe
  keyframe_at frames o p e =
      let first = read_at o _ p e in
      let second = read_at (o + 4) _ p first in
      let third = read_at (o + 4 + 4) _ p second in
      let e : o + 4 + 4 ≡ o + 8 = omega arith in
      let size : word bytes (o + 4 + 4) ≡ word bytes (o + 8) = ap (word bytes) e in
      let g =
        guarded (ltb frames (word bytes o) || (word bytes (o + 4) == 0))
          (skip bytes (word bytes (o + 4 + 4)) (o + 4 + 4 + 4)) p third in
      let good = keyframe_good frames (word bytes o) (word bytes (o + 4)) g.0 in
      let s = skip_at (word bytes (o + 4 + 4)) (o + 4 + 4 + 4) p g.1 in
      (good.0, good.1, omega (arith, s.0, size))

  skip_keyframes-Keyframes :
      (frames count o p : ℕ)
      → skip_keyframes bytes frames count o ≡ at p
      → Keyframes bytes frames count o p
  unfolding skip_keyframes
  skip_keyframes-Keyframes frames zero o p e = ground arith
  skip_keyframes-Keyframes frames (suc count) o p e =
      let s = then_at (skip_keyframe bytes frames o) (skip_keyframes bytes frames count) p e in
      let k = keyframe_at frames o s.0 s.1 in
      (
        k.0,
        k.1,
        skip_keyframes-Keyframes frames count (o + 12 + word bytes (o + 8)) p
            (ap (skip_keyframes bytes frames count) (sym k.2) ∙ s.2),
      )

  section_at :
      (frames o p : ℕ)
      → skip_keyframe_section bytes frames o ≡ at p
      → (word bytes o ≤ frames + 1) × Keyframes bytes frames (word bytes o) (o + 4) p
  unfolding skip_keyframe_section
  section_at frames o p e =
      let r = read_at o _ p e in
      let g =
        guarded (ltb (add_u32 frames 1) (word bytes o))
          (skip_keyframes bytes frames (word bytes o) (o + 4)) p r in
      (
        count_good frames (word bytes o) g.0,
        skip_keyframes-Keyframes frames (word bytes o) (o + 4) p g.1,
      )

  pub skip_sections-Sections :
      (frames o p : ℕ) → skip_sections bytes frames o ≡ at p → Sections bytes frames o p
  unfolding skip_sections
  skip_sections-Sections frames o p e =
      let a = then_at (skip bytes 8 o) _ p e in
      let b = then_at (skip bytes (frames * 12) a.0) _ p a.2 in
      let c = then_at (skip_hash_history bytes frames b.0) _ p b.2 in
      let d = then_at (skip_keyframe_section bytes frames c.0) _ p c.2 in
      let f = then_at (skip_hash_history bytes frames d.0) _ p d.2 in
      let begin : b.0 ≡ o + 8 + 12 * frames =
        omega (arith, skip_at 8 o a.0 a.1, skip_at (frames * 12) a.0 b.0 b.1) in
      let history = history_at frames b.0 c.0 c.1 ∙ ap (after_history bytes frames) begin in
      let s =
        section_at frames (after_history bytes frames (o + 8 + 12 * frames)) d.0
          (ap (skip_keyframe_section bytes frames) (sym history) ∙ d.1) in
      (d.0, s.0, s.1, omega (arith, history_at frames d.0 f.0 f.1, skip_at 4 f.0 p f.2))
