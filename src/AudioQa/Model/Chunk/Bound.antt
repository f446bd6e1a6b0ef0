-- ===== src/AudioQa/Model/Chunk/Bound.antt =====
-- What a well-formed chunk holds (tools/audio_qa/audio_chunk.cpp).
use native.Mathlib.Nat.{le-div_iff_mul-le}
use ayther_runtime.Prelude.{
  ℕ, ◌-◌, ◌*◌, ◌/◌, ◌≤◌, ◌<◌, ◌≡◌, ap, ◌∙◌, true, Option, some, arith, length,
}
use ayther_runtime.Prelude.Word.{u64_mod, sub_u64}
use ayther_runtime.AudioQa.Model.Mix.{well_formed_range}
use ayther_runtime.AudioQa.Model.Chunk.{
  AudioFormat, AudioChunk, frame_bytes_of, expected_payload_bytes, has_value, well_formed,
}

expected_value :
    (format : AudioFormat) (frames bytes : ℕ)
    → expected_payload_bytes format frames ≡ some bytes
    → (bytes ≡ frames * frame_bytes_of format)
      × (frames ≤ 262144 / frame_bytes_of format)
      × (1 ≤ frame_bytes_of format)
unfolding expected_payload_bytes
expected_value format frames bytes e = ground arith

has_value-some : (o : Option ℕ) (n : ℕ) → has_value o n ≡ true → o ≡ some n
has_value-some o n h = ground arith

fits_range :
    (c : AudioChunk)
    → well_formed c ≡ true
    → (expected_payload_bytes c.format (sub_u64 c.range.end c.range.begin) ≡ some (length c.bytes))
      × (c.range.begin ≤ c.range.end)
unfolding well_formed well_formed_range has_value
fits_range c h = ground arith

-- A well-formed chunk holds the bytes of every sample frame of its range and no others: their number
-- is that of the frames times the channels times the bytes of a sample, and at most 256 KiB.
pub chunk_holds_range :
    (c : AudioChunk)
    → c.range.end < u64_mod
    → well_formed c ≡ true
    → (length c.bytes ≡ (c.range.end - c.range.begin) * frame_bytes_of c.format)
      × (length c.bytes ≤ 262144)
      × (c.range.begin ≤ c.range.end)
chunk_holds_range c w h =
    let r = fits_range c h in
    let frames = sub_u64 c.range.end c.range.begin in
    let v = expected_value c.format frames (length c.bytes) r.0 in
    let m = (le-div_iff_mul-le v.2).0 v.1 in
    let s : frames ≡ c.range.end - c.range.begin = omega arith in
    (v.0 ∙ ap (λ k. k * frame_bytes_of c.format) s, omega arith, r.1)
