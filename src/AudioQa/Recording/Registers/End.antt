-- ===== src/AudioQa/Recording/Registers/End.antt =====
-- The registers end the take (tools/audio_qa/recording_header.cpp).
use mathlib.Core.Path.{subst}
use ayther_runtime.Prelude.{
  ℕ, ◌+◌, ◌≤◌, ◌<◌, ◌≡◌, ◌⊎◌, inl, inr, refl, sym, ap, ◌∙◌, List, [], arith, length, take, drop,
}
use ayther_runtime.Prelude.Word.{u64_mod}
use ayther_runtime.AudioQa.Recording.{has_bytes}
use ayther_runtime.AudioQa.Recording.Layout.{RecordingLayout}
use ayther_runtime.AudioQa.Recording.Registers.{
  RecordingFmRegistersError, RecordingFmRegistersResult, Walk, at, truncated, in_section, failure,
  read_registers, read_shadow, skip_sections, decode_recording_fm_registers,
}
use ayther_runtime.AudioQa.Recording.Registers.Tail.{
  word, read-word, Sections, skip_sections-Sections,
}

-- What stands behind the sections that end at an offset: a word that is 0 or 512, so many bytes of
-- registers, from version 10 on 8 bytes more, and the end of the take.
abbrev pub Behind : List ℕ → ℕ → ℕ → List ℕ → Type 0
Behind bytes version a registers =
    (registers ≡ take (word bytes a) (drop (a + 4) bytes))
    × ((word bytes a ≡ 0) ⊎ (word bytes a ≡ 512))
    × (((version < 10) × (a + 4 + word bytes a ≡ length bytes))
        ⊎ ((10 ≤ version) × (a + 4 + word bytes a + 8 ≡ length bytes)))

-- The registers stand behind the sections that begin where the inputs end.
abbrev pub EndsTake : List ℕ → RecordingLayout → List ℕ → Type 0
EndsTake bytes layout registers =
    (a : ℕ) × Sections bytes layout.frame_count (layout.inputs.offset + layout.inputs.size) a
    × Behind bytes layout.header.version a registers

module _ (bytes : List ℕ) (version : ℕ) (h : length bytes < u64_mod) where
  abbrev Placed : ℕ → ℕ → List ℕ → Type 0
  Placed size begin registers =
      (registers ≡ take size (drop begin bytes))
      × ((size ≡ 0) ⊎ (size ≡ 512))
      × (((version < 10) × (begin + size ≡ length bytes))
          ⊎ ((10 ≤ version) × (begin + size + 8 ≡ length bytes)))

  registers-Placed :
      (size begin : ℕ)
      → (read_registers bytes version size begin).error ≡ RecordingFmRegistersError.none
      → Placed size begin (read_registers bytes version size begin).registers
  unfolding read_registers failure has_bytes
  registers-Placed size begin e = (ground arith, ground arith, ground arith)

  shadow_at :
      (a : ℕ)
      → (read_shadow bytes version (at a)).error ≡ RecordingFmRegistersError.none
      → read_shadow bytes version (at a) ≡ read_registers bytes version (word bytes a) (a + 4)
  unfolding read_shadow failure has_bytes
  shadow_at a e = ground (arith, read-word bytes a)

  shadow-Behind :
      (a : ℕ)
      → (read_shadow bytes version (at a)).error ≡ RecordingFmRegistersError.none
      → Behind bytes version a (read_shadow bytes version (at a)).registers
  shadow-Behind a e =
      let s = shadow_at a e in
      subst (λ (r : RecordingFmRegistersResult). Placed (word bytes a) (a + 4) r.registers) (sym s)
        (registers-Placed (word bytes a) (a + 4)
          (ap (λ (r : RecordingFmRegistersResult). r.error) (sym s) ∙ e))

  shadow_stops :
      (w : Walk)
      → (read_shadow bytes version w).error ≡ RecordingFmRegistersError.none
      → (a : ℕ) × (w ≡ at a) × Behind bytes version a (read_shadow bytes version w).registers
  unfolding read_shadow failure
  shadow_stops (at a) e = (a, refl, shadow-Behind a e)
  shadow_stops truncated e = ground arith
  shadow_stops in_section e = ground arith

module _ (bytes : List ℕ) (layout : RecordingLayout) (h : length bytes < u64_mod) where
  abbrev decoded : RecordingFmRegistersResult
  decoded = decode_recording_fm_registers bytes layout

  abbrev inputs_end : ℕ
  inputs_end = layout.inputs.offset + layout.inputs.size

  abbrev shadow : RecordingFmRegistersResult
  shadow =
      read_shadow bytes layout.header.version (skip_sections bytes layout.frame_count inputs_end)

  decoded_cases :
      decoded.error ≡ RecordingFmRegistersError.none
      → ((layout.header.version < 9) × (decoded.registers ≡ []))
        ⊎ ((9 ≤ layout.header.version) × (decoded ≡ shadow))
  unfolding decode_recording_fm_registers failure has_bytes
  decoded_cases e = ground arith

  shadow-EndsTake :
      shadow.error ≡ RecordingFmRegistersError.none → EndsTake bytes layout shadow.registers
  shadow-EndsTake e =
      let s =
        shadow_stops bytes layout.header.version h
          (skip_sections bytes layout.frame_count inputs_end) e in
      (s.0, skip_sections-Sections bytes h layout.frame_count inputs_end s.0 s.1, s.2)

-- Of a take whose size is a 64-bit word, the registers are decoded with no error only in two cases.
-- Either the version has none, and none are given. Or the tail of the take, from the end of its
-- inputs on, is made of the sections of the format, each as long as its own counts say and with no
-- more keyframes than the frames of the take and one; then comes a size that is 0 or 512; and the
-- registers are the bytes behind it, so many, which end the take but for the 8 bytes of its id from
-- version 10 on: nothing of the take is left over.
pub registers_end_take :
    (bytes : List ℕ) (layout : RecordingLayout)
    → length bytes < u64_mod
    → (decode_recording_fm_registers bytes layout).error ≡ RecordingFmRegistersError.none
    → ((layout.header.version < 9) × ((decode_recording_fm_registers bytes layout).registers ≡ []))
      ⊎ ((9 ≤ layout.header.version)
          × EndsTake bytes layout (decode_recording_fm_registers bytes layout).registers)
registers_end_take bytes layout h e = elim (decoded_cases bytes layout h e) [
  | inl old ↦ inl old
  | inr r ↦ inr (
    r.0,
    subst (λ (s : RecordingFmRegistersResult). EndsTake bytes layout s.registers) (sym r.1)
        (shadow-EndsTake bytes layout h
          (ap (λ (s : RecordingFmRegistersResult). s.error) (sym r.1) ∙ e)),
  )
]
