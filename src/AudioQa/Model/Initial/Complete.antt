-- ===== src/AudioQa/Model/Initial/Complete.antt =====
-- What a complete description promises (tools/audio_qa/initial_state.cpp).
use ayther_runtime.Prelude.{
  ◌≡◌, ◌⊎◌, inl, inr, refl, Bool, true, Option, none, some, List, [], ◌∷◌, arith, All, length, ◌==◌,
}
use ayther_runtime.AudioQa.Model.{all}
use ayther_runtime.AudioQa.Model.Mix.{Occurrence}
use ayther_runtime.AudioQa.Model.Initial.{
  HdInitialization, fresh, restored, unknown, succeeded, InitialState, InitialCollection,
  DetectorInitial, PendingAudio, entries_of, is_empty, described, versioned, fresh_description,
  voice_described, restored_description, initialization_complete, has_complete_hd_description,
  well_formed,
}

-- Nothing has happened yet: the detector is reset and each collection is there and empty.
abbrev pub StartsFresh : InitialState → Option DetectorInitial → Type 0
StartsFresh s none = ⊥
StartsFresh s (some detector) =
    (s.hd_initialization ≡ fresh)
    × (detector.reset_verified ≡ true)
    × (detector.active_events ≡ 0)
    × (detector.pending_inputs ≡ 0)
    × (s.windows.entries.value ≡ some [])
    × (s.voices.entries.value ≡ some [])
    × (s.requests.entries.value ≡ some [])
    × (s.pending_audio.entries.value ≡ some [])

-- A voice whose position, track, gain and muting are known.
abbrev pub IsDescribed : Occurrence → Type 0
IsDescribed voice = voice_described voice ≡ true

abbrev pub HasContinuation : PendingAudio → Type 0
HasContinuation p = versioned p.continuation_state ≡ true

-- The detector and the sound that it had are restored.
abbrev pub StartsRestored : InitialState → Option DetectorInitial → Type 0
StartsRestored s none = ⊥
StartsRestored s (some detector) =
    (s.hd_initialization ≡ restored)
    × (s.hd_restore_result ≡ succeeded)
    × (versioned s.engine_state_image ≡ true)
    × (versioned detector.continuation_state ≡ true)
    × All IsDescribed (entries_of s.voices)
    × All HasContinuation (entries_of s.pending_audio)

module _ {T : Type 0} (test : T → Bool) where
  pub all-All : (ts : List T) → all test ts ≡ true → All (λ t. test t ≡ true) ts
  unfolding all
  all-All [] e = tt
  all-All (t ∷ ts) e = (ground arith, all-All ts (ground arith))

empty_value :
    {T : Type 0} (c : InitialCollection T)
    → described c ≡ true
    → (length (entries_of c) == 0) ≡ true
    → c.entries.value ≡ some []
unfolding described
empty_value c d e = ground arith

-- All collections are described.
abbrev Described : InitialState → Type 0
Described s =
    (described s.windows ≡ true)
    × (described s.voices ≡ true)
    × (described s.requests ≡ true)
    × (described s.pending_audio ≡ true)

complete_parts :
    (s : InitialState)
    → has_complete_hd_description s ≡ true
    → (initialization_complete s.hd_initialization s s.detector.value ≡ true) × Described s
unfolding has_complete_hd_description
complete_parts s h = ground arith

pub complete_well_formed :
    (s : InitialState) → has_complete_hd_description s ≡ true → well_formed s ≡ true
unfolding has_complete_hd_description
complete_well_formed s h = ground arith

fresh_starts :
    (s : InitialState) (d : DetectorInitial)
    → s.hd_initialization ≡ fresh
    → Described s
    → fresh_description s d ≡ true
    → StartsFresh s (some d)
unfolding fresh_description
fresh_starts s d e c h =
    let f : (d.reset_verified ≡ true)
        × (d.active_events ≡ 0)
        × (d.pending_inputs ≡ 0)
        × (is_empty s.windows ≡ true)
        × (is_empty s.voices ≡ true)
        × (is_empty s.requests ≡ true)
        × (is_empty s.pending_audio ≡ true) =
      ground arith in
    (
      e,
      f.0,
      f.1,
      f.2,
      empty_value s.windows c.0 f.3,
      empty_value s.voices c.1 f.4,
      empty_value s.requests c.2 f.5,
      empty_value s.pending_audio c.3 f.6,
    )

restored_starts :
    (s : InitialState) (d : DetectorInitial)
    → s.hd_initialization ≡ restored
    → restored_description s d ≡ true
    → StartsRestored s (some d)
unfolding restored_description
restored_starts s d e h =
    let f : (s.hd_restore_result ≡ succeeded)
        × (versioned s.engine_state_image ≡ true)
        × (versioned d.continuation_state ≡ true)
        × (all voice_described (entries_of s.voices) ≡ true)
        × (all (λ p. versioned p.continuation_state) (entries_of s.pending_audio) ≡ true) =
      ground arith in
    (
      e,
      f.0,
      f.1,
      f.2,
      all-All voice_described (entries_of s.voices) f.3,
      all-All (λ p. versioned p.continuation_state) (entries_of s.pending_audio) f.4,
    )

starts :
    (s : InitialState) (i : HdInitialization) (o : Option DetectorInitial)
    → s.hd_initialization ≡ i
    → Described s
    → initialization_complete i s o ≡ true
    → StartsFresh s o ⊎ StartsRestored s o
unfolding initialization_complete
starts s fresh (some d) e c h = inl (fresh_starts s d e c h)
starts s restored (some d) e c h = inr (restored_starts s d e h)
starts s unknown (some d) e c h = ground arith
starts s i none e c h = ground arith

-- A complete description is one of two: a fresh start, with the detector reset and idle and every
-- collection there and empty; or a restored one, where the restoration succeeded, the images of the
-- engine and of the detector have the version and some bytes, each voice has its position, track,
-- gain and muting, and each queue of pending sound has such an image.
pub complete_is_fresh_or_restored :
    (s : InitialState)
    → has_complete_hd_description s ≡ true
    → StartsFresh s s.detector.value ⊎ StartsRestored s s.detector.value
complete_is_fresh_or_restored s h =
    let p = complete_parts s h in starts s s.hd_initialization s.detector.value refl p.1 p.0
