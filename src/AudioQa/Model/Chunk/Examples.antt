-- ===== src/AudioQa/Model/Chunk/Examples.antt =====
-- A chunk of two stereo frames (tools/audio_qa/audio_chunk.cpp).
use ayther_runtime.Prelude.{◌≡◌, refl, true, none, [], ◌∷◌}
use ayther_runtime.AudioQa.Model.{Field, not_applicable, identifier, consistent_availability, all}
use ayther_runtime.AudioQa.Model.Mix.{well_formed_range}
use ayther_runtime.AudioQa.Model.Chunk.{
  AudioChunk, s16le, pending, expected_payload_bytes, causes_fit, well_formed,
}

abbrev missing : {T : Type 0} → Field T
missing = record { availability = not_applicable; value = none; reason_code = "" }

abbrev chunk : AudioChunk
chunk = record {
  run_id = "run-1";
  capture_point = "output";
  producer_sequence = 1;
  format = record { pcm = s16le; sample_rate = 44100; channels = 2 };
  range = record { timeline_id = "output"; sample_rate = 44100; begin = 5; end = 7 };
  bytes = 1 ∷ 2 ∷ 3 ∷ 4 ∷ 5 ∷ 6 ∷ 7 ∷ 8 ∷ [];
  sha256 = missing;
  durability = pending;
  checkpoint_id = missing;
  cause_ids = [];
  discontinuities = [];
  segment = 0;
}

chunk_fits : well_formed chunk ≡ true
unfolding well_formed causes_fit expected_payload_bytes well_formed_range consistent_availability
    identifier all
chunk_fits = refl
