-- ===== src/AudioQa/Recording/Samples.antt =====
-- A take of two frames, version 10, with registers (the format of
-- tools/audio_qa/recording_header.cpp).
use ayther_runtime.AudioQa.Recording.Layout.{RecordingLayout, range_at}
use ayther_runtime.Prelude.{ℕ, zero, suc, ◌%◌, List, [], ◌∷◌, ◌++◌}

abbrev zeros : ℕ → List ℕ
zeros zero = []
zeros (suc n) = 0 ∷ zeros n

abbrev header : List ℕ
header = 65 ∷ 82 ∷ 80 ∷ 49 ∷ 10 ∷ 0 ∷ 0 ∷ 0 ∷ []

abbrev texts : List ℕ
texts = 2 ∷ 0 ∷ 0 ∷ 0 ∷ 103 ∷ 49 ∷ 0 ∷ 0 ∷ 0 ∷ 0 ∷ []

abbrev words : List ℕ
words = 2 ∷ 0 ∷ 0 ∷ 0 ∷ 5 ∷ 0 ∷ 0 ∷ 0 ∷ 1 ∷ 0 ∷ 0 ∷ 0 ∷ []

-- What stands before the inputs: 31 bytes.
abbrev pub before_inputs : List ℕ
before_inputs = header ++ (texts ++ (words ++ (77 ∷ [])))

-- The buttons of the two frames.
abbrev pub masks : List ℕ
masks = 258 ∷ 64 ∷ []

abbrev inputs : List ℕ
inputs = 2 ∷ 1 ∷ 64 ∷ 0 ∷ []

-- `n` bytes, the last of them 0.
abbrev descending : ℕ → List ℕ
descending zero = []
descending (suc n) = n % 256 ∷ descending n

-- A word of four bytes that is less than 256.
abbrev small_word : ℕ → List ℕ
small_word n = n ∷ 0 ∷ 0 ∷ 0 ∷ []

-- A history with one hash, and one with none.
abbrev histories : List ℕ × List ℕ
histories = (small_word 1 ++ zeros 16, small_word 0 ++ zeros 8)

-- A keyframe of frame 1 whose state of 5 bytes is compressed to 2.
abbrev keyframes : List ℕ
keyframes = small_word 1 ++ (small_word 1 ++ (small_word 5 ++ (small_word 2 ++ (9 ∷ 9 ∷ []))))

-- The marks, the summary, the histories around the keyframes, the algorithm, the size of the
-- registers, 512 bytes of them, and the id.
abbrev pub tail : List ℕ
tail =
    zeros 32
    ++ (histories.0
        ++ (keyframes
            ++ (histories.1
                ++ (small_word 1 ++ ((0 ∷ 2 ∷ 0 ∷ 0 ∷ []) ++ (descending 512 ++ zeros 8))))))

abbrev pub recording : List ℕ
recording = before_inputs ++ (inputs ++ tail)

-- The layout of that take.
abbrev pub layout : RecordingLayout
layout = record {
  header = record { version = 10 };
  game_id = range_at 12 2;
  name = range_at 18 0;
  frame_count = 2;
  raw_state_bytes = 5;
  compressed_state = range_at 30 1;
  inputs = range_at 31 4;
}
