-- ===== src/Replay/Cadence/Examples.antt =====
-- The cadence of a resumed take with one late frame (src/replay_inspection/inspection_state.cpp).
use ayther_runtime.Prelude.{ℕ, ◌+◌, ◌*◌, ◌≡◌, List, [], ◌∷◌, length}
use ayther_runtime.Replay.Cadence.{new, restart, lates, turn_after, late_after, restart_no_drift}

abbrev times : List ℕ
times = 1016 ∷ 1050 ∷ 1048 ∷ []

restart_no_drift_example :
    (lates (restart (new 16 0) 1000) times ≡ late_after 1000 (new 16 0).period 0 times)
    × (turn_after (restart (new 16 0) 1000) times ≡ 1000 + length times * (new 16 0).period)
restart_no_drift_example = restart_no_drift (new 16 0) 1000 times
