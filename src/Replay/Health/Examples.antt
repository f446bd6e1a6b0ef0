-- ===== src/Replay/Health/Examples.antt =====
-- A presentation that is minimized, recovers and loses its device
-- (src/replay_inspection/presentation_health.cpp).
use ayther_runtime.Prelude.{true, false, List, [], ◌∷◌}
use ayther_runtime.Replay.Health.{acquire_failed, Report, frames, removes, minimizes, adds, polls}

abbrev reports : List Report
reports =
    minimizes true
    ∷ frames acquire_failed
    ∷ polls true true
    ∷ minimizes false
    ∷ polls true true
    ∷ removes true
    ∷ adds
    ∷ polls true true
    ∷ []
