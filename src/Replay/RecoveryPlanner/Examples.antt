-- ===== src/Replay/RecoveryPlanner/Examples.antt =====
-- A recovery in a take with an initial checkpoint and two others
-- (src/replay_inspection/recovery_planner.cpp).
use ayther_runtime.Prelude.{◌≡◌, ◌≢◌, refl, ◌⊎◌, true, [], ◌∷◌, arith}
use ayther_runtime.Prelude.Int.{pos, negsuc}
use ayther_runtime.Prelude.Word.{add_u32}
use ayther_runtime.Replay.CheckpointRing.{CheckpointRing, has_initial}
use ayther_runtime.Replay.CheckpointRing.Order.{IsSorted}
use ayther_runtime.Replay.RecoveryPlanner.{plan_recovery, step, IsReplay, plan_recovery-IsReplay}

abbrev ring : CheckpointRing
ring = record {
  interval = 10;
  budget = 100;
  total = 3;
  entries =
      record { frame = negsuc 0; size_bytes = 1 }
      ∷ record { frame = pos 9; size_bytes = 1 }
      ∷ record { frame = pos 19; size_bytes = 1 }
      ∷ [];
}

ring-IsSorted : IsSorted ring.entries
ring-IsSorted = ((omega arith, (omega arith, tt)), ((omega arith, tt), (tt, tt)))

starts : has_initial ring ≡ true
unfolding has_initial
starts = refl

plan_recovery-IsReplay_example :
    ((17 ≡ add_u32 24 1)
      × (plan_recovery ring 24 17
          ≡ record { kind = step; checkpoint = pos 24; replay_from = 17; replay_to = 17 }))
    ⊎ ((17 ≢ add_u32 24 1) × IsReplay ring 17 (plan_recovery ring 24 17))
plan_recovery-IsReplay_example =
    plan_recovery-IsReplay ring 24 17 ring-IsSorted starts (omega arith)
