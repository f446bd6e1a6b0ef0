-- ===== src/Replay/CheckpointRing/Examples.antt =====
-- The checkpoint ring with an initial checkpoint and two others
-- (src/replay_inspection/checkpoint_ring.cpp).
use ayther_runtime.Prelude.{List, ◌+◌, ◌≤◌, ◌<◌, ◌≡◌, refl, ◌⊎◌, true, false, [], ◌∷◌, arith}
use ayther_runtime.Prelude.Int.{pos, negsuc}
use ayther_runtime.Replay.CheckpointRing.{CheckpointRing, new, has_initial, initial_size, store}
use ayther_runtime.Replay.CheckpointRing.Order.{IsSorted}
use ayther_runtime.Replay.CheckpointRing.Reachable.{
  Call, stores, stores_initial, run, FromInitial, run-IsSorted,
}
use ayther_runtime.Replay.CheckpointRing.Budget.{IsCounted, store-fits}

-- 100 bytes of 110 are taken, 30 of them by the initial checkpoint.
abbrev ring : CheckpointRing
ring = record {
  interval = 10;
  budget = 110;
  total = 100;
  entries =
      record { frame = negsuc 0; size_bytes = 30 }
      ∷ record { frame = pos 9; size_bytes = 40 }
      ∷ record { frame = pos 29; size_bytes = 30 }
      ∷ [];
}

ring-IsSorted : IsSorted ring.entries
ring-IsSorted = ((omega arith, (omega arith, tt)), ((omega arith, tt), (tt, tt)))

abbrev calls : List Call
calls = stores 19 40 ∷ stores_initial 30 ∷ stores 9 20 ∷ stores 29 50 ∷ stores_initial 10 ∷ []

run-IsSorted_example :
    IsSorted (run (new 10 110) calls).entries × FromInitial (run (new 10 110) calls).entries
run-IsSorted_example = run-IsSorted 10 110 calls

store-fits_example :
    let (r', stored) = store ring 19 40 in
    ((initial_size ring.entries + 40 ≤ ring.budget)
      × (stored ≡ true)
      × IsCounted r'
      × (r'.total ≤ ring.budget)
      × (r'.budget ≡ ring.budget))
    ⊎ ((ring.budget < initial_size ring.entries + 40) × (stored ≡ false) × (r' ≡ ring))
store-fits_example = store-fits ring 19 40 refl (omega arith) (omega arith)

starts : has_initial ring ≡ true
unfolding has_initial
starts = refl
