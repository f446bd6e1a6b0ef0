-- ===== src/Replay/CheckpointRing/Reachable.antt =====
-- The checkpoints of a ring that is only changed by its operations
-- (src/replay_inspection/checkpoint_ring.cpp).
use ayther_runtime.Prelude.{ℕ, inl, inr, List, [], ◌∷◌, arith, All, Bool-cases}
use ayther_runtime.Prelude.Int.{pos, negsuc, ◌≤ℤ◌}
use ayther_runtime.Replay.CheckpointRing.{
  CheckpointEntry, CheckpointRing, new, is_initial, replace_initial, store_initial,
  evict_after_initial, store,
}
use ayther_runtime.Replay.CheckpointRing.Order.{
  IsSorted, All-insert_sorted, All-evict, store-IsSorted,
}

-- The two operations that change a ring.
pub data Call : Type 0 where
  stores_initial : ℕ → Call
  stores : ℕ → ℕ → Call

pub run : CheckpointRing → List Call → CheckpointRing
run r [] = r
run r (stores_initial size ∷ cs) = run (store_initial r size) cs
run r (stores frame size ∷ cs) = run (store r frame size).0 cs

-- No frame lies before that of the initial state.
abbrev pub FromInitial : List CheckpointEntry → Type 0
FromInitial es = All (λ e. negsuc 0 ≤ℤ e.frame) es

evict_after_initial-FromInitial :
    (budget size total : ℕ) (es : List CheckpointEntry)
    → FromInitial es
    → FromInitial (evict_after_initial budget size total es).1
unfolding evict_after_initial
evict_after_initial-FromInitial budget size total [] h = tt
evict_after_initial-FromInitial budget size total (e ∷ es) h = elim (Bool-cases (is_initial e)) [
  | inl t ↦ rw t (h.0, All-evict (λ x. negsuc 0 ≤ℤ x.frame) budget size total es h.1)
  | inr t ↦ rw t (All-evict (λ x. negsuc 0 ≤ℤ x.frame) budget size total (e ∷ es) h)
]

store-FromInitial :
    (r : CheckpointRing) (frame size_bytes : ℕ)
    → FromInitial r.entries
    → FromInitial (store r frame size_bytes).0.entries
unfolding store
store-FromInitial r frame size_bytes h = ground (
  arith,
  All-insert_sorted (λ x. negsuc 0 ≤ℤ x.frame)
      (record { frame = pos frame; size_bytes = size_bytes })
      (evict_after_initial r.budget size_bytes r.total r.entries).1 (omega arith)
      (evict_after_initial-FromInitial r.budget size_bytes r.total r.entries h),
)

replace_initial-IsSorted :
    (size total : ℕ) (es : List CheckpointEntry)
    → FromInitial es
    → IsSorted es
    → IsSorted (replace_initial size total es).1 × FromInitial (replace_initial size total es).1
replace_initial-IsSorted size total [] h s = ((tt, tt), (omega arith, tt))
replace_initial-IsSorted size total (e ∷ es) h s = elim (Bool-cases (is_initial e)) [
  | inl t ↦ rw t (s, h)
  | inr t ↦ rw t ((h, s), (omega arith, h))
]

run_from-IsSorted :
    (r : CheckpointRing) (cs : List Call)
    → FromInitial r.entries
    → IsSorted r.entries
    → IsSorted (run r cs).entries × FromInitial (run r cs).entries
unfolding run store_initial
run_from-IsSorted r [] h s = (s, h)
run_from-IsSorted r (stores_initial size ∷ cs) h s =
    let (s', h') = replace_initial-IsSorted size r.total r.entries h s in
    run_from-IsSorted (store_initial r size) cs h' s'
run_from-IsSorted r (stores frame size ∷ cs) h s =
    run_from-IsSorted (store r frame size).0 cs (store-FromInitial r frame size h)
      (store-IsSorted r frame size s)

-- Whatever checkpoints are stored, the initial one at any time and the others in any order of
-- frames, the ring stays in order of frame, and no frame lies before that of the initial state.
pub run-IsSorted :
    (interval budget : ℕ) (cs : List Call)
    → IsSorted (run (new interval budget) cs).entries
      × FromInitial (run (new interval budget) cs).entries
unfolding new
run-IsSorted interval budget cs = run_from-IsSorted (new interval budget) cs tt tt
