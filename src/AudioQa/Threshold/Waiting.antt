-- ===== src/AudioQa/Threshold/Waiting.antt =====
-- What evidence waits for, after any calls (tools/audio_qa/checkpoint_threshold.cpp).
use ayther_runtime.Prelude.{
  ℕ, ◌≤◌, ◌<◌, ◌≡◌, ◌⊎◌, true, ◌++◌, Option, some, List, [], ◌∷◌, arith, All, is_some,
}
use ayther_runtime.Prelude.Word.{u64_mod}
use ayther_runtime.AudioQa.Threshold.{
  CheckpointThreshold, new, record_received, request_at, request_publication, confirm_publication,
  Call, receives, requests, confirms, step, run,
}

-- The publication under way is between what is durable and what was received.
abbrev pub Between : CheckpointThreshold → Option ℕ → Type 0
Between t Option.none = t.durable_bytes ≤ t.received_bytes
Between t (some publication) = (t.durable_bytes ≤ publication) × (publication ≤ t.received_bytes)

-- A time that is not after another.
abbrev pub NotAfter : Option ℕ → ℕ → Type 0
NotAfter Option.none now = Unit {0}
NotAfter (some since) now = since ≤ now

-- What came after a publication began has a time since when it waits.
abbrev pub PostKnown : CheckpointThreshold → Option ℕ → Type 0
PostKnown t Option.none = Unit {0}
PostKnown t (some publication) =
    (t.received_bytes ≤ publication) ⊎ (is_some t.post_request_pending_since_ms ≡ true)

pub record Inv (t : CheckpointThreshold) : Type 0 where
  pub between : Between t t.publication_bytes
  pub since_known : (t.received_bytes ≡ t.durable_bytes) ⊎ (is_some t.pending_since_ms ≡ true)
  pub post_known : PostKnown t t.publication_bytes
  pub since_past : NotAfter t.pending_since_ms t.last_observed_at_ms
  pub post_past : NotAfter t.post_request_pending_since_ms t.last_observed_at_ms
  pub words : (t.received_bytes < u64_mod) × (t.last_observed_at_ms < u64_mod)

abbrev pub IsWord : Call → Type 0
IsWord (receives total now) = (total < u64_mod) × (now < u64_mod)
IsWord (confirms sequence now) = now < u64_mod
IsWord (requests now) = now < u64_mod

pub step-Inv : (t : CheckpointThreshold) (c : Call) → IsWord c → Inv t → Inv (step t c)
unfolding step record_received request_publication request_at confirm_publication
step-Inv t (receives total now) w v = ground arith
step-Inv t (confirms sequence now) w v = ground arith
step-Inv t (requests now) w v = ground arith

run_from-Inv : (t : CheckpointThreshold) (cs : List Call) → All IsWord cs → Inv t → Inv (run t cs)
unfolding run
run_from-Inv t [] w v = v
run_from-Inv t (c ∷ cs) w v = run_from-Inv (step t c) cs w.1 (step-Inv t c w.0 v)

pub start-Inv : (started : ℕ) → started < u64_mod → Inv (new started)
unfolding new
start-Inv started s = ground arith

-- After any calls at any times, what is durable is at most what was received, and a publication under
-- way is between the two; and evidence that is not durable has a time since when it waits, which is
-- not in the future, and so has evidence that came after a publication under way began.
pub threshold_run-Inv :
    (started : ℕ) (cs : List Call) → started < u64_mod → All IsWord cs → Inv (run (new started) cs)
threshold_run-Inv started cs s w = run_from-Inv (new started) cs w (start-Inv started s)

-- A time, not after another.
abbrev pub Since : Option ℕ → ℕ → Type 0
Since Option.none now = ⊥
Since (some since) now = since ≤ now

-- The first `total` bytes are durable or in the publication under way, or wait since `at` at the
-- latest.
abbrev pub Awaits : CheckpointThreshold → ℕ → ℕ → Option ℕ → Type 0
Awaits t total at Option.none = (total ≤ t.durable_bytes) ⊎ Since t.pending_since_ms at
Awaits t total at (some publication) =
    (total ≤ publication) ⊎ Since t.post_request_pending_since_ms at

pub record Counted (t : CheckpointThreshold) (total at : ℕ) : Type 0 where
  pub counted : total ≤ t.received_bytes
  pub waiting : Awaits t total at t.publication_bytes

received-Counted :
    (t : CheckpointThreshold) (total at : ℕ)
    → Inv t
    → (record_received t total at).1 ≡ true
    → Counted (step t (receives total at)) total at
unfolding step record_received
received-Counted t total at v a = ground arith

step-Counted :
    (t : CheckpointThreshold) (c : Call) (total at : ℕ)
    → Inv t
    → Counted t total at
    → Counted (step t c) total at
unfolding step record_received request_publication request_at confirm_publication
step-Counted t (receives more now) total at v k = ground arith
step-Counted t (confirms sequence now) total at v k = ground arith
step-Counted t (requests now) total at v k = ground arith

run-Counted :
    (t : CheckpointThreshold) (cs : List Call) (total at : ℕ)
    → All IsWord cs
    → Inv t
    → Counted t total at
    → Inv (run t cs) × Counted (run t cs) total at
unfolding run
run-Counted t [] total at w v k = (v, k)
run-Counted t (c ∷ cs) total at w v k =
    run-Counted (step t c) cs total at w.1 (step-Inv t c w.0 v) (step-Counted t c total at v k)

-- What was recorded among other calls.
pub run_over-Counted :
    (t : CheckpointThreshold) (before after : List Call) (total at : ℕ)
    → Inv t
    → All IsWord before
    → IsWord (receives total at)
    → All IsWord after
    → (record_received (run t before) total at).1 ≡ true
    → let t' = run t (before ++ (receives total at ∷ after)) in Inv t' × Counted t' total at
unfolding run
run_over-Counted t [] after total at v b w a r =
    run-Counted (step t (receives total at)) after total at a (step-Inv t (receives total at) w v)
      (received-Counted t total at v r)
run_over-Counted t (c ∷ before) after total at v b w a r =
    run_over-Counted (step t c) before after total at (step-Inv t c b.0 v) b.1 w a r
