-- ===== src/Music/Restore/Recovery.antt =====
-- src/music_restore_recovery.h: what is left of a session after a restoration that failed.
use Prim.Native.String.{String}
use mathlib.Core.Path.{subst}
use ayther_runtime.Prelude.{
  ℕ, ◌<◌, ◌≡◌, Bool, true, false, not, ◌&&◌, ◌||◌, List, [], ◌∷◌, ◌==◌, if◌then◌else◌, arith,
}

pub data FailureStage : Type 0 where
  preparation application backend_drain : FailureStage

pub data RecoveryStatus : Type 0 where
  rolled_back fatal_closed : RecoveryStatus

pub record RecoveryResult : Type 0 where
  pub status : RecoveryStatus
  pub stage : FailureStage
  pub diagnostic : String

pub record Recovery : Type 0 where
  pub visible_generation : ℕ
  pub session_closed : Bool
  pub deliveries_enabled : Bool
  pub provisional_pcm_published : Bool

pub new : ℕ → Recovery
new recoverable_generation = record {
  visible_generation = recoverable_generation;
  session_closed = false;
  deliveries_enabled = true;
  provisional_pcm_published = false;
}

pub fail : Recovery → FailureStage → Bool → Recovery × RecoveryResult
fail r stage rollback_verified =
    let r' = record r { deliveries_enabled = false; provisional_pcm_published = false } in
    if rollback_verified && not (r.visible_generation == 0)
    then (
      record r' { deliveries_enabled = true },
      record { status = rolled_back; stage = stage; diagnostic = "restore_failed_rolled_back" },
    )
    else (
      record r' { visible_generation = 0; session_closed = true },
      record { status = fatal_closed; stage = stage; diagnostic = "restore_failed_state_unknown" },
    )

-- The state after a sequence of failures, each with whether its rollback was verified.
pub run : Recovery → List (FailureStage × Bool) → Recovery
run r [] = r
run r ((stage, verified) ∷ fs) = run (fail r stage verified).0 fs

abbrev pub all_verified : List (FailureStage × Bool) → Bool
all_verified [] = true
all_verified ((stage, verified) ∷ fs) = verified && all_verified fs

-- A closed session shows no generation and delivers nothing; an open one still shows the
-- generation it began with, and delivers.
abbrev Shows : ℕ → Bool → Recovery → Type 0
Shows g closed r =
    (r.session_closed ≡ closed)
    × (r.deliveries_enabled ≡ not closed)
    × (r.provisional_pcm_published ≡ false)
    × (r.visible_generation ≡ (if closed then 0 else g))

fail-Shows :
    (g : ℕ) (closed : Bool) (r : Recovery) (stage : FailureStage) (verified : Bool)
    → 0 < g
    → Shows g closed r
    → Shows g (closed || not verified) (fail r stage verified).0
unfolding fail
fail-Shows g closed r stage verified p s = ground arith

regroup : (a b c : Bool) → (a || not b || not c) ≡ (a || not (b && c))
regroup a b c = ground arith

run-Shows :
    (g : ℕ) (closed : Bool) (r : Recovery) (fs : List (FailureStage × Bool))
    → 0 < g
    → Shows g closed r
    → Shows g (closed || not (all_verified fs)) (run r fs)
unfolding run
run-Shows g closed r [] p s = ground arith
run-Shows g closed r ((stage, verified) ∷ fs) p s =
    subst (λ b. Shows g b (run (fail r stage verified).0 fs))
      (regroup closed verified (all_verified fs))
      (run-Shows g (closed || not verified) (fail r stage verified).0 fs p
        (fail-Shows g closed r stage verified p s))

-- After any failures of a session with a recoverable generation: if every rollback was verified,
-- the session is open, shows that generation and delivers; if a single one was not, it is closed
-- for good, shows no generation and delivers nothing. No provisional output is ever published.
pub run_failures :
    (g : ℕ) (fs : List (FailureStage × Bool))
    → 0 < g
    → let r = run (new g) fs in
      (r.session_closed ≡ not (all_verified fs))
      × (r.deliveries_enabled ≡ all_verified fs)
      × (r.provisional_pcm_published ≡ false)
      × (r.visible_generation ≡ (if all_verified fs then g else 0))
unfolding new
run_failures g fs p = ground (arith, run-Shows g false (new g) fs)
