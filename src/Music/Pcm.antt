-- ===== src/Music/Pcm.antt =====
-- src/music_pcm_backend.h, the class `MusicPcmBackend`: a queue of samples that belong to one
-- generation, drained before the next one is published. The samples are only moved, so their type
-- is a parameter.
pub mod Generations
mod Examples
use ayther_runtime.Prelude.{
  ℕ, Bool, true, false, not, ◌&&◌, ◌||◌, List, [], ◌∷◌, ◌++◌, ltb, leb, ◌==◌, if◌then◌else◌, length,
}
use ayther_runtime.Prelude.Word.{add_u64}

pub record Output (A : Type 0) : Type 0 where
  pub generation : ℕ
  pub first_frame : ℕ
  pub samples : List A

pub record Backend (A : Type 0) : Type 0 where
  pub queue : List A
  pub active_generation : ℕ
  pub request_frame : ℕ
  pub confirmation_frame : ℕ
  pub first_output_frame : ℕ
  pub discarded_frames : ℕ
  pub deliveries_stopped : Bool
  pub drain_performed : Bool
  pub confirmed : Bool

module _ {A : Type 0} where
  abbrev pub is_empty : List A → Bool
  is_empty [] = true
  is_empty (x ∷ xs) = false

  pub new : Backend A
  new = record {
    queue = [];
    active_generation = 0;
    request_frame = 0;
    confirmation_frame = 0;
    first_output_frame = 0;
    discarded_frames = 0;
    deliveries_stopped = false;
    drain_performed = false;
    confirmed = false;
  }

  pub enqueue : Backend A → ℕ → List A → Backend A × Bool
  enqueue b generation samples =
      if generation == 0
        || (is_empty samples
            || ((not (b.active_generation == 0) && not (generation == b.active_generation))
                || b.deliveries_stopped))
      then (b, false)
      else (record b { active_generation = generation; queue = b.queue ++ samples }, true)

  pub stop_deliveries : Backend A → ℕ → Backend A × Bool
  stop_deliveries b request =
      if b.deliveries_stopped || request == 0
      then (b, false)
      else (record b { deliveries_stopped = true; request_frame = request }, true)

  pub invalidate_and_drain : Backend A → ℕ → Backend A × Bool
  invalidate_and_drain b generation =
      if not b.deliveries_stopped || not (generation == b.active_generation) then (b, false) else (
        record b {
          discarded_frames = add_u64 b.discarded_frames (length b.queue);
          queue = [];
          drain_performed = true;
        },
        true,
      )

  pub confirm_drained : Backend A → ℕ → Backend A × Bool
  confirm_drained b confirmation =
      if not b.deliveries_stopped
        || (not b.drain_performed || (not (is_empty b.queue) || ltb confirmation b.request_frame))
      then (b, false)
      else (record b { confirmed = true; confirmation_frame = confirmation }, true)

  pub publish_generation : Backend A → ℕ → ℕ → Backend A × Bool
  publish_generation b generation boundary =
      if not b.confirmed
        || (leb generation b.active_generation || ltb boundary b.confirmation_frame)
      then (b, false)
      else (
        record b {
          active_generation = generation;
          first_output_frame = boundary;
          deliveries_stopped = false;
          confirmed = false;
          drain_performed = false;
        },
        true,
      )

  pub rollback : Backend A → ℕ → Backend A × Bool
  rollback b generation =
      if not b.deliveries_stopped || not (generation == b.active_generation) then (b, false) else (
        record b { deliveries_stopped = false; confirmed = false; drain_performed = false },
        true,
      )

  pub consume : Backend A → Backend A × Output A
  consume b =
      if b.deliveries_stopped
      then (b, record { generation = 0; first_frame = 0; samples = [] })
      else (
        record b { queue = [] },
        record {
          generation = b.active_generation;
          first_frame = b.first_output_frame;
          samples = b.queue;
        },
      )

pub data Call (A : Type 0) : Type 0 where
  enqueues : ℕ → List A → Call A
  stops drains confirms rolls_back : ℕ → Call A
  publishes : ℕ → ℕ → Call A
  consumes : Call A

module _ {A : Type 0} where
  abbrev pub nothing : Output A
  nothing = record { generation = 0; first_frame = 0; samples = [] }

  -- The new state, and what the call delivers.
  pub step : Backend A → Call A → Backend A × Output A
  step b (enqueues generation samples) = ((enqueue b generation samples).0, nothing)
  step b (stops request) = ((stop_deliveries b request).0, nothing)
  step b (drains generation) = ((invalidate_and_drain b generation).0, nothing)
  step b (confirms confirmation) = ((confirm_drained b confirmation).0, nothing)
  step b (rolls_back generation) = ((rollback b generation).0, nothing)
  step b (publishes generation boundary) = ((publish_generation b generation boundary).0, nothing)
  step b consumes = consume b

  -- All that a sequence of calls delivers.
  pub deliveries : Backend A → List (Call A) → List (Output A)
  deliveries b [] = []
  deliveries b (c ∷ cs) = (step b c).1 ∷ deliveries (step b c).0 cs
