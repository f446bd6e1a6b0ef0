-- ===== src/AudioQa/Arbiter.antt =====
-- tools/audio_qa/request_terminal_arbiter.h and request_terminal_arbiter.cpp, with the outcomes of
-- request_outcome.h: how a take and its request end when events coincide. Counters are 64-bit
-- words; diagnostics are texts.
pub mod Verdict
pub mod Controls
mod Examples
use Prim.Native.String.{String}
use ayther_runtime.Prelude.{
  ℕ, ◌-◌, Bool, true, false, not, ◌&&◌, ◌||◌, Option, List, [], ◌∷◌, ltb, if◌then◌else◌, is_some,
}
use ayther_runtime.Prelude.Word.{add_u64}

pub data PlaybackKind : Type 0 where
  natural_end cancelled failed interrupted : PlaybackKind

pub record PlaybackOutcome : Type 0 where
  pub kind : PlaybackKind
  pub diagnostic : String

pub data Stop : Type 0 where
  none cancellation failure : Stop

pub record Arbiter : Type 0 where
  pub take_active : Bool
  pub confirmed : Bool
  pub was_cancelled : Bool
  pub ended_naturally : Bool
  pub failure : Option PlaybackOutcome
  pub confirmed_result : Option PlaybackOutcome
  pub pending_controls : ℕ
  pub discarded_controls : ℕ
  pub stop : Stop

pub new : Arbiter
new = record {
  take_active = false;
  confirmed = false;
  was_cancelled = false;
  ended_naturally = false;
  failure = Option.none;
  confirmed_result = Option.none;
  pending_controls = 0;
  discarded_controls = 0;
  stop = Stop.none;
}

pub begin_take : Arbiter → Arbiter
begin_take a = record a {
  take_active = true;
  confirmed = false;
  was_cancelled = false;
  ended_naturally = false;
  failure = Option.none;
  confirmed_result = Option.none;
  pending_controls = 0;
  discarded_controls = 0;
}

pub stop_for : Arbiter → Stop → Arbiter
stop_for a reason = record a {
  stop = elim a.stop [ Stop.none ↦ reason | cancellation ↦ cancellation | failure ↦ failure ];
}

-- The controls still pending are discarded.
pub discard_pending : Arbiter → Arbiter
discard_pending a = record a {
  discarded_controls = add_u64 a.discarded_controls a.pending_controls;
  pending_controls = 0;
}

pub cancel : Arbiter → Arbiter × Bool
unfolding discard_pending stop_for
cancel a =
    let decides =
      a.take_active && (not a.confirmed && (not a.was_cancelled && not (is_some a.failure))) in
    (
      stop_for (if decides then record (discard_pending a) { was_cancelled = true } else a)
          cancellation,
      decides,
    )

pub fail : Arbiter → String → Bool → Arbiter × Bool
unfolding discard_pending stop_for
fail a text was_interrupted =
    if not a.take_active || (a.confirmed || (a.was_cancelled || is_some a.failure))
    then (a, false)
    else (
      stop_for
          (record (discard_pending a) {
            failure = Option.some (record {
              kind = if was_interrupted then interrupted else failed;
              diagnostic = text;
            });
          })
          Stop.failure,
      true,
    )

pub end_naturally : Arbiter → Arbiter × Bool
end_naturally a =
    if not a.take_active
      || (a.confirmed || (a.was_cancelled || (is_some a.failure || a.ended_naturally)))
    then (a, false)
    else (record a { ended_naturally = true }, true)

pub queue_control : Arbiter → Arbiter × Bool
queue_control a =
    if not a.take_active || (a.was_cancelled || is_some a.failure)
    then (record a { discarded_controls = add_u64 a.discarded_controls 1 }, false)
    else (record a { pending_controls = add_u64 a.pending_controls 1 }, true)

pub control_sent : Arbiter → Arbiter
control_sent a =
    if ltb 0 a.pending_controls then record a { pending_controls = a.pending_controls - 1 } else a

-- The result of the active take as decided so far.
pub playback : Arbiter → Option PlaybackOutcome
playback a =
    if a.confirmed
    then a.confirmed_result
    else if a.was_cancelled
    then Option.some (record { kind = PlaybackKind.cancelled; diagnostic = "" })
    else if is_some a.failure
    then a.failure
    else if a.ended_naturally
    then Option.some (record { kind = PlaybackKind.natural_end; diagnostic = "" })
    else Option.none

pub confirm : Arbiter → Arbiter × Option PlaybackOutcome
unfolding playback
confirm a =
    if a.confirmed
    then (a, a.confirmed_result)
    else if is_some (playback a)
    then (record a { confirmed = true; confirmed_result = playback a }, playback a)
    else (a, playback a)

pub not_started_reason : Arbiter → String
not_started_reason a = elim a.stop [
  | Stop.none ↦ ""
  | cancellation ↦ "not_started_after_cancellation"
  | failure ↦ "not_started_after_failure"
]

-- What the supervisor tells the arbiter during a take.
pub data Event : Type 0 where
  cancels ends queues sends confirms : Event
  fails : String → Bool → Event

pub step : Arbiter → Event → Arbiter
unfolding cancel fail end_naturally queue_control control_sent confirm
step a cancels = (cancel a).0
step a (fails text was_interrupted) = (fail a text was_interrupted).0
step a ends = (end_naturally a).0
step a queues = (queue_control a).0
step a sends = control_sent a
step a confirms = (confirm a).0

pub run : Arbiter → List Event → Arbiter
run a [] = a
run a (e ∷ es) = run (step a e) es
