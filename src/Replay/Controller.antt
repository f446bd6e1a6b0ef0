-- ===== src/Replay/Controller.antt =====
-- src/replay_inspection/inspection_state.h: the state of `InspectionController`, its inputs, the
-- orders that it gives, and what can be asked of it.
use Prim.Native.String.{String}
use ayther_runtime.Prelude.{ℕ, Bool, true, false, not, ◌&&◌, Option, List, [], ◌∷◌, value_or}
use ayther_runtime.Prelude.Word.{add_u32}

pub data InspectionPhase : Type 0 where
  preparing playing pausing paused recovering interrupted closing failed : InspectionPhase

pub data CommandKind : Type 0 where
  present_frame recover_frame pause_audio resume_audio notice toggle_debug : CommandKind
  inspection_event confirm_linear_result advance_take finish_traversal close : CommandKind

pub data Notice : Type 0 where
  none not_available busy recovery_failed interrupted no_next_frame : Notice

pub record Command : Type 0 where
  pub kind : CommandKind
  pub frame : ℕ
  pub notice : Notice
  pub control : String

pub data RecoveryOutcome : Type 0 where
  presented failed_restored failed_unrecoverable : RecoveryOutcome

pub data FrameActivity : Type 0 where
  between_frames producing : FrameActivity

abbrev pub Commands : Type 0
Commands = List Command

pub record Controller : Type 0 where
  pub frames : ℕ
  pub last_take : Bool
  pub phase : InspectionPhase
  pub position : Option ℕ
  pub target : Option ℕ
  pub debug_visible : Bool
  pub inspected : Bool
  pub ended_naturally : Bool
  pub take_end_pending : Bool
  pub cause : String

unfoldable pub new : ℕ → Bool → Controller
new frames last_take = record {
  frames = frames;
  last_take = last_take;
  phase = preparing;
  position = Option.none;
  target = Option.none;
  debug_visible = false;
  inspected = false;
  ended_naturally = false;
  take_end_pending = false;
  cause = "";
}

abbrev pub command : CommandKind → ℕ → Command
command kind frame = record { kind = kind; frame = frame; notice = Notice.none; control = "" }

-- The helper `notice` of the source.
abbrev pub notify : Notice → Command
notify value = record { kind = CommandKind.notice; frame = 0; notice = value; control = "" }

abbrev pub event : String → ℕ → Commands
event control frame =
    record { kind = inspection_event; frame = frame; notice = Notice.none; control = control } ∷ []

abbrev pub position_or_zero : Controller → ℕ
position_or_zero c = value_or c.position 0

pub next_frame : Controller → ℕ
next_frame c = elim c.position [ Option.none ↦ 0 | Option.some frame ↦ add_u32 frame 1 ]

abbrev pub is_playing : InspectionPhase → Bool
is_playing playing = true
is_playing p = false

pub may_run_frame : Controller → Bool
may_run_frame c = is_playing c.phase && not c.take_end_pending

unfoldable pub take_end_waits : Controller → Bool
take_end_waits c = is_playing c.phase && c.take_end_pending
