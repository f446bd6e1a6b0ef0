-- ===== src/Music/Warning.antt =====
-- src/music_warning.h, the class `MusicWarningAggregator`: repeated warnings are counted and
-- emitted once per period. Texts are strings; the hash map of states is an association list, whose
-- order is that of the first warnings (the source fixes none).
pub mod Counts
mod Examples
use Prim.Native.String.{String, ◌++◌}
use text.Mathlib.Text.{◌==◌ as str_eq}
use ayther_runtime.Prelude.{
  ℕ, ◌-◌, Bool, true, false, not, Option, none, some, List, [], ◌∷◌, ltb, ◌==◌, if◌then◌else◌,
}
use ayther_runtime.Prelude.Word.{add_u64, sub_u64}

pub data Code : Type 0 where
  analysis_obsolete game_pause_unobservable analysis_limit : Code
  incompatible_pack restore_failed_rolled_back : Code

pub code_text : Code → String
code_text analysis_obsolete = "analysis_obsolete"
code_text game_pause_unobservable = "game_pause_unobservable"
code_text analysis_limit = "analysis_limit"
code_text incompatible_pack = "incompatible_pack"
code_text restore_failed_rolled_back = "restore_failed_rolled_back"

pub record Warning : Type 0 where
  pub code : Code
  pub logical_identity : String
  pub detail : String
  pub monotonic_ns : ℕ

pub record Aggregate : Type 0 where
  pub warning : Warning
  pub count : ℕ
  pub first_ns : ℕ
  pub last_ns : ℕ
  pub detail : String

pub record State : Type 0 where
  pub last : Warning
  pub last_emit_ns : ℕ
  pub pending : ℕ
  pub pending_first_ns : ℕ
  pub pending_last_ns : ℕ

-- A state under the key of its condition.
pub record Entry : Type 0 where
  pub key : String
  pub state : State

pub record Aggregator : Type 0 where
  pub minimum_period_ns : ℕ
  pub states : List Entry
  pub full_trace : List Warning

pub new : ℕ → Aggregator
new minimum_period_ns = record {
  minimum_period_ns = minimum_period_ns;
  states = [];
  full_trace = [];
}

-- The parts of a condition, each closed by the zero character.
pub key : Warning → String
unfolding code_text
key w = code_text w.code ++ ("\0" ++ (w.logical_identity ++ ("\0" ++ w.detail)))

pub find : String → List Entry → Option State
find k [] = none
find k (e ∷ es) = if str_eq e.key k then some e.state else find k es

-- Replaces the state under a key, or adds one.
pub put : String → State → List Entry → List Entry
put k s [] = record { key = k; state = s } ∷ []
put k s (e ∷ es) = if str_eq e.key k then record e { state = s } ∷ es else e ∷ put k s es

pub pending_aggregate : State → Aggregate
pending_aggregate s = record {
  warning = s.last;
  count = s.pending;
  first_ns = s.pending_first_ns;
  last_ns = s.pending_last_ns;
  detail = s.last.detail;
}

-- The state and the aggregate of a condition that is new, or whose clock went back.
pub restart : Warning → State × Option Aggregate
restart w = (
  record {
    last = w;
    last_emit_ns = w.monotonic_ns;
    pending = 0;
    pending_first_ns = 0;
    pending_last_ns = 0;
  },
  some (record {
    warning = w;
    count = 1;
    first_ns = w.monotonic_ns;
    last_ns = w.monotonic_ns;
    detail = w.detail;
  }),
)

-- One more warning of a known condition.
pub repeat : ℕ → State → Warning → State × Option Aggregate
repeat period s w =
    let counted : State = record s {
      pending_first_ns = if s.pending == 0 then w.monotonic_ns else s.pending_first_ns;
      pending = add_u64 s.pending 1;
      pending_last_ns = w.monotonic_ns;
      last = w;
    } in
    if ltb (sub_u64 w.monotonic_ns s.last_emit_ns) period then (counted, none) else (
      record counted { pending = 0; last_emit_ns = w.monotonic_ns },
      some (pending_aggregate counted),
    )

pub next_state : ℕ → Option State → Warning → State × Option Aggregate
next_state period none w = restart w
next_state period (some s) w =
    if ltb w.monotonic_ns s.last_emit_ns then restart w else repeat period s w

-- `std::vector::push_back`.
abbrev pub snoc : Warning → List Warning → List Warning
snoc w [] = w ∷ []
snoc w (x ∷ xs) = x ∷ snoc w xs

pub push : Aggregator → Warning → Aggregator × Option Aggregate
push a w =
    let (s, emitted) = next_state a.minimum_period_ns (find (key w) a.states) w in
    (record a { states = put (key w) s a.states; full_trace = snoc w a.full_trace }, emitted)

pub close_states : List Entry → List Entry × List Aggregate
close_states [] = ([], [])
close_states (e ∷ es) =
    let (es', out) = close_states es in
    if not (e.state.pending == 0)
    then (
      record e { state = record (e.state) { pending = 0 } } ∷ es',
      pending_aggregate e.state ∷ out,
    )
    else (e ∷ es', out)

pub close : Aggregator → Aggregator × List Aggregate
close a = let (states', out) = close_states a.states in (record a { states = states' }, out)
