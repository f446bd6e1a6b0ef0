-- ===== src/Music/ProductFlow.antt =====
-- src/music_product_flow.h, the class `MusicProductFlow`: the stages from a selected range of
-- samples to a running pack. Identifiers are texts; an operation returns its `bool` beside the
-- new state.
pub mod Stages
mod Examples
use Prim.Native.String.{String, ◌++◌}
use ayther_runtime.Prelude.{ℕ, Bool, true, false, not, ◌||◌, List, ltb, if◌then◌else◌}

pub record SampleRange : Type 0 where
  pub begin : ℕ
  pub end : ℕ

-- `ProductSampleRange::valid`.
abbrev pub is_valid : SampleRange → Bool
is_valid r = ltb r.begin r.end

pub data Stage : Type 0 where
  empty range authored previewed baked runtime : Stage

-- `ProductFlowState`.
pub record Accepted : Type 0 where
  pub stage : Stage
  pub range : SampleRange
  pub identity : String
  pub pack_revision : String
  pub saved : String
  pub take : String
  pub cursor : ℕ
  pub host_paused : Bool

pub record Flow : Type 0 where
  pub accepted : Accepted
  pub working : Accepted
  pub replay_id : String
  pub navigation_id : String

abbrev initial : Accepted
initial = record {
  stage = empty;
  range = record { begin = 0; end = 0 };
  identity = "";
  pack_revision = "";
  saved = "";
  take = "take-1";
  cursor = 0;
  host_paused = false;
}

pub new : Flow
new = record { accepted = initial; working = initial; replay_id = ""; navigation_id = "" }

-- `std::string::empty`.
abbrev pub is_empty : String → Bool
is_empty String.[] = true
is_empty (String.◌∷◌ c s) = false

abbrev is_range : Stage → Bool
is_range Stage.range = true
is_range s = false

abbrev is_authored : Stage → Bool
is_authored authored = true
is_authored s = false

abbrev is_previewed : Stage → Bool
is_previewed previewed = true
is_previewed s = false

abbrev is_baked : Stage → Bool
is_baked baked = true
is_baked s = false

abbrev pub is_runtime : Stage → Bool
is_runtime runtime = true
is_runtime s = false

pub select_range : Flow → SampleRange → Flow × Bool
select_range f r =
    let next : Accepted = record f.accepted { range = r; stage = Stage.range } in
    if not (is_valid r) then (f, false) else (record f { working = next; accepted = next }, true)

pub author : Flow → String → Flow × Bool
author f identity = if not (is_range f.accepted.stage) || is_empty identity then (f, false) else (
  record f { accepted = record (f.accepted) { identity = identity; stage = authored } },
  true,
)

pub preview : Flow → Flow × Bool
preview f =
    if not (is_authored f.accepted.stage)
    then (f, false)
    else (record f { accepted = record (f.accepted) { stage = previewed } }, true)

pub bake : Flow → String → Flow × Bool
bake f revision = if not (is_previewed f.accepted.stage) || is_empty revision then (f, false) else (
  record f { accepted = record (f.accepted) { pack_revision = revision; stage = baked } },
  true,
)

pub start_runtime : Flow → Flow × Bool
start_runtime f = if not (is_baked f.accepted.stage) then (f, false) else (
  record f {
    accepted = record (f.accepted) { stage = runtime };
    replay_id = "replay:" ++ (f.accepted.pack_revision ++ (":" ++ f.accepted.take));
  },
  true,
)

pub pause_host : Flow → Bool → Flow × Bool
pause_host f paused =
    if not (is_runtime f.accepted.stage)
    then (f, false)
    else (record f { accepted = record (f.accepted) { host_paused = paused } }, true)

pub save : Flow → String → Flow × Bool
save f save_id =
    if not (is_runtime f.accepted.stage) || is_empty save_id
    then (f, false)
    else (record f { accepted = record (f.accepted) { saved = save_id } }, true)

pub cancel_analysis : Flow → String → Flow × Bool
cancel_analysis f reason = (record f { working = f.accepted }, false)

pub navigate : Flow → String → Flow × Bool
navigate f take = if not (is_runtime f.accepted.stage) || is_empty take then (f, false) else (
  record f {
    accepted = record (f.accepted) { take = take; cursor = 0; saved = "" };
    navigation_id = "navigation:" ++ take;
  },
  true,
)

pub data Call : Type 0 where
  selects : SampleRange → Call
  authors bakes saves cancels navigates : String → Call
  previews starts : Call
  pauses : Bool → Call

pub step : Flow → Call → Flow × Bool
step f (selects r) = select_range f r
step f (authors identity) = author f identity
step f previews = preview f
step f (bakes revision) = bake f revision
step f starts = start_runtime f
step f (pauses paused) = pause_host f paused
step f (saves save_id) = save f save_id
step f (cancels reason) = cancel_analysis f reason
step f (navigates take) = navigate f take
