-- ===== src/Music/Drain.antt =====
-- src/music_backend_drain.h, the class `MusicBackendDrain`: the handshake by which one generation
-- of music output gives way to the next. An operation that returns `bool` returns it beside the
-- new state.
mod Examples
use ayther_runtime.Prelude.{
  ℕ, ◌+◌, ◌%◌, ◌≤◌, ◌<◌, ◌≡◌, ◌≢◌, refl, ◌∙◌, Bool, true, false, not, ◌&&◌, ◌||◌, List, [], ◌∷◌,
  ltb, leb, ◌==◌, if◌then◌else◌, arith,
}
use ayther_runtime.Prelude.Word.{add_u64}

pub record Drain : Type 0 where
  pub requested : Bool
  pub confirmed : Bool
  pub published : Bool
  pub discard_traced : Bool
  pub request_frame : ℕ
  pub confirmation_frame : ℕ
  pub boundary_frame : ℕ
  pub old_generation : ℕ
  pub new_generation : ℕ
  pub emitted : ℕ
  pub discarded : ℕ

pub new : Drain
new = record {
  requested = false;
  confirmed = false;
  published = false;
  discard_traced = false;
  request_frame = 0;
  confirmation_frame = 0;
  boundary_frame = 0;
  old_generation = 0;
  new_generation = 0;
  emitted = 0;
  discarded = 0;
}

pub request : Drain → ℕ → ℕ → Drain × Bool
request d frame generation =
    if d.requested || (frame == 0 || generation == 0)
    then (d, false)
    else (record d { requested = true; request_frame = frame; old_generation = generation }, true)

pub record_emitted : Drain → ℕ → Drain
record_emitted d frames =
    if d.requested && not d.published then record d { emitted = add_u64 d.emitted frames } else d

pub record_discarded : Drain → ℕ → Drain
record_discarded d frames =
    if d.requested && not d.published
    then record d {
      discarded = add_u64 d.discarded frames;
      discard_traced = d.discard_traced || not (frames == 0);
    }
    else d

pub confirm : Drain → ℕ → ℕ → Drain × Bool
confirm d confirmation boundary =
    if not d.requested
      || (d.confirmed || (ltb confirmation d.request_frame || ltb boundary confirmation))
    then (d, false)
    else (
      record d { confirmed = true; confirmation_frame = confirmation; boundary_frame = boundary },
      true,
    )

pub publish : Drain → ℕ → Drain × Bool
publish d generation =
    if not d.confirmed || (d.published || leb generation d.old_generation)
    then (d, false)
    else (record d { published = true; new_generation = generation }, true)

pub data Call : Type 0 where
  requests confirms : ℕ → ℕ → Call
  emits discards publishes : ℕ → Call

pub step : Drain → Call → Drain
step d (requests frame generation) = (request d frame generation).0
step d (confirms confirmation boundary) = (confirm d confirmation boundary).0
step d (emits frames) = record_emitted d frames
step d (discards frames) = record_discarded d frames
step d (publishes generation) = (publish d generation).0

pub run : Drain → List Call → Drain
run d [] = d
run d (c ∷ cs) = run (step d c) cs

-- The stages follow one another, their frames do not fall, and the generation grows. Before the
-- request nothing is counted.
pub record Inv (d : Drain) : Type 0 where
  pub published_confirmed : d.published ≡ true → d.confirmed ≡ true
  pub confirmed_requested : d.confirmed ≡ true → d.requested ≡ true
  pub request_proper : d.requested ≡ true → (0 < d.request_frame) × (0 < d.old_generation)
  pub frames_ordered :
      d.confirmed ≡ true
      → (d.request_frame ≤ d.confirmation_frame) × (d.confirmation_frame ≤ d.boundary_frame)
  pub generation_grows : d.published ≡ true → d.old_generation < d.new_generation
  pub quiet : d.requested ≡ false → (d.emitted ≡ 0) × (d.discarded ≡ 0)
  pub traced : d.discarded ≢ 0 → d.discard_traced ≡ true

step-Inv : (d : Drain) (c : Call) → Inv d → Inv (step d c)
unfolding step request confirm publish record_emitted record_discarded
step-Inv d (requests frame generation) v = ground arith
step-Inv d (confirms confirmation boundary) v = ground arith
step-Inv d (emits frames) v = ground arith
step-Inv d (discards frames) v = ground arith
step-Inv d (publishes generation) v = ground arith

run_from-Inv : (d : Drain) (cs : List Call) → Inv d → Inv (run d cs)
unfolding run
run_from-Inv d [] v = v
run_from-Inv d (c ∷ cs) v = run_from-Inv (step d c) cs (step-Inv d c v)

-- After any calls the stages of the drain have followed one another, with frames that do not fall
-- from the request to the confirmation and the boundary and with a growing generation; nothing was
-- counted before the request, and discarded frames were traced.
pub drain-Inv : (cs : List Call) → Inv (run new cs)
unfolding new
drain-Inv cs = run_from-Inv new cs (ground arith)

step_published : (d : Drain) (c : Call) → Inv d → d.published ≡ true → step d c ≡ d
unfolding step request confirm publish record_emitted record_discarded
step_published d (requests frame generation) v p = ground arith
step_published d (confirms confirmation boundary) v p = ground arith
step_published d (emits frames) v p = ground arith
step_published d (discards frames) v p = ground arith
step_published d (publishes generation) v p = ground arith

run_published : (d : Drain) (cs : List Call) → Inv d → d.published ≡ true → run d cs ≡ d
unfolding run
run_published d [] v p = refl
run_published d (c ∷ cs) v p = rw (step_published d c v p) (run_published d cs v p)

-- Once the new generation is published, no calls change the drain any more.
pub published_frozen :
    (before after : List Call)
    → (run new before).published ≡ true
    → run (run new before) after ≡ run new before
published_frozen before after p = run_published (run new before) after (drain-Inv before) p
