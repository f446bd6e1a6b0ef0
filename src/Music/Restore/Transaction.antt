-- ===== src/Music/Restore/Transaction.antt =====
-- src/music_restore_transaction.h: a restored state becomes visible in one step, at its boundary.
mod Examples
use ayther_runtime.Prelude.{
  ℕ, ◌≤◌, ◌<◌, ◌≡◌, ◌≢◌, refl, ◌⊎◌, inl, inr, Bool, true, false, not, ◌&&◌, ◌||◌, List, [], ◌∷◌,
  leb, ◌==◌, if◌then◌else◌, arith,
}

pub record Transaction : Type 0 where
  pub visible_generation : ℕ
  pub visible_boundary : ℕ
  pub prepared_generation : ℕ
  pub prepared_boundary : ℕ
  pub host_paused : Bool
  pub game_music_paused : Bool
  pub prepared_game_music_paused : Bool
  pub prepared : Bool
  pub published : Bool
  pub states_visible_together : Bool
  pub link_active : Bool

pub new : ℕ → ℕ → Bool → Bool → Transaction
new generation boundary host_paused game_music_paused = record {
  visible_generation = generation;
  visible_boundary = boundary;
  prepared_generation = 0;
  prepared_boundary = 0;
  host_paused = host_paused;
  game_music_paused = game_music_paused;
  prepared_game_music_paused = false;
  prepared = false;
  published = false;
  states_visible_together = false;
  link_active = false;
}

pub prepare : Transaction → ℕ → ℕ → Bool → Transaction × Bool
prepare t generation boundary running =
    if t.prepared
      || (t.published || (leb generation t.visible_generation || leb boundary t.visible_boundary))
    then (t, false)
    else (
      record t {
        prepared = true;
        prepared_generation = generation;
        prepared_boundary = boundary;
        prepared_game_music_paused = not running;
      },
      true,
    )

pub publish : Transaction → ℕ → Transaction × Bool
publish t boundary =
    if not t.prepared || (t.published || not (boundary == t.prepared_boundary))
    then (t, false)
    else (
      record t {
        visible_generation = t.prepared_generation;
        visible_boundary = t.prepared_boundary;
        game_music_paused = t.prepared_game_music_paused;
        link_active = false;
        published = true;
        states_visible_together = true;
      },
      true,
    )

pub set_link_active : Transaction → Bool → Transaction
set_link_active t active = record t { link_active = active }

pub accepts_decision : Transaction → ℕ → Bool
accepts_decision t generation = t.published && generation == t.visible_generation

pub accepts_pcm : Transaction → ℕ → ℕ → Bool
accepts_pcm t generation frame =
    t.published && (generation == t.visible_generation && leb t.visible_boundary frame)

pub data Call : Type 0 where
  prepares : ℕ → ℕ → Bool → Call
  publishes : ℕ → Call
  links : Bool → Call

pub step : Transaction → Call → Transaction
step t (prepares generation boundary running) = (prepare t generation boundary running).0
step t (publishes boundary) = (publish t boundary).0
step t (links active) = set_link_active t active

pub run : Transaction → List Call → Transaction
run t [] = t
run t (c ∷ cs) = run (step t c) cs

-- Relative to the start of the transaction: until the publication the visible state is the old
-- one, and afterwards it is the prepared one, all of it, later in generation and boundary.
pub record Inv (s t : Transaction) : Type 0 where
  pub host : t.host_paused ≡ s.host_paused
  pub prepared_later :
      t.prepared ≡ true
      → (s.visible_generation < t.prepared_generation) × (s.visible_boundary < t.prepared_boundary)
  pub published_prepared : t.published ≡ true → t.prepared ≡ true
  pub together : t.states_visible_together ≡ t.published
  pub old_generation :
      t.visible_generation ≡ (if t.published then t.prepared_generation else s.visible_generation)
  pub old_boundary :
      t.visible_boundary ≡ (if t.published then t.prepared_boundary else s.visible_boundary)
  pub old_pause :
      t.game_music_paused
      ≡ (if t.published then t.prepared_game_music_paused else s.game_music_paused)

step-Inv : (s t : Transaction) (c : Call) → Inv s t → Inv s (step t c)
unfolding step prepare publish set_link_active
step-Inv s t (prepares g b r) v = ground arith
step-Inv s t (publishes b) v = ground arith
step-Inv s t (links a) v = ground arith

run_from-Inv : (s t : Transaction) (cs : List Call) → Inv s t → Inv s (run t cs)
unfolding run
run_from-Inv s t [] v = v
run_from-Inv s t (c ∷ cs) v = run_from-Inv s (step t c) cs (step-Inv s t c v)

new-Inv : (g b : ℕ) (host paused : Bool) → Inv (new g b host paused) (new g b host paused)
unfolding new
new-Inv g b host paused = ground arith

-- After any calls the host's pause is as it was. Unless a restoration was published, the visible
-- generation, boundary and music pause are those of the start; if it was, all three are the
-- prepared ones, the generation and the boundary are later than before, and the states are
-- visible together.
pub transaction-Inv :
    (g b : ℕ) (host paused : Bool) (cs : List Call)
    → Inv (new g b host paused) (run (new g b host paused) cs)
transaction-Inv g b host paused cs =
    run_from-Inv (new g b host paused) (new g b host paused) cs (new-Inv g b host paused)

accepts_later :
    (s t : Transaction) (generation frame : ℕ)
    → Inv s t
    → accepts_pcm t generation frame ≡ true
    → (t.published ≡ true)
      × (generation ≡ t.prepared_generation)
      × (s.visible_generation < generation)
      × (t.prepared_boundary ≤ frame)
      × (s.visible_boundary < frame)
      × (accepts_decision t generation ≡ true)
unfolding accepts_pcm accepts_decision
accepts_later s t generation frame v h = ground arith

-- Output is accepted only after the publication, for the prepared generation and from the prepared
-- boundary on, both later than what was visible at the start; and where output is accepted,
-- decisions of that generation are too.
pub accepts_pcm_sound :
    (g b : ℕ) (host paused : Bool) (cs : List Call) (generation frame : ℕ)
    → accepts_pcm (run (new g b host paused) cs) generation frame ≡ true
    → let t = run (new g b host paused) cs in
      (t.published ≡ true)
      × (generation ≡ t.prepared_generation)
      × (g < generation)
      × (t.prepared_boundary ≤ frame)
      × (b < frame)
      × (accepts_decision t generation ≡ true)
unfolding new
accepts_pcm_sound g b host paused cs generation frame h =
    accepts_later (new g b host paused) (run (new g b host paused) cs) generation frame
      (transaction-Inv g b host paused cs) h
