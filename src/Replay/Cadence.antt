-- ===== src/Replay/Cadence.antt =====
-- src/replay_inspection/inspection_state.h and inspection_state.cpp, the class `PlaybackCadence`
-- and `start_frame_now`. Times and periods are ticks of the steady clock, as natural numbers.
mod Examples
use mathlib.Core.Path.{ap₂}
use ayther_runtime.Prelude.{
  ℕ, suc, zero, ◌+◌, ◌*◌, ◌<◌, ◌≡◌, refl, ap, Bool, true, false, List, [], ◌∷◌, ltb, leb, arith,
  length, if◌then◌else◌, ◌&&◌,
}
use ayther_runtime.Replay.Controller.{InspectionPhase, pausing, playing, is_playing}

pub record PlaybackCadence : Type 0 where
  pub period : ℕ
  pub next : ℕ
  pub anchored : Bool

pub new : ℕ → ℕ → PlaybackCadence
new period now = record { period = period; next = now; anchored = false }

pub restart : PlaybackCadence → ℕ → PlaybackCadence
restart c now = record c { next = now; anchored = true }

-- The new cadence, and whether the frame was late.
pub frame_completed : PlaybackCadence → ℕ → PlaybackCadence × Bool
frame_completed c completed =
    let turn = c.next + c.period in
    if c.anchored
    then (record c { next = turn }, ltb (turn + c.period) completed)
    else (record c { anchored = true; next = completed + c.period }, false)

is_pausing : InspectionPhase → Bool
is_pausing pausing = true
is_pausing p = false

pub start_frame_now : InspectionPhase → ℕ → ℕ → Bool
unfolding is_pausing
start_frame_now phase now due = if is_pausing phase then true else is_playing phase && leb due now

-- The lateness of each frame of a sequence of completion times.
pub lates : PlaybackCadence → List ℕ → List Bool
lates c [] = []
lates c (t ∷ ts) = (frame_completed c t).1 ∷ lates (frame_completed c t).0 ts

-- The turn after a sequence of completion times.
pub turn_after : PlaybackCadence → List ℕ → ℕ
turn_after c [] = c.next
turn_after c (t ∷ ts) = turn_after (frame_completed c t).0 ts

-- The frame number `k` after an anchor is late if it completes more than two periods after its
-- turn, `anchor + k * period`.
abbrev pub late_after : ℕ → ℕ → ℕ → List ℕ → List Bool
late_after anchor period k [] = []
late_after anchor period k (t ∷ ts) =
    ltb (anchor + (k + 2) * period) t ∷ late_after anchor period (suc k) ts

-- An anchored turn moves by one period.
anchored_step :
    (c : PlaybackCadence) (t : ℕ)
    → c.anchored ≡ true
    → frame_completed c t
      ≡ (record c { next = c.next + c.period }, ltb (c.next + c.period + c.period) t)
unfolding frame_completed
anchored_step c t a = rw a

lates_anchored :
    (anchor k : ℕ) (c : PlaybackCadence) (ts : List ℕ)
    → c.anchored ≡ true
    → c.next ≡ anchor + k * c.period
    → lates c ts ≡ late_after anchor c.period k ts
unfolding lates
lates_anchored anchor k c [] a e = refl
lates_anchored anchor k c (t ∷ ts) a e = rw (anchored_step c t a) (
    ap₂ ◌∷◌ (ap (λ x. ltb x t) (omega (arith, e))) (
      lates_anchored anchor (suc k) (record c { next = c.next + c.period }) ts a
        (omega (arith, e))))

turn_anchored :
    (c : PlaybackCadence) (ts : List ℕ)
    → c.anchored ≡ true
    → turn_after c ts ≡ c.next + length ts * c.period
unfolding turn_after
turn_anchored c [] a = omega arith
turn_anchored c (t ∷ ts) a =
    rw (anchored_step c t a)
      (omega (arith, turn_anchored (record c { next = c.next + c.period }) ts a))

-- After a resume each completed frame moves the turn by exactly one period, whenever it completed,
-- and the frame number `k` is late exactly if it completes more than two periods after its turn
-- `now + k * period`: no delay carries over.
pub restart_no_drift :
    (c : PlaybackCadence) (now : ℕ) (ts : List ℕ)
    → (lates (restart c now) ts ≡ late_after now c.period 0 ts)
      × (turn_after (restart c now) ts ≡ now + length ts * c.period)
unfolding restart
restart_no_drift c now ts = (
  lates_anchored now 0 (restart c now) ts refl (omega arith),
  turn_anchored (restart c now) ts refl,
)

-- The first frame after the preparation is never late, however long it took, and its completion
-- anchors the turns of all later frames: the next one is due a period later.
pub first_frame_anchors :
    (period start first : ℕ) (ts : List ℕ)
    → (lates (new period start) (first ∷ ts) ≡ false ∷ late_after (first + period) period 0 ts)
      × (turn_after (new period start) (first ∷ ts) ≡ first + period + length ts * period)
unfolding lates turn_after new frame_completed
first_frame_anchors period start first ts = (
  ap (λ l. false ∷ l) (lates_anchored (first + period) 0 anchor ts refl (omega arith)),
  turn_anchored anchor ts refl,
)
  where
    anchor : PlaybackCadence
    anchor = record { period = period; next = first + period; anchored = true }
