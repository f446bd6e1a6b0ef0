-- ===== src/Replay/RecoveryPlanner.antt =====
-- src/replay_inspection/recovery_planner.h and recovery_planner.cpp: how to reach a target frame.
mod Examples
use ayther_runtime.Prelude.{
  ℕ, zero, suc, ◌+◌, ◌-◌, ◌%◌, ◌≤◌, ◌<◌, ◌≡◌, ◌≢◌, refl, ap, ◌⊎◌, inl, inr, Bool, true, false,
  Option, none, some, List, [], ◌∷◌, arith, All, Option-cases, Bool-cases, ◌==◌, if◌then◌else◌,
}
use ayther_runtime.Prelude.Int.{ℤ, pos, negsuc, pos_part, neg_part, ◌≤ℤ◌, ◌<ℤ◌}
use ayther_runtime.Prelude.Word.{u32_mod, add_u32}
use ayther_runtime.Replay.CheckpointRing.{
  CheckpointEntry, CheckpointRing, is_initial, starts_initial, has_initial, latest_at_most,
  initial_checkpoint_frame,
}
use ayther_runtime.Replay.CheckpointRing.Order.{
  All-above, IsSorted, HasFrame, IsLatest, latest_at_most-IsLatest,
}

pub data RecoveryKind : Type 0 where
  step restore impossible : RecoveryKind

pub record RecoveryPlan : Type 0 where
  pub kind : RecoveryKind
  pub checkpoint : ℤ
  pub replay_from : ℕ
  pub replay_to : ℕ

-- `static_cast<std::int64_t>(target) - 1`.
abbrev pub before : ℕ → ℤ
before zero = negsuc 0
before (suc n) = pos n

-- `static_cast<std::uint32_t>(checkpoint + 1)`.
abbrev pub after : ℤ → ℕ
after (pos n) = (n + 1) % u32_mod
after (negsuc n) = (u32_mod - n % u32_mod) % u32_mod

unfoldable pub plan_recovery : CheckpointRing → ℕ → ℕ → RecoveryPlan
plan_recovery ring confirmed target =
    if target == add_u32 confirmed 1
    then record {
      kind = step;
      checkpoint = pos confirmed;
      replay_from = target;
      replay_to = target;
    }
    else elim (latest_at_most ring (before target)) [
      | none ↦ record {
        kind = impossible;
        checkpoint = initial_checkpoint_frame;
        replay_from = 0;
        replay_to = 0;
      }
      | some checkpoint ↦ record {
        kind = restore;
        checkpoint = checkpoint;
        replay_from = after checkpoint;
        replay_to = target;
      }
    ]

-- A plan that restores a checkpoint of the ring before the target, the latest such one, and then
-- produces each frame behind it up to the target.
abbrev pub IsReplay : CheckpointRing → ℕ → RecoveryPlan → Type 0
IsReplay ring target p =
    (p.kind ≡ restore)
    × HasFrame p.checkpoint ring.entries
    × (p.replay_from + neg_part p.checkpoint ≡ pos_part p.checkpoint + 1)
    × (p.replay_to ≡ target)
    × (p.replay_from ≤ target)
    × All (λ e. e.frame <ℤ pos target → e.frame ≤ℤ p.checkpoint) ring.entries

before_lem : (t : ℕ) (f : ℤ) → f <ℤ pos t → f ≤ℤ before t
before_lem zero f h = omega arith
before_lem (suc t) f h = omega arith

after_lem :
    (c : ℤ) (t : ℕ)
    → t < u32_mod
    → neg_part c ≤ 1
    → c ≤ℤ before t
    → after c + neg_part c ≡ pos_part c + 1
after_lem (pos n) zero t b h = omega arith
after_lem (pos n) (suc k) t b h = omega arith
after_lem (negsuc n) k t b h = ground arith

before-lt : (c : ℤ) (t : ℕ) → c ≤ℤ before t → pos_part c + 1 ≤ t + neg_part c
before-lt c zero h = omega arith
before-lt c (suc t) h = omega arith

top_before :
    (c : ℤ) (t : ℕ) (es : List CheckpointEntry)
    → All (λ e. e.frame ≤ℤ before t → e.frame ≤ℤ c) es
    → All (λ e. e.frame <ℤ pos t → e.frame ≤ℤ c) es
top_before c t [] a = tt
top_before c t (e ∷ es) a = ((λ h. a.0 (before_lem t e.frame h)), top_before c t es a.1)

restore-IsReplay :
    (ring : CheckpointRing) (target : ℕ) (c : ℤ)
    → target < u32_mod
    → neg_part c ≤ 1
    → IsLatest (before target) ring.entries (some c)
    → IsReplay ring target
        (record { kind = restore; checkpoint = c; replay_from = after c; replay_to = target })
restore-IsReplay ring target c t n (le, mem, top) =
    let step_after = after_lem c target t n le in
    (
      refl,
      mem,
      step_after,
      refl,
      omega (arith, before-lt c target le),
      top_before c target ring.entries top,
    )

one_sign : (z : ℤ) → (pos_part z ≡ 0) ⊎ (neg_part z ≡ 0)
one_sign (pos n) = inr refl
one_sign (negsuc n) = inl refl

initial_parts :
    (e : CheckpointEntry) → is_initial e ≡ true → (pos_part e.frame ≡ 0) × (neg_part e.frame ≡ 1)
initial_parts e i = ground arith

-- The frames of a list whose entries are at or after the initial one.
frame_of_initial :
    (f : ℤ) (es : List CheckpointEntry)
    → All (λ e. negsuc 0 ≤ℤ e.frame) es
    → HasFrame f es
    → neg_part f ≤ 1
frame_of_initial f [] a m = absurd m
frame_of_initial f (e ∷ es) a (inl p) = omega (arith, ap neg_part p, a.0, one_sign e.frame)
frame_of_initial f (e ∷ es) a (inr m) = frame_of_initial f es a.1 m

from_initial :
    (es : List CheckpointEntry)
    → starts_initial es ≡ true
    → IsSorted es
    → All (λ e. negsuc 0 ≤ℤ e.frame) es
from_initial [] i s = cc
from_initial (e ∷ es) i s = (
  omega (arith, initial_parts e i),
  All-above (negsuc 0) e.frame es (omega (arith, initial_parts e i)) s.0,
)

IsLatest-exists :
    (t : ℕ) (es : List CheckpointEntry) → starts_initial es ≡ true → ¬ IsLatest (before t) es none
IsLatest-exists t [] i l = cc
IsLatest-exists zero (e ∷ es) i l = omega (arith, initial_parts e i, l.0)
IsLatest-exists (suc t) (e ∷ es) i l = omega (arith, initial_parts e i, l.0)

-- With the initial checkpoint kept and the checkpoints in order, every frame of the take can be
-- reached: the frame after the confirmed one by a step from it, and any other by restoring the
-- latest checkpoint before it and producing each frame from the next one up to the target.
pub plan_recovery-IsReplay :
    (ring : CheckpointRing) (confirmed target : ℕ)
    → IsSorted ring.entries
    → has_initial ring ≡ true
    → target < u32_mod
    → ((target ≡ add_u32 confirmed 1)
        × (plan_recovery ring confirmed target ≡ record {
          kind = step;
          checkpoint = pos confirmed;
          replay_from = target;
          replay_to = target;
        }))
      ⊎ ((target ≢ add_u32 confirmed 1)
          × IsReplay ring target (plan_recovery ring confirmed target))
unfolding plan_recovery has_initial
plan_recovery-IsReplay ring confirmed target s i t =
    elim (Bool-cases (target == add_u32 confirmed 1)) [
      | inl e ↦ inl (ground arith, rw e)
      | inr e ↦ inr (ground arith, rw e (found (latest_at_most ring (before target)) refl))
    ]
  where
    found :
        (o : Option ℤ)
        → latest_at_most ring (before target) ≡ o
        → IsReplay ring target (elim o [
          | none ↦ record {
            kind = impossible;
            checkpoint = initial_checkpoint_frame;
            replay_from = 0;
            replay_to = 0;
          }
          | some checkpoint ↦ record {
            kind = restore;
            checkpoint = checkpoint;
            replay_from = after checkpoint;
            replay_to = target;
          }
        ])
    found none q = absurd (
        IsLatest-exists target ring.entries i
          (rw q at (latest_at_most-IsLatest ring (before target) s)))
    found (some c) q =
        let latest = rw q at (latest_at_most-IsLatest ring (before target) s) in
        restore-IsReplay ring target c t
          (frame_of_initial c ring.entries (from_initial ring.entries i s) latest.1) latest
