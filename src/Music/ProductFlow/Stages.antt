-- ===== src/Music/ProductFlow/Stages.antt =====
-- What each stage of the product flow rests on (src/music_product_flow.h).
use mathlib.Core.List.{List, [], ◌∷◌}
use ayther_runtime.Prelude.{ℕ, suc, ◌≡◌, refl, ◌⊎◌, inl, true, false, leb, arith}
use ayther_runtime.Music.ProductFlow.{
  is_valid, Stage, empty, authored, previewed, baked, runtime, Flow, new, is_empty, Call, selects,
  authors, bakes, saves, cancels, navigates, previews, starts, pauses, step, select_range, author,
  preview, bake, start_runtime, pause_host, save, cancel_analysis, navigate,
}

-- The order of the stages.
abbrev pub rank : Stage → ℕ
rank empty = 0
rank Stage.range = 1
rank authored = 2
rank previewed = 3
rank baked = 4
rank runtime = 5

pub run : Flow → List Call → Flow
run f [] = f
run f (c ∷ cs) = run (step f c).0 cs

-- A stage rests on what the earlier ones accepted, and a take is always named.
pub record Inv (f : Flow) : Type 0 where
  pub ranged : leb 1 (rank f.accepted.stage) ≡ true → is_valid f.accepted.range ≡ true
  pub identified : leb 2 (rank f.accepted.stage) ≡ true → is_empty f.accepted.identity ≡ false
  pub revised : leb 4 (rank f.accepted.stage) ≡ true → is_empty f.accepted.pack_revision ≡ false
  pub named : is_empty f.accepted.take ≡ false

step-Inv : (f : Flow) (c : Call) → Inv f → Inv (step f c).0
unfolding step select_range author preview bake start_runtime pause_host save cancel_analysis
    navigate
step-Inv f (selects r) v = ground arith
step-Inv f (authors identity) v = ground arith
step-Inv f previews v = ground arith
step-Inv f (bakes revision) v = ground arith
step-Inv f starts v = ground arith
step-Inv f (pauses paused) v = ground arith
step-Inv f (saves save_id) v = ground arith
step-Inv f (cancels reason) v = ground arith
step-Inv f (navigates take) v = ground arith

new-Inv : Inv new
unfolding new
new-Inv = ground arith

run_from-Inv : (f : Flow) (cs : List Call) → Inv f → Inv (run f cs)
unfolding run
run_from-Inv f [] v = v
run_from-Inv f (c ∷ cs) v = run_from-Inv (step f c).0 cs (step-Inv f c v)

-- After any calls, a flow that has selected a range has a valid one, a flow that was authored has
-- an identity, a flow that was baked or runs has a pack revision, and the take has a name.
pub flow-Inv : (cs : List Call) → Inv (run new cs)
flow-Inv cs = run_from-Inv new cs new-Inv

-- A call that is refused leaves the accepted state and the identifiers as they were; one that is
-- accepted selects a range, goes on by exactly one stage, or stays in the running stage.
pub flow_advances :
    (f : Flow) (c : Call)
    → let (f', done) = step f c in
      ((done ≡ false)
        × (f'.accepted ≡ f.accepted)
        × (f'.replay_id ≡ f.replay_id)
        × (f'.navigation_id ≡ f.navigation_id))
      ⊎ ((done ≡ true)
          × ((f'.accepted.stage ≡ Stage.range)
              ⊎ ((rank f'.accepted.stage ≡ suc (rank f.accepted.stage))
                  ⊎ ((f.accepted.stage ≡ runtime) × (f'.accepted.stage ≡ runtime)))))
unfolding step select_range author preview bake start_runtime pause_host save cancel_analysis
    navigate
flow_advances f (selects r) = ground arith
flow_advances f (authors identity) = ground arith
flow_advances f previews = ground arith
flow_advances f (bakes revision) = ground arith
flow_advances f starts = ground arith
flow_advances f (pauses paused) = ground arith
flow_advances f (saves save_id) = ground arith
flow_advances f (cancels reason) = inl (refl, refl, refl, refl)
flow_advances f (navigates take) = ground arith
