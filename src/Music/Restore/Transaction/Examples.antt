-- ===== src/Music/Restore/Transaction/Examples.antt =====
-- A restoration that is published (src/music_restore_transaction.h).
use ayther_runtime.Prelude.{◌≤◌, ◌<◌, ◌≡◌, refl, true, false, List, [], ◌∷◌}
use ayther_runtime.Music.Restore.Transaction.{
  Inv, new, run, step, prepare, publish, set_link_active, accepts_pcm, accepts_decision, Call,
  prepares, publishes, links, transaction-Inv, accepts_pcm_sound,
}

abbrev calls : List Call
calls = links true ∷ prepares 3 100 true ∷ publishes 99 ∷ publishes 100 ∷ []

transaction-Inv_example : Inv (new 2 40 false true) (run (new 2 40 false true) calls)
transaction-Inv_example = transaction-Inv 2 40 false true calls

accepted : accepts_pcm (run (new 2 40 false true) calls) 3 120 ≡ true
unfolding accepts_pcm run new step prepare publish set_link_active
accepted = refl

accepts_pcm_sound_example :
    let t = run (new 2 40 false true) calls in
    (t.published ≡ true)
    × (3 ≡ t.prepared_generation)
    × (2 < 3)
    × (t.prepared_boundary ≤ 120)
    × (40 < 120)
    × (accepts_decision t 3 ≡ true)
accepts_pcm_sound_example = accepts_pcm_sound 2 40 false true calls 3 120 accepted
