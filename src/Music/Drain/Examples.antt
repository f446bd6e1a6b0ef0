-- ===== src/Music/Drain/Examples.antt =====
-- A whole drain (src/music_backend_drain.h).
use ayther_runtime.Prelude.{◌≡◌, refl, true, List, [], ◌∷◌}
use ayther_runtime.Music.Drain.{
  new, run, step, request, confirm, record_emitted, record_discarded, publish, Call, requests,
  confirms, emits, discards, publishes,
}

abbrev calls : List Call
calls = emits 3 ∷ requests 10 4 ∷ discards 7 ∷ confirms 12 15 ∷ publishes 5 ∷ []

calls_publish : (run new calls).published ≡ true
unfolding run new step request confirm record_emitted record_discarded publish
calls_publish = refl
