-- ===== src/AudioQa/Threshold/Examples.antt =====
-- Evidence that waits, is published and confirmed (tools/audio_qa/checkpoint_threshold.cpp).
use ayther_runtime.Prelude.{
  true, ◌≡◌, ◌≤◌, inr, refl, Option, some, List, [], ◌∷◌, ◌++◌, All, arith,
}
use ayther_runtime.AudioQa.Threshold.{
  publish, new, record_received, request_at, request_publication, confirm_publication, Call,
  receives, requests, confirms, step, run,
}
use ayther_runtime.AudioQa.Threshold.Waiting.{IsWord}
use ayther_runtime.AudioQa.Threshold.Due.{IsDue, nothing, known, due_is_published}

abbrev before : List Call
before = receives 10 100 ∷ requests 1100 ∷ []

-- Evidence that comes while the first is published, and again later.
abbrev after : List Call
after = confirms 1 1200 ∷ receives 30 2000 ∷ []

before-IsWord : All IsWord before
before-IsWord = ((omega arith, omega arith), (omega arith, tt))

after-IsWord : All IsWord after
after-IsWord = (omega arith, ((omega arith, omega arith), tt))

recorded : (record_received (run (new 50) before) 25 1150).1 ≡ true
unfolding run step new record_received request_publication request_at confirm_publication
recorded = refl

abbrev calls : List Call
calls = before ++ (receives 25 1150 ∷ after)

observed : (run (new 50) calls).last_observed_at_ms ≤ 2150
unfolding run step new record_received request_publication request_at confirm_publication
observed = omega arith

confirmed : (run (new 50) calls).publication_bytes ≡ Option.none
unfolding run step new record_received request_publication request_at confirm_publication
confirmed = refl

evidence-IsDue : IsDue (known (new 50) nothing calls) 25 1150 2150
unfolding run step new record_received request_publication request_at confirm_publication
evidence-IsDue = inr (omega arith, omega arith)

due_is_published_example :
    let t = run (new 50) calls in
    let k = known (new 50) nothing calls in
    ((request_publication t 2150).1.action ≡ publish)
    × ((request_publication t 2150).1.publication_bytes ≡ k.received)
    × ((request_publication t 2150).0.publication_bytes ≡ some k.received)
due_is_published_example =
    due_is_published 50 25 1150 2150 before after (omega arith) before-IsWord
      (omega arith, omega arith) after-IsWord (omega arith) recorded observed confirmed
      evidence-IsDue
