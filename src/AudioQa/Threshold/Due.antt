-- ===== src/AudioQa/Threshold/Due.antt =====
-- Received evidence is never forgotten or counted as durable too early
-- (tools/audio_qa/checkpoint_threshold.cpp).
use ayther_runtime.Prelude.{
  ℕ, ◌+◌, ◌≤◌, ◌<◌, ◌≡◌, ◌⊎◌, Bool, true, false, if◌then◌else◌, ◌++◌, All-append, Option, some,
  List, [], ◌∷◌, arith, All,
}
use ayther_runtime.Prelude.Word.{u64_mod}
use ayther_runtime.AudioQa.Threshold.{
  CheckpointPublicationAction, publish, CheckpointThreshold, new, record_received, request_at,
  request_publication, confirm_publication, Call, receives, requests, confirms, step, run,
}
use ayther_runtime.AudioQa.Threshold.Waiting.{
  Inv, IsWord, step-Inv, start-Inv, Counted, run_over-Counted,
}

-- What a caller knows from the answers alone: how much was recorded as received, how much the last
-- accepted confirmation made durable, and how much the last publication was to hold.
pub record Known : Type 0 where
  pub received : ℕ
  pub durable : ℕ
  pub published : ℕ

abbrev pub nothing : Known
nothing = record { received = 0; durable = 0; published = 0 }

abbrev is_publish : CheckpointPublicationAction → Bool
is_publish publish = true
is_publish action = false

abbrev pub learn : CheckpointThreshold → Known → Call → Known
learn t k (receives total now) =
    if (record_received t total now).1 then record k { received = total } else k
learn t k (requests now) =
    let answer = (request_publication t now).1 in
    if is_publish answer.action then record k { published = answer.publication_bytes } else k
learn t k (confirms sequence now) =
    if (confirm_publication t sequence now).1 then record k { durable = k.published } else k

abbrev pub known : CheckpointThreshold → Known → List Call → Known
known t k [] = k
known t k (c ∷ cs) = known (step t c) (learn t k c) cs

abbrev IsPublished : Option ℕ → ℕ → Type 0
IsPublished Option.none published = Unit {0}
IsPublished (some publication) published = publication ≡ published

record Agrees (t : CheckpointThreshold) (k : Known) : Type 0 where
  same_received : t.received_bytes ≡ k.received
  same_durable : t.durable_bytes ≡ k.durable
  same_published : IsPublished t.publication_bytes k.published

step-Agrees :
    (t : CheckpointThreshold) (k : Known) (c : Call)
    → Inv t
    → Agrees t k
    → Agrees (step t c) (learn t k c)
unfolding step record_received request_publication request_at confirm_publication
step-Agrees t k (receives total now) v a = ground arith
step-Agrees t k (confirms sequence now) v a = ground arith
step-Agrees t k (requests now) v a = ground arith

run-Agrees :
    (t : CheckpointThreshold) (k : Known) (cs : List Call)
    → All IsWord cs
    → Inv t
    → Agrees t k
    → Agrees (run t cs) (known t k cs)
unfolding run
run-Agrees t k [] w v a = a
run-Agrees t k (c ∷ cs) w v a =
    run-Agrees (step t c) (learn t k c) cs w.1 (step-Inv t c w.0 v) (step-Agrees t k c v a)

-- 1 MiB of what was received is not durable, or some of the first `total` bytes, which were received
-- at `at`, is not a second later.
abbrev pub IsDue : Known → ℕ → ℕ → ℕ → Type 0
IsDue k total at now =
    (k.durable + 1048576 ≤ k.received) ⊎ ((k.durable < total) × (at + 1000 ≤ now))

publishes :
    (t : CheckpointThreshold) (k : Known) (total at now : ℕ)
    → Inv t
    → Counted t total at
    → Agrees t k
    → now < u64_mod
    → t.last_observed_at_ms ≤ now
    → t.publication_bytes ≡ Option.none
    → IsDue k total at now
    → ((request_publication t now).1.action ≡ publish)
      × ((request_publication t now).1.publication_bytes ≡ k.received)
      × ((request_publication t now).0.publication_bytes ≡ some k.received)
unfolding request_publication request_at
publishes t k total at now v c a l o p d = (ground arith, ground arith, ground arith)

start-Agrees : (started : ℕ) → Agrees (new started) nothing
unfolding new
start-Agrees started = ground arith

-- Evidence that is due is published: after any calls, one of which recorded at `at` that `total`
-- bytes were received, with no publication under way and at a time not before the last one, all
-- times and sizes being 64-bit words, a request publishes all that was received when 1 MiB of it is
-- not durable, or when not all of those `total` bytes are durable a second after `at`. What was
-- received and what is durable are known from the answers: the last total that was recorded, and
-- what was to be published when the last accepted confirmation came.
pub due_is_published :
    (started total at now : ℕ) (before after : List Call)
    → started < u64_mod
    → All IsWord before
    → IsWord (receives total at)
    → All IsWord after
    → now < u64_mod
    → (record_received (run (new started) before) total at).1 ≡ true
    → let calls = before ++ (receives total at ∷ after) in
      let t = run (new started) calls in
      let k = known (new started) nothing calls in
      t.last_observed_at_ms ≤ now
      → t.publication_bytes ≡ Option.none
      → IsDue k total at now
      → ((request_publication t now).1.action ≡ publish)
        × ((request_publication t now).1.publication_bytes ≡ k.received)
        × ((request_publication t now).0.publication_bytes ≡ some k.received)
due_is_published started total at now before after s b w a n r l p d =
    let calls = before ++ (receives total at ∷ after) in
    let c = run_over-Counted (new started) before after total at (start-Inv started s) b w a r in
    let g =
      run-Agrees (new started) nothing calls
        (All-append IsWord before (receives total at ∷ after) b (w, a)) (start-Inv started s)
        (start-Agrees started) in
    publishes (run (new started) calls) (known (new started) nothing calls) total at now c.0 c.1 g n
      l p d
