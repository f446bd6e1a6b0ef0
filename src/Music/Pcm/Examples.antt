-- ===== src/Music/Pcm/Examples.antt =====
-- Two generations, the first of them drained (src/music_pcm_backend.h).
use ayther_runtime.Prelude.{ℕ, refl, List, [], ◌∷◌, All}
use ayther_runtime.Music.Pcm.{
  new, Call, enqueues, stops, drains, confirms, publishes, consumes, deliveries,
}
use ayther_runtime.Music.Pcm.Generations.{Of, IsTagged, deliveries-Of_generation}

abbrev calls : List (Call (ℕ × ℕ))
calls =
    enqueues 1 ((1, 70) ∷ (1, 71) ∷ [])
    ∷ stops 5
    ∷ drains 1
    ∷ confirms 6
    ∷ publishes 2 8
    ∷ enqueues 2 ((2, 80) ∷ [])
    ∷ consumes
    ∷ []

tagged : All IsTagged calls
tagged = ((refl, (refl, tt)), (tt, (tt, (tt, (tt, ((refl, tt), (tt, tt)))))))

deliveries-Of_generation_example : All (λ o. Of o.generation o.samples) (deliveries new calls)
deliveries-Of_generation_example = deliveries-Of_generation calls tagged
