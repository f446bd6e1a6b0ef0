-- ===== src/Music/Pcm/Generations.antt =====
-- The generations of the samples that the music backend delivers (src/music_pcm_backend.h). A
-- sample carries, for the statement only, the generation that it was enqueued under.
use ayther_runtime.Prelude.{
  ℕ, ◌≡◌, ◌≢◌, refl, ◌⊎◌, inl, inr, true, false, List, [], ◌∷◌, ◌++◌, arith, All, All-append,
}
use ayther_runtime.Music.Pcm.{
  Backend, new, enqueue, stop_deliveries, invalidate_and_drain, confirm_drained, publish_generation,
  rollback, consume, Call, enqueues, stops, drains, confirms, rolls_back, publishes, consumes, step,
  deliveries,
}

module _ {S : Type 0} where
  abbrev pub Of : ℕ → List (ℕ × S) → Type 0
  Of g xs = All (λ x. x.0 ≡ g) xs

  pub record Inv (b : Backend (ℕ × S)) : Type 0 where
    pub of_active : Of b.active_generation b.queue
    pub idle_empty : b.active_generation ≡ 0 → b.queue ≡ []
    pub drained_empty : b.drain_performed ≡ true → (b.deliveries_stopped ≡ true) × (b.queue ≡ [])
    pub confirmed_drained : b.confirmed ≡ true → b.drain_performed ≡ true

  -- Samples are enqueued under the generation that they carry.
  abbrev pub IsTagged : Call (ℕ × S) → Type 0
  IsTagged (enqueues generation samples) = Of generation samples
  IsTagged c = Unit {0}

  -- What is queued already carries the generation that an accepted call names.
  Of-either :
      (b : Backend (ℕ × S)) (g : ℕ)
      → Inv b
      → (b.active_generation ≡ 0) ⊎ (g ≡ b.active_generation)
      → Of g b.queue
  Of-either b g v (inl z) = rw (v.idle_empty z) tt
  Of-either b g v (inr e) = rw e v.of_active

  enqueue_cases :
      (b : Backend (ℕ × S)) (g : ℕ) (xs : List (ℕ × S))
      → ((enqueue b g xs).0 ≡ b)
        ⊎ (((enqueue b g xs).0 ≡ record b { active_generation = g; queue = b.queue ++ xs })
            × (g ≢ 0)
            × (b.deliveries_stopped ≡ false)
            × ((b.active_generation ≡ 0) ⊎ (g ≡ b.active_generation)))
  unfolding enqueue
  enqueue_cases b g xs = ground arith

  enqueue-Inv :
      (b : Backend (ℕ × S)) (g : ℕ) (xs : List (ℕ × S)) → Of g xs → Inv b → Inv (enqueue b g xs).0
  enqueue-Inv b g xs t v = elim (enqueue_cases b g xs) [
    | inl e ↦ rw e v
    | inr (e, nz, free, same) ↦ rw e (record {
      of_active = All-append (λ x. x.0 ≡ g) b.queue xs (Of-either b g v same) t;
      idle_empty = λ z. absurd (nz z);
      drained_empty = λ d. cc (v.drained_empty d).0;
      confirmed_drained = v.confirmed_drained;
    })
  ]

  step-Inv : (b : Backend (ℕ × S)) (c : Call (ℕ × S)) → IsTagged c → Inv b → Inv (step b c).0
  unfolding step stop_deliveries invalidate_and_drain confirm_drained publish_generation rollback
      consume
  step-Inv b (enqueues g xs) t v = enqueue-Inv b g xs t v
  step-Inv b (stops r) t v = ground arith
  step-Inv b (drains g) t v = ground arith
  step-Inv b (confirms n) t v = ground arith
  step-Inv b (rolls_back g) t v = ground arith
  step-Inv b (publishes g n) t v = ground arith
  step-Inv b consumes t v = ground arith

  step-Of :
      (b : Backend (ℕ × S)) (c : Call (ℕ × S))
      → Inv b
      → let o = (step b c).1 in Of o.generation o.samples
  unfolding step consume
  step-Of b (enqueues g xs) v = tt
  step-Of b (stops r) v = tt
  step-Of b (drains g) v = tt
  step-Of b (confirms n) v = tt
  step-Of b (rolls_back g) v = tt
  step-Of b (publishes g n) v = tt
  step-Of b consumes v = ground arith

  deliveries-Of :
      (b : Backend (ℕ × S)) (cs : List (Call (ℕ × S)))
      → All IsTagged cs
      → Inv b
      → All (λ o. Of o.generation o.samples) (deliveries b cs)
  unfolding deliveries
  deliveries-Of b [] t v = tt
  deliveries-Of b (c ∷ cs) t v =
      (step-Of b c v, deliveries-Of (step b c).0 cs t.1 (step-Inv b c t.0 v))

  new-Inv : Inv new
  unfolding new
  new-Inv = record {
    of_active = tt;
    idle_empty = λ z. refl;
    drained_empty = λ d. cc;
    confirmed_drained = λ c. cc;
  }

  -- Over any calls, each delivery holds only samples that were enqueued under the generation that
  -- it names: no sample of an invalidated generation is ever delivered under a later one.
  pub deliveries-Of_generation :
      (cs : List (Call (ℕ × S)))
      → All IsTagged cs
      → All (λ o. Of o.generation o.samples) (deliveries new cs)
  deliveries-Of_generation cs t = deliveries-Of new cs t new-Inv
