-- ===== src/AudioQa/Publication/Permission.antt =====
-- Which initial states let inputs through (tools/audio_qa/initial_state_publication.cpp).
use ayther_runtime.Prelude.{
  ◌≡◌, ◌↔◌, ◌⊎◌, refl, sym, ap, ◌∙◌, Bool, true, Option, some, List, [], ◌∷◌, arith,
}
use ayther_runtime.AudioQa.Model.Initial.{InitialState, succeeded, has_complete_hd_description}
use ayther_runtime.AudioQa.Model.Initial.Complete.{complete_well_formed}
use ayther_runtime.AudioQa.Publication.{
  InitialStatePublication, acknowledged, failed, new_publication, publish, publish_at,
  publish_pending, publish_to, input_permitted,
}

-- Publications one after the other, each with its consumer.
abbrev pub publish_all :
    InitialStatePublication → List (Option (InitialState → Bool)) → InitialStatePublication
publish_all p [] = p
publish_all p (c ∷ cs) = publish_all (publish p c).0 cs

abbrev pub Accepts : Option (InitialState → Bool) → InitialState → Type 0
Accepts Option.none s = ⊥
Accepts (some consumer) s = consumer s ≡ true

abbrev Settled : InitialStatePublication → Type 0
Settled p = (p.status ≡ acknowledged) ⊎ (p.status ≡ failed)

Settled-stays :
    (p : InitialStatePublication) (cs : List (Option (InitialState → Bool)))
    → Settled p
    → publish_all p cs ≡ p
unfolding publish publish_at
Settled-stays p [] s = refl
Settled-stays p (c ∷ cs) s =
    let e : (publish p c).0 ≡ p = ground arith in
    ap (λ q. publish_all q cs) e ∙ Settled-stays p cs s

first_settles :
    (s : InitialState) (c : Option (InitialState → Bool))
    → Settled (publish (new_publication s) c).0
unfolding publish publish_at publish_pending publish_to new_publication
first_settles s Option.none = ground arith
first_settles s (some consumer) = ground arith

first_permits :
    (s : InitialState) (c : Option (InitialState → Bool))
    → (input_permitted (publish (new_publication s) c).0 ≡ true)
      ↔ ((s.game_restore_result ≡ succeeded) × (has_complete_hd_description s ≡ true) × Accepts c s)
unfolding publish publish_at publish_pending publish_to new_publication input_permitted
first_permits s Option.none = (λ e. ground arith, λ e. absurd e.2)
first_permits s (some consumer) =
    (λ e. ground arith, λ e. let w = complete_well_formed s e.1 in ground arith)

-- The first publication decides: after it and any later ones, inputs are permitted exactly if the
-- game was restored, the description of the initial state is complete and the consumer of the first
-- publication was there and accepted that state. A later consumer changes nothing.
pub first_publication_decides :
    (s : InitialState) (c : Option (InitialState → Bool)) (cs : List (Option (InitialState → Bool)))
    → (input_permitted (publish_all (publish (new_publication s) c).0 cs) ≡ true)
      ↔ ((s.game_restore_result ≡ succeeded) × (has_complete_hd_description s ≡ true) × Accepts c s)
first_publication_decides s c cs =
    let e = Settled-stays (publish (new_publication s) c).0 cs (first_settles s c) in
    let f = first_permits s c in
    (λ h. f.0 (ap input_permitted (sym e) ∙ h), λ h. ap input_permitted e ∙ f.1 h)
