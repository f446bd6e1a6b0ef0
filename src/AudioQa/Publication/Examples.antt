-- ===== src/AudioQa/Publication/Examples.antt =====
-- A fresh start that its consumer accepts (tools/audio_qa/initial_state_publication.cpp).
use ayther_runtime.Prelude.{◌≡◌, ◌↔◌, Bool, true, Option, some, [], ◌∷◌}
use ayther_runtime.AudioQa.Model.Initial.{InitialState, succeeded, has_complete_hd_description}
use ayther_runtime.AudioQa.Model.Initial.Sample.{fresh_state}
use ayther_runtime.AudioQa.Publication.{new_publication, publish, input_permitted}
use ayther_runtime.AudioQa.Publication.Permission.{publish_all, Accepts, first_publication_decides}

abbrev agrees : InitialState → Bool
agrees s = true

first_publication_decides_example :
    (input_permitted
        (publish_all (publish (new_publication fresh_state) (some agrees)).0 (Option.none ∷ []))
      ≡ true)
    ↔ ((fresh_state.game_restore_result ≡ succeeded)
        × (has_complete_hd_description fresh_state ≡ true)
        × Accepts (some agrees) fresh_state)
first_publication_decides_example =
    first_publication_decides fresh_state (some agrees) (Option.none ∷ [])
