-- ===== src/Music/Restore/Classification.antt =====
-- src/music_restore_classification.h: what a restoration may do with the state that it finds.
use Prim.Native.String.{String}
use ayther_runtime.Prelude.{◌≡◌, ◌↔◌, Bool, true, false, not, ◌&&◌, ◌||◌, if◌then◌else◌, arith}

pub record RestoreInput : Type 0 where
  pub game_valid : Bool
  pub core_compatible : Bool
  pub pack_required : Bool
  pub pack_valid : Bool
  pub hd_present : Bool
  pub hd_complete : Bool
  pub hd_compatible : Bool
  pub apply_failed : Bool
  pub session_active : Bool

pub data Outcome : Type 0 where
  prepared fresh_hd rejected rollback : Outcome

pub record Classified : Type 0 where
  pub outcome : Outcome
  pub original_audio : Bool
  pub session_preserved : Bool
  pub rollback_required : Bool
  pub diagnostic : String

pub classify : RestoreInput → Classified
classify i =
    if not i.game_valid || not i.core_compatible
    then record {
      outcome = rejected;
      original_audio = false;
      session_preserved = i.session_active;
      rollback_required = false;
      diagnostic = "restore_game_incompatible";
    }
    else if i.pack_required && not i.pack_valid
    then record {
      outcome = rejected;
      original_audio = false;
      session_preserved = i.session_active;
      rollback_required = false;
      diagnostic = "restore_pack_invalid";
    }
    else if not i.hd_present || (not i.hd_complete || not i.hd_compatible)
    then record {
      outcome = fresh_hd;
      original_audio = true;
      session_preserved = i.session_active;
      rollback_required = false;
      diagnostic = "restore_hd_fresh";
    }
    else if i.apply_failed
    then record {
      outcome = rollback;
      original_audio = false;
      session_preserved = i.session_active;
      rollback_required = true;
      diagnostic = "restore_apply_failed";
    }
    else record {
      outcome = prepared;
      original_audio = false;
      session_preserved = i.session_active;
      rollback_required = false;
      diagnostic = "";
    }

-- The three parts of the state that a restoration judges.
abbrev pub game_usable : RestoreInput → Bool
game_usable i = i.game_valid && (i.core_compatible && (not i.pack_required || i.pack_valid))

abbrev pub hd_usable : RestoreInput → Bool
hd_usable i = i.hd_present && (i.hd_complete && i.hd_compatible)

-- The outcome in full: a state is rejected exactly if the game part cannot be used, starts a fresh
-- HD state with the original audio exactly if only the HD part cannot, is rolled back exactly if
-- both can and applying failed, and is prepared otherwise; a rollback is required exactly in the
-- third case, and an active session is preserved in all.
pub classify_iff :
    (i : RestoreInput)
    → let c = classify i in
      ((c.outcome ≡ rejected) ↔ (game_usable i ≡ false))
      × ((c.outcome ≡ fresh_hd) ↔ ((game_usable i ≡ true) × (hd_usable i ≡ false)))
      × ((c.outcome ≡ rollback)
          ↔ ((game_usable i ≡ true) × (hd_usable i ≡ true) × (i.apply_failed ≡ true)))
      × ((c.outcome ≡ prepared)
          ↔ ((game_usable i ≡ true) × (hd_usable i ≡ true) × (i.apply_failed ≡ false)))
      × ((c.original_audio ≡ true) ↔ (c.outcome ≡ fresh_hd))
      × ((c.rollback_required ≡ true) ↔ (c.outcome ≡ rollback))
      × (c.session_preserved ≡ i.session_active)
unfolding classify
classify_iff i = (
  (λ e. ground arith, λ f. ground arith),
  (λ e. ground arith, λ f. ground arith),
  (λ e. ground arith, λ f. ground arith),
  (λ e. ground arith, λ f. ground arith),
  (λ e. ground arith, λ f. ground arith),
  (λ e. ground arith, λ f. ground arith),
  ground arith,
)
