-- ===== src/Music/Restore/Limits.antt =====
-- src/music_restore_preparation.h and src/music_restore_budget.h: the limits of a restoration.
-- Diagnostics are texts; sizes and times are 64-bit words.
use Prim.Native.String.{String}
use ayther_runtime.Prelude.{
  ℕ, ◌+◌, ◌*◌, ◌≤◌, ◌<◌, ◌≡◌, ◌↔◌, Bool, true, false, not, ◌&&◌, ◌||◌, ltb, if◌then◌else◌, arith,
}
use ayther_runtime.Prelude.Word.{u64_mod, add_u64, sub_u64}

abbrev pub restore_preparation_limit_ms : ℕ
restore_preparation_limit_ms = 5000

abbrev pub restore_state_limit_bytes : ℕ
restore_state_limit_bytes = 64 * 1024 * 1024

abbrev pub restore_increment_limit_bytes : ℕ
restore_increment_limit_bytes = 128 * 1024 * 1024

pub record PreparationInput : Type 0 where
  pub game_valid : Bool
  pub core_compatible : Bool
  pub pack_valid : Bool
  pub assets_valid : Bool
  pub schema_valid : Bool
  pub ranges_valid : Bool
  pub elapsed_ms : ℕ
  pub game_state_bytes : ℕ
  pub hd_state_bytes : ℕ
  pub resource_increment_bytes : ℕ

pub data PreparationStatus : Type 0 where
  prepared rejected : PreparationStatus

pub record PreparationResult : Type 0 where
  pub status : PreparationStatus
  pub diagnostic : String

abbrev reject : String → PreparationResult
reject reason = record { status = PreparationStatus.rejected; diagnostic = reason }

-- `sum_exceeds` of the preparation and `exceeds_sum` of the budget.
pub sum_exceeds : ℕ → ℕ → ℕ → Bool
sum_exceeds left right limit = ltb limit left || ltb (sub_u64 limit left) right

pub prepare : PreparationInput → PreparationResult
prepare i =
    if not i.game_valid || not i.core_compatible
    then reject "restore_game_incompatible"
    else if not i.pack_valid || (not i.assets_valid || (not i.schema_valid || not i.ranges_valid))
    then reject "restore_hd_invalid"
    else if ltb restore_preparation_limit_ms i.elapsed_ms
    then reject "restore_preparation_timeout"
    else if sum_exceeds i.game_state_bytes i.hd_state_bytes restore_state_limit_bytes
    then reject "restore_state_limit"
    else if sum_exceeds (add_u64 i.game_state_bytes i.hd_state_bytes) i.resource_increment_bytes
        restore_increment_limit_bytes
    then reject "restore_memory_limit"
    else record { status = prepared; diagnostic = "" }

pub prepare_from_audio_thread : PreparationInput → PreparationResult
prepare_from_audio_thread i = reject "restore_preparation_on_audio_thread"

pub record BudgetInput : Type 0 where
  pub preparation_elapsed_ms : ℕ
  pub transaction_elapsed_ms : ℕ
  pub game_state_bytes : ℕ
  pub hd_state_bytes : ℕ
  pub resource_increment_bytes : ℕ
  pub recoverable : Bool

pub data BudgetStatus : Type 0 where
  within_limits rejected rolled_back fatal_closed : BudgetStatus

pub record BudgetResult : Type 0 where
  pub status : BudgetStatus
  pub diagnostic : String

timeout : Bool → String → BudgetResult
timeout true reason = record { status = rolled_back; diagnostic = reason }
timeout false reason = record { status = fatal_closed; diagnostic = "restore_failed_state_unknown" }

pub evaluate : BudgetInput → BudgetResult
unfolding timeout
evaluate i =
    if sum_exceeds i.game_state_bytes i.hd_state_bytes (64 * (1024 * 1024))
    then record { status = BudgetStatus.rejected; diagnostic = "restore_state_limit" }
    else if sum_exceeds (add_u64 i.game_state_bytes i.hd_state_bytes) i.resource_increment_bytes
        (128 * (1024 * 1024))
    then record { status = BudgetStatus.rejected; diagnostic = "restore_memory_limit" }
    else if ltb 5000 i.preparation_elapsed_ms
    then timeout i.recoverable "restore_preparation_timeout"
    else if ltb 2000 i.transaction_elapsed_ms
    then timeout i.recoverable "restore_transaction_timeout"
    else record { status = within_limits; diagnostic = "" }

-- The test without overflow is the test on the exact sum.
sum_exceeds_lem :
    (left right limit : ℕ)
    → limit < u64_mod
    → (sum_exceeds left right limit ≡ true) ↔ (limit < left + right)
unfolding sum_exceeds
sum_exceeds_lem left right limit h = (λ e. ground arith, λ l. ground arith)

-- The sizes and the time that a restoration may take.
abbrev pub Fits : ℕ → ℕ → ℕ → ℕ → Type 0
Fits game hd increment elapsed =
    (game + hd ≤ 64 * (1024 * 1024))
    × (game + hd + increment ≤ 128 * (1024 * 1024))
    × (elapsed ≤ 5000)

abbrev pub all_valid : PreparationInput → Bool
all_valid i =
    i.game_valid
    && (i.core_compatible
        && (i.pack_valid && (i.assets_valid && (i.schema_valid && i.ranges_valid))))

-- A restoration is prepared exactly if all that it rests on is valid, game and HD state together
-- take at most 64 MiB and with the new resources at most 128 MiB, and it took at most 5 s; the
-- sums are exact, whatever 64-bit sizes are claimed.
pub prepare_iff :
    (i : PreparationInput)
    → ((prepare i).status ≡ prepared) ↔ (
        (all_valid i ≡ true)
        × Fits i.game_state_bytes i.hd_state_bytes i.resource_increment_bytes i.elapsed_ms)
unfolding prepare sum_exceeds
prepare_iff i = (λ e. ground arith, λ f. ground arith)

abbrev pub budget_of : PreparationInput → ℕ → Bool → BudgetInput
budget_of i transaction recoverable = record {
  preparation_elapsed_ms = i.elapsed_ms;
  transaction_elapsed_ms = transaction;
  game_state_bytes = i.game_state_bytes;
  hd_state_bytes = i.hd_state_bytes;
  resource_increment_bytes = i.resource_increment_bytes;
  recoverable = recoverable;
}

-- The budget and the preparation have the same limits: for valid inputs the budget is kept exactly
-- if the preparation succeeds and the transaction takes at most 2 s; and what the budget refuses
-- is closed as fatal only where it is not recoverable.
pub evaluate-agrees-prepare :
    (i : PreparationInput) (transaction : ℕ) (recoverable : Bool)
    → all_valid i ≡ true
    → (((evaluate (budget_of i transaction recoverable)).status ≡ within_limits)
        ↔ (((prepare i).status ≡ prepared) × (transaction ≤ 2000)))
      × (¬ (
          ((evaluate (budget_of i transaction recoverable)).status ≡ fatal_closed)
          × (recoverable ≡ true)))
unfolding evaluate prepare sum_exceeds
evaluate-agrees-prepare i transaction recoverable v =
    ((λ e. (ground arith, ground arith), λ f. ground arith), λ e. ground arith)
