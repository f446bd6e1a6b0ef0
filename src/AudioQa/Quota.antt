-- ===== src/AudioQa/Quota.antt =====
-- tools/audio_qa/evidence_quota.h and evidence_quota.cpp: which evidence may be written. Sizes are
-- 64-bit words; of a diagnostic the fields that vary are modelled, not the constant ones
-- (scope, severity, the unknown sample, frame and fact counts). The allocation failures that the
-- source turns into `invalid_request` are not modelled.
pub mod Writes
mod Examples
use Prim.Native.String.{String, len}
use ayther_runtime.Prelude.{
  ℕ, ◌+◌, ◌-◌, ◌*◌, ◌^◌, Bool, true, false, not, ◌&&◌, ◌||◌, Option, none, some, ltb, ◌==◌,
  if◌then◌else◌, is_some, value_or,
}
use ayther_runtime.Prelude.Word.{u64_mod, add_u64, sub_u64}

abbrev pub max_evidence_bytes : ℕ
max_evidence_bytes = 8 * 2 ^ 30

abbrev pub evidence_terminal_reserve_bytes : ℕ
evidence_terminal_reserve_bytes = 2 ^ 20

abbrev pub minimum_initial_evidence_free_bytes : ℕ
minimum_initial_evidence_free_bytes = 10 * 2 ^ 30

abbrev pub max_identity_bytes : ℕ
max_identity_bytes = 256

pub record ByteUsage : Type 0 where
  pub durable_bytes : ℕ
  pub temporary_bytes : ℕ
  pub in_flight_bytes : ℕ

pub record Usage : Type 0 where
  pub regular : ByteUsage
  pub terminal : ByteUsage
  pub last_checkpoint_sequence : Option ℕ

pub data WriteClass : Type 0 where
  regular terminal : WriteClass

pub data FailureReason : Type 0 where
  initial_reserve_unavailable evidence_limit_reached : FailureReason
  terminal_reserve_exhausted storage_unavailable : FailureReason

pub data CheckError : Type 0 where
  invalid_run_id invalid_request invalid_usage : CheckError

pub record Permit : Type 0 where
  pub accounted_bytes : ℕ
  pub remaining_regular_bytes : ℕ
  pub remaining_terminal_bytes : ℕ

pub record Diagnostic : Type 0 where
  pub code : String
  pub subject_id : String
  pub stage : String
  pub detail : String

pub record Failure : Type 0 where
  pub reason : FailureReason
  pub diagnostic : Diagnostic
  pub preserved_checkpoint_sequence : Option ℕ
  pub accounted_bytes : ℕ
  pub remaining_regular_bytes : ℕ
  pub remaining_terminal_bytes : ℕ

-- `EvidenceQuotaCheckResult`, a variant of three.
pub data CheckResult : Type 0 where
  permitted : Permit → CheckResult
  refused : Failure → CheckResult
  erroneous : CheckError → CheckResult

pub record AccountedUsage : Type 0 where
  pub regular : ℕ
  pub terminal : ℕ
  pub total : ℕ

pub evidence_quota_failure_code : FailureReason → String
evidence_quota_failure_code initial_reserve_unavailable = "evidence_initial_reserve_unavailable"
evidence_quota_failure_code evidence_limit_reached = "evidence_quota_reached"
evidence_quota_failure_code terminal_reserve_exhausted = "evidence_terminal_reserve_exhausted"
evidence_quota_failure_code storage_unavailable = "evidence_storage_unavailable"

pub valid_run_id : String → Bool
valid_run_id value = not (len value == 0) && not (ltb max_identity_bytes (len value))

-- `add`, which answers `none` where the source returns false.
pub add : ℕ → ℕ → Option ℕ
add left right = if ltb (sub_u64 (u64_mod - 1) left) right then none else some (add_u64 left right)

pub add_some : Option ℕ → ℕ → Option ℕ
unfolding add
add_some none right = none
add_some (some left) right = add left right

pub sum : ByteUsage → Option ℕ
unfolding add add_some
sum u = add_some (add u.durable_bytes u.temporary_bytes) u.in_flight_bytes

abbrev pub is_zero : Option ℕ → Bool
is_zero none = false
is_zero (some n) = n == 0

-- The tests of `account` on sums that did not overflow.
pub account_sums : Option ℕ → Option ℕ → Option ℕ → Option AccountedUsage
unfolding add
account_sums (some r) (some t) checkpoint =
    if not (is_some (add r t))
      || (ltb (max_evidence_bytes - evidence_terminal_reserve_bytes) r
          || (ltb evidence_terminal_reserve_bytes t
              || (ltb max_evidence_bytes (value_or (add r t) 0) || is_zero checkpoint)))
    then none
    else some (record { regular = r; terminal = t; total = value_or (add r t) 0 })
account_sums r t checkpoint = none

pub account : Usage → Option AccountedUsage
unfolding sum account_sums
account u = account_sums (sum u.regular) (sum u.terminal) u.last_checkpoint_sequence

pub permit : AccountedUsage → Permit
permit u = record {
  accounted_bytes = u.total;
  remaining_regular_bytes =
      sub_u64 (max_evidence_bytes - evidence_terminal_reserve_bytes) u.regular;
  remaining_terminal_bytes = sub_u64 evidence_terminal_reserve_bytes u.terminal;
}

pub stage_of : FailureReason → String
stage_of initial_reserve_unavailable = "evidence_admission"
stage_of r = "evidence_capture"

pub failure : String → FailureReason → AccountedUsage → Option ℕ → String → CheckResult
unfolding evidence_quota_failure_code stage_of
failure run_id reason u checkpoint text = refused (record {
  reason = reason;
  diagnostic = record {
    code = evidence_quota_failure_code reason;
    subject_id = run_id;
    stage = stage_of reason;
    detail = text;
  };
  preserved_checkpoint_sequence = checkpoint;
  accounted_bytes = u.total;
  remaining_regular_bytes =
      sub_u64 (max_evidence_bytes - evidence_terminal_reserve_bytes) u.regular;
  remaining_terminal_bytes = sub_u64 evidence_terminal_reserve_bytes u.terminal;
})

abbrev pub nothing_accounted : AccountedUsage
nothing_accounted = record { regular = 0; terminal = 0; total = 0 }

pub check_initial_evidence_reserve : String → ℕ → CheckResult
unfolding valid_run_id permit failure
check_initial_evidence_reserve run_id available =
    if not (valid_run_id run_id)
    then erroneous invalid_run_id
    else if ltb available minimum_initial_evidence_free_bytes
    then failure run_id initial_reserve_unavailable nothing_accounted none
        "initial free space is below the 10 GiB evidence reserve; capture was not admitted"
    else permitted (permit nothing_accounted)

abbrev pub is_regular : WriteClass → Bool
is_regular WriteClass.regular = true
is_regular WriteClass.terminal = false

-- `check_evidence_write` once the class after the write and the total are known.
pub check_after : String → AccountedUsage → Option ℕ → WriteClass → ℕ → ℕ → ℕ → ℕ → ℕ → CheckResult
unfolding failure permit
check_after run_id u checkpoint c requested available regular_after terminal_after total_after =
    if is_regular c && ltb (max_evidence_bytes - evidence_terminal_reserve_bytes) regular_after
    then failure run_id evidence_limit_reached u checkpoint
        "regular evidence reached its limit; the terminal 1 MiB remains reserved for the diagnostic and final checkpoint"
    else if ltb evidence_terminal_reserve_bytes terminal_after
    then failure run_id terminal_reserve_exhausted u checkpoint
        "the requested terminal evidence exceeds the reserved 1 MiB"
    else if ltb max_evidence_bytes total_after
    then failure run_id evidence_limit_reached u checkpoint
        "the requested write would exceed the 8 GiB evidence limit"
    else if ltb available requested
    then failure run_id storage_unavailable u checkpoint
        "available storage cannot hold the requested evidence write; capture stopped before accepting it"
    else permitted (
        permit (record { regular = regular_after; terminal = terminal_after; total = total_after }))

pub check_total :
    String → AccountedUsage → Option ℕ → WriteClass → ℕ → ℕ → ℕ → ℕ → Option ℕ → CheckResult
unfolding check_after
check_total run_id u checkpoint c requested available r t none = erroneous invalid_request
check_total run_id u checkpoint c requested available r t (some total) =
    check_after run_id u checkpoint c requested available r t total

pub check_class : String → AccountedUsage → Option ℕ → WriteClass → ℕ → ℕ → Option ℕ → CheckResult
unfolding check_total add
check_class run_id u checkpoint c requested available none = erroneous invalid_request
check_class run_id u checkpoint c requested available (some after) =
    let r = if is_regular c then after else u.regular in
    let t = if is_regular c then u.terminal else after in
    check_total run_id u checkpoint c requested available r t (add r t)

pub check_accounted : String → Option AccountedUsage → Option ℕ → WriteClass → ℕ → ℕ → CheckResult
unfolding check_class add
check_accounted run_id none checkpoint c requested available = erroneous invalid_usage
check_accounted run_id (some u) checkpoint c requested available =
    check_class run_id u checkpoint c requested available
      (add (if is_regular c then u.regular else u.terminal) requested)

pub check_evidence_write : String → Usage → WriteClass → ℕ → ℕ → CheckResult
unfolding valid_run_id account check_accounted
check_evidence_write run_id u c requested available =
    if not (valid_run_id run_id)
    then erroneous invalid_run_id
    else if requested == 0
    then erroneous invalid_request
    else check_accounted run_id (account u) u.last_checkpoint_sequence c requested available
