-- ===== src/AudioQa/Quota/Writes.antt =====
-- Exactly which writes are permitted (tools/audio_qa/evidence_quota.cpp).
use Prim.Native.String.{String}
use ayther_runtime.Prelude.{
  ℕ, ◌+◌, ◌-◌, ◌*◌, ◌^◌, ◌≤◌, ◌<◌, ◌≡◌, ◌≢◌, ◌↔◌, Bool, true, false, none, some, arith, ◌⊎◌, inl,
  inr,
}
use ayther_runtime.Prelude.Word.{u64_mod}
use ayther_runtime.AudioQa.Quota.{
  ByteUsage, Usage, WriteClass, CheckResult, permitted, refused, erroneous, Permit, valid_run_id,
  add, add_some, sum, account_sums, account, permit, failure, check_after, check_total, check_class,
  check_accounted, check_evidence_write,
}

abbrev pub bytes : ByteUsage → ℕ
bytes u = u.durable_bytes + u.temporary_bytes + u.in_flight_bytes

abbrev pub AreWords : ByteUsage → Type 0
AreWords u =
    (u.durable_bytes < u64_mod) × (u.temporary_bytes < u64_mod) × (u.in_flight_bytes < u64_mod)

add_lem :
    (a b : ℕ)
    → a < u64_mod
    → b < u64_mod
    → ((add a b ≡ some (a + b)) × (a + b < u64_mod)) ⊎ ((add a b ≡ none) × (u64_mod ≤ a + b))
unfolding add
add_lem a b h k = ground arith

sum_lem :
    (u : ByteUsage)
    → AreWords u
    → ((sum u ≡ some (bytes u)) × (bytes u < u64_mod)) ⊎ ((sum u ≡ none) × (u64_mod ≤ bytes u))
unfolding sum add_some
sum_lem u h = elim (add_lem u.durable_bytes u.temporary_bytes h.0 h.1) [
  | inl p ↦ ground (arith, add_lem (u.durable_bytes + u.temporary_bytes) u.in_flight_bytes p.1 h.2)
  | inr p ↦ ground arith
]

-- The usage after a write: its regular and terminal bytes.
abbrev pub regular_after : Usage → WriteClass → ℕ → ℕ
regular_after u WriteClass.regular requested = bytes u.regular + requested
regular_after u WriteClass.terminal requested = bytes u.regular

abbrev pub terminal_after : Usage → WriteClass → ℕ → ℕ
terminal_after u WriteClass.regular requested = bytes u.terminal
terminal_after u WriteClass.terminal requested = bytes u.terminal + requested

account_lem :
    (u : Usage)
    → AreWords u.regular
    → AreWords u.terminal
    → ((account u
          ≡ some (record {
            regular = bytes u.regular;
            terminal = bytes u.terminal;
            total = bytes u.regular + bytes u.terminal;
          }))
        × (bytes u.regular ≤ 8 * 2 ^ 30 - 2 ^ 20)
        × (bytes u.terminal ≤ 2 ^ 20)
        × (u.last_checkpoint_sequence ≢ some 0))
      ⊎ ((account u ≡ none)
          × (((8 * 2 ^ 30 - 2 ^ 20 < bytes u.regular) ⊎ (2 ^ 20 < bytes u.terminal))
              ⊎ (u.last_checkpoint_sequence ≡ some 0)))
unfolding account account_sums add
account_lem u h k = ground (arith, sum_lem u.regular h, sum_lem u.terminal k)

-- What a write must satisfy: a proper run, bytes to write, a usage within the limits before and
-- after it, and the space for it.
abbrev pub Allowed : String → Usage → WriteClass → ℕ → ℕ → Type 0
Allowed run_id u c requested available =
    (valid_run_id run_id ≡ true)
    × (0 < requested)
    × (u.last_checkpoint_sequence ≢ some 0)
    × (regular_after u c requested ≤ 8 * 2 ^ 30 - 2 ^ 20)
    × (terminal_after u c requested ≤ 2 ^ 20)
    × (requested ≤ available)

abbrev pub is_permitted : CheckResult → Bool
is_permitted (permitted p) = true
is_permitted (refused f) = false
is_permitted (erroneous e) = false

-- The permit for a write, by exact sums.
abbrev pub exact_permit : Usage → WriteClass → ℕ → Permit
exact_permit u c requested = record {
  accounted_bytes = regular_after u c requested + terminal_after u c requested;
  remaining_regular_bytes = 8 * 2 ^ 30 - 2 ^ 20 - regular_after u c requested;
  remaining_terminal_bytes = 2 ^ 20 - terminal_after u c requested;
}

module _ (run_id : String) (u : Usage) (c : WriteClass) (requested available : ℕ)
    (h : AreWords u.regular) (k : AreWords u.terminal) (r : requested < u64_mod) where
  -- Regular evidence never takes the last MiB, which is kept for the terminal diagnostic and
  -- checkpoint: a write is permitted exactly if the run is named, it writes something, the usage
  -- that is reported has no checkpoint zero, after the write the regular evidence takes at most
  -- 8 GiB less 1 MiB and the terminal at most 1 MiB, and the space is there. The sums are exact,
  -- whatever 64-bit sizes are reported.
  pub write_permitted_iff :
      (is_permitted (check_evidence_write run_id u c requested available) ≡ true)
      ↔ Allowed run_id u c requested available
  unfolding check_evidence_write check_accounted check_class check_total check_after add failure
  write_permitted_iff =
      (λ e. ground (arith, account_lem u h k), λ e. ground (arith, account_lem u h k))

  -- A write that fits is permitted with the exact bytes accounted for after it and the exact bytes
  -- that remain in either class.
  pub permit_is_exact :
      Allowed run_id u c requested available
      → check_evidence_write run_id u c requested available ≡ permitted (exact_permit u c requested)
  unfolding check_evidence_write check_accounted check_class check_total check_after add failure
      permit
  permit_is_exact a = ground (arith, account_lem u h k)
