-- ===== src/Music/Restore/Position.antt =====
-- src/music_restore_position.h: the position in the output at which restored music goes on.
use native.Mathlib.Nat.{div-add-mod, mod-lt, mod-eq_of_lt, div-mul-le_self}
use ayther_runtime.Prelude.{
  ℕ, ◌+◌, ◌-◌, ◌*◌, ◌/◌, ◌%◌, ◌≤◌, ◌<◌, ◌≡◌, ◌↔◌, refl, ◌⊎◌, inl, inr, Bool, false, ◌||◌, Option,
  none, some, ltb, leb, ◌==◌, if◌then◌else◌, arith,
}
use ayther_runtime.Prelude.Word.{u64_mod, add_u64}

pub data Node : Type 0 where
  intro loop link : Node

pub record PositionInput : Type 0 where
  pub old_generation : ℕ
  pub new_generation : ℕ
  pub occurrence : ℕ
  pub appearance : ℕ
  pub visit : ℕ
  pub iteration : ℕ
  pub node : Node
  pub source_cursor : ℕ
  pub envelope_cursor : ℕ
  pub source_rate : ℕ
  pub output_rate : ℕ
  pub host_paused : Bool

pub record RestoredPosition : Type 0 where
  pub generation : ℕ
  pub occurrence : ℕ
  pub appearance : ℕ
  pub visit : ℕ
  pub iteration : ℕ
  pub node : Node
  pub output_cursor : ℕ
  pub envelope_cursor : ℕ
  pub rational_numerator : ℕ
  pub rational_denominator : ℕ
  pub conversion_error_samples : ℕ
  pub host_paused : Bool
  pub new_visit : Bool
  pub new_trigger : Bool

-- `numerator / rate`, to the nearest sample; the test and the sum are those of 64-bit words.
pub rounded : ℕ → ℕ → ℕ
rounded numerator rate =
    add_u64 (numerator / rate) (if leb (add_u64 rate 1 / 2) (numerator % rate) then 1 else 0)

abbrev refused : PositionInput → Bool
refused i =
    leb i.new_generation i.old_generation
    || (i.occurrence == 0
        || (i.appearance == 0
            || (i.source_rate == 0
                || (i.output_rate == 0 || ltb ((u64_mod - 1) / i.output_rate) i.source_cursor))))

pub restore : PositionInput → Option RestoredPosition
restore i =
    let numerator = (i.source_cursor * i.output_rate) % u64_mod in
    if refused i
    then none
    else some (record {
      generation = i.new_generation;
      occurrence = i.occurrence;
      appearance = i.appearance;
      visit = i.visit;
      iteration = i.iteration;
      node = i.node;
      output_cursor = rounded numerator i.source_rate;
      envelope_cursor = i.envelope_cursor;
      rational_numerator = numerator;
      rational_denominator = i.source_rate;
      conversion_error_samples = if numerator % i.source_rate == 0 then 0 else 1;
      host_paused = i.host_paused;
      new_visit = false;
      new_trigger = false;
    })

-- The quotient never wraps, and is one more than the truncated one exactly past the half.
le_times : (q rate : ℕ) → 0 < rate → q ≤ rate * q
le_times q rate h = grind arith

rounded_cases :
    (n rate : ℕ)
    → 0 < rate
    → rate + 1 < u64_mod
    → n < u64_mod
    → ((2 * (n % rate) < rate) × (rounded n rate ≡ n / rate))
      ⊎ ((rate ≤ 2 * (n % rate)) × (rounded n rate ≡ n / rate + 1))
unfolding rounded
rounded_cases n rate p h w =
    ground (arith, div-add-mod n rate, mod-lt n p, le_times (n / rate) rate p)

-- Rounding is to the nearest sample, halves upwards, for every rate but the two largest words.
rounded_near :
    (n rate : ℕ)
    → 0 < rate
    → rate + 1 < u64_mod
    → n < u64_mod
    → (2 * (rate * rounded n rate) ≤ 2 * n + rate) × (2 * n < 2 * (rate * rounded n rate) + rate)
rounded_near n rate p h w = elim (rounded_cases n rate p h w) [
  | inl (below, e) ↦ rw e (omega (arith, div-add-mod n rate), omega (arith, div-add-mod n rate))
  | inr (above, e) ↦
      rw e (
        omega (arith, div-add-mod n rate, mod-lt n p),
        omega (arith, div-add-mod n rate, mod-lt n p),
      )
]

times_le : (a b c : ℕ) → a ≤ b → a * c ≤ b * c
times_le a b c h = grind arith

-- The product of a cursor that passes the guard fits its word.
product_fits : (cursor rate limit : ℕ) → cursor ≤ limit / rate → cursor * rate ≤ limit
product_fits cursor rate limit h =
    omega (arith, times_le cursor (limit / rate) rate h, div-mul-le_self limit rate)

-- What a position has to satisfy to be restored at all.
pub record IsRestorable (i : PositionInput) : Type 0 where
  pub later : i.old_generation < i.new_generation
  pub occurs : 0 < i.occurrence
  pub appears : 0 < i.appearance
  pub plays : 0 < i.source_rate
  pub outputs : 0 < i.output_rate
  pub fits : i.source_cursor ≤ (u64_mod - 1) / i.output_rate

accepted_parts : (i : PositionInput) → refused i ≡ false → IsRestorable i
accepted_parts i e = ground arith

restorable_accepted : (i : PositionInput) → IsRestorable i → refused i ≡ false
restorable_accepted i r = ground arith

-- Every restorable position is restored, at a new generation, in the same occurrence, appearance,
-- visit, iteration and node and with no new visit or trigger. Its output cursor times the source
-- rate is within half a source rate of the source cursor times the output rate, and the error
-- is reported exactly if the conversion is not exact. The source rate is below the largest word.
pub restore_near :
    (i : PositionInput)
    → IsRestorable i
    → i.source_rate + 1 < u64_mod
    → (p : RestoredPosition) × (restore i ≡ some p)
      × (p.generation ≡ i.new_generation)
      × ((p.occurrence ≡ i.occurrence) × (p.appearance ≡ i.appearance) × (p.visit ≡ i.visit))
      × ((p.iteration ≡ i.iteration) × (p.node ≡ i.node))
      × ((p.new_visit ≡ false) × (p.new_trigger ≡ false))
      × (2 * (i.source_rate * p.output_cursor)
          ≤ 2 * (i.source_cursor * i.output_rate) + i.source_rate)
      × (2 * (i.source_cursor * i.output_rate)
          < 2 * (i.source_rate * p.output_cursor) + i.source_rate)
      × ((p.conversion_error_samples ≡ 0) ↔ (i.source_cursor * i.output_rate % i.source_rate ≡ 0))
unfolding restore
restore_near i r h =
    let n = i.source_cursor * i.output_rate in
    let fits = product_fits i.source_cursor i.output_rate (u64_mod - 1) r.fits in
    let (low, high) = rounded_near n i.source_rate r.plays h (omega arith) in
    rw (restorable_accepted i r, mod-eq_of_lt {n = n} {m = u64_mod} (omega arith))
      (
        _,
        refl,
        refl,
        (refl, refl, refl),
        (refl, refl),
        (refl, refl),
        low,
        high,
        ((λ e. ground arith), λ e. ground arith),
      )
