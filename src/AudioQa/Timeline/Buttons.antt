-- ===== src/AudioQa/Timeline/Buttons.antt =====
-- Masks of buttons as sets of buttons, against the operations on bits of tools/audio_qa/pad_timeline.cpp.
use Prim.Native.Nat.{min, max, bit_or, bit_and, digits, bit_or-bitwise, bit_and-bitwise}
use native.Mathlib.Nat.{pow-suc, div-add-mod, mod-lt, mod-eq_of_lt, add-mul-mod_self_right}
use ayther_runtime.Prelude.{
  ℕ, zero, suc, ◌+◌, ◌-◌, ◌*◌, ◌/◌, ◌%◌, ◌^◌, ◌≤◌, ◌<◌, ◌≡◌, refl, ap, ◌∙◌, Bool, true, false, not,
  ◌&&◌, ◌||◌, ◌==◌, arith,
}
use ayther_runtime.AudioQa.Timeline.{added, removed}

-- Which buttons are held.
abbrev pub Held : Type 0
Held = ℕ → Bool

abbrev pub released : Held
released = λ i. false

-- Whether a mask has a button: bit 0 is button 0.
pub has : ℕ → ℕ → Bool
has mask zero = mask % 2 == 1
has mask (suc i) = has (mask / 2) i

abbrev bit : Bool → ℕ
bit true = 1
bit false = 0

-- The mask of those of the first `n` buttons that are held.
pub mask_of : ℕ → Held → ℕ
mask_of zero held = 0
mask_of (suc n) held = bit (held 0) + 2 * mask_of n (λ i. held (suc i))

pub mask_of-lt : (n : ℕ) (held : Held) → mask_of n held < 2 ^ n
unfolding mask_of
mask_of-lt zero held = omega arith
mask_of-lt (suc n) held = ground (arith, mask_of-lt n (λ i. held (suc i)), pow-suc 2 n)

pub mask_of-released : mask_of 16 released ≡ 0
unfolding mask_of
mask_of-released = refl

module _ (z : ℕ → ℕ) (f : ℕ → ℕ → ℕ) where
  -- More fuel than digits changes nothing.
  enough : (n m a b : ℕ) → a ≤ n → a ≤ m → digits z f n a b ≡ digits z f m a b
  enough zero zero a b p q = refl
  enough (suc n) zero zero b p q = refl
  enough zero (suc m) zero b p q = refl
  enough (suc n) (suc m) zero b p q = refl
  enough zero m (suc a) b p q = absurd (omega arith)
  enough (suc n) zero (suc a) b p q = absurd (omega arith)
  enough (suc n) (suc m) (suc a) b p q =
      omega (arith, enough n m (suc a / 2) (b / 2) (omega arith) (omega arith))

  digits_step :
      (a b : ℕ)
      → digits z f (suc a) (suc a) b
        ≡ digits z f (suc a / 2) (suc a / 2) (b / 2) * 2 + f (suc a % 2) (b % 2)
  digits_step a b =
      omega (arith, enough a (suc a / 2) (suc a / 2) (b / 2) (omega arith) (omega arith))

or_step : (a b : ℕ) → bit_or a b ≡ bit_or (a / 2) (b / 2) * 2 + max (a % 2) (b % 2)
or_step zero b = omega (arith, bit_or-bitwise 0 b, bit_or-bitwise 0 (b / 2))
or_step (suc a) b = omega (
  arith,
  bit_or-bitwise (suc a) b,
  bit_or-bitwise (suc a / 2) (b / 2),
  digits_step (λ b. b) max a b,
)

and_step : (a b : ℕ) → bit_and a b ≡ bit_and (a / 2) (b / 2) * 2 + min (a % 2) (b % 2)
and_step zero b = omega (arith, bit_and-bitwise 0 b, bit_and-bitwise 0 (b / 2))
and_step (suc a) b = omega (
  arith,
  bit_and-bitwise (suc a) b,
  bit_and-bitwise (suc a / 2) (b / 2),
  digits_step (λ b. zero) min a b,
)

half_bit : (x : ℕ) (h : Bool) → (bit h + 2 * x) / 2 ≡ x
half_bit x true = omega arith
half_bit x false = omega arith

low_bit : (x : ℕ) (h : Bool) → (bit h + 2 * x) % 2 ≡ bit h
low_bit x true = omega arith
low_bit x false = omega arith

or_low :
    (x b : ℕ) (h : Bool) → bit_or (bit h + 2 * x) b ≡ bit_or x (b / 2) * 2 + bit (h || (b % 2 == 1))
or_low x b h = rw (or_step (bit h + 2 * x) b, half_bit x h, low_bit x h) (ground arith)

and_low :
    (x c b : ℕ) (h : Bool)
    → c % 2 + b % 2 ≡ 1
    → bit_and (bit h + 2 * x) c ≡ bit_and x (c / 2) * 2 + bit (h && not (b % 2 == 1))
and_low x c b h e = rw (and_step (bit h + 2 * x) c, half_bit x h, low_bit x h) (ground arith)

-- The remainder keeps the lowest bit.
mod_digit : (x d m : ℕ) → 0 < m → d ≤ 1 → (x * 2 + d) % (m * 2) ≡ x % m * 2 + d
mod_digit x d m p h =
    let e : x * 2 + d ≡ (x % m * 2 + d) + x / m * (m * 2) = grind (arith, div-add-mod x m) in
    let l : x % m * 2 + d < m * 2 = omega (arith, mod-lt x p) in
    ap (λ k. k % (m * 2)) e
    ∙ add-mul-mod_self_right (x % m * 2 + d) (x / m) (m * 2)
    ∙ mod-eq_of_lt l

bit_small : (h : Bool) → bit h ≤ 1
bit_small true = omega arith
bit_small false = omega arith

bit_mod : (n x : ℕ) (h : Bool) → (x * 2 + bit h) % 2 ^ suc n ≡ bit h + 2 * (x % 2 ^ n)
bit_mod n x h =
    ap (λ m. (x * 2 + bit h) % m) (pow-suc 2 n)
    ∙ mod_digit x (bit h) (2 ^ n) (omega (arith, mask_of-lt n released)) (bit_small h)
    ∙ omega arith

digit_mod : (n b : ℕ) → b % 2 ^ suc n ≡ b / 2 % 2 ^ n * 2 + b % 2
digit_mod n b =
    ap (λ k. k % 2 ^ suc n) (omega arith)
    ∙ ap (λ m. (b / 2 * 2 + b % 2) % m) (pow-suc 2 n)
    ∙ mod_digit (b / 2) (b % 2) (2 ^ n) (omega (arith, mask_of-lt n released)) (omega arith)

-- `bit_or` adds the buttons of a mask.
pub or_adds :
    (n b : ℕ) (held : Held) → bit_or (mask_of n held) b % 2 ^ n ≡ mask_of n (λ i. held i || has b i)
unfolding mask_of has
or_adds zero b held = omega arith
or_adds (suc n) b held =
    let low = held 0 || (b % 2 == 1) in
    ap (λ k. k % 2 ^ suc n) (or_low (mask_of n (λ i. held (suc i))) b (held 0))
    ∙ bit_mod n (bit_or (mask_of n (λ i. held (suc i))) (b / 2)) low
    ∙ ap (λ k. bit low + 2 * k) (or_adds n (b / 2) (λ i. held (suc i)))

-- `bit_and` with the complement takes them away.
pub and_takes :
    (n b : ℕ) (held : Held)
    → bit_and (mask_of n held) (2 ^ n - 1 - b % 2 ^ n) % 2 ^ n
      ≡ mask_of n (λ i. held i && not (has b i))
unfolding mask_of has
and_takes zero b held = omega arith
and_takes (suc n) b held =
    let c = 2 ^ suc n - 1 - b % 2 ^ suc n in
    let x = mask_of n (λ i. held (suc i)) in
    let low = held 0 && not (b % 2 == 1) in
    let digits_of : b % 2 ^ suc n ≡ b / 2 % 2 ^ n * 2 + b % 2 = digit_mod n b in
    let below : b / 2 % 2 ^ n < 2 ^ n = mod-lt (b / 2) (omega (arith, mask_of-lt n released)) in
    let half : c / 2 ≡ 2 ^ n - 1 - b / 2 % 2 ^ n = omega (arith, pow-suc 2 n) in
    ap (λ k. k % 2 ^ suc n)
      (and_low x c b (held 0) (omega (arith, pow-suc 2 n))
        ∙ ap (λ k. bit_and x k * 2 + bit low) half)
    ∙ bit_mod n (bit_and x (2 ^ n - 1 - b / 2 % 2 ^ n)) low
    ∙ ap (λ k. bit low + 2 * k) (and_takes n (b / 2) (λ i. held (suc i)))

-- The two masks of 16 bits, as the code computes them.
pub added-mask :
    (b : ℕ) (held : Held) → added (mask_of 16 held) b ≡ mask_of 16 (λ i. held i || has b i)
added-mask b held = or_adds 16 b held

pub removed-mask :
    (b : ℕ) (held : Held) → removed (mask_of 16 held) b ≡ mask_of 16 (λ i. held i && not (has b i))
removed-mask b held = and_takes 16 b held
