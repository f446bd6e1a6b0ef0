-- ===== src/AudioQa/Watchdog/Monotonic.antt =====
-- The progress of a position that may move back (tools/audio_qa/progress_watchdog.cpp).
use ayther_runtime.Prelude.{ℕ, ◌+◌, ◌-◌, ◌%◌, ◌<◌, ◌≡◌, refl, some, List, [], ◌∷◌, arith, All}
use ayther_runtime.Prelude.Word.{u64_mod}
use ayther_runtime.AudioQa.Watchdog.{MonotonicProgress, new_progress, advance, observe}

pub observe_all : MonotonicProgress → List ℕ → MonotonicProgress
observe_all m [] = m
observe_all m (p ∷ ps) = observe_all (observe m p).0 ps

-- The length of the path from a position through others.
abbrev pub path_length : ℕ → List ℕ → ℕ
path_length p [] = 0
path_length p (q ∷ qs) = (p - q) + (q - p) + path_length q qs

abbrev pub first_path : List ℕ → ℕ
first_path [] = 0
first_path (p ∷ ps) = path_length p ps

observe_path :
    (m : MonotonicProgress) (p : ℕ) (ps : List ℕ)
    → m.last ≡ some p
    → p < u64_mod
    → All (λ q. q < u64_mod) ps
    → m.total < u64_mod
    → (observe_all m ps).total ≡ (m.total + path_length p ps) % u64_mod
unfolding observe_all observe advance
observe_path m p [] e l h t = ground arith
observe_path m p (q ∷ qs) e l h t =
    let i = observe_path (observe m q).0 q qs refl h.0 h.1 (ground arith) in ground arith

-- The progress reported for any sequence of positions is the length of the path through them,
-- forward and back, modulo 2^64.
pub progress-path :
    (ps : List ℕ)
    → All (λ p. p < u64_mod) ps
    → (observe_all new_progress ps).total ≡ first_path ps % u64_mod
unfolding new_progress observe_all observe advance
progress-path [] h = ground arith
progress-path (p ∷ ps) h =
    let i = observe_path (record { last = some p; total = 0 }) p ps refl h.0 h.1 (ground arith) in
    ground arith
