-- ===== src/Music/Warning/Examples.antt =====
-- Three warnings of one condition within a period (src/music_warning.h).
use ayther_runtime.Prelude.{ℕ, ◌+◌, ◌≡◌, List, [], ◌∷◌, arith, length}
use ayther_runtime.Music.Warning.{Warning, analysis_limit, new, close}
use ayther_runtime.Music.Warning.Counts.{
  InOrder, push_all, sum_counts, pending_total, counts_conserved,
}

abbrev warning_at : ℕ → Warning
warning_at time = record {
  code = analysis_limit;
  logical_identity = "theme";
  detail = "limit";
  monotonic_ns = time;
}

abbrev warnings : List Warning
warnings = warning_at 10 ∷ warning_at 20 ∷ warning_at 35 ∷ []

warnings-InOrder : InOrder 0 warnings
warnings-InOrder = (omega arith, (omega arith, (omega arith, tt)))

counts_conserved_example :
    let (a, n) = push_all (new 1000) warnings in
    let (closed, out) = close a in
    (n + sum_counts out ≡ length warnings)
    × (pending_total closed.states ≡ 0)
    × (closed.full_trace ≡ warnings)
counts_conserved_example = counts_conserved 1000 warnings warnings-InOrder (omega arith)
