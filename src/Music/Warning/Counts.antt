-- ===== src/Music/Warning/Counts.antt =====
-- No warning is lost between the pushes and the close (src/music_warning.h).
use Prim.Native.String.{String}
use mathlib.Core.List.{append-nil}
use ayther_runtime.Prelude.{
  ℕ, ◌+◌, ◌≤◌, ◌<◌, ◌≡◌, refl, ap, sym, ◌∙◌, Option, none, some, List, [], ◌∷◌, ◌++◌, arith, All,
  length,
}
use ayther_runtime.Prelude.Word.{u64_mod}
use ayther_runtime.Music.Warning.{
  Warning, Aggregate, State, Entry, Aggregator, new, key, find, put, pending_aggregate, restart,
  repeat, next_state, snoc, push, close_states, close,
}

-- The warnings that wait in the states.
abbrev pub pending_total : List Entry → ℕ
pending_total [] = 0
pending_total (e ∷ es) = e.state.pending + pending_total es

-- The warnings that an emission stands for.
abbrev pub emitted_count : Option Aggregate → ℕ
emitted_count none = 0
emitted_count (some a) = a.count

abbrev pub sum_counts : List Aggregate → ℕ
sum_counts [] = 0
sum_counts (a ∷ as') = a.count + sum_counts as'

abbrev pending_of : Option State → ℕ
pending_of none = 0
pending_of (some s) = s.pending

put_total :
    (k : String) (s : State) (es : List Entry)
    → pending_total (put k s es) + pending_of (find k es) ≡ pending_total es + s.pending
unfolding put find
put_total k s [] = omega arith
put_total k s (e ∷ es) = ground (arith, put_total k s es)

pending_of-le : (k : String) (es : List Entry) → pending_of (find k es) ≤ pending_total es
unfolding find
pending_of-le k [] = omega arith
pending_of-le k (e ∷ es) = ground (arith, pending_of-le k es)

-- No emission is later than `now`.
abbrev Before : ℕ → List Entry → Type 0
Before now es = All (λ e. e.state.last_emit_ns ≤ now) es

put-Before :
    (now : ℕ) (k : String) (s : State) (es : List Entry)
    → s.last_emit_ns ≤ now
    → Before now es
    → Before now (put k s es)
unfolding put
put-Before now k s [] h b = (h, tt)
put-Before now k s (e ∷ es) h b = ground (arith, put-Before now k s es)

abbrev emit_time : ℕ → Option State → ℕ
emit_time d none = d
emit_time d (some s) = s.last_emit_ns

find-Before :
    (now : ℕ) (k : String) (es : List Entry) → Before now es → emit_time now (find k es) ≤ now
unfolding find
find-Before now k [] b = omega arith
find-Before now k (e ∷ es) b = ground (arith, find-Before now k es b.1)

next_state_counts :
    (period : ℕ) (o : Option State) (w : Warning)
    → emit_time w.monotonic_ns o ≤ w.monotonic_ns
    → pending_of o + 1 < u64_mod
    → let (s, emitted) = next_state period o w in
      (s.pending + emitted_count emitted ≡ pending_of o + 1) × (s.last_emit_ns ≤ w.monotonic_ns)
unfolding next_state restart repeat pending_aggregate
next_state_counts period none w b h = ground arith
next_state_counts period (some s) w b h = ground arith

-- What a sequence of pushes leaves, and how many warnings it emitted.
pub push_all : Aggregator → List Warning → Aggregator × ℕ
push_all a [] = (a, 0)
push_all a (w ∷ ws) =
    let (a', emitted) = push a w in
    let (a'', n) = push_all a' ws in (a'', emitted_count emitted + n)

-- The warnings come in order of time, none before `now`.
abbrev pub InOrder : ℕ → List Warning → Type 0
InOrder now [] = Unit {0}
InOrder now (w ∷ ws) = (now ≤ w.monotonic_ns) × InOrder w.monotonic_ns ws

Before-later : (a b : ℕ) (es : List Entry) → a ≤ b → Before a es → Before b es
Before-later a b [] h p = tt
Before-later a b (e ∷ es) h p = (omega arith, Before-later a b es h p.1)

push_counts :
    (now : ℕ) (a : Aggregator) (w : Warning)
    → now ≤ w.monotonic_ns
    → Before now a.states
    → pending_total a.states + 1 < u64_mod
    → let (a', emitted) = push a w in
      (pending_total a'.states + emitted_count emitted ≡ pending_total a.states + 1)
      × Before w.monotonic_ns a'.states
unfolding push
push_counts now a w h b f =
    let later = Before-later now w.monotonic_ns a.states h b in
    let (n, t) =
      next_state_counts a.minimum_period_ns (find (key w) a.states) w
        (find-Before w.monotonic_ns (key w) a.states later)
        (omega (arith, pending_of-le (key w) a.states)) in
    (
      omega (
        arith,
        n,
        put_total (key w) (next_state a.minimum_period_ns (find (key w) a.states) w).0 a.states,
      ),
      put-Before w.monotonic_ns (key w) (next_state a.minimum_period_ns (find (key w) a.states) w).0
          a.states t later,
    )

push_all_counts :
    (now : ℕ) (a : Aggregator) (ws : List Warning)
    → InOrder now ws
    → Before now a.states
    → pending_total a.states + length ws < u64_mod
    → let (a', n) = push_all a ws in
      pending_total a'.states + n ≡ pending_total a.states + length ws
unfolding push_all
push_all_counts now a [] o b f = omega arith
push_all_counts now a (w ∷ ws) o b f =
    let (n, b') = push_counts now a w o.0 b (omega arith) in
    let rest = push_all_counts w.monotonic_ns (push a w).0 ws o.1 b' (omega (arith, n)) in
    omega (arith, n, rest)

close_states_counts :
    (es : List Entry)
    → let (es', out) = close_states es in
      (pending_total es' ≡ 0) × (sum_counts out ≡ pending_total es)
unfolding close_states pending_aggregate
close_states_counts [] = (refl, refl)
close_states_counts (e ∷ es) = ground (arith, close_states_counts es)

trace_snoc : (w : Warning) (xs ys : List Warning) → snoc w xs ++ ys ≡ xs ++ (w ∷ ys)
trace_snoc w [] ys = refl
trace_snoc w (x ∷ xs) ys = ap (λ l. x ∷ l) (trace_snoc w xs ys)

push_all_trace :
    (a : Aggregator) (ws : List Warning) → (push_all a ws).0.full_trace ≡ a.full_trace ++ ws
unfolding push_all push
push_all_trace a [] = sym (append-nil a.full_trace)
push_all_trace a (w ∷ ws) = push_all_trace (push a w).0 ws ∙ trace_snoc w a.full_trace ws

-- Of any warnings that come in order of time, fewer than 2^64, each is counted exactly once: those
-- emitted while they come and those of the close add up to all of them. The close leaves none
-- pending, and the full trace is the warnings in their order.
pub counts_conserved :
    (period : ℕ) (ws : List Warning)
    → InOrder 0 ws
    → length ws < u64_mod
    → let (a, n) = push_all (new period) ws in
      let (closed, out) = close a in
      (n + sum_counts out ≡ length ws)
      × (pending_total closed.states ≡ 0)
      × (closed.full_trace ≡ ws)
unfolding close new
counts_conserved period ws o f =
    let a = push_all (new period) ws in
    let (none_left, all_out) = close_states_counts a.0.states in
    (
      omega (arith, all_out, push_all_counts 0 (new period) ws o tt (omega arith)),
      none_left,
      push_all_trace (new period) ws,
    )
