-- ===== src/Replay/CheckpointRing/Order.antt =====
-- The order of the checkpoints, and what `latest_at_most` finds in them
-- (src/replay_inspection/checkpoint_ring.cpp).
use ayther_runtime.Prelude.{
  ℕ, ◌≡◌, refl, sym, ltb, ◌⊎◌, inl, inr, true, false, Option, none, some, List, [], ◌∷◌, arith, All,
  Bool-cases, leb→le, leb→lt, ltb→lt, ltb→le,
}
use ayther_runtime.Prelude.Int.{ℤ, pos, ◌≤ℤ◌, ◌<ℤ◌, leb_ℤ, ltb_ℤ}
use ayther_runtime.Prelude.Word.{add_u64, sub_u64}
use ayther_runtime.Replay.CheckpointRing.{
  CheckpointEntry, CheckpointRing, evict, evict_after_initial, insert_sorted, is_initial,
  latest_loop, latest_at_most, store,
}

-- The frames never fall along the list.
abbrev pub IsSorted : List CheckpointEntry → Type 0
IsSorted [] = Unit {0}
IsSorted (e ∷ es) = All (λ x. e.frame ≤ℤ x.frame) es × IsSorted es

abbrev pub HasFrame : ℤ → List CheckpointEntry → Type 0
HasFrame f [] = ⊥
HasFrame f (e ∷ es) = (e.frame ≡ f) ⊎ HasFrame f es

module _ (P : CheckpointEntry → Type 0) where
  pub All-insert_sorted :
      (x : CheckpointEntry) (es : List CheckpointEntry)
      → P x
      → All P es
      → All P (insert_sorted x es)
  unfolding insert_sorted
  All-insert_sorted x [] h hs = (h, tt)
  All-insert_sorted x (e ∷ es) h hs = elim (Bool-cases (ltb_ℤ x.frame e.frame)) [
    | inl t ↦ rw t (h, hs)
    | inr t ↦ rw t (hs.0, All-insert_sorted x es h hs.1)
  ]

  pub All-evict :
      (budget size total : ℕ) (es : List CheckpointEntry)
      → All P es
      → All P (evict budget size total es).1
  unfolding evict
  All-evict budget size total [] h = tt
  All-evict budget size total (e ∷ es) h = elim (Bool-cases (ltb budget (add_u64 total size))) [
    | inl t ↦ rw t (All-evict budget size (sub_u64 total e.size_bytes) es h.1)
    | inr t ↦ rw t h
  ]

pub All-above :
    (a b : ℤ) (es : List CheckpointEntry)
    → a ≤ℤ b
    → All (λ x. b ≤ℤ x.frame) es
    → All (λ x. a ≤ℤ x.frame) es
All-above a b [] h hs = tt
All-above a b (e ∷ es) h hs = (omega arith, All-above a b es h hs.1)

ltb→le_ℤ : (x e : CheckpointEntry) → ltb_ℤ x.frame e.frame ≡ true → x.frame ≤ℤ e.frame
ltb→le_ℤ x e t = omega (arith, ltb→lt _ _ t)

ltb→ge_ℤ : (x e : CheckpointEntry) → ltb_ℤ x.frame e.frame ≡ false → e.frame ≤ℤ x.frame
ltb→ge_ℤ x e t = ltb→le _ _ t

insert_sorted-IsSorted :
    (x : CheckpointEntry) (es : List CheckpointEntry) → IsSorted es → IsSorted (insert_sorted x es)
unfolding insert_sorted
insert_sorted-IsSorted x [] s = (tt, tt)
insert_sorted-IsSorted x (e ∷ es) s = elim (Bool-cases (ltb_ℤ x.frame e.frame)) [
  | inl t ↦ rw t ((ltb→le_ℤ x e t, All-above x.frame e.frame es (ltb→le_ℤ x e t) s.0), s)
  | inr t ↦ rw t (
    All-insert_sorted (λ y. e.frame ≤ℤ y.frame) x es (ltb→ge_ℤ x e t) s.0,
    insert_sorted-IsSorted x es s.1,
  )
]

swap_mem :
    (e : CheckpointEntry) (f : ℤ) (es : List CheckpointEntry)
    → (f ≡ e.frame) ⊎ HasFrame f es
    → HasFrame f (e ∷ es)
swap_mem e f es (inl p) = inl (sym p)
swap_mem e f es (inr m) = inr m

later_mem :
    (e : CheckpointEntry) (f g : ℤ) (es : List CheckpointEntry)
    → (f ≡ g) ⊎ HasFrame f es
    → (f ≡ g) ⊎ HasFrame f (e ∷ es)
later_mem e f g es (inl p) = inl p
later_mem e f g es (inr m) = inr (inr m)

-- With the frame found so far at or below all later ones, the loop ends at the greatest in range.
loop_some :
    (frame g : ℤ) (es : List CheckpointEntry)
    → g ≤ℤ frame
    → All (λ e. g ≤ℤ e.frame) es
    → IsSorted es
    → (f : ℤ) × (latest_loop frame (some g) es ≡ some f)
      × (f ≤ℤ frame)
      × ((f ≡ g) ⊎ HasFrame f es)
      × (g ≤ℤ f)
      × All (λ e. e.frame ≤ℤ frame → e.frame ≤ℤ f) es
unfolding latest_loop
loop_some frame g [] h a s = (g, refl, h, inl refl, omega arith, tt)
loop_some frame g (e ∷ es) h a s = elim (Bool-cases (leb_ℤ e.frame frame)) [
  | inl t ↦
      let (f, eq, le, mem, ge, top) = loop_some frame e.frame es (leb→le _ _ t) s.0 s.1 in
      rw t (f, eq, le, inr (swap_mem e f es mem), omega arith, ((λ _. ge), top))
  | inr t ↦
      let (f, eq, le, mem, ge, top) = loop_some frame g es h a.1 s.1 in
      rw t
        (f, eq, le, later_mem e f g es mem, ge, ((λ r. absurd (omega (arith, leb→lt _ _ t))), top))
]

-- What a search among checkpoints must return: none if all are later than `frame`, and otherwise
-- a frame of the list that is not later, and not before any other that is not later.
abbrev pub IsLatest : ℤ → List CheckpointEntry → Option ℤ → Type 0
IsLatest frame es none = All (λ e. frame <ℤ e.frame) es
IsLatest frame es (some f) =
    (f ≤ℤ frame) × HasFrame f es × All (λ e. e.frame ≤ℤ frame → e.frame ≤ℤ f) es

lt→leb : (e : CheckpointEntry) (frame : ℤ) → frame <ℤ e.frame → leb_ℤ e.frame frame ≡ false
lt→leb e frame h = ground arith

-- Past the frame asked for the loop changes nothing.
loop_later :
    (frame : ℤ) (g : Option ℤ) (es : List CheckpointEntry)
    → All (λ e. frame <ℤ e.frame) es
    → latest_loop frame g es ≡ g
unfolding latest_loop
loop_later frame g [] a = refl
loop_later frame g (e ∷ es) a = rw (lt→leb e frame a.0) (loop_later frame g es a.1)

later_above :
    (frame : ℤ) (e : CheckpointEntry) (es : List CheckpointEntry)
    → frame <ℤ e.frame
    → All (λ x. e.frame ≤ℤ x.frame) es
    → All (λ x. frame <ℤ x.frame) es
later_above frame e [] h a = tt
later_above frame e (x ∷ es) h a = (omega arith, later_above frame e es h a.1)

loop_above :
    (frame : ℤ) (e : CheckpointEntry) (es : List CheckpointEntry)
    → frame <ℤ e.frame
    → All (λ x. e.frame ≤ℤ x.frame) es
    → IsLatest frame (e ∷ es) (latest_loop frame none es)
loop_above frame e es h a =
    rw (loop_later frame none es (later_above frame e es h a)) (h, later_above frame e es h a)

pub latest_loop-IsLatest :
    (frame : ℤ) (es : List CheckpointEntry)
    → IsSorted es
    → IsLatest frame es (latest_loop frame none es)
unfolding latest_loop
latest_loop-IsLatest frame [] s = tt
latest_loop-IsLatest frame (e ∷ es) s = elim (Bool-cases (leb_ℤ e.frame frame)) [
  | inl t ↦
      let (f, eq, le, mem, ge, top) = loop_some frame e.frame es (leb→le _ _ t) s.0 s.1 in
      rw t (rw eq (le, swap_mem e f es mem, ((λ _. ge), top)))
  | inr t ↦ rw t (loop_above frame e es (leb→lt _ _ t) s.0)
]

-- On the checkpoints in order of frame, `latest_at_most` finds the greatest frame that is not later
-- than the one asked for, and finds none only if all are later.
pub latest_at_most-IsLatest :
    (r : CheckpointRing) (frame : ℤ)
    → IsSorted r.entries
    → IsLatest frame r.entries (latest_at_most r frame)
unfolding latest_at_most
latest_at_most-IsLatest r frame s = latest_loop-IsLatest frame r.entries s

evict-IsSorted :
    (budget size total : ℕ) (es : List CheckpointEntry)
    → IsSorted es
    → IsSorted (evict budget size total es).1
unfolding evict
evict-IsSorted budget size total [] s = tt
evict-IsSorted budget size total (e ∷ es) s = elim (Bool-cases (ltb budget (add_u64 total size))) [
  | inl t ↦ rw t (evict-IsSorted budget size (sub_u64 total e.size_bytes) es s.1)
  | inr t ↦ rw t s
]

evict_after_initial-IsSorted :
    (budget size total : ℕ) (es : List CheckpointEntry)
    → IsSorted es
    → IsSorted (evict_after_initial budget size total es).1
unfolding evict_after_initial
evict_after_initial-IsSorted budget size total [] s = tt
evict_after_initial-IsSorted budget size total (e ∷ es) s = elim (Bool-cases (is_initial e)) [
  | inl t ↦ rw t (
    All-evict (λ x. e.frame ≤ℤ x.frame) budget size total es s.0,
    evict-IsSorted budget size total es s.1,
  )
  | inr t ↦ rw t (evict-IsSorted budget size total (e ∷ es) s)
]

-- `store` keeps the checkpoints in order of frame, whether it accepts or refuses.
pub store-IsSorted :
    (r : CheckpointRing) (frame size_bytes : ℕ)
    → IsSorted r.entries
    → IsSorted (store r frame size_bytes).0.entries
unfolding store
store-IsSorted r frame size_bytes s = ground (
  arith,
  insert_sorted-IsSorted (record { frame = pos frame; size_bytes = size_bytes })
      (evict_after_initial r.budget size_bytes r.total r.entries).1
      (evict_after_initial-IsSorted r.budget size_bytes r.total r.entries s),
)
