-- ===== src/Replay/CheckpointRing/Budget.antt =====
-- The byte budget of the checkpoints (src/replay_inspection/checkpoint_ring.cpp).
use ayther_runtime.Prelude.{
  ℕ, ◌+◌, ◌≤◌, ◌<◌, ◌≡◌, refl, ◌⊎◌, inl, inr, Bool, true, false, ◌||◌, List, [], ◌∷◌, arith,
  Bool-cases, ltb,
}
use ayther_runtime.Prelude.Int.{pos}
use ayther_runtime.Prelude.Word.{u64_mod, sub_u64}
use ayther_runtime.Replay.CheckpointRing.{
  CheckpointEntry, CheckpointRing, evict, evict_after_initial, insert_sorted, is_initial,
  starts_initial, initial_size, store, has_initial,
}

abbrev pub sum_sizes : List CheckpointEntry → ℕ
sum_sizes [] = 0
sum_sizes (e ∷ es) = e.size_bytes + sum_sizes es

insert_sorted_sum :
    (x : CheckpointEntry) (es : List CheckpointEntry)
    → sum_sizes (insert_sorted x es) ≡ x.size_bytes + sum_sizes es
unfolding insert_sorted
insert_sorted_sum x [] = refl
insert_sorted_sum x (e ∷ es) = ground (arith, insert_sorted_sum x es)

-- The loop ends with room for the new checkpoint, or with nothing left to evict; `kept` bytes
-- stand before the entries that it may evict.
evict_fits :
    (budget size total kept : ℕ) (es : List CheckpointEntry)
    → total ≡ kept + sum_sizes es
    → total + size < u64_mod
    → let (total', es') = evict budget size total es in
      (total' ≡ kept + sum_sizes es')
      × (total' ≤ total)
      × ((total' + size ≤ budget) ⊎ (total' ≡ kept))
unfolding evict
evict_fits budget size total kept [] e h = (e, omega arith, inr (omega arith))
evict_fits budget size total kept (x ∷ es) e h =
    ground (arith, evict_fits budget size (sub_u64 total x.size_bytes) kept es)

-- What `evict_after_initial` leaves has room for the new checkpoint.
evict_after_initial_fits :
    (budget size total : ℕ) (es : List CheckpointEntry)
    → total ≡ sum_sizes es
    → total + size < u64_mod
    → initial_size es + size ≤ budget
    → let (total', es') = evict_after_initial budget size total es in
      (total' ≡ sum_sizes es') × (total' + size ≤ budget)
unfolding evict_after_initial
evict_after_initial_fits budget size total [] e h i = (e, omega arith)
evict_after_initial_fits budget size total (x ∷ es) e h i = elim (Bool-cases (is_initial x)) [
  | inl t ↦ rw t (ground (arith, evict_fits budget size total x.size_bytes es))
  | inr t ↦ rw t (ground (arith, evict_fits budget size total 0 (x ∷ es)))
]

-- The initial checkpoint stays first, with its size.
evict_after_initial_keeps :
    (budget size total : ℕ) (es : List CheckpointEntry)
    → starts_initial es ≡ true
    → let es' = (evict_after_initial budget size total es).1 in
      (starts_initial es' ≡ true) × (initial_size es' ≡ initial_size es)
unfolding evict_after_initial
evict_after_initial_keeps budget size total [] i = cc
evict_after_initial_keeps budget size total (x ∷ es) i = ground arith

insert_sorted_keeps :
    (x : CheckpointEntry) (frame : ℕ) (es : List CheckpointEntry)
    → x.frame ≡ pos frame
    → starts_initial es ≡ true
    → (starts_initial (insert_sorted x es) ≡ true)
      × (initial_size (insert_sorted x es) ≡ initial_size es)
unfolding insert_sorted
insert_sorted_keeps x frame [] f i = cc
insert_sorted_keeps x frame (e ∷ es) f i = ground arith

-- The refusal test of `store`.
abbrev no_room : ℕ → ℕ → ℕ → Bool
no_room budget initial size = ltb budget initial || ltb (sub_u64 budget initial) size

no_room_lem :
    (budget initial size : ℕ)
    → budget < u64_mod
    → no_room budget initial size ≡ true
    → budget < initial + size
no_room_lem budget initial size b t = ground arith

room_lem :
    (budget initial size : ℕ)
    → budget < u64_mod
    → no_room budget initial size ≡ false
    → initial + size ≤ budget
room_lem budget initial size b t = ground arith

-- The ring counts its bytes.
abbrev pub IsCounted : CheckpointRing → Type 0
IsCounted r = r.total ≡ sum_sizes r.entries

-- With the bytes counted and no overflow of 64 bits, `store` accepts a checkpoint exactly when it
-- fits beside the initial one. If it accepts, the bytes are counted again and within the budget;
-- if it refuses, nothing changes.
pub store-fits :
    (r : CheckpointRing) (frame size_bytes : ℕ)
    → IsCounted r
    → r.budget < u64_mod
    → r.total + size_bytes < u64_mod
    → let (r', stored) = store r frame size_bytes in
      ((initial_size r.entries + size_bytes ≤ r.budget)
        × (stored ≡ true)
        × IsCounted r'
        × (r'.total ≤ r.budget)
        × (r'.budget ≡ r.budget))
      ⊎ ((r.budget < initial_size r.entries + size_bytes) × (stored ≡ false) × (r' ≡ r))
unfolding store
store-fits r frame size_bytes c b h = elim (Bool-cases (no_room r.budget initial size_bytes)) [
  | inl t ↦ rw t (inr (omega (arith, no_room_lem r.budget initial size_bytes b t), refl, refl))
  | inr t ↦
      let fits = room_lem r.budget initial size_bytes b t in
      let (counted, within) =
        evict_after_initial_fits r.budget size_bytes r.total r.entries c h fits in
      rw t (inl (fits, refl, ground (arith, insert_sorted_sum entry kept), omega arith, refl))
]
  where
    initial : ℕ
    initial = initial_size r.entries

    entry : CheckpointEntry
    entry = record { frame = pos frame; size_bytes = size_bytes }

    kept : List CheckpointEntry
    kept = (evict_after_initial r.budget size_bytes r.total r.entries).1

-- The initial checkpoint is never evicted: `store` leaves it first and with its size.
pub store-keeps_initial :
    (r : CheckpointRing) (frame size_bytes : ℕ)
    → has_initial r ≡ true
    → let r' = (store r frame size_bytes).0 in
      (has_initial r' ≡ true) × (initial_size r'.entries ≡ initial_size r.entries)
unfolding store has_initial
store-keeps_initial r frame size_bytes i = ground (
  arith,
  evict_after_initial_keeps r.budget size_bytes r.total r.entries,
  insert_sorted_keeps (record { frame = pos frame; size_bytes = size_bytes }) frame
      (evict_after_initial r.budget size_bytes r.total r.entries).1,
)
