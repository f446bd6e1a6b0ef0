-- ===== src/Replay/CheckpointRing.antt =====
-- src/replay_inspection/checkpoint_ring.h and checkpoint_ring.cpp: the checkpoints of a take.
-- A frame is an `int64_t`: that of a produced frame, or -1 for the initial state.
pub mod Order
pub mod Budget
pub mod Reachable
mod Examples
use ayther_runtime.Prelude.{
  ℕ, ◌+◌, ◌%◌, Bool, true, false, ◌||◌, Option, none, some, List, [], ◌∷◌, ltb, ◌==◌, if◌then◌else◌,
}
use ayther_runtime.Prelude.Int.{ℤ, pos, negsuc, ltb_ℤ, leb_ℤ}
use ayther_runtime.Prelude.Word.{add_u32, add_u64, sub_u64}

abbrev pub initial_checkpoint_frame : ℤ
initial_checkpoint_frame = negsuc 0

pub record CheckpointEntry : Type 0 where
  pub frame : ℤ
  pub size_bytes : ℕ

pub record CheckpointRing : Type 0 where
  pub interval : ℕ
  pub budget : ℕ
  pub total : ℕ
  pub entries : List CheckpointEntry

unfoldable pub new : ℕ → ℕ → CheckpointRing
new interval budget_bytes = record {
  interval = if interval == 0 then 1 else interval;
  budget = budget_bytes;
  total = 0;
  entries = [];
}

unfoldable pub should_capture : CheckpointRing → ℕ → Bool
should_capture r frame = add_u32 frame 1 % r.interval == 0

-- `entry.frame == initial_checkpoint_frame`.
abbrev pub is_initial : CheckpointEntry → Bool
is_initial e = elim e.frame [ negsuc n ↦ n == 0 | pos n ↦ false ]

abbrev pub starts_initial : List CheckpointEntry → Bool
starts_initial [] = false
starts_initial (e ∷ es) = is_initial e

unfoldable pub has_initial : CheckpointRing → Bool
has_initial r = starts_initial r.entries

-- The entries and the total after `store_initial`, before the size is added.
abbrev replace_initial : ℕ → ℕ → List CheckpointEntry → ℕ × List CheckpointEntry
replace_initial size total [] =
    (total, record { frame = initial_checkpoint_frame; size_bytes = size } ∷ [])
replace_initial size total (e ∷ es) =
    if is_initial e
    then (sub_u64 total e.size_bytes, record e { size_bytes = size } ∷ es)
    else (total, record { frame = initial_checkpoint_frame; size_bytes = size } ∷ e ∷ es)

unfoldable pub store_initial : CheckpointRing → ℕ → CheckpointRing
store_initial r size_bytes =
    let (total', entries') = replace_initial size_bytes r.total r.entries in
    record r { total = add_u64 total' size_bytes; entries = entries' }

-- The `while` of `store`, over the entries from `first` on.
unfoldable pub evict : ℕ → ℕ → ℕ → List CheckpointEntry → ℕ × List CheckpointEntry
evict budget size total [] = (total, [])
evict budget size total (e ∷ es) =
    let rest = evict budget size (sub_u64 total e.size_bytes) es in
    if ltb budget (add_u64 total size) then rest else (total, e ∷ es)

-- The same with the entry before `first`, which is never evicted.
unfoldable pub evict_after_initial : ℕ → ℕ → ℕ → List CheckpointEntry → ℕ × List CheckpointEntry
evict_after_initial budget size total [] = (total, [])
evict_after_initial budget size total (e ∷ es) =
    if is_initial e
    then (let (total', es') = evict budget size total es in (total', e ∷ es'))
    else evict budget size total (e ∷ es)

-- Insertion before the first entry with a later frame (`std::upper_bound` on sorted entries).
unfoldable pub insert_sorted : CheckpointEntry → List CheckpointEntry → List CheckpointEntry
insert_sorted entry [] = entry ∷ []
insert_sorted entry (e ∷ es) =
    if ltb_ℤ entry.frame e.frame then entry ∷ e ∷ es else e ∷ insert_sorted entry es

abbrev pub initial_size : List CheckpointEntry → ℕ
initial_size [] = 0
initial_size (e ∷ es) = if is_initial e then e.size_bytes else 0

unfoldable pub store : CheckpointRing → ℕ → ℕ → CheckpointRing × Bool
store r frame size_bytes =
    let initial = initial_size r.entries in
    let (total', kept) = evict_after_initial r.budget size_bytes r.total r.entries in
    let entry : CheckpointEntry = record { frame = pos frame; size_bytes = size_bytes } in
    if ltb r.budget initial || ltb (sub_u64 r.budget initial) size_bytes
    then (r, false)
    else (record r { total = add_u64 total' size_bytes; entries = insert_sorted entry kept }, true)

-- The loop of `latest_at_most`, with the frame found so far.
unfoldable pub latest_loop : ℤ → Option ℤ → List CheckpointEntry → Option ℤ
latest_loop frame found [] = found
latest_loop frame found (e ∷ es) =
    latest_loop frame (if leb_ℤ e.frame frame then some e.frame else found) es

unfoldable pub latest_at_most : CheckpointRing → ℤ → Option ℤ
unfolding latest_loop
latest_at_most r frame = latest_loop frame none r.entries
