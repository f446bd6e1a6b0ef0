-- ===== src/Music/Restore/Examples.antt =====
-- One restoration of each kind (src/music_restore_position.h and its neighbours).
use ayther_runtime.Prelude.{◌+◌, ◌*◌, ◌%◌, ◌≤◌, ◌<◌, ◌≡◌, ◌↔◌, false, some, arith}
use ayther_runtime.Music.Restore.Position.{
  PositionInput, RestoredPosition, loop, restore, IsRestorable, restore_near,
}

-- 44.1 kHz music restored at 48 kHz.
abbrev position : PositionInput
position = record {
  old_generation = 1;
  new_generation = 2;
  occurrence = 1;
  appearance = 1;
  visit = 0;
  iteration = 3;
  node = loop;
  source_cursor = 1000;
  envelope_cursor = 0;
  source_rate = 44100;
  output_rate = 48000;
  host_paused = false;
}

position-IsRestorable : IsRestorable position
position-IsRestorable = ground arith

restore_near_example :
    (p : RestoredPosition) × (restore position ≡ some p)
    × (p.generation ≡ position.new_generation)
    × ((p.occurrence ≡ position.occurrence)
        × (p.appearance ≡ position.appearance)
        × (p.visit ≡ position.visit))
    × ((p.iteration ≡ position.iteration) × (p.node ≡ position.node))
    × ((p.new_visit ≡ false) × (p.new_trigger ≡ false))
    × (2 * (position.source_rate * p.output_cursor)
        ≤ 2 * (position.source_cursor * position.output_rate) + position.source_rate)
    × (2 * (position.source_cursor * position.output_rate)
        < 2 * (position.source_rate * p.output_cursor) + position.source_rate)
    × ((p.conversion_error_samples ≡ 0)
        ↔ (position.source_cursor * position.output_rate % position.source_rate ≡ 0))
restore_near_example = restore_near position position-IsRestorable (omega arith)
