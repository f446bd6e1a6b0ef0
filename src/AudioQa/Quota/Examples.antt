-- ===== src/AudioQa/Quota/Examples.antt =====
-- A write of regular evidence (tools/audio_qa/evidence_quota.cpp).
use ayther_runtime.Prelude.{◌≡◌, ◌↔◌, true, some, arith}
use ayther_runtime.AudioQa.Quota.{Usage, regular, check_evidence_write}
use ayther_runtime.AudioQa.Quota.Writes.{AreWords, Allowed, is_permitted, write_permitted_iff}

abbrev usage : Usage
usage = record {
  regular = record { durable_bytes = 4096; temporary_bytes = 512; in_flight_bytes = 64 };
  terminal = record { durable_bytes = 100; temporary_bytes = 0; in_flight_bytes = 0 };
  last_checkpoint_sequence = some 2;
}

words : AreWords usage.regular
words = (omega arith, omega arith, omega arith)

terminal_words : AreWords usage.terminal
terminal_words = (omega arith, omega arith, omega arith)

write_permitted_iff_example :
    (is_permitted (check_evidence_write "run" usage regular 1000 1000000) ≡ true)
    ↔ Allowed "run" usage regular 1000 1000000
write_permitted_iff_example =
    write_permitted_iff "run" usage regular 1000 1000000 words terminal_words (omega arith)
