-- ===== src/Lib.antt =====
-- The deterministic core of AYTHER Runtime: the inspection of recorded takes, the handover and
-- restoration of the music, and the supervisor of the audio checks.
--
-- Parts and files. A module stands for a component of the source; its child modules hold the
-- theorems and, in Examples, concrete runs.
--   Prelude: tests on numbers, lists, signed integers and machine words that all parts share.
--   Replay (src/replay_inspection): KeyRouter is `KeyRouter`, which turns window events into
--     actions; Controller and Inspection are `InspectionController` (its state, then its
--     operations), which turns actions and reports of the adapter into orders; Cadence is
--     `PlaybackCadence`, the turn of each frame; CheckpointRing and RecoveryPlanner keep the
--     checkpoints and say how an order to recover a frame is carried out; Health is
--     `PresentationHealth`, whose losses interrupt the controller.
--   Music (src/music_*.h): Drain is `MusicBackendDrain` and Pcm is `MusicPcmBackend`, the two sides
--     of the change of generation; Restore has one module for each header of the restoration
--     (Limits for the preparation and the budget, Classification, Position, Recovery, Transaction);
--     ProductFlow is `MusicProductFlow`; Warning is `MusicWarningAggregator`; Bundle is the file
--     format of `MusicStateBundleStore`.
--   AudioQa (tools/audio_qa): Arbiter is `RequestTerminalArbiter`, which decides how a take ends;
--     CancellationWindow, Watchdog (`ProgressWatchdog`, `MonotonicProgress`) and Cessation
--     (`ProcessCessation`) watch the process of a run; Quota is evidence_quota; Progress is
--     `ReplayProgressPublisher`; Threshold is `CheckpointThreshold`. Recording decodes a take:
--     Layout and Registers are the two decoders of recording_header, Input is
--     `RecordingInputSource`. Timeline compiles a pad timeline to the same inputs. Model has the
--     data of initial_state, audio_chunk, mix_model and reference_model with their checks;
--     Publication is `InitialStatePublication`; ReplayLoop is `RecordingReplayLoop`, which reads the inputs once
--     the publication permits it, drives the engine and tells the progress. Lifecycle is
--     `RunLifecycle`, with the parts that take it by reference in its children: Terminal is
--     `ReplayTerminalArbiter`, Cancellation is `ReplayControlGate` and `ReplayCancellation`,
--     Evidence is `EvidenceClose`; System has them together and calls any of them in any order.
--     Registry is `SessionOccupancy` and `RequestRegistry`.
--
-- How the code is modelled. A class is a record with its members as fields; a method is a function
-- of the record of the same name that returns the new record and, beside it, what the method
-- returns or emits. A data type of inputs (`Input`, `Call`, `Event`, `Report`) lists the public
-- methods, `step` calls one, and a sequence of calls in any order is a list. Unsigned words are
-- natural numbers, with the wrap at 2^32 or 2^64 written out where the source adds, multiplies or
-- subtracts; an enum is a data type; `std::optional` is Option; a vector, deque or span is a list.
-- All loops are recursions on lists or on a number of bytes or keyframes; nothing runs on fuel. The
-- two operations that the replay loop calls in the engine are parameters, an answer for each frame;
-- what was called is kept as a list. The frame rate test and `llround(seconds * fps)` of a
-- timeline, which are arithmetic on doubles, are parameters too, with the hypothesis that a result
-- fits the 63 bits of its type. A time point of the steady clock is a natural number of ticks.
--
-- What is not modelled: the window, Vulkan, the engine and the Libretro core, files, pipes and
-- processes (pure calls of other systems); localised messages, the texts of error codes, the parser
-- of timelines; allocation failures. The samples of the music are a type parameter, since the code
-- only moves them. The order of the hash map of the warnings is that of the first warning of each
-- condition. A read of `decode` beyond the end of the file or of the payload, which the source does
-- not check, is a result of its own.
pub mod Prelude
pub mod Replay
pub mod Music
pub mod AudioQa
