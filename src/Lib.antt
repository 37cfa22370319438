-- ===== src/Lib.antt =====
-- The camera adapter: models of the logic that decides what the component does with a capture, and
-- theorems about them.
--
-- A capture is accepted durably, waits in a queue, takes a camera and bounded capacity, and ends in
-- one durable terminal state. The parts below are that path; each file opens with the code that it
-- models.
--
-- * src/error.rs, in Error: the public codes `ErrorCode` with `as_str`, the failure `CameraError`
--   with `code` (here error_code), and `Result`, which the other models return. A message keeps its
--   literal text, and the values that `format!` puts into it are dropped.
-- * src/model.rs, in Model: `PixelFormat::uncompressed_len` with its checked arithmetic, and the
--   stages `JobState` with `is_terminal` and `can_transition_to`. Model.Stages has histories of
--   stages.
-- * src/supervisor.rs, in Supervisor: `LifecycleMachine`, whose state is a record and whose
--   `transition` returns the machine and a result, and `BackoffPolicy` with `delay`. SHA-256 is a
--   parameter, a function from bytes to bytes; a `Duration` is its nanoseconds.
-- * src/admission.rs, in Admission. Queue is `CaptureAdmissionQueue`: `try_enqueue` by its two
--   parts, before the lock (draw_ticket) and under it (push_entry), which Queue.History interleaves,
--   `remove_ticket` and `pop_best_admissible` on the state that the mutex guards, with the observed
--   time and the cancelled tokens as arguments. Lanes is `ControlLanes`. Budget and Capacity are
--   `AdmissionController`: `acquire_capture` is a task that is polled one stage at a time, an error or
--   a dropped future gives back what the task holds, `reserve_memory` is a task beside it that only
--   borrows memory, and `finish_acquisition`, `shrink_memory`, `release_memory` and `shrink_disk` are
--   the methods of its leases. Capacity.Conservation interleaves any number of tasks.
-- * src/catalog.rs, in Catalog. Job has the transactions on the row of one capture:
--   `compare_and_set_state`, `begin_persisting`, `try_begin_install` (begin_install),
--   `record_installed_artifact`, `commit_terminal`, `cancel_job`, `interrupt_recovered`,
--   `reschedule_deadlines` and, of `queue_group`, what it does to a member (queue_member). Ledger has
--   `accept_job_blocking`, `accept_scheduled_job_blocking`, `begin_command_blocking` and
--   `complete_command_blocking` on the tables. Settlement has the whole of `terminal_blocking`, with
--   the ledger rows that it settles. JSON values are the interface Catalog.Types.Json.
-- * src/dispatch.rs, in Dispatch: `FleetSlots::reserve` and the two steps of `Drop for FleetSlot`,
--   which other calls can come between; Dispatch.Slots interleaves them.
-- * src/scheduler.rs, in Schedule: `SchedulePlan::evaluate`, with its bounded scan, and
--   `next_after`. The cron and timezone libraries, SHA-256 and the text of an instant are the
--   interface Schedule.Cron.
-- * src/registry.rs, in Registry: `CameraRegistry::new`, `update`, `apply_validated_config` and the
--   calls that read one camera, on the entries that the lock guards. An update holds the lock shared:
--   its checks (check_update) and its publication (publish_flight) are steps of their own, which
--   Registry.Updates interleaves with those of others and with reloads. The backend's settings and the capabilities are the
--   interface Registry.Backends.
-- * src/storage_pressure.rs, in Pressure: the assessment of both roots and the root of the alarm,
--   with the probe as an argument, and `StorageAlarmState::transition` of src/runtime.rs
--   (transition_alarm) on the active alarm. Pressure.Agreement relates the assessment to the disk
--   budget of src/admission.rs.
-- * src/backend/rtsp.rs, in Rtsp: what reads the bytes of a camera. Packet is `parse_rtp_packet`.
--   Rbsp is `RbspBitReader`, a state that each call returns, and Sps has `parse_h264_sps_dimensions`
--   and `parse_h265_sps_dimensions`. Assembler is `AccessUnitAssembler`: H264 and H265 are `push_h264`
--   and `push_h265`, Fragments what both do with a fragmentation unit, and Push is `push` with the
--   discarding and the completion of a unit; a call returns the state that it leaves, on an error too.
--   Packet.Wire, Rbsp.Escape, Sps.Syntax and Assembler.Fragmentation have the sender's side, as the
--   RTP and codec standards lay it out.
--
-- The parts interact through these names: the queue and the capacity return the errors of Error, the
-- catalog moves a row along the stages of Model, and its histories are those of Model.Stages. Base
-- has what they share: Boolean tests on native numbers, lists with native lengths,
-- `Vec::swap_remove`, string-keyed maps, and the bounds of the machine integers with the checked and
-- saturating operations. A mutex, and a transaction of SQLite, run alone, so a concurrent history is
-- a sequence of calls. The atomic counters of the byte budgets wrap at 64 bits.
--
-- Bytes are natural numbers. A shift and a mask of them are written as a quotient and a remainder by a
-- power of two; an `i32` of the parameter sets is its bit pattern and its sums wrap, as in the release
-- profile. A slice index is read with a default, where the guards of the code keep it in range; a
-- parsed packet has a payload byte, which `push_h264` relies on.
--
-- The loops are structural recursions on a list, but for two in Schedule and three in Rtsp. The loop
-- of `unsigned_exp_golomb` ends at its 32nd zero by its own test, and counts down from 32. The loops
-- over an aggregation packet have the length of the payload as fuel, and a round takes three bytes
-- at least; Rtsp.Assembler.Aggregation uses that it is enough. `evaluate` counts down from its own
-- bound of 10000 occurrences. `next_after` has no bound in the code, and takes the number of
-- candidates that it may try; Schedule.Search has how many are enough. Times are natural numbers,
-- nanoseconds in memory and milliseconds in the catalog, where the code has signed milliseconds that
-- it only stores and compares; the sum of an instant and its jitter is not cut off at the largest
-- date of the library.
--
-- Not modelled: the asynchronous wiring (src/runtime.rs but for the storage alarm, src/actor.rs,
-- src/jobs.rs, src/commands.rs), which calls these operations; the encoder and writer permits and
-- the expiry timers of src/admission.rs, which are plain semaphores and calls of `remove_ticket`;
-- the rows of groups, waiters, pruning, migrations and the bounded error message of src/catalog.rs;
-- configuration, the compilation of schedules, the scheduler of src/dispatch.rs that pops the queue,
-- and the sorted listings of the registry; files, images, messages, credentials and metrics, which
-- call libraries or the operating system; and the device protocols under src/backend but for the
-- readers above: SDP and RTSP responses rest on the url and base64 crates, and the connection, the
-- TLS set-up, the decoder and the worker are tasks around libraries.
pub mod Base
pub mod Error
pub mod Supervisor
pub mod Model
pub mod Admission
pub mod Catalog
pub mod Dispatch
pub mod Schedule
pub mod Rtsp
pub mod Registry
pub mod Pressure
