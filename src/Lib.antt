-- ===== src/Lib.antt =====
-- Verification of the Carnet scolaire integration, which reads a school's portal (PRONOTE or
-- EcoleDirecte) into Home Assistant without overloading it. Nothing reaches a portal but through a
-- rate limiter; a scheduler says which tier of data is worth a request next.
--
-- The parts and their files (paths are under custom_components/carnet_scolaire/):
--   Const          const.py: the tiers, their priorities, ranks and intervals.
--   Limiter        ratelimit.py, `RateLimiter`. State: the configuration, the verdicts and the
--                  fields. Layers: `_roll_day`, `_cap_fraction`, `_refill`, `_token_wait`,
--                  `_spacing_wait`. Quiet: quiet hours, the waits that end at a time of day, batches.
--                  Holds: holds, the throttled flag, the backoff. Calls: `check`, `commit`,
--                  `reconcile`, `note_failure`, `note_success`. Logins: `may_login`,
--                  `_commit_login`, `note_login`. Handover: `export_state`, `import_state`, `state`,
--                  `snapshot_counters`. Admission: `call` and `login` as steps of an event loop.
--                  Effect says what any method may change; the theorems are in Verdicts, Bucket,
--                  HoldLaws, LoginLaws, DayLaws, HandoverLaws, HandoverErrors and
--                  Admission/Interleaving.
--   Scheduler      scheduler.py, `FetchScheduler`. State: plans and states. Due: `due`,
--                  `next_due_in`, ages. Outcomes: `mark_collected`, `defer`, `mark_failed`,
--                  `request`, `export_state`, `import_state`. The theorems are in Order, Membership,
--                  Deadlines, Presses and Keys.
--   EdLimiter      connectors/ecoledirecte/ed_limiter.py, `EdRateLimiter`: State, Calls, Logins,
--                  Handover, and Waiting for logins that wait at once; the theorems are in Holds,
--                  Spacing, LoginCap and Takeover.
--   ChildKeys      child_keys.py: `pair`, `_next_key`, `is_minted`; the theorems are in Laws,
--                  Sharing and Placing.
--   Tiers          tiers.py: `_priority_for`, on the state of the scheduler.
--   Models         models.py: the data that the portal's answers become, in Timetable, School and
--                  Lifetime; Text has the instants and texts that they are compared by.
--   Delta          delta.py, `DeltaDetector`. Context: the events and their attributes. Detector:
--                  the state, `_new_ids`, `rename`, `forget`. Collections: `marks`, `homework`,
--                  `news`, `attendance`, `evaluations`. Threads: `discussions`, `_message_events`.
--                  Lessons: `timetable`, `_lesson_events`. History is the specification: what a
--                  collection held last, looked up in the calls themselves. The theorems are in
--                  Detection, Refinement, Signatures and Newest.
--   Session        session.py, `SessionManager`. State: the fields, and the deeds of a run, which
--                  are the calls of the limiter, of the worker, of the log and of the account.
--                  Policy: `effective_strategy`, `_reconnect_required`, `_live_child_id` and what
--                  else only reads. Measure: `_note_survival`, `_note_expiry`. Login: `_login`,
--                  `_reopen`, `_ensure_client`. Run: `_run_locked`, `_handle_protocol_error`,
--                  `_replay_on_a_fresh_session`. Counts, Held, Settled, Stable and Evidence say
--                  what the stages of a run leave; the theorems are in Bounds, Batches, Timeouts,
--                  Expiries, Invariant and Founded.
--   Account        account.py and coordinator.py, the collection of a tier. State: the coordinators with
--                  their snapshots, the records, the events that were fired. Collect:
--                  `_async_collect`, where how the collection for a student ends is an argument.
--                  Batch: `_async_run_batch` and `_async_tick`. Published, Settled, Frame and Others
--                  say what a publication and a collection leave; the theorems are in Fired, Kept,
--                  Boosts and Deeds.
--   Options        options.py and the ranges of const.py. Read: `bounded_option`. Config:
--                  `build_rate_limit_config`, `tier_intervals`, `tier_enabled`. Clamp has the range
--                  of one option; the theorem is in Ranges.
-- A method is a function from a state, and from what it reads of the clocks, to the next state; one
-- that answers returns the pair of both. A function bears the name of its method without the leading
-- underscore, and a method with several stages is one function for each.
--
-- Units and bounds. Instants and durations are whole microseconds, where the source has floats of
-- seconds, and so is a stored option that is finite, in millionths of its unit; a wait is rounded up. Tokens are counted so that one request costs `hour`, by which one
-- microsecond brings `max_requests_per_hour` units and refilling is exact. A synchronous method reads
-- each clock once. A draw of the generator is a whole number `r` for `r / 2 ** 53`. An aware datetime
-- is its local instant; the time zone is a parameter that takes a local instant to UTC, of which only
-- the theorem on quiet time asks that it keeps an order. The loop of quiet hours runs on the days that
-- are left, 401 at first, which is the source's own bound. Loops over lists are structural.
--
-- Interleavings. An event of `Limiter.Admission` is a caller that asks for the lock, a sleep that ends,
-- a cancellation, or a method that takes no lock; a schedule is any list of events with the clocks that
-- each reads. A caller that waits for the lock asks again later. In `EdLimiter` an admission runs from
-- its verdict to its record, past its sleep, and a parameter says what the clocks read at its end;
-- `EdLimiter.Waiting` interleaves the tests, the admissions and the cancellations of logins.
--
-- Sessions. What the limiter, the server and the school answer to a run is a script of two logins and
-- two calls, each with the clocks at which the answer comes; by `_gate` runs are one after another. A
-- class of exceptions is named by the first `except` clause that takes it.
--
-- Not modelled: the network clients, the gateway to pronotepy, the worker thread, the entities and the forms
-- of Home Assistant; log records; `fold`; a record of a child without its key.
pub mod Prelude
pub mod Const
pub mod Limiter
pub mod Scheduler
pub mod EdLimiter
pub mod ChildKeys
pub mod Tiers
pub mod Models
pub mod Delta
pub mod Session
pub mod Account
pub mod Options
