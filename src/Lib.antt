-- ===== src/Lib.antt =====
-- The verification library of TeeTimeBooker, a bot that books golf tee times.
--
-- The program has an engine (teetime/core), adapters of booking sites (teetime/courses), a
-- multi-user store with its jobs (teetime/tenant) and a web application (teetime/web). A booking run
-- asks the date policies whether to act, reserves tokens in the CAPTCHA pool, ranks the slots of a
-- course and books one; the store's rules say what each run, watcher or page may write to a row.
-- Paths below are relative to src/.
--
--   Core/Calendar       dates as ordinals, times as microseconds, zones as pairs of functions
--   Core/Models         teetime/core/models.py: requests, slots, reservations, results
--   Core/Policy         teetime/core/booking_cutoff.py, booking_day_gate.py, dst_gate.py,
--                       target_date.py and release_policy.py; Policy/Gates and Policy/Horizon
--                       prove what they decide
--   Core/Slots          teetime/core/slot_utils.py; Slots/Windows, Slots/Ranking and Slots/Ranked
--                       are proofs
--   Core/Orchestrator   teetime/core/orchestrator.py, one course of a run: Orchestrator/Course has
--                       _run_course and _blind_post_course, the parent the loops that they call;
--                       Booking, Extras, Cancels, Search and DryRun are proofs
--   Courses/TokenPool   teetime/courses/foreup/token_pool.py: SharedCaptchaPool as a record and its
--                       methods as functions on it; Rounds and Fill prove the coordinated fill,
--                       Custody and Drops what happens over any sequence of events
--   Tenant/Allocation   teetime/tenant/allocation.py: the blind draft; its loop invariant, its
--                       termination, and what an allowlist is
--   Tenant/Rows         teetime/tenant/models.py: rows, rules and the state machine; Edges is the
--                       table of moves as a relation, and Soundness ties the two
--   Tenant/Semantics    teetime/tenant/semantics.py: Intents (new rows, cutoffs, rules), Restoring
--                       (a rule row given its date back), Outcomes (the row that an outcome writes)
--   Tenant/Store        teetime/tenant/in_memory_store.py: InMemoryTenantStore. Commit is _commit;
--                       Web, Materializing, Running, Watching, Cutoffs, Reads and Journal have the methods
--                       by who calls them, each as the batch that it plans or as a loop of
--                       batches; Calls makes one type of them. Moves is what a method may do to
--                       the store, Sound shows that each does no more; Reach, Covered, Leasing,
--                       Recorded and Offers prove what follows
--   Tenant/Groups       teetime/tenant/groups.py: Ranks has booked_rank, group_floor and
--                       plan_collapse, Collapse and Report the downgrades of collapse_group over
--                       the tenant store; Standing has ranks and rivals as relations, and
--                       Best, Floor and Spares are proofs
--   Tenant/Materialize  teetime/tenant/materialize.py: the walk of one rule, materialize_rule, over
--                       the tenant store; Tick has materialize_tick and its sweep, Edits
--                       apply_rule_edit; Dates, Writes and Edited are proofs
--   Tenant/Retry        teetime/tenant/retry.py: which failures are transient, and retry_transient;
--                       Ends is about its fuel
--   Prelude             shared names, Boolean tests, lists, dictionaries, stable sorting, results
--
-- State is passed explicitly: an operation takes a record and returns the next one, inside a result
-- where the code raises. Site adapters, clocks and zone tables are parameters, with what the code
-- relies on as hypotheses where a theorem needs it: that a gone slot made no reservation, that sleep
-- moves the clock, that a zone reads back the time that it localized.
--
-- Three loops run on fuel. The draft gets a round for each pick that the cap leaves and one more; a
-- round without a pick ends it, and the theorem of full allowlists shows that the fuel never ends
-- it first. The search loop gets a turn for each millisecond of its deadline and two more. The
-- retry gets a turn for each attempt of its policy; the last attempt is never retried. Numbers are
-- naturals, but for the two sizes of the blind draft, which the code checks to be non-negative;
-- where a subtraction of the code could go below zero it is guarded here as there. Distances from a
-- window's midpoint are exact, as the code's floats are for times of whole minutes.
--
-- Not modelled: waiting and log lines, HTTP and mail clients, Cosmos documents, web pages, the
-- command line and configuration files; the whole run with its lock and pre-warm, and the
-- watch and upgrade orchestrators.
pub mod Prelude
pub mod Core
pub mod Courses
pub mod Tenant
