-- ===== src/Lib.antt =====
-- Verification of the RESIDUAL harness.
--
-- The program is an evidence-first control plane for AI-assisted engineering. Modelled are its
-- tasks, residual/core.py, the engine that runs a task, residual/engine.py, its distributed
-- state machine, residual/dsm, the host-owned loop around the factory,
-- residual/factory/loop_runtime, the brakes, residual/brakes.py, the policy of the runtime,
-- residual/runtime/policy.py, and its tenants, residual/tenancy.
--
-- Tasks. `Task.__post_init__` is `check_task` (Core/Task), with `check_obligation`,
-- `check_artifact` and `is_identifier` (Core/Identifier). Its loop over the dependencies has as
-- much fuel as there are obligations, since each round resolves one.
--
-- Engine. `Harness.run` (residual/engine.py) is `run` (Engine/Rounds): rounds of ready obligations,
-- each tried from the cache and by its solver, then sent to the local and the expert provider.
-- `_accept` and the keys and receipts around it are in Engine/Accept, `_packet` in
-- Engine/Packets, `_merge` in Engine/Intervals, `_parse`, `_request_evidence` and the parts of
-- `_work` in Engine/Work and Engine/Calls, the result in Engine/Results. The attributes that a
-- run changes are the record `Run`, with the caches' and the providers' world in it. Providers
-- are records of functions, and the registry, the cache and the digests the record `Host`; what
-- they do is arbitrary. A round attempts an obligation that was not attempted, so one round more
-- than there are obligations is enough fuel. `cloud_allowed` (Core/Task/Cloud) has as much fuel
-- as there are obligations.
--
-- Distributed state machine. A store (residual/dsm/store.py, Dsm/Store) admits proposed events
-- into a journal (residual/dsm/journal.py, Dsm/Journal) after it asked the ownership registry
-- (residual/dsm/ownership.py, Dsm/Ownership) and, for writes to leases, the lease manager
-- (residual/dsm/lease.py, Dsm/Lease). Outbox, inbox and acknowledgement log
-- (residual/dsm/delivery.py, Dsm/Delivery) have journals of their own. Each operation is a
-- function from the state of its object to the next one with an answer or an error
-- (Dsm/Errors); an exception leaves the state as it was where the code raises before it
-- assigns. A restart opens the lines of the file again: `open_journal`, `recover`,
-- `open_outbox`, `open_inbox` are the constructors of the classes. The crash that `submit` can
-- simulate is an answer of its own, behind the write.
--
-- Loop. A goal contract (contract.py, Loop/Goal) says which verifications a mission needs and
-- what it may use; the controller (controller.py, Loop/Controller) runs the factory until the
-- evaluator (Loop/Goal) calls the goal complete, or a limit, an abort condition or a stall ends
-- the mission; progress and fingerprints are in progress.py (Loop/Progress), the intent of
-- the next run in policy.py (Loop/Policy), the records in state.py (Loop/State). The factory,
-- the clock, the operator's switch and the digests are one record of functions, `Host`, over an
-- arbitrary world. The variables of `run` are the record `Vars`; its loop is recursion on the
-- rounds that are left, so no fuel is needed.
--
-- Brakes. Each of the four brakes (Brakes, one module for each) is its fields with an `update` by
-- an event, which may give a trip, and a `reset`; `feed` updates by a list of events.
--
-- Runtime policy. Mappings are association lists over Python values, of which the model takes the
-- truth test and the values True and False as parameters (Runtime/Policy).
--
-- Tenancy. Tenants with their states (residual/tenancy/tenant.py, Tenancy), the execution of
-- delegated tasks with approvals (delegation.py, Tenancy/Delegation), the creation and deletion
-- of tenants (lifecycle.py, Tenancy/Lifecycle) and the deficit round-robin scheduler
-- (scheduler.py, Tenancy/Scheduler). The passes of the scheduler have as much fuel as the
-- tenants need credit, and two more: a pass gives every tenant with jobs some of it, or uses the
-- steps up. The records of tenants with their agreements are isolation.py (Tenancy/Isolation), the
-- policies against the platform's floors policies.py (Tenancy/Policies).
--
-- Bounds. Numbers that the source compares and adds (tokens, times, costs, masses) are natural
-- numbers; a difference that can be negative is an integer (Prelude/Int). Python's integers have
-- no width. Costs, times and masses are floats in the loop and whole numbers of a smallest unit
-- here, and the time budget of the brakes is in nanoseconds. Texts are compared by code points.
--
-- Not modelled: file creation, fsync and JSON text. A journal's file is a list of lines, each a
-- record that was read, blank or malformed, and the last one ended; whether the text of a record
-- breaks into several lines is a parameter, as SHA-256 is (`Codec`; what needs the digest to be
-- free of collisions says so). Also not modelled: hashes of contracts and iteration records, the
-- engine's modes with a structural plan, its measured times and the hashes of its ledger, and
-- the other packages.
--
-- What the modules share is in Prelude. Lemmas and tests stand below the module they are about.
pub mod Prelude
pub mod Core
pub mod Dsm
pub mod Engine
pub mod Loop
pub mod Runtime
pub mod Tenancy
pub mod Brakes
