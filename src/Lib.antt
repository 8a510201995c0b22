-- ===== src/Lib.antt =====
-- The strategy worker runtime: one process that runs one strategy for one launch. It starts
-- (bootstrap, dependencies, the strategy, heartbeats), is fed market data, and is stopped over
-- gRPC, HTTP or SIGTERM; its phase, its reason codes and its lifecycle signals are what the runtime
-- manager sees of it.
--
-- The parts of the program and the files that model them:
--   * runtime/domain/runtime_state.py and the enums it uses (WorkerPhase in runtime/domain/enums.py):
--     Phase (the transition table and validate_transition), Phase/Status (RuntimeStatus and its
--     builders). Phase/Transitions and Phase/Runs draw the diagram as an inductive relation.
--   * runtime/domain/errors.py: Reason (normalize_runtime_reason_code, worker_error_code_for_reason),
--     with its tables in Reason/Codes and Reason/ErrorCodes; the exception classes are not modelled.
--   * runtime/bootstrap/srm_env_status_report.py, the reasons of a shutdown: Reason/Stop.
--   * runtime/events/dedupe.py: Events/Dedupe (LifecycleSignalDedupe.decide); the table of signals in
--     runtime/events/event_factory.py: Events; LifecycleEventFactory.create and the checks of
--     event_envelope.py: Events/Envelope.
--   * runtime/integration/manager_gateway.py: Gateway (_emit and what it calls; the public calls in
--     Gateway/Payloads). It composes the event factory and the deduplication.
--   * runtime/transport/heartbeat.py: Heartbeat (the HTTP client that posts a worker's status).
--   * runtime/integration/market_data_redis_feed.py, market_data_partition.py and
--     runtime/bootstrap/bar_timeframe.py: MarketData. Names has the consumer groups, Streams the
--     stream keys and partitions, Decoding the payloads, Ingress what is done with one message, and
--     Reading the two loops around it.
--   * runtime/persistence/repositories.py: Persistence (Instances for the worker instances,
--     WorkerEvents for the events, Attempts for launch attempts, heartbeats and diagnostics), over a
--     table (Sql) and stored times (Wire).
--   * runtime/domain/launch_context.py and worker_identity.py: Launch (the two dataclasses with
--     __post_init__, and to_worker_identity).
--   * runtime/application/lifecycle_service.py, LifecycleService: Lifecycle. State holds the
--     attributes, the calls that leave the object and the monad of its methods; Phases, Startup,
--     Shutdown and Running hold the methods (start, run, stop, initiate_stop_from_request, ...).
--     Logic and Total hold the rules by which the proofs follow a method's body.
--   * runtime/domain/order_intent.py: Orders. runtime/runtime/mode_policy.py: Policy.
--   * runtime/bootstrap/strategy_error_boundary.py, strategy_adapter.py and
--     strategy_instance_manager.py: Strategy (Boundary, Adapter, Instance); what the replay
--     bridge does before it calls a hook is a parameter.
--   * runtime/application/worker_control_application.py and cooperative_shutdown.py: Control.
--
-- How the code is modelled. A text is the list of its code points; `lower` and `upper` map the ASCII
-- letters only, which are all that the tables of reason codes hold. A method of LifecycleService is
-- a function from the attributes to an outcome (a value or an exception) and the attributes after
-- it, which stay as they were written when it raises. Every call on another object (the journal, the
-- manager gateway, the strategy, Redis, the clock, threads) goes on a trace and is answered by a
-- World, a parameter: it returns or raises, whatever the theorem's World says. The three ingress
-- threads are flags and calls; what they do while they run is not modelled, nor are log records,
-- domain events and stdout: the model's prints do not fail, though the print of a state message is
-- not guarded in the code. A World answers by the call alone, so a call that is made twice in one
-- method is answered alike; conversions by float() in the final report, and what can raise while the
-- names of the live streams are found, do not raise in the model. The shutdown lock of
-- initiate_stop_from_request is held for the whole method, so a request is one step; threads that
-- interleave with a running stop are not modelled. The consumer loops of MarketData run until a stop
-- is asked for; they are looked at for any number of rounds, so what is proved of them holds at
-- every moment of a run; a reply is a list of messages or a lost connection, and an error reply of
-- Redis, which ends the thread, is not modelled. Everything else is recursive in the structure of
-- its arguments or, for the digits of a number, in a number that shrinks; no fuel is used. Python's
-- json, float and datetime, SHA-256, CRC32, SQLAlchemy and Redis are parameters, with the laws that
-- are used of them named; what they raise on a malformed time, JSON text or decimal is an outcome
-- of the model, but the overflow of a time that is converted to UTC is not.
--
-- Not modelled: the two journals and the journal sink of runtime/persistence, the field lists of a
-- failed launch's signal, the HTTP client of the other signals, the gRPC clients and servers and
-- their serializers, the artifact fetcher and the bundle loader, settings, logging and metrics, the
-- portfolio Redis reader, and the replay bridge.
pub mod Common
pub mod Control
pub mod Events
pub mod Gateway
pub mod Heartbeat
pub mod Launch
pub mod Lifecycle
pub mod MarketData
pub mod Mode
pub mod Orders
pub mod Persistence
pub mod Phase
pub mod Policy
pub mod Reason
pub mod Strategy
