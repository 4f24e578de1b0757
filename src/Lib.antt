-- ===== src/Lib.antt =====
-- Verification of the edge-cloud orchestrator, a TypeScript program that places tasks on edge nodes.
--
-- The program is a set of packages around a backend and a web client. The parts modelled are those
-- that decide: how calls to a failing service are cut off, probed and tried again, how nodes agree
-- on a leader and a log, how a distributed transaction is run and undone, how events reach the
-- message bus and what becomes of those that cannot be handled, who may do what, what is reserved of
-- which node, what an event log keeps and what becomes of its versions, how many requests are let
-- through, how a graph of tasks is run, in which order tasks are taken, and how traffic moves to a
-- new version. They share no state: whether the circuit breaker of a retry policy is open is an
-- argument of the policy. Each part has its own module tree, over `Prelude`.
--
-- * `CircuitBreaker` is packages/circuit-breaker/src/circuit-breaker.ts. `Breaker` holds the fields of
--   the class and the event loop's timers; `enter`, `settle` and `execute` are the method `execute`.
-- * `Retry` is packages/circuit-breaker/src/retry.ts: `execute_from` is the recursion of `execute`,
--   with fuel for one attempt more than are allowed, which `Retry.Attempts` shows to be enough.
-- * `Raft` is packages/raft-consensus/src/raft-node.ts and types.ts: `Node` the state, `Votes`
--   elections, `Append` the follower, `Leader` the leader, `Run` all events of a node in any order.
-- * `Saga` is packages/saga/src/saga-orchestrator.ts: `start_saga`, `execute_saga`,
--   `handle_step_failure` over the rows of one saga.
-- * `Abac` is packages/security/src/abac.ts: `Value` and `Policy` the condition language, `Engine`
--   the decision and the resolvers, `Builder` the policy builder and the default policies.
-- * `Outbox` is packages/outbox/src/outbox-manager.ts: `Table` the rows and queries, `Manager` the
--   methods; what the database and the producer do to an event is an outcome given to a poll.
-- * `Reservation` is src/lib/reservation/ResourceReservationManager.ts: `Node` what is reserved of a
--   node, `Manager` the methods, and the calls and timer ticks as events.
-- * `EventStore` is the class of that name in src/lib/events/EventStore.ts; `EventStore.Log` is the log
--   that it promises.
-- * `RateLimiter` is src/lib/security/rate-limiter.ts: `check_entry` is what `check` does with the entry
--   of a key.
-- * `Workflow` is src/lib/workflow/WorkflowEngine.ts: `Definition` the graphs and the search for cycles,
--   `Engine` the executions. What a node does when it runs is an argument, so an execution may be
--   cancelled or paused at any node. Where the fuel is used up, the state reached is given.
-- * `Deployment` is src/lib/deployment/BlueGreenDeploymentManager.ts: `go_on` is `executeDeployment` from
--   one wait to the next or to its catch, `Manager` the deployments that share the traffic.
-- * `TaskQueue` is src/lib/task-queue.ts, `MessageQueue` src/lib/queue/TaskQueueManager.ts over its
--   adapter in memory, `Deduplication` src/lib/deduplication.ts: the calls that their loops and promises
--   leave running are part of the state, and which of them goes on is an event.
-- * `DeadLetters` is packages/event-bus/src/dead-letter-queue.ts: the rows of its table, and what has been
--   published again.
-- * `EventVersioning` is packages/shared-kernel/src/event-versioning.ts: `Defaults` the schemas that are
--   registered, with their upconverters. The loop of `convert_to_version` takes fuel; with the default
--   schemas two rounds are enough.
--
-- Conventions. A class is a record and a method returns the new record. Identifiers, and values that
-- the code only hands on, are numbers, since they are compared for equality only; where the text
-- matters it is a `String`. Numbers are natural numbers without bound: counters, terms and times stay
-- far below 2 ^ 53, where JavaScript's numbers are exact. An awaited call splits a method in two, so
-- that other events can come between. Loops recur on lists or on the number of rounds left, so
-- no fuel is chosen but in `Retry`, in the loop of `EventVersioning`, and in `Workflow`: there one more
-- than the number of nodes is enough for nodes that are neither parallel nor retried, as
-- `Workflow.Ends` shows, and for others there may be no fuel that is enough.
-- Code outside the repository (the event loop's timers, RegExp, the database client) is a parameter,
-- or stated at the module that meets it. Events for observers, logging and metrics are left out, and
-- so are the web client's pages, the HTTP routes, deployment files and the services that only pass
-- calls on.
pub mod DeadLetters
pub mod Deduplication
pub mod Deployment
pub mod EventStore
pub mod EventVersioning
pub mod RateLimiter
pub mod TaskQueue
pub mod Workflow
pub mod Retry
pub mod MessageQueue
pub mod Outbox
pub mod Prelude
pub mod CircuitBreaker
pub mod Raft
pub mod Saga
pub mod Abac
pub mod Reservation
