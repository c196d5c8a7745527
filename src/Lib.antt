-- ===== src/Lib.antt =====
-- Cadena is a coordination platform for software delivery and IT service work. This library
-- models the parts of it that decide: which state changes are allowed and how their events reach
-- the consumers, what a connector may send to a provider and how a relay carries it, how a
-- webhook that comes in is taken and worked off, how fields are translated, how a backfill is
-- cut into windows and paced, how the audit trail is chained, how long a work item has aged and
-- flowed, and what an outage implicates.
--
-- * Prelude passes on the library's names, and holds Boolean tests on native numbers, measures
--   of lists and rounding division.
--
-- * Limiter (src/modules/connectors/backfill/adaptive-limiter.ts): AdaptiveLimiter and
--   RequestPacer. A method that changes the object returns the new record.
--
-- * Backfill (src/modules/connectors/backfill/backfill-planner.ts): planChunks.
--
-- * Governor (src/modules/connectors/rate-governor.ts): Policy is validateRateGovernance and the
--   merge of registerPolicy; Row is the row of integration_rate_governance with the transactions
--   of acquireQuota and recordSuccess; Failure is recordFailure; Execute composes them as
--   execute does; Gate is acquireConcurrency, as a relation between states, since a woken waiter
--   goes on in a later microtask.
--
-- * Sla (src/modules/sla/sla-calculator.service.ts): calculateElapsedMinutes and computeAging.
--
-- * Aging (src/modules/sla/aging-engine.service.ts): recomputeAgingForOrg, one item after
--   another, on lists that stand for the tables.
--
-- * Flow (src/modules/flow/flow-profile.ts): buildIntervals, clipIntervals, businessMs and the
--   totals.
--
-- * Events (src/modules/events): Envelope is DomainEventEnvelope and resolveEventOrgId; Registry
--   is EventConsumerRegistry; DeadLetters is DeadLetterService; Outbox is EventOutboxService
--   with publishEnvelope. Handlers of consumers are functions on a state of the caller's.
--
-- * Workflow (src/modules/workflow/workflow.service.ts): Definition is
--   validateWorkflowDefinition with the built-in workflows; Guard is evaluateRoleGuard;
--   Transition is publishWorkflow, getWorkflowDefinition and the checks of transitionWorkItem;
--   Commit is commitStateChange with the calls that end in it.
--
-- * SyncGuard (src/modules/integrations/sync-guard.service.ts): recordIntegrationWrite and
--   evaluateWebhook. The digest is an argument, and a payload is its canonical text.
--
-- * Audit (src/modules/audit/audit-integrity.ts): Canonical is stableStringify; Audit itself has
--   canonicalAuditEvent, the hash, appendAuditIntegrityEntry and verifyTenantAuditChain. SHA-256
--   is an argument, and what is used of it, that no two texts have one digest and that a digest
--   is in hexadecimal digits, is a hypothesis.
--
-- * Relay (src/modules/connectors/relay/connector-relay.service.ts): Relay itself has the rows
--   and the claim of a poll; Request is request and waitForResponse; Acknowledge is acknowledge,
--   whose UPDATE may meet another queue than its SELECT. A SELECT and the UPDATE that follows it
--   may have other statements between them, which Relay.Queue puts in any order.
--
-- * Backfill.Csv (src/modules/connectors/backfill/csv.ts): toCsv, with a reader of RFC 4180 in
--   Backfill.Csv.Reader.
--
-- * Impact (src/modules/lineage/impact.service.ts): the traversal of getServiceImpact from a
--   service's seeds along the links of the work items.
--
-- * Flow.Cost (src/modules/flow/cost-of-delay.ts) and Flow.Risk (src/modules/flow/flow-risk.ts):
--   matchRule with the estimates that follow from its rule, and assessRisk.
--
-- * Mapping (src/modules/connectors/mapping/field-mapping-evaluator.ts): evaluateFieldMapping
--   with its transforms, and the dotted paths of getPath and setPath (Mapping.Path), where no
--   segment of a path is a key of Object.prototype.
--
-- * Intake (src/modules/integrations/inbound-webhook-queue.service.ts): enqueue, processEvent
--   and the recovery at a start, with completeDelivery and failDelivery of
--   integration-support.ts on the same table.
--
-- The workflow service enqueues an event for each committed change, which the outbox hands to
-- the bus and the bus to the consumers; the governor reports the begin and the end of load
-- shedding the same way. The backfill runner paces its requests by the Limiter inside calls that
-- the Governor admits; the aging engine reads the Sla calculator; the flow profile has its own
-- day-by-day business time.
--
-- A Date is its count of milliseconds since the epoch, and the clock readings of a run are
-- arguments. Where the source computes with doubles (a percentage, a jittered delay), the model
-- computes exactly and rounds where the source rounds. A table is a list of rows, and a
-- transaction that locks its row is a function on it.
--
-- The walk of the SLA calculator has one unit of fuel for each millisecond of its interval, and
-- the sum of the flow profile one for each day: the loops go on by at least that much each
-- round. The loop of acquireQuota takes the list of its clock readings. The traversal of the
-- impact has one unit of fuel for each seed and two for each link, since a state is queued once
-- for a seed and once for an end of a link. A search of the workflow validation has one unit of
-- fuel for its start and one for each transition, since a state is queued once and only as a
-- target of a transition.
--
-- Not modelled: the controllers, the user interface, the SQL texts and the timers, which hold no
-- decisions; the provider adapters and the sandbox provider, which translate to the formats of
-- third parties; the state mapping, the correlation of items, the native queries, the jobs of
-- the backfill runner, the connector service with its twin projection, and the registers of work
-- items, services, teams and notifications, which have no module here.
pub mod Aging
pub mod Audit
pub mod Backfill
pub mod Events
pub mod Flow
pub mod Governor
pub mod Impact
pub mod Intake
pub mod Limiter
pub mod Mapping
pub mod Prelude
pub mod Relay
pub mod Sla
pub mod SyncGuard
pub mod Workflow
