-- ===== src/Governor.antt =====
-- modules/connectors/rate-governor.ts: admission control for provider calls. Policy is a connector's
-- policy and the merge of several; Row is the durable row of one target and the
-- transactions that admit a call and record a success, Failure the one that records a failure;
-- Execute composes them; Gate is the in-process gate. The other modules hold the theorems.
pub mod Policy
pub mod Row
pub mod Failure
pub mod Execute
pub mod Window
pub mod Shedding
pub mod Backoff
pub mod Gate
mod Tests
