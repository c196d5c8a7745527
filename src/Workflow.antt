-- ===== src/Workflow.antt =====
-- modules/workflow/workflow.service.ts: workflow definitions and the transitions of work items.
-- Definition is a definition and its validation, Guard the role guard of a rule, Transition the
-- checks of a transition, Commit the atomic change with its SLA clock. The other modules
-- hold the theorems.
pub mod Definition
pub mod Guard
pub mod Transition
pub mod Commit
pub mod Search
pub mod Valid
pub mod Commits
pub mod Allowed
mod Tests
