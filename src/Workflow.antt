-- ===== src/Workflow.antt =====
-- src/lib/workflow/WorkflowEngine.ts, the class `WorkflowEngine`. Ids and texts are numbers. What a node
-- does when it runs is an argument, by the node and the number of its earlier starts: whether it
-- throws, and whether the execution is cancelled or paused meanwhile. Whether the text of a condition
-- is empty once its variables are put in is a parameter. Delays, outputs and logging are left out.
pub mod Definition
pub mod Engine
pub mod Order
pub mod Retries
pub mod Resume
pub mod Ends
mod Examples
