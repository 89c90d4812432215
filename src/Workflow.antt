-- ===== src/Workflow.antt =====
-- internal/workflow: the data model, the task state machine and the validation of a DAG.
pub mod State
pub mod Model
pub mod Dag
