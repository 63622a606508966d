-- ===== src/Task.antt =====
-- internal/task: the scheduler's core package.
pub mod Errors
pub mod Domain
pub mod Transitions
pub mod Rows
pub mod Effect
pub mod Repo
pub mod Quotas
pub mod Keys
pub mod Llm
pub mod Idempotency
pub mod Executor
pub mod Lifecycle
pub mod Worker
pub mod FairOrder
pub mod Watcher
pub mod Recurrence
pub mod RecurringWatcher
pub mod NewJob
pub mod Service
pub mod Dto
pub mod Http
pub mod Queue
pub mod WorkerLoop
pub mod System
