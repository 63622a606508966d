-- ===== src/Tests.antt =====
-- Concrete worlds, runs of the model on them, and the theorems at concrete inputs.
pub mod Sample
mod WorkerTests
mod LifecycleTests
mod WatcherTests
mod FairOrderTests
mod ExecutorTests
mod ServiceTests
mod LlmTests
mod RecurrenceTests
mod ConfigTests
mod CreateTests
mod HttpTests
mod UsersTests
mod McpTests
mod SystemTests
mod WorkerLoopTests
