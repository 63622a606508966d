-- ===== src/Task/Llm.antt =====
-- internal/task/llm.go and LLMExecutor of internal/task/executor.go.
pub mod Json
pub mod Validate
pub mod Accepts
pub mod Execute
mod Calls
pub mod Budget
pub mod Leaves
