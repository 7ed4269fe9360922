-- ===== src/Agent.antt =====
-- server/agent: the agent that answers the requests of its clients.
pub mod Text
pub mod Values
pub mod Paths
pub mod Action
pub mod Frame
pub mod Disk
pub mod Planner
pub mod Loops
pub mod Tools
pub mod Reading
pub mod Writing
pub mod Executor
pub mod Response
pub mod Handlers
pub mod Dispatcher
pub mod Server
pub mod Confined
pub mod Guarantees
pub mod Toy
mod Tests
mod TaskTests
