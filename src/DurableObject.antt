-- ===== src/DurableObject.antt =====
-- durable-object/src: the Worker and its Durable Object.
pub mod Perf
pub mod State
pub mod R2Store
pub mod DoCache
pub mod DbCache
pub mod Names
pub mod Benchmark
pub mod Web
pub mod Server
pub mod Routing
pub mod Handle
pub mod Tests
