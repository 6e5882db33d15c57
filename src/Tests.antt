-- ===== src/Tests.antt =====
-- Runs of the models on small inputs, and the theorems at concrete inputs.
mod CacheTests
mod RoutingTests
mod PoolTests
mod HandlerTests
mod AutogradTests
mod DiskTests
mod SelectionTests
mod ServerTests
mod DhtTests
mod ClientTests
mod RemoteTests
mod GenerationTests
mod ThroughputTests
