-- ===== src/Routing.antt =====
-- client/routing (src/petals/client/routing): which servers hold which blocks, and the routes
-- through them.
pub mod Spans
pub mod Info
pub mod Manager
pub mod Active
pub mod Blocks
pub mod Scan
pub mod Index
pub mod Coverage
pub mod Route
pub mod Failure
pub mod Gate
