-- ===== src/Pool.antt =====
-- server/task_pool.py and server/task_prioritizer.py (src/petals/server): the queue of tasks
-- between the connection handlers and the runtime.
pub mod Queue
pub mod Conservation
pub mod Order
