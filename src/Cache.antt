-- ===== src/Cache.antt =====
-- server/memory_cache.py (src/petals/server/memory_cache.py): the attention cache that connection
-- handlers allocate from and the runtime reads.
-- `current_size` and `handle_counter` are 64-bit words. The tensor that `descr.make_zeros()`
-- returns is a value of a parameter type. Each of the steps below is atomic in the code, by a lock
-- or because it is one read of a shared value.
pub mod Size
pub mod Pipe
pub mod System
pub mod Safety
pub mod Tensors
pub mod View
