-- ===== src/Handler.antt =====
-- server/handler.py (src/petals/server/handler.py): the requests that a server answers.
pub mod Errors
pub mod Uids
pub mod Gather
pub mod Forward
pub mod Rounds
pub mod Backward
pub mod Serialize
pub mod Rpc
pub mod Session
pub mod SessionBounds
