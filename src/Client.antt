-- ===== src/Client.antt =====
-- client/inference_session.py (src/petals): sessions of inference steps over several servers, whose
-- attention caches are built anew on other servers when one fails.
pub mod Stream
pub mod Session
pub mod Retry
pub mod Middle
pub mod Causal
pub mod Track
pub mod Attempt
pub mod Call
pub mod Use
pub mod Renewal
pub mod Renewed
pub mod Keeps
pub mod Progress
pub mod Replay
pub mod Steps
