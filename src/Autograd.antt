-- ===== src/Autograd.antt =====
-- client/sequential_autograd.py (src/petals/client): the forward and the backward pass over a route,
-- with retries.
pub mod Forward
pub mod Chain
pub mod Recovery
pub mod Backward
pub mod Stacks
pub mod Prompts
pub mod Patience
pub mod Backprop
