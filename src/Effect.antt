-- ===== src/Effect.antt =====
-- src/mpeff/mpeff.c: effect handlers, on a shadow stack of frames.
pub mod State
pub mod Find
pub mod Search
pub mod Perform
pub mod Resume
pub mod Nesting
pub mod Capture
pub mod Tail
pub mod Masked
mod Tests
pub mod Ownership
pub mod Values
pub mod Cpp
pub mod Tags
pub mod Abort
