-- ===== src/Prompt.antt =====
-- src/mprompt/mprompt.c: prompts, the chain of active prompts, yielding and resuming.
pub mod State
pub mod Ops
pub mod Chain
pub mod Link
pub mod Free
pub mod Drop
pub mod Switch
pub mod Yield
pub mod Resume
pub mod Return
pub mod Roundtrip
pub mod Tag
pub mod Multi
pub mod Unshared
pub mod Saved
pub mod Restore
pub mod Start
pub mod Oneshot
pub mod Backtrace
pub mod Dispatch
pub mod Machine
mod Tests
