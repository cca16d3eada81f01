-- ===== src/PexecSingle.antt =====
-- src/pexec/pexec_single.h: `pexec<BUFFER_SIZE>`, one child process. The state is `Pexec`; a method
-- returns the new state. The definitions stand in the children, in the order of the source.
pub mod State
pub mod Pipes
pub mod Reading
pub mod Signals
pub mod Loop
pub mod Exec
pub mod Closing
pub mod Ready
pub mod Quiet
pub mod Handling
pub mod Watching
pub mod NoLeak
pub mod Child
pub mod Nonblocking
pub mod Failure
pub mod HandlerLeft
pub mod Retry
pub mod Rest
pub mod Sweeping
mod SweepExamples
pub mod Reports
pub mod Ending
pub mod Reaping
pub mod News
pub mod Prompt
pub mod Ends
pub mod Complete
mod CompleteExamples
pub mod Examples
