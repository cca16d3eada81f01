-- ===== src/PexecMulti.antt =====
-- src/pexec/pexec_multi.h and pexec_multi.cpp: many processes under one event loop.
pub mod Handle
pub mod State
pub mod Jobs
pub mod Serve
pub mod Tables
pub mod Same
pub mod Rule
pub mod RuleActs
pub mod InStep
mod StepExamples
pub mod Live
pub mod Dispatch
pub mod Steady
pub mod Acting
pub mod Stop
pub mod Kill
pub mod UserStop
pub mod Result
pub mod Fresh
pub mod Phase
mod Examples
pub mod Again
pub mod External
pub mod Watch
pub mod WholeRun
pub mod NoArgument
pub mod Reaps
mod ReapExamples
