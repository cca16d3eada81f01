-- ===== src/Lib.antt =====
-- pexec spawns child processes and reports their output, their state and its own errors through
-- callbacks. This library models how it serves one process and many, and proves what makes that
-- correct.
--
-- The parts and the files (paths from the repository's root):
--   src/pexec/argument_parser.cpp      ArgumentParser: `str2arg` splits a command line, `arg2str`
--                                      prints one. A string is the list of its bytes.
--   src/pexec/error.h, error.cpp       Error: the codes and their names.
--   src/pexec/proc_status.h, .cpp      ProcStatus: the record of what is known of a child, and
--                                      `update_status`. The macros that take a wait status apart are
--                                      the parameter `WaitMacros` of ProcStatus/Wait, with the
--                                      documented laws `IsWait` as a hypothesis where one is needed.
--                                      ProcStatus/Print is its `operator<<`.
--   src/pexec/util.cpp                 Util: closing descriptors and `arg2argc`; Util/Apple: `pipe2`
--                                      as defined for macOS, and the flags of a descriptor.
--   src/pexec/event/select_event.*     SelectEvent: the loop over ::select. The hash table is a list
--                                      in the order of iteration, and the place that a new key takes
--                                      is a parameter; an iterator is the key that it points to. The
--                                      callbacks are named by a type of the client's and run by the
--                                      `call` of its record `Client`, which may change the loop.
--   src/pexec/pexec_single.h           PexecSingle: `pexec<BUFFER_SIZE>`. State has the members,
--                                      Pipes the pipes, Reading the reads, Signals the handling of
--                                      SIGCHLD, Loop `loop_io` with its four lambdas (the client of
--                                      SelectEvent), Exec `spawn_proc` and `exec`.
--   src/pexec/exec.cpp, pexec_status.* ExecHelper: the function `exec`, which gathers what the
--                                      callbacks of a blocking call are told.
--   src/pexec/queue_buffer.h           QueueBuffer: the queue between threads. The mutex makes each
--                                      operation one step, to which the model adds its `notify_one`;
--                                      the threads at the condition variable are counted. In
--                                      QueueBuffer/Unlocked `notify_one` is a step of its own, behind
--                                      the unlocking, and no thread waits in `add`;
--                                      QueueBuffer/History takes the whole operations back to it.
--                                      QueueBuffer/Threads also has the threads that wait for room,
--                                      which QueueBuffer/Below shows there are none of before `size`
--                                      elements have been added.
--   src/pexec/signal/sigchld_handler.* SigchldHandler: the handler that reaps every child, with its
--                                      globals. The state of its owner is a type, and the record
--                                      `Owner` says what the two callbacks do to it.
--   src/pexec/pexec_multi.*            PexecMulti: Handle is `pexec_multi_handle`, State has the
--                                      members, the tables and `send_job`, Jobs the jobs, `cleanup`
--                                      and `dispatch_job`, Serve `run` with its lambdas and the
--                                      object's life. It is the owner of a SigchldHandler and, by
--                                      default, the client of a SelectEvent loop, and its handles run
--                                      the non-blocking `pexec` of PexecSingle. A handle is known by
--                                      a number, so that the tables share it as the source does.
--   example/*.cpp                      Programs: single.cpp, multi.cpp, multi_detail.cpp and the block
--                                      of multi_test.cpp as sequences of the library's calls, with
--                                      the texts that they print. Programs/Libevent is
--                                      multi_libevent2.cpp; libevent is a parameter, and its loop any
--                                      sequence of ready descriptors.
--
-- System holds the operating system, which is not in the repository: a record `Os` of functions from
-- the log of all earlier calls to an answer. A theorem for every `Os` holds for every behaviour of
-- the system, failures included. The log also holds each call of a user's callback, so what the user
-- hears, and in which order, is part of the state. System/Ledger counts in a log how often a
-- descriptor was opened and closed. Run is the result of code that may loop or assert: a value, a
-- failed assertion, or fuel that ran out.
--
-- Loops of the source that have no bound take fuel: the retries after EINTR, the reads of the
-- signal, the rounds of the event loop. With an operating system that answers EINTR for ever, or
-- a child that never ends, the source does not return either. A read returns within one attempt more
-- than the system interrupts in a row; a call of a non-blocking process runs no loop, so it takes no
-- fuel at all; a pass over the table returns with fuel for its elements. A whole blocking call returns
-- when the system keeps the promises `Cooperates` of PexecSingle/Ending and the fuel covers their
-- bounds: SelectEvent/Ends and Rounds hold the rule for the loop, PexecSingle/Ending, Reaping, News
-- and Prompt apply it to the callbacks, Ends and Complete to `loop_io` and `exec`. PexecMulti/WholeRun
-- runs a session of `pexec_multi` on the default loop to its end.
--
-- Invariants across a loop follow rules as well: SelectEvent/Rule is the rule for any property of the
-- control pipe and the table, PexecMulti/Rule and RuleActs the one for a relation between the tables
-- of object and event loop; PexecMulti/InStep applies both. PexecMulti/Steady follows the flag of a
-- stop through every action. SelectEvent/Sweep compares a pass with a plain recursion for callbacks
-- that leave the loop alone, as PexecSingle/Sweeping shows of `loop_io`; SigchldHandler/Drain is about
-- any owner whose callbacks reap no child, as PexecMulti/Reaps shows of `pexec_multi`.
--
-- Conventions: -1 in a descriptor or pid is `none`; a callback of the user's does not change `errno`
-- and does not call back into the object; the pipe ends and flags that a child inherits are the
-- system's. A callback that is not set is taken for one that does nothing: its event is in the log
-- either way.
--
-- Not modelled: multi_thread.cpp and `test_fd` of multi_test.cpp, when a shared handle is freed, and
-- the descriptors' reuse by the system beyond what an `Os` may answer; a rehash of the loop's table,
-- which can come when a callback adds a descriptor and invalidates the loop's iterator; descriptors
-- of FD_SETSIZE and more; a command line of 2^31 parts and more, which `str2arg` counts in an `int`. An `add` of `pexec_multi` to a
-- full queue, of 2^64 - 1 jobs, is taken for a run out of fuel.
pub mod Base
pub mod ArgumentParser
pub mod Error
pub mod ExecHelper
pub mod ProcStatus
pub mod SigchldHandler
pub mod System
pub mod Util
pub mod QueueBuffer
pub mod Programs
pub mod Run
pub mod SelectEvent
pub mod PexecMulti
pub mod PexecSingle
