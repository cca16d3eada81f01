-- ===== src/Programs/Examples.antt =====
-- Runs of the programs, and instances of the theorems on them.
use pexec.Base.{
  ℕ, ◌*◌, Bytes, Bool, true, false, ◌&&◌, Option, none, some, List, [], ◌∷◌, ◌==◌, codes, is_empty,
  length, same_bytes, arith, ◌≡◌, refl, if◌then◌else◌,
}
use pexec.PexecMulti.Serve.{new_multi}
use pexec.PexecMulti.State.{
  Multi, Table, external, Action, control_action, get, add_read_event, remove_read_event,
}
use pexec.PexecMulti.WholeRun.{count, pipes, closes, setting, place}
use pexec.PexecSingle.Examples as Single
use pexec.Programs.{single, multi_detail}
use pexec.Programs.Entries.{Follows, followed-Follows}
use pexec.Programs.Libevent.{Libevent, Program, followed}
use pexec.Run.{Run, done}
use pexec.System.Ledger.{finals}

-- Whether the program came to its end: one end of a process, nothing left, and every descriptor
-- closed.
abbrev is_over : Run Multi → Bool
is_over (done m) =
    finals m.log == 1
    && is_empty m.active_procs
    && is_empty m.buffer.buffer
    && is_empty m.registered
    && 2 * count pipes m.log == count closes m.log
is_over _ = false

detail_over : is_over (multi_detail setting place []) ≡ true
unfolding pexec.PexecMulti.Handle.pid pexec.PexecMulti.Handle.hear_new
    pexec.PexecMulti.Handle.has_end pexec.PexecMulti.State.put pexec.PexecMulti.State.remove
    pexec.PexecMulti.State.send_job pexec.PexecMulti.State.remove_read_event
    pexec.PexecMulti.Jobs.dispatch_job pexec.PexecMulti.Jobs.exec pexec.PexecMulti.Jobs.stop_all
    pexec.PexecMulti.Serve.construct pexec.PexecMulti.Serve.run pexec.PexecMulti.Serve.destruct
    pexec.SigchldHandler.get_read_fd pexec.SigchldHandler.create pexec.SigchldHandler.destroy
    pexec.SigchldHandler.handle_sigchld pexec.SigchldHandler.read_signal
    pexec.SelectEvent.add_read_event pexec.SelectEvent.interrupt_event pexec.SelectEvent.advance
    pexec.SelectEvent.create pexec.SelectEvent.dispatch pexec.SelectEvent.loop
    pexec.SelectEvent.destroy pexec.QueueBuffer.add pexec.QueueBuffer.remove
    pexec.PexecSingle.State.call_state pexec.PexecSingle.Pipes.close_fork_pipes
    pexec.PexecSingle.Pipes.make_pipe pexec.PexecSingle.Pipes.prepare_fork_pipes
    pexec.PexecSingle.Pipes.prepare_args pexec.PexecSingle.Reading.stopped
    pexec.PexecSingle.Signals.handle_proc_return_code pexec.PexecSingle.Signals.handle_sigchld
    pexec.PexecSingle.Exec.get_fds pexec.PexecSingle.Exec.spawn_proc pexec.PexecSingle.Exec.prepare
    pexec.PexecSingle.Exec.announce pexec.PexecSingle.Exec.exec pexec.Util.close_pipe
    pexec.Util.arg2argc pexec.ProcStatus.update_status pexec.ArgumentParser.str2arg
    pexec.SelectEvent.remove_read_event pexec.Base.same_bytes multi_detail
    pexec.PexecMulti.Jobs.exec_proc
detail_over = refl

abbrev prints : Bytes → Run Bytes → Bool
prints text (done out) = same_bytes text out
prints text _ = false

-- The child writes "hi".
hi_is_shown :
    prints
      (codes "stdout(size=#): \nhi\nstderr(size=#): \n\n")
      (single (λ n. codes "#") (λ n. codes "#") (λ n. codes "#") Single.setting)
    ≡ true
unfolding pexec.SelectEvent.add_read_event pexec.SelectEvent.interrupt_event
    pexec.SelectEvent.advance pexec.SelectEvent.create pexec.SelectEvent.dispatch
    pexec.SelectEvent.loop pexec.SelectEvent.destroy pexec.PexecSingle.State.call_state
    pexec.PexecSingle.Pipes.close_fork_pipes pexec.PexecSingle.Pipes.make_pipe
    pexec.PexecSingle.Pipes.prepare_fork_pipes pexec.PexecSingle.Pipes.prepare_args
    pexec.PexecSingle.Reading.stopped pexec.PexecSingle.Signals.handle_proc_return_code
    pexec.PexecSingle.Signals.handle_sigchld pexec.PexecSingle.Exec.get_fds
    pexec.PexecSingle.Exec.spawn_proc pexec.PexecSingle.Exec.prepare pexec.PexecSingle.Exec.announce
    pexec.PexecSingle.Exec.exec pexec.Util.close_pipe pexec.Util.arg2argc
    pexec.ProcStatus.update_status pexec.ArgumentParser.str2arg pexec.SelectEvent.remove_read_event
    pexec.Base.same_bytes single pexec.ExecHelper.exec pexec.ExecHelper.valid
    pexec.PexecSingle.Signals.set_sigchld_signal_handler pexec.PexecSingle.Signals.block_sigchld
    pexec.PexecSingle.Signals.unblock_sigchld pexec.PexecSingle.Signals.reset_sigchld_signal_handler
    pexec.PexecSingle.Loop.loop_io pexec.PexecSingle.Reading.read_stdout
    pexec.PexecSingle.Reading.read_std
hi_is_shown = refl

-- Entries are the descriptors, the base the list of those added.
abbrev listing : Libevent (List ℕ) ℕ
listing = record {
  blank = 0;
  assign = λ fd e. length (codes "#");
  add = λ e b. e ∷ b;
  del = λ e b. [];
}

abbrev watching : Program (List ℕ) ℕ
watching = record {
  procs = record (new_multi 3 4 external []) {
    registers = true;
    registered = (4, control_action) ∷ [];
  };
  events = (4, 1) ∷ [];
  evbase = [];
}

watching-Follows : Follows watching
unfolding get
watching-Follows = record {
  is_map = (refl, tt);
  table_is_map = (refl, tt);
  same_keys = λ k. ground arith;
}

followed-Follows_example :
    ((m : Multi) × (add_read_event place (some 7) control_action watching.procs ≡ done m)
      × Follows (followed listing m watching))
    × ((m : Multi) × (remove_read_event (some 7) watching.procs ≡ done m)
        × Follows (followed listing m watching))
followed-Follows_example =
    followed-Follows listing place (some 7) control_action watching (refl, refl) watching-Follows
