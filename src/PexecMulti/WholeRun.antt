-- ===== src/PexecMulti/WholeRun.antt =====
-- A whole `run` with the default loop: a job and a stop are sent, and then one child exits.
use pexec.Base.{
  ℕ, suc, ◌+◌, ◌*◌, Bytes, Bool, true, false, ◌&&◌, Option, none, some, List, [], ◌∷◌, ◌==◌, codes,
  length, ltb, is_empty, ◌≡◌, refl, if◌then◌else◌,
}
use pexec.PexecMulti.Handle.{new_handle}
use pexec.PexecMulti.Jobs.{exec, stop_all}
use pexec.PexecMulti.Serve.{construct, run, destruct}
use pexec.PexecMulti.State.{Multi, Table, default, stop_wait}
use pexec.PexecSingle.Loop.{Setting}
use pexec.ProcStatus.Wait.{linux}
use pexec.Run.{Run, done, ◌>>=◌}
use pexec.System.{
  Event, Log, Os, ReadResult, got, read_failed, eagain, reaped, not_ready, ready, opened, closed,
  was_read, wrote, forked, waited, stop_told,
}

abbrev pub count : (Event → Bool) → Log → ℕ
count p [] = 0
count p (e ∷ log) = if p e then suc (count p log) else count p log

abbrev same_fd : ℕ → Option ℕ → Bool
same_fd n none = false
same_fd n (some fd) = fd == n

abbrev reads : ℕ → Event → Bool
reads n (was_read fd r) = same_fd n fd
reads n _ = false

abbrev writes : ℕ → Event → Bool
writes n (wrote fd bytes) = same_fd n fd
writes n _ = false

abbrev forks : Event → Bool
forks (forked r) = true
forks _ = false

abbrev reap : Event → Bool
reap (waited (reaped pid status)) = true
reap _ = false

abbrev tells : Event → Bool
tells (stop_told id) = true
tells _ = false

abbrev pub pipes : Event → Bool
pipes (opened r w) = true
pipes _ = false

abbrev pub closes : Event → Bool
closes (closed fd) = true
closes _ = false

abbrev sigchld_bytes : Bytes
sigchld_bytes = 17 ∷ 0 ∷ 0 ∷ 0 ∷ []

-- The object's pipe is (3, 4), the loop's (9, 10), the handler's (11, 12).
abbrev is_ready : Log → ℕ → Bool
is_ready log fd =
    if fd == 3
    then ltb (count (reads 3) log) (count (writes 4) log)
    else if fd == 9
    then ltb (count (reads 9) log) (count (writes 10) log)
    else if fd == 11
    then ltb (count (reads 11) log) (count forks log)
    else false

abbrev answer : Option ℕ → ReadResult
answer fd =
    if same_fd 3 fd
    then got (0 ∷ [])
    else if same_fd 9 fd
    then got (0 ∷ [])
    else if same_fd 11 fd
    then got sigchld_bytes
    else read_failed eagain

abbrev pub machine : Os
machine = record {
  pipe2 = λ log. some (3 + 2 * length log, 4 + 2 * length log);
  read = λ log fd size. answer fd;
  get_flags = λ log fd. 2;
  set_flags = λ log fd flags. true;
  sigaction = λ log. true;
  sigprocmask = λ log. true;
  fork = λ log. some 77;
  waitpid = λ log pid. if count reap log == 0 then reaped 77 0 else not_ready;
  select = λ log. ready (is_ready log);
  errno = λ log. 0;
}

abbrev pub setting : Setting
setting = record {
  os = machine;
  macros = linux;
  buffer_size = 1024;
  sigchld = sigchld_bytes;
  slot = λ cbs fd. length cbs;
  fuel = 12;
}

abbrev pub place : Table → ℕ → ℕ
place t fd = length t

abbrev session : Run Multi
session = do
  m ← construct setting default []
  m1 ← exec (new_handle (codes "ls") false false false true) m
  m2 ← stop_all stop_wait none m1
  m3 ← run setting place m2
  done (destruct setting place m3)

-- Whether it returned: the end told once, no process and no job left, nothing watched, and as many
-- descriptors closed as opened.
abbrev is_over : Run Multi → Bool
is_over (done m) =
    count tells m.log == 1
    && is_empty m.active_procs
    && is_empty m.buffer.buffer
    && is_empty m.registered
    && 2 * count pipes m.log == count closes m.log
is_over _ = false

session_over : is_over session ≡ true
unfolding pexec.PexecMulti.Handle.pid pexec.PexecMulti.Handle.hear_new
    pexec.PexecMulti.Handle.has_end pexec.PexecMulti.State.put pexec.PexecMulti.State.remove
    pexec.PexecMulti.State.send_job pexec.PexecMulti.State.remove_read_event
    pexec.PexecMulti.Jobs.dispatch_job pexec.PexecMulti.Jobs.exec pexec.PexecMulti.Jobs.stop_all
    pexec.PexecMulti.Serve.construct pexec.PexecMulti.Serve.run pexec.PexecMulti.Serve.destruct
    pexec.SigchldHandler.get_read_fd pexec.SigchldHandler.create pexec.SigchldHandler.destroy
    pexec.SigchldHandler.handle_sigchld pexec.SigchldHandler.read_signal
    pexec.SelectEvent.add_read_event pexec.SelectEvent.interrupt_event pexec.SelectEvent.advance
    pexec.SelectEvent.create pexec.SelectEvent.dispatch pexec.SelectEvent.loop
    pexec.SelectEvent.destroy pexec.QueueBuffer.add pexec.QueueBuffer.remove
    pexec.PexecSingle.State.call_state pexec.PexecSingle.Pipes.close_fork_pipes
    pexec.PexecSingle.Pipes.make_pipe pexec.PexecSingle.Pipes.prepare_fork_pipes
    pexec.PexecSingle.Pipes.prepare_args pexec.PexecSingle.Reading.stopped
    pexec.PexecSingle.Signals.handle_proc_return_code pexec.PexecSingle.Signals.handle_sigchld
    pexec.PexecSingle.Exec.get_fds pexec.PexecSingle.Exec.spawn_proc pexec.PexecSingle.Exec.prepare
    pexec.PexecSingle.Exec.announce pexec.PexecSingle.Exec.exec pexec.Util.close_pipe
    pexec.Util.arg2argc pexec.ProcStatus.update_status pexec.ArgumentParser.str2arg
    pexec.SelectEvent.remove_read_event pexec.Base.same_bytes
session_over = refl
