-- ===== src/PexecMulti/Watch.antt =====
-- A process from the moment that it is watched to its end: what is left in the tables.
use pexec.Base.{
  ℕ, true, false, ◌&&◌, none, some, ◌∷◌, is_empty, ◌≡◌, ◌≢◌, refl, ◌∙◌, ap, if◌then◌else◌,
}
use pexec.PexecMulti.Tables.{
  remove-put, remove-put_other, fd_key-differs, IsExternal, add-external, remove-external,
}
use pexec.PexecMulti.Fresh.{handle-set}
use pexec.PexecMulti.Jobs.{proc_stopped, watch_process}
use pexec.PexecMulti.State.{
  Multi, Table, external, close_action, stdout_action, stderr_action, fd_key, get, put, remove,
  set_handle, add_read_event, remove_read_event, send_job,
}
use pexec.PexecSingle.Exec.{PexecFds}
use pexec.PexecSingle.Loop.{Setting}
use pexec.Run.{Run, done, ◌>>=◌}
use pexec.System.{fd_added, fd_removed}

module _ (c : Setting) (place : Table → ℕ → ℕ) where
  -- `m`, with the functions of the process `id` behind the others.
  watched : ℕ → ℕ → Multi → Multi
  watched pid id m =
      let h = m.handles id in
      let m1 : Multi = record m {
        active_procs = put pid id m.active_procs;
        registered = put (fd_key h.fds.stderr_read_fd) (stderr_action id) (
            put (fd_key h.fds.stdout_read_fd) (stdout_action id)
              (put (fd_key h.fds.watch_close_write_fd) (close_action id) m.registered));
        log =
            fd_added h.fds.stderr_read_fd
            ∷ fd_added h.fds.stdout_read_fd
            ∷ fd_added h.fds.watch_close_write_fd
            ∷ m.log;
      } in
      set_handle id (record h { stopped_pid = some pid }) m1

  watch_process-watched :
      (pid id : ℕ) (m : Multi)
      → IsExternal m
      → watch_process c place pid id m ≡ done (watched pid id m)
  unfolding watch_process watched
  watch_process-watched pid id m e =
      let h = m.handles id in
      let m1 : Multi = record m { active_procs = put pid id m.active_procs } in
      let m2 = set_handle id (record h { stopped_pid = some pid }) m1 in
      let m3 : Multi = record m2 {
        registered = put (fd_key h.fds.watch_close_write_fd) (close_action id) m.registered;
        log = fd_added h.fds.watch_close_write_fd ∷ m.log;
      } in
      let m4 : Multi = record m3 {
        registered = put (fd_key h.fds.stdout_read_fd) (stdout_action id) m3.registered;
        log = fd_added h.fds.stdout_read_fd ∷ m3.log;
      } in
      let err : Multi → Run Multi =
        λ m. add_read_event place h.fds.stderr_read_fd (stderr_action id) m in
      let out : Multi → Run Multi =
        λ m. (do m1 ← add_read_event place h.fds.stdout_read_fd (stdout_action id) m; err m1) in
      ap (λ r. r >>= out) (add-external place h.fds.watch_close_write_fd (close_action id) m2 e)
      ∙ ap (λ r. r >>= err) (add-external place h.fds.stdout_read_fd (stdout_action id) m3 e)
      ∙ add-external place h.fds.stderr_read_fd (stderr_action id) m4 e

  -- `m`, without the process `pid` and its functions.
  ended : ℕ → PexecFds → Multi → Multi
  ended pid fds m = record m {
    active_procs = remove pid m.active_procs;
    registered = remove (fd_key fds.stderr_read_fd) (
        remove (fd_key fds.stdout_read_fd) (remove (fd_key fds.watch_close_write_fd) m.registered));
    log =
        fd_removed fds.stderr_read_fd
        ∷ fd_removed fds.stdout_read_fd
        ∷ fd_removed fds.watch_close_write_fd
        ∷ m.log;
  }

  proc_stopped-ended :
      (pid id : ℕ) (fds : PexecFds) (m : Multi)
      → IsExternal m
      → m.stopping ≡ false
      → (m.handles id).fds ≡ fds
      → proc_stopped pid id m ≡ done (ended pid fds m)
  unfolding proc_stopped ended
  proc_stopped-ended pid id fds m e s f =
      let m1 : Multi = record m {
        registered = remove (fd_key fds.watch_close_write_fd) m.registered;
        log = fd_removed fds.watch_close_write_fd ∷ m.log;
      } in
      let m2 : Multi = record m1 {
        registered = remove (fd_key fds.stdout_read_fd) m1.registered;
        log = fd_removed fds.stdout_read_fd ∷ m1.log;
      } in
      let last : Multi → Run Multi = λ m3.
        let m4 : Multi = record m3 { active_procs = remove pid m3.active_procs } in
        let stopped = send_job none m4 in
        if m4.stopping && is_empty m4.active_procs then stopped else done m4 in
      let err : Multi → Run Multi =
        λ m. (do m3 ← remove_read_event fds.stderr_read_fd m; last m3) in
      let out : Multi → Run Multi = λ m. (do m2 ← remove_read_event fds.stdout_read_fd m; err m2) in
      let all : PexecFds → Run Multi = λ fds. (do
        m1 ← remove_read_event fds.watch_close_write_fd m
        m2 ← remove_read_event fds.stdout_read_fd m1
        m3 ← remove_read_event fds.stderr_read_fd m2
        last m3) in
      let m4 = ended pid fds m in
      ap all f
      ∙ ap (λ r. r >>= out) (remove-external fds.watch_close_write_fd m e)
      ∙ ap (λ r. r >>= err) (remove-external fds.stdout_read_fd m1 e)
      ∙ ap (λ r. r >>= last) (remove-external fds.stderr_read_fd m2 e)
      ∙ ap (λ b. if b && is_empty m4.active_procs then send_job none m4 else done m4) s

  -- With a loop of the user's, when the object is not stopping: a process whose pid and three
  -- descriptors are new to the tables is watched, and then it ends. The user is told of the three
  -- descriptors and, in the same order, that they are gone, and both tables are as they were.
  pub watch-proc_stopped :
      (pid id : ℕ) (m : Multi)
      → (m.kind ≡ external) × (m.registers ≡ true)
      → m.stopping ≡ false
      → get pid m.active_procs ≡ none
      → get (fd_key (m.handles id).fds.watch_close_write_fd) m.registered ≡ none
      → get (fd_key (m.handles id).fds.stdout_read_fd) m.registered ≡ none
      → get (fd_key (m.handles id).fds.stderr_read_fd) m.registered ≡ none
      → (m.handles id).fds.watch_close_write_fd ≢ (m.handles id).fds.stdout_read_fd
      → (m.handles id).fds.watch_close_write_fd ≢ (m.handles id).fds.stderr_read_fd
      → (m.handles id).fds.stdout_read_fd ≢ (m.handles id).fds.stderr_read_fd
      → let fds = (m.handles id).fds in
        (m1 : Multi) × ((watch_process c place pid id m >>= proc_stopped pid id) ≡ done m1)
        × (m1.active_procs ≡ m.active_procs)
        × (m1.registered ≡ m.registered)
        × (m1.log
            ≡ fd_removed fds.stderr_read_fd
              ∷ fd_removed fds.stdout_read_fd
              ∷ fd_removed fds.watch_close_write_fd
              ∷ fd_added fds.stderr_read_fd
              ∷ fd_added fds.stdout_read_fd
              ∷ fd_added fds.watch_close_write_fd
              ∷ m.log)
  unfolding watched ended
  watch-proc_stopped pid id m e s p gc go ge co ce oe =
      let h = m.handles id in
      let fds = h.fds in
      let kc = fd_key fds.watch_close_write_fd in
      let ko = fd_key fds.stdout_read_fd in
      let ke = fd_key fds.stderr_read_fd in
      let m1 = watched pid id m in
      let f : (m1.handles id).fds ≡ fds =
        ap (λ h. h.fds) (handle-set id (record h { stopped_pid = some pid }) m) in
      let t1 = put kc (close_action id) m.registered in
      let t2 = put ko (stdout_action id) m.registered in
      let co2 = fd_key-differs fds.watch_close_write_fd fds.stdout_read_fd co in
      let ce2 = fd_key-differs fds.watch_close_write_fd fds.stderr_read_fd ce in
      let oe2 = fd_key-differs fds.stdout_read_fd fds.stderr_read_fd oe in
      (
        ended pid fds m1,
        ap (λ r. r >>= proc_stopped pid id) (watch_process-watched pid id m e)
            ∙ proc_stopped-ended pid id fds m1 e s f,
        remove-put pid id m.active_procs p,
        ap (λ t. remove ke (remove ko t))
              (remove-put_other kc ke (stderr_action id) (put ko (stdout_action id) t1) ce2
                ∙ ap (put ke (stderr_action id)) (
                    remove-put_other kc ko (stdout_action id) t1 co2
                    ∙ ap (put ko (stdout_action id))
                        (remove-put kc (close_action id) m.registered gc)))
            ∙ ap (remove ke) (
                remove-put_other ko ke (stderr_action id) t2 oe2
                ∙ ap (put ke (stderr_action id)) (remove-put ko (stdout_action id) m.registered go))
            ∙ remove-put ke (stderr_action id) m.registered ge,
        refl,
      )
