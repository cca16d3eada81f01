-- ===== src/PexecMulti/NoArgument.antt =====
-- A job without a command: what its spawn does to the whole program.
use pexec.Base.{
  ℕ, ◌-◌, Bytes, Bool, true, false, Option, none, some, List, [], ◌∷◌, length, ltb, ◌≡◌, refl, ◌∙◌,
  sym, subst, ap, arith, if◌then◌else◌,
}
use pexec.ArgumentParser.{str2arg}
use pexec.Error.{Perror, arg_parse_error}
use pexec.PexecMulti.Fresh.{handle-set, hear_new-stopped_pid}
use pexec.PexecMulti.Handle.{
  PexecHandle, new_handle, pid, hear, hear_new, has_end, is_stop, with_output,
}
use pexec.PexecMulti.Jobs.{
  call_stopped, told_stopped, heard, with_process, exec_handle, watch_process, spawn_job,
  job_spawn_proc, do_job, dispatch_job,
}
use pexec.PexecMulti.State.{Multi, Table, Job, spawn, emit, set_handle}
use pexec.PexecMulti.Stop.{taken, dispatch-front}
use pexec.PexecSingle.Exec as Single
use pexec.PexecSingle.Exec.{get_fds}
use pexec.PexecSingle.Loop.{Setting}
use pexec.PexecSingle.Nonblocking.{exec_no_argument}
use pexec.PexecSingle.State.{Pexec, nonblocking}
use pexec.ProcStatus as Proc
use pexec.Run.{Run, done, fault, ◌>>=◌, assert_then}
use pexec.SelectEvent.{EventReturn, nothing}
use pexec.System.{Log, on_error, on_state, stop_told}

-- What is told of an end whose process is not watched yet.
told_log : Bool → ℕ → Log → Log
told_log b id log = if b then stop_told id ∷ log else log

-- The run returns with the handles of `m` and the log.
abbrev Tells : Log → Multi → Run Multi → Type 0
Tells log m r = (m1 : Multi) × (r ≡ done m1) × (m1.handles ≡ m.handles) × (m1.log ≡ log)

-- Callbacks leave the handles as they are.
told_stopped-done :
    (id : ℕ) (m : Multi)
    → (m.handles id).stopped_pid ≡ none
    → Tells (told_log (m.handles id).has_on_stop id m.log) m (told_stopped id m)
unfolding told_stopped call_stopped told_log
told_stopped-done id m e =
    let b = (m.handles id).has_on_stop in
    let m1 = if b then emit (stop_told id) m else m in
    let (s, l) = same b in (m1, ap (λ o. call_stopped o id m1) e, s, l)
  where
    same :
        (b : Bool)
        → ((if b then emit (stop_told id) m else m).handles ≡ m.handles)
          × ((if b then emit (stop_told id) m else m).log
              ≡ (if b then stop_told id ∷ m.log else m.log))
    same true = (refl, refl)
    same false = (refl, refl)

when :
    (b : Bool) (r s : Run Multi) (m : Multi) (log : Log)
    → b ≡ true
    → Tells log m r
    → Tells log m (if b then r else s)
when true r s m log e h = h
when false r s m log e h = cc

failed-has_end :
    (log : Log)
    → has_end 2 (on_state Proc.State.fail_stopped Proc.new ∷ on_error arg_parse_error ∷ log) ≡ true
unfolding has_end is_stop
failed-has_end log = refl

module _ (c : Setting) where
  open c use {os}

  -- The handle that has heard the process `p`.
  heard_handle : ℕ → Pexec → Multi → PexecHandle
  heard_handle id p m =
      hear_new os.errno (length p.log - length m.log) p.log (record (m.handles id) { proc = p })

  heard-done :
      (id : ℕ) (p : Pexec) (m : Multi)
      → (m.handles id).stopped_pid ≡ none
      → has_end (length p.log - length m.log) p.log ≡ true
      → (m1 : Multi) × (heard c id p m ≡ done m1)
        × (m1.handles id ≡ heard_handle id p m)
        × (m1.log ≡ told_log (heard_handle id p m).has_on_stop id p.log)
  unfolding heard heard_handle
  heard-done id p m e f =
      let h = heard_handle id p m in
      let m0 : Multi = record m { log = p.log } in
      let m1 = set_handle id h m0 in
      let g : (m1.handles id).stopped_pid ≡ none =
        ap (λ h. h.stopped_pid) (handle-set id h m0)
        ∙ hear_new-stopped_pid os.errno (length p.log - length m.log) p.log
            (record (m.handles id) { proc = p })
        ∙ e in
      let (m2, r, s, l) =
        when _ (told_stopped id m1) (done m1) m1 _ f (told_stopped-done id m1 g) in
      (
        m2,
        r,
        ap (λ hs. hs id) s ∙ handle-set id h m0,
        l ∙ ap (λ h. told_log h.has_on_stop id p.log) (handle-set id h m0),
      )

  -- The two events that such a call is known by.
  abbrev failed : Log → Log
  failed log = on_state Proc.State.fail_stopped Proc.new ∷ on_error arg_parse_error ∷ log

  -- The errors of a status, if the user has not set a callback that takes them.
  abbrev errors : Bool → Log → List Perror
  errors has_error_cb log =
      if has_error_cb
      then []
      else record { pexec_error = arg_parse_error; error_code = os.errno log } ∷ []

  -- The handle `h0` behind these two: its pid, its status, and whether the user is told of an end.
  record HasFailed (has_error_cb has_on_stop : Bool) (log : Log) (h : PexecHandle) : Type 0 where
    no_pid : pid h ≡ 0
    failed_state : h.ret.state ≡ Proc.State.fail_stopped
    reported : h.ret.err ≡ errors has_error_cb log
    tells : h.has_on_stop ≡ has_on_stop

  hear-failed :
      (log : Log) (args : Bytes) (o e d s : Bool) (p : Pexec)
      → HasFailed d s log
          (hear_new os.errno 2 (failed log) (record (new_handle args o e d s) { proc = p }))
  unfolding hear_new hear is_stop with_output pid
  hear-failed log args o e true s p = record {
    no_pid = refl;
    failed_state = refl;
    reported = refl;
    tells = refl;
  }
  hear-failed log args o e false s p = record {
    no_pid = refl;
    failed_state = refl;
    reported = refl;
    tells = refl;
  }

  exec_no_pid :
      (id : ℕ) (args : Bytes) (o e d s : Bool) (m : Multi)
      → m.handles id ≡ new_handle args o e d s
      → str2arg args ≡ []
      → (m1 : Multi) × (exec_handle c id m ≡ done m1)
        × (m1.log ≡ told_log s id (failed m.log))
        × HasFailed d s m.log (m1.handles id)
  unfolding exec_handle with_process heard_handle pid
  exec_no_pid id args o e d s m h a =
      let (t, r, l, _) = exec_no_argument c args nonblocking m.log a in
      let two : length t.log - length m.log ≡ 2 = omega (arith, ap (λ log. length log) l) in
      let ends : has_end (length t.log - length m.log) t.log ≡ true =
        ap (λ n. has_end n t.log) two ∙ ap (λ log. has_end 2 log) l ∙ failed-has_end m.log in
      let (m1, f, g, k) = heard-done id t m (ap (λ h. h.stopped_pid) h) ends in
      let same : heard_handle id t m
          ≡ hear_new os.errno 2 (failed m.log) (record (new_handle args o e d s) { proc = t }) =
        ap (λ n. hear_new os.errno n t.log (record (m.handles id) { proc = t })) two
        ∙ ap (λ log. hear_new os.errno 2 log (record (m.handles id) { proc = t })) l
        ∙ ap (λ h. hear_new os.errno 2 (failed m.log) (record h { proc = t })) h in
      let has : HasFailed d s m.log (heard_handle id t m) =
        subst (HasFailed d s m.log) (sym same) (hear-failed m.log args o e d s t) in
      let h1 : PexecHandle = m1.handles id in
      let h2 : PexecHandle = record h1 { fds = get_fds h1.proc } in
      let has1 : HasFailed d s m.log h1 = subst (HasFailed d s m.log) (sym g) has in
      let called : Single.exec c (m.handles id).ret.args
            (record (m.handles id).proc { log = m.log })
          ≡ done t =
        ap (λ h. Single.exec c h.ret.args (record h.proc { log = m.log })) h ∙ r in
      (
        set_handle id h2 m1,
        ap (λ x. (x >>= (λ p. heard c id p m)) >>= after) called ∙ ap (λ x. x >>= after) f,
        k ∙ ap (λ b. told_log b id t.log) has.tells ∙ ap (λ log. told_log s id log) l,
        subst (HasFailed d s m.log) (sym (handle-set id h2 m1)) (record {
          no_pid = has1.no_pid;
          failed_state = has1.failed_state;
          reported = has1.reported;
          tells = has1.tells;
        }),
      )
    where
      after : Multi → Run Multi
      after m1 =
          let h = m1.handles id in done (set_handle id (record h { fds = get_fds h.proc }) m1)

  module _ (place : Table → ℕ → ℕ) where
    spawn_no_argument :
        (id : ℕ) (m m1 : Multi)
        → exec_handle c id m ≡ done m1
        → pid (m1.handles id) ≡ 0
        → spawn_job c place id m ≡ fault
    unfolding spawn_job
    spawn_no_argument id m m1 r z =
        ap
          (λ x. x >>= λ m1.
            let p = pid (m1.handles id) in assert_then (ltb 0 p) (watch_process c place p id m1))
          r
        ∙ ap (λ p. assert_then (ltb 0 p) (watch_process c place p id m1)) z

    -- A job whose command line has no argument, sent as its constructor made it and taken while the
    -- object is not stopping: `exec` of the handle returns, behind an ARG_PARSE_ERROR, the state
    -- FAIL_STOPPED and the call of `on_stop`, if that is set, and nothing else; the status of the
    -- handle is FAIL_STOPPED and holds the error, if no callback takes that. Then the assertion on the
    -- pid fails, and ends the program.
    pub dispatch_no_argument :
        (id : ℕ) (args : Bytes) (o e d s : Bool) (rest : List (Option Job)) (m : Multi)
        → m.buffer.buffer ≡ some (spawn id) ∷ rest
        → m.stopping ≡ false
        → m.handles id ≡ new_handle args o e d s
        → str2arg args ≡ []
        → (m1 : Multi) × (exec_handle c id (taken rest m) ≡ done m1)
          × (m1.log ≡ (
              let log =
                on_state Proc.State.fail_stopped Proc.new ∷ on_error arg_parse_error ∷ m.log in
              if s then stop_told id ∷ log else log))
          × ((m1.handles id).ret.state ≡ Proc.State.fail_stopped)
          × ((m1.handles id).ret.err ≡ (
              if d
              then []
              else record { pexec_error = arg_parse_error; error_code = os.errno m.log } ∷ []))
          × (dispatch_job c place m ≡ fault)
    unfolding do_job job_spawn_proc told_log
    dispatch_no_argument id args o e d s rest m b r h a =
        let m1 = taken rest m in
        let run : Run (EventReturn × Multi) = (do
          m2 ← spawn_job c place id m1
          done (nothing, m2)) in
        let (m2, x, l, f) = exec_no_pid id args o e d s m1 h a in
        (
          m2,
          x,
          l,
          f.failed_state,
          f.reported,
          dispatch-front c place (some (spawn id)) rest m b
              ∙ ap (λ b. if b then done (nothing, m1) else run) r
              ∙ ap (λ x. x >>= λ m2. done (nothing, m2)) (spawn_no_argument id m1 m2 x f.no_pid),
        )
