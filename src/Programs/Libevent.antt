-- ===== src/Programs/Libevent.antt =====
-- multi_libevent2.cpp: the loop is libevent's, of which the map `events` holds the entries.
use pexec.Base.{ℕ, zero, suc, ◌-◌, true, Option, none, some, List, [], ◌∷◌, codes, length}
use pexec.PexecMulti.Jobs.{exec_proc, stop_all}
use pexec.PexecMulti.Serve.{construct, run, destruct, do_action}
use pexec.PexecMulti.State.{
  Multi, Table, external, default, stop_wait, fd_key, get, put, remove, set_type, register_event,
}
use pexec.PexecSingle.Loop.{Setting}
use pexec.Programs.{detailed}
use pexec.Run.{Run, done, ◌>>=◌}
use pexec.System.{Event, Log, fd_added, fd_removed}

-- libevent's base of type `B` and its `struct event` of type `E`: a new entry of the map, and the
-- functions that the program calls. `assign` is for EV_READ | EV_PERSIST and the call of `do_action`.
pub record Libevent (B E : Type 0) : Type 0 where
  pub blank : E
  pub assign : Option ℕ → E → E
  pub add : E → B → B
  pub del : E → B → B

-- The program's variables.
pub record Program (B E : Type 0) : Type 0 where
  pub procs : Multi
  pub events : List (ℕ × E)
  pub evbase : B

module _ {B E : Type 0} (lib : Libevent B E) where
  -- `events[fd]`
  unfoldable pub entry : Option E → E
  entry none = lib.blank
  entry (some e) = e

  -- The function given to `register_event`.
  unfoldable pub on_register : Event → Program B E → Program B E
  unfolding entry
  on_register (fd_added fd) p =
      let ev = lib.assign fd (entry (get (fd_key fd) p.events)) in
      record p { events = put (fd_key fd) ev p.events; evbase = lib.add ev p.evbase }
  on_register (fd_removed fd) p =
      let ev = entry (get (fd_key fd) p.events) in
      record p { events = remove (fd_key fd) p.events; evbase = lib.del ev p.evbase }
  on_register _ p = p

  -- The `k` newest events of a log, the oldest of them first.
  unfoldable pub register_new : ℕ → Log → Program B E → Program B E
  unfolding on_register
  register_new zero log p = p
  register_new (suc k) [] p = p
  register_new (suc k) (e ∷ log) p = on_register e (register_new k log p)

  -- A call of the library that leads to `m`.
  unfoldable pub followed : Multi → Program B E → Program B E
  unfolding register_new
  followed m p = record (register_new (length m.log - length p.procs.log) m.log p) { procs = m }

  module _ (c : Setting) (place : Table → ℕ → ℕ) where
    -- `event_base_dispatch`: the descriptors for which libevent calls `do_action`, in its order.
    unfoldable pub event_base_dispatch : List ℕ → Program B E → Run (Program B E)
    unfolding followed
    event_base_dispatch [] p = done p
    event_base_dispatch (fd ∷ fds) p = do
      m ← do_action c place fd p.procs
      event_base_dispatch fds (followed m p)

    -- One of the two halves of `main`; `set_type` and `register_event` stand behind `stop`.
    unfoldable pub batch : List ℕ → List ℕ → Program B E → Run (Program B E)
    unfolding event_base_dispatch
    batch args fds p = do
      m1 ← exec_proc args detailed p.procs
      m2 ← stop_all stop_wait none m1
      m3 ← run c place (register_event true (set_type external m2))
      event_base_dispatch fds (followed m3 p)

    -- `main`, for a base; libevent's calls are `first` in the first loop and `second` in the second.
    unfoldable pub main : List ℕ → List ℕ → B → Log → Run (Program B E)
    unfolding batch
    main first second evbase log = do
      procs ← construct c default log
      p1 ← batch (codes "ls -la") first (record { procs = procs; events = []; evbase = evbase })
      p2 ← batch (codes "df -h") second p1
      done (record p2 { procs = destruct c place p2.procs })
