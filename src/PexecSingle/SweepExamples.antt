-- ===== src/PexecSingle/SweepExamples.antt =====
-- A pass over the table of `loop_io`.
use pexec.Base.{◌<◌, true, false, none, some, [], ◌∷◌, length, ◌≡◌, refl, arith, codes}
use pexec.PexecSingle.Examples.{setting, machine}
use pexec.PexecSingle.Loop.{
  Setting, Watch, close_watch, out_watch, err_watch, signal_watch, watcher,
}
use pexec.PexecSingle.State.{Pexec, blocking, new_pexec}
use pexec.PexecSingle.Sweeping.{watcher-IsLeaving}
use pexec.Run.{Ensures}
use pexec.SelectEvent.{Loop, control, client, find, pass}
use pexec.SelectEvent.Sweep.{Standing, visit, pass-visit}
use pexec.SelectEvent.Table.{from}
use pexec.System.{got}

-- Both outputs can be read.
abbrev talking : Setting
talking = record setting { os = record machine { read = λ log fd size. got (codes "hi") } }

abbrev table : Loop Watch
table = record {
  control_pipe = record { read_end = some 20; write_end = some 21 };
  cbs =
      (20, control)
      ∷ (8, client close_watch)
      ∷ (5, client out_watch)
      ∷ (7, client err_watch)
      ∷ (9, client signal_watch)
      ∷ [];
  actual_iterator = some 8;
  actual_iterator_deleted = false;
  recompute_max_fds = false;
  max_fd = some 20;
}

abbrev object : Pexec
object = record (new_pexec blocking []) {
  pipe_stdout = record { read_end = some 5; write_end = none };
  pipe_stderr = record { read_end = some 7; write_end = none };
}

table-Standing : Standing table
unfolding find
table-Standing = record {
  distinct = (refl, (refl, (refl, (refl, (refl, tt)))));
  flag_down = refl;
  here = λ fd e. ground arith;
}

four_left : length (from table.actual_iterator table.cbs) < 5
unfolding from
four_left = omega arith

pass-visit_example :
    (pass talking.os (watcher talking) 5 9 (λ fd. true) table object
      ≡ visit talking.os
          (watcher talking)
          9
          (λ fd. true)
          (from table.actual_iterator table.cbs)
          table
          object)
    × Ensures
        (λ q. q.1.cbs ≡ table.cbs)
        (pass talking.os (watcher talking) 5 9 (λ fd. true) table object)
pass-visit_example =
    pass-visit talking.os (watcher talking) 9 (λ fd. true) 5 table object
      (watcher-IsLeaving talking 9) table-Standing four_left
