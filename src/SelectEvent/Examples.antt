-- ===== src/SelectEvent/Examples.antt =====
-- An instance of each theorem on the event loop. Its callbacks are the numbers of a counter's steps.
use pexec.Base.{
  Bool, ℕ, suc, ◌+◌, ◌≤◌, true, false, not, ◌&&◌, none, some, [], ◌∷◌, ◌==◌, ◌≡◌, refl, arith,
}
use pexec.Run.{Run, done, Ensures}
use pexec.System.{Os, got, not_ready, ready}
use pexec.SelectEvent.{
  Loop, control, client, Client, nothing, stop_loop, find, erase, advance, get_max_fd, is_none,
  watched, loop, dispatch,
}
use pexec.SelectEvent.Table.{IsDistinct, after, from}
use pexec.SelectEvent.Removal.{AllIn, remove_all, erase_all, advance-remove_all}
use pexec.SelectEvent.MaxFd.{get_max_fd-watched}
use pexec.SelectEvent.Sweep.{visit}
use pexec.SelectEvent.Rule.{Frame, frame, IsKept, loop-kept}

abbrev table : Loop ℕ
table = record {
  control_pipe = record { read_end = some 3; write_end = some 4 };
  cbs = (3, control) ∷ (5, client 0) ∷ (7, client 1) ∷ (9, client 2) ∷ [];
  actual_iterator = some 5;
  actual_iterator_deleted = false;
  recompute_max_fds = true;
  max_fd = none;
}

table-IsDistinct : IsDistinct table.cbs
unfolding find
table-IsDistinct = (refl, (refl, (refl, (refl, tt))))

both_in : AllIn (5 ∷ 7 ∷ []) table.cbs
unfolding find erase
both_in = ((λ e. cc), ((λ e. cc), tt))

-- The callback of 5 removes itself and the one behind it.
advance-remove_all_example :
    (l1 : Loop ℕ) × (remove_all (5 ∷ 7 ∷ []) table ≡ done l1)
    × (from (advance 5 l1).actual_iterator (advance 5 l1).cbs
        ≡ erase_all (5 ∷ 7 ∷ []) (after 5 table.cbs))
    × ((advance 5 l1).actual_iterator_deleted ≡ false)
    × ((advance 5 l1).cbs ≡ erase_all (5 ∷ 7 ∷ []) table.cbs)
    × IsDistinct (advance 5 l1).cbs
advance-remove_all_example =
    advance-remove_all 5 (5 ∷ 7 ∷ []) table table-IsDistinct refl refl both_in

get_max_fd-watched_example :
    watched (λ fd. fd == 9) (get_max_fd table).0 table.cbs 9
    ≡ ((9 == 9) && not (is_none (find 9 table.cbs)))
get_max_fd-watched_example = get_max_fd-watched (λ fd. fd == 9) table 9 refl

-- A system where all is ready, and a client that counts its calls and never goes back.
abbrev busy : Os
busy = record {
  pipe2 = λ log. some (3, 4);
  read = λ log fd size. got (0 ∷ []);
  get_flags = λ log fd. 2;
  set_flags = λ log fd flags. true;
  sigaction = λ log. true;
  sigprocmask = λ log. true;
  fork = λ log. none;
  waitpid = λ log pid. not_ready;
  select = λ log. ready (λ fd. true);
  errno = λ log. 0;
}

abbrev counter : Client ℕ ℕ
counter = record {
  log_of = λ x. [];
  emit = λ e x. x;
  call = λ k fd l x. done (nothing, l, suc (x + k));
  on_interrupt = λ x. (stop_loop, x);
  on_error = λ x. x;
  slot = λ cbs fd. 0;
}

abbrev AtLeast : Frame ℕ → ℕ → Type 0
AtLeast q x = 10 ≤ x

counter-IsKept : IsKept busy counter AtLeast
counter-IsKept = record {
  kept_read = λ q fd r x p. p;
  kept_select = λ q r x p. p;
  kept_interrupt = λ q x p. p;
  kept_error = λ q x p. p;
  kept_call = λ k fd l x p. omega (arith, p);
}

ten_kept : Ensures (λ (r : Loop ℕ × ℕ). AtLeast (frame r.0) r.1) (loop busy counter 5 9 table 10)
ten_kept = loop-kept busy counter AtLeast counter-IsKept 5 9 table 10 (omega arith)

-- The three clients behind the iterator count 1, 2 and 3.
abbrev counted : Run (Bool × Loop ℕ × ℕ) → Bool × ℕ
counted (done (stop, l, x)) = (stop, x)
counted _ = (true, 0)

visit_three :
    counted (visit busy counter 9 (λ fd. true) (from table.actual_iterator table.cbs) table 10)
    ≡ (false, 16)
unfolding visit from dispatch
visit_three = refl
