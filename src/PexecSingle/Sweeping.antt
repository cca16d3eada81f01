-- ===== src/PexecSingle/Sweeping.antt =====
-- The four lambdas of `loop_io` leave the event loop that calls them alone.
use pexec.Base.{ℕ, refl}
use pexec.PexecSingle.Loop.{
  Setting, Watch, close_watch, out_watch, err_watch, signal_watch, watcher, on_signal,
}
use pexec.PexecSingle.Reading.{read_close, read_stdout, read_stderr}
use pexec.PexecSingle.State.{Pexec}
use pexec.Run.{Run, done, ◌>>=◌, Ensures, Ensures-bind, Ensures-any}
use pexec.SelectEvent.{EventReturn, Loop, control, client, dispatch}
use pexec.SelectEvent.Sweep.{Leaves, IsLeaving}

untouched : (l : Loop Watch) → Leaves l l
untouched l = record { same_cbs = refl; same_iterator = refl; same_flag = refl }

module _ {A : Type 0} where
  -- A call that hands the loop back as it got it.
  handed_back :
      (l : Loop Watch) (r : Run A) (f : A → EventReturn) (g : A → Pexec)
      → Ensures
          (λ (q : EventReturn × Loop Watch × Pexec). Leaves l q.1)
          (r >>= (λ a. done (f a, l, g a)))
  handed_back l r f g =
      Ensures-bind (λ _. Unit {0}) (λ (q : EventReturn × Loop Watch × Pexec). Leaves l q.1) r
        (λ a. done (f a, l, g a)) (Ensures-any r) (λ a u. untouched l)

pub watcher-IsLeaving : (c : Setting) (tries : ℕ) → IsLeaving c.os (watcher c) tries
unfolding watcher dispatch
watcher-IsLeaving c tries control fd l s = handed_back l _ _ _
watcher-IsLeaving c tries (client close_watch) fd l s =
    handed_back l (read_close c.os c.buffer_size c.fuel s) _ _
watcher-IsLeaving c tries (client out_watch) fd l s =
    handed_back l (read_stdout c.os c.buffer_size c.fuel s) _ _
watcher-IsLeaving c tries (client err_watch) fd l s =
    handed_back l (read_stderr c.os c.buffer_size c.fuel s) _ _
watcher-IsLeaving c tries (client signal_watch) fd l s = handed_back l (on_signal c s) _ _
