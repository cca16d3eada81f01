-- ===== src/SelectEvent.antt =====
-- src/pexec/event/select_event.h and select_event.cpp: the event loop over ::select. The callbacks
-- are named by values of a type `K` of the client's, whose `call` says what each does to the loop
-- and to the client's own state `X`.
pub mod Table
pub mod Removal
pub mod MaxFd
pub mod Rule
pub mod Sweep
pub mod Ends
pub mod Rounds
pub mod Insert
pub mod Control
mod Examples
use pexec.Base.{
  ℕ, zero, suc, ◌<◌, Bool, true, false, not, ◌&&◌, Option, none, some, List, [], ◌∷◌, ◌++◌, ◌==◌,
  ltb, if◌then◌else◌, is_empty,
}
use pexec.Run.{Run, done, fault, timeout, ◌>>=◌, assert_then}
use pexec.System.{
  Event, Log, Os, Pipe, Errno, eintr, ReadResult, got, read_failed, SelectResult, ready,
  select_failed, opened, open_failed, was_read, wrote, selected,
}
use pexec.Util.{close_pipe}
use pexec.Util.Close.{no_pipe}

-- `enum class event_return`
pub data EventReturn : Type 0 where
  stop_loop skip_other_fd nothing : EventReturn

-- The loop's own callback, for its control pipe, and the client's.
pub data Callback (K : Type 0) : Type 0 where
  control : Callback K
  client : K → Callback K

-- The members of `select_event`. `cbs` is the hash table in its order of iteration; an iterator is
-- the key that it points to, `none` at the end.
pub record Loop (K : Type 0) : Type 0 where
  pub control_pipe : Pipe
  pub cbs : List (ℕ × Callback K)
  pub actual_iterator : Option ℕ
  pub actual_iterator_deleted : Bool
  pub recompute_max_fds : Bool
  pub max_fd : Option ℕ

-- `p.first > max_fd_`; -1 is below every descriptor.
above : ℕ → Option ℕ → Bool
above fd none = true
above fd (some m) = ltb m fd

points_to : Option ℕ → ℕ → Bool
points_to none fd = false
points_to (some k) fd = k == fd

module _ {K : Type 0} where
  -- `cbs_.find(fd)`
  unfoldable pub find : ℕ → List (ℕ × Callback K) → Option (Callback K)
  find fd [] = none
  find fd ((k, cb) ∷ cbs) = if fd == k then some cb else find fd cbs

  -- The key of the first element.
  pub first_key : List (ℕ × Callback K) → Option ℕ
  first_key [] = none
  first_key ((k, cb) ∷ cbs) = some k

  -- The key behind `fd`.
  pub next_key : ℕ → List (ℕ × Callback K) → Option ℕ
  next_key fd [] = none
  next_key fd ((k, cb) ∷ cbs) = if fd == k then first_key cbs else next_key fd cbs

  -- `cbs_.erase(it)`
  pub erase : ℕ → List (ℕ × Callback K) → List (ℕ × Callback K)
  erase fd [] = []
  erase fd ((k, cb) ∷ cbs) = if fd == k then cbs else (k, cb) ∷ erase fd cbs

  -- A new element at a place of the table's choice.
  pub insert_at : ℕ → ℕ × Callback K → List (ℕ × Callback K) → List (ℕ × Callback K)
  insert_at zero e cbs = e ∷ cbs
  insert_at (suc n) e [] = e ∷ []
  insert_at (suc n) e (d ∷ cbs) = d ∷ insert_at n e cbs

  largest : List (ℕ × Callback K) → Option ℕ → Option ℕ
  unfolding above
  largest [] m = m
  largest ((k, cb) ∷ cbs) m = largest cbs (if above k m then some k else m)

  pub get_max_fd : Loop K → Option ℕ × Loop K
  unfolding largest
  get_max_fd l =
      let l1 = if l.recompute_max_fds then record l { max_fd = largest l.cbs none } else l in
      (l1.max_fd, l1)

  pub is_none : Option (Callback K) → Bool
  is_none none = true
  is_none (some cb) = false

  -- The place in the table is given by `slot`. The other elements keep their order and the iterator
  -- its place, as they do in a hash table that has room; a rehash is not modelled.
  unfoldable pub add_read_event :
      (List (ℕ × Callback K) → ℕ → ℕ) → ℕ → Callback K → Loop K → Run (Loop K)
  unfolding is_none find insert_at
  add_read_event slot fd cb l =
      assert_then (is_none (find fd l.cbs))
        (done (record l { cbs = insert_at (slot l.cbs fd) (fd, cb) l.cbs }))

  -- The branch of `remove_read_event` for a descriptor that is in the table.
  removed : ℕ → Loop K → Loop K
  unfolding points_to erase next_key
  removed fd l =
      if points_to l.actual_iterator fd
      then record l {
        recompute_max_fds = true;
        actual_iterator_deleted = true;
        actual_iterator = next_key fd l.cbs;
        cbs = erase fd l.cbs;
      }
      else record l { recompute_max_fds = true; cbs = erase fd l.cbs }

  unfoldable pub remove_read_event : ℕ → Loop K → Run (Loop K)
  unfolding find removed
  remove_read_event fd l = elim (find fd l.cbs) [ none ↦ fault | some cb ↦ done (removed fd l) ]

  -- `interrupt` writes a byte into the control pipe.
  unfoldable pub interrupt_event : Loop K → Event
  interrupt_event l = wrote l.control_pipe.write_end (0 ∷ [])

  -- The end of a round over the table: `++actual_iterator_cbs_`, unless it has moved already.
  unfoldable pub advance : ℕ → Loop K → Loop K
  unfolding next_key
  advance fd l =
      if not l.actual_iterator_deleted
      then record l { actual_iterator = next_key fd l.cbs }
      else record l { actual_iterator_deleted = false }

  -- The sets that `select` fills: the watched descriptors below `nfds` that it reports.
  pub watched : (ℕ → Bool) → Option ℕ → List (ℕ × Callback K) → ℕ → Bool
  watched reported max_fd cbs fd =
      reported fd && not (is_none (find fd cbs)) && not (above fd max_fd)

-- What the loop's client brings: its log, its callbacks, and the place of new keys in the table.
pub record Client (X K : Type 0) : Type 0 where
  pub log_of : X → Log
  pub emit : Event → X → X
  pub call : K → ℕ → Loop K → X → Run (EventReturn × Loop K × X)
  pub on_interrupt : X → EventReturn × X
  pub on_error : X → X
  pub slot : List (ℕ × Callback K) → ℕ → ℕ

module _ {X K : Type 0} (os : Os) (c : Client X K) where
  -- The constructor: the control pipe, and its callback as the first element.
  unfoldable pub create : X → Run (Loop K × X)
  unfolding insert_at
  create x = elim (os.pipe2 (c.log_of x)) [
    | none ↦ fault
    | some (r, w) ↦ do
      l ← add_read_event c.slot r control (record {
        control_pipe = record { read_end = some r; write_end = some w };
        cbs = [];
        actual_iterator = none;
        actual_iterator_deleted = false;
        recompute_max_fds = true;
        max_fd = none;
      })
      done (l, c.emit (opened r w) x)
  ]

  -- `while (errno == EINTR)`, then `assert(ret >= 0)`.
  after_control : ReadResult → X → Run X → Run X
  after_control (got bytes) x again = done x
  after_control (read_failed eintr) x again = again
  after_control (read_failed e) x again = fault

  -- The control callback reads one byte.
  read_control : ℕ → ℕ → X → Run X
  unfolding after_control
  read_control zero fd x = timeout
  read_control (suc fuel) fd x =
      let r = os.read (c.log_of x) (some fd) 1 in
      let x1 = c.emit (was_read (some fd) r) x in
      let again = read_control fuel fd x1 in after_control r x1 again

  unfoldable pub dispatch : ℕ → Callback K → ℕ → Loop K → X → Run (EventReturn × Loop K × X)
  unfolding read_control
  dispatch fuel control fd l x = do
    x1 ← read_control fuel fd x
    let (r, x2) = c.on_interrupt x1
    done (r, l, x2)
  dispatch fuel (client k) fd l x = c.call k fd l x

  after_callback : EventReturn → Loop K → X → Run (Bool × Loop K × X) → Run (Bool × Loop K × X)
  after_callback stop_loop l x rest = done (true, l, x)
  after_callback skip_other_fd l x rest = done (false, l, x)
  after_callback nothing l x rest = rest

  -- The inner `while`, from the iterator on: whether to stop, and the states. `fuel` bounds the
  -- elements, `tries` the attempts at a read.
  pub pass : ℕ → ℕ → (ℕ → Bool) → Loop K → X → Run (Bool × Loop K × X)
  unfolding find after_callback
  pass zero tries is_ready l x = timeout
  pass (suc fuel) tries is_ready l x = elim l.actual_iterator [
    | none ↦ done (false, l, x)
    | some fd ↦ elim (find fd l.cbs) [
      | none ↦ fault
      | some cb ↦ elim (is_ready fd) [
        | false ↦ pass fuel tries is_ready (advance fd l) x
        | true ↦ do
          (r, l1, x1) ← dispatch tries cb fd l x
          let rest = pass fuel tries is_ready (advance fd l1) x1
          after_callback r l1 x1 rest
      ]
    ]
  ]

  after_select :
      SelectResult
      → Option ℕ
      → Loop K
      → X
      → Run (Option (ℕ → Bool) × Loop K × X)
      → Run (Option (ℕ → Bool) × Loop K × X)
  unfolding watched
  after_select (ready reported) m l x again = done (some (watched reported m l.cbs), l, x)
  after_select (select_failed eintr) m l x again = again
  after_select (select_failed e) m l x again = done (none, l, c.on_error x)

  -- The inner `do`: what is ready, `none` after a failure. An empty table is not waited for.
  pub wait_ready : ℕ → Loop K → X → Run (Option (ℕ → Bool) × Loop K × X)
  unfolding after_select get_max_fd is_none find
  wait_ready zero l x = timeout
  wait_ready (suc fuel) l x = elim (is_empty l.cbs) [
    | true ↦ done (some (λ fd. false), l, x)
    | false ↦
        let (m, l1) = get_max_fd l in
        let r = os.select (c.log_of x) in
        let x1 = c.emit (selected r) x in
        let again = wait_ready fuel l1 x1 in after_select r m l1 x1 again
  ]

  -- The rest of a round; `again` is the next one.
  after_wait :
      ℕ → Option (ℕ → Bool) → Loop K → X → (Loop K → X → Run (Loop K × X)) → Run (Loop K × X)
  unfolding pass first_key
  after_wait tries none l x again = done (l, x)
  after_wait tries (some is_ready) l x again = do
    (stop, l1, x1) ← pass tries tries is_ready (record l { actual_iterator = first_key l.cbs }) x
    elim stop [ true ↦ done (l1, x1) | false ↦ again l1 x1 ]

  -- `loop`: `fuel` rounds, each with at most `tries` elements and `tries` attempts at a call.
  unfoldable pub loop : ℕ → ℕ → Loop K → X → Run (Loop K × X)
  unfolding wait_ready after_wait
  loop zero tries l x = timeout
  loop (suc fuel) tries l x = do
    (o, l1, x1) ← wait_ready tries l x
    after_wait tries o l1 x1 (λ l2 x2. loop fuel tries l2 x2)

  -- The destructor closes the control pipe.
  unfoldable pub destroy : Loop K → X → Log
  destroy l x = (close_pipe (c.log_of x) l.control_pipe).1
