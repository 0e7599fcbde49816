-- ===== src/Server/Threads.antt =====
-- Reactors that share the pool of events (`ebot_srv` has one `event_pool` for all of them). The
-- callbacks that use it are `reactor_pool_pipe_callback`, which takes a slab for each of two
-- events, and `reactor_pool_client_read_callback`, which gives two back where a connection ends;
-- before that `reactor_pool_exec` takes one, and `eb_srv_start` one for the server itself. Each of
-- these calls has the mutex of the pool for itself, and all else that the callbacks do to a base is
-- done by its own thread; so a thread can stop before each access to the pool, and others come in
-- between.
pub mod Held
pub mod Sound
pub mod Registering
pub mod Watching
pub mod Retiring
pub mod Acting
pub mod Safe
pub mod Fresh
pub mod Alone
pub mod Stock
mod Trials
use ebot.Base.{
  ℕ, Bool, true, false, List, [], ◌∷◌, none, some, set, get_elem?, ◌≡◌, if◌then◌else◌, Run, ok,
  exits, ◌>>=◌, ◌<◌,
}
use ebot.Event.{Base, Event, event_read, event_write, put, read_wait, write_wait}
use ebot.Event.System.{Epoll}
use ebot.Event.Ctl.{add_event}
use ebot.Pool.{Pool, get_with_lock}
use ebot.Server.Client.{watch, retire, client_read, client_write}
use ebot.Server.Types.{Net}

-- Where a thread stands: before it registers its first event, between callbacks, in
-- `reactor_pool_pipe_callback` behind the registration of the event to read, or in
-- `reactor_pool_client_read_callback` behind the end of it.
pub data Stage : Type 0 where
  starting : (fd cb : ℕ) → Stage
  between : Stage
  joining parting : (fd : ℕ) → Stage

-- What a thread does next when it stands between callbacks: a new client comes through the pipe, or
-- the connection of one ends.
pub data Turn : Type 0 where
  comes goes : (fd : ℕ) → Turn

-- A reactor's thread, or the one of the server itself, with its base; `this` is the address of the
-- reactor or of the server.
pub record Thread (K Q : Type 0) : Type 0 where
  pub this : ℕ
  pub base : Base K Q
  pub place : Stage

-- All threads of the reactors, and the pool.
abbrev pub System : (K Q : Type 0) → Type 0
System K Q = List (Thread K Q) × Pool

-- A descriptor that comes is one for which nothing waits, and it lies in the arrays.
abbrev pub Enabled : {K Q : Type 0} → Stage → Thread K Q → Turn → Type 0
Enabled (starting fd cb) t turn = Unit
Enabled between t (comes fd) =
    (fd < t.base.wait_sz) × (t.base.read_waits fd ≡ 0) × (t.base.write_waits fd ≡ 0)
Enabled between t (goes fd) = fd < t.base.wait_sz
Enabled (joining fd) t turn = Unit
Enabled (parting fd) t turn = Unit

-- The slabs are memory that all threads share: what one has put there, all see.
abbrev pub seen : {K Q : Type 0} → (ℕ → Event) → Thread K Q → Thread K Q
seen events t = record t { base = record (t.base) { events = events } }

abbrev pub share : {K Q : Type 0} → List (Thread K Q) → (ℕ → Event) → List (Thread K Q)
share [] events = []
share (t ∷ ts) events = seen events t ∷ share ts events

module _ {K Q W : Type 0} (epoll : Epoll K) (net : Net W) (read_ok write_ok : Bool) where
  -- One access to the pool of events, with what the thread does to its own base before or behind
  -- it.
  unfoldable pub act : Stage → Thread K Q → Turn → Pool → Run (Thread K Q × Pool)
  act (starting fd cb) t turn pool = do
    (slab, pool) ← get_with_lock pool
    elim slab [
      | none ↦ exits
      | some a ↦ (do
        (done, base) ←
            add_event epoll
              (record (t.base) { events = put t.base.events a (event_read fd cb t.this) }) a read_ok
              write_ok
        if done then ok (record t { base = base; place = between }, pool) else exits)
    ]
  act between t (comes fd) pool = do
    (had, base, pool) ←
        watch epoll net t.base pool (event_read fd client_read t.this) read_ok write_ok
    ok (record t { base = base; place = if had then joining fd else between }, pool)
  act (joining fd) t turn pool = do
    (had, base, pool) ←
        watch epoll net t.base pool (event_write fd client_write t.this) read_ok write_ok
    ok (record t { base = base; place = between }, pool)
  act between t (goes fd) pool = do
    (base, pool) ← (do a ← read_wait t.base fd; retire epoll net t.base pool a)
    ok (record t { base = base; place = parting fd }, pool)
  act (parting fd) t turn pool = do
    (base, pool) ← (do b ← write_wait t.base fd; retire epoll net t.base pool b)
    ok (record t { base = base; place = between }, pool)

  -- What is left of a callback, with no other thread in between.
  abbrev pub finish : Thread K Q × Pool → Run (Thread K Q × Pool)
  finish (t, pool) = elim t.place [
    | starting fd cb ↦ act (starting fd cb) t (comes fd) pool
    | between ↦ ok (t, pool)
    | joining fd ↦ act (joining fd) t (comes fd) pool
    | parting fd ↦ act (parting fd) t (goes fd) pool
  ]

  pub data Step : System K Q → System K Q → Type 0 where
    moves :
        {ts : List (Thread K Q)} {pool pool' : Pool} {t' : Thread K Q} (i : ℕ) (t : Thread K Q)
        (turn : Turn)
        → get_elem? ts i ≡ some t
        → Enabled t.place t turn
        → act t.place t turn pool ≡ ok (t', pool')
        → Step (ts, pool) (share (set ts i t') (t'.base.events), pool')

  pub data Reach (s : System K Q) : System K Q → Type 0 where
    here : Reach s s
    later : {s' s'' : System K Q} → Reach s s' → Step s' s'' → Reach s s''
