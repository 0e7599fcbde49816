-- ===== src/Server/Reactors.antt =====
-- `reactor_pool`: a list of reactors, one thread for each.
use ebot.Base.{
  ℕ, zero, suc, ◌+◌, Bool, true, not, Option, none, some, List, [], ◌∷◌, if◌then◌else◌, Run, ok,
  exits, fault, ltb, ◌*◌, ◌>>=◌,
}
use ebot.Bytes.{int_max}
use ebot.Event
use ebot.Event.{Base, Event, put, event_read}
use ebot.Event.Ctl.{add_event}
use ebot.Event.Loop.{Waited, loop}
use ebot.Event.System.{Epoll, TailQueue}
use ebot.Io.{Answer, set_nonblock}
use ebot.Pool.{Pool, get_with_lock}
use ebot.Server.Client.{pipe_read}
use ebot.Server.Types.{Reactor, Net, null}

-- What `reactor_pool_new` gets for a reactor: from `malloc` and `epoll_create` for its base, from
-- `pipe`, and from `fcntl` for each end of the pipe.
pub record Given (K Q : Type 0) : Type 0 where
  pub base_ok : Bool
  pub arrays_ok : Bool
  pub epoll : Option (ℕ × K)
  pub queue : Q
  pub events : ℕ → Event
  pub pipe : Option (ℕ × ℕ)
  pub gets_in : List Answer
  pub sets_in : List Answer
  pub gets_out : List Answer
  pub sets_out : List Answer

-- `sz`, with 16 bytes for the pool and 48 for a reactor.
abbrev pub reactors_bytes : (rsz : ℕ) → ℕ
reactors_bytes rsz = 16 + rsz * 48

module _ {K Q : Type 0} where
  -- The body of the `for` of `reactor_pool_new`.
  unfoldable pub make_reactor : (i : ℕ) → Given K Q → Run (Reactor K Q)
  make_reactor i given = do
    base ← Event.new 3 given.base_ok given.arrays_ok given.epoll given.queue given.events
    elim base [
      | none ↦ exits
      | some base ↦ elim given.pipe [
        | none ↦ exits
        | some (pipe_in, pipe_out) ↦ (do
          flags_in ← set_nonblock true given.gets_in given.sets_in
          flags_out ← set_nonblock true given.gets_out given.sets_out
          ok (record {
            id = i + 1;
            tid = 0;
            base = base;
            srv = null;
            pipe_in = pipe_in;
            pipe_out = pipe_out;
            status = 0;
          }))
      ]
    ]

  unfoldable pub make_reactors : (k i : ℕ) → (ℕ → Given K Q) → Run (List (Reactor K Q))
  unfolding make_reactor
  make_reactors zero i given = ok []
  make_reactors (suc k) i given = do
    r ← make_reactor i (given i)
    rest ← make_reactors k (i + 1) given
    ok (r ∷ rest)

  -- `reactor_pool_new`. Where `sz` is no `int`, the block is none or too small for the reactors.
  unfoldable pub reactor_pool_new :
      (rsz : ℕ) (mem_ok : Bool) → (ℕ → Given K Q) → Run (List (Reactor K Q))
  unfolding make_reactors
  reactor_pool_new rsz mem_ok given =
      if ltb int_max (reactors_bytes rsz)
      then fault
      else if mem_ok
      then make_reactors rsz 0 given
      else exits

-- Threads that run `reactor_pool_exec`.
pub record Threads (K Q W : Type 0) : Type 0 where
  pub create : W → Reactor K Q → Option ℕ × W
  pub join : W → ℕ → Run W

module _ {K Q W : Type 0} (threads : Threads K Q W) (net : Net W) where
  -- `reactor_pool_start`; no failure of `pthread_create` is a negative number.
  unfoldable pub reactor_pool_start : List (Reactor K Q) → W → List (Reactor K Q) × W
  reactor_pool_start [] world = ([], world)
  reactor_pool_start (r ∷ rs) world =
      let r = record r { status = 1 } in
      let (made, world) = threads.create world r in
      let r : Reactor K Q = elim made [ none ↦ r | some tid ↦ record r { tid = tid } ] in
      let (rs, world) = reactor_pool_start rs world in (r ∷ rs, world)

  -- `reactor_pool_stop`
  unfoldable pub reactor_pool_stop : List (Reactor K Q) → W → Run (List (Reactor K Q) × W)
  reactor_pool_stop [] world = ok ([], world)
  reactor_pool_stop (r ∷ rs) world = do
    let world = net.close (net.close world r.pipe_in) r.pipe_out
    world ← threads.join world r.tid
    (rs, world) ← reactor_pool_stop rs world
    ok (record r { status = 0 } ∷ rs, world)

module _ {K Q W : Type 0} (net : Net W) where
  -- `ebot_destroy`: what `free` gives back leaves nothing to see.
  unfoldable pub ebot_destroy : Base K Q → W → W
  ebot_destroy eb world = net.close world eb.epfd

  -- `reactor_pool_destroy`
  unfoldable pub reactor_pool_destroy : List (Reactor K Q) → W → W
  unfolding ebot_destroy
  reactor_pool_destroy [] world = world
  reactor_pool_destroy (r ∷ rs) world = reactor_pool_destroy rs (ebot_destroy r.base world)

-- `while (status) ebot_loop(base, &tv)`: one `epoll_wait` for each round in which the status is
-- found set. Nobody looks at the result of `ebot_loop`.
module _ {K Q W : Type 0} (queue : TailQueue Q)
    (callback : (cb fd arg : ℕ) → Base K Q × W → Run (Base K Q × W)) where
  unfoldable pub loop_rounds : (fuel : ℕ) → List Waited → Base K Q × W → Run (Base K Q × W)
  loop_rounds fuel [] s = ok s
  loop_rounds fuel (waited ∷ rest) s = do
    (done, base, world) ← loop queue callback fuel waited s
    loop_rounds fuel rest (base, world)

  -- `reactor_pool_exec` up to its loop, and the loop. `this` is the address of the reactor.
  unfoldable pub reactor_pool_exec :
      Epoll K
      → Reactor K Q
      → (this : ℕ) → Pool
      → (read_ok write_ok : Bool) → (fuel : ℕ) → List Waited
      → W
      → Run (Reactor K Q × Pool × W)
  unfolding loop_rounds
  reactor_pool_exec epoll r this pool read_ok write_ok fuel rounds world = do
    (slab, pool) ← get_with_lock pool
    elim slab [
      | none ↦ exits
      | some a ↦ (do
        (done, base) ←
            add_event epoll
              (record (r.base) {
                events = put r.base.events a (event_read r.pipe_in pipe_read this);
              })
              a read_ok write_ok
        if not done then exits else (do
          (base, world) ← loop_rounds fuel rounds (base, world)
          ok (record r { base = base }, pool, world)))
    ]
