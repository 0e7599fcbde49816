-- ===== src/Server/Run.antt =====
-- `eb_srv_start` and `eb_srv_destroy`.
use ebot.Base.{
  ℕ, zero, suc, Bool, not, none, some, List, [], ◌∷◌, if◌then◌else◌, Run, ok, exits, ◌>>=◌, ℤ, pos,
  negsuc, positive,
}
use ebot.Event.{Base, put, event_read}
use ebot.Event.Ctl.{add_event}
use ebot.Event.Loop.{Waited}
use ebot.Event.System.{Epoll, TailQueue}
use ebot.Pool.{Pool, get_with_lock}
use ebot.Server.Reactors
use ebot.Server.Reactors.{
  Threads, reactor_pool_start, reactor_pool_stop, reactor_pool_destroy, ebot_destroy, loop_rounds,
}
use ebot.Server.Types.{Srv, Net}
use ebot.Workers
use ebot.Workers.{destory}

-- The callback `ebot_srv_accept`, as a number.
abbrev pub accept_cb : ℕ
accept_cb = 4

-- `sfd` as it stands in an event
abbrev pub fd_of : ℤ → ℕ
fd_of (pos n) = n
fd_of (negsuc n) = 0

-- What `ahead` threads of reactors do to the pool of events before another one comes to it: each
-- takes a slab for the event of its pipe, and its `assert` ends the program where there is none.
unfoldable pub takes : (ahead : ℕ) → Pool → Run Pool
takes zero pool = ok pool
takes (suc n) pool = do
  (slab, pool) ← get_with_lock pool
  let rest = takes n pool
  elim slab [ none ↦ exits | some a ↦ rest ]

module _ {K Q W : Type 0} (epoll : Epoll K) (queue : TailQueue Q) (net : Net W)
    (reactor_threads : Reactors.Threads K Q W) (worker_threads : Workers.Threads W)
    (callback : (cb fd arg : ℕ) → Base K Q × W → Run (Base K Q × W)) where
  -- `this` is the address of the server, `ahead` the number of reactors whose threads come to the
  -- pool of events before the server itself does, `rounds` what `epoll_wait` gives as long as the
  -- status of the server is set, and `fuel` bounds the events that one round dispatches.
  unfoldable pub eb_srv_start :
      Srv K Q
      → (this ahead : ℕ) → (read_ok write_ok : Bool) → (fuel : ℕ) → List Waited
      → W
      → Run (Srv K Q × W)
  unfolding takes
  eb_srv_start srv this ahead read_ok write_ok fuel rounds world =
      if not (positive srv.sfd) then exits else do
        let (reactors, world) = reactor_pool_start reactor_threads net srv.slave_reactor world
        let (factory, world) = Workers.start worker_threads srv.factory world
        pool ← takes ahead srv.event_pool
        (slab, pool) ← get_with_lock pool
        elim slab [
          | none ↦ exits
          | some a ↦ (do
            let event = event_read (fd_of srv.sfd) accept_cb this
            (done, base) ←
                add_event epoll
                  (record (srv.master_base) { events = put srv.master_base.events a event }) a
                  read_ok write_ok
            if not done then exits else (do
              (base, world) ← loop_rounds queue callback fuel rounds (base, world)
              ok (
                record srv {
                  status = 1;
                  slave_reactor = reactors;
                  factory = factory;
                  event_pool = pool;
                  master_base = base;
                },
                world,
              )))
        ]

  -- `close` of what is no descriptor does nothing.
  abbrev pub close_int : ℤ → W → W
  close_int (pos n) world = net.close world n
  close_int (negsuc n) world = world

  -- The event descriptors that `wpool_destory` closes.
  abbrev pub close_all : List ℤ → W → W
  close_all [] world = world
  close_all (efd ∷ rest) world = close_all rest (close_int efd world)

  -- `eb_srv_destroy` stops the threads and closes the descriptors; `free` and `mpool_destroy` leave
  -- nothing to see.
  unfoldable pub eb_srv_destroy : Srv K Q → W → Run W
  unfolding reactor_pool_destroy ebot_destroy
  eb_srv_destroy srv world = do
    (reactors, world) ← reactor_pool_stop reactor_threads net srv.slave_reactor world
    (factory, world) ← Workers.stop worker_threads srv.factory world
    let world = reactor_pool_destroy net reactors world
    closed ← destory factory
    ok (ebot_destroy net srv.master_base (close_int srv.sfd (close_all closed world)))
