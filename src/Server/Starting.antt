-- ===== src/Server/Starting.antt =====
-- `eb_srv_start` up to its loop.
use ebot.Base.{
  ℕ, suc, ◌+◌, ◌<◌, ◌≡◌, refl, ap, ◌∙◌, Bool, true, false, List, [], ◌∷◌, ◌++◌, arith, length,
  length-append, ok, ◌>>=◌, Run, pos, positive,
}
use ebot.Event.{Base, event_read}
use ebot.Event.Ctl.{add_event}
use ebot.Event.Loop.{Waited}
use ebot.Event.Opening.{
  ctl_takes, registered, registered-Agrees, add_event-registered, put_self, at_event,
}
use ebot.Event.System.{Epoll, TailQueue, Accepts}
use ebot.Event.Tables.{Agrees}
use ebot.Pool.{Pool, header}
use ebot.Pool.Moves.{get_with_lock_lem}
use ebot.Pool.Valid.{Valid}
use ebot.Server.Reactors
use ebot.Server.Reactors.{Threads, reactor_pool_start, loop_rounds}
use ebot.Server.Run.{accept_cb, fd_of, takes, eb_srv_start}
use mathlib.Core.List.{append-nil, append_assoc}
use std.Path.{subst, subst⁻¹}
use ebot.Server.Types.{Srv, Net}
use ebot.Workers

-- The threads that come first get the first slabs.
takes_lem :
    (mp : Pool) (xs free busy : List ℕ)
    → Valid mp (xs ++ free) busy
    → mp.held ≡ false
    → 0 < length free
    → (mp' : Pool) × (takes (length xs) mp ≡ ok mp')
      × Valid mp' free (busy ++ xs)
      × (mp'.held ≡ false)
unfolding takes
takes_lem mp [] free busy v h more = (mp, refl, subst⁻¹ (Valid mp free) (append-nil busy) v, h)
takes_lem mp (x ∷ xs) free busy v h more =
    let (mp1, got, v1, h1) =
      get_with_lock_lem x (xs ++ free) busy v h
        (omega (arith, more, length-append xs free, length-append (xs ++ free) busy)) in
    let (mp2, e, v2, h2) = takes_lem mp1 xs free (busy ++ (x ∷ [])) v1 h1 more in
    (mp2, rw got e, subst (Valid mp2 free) (append_assoc busy (x ∷ []) xs) v2, h2)

module _ {K Q W : Type 0} (epoll : Epoll K) (queue : TailQueue Q) (net : Net W)
    (reactor_threads : Reactors.Threads K Q W) (worker_threads : Workers.Threads W)
    (callback : (cb fd arg : ℕ) → Base K Q × W → Run (Base K Q × W)) (accepts : Accepts epoll) where
  -- A base in which an event in the slab at `s` waits for connections to `sfd`.
  abbrev pub Listens : (this sfd s : ℕ) → Base K Q → Type 0
  Listens this sfd s base =
      Agrees epoll base
      × (base.read_waits sfd ≡ s + header)
      × (base.events (s + header) ≡ event_read sfd accept_cb this)

  registered_reads :
      (base : Base K Q) (fd this a : ℕ) (k : K)
      → base.read_waits fd ≡ 0
      → (registered epoll base (event_read fd accept_cb this) a k).read_waits fd ≡ a
  registered_reads base fd this a k no_read = ground (arith, no_read)

  -- `eb_srv_start` of a server that listens, with a base in which nothing waits for `sfd` yet,
  -- starts the reactors and then the workers, registers the event that accepts connections, with
  -- the tables and the kernel in agreement, and goes into its loop. However many of the reactors'
  -- threads come to the pool of events before it, they get the first of the free slabs and it gets
  -- the next one, where there is one for it and another slab.
  pub eb_srv_start-Listens :
      (srv : Srv K Q) (this sfd : ℕ) (read_ok write_ok : Bool) (fuel : ℕ) (rounds : List Waited)
      (world : W) (ahead : List ℕ) (s : ℕ) (free busy : List ℕ)
      → srv.sfd ≡ pos (suc sfd)
      → Agrees epoll srv.master_base
      → srv.master_base.kides.reads ≡ true
      → suc sfd < srv.master_base.wait_sz
      → srv.master_base.read_waits (suc sfd) ≡ 0
      → srv.master_base.write_waits (suc sfd) ≡ 0
      → Valid srv.event_pool (ahead ++ (s ∷ free)) busy
      → srv.event_pool.held ≡ false
      → 0 < length (free ++ (busy ++ ahead))
      → let (reactors, world1) = reactor_pool_start reactor_threads net srv.slave_reactor world in
        let (factory, world2) = Workers.start worker_threads srv.factory world1 in
        (base : Base K Q) × (pool : Pool) × Listens this (suc sfd) s base
        × Valid pool free ((busy ++ ahead) ++ (s ∷ []))
        × (pool.held ≡ false)
        × (eb_srv_start epoll queue net reactor_threads worker_threads callback srv this
              (length ahead)
              read_ok
              write_ok
              fuel
              rounds
              world
            ≡ (loop_rounds queue callback fuel rounds (base, world2) >>= λ (base', world3). ok (
              record srv {
                status = 1;
                slave_reactor = reactors;
                factory = factory;
                event_pool = pool;
                master_base = base';
              },
              world3,
            )))
  unfolding eb_srv_start
  eb_srv_start-Listens srv this sfd read_ok write_ok fuel rounds world ahead s free busy is g reads
        fits no_read no_write v h more =
      let base = srv.master_base in
      let e = event_read (suc sfd) accept_cb this in
      let a = s + header in
      let (before, taken, v1, h1) =
        takes_lem srv.event_pool ahead (s ∷ free) busy v h (omega arith) in
      let (pool, got, v', h') = get_with_lock_lem s free (busy ++ ahead) v1 h1 more in
      let (k, c) = ctl_takes epoll accepts base e g no_read no_write in
      let (g', there) =
        registered-Agrees epoll base e a k g (λ z. omega (arith, z)) (rw reads refl) c in
      let works = add_event-registered epoll base e a read_ok write_ok k g fits (rw reads refl) c in
      let works' =
        (λ i.
          add_event epoll (at_event base a (event_read (fd_of (is i)) accept_cb this)) a read_ok
            write_ok)
        ∙ works in
      let listening : positive srv.sfd ≡ true = ap positive is in
      (
        registered epoll base e a k,
        pool,
        (g', registered_reads base (suc sfd) this a k no_read, put_self base.events a e),
        v',
        h',
        rw (listening, taken, got, works') refl,
      )
