-- ===== src/Server/Ending.antt =====
-- `eb_srv_destroy` of a server that `eb_srv_start` has started.
use ebot.Base.{
  ℕ, ◌≡◌, ◌≢◌, refl, ap, ◌∙◌, some, List, [], ◌∷◌, if◌then◌else◌, Run, Returns, Returns-bind, ok,
  ne→not_==, ℤ, positive,
}
use ebot.Event.{Base}
use ebot.Event.System.{Epoll, TailQueue}
use ebot.Ring.{Ringq}
use ebot.Ring.Locked.{destroy}
use ebot.Server.Reactors
use ebot.Server.Reactors.{
  Threads, reactor_pool_start, reactor_pool_stop, reactor_pool_destroy, ebot_destroy,
}
use ebot.Server.Run.{close_all, close_int, eb_srv_destroy}
use ebot.Server.Types.{Reactor, Srv, Net}
use ebot.Workers
use ebot.Workers.{Wunit, Wpool, start_units, stop_units, lower, destory_units, destory}
use ebot.Workers.Pool.{Made}

-- Each unit has its ring.
abbrev pub Ringed : List Wunit → Type 0
Ringed [] = Unit
Ringed (u ∷ us) = ((rq : Ringq) × (u.rq ≡ some rq)) × Ringed us

-- The event descriptors of the units.
abbrev pub opened : List Wunit → List ℤ
opened [] = []
opened (u ∷ us) = if positive u.efd then u.efd ∷ opened us else opened us

destory_units-Ringed : (us : List Wunit) → Ringed us → destory_units us ≡ ok (opened us)
unfolding destory_units destroy
destory_units-Ringed [] h = refl
destory_units-Ringed (u ∷ us) ((rq, has), rest) = rw (has, destory_units-Ringed us rest) refl

abbrev pub bases_of : {K Q : Type 0} → List (Reactor K Q) → List (Base K Q)
bases_of [] = []
bases_of (r ∷ rs) = r.base ∷ bases_of rs

-- The descriptors of `epoll` are closed.
abbrev pub close_bases : {K Q W : Type 0} → Net W → List (Base K Q) → W → W
close_bases net [] world = world
close_bases net (eb ∷ rest) world = close_bases net rest (net.close world eb.epfd)

reactor_pool_destroy_lem :
    {K Q W : Type 0} (net : Net W) (rs : List (Reactor K Q)) (world : W)
    → reactor_pool_destroy net rs world ≡ close_bases net (bases_of rs) world
unfolding reactor_pool_destroy ebot_destroy
reactor_pool_destroy_lem net [] world = refl
reactor_pool_destroy_lem net (r ∷ rs) world =
    reactor_pool_destroy_lem net rs (net.close world r.base.epfd)

module _ {W : Type 0} (threads : Workers.Threads W)
    (made : (w : W) (u : Wunit)
      → (tid : ℕ) × (w' : W) × (tid ≢ 0) × (threads.create w u ≡ (some tid, w')))
    (ends : (w : W) (tid : ℕ) → Returns (λ _. Unit) (threads.join w tid)) where
  -- Starting the units makes their threads, and leaves their rings and descriptors.
  start_units-Ringed :
      (us : List Wunit) (world : W)
      → Ringed us
      → let (us', world') = start_units threads us world in
        Made us' × Ringed us' × (opened us' ≡ opened us)
  unfolding start_units
  start_units-Ringed [] world h = (tt, tt, refl)
  start_units-Ringed (u ∷ us) world (has, h) =
      let (tid, world', t, e) = made world (record u { status = 1 }) in
      let (m, r, o) = start_units-Ringed us world' h in
      rw e ((t, m), (has, r), ap (λ l. if positive u.efd then u.efd ∷ l else l) o)

  stop_units-Ringed :
      (us : List Wunit) (world : W)
      → Made us
      → Ringed us
      → Returns
          (λ (done, us', world'). Ringed us' × (opened us' ≡ opened us))
          (stop_units threads us world)
  unfolding stop_units
  stop_units-Ringed [] world m h = (tt, refl)
  stop_units-Ringed (u ∷ us) world (t, m) (has, h) = rw (ne→not_== u.tid 0 t) (
      Returns-bind _ _ (threads.join (lower threads u.status u.efd world).1 u.tid) _
        (ends (lower threads u.status u.efd world).1 u.tid)
        λ world' _.
          Returns-bind _ _ (stop_units threads us world') _ (stop_units-Ringed us world' m h)
            λ (done, us', w) (r, o).
              ((has, r), ap (λ l. if positive u.efd then u.efd ∷ l else l) o))

module _ {K Q W : Type 0} (epoll : Epoll K) (queue : TailQueue Q) (net : Net W)
    (reactor_threads : Reactors.Threads K Q W) (worker_threads : Workers.Threads W)
    (callback : (cb fd arg : ℕ) → Base K Q × W → Run (Base K Q × W))
    (made : (w : W) (u : Wunit)
      → (tid : ℕ) × (w' : W) × (tid ≢ 0) × (worker_threads.create w u ≡ (some tid, w')))
    (ends : (w : W) (tid : ℕ) → Returns (λ _. Unit) (worker_threads.join w tid))
    (reactor_ends : (w : W) (tid : ℕ) → Returns (λ _. Unit) (reactor_threads.join w tid)) where
  reactor_pool_stop-Returns :
      (rs : List (Reactor K Q)) (world : W)
      → Returns
          (λ (rs', world'). bases_of rs' ≡ bases_of rs)
          (reactor_pool_stop reactor_threads net rs world)
  unfolding reactor_pool_stop
  reactor_pool_stop-Returns [] world = refl
  reactor_pool_stop-Returns (r ∷ rs) world =
      Returns-bind _ _
        (reactor_threads.join (net.close (net.close world r.pipe_in) r.pipe_out) r.tid) _
        (reactor_ends (net.close (net.close world r.pipe_in) r.pipe_out) r.tid)
        λ world' _.
          Returns-bind _ _ (reactor_pool_stop reactor_threads net rs world') _
            (reactor_pool_stop-Returns rs world') λ (rs', w) e. ap (λ l. r.base ∷ l) e

  stop_destory :
      (wp : Wpool) (world later : W)
      → Ringed wp.units
      → let (wp', world') = Workers.start worker_threads wp world in
        Returns
          (λ (wp'', world''). destory wp'' ≡ ok (opened wp.units))
          (Workers.stop worker_threads wp' later)
  unfolding Workers.start Workers.stop destory
  stop_destory wp world later h =
      let (m, r, o) = start_units-Ringed worker_threads made ends wp.units world h in
      let (units, world') = start_units worker_threads wp.units world in
      Returns-bind _ _ (stop_units worker_threads units later) _
        (stop_units-Ringed worker_threads made ends units later m r)
        λ (done, us, w) (r', o'). destory_units-Ringed us r' ∙ ap ok (o' ∙ o)

  -- `eb_srv_destroy` of a server whose workers have been started comes to its end, where each
  -- thread can be made and comes to its end: the last things that it does are to close the
  -- descriptor of `epoll` of each reactor and the event descriptor of each worker, in their order,
  -- the descriptor on which the server listened, and the one of `epoll` of its own base.
  pub start-destroy :
      (srv : Srv K Q) (world later : W)
      → Ringed srv.factory.units
      → let (factory, world') = Workers.start worker_threads srv.factory world in
        Returns
          (λ end.
            (w : W) × (end
              ≡ net.close
                  (close_int epoll queue net reactor_threads worker_threads callback srv.sfd (
                    close_all epoll queue net reactor_threads worker_threads callback
                      (opened srv.factory.units)
                      (close_bases net (bases_of srv.slave_reactor) w)))
                  srv.master_base.epfd))
          (eb_srv_destroy epoll queue net reactor_threads worker_threads callback
            (record srv { factory = factory })
            later)
  unfolding eb_srv_destroy ebot_destroy
  start-destroy srv world later h =
      let (factory, world') = Workers.start worker_threads srv.factory world in
      Returns-bind _ _ (reactor_pool_stop reactor_threads net srv.slave_reactor later) _
        (reactor_pool_stop-Returns srv.slave_reactor later)
        λ (rs, w1) same.
          Returns-bind _ _ (Workers.stop worker_threads factory w1) _
            (stop_destory srv.factory world w1 h)
            λ (wp, w2) e. rw (e, reactor_pool_destroy_lem net rs w2, same) (w2, refl)
