-- ===== src/Server/Closed.antt =====
-- The end of a connection, from `recv` in a reactor to the callback of the user in a worker.
use ebot.Base.{
  ℕ, ◌%◌, ◌^◌, ◌<◌, ◌≡◌, refl, true, false, some, List, [], arith, length, get_elem?, set,
  get_elem?-some, get_elem?-set, Returns, Returns-bind, ok, ne→not_==, Bag,
}
use ebot.Event.System.{Epoll, Obeys, read_only, write_only}
use ebot.Event.Tables.{Agrees}
use ebot.Io.{got}
use ebot.Pool.Moves.{Has}
use ebot.Ring.{Ringq}
use ebot.Ring.Layout.{Holds}
use ebot.Server.Client.{client_read_callback, hang_up}
use ebot.Server.Factory.{eb_srv_factory_exec}
use ebot.Server.Handover.{hand_over-stored}
use ebot.Server.Hangup.{Waits, freed, Parted, hang_up-Parted}
use ebot.Server.Pack.{pack_size}
use ebot.Server.Path.{told, factory_exec-pack}
use ebot.Server.Types.{Reactor, Srv, Net, either_way}
use ebot.Workers.{Wunit}

module _ {K Q W : Type 0} (epoll : Epoll K) (net : Net W) (obeys : Obeys epoll) where
  -- What a worker does next with its unit `u` and the server: the user is told of the end of `fd`.
  abbrev pub Tells : (u : Wunit) (srv srv' : Srv K Q) (junk : List ℕ) (fd : ℕ) → W → Type 0
  Tells u srv srv' junk fd world =
      (rq' : Ringq) × (rq'' : Ringq) × (get_elem? srv'.factory.units (fd % length srv.factory.units)
        ≡ some (record u { rq = some rq' }))
      × (eb_srv_factory_exec net (record u { rq = some rq' }) srv' junk world
          ≡ ok (record u { rq = some rq'' }, told net srv fd [] world))
      × Holds rq'' []

  -- Where `recv` says that a client has closed its connection, and the ring of its unit is empty,
  -- with room and a free lock, `reactor_pool_client_read_callback` comes to its end with the events
  -- of the descriptor out of the base of the reactor, whose tables still agree with the kernel,
  -- with their slabs free again in the pool of events, and with the unit signalled; and the next
  -- round of the unit calls the user's callback for `EB_CLOSE` with that descriptor. The kernel is
  -- assumed to change or delete an entry that is there.
  pub client_read-Parted :
      (r : Reactor K Q) (srv : Srv K Q) (fd : ℕ) (world : W) (u : Wunit) (rq : Ringq)
      (junk : List ℕ) (free rest : Bag)
      → Agrees epoll r.base
      → fd < r.base.wait_sz
      → Waits r.base read_only fd (r.base.read_waits fd)
      → Waits r.base write_only fd (r.base.write_waits fd)
      → Has free (freed (r.base.read_waits fd) (freed (r.base.write_waits fd) rest)) srv.event_pool
      → get_elem? srv.factory.units (fd % length srv.factory.units) ≡ some u
      → u.rq ≡ some rq
      → Holds rq []
      → rq.use_lock ≡ true
      → rq.held ≡ false
      → 140 < rq.size
      → fd < 2 ^ 31
      → length junk ≡ pack_size
      → Returns
          (λ (r', srv', world').
            Parted epoll net fd r.base r'.base
            × Has
                (freed (r.base.write_waits fd) (freed (r.base.read_waits fd) free))
                rest
                srv'.event_pool
            × (world' ≡ either_way world (net.efd_write world u.efd 1))
            × Tells u srv srv' junk fd world')
          (client_read_callback epoll net r srv fd (got []) world)
  unfolding client_read_callback
  client_read-Parted r srv fd world u rq junk free rest g fits reads writes has unit its v locked
        unheld room small buffer =
      let id = fd % length srv.factory.units in
      let world' = either_way world (net.efd_write world u.efd 1) in
      rw (ne→not_== (length srv.factory.units) 0 (get_elem?-some srv.factory.units id u unit)) (
        Returns-bind _ _ (hang_up epoll net r.base srv.event_pool fd) _
          (hang_up-Parted epoll net obeys r.base fd g fits srv.event_pool free rest reads writes
            has)
          λ (base, pool) (parted, has').
            let srv1 : Srv K Q = record srv { event_pool = pool } in
            let (rq', holds, locked', free', done) =
              hand_over-stored net epoll srv1 id fd [] world u rq [] (omega arith) unit its v locked
                unheld (omega (arith, room)) in
            let srv2 : Srv K Q = record srv1 {
              factory = record (srv.factory) {
                units = set srv.factory.units id (record u { rq = some rq' });
              };
            } in
            let (rq'', left, told_it) =
              factory_exec-pack net (record u { rq = some rq' }) srv2 junk world' rq' fd [] [] refl
                holds locked' free' buffer small (omega arith) in
            rw done (
              parted,
              has',
              refl,
              (rq', rq'', get_elem?-set srv.factory.units id u _ unit, told_it, left),
            ))
