-- ===== src/Server/Path.antt =====
-- The way of a message from a client to the callback of the user.
use ebot.Base.{
  ℕ, ◌+◌, ◌-◌, ◌%◌, ◌^◌, ◌<◌, ◌≤◌, ◌≡◌, refl, sym, ap, ◌∙◌, true, false, some, List, [], ◌∷◌, ◌++◌,
  arith, length, get_elem?, set, get_elem?-some, get_elem?-set, drop_all, replicate, ◌==◌,
  if◌then◌else◌, ok, ne→not_==, le→leb, pos,
}
use mathlib.Core.List.{append-nil}
use ebot.Event.System.{Epoll}
use ebot.Io.{Recv, readn}
use ebot.Ring.{Ringq, pop}
use ebot.Ring.Layout.{Holds}
use ebot.Ring.Queue.{used}
use ebot.Ring.Pop.{pop-stored, over, behind}
use ebot.Ring.Locked.{pop_with_lock, pop_with_lock-eq-pop}
use ebot.Server.Handover.{hand_over-stored}
use ebot.Server.Client.{client_read_callback, received}
use ebot.Server.Factory.{eb_srv_factory_exec, deliver}
use ebot.Server.Pack.{pack, pack_size, length-pack, unpack-pack}
use ebot.Server.Types.{Reactor, Srv, Net, Stream, either_way, eb_recv, eb_close, null}
use ebot.Workers.{Wunit}

over_whole : (x out : List ℕ) → length x ≡ length out → over x out ≡ x
over_whole x out h = rw (drop_all (length x) out (omega (arith, h))) (append-nil x)

-- The stream that a package of the bytes makes.
abbrev pub stream_of : (fd : ℕ) (bytes : List ℕ) (udata : ℕ) → Stream
stream_of fd bytes udata = record {
  fd = fd;
  buf_size = length bytes;
  buf = bytes ++ replicate (128 - length bytes) 0;
  udata = udata;
}

module _ {K Q W : Type 0} (net : Net W) where
  -- The call of the user's callback for the bytes of a client: that for `EB_RECV`, or for
  -- `EB_CLOSE` where there are none; nothing where there is no callback.
  abbrev pub told : Srv K Q → (fd : ℕ) (bytes : List ℕ) → W → W
  told srv fd bytes world =
      let e = (if length bytes == 0 then eb_close else eb_recv) in
      if srv.callbacks e == null
      then world
      else net.call world (srv.callbacks e) (stream_of fd bytes srv.udata)

  deliver-pack :
      (srv : Srv K Q) (fd : ℕ) (bytes : List ℕ) (world : W)
      → fd < 2 ^ 31
      → length bytes ≤ 128
      → deliver net srv (pack fd bytes) world ≡ ok (told srv fd bytes world)
  unfolding deliver
  deliver-pack srv fd bytes world small few =
      let (same_fd, same_len, same_buf) = unpack-pack fd bytes small few in
      rw (same_fd, same_len, same_buf, le→leb (length bytes) 128 few) refl

  -- `eb_srv_factory_exec` on a ring whose oldest package is that of a client's bytes calls the
  -- callback with the descriptor and the bytes, and takes the package out of the ring.
  pub factory_exec-pack :
      (u : Wunit) (srv : Srv K Q) (junk : List ℕ) (world : W) (rq : Ringq) (fd : ℕ) (bytes : List ℕ)
      (rest : List (List ℕ))
      → u.rq ≡ some rq
      → Holds rq (pack fd bytes ∷ rest)
      → rq.use_lock ≡ true
      → rq.held ≡ false
      → length junk ≡ pack_size
      → fd < 2 ^ 31
      → length bytes ≤ 128
      → (rq' : Ringq) × Holds rq' rest
        × (eb_srv_factory_exec net u srv junk world
            ≡ ok (record u { rq = some rq' }, told srv fd bytes world))
  unfolding eb_srv_factory_exec
  factory_exec-pack u srv junk world rq fd bytes rest has v locked free room small few =
      let size : length (pack fd bytes) ≡ 136 = length-pack fd bytes few in
      let (popped, left) = pop-stored v junk (omega (arith, size, room)) in
      let rq' = behind rq (length (pack fd bytes)) in
      let gone : pop_with_lock rq junk 136 ≡ ok (true, pack fd bytes, rq') =
        pop_with_lock-eq-pop rq junk 136 locked free
        ∙ ap (pop rq junk) (sym size)
        ∙ popped
        ∙ ap (λ y. ok (true, y, rq')) (over_whole (pack fd bytes) junk (size ∙ sym room)) in
      (rq', left, rw (has, gone, deliver-pack srv fd bytes world small few) refl)

  -- `reactor_pool_client_read_callback` with bytes of a client, or with none while the connection
  -- is open, puts a package behind those in the ring of the unit `fd % num` and signals the unit,
  -- where the ring has a lock that is free, and room.
  pub client_read-stored :
      (epoll : Epoll K) (r : Reactor K Q) (srv : Srv K Q) (fd n : ℕ) (recv : Recv) (world : W)
      (u : Wunit) (rq : Ringq) (xs : List (List ℕ))
      → readn recv ≡ pos n
      → length (received recv) ≤ 128
      → get_elem? srv.factory.units (fd % length srv.factory.units) ≡ some u
      → u.rq ≡ some rq
      → Holds rq xs
      → rq.use_lock ≡ true
      → rq.held ≡ false
      → used xs + 140 < rq.size
      → (rq' : Ringq) × Holds rq' (xs ++ (pack fd (received recv) ∷ []))
        × (rq'.use_lock ≡ true)
        × (rq'.held ≡ false)
        × (client_read_callback epoll net r srv fd recv world
            ≡ ok (
              r,
              record srv {
                factory = record (srv.factory) {
                  units =
                      set srv.factory.units
                        (fd % length srv.factory.units)
                        (record u { rq = some rq' });
                };
              },
              either_way world (net.efd_write world u.efd 1),
            ))
  unfolding client_read_callback
  client_read-stored epoll r srv fd n recv world u rq xs came few unit has v locked free room =
      let id = fd % length srv.factory.units in
      let (rq', holds, locked', free', done) =
        hand_over-stored net epoll srv id fd (received recv) world u rq xs few unit has v locked
          free room in
      let some_ =
        ne→not_== (length srv.factory.units) 0 (get_elem?-some srv.factory.units id u unit) in
      (rq', holds, locked', free', rw (some_, came, done) refl)

  -- From the client to the user: behind a `reactor_pool_client_read_callback` that finds the ring
  -- of its unit empty, with room and a free lock, and gets at most 128 bytes, one round of the unit
  -- calls the user's callback with the bytes that `recv` gave. Where `recv` gave none on an open
  -- connection, that is the callback for `EB_CLOSE`.
  pub client_read-told :
      (epoll : Epoll K) (r : Reactor K Q) (srv : Srv K Q) (fd n : ℕ) (recv : Recv) (world : W)
      (u : Wunit) (rq : Ringq) (junk : List ℕ)
      → readn recv ≡ pos n
      → length (received recv) ≤ 128
      → get_elem? srv.factory.units (fd % length srv.factory.units) ≡ some u
      → u.rq ≡ some rq
      → Holds rq []
      → rq.use_lock ≡ true
      → rq.held ≡ false
      → 140 < rq.size
      → fd < 2 ^ 31
      → length junk ≡ pack_size
      → (rq' : Ringq) × (srv' : Srv K Q) × (rq'' : Ringq) × (client_read_callback epoll net r srv fd
            recv world
          ≡ ok (r, srv', either_way world (net.efd_write world u.efd 1)))
        × (get_elem? srv'.factory.units (fd % length srv.factory.units)
            ≡ some (record u { rq = some rq' }))
        × (eb_srv_factory_exec net
              (record u { rq = some rq' })
              srv'
              junk
              (either_way world (net.efd_write world u.efd 1))
            ≡ ok (
              record u { rq = some rq'' },
              told srv fd (received recv) (either_way world (net.efd_write world u.efd 1)),
            ))
        × Holds rq'' []
  client_read-told epoll r srv fd n recv world u rq junk came few unit has v locked free room small
        buffer =
      let (rq', holds, locked', free', read) =
        client_read-stored epoll r srv fd n recv world u rq [] came few unit has v locked free
          (omega (arith, room)) in
      let srv' : Srv K Q = record srv {
        factory = record (srv.factory) {
          units =
              set srv.factory.units (fd % length srv.factory.units) (record u { rq = some rq' });
        };
      } in
      let world' = either_way world (net.efd_write world u.efd 1) in
      let (rq'', left, told_it) =
        factory_exec-pack (record u { rq = some rq' }) srv' junk world' rq' fd (received recv) []
          refl holds locked' free' buffer small few in
      (
        rq',
        srv',
        rq'',
        read,
        get_elem?-set srv.factory.units (fd % length srv.factory.units) u _ unit,
        told_it,
        left,
      )
