-- ===== src/Server/Client.antt =====
-- The callbacks of a reactor: reading from a client, writing to one, and taking a new client from
-- the pipe.
use ebot.Base.{
  ℕ, zero, suc, ◌%◌, Bool, true, false, not, none, some, List, [], length, get_elem?, set, ◌==◌,
  if◌then◌else◌, Run, ok, fault, ◌>>=◌, pos, negsuc,
}
use ebot.Event.{Base, Event, put, event_read, event_write, read_wait, write_wait}
use ebot.Event.Ctl.{add_event, del_event}
use ebot.Event.System.{Epoll}
use ebot.Io.{Recv, got, no_data, recv_error, readn}
use ebot.Pool.{Pool, get_with_lock, put_with_lock}
use ebot.Ring.Locked.{push_with_lock}
use ebot.Server.Pack.{pack, pack_size}
use ebot.Server.Types.{Reactor, Srv, Net, either_way, eb_write, null}

-- The callbacks of a reactor, as the numbers that its events have.
abbrev pub client_read : ℕ
client_read = 1

abbrev pub client_write : ℕ
client_write = 2

abbrev pub pipe_read : ℕ
pipe_read = 3

-- What `read` of the pipe gives: a descriptor, the end of the pipe, or an error. At the end `fd`
-- has no value.
pub data Piped : Type 0 where
  piped : ℕ → Piped
  pipe_end pipe_error : Piped

-- `data.buf` is 0 but for what `recv` has put there, and `data.len` is 0 where it gave no bytes.
abbrev pub received : Recv → List ℕ
received (got bytes) = bytes
received no_data = []
received recv_error = []

module _ {K Q W : Type 0} (epoll : Epoll K) (net : Net W) where
  -- What the code does with each of the two events of a connection that is closed.
  unfoldable pub retire : Base K Q → Pool → ℕ → Run (Base K Q × Pool)
  retire base pool a =
      if a == null
      then ok (base, pool)
      else do (done, base) ← del_event epoll base a; pool ← put_with_lock pool a; ok (base, pool)

  unfoldable pub hang_up : Base K Q → Pool → ℕ → Run (Base K Q × Pool)
  unfolding retire read_wait write_wait
  hang_up base pool fd = do
    a ← read_wait base fd
    (base, pool) ← retire base pool a
    b ← write_wait base fd
    retire base pool b

  -- The push into the ring of the unit `id`, and the `write` to its event descriptor.
  unfoldable pub hand_over : Srv K Q → ℕ → List ℕ → W → Run (Srv K Q × W)
  hand_over srv id bytes world = elim (get_elem? srv.factory.units id) [
    | none ↦ fault
    | some u ↦ elim u.rq [
      | none ↦ fault
      | some rq ↦ (do
        (done, rq) ← push_with_lock rq bytes pack_size
        let units = set srv.factory.units id (record u { rq = some rq })
        let srv : Srv K Q = record srv { factory = record (srv.factory) { units = units } }
        ok (srv, if done then either_way world (net.efd_write world u.efd 1) else world))
    ]
  ]

  -- `reactor_pool_client_read_callback`
  unfoldable pub client_read_callback :
      Reactor K Q → Srv K Q → (fd : ℕ) → Recv → W → Run (Reactor K Q × Srv K Q × W)
  unfolding hang_up hand_over
  client_read_callback r srv fd recv world =
      let num = length srv.factory.units in
      if num == 0 then fault else elim (readn recv) [
        | negsuc zero ↦ ok (r, srv, world)
        | negsuc (suc e) ↦ (do
          (base, pool) ← hang_up r.base srv.event_pool fd
          (srv, world) ←
              hand_over (record srv { event_pool = pool }) (fd % num) (pack fd (received recv))
                world
          ok (record r { base = base }, srv, world))
        | pos n ↦ (do
          (srv, world) ← hand_over srv (fd % num) (pack fd (received recv)) world
          ok (r, srv, world))
      ]

  -- `reacto_pool_client_write_callback`
  unfoldable pub client_write_callback : Srv K Q → (fd : ℕ) → W → W
  client_write_callback srv fd world =
      if srv.callbacks eb_write == null
      then world
      else net.call world (srv.callbacks eb_write)
          (record { fd = fd; buf_size = 0; buf = []; udata = srv.udata })

  -- An event from the pool is filled in and registered, and goes back if that fails. The result
  -- says whether the pool had one. The flags are the results of `realloc` in `ebot_add_event`.
  unfoldable pub watch :
      Base K Q → Pool → Event → (read_ok write_ok : Bool) → Run (Bool × Base K Q × Pool)
  watch base pool e read_ok write_ok = do
    (slab, pool) ← get_with_lock pool
    elim slab [
      | none ↦ ok (false, base, pool)
      | some a ↦ (do
        (done, base) ←
            add_event epoll (record base { events = put base.events a e }) a read_ok write_ok
        if done
            then ok (true, base, pool)
            else (do pool ← put_with_lock pool a; ok (true, base, pool)))
    ]

  -- `reactor_pool_pipe_callback`
  unfoldable pub pipe_callback :
      Reactor K Q → (this : ℕ) → Pool → Piped → (read_ok write_ok : Bool) → Run (Reactor K Q × Pool)
  unfolding watch
  pipe_callback r this pool pipe_error read_ok write_ok = ok (r, pool)
  pipe_callback r this pool pipe_end read_ok write_ok = fault
  pipe_callback r this pool (piped fd) read_ok write_ok = do
    (had, base, pool) ← watch r.base pool (event_read fd client_read this) read_ok write_ok
    if not had then ok (record r { base = base }, pool) else (do
      (had, base, pool) ← watch base pool (event_write fd client_write this) read_ok write_ok
      ok (record r { base = base }, pool))
