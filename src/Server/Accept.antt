-- ===== src/Server/Accept.antt =====
-- `ebot_srv_accept`, the callback of the listening descriptor.
use ebot.Base.{
  ℕ, ◌+◌, ◌%◌, Bool, true, Option, none, some, List, [], ltb, length, get_elem?, ◌==◌,
  if◌then◌else◌, Run, ok, fault, ◌>>=◌, ℤ, pos, negsuc,
}
use ebot.Bytes.{int_bytes, int_max}
use ebot.Io.{Answer, set_nonblock}
use ebot.Server.Types.{Srv, Net, either_way, eb_connect, null}

-- `n > m`
abbrev pub exceeds : ℕ → ℤ → Bool
exceeds n (pos m) = ltb m n
exceeds n (negsuc m) = true

module _ {K Q W : Type 0} (net : Net W) where
  -- The call of the callback for `EB_CONNECT`, if there is one.
  unfoldable pub connected : Srv K Q → (fd : ℕ) → W → W
  connected srv fd world =
      if srv.callbacks eb_connect == null
      then world
      else net.call world (srv.callbacks eb_connect)
          (record { fd = fd; buf_size = 0; buf = []; udata = srv.udata })

  -- `accepted` is what `accept` gives; `gets` and `sets` are for `set_nonblock`.
  unfoldable pub ebot_srv_accept :
      Srv K Q → (accepted : Option ℕ) → (gets sets : List Answer) → W → Run (Srv K Q × W)
  unfolding connected
  ebot_srv_accept srv none gets sets world = ok (srv, world)
  ebot_srv_accept srv (some fd) gets sets world =
      if exceeds srv.total_conns srv.setting.max_connections
      then ok (srv, net.close world fd)
      else do
        flags ← set_nonblock true gets sets
        let rsz = length srv.slave_reactor
        if rsz == 0 then fault else (elim (get_elem? srv.slave_reactor (fd % rsz)) [
          | none ↦ fault
          | some r ↦
              let world = either_way world (net.pipe_write world r.pipe_out (int_bytes fd)) in
              let world = connected srv fd world in
              if srv.total_conns == int_max
              then fault
              else ok (record srv { total_conns = srv.total_conns + 1 }, world)
        ])
