-- ===== src/Server/Count.antt =====
-- The number of connections that a server counts.
use ebot.Base.{
  ℕ, ◌+◌, ◌%◌, ◌<◌, ◌≤◌, ◌≡◌, refl, true, some, arith, ltb, length, get_elem?, Returns, inl, inr,
  Bool-cases, ltb→lt, get_elem?-some, Returns-bind, not_ltb→le, ne→not_==, pos,
}
use ebot.Bytes.{int_max, int_bytes}
use ebot.Io.{set_nonblock}
use ebot.Io.Flags.{at_last, set_nonblock_ends}
use ebot.Server.Accept.{ebot_srv_accept, connected}
use ebot.Server.Types.{Reactor, Srv, Net, either_way}

module _ {K Q W : Type 0} (net : Net W) where
  -- `ebot_srv_accept` takes a connection where no more than `max_connections` are counted: it is
  -- counted, and its descriptor goes to the pipe of the reactor `fd % rsz`. Else it is closed at
  -- once. So the count stays at most one above `max_connections`, which it can reach.
  pub accept_lem :
      (srv : Srv K Q) (fd opts n m r most : ℕ) (reactor : Reactor K Q) (world : W)
      → srv.setting.max_connections ≡ pos most
      → most < int_max
      → srv.total_conns ≤ most + 1
      → get_elem? srv.slave_reactor (fd % length srv.slave_reactor) ≡ some reactor
      → Returns
          (λ (srv', world').
            (srv'.total_conns ≤ most + 1)
            × (srv.total_conns ≤ most
                → (srv'.total_conns ≡ srv.total_conns + 1)
                  × (world'
                      ≡ connected net srv fd (
                          either_way world (net.pipe_write world reactor.pipe_out (int_bytes fd)))))
            × (most < srv.total_conns → (srv' ≡ srv) × (world' ≡ net.close world fd)))
          (ebot_srv_accept net srv (some fd) (at_last n opts) (at_last m r) world)
  unfolding ebot_srv_accept
  accept_lem srv fd opts n m r most reactor world limit small below there =
      let rsz = length srv.slave_reactor in
      elim (Bool-cases (ltb most srv.total_conns)) [
        | inl over ↦
            rw (limit, over)
              (below, (λ h. absurd (omega (arith, h, ltb→lt _ _ over))), λ h. (refl, refl))
        | inr under ↦
            let few : srv.total_conns ≤ most = not_ltb→le most srv.total_conns under in
            rw
              (
                limit,
                under,
                ne→not_== rsz 0 (get_elem?-some srv.slave_reactor (fd % rsz) reactor there),
                there,
                ne→not_== srv.total_conns int_max (λ e. omega (arith, e, few, small)),
              )
              (Returns-bind _ _ (set_nonblock true (at_last n opts) (at_last m r)) _
                (set_nonblock_ends true opts n m r)
                (λ flags _.
                  (omega (arith, few), (λ h. (refl, refl)), λ h. absurd (omega (arith, h, few)))))
      ]
