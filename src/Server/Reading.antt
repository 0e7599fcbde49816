-- ===== src/Server/Reading.antt =====
-- What reading from a client does to a reactor that serves it.
use std.Path.{subst}
use ebot.Base.{
  ℕ, ◌%◌, ◌≤◌, ◌≡◌, ◌≢◌, refl, sym, Bool, true, false, List, [], ◌∷◌, ◌++◌, arith, Bag, insert,
  length, Returns, Returns-bind, Returns-map, ne→not_==,
}
use ebot.Event.{Base}
use ebot.Event.System.{Epoll, Obeys}
use ebot.Io.{Recv, got, no_data, recv_error}
use ebot.Server.Client.{client_read_callback, received, hang_up, hand_over}
use ebot.Server.Clients.{Client, Serves}
use ebot.Server.Leaving.{hang_up_client}
use ebot.Server.Manned.{AllManned, hand_over-AllManned}
use ebot.Server.Pack.{pack, length-pack}
use ebot.Server.Types.{Reactor, Srv, Net}

-- `recv` says that the peer has closed.
abbrev pub closed : Recv → Bool
closed (got []) = true
closed _ = false

module _ {K Q W : Type 0} (epoll : Epoll K) (net : Net W) where
  -- The units of a server are the same ones as before, with rings in order.
  abbrev pub AtWork : Srv K Q → Srv K Q → Type 0
  AtWork srv srv' =
      AllManned srv'.factory.units × (length srv'.factory.units ≡ length srv.factory.units)

  abbrev StaysAs : Base K Q → Srv K Q → Reactor K Q × Srv K Q × W → Type 0
  StaysAs eb srv (r', srv', world') =
      (r'.base ≡ eb) × (srv'.event_pool ≡ srv.event_pool) × AtWork srv srv'

  module _ (r : Reactor K Q) (srv : Srv K Q) (fd : ℕ) (world : W) (m : AllManned srv.factory.units)
      (some_unit : length srv.factory.units ≢ 0) where
    handed :
        (pool : _) (bytes : List ℕ)
        → length bytes ≤ 128
        → Returns
            (λ (srv', world'). AtWork srv srv' × (srv'.event_pool ≡ pool))
            (hand_over epoll net
              (record srv { event_pool = pool })
              (fd % length srv.factory.units)
              (pack fd bytes)
              world)
    handed pool bytes few =
        Returns-map
          (hand_over epoll net (record srv { event_pool = pool }) (fd % length srv.factory.units)
            (pack fd bytes) world)
          (λ (srv', world') (m', same, p). ((m', same), p))
          (hand_over-AllManned epoll net (record srv { event_pool = pool })
            (fd % length srv.factory.units) (pack fd bytes) world (omega (arith, some_unit)) m
            (length-pack fd bytes few))

    -- Whatever `recv` gives while the connection is open, the reactor and the pool stay as they
    -- are.
    pub client_read_open :
        (recv : Recv)
        → closed recv ≡ false
        → length (received recv) ≤ 128
        → Returns (StaysAs r.base srv) (client_read_callback epoll net r srv fd recv world)
    unfolding client_read_callback
    client_read_open (got []) opened few = cc
    client_read_open (got (b ∷ bytes)) opened few =
        rw (ne→not_== (length srv.factory.units) 0 some_unit) (
          Returns-bind _ _
            (hand_over epoll net srv (fd % length srv.factory.units) (pack fd (b ∷ bytes)) world) _
            (handed srv.event_pool (b ∷ bytes) few) λ (srv', world') (work, p). (refl, p, work))
    client_read_open no_data opened few = rw (ne→not_== (length srv.factory.units) 0 some_unit) (
        Returns-bind _ _
          (hand_over epoll net srv (fd % length srv.factory.units) (pack fd []) world) _
          (handed srv.event_pool [] few) λ (srv', world') (work, p). (refl, p, work))
    client_read_open recv_error opened few =
        rw (ne→not_== (length srv.factory.units) 0 some_unit) (refl, refl, (m, refl))

    -- Where it says that the connection is closed, the client leaves.
    pub client_read_closed :
        (obeys : Obeys epoll) (this : ℕ) (start : Base K Q) (cs l : List Client) (c : Client)
        (rest : List Client) (free others : Bag)
        → cs ≡ l ++ (c ∷ rest)
        → c.fd ≡ fd
        → Serves this start epoll cs free others r.base srv.event_pool
        → Returns
            (λ (r', srv', world').
              Serves this start epoll
                (l ++ rest)
                (insert c.writes (insert c.reads free))
                others
                r'.base
                srv'.event_pool
              × (r'.base.events ≡ r.base.events)
              × AtWork srv srv')
            (client_read_callback epoll net r srv fd (got []) world)
    unfolding client_read_callback
    client_read_closed obeys this start cs l c rest free others e here v =
        let Left : Base K Q → _ → Type 0 = λ eb' mp'.
          Serves this start epoll (l ++ rest) (insert c.writes (insert c.reads free)) others eb'
            mp' in
        rw (ne→not_== (length srv.factory.units) 0 some_unit) (
          Returns-bind _ _ (hang_up epoll net r.base srv.event_pool fd) _
            (hang_up_client epoll net obeys this start cs l c rest fd free others r.base
              srv.event_pool e here v)
            λ (eb', mp') (v', same).
              Returns-bind _ _
                (hand_over epoll net (record srv { event_pool = mp' })
                  (fd % length srv.factory.units) (pack fd []) world)
                _ (handed mp' [] (omega arith))
                λ (srv', world') (work, p). (subst (Left eb') (sym p) v', same, work))
