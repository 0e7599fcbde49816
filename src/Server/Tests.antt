-- ===== src/Server/Tests.antt =====
-- A server with two workers and a reactor: runs of its code, and its theorems.
use ebot.Base.{
  ℕ, ◌+◌, ◌<◌, ◌≤◌, ◌≡◌, refl, true, false, Option, none, some, List, [], ◌∷◌, arith, get_elem?,
  length, take, replicate, Returns, ok, pos,
}
use ebot.Event.{Base, event_read}
use ebot.Event.Instances.{epoll}
use ebot.Event.System.{Mask}
use ebot.Io.{no_data, value}
use ebot.Pool.{Pool}
use ebot.Server.Instances.{ring, ring-Holds, unit, net, means, means-Plenty}
use ebot.Ring.{Ringq}
use ebot.Ring.Layout.{Holds}
use ebot.Server.Accept.{ebot_srv_accept, connected}
use ebot.Server.Client.{client_read_callback}
use ebot.Server.Count.{accept_lem}
use ebot.Server.Factory.{eb_srv_factory_exec}
use ebot.Server.Pack.{pack, pack_fd, pack_len, pack_buf, unpack-pack}
use ebot.Server.Path.{told, client_read-told}
use ebot.Server.New.{fresh_base, fresh_reactors, new-AllReady}
use ebot.Server.Ready.{AllReady}
use ebot.Pool.Valid.{Valid}
use ebot.Server.Setup.{eb_default_setting, eb_srv_new}
use ebot.Server.Types.{Reactor, Srv, either_way}

abbrev base : Base (ℕ → Option Mask) (List ℕ)
base = record {
  epfd = 3;
  kides = record { reads = true; writes = true };
  epsz = 1024;
  wait_sz = 1024;
  read_waits = λ _. 0;
  read_room = 1024;
  write_waits = λ _. 0;
  write_room = 1024;
  kernel = λ _. none;
  event_readies = [];
  events = λ _. event_read 0 0 0;
}

abbrev reactor : Reactor (ℕ → Option Mask) (List ℕ)
reactor = record { id = 1; tid = 1; base = base; srv = 9; pipe_in = 20; pipe_out = 21; status = 1 }

abbrev pool : Pool
pool = record {
  mem = 100;
  size = 0;
  head = 0;
  tail = 0;
  slab_num = 0;
  slab_size = 48;
  slab_used = 0;
  slabs = λ _. record { used = false; prev = 0; next = 0 };
  held = false;
}

abbrev srv : Srv (ℕ → Option Mask) (List ℕ)
srv = record {
  setting = eb_default_setting;
  udata = 5;
  event_pool = pool;
  master_base = base;
  slave_reactor = reactor ∷ [];
  factory = record { units = unit ∷ unit ∷ []; status = 1 };
  total_conns = 3;
  sfd = pos 4;
  status = 1;
  callbacks = λ e. e + 1;
}

run_unpack-pack :
    (pack_fd (pack 9 (65 ∷ 66 ∷ [])) ≡ 9)
    × (pack_len (pack 9 (65 ∷ 66 ∷ [])) ≡ 2)
    × (take 2 (pack_buf (pack 9 (65 ∷ 66 ∷ []))) ≡ 65 ∷ 66 ∷ [])
run_unpack-pack = unpack-pack 9 (65 ∷ 66 ∷ []) (omega arith) (omega arith)

accept_lem_example :
    Returns
      (λ (srv', world').
        (srv'.total_conns ≤ 10087)
        × (3 ≤ 10086
            → (srv'.total_conns ≡ 4) × (world' ≡ connected net srv 11 (either_way [] (some []))))
        × (10086 < 3 → (srv' ≡ srv) × (world' ≡ [])))
      (ebot_srv_accept net srv (some 11) (value 2 ∷ []) (value 0 ∷ []) [])
accept_lem_example =
    accept_lem net srv 11 2 0 0 0 10086 reactor [] refl (omega arith) (omega arith) refl

-- A connection that has no data for the reactor.
client_read-told_example :
    (rq' : Ringq) × (srv' : Srv (ℕ → Option Mask) (List ℕ)) × (rq'' : Ringq) × (client_read_callback
        epoll net reactor srv 6 no_data []
      ≡ ok (reactor, srv', []))
    × (get_elem? srv'.factory.units 0 ≡ some (record unit { rq = some rq' }))
    × (eb_srv_factory_exec net (record unit { rq = some rq' }) srv' (replicate 136 0) []
        ≡ ok (record unit { rq = some rq'' }, told net srv 6 [] []))
    × Holds rq'' []
client_read-told_example =
    client_read-told net epoll reactor srv 6 0 no_data [] unit ring (replicate 136 0) refl
      (omega arith) refl refl ring-Holds refl refl (omega arith) (omega arith) refl

run_told : told net srv 6 [] [] ≡ (4, 6) ∷ []
run_told = refl

new-AllReady_example :
    Returns
      (λ srv'.
        (free : List ℕ) × Valid srv'.event_pool free []
        × (length free ≡ 4096)
        × (srv'.slave_reactor ≡ fresh_reactors 4 0 9 means.given means-Plenty.given)
        × (length srv'.factory.units ≡ 4)
        × AllReady 9 srv'.factory.units
        × (srv'.event_pool.held ≡ false)
        × (srv'.master_base ≡ fresh_base 1 3 means-Plenty.kernel [] (λ _. event_read 0 0 0))
        × (srv'.total_conns ≡ 0)
        × (srv'.callbacks ≡ λ _. 0))
      (eb_srv_new none 9 means)
new-AllReady_example =
    new-AllReady none 9 means means-Plenty (omega arith) (omega arith) (omega arith)
