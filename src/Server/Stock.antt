-- ===== src/Server/Stock.antt =====
-- Pools, bases, reactors and servers with which runs of the server can be computed.
use ebot.Base.{
  ℕ, ◌+◌, refl, Bool, true, false, Option, none, some, List, [], ◌∷◌, arith, ◌==◌, if◌then◌else◌,
  pos, bag,
}
use ebot.Event.{Base, event_read, event_write, put}
use ebot.Event.Instances.{epoll}
use ebot.Event.System.{Mask}
use ebot.Event.Tables.{Agrees}
use ebot.Pool.{Pool}
use ebot.Pool.Moves.{Has}
use ebot.Pool.Valid.{Valid}
use ebot.Server.Instances.{unit}
use ebot.Server.Client.{client_read, client_write}
use ebot.Server.Setup.{eb_default_setting}
use ebot.Server.Types.{Reactor, Srv}
use ebot.Server.Clients.{Serves}

-- Three slabs, at 100, 172 and 244; the list is 244, 172, 100, with the flag that is given.
abbrev pub pool : (used : Bool) (n : ℕ) → Pool
pool used n = record {
  mem = 100;
  size = 216;
  head = 244;
  tail = 100;
  slab_num = 3;
  slab_size = 48;
  slab_used = n;
  slabs = λ a.
      if a == 244
      then record { used = used; prev = 0; next = 172 }
      else if a == 172
      then record { used = used; prev = 244; next = 100 }
      else record { used = used; prev = 172; next = 0 };
  held = false;
}

pub free_pool-Valid : Valid (pool false 0) (244 ∷ 172 ∷ 100 ∷ []) []
free_pool-Valid = record {
  links = (refl, refl, (refl, refl, (refl, refl, tt)));
  head_at = refl;
  tail_at = refl;
  distinct = omega arith;
  owned = omega arith;
  idle = (refl, (refl, (refl, tt)));
  taken = tt;
  counted = refl;
  few = omega arith;
  placed = omega arith;
  sized = omega arith;
}

pub busy_pool-Valid : Valid (pool true 3) [] (244 ∷ 172 ∷ 100 ∷ [])
busy_pool-Valid = record {
  links = (refl, refl, (refl, refl, (refl, refl, tt)));
  head_at = refl;
  tail_at = refl;
  distinct = omega arith;
  owned = omega arith;
  idle = tt;
  taken = (refl, (refl, (refl, tt)));
  counted = refl;
  few = omega arith;
  placed = omega arith;
  sized = omega arith;
}

-- A base in which nothing waits.
abbrev pub quiet : Base (ℕ → Option Mask) (List ℕ)
quiet = record {
  epfd = 3;
  kides = record { reads = true; writes = true };
  epsz = 1024;
  wait_sz = 1024;
  read_waits = λ _. 0;
  read_room = 1024;
  write_waits = λ _. 0;
  write_room = 1024;
  kernel = λ _. none;
  event_readies = [];
  events = λ _. event_read 0 0 0;
}

pub quiet-Agrees : Agrees epoll quiet
quiet-Agrees = record { entry = λ fd. (refl, refl); reads = refl; writes = refl }

-- A base in which the two events of the descriptor 6 wait, of which the second is also ready.
abbrev pub joined : Base (ℕ → Option Mask) (List ℕ)
joined = record quiet {
  read_waits = put (λ _. 0) 6 268;
  write_waits = put (λ _. 0) 6 196;
  kernel = put (λ _. none) 6 (some (record { input = true; output = true; edge = false }));
  event_readies = 196 ∷ [];
  events = λ a. if a == 268 then event_read 6 client_read 9 else event_write 6 client_write 9;
}

pub joined-Agrees : Agrees epoll joined
joined-Agrees = record { entry = λ fd. ground arith; reads = refl; writes = refl }

abbrev pub busy_pool-Has : Has (bag []) (bag (244 ∷ 172 ∷ 100 ∷ [])) (pool true 3)
busy_pool-Has = ([], 244 ∷ 172 ∷ 100 ∷ [], busy_pool-Valid, refl, refl, refl)

abbrev pub reactor : Base (ℕ → Option Mask) (List ℕ) → Reactor (ℕ → Option Mask) (List ℕ)
reactor base = record {
  id = 1;
  tid = 1;
  base = base;
  srv = 9;
  pipe_in = 20;
  pipe_out = 21;
  status = 1;
}

abbrev pub srv : Srv (ℕ → Option Mask) (List ℕ)
srv = record {
  setting = eb_default_setting;
  udata = 5;
  event_pool = pool true 3;
  master_base = quiet;
  slave_reactor = reactor joined ∷ [];
  factory = record { units = unit ∷ unit ∷ []; status = 1 };
  total_conns = 3;
  sfd = pos 4;
  status = 1;
  callbacks = λ e. e + 1;
}

abbrev pub listening : Srv (ℕ → Option Mask) (List ℕ)
listening = record srv { event_pool = pool false 0; slave_reactor = reactor quiet ∷ [] }

pub free_pool-Has : Has (bag (244 ∷ 172 ∷ 100 ∷ [])) (bag []) (pool false 0)
free_pool-Has = (244 ∷ 172 ∷ 100 ∷ [], [], free_pool-Valid, refl, refl, refl)

-- Nobody is there yet.
pub quiet-Serves :
    Serves 9 quiet epoll [] (bag (244 ∷ 172 ∷ 100 ∷ [])) (bag []) quiet (pool false 0)
quiet-Serves = record {
  agrees = quiet-Agrees;
  wait_sz = refl;
  kides = refl;
  readies = refl;
  distinct = tt;
  seated = tt;
  elsewhere = λ _ _. (refl, refl);
  pool = free_pool-Has;
}
