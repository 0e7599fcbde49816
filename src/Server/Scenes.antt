-- ===== src/Server/Scenes.antt =====
-- Servers at work with which runs can be computed: what they get, and what they serve.
use ebot.Base.{
  replicate, length-replicate, ℕ, zero, suc, refl, ap, ◌++◌, ne→not_==, eq→==, true, false, Option,
  none, some, List, [], ◌∷◌, arith, bag, tally-times, leb, lt→not_leb, ◌<◌, le→leb, if◌then◌else◌,
  length, ◌+◌,
}
use ebot.Event.{Base, put}
use ebot.Event.Queue.{Queued}
use ebot.Server.Between.{Serving}
use ebot.Server.Clients.{Client, slabs_of}
use ebot.Server.Round.{AtRest}
use ebot.Server.React.{Heard}
use ebot.Server.Client.{piped}
use ebot.Io.{got}
use ebot.Server.Instances.{ring, ring-Holds}
use ebot.Event.Instances.{queue, epoll}
use ebot.Event.System.{Mask}
use ebot.Server.Types.{Reactor, Srv, Net}
use ebot.Server.Spread.{Rooms, Arrival, Pipes, Apart}
use ebot.Server.Stock.{pool, quiet, joined, joined-Agrees, busy_pool-Has, reactor, srv, listening}

-- The world has the bytes in each pipe.
abbrev pub piping : Net (ℕ → List ℕ)
piping = record {
  efd_write = λ w efd n. some w;
  efd_read = λ w efd. some w;
  pipe_write = λ w fd bytes.
      if leb (length (w fd) + length bytes) 4096 then some (put w fd (w fd ++ bytes)) else none;
  close = λ w fd. w;
  call = λ w cb stream. w;
}

abbrev pub piping-Pipes : Pipes piping
piping-Pipes = record {
  holds = λ w fd. w fd;
  capacity = 4096;
  pipe_write_lem = λ w fd bytes few room. (
    put w fd (w fd ++ bytes),
    rw (le→leb _ _ room) refl,
    rw (eq→== fd fd refl) refl,
    λ other ne. rw (ne→not_== other fd ne) refl,
  );
  refuses = λ w fd bytes few full. rw (lt→not_leb _ _ full) refl;
  holds-call = λ w cb stream fd. refl;
}

abbrev pub two_reactors : Srv (ℕ → Option Mask) (List ℕ)
two_reactors = record listening {
  slave_reactor = reactor quiet ∷ record (reactor quiet) { pipe_in = 22; pipe_out = 23 } ∷ [];
}

abbrev pub out_of : Option (Reactor (ℕ → Option Mask) (List ℕ)) → ℕ
out_of none = 0
out_of (some r) = r.pipe_out

pub two_reactors-Apart : Apart two_reactors.slave_reactor
two_reactors-Apart zero zero r q ar aq e = refl
two_reactors-Apart (suc zero) (suc zero) r q ar aq e = refl
two_reactors-Apart zero (suc zero) r q ar aq e =
    absurd (omega (arith, ap out_of ar, ap out_of aq, e))
two_reactors-Apart (suc zero) zero r q ar aq e =
    absurd (omega (arith, ap out_of ar, ap out_of aq, e))
two_reactors-Apart (suc (suc i)) j r q ar aq e = cc
two_reactors-Apart zero (suc (suc j)) r q ar aq e = cc
two_reactors-Apart (suc zero) (suc (suc j)) r q ar aq e = cc

abbrev pub arrivals : List Arrival
arrivals =
    record { fd = 6; flags = 2; gets = 0; sets = 1 }
    ∷ record { fd = 7; flags = 2; gets = 1; sets = 0 }
    ∷ []

pub arrivals-Rooms : Rooms piping piping-Pipes two_reactors.slave_reactor arrivals (λ _. [])
arrivals-Rooms zero r at = omega arith
arrivals-Rooms (suc zero) r at = omega arith
arrivals-Rooms (suc (suc k)) r at = cc

-- Nobody has read from the pipes for a long time.
abbrev pub full_pipe : ℕ → List ℕ
full_pipe fd = replicate 4096 0

pub full_pipe_lem : 4096 < length (full_pipe 23) + 4
full_pipe_lem = omega (arith, length-replicate {A = ℕ} 4096 0)

-- A reactor that serves the client 6, and nothing is queued.
abbrev pub calm : Base (ℕ → Option Mask) (List ℕ)
calm = record joined { event_readies = [] }

calm-Queued : Queued queue calm
calm-Queued = record {
  idle = λ a h. tt;
  held = λ a h. ground arith;
  marked = tt;
  distinct = tt;
  real = tt;
}

abbrev pub six : Client
six = record { fd = 6; reads = 244; writes = 172 }

calm-Serving : Serving epoll 9 quiet (six ∷ []) (bag []) (bag (100 ∷ [])) calm (pool true 3)
calm-Serving = record {
  agrees = record { entry = joined-Agrees.entry; reads = refl; writes = refl };
  wait_sz = refl;
  kides = refl;
  readies = refl;
  distinct = (tt, tt);
  seated = (
    record {
      fits = omega arith;
      no_read = refl;
      no_write = refl;
      read_at = refl;
      write_at = refl;
      read_event = refl;
      write_event = refl;
    },
    tt,
  );
  elsewhere = λ j out. (rw (ne→not_== j 6 out.0) refl, rw (ne→not_== j 6 out.0) refl);
  pool = busy_pool-Has;
}

pub calm-AtRest :
    AtRest epoll queue 9 quiet
      (bag (100 ∷ []))
      (slabs_of (six ∷ []) (bag (100 ∷ [])))
      (six ∷ [])
      calm
      srv
calm-AtRest = record {
  queued = calm-Queued;
  idle = refl;
  free = bag [];
  serving = calm-Serving;
  whole = λ a. omega (arith, tally-times [] (bag []) a refl);
  manned =
      ((ring, [], refl, ring-Holds, refl, refl), ((ring, [], refl, ring-Holds, refl, refl), tt));
  some_unit = omega arith;
}

-- Input and output are ready for the client, and `recv` says that it has closed its connection.
abbrev pub hears_end : Heard
hears_end = record { recv = λ fd. got []; piped = piped 7; read_ok = true; write_ok = true }

abbrev pub both_ready : List (ℕ × Mask)
both_ready = (6, record { input = true; output = true; edge = false }) ∷ []
