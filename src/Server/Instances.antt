-- ===== src/Server/Instances.antt =====
-- A ring, a worker, a network, threads and means with which runs of a server can be computed.
use ebot.Base.{
  ℕ, ◌+◌, refl, true, false, Option, none, some, List, [], ◌∷◌, ◌++◌, arith, Run, ok, pos,
}
use ebot.Event.{Base, event_read}
use ebot.Event.System.{Mask}
use ebot.Io.{value}
use ebot.Ring.{Ringq}
use ebot.Ring.Layout.{Holds}
use ebot.Server.New.{Works, Plenty}
use ebot.Server.Reactors.{Given}
use ebot.Server.Setup.{Means}
use ebot.Server.Types.{Net}
use ebot.Server.Reactors
use ebot.Workers
use ebot.Workers.{Wunit, blank}

abbrev pub ring : Ringq
ring = record {
  head = 0;
  tail = 0;
  size = 1001;
  num = 0;
  use_lock = true;
  mem = λ _. 0;
  room = 1005;
  held = false;
}

pub ring-Holds : Holds ring []
ring-Holds = record {
  head_in = omega arith;
  space = omega arith;
  tail_at = refl;
  count = refl;
  room_is = refl;
  small = omega arith;
  stored = tt;
}

abbrev pub unit : Wunit
unit = record blank { id = 1; rq = some ring; efd = pos 8 }

-- The world has the calls of the user's callbacks: the callback and the descriptor.
abbrev pub net : Net (List (ℕ × ℕ))
net = record {
  efd_write = λ w efd n. some w;
  efd_read = λ w efd. some w;
  pipe_write = λ w fd bytes. some w;
  close = λ w fd. w;
  call = λ w cb stream. w ++ ((cb, stream.fd) ∷ []);
}

abbrev pub given : Given (ℕ → Option Mask) (List ℕ)
given = record {
  base_ok = true;
  arrays_ok = true;
  epoll = some (3, λ _. none);
  queue = [];
  events = λ _. event_read 0 0 0;
  pipe = some (20, 21);
  gets_in = value 2 ∷ [];
  sets_in = value 0 ∷ [];
  gets_out = value 2 ∷ [];
  sets_out = value 0 ∷ [];
}

abbrev pub means : Means (ℕ → Option Mask) (List ℕ)
means = record {
  srv_ok = true;
  pool_mem = 4096;
  base_ok = true;
  arrays_ok = true;
  epoll = some (3, λ _. none);
  queue = [];
  events = λ _. event_read 0 0 0;
  reactors_ok = true;
  given = λ _. given;
  factory_ok = true;
  efds = λ i. pos (i + 30);
  mallocs = λ _. true;
}

pub given-Works : Works given
given-Works = record {
  base = refl;
  arrays = refl;
  epfd = 3;
  kernel = λ _. none;
  epoll = refl;
  ends = (20, 21);
  pipe = refl;
  opts_in = 2;
  opts_out = 2;
  gets_in = refl;
  sets_in = refl;
  gets_out = refl;
  sets_out = refl;
}

abbrev pub means-Plenty : Plenty means
means-Plenty = record {
  srv = refl;
  pool = omega arith;
  base = refl;
  arrays = refl;
  epfd = 3;
  kernel = λ _. none;
  epoll = refl;
  reactors = refl;
  given = λ i. given-Works;
  factory = refl;
  fds = λ i. i + 30;
  efds = λ i. refl;
  mallocs = λ i. refl;
}

-- Threads that are made and come to their end at once.
abbrev pub reactor_threads : Reactors.Threads (ℕ → Option Mask) (List ℕ) (List (ℕ × ℕ))
reactor_threads = record { create = λ w r. (some r.id, w); join = λ w tid. ok w }

abbrev pub worker_threads : Workers.Threads (List (ℕ × ℕ))
worker_threads = record { create = λ w u. (some 7, w); join = λ w tid. ok w; signal = λ w efd n. w }

-- Callbacks that do nothing.
abbrev pub no_callback :
    ℕ
    → ℕ
    → ℕ
    → Base (ℕ → Option Mask) (List ℕ) × List (ℕ × ℕ)
    → Run (Base (ℕ → Option Mask) (List ℕ) × List (ℕ × ℕ))
no_callback cb fd arg s = ok s
