-- ===== src/Server/Threads/Stock.antt =====
-- Two reactors that share three slabs.
use ebot.Base.{
  ◌<◌, ℕ, zero, suc, ◌≡◌, refl, arith, true, false, Option, none, some, List, [], ◌∷◌, get_elem?,
  set, ok, bag,
}
use mathlib.Core.Option.{some-injective}
use std.Path.{subst}
use ebot.Event.{Base, set_read_wait, set_write_wait, read_wait, write_wait, resize}
use ebot.Event.Ctl.{add_event, enlist}
use ebot.Pool.{get_with_lock, lock, unlock, get}
use ebot.Server.Client.{watch}
use ebot.Event.Instances.{epoll}
use ebot.Event.System.{Mask}
use ebot.Server.Instances.{net}
use ebot.Server.Stock.{quiet, pool, free_pool-Valid}
use ebot.Server.Threads.{Thread, Turn, comes, System, act, share, Step, moves, Reach, here, later}
use ebot.Server.Threads.Safe.{Safe}
use ebot.Server.Threads.Fresh.{Fresh, Fresh-Safe}
use ebot.Server.Client.{pipe_read}
use ebot.Server.Threads.{starting}

-- A base in which nothing waits, for few descriptors.
abbrev pub small : Base (ℕ → Option Mask) (List ℕ)
small = record quiet { wait_sz = 16; read_room = 16; write_room = 16 }

-- A thread that has not yet registered the event of its pipe.
abbrev pub thread : (a fd : ℕ) → Thread (ℕ → Option Mask) (List ℕ)
thread a fd = record { this = a; base = small; place = starting fd pipe_read }

abbrev pub two_threads : System (ℕ → Option Mask) (List ℕ)
two_threads = (thread 500 10 ∷ thread 600 11 ∷ [], pool false 0)

thread-Fresh : (a fd : ℕ) → fd < 16 → Fresh epoll small.events (thread a fd)
thread-Fresh a fd fits = record {
  agrees = record { entry = λ x. (refl, refl); reads = refl; writes = refl };
  reads = refl;
  writes = refl;
  quiet = λ x. (refl, refl);
  events = refl;
  fd = fd;
  cb = pipe_read;
  place = refl;
  fits = fits;
}

both-Fresh :
    (i : ℕ) (t : Thread (ℕ → Option Mask) (List ℕ))
    → get_elem? two_threads.0 i ≡ some t
    → Fresh epoll small.events t
both-Fresh zero t at =
    subst (Fresh epoll small.events) (some-injective _ _ at) (thread-Fresh 500 10 (omega arith))
both-Fresh (suc zero) t at =
    subst (Fresh epoll small.events) (some-injective _ _ at) (thread-Fresh 600 11 (omega arith))
both-Fresh (suc (suc i)) t at = cc

pub two_threads-Safe : Safe epoll (244 ∷ 172 ∷ 100 ∷ []) (bag []) two_threads
two_threads-Safe =
    Fresh-Safe epoll small.events two_threads.0 two_threads.1 (244 ∷ 172 ∷ 100 ∷ []) (bag [])
      both-Fresh (244 ∷ 172 ∷ 100 ∷ [], [], free_pool-Valid, refl, refl, λ a. refl)

-- The system behind an access of the thread `i`.
abbrev pub moved : System (ℕ → Option Mask) (List ℕ) → ℕ → Turn → System (ℕ → Option Mask) (List ℕ)
moved (ts, mp) i turn = elim (get_elem? ts i) [
  | none ↦ (ts, mp)
  | some t ↦ elim (act epoll net true true t.place t turn mp) [
    | ok (t', mp') ↦ (share (set ts i t') (t'.base.events), mp')
    | _ ↦ (ts, mp)
  ]
]

-- Each registers the event of its pipe, and then each takes a client: there is one slab left.
abbrev one_ready : System (ℕ → Option Mask) (List ℕ)
one_ready = moved two_threads 0 (comes 0)

abbrev both_ready : System (ℕ → Option Mask) (List ℕ)
both_ready = moved one_ready 1 (comes 0)

abbrev one_came : System (ℕ → Option Mask) (List ℕ)
one_came = moved both_ready 0 (comes 6)

abbrev pub both_came : System (ℕ → Option Mask) (List ℕ)
both_came = moved one_came 1 (comes 8)

steps :
    Step epoll net true true two_threads one_ready
    × Step epoll net true true one_ready both_ready
    × Step epoll net true true both_ready one_came
    × Step epoll net true true one_came both_came
unfolding act watch get_with_lock lock unlock get add_event enlist set_read_wait set_write_wait
    read_wait write_wait resize
steps = (
  moves 0 (thread 500 10) (comes 0) refl tt refl,
  moves 1 _ (comes 0) refl tt refl,
  moves 0 _ (comes 6) refl (omega arith, refl, refl) refl,
  moves 1 _ (comes 8) refl (omega arith, refl, refl) refl,
)

pub both_came-Reach : Reach epoll net true true two_threads both_came
both_came-Reach = later (later (later (later here steps.0) steps.1) steps.2) steps.3
