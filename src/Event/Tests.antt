-- ===== src/Event/Tests.antt =====
-- Runs of the event base and instances of its theorems.
use ebot.Base.{
  ltb, lt→ltb, if◌then◌else◌, ◌<◌, ℕ, ◌≡◌, ◌≢◌, refl, true, false, ◌||◌, Option, none, some, List,
  [], ◌∷◌, ◌++◌, ◌<◌, arith, ◌==◌, if◌then◌else◌, map, Run, Returns, ok, fault,
}
use ebot.Event.{Base, Event, put, resize, event_read, event_write}
use ebot.Event.Instances.{epoll, queue}
use ebot.Event.Ctl.{add_event, del_event}
use ebot.Pool.Links.{All}
use ebot.Event.System.{Mask}
use ebot.Event.Queue.{Queued, Grows}
use ebot.Event.Waking.{Woken, enqueue-Queued}
use ebot.Event.Dispatch.{calls}
use ebot.Event.Loop.{enqueue, loop, ready}
use ebot.Event.Round.{Reached, Asked, loop_fifo}
use ebot.Event.Resize.{resize-Agrees, resize_drops, add_beyond}
use ebot.Event.Tables.{Entry, Agrees, add-Agrees}
use ebot.Event.Dump.{listed, line_of, dump, listed-dump}
use ebot.Event.Removal.{del-Agrees}

-- A reading event at 10 and a writing one at 11, both for the descriptor 5.
abbrev some_events : ℕ → Event
some_events a = if a == 11 then event_write 5 1 3 else event_read 5 2 3

abbrev first_base : Base (ℕ → Option Mask) (List ℕ)
first_base = record {
  epfd = 3;
  kides = record { reads = true; writes = true };
  epsz = 1024;
  wait_sz = 1024;
  read_waits = λ _. 0;
  read_room = 1024;
  write_waits = λ _. 0;
  write_room = 1024;
  kernel = λ _. none;
  event_readies = [];
  events = some_events;
}

first_base-Agrees : Agrees epoll first_base
first_base-Agrees = record { entry = λ fd. (refl, refl); reads = refl; writes = refl }

add-Agrees_example :
    Returns
      (λ (done, eb').
        Agrees epoll eb'
        × (done ≡ false → eb' ≡ first_base)
        × (done ≡ true → true ≡ true → eb'.read_waits 5 ≢ 0)
        × (done ≡ true → false ≡ true → eb'.write_waits 5 ≢ 0))
      (add_event epoll first_base 10 true true)
add-Agrees_example =
    add-Agrees epoll first_base 10 true true first_base-Agrees (omega arith) (omega arith)

-- With the reading event registered.
abbrev reading_base : Base (ℕ → Option Mask) (List ℕ)
reading_base = record first_base {
  read_waits = put (λ _. 0) 5 10;
  kernel = put (λ _. none) 5 (some (record { input = true; output = false; edge = true }));
}

reading_base-Agrees : Agrees epoll reading_base
reading_base-Agrees = record { entry = λ fd. ground arith; reads = refl; writes = refl }

del-Agrees_example :
    Returns
      (λ (done, eb').
        Agrees epoll eb'
        × (done ≡ false → eb' ≡ reading_base)
        × (done ≡ true → true ≡ true → false ≡ false → eb'.read_waits 5 ≡ 0)
        × (done ≡ true → true ≡ false → false ≡ true → eb'.write_waits 5 ≡ 0))
      (del_event epoll reading_base 10)
del-Agrees_example = del-Agrees epoll reading_base 10 reading_base-Agrees (omega arith)

-- The memory behind the arrays is not 0.
abbrev over_garbage : Base (ℕ → Option Mask) (List ℕ)
over_garbage = record reading_base {
  read_waits = λ fd. if ltb fd 1024 then reading_base.read_waits fd else 77;
}

over_garbage-Entry :
    (fd : ℕ)
    → fd < over_garbage.wait_sz
    → Entry
        (epoll.interest over_garbage.kernel fd)
        (over_garbage.read_waits fd)
        (over_garbage.write_waits fd)
over_garbage-Entry fd h = rw (lt→ltb fd 1024 h) (reading_base-Agrees.entry fd)

resize-Agrees_example :
    Agrees epoll (resize over_garbage true true).1
    × ((resize over_garbage true true).1.wait_sz ≡ 2048)
    × ((fd : ℕ)
        → fd < 1024
        → ((resize over_garbage true true).1.read_waits fd ≡ over_garbage.read_waits fd)
          × ((resize over_garbage true true).1.write_waits fd ≡ 0))
resize-Agrees_example =
    resize-Agrees epoll over_garbage over_garbage-Entry refl (λ fd h. ground arith)

-- An event for the descriptor 1500, behind a first resizing.
abbrev grown_base : Base (ℕ → Option Mask) (List ℕ)
grown_base = record first_base {
  wait_sz = 2048;
  read_waits = put (λ _. 0) 1500 10;
  kernel = put (λ _. none) 1500 (some (record { input = true; output = false; edge = true }));
}

resize_drops_example :
    ((resize grown_base true true).1.read_waits 1500 ≡ 0)
    × (Agrees epoll (resize grown_base true true).1 → ⊥)
resize_drops_example =
    resize_drops epoll grown_base 1500 (record { input = true; output = false; edge = true })
      (omega arith) refl refl

abbrev far_base : Base (ℕ → Option Mask) (List ℕ)
far_base = record first_base { events = λ a. event_read 1024 2 3 }

run_add_beyond : add_event epoll far_base 10 true true ≡ fault
run_add_beyond =
    add_beyond epoll far_base 10 true true
      (record { entry = λ fd. (refl, refl); reads = refl; writes = refl }) refl (omega arith)

first_base-Queued : Queued queue reading_base
first_base-Queued = record {
  idle = λ a h. tt;
  held = λ a h n. ground arith;
  marked = tt;
  distinct = tt;
  real = tt;
}

abbrev got : List (ℕ × Mask)
got = (5, record { input = true; output = false; edge = false }) ∷ []

enqueue-Queued_example :
    Returns
      (λ eb'. Grows queue 2 reading_base eb' × Woken queue eb' (put (λ _. 0) 5 10) (λ _. 0) got)
      (enqueue queue reading_base got)
enqueue-Queued_example =
    enqueue-Queued queue reading_base got first_base-Queued (omega arith, omega arith, tt)

-- A base with the two events in its queue.
abbrev busy_base : Base (ℕ → Option Mask) (List ℕ)
busy_base = record first_base {
  event_readies = 11 ∷ 10 ∷ [];
  events = λ a. record (some_events a) { queued = (a == 10) || (a == 11) };
}

busy_base-Queued : Queued queue busy_base
busy_base-Queued = record {
  idle = λ a h. ground arith;
  held = λ a h n. ground arith;
  marked = (refl, (refl, tt));
  distinct = ground arith;
  real = ground arith;
}

-- Callbacks that write down their numbers.
abbrev note : (cb fd arg : ℕ) → List ℕ → List ℕ
note cb fd arg w = w ++ (cb ∷ [])

abbrev callback :
    (cb fd arg : ℕ)
    → Base (ℕ → Option Mask) (List ℕ) × List ℕ
    → Run (Base (ℕ → Option Mask) (List ℕ) × List ℕ)
callback cb fd arg (eb, w) = ok (eb, note cb fd arg w)

loop_fifo_example :
    Returns
      (λ (done, eb', world').
        (done ≡ true)
        × (queue.items eb'.event_readies ≡ [])
        × ((a : ℕ) → (eb'.events a).queued ≡ false)
        × (more : List ℕ) × (world' ≡ calls note some_events more [])
        × Reached more (put (λ _. 0) 5 10) (λ _. 0) got
        × All (Asked (put (λ _. 0) 5 10) (λ _. 0) got) more)
      (loop queue callback 3 (ready got) (reading_base, []))
loop_fifo_example =
    loop_fifo queue callback note (λ cb fd arg eb w. refl) got 3 reading_base [] first_base-Queued
      (omega arith, omega arith, tt) (omega arith)

listed-dump_example :
    Returns
      (λ (reads, writes, readies).
        (listed 5 reads ≡ true)
        × (listed 5 writes ≡ false)
        × (readies ≡ map (line_of reading_base) []))
      (dump queue reading_base)
listed-dump_example =
    listed-dump epoll reading_base reading_base-Agrees
      (record { reads = λ fd ne. (ground arith, ground arith); writes = λ fd ne. absurd (ne refl) })
      queue 5 (omega arith)
