-- ===== src/Workers/Tests.antt =====
-- Workers at concrete states.
use ebot.Base.{
  ne→not_==, fault, leb, ◌&&◌, if◌then◌else◌, waits, ◌==◌, pos, ◌≤◌, ℕ, suc, ◌+◌, ◌≡◌, ◌≢◌, refl,
  true, some, [], ◌∷◌, arith, Returns, ok,
}
use ebot.Workers.{Wpool, Threads, blank, new, start, stop}
use ebot.Workers.Protocol
use ebot.Workers.Protocol.{
  wake, State, started, Reachable, step, go_on, push, find_none, lower, signal, woken, Kept,
  reachable-Kept,
}
use ebot.Workers.Stopping.{GoesOn, none_left, one_more, stop-GoesOn}
use ebot.Workers.Pool.{Statuses, parts, given, fresh_units, start-stop, new_lem}
use ebot.Bytes.{int_max}
use ebot.Workers.{pool_bytes}

-- A worker that sleeps, a message that is pushed, and a stop.
abbrev sleeps : State
sleeps = record started { worker = Protocol.reading }

sleeps-Reachable : Reachable sleeps
sleeps-Reachable =
    step (step Protocol.start (go_on started 0 refl refl))
      (find_none (record started { worker = Protocol.popping }) refl refl)

abbrev pushed : State
pushed = record sleeps { ring = 7 ∷ []; owed = 1; sent = 7 ∷ [] }

pushed-Reachable : Reachable pushed
pushed-Reachable = step sleeps-Reachable (push sleeps 7)

reachable-Kept_example : Kept pushed
reachable-Kept_example = reachable-Kept pushed pushed-Reachable

abbrev signalled : State
signalled = record pushed { stop = woken; status = 0; count = 15 }

stop-GoesOn_example : (1 ≤ 3) × GoesOn (record signalled { worker = Protocol.testing; count = 0 })
stop-GoesOn_example =
    stop-GoesOn signalled
      (step (step pushed-Reachable (lower pushed refl refl))
        (signal (record pushed { stop = Protocol.lowered; status = 0 }) refl))
      refl 1 _ (one_more (wake signalled 14 refl refl) tt none_left)

-- Threads are numbered, and signals are added up.
abbrev threads : Threads (ℕ × ℕ)
threads = record {
  create = λ (n, sum) u. (some (suc n), (suc n, sum));
  join = λ (n, sum) tid. if sum == 0 then waits else ok (n, sum);
  signal = λ (n, sum) efd v. (n, sum + v);
}

abbrev two_units : Wpool
two_units = record { units = record blank { id = 1 } ∷ record blank { id = 2 } ∷ []; status = 0 }

start-stop_example :
    let (wp', world') = start threads two_units (0, 0) in
    Statuses 1 wp'.units
    × Returns
        (λ (wp'', world'').
          (wp''.status ≡ 0) × Statuses 0 wp''.units × (parts wp''.units ≡ two_units.units))
        (stop threads wp' world')
start-stop_example =
    start-stop threads (λ (n, sum) u. (suc n, (suc n, sum), omega arith, refl))
      (λ (n, sum) efd. sum ≢ 0) (λ (n, sum) efd e. omega (arith, e))
      (λ (n, sum) u some_. rw (ne→not_== sum 0 some_) tt) two_units (0, 0)

new_lem_example : new 2 100 true (λ i. pos i) (λ i. i == 0) ≡ (
    if (true && leb (pool_bytes 2) int_max) && given (λ i. pos i) (λ i. i == 0) 2 0
    then ok (some (record { units = fresh_units 100 (λ i. pos i) 2 0; status = 0 }))
    else fault)
new_lem_example = new_lem 2 100 true (λ i. pos i) (λ i. i == 0)
