-- ===== src/Workers/Protocol.antt =====
-- The protocol between one worker of `wpool_exec` with the handler `eb_srv_factory_exec`, the
-- reactors that push messages and write to its event descriptor, and `wpool_stop`.
use mathlib.Core.List.{append_assoc}
use ebot.Base.{ℕ, suc, ◌+◌, ◌<◌, ◌≡◌, ◌≢◌, refl, sym, ap, ◌∙◌, List, [], ◌∷◌, ◌++◌, ◌⊎◌, inl, arith}

-- Where the worker is: before its test of `unit->status`, before `ringq_pop_with_lock`, in the
-- `read` of its event descriptor, or at its end.
pub data At : Type 0 where
  testing popping reading ended : At

-- Where `wpool_stop` is with the unit: before it, behind `FAS`, behind the `write`, or behind
-- `pthread_join`.
pub data Stop : Type 0 where
  running lowered woken joined : Stop

-- `count` is the counter of the event descriptor, and `owed` the reactors that have pushed and not
-- yet written to it. `sent` has the messages that were pushed and `handled` those that the worker
-- has taken, both in their order.
pub record State : Type 0 where
  pub worker : At
  pub stop : Stop
  pub status : ℕ
  pub ring : List ℕ
  pub count : ℕ
  pub owed : ℕ
  pub handled : List ℕ
  pub sent : List ℕ

pub data ◌⟶◌ : State → State → Type 0 where
  infix 20 ◌⟶◌
  -- The worker tests its status.
  go_on :
      (s : State) (n : ℕ)
      → s.worker ≡ testing
      → s.status ≡ suc n
      → s ⟶ record s { worker = popping }
  leave : (s : State) → s.worker ≡ testing → s.status ≡ 0 → s ⟶ record s { worker = ended }
  -- It pops a message, or finds none.
  handle :
      (s : State) (m : ℕ) (rest : List ℕ)
      → s.worker ≡ popping
      → s.ring ≡ m ∷ rest
      → s ⟶ record s { worker = testing; ring = rest; handled = s.handled ++ (m ∷ []) }
  find_none : (s : State) → s.worker ≡ popping → s.ring ≡ [] → s ⟶ record s { worker = reading }
  -- The `read` comes back where the counter is not 0, and sets it to 0.
  wake :
      (s : State) (n : ℕ)
      → s.worker ≡ reading
      → s.count ≡ suc n
      → s ⟶ record s { worker = testing; count = 0 }
  -- A reactor pushes a message, and later writes 1.
  push :
      (s : State) (m : ℕ)
      → s ⟶ record s { ring = s.ring ++ (m ∷ []); owed = suc s.owed; sent = s.sent ++ (m ∷ []) }
  notify : (s : State) (n : ℕ) → s.owed ≡ suc n → s ⟶ record s { owed = n; count = suc s.count }
  -- `wpool_stop`
  lower :
      (s : State) → s.stop ≡ running → s.status ≡ 1 → s ⟶ record s { stop = lowered; status = 0 }
  signal : (s : State) → s.stop ≡ lowered → s ⟶ record s { stop = woken; count = s.count + 15 }
  join : (s : State) → s.stop ≡ woken → s.worker ≡ ended → s ⟶ record s { stop = joined }

-- As `wpool_start` leaves it.
abbrev pub started : State
started = record {
  worker = testing;
  stop = running;
  status = 1;
  ring = [];
  count = 0;
  owed = 0;
  handled = [];
  sent = [];
}

pub data Reachable : State → Type 0 where
  start : Reachable started
  step : {s t : State} → Reachable s → s ⟶ t → Reachable t

-- What holds at each state that is reached.
pub record Kept (s : State) : Type 0 where
  -- No message waits for a worker that sleeps, unless a reactor is about to wake it.
  pub noticed : s.worker ≡ reading → s.ring ≢ [] → 0 < s.count + s.owed
  pub alive : s.stop ≡ running → s.status ≡ 1
  pub down : s.stop ≢ running → s.status ≡ 0
  pub roused : s.stop ≡ woken → (s.worker ≡ popping) ⊎ (s.worker ≡ reading) → 0 < s.count
  -- The messages are taken in the order in which they were pushed, each once.
  pub in_order : s.handled ++ s.ring ≡ s.sent
  pub gone : s.stop ≡ joined → s.worker ≡ ended

start-Kept : Kept started
start-Kept = record {
  noticed = λ a b. ground arith;
  alive = λ a. refl;
  down = λ a. ground arith;
  roused = λ a b. ground arith;
  in_order = refl;
  gone = λ a. ground arith;
}

step-Kept : {s t : State} → Kept s → s ⟶ t → Kept t
step-Kept k (go_on s n w st) = record {
  noticed = λ a b. ground arith;
  alive = k.alive;
  down = k.down;
  roused = λ a b. ground (arith, k.down);
  in_order = k.in_order;
  gone = λ a. ground (arith, k.gone);
}
step-Kept k (leave s w st) = record {
  noticed = λ a b. ground arith;
  alive = k.alive;
  down = k.down;
  roused = λ a b. ground arith;
  in_order = k.in_order;
  gone = λ a. refl;
}
step-Kept k (handle s m rest w e) = record {
  noticed = λ a b. ground arith;
  alive = k.alive;
  down = k.down;
  roused = λ a b. ground arith;
  in_order = append_assoc s.handled (m ∷ []) rest ∙ rw (sym e) k.in_order;
  gone = λ a. ground (arith, k.gone);
}
step-Kept k (find_none s w e) = record {
  noticed = λ a b. absurd (b e);
  alive = k.alive;
  down = k.down;
  roused = λ a b. k.roused a (inl w);
  in_order = k.in_order;
  gone = λ a. ground (arith, k.gone);
}
step-Kept k (wake s n w c) = record {
  noticed = λ a b. ground arith;
  alive = k.alive;
  down = k.down;
  roused = λ a b. ground arith;
  in_order = k.in_order;
  gone = λ a. ground (arith, k.gone);
}
step-Kept k (push s m) = record {
  noticed = λ a b. omega arith;
  alive = k.alive;
  down = k.down;
  roused = k.roused;
  in_order = sym (append_assoc s.handled s.ring (m ∷ [])) ∙ ap (λ l. l ++ (m ∷ [])) k.in_order;
  gone = k.gone;
}
step-Kept k (notify s n o) = record {
  noticed = λ a b. omega arith;
  alive = k.alive;
  down = k.down;
  roused = λ a b. omega arith;
  in_order = k.in_order;
  gone = k.gone;
}
step-Kept k (lower s r st) = record {
  noticed = k.noticed;
  alive = λ a. ground arith;
  down = λ a. refl;
  roused = λ a b. ground arith;
  in_order = k.in_order;
  gone = λ a. ground arith;
}
step-Kept k (signal s l) = record {
  noticed = λ a b. omega arith;
  alive = λ a. ground arith;
  down = λ a. ground (arith, k.down);
  roused = λ a b. omega arith;
  in_order = k.in_order;
  gone = λ a. ground arith;
}
step-Kept k (join s w e) = record {
  noticed = k.noticed;
  alive = λ a. ground arith;
  down = λ a. ground (arith, k.down);
  roused = λ a b. ground arith;
  in_order = k.in_order;
  gone = λ a. e;
}

-- Whatever the interleaving of a worker, the reactors and the stopping, the messages are handled in
-- the order in which they were pushed and none is lost or handled twice; a worker that sleeps while
-- messages wait has been signalled or is about to be; and once `wpool_stop` has signalled it, the
-- worker does not sleep.
pub reachable-Kept : (s : State) → Reachable s → Kept s
reachable-Kept s start = start-Kept
reachable-Kept t (step r move) = step-Kept (reachable-Kept _ r) move
