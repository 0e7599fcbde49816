-- ===== src/Workers/Stopping.antt =====
-- The steps of a worker that `wpool_stop` has signalled.
use ebot.Base.{ℕ, zero, suc, ◌+◌, ◌<◌, ◌≤◌, ◌≡◌, refl, ◌∙◌, List, [], ◌∷◌, ◌⊎◌, inl, inr, arith}
use ebot.Workers.Protocol.{
  At, testing, popping, reading, ended, woken, joined, State, ◌⟶◌, go_on, leave, handle, find_none,
  wake, push, notify, lower, signal, join, Reachable, step, Kept, reachable-Kept,
}

-- The step is one of the worker, and not of a reactor or of `wpool_stop`.
abbrev pub ByWorker : {s t : State} → s ⟶ t → Type 0
ByWorker (go_on s n w st) = Unit
ByWorker (leave s w st) = Unit
ByWorker (handle s m rest w e) = Unit
ByWorker (find_none s w e) = Unit
ByWorker (wake s n w c) = Unit
ByWorker (push s m) = ⊥
ByWorker (notify s n o) = ⊥
ByWorker (lower s r st) = ⊥
ByWorker (signal s l) = ⊥
ByWorker (join s w e) = ⊥

-- A number of steps of the worker alone.
pub data Alone : ℕ → State → State → Type 0 where
  none_left : {s : State} → Alone 0 s s
  one_more :
      {n : ℕ} {s t u : State} (move : s ⟶ t) → ByWorker move → Alone n t u → Alone (suc n) s u

-- The steps that a worker whose status is 0 can still make.
abbrev left : At → ℕ
left testing = 1
left popping = 3
left reading = 2
left ended = 0

left-step :
    {s t : State} (move : s ⟶ t)
    → ByWorker move
    → s.status ≡ 0
    → (left t.worker < left s.worker) × (t.stop ≡ s.stop)
left-step (go_on s n w st) by down = absurd (omega (arith, down, st))
left-step (leave s w st) by down = rw w (omega arith, refl)
left-step (handle s m rest w e) by down = rw w (omega arith, refl)
left-step (find_none s w e) by down = rw w (omega arith, refl)
left-step (wake s n w c) by down = rw w (omega arith, refl)
left-step (push s m) by down = absurd by
left-step (notify s n o) by down = absurd by
left-step (lower s r st) by down = absurd by
left-step (signal s l) by down = absurd by
left-step (join s w e) by down = absurd by

-- The worker has a step, or it is at its end and the join comes back.
abbrev pub GoesOn : State → Type 0
GoesOn s =
    ((s.worker ≡ ended) × (s ⟶ record s { stop = joined }))
    ⊎ ((t : State) × (move : s ⟶ t) × ByWorker move)

goes_on :
    (s : State) (a : At) (l : List ℕ) (c : ℕ)
    → s.worker ≡ a
    → s.ring ≡ l
    → s.count ≡ c
    → s.stop ≡ woken
    → Kept s
    → GoesOn s
goes_on s testing l c w r n e k = inr (_, leave s w (k.down (ground arith)), tt)
goes_on s popping [] c w r n e k = inr (_, find_none s w r, tt)
goes_on s popping (m ∷ rest) c w r n e k = inr (_, handle s m rest w r, tt)
goes_on s reading l zero w r n e k = absurd (omega (arith, n, k.roused e (inr w)))
goes_on s reading l (suc c) w r n e k = inr (_, wake s c w n, tt)
goes_on s ended l c w r n e k = inl (w, join s e w)

Alone-left :
    {n : ℕ} {s t : State}
    → Alone n s t
    → Reachable s
    → s.stop ≡ woken
    → (n + left t.worker ≤ left s.worker) × GoesOn t
Alone-left (none_left {s}) r e =
    (omega arith, goes_on s s.worker s.ring s.count refl refl refl e (reachable-Kept s r))
Alone-left (one_more {n} {s} {t} {u} move by rest) r e =
    let down : s.status ≡ 0 = (reachable-Kept s r).down (ground (arith, e)) in
    let (fewer, same) = left-step move by down in
    let (few, on) = Alone-left rest (step r move) (same ∙ e) in (omega (arith, fewer, few), on)

left_lem : (a : At) → left a ≤ 3
left_lem testing = omega arith
left_lem popping = omega arith
left_lem reading = omega arith
left_lem ended = omega arith

-- The join of `wpool_stop` comes back: from each state that is reached with the signal sent, the
-- worker alone makes three steps at most, whichever they are, and behind each of them it has
-- another one, or it is at its end and the join has its step.
pub stop-GoesOn :
    (s : State)
    → Reachable s
    → s.stop ≡ woken
    → (n : ℕ) (t : State) → Alone n s t
    → (n ≤ 3) × GoesOn t
stop-GoesOn s r e n t steps =
    let (few, on) = Alone-left steps r e in (omega (arith, few, left_lem s.worker), on)
