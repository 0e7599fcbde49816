-- ===== src/Event/Loop.antt =====
-- The queue of ready events, and `ebot_loop`.
use ebot.Base.{
  ℕ, zero, suc, Bool, true, false, ◌&&◌, ◌||◌, none, some, List, [], ◌∷◌, ◌==◌, if◌then◌else◌, not,
  Run, ok, waits, ◌>>=◌,
}
use ebot.Event.{Base, read_wait, write_wait, put}
use ebot.Event.System.{Mask, TailQueue, meets, read_write, null}

-- What `epoll_wait` gives: the ready descriptors with their flags, or an error, which is `EINTR` or
-- another.
pub data Waited : Type 0 where
  ready : List (ℕ × Mask) → Waited
  interrupted : Waited
  failed : Waited

module _ {K Q : Type 0} (queue : TailQueue Q) where
  -- `e->queued = b`
  abbrev pub set_queued : Base K Q → ℕ → Bool → Base K Q
  set_queued eb a b = record eb { events = put eb.events a (record (eb.events a) { queued = b }) }

  unfoldable pub queued_event_readies : Base K Q → ℕ → Bool × Base K Q
  queued_event_readies eb a = if (a == null) || (eb.events a).queued then (false, eb) else (
    true,
    set_queued (record eb { event_readies = queue.insert_tail eb.event_readies a }) a true,
  )

  -- The `for` of `ebot_loop`, over what `epoll_wait` has given.
  unfoldable pub enqueue : Base K Q → List (ℕ × Mask) → Run (Base K Q)
  unfolding queued_event_readies read_wait write_wait
  enqueue eb [] = ok eb
  enqueue eb ((fd, kides) ∷ rest) = do
    eb ← if kides.input then (do a ← read_wait eb fd; ok (queued_event_readies eb a).1) else ok eb
    eb ← if kides.output then (do a ← write_wait eb fd; ok (queued_event_readies eb a).1) else ok eb
    enqueue eb rest

  -- `callback cb fd arg` is what a call of `e->cb(e->fd, e->arg)` does to the base and to all else,
  -- `W`. Each round takes one event; `fuel` bounds the rounds.
  module _ {W : Type 0} (callback : (cb fd arg : ℕ) → Base K Q × W → Run (Base K Q × W)) where
    -- One round: the event `a` leaves the queue, and its callback is called if it has one.
    unfoldable pub dispatch_one : Base K Q × W → ℕ → Run (Base K Q × W)
    dispatch_one (eb, world) a =
        let eb =
          set_queued (record eb { event_readies = queue.remove eb.event_readies a }) a false in
        let e = eb.events a in
        if meets e.kide read_write && not (e.cb == null)
        then callback e.cb e.fd e.arg (eb, world)
        else ok (eb, world)

    unfoldable pub dispatch_events : ℕ → Base K Q × W → Run (Base K Q × W)
    unfolding dispatch_one
    dispatch_events zero s = waits
    dispatch_events (suc fuel) (eb, world) = elim (queue.first eb.event_readies) [
      | none ↦ ok (eb, world)
      | some a ↦ (do s ← dispatch_one (eb, world) a; dispatch_events fuel s)
    ]

    -- `true` for the result 0, and `false` for -1.
    unfoldable pub loop : ℕ → Waited → Base K Q × W → Run (Bool × Base K Q × W)
    unfolding dispatch_events
    loop fuel interrupted (eb, world) = ok (true, eb, world)
    loop fuel failed (eb, world) = ok (false, eb, world)
    loop fuel (ready l) (eb, world) = do
      eb ← enqueue eb l
      (eb, world) ← dispatch_events fuel (eb, world)
      ok (true, eb, world)
