-- ===== src/Event/Dispatch.antt =====
-- `dispatch_events` and its rounds.
use ebot.Base.{
  ℕ, zero, suc, ◌<◌, ◌≡◌, ◌≢◌, refl, sym, ap, ◌∙◌, Bool, true, false, not, ◌&&◌, List, [], ◌∷◌,
  arith, length, ◌==◌, if◌then◌else◌, Run, Returns, ok, inl, inr, Bool-cases, ℕ_discrete, ne→not_==,
  eq→==, Returns-map, ◌>>=◌,
}
use mathlib.Core.List.{head?}
use std.Path.{subst}
use ebot.Event.{Base, Event, put}
use ebot.Event.Loop.{set_queued, dispatch_one, dispatch_events}
use ebot.Event.Marks.{Distinct, Marked, unqueued}
use ebot.Event.Queue.{Queued}
use ebot.Event.System.{TailQueue, Absent, meets, read_write, null}

module _ {W : Type 0} (act : (cb fd arg : ℕ) → W → W) where
  -- The callbacks of a list of events, one behind the other.
  abbrev pub calls : (ℕ → Event) → List ℕ → W → W
  calls events [] world = world
  calls events (a ∷ l) world =
      let e = events a in
      calls events l
        (if meets e.kide read_write && not (e.cb == null) then act e.cb e.fd e.arg world else world)

  -- The flag of an event has no part in that.
  calls_same :
      (events : ℕ → Event) (b : ℕ) (f : Bool) (l : List ℕ) (world : W)
      → calls (put events b (record (events b) { queued = f })) l world ≡ calls events l world
  calls_same events b f [] world = refl
  calls_same events b f (x ∷ xs) world = elim (ℕ_discrete x b) [
    | yes e ↦ rw (eq→== x b e, e) (calls_same events b f xs _)
    | no ne ↦ rw (ne→not_== x b ne) (calls_same events b f xs _)
  ]

Marked_taken :
    (events : ℕ → Event) (b : ℕ) (f : Bool) (l : List ℕ)
    → Absent b l
    → Marked events l
    → Marked (put events b (record (events b) { queued = f })) l
Marked_taken events b f [] n h = tt
Marked_taken events b f (x ∷ xs) (ne, n) (y, h) =
    (rw (ne→not_== x b (λ e. ne (sym e))) y, Marked_taken events b f xs n h)

taken_flag :
    (events : ℕ → Event) (a : ℕ) (f : Bool) (b : ℕ)
    → b ≢ a
    → (put events a (record (events a) { queued = f }) b).queued ≡ (events b).queued
taken_flag events a f b ne = rw (ne→not_== b a ne)

taken_self :
    (events : ℕ → Event) (a b : ℕ)
    → b ≡ a
    → (put events a (record (events a) { queued = false }) b).queued ≢ true
taken_self events a b e h = let z : ((b == a) ≡ true) = eq→== b a e in ground arith

if_ok :
    {A W : Type 0} (b : Bool) (a : A) (v w : W)
    → if◌then◌else◌ {A = Run (A × W)} b (ok (a, v)) (ok (a, w)) ≡ ok (a, if b then v else w)
if_ok true a v w = refl
if_ok false a v w = refl

module _ {K Q : Type 0} (queue : TailQueue Q) where
  -- The base behind the two assignments of a round.
  abbrev pub taken : Base K Q → ℕ → Base K Q
  taken eb a =
      set_queued queue (record eb { event_readies = queue.remove eb.event_readies a }) a false

  pub taken-Queued :
      (eb : Base K Q) (a : ℕ) (l : List ℕ)
      → Queued queue eb
      → queue.items eb.event_readies ≡ a ∷ l
      → Queued queue (taken eb a) × (queue.items (taken eb a).event_readies ≡ l)
  taken-Queued eb a l q e =
      let left : queue.items (queue.remove eb.event_readies a) ≡ l =
        queue.items-remove eb.event_readies a l e in
      let distinct : Distinct (a ∷ l) = subst Distinct e q.distinct in
      let marked : Marked eb.events (a ∷ l) = subst (Marked eb.events) e q.marked in
      let real : Absent null (a ∷ l) = subst (Absent null) e q.real in
      (
        record {
          idle = λ b h. rw left (elim (ℕ_discrete b a) [
            | yes same ↦ rw same distinct.0
            | no other ↦
                (subst (Absent b) e (q.idle b (sym (taken_flag eb.events a false b other) ∙ h))).1
          ]);
          held = λ b h. rw left (λ gone. elim (ℕ_discrete b a) [
            | yes same ↦ absurd (taken_self eb.events a b same h)
            | no other ↦
                q.held b (sym (taken_flag eb.events a false b other) ∙ h)
                  (subst (Absent b) (sym e) (other, gone))
          ]);
          marked = rw left (Marked_taken eb.events a false l distinct.0 marked.1);
          distinct = rw left distinct.1;
          real = rw left real.1;
        },
        left,
      )

  -- Nothing is queued where the queue is empty.
  all_idle :
      (eb : Base K Q) (a : ℕ)
      → Queued queue eb
      → queue.items eb.event_readies ≡ []
      → (eb.events a).queued ≡ false
  all_idle eb a q e = elim (Bool-cases (eb.events a).queued) [
    | inl busy ↦ absurd (q.held a busy (subst (Absent a) (sym e) tt))
    | inr free ↦ free
  ]

  -- A round calls the callback of its event.
  pub dispatch_one_calls :
      {W : Type 0} (callback : (cb fd arg : ℕ) → Base K Q × W → Run (Base K Q × W)) (eb : Base K Q)
      (a : ℕ) (e : Event) (world : W)
      → unqueued (eb.events a) ≡ e
      → (meets e.kide read_write && not (e.cb == null)) ≡ true
      → dispatch_one queue callback (eb, world) a ≡ callback e.cb e.fd e.arg (taken eb a, world)
  unfolding dispatch_one
  dispatch_one_calls callback eb a e world is on =
      let kide : (eb.events a).kide ≡ e.kide = ap (λ x. x.kide) is in
      let cb : (eb.events a).cb ≡ e.cb = ap (λ x. x.cb) is in
      let fd : (eb.events a).fd ≡ e.fd = ap (λ x. x.fd) is in
      let arg : (eb.events a).arg ≡ e.arg = ap (λ x. x.arg) is in
      rw (eq→== a a refl, kide, cb, fd, arg, on) refl

  module _ {W : Type 0} (callback : (cb fd arg : ℕ) → Base K Q × W → Run (Base K Q × W))
      (act : (cb fd arg : ℕ) → W → W)
      (quiet : (cb fd arg : ℕ) (eb : Base K Q) (world : W)
        → callback cb fd arg (eb, world) ≡ ok (eb, act cb fd arg world)) where
    dispatch_one_lem :
        (eb : Base K Q) (a : ℕ) (world : W)
        → dispatch_one queue callback (eb, world) a
          ≡ ok (
            taken eb a,
            (let e = eb.events a in
                if meets e.kide read_write && not (e.cb == null)
                then act e.cb e.fd e.arg world
                else world),
          )
    unfolding dispatch_one
    dispatch_one_lem eb a world =
        let e = eb.events a in
        rw (eq→== a a refl) (
          rw (quiet e.cb e.fd e.arg (taken eb a) world) (
            if_ok (meets e.kide read_write && not (e.cb == null)) (taken eb a)
              (act e.cb e.fd e.arg world) world))

    round_none :
        (fuel : ℕ) (eb : Base K Q) (world : W)
        → queue.items eb.event_readies ≡ []
        → dispatch_events queue callback (suc fuel) (eb, world) ≡ ok (eb, world)
    unfolding dispatch_events
    round_none fuel eb world e =
        rw (dispatch_events, queue.first-items eb.event_readies ∙ ap head? e)

    round_some :
        (fuel : ℕ) (eb : Base K Q) (world : W) (a : ℕ) (l : List ℕ)
        → queue.items eb.event_readies ≡ a ∷ l
        → dispatch_events queue callback (suc fuel) (eb, world)
          ≡ (dispatch_one queue callback (eb, world) a >>= dispatch_events queue callback fuel)
    unfolding dispatch_events
    round_some fuel eb world a l e =
        rw (dispatch_events, queue.first-items eb.event_readies ∙ ap head? e)

    -- `dispatch_events` comes to its end as soon as it has a round for each event in the queue and
    -- one for the test, if the callbacks leave the base alone: then the queue is empty, no event is
    -- marked as queued, and the callbacks of the events have been called in the order of the queue,
    -- each once.
    pub dispatch_fifo :
        (l : List ℕ) (fuel : ℕ) (eb : Base K Q) (world : W)
        → Queued queue eb
        → queue.items eb.event_readies ≡ l
        → length l < fuel
        → Returns
            (λ (eb', world').
              (queue.items eb'.event_readies ≡ [])
              × ((a : ℕ) → (eb'.events a).queued ≡ false)
              × (world' ≡ calls act eb.events l world))
            (dispatch_events queue callback fuel (eb, world))
    dispatch_fifo l zero eb world q e h = absurd (omega arith)
    dispatch_fifo [] (suc fuel) eb world q e h =
        rw (round_none fuel eb world e) (e, (λ a. all_idle eb a q e), refl)
    dispatch_fifo (a ∷ l) (suc fuel) eb world q e h =
        let (q', e') = taken-Queued eb a l q e in
        rw (round_some fuel eb world a l e, dispatch_one_lem eb a world)
          (Returns-map (dispatch_events queue callback fuel (taken eb a, _))
            (λ s (gone, idle, called). (gone, idle, called ∙ calls_same act eb.events a false l _))
            (dispatch_fifo l fuel (taken eb a) _ q' e' (omega arith)))
