-- ===== src/Event/Round.antt =====
-- One call of `ebot_loop`.
use ebot.Base.{
  ℕ, ◌+◌, ◌<◌, ◌≤◌, ◌≡◌, ◌≢◌, refl, sym, ap, ◌∙◌, true, false, List, [], ◌∷◌, ◌++◌, arith, length,
  length-append, Run, Returns, Returns-bind, Returns-both, inl, inr, ◌⊎◌, ok,
}
use std.Path.{subst}
use ebot.Event.{Base, Event}
use ebot.Event.Dispatch.{calls, dispatch_fifo}
use ebot.Event.Loop.{ready, enqueue, dispatch_events, loop}
use ebot.Event.Queue.{Queued}
use ebot.Event.Marks.{Distinct}
use ebot.Event.Wanted.{Wanted, enqueue-Only}
use ebot.Pool.Links.{All, All-back}
use ebot.Event.Waking.{Known, Woken, enqueue-Queued}
use ebot.Event.System.{Mask, TailQueue, Absent, null}

module _ {W : Type 0} (act : (cb fd arg : ℕ) → W → W) where
  calls_kept :
      (e e' : ℕ → Event) (l : List ℕ) (world : W)
      → ((a : ℕ) → record (e' a) { queued = false } ≡ record (e a) { queued = false })
      → calls act e' l world ≡ calls act e l world
  calls_kept e e' [] world same = refl
  calls_kept e e' (a ∷ l) world same =
      let kide : (e' a).kide ≡ (e a).kide = ap (λ x. x.kide) (same a) in
      let cb : (e' a).cb ≡ (e a).cb = ap (λ x. x.cb) (same a) in
      let fd : (e' a).fd ≡ (e a).fd = ap (λ x. x.fd) (same a) in
      let arg : (e' a).arg ≡ (e a).arg = ap (λ x. x.arg) (same a) in
      rw (kide, cb, fd, arg) (calls_kept e e' l _ same)

-- What waits for the ready descriptors is in the list.
abbrev pub Reached : List ℕ → (r w : ℕ → ℕ) → List (ℕ × Mask) → Type 0
Reached order r w [] = Unit
Reached order r w ((fd, m) ∷ rest) =
    (m.input ≡ true → r fd ≢ null → Absent (r fd) order → ⊥)
    × (m.output ≡ true → w fd ≢ null → Absent (w fd) order → ⊥)
    × Reached order r w rest

-- The event waits for a ready descriptor, to read from it where there is input and to write to it
-- where there is output.
abbrev pub Asked : (r w : ℕ → ℕ) → List (ℕ × Mask) → ℕ → Type 0
Asked r w [] a = ⊥
Asked r w ((fd, m) ∷ rest) a =
    ((m.input ≡ true) × (r fd ≡ a)) ⊎ (((m.output ≡ true) × (w fd ≡ a)) ⊎ Asked r w rest a)

others_than : (x : ℕ) (xs ys : List ℕ) → Absent x (xs ++ ys) → All (λ y. y ≢ x) ys
others_than x [] [] out = tt
others_than x [] (y ∷ ys) (ne, out) = ((λ e. ne (sym e)), others_than x [] ys out)
others_than x (z ∷ xs) ys (ne, out) = others_than x xs ys out

All-both :
    (P R S : ℕ → Type 0) (f : (a : ℕ) → P a → R a → S a) (l : List ℕ) → All P l → All R l → All S l
All-both P R S f [] p r = tt
All-both P R S f (a ∷ l) (p, ps) (r, rs) = (f a p r, All-both P R S f l ps rs)

-- What stands behind is not in front.
All-new : (xs ys : List ℕ) → Distinct (xs ++ ys) → All (λ y. Absent y xs) ys
All-new [] [] d = tt
All-new [] (y ∷ ys) (out, d) = (tt, All-new [] ys d)
All-new (x ∷ xs) ys (out, d) =
    All-both (λ y. y ≢ x) (λ y. Absent y xs) (λ y. Absent y (x ∷ xs)) (λ a ne gone. (ne, gone)) ys
      (others_than x xs ys out) (All-new xs ys d)

old : (P : ℕ → Type 0) (l : List ℕ) → ((a : ℕ) → (Absent a l → ⊥) → P a) → All P l
old P [] h = tt
old P (a ∷ l) h = (h a (λ (ne, _). ne refl), old P l (λ b there. h b (λ (_, gone). there gone)))

asks :
    (P : ℕ → Type 0) (r w : ℕ → ℕ) (l : List (ℕ × Mask))
    → ((a : ℕ) → Asked r w l a → P a)
    → Wanted P r w l
asks P r w [] h = tt
asks P r w ((fd, m) ∷ rest) h = (
  (λ on ne. h (r fd) (inl (on, refl))),
  (λ on ne. h (w fd) (inr (inl (on, refl)))),
  asks P r w rest (λ a there. h a (inr (inr there))),
)

module _ {K Q : Type 0} (queue : TailQueue Q) where
  Woken-Reached :
      (eb : Base K Q) (order : List ℕ) (r w : ℕ → ℕ) (l : List (ℕ × Mask))
      → Queued queue eb
      → queue.items eb.event_readies ≡ order
      → Woken queue eb r w l
      → Reached order r w l
  Woken-Reached eb order r w [] q e h = tt
  Woken-Reached eb order r w ((fd, m) ∷ rest) q e (hr, hw, h) = (
    (λ i n gone. q.held (r fd) (hr i n) (subst (Absent (r fd)) (sym e) gone)),
    (λ o n gone. q.held (w fd) (hw o n) (subst (Absent (w fd)) (sym e) gone)),
    Woken-Reached eb order r w rest q e h,
  )

  module _ {W : Type 0} (callback : (cb fd arg : ℕ) → Base K Q × W → Run (Base K Q × W))
      (act : (cb fd arg : ℕ) → W → W)
      (quiet : (cb fd arg : ℕ) (eb : Base K Q) (world : W)
        → callback cb fd arg (eb, world) ≡ ok (eb, act cb fd arg world)) where
    -- A call of `ebot_loop` in which `epoll_wait` gives descriptors that have entries in the arrays
    -- comes to its end with the result 0, if the callbacks leave the base alone and there is a
    -- round for each event in the queue, two for each descriptor, and one more. The callbacks of
    -- the events that were in the queue are called first, and then those of the events that have
    -- become ready, what waits for each descriptor among them, and nothing but what waits for one,
    -- to read from it where there is input and to write to it where there is output; then nothing
    -- is queued.
    pub loop_fifo :
        (l : List (ℕ × Mask)) (fuel : ℕ) (eb : Base K Q) (world : W)
        → Queued queue eb
        → Known queue eb l
        → length (queue.items eb.event_readies) + (length l + length l) < fuel
        → Returns
            (λ (done, eb', world').
              (done ≡ true)
              × (queue.items eb'.event_readies ≡ [])
              × ((a : ℕ) → (eb'.events a).queued ≡ false)
              × (more : List ℕ) × (world'
                  ≡ calls act eb.events (queue.items eb.event_readies ++ more) world)
              × Reached (queue.items eb.event_readies ++ more) eb.read_waits eb.write_waits l
              × All (Asked eb.read_waits eb.write_waits l) more)
            (loop queue callback fuel (ready l) (eb, world))
    unfolding loop
    loop_fifo l fuel eb world q known enough =
        let before = queue.items eb.event_readies in
        let P : ℕ → Type 0 = λ a. Asked eb.read_waits eb.write_waits l a ⊎ (Absent a before → ⊥) in
        Returns-bind _ _ (enqueue queue eb l) _
          (Returns-both _ _ (enqueue queue eb l) (enqueue-Queued queue eb l q known) (
            enqueue-Only queue P eb l q known (asks P eb.read_waits eb.write_waits l (λ a h. inl h))
              (old P before (λ a h. inr h))))
          (λ eb' ((g, woken), (only, _)).
            let asked : All (Asked eb.read_waits eb.write_waits l) g.more =
              All-both (λ y. Absent y before) P (Asked eb.read_waits eb.write_waits l)
                (λ a gone h. elim h [ inl x ↦ x | inr there ↦ absurd (there gone) ]) g.more
                (All-new before g.more (subst Distinct g.items g.queued.distinct))
                (All-back P before g.more (subst (All P) g.items only)) in
            let order = queue.items eb.event_readies ++ g.more in
            let count : length order
                ≤ length (queue.items eb.event_readies) + (length l + length l) =
              omega (arith, length-append (queue.items eb.event_readies) g.more, g.few) in
            Returns-bind _ _ (dispatch_events queue callback fuel (eb', world)) _
              (dispatch_fifo queue callback act quiet order fuel eb' world g.queued g.items
                (omega (arith, count, enough)))
              (λ (eb'', world') (gone, idle, called). (
                refl,
                gone,
                idle,
                g.more,
                called ∙ calls_kept act eb.events eb'.events order world g.same,
                Woken-Reached eb' order eb.read_waits eb.write_waits l g.queued g.items woken,
                asked,
              )))
