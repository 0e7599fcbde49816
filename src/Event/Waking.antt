-- ===== src/Event/Waking.antt =====
-- The `for` of `ebot_loop`: what becomes ready is put into the queue.
use ebot.Base.{
  ℕ, ◌+◌, length, ◌<◌, ◌≡◌, ◌≢◌, refl, ap, Bool, true, false, List, [], ◌∷◌, arith, if◌then◌else◌,
  Returns, ok, lt→ltb, Returns-map, ◌>>=◌,
}
use std.Path.{transport}
use ebot.Event.{Base, read_wait, write_wait}
use ebot.Event.Loop.{queued_event_readies, enqueue}
use ebot.Event.System.{Mask, TailQueue, null}
use ebot.Event.Queue.{Queued, Grows, Grows-refl, Grows-trans, Grows-most, queued_event_readies_lem}

module _ {K Q : Type 0} (queue : TailQueue Q) where
  -- What waits for the ready descriptors of `l` is marked as queued.
  abbrev pub Woken : Base K Q → (ℕ → ℕ) → (ℕ → ℕ) → List (ℕ × Mask) → Type 0
  Woken eb r w [] = Unit
  Woken eb r w ((fd, m) ∷ rest) =
      (m.input ≡ true → r fd ≢ null → (eb.events (r fd)).queued ≡ true)
      × (m.output ≡ true → w fd ≢ null → (eb.events (w fd)).queued ≡ true)
      × Woken eb r w rest

  -- The descriptors that `epoll_wait` may give: those that have an entry in the arrays.
  abbrev pub Known : Base K Q → List (ℕ × Mask) → Type 0
  Known eb [] = Unit
  Known eb ((fd, m) ∷ rest) = (fd < eb.read_room) × (fd < eb.write_room) × Known eb rest

  pub Known-same :
      (x y : Base K Q) (l : List (ℕ × Mask))
      → y.read_room ≡ x.read_room
      → y.write_room ≡ x.write_room
      → Known x l
      → Known y l
  Known-same x y [] r w h = tt
  Known-same x y ((fd, m) ∷ rest) r w (a, b, h) =
      (omega (arith, r, a), omega (arith, w, b), Known-same x y rest r w h)

  Woken-same :
      {r r' w w' : ℕ → ℕ} (z : Base K Q) (l : List (ℕ × Mask))
      → r' ≡ r
      → w' ≡ w
      → Woken z r' w' l
      → Woken z r w l
  Woken-same z l er ew h = transport (λ i. Woken z (er i) (ew i) l) h

  -- One half of the body of the `for`, for a flag of the descriptor and the event `a` that waits.
  abbrev pub half : Base K Q → Bool → ℕ → Base K Q
  half eb b a = if b then (queued_event_readies queue eb a).1 else eb

  pub half_lem :
      (eb : Base K Q) (b : Bool) (a : ℕ)
      → Queued queue eb
      → Grows queue 1 eb (half eb b a)
        × (b ≡ true → a ≢ null → ((half eb b a).events a).queued ≡ true)
  half_lem eb true a q = let (g, h) = queued_event_readies_lem queue eb a q in (g, λ z. h)
  half_lem eb false a q = (Grows-refl queue 1 eb q, λ z. cc)

  read_half :
      (eb : Base K Q) (b : Bool) (fd : ℕ)
      → fd < eb.read_room
      → (if b then (do a ← read_wait eb fd; ok (queued_event_readies queue eb a).1) else ok eb)
        ≡ ok (half eb b (eb.read_waits fd))
  unfolding read_wait
  read_half eb true fd h = rw (lt→ltb fd eb.read_room h)
  read_half eb false fd h = refl

  write_half :
      (eb : Base K Q) (b : Bool) (fd a : ℕ)
      → fd < eb.write_room
      → eb.write_waits fd ≡ a
      → (if b then (do a ← write_wait eb fd; ok (queued_event_readies queue eb a).1) else ok eb)
        ≡ ok (half eb b a)
  unfolding write_wait
  write_half eb true fd a h e = rw (lt→ltb fd eb.write_room h, e)
  write_half eb false fd a h e = refl

  pub enqueue_step :
      (eb : Base K Q) (fd : ℕ) (m : Mask) (rest : List (ℕ × Mask))
      → Queued queue eb
      → fd < eb.read_room
      → fd < eb.write_room
      → enqueue queue eb ((fd, m) ∷ rest)
        ≡ enqueue queue
            (half (half eb m.input (eb.read_waits fd)) m.output (eb.write_waits fd))
            rest
  unfolding enqueue
  enqueue_step eb fd m rest q hr hw =
      let eb' = half eb m.input (eb.read_waits fd) in
      let (g, wake) = half_lem eb m.input (eb.read_waits fd) q in
      rw (
        read_half eb m.input fd hr,
        write_half eb' m.output fd (eb.write_waits fd) (omega (arith, g.write_same))
            (ap (λ f. f fd) g.writes),
      )

  -- The `for` of `ebot_loop`, over descriptors that have an entry in the arrays, comes to its end
  -- and keeps the order: the events that become ready stand behind those that were in the queue,
  -- the flags tell what is in the queue, each event is in it once, what waits for a ready
  -- descriptor is in it, and for each ready descriptor at most two events are new in it.
  pub enqueue-Queued :
      (eb : Base K Q) (l : List (ℕ × Mask))
      → Queued queue eb
      → Known eb l
      → Returns
          (λ eb'.
            Grows queue (length l + length l) eb eb' × Woken eb' eb.read_waits eb.write_waits l)
          (enqueue queue eb l)
  unfolding enqueue
  enqueue-Queued eb [] q k = (Grows-refl queue 0 eb q, tt)
  enqueue-Queued eb ((fd, m) ∷ rest) q (hr, hw, k) =
      let (g, read_woken) = half_lem eb m.input (eb.read_waits fd) q in
      let eb' = half eb m.input (eb.read_waits fd) in
      let (g', write_woken) = half_lem eb' m.output (eb.write_waits fd) g.queued in
      let eb'' = half eb' m.output (eb.write_waits fd) in
      let both = Grows-trans queue 1 1 eb eb' eb'' g g' in
      rw (enqueue_step eb fd m rest q hr hw) (
        Returns-map (enqueue queue eb'' rest)
          (λ z (grown, woken). (
            Grows-most queue (omega arith)
                (Grows-trans queue 2 (length rest + length rest) eb eb'' z both grown),
            (
              (λ b ne. grown.stays _ (g'.stays _ (read_woken b ne))),
              (λ b ne. grown.stays _ (write_woken b ne)),
              Woken-same z rest both.reads both.writes woken,
            ),
          ))
          (enqueue-Queued eb'' rest both.queued
            (Known-same eb eb'' rest both.read_same both.write_same k)))
