-- ===== src/Event/Queue.antt =====
-- The queue of ready events and the flag `queued`.
use ebot.Event.Marks.{
  Distinct, Marked, Absent-append, append-Absent, Distinct-append, Marked-append, Marked_put,
  queued_put, put_queued,
}
use ebot.Base.{
  ℕ, ◌+◌, ◌≤◌, length, length-append, ◌≡◌, ◌≢◌, refl, sym, ap, ◌∙◌, true, false, List, [], ◌∷◌,
  ◌++◌, arith, inl, inr, Bool-cases, ℕ_discrete, ne→not_==, eq→==,
}
use mathlib.Core.List.{append-nil, append_assoc}
use ebot.Event.{Base, put}
use ebot.Event.Loop.{queued_event_readies, set_queued}
use ebot.Event.System.{TailQueue, Absent, null}

module _ {K Q : Type 0} (queue : TailQueue Q) where
  pub record Queued (eb : Base K Q) : Type 0 where
    pub idle : (a : ℕ) → (eb.events a).queued ≡ false → Absent a (queue.items eb.event_readies)
    pub held : (a : ℕ) → (eb.events a).queued ≡ true → Absent a (queue.items eb.event_readies) → ⊥
    pub marked : Marked eb.events (queue.items eb.event_readies)
    pub distinct : Distinct (queue.items eb.event_readies)
    pub real : Absent null (queue.items eb.event_readies)

  pub queue_up_lem :
      (eb : Base K Q) (a : ℕ)
      → Queued eb
      → a ≢ null
      → (eb.events a).queued ≡ false
      → queue.items (queue.insert_tail eb.event_readies a)
        ≡ queue.items eb.event_readies ++ (a ∷ [])
  queue_up_lem eb a q ne f = queue.items-insert_tail eb.event_readies a (q.idle a f)

  queue_up-Queued :
      (eb : Base K Q) (a : ℕ)
      → Queued eb
      → a ≢ null
      → (eb.events a).queued ≡ false
      → Queued (
          set_queued queue
            (record eb { event_readies = queue.insert_tail eb.event_readies a })
            a
            true)
  queue_up-Queued eb a q ne f = record {
    idle = λ b h.
        let (other, was) = queued_put eb.events b a h in
        rw (queue_up_lem eb a q ne f)
          (Absent-append b a (queue.items eb.event_readies) (q.idle b was) other);
    held = λ b h. rw (queue_up_lem eb a q ne f) (λ gone.
        let (old, other) = append-Absent b a (queue.items eb.event_readies) gone in
        q.held b (put_queued eb.events b a h other) old);
    marked = rw (queue_up_lem eb a q ne f) (
        Marked-append (put eb.events a (record (eb.events a) { queued = true })) a
          (queue.items eb.event_readies)
          (Marked_put eb.events a _ (queue.items eb.event_readies) q.marked (inr refl))
          (rw (eq→== a a refl)));
    distinct = rw (queue_up_lem eb a q ne f) (Distinct-append a _ (q.idle a f) q.distinct);
    real = rw (queue_up_lem eb a q ne f) (Absent-append 0 a _ q.real (λ e. ne (sym e)));
  }

  -- From the base `eb` at most `n` events have been put in at the end of the queue, and nothing
  -- else is new.
  pub record Grows (n : ℕ) (eb eb' : Base K Q) : Type 0 where
    pub queued : Queued eb'
    pub more : List ℕ
    pub few : length more ≤ n
    pub same :
        (a : ℕ) → record (eb'.events a) { queued = false } ≡ record (eb.events a) { queued = false }
    pub items : queue.items eb'.event_readies ≡ queue.items eb.event_readies ++ more
    pub stays : (a : ℕ) → (eb.events a).queued ≡ true → (eb'.events a).queued ≡ true
    pub reads : eb'.read_waits ≡ eb.read_waits
    pub writes : eb'.write_waits ≡ eb.write_waits
    pub read_same : eb'.read_room ≡ eb.read_room
    pub write_same : eb'.write_room ≡ eb.write_room

  pub Grows-refl : (n : ℕ) (eb : Base K Q) → Queued eb → Grows n eb eb
  Grows-refl n eb q = record {
    queued = q;
    more = [];
    few = omega arith;
    same = λ a. refl;
    items = sym (append-nil (queue.items eb.event_readies));
    stays = λ a h. h;
    reads = refl;
    writes = refl;
    read_same = refl;
    write_same = refl;
  }

  pub Grows-trans : (n m : ℕ) (x y z : Base K Q) → Grows n x y → Grows m y z → Grows (n + m) x z
  Grows-trans n m x y z g h = record {
    queued = h.queued;
    more = g.more ++ h.more;
    few = omega (arith, length-append g.more h.more, g.few, h.few);
    same = λ a. h.same a ∙ g.same a;
    items =
        h.items
        ∙ ap (λ l. l ++ h.more) g.items
        ∙ append_assoc (queue.items x.event_readies) g.more h.more;
    stays = λ a t. h.stays a (g.stays a t);
    reads = h.reads ∙ g.reads;
    writes = h.writes ∙ g.writes;
    read_same = h.read_same ∙ g.read_same;
    write_same = h.write_same ∙ g.write_same;
  }

  pub Grows-most : {n m : ℕ} {x y : Base K Q} → n ≤ m → Grows n x y → Grows m x y
  Grows-most h g = record {
    queued = g.queued;
    more = g.more;
    few = omega (arith, g.few, h);
    same = g.same;
    items = g.items;
    stays = g.stays;
    reads = g.reads;
    writes = g.writes;
    read_same = g.read_same;
    write_same = g.write_same;
  }

  pub queued_event_readies_lem :
      (eb : Base K Q) (a : ℕ)
      → Queued eb
      → let eb' = (queued_event_readies queue eb a).1 in
        Grows 1 eb eb' × (a ≢ null → (eb'.events a).queued ≡ true)
  unfolding queued_event_readies
  queued_event_readies_lem eb a q = elim (ℕ_discrete a null) [
    | yes e ↦ rw (eq→== a null e) (Grows-refl 1 eb q, λ ne. absurd (ne e))
    | no ne ↦ elim (Bool-cases (eb.events a).queued) [
      | inl busy ↦ rw (ne→not_== a null ne, busy) (Grows-refl 1 eb q, λ h. busy)
      | inr free ↦
          rw (ne→not_== a null ne, free)
            (
              record {
                queued = queue_up-Queued eb a q ne free;
                more = a ∷ [];
                few = omega arith;
                same = λ b. ground arith;
                items = queue_up_lem eb a q ne free;
                stays = λ b t. ground arith;
                reads = refl;
                writes = refl;
                read_same = refl;
                write_same = refl;
              },
              λ h. rw (eq→== a a refl),
            )
    ]
  ]
