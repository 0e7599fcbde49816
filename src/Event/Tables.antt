-- ===== src/Event/Tables.antt =====
-- The tables of waiting events against the kernel's interest list, and `ebot_add_event`.
use ebot.Base.{
  ℕ, ◌<◌, ◌≡◌, ◌≢◌, refl, ◌∙◌, Bool, true, false, not, ◌&&◌, Option, none, some, arith, ltb, leb,
  ◌==◌, if◌then◌else◌, Returns, ok, inl, inr, Option-cases, Bool-cases, ℕ_discrete, lt→ltb,
  lt→not_leb,
}
use ebot.Event.{Base, put}
use ebot.Event.Ctl.{add_mask, add_op, enlist, add_event}
use ebot.Event.System.{Mask, Epoll, registers, meets}

-- The entry of a descriptor in the interest list, with what waits for it.
abbrev pub Entry : Option Mask → (r w : ℕ) → Type 0
Entry none r w = (r ≡ 0) × (w ≡ 0)
Entry (some m) r w = (m.input ≡ not (r == 0)) × (m.output ≡ not (w == 0)) × (r ≡ 0 → w ≢ 0)

pub kept : (i j a : ℕ) (f : ℕ → ℕ) (b : Bool) → j ≢ i → (if b then put f i a else f) j ≡ f j
kept i j a f b ne = ground arith

registers-add_op : (r w : ℕ) (m : Mask) → registers (add_op r w) m ≡ some m
registers-add_op r w m = ground arith

module _ {K Q : Type 0} (epoll : Epoll K) where
  pub record Agrees (eb : Base K Q) : Type 0 where
    pub entry :
        (fd : ℕ) → Entry (epoll.interest eb.kernel fd) (eb.read_waits fd) (eb.write_waits fd)
    pub reads : eb.read_room ≡ eb.wait_sz
    pub writes : eb.write_room ≡ eb.wait_sz

  enlist_lem :
      (eb : Base K Q) (a r w : ℕ)
      → eb.read_room ≡ eb.wait_sz
      → eb.write_room ≡ eb.wait_sz
      → (eb.events a).fd < eb.wait_sz
      → enlist epoll eb a r w
        ≡ ok (record eb {
          read_waits =
              if (eb.events a).kide.reads && (r == 0)
              then put eb.read_waits (eb.events a).fd a
              else eb.read_waits;
          write_waits =
              if (eb.events a).kide.writes && (w == 0)
              then put eb.write_waits (eb.events a).fd a
              else eb.write_waits;
        })
  unfolding enlist
  enlist_lem eb a r w hr hw fits = ground arith

  -- The state behind a call of `ebot_add_event` that reached the kernel.
  abbrev pub added : Base K Q → ℕ → K → Base K Q
  added eb a k =
      let e = eb.events a in
      record eb {
        kernel = k;
        read_waits =
            if e.kide.reads && (eb.read_waits e.fd == 0)
            then put eb.read_waits e.fd a
            else eb.read_waits;
        write_waits =
            if e.kide.writes && (eb.write_waits e.fd == 0)
            then put eb.write_waits e.fd a
            else eb.write_waits;
      }

  pub added_self :
      (eb : Base K Q) (a : ℕ) (k : K)
      → let e = eb.events a in
        let r = eb.read_waits e.fd in
        let w = eb.write_waits e.fd in
        (epoll.ctl eb.kernel (add_op r w) e.fd (add_mask e r w) ≡ some k
          → epoll.interest k e.fd ≡ some (add_mask e r w))
  added_self eb a k c =
      let e = eb.events a in
      epoll.ctl_self _ _ _ _ k c
      ∙ registers-add_op (eb.read_waits e.fd) (eb.write_waits e.fd)
          (add_mask e (eb.read_waits e.fd) (eb.write_waits e.fd))

  added-Entry :
      (eb : Base K Q) (a : ℕ)
      → a ≢ 0
      → meets (eb.events a).kide eb.kides ≡ true
      → let e = eb.events a in
        let r = eb.read_waits e.fd in
        let w = eb.write_waits e.fd in
        Entry
          (some (add_mask e r w))
          ((if e.kide.reads && (r == 0) then put eb.read_waits e.fd a else eb.read_waits) e.fd)
          ((if e.kide.writes && (w == 0) then put eb.write_waits e.fd a else eb.write_waits) e.fd)
  added-Entry eb a ne wanted = ground (arith, wanted)

  pub added-Agrees :
      (eb : Base K Q) (a : ℕ) (k : K)
      → Agrees eb
      → a ≢ 0
      → meets (eb.events a).kide eb.kides ≡ true
      → let e = eb.events a in
        let r = eb.read_waits e.fd in
        let w = eb.write_waits e.fd in
        epoll.ctl eb.kernel (add_op r w) e.fd (add_mask e r w) ≡ some k → Agrees (added eb a k)
  added-Agrees eb a k g ne wanted c = record {
    entry = λ fd. elim (ℕ_discrete fd (eb.events a).fd) [
      | yes here ↦ rw (here, added_self eb a k c) (added-Entry eb a ne wanted)
      | no other ↦
          rw
            (
              epoll.ctl_other _ _ _ _ k fd c other,
              kept (eb.events a).fd fd a eb.read_waits
                  ((eb.events a).kide.reads && (eb.read_waits (eb.events a).fd == 0)) other,
              kept (eb.events a).fd fd a eb.write_waits
                  ((eb.events a).kide.writes && (eb.write_waits (eb.events a).fd == 0)) other,
            )
            (g.entry fd)
    ];
    reads = g.reads;
    writes = g.writes;
  }

  -- Where the kernel takes the entry, the call works.
  pub add_event-works :
      (eb : Base K Q) (a : ℕ) (read_ok write_ok : Bool) (k : K)
      → Agrees eb
      → (eb.events a).fd < eb.wait_sz
      → let e = eb.events a in
        let r = eb.read_waits e.fd in
        let w = eb.write_waits e.fd in
        (meets e.kide eb.kides ≡ true
          → epoll.ctl eb.kernel (add_op r w) e.fd (add_mask e r w) ≡ some k
          → add_event epoll eb a read_ok write_ok ≡ ok (true, added eb a k))
  unfolding add_event
  add_event-works eb a read_ok write_ok k g fits wanted c =
      let e = eb.events a in
      let r = eb.read_waits e.fd in
      let w = eb.write_waits e.fd in
      let rr : ltb e.fd eb.read_room ≡ true = rw g.reads (lt→ltb e.fd eb.wait_sz fits) in
      let ww : ltb e.fd eb.write_room ≡ true = rw g.writes (lt→ltb e.fd eb.wait_sz fits) in
      let sz : leb eb.wait_sz e.fd ≡ false = lt→not_leb eb.wait_sz e.fd fits in
      rw
        (
          wanted,
          rr,
          ww,
          sz,
          c,
          sz,
          enlist_lem (record eb { kernel = k }) a r w g.reads g.writes fits,
        )
        refl

  -- `ebot_add_event` of an event, not `NULL`, for a descriptor below `wait_sz` keeps the tables and
  -- the kernel in agreement. Where it returns -1 nothing has
  -- changed; where it returns 0 something waits for each kind of the event.
  pub add-Agrees :
      (eb : Base K Q) (a : ℕ) (read_ok write_ok : Bool)
      → Agrees eb
      → a ≢ 0
      → (eb.events a).fd < eb.wait_sz
      → let e = eb.events a in
        Returns
          (λ (done, eb').
            Agrees eb'
            × (done ≡ false → eb' ≡ eb)
            × (done ≡ true → e.kide.reads ≡ true → eb'.read_waits e.fd ≢ 0)
            × (done ≡ true → e.kide.writes ≡ true → eb'.write_waits e.fd ≢ 0))
          (add_event epoll eb a read_ok write_ok)
  unfolding add_event
  add-Agrees eb a read_ok write_ok g ne fits =
      let e = eb.events a in
      let r = eb.read_waits e.fd in
      let w = eb.write_waits e.fd in
      let rr : ltb e.fd eb.read_room ≡ true = rw g.reads (lt→ltb e.fd eb.wait_sz fits) in
      let ww : ltb e.fd eb.write_room ≡ true = rw g.writes (lt→ltb e.fd eb.wait_sz fits) in
      let sz : leb eb.wait_sz e.fd ≡ false = lt→not_leb eb.wait_sz e.fd fits in
      elim (Bool-cases (meets e.kide eb.kides)) [
        | inr no_kind ↦ rw no_kind (g, λ h. refl, λ h. cc, λ h. cc)
        | inl wanted ↦
            elim (Option-cases (epoll.ctl eb.kernel (add_op r w) e.fd (add_mask e r w))) [
              | inl c ↦ rw (wanted, rr, ww, sz, c, sz) (g, λ h. refl, λ h. cc, λ h. cc)
              | inr (k, c) ↦ rw (add_event-works eb a read_ok write_ok k g fits wanted c) (
                added-Agrees eb a k g ne wanted c,
                λ h. cc,
                λ d h. ground arith,
                λ d h. ground arith,
              )
            ]
      ]
