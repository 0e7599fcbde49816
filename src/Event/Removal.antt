-- ===== src/Event/Removal.antt =====
-- `ebot_del_event` and the tables of waiting events.
use ebot.Base.{
  ℕ, ◌<◌, ◌≡◌, refl, Bool, true, false, not, ◌&&◌, some, arith, ltb, ◌==◌, if◌then◌else◌, Returns,
  ok, fault, inl, inr, Option-cases, ℕ_discrete,
}
use ebot.Event.{Base, Event, put}
use ebot.Event.Ctl.{del_plan, Plan, delist, settle, del_event}
use ebot.Event.System.{Epoll, registers}
use ebot.Event.Tables.{Entry, Agrees, kept}

-- The code reads a table only where its plan turns on it.
read_lazily :
    (e : Event) (room r : ℕ) (b : Bool)
    → e.fd < room
    → (if b then (if ltb e.fd room then ok r else fault) else ok 0) ≡ ok (if b then r else 0)
read_lazily e room r b h = ground arith

plan_lazily :
    (e : Event) (r w : ℕ)
    → let w' = (if e.kide.reads then w else 0) in
      del_plan e (if e.kide.writes && not (e.kide.reads && not (w' == 0)) then r else 0) w'
      ≡ del_plan e r w
plan_lazily e r w = ground arith

module _ {K Q : Type 0} (epoll : Epoll K) where
  -- The state behind a call of `ebot_del_event` that worked.
  abbrev pub removed : Base K Q → ℕ → K → Base K Q
  removed eb a k =
      let e = eb.events a in
      let plan = del_plan e (eb.read_waits e.fd) (eb.write_waits e.fd) in
      record eb {
        kernel = k;
        read_waits = if plan.rd then put eb.read_waits e.fd 0 else eb.read_waits;
        write_waits = if plan.wd then put eb.write_waits e.fd 0 else eb.write_waits;
      }

  removed-Entry :
      (eb : Base K Q) (a : ℕ)
      → let e = eb.events a in
        let plan = del_plan e (eb.read_waits e.fd) (eb.write_waits e.fd) in
        Entry
          (registers plan.op plan.mask)
          ((if plan.rd then put eb.read_waits e.fd 0 else eb.read_waits) e.fd)
          ((if plan.wd then put eb.write_waits e.fd 0 else eb.write_waits) e.fd)
  removed-Entry eb a = ground arith

  pub removed-Agrees :
      (eb : Base K Q) (a : ℕ) (k : K)
      → Agrees epoll eb
      → let e = eb.events a in
        let plan = del_plan e (eb.read_waits e.fd) (eb.write_waits e.fd) in
        (epoll.ctl eb.kernel plan.op e.fd plan.mask ≡ some k → Agrees epoll (removed eb a k))
  removed-Agrees eb a k g c =
      let e = eb.events a in
      let plan = del_plan e (eb.read_waits e.fd) (eb.write_waits e.fd) in
      record {
        entry = λ fd. elim (ℕ_discrete fd e.fd) [
          | yes here ↦ rw (here, epoll.ctl_self _ _ _ _ k c) (removed-Entry eb a)
          | no other ↦
              rw
                (
                  epoll.ctl_other _ _ _ _ k fd c other,
                  kept e.fd fd 0 eb.read_waits plan.rd other,
                  kept e.fd fd 0 eb.write_waits plan.wd other,
                )
                (g.entry fd)
        ];
        reads = g.reads;
        writes = g.writes;
      }

  pub delist_lem :
      (eb : Base K Q) (plan : Plan) (fd : ℕ)
      → eb.read_room ≡ eb.wait_sz
      → eb.write_room ≡ eb.wait_sz
      → fd < eb.wait_sz
      → delist epoll eb plan fd
        ≡ ok (record eb {
          read_waits = if plan.rd then put eb.read_waits fd 0 else eb.read_waits;
          write_waits = if plan.wd then put eb.write_waits fd 0 else eb.write_waits;
        })
  unfolding delist
  delist_lem eb plan fd hr hw fits = ground arith

  pub del_event_lem :
      (eb : Base K Q) (a : ℕ)
      → Agrees epoll eb
      → (eb.events a).fd < eb.wait_sz
      → let e = eb.events a in
        let plan = del_plan e (eb.read_waits e.fd) (eb.write_waits e.fd) in
        del_event epoll eb a
        ≡ settle epoll eb plan e.fd (epoll.ctl eb.kernel plan.op e.fd plan.mask)
  unfolding del_event
  del_event_lem eb a g fits =
      let e = eb.events a in
      let w' = (if e.kide.reads then eb.write_waits e.fd else 0) in
      simp (
        read_lazily e eb.write_room (eb.write_waits e.fd) e.kide.reads (omega (arith, g.writes)),
        read_lazily e eb.read_room (eb.read_waits e.fd)
            (e.kide.writes && not (e.kide.reads && not (w' == 0))) (omega (arith, g.reads)),
        plan_lazily e (eb.read_waits e.fd) (eb.write_waits e.fd),
      )

  -- `ebot_del_event` of an event for a descriptor below `wait_sz` keeps the tables and the kernel
  -- in agreement. Where it returns -1 nothing has changed; where it returns 0 no read event waits
  -- for the descriptor of an event that is only for reading, and no write event for the descriptor
  -- of one that is only for writing.
  pub del-Agrees :
      (eb : Base K Q) (a : ℕ)
      → Agrees epoll eb
      → (eb.events a).fd < eb.wait_sz
      → let e = eb.events a in
        Returns
          (λ (done, eb').
            Agrees epoll eb'
            × (done ≡ false → eb' ≡ eb)
            × (done ≡ true → e.kide.reads ≡ true → e.kide.writes ≡ false → eb'.read_waits e.fd ≡ 0)
            × (done ≡ true
                → e.kide.reads ≡ false
                → e.kide.writes ≡ true
                → eb'.write_waits e.fd ≡ 0))
          (del_event epoll eb a)
  unfolding settle
  del-Agrees eb a g fits =
      let e = eb.events a in
      let plan = del_plan e (eb.read_waits e.fd) (eb.write_waits e.fd) in
      rw (del_event_lem eb a g fits)
        (elim (Option-cases (epoll.ctl eb.kernel plan.op e.fd plan.mask)) [
          | inl c ↦ rw c (g, λ h. refl, λ h. cc, λ h. cc)
          | inr (k, c) ↦
              rw (c, delist_lem (record eb { kernel = k }) plan e.fd g.reads g.writes fits)
                (removed-Agrees eb a k g c, λ h. cc, λ d h i. ground arith, λ d h i. ground arith)
        ])
