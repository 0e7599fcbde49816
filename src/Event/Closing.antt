-- ===== src/Event/Closing.antt =====
-- `ebot_del_event` for the two events of a connection, where the kernel does as it is asked.
use ebot.Base.{ℕ, ◌<◌, ◌≡◌, ◌≢◌, refl, sym, ap, ◌∙◌, true, Option, none, some, arith, Returns, ok}
use ebot.Event.{Base, Event}
use ebot.Event.Ctl.{del_plan, settle, del_event}
use ebot.Event.Removal.{removed, removed-Agrees, delist_lem, del_event_lem}
use ebot.Event.System.{Mask, ctl_add, Epoll, Obeys, read_only, write_only}
use ebot.Event.Tables.{Entry, Agrees, kept}

del_plan-op : (e : Event) (r w : ℕ) → (del_plan e r w).op ≢ ctl_add
del_plan-op e r w = ground arith

-- A descriptor for which something waits is in the interest list.
pub Entry-some :
    (o : Option Mask) (r w : ℕ) → Entry o r w → (r ≡ 0 → w ≢ 0) → (m : Mask) × (o ≡ some m)
Entry-some none r w h one = absurd (one h.0 h.1)
Entry-some (some m) r w h one = (m, refl)

-- Nothing but the entries of one descriptor is different.
abbrev pub Untouched : {K Q : Type 0} → (fd : ℕ) → Base K Q → Base K Q → Type 0
Untouched fd eb eb' =
    (eb'.wait_sz ≡ eb.wait_sz)
    × (eb'.events ≡ eb.events)
    × (eb'.event_readies ≡ eb.event_readies)
    × (eb'.kides ≡ eb.kides)
    × ((j : ℕ)
        → j ≢ fd
        → (eb'.read_waits j ≡ eb.read_waits j) × (eb'.write_waits j ≡ eb.write_waits j))

module _ {K Q : Type 0} (epoll : Epoll K) (obeys : Obeys epoll) where
  del_works :
      (eb : Base K Q) (a : ℕ)
      → Agrees epoll eb
      → (eb.events a).fd < eb.wait_sz
      → (eb.read_waits (eb.events a).fd ≡ 0 → eb.write_waits (eb.events a).fd ≢ 0)
      → (k : K) × Agrees epoll (removed epoll eb a k)
        × (del_event epoll eb a ≡ ok (true, removed epoll eb a k))
  unfolding settle
  del_works eb a g fits one =
      let e = eb.events a in
      let r = eb.read_waits e.fd in
      let w = eb.write_waits e.fd in
      let plan = del_plan e r w in
      let (m, there) = Entry-some (epoll.interest eb.kernel e.fd) r w (g.entry e.fd) one in
      let (k, c) = obeys eb.kernel plan.op e.fd plan.mask m there (del_plan-op e r w) in
      (
        k,
        removed-Agrees epoll eb a k g c,
        rw
            (
              del_event_lem epoll eb a g fits,
              c,
              delist_lem epoll (record eb { kernel = k }) plan e.fd g.reads g.writes fits,
            )
            refl,
      )

  module _ (eb : Base K Q) (a fd : ℕ) (at : (eb.events a).fd ≡ fd) (k : K) where
    removed-Untouched : Untouched fd eb (removed epoll eb a k)
    removed-Untouched = (
      refl,
      refl,
      refl,
      refl,
      λ j ne. (
        kept (eb.events a).fd j 0 eb.read_waits
            (del_plan (eb.events a) (eb.read_waits (eb.events a).fd)
              (eb.write_waits (eb.events a).fd)).rd
            (λ e. ne (e ∙ at)),
        kept (eb.events a).fd j 0 eb.write_waits
            (del_plan (eb.events a) (eb.read_waits (eb.events a).fd)
              (eb.write_waits (eb.events a).fd)).wd
            (λ e. ne (e ∙ at)),
      ),
    )

    removed_reads :
        (eb.events a).kide ≡ read_only
        → ((removed epoll eb a k).read_waits fd ≡ 0)
          × ((removed epoll eb a k).write_waits fd ≡ eb.write_waits fd)
    removed_reads kind = rw (sym at, kind) (ground arith, ground arith)

    removed_writes :
        (eb.events a).kide ≡ write_only
        → eb.read_waits fd ≡ 0
        → ((removed epoll eb a k).read_waits fd ≡ 0) × ((removed epoll eb a k).write_waits fd ≡ 0)
    removed_writes kind gone =
        let none_reads : eb.read_waits (eb.events a).fd ≡ 0 = ap eb.read_waits at ∙ gone in
        rw (sym at, kind, none_reads) (ground arith, ground arith)

  -- The event that waits to read goes, and what waits to write stays.
  pub del_reads :
      (eb : Base K Q) (a fd : ℕ)
      → Agrees epoll eb
      → (eb.events a).fd ≡ fd
      → (eb.events a).kide ≡ read_only
      → fd < eb.wait_sz
      → eb.read_waits fd ≢ 0
      → Returns
          (λ (done, eb').
            Agrees epoll eb'
            × (eb'.read_waits fd ≡ 0)
            × (eb'.write_waits fd ≡ eb.write_waits fd)
            × Untouched fd eb eb')
          (del_event epoll eb a)
  del_reads eb a fd g at kind fits some_ =
      let (k, g', e) =
        del_works eb a g (omega (arith, at, fits))
          (λ z. absurd (some_ (ap eb.read_waits (sym at) ∙ z))) in
      let (r, w) = removed_reads eb a fd at k kind in
      rw e (g', r, w, removed-Untouched eb a fd at k)

  -- Where nothing waits to read any more, the event that waits to write goes too.
  pub del_writes :
      (eb : Base K Q) (a fd : ℕ)
      → Agrees epoll eb
      → (eb.events a).fd ≡ fd
      → (eb.events a).kide ≡ write_only
      → fd < eb.wait_sz
      → eb.read_waits fd ≡ 0
      → eb.write_waits fd ≢ 0
      → Returns
          (λ (done, eb').
            Agrees epoll eb'
            × (eb'.read_waits fd ≡ 0)
            × (eb'.write_waits fd ≡ 0)
            × Untouched fd eb eb')
          (del_event epoll eb a)
  del_writes eb a fd g at kind fits gone some_ =
      let (k, g', e) =
        del_works eb a g (omega (arith, at, fits))
          (λ _ z. some_ (ap eb.write_waits (sym at) ∙ z)) in
      let (r, w) = removed_writes eb a fd at k kind gone in
      rw e (g', r, w, removed-Untouched eb a fd at k)
