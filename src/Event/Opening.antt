-- ===== src/Event/Opening.antt =====
-- `ebot_add_event` of an event that has just been filled in, where the kernel takes the entry.
use std.Path.{subst}
use ebot.Base.{
  ℕ, ◌<◌, ◌≡◌, ◌≢◌, refl, ap, ◌∙◌, Bool, true, Option, none, some, arith, ◌&&◌, ◌==◌, if◌then◌else◌,
  ok, eq→==,
}
use ebot.Event.{Base, Event, put}
use ebot.Event.Ctl.{add_mask, add_op, add_event}
use ebot.Event.System.{Mask, Epoll, Accepts, meets, ctl_add}
use ebot.Event.Tables.{Entry, Agrees, added, added-Agrees, added_self, add_event-works}

abbrev pub at_event : {K Q : Type 0} → Base K Q → ℕ → Event → Base K Q
at_event base a e = record base { events = put base.events a e }

pub add_op-ctl_mod : (r w : ℕ) → r ≢ 0 → add_op r w ≢ ctl_add
add_op-ctl_mod r w ne = ground arith

pub put_self {ℓ} : {A : Type ℓ} (f : ℕ → A) (a : ℕ) (e : A) → put f a e a ≡ e
put_self f a e = rw (eq→== a a refl)

Entry-none : (o : Option Mask) {r w : ℕ} → Entry o r w → r ≡ 0 → w ≡ 0 → o ≡ none
Entry-none none h er ew = refl
Entry-none (some m) h er ew = absurd (h.2 er ew)

module _ {K Q : Type 0} (epoll : Epoll K) where
  pub Agrees-events :
      (base : Base K Q) (events : ℕ → Event)
      → Agrees epoll base
      → Agrees epoll (record base { events = events })
  Agrees-events base events g = record { entry = g.entry; reads = g.reads; writes = g.writes }

  -- A descriptor that nothing waits for is not in the interest list.
  not_watched :
      (base : Base K Q) (fd : ℕ)
      → Agrees epoll base
      → base.read_waits fd ≡ 0
      → base.write_waits fd ≡ 0
      → epoll.interest base.kernel fd ≡ none
  not_watched base fd g no_read no_write =
      Entry-none (epoll.interest base.kernel fd) (g.entry fd) no_read no_write

  -- So the kernel takes an event for it.
  pub ctl_takes :
      Accepts epoll
      → (base : Base K Q) (e : Event) → Agrees epoll base
      → base.read_waits e.fd ≡ 0
      → base.write_waits e.fd ≡ 0
      → let r = base.read_waits e.fd in
        let w = base.write_waits e.fd in
        (k : K) × (epoll.ctl base.kernel (add_op r w) e.fd (add_mask e r w) ≡ some k)
  ctl_takes accepts base e g no_read no_write =
      rw (no_read, no_write) (accepts base.kernel e.fd _ (not_watched base e.fd g no_read no_write))

  -- The base behind the registration of the event `e` in the slab at `a`.
  abbrev pub registered : Base K Q → Event → ℕ → K → Base K Q
  registered base e a k = record base {
    kernel = k;
    events = put base.events a e;
    read_waits =
        if e.kide.reads && (base.read_waits e.fd == 0)
        then put base.read_waits e.fd a
        else base.read_waits;
    write_waits =
        if e.kide.writes && (base.write_waits e.fd == 0)
        then put base.write_waits e.fd a
        else base.write_waits;
  }

  added-registered :
      (base : Base K Q) (e : Event) (a : ℕ) (k : K)
      → added epoll (at_event base a e) a k ≡ registered base e a k
  added-registered base e a k =
      ap
        (λ x. record (at_event base a e) {
          kernel = k;
          read_waits =
              if x.kide.reads && (base.read_waits x.fd == 0)
              then put base.read_waits x.fd a
              else base.read_waits;
          write_waits =
              if x.kide.writes && (base.write_waits x.fd == 0)
              then put base.write_waits x.fd a
              else base.write_waits;
        })
        (put_self base.events a e)

  pub registered-Agrees :
      (base : Base K Q) (e : Event) (a : ℕ) (k : K)
      → Agrees epoll base
      → a ≢ 0
      → meets e.kide base.kides ≡ true
      → let r = base.read_waits e.fd in
        let w = base.write_waits e.fd in
        (epoll.ctl base.kernel (add_op r w) e.fd (add_mask e r w) ≡ some k
          → Agrees epoll (registered base e a k) × (epoll.interest k e.fd ≡ some (add_mask e r w)))
  registered-Agrees base e a k g ne wanted c =
      let eb = at_event base a e in
      let hit : eb.events a ≡ e = put_self base.events a e in
      let g' : Agrees epoll eb = Agrees-events base (put base.events a e) g in
      subst
        (λ x.
          let r = base.read_waits x.fd in
          let w = base.write_waits x.fd in
          (meets x.kide base.kides ≡ true
            → epoll.ctl base.kernel (add_op r w) x.fd (add_mask x r w) ≡ some k
            → Agrees epoll (registered base e a k)
              × (epoll.interest k x.fd ≡ some (add_mask x r w))))
        hit
        (λ wanted' c'. (
          subst (Agrees epoll) (added-registered base e a k)
              (added-Agrees epoll eb a k g' ne wanted' c'),
          added_self epoll eb a k c',
        ))
        wanted c

  -- An event that is filled in, for a descriptor in the arrays, is registered where the kernel
  -- takes it.
  pub add_event-registered :
      (base : Base K Q) (e : Event) (a : ℕ) (read_ok write_ok : Bool) (k : K)
      → Agrees epoll base
      → e.fd < base.wait_sz
      → meets e.kide base.kides ≡ true
      → let r = base.read_waits e.fd in
        let w = base.write_waits e.fd in
        (epoll.ctl base.kernel (add_op r w) e.fd (add_mask e r w) ≡ some k
          → add_event epoll (at_event base a e) a read_ok write_ok
            ≡ ok (true, registered base e a k))
  add_event-registered base e a read_ok write_ok k g fits wanted c =
      let eb = at_event base a e in
      let hit : eb.events a ≡ e = put_self base.events a e in
      let g' : Agrees epoll eb = Agrees-events base (put base.events a e) g in
      subst
        (λ x.
          x.fd < base.wait_sz
          → meets x.kide base.kides ≡ true
          → let r = base.read_waits x.fd in
            let w = base.write_waits x.fd in
            (epoll.ctl base.kernel (add_op r w) x.fd (add_mask x r w) ≡ some k
              → add_event epoll eb a read_ok write_ok ≡ ok (true, added epoll eb a k)))
        hit (add_event-works epoll eb a read_ok write_ok k g') fits wanted c
      ∙ ap (λ z. ok (true, z)) (added-registered base e a k)
