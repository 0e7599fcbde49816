-- ===== src/Server/Threads/Registering.antt =====
-- A base with one event more, in a slab that was not in use.
use std.Path.{subst, subst⁻¹}
use ebot.Base.{
  ℕ, ◌+◌, ◌-◌, ◌<◌, ◌≤◌, ◌≡◌, ◌≢◌, refl, sym, ap, ◌∙◌, List, arith, Bag, insert, times, ne→not_==,
}
use ebot.Event.{Base, Event, put, event_read, event_write}
use ebot.Event.Opening.{registered, put_self}
use ebot.Event.System.{Epoll}
use ebot.Event.Tables.{Agrees}
use ebot.Pool.{Pool, header}
use ebot.Pool.Accounts.{Owns}
use ebot.Server.Hangup.{Waits, freed}
use ebot.Server.Threads.Held.{held, held_split, freed_comm}
use ebot.Server.Threads.Sound.{Sound, OffBy, Kept, Waits-Kept, Sound-OffBy, Turned}

freed_slab : (s : ℕ) (x : Bag) → freed (s + header) x ≡ insert s x
freed_slab s x =
    let back : (s + header) - header ≡ s = omega arith in
    rw (ne→not_== (s + header) 0 (λ e. omega (arith, e)), back) refl

-- One event more, where none or one was.
freed_reads :
    (s r w r' : ℕ) (x : Bag)
    → r ≡ 0
    → r' ≡ s + header
    → freed r' (freed w x) ≡ insert s (freed r (freed w x))
freed_reads s r w r' x r0 e =
    ap (λ z. freed z (freed w x)) e
    ∙ freed_slab s (freed w x)
    ∙ ap (λ z. insert s (freed z (freed w x))) (sym r0)

freed_writes :
    (s r w w' : ℕ) (x : Bag)
    → w ≡ 0
    → w' ≡ s + header
    → freed r (freed w' x) ≡ insert s (freed r (freed w x))
freed_writes s r w w' x w0 e =
    freed_comm r w' x ∙ freed_reads s w r w' x w0 e ∙ ap (insert s) (freed_comm w r x)

-- A registered event, in a slab that was not in use.
module _ {K Q : Type 0} (epoll : Epoll K) (eb : Base K Q) (v : Sound epoll eb) (slabs : List ℕ)
    (rest : Bag) (s fd : ℕ) (fresh : times s (held eb eb.wait_sz rest) ≡ 0) (fits : fd < eb.wait_sz)
    (cb this : ℕ) (k : K) (mp' : Pool)
    (own : Owns slabs (insert s (held eb eb.wait_sz rest)) mp') where
  Kept-put : (e : Event) → Kept (held eb eb.wait_sz rest) eb.events (put eb.events (s + header) e)
  Kept-put e a big used =
      let ne : a ≢ s + header = λ here.
        let same : a - header ≡ s = omega (arith, here) in
        omega (arith, used, ap (λ z. times z (held eb eb.wait_sz rest)) same, fresh) in
      rw (ne→not_== a (s + header) ne) refl

  there :
      (at : ℕ) (e : Event)
      → e.fd ≡ at
      → (a : ℕ) → a ≡ s + header
      → Waits (registered epoll eb e (s + header) k) e.kide at a
  there at e here a is ne =
      subst
        (λ z.
          (((put eb.events (s + header) e) z).fd ≡ at)
          × (((put eb.events (s + header) e) z).kide ≡ e.kide)
          × (header ≤ z))
        (sym is) (rw (put_self eb.events (s + header) e) (here, refl, omega arith))

  -- The event to read of a descriptor for which nothing waits.
  pub Turned-read :
      eb.read_waits fd ≡ 0
      → eb.write_waits fd ≡ 0
      → Agrees epoll (registered epoll eb (event_read fd cb this) (s + header) k)
      → Turned epoll eb v rest slabs
          (registered epoll eb (event_read fd cb this) (s + header) k)
          mp'
  Turned-read r0 w0 g =
      let e = event_read fd cb this in
      let eb' = registered epoll eb e (s + header) k in
      let off : OffBy fd eb eb' = λ j ne. (ground arith, refl) in
      let r' : eb'.read_waits fd ≡ s + header = ground (arith, r0) in
      let (x, one, two) = held_split eb eb' fd off eb.wait_sz rest fits in
      let more : held eb' eb.wait_sz rest ≡ insert s (held eb eb.wait_sz rest) =
        two
        ∙ freed_reads s (eb.read_waits fd) (eb.write_waits fd) (eb'.read_waits fd) x r0 r'
        ∙ ap (insert s) (sym one) in
      (
        Sound-OffBy epoll eb v rest eb' (Kept-put e) fd fits g refl refl off
            (there fd e refl (eb'.read_waits fd) r') (λ ne. absurd (ne w0)),
        subst⁻¹ (λ z. Owns slabs z mp') more own,
        Kept-put e,
      )

  -- The event to write, where none waits.
  pub Turned-write :
      eb.write_waits fd ≡ 0
      → Agrees epoll (registered epoll eb (event_write fd cb this) (s + header) k)
      → Turned epoll eb v rest slabs
          (registered epoll eb (event_write fd cb this) (s + header) k)
          mp'
  Turned-write w0 g =
      let e = event_write fd cb this in
      let eb' = registered epoll eb e (s + header) k in
      let off : OffBy fd eb eb' = λ j ne. (refl, ground arith) in
      let w' : eb'.write_waits fd ≡ s + header = ground (arith, w0) in
      let (x, one, two) = held_split eb eb' fd off eb.wait_sz rest fits in
      let more : held eb' eb.wait_sz rest ≡ insert s (held eb eb.wait_sz rest) =
        two
        ∙ freed_writes s (eb.read_waits fd) (eb.write_waits fd) (eb'.write_waits fd) x w0 w'
        ∙ ap (insert s) (sym one) in
      (
        Sound-OffBy epoll eb v rest eb' (Kept-put e) fd fits g refl refl off
            (Waits-Kept epoll eb v rest eb' (Kept-put e) fd).0
            (there fd e refl (eb'.write_waits fd) w'),
        subst⁻¹ (λ z. Owns slabs z mp') more own,
        Kept-put e,
      )
