-- ===== src/Server/Joining.antt =====
-- A new connection: what `reactor_pool_pipe_callback` does with the descriptor that it gets.
use std.Path.{subst}
use ebot.Base.{
  ℕ, ◌+◌, ◌<◌, ◌≡◌, ◌≢◌, refl, sym, ◌∙◌, Bool, true, false, some, List, [], ◌∷◌, ◌++◌, arith,
  length, length-append, Returns, Returns-bind, ok, ◌>>=◌, ne→not_==,
}
use ebot.Event.{Base, Event, event_read, event_write}
use ebot.Event.Opening.{
  ctl_takes, put_self, add_op-ctl_mod, registered, registered-Agrees, add_event-registered,
}
use ebot.Event.Ctl.{add_mask, add_op}
use ebot.Event.System.{Epoll, Obeys, Accepts, meets}
use ebot.Event.Tables.{Agrees}
use ebot.Pool.{Pool, header, get_with_lock}
use ebot.Pool.Moves.{get_with_lock-Has}
use ebot.Pool.Valid.{Valid}
use ebot.Server.Client.{watch, pipe_callback, piped, client_read, client_write}
use ebot.Server.Types.{Reactor, Net}

module _ {K Q W : Type 0} (epoll : Epoll K) (net : Net W) where
  -- With a free slab, and where the kernel takes the entry, the event is registered.
  watch_lem :
      (base : Base K Q) (mp : Pool) (e : Event) (read_ok write_ok : Bool) (s : ℕ)
      (free busy : List ℕ) (k : K)
      → Valid mp (s ∷ free) busy
      → mp.held ≡ false
      → 0 < length (free ++ busy)
      → Agrees epoll base
      → e.fd < base.wait_sz
      → meets e.kide base.kides ≡ true
      → let r = base.read_waits e.fd in
        let w = base.write_waits e.fd in
        (epoll.ctl base.kernel (add_op r w) e.fd (add_mask e r w) ≡ some k
          → Returns
              (λ (had, base', mp').
                (had ≡ true)
                × (base' ≡ registered epoll base e (s + header) k)
                × Valid mp' free (busy ++ (s ∷ []))
                × (mp'.held ≡ false))
              (watch epoll net base mp e read_ok write_ok))
  unfolding watch
  watch_lem base mp e read_ok write_ok s free busy k v h more g fits wanted c =
      let a = s + header in
      let a = s + header in
      Returns-bind _ _ (get_with_lock mp) _ (get_with_lock-Has s free busy v h more)
        λ (p, mp') (is, v', h').
          rw (is, add_event-registered epoll base e a read_ok write_ok k g fits wanted c)
            (refl, refl, v', h')

  -- A reactor's base in which both events of a descriptor wait, with nothing else different.
  abbrev pub Joined : (this fd a b : ℕ) → Base K Q → Base K Q → Type 0
  Joined this fd a b eb eb' =
      Agrees epoll eb'
      × (eb'.read_waits fd ≡ a)
      × (eb'.write_waits fd ≡ b)
      × (eb'.events a ≡ event_read fd client_read this)
      × (eb'.events b ≡ event_write fd client_write this)
      × (eb'.wait_sz ≡ eb.wait_sz)
      × (eb'.event_readies ≡ eb.event_readies)
      × (eb'.kides ≡ eb.kides)
      × ((x : ℕ) → x ≢ a → x ≢ b → eb'.events x ≡ eb.events x)
      × ((j : ℕ)
          → j ≢ fd
          → (eb'.read_waits j ≡ eb.read_waits j) × (eb'.write_waits j ≡ eb.write_waits j))

  module _ (obeys : Obeys epoll) (accepts : Accepts epoll) (base : Base K Q) (this fd : ℕ)
      (g : Agrees epoll base) (fits : fd < base.wait_sz) (reads : base.kides.reads ≡ true)
      (writes : base.kides.writes ≡ true) (no_read : base.read_waits fd ≡ 0)
      (no_write : base.write_waits fd ≡ 0) where
    abbrev first_event : Event
    first_event = event_read fd client_read this

    abbrev second_event : Event
    second_event = event_write fd client_write this

    first_kernel :
        (k : K) × (epoll.ctl base.kernel
            (add_op (base.read_waits fd) (base.write_waits fd))
            fd
            (add_mask first_event (base.read_waits fd) (base.write_waits fd))
          ≡ some k)
    first_kernel = ctl_takes epoll accepts base first_event g no_read no_write

    module _ (a b : ℕ) (na : a ≢ 0) (nb : b ≢ 0) (ne : a ≢ b) (k : K) where
      abbrev half : Base K Q
      half = registered epoll base first_event a k

      half_reads : half.read_waits fd ≡ a
      half_reads = ground (arith, no_read)

      half_writes : half.write_waits fd ≡ 0
      half_writes = no_write

      second_kernel :
          epoll.interest k fd
            ≡ some (add_mask first_event (base.read_waits fd) (base.write_waits fd))
          → (k' : K) × (epoll.ctl k
                (add_op (half.read_waits fd) (half.write_waits fd))
                fd
                (add_mask second_event (half.read_waits fd) (half.write_waits fd))
              ≡ some k')
      second_kernel there =
          obeys k _ fd _ _ there
            (add_op-ctl_mod (half.read_waits fd) (half.write_waits fd) λ z. na (sym half_reads ∙ z))

      Joined-registered :
          (k' : K)
          → Agrees epoll (registered epoll half second_event b k')
          → Joined this fd a b base (registered epoll half second_event b k')
      Joined-registered k' g' = (
        g',
        half_reads,
        ground (arith, no_write),
        rw (ne→not_== a b ne) (put_self base.events a first_event),
        put_self half.events b second_event,
        refl,
        refl,
        refl,
        λ x xa xb. rw (ne→not_== x b xb, ne→not_== x a xa) refl,
        λ j other. (ground arith, ground arith),
      )

    -- What is left to do when the event to read is registered.
    second_watch :
        (r : Reactor K Q) (base1 : Base K Q) (mp : Pool) (read_ok write_ok : Bool) (a t : ℕ)
        (free busy : List ℕ) (k : K) (na : a ≢ 0) (nb : t + header ≢ 0) (ne : a ≢ t + header)
        → base1 ≡ half a (t + header) na nb ne k
        → Agrees epoll (half a (t + header) na nb ne k)
        → epoll.interest k fd
          ≡ some (add_mask first_event (base.read_waits fd) (base.write_waits fd))
        → Valid mp (t ∷ free) busy
        → mp.held ≡ false
        → 0 < length (free ++ busy)
        → Returns
            (λ (r', mp').
              Joined this fd a (t + header) base r'.base
              × Valid mp' free (busy ++ (t ∷ []))
              × (mp'.held ≡ false))
            (watch epoll net base1 mp second_event read_ok write_ok >>= λ (had, base, pool).
              ok (record r { base = base }, pool))
    second_watch r base1 mp read_ok write_ok a t free busy k na nb ne is gh there v h more =
        let b = t + header in
        let (k', c) = second_kernel a b na nb ne k there in
        let (g2, there2) =
          registered-Agrees epoll (half a b na nb ne k) second_event b k' gh nb (rw writes refl)
            c in
        subst
          (λ z.
            Returns
              (λ (r', mp').
                Joined this fd a b base r'.base
                × Valid mp' free (busy ++ (t ∷ []))
                × (mp'.held ≡ false))
              (watch epoll net z mp second_event read_ok write_ok >>= λ (had, base, pool).
                ok (record r { base = base }, pool)))
          (sym is)
          (Returns-bind _ _ (watch epoll net (half a b na nb ne k) mp second_event read_ok write_ok)
            _
            (watch_lem (half a b na nb ne k) mp second_event read_ok write_ok t free busy k' v h
              more gh fits (rw writes refl) c)
            λ (had2, b2, mp2) (hd2, e2, v2, h2). (
              subst (Joined this fd a b base) (sym e2) (Joined-registered a b na nb ne k k' g2),
              v2,
              h2,
            ))

    -- Where `read` of the pipe gives the descriptor of a new client, for which nothing waits yet,
    -- and the pool of events has two free slabs, `reactor_pool_pipe_callback` comes to its end with
    -- an event to read and an event to write registered for it, in those slabs; the tables still
    -- agree with the kernel, and the events of the other descriptors are as they were.
    pub pipe_callback-Joined :
        (r : Reactor K Q) (mp : Pool) (read_ok write_ok : Bool) (s t : ℕ) (free busy : List ℕ)
        → r.base ≡ base
        → Valid mp (s ∷ t ∷ free) busy
        → mp.held ≡ false
        → Returns
            (λ (r', mp').
              Joined this fd (s + header) (t + header) base r'.base
              × Valid mp' free ((busy ++ (s ∷ [])) ++ (t ∷ []))
              × (mp'.held ≡ false))
            (pipe_callback epoll net r this mp (piped fd) read_ok write_ok)
    unfolding pipe_callback
    pipe_callback-Joined r mp read_ok write_ok s t free busy same v h =
        let a = s + header in
        let b = t + header in
        let na : a ≢ 0 = λ e. omega (arith, e) in
        let nb : b ≢ 0 = λ e. omega (arith, e) in
        let ne : a ≢ b = λ e. v.distinct.0.0 (omega (arith, e)) in
        let (k, c) = first_kernel in
        let (gh, there) = registered-Agrees epoll base first_event a k g na (rw reads refl) c in
        subst
          (λ z.
            Returns
              (λ (r', mp').
                Joined this fd a b base r'.base
                × Valid mp' free ((busy ++ (s ∷ [])) ++ (t ∷ []))
                × (mp'.held ≡ false))
              (pipe_callback epoll net (record r { base = z }) this mp (piped fd) read_ok write_ok))
          (sym same)
          (Returns-bind _ _ (watch epoll net base mp first_event read_ok write_ok) _
            (watch_lem base mp first_event read_ok write_ok s (t ∷ free) busy k v h (omega arith) g
              fits (rw reads refl) c)
            λ (had, b1, mp1) (hd, e1, v1, h1). rw hd (
              second_watch r b1 mp1 read_ok write_ok a t free (busy ++ (s ∷ [])) k na nb ne e1 gh
                there v1 h1
                (omega
                  (arith, length-append free (busy ++ (s ∷ [])), length-append busy (s ∷ [])))))
