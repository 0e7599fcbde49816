-- ===== src/Server/Threads/Watching.antt =====
-- A thread takes a slab from the pool and registers an event in it.
use std.Path.{subst⁻¹}
use ebot.Base.{
  ℕ, ◌+◌, ◌<◌, ◌≡◌, ◌≢◌, refl, ◌⊎◌, inl, inr, Bool, true, false, some, List, arith, length, Returns,
  Returns-map, Bag, insert, times,
}
use ebot.Event.{Base, Event, event_read, event_write}
use ebot.Event.Ctl.{add_op, add_mask}
use ebot.Event.Closing.{Entry-some}
use ebot.Event.Opening.{
  registered, registered-Agrees, add_event-registered, ctl_takes, add_op-ctl_mod,
}
use ebot.Event.System.{Epoll, Obeys, Accepts, meets}
use ebot.Event.Tables.{Agrees}
use ebot.Pool.{Pool, header}
use ebot.Pool.Accounts.{Owns, get_with_lock-Owns}
use ebot.Server.Client.{watch, client_read, client_write}
use ebot.Server.Threads.Held.{held}
use ebot.Server.Threads.Sound.{Sound, Turned}
use ebot.Server.Threads.Registering.{Turned-read, Turned-write}
use ebot.Server.Types.{Net}

module _ {K Q W : Type 0} (epoll : Epoll K) (net : Net W) where
  -- Either all slabs are in use and nothing changes, or the event is registered in a slab that was
  -- not.
  abbrev pub Watched :
      (base : Base K Q) (e : Event) (k : K) (slabs : List ℕ) (busy : Bag)
      → Bool × Base K Q × Pool
      → Type 0
  Watched base e k slabs busy (had, base', mp') =
      ((had ≡ false) × (base' ≡ base) × Owns slabs busy mp')
      ⊎ ((s : ℕ) × (had ≡ true)
          × (base' ≡ registered epoll base e (s + header) k)
          × (times s busy ≡ 0)
          × Owns slabs (insert s busy) mp')

  pub watch-Watched :
      (base : Base K Q) (mp : Pool) (e : Event) (read_ok write_ok : Bool) (k : K) (slabs : List ℕ)
      (busy : Bag)
      → Owns slabs busy mp
      → 1 < length slabs
      → Agrees epoll base
      → e.fd < base.wait_sz
      → meets e.kide base.kides ≡ true
      → let r = base.read_waits e.fd in
        let w = base.write_waits e.fd in
        (epoll.ctl base.kernel (add_op r w) e.fd (add_mask e r w) ≡ some k
          → Returns (Watched base e k slabs busy) (watch epoll net base mp e read_ok write_ok))
  unfolding watch
  watch-Watched base mp e read_ok write_ok k slabs busy own more g fits wanted c =
      elim (get_with_lock-Owns slabs busy own more) [
        | inl none ↦ rw none (inl (refl, refl, own))
        | inr (s, mp', got, own', fresh) ↦
            rw
              (
                got,
                add_event-registered epoll base e (s + header) read_ok write_ok k g fits wanted c,
              )
              (inr (s, refl, refl, fresh, own'))
      ]

-- What waits for a descriptor half of whose events are registered.
abbrev pub Half : {K Q : Type 0} → (fd : ℕ) → Base K Q → Type 0
Half fd eb = (fd < eb.wait_sz) × (eb.read_waits fd ≢ 0) × (eb.write_waits fd ≡ 0)

module _ {K Q W : Type 0} (epoll : Epoll K) (net : Net W) (eb : Base K Q) (v : Sound epoll eb)
    (slabs : List ℕ) (rest : Bag) (mp : Pool) (fd this : ℕ) (read_ok write_ok : Bool)
    (own : Owns slabs (held eb eb.wait_sz rest) mp) (more : 1 < length slabs)
    (fits : fd < eb.wait_sz) where
  -- The first half of `reactor_pool_pipe_callback`.
  pub watch_read :
      Accepts epoll
      → eb.read_waits fd ≡ 0
      → eb.write_waits fd ≡ 0
      → Returns
          (λ (had, eb', mp'). Turned epoll eb v rest slabs eb' mp' × (had ≡ true → Half fd eb'))
          (watch epoll net eb mp (event_read fd client_read this) read_ok write_ok)
  watch_read accepts r0 w0 =
      let e = event_read fd client_read this in
      let (k, c) = ctl_takes epoll accepts eb e v.agrees r0 w0 in
      let wanted : meets e.kide eb.kides ≡ true = rw v.reads refl in
      Returns-map {P = Watched epoll net eb e k slabs (held eb eb.wait_sz rest)} _
        (λ (had, eb', mp') o. elim o [
          | inl (h, is, own') ↦ (
            subst⁻¹ (λ z. Turned epoll eb v rest slabs z mp') is (v, own', λ a big used. refl),
            λ z. cc,
          )
          | inr (s, h, is, fresh, own') ↦
              let g =
                (registered-Agrees epoll eb e (s + header) k v.agrees (λ z. omega (arith, z)) wanted
                  c).0 in
              (
                subst⁻¹ (λ z. Turned epoll eb v rest slabs z mp') is
                    (Turned-read epoll eb v slabs rest s fd fresh fits client_read this k mp' own'
                      r0 w0 g),
                λ z. subst⁻¹ (Half fd) is (fits, ground (arith, r0), w0),
              )
        ])
        (watch-Watched epoll net eb mp e read_ok write_ok k slabs (held eb eb.wait_sz rest) own more
          v.agrees fits wanted c)

  -- The second half of it.
  pub watch_write :
      Obeys epoll
      → eb.read_waits fd ≢ 0
      → eb.write_waits fd ≡ 0
      → Returns
          (λ (had, eb', mp'). Turned epoll eb v rest slabs eb' mp')
          (watch epoll net eb mp (event_write fd client_write this) read_ok write_ok)
  watch_write obeys some_ w0 =
      let e = event_write fd client_write this in
      let r = eb.read_waits fd in
      let w = eb.write_waits fd in
      let (m, there) =
        Entry-some (epoll.interest eb.kernel fd) r w (v.agrees.entry fd) (λ z. absurd (some_ z)) in
      let (k, c) =
        obeys eb.kernel (add_op r w) fd (add_mask e r w) m there (add_op-ctl_mod r w some_) in
      let wanted : meets e.kide eb.kides ≡ true = rw v.writes refl in
      Returns-map {P = Watched epoll net eb e k slabs (held eb eb.wait_sz rest)} _
        (λ (had, eb', mp') o. elim o [
          | inl (h, is, own') ↦
              subst⁻¹ (λ z. Turned epoll eb v rest slabs z mp') is (v, own', λ a big used. refl)
          | inr (s, h, is, fresh, own') ↦
              let g =
                (registered-Agrees epoll eb e (s + header) k v.agrees (λ z. omega (arith, z)) wanted
                  c).0 in
              subst⁻¹ (λ z. Turned epoll eb v rest slabs z mp') is
                (Turned-write epoll eb v slabs rest s fd fresh fits client_write this k mp' own' w0
                  g)
        ])
        (watch-Watched epoll net eb mp e read_ok write_ok k slabs (held eb eb.wait_sz rest) own more
          v.agrees fits wanted c)
