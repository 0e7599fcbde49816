-- ===== src/Server/Threads/Retiring.antt =====
-- A thread takes an event out of its base and gives the slab back to the pool.
use std.Path.{subst, subst⁻¹}
use ebot.Base.{
  ℕ, ◌+◌, ◌-◌, ◌<◌, ◌≤◌, ◌≡◌, ◌≢◌, refl, ap, ◌∙◌, List, arith, Returns, Returns-map, ◌>>=◌, Bag,
  insert, if◌then◌else◌, ne→not_==, eq→==,
}
use ebot.Event.{Base, read_wait, write_wait}
use ebot.Event.Closing.{Untouched, del_reads, del_writes}
use ebot.Event.Ctl.{del_event}
use ebot.Event.System.{Epoll, Obeys, write_only}
use ebot.Event.Tables.{Agrees}
use ebot.Pool.{Pool, header, put_with_lock}
use ebot.Pool.Accounts.{Owns, put_with_lock-Owns}
use ebot.Server.Client.{retire}
use ebot.Server.Hangup.{Waits, freed, retire_lem, read_wait_lem}
use ebot.Server.Threads.Held.{held, held_at, without}
use ebot.Server.Threads.Sound.{Sound, Kept, Waits-Kept, Sound-OffBy, Turned}
use ebot.Server.Types.{Net}

module _ {K Q W : Type 0} (epoll : Epoll K) (net : Net W) where
  retire-Owns :
      (P : Base K Q → Type 0) (base : Base K Q) (mp : Pool) (a : ℕ) (slabs : List ℕ) (rest : Bag)
      → Owns slabs (freed a rest) mp
      → (a ≡ 0 → P base)
      → (a ≢ 0 → (header ≤ a) × Returns (λ (done, eb). P eb) (del_event epoll base a))
      → Returns (λ (eb, mp'). P eb × Owns slabs rest mp') (retire epoll net base mp a)
  retire-Owns P base mp a slabs rest own none some_ =
      retire_lem epoll net P (Owns slabs rest) base mp a
        (λ e. (
          none e,
          subst (λ b. Owns slabs (if b then rest else insert (a - header) rest) mp) (eq→== a 0 e)
              own,
        ))
        λ ne.
          let (big, gone) = some_ ne in
          let back : (a - header) + header ≡ a = omega (arith, big) in
          (
            gone,
            subst (λ b. Returns (Owns slabs rest) (put_with_lock mp b)) back
                (put_with_lock-Owns slabs rest (a - header) (
                  subst (λ b. Owns slabs (if b then rest else insert (a - header) rest) mp)
                    (ne→not_== a 0 ne) own)),
          )

  module _ (obeys : Obeys epoll) (eb : Base K Q) (v : Sound epoll eb) (slabs : List ℕ) (rest : Bag)
      (mp : Pool) (fd : ℕ) (own : Owns slabs (held eb eb.wait_sz rest) mp)
      (fits : fd < eb.wait_sz) where
    -- What a base without the event to read, or without both, is like behind it.
    Sound-Untouched :
        (eb' : Base K Q)
        → Agrees epoll eb'
        → Untouched fd eb eb'
        → eb'.read_waits fd ≡ 0
        → (eb'.write_waits fd ≢ 0 → eb'.write_waits fd ≡ eb.write_waits fd)
        → Sound epoll eb'
          × Kept (held eb eb.wait_sz rest) eb.events eb'.events
          × (held eb' eb'.wait_sz rest
              ≡ freed (eb'.write_waits fd) (held (without fd eb) eb.wait_sz rest))
    Sound-Untouched eb' g (sz, ev, q, ks, off) r0 same =
        let kept : Kept (held eb eb.wait_sz rest) eb.events eb'.events =
          λ a big used. ap (λ f. f a) ev in
        (
          Sound-OffBy epoll eb v rest eb' kept fd fits g ks sz off (λ ne. absurd (ne r0))
              (λ ne.
                subst⁻¹ (Waits eb' write_only fd) (same ne)
                  (Waits-Kept epoll eb v rest eb' kept fd).1 ne),
          kept,
          ap (λ n. held eb' n rest) sz
              ∙ held_at eb eb' fd eb.wait_sz rest off fits
              ∙ ap
                  (λ z. freed z (freed (eb'.write_waits fd) (held (without fd eb) eb.wait_sz rest)))
                  r0,
        )

    before :
        Owns slabs
          (freed
            (eb.read_waits fd)
            (freed (eb.write_waits fd) (held (without fd eb) eb.wait_sz rest)))
          mp
    before =
        subst (λ z. Owns slabs z mp) (held_at eb eb fd eb.wait_sz rest (λ j ne. (refl, refl)) fits)
          own

    -- The first half of the end of a connection in `reactor_pool_client_read_callback`.
    pub retire_read :
        Returns
          (λ (eb', mp').
            Turned epoll eb v rest slabs eb' mp' × (fd < eb'.wait_sz) × (eb'.read_waits fd ≡ 0))
          (read_wait eb fd >>= retire epoll net eb mp)
    retire_read =
        let r = eb.read_waits fd in
        let w = eb.write_waits fd in
        let x = held (without fd eb) eb.wait_sz rest in
        rw ((read_wait_lem epoll net eb fd v.agrees fits).0) (
          Returns-map
            {P = λ (eb', mp').
              (Agrees epoll eb'
                × (eb'.read_waits fd ≡ 0)
                × (eb'.write_waits fd ≡ w)
                × Untouched fd eb eb')
              × Owns slabs (freed w x) mp'}
            (retire epoll net eb mp r)
            (λ (eb', mp') ((g, r0, w', u), own').
              let (sound, kept, e) = Sound-Untouched eb' g u r0 (λ _. w') in
              (
                (sound, subst⁻¹ (λ z. Owns slabs z mp') (e ∙ ap (λ z. freed z x) w') own', kept),
                omega (arith, u.0, fits),
                r0,
              ))
            (retire-Owns _ eb mp r slabs (freed w x) before
              (λ e. (v.agrees, e, refl, (refl, refl, refl, refl, λ j ne. (refl, refl))))
              λ ne.
                let (at, kind, big) = v.to_read fd ne in
                (big, del_reads epoll obeys eb r fd v.agrees at kind fits ne)))

    -- The second half of it.
    pub retire_write :
        eb.read_waits fd ≡ 0
        → Returns
            (λ (eb', mp'). Turned epoll eb v rest slabs eb' mp')
            (write_wait eb fd >>= retire epoll net eb mp)
    retire_write r0 =
        let w = eb.write_waits fd in
        let x = held (without fd eb) eb.wait_sz rest in
        rw ((read_wait_lem epoll net eb fd v.agrees fits).1) (
          Returns-map
            {P = λ (eb', mp').
              (Agrees epoll eb'
                × (eb'.read_waits fd ≡ 0)
                × (eb'.write_waits fd ≡ 0)
                × Untouched fd eb eb')
              × Owns slabs x mp'}
            (retire epoll net eb mp w)
            (λ (eb', mp') ((g, r0', w0, u), own').
              let (sound, kept, e) = Sound-Untouched eb' g u r0' (λ ne. absurd (ne w0)) in
              (sound, subst⁻¹ (λ z. Owns slabs z mp') (e ∙ ap (λ z. freed z x) w0) own', kept))
            (retire-Owns _ eb mp w slabs x
              (subst (λ z. Owns slabs (freed z (freed w x)) mp) r0 before)
              (λ e. (v.agrees, r0, e, (refl, refl, refl, refl, λ j ne. (refl, refl))))
              λ ne.
                let (at, kind, big) = v.to_write fd ne in
                (big, del_writes epoll obeys eb w fd v.agrees at kind fits r0 ne)))
