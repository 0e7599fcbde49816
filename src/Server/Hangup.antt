-- ===== src/Server/Hangup.antt =====
-- The end of a connection: the first half of what `reactor_pool_client_read_callback` does then.
use std.Path.{subst}
use ebot.Base.{
  ℕ, ◌+◌, ◌-◌, ◌<◌, ◌≤◌, ◌≡◌, ◌≢◌, refl, sym, ap, ◌∙◌, arith, ◌==◌, if◌then◌else◌, Returns,
  Returns-bind, Returns-map, ok, ◌>>=◌, ℕ_discrete, eq→==, ne→not_==, Bag, insert,
}
use ebot.Event.{Base, read_wait, write_wait}
use ebot.Event.Closing.{Untouched, del_reads, del_writes}
use ebot.Event.Ctl.{del_event}
use ebot.Event.System.{Kinds, Epoll, Obeys, read_only, write_only}
use ebot.Event.Tables.{Agrees}
use ebot.Pool.{Pool, header, put_with_lock}
use ebot.Pool.Moves.{Has, put_with_lock-Has}
use ebot.Server.Client.{retire, hang_up}
use ebot.Server.Types.{Net}

-- One more slab, if its data is at `a`, and none if `a` is `NULL`.
abbrev pub freed : ℕ → Bag → Bag
freed a x = if a == 0 then x else insert (a - header) x

-- What the table of a kind has for a descriptor: nothing, or an event of that kind for it, in a
-- slab.
abbrev pub Waits : {K Q : Type 0} → Base K Q → Kinds → (fd a : ℕ) → Type 0
Waits eb kind fd a = a ≢ 0 → ((eb.events a).fd ≡ fd) × ((eb.events a).kide ≡ kind) × (header ≤ a)

module _ {K Q W : Type 0} (epoll : Epoll K) (net : Net W) where
  -- Nothing is done for `NULL`; else the event goes from the base, and its slab is given back.
  pub retire_lem :
      (P : Base K Q → Type 0) (R : Pool → Type 0) (base : Base K Q) (mp : Pool) (a : ℕ)
      → (a ≡ 0 → P base × R mp)
      → (a ≢ 0
          → Returns (λ (done, eb). P eb) (del_event epoll base a) × Returns R (put_with_lock mp a))
      → Returns (λ (eb, mp'). P eb × R mp') (retire epoll net base mp a)
  unfolding retire
  retire_lem P R base mp a none some_ = elim (ℕ_discrete a 0) [
    | yes e ↦ rw (eq→== a 0 e) (none e)
    | no ne ↦
        let (gone, back) = some_ ne in
        rw (ne→not_== a 0 ne) (
          Returns-bind _ _ (del_event epoll base a) _ gone λ (done, eb) p.
            Returns-bind _ _ (put_with_lock mp a) (λ pool. ok (eb, pool)) back λ pool h. (p, h))
  ]

  -- The same with the slab among the free ones behind it.
  retire-Has :
      (P : Base K Q → Type 0) (base : Base K Q) (mp : Pool) (a : ℕ) (free rest : Bag)
      → Has free (freed a rest) mp
      → (a ≡ 0 → P base)
      → (a ≢ 0 → (header ≤ a) × Returns (λ (done, eb). P eb) (del_event epoll base a))
      → Returns (λ (eb, mp'). P eb × Has (freed a free) rest mp') (retire epoll net base mp a)
  retire-Has P base mp a free rest has none some_ =
      retire_lem P (Has (freed a free) rest) base mp a
        (λ e. (
          none e,
          rw (eq→== a 0 e) (
              subst (λ b. Has free (if b then rest else insert (a - header) rest) mp) (eq→== a 0 e)
                has),
        ))
        λ ne.
          let (big, gone) = some_ ne in
          let z = ne→not_== a 0 ne in
          let back : (a - header) + header ≡ a = omega (arith, big) in
          let has' : Has free (insert (a - header) rest) mp =
            subst (λ b. Has free (if b then rest else insert (a - header) rest) mp) z has in
          (
            gone,
            rw z (
                subst (λ b. Returns (Has (insert (a - header) free) rest) (put_with_lock mp b)) back
                  (put_with_lock-Has free rest (a - header) has')),
          )

  pub read_wait_lem :
      (eb : Base K Q) (fd : ℕ)
      → Agrees epoll eb
      → fd < eb.wait_sz
      → (read_wait eb fd ≡ ok (eb.read_waits fd)) × (write_wait eb fd ≡ ok (eb.write_waits fd))
  unfolding read_wait write_wait
  read_wait_lem eb fd g fits = ground (arith, g.reads, g.writes)

  -- The base of a reactor that has done with a descriptor, and with no other.
  abbrev pub Parted : ℕ → Base K Q → Base K Q → Type 0
  Parted fd eb eb' =
      Agrees epoll eb' × (eb'.read_waits fd ≡ 0) × (eb'.write_waits fd ≡ 0) × Untouched fd eb eb'

  module _ (obeys : Obeys epoll) (eb : Base K Q) (fd : ℕ) (g : Agrees epoll eb)
      (fits : fd < eb.wait_sz) where
    abbrev HalfParted : Base K Q → Type 0
    HalfParted eb' =
        Agrees epoll eb'
        × (eb'.read_waits fd ≡ 0)
        × (eb'.write_waits fd ≡ eb.write_waits fd)
        × Untouched fd eb eb'

    HalfParted-Parted :
        (eb1 eb2 : Base K Q)
        → HalfParted eb1
        → (Agrees epoll eb2
            × (eb2.read_waits fd ≡ 0)
            × (eb2.write_waits fd ≡ 0)
            × Untouched fd eb1 eb2)
        → Parted fd eb eb2
    HalfParted-Parted eb1 eb2 (g1, r1, w1, (sz1, ev1, q1, ks1, o1))
          (g2, r2, w2, (sz2, ev2, q2, ks2, o2)) =
        (
          g2,
          r2,
          w2,
          (
            sz2 ∙ sz1,
            ev2 ∙ ev1,
            q2 ∙ q1,
            ks2 ∙ ks1,
            λ j ne. ((o2 j ne).0 ∙ (o1 j ne).0, (o2 j ne).1 ∙ (o1 j ne).1),
          ),
        )

    -- What is left to do when the event that waits to read is gone.
    second :
        (eb1 : Base K Q) (mp : Pool) (free rest : Bag)
        → HalfParted eb1
        → Waits eb write_only fd (eb.write_waits fd)
        → Has free (freed (eb.write_waits fd) rest) mp
        → Returns
            (λ (eb', mp'). Parted fd eb eb' × Has (freed (eb.write_waits fd) free) rest mp')
            (write_wait eb1 fd >>= retire epoll net eb1 mp)
    second eb1 mp free rest (g1, r1, w1, (sz1, ev1, q1, ks1, o1)) writes has =
        let w = eb.write_waits fd in
        let fits1 : fd < eb1.wait_sz = omega (arith, sz1, fits) in
        let half : HalfParted eb1 = (g1, r1, w1, (sz1, ev1, q1, ks1, o1)) in
        rw ((read_wait_lem eb1 fd g1 fits1).1, w1)
          (retire-Has (Parted fd eb) eb1 mp w free rest has
            (λ e. (g1, r1, w1 ∙ e, (sz1, ev1, q1, ks1, o1)))
            λ ne.
              let (at, kind, big) = writes ne in
              (
                big,
                Returns-map _ (λ (done, eb2) h. HalfParted-Parted eb1 eb2 half h)
                    (del_writes epoll obeys eb1 w fd g1 (ap (λ f. (f w).fd) ev1 ∙ at)
                      (ap (λ f. (f w).kide) ev1 ∙ kind) fits1 r1 (λ z. ne (sym w1 ∙ z))),
              ))

    -- Where a connection ends, both of its events are taken out of the base of its reactor, whose
    -- tables still agree with the kernel, and their slabs are free again; the events of the other
    -- descriptors are as they were, and so is the queue of the events that are ready, the two
    -- events of the connection in it included.
    pub hang_up-Parted :
        (mp : Pool) (free rest : Bag)
        → Waits eb read_only fd (eb.read_waits fd)
        → Waits eb write_only fd (eb.write_waits fd)
        → Has free (freed (eb.read_waits fd) (freed (eb.write_waits fd) rest)) mp
        → Returns
            (λ (eb', mp').
              Parted fd eb eb'
              × Has (freed (eb.write_waits fd) (freed (eb.read_waits fd) free)) rest mp')
            (hang_up epoll net eb mp fd)
    unfolding hang_up
    hang_up-Parted mp free rest reads writes has =
        let r = eb.read_waits fd in
        let w = eb.write_waits fd in
        rw ((read_wait_lem eb fd g fits).0) (
          Returns-bind _ _ (retire epoll net eb mp r) _
            (retire-Has HalfParted eb mp r free (freed w rest) has
              (λ e. (g, e, refl, (refl, refl, refl, refl, λ j ne. (refl, refl))))
              (λ ne.
                let (at, kind, big) = reads ne in
                (big, del_reads epoll obeys eb r fd g at kind fits ne)))
            λ (eb1, mp1) (half, has1). second eb1 mp1 (freed r free) rest half writes has1)
