-- ===== src/Server/Threads/Sound.antt =====
-- The base of a reactor between two accesses to the pool of events.
use std.Path.{subst}
use ebot.Base.{
  ℕ, ◌-◌, ◌<◌, ◌≤◌, ◌≡◌, ◌≢◌, sym, ap, ◌∙◌, refl, true, arith, ℕ_discrete, dec_lt, Bag, times, List,
}
use ebot.Event.{Base, Event}
use ebot.Event.Opening.{Agrees-events}
use ebot.Event.System.{Epoll, read_only, write_only}
use ebot.Event.Tables.{Agrees}
use ebot.Pool.{Pool, header}
use ebot.Pool.Accounts.{Owns}
use ebot.Server.Hangup.{Waits}
use ebot.Server.Threads.Held.{held, held_split, times-freed_both}

-- The tables agree with the kernel, and what waits for a descriptor in them is an event for it, of
-- the kind of the table.
pub record Sound {K Q : Type 0} (epoll : Epoll K) (eb : Base K Q) : Type 0 where
  pub agrees : Agrees epoll eb
  pub reads : eb.kides.reads ≡ true
  pub writes : eb.kides.writes ≡ true
  pub beyond : (fd : ℕ) → eb.wait_sz ≤ fd → (eb.read_waits fd ≡ 0) × (eb.write_waits fd ≡ 0)
  pub to_read : (fd : ℕ) → Waits eb read_only fd (eb.read_waits fd)
  pub to_write : (fd : ℕ) → Waits eb write_only fd (eb.write_waits fd)

-- The tables have the same for every other descriptor.
abbrev pub OffBy : {K Q : Type 0} → (fd : ℕ) → Base K Q → Base K Q → Type 0
OffBy fd eb eb' =
    (j : ℕ) → j ≢ fd → (eb'.read_waits j ≡ eb.read_waits j) × (eb'.write_waits j ≡ eb.write_waits j)

-- The events in the slabs that are in use are as they were.
abbrev pub Kept : Bag → (ℕ → Event) → (ℕ → Event) → Type 0
Kept busy f g = (a : ℕ) → header ≤ a → 0 < times (a - header) busy → g a ≡ f a

module _ {K Q : Type 0} (epoll : Epoll K) (eb : Base K Q) (v : Sound epoll eb) (rest : Bag) where
  -- The slab of an event that waits is in use.
  in_use :
      (fd : ℕ)
      → let busy = held eb eb.wait_sz rest in
        (eb.read_waits fd ≢ 0 → 0 < times (eb.read_waits fd - header) busy)
        × (eb.write_waits fd ≢ 0 → 0 < times (eb.write_waits fd - header) busy)
  in_use fd = elim (dec_lt fd eb.wait_sz) [
    | yes fits ↦
        let r = eb.read_waits fd in
        let w = eb.write_waits fd in
        let (x, e, _) = held_split eb eb fd (λ j ne. (refl, refl)) eb.wait_sz rest fits in
        let (in_r, in_w) = times-freed_both r w x in
        (
          (λ ne. subst (λ z. 0 < times (r - header) z) (sym e) (in_r ne)),
          (λ ne. subst (λ z. 0 < times (w - header) z) (sym e) (in_w ne)),
        )
    | no out ↦
        let (r0, w0) = v.beyond fd (omega (arith, out)) in
        ((λ ne. absurd (ne r0)), λ ne. absurd (ne w0))
  ]

  module _ (eb' : Base K Q) (kept : Kept (held eb eb.wait_sz rest) eb.events eb'.events) where
    pub Waits-Kept :
        (fd : ℕ)
        → Waits eb' read_only fd (eb.read_waits fd) × Waits eb' write_only fd (eb.write_waits fd)
    Waits-Kept fd = (
      (λ ne.
          let (at, kind, big) = v.to_read fd ne in
          let e = kept (eb.read_waits fd) big ((in_use fd).0 ne) in
          (ap (λ x. x.fd) e ∙ at, ap (λ x. x.kide) e ∙ kind, big)),
      (λ ne.
          let (at, kind, big) = v.to_write fd ne in
          let e = kept (eb.write_waits fd) big ((in_use fd).1 ne) in
          (ap (λ x. x.fd) e ∙ at, ap (λ x. x.kide) e ∙ kind, big)),
    )

    -- A base that differs in what waits for one descriptor is sound too if that is.
    pub Sound-OffBy :
        (fd : ℕ)
        → fd < eb.wait_sz
        → Agrees epoll eb'
        → eb'.kides ≡ eb.kides
        → eb'.wait_sz ≡ eb.wait_sz
        → OffBy fd eb eb'
        → Waits eb' read_only fd (eb'.read_waits fd)
        → Waits eb' write_only fd (eb'.write_waits fd)
        → Sound epoll eb'
    Sound-OffBy fd fits g ks sz off new_read new_write = record {
      agrees = g;
      reads = ap (λ x. x.reads) ks ∙ v.reads;
      writes = ap (λ x. x.writes) ks ∙ v.writes;
      beyond = λ j big.
          let (r, w) = off j (λ e. omega (arith, e, big, sz, fits)) in
          let (r0, w0) = v.beyond j (omega (arith, big, sz)) in (r ∙ r0, w ∙ w0);
      to_read = λ j. elim (ℕ_discrete j fd) [
        | yes e ↦ subst (λ z. Waits eb' read_only z (eb'.read_waits z)) (sym e) new_read
        | no ne ↦ subst (Waits eb' read_only j) (sym (off j ne).0) (Waits-Kept j).0
      ];
      to_write = λ j. elim (ℕ_discrete j fd) [
        | yes e ↦ subst (λ z. Waits eb' write_only z (eb'.write_waits z)) (sym e) new_write
        | no ne ↦ subst (Waits eb' write_only j) (sym (off j ne).1) (Waits-Kept j).1
      ];
    }

  -- What another thread puts into the slabs that are not in use does no harm.
  pub Sound-Kept :
      (ev : ℕ → Event)
      → Kept (held eb eb.wait_sz rest) eb.events ev
      → Sound epoll (record eb { events = ev })
  Sound-Kept ev kept = record {
    agrees = Agrees-events epoll eb ev v.agrees;
    reads = v.reads;
    writes = v.writes;
    beyond = v.beyond;
    to_read = λ fd. (Waits-Kept (record eb { events = ev }) kept fd).0;
    to_write = λ fd. (Waits-Kept (record eb { events = ev }) kept fd).1;
  }

  -- What an access leaves: a sound base, the books of the pool with what the base has now, and the
  -- events of all that was in use, as they were.
  abbrev pub Turned : (slabs : List ℕ) → Base K Q → Pool → Type 0
  Turned slabs eb' pool' =
      Sound epoll eb'
      × Owns slabs (held eb' eb'.wait_sz rest) pool'
      × Kept (held eb eb.wait_sz rest) eb.events eb'.events
