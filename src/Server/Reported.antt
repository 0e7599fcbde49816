-- ===== src/Server/Reported.antt =====
-- What `epoll_wait` reports about the clients of a reactor.
use std.Path.{subst, subst⁻¹}
use ebot.Base.{
  ℕ, ◌+◌, ◌<◌, ◌≡◌, ◌≢◌, refl, sym, ap, ◌∙◌, inl, inr, true, ◌&&◌, List, [], ◌∷◌, arith, Bag, ◌==◌,
  eq→==, Bool-cases,
}
use ebot.Event.{Base, event_write}
use ebot.Event.Marks.{unqueued}
use ebot.Event.Waking.{Known, Woken}
use ebot.Event.System.{Mask, Epoll, TailQueue, null}
use ebot.Event.Wanted.{Wanted}
use ebot.Pool.{header}
use ebot.Pool.Links.{NotIn, All}
use ebot.Server.Between.{At, In-At}
use ebot.Server.Client.{client_write}
use ebot.Server.Clients.{Client, fds, AllSeated}
use ebot.Server.Middle.{reports, leaves, Next, AllNext}
use ebot.Server.React.{Heard}

-- All that `epoll_wait` reports is about clients.
abbrev pub OfClients : List Client → List (ℕ × Mask) → Type 0
OfClients cs [] = Unit
OfClients cs ((fd, m) ∷ rest) = (NotIn fd (fds cs) → ⊥) × OfClients cs rest

pub nobody_left : (cs : List Client) (j : ℕ) → ((a : ℕ) → At cs a j → ⊥) → NotIn j (fds cs)
nobody_left [] j none = tt
nobody_left (c ∷ cs) j none =
    ((λ e. none (c.reads + header) (inl (refl, sym e))), nobody_left cs j λ a at. none a (inr at))

reports_head :
    (fd : ℕ) (m : Mask) (rest : List (ℕ × Mask))
    → m.input ≡ true
    → reports ((fd, m) ∷ rest) fd ≡ true
reports_head fd m rest on = rw (on, eq→== fd fd refl) refl

reports_tail :
    (fd j : ℕ) (m : Mask) (rest : List (ℕ × Mask))
    → reports rest fd ≡ true
    → reports ((j, m) ∷ rest) fd ≡ true
reports_tail fd j m rest h = ground (arith, h)

pub leaves-reports :
    (heard : Heard) (l : List (ℕ × Mask)) (fd : ℕ) → leaves heard l fd ≡ true → reports l fd ≡ true
leaves-reports heard l fd h = ground (arith, h)

module _ {K Q : Type 0} (this : ℕ) (start eb : Base K Q) where
  -- The two events of a client wait.
  pub read_seat :
      (cs : List Client) (a fd : ℕ)
      → AllSeated this start eb cs
      → At cs a fd
      → (eb.read_waits fd ≡ a) × (a ≢ 0) × (fd < start.wait_sz)
  read_seat [] a fd h at = elim at [ ]
  read_seat (c ∷ cs) a fd (s, h) (inl (e, here)) = (
    ap eb.read_waits (sym here) ∙ s.read_at ∙ e,
    (λ z. omega (arith, e, z)),
    omega (arith, s.fits, here),
  )
  read_seat (c ∷ cs) a fd (s, h) (inr at) = read_seat cs a fd h at

  pub write_seat :
      (cs : List Client) (a fd : ℕ)
      → AllSeated this start eb cs
      → At cs a fd
      → unqueued (eb.events (eb.write_waits fd)) ≡ event_write fd client_write this
  write_seat [] a fd h at = elim at [ ]
  write_seat (c ∷ cs) a fd (s, h) (inl (e, here)) =
      ap (λ x. unqueued (eb.events x)) (ap eb.write_waits (sym here) ∙ s.write_at)
      ∙ s.write_event
      ∙ ap (λ x. event_write x client_write this) here
  write_seat (c ∷ cs) a fd (s, h) (inr at) = write_seat cs a fd h at

  pub OfClients-Known :
      (queue : TailQueue Q) (cs : List Client) (l : List (ℕ × Mask))
      → AllSeated this start eb cs
      → eb.read_room ≡ start.wait_sz
      → eb.write_room ≡ start.wait_sz
      → OfClients cs l
      → Known queue eb l
  OfClients-Known queue cs [] h r w o = tt
  OfClients-Known queue cs ((fd, m) ∷ rest) h r w (there, o) =
      let (a, at) = In-At cs fd there in
      let (_, _, fits) = read_seat cs a fd h at in
      (omega (arith, fits, r), omega (arith, fits, w), OfClients-Known queue cs rest h r w o)

  module _ (epoll : Epoll K) (queue : TailQueue Q) (heard : Heard) (l : List (ℕ × Mask))
      (others slabs : Bag) (before : List ℕ) where
    abbrev pub Nexts : List Client → ℕ → Type 0
    Nexts cs = Next epoll queue this start heard l others slabs before cs eb

    pub OfClients-Wanted :
        (cs : List Client) (rest : List (ℕ × Mask))
        → AllSeated this start eb cs
        → OfClients cs rest
        → ((fd : ℕ) → reports rest fd ≡ true → reports l fd ≡ true)
        → Wanted (Nexts cs) eb.read_waits eb.write_waits rest
    OfClients-Wanted cs [] h o sub = tt
    OfClients-Wanted cs ((fd, m) ∷ rest) h (there, o) sub =
        let (a, at) = In-At cs fd there in
        let (e, _, _) = read_seat cs a fd h at in
        (
          λ on ne. (fd, inl (subst⁻¹ (λ z. At cs z fd) e at, sub fd (reports_head fd m rest on))),
          λ on ne. (fd, inr (write_seat cs a fd h at)),
          OfClients-Wanted cs rest h o λ j h. sub j (reports_tail j fd m rest h),
        )

    pub All-Next :
        (cs : List Client) (todo : List ℕ)
        → All (Nexts cs) todo
        → AllNext epoll queue this start heard l others slabs before cs eb todo
    All-Next cs [] h = tt
    All-Next cs (a ∷ todo) (n, h) = (n, All-Next cs todo h)

-- Where input is reported, the event that waits to read is in the queue.
pub Woken-reports :
    {K Q : Type 0} (queue : TailQueue Q) (eb : Base K Q) (r w : ℕ → ℕ) (l : List (ℕ × Mask))
    (fd : ℕ)
    → Woken queue eb r w l
    → reports l fd ≡ true
    → r fd ≢ null
    → (eb.events (r fd)).queued ≡ true
Woken-reports queue eb r w [] fd h rep ne = cc
Woken-reports queue eb r w ((j, m) ∷ rest) fd (hr, hw, h) rep ne =
    elim (Bool-cases (m.input && (j == fd))) [
      | inl yes_ ↦
          let e : j ≡ fd = ground (arith, yes_) in
          let on : m.input ≡ true = ground (arith, yes_) in
          subst (λ z. (eb.events (r z)).queued ≡ true) e (hr on λ z. ne (ap r (sym e) ∙ z))
      | inr no_ ↦ Woken-reports queue eb r w rest fd h (rw no_ at rep) ne
    ]
