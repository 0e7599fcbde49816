-- ===== src/Server/Middle.antt =====
-- The rounds of `dispatch_events` in a reactor.
use ebot.Base.{
  ℕ, ◌+◌, ◌≡◌, ◌≢◌, refl, sym, ◌∙◌, ◌⊎◌, inl, inr, Bool, true, false, ◌&&◌, ◌||◌, List, [], ◌∷◌,
  ◌++◌, Bag, times, length, ◌==◌, eq→==, ne→not_==, ℕ_discrete,
}
use ebot.Event.{Base, event_write}
use ebot.Event.Dispatch.{taken}
use ebot.Event.Marks.{unqueued}
use ebot.Event.Queue.{Queued}
use ebot.Event.System.{Mask, Epoll, TailQueue, Absent}
use ebot.Pool.{Pool, header}
use ebot.Pool.Links.{NotIn}
use ebot.Server.Between.{At, At-without, Serving, Serving-marks}
use ebot.Server.Client.{client_write}
use ebot.Server.Clients.{Client, fds, slabs_of}
use ebot.Server.Manned.{AllManned}
use ebot.Server.React.{Heard}
use ebot.Server.Reading.{closed}
use ebot.Server.Types.{Srv}

-- `epoll_wait` reports input for the descriptor.
abbrev pub reports : List (ℕ × Mask) → ℕ → Bool
reports [] fd = false
reports ((j, m) ∷ rest) fd = (m.input && (j == fd)) || reports rest fd

-- The connection of the descriptor ends in this round.
abbrev pub leaves : Heard → List (ℕ × Mask) → ℕ → Bool
leaves heard l fd = reports l fd && closed (heard.recv fd)

module _ {K Q : Type 0} (epoll : Epoll K) (queue : TailQueue Q) (this : ℕ) (start : Base K Q)
    (heard : Heard) (l : List (ℕ × Mask)) (others slabs : Bag) (before : List ℕ) where
  -- In the queue are the events to read of clients for which input is reported, and events to
  -- write, of clients that are there or have left.
  abbrev pub Next : List Client → Base K Q → ℕ → Type 0
  Next cs eb a =
      (fd : ℕ) × ((At cs a fd × (reports l fd ≡ true))
        ⊎ (unqueued (eb.events a) ≡ event_write fd client_write this))

  abbrev pub AllNext : List Client → Base K Q → List ℕ → Type 0
  AllNext cs eb [] = Unit
  AllNext cs eb (a ∷ rest) = Next cs eb a × AllNext cs eb rest

  -- Between two rounds: `todo` is in the queue, and the clients that have closed their connection
  -- either have left or have their event to read in it.
  pub record Middle (todo : List ℕ) (cs : List Client) (eb : Base K Q) (srv : Srv K Q)
      : Type 0 where
    pub queued : Queued queue eb
    pub items : queue.items eb.event_readies ≡ todo
    pub free : Bag
    pub serving : Serving epoll this start cs free others eb srv.event_pool
    pub whole : (a : ℕ) → times a free + times a (slabs_of cs others) ≡ times a slabs
    pub manned : AllManned srv.factory.units
    pub some_unit : length srv.factory.units ≢ 0
    pub next : AllNext cs eb todo
    pub due : (a fd : ℕ) → At cs a fd → leaves heard l fd ≡ true → Absent a todo → ⊥
    pub stays : (j : ℕ) → (NotIn j before → ⊥) → leaves heard l j ≡ false → NotIn j (fds cs) → ⊥
    pub only : (j : ℕ) → NotIn j before → NotIn j (fds cs)

  pub AllNext-same :
      (cs : List Client) (eb eb' : Base K Q) (todo : List ℕ)
      → ((a : ℕ) → unqueued (eb'.events a) ≡ unqueued (eb.events a))
      → AllNext cs eb todo
      → AllNext cs eb' todo
  AllNext-same cs eb eb' [] same h = tt
  AllNext-same cs eb eb' (a ∷ todo) same ((fd, inl h), rest) =
      ((fd, inl h), AllNext-same cs eb eb' todo same rest)
  AllNext-same cs eb eb' (a ∷ todo) same ((fd, inr h), rest) =
      ((fd, inr (same a ∙ h)), AllNext-same cs eb eb' todo same rest)

  pub AllNext-without :
      (k : List Client) (c : Client) (r : List Client) (eb : Base K Q) (todo : List ℕ)
      → Absent (c.reads + header) todo
      → AllNext (k ++ (c ∷ r)) eb todo
      → AllNext (k ++ r) eb todo
  AllNext-without k c r eb [] out h = tt
  AllNext-without k c r eb (a ∷ todo) (ne, out) ((fd, inl (at, rep)), rest) = (
    (fd, inl (At-without k c r a fd (λ e. ne (sym e)) at, rep)),
    AllNext-without k c r eb todo out rest,
  )
  AllNext-without k c r eb (a ∷ todo) (ne, out) ((fd, inr h), rest) =
      ((fd, inr h), AllNext-without k c r eb todo out rest)

  -- An event leaves the queue.
  pub unqueued-taken :
      (eb : Base K Q) (a b : ℕ) → unqueued ((taken queue eb a).events b) ≡ unqueued (eb.events b)
  unqueued-taken eb a b = elim (ℕ_discrete b a) [
    | yes e ↦ rw (eq→== b a e, e) refl
    | no ne ↦ rw (ne→not_== b a ne) refl
  ]

  pub Serving-taken :
      (cs : List Client) (free : Bag) (eb : Base K Q) (a : ℕ) (mp : Pool)
      → Serving epoll this start cs free others eb mp
      → Serving epoll this start cs free others (taken queue eb a) mp
  Serving-taken cs free eb a mp v =
      Serving-marks epoll this start cs free others eb (taken queue eb a) mp v
        (record { entry = v.agrees.entry; reads = v.agrees.reads; writes = v.agrees.writes }) refl
        refl refl refl (unqueued-taken eb a)
