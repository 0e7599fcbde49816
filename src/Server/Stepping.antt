-- ===== src/Server/Stepping.antt =====
-- The rounds of `dispatch_events` in a reactor that serves clients.
use std.Path.{subst⁻¹}
use mathlib.Core.List.{head?}
use ebot.Base.{
  ℕ, zero, suc, ◌<◌, ◌≤◌, ◌≡◌, refl, sym, ap, ◌∙◌, ◌⊎◌, inl, inr, true, false, List, [], ◌∷◌, ◌++◌,
  arith, Bag, length, Returns, Returns-bind, Bool-cases,
}
use ebot.Event.{Base, event_read, event_write}
use ebot.Event.Dispatch.{taken, dispatch_one_calls}
use ebot.Event.Loop.{dispatch_one, dispatch_events}
use ebot.Event.Marks.{unqueued}
use ebot.Event.System.{Mask, Epoll, TailQueue, Obeys}
use ebot.Io.{got}
use ebot.Server.Between.{At, At-split, At-event, with_queue}
use ebot.Server.Client.{client_read, client_write, received, client_read_callback}
use ebot.Server.Clients.{Client}
use ebot.Server.Middle.{reports, leaves, Serving-taken}
use ebot.Server.Passing.{closed-got, Mid, Left, Middle-taken, Middle-same, Middle-left}
use ebot.Server.React.{Heard, react}
use ebot.Server.Reading.{closed, client_read_open, client_read_closed}
use ebot.Server.Types.{Reactor, Srv, Net}

still_open :
    (heard : Heard) (l : List (ℕ × Mask)) (j : ℕ)
    → closed (heard.recv j) ≡ false
    → leaves heard l j ≡ true
    → ⊥
still_open heard l j opened lv = ground (arith, opened, lv)

module _ {K Q W : Type 0} (epoll : Epoll K) (queue : TailQueue Q) (net : Net W)
    (obeys : Obeys epoll) (this : ℕ) (start : Base K Q) (r : Reactor K Q) (heard : Heard)
    (few : (fd : ℕ) → length (received (heard.recv fd)) ≤ 128) (l : List (ℕ × Mask))
    (others slabs : Bag) (before : List ℕ) where
  abbrev pub State : Type 0
  State = Base K Q × (Srv K Q × W)

  abbrev pub Ends : List ℕ → State → Type 0
  Ends = Left epoll queue net this start heard l others slabs before

  abbrev pub Now : List ℕ → List Client → Base K Q → Srv K Q → Type 0
  Now = Mid epoll queue net this start heard l others slabs before

  -- The events of two kinds are not at one place.
  write_alone :
      (a fd j : ℕ) (todo : List ℕ) (cs : List Client) (eb : Base K Q) (srv : Srv K Q)
      → Now (a ∷ todo) cs eb srv
      → unqueued (eb.events a) ≡ event_write fd client_write this
      → At cs a j
      → ⊥
  write_alone a fd j todo cs eb srv m is at =
      let was = At-event this (with_queue epoll this start eb) eb cs a j m.serving.seated at in
      omega (arith, ap (λ x. x.cb) (sym was ∙ is))

  step_write :
      (a fd : ℕ) (todo : List ℕ) (cs : List Client) (eb : Base K Q) (srv : Srv K Q) (world : W)
      → Now (a ∷ todo) cs eb srv
      → unqueued (eb.events a) ≡ event_write fd client_write this
      → Returns (Ends todo) (dispatch_one queue (react epoll net r heard) (eb, (srv, world)) a)
  unfolding react
  step_write a fd todo cs eb srv world m is =
      subst⁻¹ (Returns (Ends todo))
        (dispatch_one_calls queue (react epoll net r heard) eb a (event_write fd client_write this)
          (srv, world) is refl)
        (
          cs,
          Middle-taken epoll queue net this start heard l others slabs before a todo cs eb srv m
              λ j at lv. write_alone a fd j todo cs eb srv m is at,
        )

  step_open :
      (a fd : ℕ) (todo : List ℕ) (cs : List Client) (eb : Base K Q) (srv : Srv K Q) (world : W)
      → Now (a ∷ todo) cs eb srv
      → At cs a fd
      → closed (heard.recv fd) ≡ false
      → Returns (Ends todo) (dispatch_one queue (react epoll net r heard) (eb, (srv, world)) a)
  unfolding react
  step_open a fd todo cs eb srv world m at opened =
      let seats = m.serving.seated in
      let is = At-event this (with_queue epoll this start eb) eb cs a fd seats at in
      let nobody : (j : ℕ) → At cs a j → leaves heard l j ≡ true → ⊥ = λ j there lv.
        let his = At-event this (with_queue epoll this start eb) eb cs a j seats there in
        let e : j ≡ fd = ap (λ x. x.fd) (sym his ∙ is) in
        still_open heard l j (subst⁻¹ (λ z. closed (heard.recv z) ≡ false) e opened) lv in
      let eb1 = taken queue eb a in
      let m1 : Now todo cs eb1 srv =
        Middle-taken epoll queue net this start heard l others slabs before a todo cs eb srv m
          nobody in
      subst⁻¹ (Returns (Ends todo))
        (dispatch_one_calls queue (react epoll net r heard) eb a (event_read fd client_read this)
          (srv, world) is refl)
        (Returns-bind _ _
          (client_read_callback epoll net (record r { base = eb1 }) srv fd (heard.recv fd) world) _
          (client_read_open epoll net (record r { base = eb1 }) srv fd world m.manned m.some_unit
            (heard.recv fd) opened (few fd))
          λ (r', srv', world') (same, pool, work). (
            cs,
            Middle-same epoll queue net this start heard l others slabs before todo cs eb1 r'.base
                srv srv' m1 same pool work,
          ))

  step_closed :
      (a fd : ℕ) (todo : List ℕ) (cs : List Client) (eb : Base K Q) (srv : Srv K Q) (world : W)
      → Now (a ∷ todo) cs eb srv
      → At cs a fd
      → reports l fd ≡ true
      → closed (heard.recv fd) ≡ true
      → Returns (Ends todo) (dispatch_one queue (react epoll net r heard) (eb, (srv, world)) a)
  unfolding react
  step_closed a fd todo cs eb srv world m at reported shut =
      let is = At-event this (with_queue epoll this start eb) eb cs a fd m.serving.seated at in
      let (k, c, rest, e, place, here) = At-split cs a fd at in
      let lv : leaves heard l c.fd ≡ true =
        subst⁻¹ (λ z. leaves heard l z ≡ true) here (rw (reported, shut) refl) in
      let eb1 = taken queue eb a in
      let v1 =
        Serving-taken epoll queue this start heard l others slabs before cs m.free eb a
          srv.event_pool m.serving in
      subst⁻¹ (Returns (Ends todo))
        (dispatch_one_calls queue (react epoll net r heard) eb a (event_read fd client_read this)
          (srv, world) is refl)
        (rw (closed-got (heard.recv fd) shut) (
          Returns-bind _ _
            (client_read_callback epoll net (record r { base = eb1 }) srv fd (got []) world) _
            (client_read_closed epoll net (record r { base = eb1 }) srv fd world m.manned
              m.some_unit obeys this (with_queue epoll this start eb1) cs k c rest m.free others e
              here v1)
            λ (r', srv', world') (v', ev, work). (
              k ++ rest,
              Middle-left epoll queue net this start heard l others slabs before a todo cs k c rest
                  eb r'.base srv srv' m e place lv v' ev work,
            )))

  pub step :
      (a : ℕ) (todo : List ℕ) (cs : List Client) (eb : Base K Q) (srv : Srv K Q) (world : W)
      → Now (a ∷ todo) cs eb srv
      → Returns (Ends todo) (dispatch_one queue (react epoll net r heard) (eb, (srv, world)) a)
  step a todo cs eb srv world m = step_by m.next.0.1
    where
      step_by :
          ((At cs a m.next.0.0 × (reports l m.next.0.0 ≡ true))
            ⊎ (unqueued (eb.events a) ≡ event_write m.next.0.0 client_write this))
          → Returns (Ends todo) (dispatch_one queue (react epoll net r heard) (eb, (srv, world)) a)
      step_by (inr is) = step_write a m.next.0.0 todo cs eb srv world m is
      step_by (inl (at, reported)) = elim (Bool-cases (closed (heard.recv m.next.0.0))) [
        | inl shut ↦ step_closed a m.next.0.0 todo cs eb srv world m at reported shut
        | inr opened ↦ step_open a m.next.0.0 todo cs eb srv world m at opened
      ]

  -- With a round for each event in the queue and one for the test all of them are dispatched.
  pub steps :
      (todo : List ℕ) (fuel : ℕ) (cs : List Client) (eb : Base K Q) (srv : Srv K Q) (world : W)
      → Now todo cs eb srv
      → length todo < fuel
      → Returns (Ends []) (dispatch_events queue (react epoll net r heard) fuel (eb, (srv, world)))
  unfolding dispatch_events
  steps todo zero cs eb srv world m h = absurd (omega arith)
  steps [] (suc fuel) cs eb srv world m h =
      rw (dispatch_events, queue.first-items eb.event_readies ∙ ap head? m.items) (cs, m)
  steps (a ∷ todo) (suc fuel) cs eb srv world m h =
      rw (dispatch_events, queue.first-items eb.event_readies ∙ ap head? m.items)
        (Returns-bind _ _ (dispatch_one queue (react epoll net r heard) (eb, (srv, world)) a) _
          (step a todo cs eb srv world m)
          λ (eb', (srv', world')) (cs', m'). steps todo fuel cs' eb' srv' world' m' (omega arith))
