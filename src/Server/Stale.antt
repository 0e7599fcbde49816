-- ===== src/Server/Stale.antt =====
-- The event to write of a connection that has ended, where it was ready in the same round.
use mathlib.Core.List.{head?}
use ebot.Base.{
  ℕ, ◌<◌, ◌≡◌, refl, ap, ◌∙◌, false, some, List, ◌∷◌, Run, Returns, Returns-map, Bag, eq→==,
}
use ebot.Event.{Base, event_write, put}
use ebot.Event.Loop.{dispatch_one}
use ebot.Event.System.{Epoll, TailQueue, Obeys, read_only, write_only}
use ebot.Event.Tables.{Agrees}
use ebot.Pool.{Pool}
use ebot.Pool.Moves.{Has}
use ebot.Server.Client.{hang_up, client_write}
use ebot.Server.Hangup.{Waits, freed, Parted, hang_up-Parted}
use ebot.Server.Types.{Net}

module _ {K Q W : Type 0} (epoll : Epoll K) (queue : TailQueue Q) (net : Net W)
    (callback : (cb fd arg : ℕ) → Base K Q × W → Run (Base K Q × W)) where
  -- A round of `dispatch_events` for the event to write of a client.
  dispatch_one-client_write :
      (eb : Base K Q) (a fd this : ℕ) (world : W)
      → eb.events a ≡ event_write fd client_write this
      → (eb' : Base K Q) × (dispatch_one queue callback (eb, world) a
          ≡ callback client_write fd this (eb', world))
  unfolding dispatch_one
  dispatch_one-client_write eb a fd this world is = (
    record eb {
      event_readies = queue.remove eb.event_readies a;
      events = put eb.events a (record (eb.events a) { queued = false });
    },
    rw (eq→== a a refl, is) refl,
  )

  -- Where a connection ends whose event to write is the next one in the queue of ready events, it
  -- stays the next one: its slab is free and nothing waits for the descriptor any more, and the
  -- next round of `dispatch_events` calls the callback for writing with that descriptor all the
  -- same.
  pub hang_up-dispatch_one :
      (obeys : Obeys epoll) (eb : Base K Q) (fd this : ℕ) (mp : Pool) (free others : Bag)
      (queued : List ℕ)
      → Agrees epoll eb
      → fd < eb.wait_sz
      → Waits eb read_only fd (eb.read_waits fd)
      → Waits eb write_only fd (eb.write_waits fd)
      → Has free (freed (eb.read_waits fd) (freed (eb.write_waits fd) others)) mp
      → eb.events (eb.write_waits fd) ≡ event_write fd client_write this
      → queue.items eb.event_readies ≡ eb.write_waits fd ∷ queued
      → let w = eb.write_waits fd in
        Returns
          (λ (eb', mp').
            (eb'.read_waits fd ≡ 0)
            × (eb'.write_waits fd ≡ 0)
            × Has (freed w (freed (eb.read_waits fd) free)) others mp'
            × (queue.first eb'.event_readies ≡ some w)
            × ((world : W)
                → (eb'' : Base K Q) × (dispatch_one queue callback (eb', world) w
                    ≡ callback client_write fd this (eb'', world))))
          (hang_up epoll net eb mp fd)
  hang_up-dispatch_one obeys eb fd this mp free others queued g fits reads writes has is next =
      let w = eb.write_waits fd in
      Returns-map
        {P = λ (eb', mp').
          Parted epoll net fd eb eb' × Has (freed w (freed (eb.read_waits fd) free)) others mp'}
        (hang_up epoll net eb mp fd)
        (λ (eb', mp') ((g', r', w', (sz, ev, q, ks, o)), has'). (
          r',
          w',
          has',
          ap queue.first q ∙ queue.first-items eb.event_readies ∙ ap head? next,
          λ world. dispatch_one-client_write eb' w fd this world (ap (λ f. f w) ev ∙ is),
        ))
        (hang_up-Parted epoll net obeys eb fd g fits mp free others reads writes has)
