-- ===== src/Server/Round.antt =====
-- A call of `ebot_loop` in a reactor that serves clients.
use std.Path.{subst, transport}
use ebot.Base.{
  ℕ, ◌+◌, ◌<◌, ◌≤◌, ◌≡◌, ◌≢◌, refl, sym, ap, ◌∙◌, true, false, List, [], ◌++◌, arith, Bag, times,
  length, Returns, Returns-bind, Returns-both,
}
use ebot.Event.{Base}
use ebot.Event.Loop.{dispatch_events, enqueue, loop, ready}
use ebot.Event.Queue.{Queued, Grows}
use ebot.Event.Waking.{Woken, enqueue-Queued}
use ebot.Event.System.{Mask, Epoll, TailQueue, Obeys}
use ebot.Event.Tables.{Agrees, Entry}
use ebot.Event.Wanted.{Kept, enqueue-Only}
use ebot.Pool.Links.{NotIn, All}
use ebot.Server.Between.{with_queue, Serving, Serving-marks}
use ebot.Server.Client.{received}
use ebot.Server.Clients.{Client, fds, slabs_of}
use ebot.Server.Manned.{AllManned}
use ebot.Server.Middle.{leaves, AllNext-same, Middle}
use ebot.Server.React.{Heard, react}
use ebot.Server.Reported.{
  OfClients, OfClients-Known, OfClients-Wanted, All-Next, Nexts, Woken-reports, read_seat,
  nobody_left, leaves-reports,
}
use ebot.Server.Stepping.{steps}
use ebot.Server.Types.{Reactor, Srv, Net}

module _ {K Q : Type 0} (epoll : Epoll K) (queue : TailQueue Q) (this : ℕ) (start : Base K Q)
    (others slabs : Bag) where
  -- A reactor that serves just these clients waits for events: nothing is queued, and the rings of
  -- the server's workers are in order. The free slabs, those of the clients and the others are just
  -- these slabs.
  pub record AtRest (cs : List Client) (eb : Base K Q) (srv : Srv K Q) : Type 0 where
    pub queued : Queued queue eb
    pub idle : queue.items eb.event_readies ≡ []
    pub free : Bag
    pub serving : Serving epoll this start cs free others eb srv.event_pool
    pub whole : (a : ℕ) → times a free + times a (slabs_of cs others) ≡ times a slabs
    pub manned : AllManned srv.factory.units
    pub some_unit : length srv.factory.units ≢ 0

  module _ (heard : Heard) (l : List (ℕ × Mask)) where
    enqueued-Middle :
        (cs : List Client) (eb eb' : Base K Q) (srv : Srv K Q)
        → (rest : AtRest cs eb srv) → (g : Grows queue (length l + length l) eb eb')
        → Woken queue eb' eb.read_waits eb.write_waits l
        → All
            (Nexts this start eb epoll queue heard l others slabs (fds cs) cs)
            (queue.items eb'.event_readies)
        → Kept eb eb'
        → Middle epoll queue this start heard l others slabs
            (fds cs)
            (queue.items eb'.event_readies)
            cs
            eb'
            srv
    enqueued-Middle cs eb eb' srv rest g woken next (kernel, sz, ks) =
        let agrees : Agrees epoll eb' = record {
          entry = λ fd.
              transport
                (λ i.
                  Entry (epoll.interest (sym kernel i) fd) (sym g.reads i fd) (sym g.writes i fd))
                (rest.serving.agrees.entry fd);
          reads = g.read_same ∙ rest.serving.agrees.reads ∙ sym sz;
          writes = g.write_same ∙ rest.serving.agrees.writes ∙ sym sz;
        } in
        record {
          queued = g.queued;
          items = refl;
          free = rest.free;
          serving =
              Serving-marks epoll this start cs rest.free others eb eb' srv.event_pool rest.serving
                agrees sz ks g.reads g.writes g.same;
          whole = rest.whole;
          manned = rest.manned;
          some_unit = rest.some_unit;
          next =
              AllNext-same epoll queue this start heard l others slabs (fds cs) cs eb eb'
                (queue.items eb'.event_readies) g.same
                (All-Next this start eb epoll queue heard l others slabs (fds cs) cs
                  (queue.items eb'.event_readies) next);
          due = λ a fd at lv gone.
              let (e, ne, _) =
                read_seat this (with_queue epoll this start eb) eb cs a fd rest.serving.seated at in
              let busy =
                Woken-reports queue eb' eb.read_waits eb.write_waits l fd woken
                  (leaves-reports heard l fd lv) (λ z. ne (sym e ∙ z)) in
              g.queued.held a (subst (λ z. (eb'.events z).queued ≡ true) e busy) gone;
          stays = λ j there lv out. there out;
          only = λ j out. out;
        }

module _ {K Q W : Type 0} (epoll : Epoll K) (queue : TailQueue Q) (net : Net W)
    (obeys : Obeys epoll) (this : ℕ) (start : Base K Q) (others slabs : Bag) where
  -- A call of `ebot_loop` in a reactor that serves clients, with the callbacks that its events
  -- have, comes to its end with the result 0 and leaves a reactor that serves just those clients
  -- whose connection it has not found closed: the two events of each of them wait, no slab is lost,
  -- so that all but theirs and the others that were in use are free, the tables agree with the
  -- kernel, nothing is queued, and the rings of the workers are in order. So it is whatever
  -- `epoll_wait` reports about the clients, in any order, and whatever `recv` gives, at most 128
  -- bytes, with a round for each event that can be queued and one more.
  pub loop-AtRest :
      (r : Reactor K Q) (heard : Heard) (l : List (ℕ × Mask)) (fuel : ℕ) (cs : List Client)
      (eb : Base K Q) (srv : Srv K Q) (world : W)
      → ((fd : ℕ) → length (received (heard.recv fd)) ≤ 128)
      → AtRest epoll queue this start others slabs cs eb srv
      → OfClients cs l
      → length l + length l < fuel
      → Returns
          (λ (done, eb', (srv', world')).
            (done ≡ true)
            × (cs' : List Client) × AtRest epoll queue this start others slabs cs' eb' srv'
            × ((j : ℕ) → NotIn j (fds cs) → NotIn j (fds cs'))
            × ((j : ℕ) → leaves heard l j ≡ true → NotIn j (fds cs'))
            × ((j : ℕ) → (NotIn j (fds cs) → ⊥) → leaves heard l j ≡ false → NotIn j (fds cs') → ⊥))
          (loop queue (react epoll net r heard) fuel (ready l) (eb, (srv, world)))
  unfolding loop
  loop-AtRest r heard l fuel cs eb srv world few rest all enough =
      let v = rest.serving in
      let known =
        OfClients-Known this (with_queue epoll this start eb) eb queue cs l v.seated
          (v.agrees.reads ∙ v.wait_sz) (v.agrees.writes ∙ v.wait_sz) all in
      let wanted =
        OfClients-Wanted this (with_queue epoll this start eb) eb epoll queue heard l others slabs
          (fds cs) cs l v.seated all λ fd h. h in
      Returns-bind _ _ (enqueue queue eb l) _
        (Returns-both _ _ (enqueue queue eb l) (enqueue-Queued queue eb l rest.queued known) (
          enqueue-Only queue (Nexts this start eb epoll queue heard l others slabs (fds cs) cs) eb l
            rest.queued known wanted (subst (All _) (sym rest.idle) tt)))
        λ eb' ((g, woken), (next, kept)).
          let m =
            enqueued-Middle epoll queue this start others slabs heard l cs eb eb' srv rest g woken
              next kept in
          let count : length (queue.items eb'.event_readies) < fuel =
            omega (arith, enough, g.few, ap length (g.items ∙ ap (λ z. z ++ g.more) rest.idle)) in
          Returns-bind _ _
            (dispatch_events queue (react epoll net r heard) fuel (eb', (srv, world))) _
            (steps epoll queue net obeys this start r heard few l others slabs (fds cs)
              (queue.items eb'.event_readies) fuel cs eb' srv world m count)
            λ (eb'', (srv'', world'')) (cs', m'). (
              refl,
              cs',
              record {
                queued = m'.queued;
                idle = m'.items;
                free = m'.free;
                serving = m'.serving;
                whole = m'.whole;
                manned = m'.manned;
                some_unit = m'.some_unit;
              },
              m'.only,
              (λ j lv. nobody_left cs' j λ a at. m'.due a j at lv tt),
              m'.stays,
            )
