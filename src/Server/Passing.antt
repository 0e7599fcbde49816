-- ===== src/Server/Passing.antt =====
-- What a round of `dispatch_events` keeps, whichever event it is about.
use std.Path.{subst, subst⁻¹}
use ebot.Base.{
  ℕ, ◌+◌, ◌≡◌, refl, sym, ap, ◌∙◌, true, List, [], ◌∷◌, ◌++◌, Bag, times, insert, times-insert,
  arith, ℕ_discrete,
}
use ebot.Event.{Base}
use ebot.Event.Dispatch.{taken, taken-Queued}
use ebot.Event.Marks
use ebot.Event.Marks.{unqueued, Marked}
use ebot.Event.Queue.{Queued}
use ebot.Event.System.{Mask, Epoll, TailQueue, Absent, null}
use ebot.Io.{Recv, got, no_data, recv_error}
use ebot.Pool.{header}
use ebot.Pool.Links.{NotIn, Distinct, NotIn-append}
use ebot.Pool.Put.{Distinct-mid}
use ebot.Server.Between.{At, At-mid, At-with, At-In, At-event, Serving, Serving-queue, with_queue}
use ebot.Server.Clients.{Client, fds, slabs_of, Serves}
use ebot.Server.Leaving.{fds-append, slabs_of_mid, NotIn-mid}
use ebot.Server.Middle.{
  leaves, AllNext, AllNext-same, AllNext-without, Middle, unqueued-taken, Serving-taken,
}
use ebot.Server.React.{Heard}
use ebot.Server.Reading.{AtWork, closed}
use ebot.Server.Types.{Srv, Net}

pub closed-got : (x : Recv) → closed x ≡ true → x ≡ got []
closed-got (got []) h = refl
closed-got (got (b ∷ bytes)) h = cc
closed-got no_data h = cc
closed-got recv_error h = cc

NotIn-drop :
    (j : ℕ) (xs : List ℕ) (a : ℕ) (ys : List ℕ) → NotIn j (xs ++ (a ∷ ys)) → NotIn j (xs ++ ys)
NotIn-drop j [] a ys out = out.1
NotIn-drop j (x ∷ xs) a ys out = (out.0, NotIn-drop j xs a ys out.1)

Queued-same :
    {K Q : Type 0} (queue : TailQueue Q) (x y : Base K Q)
    → y.events ≡ x.events
    → y.event_readies ≡ x.event_readies
    → Queued queue x
    → Queued queue y
Queued-same queue x y ev qe q = record {
  idle = λ a h.
      subst⁻¹ (λ z. Absent a (queue.items z)) qe (q.idle a (ap (λ f. (f a).queued) (sym ev) ∙ h));
  held = λ a h gone.
      q.held a (ap (λ f. (f a).queued) (sym ev) ∙ h)
        (subst (λ z. Absent a (queue.items z)) qe gone);
  marked =
      subst⁻¹ (λ z. Marked y.events (queue.items z)) qe
        (subst⁻¹ (λ f. Marked f (queue.items x.event_readies)) ev q.marked);
  distinct = subst⁻¹ (λ z. Marks.Distinct (queue.items z)) qe q.distinct;
  real = subst⁻¹ (λ z. Absent null (queue.items z)) qe q.real;
}

-- The slabs of a client that leaves are free, and none is lost.
slabs_kept :
    (free : Bag) (k : List Client) (c : Client) (rest : List Client) (others : Bag) (b : ℕ)
    → times b (insert c.writes (insert c.reads free)) + times b (slabs_of (k ++ rest) others)
      ≡ times b free + times b (slabs_of (k ++ (c ∷ rest)) others)
slabs_kept free k c rest others b =
    let x = slabs_of (k ++ rest) others in
    omega (
      arith,
      times-insert b c.writes (insert c.reads free),
      times-insert b c.reads free,
      ap (times b) (slabs_of_mid k c rest others),
      times-insert b c.reads (insert c.writes x),
      times-insert b c.writes x,
    )

module _ {K Q W : Type 0} (epoll : Epoll K) (queue : TailQueue Q) (net : Net W) (this : ℕ)
    (start : Base K Q) (heard : Heard) (l : List (ℕ × Mask)) (others slabs : Bag)
    (before : List ℕ) where
  abbrev pub Mid : List ℕ → List Client → Base K Q → Srv K Q → Type 0
  Mid todo cs eb srv = Middle epoll queue this start heard l others slabs before todo cs eb srv

  -- The head of the queue goes, where it is not the event to read of a client that has closed.
  pub Middle-taken :
      (a : ℕ) (todo : List ℕ) (cs : List Client) (eb : Base K Q) (srv : Srv K Q)
      → Mid (a ∷ todo) cs eb srv
      → ((fd : ℕ) → At cs a fd → leaves heard l fd ≡ true → ⊥)
      → Mid todo cs (taken queue eb a) srv
  Middle-taken a todo cs eb srv m nobody =
      let (q, items) = taken-Queued queue eb a todo m.queued m.items in
      record {
        queued = q;
        items = items;
        free = m.free;
        serving =
            Serving-taken epoll queue this start heard l others slabs before cs m.free eb a
              srv.event_pool m.serving;
        whole = m.whole;
        manned = m.manned;
        some_unit = m.some_unit;
        next =
            AllNext-same epoll queue this start heard l others slabs before cs eb (taken queue eb a)
              todo (unqueued-taken epoll queue this start heard l others slabs before eb a)
              m.next.1;
        due = λ b fd at lv out. elim (ℕ_discrete b a) [
          | yes e ↦ nobody fd (subst (λ z. At cs z fd) e at) lv
          | no ne ↦ m.due b fd at lv (ne, out)
        ];
        stays = m.stays;
        only = m.only;
      }

  -- Nothing but the units of the server has changed.
  pub Middle-same :
      (todo : List ℕ) (cs : List Client) (eb eb' : Base K Q) (srv srv' : Srv K Q)
      → Mid todo cs eb srv
      → eb' ≡ eb
      → srv'.event_pool ≡ srv.event_pool
      → AtWork epoll net srv srv'
      → Mid todo cs eb' srv'
  Middle-same todo cs eb eb' srv srv' m e p (work, same) =
      subst⁻¹ (λ z. Mid todo cs z srv') e
        (record {
          queued = m.queued;
          items = m.items;
          free = m.free;
          serving = subst⁻¹ (λ z. Serving epoll this start cs m.free others eb z) p m.serving;
          whole = m.whole;
          manned = work;
          some_unit = λ z. m.some_unit (sym same ∙ z);
          next = m.next;
          due = m.due;
          stays = m.stays;
          only = m.only;
        })

  abbrev pub Left : List ℕ → Base K Q × (Srv K Q × W) → Type 0
  Left todo (eb', (srv', world')) = (cs' : List Client) × Mid todo cs' eb' srv'

  -- The client whose event was taken has left.
  pub Middle-left :
      (a : ℕ) (todo : List ℕ) (cs k : List Client) (c : Client) (rest : List Client)
      (eb eb' : Base K Q) (srv srv' : Srv K Q)
      → (m : Mid (a ∷ todo) cs eb srv) → cs ≡ k ++ (c ∷ rest)
      → c.reads + header ≡ a
      → leaves heard l c.fd ≡ true
      → Serves this
          (with_queue epoll this start (taken queue eb a))
          epoll
          (k ++ rest)
          (insert c.writes (insert c.reads m.free))
          others
          eb'
          srv'.event_pool
      → eb'.events ≡ (taken queue eb a).events
      → AtWork epoll net srv srv'
      → Mid todo (k ++ rest) eb' srv'
  Middle-left a todo cs k c rest eb eb' srv srv' m e is lv v ev (work, same) =
      let free = insert c.writes (insert c.reads m.free) in
      let (q, items) = taken-Queued queue eb a todo m.queued m.items in
      let d : Distinct (fds k ++ (c.fd ∷ fds rest)) =
        subst Distinct (ap fds e ∙ fds-append k (c ∷ rest)) m.serving.distinct in
      let (out_k, out_rest, _) = Distinct-mid (fds k) c.fd (fds rest) d in
      let gone : NotIn c.fd (fds (k ++ rest)) =
        subst⁻¹ (NotIn c.fd) (fds-append k rest)
          (NotIn-append c.fd (fds k) (fds rest) out_k out_rest) in
      let once : Absent (c.reads + header) todo =
        subst⁻¹ (λ z. Absent z todo) is (subst Marks.Distinct m.items m.queued.distinct).0 in
      let kept : (b : ℕ) → unqueued (eb'.events b) ≡ unqueued (eb.events b) = λ b.
        ap (λ f. unqueued (f b)) ev
        ∙ unqueued-taken epoll queue this start heard l others slabs before eb a b in
      let here : (fd : ℕ) → At (k ++ rest) a fd → ⊥ = λ fd at.
        let mine : At cs a c.fd = subst⁻¹ (λ z. At z a c.fd) e (At-mid k c rest a is) in
        let his : At cs a fd = subst⁻¹ (λ z. At z a fd) e (At-with k c rest a fd at) in
        let seats = m.serving.seated in
        let same_fd : fd ≡ c.fd =
          ap (λ x. x.fd)
            (sym (At-event this (with_queue epoll this start eb) eb cs a fd seats his)
              ∙ At-event this (with_queue epoll this start eb) eb cs a c.fd seats mine) in
        At-In (k ++ rest) a fd at (subst⁻¹ (λ z. NotIn z (fds (k ++ rest))) same_fd gone) in
      record {
        queued = Queued-same queue (taken queue eb a) eb' ev v.readies q;
        items = ap queue.items v.readies ∙ items;
        free = free;
        whole = λ b.
            slabs_kept m.free k c rest others b
            ∙ ap (λ z. times b m.free + times b (slabs_of z others)) (sym e)
            ∙ m.whole b;
        serving =
            Serving-queue epoll this start (k ++ rest) free others (taken queue eb a) eb'
              srv'.event_pool v;
        manned = work;
        some_unit = λ z. m.some_unit (sym same ∙ z);
        next =
            AllNext-without epoll queue this start heard l others slabs before k c rest eb' todo
              once
              (AllNext-same epoll queue this start heard l others slabs before (k ++ (c ∷ rest)) eb
                eb' todo kept
                (subst (λ z. AllNext epoll queue this start heard l others slabs before z eb todo) e
                  m.next.1));
        due = λ b fd at lv' out. elim (ℕ_discrete b a) [
          | yes eq ↦ here fd (subst (λ z. At (k ++ rest) z fd) eq at)
          | no ne ↦ m.due b fd (subst⁻¹ (λ z. At z b fd) e (At-with k c rest b fd at)) lv' (ne, out)
        ];
        stays = λ j there lv' out. m.stays j there lv' (
            subst⁻¹ (λ z. NotIn j (fds z)) e
              (subst⁻¹ (NotIn j) (fds-append k (c ∷ rest)) (
                NotIn-mid j (fds k) c.fd (fds rest) (subst (NotIn j) (fds-append k rest) out)
                  (λ z. cc (lv, lv', ap (leaves heard l) z)))));
        only = λ j out. subst⁻¹ (NotIn j) (fds-append k rest) (
            NotIn-drop j (fds k) c.fd (fds rest)
              (subst (NotIn j) (ap fds e ∙ fds-append k (c ∷ rest)) (m.only j out)));
      }
