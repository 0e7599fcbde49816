-- ===== src/Chat/Listening.antt =====
-- How `main` of chat_server_example.c gets to the loop of its server.
use std.Path.{subst, subst⁻¹}
use ebot.Base.{
  zero, sym, ◌≤◌, ◌++◌, ◌+◌, ℕ, suc, ◌<◌, ◌≡◌, ◌≢◌, refl, ap, ◌∙◌, Bool, true, false, none, some,
  List, [], ◌∷◌, arith, length, length-append, ok, ◌>>=◌, Run, Returns, Returns-bind, Returns-ok,
  pos, ne→not_==,
}
use ebot.Chat.{Connection}
use ebot.Chat.Main.{set_up, main, on_connect_cb, on_recv_cb, on_close_cb}
use ebot.Event.{Base, Event}
use ebot.Event.Loop.{Waited}
use ebot.Event.System.{Epoll, TailQueue, Accepts}
use ebot.Event.Tables.{Entry, Agrees}
use ebot.Io.{set_nonblock}
use ebot.Io.Flags.{at_last, set_nonblock_ends}
use ebot.Pool.Valid.{Valid}
use ebot.Server.New.{Plenty, fresh_base, new-AllReady}
use ebot.Server.Reactors
use ebot.Server.Reactors.{Threads, loop_rounds, reactor_pool_start}
use ebot.Server.Ready.{AllReady}
use ebot.Server.Setup.{Means, eb_srv_new, eb_srv_listen}
use ebot.Server.Run.{eb_srv_start}
use ebot.Server.Starting.{Listens, eb_srv_start-Listens}
use ebot.Server.Types.{Srv, Net, on, register_ptr, eb_connect, eb_recv, eb_write, eb_close}
use ebot.Workers

-- The callbacks that `main` sets, and no other.
pub record Answers {K Q : Type 0} (conns fd : ℕ) (srv : Srv K Q) : Type 0 where
  pub connect : srv.callbacks eb_connect ≡ on_connect_cb
  pub recv : srv.callbacks eb_recv ≡ on_recv_cb
  pub write : srv.callbacks eb_write ≡ 0
  pub close : srv.callbacks eb_close ≡ on_close_cb
  pub udata : srv.udata ≡ conns
  pub sfd : srv.sfd ≡ pos fd

listen_lem :
    {K Q : Type 0} (srv : Srv K Q) (sfd opts n m r : ℕ)
    → Returns
        (λ srv'. srv' ≡ record srv { sfd = pos sfd })
        (eb_srv_listen srv (some sfd) (at_last n opts) (at_last m r) true true)
unfolding eb_srv_listen
listen_lem srv sfd opts n m r =
    Returns-bind _ _ (set_nonblock true (at_last n opts) (at_last m r)) _
      (set_nonblock_ends true opts n m r) λ flags _. refl

module _ {K Q : Type 0} (means : Means K Q) (p : Plenty means) where
  set_up-Answers :
      (conns : ℕ) (memory : ℕ → Connection) (this sfd opts n m r : ℕ)
      → conns ≢ 0
      → Returns
          (λ (table, srv).
            (free : List ℕ) × Valid srv.event_pool free []
            × (length free ≡ 4096)
            × AllReady this srv.factory.units
            × (srv.event_pool.held ≡ false)
            × (srv.master_base ≡ fresh_base 1 p.epfd p.kernel means.queue means.events)
            × Answers conns sfd srv)
          (set_up conns memory this means (some sfd) (at_last n opts) (at_last m r) true true)
  unfolding set_up on register_ptr
  set_up-Answers conns memory this sfd opts n m r there = rw (ne→not_== conns 0 there) (
      Returns-bind _ _ (eb_srv_new none this means) _
        (new-AllReady none this means p (omega arith) (omega arith) (omega arith))
        λ srv (free, valid, all, rs, us, ready, unheld, base, conns0, cbs).
          Returns-bind _ _
            (eb_srv_listen (register_ptr srv conns) (some sfd) (at_last n opts) (at_last m r) true
              true)
            _ (listen_lem (register_ptr srv conns) sfd opts n m r)
            λ srv' e.
              subst⁻¹
                (λ z.
                  (free' : List ℕ) × Valid z.event_pool free' []
                  × (length free' ≡ 4096)
                  × AllReady this z.factory.units
                  × (z.event_pool.held ≡ false)
                  × (z.master_base ≡ fresh_base 1 p.epfd p.kernel means.queue means.events)
                  × Answers conns sfd (
                      on (on (on z eb_connect on_connect_cb) eb_recv on_recv_cb) eb_close
                        on_close_cb))
                e
                (
                  free,
                  valid,
                  all,
                  ready,
                  unheld,
                  base,
                  record {
                    connect = refl;
                    recv = refl;
                    write = ap (λ f. f eb_write) cbs;
                    close = refl;
                    udata = refl;
                    sfd = refl;
                  },
                ))

-- A list with a front of a given length, and an element behind it.
split_at :
    (n : ℕ) (l : List ℕ)
    → n < length l
    → (xs : List ℕ) × (s : ℕ) × (fs : List ℕ) × (l ≡ xs ++ (s ∷ fs)) × (length xs ≡ n)
split_at n [] h = absurd (omega (arith, h))
split_at zero (x ∷ l) h = ([], x, l, refl, refl)
split_at (suc n) (x ∷ l) h =
    let (xs, s, fs, e, count) = split_at n l (omega (arith, h)) in
    (x ∷ xs, s, fs, ap (λ k. x ∷ k) e, ap suc count)

fresh-Agrees :
    {K Q : Type 0} (epoll : Epoll K) (base : Base K Q) (epfd : ℕ) (k : K) (q : Q)
    (events : ℕ → Event)
    → ((fd : ℕ) → epoll.interest k fd ≡ none)
    → base ≡ fresh_base 1 epfd k q events
    → Agrees epoll base
fresh-Agrees epoll base epfd k q events nothing is = subst⁻¹ (Agrees epoll) is (record {
  entry = λ fd. subst⁻¹ (λ o. Entry o 0 0) (nothing fd) (refl, refl);
  reads = refl;
  writes = refl;
})

module _ {K Q W : Type 0} (epoll : Epoll K) (queue : TailQueue Q) (net : Net W)
    (reactor_threads : Reactors.Threads K Q W) (worker_threads : Workers.Threads W)
    (callback : (cb fd arg : ℕ) → Base K Q × W → Run (Base K Q × W)) (accepts : Accepts epoll)
    (means : Means K Q) (p : Plenty means) where
  -- Where all calls work and there is memory, `main` of the chat server gets to the loop of a
  -- server that listens on the descriptor that `socket` gave: an event that accepts connections
  -- waits for it, with the tables and the kernel in agreement, the callbacks for a new connection,
  -- a message and the end of a connection are those of the program, there is none for `EB_WRITE`,
  -- and the table of connections is the data that the callbacks get. This is so for a descriptor
  -- above 0 and in the arrays, and a new `epoll` instance without entries, however many of the four
  -- reactors come to the pool of events before the server.
  pub main-Listens :
      (conns : ℕ) (memory : ℕ → Connection) (this sfd opts n m r ahead : ℕ)
      (read_ok write_ok : Bool) (fuel : ℕ) (rounds : List Waited) (world : W)
      → conns ≢ 0
      → ahead ≤ 4
      → suc sfd < 1024
      → ((fd : ℕ) → epoll.interest p.kernel fd ≡ none)
      → (srv : Srv K Q) × (world' : W) × (s : ℕ) × Answers conns (suc sfd) srv
        × (srv.status ≡ 1)
        × Listens epoll queue net reactor_threads worker_threads callback accepts this
            (suc sfd)
            s
            srv.master_base
        × (main epoll queue net reactor_threads worker_threads callback conns memory this means
              (some (suc sfd))
              (at_last n opts)
              (at_last m r)
              true
              true
              ahead
              read_ok
              write_ok
              fuel
              rounds
              world
            ≡ (loop_rounds queue callback fuel rounds (srv.master_base, world')
                >>= λ (base, world''). ok (record srv { master_base = base }, world'')))
  unfolding main
  main-Listens conns memory this sfd opts n m r ahead read_ok write_ok fuel rounds world there few
        fits nothing =
      let (out, made, (free, valid, all, ready, unheld, is, ans)) =
        Returns-ok
          (set_up conns memory this means (some (suc sfd)) (at_last n opts) (at_last m r) true true)
          (set_up-Answers means p conns memory this (suc sfd) opts n m r there) in
      let srv0 : Srv K Q = out.1 in
      let (xs, s, fs, e, count) = split_at ahead free (omega (arith, all, few)) in
      let lengths : length free ≡ length xs + suc (length fs) =
        ap length e ∙ length-append xs (s ∷ fs) in
      let (base, pool, listens, valid', held', starts) =
        eb_srv_start-Listens epoll queue net reactor_threads worker_threads callback accepts srv0
          this sfd read_ok write_ok fuel rounds world xs s fs [] ans.sfd
          (fresh-Agrees epoll srv0.master_base p.epfd p.kernel means.queue means.events nothing is)
          (ap (λ b. b.kides.reads) is) (omega (arith, ap (λ b. b.wait_sz) is))
          (ap (λ b. b.read_waits (suc sfd)) is) (ap (λ b. b.write_waits (suc sfd)) is)
          (subst (λ l. Valid srv0.event_pool l []) e valid) unheld
          (omega (arith, all, lengths, count, few, length-append fs ([] ++ xs))) in
      let (reactors, world1) = reactor_pool_start reactor_threads net srv0.slave_reactor world in
      let (factory, world2) = Workers.start worker_threads srv0.factory world1 in
      (
        record srv0 {
          status = 1;
          slave_reactor = reactors;
          factory = factory;
          event_pool = pool;
          master_base = base;
        },
        world2,
        s,
        record {
          connect = ans.connect;
          recv = ans.recv;
          write = ans.write;
          close = ans.close;
          udata = ans.udata;
          sfd = ans.sfd;
        },
        refl,
        listens,
        ap
              (λ x. x >>= λ (table, srv).
                eb_srv_start epoll queue net reactor_threads worker_threads callback srv this ahead
                  read_ok write_ok fuel rounds world)
              made
            ∙ ap
                (λ k.
                  eb_srv_start epoll queue net reactor_threads worker_threads callback srv0 this k
                    read_ok write_ok fuel rounds world)
                (sym count)
            ∙ starts,
      )
