-- ===== src/Server/Trials.antt =====
-- A reactor that takes a connection and loses it: runs of its code, and its theorems.
use ebot.Base.{
  ℕ, ◌≡◌, refl, true, false, Option, some, List, [], ◌∷◌, arith, replicate, Returns, ok, ◌>>=◌, pos,
  bag,
}
use ebot.Event.{Base}
use ebot.Event.Instances.{epoll, epoll-Obeys, epoll-Accepts}
use ebot.Event.System.{Mask}
use ebot.Io.{got}
use ebot.Io.Flags.{at_last}
use ebot.Server.Accept.{connected, ebot_srv_accept}
use ebot.Pool.{Pool}
use ebot.Pool.Moves.{Has}
use ebot.Pool.Valid.{Valid}
use ebot.Server.Instances.{
  ring, ring-Holds, unit, net, reactor_threads, worker_threads, no_callback,
}
use ebot.Server.Client.{client_read_callback, hang_up, client_write}
use ebot.Server.Closed.{Tells, client_read-Parted}
use ebot.Server.Hangup.{Parted, freed}
use ebot.Event.Instances.{queue}
use ebot.Server.Ending.{start-destroy}
use ebot.Server.Life.{Open, comes, goes, life, life-Open}
use ebot.Server.Reach.{drain_pipe, accept_all-drain_pipe}
use ebot.Server.Spread.{accept_all, accept_full}
use ebot.Server.Reactors.{loop_rounds, reactor_pool_start}
use ebot.Server.Run.{eb_srv_start, eb_srv_destroy, close_all}
use ebot.Event.Loop.{dispatch_one}
use ebot.Server.Stale.{hang_up-dispatch_one}
use ebot.Server.Starting.{Listens, eb_srv_start-Listens}
use ebot.Workers.{start}
use ebot.Event.Loop.{loop, ready}
use ebot.Pool.Links.{NotIn}
use ebot.Server.Clients.{Client, fds, slabs_of}
use ebot.Server.Middle.{leaves}
use ebot.Server.React.{react}
use ebot.Server.Round.{AtRest, loop-AtRest}
use ebot.Server.Stock.{
  pool, free_pool-Valid, quiet, quiet-Agrees, joined, joined-Agrees, busy_pool-Has, reactor, srv,
  listening, quiet-Serves,
}
use ebot.Server.Scenes.{
  calm, six, calm-AtRest, hears_end, both_ready, piping, piping-Pipes, two_reactors,
  two_reactors-Apart, arrivals, arrivals-Rooms, full_pipe, full_pipe_lem,
}

client_read-Parted_example :
    Returns
      (λ (r', srv', world').
        Parted epoll net 6 joined r'.base
        × Has (freed 196 (freed 268 (bag []))) (bag (100 ∷ [])) srv'.event_pool
        × (world' ≡ [])
        × Tells epoll net epoll-Obeys unit srv srv' (replicate 136 0) 6 world')
      (client_read_callback epoll net (reactor joined) srv 6 (got []) [])
client_read-Parted_example =
    client_read-Parted epoll net epoll-Obeys (reactor joined) srv 6 [] unit ring (replicate 136 0)
      (bag []) (bag (100 ∷ [])) joined-Agrees (omega arith) (λ _. (refl, refl, omega arith))
      (λ _. (refl, refl, omega arith)) busy_pool-Has refl refl ring-Holds refl refl (omega arith)
      (omega arith) refl

eb_srv_start-Listens_example :
    (base : Base (ℕ → Option Mask) (List ℕ)) × (mp : Pool) × Listens epoll queue net reactor_threads
      worker_threads no_callback epoll-Accepts 9 4 172 base
    × Valid mp (100 ∷ []) (244 ∷ 172 ∷ [])
    × (mp.held ≡ false)
    × (eb_srv_start epoll queue net reactor_threads worker_threads no_callback listening 9 1 true
          true 3 [] []
        ≡ (loop_rounds queue no_callback 3 [] (base, (start worker_threads listening.factory []).1)
            >>= λ (base', world). ok (
              record listening {
                status = 1;
                slave_reactor = (reactor_pool_start reactor_threads net (reactor quiet ∷ []) []).0;
                factory = (start worker_threads listening.factory []).0;
                event_pool = mp;
                master_base = base';
              },
              world,
            )))
unfolding reactor_pool_start
eb_srv_start-Listens_example =
    eb_srv_start-Listens epoll queue net reactor_threads worker_threads no_callback epoll-Accepts
      listening 9 3 true true 3 [] [] (244 ∷ []) 172 (100 ∷ []) [] refl quiet-Agrees refl
      (omega arith) refl refl free_pool-Valid refl (omega arith)

start-destroy_example :
    Returns
      (λ end.
        (w : List (ℕ × ℕ)) × (end
          ≡ net.close
              (net.close
                (close_all epoll queue net reactor_threads worker_threads no_callback
                  (pos 8 ∷ pos 8 ∷ [])
                  (net.close w 3))
                4)
              3))
      (eb_srv_destroy epoll queue net reactor_threads worker_threads no_callback
        (record listening { factory = (start worker_threads listening.factory []).0 })
        [])
start-destroy_example =
    start-destroy epoll queue net reactor_threads worker_threads no_callback
      (λ w u. (7, w, (λ e. omega (arith, e)), refl)) (λ w tid. tt) (λ w tid. tt) listening [] []
      ((ring, refl), ((ring, refl), tt))

hang_up-dispatch_one_example :
    Returns
      (λ (eb', mp').
        (eb'.read_waits 6 ≡ 0)
        × (eb'.write_waits 6 ≡ 0)
        × Has (freed 196 (freed 268 (bag []))) (bag (100 ∷ [])) mp'
        × (queue.first eb'.event_readies ≡ some 196)
        × ((world : List (ℕ × ℕ))
            → (eb'' : Base (ℕ → Option Mask) (List ℕ)) × (dispatch_one queue no_callback
                  (eb', world)
                  196
                ≡ no_callback client_write 6 9 (eb'', world))))
      (hang_up epoll net joined (pool true 3) 6)
hang_up-dispatch_one_example =
    hang_up-dispatch_one epoll queue net no_callback epoll-Obeys joined 6 9 (pool true 3) (bag [])
      (bag (100 ∷ [])) [] joined-Agrees (omega arith) (λ _. (refl, refl, omega arith))
      (λ _. (refl, refl, omega arith)) busy_pool-Has refl refl

-- Three slabs do for two connections, one behind the other.
life-Open_example :
    Returns
      (Open epoll net epoll-Obeys epoll-Accepts 9 quiet refl refl true true (bag []) 3 (7 ∷ []))
      (life epoll net 9 true true (comes 6 ∷ goes 6 ∷ comes 7 ∷ []) (reactor quiet) (pool false 0))
life-Open_example =
    life-Open epoll net epoll-Obeys epoll-Accepts 9 quiet refl refl true true (bag []) 3
      (comes 6 ∷ goes 6 ∷ comes 7 ∷ []) [] (reactor quiet) (pool false 0)
      (
        [],
        bag (244 ∷ 172 ∷ 100 ∷ []),
        quiet-Serves,
        refl,
        (244 ∷ 172 ∷ 100 ∷ [], refl, omega arith),
      )
      (
        tt,
        omega arith,
        refl,
        refl,
        omega arith,
        ((λ out. out.0 refl), (tt, omega arith, refl, refl, omega arith, tt)),
      )

-- The second reactor gets the connection 7.
accept_full_example :
    Returns
      (λ (srv', world').
        (srv'.total_conns ≡ 4) × (world' ≡ full_pipe) × ((q : ℕ) → world' q ≡ full_pipe q))
      (ebot_srv_accept piping two_reactors (some 7) (at_last 1 2) (at_last 0 0) full_pipe)
unfolding connected
accept_full_example =
    accept_full piping piping-Pipes two_reactors (record { fd = 7; flags = 2; gets = 1; sets = 0 })
      10086 (record (reactor quiet) { pipe_in = 22; pipe_out = 23 }) full_pipe refl (omega arith)
      (omega arith) refl full_pipe_lem

accept_all-drain_pipe_example :
    Returns
      (λ (srv', world').
        (srv'.total_conns ≡ 5)
        × Returns
            (Open epoll piping epoll-Obeys epoll-Accepts 9 quiet refl refl true true
              (bag [])
              3
              (7 ∷ []))
            (drain_pipe epoll piping 9 true true
              (world' 23)
              (record (reactor quiet) { pipe_in = 22; pipe_out = 23 })
              (pool false 0)))
      (accept_all piping two_reactors arrivals (λ _. []))
accept_all-drain_pipe_example =
    accept_all-drain_pipe epoll piping epoll-Obeys epoll-Accepts 9 quiet refl refl true true
      (bag []) 3 piping-Pipes arrivals two_reactors 10086 1
      (record (reactor quiet) { pipe_in = 22; pipe_out = 23 }) (pool false 0) (λ _. []) refl
      (omega arith) (omega arith) (omega arith) two_reactors-Apart refl refl arrivals-Rooms
      (omega arith)
      (
        [],
        bag (244 ∷ 172 ∷ 100 ∷ []),
        quiet-Serves,
        refl,
        (244 ∷ 172 ∷ 100 ∷ [], refl, omega arith),
      )
      (tt, omega arith, refl, refl, omega arith, tt)

-- The event to write is dispatched behind the end of the connection, and does no harm.
loop-AtRest_example :
    Returns
      (λ (done, eb', (srv', world')).
        (done ≡ true)
        × (cs' : List Client) × AtRest epoll queue 9 quiet
            (bag (100 ∷ []))
            (slabs_of (six ∷ []) (bag (100 ∷ [])))
            cs'
            eb'
            srv'
        × ((j : ℕ) → NotIn j (6 ∷ []) → NotIn j (fds cs'))
        × ((j : ℕ) → leaves hears_end both_ready j ≡ true → NotIn j (fds cs'))
        × ((j : ℕ)
            → (NotIn j (6 ∷ []) → ⊥)
            → leaves hears_end both_ready j ≡ false
            → NotIn j (fds cs')
            → ⊥))
      (loop queue (react epoll net (reactor calm) hears_end) 3 (ready both_ready) (calm, (srv, [])))
loop-AtRest_example =
    loop-AtRest epoll queue net epoll-Obeys 9 quiet (bag (100 ∷ []))
      (slabs_of (six ∷ []) (bag (100 ∷ []))) (reactor calm) hears_end both_ready 3 (six ∷ []) calm
      srv [] (λ fd. omega arith) calm-AtRest ((λ out. out.0 refl), tt) (omega arith)
