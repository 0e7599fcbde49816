-- ===== src/Server/Threads/Trials.antt =====
-- Two reactors at one pool of events: the theorems at runs of them.
use ebot.Base.{
  ℕ, ◌≡◌, true, false, Option, some, List, [], ◌∷◌, arith, get_elem?, set, ok, ◌>>=◌, bag,
}
use ebot.Event.Instances.{queue, epoll, epoll-Obeys, epoll-Accepts}
use ebot.Event.System.{Mask}
use ebot.Server.Client.{hang_up, pipe_callback, piped, pipe_read}
use ebot.Server.Instances.{net, no_callback}
use ebot.Server.Reactors.{reactor_pool_exec, loop_rounds}
use ebot.Server.Stock.{quiet, pool, reactor}
use ebot.Server.Threads.{Thread, Turn, comes, goes, starting, between, Enabled, act, finish, share}
use ebot.Server.Threads.Acting.{Ends}
use ebot.Server.Threads.Alone.{act-finish}
use ebot.Server.Threads.Safe.{Safe, Reach-Safe}
use ebot.Server.Threads.Stock.{two_threads, two_threads-Safe, both_came, both_came-Reach}

Reach-Safe_example :
    Safe epoll (244 ∷ 172 ∷ 100 ∷ []) (bag []) both_came
    × ((i : ℕ) (t : Thread (ℕ → Option Mask) (List ℕ)) (turn : Turn)
        → get_elem? both_came.0 i ≡ some t
        → Enabled t.place t turn
        → Ends
            (λ (t', mp').
              Safe epoll
                (244 ∷ 172 ∷ 100 ∷ [])
                (bag [])
                (share (set both_came.0 i t') (t'.base.events), mp'))
            t.place
            both_came.1
            (act epoll net true true t.place t turn both_came.1))
Reach-Safe_example =
    Reach-Safe epoll net epoll-Obeys epoll-Accepts true true (244 ∷ 172 ∷ 100 ∷ []) (bag [])
      (omega arith) two_threads both_came two_threads-Safe both_came-Reach

-- The thread of a reactor at the address 9.
abbrev alone : Thread (ℕ → Option Mask) (List ℕ)
alone = record { this = 9; base = quiet; place = between }

run_act-finish :
    (pipe_callback epoll net (reactor quiet) 9 (pool false 0) (piped 6) true true ≡ (
      act epoll net true true between alone (comes 6) (pool false 0)
      >>= finish epoll net true true
      >>= λ (t, mp). ok (record (reactor quiet) { base = t.base }, mp)))
    × (hang_up epoll net quiet (pool false 0) 6 ≡ (
        act epoll net true true between alone (goes 6) (pool false 0)
        >>= finish epoll net true true
        >>= λ (t, mp). ok (t.base, mp)))
    × (reactor_pool_exec queue no_callback epoll (reactor quiet) 9 (pool false 0) true true 2 [] []
        ≡ (act epoll net true true (starting 20 pipe_read) alone (comes 6) (pool false 0)
            >>= λ (t, mp).
                (loop_rounds queue no_callback 2 [] (t.base, []) >>= λ (base, world).
                ok (record (reactor quiet) { base = base }, mp, world))))
run_act-finish =
    act-finish epoll net true true queue no_callback (reactor quiet) 9 6 (pool false 0) 2 [] []
