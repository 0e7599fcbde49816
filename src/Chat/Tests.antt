-- ===== src/Chat/Tests.antt =====
-- A chat of three clients.
use ebot.Base.{
  replicate, ℕ, ◌<◌, ◌≡◌, refl, true, Option, some, List, [], ◌∷◌, arith, ◌==◌, if◌then◌else◌, ◌||◌,
  Returns, ok, ◌>>=◌,
}
use ebot.Chat.{Connection, on_connect, on_close, on_recv}
use ebot.Chat.Told.{log, written, Own, hears, on_recv_lem, table-Own, Leaves}
use ebot.Chat.Main.{main}
use ebot.Chat.Listening.{Answers, main-Listens}
use ebot.Event.Instances.{epoll, queue, epoll-Accepts}
use ebot.Event.System.{Mask}
use ebot.Io.Flags.{at_last}
use ebot.Server.Instances.{net, means, means-Plenty, reactor_threads, worker_threads, no_callback}
use ebot.Server.Reactors.{loop_rounds}
use ebot.Server.Starting.{Listens}
use ebot.Server.Types.{Srv, Stream}

-- The connections 5, 6 and 9.
abbrev three : ℕ → Connection
three i = record {
  fd = if (i == 5) || ((i == 6) || (i == 9)) then i else 0;
  tsz = 0;
  temp_buf = [];
}

three-Own : Own three
three-Own = λ i h. ground arith

abbrev hello : Stream
hello = record { fd = 6; buf_size = 2; buf = 104 ∷ 105 ∷ []; udata = 0 }

abbrev says : ℕ → List ℕ
says fd = 99 ∷ fd ∷ []

on_recv_lem_example :
    Returns
      (λ l'.
        (f : ℕ)
        → f < 1024
        → written f l'
          ≡ (if hears three 6 f then (99 ∷ 6 ∷ 104 ∷ 105 ∷ replicate 13 0) ∷ [] else []))
      (on_recv log says hello three [])
on_recv_lem_example = on_recv_lem says hello three [] three-Own (omega arith) (omega arith)

table-Own_example :
    Returns (Leaves says hello three [] three-Own 6) (on_connect log says hello three [])
    × Returns (Leaves says hello three [] three-Own 0) (on_close log says hello three [])
table-Own_example = table-Own says hello three [] three-Own (omega arith)

abbrev no_table : ℕ → Connection
no_table i = record { fd = 0; tsz = 0; temp_buf = [] }

main-Listens_example :
    (srv : Srv (ℕ → Option Mask) (List ℕ)) × (world' : List (ℕ × ℕ)) × (s : ℕ) × Answers 7 5 srv
    × (srv.status ≡ 1)
    × Listens epoll queue net reactor_threads worker_threads no_callback epoll-Accepts 9 5 s
        srv.master_base
    × (main epoll queue net reactor_threads worker_threads no_callback 7 no_table 9 means
          (some 5)
          (at_last 1 2)
          (at_last 0 0)
          true
          true
          2
          true
          true
          3
          []
          []
        ≡ (loop_rounds queue no_callback 3 [] (srv.master_base, world') >>= λ (base, world'').
            ok (record srv { master_base = base }, world'')))
main-Listens_example =
    main-Listens epoll queue net reactor_threads worker_threads no_callback epoll-Accepts means
      means-Plenty 7 no_table 9 4 2 1 0 0 2 true true 3 [] [] (λ e. omega (arith, e)) (omega arith)
      (omega arith) (λ fd. refl)
