-- ===== src/Test/Tests.antt =====
-- A message that is printed, and runs of `main` of test.c in which the server cannot be made.
use ebot.Base.{
  ℕ, List, ◌++◌, ◌<◌, ◌≡◌, refl, true, false, none, [], ◌∷◌, arith, replicate, length, ok, exits,
  fault,
}
use ebot.Event.Instances.{epoll, queue}
use ebot.Server.Instances.{net, means, reactor_threads, worker_threads, no_callback}
use ebot.Server.Setup.{eb_srv_new}
use ebot.Server.Types.{Stream}
use ebot.Test.{main, on_recv, recv_client}
use ebot.Test.Printed.{on_recv_prints}

run-main :
    main epoll queue net reactor_threads worker_threads no_callback 9
      (record means { srv_ok = false })
      none
      []
      []
      true
      true
      0
      true
      true
      3
      []
      []
    ≡ exits
unfolding main eb_srv_new
run-main = refl

abbrev hi : List ℕ
hi = 104 ∷ 105 ∷ []

abbrev hello : Stream
hello = record { fd = 6; buf_size = 2; buf = hi ++ replicate 126 0; udata = 0 }

on_recv_prints_example :
    (length hi < 128 → on_recv hello [] ≡ ok (recv_client 6 hi ∷ []))
    × (length hi ≡ 128 → on_recv hello [] ≡ fault)
on_recv_prints_example =
    on_recv_prints hello hi [] ((λ e. omega (arith, e)), ((λ e. omega (arith, e)), tt)) refl
