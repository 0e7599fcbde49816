-- ===== src/Server/Ready.antt =====
-- The units of a server that `eb_srv_new` has made.
use ebot.Base.{
  ℕ, zero, suc, ◌+◌, ◌≡◌, refl, ap, Bool, true, false, some, List, [], ◌∷◌, arith, length, ok, ℤ,
  le→not_ltb, ◌≤◌, pos,
}
use ebot.Ring.{Ringq}
use ebot.Ring.Layout.{Holds}
use ebot.Ring.Refine.{new-Holds, new-some}
use ebot.Server.Setup.{adopt_units, factory_exec}
use ebot.Workers
use ebot.Bytes.{int_max}
use ebot.Workers.{pool_bytes, Wunit, Wpool, blank, wunit_init, init_units}

-- A unit that can take messages: it has the server's handler, and an empty ring with a free lock.
pub record Ready (this : ℕ) (u : Wunit) : Type 0 where
  pub ptr : u.ptr ≡ this
  pub handler : u.handler ≡ factory_exec
  pub ring : Ringq
  pub rq : u.rq ≡ some ring
  pub holds : Holds ring []
  pub size : ring.size ≡ 10241
  pub locked : ring.use_lock ≡ true
  pub free : ring.held ≡ false

abbrev pub AllReady : ℕ → List Wunit → Type 0
AllReady this [] = Unit
AllReady this (u ∷ us) = Ready this u × AllReady this us

abbrev adopted : ℕ → Wunit → Wunit
adopted this u = record u { ptr = this; handler = factory_exec }

init-Ready :
    (this : ℕ) (id : ℕ) (efd : ℕ)
    → let (done, u) = wunit_init blank 10240 id (pos efd) true in
      (done ≡ true) × Ready this (adopted this u)
unfolding wunit_init
init-Ready this id efd =
    let (rq, made) = new-some 10240 true in
    let (holds, size, locked, free) = new-Holds 10240 true (omega arith) made in
    rw (wunit_init, made)
      (
        refl,
        record {
          ptr = refl;
          handler = refl;
          ring = rq;
          rq = refl;
          holds = holds;
          size = size;
          locked = locked;
          free = free;
        },
      )

init_units-AllReady :
    (this : ℕ) (efds : ℕ → ℤ) (fds : ℕ → ℕ) (mallocs : ℕ → Bool)
    → ((i : ℕ) → efds i ≡ pos (fds i))
    → ((i : ℕ) → mallocs i ≡ true)
    → (k i : ℕ)
    → let (done, us) = init_units 10240 efds mallocs k i in
      (done ≡ true) × AllReady this (adopt_units this us) × (length (adopt_units this us) ≡ k)
unfolding init_units
init_units-AllReady this efds fds mallocs he hm zero i = (refl, tt, refl)
init_units-AllReady this efds fds mallocs he hm (suc k) i =
    let (done, ready) = init-Ready this (i + 1) (fds i) in
    let (all_done, all_ready, count) = init_units-AllReady this efds fds mallocs he hm k (i + 1) in
    rw (he i, hm i, done) (all_done, (ready, all_ready), ap suc count)

-- The workers of a server that is ready: as many as the settings say, or four.
pub factory_some :
    (this n : ℕ) (efds : ℕ → ℤ) (fds : ℕ → ℕ) (mallocs : ℕ → Bool)
    → ((i : ℕ) → efds i ≡ pos (fds i))
    → ((i : ℕ) → mallocs i ≡ true)
    → pool_bytes n ≤ int_max
    → (wp : Wpool) × (Workers.new n 10240 true efds mallocs ≡ ok (some wp))
      × AllReady this (adopt_units this wp.units)
      × (length (adopt_units this wp.units) ≡ n)
unfolding Workers.new
factory_some this n efds fds mallocs he hm few =
    let (done, ready, count) = init_units-AllReady this efds fds mallocs he hm n 0 in
    (
      record { units = (init_units 10240 efds mallocs n 0).1; status = 0 },
      rw (le→not_ltb int_max (pool_bytes n) few, done) refl,
      ready,
      count,
    )
