-- ===== src/Workers.antt =====
-- The pool of worker threads of ebot.c: `wunit` and `wpool`. What the operating system does with
-- threads and event descriptors is a parameter.
pub mod Protocol
pub mod Stopping
pub mod Pool
mod Tests
use ebot.Base.{
  ℕ, zero, suc, ◌+◌, ◌*◌, ◌||◌, ltb, Bool, true, false, not, Option, none, some, List, [], ◌∷◌,
  ◌++◌, replicate, ◌==◌, if◌then◌else◌, Run, ok, fault, waits, ◌>>=◌, ◌>>◌, ℤ, pos, negsuc,
  positive,
}
use ebot.Bytes.{int_max}
use ebot.Ring
use ebot.Ring.{Ringq}
use ebot.Ring.Locked.{destroy}

abbrev pub null : ℕ
null = 0

-- `wunit`. `ptr` is `data.ptr`.
pub record Wunit : Type 0 where
  pub ptr : ℕ
  pub id : ℕ
  pub tid : ℕ
  pub rq : Option Ringq
  pub efd : ℤ
  pub status : ℕ
  pub handler : ℕ

-- `wpool`; `num` is the length of `units`.
pub record Wpool : Type 0 where
  pub units : List Wunit
  pub status : ℕ

-- A unit in the memory that `wpool_new` has zeroed.
abbrev pub blank : Wunit
blank = record { ptr = null; id = 0; tid = 0; rq = none; efd = pos 0; status = 0; handler = null }

-- `efd` is what `eventfd` gives, and `malloc_ok` says whether `ringq_new` gets memory.
unfoldable pub wunit_init : Wunit → (qsz id : ℕ) → (efd : ℤ) → (malloc_ok : Bool) → Bool × Wunit
wunit_init u qsz id (negsuc e) malloc_ok = (false, record u { id = id; efd = negsuc e })
wunit_init u qsz id (pos efd) malloc_ok = elim (Ring.new qsz true malloc_ok) [
  | none ↦ (false, record u { id = id; efd = pos efd; rq = none })
  | some rq ↦ (true, record u { id = id; efd = pos efd; rq = some rq })
]

-- The `for` of `wpool_new`, with `i` the index of the first of `k` units.
unfoldable pub init_units :
    (rq_sz : ℕ) (efds : ℕ → ℤ) (mallocs : ℕ → Bool) (k i : ℕ) → Bool × List Wunit
unfolding wunit_init
init_units rq_sz efds mallocs zero i = (true, [])
init_units rq_sz efds mallocs (suc k) i =
    let (done, u) = wunit_init blank rq_sz (i + 1) (efds i) (mallocs i) in
    let (all_done, us) = init_units rq_sz efds mallocs k (i + 1) in
    if done then (all_done, u ∷ us) else (false, u ∷ replicate k blank)

-- `wpool_destory`, with the descriptors that it closes.
unfoldable pub destory_units : List Wunit → Run (List ℤ)
destory_units [] = ok []
destory_units (u ∷ us) = do
  done ← destroy u.rq
  closed ← destory_units us
  ok (if positive u.efd then u.efd ∷ closed else closed)

unfoldable pub destory : Wpool → Run (List ℤ)
unfolding destory_units
destory wp = destory_units wp.units

-- `msz`, with 64 bytes for the pool and 48 for a unit.
abbrev pub pool_bytes : (num : ℕ) → ℕ
pool_bytes num = 64 + num * 48

-- `mem_ok` says whether `malloc` gives the pool; where it does not, the code goes on with a pointer
-- that it has not set. Where `msz` is no `int`, the block is none or too small for the units.
-- `pthread_mutex_init` returns no negative number.
unfoldable pub new :
    (num rq_sz : ℕ) (mem_ok : Bool) (efds : ℕ → ℤ) (mallocs : ℕ → Bool) → Run (Option Wpool)
unfolding init_units destory
new num rq_sz mem_ok efds mallocs =
    if not mem_ok || ltb int_max (pool_bytes num)
    then fault
    else (let (done, units) = init_units rq_sz efds mallocs num 0 in
        let wp : Wpool = record { units = units; status = 0 } in
        if done then ok (some wp) else (do closed ← destory wp; ok none))

module _ {W : Type 0} where
  -- `wpool_exec`. The list has what the reads of `unit->status` give, `handle` is a call of the
  -- handler; where the handler is `NULL` the thread sleeps.
  unfoldable pub exec : (handler : ℕ) (handle : W → Run W) → List ℕ → W → Run W
  exec handler handle [] world = waits
  exec handler handle (zero ∷ rest) world = ok world
  exec handler handle (suc s ∷ rest) world = do
    world ← if handler == null then ok world else handle world
    exec handler handle rest world

-- Threads and event descriptors. `create` gives no number where `pthread_create` fails, `join` is
-- `pthread_join`, and `signal` a write of a number to an event descriptor.
pub record Threads (W : Type 0) : Type 0 where
  pub create : W → Wunit → Option ℕ × W
  pub join : W → ℕ → Run W
  pub signal : W → ℤ → ℕ → W

module _ {W : Type 0} (threads : Threads W) where
  -- The `for` of `wpool_start`. The result of `pthread_create` is no negative number, so that the
  -- code does not notice a failure; `tid` is then as before.
  unfoldable pub start_units : List Wunit → W → List Wunit × W
  start_units [] world = ([], world)
  start_units (u ∷ us) world =
      let u = record u { status = 1 } in
      let (made, world) = threads.create world u in
      let u : Wunit = elim made [ none ↦ u | some tid ↦ record u { tid = tid } ] in
      let (us, world) = start_units us world in (u ∷ us, world)

  unfoldable pub start : Wpool → W → Wpool × W
  unfolding start_units
  start wp world =
      let (units, world) = start_units wp.units world in
      (record { units = units; status = 1 }, world)

  -- The `while` of `wpool_stop`: takes 1 from the status and writes `0x0F`, until the status is 0.
  unfoldable pub lower : (status : ℕ) (efd : ℤ) → W → ℕ × W
  lower zero efd world = (0, world)
  lower (suc s) efd world = lower s efd (threads.signal world efd 15)

  -- The `for` of `wpool_stop`, with `false` where it returns at a thread that was not made.
  unfoldable pub stop_units : List Wunit → W → Run (Bool × List Wunit × W)
  unfolding lower
  stop_units [] world = ok (true, [], world)
  stop_units (u ∷ us) world = if u.tid == 0 then ok (false, u ∷ us, world) else do
    let (status, world) = lower u.status u.efd world
    world ← threads.join world u.tid
    (done, us, world) ← stop_units us world
    ok (done, record u { status = status } ∷ us, world)

  unfoldable pub stop : Wpool → W → Run (Wpool × W)
  unfolding stop_units
  stop wp world = if wp.status == 0 then ok (wp, world) else do
    (done, units, world) ← stop_units wp.units world
    ok (record { units = units; status = if done then 0 else wp.status }, world)
