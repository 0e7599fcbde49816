-- ===== src/Ring/Locked.antt =====
-- The calls of `ringq` under its mutex, and the end of a ring.
use mathlib.Core.Path.{subst⁻¹}
use ebot.Base.{
  ℕ, ◌≡◌, refl, Bool, true, false, Option, none, some, List, arith, if◌then◌else◌, Run, ok, waits,
  fault, ◌>>=◌,
}
use ebot.Ring.{Ringq, push, push_round, push_straight, pop, pop_round, pop_straight, load_length}
use ebot.Bytes.{load_int}

-- `pthread_mutex_lock` on a mutex that is held does not come back.
unfoldable pub lock : Ringq → Run Ringq
lock rq = if rq.held then waits else ok (record rq { held = true })

unfoldable pub unlock : Ringq → Ringq
unlock rq = record rq { held = false }

unfoldable pub pop_with_lock : Ringq → List ℕ → ℕ → Run (Bool × List ℕ × Ringq)
unfolding lock unlock
pop_with_lock rq item item_size =
    if rq.use_lock
    then (do rq ← lock rq; (ret, out, rq) ← pop rq item item_size; ok (ret, out, unlock rq))
    else ok (false, item, rq)

unfoldable pub push_with_lock : Ringq → List ℕ → ℕ → Run (Bool × Ringq)
unfolding lock unlock
push_with_lock rq item item_size =
    if rq.use_lock
    then (do rq ← lock rq; (ret, rq) ← push rq item item_size; ok (ret, unlock rq))
    else ok (false, rq)

-- `ringq_destroy` reads `rq->use_lock` before it asks whether `rq` is `NULL`.
unfoldable pub destroy : Option Ringq → Run (Unit {0})
destroy none = fault
destroy (some rq) = ok tt

abbrev take_lock : Ringq → Ringq
take_lock rq = record rq { held = true }

push_round-unlock :
    (rq : Ringq) (item : List ℕ) (n : ℕ)
    → (push_round (take_lock rq) item n >>= λ (ret, q). ok (ret, unlock q))
      ≡ push_round (unlock rq) item n
unfolding push_round unlock
push_round-unlock rq item n = ground arith

push_straight-unlock :
    (rq : Ringq) (item : List ℕ) (n : ℕ)
    → (push_straight (take_lock rq) item n >>= λ (ret, q). ok (ret, unlock q))
      ≡ push_straight (unlock rq) item n
unfolding push_straight unlock
push_straight-unlock rq item n = ground arith

pop_round-unlock :
    (rq : Ringq) (item : List ℕ) (n len : ℕ)
    → (pop_round (take_lock rq) item n len >>= λ (ret, out, q). ok (ret, out, unlock q))
      ≡ pop_round (unlock rq) item n len
unfolding pop_round unlock
pop_round-unlock rq item n len = ground arith

pop_straight-unlock :
    (rq : Ringq) (item : List ℕ) (n len : ℕ)
    → (pop_straight (take_lock rq) item n len >>= λ (ret, out, q). ok (ret, out, unlock q))
      ≡ pop_straight (unlock rq) item n len
unfolding pop_straight unlock
pop_straight-unlock rq item n len = ground arith

push_with_lock-unlock :
    (rq : Ringq) (item : List ℕ) (n : ℕ)
    → rq.use_lock ≡ true
    → push_with_lock (unlock rq) item n ≡ push (unlock rq) item n
unfolding push_with_lock push
push_with_lock-unlock rq item n locked =
    rw locked (ground (arith, push_round-unlock rq item n, push_straight-unlock rq item n))

pop_with_lock-unlock :
    (rq : Ringq) (item : List ℕ) (n : ℕ)
    → rq.use_lock ≡ true
    → pop_with_lock (unlock rq) item n ≡ pop (unlock rq) item n
unfolding pop_with_lock pop load_length
pop_with_lock-unlock rq item n locked = rw locked (
    ground (
      arith,
      pop_round-unlock rq item n (load_int rq.mem rq.head),
      pop_straight-unlock rq item n (load_int rq.mem rq.head),
    ))

module _ (rq : Ringq) (item : List ℕ) (n : ℕ) (locked : rq.use_lock ≡ true)
    (free : rq.held ≡ false) where
  unlock_self : rq ≡ unlock rq
  unfolding unlock
  unlock_self = λ i. record rq { held = free i }

  pub push_with_lock-eq-push : push_with_lock rq item n ≡ push rq item n
  push_with_lock-eq-push =
      subst⁻¹ (λ q. push_with_lock q item n ≡ push q item n) unlock_self
        (push_with_lock-unlock rq item n locked)

  pub pop_with_lock-eq-pop : pop_with_lock rq item n ≡ pop rq item n
  pop_with_lock-eq-pop =
      subst⁻¹ (λ q. pop_with_lock q item n ≡ pop q item n) unlock_self
        (pop_with_lock-unlock rq item n locked)

-- `ringq_push_with_lock` and `ringq_pop_with_lock` of a ring without a lock fail and leave it
-- alone. While another thread has the lock they wait. Under a free lock they come to what
-- `ringq_push` and `ringq_pop` come to, in every case: the result, the ring with its lock free
-- again, a call of `exit` and a fault.
pub both_with_lock :
    (rq : Ringq) (item : List ℕ) (n : ℕ)
    → (rq.use_lock ≡ false
        → (push_with_lock rq item n ≡ ok (false, rq))
          × (pop_with_lock rq item n ≡ ok (false, item, rq)))
      × (rq.use_lock ≡ true
          → (rq.held ≡ true
              → (push_with_lock rq item n ≡ waits) × (pop_with_lock rq item n ≡ waits))
            × (rq.held ≡ false
                → (push_with_lock rq item n ≡ push rq item n)
                  × (pop_with_lock rq item n ≡ pop rq item n)))
unfolding push_with_lock pop_with_lock lock
both_with_lock rq item n = (
  (λ unlocked. (rw unlocked refl, rw unlocked refl)),
  λ locked. (
    (λ held. (rw (locked, held) refl, rw (locked, held) refl)),
    λ free.
        (push_with_lock-eq-push rq item n locked free, pop_with_lock-eq-pop rq item n locked free),
  ),
)
