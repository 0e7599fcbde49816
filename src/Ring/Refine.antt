-- ===== src/Ring/Refine.antt =====
-- A whole client of a ring, against the bounded queue of its items.
use ebot.Base.{
  none, ℕ, ◌+◌, ◌-◌, ◌≤◌, ◌≡◌, refl, ap, ◌∙◌, Bool, true, false, some, List, [], ◌∷◌, ◌++◌, arith,
  length, take, replicate, Run, ok, ◌>>=◌, dec_lt, zero, suc, take-length, le→not_ltb, lt→ltb,
  length-replicate,
}
use ebot.Bytes.{int_max}
use ebot.Ring.{Ringq, new, pop}
use ebot.Ring.Layout.{Holds}
use ebot.Ring.Locked.{push_with_lock, pop_with_lock, push_with_lock-eq-push, pop_with_lock-eq-pop}
use ebot.Ring.Queue
use ebot.Ring.Queue.{Queue, used, Call, put, get, Reply, Sized, AllSized}
use ebot.Ring.Push.{push-refused, push-stored}
use ebot.Ring.Pop.{behind, over, pop-stored, pop-empty, Holds-behind}

-- Where `ringq_new` gives a ring, it is well formed and empty, with room for `size` bytes and a
-- free lock.
pub new-Holds :
    (size : ℕ) (use_lock : Bool) {rq : Ringq}
    → size + 5 ≤ int_max
    → new size use_lock true ≡ some rq
    → Holds rq [] × (rq.size ≡ size + 1) × (rq.use_lock ≡ use_lock) × (rq.held ≡ false)
unfolding new
new-Holds size use_lock small e = ground arith

-- A client's calls in order, each item and each buffer of `size` bytes.
unfoldable pub run : ℕ → Ringq → List Call → Run (List Reply)
run size rq [] = ok []
run size rq (put x ∷ calls) = do
  (done, rq) ← push_with_lock rq x size
  rest ← run size rq calls
  ok ((done, []) ∷ rest)
run size rq (get ∷ calls) = do
  (done, out, rq) ← pop_with_lock rq (replicate size 0) size
  rest ← run size rq calls
  ok ((done, out) ∷ rest)

AllSized-append :
    (size : ℕ) (xs : Queue) (x : List ℕ)
    → AllSized size xs
    → length x ≡ size
    → AllSized size (xs ++ (x ∷ []))
AllSized-append size [] x a e = (e, tt)
AllSized-append size (y ∷ xs) x a e = (a.0, AllSized-append size xs x a.1 e)

over-replicate : (x : List ℕ) (n : ℕ) → length x ≡ n → over x (replicate n 0) ≡ x
over-replicate [] zero e = refl
over-replicate [] (suc n) e = absurd (omega arith)
over-replicate (y ∷ x) zero e = absurd (omega arith)
over-replicate (y ∷ x) (suc n) e = ap (λ ys. y ∷ ys) (over-replicate x n (omega arith))

-- `pop-stored` for a buffer of zeros that has the item's size.
pop-sized :
    (size : ℕ) {rq : Ringq} {x : List ℕ} {xs : Queue}
    → Holds rq (x ∷ xs)
    → length x ≡ size
    → pop rq (replicate size 0) size ≡ ok (true, x, behind rq size)
pop-sized size {rq} {x} v e = rw (← e) (
    (pop-stored v (replicate (length x) 0) (omega (arith, length-replicate {A = ℕ} (length x) 0))).0
    ∙ ap (λ y. ok (true, y, behind rq (length x))) (over-replicate x (length x) refl))

-- A client's calls of `ringq_push_with_lock` and `ringq_pop_with_lock`, with items and buffers of
-- one size, get from a well-formed ring with a free lock the replies that they get from the bounded
-- queue of its items: in order, whole, and refused exactly where the bound is passed.
pub run_refines :
    (size : ℕ) (calls : List Call) {rq : Ringq} {xs : Queue}
    → Holds rq xs
    → rq.use_lock ≡ true
    → rq.held ≡ false
    → 4 + size ≤ int_max
    → Sized size calls
    → AllSized size xs
    → run size rq calls ≡ ok (Queue.run (rq.size - 1) size xs calls)
unfolding run Queue.run Queue.push
run_refines size [] v locked free small s a = refl
run_refines size (put x ∷ calls) {rq} {xs} v locked free small s a =
    elim (dec_lt (used xs + (4 + size)) rq.size) [
      | yes fits ↦
          let (g, e, h) = push-stored v x size (omega (arith, s.0)) fits in
          let t : take size x ≡ x = take-length x size (omega (arith, s.0)) in
          rw (
            push_with_lock-eq-push rq x size locked free,
            e,
            run_refines size calls {xs = xs ++ (x ∷ [])} (rw t at h) locked free small s.1
                (AllSized-append size xs x a s.0),
            le→not_ltb (rq.size - 1) (used xs + (4 + length x)) (omega (arith, s.0)),
          )
      | no full ↦ rw (
        push_with_lock-eq-push rq x size locked free,
        push-refused v x size (omega arith) small,
        run_refines size calls v locked free small s.1 a,
        lt→ltb (rq.size - 1) (used xs + (4 + length x)) (omega (arith, s.0, v.head_in)),
      )
    ]
run_refines size (get ∷ calls) {rq} {xs = []} v locked free small s a = rw (
  pop_with_lock-eq-pop rq (replicate size 0) size locked free,
  pop-empty (replicate size 0) size v,
  run_refines size calls v locked free small s a,
)
run_refines size (get ∷ calls) {rq} {xs = x ∷ xs} v locked free small s a = rw (
  pop_with_lock-eq-pop rq (replicate size 0) size locked free,
  pop-sized size v a.0,
  run_refines size calls {xs = xs} (rw a.0 at (Holds-behind v)) locked free small s a.1,
)

-- With memory `ringq_new` gives a ring.
pub new-none : (size : ℕ) (use_lock : Bool) → new size use_lock false ≡ none
unfolding new
new-none size use_lock = refl

pub new-some : (size : ℕ) (use_lock : Bool) → (rq : Ringq) × (new size use_lock true ≡ some rq)
unfolding new
new-some size use_lock = (_, refl)
