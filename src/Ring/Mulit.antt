-- ===== src/Ring/Mulit.antt =====
-- The two threads of `test_ringq_mulit`, in any order of their rounds.
use mathlib.Core.List.{append-nil}
use ebot.Base.{
  ℕ, zero, suc, ◌+◌, ◌≡◌, refl, ap, ◌∙◌, true, false, List, [], ◌∷◌, ◌++◌, arith, length, replicate,
  drop_all, Returns, Returns-bind, Returns-if, ok, dec_lt, ◌==◌,
}
use std.Path.{subst}
use ebot.Ring.{Ringq}
use ebot.Ring.Demo.{
  hello, Done, Turn, pusher, popper, test_f, pop_round_mulit, turns, test_ringq_mulit,
}
use ebot.Ring.Layout.{Holds}
use ebot.Ring.Locked.{push_with_lock-eq-push, pop_with_lock-eq-pop}
use ebot.Ring.Pop.{over, behind, pop-stored, pop-empty}
use ebot.Ring.Push.{after, push-stored, push-refused}
use ebot.Ring.Queue.{used}
use ebot.Ring.Refine.{new-Holds, new-some}

-- The ring has `n` messages, which are those that were pushed and not yet popped.
pub record Carries (rq : Ringq) (d : Done) (n : ℕ) : Type 0 where
  pub holds : Holds rq (replicate n hello)
  pub locked : rq.use_lock ≡ true
  pub free : rq.held ≡ false
  pub conserved : d.popped + n ≡ d.pushed
  pub room : length d.buf ≡ 13

replicate_snoc : (n : ℕ) (x : List ℕ) → replicate n x ++ (x ∷ []) ≡ x ∷ replicate n x
replicate_snoc zero x = refl
replicate_snoc (suc n) x = ap (λ l. x ∷ l) (replicate_snoc n x)

test_f-Carries :
    (rq : Ringq) (d : Done) (n : ℕ)
    → Carries rq d n
    → Returns (λ (rq', d'). (m : ℕ) × Carries rq' d' m) (test_f rq d)
unfolding test_f
test_f-Carries rq d n c =
    Returns-if _ (d.left == 0) _ _ (λ e. (n, c))
      λ e. elim (dec_lt (used (replicate n hello) + 17) rq.size) [
        | yes fits ↦
            let (g, pushed, holds) = push-stored c.holds hello 13 (omega arith) fits in
            rw (push_with_lock-eq-push rq hello 13 c.locked c.free, pushed)
              (
                suc n,
                record {
                  holds = subst (Holds (after rq g 13)) (replicate_snoc n hello) holds;
                  locked = c.locked;
                  free = c.free;
                  conserved = omega (arith, c.conserved);
                  room = c.room;
                },
              )
        | no full ↦
            rw
              (
                push_with_lock-eq-push rq hello 13 c.locked c.free,
                push-refused c.holds hello 13 (omega arith) (omega arith),
              )
              (
                n,
                record {
                  holds = c.holds;
                  locked = c.locked;
                  free = c.free;
                  conserved = c.conserved;
                  room = c.room;
                },
              )
      ]

over-hello : (out : List ℕ) → length out ≡ 13 → over hello out ≡ hello
over-hello out h = rw (drop_all 13 out (omega (arith, h))) (append-nil hello)

pop_round_mulit-Carries :
    (rq : Ringq) (d : Done) (n : ℕ)
    → Carries rq d n
    → Returns (λ (rq', d'). (m : ℕ) × Carries rq' d' m) (pop_round_mulit rq d)
unfolding pop_round_mulit
pop_round_mulit-Carries rq d zero c =
    rw (pop_with_lock-eq-pop rq d.buf 13 c.locked c.free, pop-empty d.buf 13 c.holds)
      (
        0,
        record {
          holds = c.holds;
          locked = c.locked;
          free = c.free;
          conserved = c.conserved;
          room = c.room;
        },
      )
pop_round_mulit-Carries rq d (suc n) c =
    let (popped, holds) = pop-stored c.holds d.buf (omega (arith, c.room)) in
    rw
      (
        pop_with_lock-eq-pop rq d.buf 13 c.locked c.free,
        popped ∙ ap (λ y. ok (true, y, behind rq 13)) (over-hello d.buf c.room),
      )
      (
        n,
        record {
          holds = holds;
          locked = c.locked;
          free = c.free;
          conserved = omega (arith, c.conserved);
          room = refl;
        },
      )

turns-Carries :
    (order : List Turn) (rq : Ringq) (d : Done) (n : ℕ)
    → Carries rq d n
    → Returns (λ (rq', d'). (m : ℕ) × Carries rq' d' m) (turns order rq d)
unfolding turns
turns-Carries [] rq d n c = (n, c)
turns-Carries (pusher ∷ rest) rq d n c =
    Returns-bind _ _ (test_f rq d) _ (test_f-Carries rq d n c)
      λ (rq', d') (m, c'). turns-Carries rest rq' d' m c'
turns-Carries (popper ∷ rest) rq d n c =
    Returns-bind _ _ (pop_round_mulit rq d) _ (pop_round_mulit-Carries rq d n c)
      λ (rq', d') (m, c'). turns-Carries rest rq' d' m c'

-- Whatever the order of the rounds of its two threads, `test_ringq_mulit` with memory does not come
-- to its `err_exit`, nor to a fault or to a wait for the lock: each message that is popped is the
-- one that `test_f` pushes, whole, and what was pushed and not popped stands in the ring.
pub test_ringq_mulit-Carries :
    (order : List Turn)
    → Returns (λ (rq, d). (n : ℕ) × Carries rq d n) (test_ringq_mulit true order)
unfolding test_ringq_mulit
test_ringq_mulit-Carries order =
    let (rq, made) = new-some 5120 true in
    let (holds, size, locked, free) = new-Holds 5120 true (omega arith) made in
    rw (test_ringq_mulit, made)
      (turns-Carries order rq
        (record { left = 10000; pushed = 0; popped = 0; buf = replicate 13 0 }) 0
        (record { holds = holds; locked = locked; free = free; conserved = refl; room = refl }))
