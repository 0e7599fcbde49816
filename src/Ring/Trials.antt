-- ===== src/Ring/Trials.antt =====
-- Runs of the demonstrations of the ring.
use ebot.Base.{ℕ, ◌≡◌, refl, true, [], ◌∷◌, ◌++◌, Returns, ok}
use ebot.Bytes.{load_int, store_int, read}
use ebot.Ring.{new, push, pop, push_round, push_straight, pop_round, pop_straight, load_length}
use ebot.Ring.Demo.{
  push_item, push_again, pop_item, demo_item, dump, test_ringq, fill, again, drain, pop_times,
  pusher, popper, test_ringq_mulit,
}
use ebot.Ring.Locked.{destroy}
use ebot.Ring.Mulit.{Carries, test_ringq_mulit-Carries}

-- Seven items fit; the eighth drives them out.
run-test_ringq :
    test_ringq true 1
    ≡ ok (
        push_item 0
        ∷ push_item 1
        ∷ push_item 2
        ∷ push_item 3
        ∷ push_item 4
        ∷ push_item 5
        ∷ push_item 6
        ∷ push_item 7
        ∷ pop_item (demo_item 0 ++ (0 ∷ []))
        ∷ pop_item (demo_item 1 ++ (0 ∷ []))
        ∷ pop_item (demo_item 2 ++ (0 ∷ []))
        ∷ pop_item (demo_item 3 ++ (0 ∷ []))
        ∷ pop_item (demo_item 4 ++ (0 ∷ []))
        ∷ pop_item (demo_item 5 ++ (0 ∷ []))
        ∷ pop_item (demo_item 6 ++ (0 ∷ []))
        ∷ push_again 7
        ∷ push_item 8
        ∷ push_item 9
        ∷ [])
unfolding test_ringq fill again drain pop_times dump new push pop push_round push_straight pop_round
    pop_straight load_length load_int store_int read destroy
run-test_ringq = refl

test_ringq_mulit-Carries_example :
    Returns
      (λ (rq, d). (n : ℕ) × Carries rq d n)
      (test_ringq_mulit true (popper ∷ pusher ∷ pusher ∷ popper ∷ []))
test_ringq_mulit-Carries_example = test_ringq_mulit-Carries (popper ∷ pusher ∷ pusher ∷ popper ∷ [])
