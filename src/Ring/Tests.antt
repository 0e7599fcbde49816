-- ===== src/Ring/Tests.antt =====
-- The ring queue at concrete rings: runs of the code, and its theorems where their hypotheses hold.
use ebot.Base.{waits, ℕ, ◌≡◌, refl, true, false, List, [], ◌∷◌, arith, ok, fault, zero, suc}
use ebot.Bytes.{Mem, load_int, store_int, read}
use ebot.Ring.{Ringq, push, pop, push_round, push_straight, pop_round, pop_straight, load_length}
use ebot.Ring.Layout.{Holds, ring_read}
use ebot.Ring.Queue
use ebot.Ring.Queue.{Call, put, get, used}
use ebot.Ring.Pop.{pop_overflow}
use ebot.Ring.Locked.{push_with_lock, pop_with_lock, both_with_lock}
use ebot.Ring.Refine.{run, run_refines}

abbrev bytes_from : List ℕ → Mem
bytes_from [] j = 0
bytes_from (x ∷ xs) zero = x
bytes_from (x ∷ xs) (suc j) = bytes_from xs j

-- Rings of ten bytes. In `jumped` the length of the only item runs past the end of the ring, in
-- `split` its bytes do.
abbrev blank : Ringq
blank = record {
  head = 0;
  tail = 0;
  size = 11;
  num = 0;
  use_lock = true;
  mem = λ _. 0;
  room = 15;
  held = false;
}

abbrev jumped : Ringq
jumped = record blank {
  head = 9;
  tail = 5;
  num = 1;
  mem = bytes_from (0 ∷ 0 ∷ 7 ∷ 8 ∷ 9 ∷ 0 ∷ 0 ∷ 0 ∷ 0 ∷ 3 ∷ 0 ∷ []);
}

abbrev split : Ringq
split = record blank {
  head = 5;
  tail = 1;
  num = 1;
  mem = bytes_from (9 ∷ 0 ∷ 0 ∷ 0 ∷ 0 ∷ 3 ∷ 0 ∷ 0 ∷ 0 ∷ 7 ∷ 8 ∷ []);
}

abbrev item : List ℕ
item = 7 ∷ 8 ∷ 9 ∷ []

blank-Holds : Holds blank []
blank-Holds = omega arith

jumped-Holds : Holds jumped (item ∷ [])
unfolding load_int ring_read
jumped-Holds = record {
  head_in = omega arith;
  space = omega arith;
  tail_at = refl;
  count = refl;
  room_is = refl;
  small = omega arith;
  stored = (refl, refl, tt);
}

split-Holds : Holds split (item ∷ [])
unfolding load_int ring_read
split-Holds = record {
  head_in = omega arith;
  space = omega arith;
  tail_at = refl;
  count = refl;
  room_is = refl;
  small = omega arith;
  stored = (refl, refl, tt);
}

-- Round the ring three times, with a refusal and an empty ring between.
abbrev script : List Call
script =
    get
    ∷ put (1 ∷ 2 ∷ 3 ∷ [])
    ∷ put (4 ∷ 5 ∷ 6 ∷ [])
    ∷ get
    ∷ put (4 ∷ 5 ∷ 6 ∷ [])
    ∷ get
    ∷ put (7 ∷ 8 ∷ 9 ∷ [])
    ∷ get
    ∷ []

run-script :
    run 3 blank script
    ≡ ok (
        (false, 0 ∷ 0 ∷ 0 ∷ [])
        ∷ (true, [])
        ∷ (false, [])
        ∷ (true, 1 ∷ 2 ∷ 3 ∷ [])
        ∷ (true, [])
        ∷ (true, 4 ∷ 5 ∷ 6 ∷ [])
        ∷ (true, [])
        ∷ (true, 7 ∷ 8 ∷ 9 ∷ [])
        ∷ [])
unfolding run push_with_lock pop_with_lock push pop push_round push_straight pop_round pop_straight
    load_length load_int store_int read
run-script = refl

pop_overflow_example : pop split (0 ∷ 0 ∷ []) 2 ≡ fault
pop_overflow_example =
    pop_overflow (0 ∷ 0 ∷ []) 2 split-Holds (omega arith) (omega arith) (omega arith)

both_with_lock_example :
    (split.use_lock ≡ false
      → (push_with_lock split item 3 ≡ ok (false, split))
        × (pop_with_lock split item 3 ≡ ok (false, item, split)))
    × (split.use_lock ≡ true
        → (split.held ≡ true
            → (push_with_lock split item 3 ≡ waits) × (pop_with_lock split item 3 ≡ waits))
          × (split.held ≡ false
              → (push_with_lock split item 3 ≡ push split item 3)
                × (pop_with_lock split item 3 ≡ pop split item 3)))
both_with_lock_example = both_with_lock split item 3

run_refines_example :
    run 3 jumped (put (1 ∷ 2 ∷ 3 ∷ []) ∷ get ∷ get ∷ [])
    ≡ ok (Queue.run 10 3 (item ∷ []) (put (1 ∷ 2 ∷ 3 ∷ []) ∷ get ∷ get ∷ []))
run_refines_example =
    run_refines 3 (put (1 ∷ 2 ∷ 3 ∷ []) ∷ get ∷ get ∷ []) jumped-Holds refl refl (omega arith)
      (omega arith) (omega arith)
