-- ===== src/Ring/Demo.antt =====
-- The demonstrations of the ring in ebot.c: `test_ringq`, and `test_ringq_mulit` with its thread
-- `test_f`; and `ringq_dump` and `ringq_dump_tailn`.
use ebot.Base.{
  ℕ, zero, suc, ◌+◌, ◌-◌, ◌*◌, ◌%◌, Bool, true, false, none, some, List, [], ◌∷◌, ◌++◌, replicate,
  ltb, leb, ◌==◌, if◌then◌else◌, Run, ok, exits, fault, waits, ◌>>=◌,
}
use ebot.Bytes.{read}
use ebot.Ring.{Ringq, new, push, pop, item_header}
use ebot.Ring.Locked.{push_with_lock, pop_with_lock, destroy}

-- What `ringq_dump` prints: four numbers, and all the bytes of the block.
pub record Dumped : Type 0 where
  pub size : ℕ
  pub head : ℕ
  pub tail : ℕ
  pub num : ℕ
  pub bytes : List ℕ

unfoldable pub dump : Ringq → Run Dumped
dump rq =
    if leb (rq.size + item_header) rq.room
    then ok (record {
      size = rq.size - 1;
      head = rq.head;
      tail = rq.tail;
      num = rq.num;
      bytes = read rq.mem 0 (rq.size + item_header);
    })
    else fault

-- `ringq_dump_tailn`, the bytes from the offset `n` on.
unfoldable pub dump_tailn : Ringq → (n : ℕ) → Run (List ℕ)
dump_tailn rq n =
    if ltb n (rq.size + item_header)
    then (if leb (rq.size + item_header) rq.room
        then ok (read rq.mem n (rq.size + item_header - n))
        else fault)
    else ok []

-- The lines that `test_ringq` prints itself: an item that it is about to push, what it has popped,
-- and an item that went in behind a refusal.
pub data Line : Type 0 where
  push_item push_again : ℕ → Line
  pop_item : List ℕ → Line

-- "###@@@$$$" and a digit
abbrev pub demo_item : ℕ → List ℕ
demo_item i = 35 ∷ 35 ∷ 35 ∷ 64 ∷ 64 ∷ 64 ∷ 36 ∷ 36 ∷ 36 ∷ (48 + i % 10) ∷ []

-- The `for` behind the label `pop`: `k` calls of `ringq_pop`.
unfoldable pub drain : (k : ℕ) → Ringq → (rcv : List ℕ) → Run (List Line × Ringq × List ℕ)
unfolding dump
drain zero rq rcv = ok ([], rq, rcv)
drain (suc k) rq rcv = do
  (ret, rcv, rq) ← pop rq rcv 10
  shown ← dump rq
  (lines, rq, rcv') ← drain k rq rcv
  ok (if ret then pop_item rcv ∷ lines else lines, rq, rcv')

-- From the label `pop` on, until the item goes in. `fuel` bounds the jumps back.
unfoldable pub again : (fuel i : ℕ) → Ringq → (rcv : List ℕ) → Run (List Line × Ringq × List ℕ)
unfolding drain dump
again zero i rq rcv = waits
again (suc fuel) i rq rcv = do
  (lines, rq, rcv) ← drain 10 rq rcv
  (ret, rq) ← push rq (demo_item i) 10
  shown ← dump rq
  if ret
      then ok (lines ++ (push_again i ∷ []), rq, rcv)
      else (do (more, rq, rcv) ← again fuel i rq rcv; ok (lines ++ more, rq, rcv))

-- The outer `for`, from `i` on for `k` items.
unfoldable pub fill : (fuel k i : ℕ) → Ringq → (rcv : List ℕ) → Run (List Line × Ringq × List ℕ)
unfolding again dump
fill fuel zero i rq rcv = ok ([], rq, rcv)
fill fuel (suc k) i rq rcv = do
  (ret, rq) ← push rq (demo_item i) 10
  shown ← dump rq
  (lines, rq, rcv) ← if ret then ok ([], rq, rcv) else again fuel i rq rcv
  (more, rq, rcv) ← fill fuel k (i + 1) rq rcv
  ok (push_item i ∷ (lines ++ more), rq, rcv)

-- The five calls of `ringq_pop` at the end.
unfoldable pub pop_times : (k : ℕ) → Ringq → (rcv : List ℕ) → Run Ringq
pop_times zero rq rcv = ok rq
pop_times (suc k) rq rcv = do (ret, rcv, rq) ← pop rq rcv 10; pop_times k rq rcv

-- `ringq_new` may give `NULL`, which `ringq_push` does not expect.
unfoldable pub test_ringq : (malloc_ok : Bool) (fuel : ℕ) → Run (List Line)
unfolding fill pop_times
test_ringq malloc_ok fuel = elim (new 100 true malloc_ok) [
  | none ↦ fault
  | some rq ↦ (do
    (lines, rq, rcv) ← fill fuel 10 0 rq (replicate 11 0)
    rq ← pop_times 5 rq rcv
    done ← destroy (some rq)
    ok lines)
]

-- "hello world!" with the 0 behind it
abbrev pub hello : List ℕ
hello = 104 ∷ 101 ∷ 108 ∷ 108 ∷ 111 ∷ 32 ∷ 119 ∷ 111 ∷ 114 ∷ 108 ∷ 100 ∷ 33 ∷ 0 ∷ []

-- `strcmp(a, b) == 0`, for bytes that have a 0 among them
abbrev pub same_string : List ℕ → List ℕ → Bool
same_string [] b = false
same_string (x ∷ a) [] = false
same_string (x ∷ a) (y ∷ b) =
    let rest = same_string a b in if x == y then (if x == 0 then true else rest) else false

-- A round of one of the two threads, with all that it does under the lock of the ring.
pub data Turn : Type 0 where
  pusher popper : Turn

-- What the threads have done: the calls of `ringq_push_with_lock` that are left to `test_f`, those
-- that worked, those of `ringq_pop_with_lock` that worked, and the `buf` of `test_ringq_mulit`.
pub record Done : Type 0 where
  pub left : ℕ
  pub pushed : ℕ
  pub popped : ℕ
  pub buf : List ℕ

-- A round of the `for` of `test_f`.
unfoldable pub test_f : Ringq → Done → Run (Ringq × Done)
test_f rq d = if d.left == 0 then ok (rq, d) else (do
  (ret, rq) ← push_with_lock rq hello 13
  ok (rq, record d { left = d.left - 1; pushed = if ret then d.pushed + 1 else d.pushed }))

-- A round of the `while` of `test_ringq_mulit`; `err_exit` ends the program.
unfoldable pub pop_round_mulit : Ringq → Done → Run (Ringq × Done)
pop_round_mulit rq d = do
  (ret, buf, rq) ← pop_with_lock rq d.buf 13
  if ret
      then (if same_string buf hello
          then ok (rq, record d { popped = d.popped + 1; buf = buf })
          else exits)
      else ok (rq, record d { buf = buf })

unfoldable pub turns : List Turn → Ringq → Done → Run (Ringq × Done)
unfolding test_f pop_round_mulit
turns [] rq d = ok (rq, d)
turns (pusher ∷ rest) rq d = do (rq, d) ← test_f rq d; turns rest rq d
turns (popper ∷ rest) rq d = do (rq, d) ← pop_round_mulit rq d; turns rest rq d

-- `test_ringq_mulit`, whose `while` does not end, as far as the turns go.
unfoldable pub test_ringq_mulit : (malloc_ok : Bool) → List Turn → Run (Ringq × Done)
unfolding turns
test_ringq_mulit malloc_ok order = elim (new (1024 * 5) true malloc_ok) [
  | none ↦ exits
  | some rq ↦ turns order rq (record { left = 10000; pushed = 0; popped = 0; buf = replicate 13 0 })
]
