-- ===== src/Ring.antt =====
-- The ring queue of ebot.c: `ringq`, a FIFO of byte strings of varying length in one block of
-- memory. A C function that returns 0 for yes or done and -1 for no gives `true` or `false`.
pub mod Layout
mod Tests
mod Trials
pub mod Queue
pub mod Refine
pub mod Locked
pub mod Pop
pub mod Push
pub mod Wrote
pub mod Demo
pub mod Mulit
use ebot.Base.{
  ℕ, ◌+◌, ◌-◌, ◌%◌, Bool, true, false, ◌&&◌, Option, none, some, List, ltb, leb, ◌==◌,
  if◌then◌else◌, length, take, drop, ◌++◌, Run, ok, exits, fault, ◌>>=◌,
}
use ebot.Bytes.{Mem, write, read, int_size, int_max, load_int, store_int}

-- `ringq`. `mem` holds the bytes from `rq->mem` on and `room` counts those that `ringq_new`
-- allocated there; `held` says that some thread is inside `rq->lock`.
pub record Ringq : Type 0 where
  pub head : ℕ
  pub tail : ℕ
  pub size : ℕ
  pub num : ℕ
  pub use_lock : Bool
  pub mem : Mem
  pub room : ℕ
  pub held : Bool

-- `sizeof(ring_item)`, which is that of its `int length`; `data[0]` takes no room.
abbrev pub item_header : ℕ
item_header = int_size

pub empty : Ringq → Bool
empty rq = rq.tail == rq.head

pub full : Ringq → Bool
full rq = (rq.tail + 1) % rq.size == rq.head

-- `malloc_ok` says that `malloc` gives memory; `init_ret` is what `pthread_mutex_init` returns,
-- no negative number, so that the test `ret < 0` of the code never holds.
pub new : ℕ → Bool → (malloc_ok : Bool) → Option Ringq
new size use_lock malloc_ok =
    if malloc_ok
    then some (record {
      head = 0;
      tail = 0;
      size = size + 1;
      num = 0;
      use_lock = use_lock;
      mem = λ _. 0;
      room = size + 1 + item_header;
      held = false;
    })
    else none

-- `memcpy(rq->mem + at, src + from, n)`
pub copy_in : Ringq → ℕ → List ℕ → ℕ → ℕ → Run Ringq
copy_in rq at src from n =
    if leb (from + n) (length src) && leb (at + n) rq.room
    then ok (record rq { mem = write rq.mem at (take n (drop from src)) })
    else fault

-- `xs` over the bytes of `dst` from `from` on
abbrev pub splice : List ℕ → ℕ → List ℕ → List ℕ
splice dst from xs = take from dst ++ (xs ++ drop (from + length xs) dst)

-- `memcpy(dst + from, rq->mem + at, n)`
pub copy_out : Ringq → ℕ → List ℕ → ℕ → ℕ → Run (List ℕ)
copy_out rq at dst from n =
    if leb (from + n) (length dst) && leb (at + n) rq.room
    then ok (splice dst from (read rq.mem at n))
    else fault

-- `unit->length = n` at `rq->mem + at`
pub store_length : Ringq → ℕ → ℕ → Run Ringq
store_length rq at n =
    if leb (at + int_size) rq.room then ok (record rq { mem = store_int rq.mem at n }) else fault

-- `unit->length` at `rq->mem + at`. A value with the sign bit, or one to which `lsz` cannot be
-- added, stands in no ring that the code builds; the model stops there.
pub load_length : Ringq → ℕ → Run ℕ
load_length rq at =
    if leb (at + int_size) rq.room && leb (load_int rq.mem at + int_size) int_max
    then ok (load_int rq.mem at)
    else fault

-- `rq->num--` and `rq->num++`, which close a call that worked
abbrev pub popped : List ℕ → Ringq → Run (Bool × List ℕ × Ringq)
popped out rq = ok (true, out, record rq { num = rq.num - 1 })

abbrev pub pushed : Ringq → Run (Bool × Ringq)
pushed rq = ok (true, record rq { num = rq.num + 1 })

-- The branch of `ringq_pop` whose item may run round the end; `len` is `unit->length`.
pub pop_round : Ringq → List ℕ → (item_size len : ℕ) → Run (Bool × List ℕ × Ringq)
unfolding copy_out
pop_round rq item item_size len =
    let m = rq.size - rq.head in
    if ltb (len + int_size) m
    then (do
      out ← copy_out rq (rq.head + int_size) item 0 item_size
      popped out (record rq { head = (rq.head + (len + int_size)) % rq.size }))
    else if ltb int_size m
    then (do
      out ← copy_out rq (rq.head + int_size) item 0 (m - int_size)
      let head = (rq.head + m) % rq.size
      out ← copy_out rq head out (m - int_size) (len - (m - int_size))
      popped out (record rq { head = (head + len - (m - int_size)) % rq.size }))
    else (do
      let head = (rq.head + int_size) % rq.size
      out ← copy_out rq head item 0 item_size
      popped out (record rq { head = (head + len) % rq.size }))

-- The branch of `ringq_pop` for `head < tail`.
pub pop_straight : Ringq → List ℕ → (item_size len : ℕ) → Run (Bool × List ℕ × Ringq)
unfolding copy_out
pop_straight rq item item_size len = do
  out ← copy_out rq (rq.head + int_size) item 0 item_size
  popped out (record rq { head = (rq.head + (len + int_size)) % rq.size })

-- `item` is the caller's buffer, which comes back filled.
pub pop : Ringq → List ℕ → ℕ → Run (Bool × List ℕ × Ringq)
unfolding empty
pop rq item item_size = if empty rq then ok (false, item, rq) else do
  len ← load_length rq rq.head
  if leb rq.tail rq.head
      then (if ltb (rq.size - (rq.head - rq.tail)) (len + int_size)
          then exits
          else pop_round rq item item_size len)
      else (if ltb (rq.tail - rq.head) (len + int_size)
          then exits
          else pop_straight rq item item_size len)

-- The branch of `ringq_push` whose item may run round the end, behind the check of the space.
pub push_round : Ringq → List ℕ → ℕ → Run (Bool × Ringq)
unfolding copy_in store_length
push_round rq item item_size = do
  rq ← store_length rq rq.tail item_size
  let m = rq.size - rq.tail
  if ltb (int_size + item_size) m
      then (do
        rq ← copy_in rq (rq.tail + int_size) item 0 item_size
        pushed (record rq { tail = (rq.tail + (int_size + item_size)) % rq.size }))
      else if ltb int_size m
      then (do
        rq ← copy_in rq (rq.tail + int_size) item 0 (m - int_size)
        let tail = (rq.tail + m) % rq.size
        rq ← copy_in rq tail item (m - int_size) (item_size - (m - int_size))
        pushed (record rq { tail = (tail + item_size - (m - int_size)) % rq.size }))
      else (do
        let tail = (rq.tail + int_size) % rq.size
        rq ← copy_in rq tail item 0 item_size
        pushed (record rq { tail = (tail + item_size) % rq.size }))

-- The branch of `ringq_push` for `tail < head`, behind the check of the space.
pub push_straight : Ringq → List ℕ → ℕ → Run (Bool × Ringq)
unfolding copy_in store_length
push_straight rq item item_size = do
  rq ← store_length rq rq.tail item_size
  rq ← copy_in rq (rq.tail + int_size) item 0 item_size
  pushed (record rq { tail = (rq.tail + (int_size + item_size)) % rq.size })

pub push : Ringq → List ℕ → ℕ → Run (Bool × Ringq)
unfolding full
push rq item item_size =
    if full rq
    then ok (false, rq)
    else if ltb int_max (int_size + item_size)
    then fault
    else if leb rq.head rq.tail
    then (if ltb (rq.size - (rq.tail - rq.head) - 1) (int_size + item_size)
        then ok (false, rq)
        else push_round rq item item_size)
    else (if ltb (rq.head - rq.tail - 1) (int_size + item_size)
        then ok (false, rq)
        else push_straight rq item item_size)
