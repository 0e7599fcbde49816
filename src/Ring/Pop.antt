-- ===== src/Ring/Pop.antt =====
-- `ringq_pop` on a ring that holds a list of items.
use native.Mathlib.Decide.{dec_lt}
use mathlib.Core.List.{append_assoc}
use ebot.Base.{
  drop-drop, take-append-length, append-drop-length, ℕ, ◌+◌, ◌-◌, ◌≤◌, ◌<◌, ◌≡◌, ap, sym, ◌∙◌, true,
  false, List, [], ◌∷◌, ◌++◌, arith, length, length-drop, drop, if◌then◌else◌, leb, ok, fault,
  length-append, le→leb, lt→ltb, le→not_ltb, ◌==◌, Bool-cases, leb→le, false, inl, inr,
}
use ebot.Bytes.{read, length-read}
use ebot.Ring.{Ringq, pop, pop_round, pop_straight, load_length, splice}
use ebot.Ring.Layout.{wrap, Holds, mod-eq-wrap, ring_read, ring_read-straight, ring_read-split}

-- `rq` with an item of `n` bytes taken from its head.
abbrev pub behind : Ringq → ℕ → Ringq
behind rq n = record rq { head = wrap rq.size (rq.head + (4 + n)); num = rq.num - 1 }

-- `x` put over the front of `out`
abbrev pub over : List ℕ → List ℕ → List ℕ
over x out = x ++ drop (length x) out

splice-over : (out x : List ℕ) → splice out 0 x ≡ over x out
splice-over out x = let e : 0 + length x ≡ length x = omega arith in rw e

splice-splice : (out a b : List ℕ) → splice (splice out 0 a) (length a) b ≡ over (a ++ b) out
splice-splice out a b = rw (
  splice-over out a,
  take-append-length a (drop (length a) out),
  ← drop-drop (length a) (length b) (over a out),
  append-drop-length a (drop (length a) out),
  drop-drop (length a) (length b) out,
  length-append a b,
  append_assoc,
)

pub Holds-behind :
    {rq : Ringq} {x : List ℕ} {xs : List (List ℕ)}
    → Holds rq (x ∷ xs)
    → Holds (behind rq (length x)) xs
Holds-behind v = record {
  head_in = ground (arith, v.space, v.head_in);
  space = omega (arith, v.space);
  tail_at = ground (arith, v.tail_at, v.space, v.head_in);
  count = omega (arith, v.count);
  room_is = v.room_is;
  small = v.small;
  stored = v.stored.2;
}

module _ {rq : Ringq} {x : List ℕ} {xs : List (List ℕ)} (v : Holds rq (x ∷ xs)) (out : List ℕ) where
  load_length_head : load_length rq rq.head ≡ ok (length x)
  unfolding load_length
  load_length_head = ground (arith, v.stored.0, v.space, v.small, v.room_is, v.head_in)

  not_empty : (rq.tail == rq.head) ≡ false
  not_empty = ground (arith, v.tail_at, v.space, v.head_in)

  -- The checks of `ringq_pop` pass.
  pop_by :
      (item_size : ℕ)
      → pop rq out item_size ≡ (
          if leb rq.tail rq.head
          then pop_round rq out item_size (length x)
          else pop_straight rq out item_size (length x))
  unfolding pop
  pop_by item_size =
      rw (not_empty, load_length_head)
        (elim (Bool-cases (leb rq.tail rq.head)) [
          | inl round ↦ rw round (
              rw (
                le→not_ltb (rq.size - (rq.head - rq.tail)) (length x + 4)
                  (ground (arith, v.tail_at, v.space, v.head_in))))
          | inr straight ↦ rw straight (
              rw (
                le→not_ltb (rq.tail - rq.head) (length x + 4)
                  (ground (arith, v.tail_at, v.space, v.head_in))))
        ])

module _ {rq : Ringq} {x : List ℕ} {xs : List (List ℕ)} (v : Holds rq (x ∷ xs)) (out : List ℕ)
    (enough : length x ≤ length out) where
  pop_straight_lem :
      rq.head + (4 + length x) < rq.size
      → pop_straight rq out (length x) (length x)
        ≡ ok (true, over (read rq.mem (rq.head + 4) (length x)) out, behind rq (length x))
  unfolding pop_straight
  pop_straight_lem near = ground (
    arith,
    v.room_is,
    mod-eq-wrap rq.size (rq.head + (length x + 4)),
    splice-over out (read rq.mem (rq.head + 4) (length x)),
  )

  pop_round-straight :
      rq.head + (4 + length x) < rq.size
      → pop_round rq out (length x) (length x)
        ≡ ok (true, over (read rq.mem (rq.head + 4) (length x)) out, behind rq (length x))
  unfolding pop_round
  pop_round-straight near = ground (
    arith,
    v.room_is,
    mod-eq-wrap rq.size (rq.head + (length x + 4)),
    splice-over out (read rq.mem (rq.head + 4) (length x)),
  )

  pop_round-jump :
      rq.size ≤ rq.head + 4
      → pop_round rq out (length x) (length x)
        ≡ ok (true, over (read rq.mem (rq.head + 4 - rq.size) (length x)) out, behind rq (length x))
  unfolding pop_round
  pop_round-jump far = ground (
    arith,
    v.room_is,
    v.space,
    v.head_in,
    mod-eq-wrap rq.size (rq.head + 4),
    mod-eq-wrap rq.size (rq.head + 4 - rq.size + length x),
    splice-over out (read rq.mem (rq.head + 4 - rq.size) (length x)),
  )

  pop_round-split :
      {k : ℕ}
      → rq.head + 4 + k ≡ rq.size
      → 0 < k
      → k ≤ length x
      → pop_round rq out (length x) (length x)
        ≡ ok (
          true,
          over (read rq.mem (rq.head + 4) k ++ read rq.mem 0 (length x - k)) out,
          behind rq (length x),
        )
  unfolding pop_round
  pop_round-split {k} near some_ short = ground (
    arith,
    v.room_is,
    v.space,
    v.head_in,
    mod-eq-wrap rq.size (rq.head + (rq.size - rq.head)),
    mod-eq-wrap rq.size (0 + length x - k),
    splice-splice out (read rq.mem (rq.head + 4) k) (read rq.mem 0 (length x - k)),
    length-read rq.mem (rq.head + 4) k,
    length-append (read rq.mem (rq.head + 4) k)
        (drop (0 + length (read rq.mem (rq.head + 4) k)) out),
    length-drop (0 + length (read rq.mem (rq.head + 4) k)) out,
  )

  item_straight : rq.head + (4 + length x) < rq.size → read rq.mem (rq.head + 4) (length x) ≡ x
  item_straight near =
      sym (ring_read-straight rq.mem rq.size (rq.head + 4) (length x) (omega arith))
      ∙ (rw (lt→ltb (rq.head + 4) rq.size (omega arith)) at v.stored.1)

  item_jump : rq.size ≤ rq.head + 4 → read rq.mem (rq.head + 4 - rq.size) (length x) ≡ x
  item_jump far =
      sym (
        ring_read-straight rq.mem rq.size (rq.head + 4 - rq.size) (length x)
          (omega (arith, v.space, v.head_in)))
      ∙ (rw (le→not_ltb (rq.head + 4) rq.size far) at v.stored.1)

  item_split :
      (k : ℕ)
      → rq.head + 4 + k ≡ rq.size
      → 0 < k
      → k ≤ length x
      → read rq.mem (rq.head + 4) k ++ read rq.mem 0 (length x - k) ≡ x
  item_split k near some_ short =
      let e : length x ≡ k + (length x - k) = omega arith in
      ap (λ ys. read rq.mem (rq.head + 4) k ++ ys)
        (sym (ring_read-straight rq.mem rq.size 0 (length x - k) (omega (arith, v.space))))
      ∙ sym (ring_read-split rq.mem rq.size (rq.head + 4) k (length x - k) (omega arith) near)
      ∙ ap (λ n. ring_read rq.mem rq.size (rq.head + 4) n) (sym e)
      ∙ (rw (lt→ltb (rq.head + 4) rq.size (omega arith)) at v.stored.1)

  -- The item comes whole in each of the three layouts.
  pop_round_lem :
      rq.tail ≤ rq.head
      → pop_round rq out (length x) (length x) ≡ ok (true, over x out, behind rq (length x))
  pop_round_lem turned = elim (dec_lt (rq.head + (4 + length x)) rq.size) [
    | yes near ↦
        pop_round-straight near
        ∙ ap (λ y. ok (true, over y out, behind rq (length x))) (item_straight near)
    | no far ↦ elim (dec_lt (rq.head + 4) rq.size) [
      | yes short ↦
          pop_round-split {k = rq.size - (rq.head + 4)} (omega arith) (omega arith) (omega arith)
          ∙ ap (λ y. ok (true, over y out, behind rq (length x)))
              (item_split (rq.size - (rq.head + 4)) (omega arith) (omega arith) (omega arith))
      | no long ↦
          pop_round-jump (omega arith)
          ∙ ap (λ y. ok (true, over y out, behind rq (length x))) (item_jump (omega arith))
    ]
  ]

  -- `ringq_pop` of the oldest item's size into a buffer that has room for it gives the item, whole,
  -- and leaves the rest.
  pub pop-stored :
      (pop rq out (length x) ≡ ok (true, over x out, behind rq (length x)))
      × Holds (behind rq (length x)) xs
  pop-stored = (
    pop_by v out (length x) ∙ elim (Bool-cases (leb rq.tail rq.head)) [
      | inl round ↦ rw round (pop_round_lem (leb→le rq.tail rq.head round))
      | inr straight ↦ rw straight (
          pop_straight_lem (ground (arith, v.tail_at, v.space, v.head_in))
          ∙ ap (λ y. ok (true, over y out, behind rq (length x)))
              (item_straight (ground (arith, v.tail_at, v.space, v.head_in))))
    ],
    Holds-behind v,
  )

-- `ringq_pop` of a well-formed empty ring says so, and changes neither the ring nor the buffer.
pub pop-empty :
    {rq : Ringq} (out : List ℕ) (n : ℕ) → Holds rq [] → pop rq out n ≡ ok (false, out, rq)
unfolding pop
pop-empty out n v = ground (arith, v.tail_at, v.head_in)

length-splice :
    (dst : List ℕ) (xs : List ℕ) → length xs ≤ length dst → length (splice dst 0 xs) ≡ length dst
length-splice dst xs h =
    omega (arith, length-append xs (drop (0 + length xs) dst), length-drop (0 + length xs) dst)

pop_round_overflow :
    (rq : Ringq) (out : List ℕ) (n len : ℕ)
    → rq.head + 4 < rq.size
    → rq.size ≤ rq.head + (4 + len)
    → length out < len
    → pop_round rq out n len ≡ fault
unfolding pop_round
pop_round_overflow rq out n len near far small = ground (
  arith,
  length-splice out (read rq.mem (rq.head + 4) (rq.size - rq.head - 4)),
  length-read rq.mem (rq.head + 4) (rq.size - rq.head - 4),
)

-- Where the oldest item runs round the end and is longer than the caller's buffer, `ringq_pop`
-- writes beyond the buffer, whatever size it is given.
pub pop_overflow :
    {rq : Ringq} {x : List ℕ} {xs : List (List ℕ)} (out : List ℕ) (n : ℕ)
    → Holds rq (x ∷ xs)
    → rq.head + 4 < rq.size
    → rq.size ≤ rq.head + (4 + length x)
    → length out < length x
    → pop rq out n ≡ fault
pop_overflow {rq} {x} out n v near far small =
    pop_by v out n
    ∙ rw (le→leb rq.tail rq.head (ground (arith, v.tail_at, v.space, v.head_in)))
        (pop_round_overflow rq out n (length x) near far small)
