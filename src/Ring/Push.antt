-- ===== src/Ring/Push.antt =====
-- `ringq_push` on a ring that holds a list of items.
use native.Mathlib.Decide.{dec_lt}
use ebot.Base.{
  ℕ, ◌+◌, ◌-◌, ◌≤◌, ◌<◌, ◌≡◌, ◌∙◌, true, false, List, [], ◌∷◌, ◌++◌, arith, length, take, drop, leb,
  if◌then◌else◌, ok, length-take, length-drop, length-append, take-append-take-drop, le→leb,
}
use ebot.Bytes.{int_max, write, store_int}
use ebot.Ring.{Ringq, push, push_round, push_straight}
use ebot.Ring.Queue.{used}
use ebot.Ring.Layout.{wrap, Holds, mod-eq-wrap, used-append, Stored-same, Stored-append}
use ebot.Ring.Wrote.{Wrote, straight-Wrote, jump-Wrote, split-Wrote}

-- `rq` with the item written at its tail and the tail moved on.
abbrev pub after : Ringq → (ℕ → ℕ) → ℕ → Ringq
after rq mem n = record rq { mem = mem; tail = wrap rq.size (rq.tail + (4 + n)); num = rq.num + 1 }

-- An item written at the tail, where there is room for it, is the last of the items.
Holds-after :
    {rq : Ringq} {xs : List (List ℕ)} {n : ℕ} (g : ℕ → ℕ) (y : List ℕ)
    → Holds rq xs
    → length y ≡ n
    → used xs + (4 + n) < rq.size
    → Wrote rq.mem g rq.size rq.tail y
    → Holds (after rq g n) (xs ++ (y ∷ []))
Holds-after {rq} {xs} g y v e fits w = record {
  head_in = v.head_in;
  space = omega (arith, used-append xs y);
  tail_at = ground (arith, used-append xs y, v.tail_at);
  count = omega (arith, length-append xs (y ∷ []), v.count);
  room_is = v.room_is;
  small = v.small;
  stored =
      Stored-append g rq.size rq.head xs y v.head_in v.space
        (Stored-same rq.mem g rq.size rq.head xs v.head_in v.space
          (λ p lt c. w.outside p lt (λ d. ground (arith, v.tail_at))) v.stored)
        (rw (← v.tail_at) (w.header, w.bytes, tt));
}

module _ (rq : Ringq) (item : List ℕ) (n : ℕ) (in_room : rq.room ≡ rq.size + 4)
    (enough : n ≤ length item) where
  push_straight_lem :
      rq.tail + (4 + n) < rq.size
      → push_straight rq item n
        ≡ ok (true, after rq (write (store_int rq.mem rq.tail n) (rq.tail + 4) (take n item)) n)
  unfolding push_straight
  push_straight_lem h = ground (arith, mod-eq-wrap rq.size (rq.tail + (4 + n)))

  push_round-straight :
      rq.tail + (4 + n) < rq.size
      → push_round rq item n
        ≡ ok (true, after rq (write (store_int rq.mem rq.tail n) (rq.tail + 4) (take n item)) n)
  unfolding push_round
  push_round-straight h = ground (arith, mod-eq-wrap rq.size (rq.tail + (4 + n)))

  push_round-jump :
      rq.tail < rq.size
      → rq.size ≤ rq.tail + 4
      → 4 + n < rq.size
      → push_round rq item n
        ≡ ok (
          true,
          after rq (write (store_int rq.mem rq.tail n) (rq.tail + 4 - rq.size) (take n item)) n,
        )
  unfolding push_round
  push_round-jump ht h fits =
      ground
        (arith, mod-eq-wrap rq.size (rq.tail + 4), mod-eq-wrap rq.size (rq.tail + 4 - rq.size + n))

  push_round-split :
      {k : ℕ}
      → rq.tail < rq.size
      → rq.tail + 4 + k ≡ rq.size
      → 0 < k
      → k ≤ n
      → 4 + n < rq.size
      → push_round rq item n
        ≡ ok (
          true,
          after rq
              (write
                (write (store_int rq.mem rq.tail n) (rq.tail + 4) (take k item))
                0
                (take (n - k) (drop k item)))
              n,
        )
  unfolding push_round
  push_round-split {k} ht near some_ short fits =
      ground (
        arith,
        mod-eq-wrap rq.size (rq.tail + (rq.size - rq.tail)),
        mod-eq-wrap rq.size (0 + n - k),
      )

module _ {rq : Ringq} {xs : List (List ℕ)} (v : Holds rq xs) (item : List ℕ) (n : ℕ) where
  -- `ringq_push` of an item for which a well-formed ring has no room says so and changes nothing.
  pub push-refused : rq.size ≤ used xs + (4 + n) → 4 + n ≤ int_max → push rq item n ≡ ok (false, rq)
  unfolding push
  push-refused none_left small = ground (arith, mod-eq-wrap rq.size (rq.tail + 1), v.tail_at)

  push_by :
      n ≤ length item
      → used xs + (4 + n) < rq.size
      → push rq item n
        ≡ (if leb rq.head rq.tail then push_round rq item n else push_straight rq item n)
  unfolding push
  push_by enough fits = ground (arith, mod-eq-wrap rq.size (rq.tail + 1), v.tail_at, v.small)

  -- Where the item goes in one piece.
  stored_straight :
      n ≤ length item
      → used xs + (4 + n) < rq.size
      → rq.tail + (4 + n) < rq.size
      → (g : ℕ → ℕ) × (push rq item n ≡ ok (true, after rq g n))
        × Holds (after rq g n) (xs ++ (take n item ∷ []))
  stored_straight enough fits near =
      let e : length (take n item) ≡ n = omega (arith, length-take n item) in
      (
        write (store_int rq.mem rq.tail n) (rq.tail + 4) (take n item),
        push_by enough fits
            ∙ ground (
              arith,
              push_round-straight rq item n v.room_is enough near,
              push_straight_lem rq item n v.room_is enough near,
            ),
        Holds-after _ (take n item) v e fits (
            rw e at (
              straight-Wrote rq.mem rq.size rq.tail (omega arith) (take n item) (omega arith)
                (omega (arith, v.small)))),
      )

  -- Where the length comes up to the end.
  stored_jump :
      n ≤ length item
      → used xs + (4 + n) < rq.size
      → rq.size ≤ rq.tail + 4
      → rq.head ≤ rq.tail
      → (g : ℕ → ℕ) × (push rq item n ≡ ok (true, after rq g n))
        × Holds (after rq g n) (xs ++ (take n item ∷ []))
  stored_jump enough fits far behind =
      let e : length (take n item) ≡ n = omega (arith, length-take n item) in
      (
        write (store_int rq.mem rq.tail n) (rq.tail + 4 - rq.size) (take n item),
        push_by enough fits
            ∙ rw (le→leb rq.head rq.tail behind) (
                push_round-jump rq item n v.room_is enough (ground (arith, v.tail_at)) far
                  (omega arith)),
        Holds-after _ (take n item) v e fits (
            rw e at (
              jump-Wrote rq.mem rq.size rq.tail (ground (arith, v.tail_at)) (take n item) far
                (omega arith) (omega (arith, v.small)))),
      )

  -- Where the item itself comes up to the end.
  stored_split :
      {k : ℕ}
      → n ≤ length item
      → used xs + (4 + n) < rq.size
      → rq.tail + 4 + k ≡ rq.size
      → 0 < k
      → k ≤ n
      → rq.head ≤ rq.tail
      → (g : ℕ → ℕ) × (push rq item n ≡ ok (true, after rq g n))
        × Holds (after rq g n) (xs ++ (take n item ∷ []))
  stored_split {k} enough fits near some_ short behind =
      let e : length (take n item) ≡ n = omega (arith, length-take n item) in
      let k_n : k + (n - k) ≡ n = omega arith in
      (
        write (write (store_int rq.mem rq.tail n) (rq.tail + 4) (take k item)) 0
            (take (n - k) (drop k item)),
        push_by enough fits
            ∙ rw (le→leb rq.head rq.tail behind) (
                push_round-split rq item n v.room_is enough (omega arith) near some_ short
                  (omega arith)),
        Holds-after _ (take n item) v e fits (
            rw (take-append-take-drop k (n - k) item, k_n) at
              (split-Wrote rq.mem rq.size rq.tail (omega arith) (take k item)
                (take (n - k) (drop k item)) {n = n}
                (omega (
                  arith,
                  length-take k item,
                  length-take (n - k) (drop k item),
                  length-drop k item,
                ))
                (omega arith) (omega (arith, length-take k item)) (omega arith)
                (omega (arith, v.small)))),
      )

  -- `ringq_push` of an item for which a well-formed ring has room works, and puts the bytes of the
  -- item behind the others.
  pub push-stored :
      n ≤ length item
      → used xs + (4 + n) < rq.size
      → (g : ℕ → ℕ) × (push rq item n ≡ ok (true, after rq g n))
        × Holds (after rq g n) (xs ++ (take n item ∷ []))
  push-stored enough fits = elim (dec_lt (rq.tail + (4 + n)) rq.size) [
    | yes near ↦ stored_straight enough fits near
    | no far ↦ elim (dec_lt (rq.tail + 4) rq.size) [
      | yes short ↦
          stored_split {k = rq.size - (rq.tail + 4)} enough fits (omega arith) (omega arith)
            (omega arith) (ground (arith, v.tail_at))
      | no long ↦ stored_jump enough fits (omega arith) (ground (arith, v.tail_at))
    ]
  ]
