-- ===== src/Pool/New.antt =====
-- `mpool_new` and its loop.
use ebot.Pool.Growing.{
  pile, Growing, NotIn-below, Flags-all, length-pile, grown, Links-grown, Growing-grown,
}
use mathlib.Core.List.{append-nil}
use mathlib.Core.Path.{subst}
use ebot.Base.{
  ℕ, zero, suc, ◌+◌, ◌*◌, ◌<◌, ◌^◌, ◌≡◌, refl, ap, ◌∙◌, true, false, some, List, [], ◌∷◌, arith,
  length, ◌==◌, Run, Returns, ok, exits, fault, waits, ◌>>=◌, ne→not_==, ltb, lt→ltb, le→not_ltb,
  if◌then◌else◌,
}
use ebot.Pool.{Pool, inside, header, stride, new, new_loop}
use ebot.Pool.Links.{Links}
use ebot.Pool.Valid.{Valid, Within, inside-Within}

module _ (mp : Pool) (cur k : ℕ) (ic : inside mp cur ≡ true) where
  round_first :
      (mp.head == 0) ≡ true
      → new_loop (suc k) mp cur ≡ (
          if ltb (cur + stride mp) (mp.mem + mp.size)
          then new_loop k (grown mp cur [] (cur + stride mp)) (cur + stride mp)
          else ok (grown mp cur [] 0))
  unfolding new_loop
  round_first n = simp (n, ic)

  round_next :
      (xs : List ℕ)
      → (mp.head == 0) ≡ false
      → inside mp mp.head ≡ true
      → new_loop (suc k) mp cur ≡ (
          if ltb (cur + stride mp) (mp.mem + mp.size)
          then new_loop k (grown mp cur (mp.head ∷ xs) (cur + stride mp)) (cur + stride mp)
          else ok (grown mp cur (mp.head ∷ xs) 0))
  unfolding new_loop
  round_next xs n ih = simp (n, ih, ic)

-- One round of the loop comes to `grown`.
new_round :
    (mp : Pool) (cur : ℕ) (xs : List ℕ) (k : ℕ)
    → Within mp cur
    → Growing mp cur xs
    → new_loop (suc k) mp cur ≡ (
        if ltb (cur + stride mp) (mp.mem + mp.size)
        then new_loop k (grown mp cur xs (cur + stride mp)) (cur + stride mp)
        else ok (grown mp cur xs 0))
new_round mp cur [] k w g = round_first mp cur k (inside-Within mp cur w) (rw g.head_at)
new_round mp cur (x ∷ xs) k w g =
    let hd : mp.head ≡ x = g.head_at in
    round_next mp cur k (inside-Within mp cur w) xs (rw hd (ground (arith, g.owned.0, g.placed)))
      (rw hd (inside-Within mp x g.owned.0))
    ∙ (λ i.
        if ltb (cur + stride mp) (mp.mem + mp.size)
        then new_loop k (grown mp cur (hd i ∷ xs) (cur + stride mp)) (cur + stride mp)
        else ok (grown mp cur (hd i ∷ xs) 0))

size-grown :
    (mp : Pool) (cur : ℕ) (xs : List ℕ) (p : ℕ)
    → ((grown mp cur xs p).mem ≡ mp.mem)
      × ((grown mp cur xs p).size ≡ mp.size)
      × ((grown mp cur xs p).slab_size ≡ mp.slab_size)
      × ((grown mp cur xs p).slab_used ≡ mp.slab_used)
      × ((grown mp cur xs p).held ≡ mp.held)
size-grown mp cur [] p = (refl, refl, refl, refl, refl)
size-grown mp cur (x ∷ xs) p = (refl, refl, refl, refl, refl)

-- A grown pool whose list ends in front is well formed, with every slab free.
Growing-Valid :
    (mp : Pool) (cur : ℕ) (x : ℕ) (xs : List ℕ)
    → Links mp.slabs 0 (x ∷ xs) 0
    → Growing mp cur (x ∷ xs)
    → 0 < mp.slab_size
    → mp.slab_used ≡ 0
    → suc (length xs) < 2 ^ 32
    → Valid mp (x ∷ xs) []
Growing-Valid mp cur x xs l g sized used few =
    let e = append-nil xs in
    record {
      links = rw e l;
      head_at = g.head_at;
      tail_at = rw e (g.tail_at (λ c. omega (arith, ap length c)));
      distinct = rw e g.distinct;
      owned = rw e g.owned;
      idle = Flags-all mp.slabs false (x ∷ xs) g.idle;
      taken = tt;
      counted = used;
      few = rw e few;
      placed = g.placed;
      sized = sized;
    }

-- With rounds enough, the loop makes the slabs that are left and ends.
new_loop-Valid :
    (fuel k step : ℕ) (mp : Pool) (cur : ℕ) (xs : List ℕ)
    → stride mp ≡ step
    → k < fuel
    → Growing mp cur xs
    → mp.mem + mp.size ≡ cur + (step + k * step)
    → 0 < mp.slab_size
    → mp.slab_used ≡ 0
    → suc k + length xs < 2 ^ 32
    → mp.held ≡ false
    → Returns (λ mp'. Valid mp' (pile step cur k xs) [] × (mp'.held ≡ false)) (new_loop fuel mp cur)
new_loop-Valid zero k step mp cur xs st enough g left sized used few unheld = absurd (omega arith)
new_loop-Valid (suc fuel) zero step mp cur xs st enough g left sized used few unheld =
    let w : Within mp cur = (g.start, omega arith) in
    let same = size-grown mp cur xs 0 in
    rw (new_round mp cur xs fuel w g, le→not_ltb (cur + stride mp) (mp.mem + mp.size) (omega arith))
      (
        Growing-Valid (grown mp cur xs 0) (cur + stride mp) cur xs
            (Links-grown mp cur xs 0 g.before g.links (NotIn-below cur xs g.below) g.distinct
              (λ e. g.fresh cur (omega arith)))
            (Growing-grown mp cur xs 0 w g) (omega (arith, same.2)) (omega (arith, same.3))
            (omega arith),
        same.4 ∙ unheld,
      )
new_loop-Valid (suc fuel) (suc k) step mp cur xs st enough g left sized used few unheld =
    let w : Within mp cur = (g.start, omega arith) in
    let same = size-grown mp cur xs (cur + stride mp) in
    let m : suc k * step ≡ step + k * step = omega arith in
    rw (new_round mp cur xs fuel w g, lt→ltb (cur + stride mp) (mp.mem + mp.size) (omega arith))
      (subst
        (λ z.
          Returns (λ mp'. Valid mp' (pile step (cur + z) k (cur ∷ xs)) [] × (mp'.held ≡ false))
            (new_loop fuel (grown mp cur xs (cur + stride mp)) (cur + stride mp)))
        st
        (new_loop-Valid fuel k step (grown mp cur xs (cur + stride mp)) (cur + stride mp) (cur ∷ xs)
          (omega (arith, same.2)) (omega arith) (Growing-grown mp cur xs (cur + stride mp) w g)
          (rw (same.0, same.1) (omega (arith, left))) (omega (arith, same.2))
          (omega (arith, same.3)) (omega arith) (same.4 ∙ unheld)))

-- The pool as `mpool_new` has it in front of the loop.
abbrev blank : (k slab_size mem : ℕ) → Pool
blank k slab_size mem = record {
  mem = mem;
  size = suc k * (header + slab_size);
  head = 0;
  tail = 0;
  slab_num = suc k;
  slab_size = slab_size;
  slab_used = 0;
  slabs = λ _. record { used = false; prev = 0; next = 0 };
  held = false;
}

Growing-blank : (k slab_size mem : ℕ) → 0 < mem → Growing (blank k slab_size mem) mem []
Growing-blank k slab_size mem placed = record {
  before = 0;
  links = tt;
  head_at = refl;
  tail_at = λ n. refl;
  below = tt;
  distinct = tt;
  owned = tt;
  idle = λ a. refl;
  fresh = λ a h. refl;
  placed = placed;
  start = omega arith;
}

returned_pool :
    (r : Run Pool) (free : List ℕ) {n : ℕ}
    → Returns (λ mp. Valid mp free [] × (mp.held ≡ false)) r
    → length free ≡ n
    → Returns
        (λ o.
          (mp : Pool) × (l : List ℕ) × (o ≡ some mp)
          × Valid mp l []
          × (length l ≡ n)
          × (mp.held ≡ false))
        (r >>= λ mp. ok (some mp))
returned_pool (ok mp) free (v, o) e = (mp, free, refl, v, e, o)
returned_pool exits free v e = absurd v
returned_pool fault free v e = absurd v
returned_pool waits free v e = absurd v

-- `mpool_new` with memory, for some slabs of some bytes each and fewer than `2 ^ 32`, comes to its
-- end with a valid pool of `slab_num` free slabs, none busy, and its mutex free.
pub new-Valid :
    (slab_num slab_size mem : ℕ)
    → 0 < slab_num
    → slab_num < 2 ^ 32
    → 0 < slab_size
    → 0 < mem
    → Returns
        (λ r.
          (mp : Pool) × (free : List ℕ) × (r ≡ some mp)
          × Valid mp free []
          × (length free ≡ slab_num)
          × (mp.held ≡ false))
        (new slab_num slab_size mem)
unfolding new
new-Valid zero slab_size mem some_ few sized placed = absurd (omega arith)
new-Valid (suc k) slab_size mem some_ few sized placed = rw (ne→not_== mem 0 (omega arith)) (
    returned_pool _ _
      (new_loop-Valid (suc k + 1) k (header + slab_size) (blank k slab_size mem) mem [] refl
        (omega arith) (Growing-blank k slab_size mem placed) (omega arith) sized refl (omega arith)
        refl)
      (omega (arith, length-pile (header + slab_size) mem k [])))
