-- ===== src/Pool/Accounts.antt =====
-- The pool with its books: each of its slabs is either free or among those that are in use.
use mathlib.Core.Quot
use ebot.Base.{
  ℕ, ◌+◌, ◌<◌, ◌≡◌, refl, sym, ap, ◌∙◌, ◌⊎◌, inl, inr, false, none, some, List, [], ◌∷◌, ◌++◌,
  arith, length, Returns-map, Returns, ok, Bag, bag, insert, tally, tally-append, times,
  tally-times, times-insert, same_length,
}
use ebot.Pool.{Pool, header, get_with_lock, put_with_lock}
use ebot.Pool.Get.{get-none}
use ebot.Pool.Links.{NotIn, NotIn-back}
use ebot.Pool.Locked.{with_lock_lem}
use ebot.Pool.Moves.{put_with_lock-Has, get_with_lock_lem}
use ebot.Pool.Valid.{Valid}

-- `slabs` are the slabs of the pool, in some order, and `busy` those in use; the mutex is free.
abbrev pub Owns : (slabs : List ℕ) (busy : Bag) → Pool → Type 0
Owns slabs busy mp =
    (f : List ℕ) × (b : List ℕ) × Valid mp f b
    × (mp.held ≡ false)
    × (bag b ≡ busy)
    × ((a : ℕ) → tally (f ++ b) a ≡ tally slabs a)

pub NotIn-tally : (a : ℕ) (xs : List ℕ) → NotIn a xs → tally xs a ≡ 0
NotIn-tally a [] out = refl
NotIn-tally a (x ∷ xs) out = ground (arith, NotIn-tally a xs out.1, out.0)

bag_snoc : (s : ℕ) (xs : List ℕ) → bag (xs ++ (s ∷ [])) ≡ insert s (bag xs)
bag_snoc s xs = Quot.sound λ a. omega (arith, tally-append xs (s ∷ []) a)

-- What is given back is not in use any more.
pub put_with_lock-Owns :
    {mp : Pool} (slabs : List ℕ) (rest : Bag) (s : ℕ)
    → Owns slabs (insert s rest) mp
    → Returns (Owns slabs rest) (put_with_lock mp (s + header))
put_with_lock-Owns {mp} slabs rest s (f, b, v, h, eb, all) =
    Returns-map (put_with_lock mp (s + header))
      (λ mp' (f', b', v', h', ef', eb'). (
        f',
        b',
        v',
        h',
        eb',
        λ a. omega (
          arith,
          all a,
          tally-append f b a,
          tally-append f' b' a,
          tally-times f' (insert s (bag f)) a ef',
          tally-times f (bag f) a refl,
          tally-times b (insert s rest) a eb,
          tally-times b' rest a eb',
          times-insert a s (bag f),
          times-insert a s rest,
        ),
      ))
      (put_with_lock-Has (bag f) rest s (f, b, v, h, refl, eb))

-- `mpool_get_with_lock` gives a slab that was not in use, or `NULL`.
pub get_with_lock-Owns :
    {mp : Pool} (slabs : List ℕ) (busy : Bag)
    → Owns slabs busy mp
    → 1 < length slabs
    → (get_with_lock mp ≡ ok (none, mp))
      ⊎ ((s : ℕ) × (mp' : Pool) × (get_with_lock mp ≡ ok (some (s + header), mp'))
          × Owns slabs (insert s busy) mp'
          × (times s busy ≡ 0))
get_with_lock-Owns {mp} slabs busy ([], [], v, h, eb, all) more =
    absurd (omega (arith, more, same_length [] slabs (Quot.sound all)))
get_with_lock-Owns {mp} slabs busy ([], b ∷ bs, v, h, eb, all) more =
    inl ((with_lock_lem mp 0 h).0 ∙ get-none v)
get_with_lock-Owns {mp} slabs busy (s ∷ f, b, v, h, eb, all) more =
    let len : length ((s ∷ f) ++ b) ≡ length slabs =
      same_length ((s ∷ f) ++ b) slabs (Quot.sound all) in
    let (mp', e, v', h') = get_with_lock_lem s f b v h (omega (arith, len, more)) in
    inr (
      s,
      mp',
      e,
      (
        f,
        b ++ (s ∷ []),
        v',
        h',
        bag_snoc s b ∙ ap (insert s) eb,
        λ a. omega (
          arith,
          all a,
          tally-append (s ∷ f) b a,
          tally-append f (b ++ (s ∷ [])) a,
          tally-append b (s ∷ []) a,
        ),
      ),
      sym (tally-times b busy s eb) ∙ NotIn-tally s b (NotIn-back s f b v.distinct.0),
    )
