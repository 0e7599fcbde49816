-- ===== src/Pool/Moves.antt =====
-- One call of the pool under its mutex, against what the pool promises.
use mathlib.Core.Quot
use mathlib.Core.Path.{subst, subst⁻¹}
use ebot.Base.{
  ℕ, ◌+◌, ◌<◌, ◌≡◌, refl, sym, ap, ◌∙◌, Bool, true, false, Option, some, List, [], ◌∷◌, ◌++◌, arith,
  length, length-append, Returns, Returns-bind, Returns-ok, ok, tally, tally-append, ℕ_discrete,
  Bag, bag, insert, bag_mid, tally_split, tally-times, times-insert_self, insert_cancel,
}
use ebot.Pool.{Pool, header, lock, unlock, get, put, get_with_lock, put_with_lock}
use ebot.Pool.Get.{get-free, get-none}
use ebot.Pool.Locked.{hold}
use ebot.Pool.Return.{put-busy, put-idle}
use ebot.Pool.Valid.{Valid}
use ebot.Pool.Session.{Call, take, give, view, Step, taken, used_up, given, again}

-- The same slabs, each once.
abbrev pub Same : (l m : List ℕ) → Type 0
Same l m = (length m ≡ length l) × ((a : ℕ) → tally m a ≡ tally l a)

Valid-held :
    {mp : Pool} {free busy : List ℕ} (b : Bool)
    → Valid mp free busy
    → Valid (record mp { held = b }) free busy
Valid-held b v = record {
  links = v.links;
  head_at = v.head_at;
  tail_at = v.tail_at;
  distinct = v.distinct;
  owned = v.owned;
  idle = v.idle;
  taken = v.taken;
  counted = v.counted;
  few = v.few;
  placed = v.placed;
  sized = v.sized;
}

-- What a call has done: a step of the allocator, in a pool that is still well formed.
abbrev pub Stepped : (free busy : List ℕ) → Call → List (Option ℕ) → Pool → Type 0
Stepped free busy c out mp =
    (f : List ℕ) × (b : List ℕ) × Valid mp f b
    × (mp.held ≡ false)
    × Same (free ++ busy) (f ++ b)
    × Step (view free busy) c out (view f b)

Same-moved : (s : ℕ) (fs bs : List ℕ) → Same ((s ∷ fs) ++ bs) (fs ++ (bs ++ (s ∷ [])))
Same-moved s fs bs = (
  omega (arith, length-append fs bs, length-append fs (bs ++ (s ∷ [])), length-append bs (s ∷ [])),
  λ a.
      omega (
        arith,
        tally-append fs bs a,
        tally-append fs (bs ++ (s ∷ [])) a,
        tally-append bs (s ∷ []) a,
      ),
)

bag_snoc : (s : ℕ) (bs : List ℕ) → bag (bs ++ (s ∷ [])) ≡ insert s (bag bs)
bag_snoc s bs = Quot.sound λ a. omega (arith, tally-append bs (s ∷ []) a)

pub get_with_lock-Stepped :
    {mp : Pool} (free busy : List ℕ)
    → Valid mp free busy
    → mp.held ≡ false
    → 1 < length (free ++ busy)
    → Returns (λ (p, mp'). Stepped free busy take (p ∷ []) mp') (get_with_lock mp)
unfolding get_with_lock lock unlock
get_with_lock-Stepped {mp} [] [] v h more = absurd (omega arith)
get_with_lock-Stepped {mp} [] (b ∷ bs) v h more =
    rw (h, get-none (Valid-held true v))
      ([], b ∷ bs, Valid-held false v, refl, (refl, λ a. refl), used_up (bag (b ∷ bs)))
get_with_lock-Stepped {mp} (s ∷ fs) bs v h more = rw h (
    Returns-bind _ _ (get (hold mp)) (λ (p, q). ok (p, unlock q))
      (get-free (Valid-held true v) (omega arith))
      λ (p, q) (e, v'). (
        fs,
        bs ++ (s ∷ []),
        Valid-held false v',
        refl,
        Same-moved s fs bs,
        rw (e, bag_snoc s bs) (taken s (bag fs) (bag bs)),
      ))

Same-back :
    (s : ℕ) (free b1 ys : List ℕ) → Same (free ++ (b1 ++ (s ∷ ys))) ((s ∷ free) ++ (b1 ++ ys))
Same-back s free b1 ys = (
  omega (
    arith,
    length-append free (b1 ++ (s ∷ ys)),
    length-append free (b1 ++ ys),
    length-append b1 (s ∷ ys),
    length-append b1 ys,
  ),
  λ a. omega (
    arith,
    tally-append free (b1 ++ (s ∷ ys)) a,
    tally-append free (b1 ++ ys) a,
    tally-append b1 (s ∷ ys) a,
    tally-append b1 ys a,
  ),
)

module _ {mp : Pool} (h : mp.held ≡ false) where
  give_busy :
      (free b1 : List ℕ) (s : ℕ) (ys : List ℕ)
      → Valid mp free (b1 ++ (s ∷ ys))
      → Returns (Stepped free (b1 ++ (s ∷ ys)) (give s) []) (put_with_lock mp (s + header))
  unfolding put_with_lock lock unlock
  give_busy free b1 s ys v = rw h (
      Returns-bind _ _ (put (hold mp) (s + header)) (λ q. ok (unlock q))
        (put-busy free b1 s ys (Valid-held true v))
        λ q v'. (
          s ∷ free,
          b1 ++ ys,
          Valid-held false v',
          refl,
          Same-back s free b1 ys,
          rw (bag_mid b1 s ys) (given s (bag free) (bag (b1 ++ ys))),
        ))

  give_idle :
      (f1 : List ℕ) (s : ℕ) (f2 busy : List ℕ)
      → Valid mp (f1 ++ (s ∷ f2)) busy
      → Returns (Stepped (f1 ++ (s ∷ f2)) busy (give s) []) (put_with_lock mp (s + header))
  unfolding put_with_lock lock unlock
  give_idle f1 s f2 busy v =
      rw (h, put-idle f1 s f2 (Valid-held true v))
        (
          f1 ++ (s ∷ f2),
          busy,
          Valid-held false v,
          refl,
          (refl, λ a. refl),
          rw (bag_mid f1 s f2) (again s (bag (f1 ++ f2)) (bag busy)),
        )

  pub put_with_lock-Stepped :
      (free busy : List ℕ) (s : ℕ)
      → Valid mp free busy
      → 0 < tally (free ++ busy) s
      → Returns (Stepped free busy (give s) []) (put_with_lock mp (s + header))
  put_with_lock-Stepped free busy s v own = elim (ℕ_discrete (tally free s) 0) [
    | yes none_free ↦
        let (l, r, e) = tally_split s busy (omega (arith, tally-append free busy s, own)) in
        subst⁻¹ (λ z. Returns (Stepped free z (give s) []) (put_with_lock mp (s + header))) e
          (give_busy free l s r (subst (λ z. Valid mp free z) e v))
    | no is_free ↦
        let (l, r, e) = tally_split s free (omega (arith, is_free)) in
        subst⁻¹ (λ z. Returns (Stepped z busy (give s) []) (put_with_lock mp (s + header))) e
          (give_idle l s r busy (subst (λ z. Valid mp z busy) e v))
  ]

-- A pool whose mutex is free, with just these slabs free and busy, in some order.
abbrev pub Has : (free busy : Bag) → Pool → Type 0
Has free busy mp =
    (f : List ℕ) × (b : List ℕ) × Valid mp f b × (mp.held ≡ false) × (bag f ≡ free) × (bag b ≡ busy)

-- `mpool_put_with_lock` of a busy slab's data.
pub put_with_lock-Has :
    {mp : Pool} (free rest : Bag) (s : ℕ)
    → Has free (insert s rest) mp
    → Returns (Has (insert s free) rest) (put_with_lock mp (s + header))
unfolding put_with_lock lock unlock
put_with_lock-Has {mp} free rest s (f, b, v, h, ef, eb) =
    let own : 0 < tally b s =
      omega (arith, tally-times b (insert s rest) s eb, times-insert_self s rest) in
    let (l, r, e) = tally_split s b own in
    let v' : Valid mp f (l ++ (s ∷ r)) = subst (λ z. Valid mp f z) e v in
    let same : bag (l ++ r) ≡ rest =
      insert_cancel s (l ++ r) rest (sym (ap bag e ∙ bag_mid l s r) ∙ eb) in
    rw h (
      Returns-bind _ _ (put (hold mp) (s + header)) (λ q. ok (unlock q))
        (put-busy f l s r (Valid-held true v'))
        λ q w. (s ∷ f, l ++ r, Valid-held false w, refl, ap (insert s) ef, same))

-- `mpool_get_with_lock` with a free slab.
pub get_with_lock-Has :
    {mp : Pool} (s : ℕ) (free busy : List ℕ)
    → Valid mp (s ∷ free) busy
    → mp.held ≡ false
    → 0 < length (free ++ busy)
    → Returns
        (λ (p, mp').
          (p ≡ some (s + header)) × Valid mp' free (busy ++ (s ∷ [])) × (mp'.held ≡ false))
        (get_with_lock mp)
unfolding get_with_lock lock unlock
get_with_lock-Has {mp} s free busy v h more = rw h (
    Returns-bind _ _ (get (hold mp)) (λ (p, q). ok (p, unlock q))
      (get-free (Valid-held true v) more) λ (p, q) (e, v'). (e, Valid-held false v', refl))

pub get_with_lock_lem :
    {mp : Pool} (s : ℕ) (free busy : List ℕ)
    → Valid mp (s ∷ free) busy
    → mp.held ≡ false
    → 0 < length (free ++ busy)
    → (mp' : Pool) × (get_with_lock mp ≡ ok (some (s + header), mp'))
      × Valid mp' free (busy ++ (s ∷ []))
      × (mp'.held ≡ false)
get_with_lock_lem {mp} s free busy v h more =
    let (r, e, (is, v', h')) =
      Returns-ok (get_with_lock mp) (get_with_lock-Has s free busy v h more) in
    (r.1, e ∙ (λ i. ok (is i, r.1)), v', h')
