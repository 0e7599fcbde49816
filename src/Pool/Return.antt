-- ===== src/Pool/Return.antt =====
-- `mpool_put` on a well-formed pool.
use mathlib.Core.List.{append_assoc}
use ebot.Base.{
  ℕ, suc, ◌+◌, ◌-◌, ◌≤◌, ◌≡◌, refl, sym, ap, ◌∙◌, true, false, List, [], ◌∷◌, ◌++◌, arith, length,
  length-append, Returns, ok, exits, eq→==, Bool, ◌⊎◌,
}
use ebot.Pool.{Pool, Slab, header, put}
use ebot.Pool.Links.{
  last, Links, NotIn, Distinct, Flags, All, NotIn-append, NotIn-front, NotIn-back, Links-keep,
  Links-back, Flags-update, last-append, All-last, All-front, All-back,
}
use ebot.Pool.Valid.{Valid, Within, inside-Within}
use ebot.Pool.Put.{
  in_range, back_at, Distinct-mid, Links-returned, Flags-returned, Flags-returned_self, put_at_head,
  put_last, put_middle,
}

All-mid :
    (P : ℕ → Type 0) (xs : List ℕ) (s : ℕ) (ys : List ℕ)
    → All P (xs ++ (s ∷ ys))
    → P s × All P (xs ++ ys)
All-mid P [] s ys h = h
All-mid P (x ∷ xs) s ys h = let (p, rest) = All-mid P xs s ys h.1 in (p, (h.0, rest))

Flags-mid :
    (m : ℕ → Slab) (b : Bool) (xs : List ℕ) (s : ℕ) (ys : List ℕ)
    → Flags m b (xs ++ (s ∷ ys))
    → ((m s).used ≡ b) × Flags m b (xs ++ ys)
Flags-mid m b [] s ys f = f
Flags-mid m b (x ∷ xs) s ys f = let (g, rest) = Flags-mid m b xs s ys f.1 in (g, (f.0, rest))

length-mid : (xs : List ℕ) (s : ℕ) (ys : List ℕ) → length (xs ++ (s ∷ ys)) ≡ suc (length (xs ++ ys))
length-mid [] s ys = refl
length-mid (x ∷ xs) s ys = ap suc (length-mid xs s ys)

regroup :
    (free b1 : List ℕ) {l : List ℕ} (zs : List ℕ) → free ++ b1 ≡ l → free ++ (b1 ++ zs) ≡ l ++ zs
regroup free b1 zs e = sym (append_assoc free b1 zs) ∙ ap (λ l. l ++ zs) e

module _ {mp : Pool} {free : List ℕ} (b1 : List ℕ) (s : ℕ) (ys : List ℕ)
    (v : Valid mp free (b1 ++ (s ∷ ys))) (x : ℕ) (xs : List ℕ) (e : free ++ b1 ≡ x ∷ xs) where
  Valid-back :
      (t : ℕ)
      → t ≡ last s ((x ∷ xs) ++ ys)
      → Valid (back_at mp s (last x xs) x t ys) (s ∷ free) (b1 ++ ys)
  Valid-back t et =
      let c = regroup free b1 ys e in
      let d : Distinct ((x ∷ xs) ++ (s ∷ ys)) = rw (regroup free b1 (s ∷ ys) e) at v.distinct in
      let o = All-mid (Within mp) (x ∷ xs) s ys (rw (regroup free b1 (s ∷ ys) e) at v.owned) in
      let (sx, sy, dx) = Distinct-mid (x ∷ xs) s ys d in
      let out : NotIn s ((x ∷ xs) ++ ys) = NotIn-append s (x ∷ xs) ys sx sy in
      let out' : NotIn s (free ++ (b1 ++ ys)) = rw c out in
      record {
        links =
            rw c (Links-returned mp.slabs x xs s ys d (rw (regroup free b1 (s ∷ ys) e) at v.links));
        head_at = refl;
        tail_at = rw c et;
        distinct = rw c (out, dx);
        owned = rw c o;
        idle = (
          (Flags-returned_self mp.slabs s (last x xs) x ys).0,
          Flags-returned mp.slabs s (last x xs) x ys false free (NotIn-front s free (b1 ++ ys) out')
              v.idle,
        );
        taken =
            Flags-returned mp.slabs s (last x xs) x ys true (b1 ++ ys)
              (NotIn-back s free (b1 ++ ys) out') (Flags-mid mp.slabs true b1 s ys v.taken).1;
        counted =
            omega
              (arith, length-mid b1 s ys, v.counted, v.few, length-append free (b1 ++ (s ∷ ys)));
        few = omega (
          arith,
          length-mid b1 s ys,
          v.few,
          length-append free (b1 ++ (s ∷ ys)),
          length-append free (b1 ++ ys),
        );
        placed = v.placed;
        sized = v.sized;
      }

  -- The three facts of the code's pointers that the branches turn on.
  Links-at : Links mp.slabs (last x xs) (s ∷ ys) 0
  Links-at = Links-back mp.slabs 0 (x ∷ xs) (s ∷ ys) 0 (rw (regroup free b1 (s ∷ ys) e) at v.links)

  owned_at : All (Within mp) ((x ∷ xs) ++ (s ∷ ys))
  owned_at = rw (regroup free b1 (s ∷ ys) e) at v.owned

  hd : mp.head ≡ x
  hd = v.head_at ∙ (rw (regroup free b1 (s ∷ ys) e))

-- The slab behind `s` is the last, or not.
put_inner :
    {mp : Pool} {free : List ℕ} (b1 : List ℕ) (s : ℕ) (ys : List ℕ)
    → Valid mp free (b1 ++ (s ∷ ys))
    → (x : ℕ) (xs : List ℕ) → free ++ b1 ≡ x ∷ xs
    → Returns (λ mp'. Valid mp' (s ∷ free) (b1 ++ ys)) (put mp (s + header))
put_inner {mp} b1 s [] v x xs e =
    let l = Links-at b1 s [] v x xs e in
    let o = owned_at b1 s [] v x xs e in
    let w : Within mp s = (All-mid (Within mp) (x ∷ xs) s [] o).0 in
    let wp : Within mp (last x xs) =
      All-last (Within mp) x xs (All-front (Within mp) (x ∷ xs) (s ∷ []) o) in
    let b : (mp.slabs s).used ≡ true = (Flags-mid mp.slabs true b1 s [] v.taken).0 in
    let h : mp.head ≡ x = hd b1 s [] v x xs e in
    rw
      (put_last mp s w v.sized b (rw l.0 (ground (arith, v.placed))) (rw l.1)
          (rw l.0 (inside-Within mp (last x xs) wp)) (rw h (inside-Within mp x o.0))
        ∙ (λ i. ok (back_at mp s (l.0 i) (h i) (l.0 i) [])))
      (Valid-back b1 s [] v x xs e (last x xs) (sym (last-append x xs [])))
put_inner {mp} {free} b1 s (y ∷ ys) v x xs e =
    let l = Links-at b1 s (y ∷ ys) v x xs e in
    let o = owned_at b1 s (y ∷ ys) v x xs e in
    let w : Within mp s = (All-mid (Within mp) (x ∷ xs) s (y ∷ ys) o).0 in
    let wp : Within mp (last x xs) =
      All-last (Within mp) x xs (All-front (Within mp) (x ∷ xs) (s ∷ y ∷ ys) o) in
    let wy : Within mp y = (All-back (Within mp) (x ∷ xs) (s ∷ y ∷ ys) o).1.0 in
    let b : (mp.slabs s).used ≡ true = (Flags-mid mp.slabs true b1 s (y ∷ ys) v.taken).0 in
    let h : mp.head ≡ x = hd b1 s (y ∷ ys) v x xs e in
    let tail_same : last 0 (free ++ (b1 ++ (s ∷ y ∷ ys))) ≡ last s ((x ∷ xs) ++ (y ∷ ys)) =
      rw (
        regroup free b1 (s ∷ y ∷ ys) e,
        last-append x xs (s ∷ y ∷ ys),
        last-append x xs (y ∷ ys),
      ) in
    rw
      (put_middle mp s w v.sized b ys (rw l.0 (ground (arith, v.placed)))
          (rw l.1 (ground (arith, v.placed))) (rw l.0 (inside-Within mp (last x xs) wp))
          (rw l.1 (inside-Within mp y wy)) (rw h (inside-Within mp x o.0))
        ∙ (λ i. ok (back_at mp s (l.0 i) (h i) mp.tail (l.1 i ∷ ys))))
      (Valid-back b1 s (y ∷ ys) v x xs e mp.tail (v.tail_at ∙ tail_same))

-- The only list of the pool's slabs begins with `s`: nothing is relinked.
put_front :
    {mp : Pool} (s : ℕ) (ys : List ℕ)
    → Valid mp [] (s ∷ ys)
    → Returns (λ mp'. Valid mp' (s ∷ []) ys) (put mp (s + header))
put_front {mp} s ys v =
    let k : Slab = record (mp.slabs s) { used = false } in
    rw (put_at_head mp s v.owned.0 v.sized v.taken.0 v.links.0) (record {
      links = Links-keep mp.slabs s k 0 (s ∷ ys) 0 refl refl v.links;
      head_at = v.head_at;
      tail_at = v.tail_at;
      distinct = v.distinct;
      owned = v.owned;
      idle = (rw (eq→== s s refl), tt);
      taken = Flags-update mp.slabs s k true ys v.distinct.0 v.taken.1;
      counted = omega (arith, v.counted, v.few);
      few = v.few;
      placed = v.placed;
      sized = v.sized;
    })

-- `mpool_put` of the pointer of a busy slab of a valid pool makes that slab the first free one,
-- leaves the others in their order, and keeps the pool valid.
pub put-busy :
    {mp : Pool} (free : List ℕ) (b1 : List ℕ) (s : ℕ) (ys : List ℕ)
    → Valid mp free (b1 ++ (s ∷ ys))
    → Returns (λ mp'. Valid mp' (s ∷ free) (b1 ++ ys)) (put mp (s + header))
put-busy [] [] s ys v = put_front s ys v
put-busy [] (b ∷ b1) s ys v = put_inner (b ∷ b1) s ys v b b1 refl
put-busy (f ∷ fs) b1 s ys v = put_inner b1 s ys v f (fs ++ b1) refl

-- In a valid pool `mpool_put` of the pointer of a slab that is already free changes nothing.
pub put-idle :
    {mp : Pool} (f1 : List ℕ) (s : ℕ) (f2 : List ℕ) {busy : List ℕ}
    → Valid mp (f1 ++ (s ∷ f2)) busy
    → put mp (s + header) ≡ ok mp
unfolding put
put-idle {mp} f1 s f2 {busy} v =
    let e : s + 24 - 24 ≡ s = omega arith in
    let o = (All-mid (Within mp) f1 s f2 (All-front (Within mp) (f1 ++ (s ∷ f2)) busy v.owned)).0 in
    let r = in_range mp s o v.sized in
    let b = (Flags-mid mp.slabs false f1 s f2 v.idle).0 in
    simp (r.0, r.1, e, inside-Within mp s o, b)

-- `mpool_put` of a pointer that is not behind the start of the pool's block, or not before its end,
-- fails its `assert`.
pub put-outside : (mp : Pool) (p : ℕ) → (p ≤ mp.mem) ⊎ (mp.mem + mp.size ≤ p) → put mp p ≡ exits
unfolding put
put-outside mp p out = ground arith
