-- ===== src/Pool/Put.antt =====
-- The lists of slabs before and after `mpool_put` takes one back.
use ebot.Base.{
  ℕ, ◌+◌, ◌-◌, ◌%◌, ◌^◌, ◌<◌, ◌≡◌, ◌≢◌, refl, sym, ap, ◌∙◌, true, false, List, [], ◌∷◌, ◌++◌, arith,
  ◌==◌, ok, eq→==, ne→not_==, Bool, ltb,
}
use ebot.Pool.{Pool, Slab, update, inside, header, put}
use ebot.Pool.Links.{
  last, Links, NotIn, Distinct, Flags, Links-update, Links-prev, Links-next, Links-append,
  Links-front, Links-back, Links-keep, NotIn-append, NotIn-front, Flags-update, Flags-keep,
}
use ebot.Pool.Valid.{Within, inside-Within}

NotIn-mid :
    (a : ℕ) (xs : List ℕ) (s : ℕ) (ys : List ℕ) → NotIn a (xs ++ (s ∷ ys)) → NotIn a (xs ++ ys)
NotIn-mid a [] s ys out = out.1
NotIn-mid a (x ∷ xs) s ys out = (out.0, NotIn-mid a xs s ys out.1)

ne-mid : (a : ℕ) (xs : List ℕ) (s : ℕ) (ys : List ℕ) → NotIn a (xs ++ (s ∷ ys)) → a ≢ s
ne-mid a [] s ys out = out.0
ne-mid a (x ∷ xs) s ys out = ne-mid a xs s ys out.1

pub Distinct-mid :
    (xs : List ℕ) (s : ℕ) (ys : List ℕ)
    → Distinct (xs ++ (s ∷ ys))
    → NotIn s xs × NotIn s ys × Distinct (xs ++ ys)
Distinct-mid [] s ys d = (tt, d.0, d.1)
Distinct-mid (x ∷ xs) s ys d =
    let (l, r, rest) = Distinct-mid xs s ys d.1 in
    ((λ e. ne-mid x xs s ys d.0 (sym e), l), r, (NotIn-mid x xs s ys d.0, rest))

Distinct-front : (xs ys : List ℕ) → Distinct (xs ++ ys) → Distinct xs
Distinct-front [] ys d = tt
Distinct-front (x ∷ xs) ys d = (NotIn-front x xs ys d.0, Distinct-front xs ys d.1)

NotIn-last : (x : ℕ) (xs ys : List ℕ) → Distinct ((x ∷ xs) ++ ys) → NotIn (last x xs) ys
NotIn-last x [] ys d = d.0
NotIn-last x (y ∷ xs) ys d = NotIn-last y xs ys d.1

-- The slabs when what stands in front of `s`, at `p`, is linked to `ys` behind it.
abbrev pub cut : (ℕ → Slab) → ℕ → List ℕ → ℕ → Slab
cut m p [] = update m p (record (m p) { next = 0 })
cut m p (y ∷ ys) =
    update (update m p (record (m p) { next = y })) y
      (record (update m p (record (m p) { next = y }) y) { prev = p })

Links-cut :
    (m : ℕ → Slab) (x : ℕ) (xs : List ℕ) (s : ℕ) (ys : List ℕ)
    → Distinct ((x ∷ xs) ++ ys)
    → Links m 0 (x ∷ xs) s
    → Links m s ys 0
    → Links (cut m (last x xs) ys) 0 ((x ∷ xs) ++ ys) 0
Links-cut m x xs s [] d l r =
    Links-append (cut m (last x xs) []) 0 (x ∷ xs) [] 0
      (Links-next m 0 x xs s 0 (Distinct-front (x ∷ xs) [] d) l) tt
Links-cut m x xs s (y ∷ ys) d l r =
    let (yx, yy, dx) = Distinct-mid (x ∷ xs) y ys d in
    let m' : ℕ → Slab = update m (last x xs) (record (m (last x xs)) { next = y }) in
    Links-append (cut m (last x xs) (y ∷ ys)) 0 (x ∷ xs) (y ∷ ys) 0
      (Links-update m' y (record (m' y) { prev = last x xs }) 0 (x ∷ xs) y yx
        (Links-next m 0 x xs s y (Distinct-front (x ∷ xs) (y ∷ ys) d) l))
      (Links-prev m' s (last x xs) y ys 0 yy (
        Links-update m (last x xs) (record (m (last x xs)) { next = y }) s (y ∷ ys) 0
          (NotIn-last x xs (y ∷ ys) d) r))

-- The slabs when the one at `s`, which had `p` in front and `ys` behind, has moved in front of `h`.
module _ (m : ℕ → Slab) (s p h : ℕ) (ys : List ℕ) where
  abbrev pub cleared : ℕ → Slab
  cleared = update m s (record (m s) { used = false })

  abbrev pub apart : ℕ → Slab
  apart = cut cleared p ys

  abbrev pub leading : ℕ → Slab
  leading = update apart s (record (apart s) { prev = 0 })

  abbrev pub pointing : ℕ → Slab
  pointing = update leading s (record (leading s) { next = h })

  abbrev pub returned : ℕ → Slab
  returned = update pointing h (record (pointing h) { prev = s })

module _ (m : ℕ → Slab) (x : ℕ) (xs : List ℕ) (s : ℕ) (ys : List ℕ)
    (d : Distinct ((x ∷ xs) ++ (s ∷ ys))) where
  pub Links-returned :
      Links m 0 ((x ∷ xs) ++ (s ∷ ys)) 0
      → Links (returned m s (last x xs) x ys) 0 (s ∷ (x ∷ xs) ++ ys) 0
  Links-returned l =
      let (sx, sy, dx) = Distinct-mid (x ∷ xs) s ys d in
      let p = last x xs in
      let k = record (m s) { used = false } in
      let front = Links-keep m s k 0 (x ∷ xs) s refl refl (Links-front m 0 (x ∷ xs) (s ∷ ys) 0 l) in
      let back = Links-keep m s k s ys 0 refl refl (Links-back m 0 (x ∷ xs) (s ∷ ys) 0 l).2 in
      let out : NotIn s ((x ∷ xs) ++ ys) = NotIn-append s (x ∷ xs) ys sx sy in
      let l2 = Links-cut (cleared m s p x ys) x xs s ys dx front back in
      let l3 =
        Links-update (apart m s p x ys) s (record (apart m s p x ys s) { prev = 0 }) 0
          ((x ∷ xs) ++ ys) 0 out l2 in
      let l4 =
        Links-update (leading m s p x ys) s (record (leading m s p x ys s) { next = x }) 0
          ((x ∷ xs) ++ ys) 0 out l3 in
      let at_s : returned m s p x ys s ≡ pointing m s p x ys s = rw (ne→not_== s x sx.0) in
      (
        ap (λ k. k.prev) at_s ∙ (rw (eq→== s s refl)),
        ap (λ k. k.next) at_s ∙ (rw (eq→== s s refl)),
        Links-prev (pointing m s p x ys) 0 s x (xs ++ ys) 0 dx.0 l4,
      )

module _ (m : ℕ → Slab) (p : ℕ) where
  Flags-cut : (ys : List ℕ) (b : Bool) (zs : List ℕ) → Flags m b zs → Flags (cut m p ys) b zs
  Flags-cut [] b zs f = Flags-keep m p (record (m p) { next = 0 }) b zs refl f
  Flags-cut (y ∷ ys) b zs f =
      let m' : ℕ → Slab = update m p (record (m p) { next = y }) in
      Flags-keep m' y (record (m' y) { prev = p }) b zs refl
        (Flags-keep m p (record (m p) { next = y }) b zs refl f)

module _ (m : ℕ → Slab) (s p h : ℕ) (ys : List ℕ) where
  Flags-apart :
      (b : Bool) (zs : List ℕ) → Flags (apart m s p h ys) b zs → Flags (returned m s p h ys) b zs
  Flags-apart b zs f =
      Flags-keep (pointing m s p h ys) h (record (pointing m s p h ys h) { prev = s }) b zs refl
        (Flags-keep (leading m s p h ys) s (record (leading m s p h ys s) { next = h }) b zs refl
          (Flags-keep (apart m s p h ys) s (record (apart m s p h ys s) { prev = 0 }) b zs refl f))

  -- No slab but `s` changes its flag, and `s` loses it.
  pub Flags-returned :
      (b : Bool) (zs : List ℕ) → NotIn s zs → Flags m b zs → Flags (returned m s p h ys) b zs
  Flags-returned b zs out f = Flags-apart b zs (
      Flags-cut (cleared m s p h ys) p ys b zs
        (Flags-update m s (record (m s) { used = false }) b zs out f))

  pub Flags-returned_self : Flags (returned m s p h ys) false (s ∷ [])
  Flags-returned_self =
      Flags-apart false (s ∷ [])
        (Flags-cut (cleared m s p h ys) p ys false (s ∷ []) (rw (eq→== s s refl) (refl, tt)))

-- `mp` when the slab at `s` has come back, with the list ending at `t`.
abbrev pub back_at : Pool → (s p h t : ℕ) → List ℕ → Pool
back_at mp s p h t ys = record mp {
  head = s;
  tail = t;
  slab_used = (mp.slab_used + 2 ^ 32 - 1) % 2 ^ 32;
  slabs = returned mp.slabs s p h ys;
}

pub in_range :
    (mp : Pool) (s : ℕ)
    → Within mp s
    → 0 < mp.slab_size
    → (ltb mp.mem (s + 24) ≡ true) × (ltb (s + 24) (mp.mem + mp.size) ≡ true)
in_range mp s w z = ground arith

module _ (mp : Pool) (s : ℕ) (w : Within mp s) (sized : 0 < mp.slab_size)
    (busy : (mp.slabs s).used ≡ true) where
  pub put_at_head :
      (mp.slabs s).prev ≡ 0
      → put mp (s + header)
        ≡ ok (record mp {
          slab_used = (mp.slab_used + 2 ^ 32 - 1) % 2 ^ 32;
          slabs = update mp.slabs s (record (mp.slabs s) { used = false });
        })
  unfolding put
  put_at_head first_ =
      let e : s + 24 - 24 ≡ s = omega arith in
      let r = in_range mp s w sized in
      let n : ((mp.slabs s).prev == 0) ≡ true = rw first_ in
      simp (r.0, r.1, e, inside-Within mp s w, busy, n)

  pub put_last :
      ((mp.slabs s).prev == 0) ≡ false
      → ((mp.slabs s).next == 0) ≡ true
      → inside mp (mp.slabs s).prev ≡ true
      → inside mp mp.head ≡ true
      → put mp (s + header) ≡ ok (back_at mp s (mp.slabs s).prev mp.head (mp.slabs s).prev [])
  unfolding put
  put_last pn nn ip ih =
      let e : s + 24 - 24 ≡ s = omega arith in
      let r = in_range mp s w sized in
      simp (r.0, r.1, e, inside-Within mp s w, busy, pn, nn, ip, ih)

  pub put_middle :
      (ys : List ℕ)
      → ((mp.slabs s).prev == 0) ≡ false
      → ((mp.slabs s).next == 0) ≡ false
      → inside mp (mp.slabs s).prev ≡ true
      → inside mp (mp.slabs s).next ≡ true
      → inside mp mp.head ≡ true
      → put mp (s + header)
        ≡ ok (back_at mp s (mp.slabs s).prev mp.head mp.tail ((mp.slabs s).next ∷ ys))
  unfolding put
  put_middle ys pn nn ip inx ih =
      let e : s + 24 - 24 ≡ s = omega arith in
      let r = in_range mp s w sized in
      simp (r.0, r.1, e, inside-Within mp s w, busy, pn, nn, ip, inx, ih)
