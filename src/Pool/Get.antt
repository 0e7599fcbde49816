-- ===== src/Pool/Get.antt =====
-- `mpool_get` on a well-formed pool.
use mathlib.Core.List.{append_assoc}
use ebot.Base.{
  ℕ, ◌+◌, ◌%◌, ◌^◌, ◌<◌, ◌≡◌, refl, sym, ap, ◌∙◌, true, false, none, some, List, [], ◌∷◌, ◌++◌,
  arith, length, length-append, Returns, ok, fault, eq→==, inl, inr, Bool,
}
use ebot.Pool.{Pool, Slab, update, inside, header, get}
use ebot.Pool.Links.{
  last, Links, NotIn, Distinct, Flags, All, Links-update, Links-prev, Links-next, Links-append,
  Flags-update, Flags-keep, Flags-append, Distinct-snoc, All-append, last-append, NotIn-front,
  NotIn-back, All-last,
}
use ebot.Pool.Valid.{Valid, Within, inside-Within, List-cases}

-- The slabs when the one at `s`, with `r` behind it and `t` at the end, has moved to the end.
module _ (m : ℕ → Slab) (s r t : ℕ) where
  abbrev marked : ℕ → Slab
  marked = update m s (record (m s) { used = true })

  abbrev uncoupled : ℕ → Slab
  uncoupled = update marked r (record (marked r) { prev = 0 })

  abbrev joined : ℕ → Slab
  joined = update uncoupled t (record (uncoupled t) { next = s })

  abbrev ended : ℕ → Slab
  ended = update joined s (record (joined s) { next = 0 })

  abbrev rotated : ℕ → Slab
  rotated = update ended s (record (ended s) { prev = t })

module _ (m : ℕ → Slab) (s r : ℕ) (rs : List ℕ) (d : Distinct (s ∷ r ∷ rs)) where
  Links-rotated :
      Links m 0 (s ∷ r ∷ rs) 0 → Links (rotated m s r (last r rs)) 0 ((r ∷ rs) ++ (s ∷ [])) 0
  Links-rotated l =
      let t = last r rs in
      let l1 = Links-update m s (record (m s) { used = true }) s (r ∷ rs) 0 d.0 l.2 in
      let l2 = Links-prev (marked m s r t) s 0 r rs 0 d.1.0 l1 in
      let l3 = Links-next (uncoupled m s r t) 0 r rs 0 s d.1 l2 in
      let l4 =
        Links-update (joined m s r t) s (record (joined m s r t s) { next = 0 }) 0 (r ∷ rs) s d.0
          l3 in
      let l5 =
        Links-update (ended m s r t) s (record (ended m s r t s) { prev = t }) 0 (r ∷ rs) s d.0
          l4 in
      Links-append (rotated m s r t) 0 (r ∷ rs) (s ∷ []) 0 l5 (rw (eq→== s s refl) (refl, refl, tt))

-- No slab but `s` changes its flag, and `s` gets it.
module _ (m : ℕ → Slab) (s r t : ℕ) where
  Flags-rotated :
      (b : Bool) (xs : List ℕ) → NotIn s xs → Flags m b xs → Flags (rotated m s r t) b xs
  Flags-rotated b xs out f =
      Flags-keep (ended m s r t) s (record (ended m s r t s) { prev = t }) b xs refl
        (Flags-keep (joined m s r t) s (record (joined m s r t s) { next = 0 }) b xs refl
          (Flags-keep (uncoupled m s r t) t (record (uncoupled m s r t t) { next = s }) b xs refl
            (Flags-keep (marked m s r t) r (record (marked m s r t r) { prev = 0 }) b xs refl
              (Flags-update m s (record (m s) { used = true }) b xs out f))))

  used-rotated : (rotated m s r t s).used ≡ true
  used-rotated = ground arith

-- The pool behind a call that hands out the slab at `s`.
abbrev handed : Pool → (s r t : ℕ) → Pool
handed mp s r t = record mp {
  head = r;
  tail = s;
  slab_used = (mp.slab_used + 1) % 2 ^ 32;
  slabs = rotated mp.slabs s r t;
}

get_first :
    (mp : Pool)
    → inside mp mp.head ≡ true
    → inside mp (mp.slabs mp.head).next ≡ true
    → inside mp mp.tail ≡ true
    → (mp.slabs mp.head).used ≡ false
    → get mp ≡ ok (some (mp.head + header), handed mp mp.head (mp.slabs mp.head).next mp.tail)
unfolding get
get_first mp hs hr ht free = simp (hs, free, hr, ht)

module _ {mp : Pool} {s : ℕ} {fs bs : List ℕ} (v : Valid mp (s ∷ fs) bs) where
  Valid-handed :
      (r : ℕ) (rs : List ℕ)
      → fs ++ bs ≡ r ∷ rs
      → Valid (handed mp s r (last r rs)) fs (bs ++ (s ∷ []))
  Valid-handed r rs e =
      let d : Distinct (s ∷ r ∷ rs) = rw e at v.distinct in
      let o : All (Within mp) (s ∷ r ∷ rs) = rw e at v.owned in
      let c : fs ++ (bs ++ (s ∷ [])) ≡ (r ∷ rs) ++ (s ∷ []) =
        sym (append_assoc fs bs (s ∷ [])) ∙ ap (λ xs. xs ++ (s ∷ [])) e in
      record {
        links = rw c (Links-rotated mp.slabs s r rs d (rw e at v.links));
        head_at = rw c;
        tail_at = rw (c, last-append 0 (r ∷ rs) (s ∷ []));
        distinct = rw c (Distinct-snoc s (r ∷ rs) d.0 d.1);
        owned = rw c (All-append (Within mp) (r ∷ rs) (s ∷ []) o.1 (o.0, tt));
        idle =
            Flags-rotated mp.slabs s r (last r rs) false fs (NotIn-front s fs bs v.distinct.0)
              v.idle.1;
        taken =
            Flags-append (rotated mp.slabs s r (last r rs)) true bs (s ∷ [])
              (Flags-rotated mp.slabs s r (last r rs) true bs (NotIn-back s fs bs v.distinct.0)
                v.taken)
              (used-rotated mp.slabs s r (last r rs), tt);
        counted = omega (arith, length-append bs (s ∷ []), length-append fs bs, v.counted, v.few);
        few = rw c (omega (arith, length-append (r ∷ rs) (s ∷ []), v.few, ap length e));
        placed = v.placed;
        sized = v.sized;
      }

  -- `mpool_get` of a valid pool that has a free slab and another slab gives the first free slab,
  -- which is then the last busy one; the pool stays valid.
  pub get-free :
      0 < length (fs ++ bs)
      → Returns (λ (p, mp'). (p ≡ some (s + header)) × Valid mp' fs (bs ++ (s ∷ []))) (get mp)
  get-free more = elim (List-cases (fs ++ bs)) [
    | inl e ↦ absurd (omega (arith, ap length e))
    | inr (r, rs, e) ↦
        let o : All (Within mp) (s ∷ r ∷ rs) = rw e at v.owned in
        let tl : mp.tail ≡ last r rs = rw e at v.tail_at in
        let hd : mp.head ≡ s = v.head_at in
        let l : Links mp.slabs 0 (s ∷ r ∷ rs) 0 = rw e at v.links in
        let nx : (mp.slabs mp.head).next ≡ r = ap (λ a. (mp.slabs a).next) hd ∙ l.1 in
        let fl : (mp.slabs mp.head).used ≡ false = ap (λ a. (mp.slabs a).used) hd ∙ v.idle.0 in
        rw
          (get_first mp (rw hd (inside-Within mp s o.0)) (rw nx (inside-Within mp r o.1.0))
              (rw tl (inside-Within mp (last r rs) (All-last (Within mp) r rs o.1))) fl
            ∙ (λ i. ok (some (hd i + header), handed mp (hd i) (nx i) (tl i))))
          (refl, Valid-handed r rs e)
  ]

-- In a valid pool with every slab busy `mpool_get` gives `NULL` and changes nothing.
pub get-none : {mp : Pool} {b : ℕ} {bs : List ℕ} → Valid mp [] (b ∷ bs) → get mp ≡ ok (none, mp)
unfolding get
get-none {mp} {b} v =
    let hd : mp.head ≡ b = v.head_at in
    let fl : (mp.slabs mp.head).used ≡ true = ap (λ a. (mp.slabs a).used) hd ∙ v.taken.0 in
    let o : inside mp mp.head ≡ true = rw hd (inside-Within mp _ v.owned.0) in simp (o, fl)

-- In a valid pool of a single slab, which is free, `mpool_get` writes through `NULL`.
pub get_single : {mp : Pool} {s : ℕ} → Valid mp (s ∷ []) [] → get mp ≡ fault
unfolding get
get_single {mp} {s} v =
    let hd : mp.head ≡ s = v.head_at in
    let fl : (mp.slabs mp.head).used ≡ false = ap (λ a. (mp.slabs a).used) hd ∙ v.idle.0 in
    let nx : (mp.slabs mp.head).next ≡ 0 = ap (λ a. (mp.slabs a).next) hd ∙ v.links.1 in
    let o : inside mp mp.head ≡ true = rw hd (inside-Within mp _ v.owned.0) in
    let out : inside mp (mp.slabs mp.head).next ≡ false = rw nx (ground (arith, v.placed)) in
    simp (o, fl, out)
