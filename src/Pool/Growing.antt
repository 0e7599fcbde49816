-- ===== src/Pool/Growing.antt =====
-- The list of slabs that the loop of `mpool_new` has made so far.
use ebot.Base.{
  ℕ, zero, suc, ◌+◌, ◌<◌, ◌≤◌, ◌≡◌, ◌≢◌, refl, ap, false, List, [], ◌∷◌, arith, length, eq→==, Bool,
}
use ebot.Pool.{Pool, Slab, update, stride}
use ebot.Pool.Links.{first, last, Links, NotIn, Distinct, Flags, All, Links-prev, Links-update}
use ebot.Pool.Valid.{Within}

-- The slabs from `cur` on, `k` behind the first, on top of `xs`: the last comes first.
abbrev pub pile : ℕ → ℕ → ℕ → List ℕ → List ℕ
pile step cur zero xs = cur ∷ xs
pile step cur (suc k) xs = pile step (cur + step) k (cur ∷ xs)

-- What holds at the top of the loop, with the slabs `xs` made.
pub record Growing (mp : Pool) (cur : ℕ) (xs : List ℕ) : Type 0 where
  pub before : ℕ
  pub links : Links mp.slabs before xs 0
  pub head_at : mp.head ≡ first xs 0
  pub tail_at : xs ≢ [] → mp.tail ≡ last 0 xs
  pub below : All (λ a. a < cur) xs
  pub distinct : Distinct xs
  pub owned : All (Within mp) xs
  pub idle : (a : ℕ) → (mp.slabs a).used ≡ false
  pub fresh : (a : ℕ) → cur ≤ a → (mp.slabs a).next ≡ 0
  pub placed : 0 < mp.mem
  pub start : mp.mem ≤ cur

pub NotIn-below : (cur : ℕ) (xs : List ℕ) → All (λ a. a < cur) xs → NotIn cur xs
NotIn-below cur [] h = tt
NotIn-below cur (x ∷ xs) h = (omega arith, NotIn-below cur xs h.1)

pub All-mono : (cur step : ℕ) (xs : List ℕ) → All (λ a. a < cur) xs → All (λ a. a < cur + step) xs
All-mono cur step [] h = tt
All-mono cur step (x ∷ xs) h = (omega arith, All-mono cur step xs h.1)

pub Flags-all : (m : ℕ → Slab) (b : Bool) (xs : List ℕ) → ((a : ℕ) → (m a).used ≡ b) → Flags m b xs
Flags-all m b [] h = tt
Flags-all m b (x ∷ xs) h = (h x, Flags-all m b xs h)

pub length-pile : (step cur k : ℕ) (xs : List ℕ) → length (pile step cur k xs) ≡ suc k + length xs
length-pile step cur zero xs = omega arith
length-pile step cur (suc k) xs = omega (arith, length-pile step (cur + step) k (cur ∷ xs))

-- The pool when the slab at `cur` has been put in front, and its `prev` set to `p`.
abbrev pub grown : Pool → ℕ → List ℕ → ℕ → Pool
grown mp cur [] p = record mp {
  tail = cur;
  head = cur;
  slabs = update mp.slabs cur (record (mp.slabs cur) { prev = p });
}
grown mp cur (x ∷ xs) p =
    let m1 = update mp.slabs x (record (mp.slabs x) { prev = cur }) in
    let m2 = update m1 cur (record (m1 cur) { next = x }) in
    record mp { head = cur; slabs = update m2 cur (record (m2 cur) { prev = p }) }

-- The links of the grown list, with `p` in front of it.
pub Links-grown :
    (mp : Pool) (cur : ℕ) (xs : List ℕ) (p q : ℕ)
    → Links mp.slabs q xs 0
    → NotIn cur xs
    → Distinct xs
    → (xs ≡ [] → (mp.slabs cur).next ≡ 0)
    → Links (grown mp cur xs p).slabs p (cur ∷ xs) 0
Links-grown mp cur [] p q l out d fresh =
    (rw (eq→== cur cur refl), rw (eq→== cur cur refl) (fresh refl), tt)
Links-grown mp cur (x ∷ xs) p q l out d fresh =
    let m1 : ℕ → Slab = update mp.slabs x (record (mp.slabs x) { prev = cur }) in
    let m2 : ℕ → Slab = update m1 cur (record (m1 cur) { next = x }) in
    let l1 = Links-prev mp.slabs q cur x xs 0 d.0 l in
    let l2 = Links-update m1 cur (record (m1 cur) { next = x }) cur (x ∷ xs) 0 out l1 in
    let l3 = Links-update m2 cur (record (m2 cur) { prev = p }) cur (x ∷ xs) 0 out l2 in
    (rw (eq→== cur cur refl), rw (eq→== cur cur refl), l3)

pub idle-grown :
    (mp : Pool) (cur : ℕ) (xs : List ℕ) (p : ℕ)
    → ((a : ℕ) → (mp.slabs a).used ≡ false)
    → (a : ℕ) → ((grown mp cur xs p).slabs a).used ≡ false
idle-grown mp cur [] p idle a = ground (arith, idle a, idle cur)
idle-grown mp cur (x ∷ xs) p idle a = ground (arith, idle a, idle cur, idle x)

pub fresh-grown :
    (mp : Pool) (cur : ℕ) (xs : List ℕ) (p : ℕ)
    → ((a : ℕ) → cur ≤ a → (mp.slabs a).next ≡ 0)
    → All (λ a. a < cur) xs
    → (a : ℕ) → cur < a
    → ((grown mp cur xs p).slabs a).next ≡ 0
fresh-grown mp cur [] p fresh below a h = ground (arith, fresh a)
fresh-grown mp cur (x ∷ xs) p fresh below a h = ground (arith, fresh a, below.0)

pub Within-grown :
    (mp : Pool) (cur : ℕ) (xs : List ℕ) (p : ℕ) (zs : List ℕ)
    → All (Within mp) zs
    → All (Within (grown mp cur xs p)) zs
Within-grown mp cur xs p [] h = tt
Within-grown mp cur [] p (z ∷ zs) h = (h.0, Within-grown mp cur [] p zs h.1)
Within-grown mp cur (x ∷ xs) p (z ∷ zs) h = (h.0, Within-grown mp cur (x ∷ xs) p zs h.1)

pub Growing-grown :
    (mp : Pool) (cur : ℕ) (xs : List ℕ) (p : ℕ)
    → Within mp cur
    → Growing mp cur xs
    → Growing (grown mp cur xs p) (cur + stride mp) (cur ∷ xs)
Growing-grown mp cur [] p w g = record {
  before = p;
  links = Links-grown mp cur [] p g.before g.links tt tt (λ e. g.fresh cur (omega arith));
  head_at = refl;
  tail_at = λ n. refl;
  below = (omega arith, tt);
  distinct = (tt, tt);
  owned = Within-grown mp cur [] p (cur ∷ []) (w, tt);
  idle = idle-grown mp cur [] p g.idle;
  fresh = λ a h. fresh-grown mp cur [] p g.fresh g.below a (omega arith);
  placed = g.placed;
  start = omega (arith, g.start);
}
Growing-grown mp cur (x ∷ xs) p w g =
    let out = NotIn-below cur (x ∷ xs) g.below in
    record {
      before = p;
      links =
          Links-grown mp cur (x ∷ xs) p g.before g.links out g.distinct
            (λ e. absurd (omega (arith, ap length e)));
      head_at = refl;
      tail_at = λ n. g.tail_at (λ e. omega (arith, ap length e));
      below = (omega arith, All-mono cur (stride mp) (x ∷ xs) g.below);
      distinct = (out, g.distinct);
      owned = Within-grown mp cur (x ∷ xs) p (cur ∷ x ∷ xs) (w, g.owned);
      idle = idle-grown mp cur (x ∷ xs) p g.idle;
      fresh = λ a h. fresh-grown mp cur (x ∷ xs) p g.fresh g.below a (omega arith);
      placed = g.placed;
      start = omega (arith, g.start);
    }
