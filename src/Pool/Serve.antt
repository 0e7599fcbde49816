-- ===== src/Pool/Serve.antt =====
-- Any calls of the pool under its mutex, one after the other, against what the pool promises.
use ebot.Base.{
  ℕ, ◌+◌, ◌<◌, ◌≡◌, refl, ◌∙◌, false, Option, List, [], ◌∷◌, ◌++◌, arith, length, Returns,
  Returns-map, Returns-bind, ok, ◌>>=◌, tally,
}
use ebot.Pool.{Pool, header, get_with_lock, put_with_lock}
use ebot.Pool.Valid.{Valid}
use ebot.Pool.Session.{Call, take, give, calls, view, Steps, done, next, Owned}
use ebot.Pool.Moves.{Stepped, get_with_lock-Stepped, put_with_lock-Stepped}

Owned-same :
    (l m : List ℕ) (cs : List Call) → ((a : ℕ) → tally m a ≡ tally l a) → Owned l cs → Owned m cs
Owned-same l m [] e h = tt
Owned-same l m (take ∷ cs) e h = Owned-same l m cs e h
Owned-same l m (give s ∷ cs) e h = (omega (arith, e s, h.0), Owned-same l m cs e h.1)

-- What the client has when its calls have been made.
abbrev pub Served : (free busy : List ℕ) → List Call → List (Option ℕ) × Pool → Type 0
Served free busy cs (out, mp) =
    (f : List ℕ) × (b : List ℕ) × Valid mp f b
    × (mp.held ≡ false)
    × ((a : ℕ) → tally (f ++ b) a ≡ tally (free ++ busy) a)
    × Steps (view free busy) cs out (view f b)

Served-next :
    (free busy : List ℕ) (c : Call) (cs : List Call) (out outs : List (Option ℕ)) (mp mp' : Pool)
    (s : Stepped free busy c out mp)
    → Served s.0 s.1 cs (outs, mp')
    → Served free busy (c ∷ cs) (out ++ outs, mp')
Served-next free busy c cs out outs mp mp' (f, b, v, h, same, step) (f', b', v', h', same', steps) =
    (f', b', v', h', (λ a. same' a ∙ same.1 a), next step steps)

-- Any calls of `mpool_get_with_lock` and `mpool_put_with_lock`, in any order, on a valid pool of
-- two slabs or more whose mutex is free, come to their end, if what is put back is the data of
-- slabs of the pool, busy ones or free ones. What they give, and the slabs that are free and busy
-- then, are a run of an allocator that hands out any free slab, says `NULL` only where every slab
-- is busy, and takes a slab back; the pool is valid again, its mutex is free, and it has the same
-- slabs.
pub calls-Steps :
    {mp : Pool} (free busy : List ℕ) (cs : List Call)
    → Valid mp free busy
    → mp.held ≡ false
    → 1 < length (free ++ busy)
    → Owned (free ++ busy) cs
    → Returns (Served free busy cs) (calls mp cs)
unfolding calls
calls-Steps free busy [] v h more own = (free, busy, v, h, (λ a. refl), done (view free busy))
calls-Steps {mp} free busy (take ∷ cs) v h more own =
    Returns-bind _ _ (get_with_lock mp) (λ (p, mp1). calls mp1 cs >>= λ (ps, mp2). ok (p ∷ ps, mp2))
      (get_with_lock-Stepped free busy v h more)
      λ (p, mp1) s.
        Returns-bind _ _ (calls mp1 cs) (λ (ps, mp2). ok (p ∷ ps, mp2))
          (calls-Steps s.0 s.1 cs s.2 s.3 (omega (arith, s.4.0))
            (Owned-same (free ++ busy) (s.0 ++ s.1) cs s.4.1 own))
          λ (ps, mp2) t. Served-next free busy take cs (p ∷ []) ps mp1 mp2 s t
calls-Steps {mp} free busy (give a ∷ cs) v h more own =
    Returns-bind _ _ (put_with_lock mp (a + header)) (λ mp1. calls mp1 cs)
      (put_with_lock-Stepped h free busy a v own.0)
      λ mp1 s.
        Returns-map _ (λ (ps, mp2) t. Served-next free busy (give a) cs [] ps mp1 mp2 s t)
          (calls-Steps s.0 s.1 cs s.2 s.3 (omega (arith, s.4.0))
            (Owned-same (free ++ busy) (s.0 ++ s.1) cs s.4.1 own.1))
