-- ===== src/Pool/Session.antt =====
-- What the pool promises its clients, with the order of the slabs forgotten: two bags of slabs, of
-- which a call moves one slab.
use ebot.Base.{
  ℕ, ◌+◌, ◌<◌, Option, none, some, List, [], ◌∷◌, ◌++◌, Run, ok, ◌>>=◌, tally, Bag, bag, insert,
}
use ebot.Pool.{Pool, header, get_with_lock, put_with_lock}

-- A call of `mpool_get_with_lock`, or of `mpool_put_with_lock` for the data of the slab at an
-- address.
pub data Call : Type 0 where
  take : Call
  give : ℕ → Call

-- The client makes its calls in their order and notes what the calls of `mpool_get_with_lock` give.
unfoldable pub calls : Pool → List Call → Run (List (Option ℕ) × Pool)
calls mp [] = ok ([], mp)
calls mp (take ∷ rest) = do (p, mp) ← get_with_lock mp; (ps, mp) ← calls mp rest; ok (p ∷ ps, mp)
calls mp (give s ∷ rest) = do mp ← put_with_lock mp (s + header); calls mp rest

-- The free slabs and the busy ones.
pub record View : Type 0 where
  pub free : Bag
  pub busy : Bag

abbrev pub view : (free busy : List ℕ) → View
view free busy = record { free = bag free; busy = bag busy }

-- The allocator gives out any free slab, and gives nothing only where no slab is free. A slab that
-- is given back is free again, and nothing happens where it is not busy.
pub data Step : View → Call → List (Option ℕ) → View → Type 0 where
  taken :
      (s : ℕ) (f b : Bag)
      → Step
          (record { free = insert s f; busy = b })
          take
          (some (s + header) ∷ [])
          (record { free = f; busy = insert s b })
  used_up :
      (b : Bag)
      → Step
          (record { free = bag []; busy = b })
          take
          (none ∷ [])
          (record { free = bag []; busy = b })
  given :
      (s : ℕ) (f b : Bag)
      → Step
          (record { free = f; busy = insert s b })
          (give s)
          []
          (record { free = insert s f; busy = b })
  again :
      (s : ℕ) (f b : Bag)
      → Step
          (record { free = insert s f; busy = b })
          (give s)
          []
          (record { free = insert s f; busy = b })

-- Steps for the calls of a client, with all that they give.
pub data Steps : View → List Call → List (Option ℕ) → View → Type 0 where
  done : (v : View) → Steps v [] [] v
  next :
      {u v w : View} {c : Call} {cs : List Call} {out outs : List (Option ℕ)}
      → Step u c out v
      → Steps v cs outs w
      → Steps u (c ∷ cs) (out ++ outs) w

-- The client gives back only slabs of the pool, busy or not.
abbrev pub Owned : List ℕ → List Call → Type 0
Owned slabs [] = Unit
Owned slabs (take ∷ rest) = Owned slabs rest
Owned slabs (give s ∷ rest) = (0 < tally slabs s) × Owned slabs rest
