-- ===== src/Pool/Dump.antt =====
-- `mpool_dump`, which walks along the list of slabs.
use ebot.Base.{
  ℕ, zero, suc, ◌+◌, ◌<◌, ◌≡◌, refl, ap, ◌∙◌, Bool, List, [], ◌∷◌, ◌++◌, arith, length, map, ◌==◌,
  if◌then◌else◌, Run, ok, waits, ◌>>=◌, ne→not_==,
}
use ebot.Pool.{Pool, null, header, load}
use ebot.Pool.Links.{first, Links, All}
use ebot.Pool.Valid.{Valid, Within, inside-Within}

-- One line of the output.
pub record Line : Type 0 where
  pub head : ℕ
  pub tail : ℕ
  pub slab : ℕ
  pub prev : ℕ
  pub next : ℕ
  pub used : Bool
  pub data_at : ℕ

abbrev pub line_of : Pool → ℕ → Line
line_of mp s = record {
  head = mp.head;
  tail = mp.tail;
  slab = s;
  prev = (mp.slabs s).prev;
  next = (mp.slabs s).next;
  used = (mp.slabs s).used;
  data_at = s + header;
}

-- The `while`, from the slab at `s` on. `fuel` bounds its rounds.
pub walk : (fuel : ℕ) → Pool → (s : ℕ) → Run (List Line)
unfolding load
walk zero mp s = waits
walk (suc fuel) mp s =
    if s == null
    then ok []
    else do slab ← load mp s; rest ← walk fuel mp slab.next; ok (line_of mp s ∷ rest)

pub dump : (fuel : ℕ) → Pool → Run (List Line)
unfolding walk
dump fuel mp = walk fuel mp mp.head

walk_lem :
    (fuel : ℕ) (mp : Pool) (p : ℕ) (xs : List ℕ)
    → 0 < mp.mem
    → length xs < fuel
    → Links mp.slabs p xs 0
    → All (Within mp) xs
    → walk fuel mp (first xs 0) ≡ ok (map (line_of mp) xs)
unfolding walk
walk_lem zero mp p xs placed enough l o = absurd (omega arith)
walk_lem (suc fuel) mp p [] placed enough l o = refl
walk_lem (suc fuel) mp p (x ∷ xs) placed enough l o =
    rw
      (
        ne→not_== x 0 (λ e. omega (arith, e, o.0.0, placed)),
        inside-Within mp x o.0,
        l.1,
        walk_lem fuel mp x xs placed (omega arith) l.2 o.1,
      )
      refl

-- `mpool_dump` of a valid pool comes to its end, as soon as it has a round for each slab and one
-- for the test: it prints each slab of the pool once, the free ones first, in the order of the
-- list.
pub dump_lem :
    (fuel : ℕ) (mp : Pool) (free busy : List ℕ)
    → Valid mp free busy
    → length (free ++ busy) < fuel
    → dump fuel mp ≡ ok (map (line_of mp) (free ++ busy))
unfolding dump
dump_lem fuel mp free busy v enough =
    ap (walk fuel mp) v.head_at ∙ walk_lem fuel mp 0 (free ++ busy) v.placed enough v.links v.owned
