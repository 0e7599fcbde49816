-- ===== src/Pool/Valid.antt =====
-- What it is for a pool to be well formed, and an outcome to be as one asks.
use ebot.Base.{
  ℕ, ◌≡◌, ◌+◌, ◌<◌, ◌≤◌, ◌^◌, arith, true, false, List, [], ◌∷◌, ◌++◌, length, refl, ◌⊎◌, inl, inr,
}
use ebot.Pool.{Pool, inside, header}
use ebot.Pool.Links.{first, last, Links, Distinct, Flags, All}

-- The slab at `a`, data and all, lies in the block.
abbrev pub Within : Pool → ℕ → Type 0
Within mp a = (mp.mem ≤ a) × (a + (header + mp.slab_size) ≤ mp.mem + mp.size)

pub inside-Within : (mp : Pool) (a : ℕ) → Within mp a → inside mp a ≡ true
inside-Within mp a w = ground arith

-- The list runs through the free slabs and then through the busy ones.
pub record Valid (mp : Pool) (free busy : List ℕ) : Type 0 where
  pub links : Links mp.slabs 0 (free ++ busy) 0
  pub head_at : mp.head ≡ first (free ++ busy) 0
  pub tail_at : mp.tail ≡ last 0 (free ++ busy)
  pub distinct : Distinct (free ++ busy)
  pub owned : All (Within mp) (free ++ busy)
  pub idle : Flags mp.slabs false free
  pub taken : Flags mp.slabs true busy
  pub counted : mp.slab_used ≡ length busy
  pub few : length (free ++ busy) < 2 ^ 32
  pub placed : 0 < mp.mem
  pub sized : 0 < mp.slab_size

pub List-cases : (xs : List ℕ) → (xs ≡ []) ⊎ ((r : ℕ) × (rs : List ℕ) × (xs ≡ r ∷ rs))
List-cases [] = inl refl
List-cases (r ∷ rs) = inr (r, rs, refl)
