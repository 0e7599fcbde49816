-- ===== src/Ring/Layout.antt =====
-- Where the items of a `ringq` lie: one behind the other from `head` on, going round at `size`,
-- save that the four bytes of a length stay in one piece and may run past the end.
use native.Mathlib.Nat.{mod-eq_of_lt, mod-eq-sub-mod}
use ebot.Base.{
  ℕ, zero, suc, ◌+◌, ◌-◌, ◌%◌, ◌≤◌, ◌<◌, ◌≡◌, refl, ap, ap₂, ◌∙◌, List, [], ◌∷◌, ◌++◌, arith, ltb,
  leb, if◌then◌else◌, length, lt→ltb, inl, inr, Bool-cases, ltb→lt, not_ltb→le,
}
use ebot.Bytes.{Mem, read, int_max, load_int, load_int_same}
use ebot.Ring.{Ringq}
use ebot.Ring.Queue.{used}

-- A position below twice the size, brought back into the ring.
abbrev pub wrap : ℕ → ℕ → ℕ
wrap s p = if ltb p s then p else p - s

-- How far behind `h` the position `p` comes.
abbrev pub offset : ℕ → ℕ → ℕ → ℕ
offset s h p = if leb h p then p - h else p + s - h

-- The bytes past the end belong to the last position, where a length runs over.
abbrev pub clamp : ℕ → ℕ → ℕ
clamp s p = if ltb p s then p else s - 1

-- `p` is one of the bytes of the `n` positions from `h` on.
abbrev pub Cell : ℕ → ℕ → ℕ → ℕ → Type 0
Cell s h n p = offset s h (clamp s p) < n

unfoldable pub ring_read : Mem → ℕ → ℕ → ℕ → List ℕ
ring_read f s p zero = []
ring_read f s p (suc n) = f p ∷ ring_read f s (wrap s (p + 1)) n

abbrev pub Stored : Mem → ℕ → ℕ → List (List ℕ) → Type 0
Stored f s h [] = Unit
Stored f s h (x ∷ xs) =
    (load_int f h ≡ length x)
    × (ring_read f s (wrap s (h + 4)) (length x) ≡ x)
    × Stored f s (wrap s (h + (4 + length x))) xs

-- The ring is well formed and holds `items`, the oldest first.
pub record Holds (rq : Ringq) (items : List (List ℕ)) : Type 0 where
  pub head_in : rq.head < rq.size
  pub space : used items < rq.size
  pub tail_at : rq.tail ≡ wrap rq.size (rq.head + used items)
  pub count : rq.num ≡ length items
  pub room_is : rq.room ≡ rq.size + 4
  pub small : rq.size + 4 ≤ int_max
  pub stored : Stored rq.mem rq.size rq.head items

pub mod-eq-wrap : (s p : ℕ) → p < s + s → p % s ≡ wrap s p
mod-eq-wrap s p h = elim (Bool-cases (ltb p s)) [
  | inl lt ↦ rw lt (mod-eq_of_lt (ltb→lt p s lt))
  | inr ge ↦
      rw ge (mod-eq-sub-mod (not_ltb→le p s ge) ∙ mod-eq_of_lt (omega (arith, not_ltb→le p s ge)))
]

pub wrap-lt : (s p : ℕ) → p < s + s → wrap s p < s
wrap-lt s p h = ground arith

pub used-append :
    (xs : List (List ℕ)) (y : List ℕ) → used (xs ++ (y ∷ [])) ≡ used xs + (4 + length y)
used-append [] y = omega arith
used-append (x ∷ xs) y = omega (arith, used-append xs y)

pub ring_read_same :
    (f g : Mem) (s p n : ℕ)
    → p < s
    → n < s
    → ((j : ℕ) → j < s → offset s p j < n → f j ≡ g j)
    → ring_read f s p n ≡ ring_read g s p n
unfolding ring_read
ring_read_same f g s p zero hp hn same = refl
ring_read_same f g s p (suc n) hp hn same = ap₂ ◌∷◌ (same p hp (ground arith)) (
    ring_read_same f g s (wrap s (p + 1)) n (ground arith) (omega arith)
      (λ j lt o. same j lt (ground arith)))

-- In front of the end a run round the ring is a plain read.
pub ring_read-straight : (f : Mem) (s p n : ℕ) → p + n ≤ s → ring_read f s p n ≡ read f p n
unfolding ring_read read
ring_read-straight f s p zero h = refl
ring_read-straight f s p (suc zero) h = refl
ring_read-straight f s p (suc (suc n)) h =
    rw (lt→ltb (p + 1) s (omega arith))
      (ap (λ ys. f p ∷ ys) (ring_read-straight f s (p + 1) (suc n) (omega arith)))

-- A run that comes to the end goes on at 0.
pub ring_read-split :
    (f : Mem) (s p a b : ℕ)
    → p < s
    → p + a ≡ s
    → ring_read f s p (a + b) ≡ read f p a ++ ring_read f s 0 b
unfolding ring_read read
ring_read-split f s p zero b hp h = absurd (omega arith)
ring_read-split f s p (suc zero) b hp h =
    let e : suc 0 + b ≡ suc b = omega arith in
    let z : wrap s (p + 1) ≡ 0 = ground arith in rw e (ap (λ k. f p ∷ ring_read f s k b) z)
ring_read-split f s p (suc (suc a)) b hp h =
    let e : suc (suc a) + b ≡ suc (suc a + b) = omega arith in
    let z : wrap s (p + 1) ≡ p + 1 = ground arith in
    rw (e, z)
      (ap (λ ys. f p ∷ ys) (ring_read-split f s (p + 1) (suc a) b (omega arith) (omega arith)))

-- The items stay where they are under any change that spares their bytes.
pub Stored-same :
    (f g : Mem) (s h : ℕ) (xs : List (List ℕ))
    → h < s
    → used xs < s
    → ((p : ℕ) → p < s + 4 → Cell s h (used xs) p → g p ≡ f p)
    → Stored f s h xs
    → Stored g s h xs
Stored-same f g s h [] hs hu same st = tt
Stored-same f g s h (x ∷ xs) hs hu same st = (
  load_int_same g f h (λ j lo hi. same j (omega arith) (ground arith)) ∙ st.0,
  ring_read_same g f s (wrap s (h + 4)) (length x) (ground arith) (omega arith)
        (λ j lt o. same j (omega arith) (ground arith))
      ∙ st.1,
  Stored-same f g s (wrap s (h + (4 + length x))) xs (ground arith) (omega arith)
      (λ p lt c. same p lt (ground arith)) st.2,
)

pub Stored-append :
    (f : Mem) (s h : ℕ) (xs : List (List ℕ)) (y : List ℕ)
    → h < s
    → used xs < s
    → Stored f s h xs
    → Stored f s (wrap s (h + used xs)) (y ∷ [])
    → Stored f s h (xs ++ (y ∷ []))
Stored-append f s h [] y hs hu st last = let e : wrap s (h + 0) ≡ h = ground arith in rw e at last
Stored-append f s h (x ∷ xs) y hs hu st last = (
  st.0,
  st.1,
  Stored-append f s (wrap s (h + (4 + length x))) xs y (ground arith) (omega arith) st.2 (
      let e : wrap s (h + (4 + length x + used xs))
          ≡ wrap s (wrap s (h + (4 + length x)) + used xs) =
        ground arith in
      rw e at last),
)
