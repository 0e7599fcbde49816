-- ===== src/Ring/Queue.antt =====
-- The specification of `ringq`: a queue of byte strings, each of which costs four bytes more than
-- it has, under a bound on the sum. Nothing here knows of positions.
use ebot.Base.{
  ℕ, ◌+◌, ◌≡◌, Bool, true, false, List, [], ◌∷◌, ◌++◌, ltb, if◌then◌else◌, length, replicate,
}

abbrev pub Queue : Type 0
Queue = List (List ℕ)

-- What the items cost together.
abbrev pub used : Queue → ℕ
used [] = 0
used (x ∷ xs) = 4 + length x + used xs

-- What a client asks for: to put in an item, or to take one out.
pub data Call : Type 0 where
  put : List ℕ → Call
  get : Call

-- Whether the call worked, and for `get` what stands in the buffer.
abbrev pub Reply : Type 0
Reply = Bool × List ℕ

module _ (cap : ℕ) where
  unfoldable pub push : Queue → List ℕ → Bool × Queue
  push xs x = if ltb cap (used xs + (4 + length x)) then (false, xs) else (true, xs ++ (x ∷ []))

  -- The client's buffer holds `size` zeros before a `get`.
  unfoldable pub run : (size : ℕ) → Queue → List Call → List Reply
  run size xs [] = []
  run size xs (put x ∷ calls) = let (done, xs') = push xs x in (done, []) ∷ run size xs' calls
  run size [] (get ∷ calls) = (false, replicate size 0) ∷ run size [] calls
  run size (x ∷ xs) (get ∷ calls) = (true, x) ∷ run size xs calls

-- Every item that a list of calls puts in has `size` bytes.
abbrev pub Sized : ℕ → List Call → Type 0
Sized size [] = Unit
Sized size (put x ∷ calls) = (length x ≡ size) × Sized size calls
Sized size (get ∷ calls) = Sized size calls

abbrev pub AllSized : ℕ → Queue → Type 0
AllSized size [] = Unit
AllSized size (x ∷ xs) = (length x ≡ size) × AllSized size xs
