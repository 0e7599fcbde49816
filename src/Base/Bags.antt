-- ===== src/Base/Bags.antt =====
-- Lists of numbers up to order: two are one bag where each number stands in both equally often.
use Prim.Native.Nat.{ℕ, ◌+◌, ◌<◌}
use mathlib.Core.Path.{◌≡◌, refl, sym, ap, ◌∙◌}
use mathlib.Core.List.{List, [], ◌∷◌, ◌++◌}
use mathlib.Core.Logic.{inl, inr}
use mathlib.Core.Quot
use mathlib.Core.Quot.{Quot, Quot-set}
use native.Mathlib.Omega.{arith}
use ebot.Base.Lists.{length}
use ebot.Base.Tests.{◌==◌, if◌then◌else◌, ==→eq, eq→==, Bool-cases}

-- 1 for `a` itself.
abbrev pub unit_at : ℕ → ℕ → ℕ
unit_at x a = if x == a then 1 else 0

-- How often a number stands in a list.
abbrev pub tally : List ℕ → ℕ → ℕ
tally [] = λ a. 0
tally (x ∷ xs) = λ a. unit_at x a + tally xs a

-- `ys` behind `xs`
pub tally-append : (xs ys : List ℕ) (a : ℕ) → tally (xs ++ ys) a ≡ tally xs a + tally ys a
tally-append [] ys a = omega arith
tally-append (x ∷ xs) ys a = omega (arith, tally-append xs ys a)

abbrev pub Reordered : (xs ys : List ℕ) → Type 0
Reordered xs ys = (a : ℕ) → tally xs a ≡ tally ys a

abbrev pub Bag : Type 0
Bag = Quot Reordered

abbrev pub bag : List ℕ → Bag
bag = Quot.mk

-- One more `a`.
abbrev pub insert : ℕ → Bag → Bag
insert a =
    Quot.lift Quot-set (λ xs. bag (a ∷ xs))
      λ xs ys h. Quot.sound λ b. ap (λ n. unit_at a b + n) (h b)

-- How often `a` is in a bag.
unfoldable pub times : ℕ → Bag → ℕ
times a = Quot.lift (hlevel) (λ xs. tally xs a) λ xs ys h. h a

pub tally-times : (xs : List ℕ) (x : Bag) (a : ℕ) → bag xs ≡ x → tally xs a ≡ times a x
unfolding times
tally-times xs x a e = ap (times a) e

pub bag_mid : (xs : List ℕ) (a : ℕ) (ys : List ℕ) → bag (xs ++ (a ∷ ys)) ≡ insert a (bag (xs ++ ys))
bag_mid xs a ys = Quot.sound λ b. omega (arith, tally-append xs (a ∷ ys) b, tally-append xs ys b)

-- A list that has an `a` is a part before it and a part behind it.
pub tally_split :
    (a : ℕ) (xs : List ℕ) → 0 < tally xs a → (l : List ℕ) × (r : List ℕ) × (xs ≡ l ++ (a ∷ r))
tally_split a [] h = absurd (omega arith)
tally_split a (x ∷ xs) h = elim (Bool-cases (x == a)) [
  | inl here ↦ ([], xs, ap (λ z. z ∷ xs) (==→eq x a here))
  | inr other ↦
      let (l, r, e) = tally_split a xs (ground (arith, other, h)) in (x ∷ l, r, ap (λ zs. x ∷ zs) e)
]

pub times-insert : (a b : ℕ) (x : Bag) → times a (insert b x) ≡ unit_at b a + times a x
unfolding times
times-insert a b = Quot.ind (λ _. hlevel) λ xs. refl

-- A bag that has what a list has is the bag of that list.
bag_of : (xs : List ℕ) (y : Bag) → ((a : ℕ) → tally xs a ≡ times a y) → bag xs ≡ y
unfolding times
bag_of xs = Quot.ind (λ _. hlevel Quot-set) λ ys same. Quot.sound same

-- A bag with one more `a` has an `a`, and is known without it.
pub times-insert_self : (a : ℕ) (x : Bag) → 0 < times a (insert a x)
times-insert_self a x = rw (times-insert a a x, eq→== a a refl) (omega arith)

pub insert_cancel : (a : ℕ) (xs : List ℕ) (y : Bag) → bag (a ∷ xs) ≡ insert a y → bag xs ≡ y
insert_cancel a xs y e =
    bag_of xs y λ b. omega (arith, tally-times (a ∷ xs) (insert a y) b e, times-insert b a y)

pub insert_comm : (a b : ℕ) (x : Bag) → insert a (insert b x) ≡ insert b (insert a x)
insert_comm a b = Quot.ind (λ _. hlevel Quot-set) λ xs. Quot.sound λ c. omega arith

length-mid : (l : List ℕ) (a : ℕ) (r : List ℕ) → length (l ++ (a ∷ r)) ≡ length (a ∷ l ++ r)
length-mid [] a r = refl
length-mid (x ∷ l) a r = omega (arith, length-mid l a r)

Reordered-length : (xs ys : List ℕ) → Reordered xs ys → length xs ≡ length ys
Reordered-length [] [] h = refl
Reordered-length [] (y ∷ ys) h = absurd (ground (arith, h y))
Reordered-length (x ∷ xs) ys h =
    let (l, r, e) = tally_split x ys (ground (arith, h x)) in
    let fewer : Reordered xs (l ++ r) = λ a.
      omega (arith, h a, ap (λ z. tally z a) e, tally-append l (x ∷ r) a, tally-append l r a) in
    omega (arith, Reordered-length xs (l ++ r) fewer, length-mid l x r, ap length e)

-- The lists of a bag have one length.
pub same_length : (xs ys : List ℕ) → bag xs ≡ bag ys → length xs ≡ length ys
same_length xs ys e =
    Reordered-length xs ys λ a. tally-times xs (bag ys) a e ∙ sym (tally-times ys (bag ys) a refl)
