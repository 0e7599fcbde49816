-- ===== src/Pool/Links.antt =====
-- Doubly linked lists of slabs, as predicates over what stands at each address.
use ebot.Base.{ℕ, ◌≡◌, ◌≢◌, refl, sym, ◌∙◌, List, [], ◌∷◌, ◌++◌, arith, ne→not_==, eq→==, Bool}
use ebot.Pool.{Slab, update}

abbrev pub first : List ℕ → ℕ → ℕ
first [] n = n
first (x ∷ xs) n = x

abbrev pub last : ℕ → List ℕ → ℕ
last p [] = p
last p (x ∷ xs) = last x xs

-- `p` stands in front of the slabs `xs`, which are linked both ways, and `n` behind them.
abbrev pub Links : (ℕ → Slab) → ℕ → List ℕ → ℕ → Type 0
Links m p [] n = Unit
Links m p (x ∷ xs) n = ((m x).prev ≡ p) × ((m x).next ≡ first xs n) × Links m x xs n

abbrev pub NotIn : ℕ → List ℕ → Type 0
NotIn a [] = Unit
NotIn a (x ∷ xs) = (a ≢ x) × NotIn a xs

abbrev pub Distinct : List ℕ → Type 0
Distinct [] = Unit
Distinct (x ∷ xs) = NotIn x xs × Distinct xs

-- Every slab of the list has the flag `b`.
abbrev pub Flags : (ℕ → Slab) → Bool → List ℕ → Type 0
Flags m b [] = Unit
Flags m b (x ∷ xs) = ((m x).used ≡ b) × Flags m b xs

abbrev pub All : (ℕ → Type 0) → List ℕ → Type 0
All P [] = Unit
All P (x ∷ xs) = P x × All P xs

pub first-append : (xs ys : List ℕ) (n : ℕ) → first (xs ++ ys) n ≡ first xs (first ys n)
first-append [] ys n = refl
first-append (x ∷ xs) ys n = refl

pub last-append : (p : ℕ) (xs ys : List ℕ) → last p (xs ++ ys) ≡ last (last p xs) ys
last-append p [] ys = refl
last-append p (x ∷ xs) ys = last-append x xs ys

pub Links-append :
    (m : ℕ → Slab) (p : ℕ) (xs ys : List ℕ) (n : ℕ)
    → Links m p xs (first ys n)
    → Links m (last p xs) ys n
    → Links m p (xs ++ ys) n
Links-append m p [] ys n l r = r
Links-append m p (x ∷ xs) ys n l r =
    (l.0, l.1 ∙ sym (first-append xs ys n), Links-append m x xs ys n l.2 r)

pub Links-front :
    (m : ℕ → Slab) (p : ℕ) (xs ys : List ℕ) (n : ℕ)
    → Links m p (xs ++ ys) n
    → Links m p xs (first ys n)
Links-front m p [] ys n l = tt
Links-front m p (x ∷ xs) ys n l = (l.0, l.1 ∙ first-append xs ys n, Links-front m x xs ys n l.2)

pub Links-back :
    (m : ℕ → Slab) (p : ℕ) (xs ys : List ℕ) (n : ℕ)
    → Links m p (xs ++ ys) n
    → Links m (last p xs) ys n
Links-back m p [] ys n l = l
Links-back m p (x ∷ xs) ys n l = Links-back m x xs ys n l.2

-- A write at an address that is not in the list leaves its links alone.
pub Links-update :
    (m : ℕ → Slab) (a : ℕ) (s : Slab) (p : ℕ) (xs : List ℕ) (n : ℕ)
    → NotIn a xs
    → Links m p xs n
    → Links (update m a s) p xs n
Links-update m a s p [] n out l = tt
Links-update m a s p (x ∷ xs) n out l =
    rw (ne→not_== x a (λ e. out.0 (sym e))) (l.0, l.1, Links-update m a s x xs n out.1 l.2)

-- So does a write that keeps the links of its slab.
pub Links-keep :
    (m : ℕ → Slab) (a : ℕ) (s : Slab) (p : ℕ) (xs : List ℕ) (n : ℕ)
    → s.prev ≡ (m a).prev
    → s.next ≡ (m a).next
    → Links m p xs n
    → Links (update m a s) p xs n
Links-keep m a s p [] n ep en l = tt
Links-keep m a s p (x ∷ xs) n ep en l =
    (ground (arith, l.0), ground (arith, l.1), Links-keep m a s x xs n ep en l.2)

-- The first slab gets another predecessor.
pub Links-prev :
    (m : ℕ → Slab) (p q x : ℕ) (xs : List ℕ) (n : ℕ)
    → NotIn x xs
    → Links m p (x ∷ xs) n
    → Links (update m x (record (m x) { prev = q })) q (x ∷ xs) n
Links-prev m p q x xs n out l =
    rw (eq→== x x refl) (refl, l.1, Links-update m x (record (m x) { prev = q }) x xs n out l.2)

pub last-ne : (a x : ℕ) (xs : List ℕ) → NotIn a (x ∷ xs) → a ≢ last x xs
last-ne a x [] out = out.0
last-ne a x (y ∷ xs) out = last-ne a y xs out.1

-- The last slab gets another successor.
pub Links-next :
    (m : ℕ → Slab) (p x : ℕ) (xs : List ℕ) (n k : ℕ)
    → Distinct (x ∷ xs)
    → Links m p (x ∷ xs) n
    → Links (update m (last x xs) (record (m (last x xs)) { next = k })) p (x ∷ xs) k
Links-next m p x [] n k d l = rw (eq→== x x refl) (l.0, refl, tt)
Links-next m p x (y ∷ xs) n k d l =
    let rest = Links-next m x y xs n k d.1 l.2 in
    let e = ne→not_== x (last y xs) (last-ne x y xs d.0) in (rw e l.0, rw e l.1, rest)

pub Flags-update :
    (m : ℕ → Slab) (a : ℕ) (s : Slab) (b : Bool) (xs : List ℕ)
    → NotIn a xs
    → Flags m b xs
    → Flags (update m a s) b xs
Flags-update m a s b [] out f = tt
Flags-update m a s b (x ∷ xs) out f =
    rw (ne→not_== x a (λ e. out.0 (sym e))) (f.0, Flags-update m a s b xs out.1 f.1)

pub Flags-keep :
    (m : ℕ → Slab) (a : ℕ) (s : Slab) (b : Bool) (xs : List ℕ)
    → s.used ≡ (m a).used
    → Flags m b xs
    → Flags (update m a s) b xs
Flags-keep m a s b [] e f = tt
Flags-keep m a s b (x ∷ xs) e f = (ground (arith, f.0), Flags-keep m a s b xs e f.1)

pub NotIn-append : (a : ℕ) (xs ys : List ℕ) → NotIn a xs → NotIn a ys → NotIn a (xs ++ ys)
NotIn-append a [] ys l r = r
NotIn-append a (x ∷ xs) ys l r = (l.0, NotIn-append a xs ys l.1 r)

pub NotIn-front : (a : ℕ) (xs ys : List ℕ) → NotIn a (xs ++ ys) → NotIn a xs
NotIn-front a [] ys out = tt
NotIn-front a (x ∷ xs) ys out = (out.0, NotIn-front a xs ys out.1)

pub NotIn-back : (a : ℕ) (xs ys : List ℕ) → NotIn a (xs ++ ys) → NotIn a ys
NotIn-back a [] ys out = out
NotIn-back a (x ∷ xs) ys out = NotIn-back a xs ys out.1

-- The first of two parts is behind the second: still every slab stands once.
pub Distinct-snoc : (a : ℕ) (xs : List ℕ) → NotIn a xs → Distinct xs → Distinct (xs ++ (a ∷ []))
Distinct-snoc a [] out d = (tt, tt)
Distinct-snoc a (x ∷ xs) out d =
    (NotIn-append x xs (a ∷ []) d.0 (λ e. out.0 (sym e), tt), Distinct-snoc a xs out.1 d.1)

pub All-append : (P : ℕ → Type 0) (xs ys : List ℕ) → All P xs → All P ys → All P (xs ++ ys)
All-append P [] ys l r = r
All-append P (x ∷ xs) ys l r = (l.0, All-append P xs ys l.1 r)

pub All-front : (P : ℕ → Type 0) (xs ys : List ℕ) → All P (xs ++ ys) → All P xs
All-front P [] ys h = tt
All-front P (x ∷ xs) ys h = (h.0, All-front P xs ys h.1)

pub All-back : (P : ℕ → Type 0) (xs ys : List ℕ) → All P (xs ++ ys) → All P ys
All-back P [] ys h = h
All-back P (x ∷ xs) ys h = All-back P xs ys h.1

pub Flags-append :
    (m : ℕ → Slab) (b : Bool) (xs ys : List ℕ) → Flags m b xs → Flags m b ys → Flags m b (xs ++ ys)
Flags-append m b [] ys l r = r
Flags-append m b (x ∷ xs) ys l r = (l.0, Flags-append m b xs ys l.1 r)

pub All-last : (P : ℕ → Type 0) (x : ℕ) (xs : List ℕ) → All P (x ∷ xs) → P (last x xs)
All-last P x [] h = h.0
All-last P x (y ∷ xs) h = All-last P y xs h.1
