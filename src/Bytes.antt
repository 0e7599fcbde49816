-- ===== src/Bytes.antt =====
-- Raw memory as the C code of ebot.c sees it: bytes at offsets from the start of an allocation,
-- with an `int` stored in four bytes, the lowest first (`int` on the Linux targets of ebot).
use ebot.Base.{
  ℕ, zero, suc, ◌+◌, ◌*◌, ◌/◌, ◌%◌, ◌^◌, ◌≤◌, ◌<◌, ◌≡◌, refl, ap, ap₂, ◌∙◌, List, [], ◌∷◌, ◌++◌,
  arith, ◌==◌, if◌then◌else◌, length, ne→not_==, eq→==,
}

abbrev pub Mem : Type 0
Mem = ℕ → ℕ

-- The bytes `xs` put at `a` and behind.
unfoldable pub write : Mem → ℕ → List ℕ → Mem
write f a [] j = f j
write f a (x ∷ xs) j = if j == a then x else write f (a + 1) xs j

unfoldable pub read : Mem → ℕ → ℕ → List ℕ
read f a zero = []
read f a (suc n) = f a ∷ read f (a + 1) n

-- `sizeof(int)`
abbrev pub int_size : ℕ
int_size = 4

-- `INT_MAX`
abbrev pub int_max : ℕ
int_max = 2147483647

abbrev pub int_bytes : ℕ → List ℕ
int_bytes n = n % 256 ∷ n / 256 % 256 ∷ n / 65536 % 256 ∷ n / 16777216 % 256 ∷ []

unfoldable pub load_int : Mem → ℕ → ℕ
load_int f a = f a + f (a + 1) * 256 + f (a + 2) * 65536 + f (a + 3) * 16777216

unfoldable pub store_int : Mem → ℕ → ℕ → Mem
unfolding write
store_int f a n = write f a (int_bytes n)

pub write_below : (f : Mem) (a : ℕ) (xs : List ℕ) (j : ℕ) → j < a → write f a xs j ≡ f j
unfolding write
write_below f a [] j h = refl
write_below f a (x ∷ xs) j h =
    rw (ne→not_== j a (omega arith)) (write_below f (a + 1) xs j (omega arith))

pub write_above : (f : Mem) (a : ℕ) (xs : List ℕ) (j : ℕ) → a + length xs ≤ j → write f a xs j ≡ f j
unfolding write
write_above f a [] j h = refl
write_above f a (x ∷ xs) j h =
    rw (ne→not_== j a (omega arith)) (write_above f (a + 1) xs j (omega arith))

pub length-read : (f : Mem) (a n : ℕ) → length (read f a n) ≡ n
unfolding read
length-read f a zero = refl
length-read f a (suc n) = ap suc (length-read f (a + 1) n)

pub read_same :
    (f g : Mem) (a n : ℕ) → ((j : ℕ) → a ≤ j → j < a + n → f j ≡ g j) → read f a n ≡ read g a n
unfolding read
read_same f g a zero same = refl
read_same f g a (suc n) same =
    ap₂ ◌∷◌ (same a (omega arith) (omega arith))
      (read_same f g (a + 1) n (λ j lo hi. same j (omega arith) (omega arith)))

pub read-append : (f : Mem) (a m n : ℕ) → read f a (m + n) ≡ read f a m ++ read f (a + m) n
unfolding read
read-append f a zero n =
    let e : 0 + n ≡ n = omega arith in let s : a + 0 ≡ a = omega arith in rw (e, s)
read-append f a (suc m) n =
    let e : suc m + n ≡ suc (m + n) = omega arith in
    let s : a + suc m ≡ a + 1 + m = omega arith in
    rw (e, s) (ap (λ ys. f a ∷ ys) (read-append f (a + 1) m n))

-- What was written is read back.
pub read-write : (f : Mem) (a : ℕ) (xs : List ℕ) → read (write f a xs) a (length xs) ≡ xs
unfolding read write
read-write f a [] = refl
read-write f a (x ∷ xs) = ap₂ ◌∷◌ (rw (eq→== a a refl)) (
    read_same (write f a (x ∷ xs)) (write f (a + 1) xs) (a + 1) (length xs)
      (λ j lo hi. rw (ne→not_== j a (omega arith)))
    ∙ read-write f (a + 1) xs)

pub load_int-store_int : (f : Mem) (a n : ℕ) → n < 2 ^ 32 → load_int (store_int f a n) a ≡ n
unfolding load_int store_int
load_int-store_int f a n h = ground arith

-- A store of an `int` changes its four bytes only.
pub store_int_above : (f : Mem) (a n j : ℕ) → a + 4 ≤ j → store_int f a n j ≡ f j
unfolding store_int
store_int_above f a n j h = write_above f a (int_bytes n) j h

pub store_int_below : (f : Mem) (a n j : ℕ) → j < a → store_int f a n j ≡ f j
unfolding store_int
store_int_below f a n j h = write_below f a (int_bytes n) j h

pub load_int_same :
    (f g : Mem) (a : ℕ) → ((j : ℕ) → a ≤ j → j < a + 4 → f j ≡ g j) → load_int f a ≡ load_int g a
unfolding load_int
load_int_same f g a same = omega (
  arith,
  same a (omega arith) (omega arith),
  same (a + 1) (omega arith) (omega arith),
  same (a + 2) (omega arith) (omega arith),
  same (a + 3) (omega arith) (omega arith),
)
