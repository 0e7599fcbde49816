-- ===== src/Vec/Items.antt =====
-- The array as a list: what each operation does to the elements that it holds.
use ebot.Base.{
  ℕ, zero, suc, ◌+◌, ◌-◌, ◌*◌, ◌≤◌, ◌<◌, ◌≡◌, refl, sym, ap, ap₂, ◌∙◌, true, false, ◌&&◌, List, [],
  ◌∷◌, ◌++◌, arith, length, take, drop, leb, ltb, if◌then◌else◌, Returns, ok, fault, ne→not_==,
  eq→==, le→leb, lt→not_leb, take-append-length, append-drop-length, lt→ltb, le→not_ltb, not_ltb→le,
  Bool-cases, inl, inr,
}
use ebot.Bytes.{int_max}
use ebot.Vec.{Vec, grown, expand, put_at, push, pop, splice}

-- The first `n` elements from `a` on.
abbrev pub cells {ℓ} : {A : Type ℓ} → (ℕ → A) → (a n : ℕ) → List A
cells f a zero = []
cells f a (suc n) = f a ∷ cells f (a + 1) n

module _ {A : Type 0} where
  cells_same :
      (f g : ℕ → A) (a n : ℕ)
      → ((i : ℕ) → a ≤ i → i < a + n → f i ≡ g i)
      → cells f a n ≡ cells g a n
  cells_same f g a zero same = refl
  cells_same f g a (suc n) same =
      rw (same a (omega arith) (omega arith)) (
        ap (λ l. g a ∷ l)
          (cells_same f g (a + 1) n (λ i lo hi. same i (omega arith) (omega arith))))

  cells_shift :
      (f g : ℕ → A) (a b n : ℕ)
      → ((i : ℕ) → i < n → f (a + i) ≡ g (b + i))
      → cells f a n ≡ cells g b n
  cells_shift f g a b zero same = refl
  cells_shift f g a b (suc n) same =
      let here : f a ≡ g b = ap f (omega arith) ∙ same 0 (omega arith) ∙ ap g (omega arith) in
      rw here (
        ap (λ l. g b ∷ l)
          (cells_shift f g (a + 1) (b + 1) n
            (λ i h. ap f (omega arith) ∙ same (i + 1) (omega arith) ∙ ap g (omega arith))))

  cells_append : (f : ℕ → A) (a m n : ℕ) → cells f a (m + n) ≡ cells f a m ++ cells f (a + m) n
  cells_append f a zero n =
      let e : 0 + n ≡ n = omega arith in let s : a + 0 ≡ a = omega arith in rw (e, s)
  cells_append f a (suc m) n =
      let e : suc m + n ≡ suc (m + n) = omega arith in
      let s : a + suc m ≡ a + 1 + m = omega arith in
      rw (e, s) (ap (λ l. f a ∷ l) (cells_append f (a + 1) m n))

  abbrev pub items : Vec A → List A
  items v = cells v.elems 0 v.length

  -- The block has room for `capacity` elements, and the elements are below that.
  pub record Sound (v : Vec A) : Type 0 where
    pub fits : v.length ≤ v.capacity
    pub whole : v.room ≡ v.capacity

  put_items : (f : ℕ → A) (n : ℕ) (a : A) → cells (put_at f n a) 0 (n + 1) ≡ cells f 0 n ++ (a ∷ [])
  put_items f n a =
      let here : put_at f n a (0 + n) ≡ a = rw (eq→== (0 + n) n (omega arith)) in
      cells_append (put_at f n a) 0 n 1
      ∙ rw
          (cells_same (put_at f n a) f 0 n (λ i lo hi. rw (ne→not_== i n (λ e. omega arith))), here)

  grown_lt : (v : Vec A) → Sound v → v.length < grown v.capacity
  grown_lt v s = ground (arith, s.fits)

  -- `vec_push` puts the element behind the others, where memory is there and the size of the array
  -- is an `int`.
  pub push-Sound :
      (v : Vec A) (memsz : ℕ) (val : A)
      → Sound v
      → grown v.capacity * memsz ≤ int_max
      → Returns (λ v'. Sound v' × (items v' ≡ items v ++ (val ∷ []))) (push v memsz true val)
  unfolding push
  push-Sound v memsz val s small = elim (Bool-cases (ltb v.capacity (v.length + 1))) [
    | inl tight ↦
        rw
          (
            tight,
            le→not_ltb int_max (grown v.capacity * memsz) small,
            lt→ltb v.length (grown v.capacity) (grown_lt v s),
          )
          (
            record { fits = omega (arith, grown_lt v s); whole = refl },
            put_items v.elems v.length val,
          )
    | inr loose ↦
        let below : v.length < v.capacity =
          omega (arith, not_ltb→le v.capacity (v.length + 1) loose) in
        rw (loose, lt→ltb v.length v.room (omega (arith, below, s.whole)))
          (record { fits = omega (arith, below); whole = s.whole }, put_items v.elems v.length val)
  ]

  -- Where `realloc` gives no memory for a full array whose new size in bytes is an `int`,
  -- `vec_expand` comes to its end with the capacity grown and the block as it was; then `vec_push`
  -- writes beyond the block.
  pub push_no_memory :
      (v : Vec A) (memsz : ℕ) (val : A)
      → Sound v
      → v.length ≡ v.capacity
      → grown v.capacity * memsz ≤ int_max
      → (expand v memsz false ≡ ok (record v { capacity = grown v.capacity }))
        × (v.room < grown v.capacity)
        × (push v memsz false val ≡ fault)
  unfolding push expand
  push_no_memory v memsz val s filled few =
      let tight = lt→ltb v.capacity (v.length + 1) (omega (arith, filled)) in
      let small = le→not_ltb int_max (grown v.capacity * memsz) few in
      (
        rw (tight, small) refl,
        omega (arith, grown_lt v s, filled, s.whole),
        rw (tight, small, le→not_ltb v.length v.room (omega (arith, filled, s.whole))),
      )

  -- `vec_pop` takes the last element away and gives it, where there is one.
  pub pop-Sound :
      (v : Vec A)
      → Sound v
      → 0 < v.length
      → Returns (λ (x, v'). Sound v' × (items v ≡ items v' ++ (x ∷ []))) (pop v)
  unfolding pop
  pop-Sound v s h =
      let one : v.length ≡ v.length - 1 + 1 = omega (arith, h) in
      let at : 0 + (v.length - 1) ≡ v.length - 1 = omega arith in
      rw (lt→ltb 0 v.length h, le→leb v.length v.room (omega (arith, s.fits, s.whole)))
        (
          record { fits = omega (arith, s.fits); whole = s.whole },
          ap (cells v.elems 0) one
              ∙ cells_append v.elems 0 (v.length - 1) 1
              ∙ ap (λ k. cells v.elems 0 (v.length - 1) ++ (v.elems k ∷ [])) at,
        )

  length-cells : (f : ℕ → A) (a n : ℕ) → length (cells f a n) ≡ n
  length-cells f a zero = refl
  length-cells f a (suc n) = ap suc (length-cells f (a + 1) n)

  take-cells : (f : ℕ → A) (m n : ℕ) → m ≤ n → take m (cells f 0 n) ≡ cells f 0 m
  take-cells f m n h =
      let e : n ≡ m + (n - m) = omega (arith, h) in
      ap (λ k. take m (cells f 0 k)) e
      ∙ ap (take m) (cells_append f 0 m (n - m))
      ∙ ap (λ k. take k (cells f 0 m ++ cells f (0 + m) (n - m))) (sym (length-cells f 0 m))
      ∙ take-append-length (cells f 0 m) (cells f (0 + m) (n - m))

  drop-cells : (f : ℕ → A) (m n : ℕ) → m ≤ n → drop m (cells f 0 n) ≡ cells f m (n - m)
  drop-cells f m n h =
      let e : n ≡ m + (n - m) = omega (arith, h) in
      let z : 0 + m ≡ m = omega arith in
      ap (λ k. drop m (cells f 0 k)) e
      ∙ ap (drop m) (cells_append f 0 m (n - m))
      ∙ ap (λ k. drop k (cells f 0 m ++ cells f (0 + m) (n - m))) (sym (length-cells f 0 m))
      ∙ append-drop-length (cells f 0 m) (cells f (0 + m) (n - m))
      ∙ ap (λ k. cells f k (n - m)) z

  abbrev moved : Vec A → (start count : ℕ) → ℕ → A
  moved v start count i =
      if leb start i && ltb (i + count) v.length then v.elems (i + count) else v.elems i

  splice_items :
      (v : Vec A) (start count : ℕ)
      → start + count ≤ v.length
      → cells (moved v start count) 0 (v.length - count)
        ≡ take start (items v) ++ drop (start + count) (items v)
  splice_items v start count h =
      let e : v.length - count ≡ start + (v.length - (start + count)) = omega (arith, h) in
      let z : 0 + start ≡ start = omega arith in
      ap (cells (moved v start count) 0) e
      ∙ cells_append (moved v start count) 0 start (v.length - (start + count))
      ∙ ap₂ ◌++◌
          (cells_same (moved v start count) v.elems 0 start
              (λ i lo hi. rw (lt→not_leb start i (omega (arith, hi))))
            ∙ sym (take-cells v.elems start v.length (omega (arith, h))))
          (cells_shift (moved v start count) v.elems (0 + start) (start + count)
              (v.length - (start + count))
              (λ i below.
                rw
                  (
                    le→leb start (0 + start + i) (omega arith),
                    lt→ltb (0 + start + i + count) v.length (omega (arith, below)),
                  )
                  (ap v.elems (omega arith)))
            ∙ sym (drop-cells v.elems (start + count) v.length h))

  -- `vec_splice` takes out `count` elements from `start` on, where there are so many, and keeps the
  -- others in their order.
  pub splice-Sound :
      (v : Vec A) (start count : ℕ)
      → Sound v
      → start + count ≤ v.length
      → Returns
          (λ v'. Sound v' × (items v' ≡ take start (items v) ++ drop (start + count) (items v)))
          (splice v start count)
  unfolding splice
  splice-Sound v start count s h =
      rw
        (le→leb (start + count) v.length h, le→leb v.length v.room (omega (arith, s.fits, s.whole)))
        (record { fits = omega (arith, s.fits); whole = s.whole }, splice_items v start count h)
