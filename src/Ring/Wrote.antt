-- ===== src/Ring/Wrote.antt =====
-- What the three ways in which `ringq_push` copies an item leave in memory.
use ebot.Base.{
  ℕ, ◌+◌, ◌-◌, ◌^◌, ◌≤◌, ◌<◌, ◌≡◌, ap₂, ◌∙◌, List, ◌++◌, arith, length, length-append, ◌⊎◌, inl,
  inr, lt→ltb, le→not_ltb,
}
use ebot.Bytes.{
  Mem, write, load_int, store_int, write_below, write_above, read_same, read-write,
  load_int-store_int, load_int_same, store_int_above, store_int_below,
}
use ebot.Ring.Layout.{wrap, Cell, ring_read, ring_read-straight, ring_read-split}

-- `g` is `f` with the item `y` put at `t`.
pub record Wrote (f g : Mem) (s t : ℕ) (y : List ℕ) : Type 0 where
  pub outside : (p : ℕ) → p < s + 4 → ¬ Cell s t (4 + length y) p → g p ≡ f p
  pub header : load_int g t ≡ length y
  pub bytes : ring_read g s (wrap s (t + 4)) (length y) ≡ y

module _ (f : Mem) (s t : ℕ) (ht : t < s) where
  header_kept :
      (n p : ℕ) (a : List ℕ)
      → n < 2 ^ 32
      → t + 4 ≤ p ⊎ p + length a ≤ t
      → load_int (write (store_int f t n) p a) t ≡ n
  header_kept n p a small apart =
      load_int_same (write (store_int f t n) p a) (store_int f t n) t (λ j lo hi.
        ground (arith, write_below (store_int f t n) p a j, write_above (store_int f t n) p a j))
      ∙ load_int-store_int f t n small

  -- The item ends in front of the end of the ring.
  pub straight-Wrote :
      (y : List ℕ)
      → t + (4 + length y) < s
      → length y < 2 ^ 32
      → Wrote f (write (store_int f t (length y)) (t + 4) y) s t y
  straight-Wrote y fits small = record {
    outside = λ p lt out. ground (
      arith,
      write_below (store_int f t (length y)) (t + 4) y p,
      write_above (store_int f t (length y)) (t + 4) y p,
      store_int_below f t (length y) p,
      store_int_above f t (length y) p,
    );
    header = header_kept (length y) (t + 4) y small (inl (omega arith));
    bytes = rw (lt→ltb (t + 4) s (omega arith)) (
        ring_read-straight (write (store_int f t (length y)) (t + 4) y) s (t + 4) (length y)
          (omega arith)
        ∙ read-write (store_int f t (length y)) (t + 4) y);
  }

  -- The length goes up to the end of the ring or past it, and the item starts behind it.
  pub jump-Wrote :
      (y : List ℕ)
      → s ≤ t + 4
      → 4 + length y < s
      → length y < 2 ^ 32
      → Wrote f (write (store_int f t (length y)) (t + 4 - s) y) s t y
  jump-Wrote y far fits small = record {
    outside = λ p lt out. ground (
      arith,
      write_below (store_int f t (length y)) (t + 4 - s) y p,
      write_above (store_int f t (length y)) (t + 4 - s) y p,
      store_int_below f t (length y) p,
      store_int_above f t (length y) p,
    );
    header = header_kept (length y) (t + 4 - s) y small (inr (omega arith));
    bytes = rw (le→not_ltb (t + 4) s far) (
        ring_read-straight (write (store_int f t (length y)) (t + 4 - s) y) s (t + 4 - s) (length y)
          (omega arith)
        ∙ read-write (store_int f t (length y)) (t + 4 - s) y);
  }

  -- The item runs up to the end of the ring, and the rest of it starts at 0.
  pub split-Wrote :
      (a b : List ℕ) {n : ℕ}
      → n ≡ length a + length b
      → t + 4 < s
      → t + 4 + length a ≡ s
      → 4 + n < s
      → n < 2 ^ 32
      → Wrote f (write (write (store_int f t n) (t + 4) a) 0 b) s t (a ++ b)
  split-Wrote a b {n} en near full fits small = record {
    outside = λ p lt out. ground (
      arith,
      length-append a b,
      write_below (write (store_int f t n) (t + 4) a) 0 b p,
      write_above (write (store_int f t n) (t + 4) a) 0 b p,
      write_below (store_int f t n) (t + 4) a p,
      write_above (store_int f t n) (t + 4) a p,
      store_int_below f t n p,
      store_int_above f t n p,
    );
    header =
        load_int_same (write (write (store_int f t n) (t + 4) a) 0 b)
          (write (store_int f t n) (t + 4) a) t
          (λ j lo hi. write_above (write (store_int f t n) (t + 4) a) 0 b j (omega arith))
        ∙ header_kept n (t + 4) a small (inl (omega arith))
        ∙ omega (arith, length-append a b);
    bytes =
        let g = write (write (store_int f t n) (t + 4) a) 0 b in
        rw (lt→ltb (t + 4) s near, length-append a b)
          (ring_read-split g s (t + 4) (length a) (length b) near full
            ∙ ap₂ ◌++◌
                (read_same g (write (store_int f t n) (t + 4) a) (t + 4) (length a)
                    (λ j lo hi. write_above (write (store_int f t n) (t + 4) a) 0 b j (omega arith))
                  ∙ read-write (store_int f t n) (t + 4) a)
                (ring_read-straight g s 0 (length b) (omega arith)
                  ∙ read-write (write (store_int f t n) (t + 4) a) 0 b));
  }
