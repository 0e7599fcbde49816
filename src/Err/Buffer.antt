-- ===== src/Err/Buffer.antt =====
-- The buffer of `err_doit`.
use ebot.Base.{
  ℕ, ℕ_discrete, zero, suc, ◌+◌, ◌-◌, ◌<◌, ◌≤◌, ◌≡◌, refl, ap, sym, ◌∙◌, Bool, true, false, ◌⊎◌,
  inl, inr, List, [], ◌∷◌, ◌++◌, arith, length, take, length-take, length-append, take-length,
  if◌then◌else◌, ok, fault, lt→ltb, le→not_ltb,
}
use mathlib.Core.List.{append-nil}
use ebot.Err.{err_doit, print_first, printed}

take_append_take :
    (n : ℕ) (xs ys : List ℕ) → take n xs ++ take (n - length (take n xs)) ys ≡ take n (xs ++ ys)
take_append_take zero xs ys = refl
take_append_take (suc n) [] ys = let e : suc n - 0 ≡ suc n = omega arith in rw e refl
take_append_take (suc n) (x ∷ xs) ys =
    let e : suc n - suc (length (take n xs)) ≡ n - length (take n xs) = omega arith in
    rw e (ap (λ zs. x ∷ zs) (take_append_take n xs ys))

-- Behind the text, cut off at 2047 bytes, comes that of the error, cut off as well.
abbrev pub message : (errnoflag : Bool) (text error : List ℕ) → List ℕ
message errnoflag text error = take 2047 (text ++ (if errnoflag then b':' ∷ b' ' ∷ error else []))

-- What `snprintf` adds to a text of `n` bytes.
printed_lem : (n : ℕ) (text : List ℕ) → n ≤ 2047 → printed (2048 - n) text ≡ take (2047 - n) text
printed_lem n text h = let e : 2048 - n ≡ suc (2047 - n) = omega (arith, h) in rw e refl

module _ (text error : List ℕ) where
  cut : List ℕ
  cut = take 2047 text

  length-cut : length (take 2047 text) ≤ 2047
  length-cut = omega (arith, length-take 2047 text)

  fits : (flag : Bool) → length (message flag text error) + 1 < 2049
  fits flag = omega (arith, length-take 2047 (text ++ (if flag then b':' ∷ b' ' ∷ error else [])))

  -- What stands in the buffer before the newline.
  filled :
      (flag : Bool)
      → (if flag
          then take 2047 text ++ printed (2048 - length (take 2047 text)) (b':' ∷ b' ' ∷ error)
          else take 2047 text)
        ≡ message flag text error
  filled true =
      ap (λ l. take 2047 text ++ l)
        (printed_lem (length (take 2047 text)) (b':' ∷ b' ' ∷ error) length-cut)
      ∙ take_append_take 2047 text (b':' ∷ b' ' ∷ error)
  filled false = ap (take 2047) (sym (append-nil text))

  err_doit_at :
      (bounded flag : Bool)
      → print_first bounded text ≡ ok (take 2047 text)
      → err_doit bounded flag text error ≡ ok (message flag text error ++ (10 ∷ []))
  unfolding err_doit
  err_doit_at bounded flag first =
      rw (first, filled flag, lt→ltb (length (message flag text error) + 1) 2049 (fits flag)) refl

  first :
      (bounded : Bool)
      → (bounded ≡ true) ⊎ (length text < 2048)
      → print_first bounded text ≡ ok (take 2047 text)
  unfolding print_first
  first true h = refl
  first false (inl e) = cc
  first false (inr h) =
      rw (lt→ltb (length text) 2049 (omega (arith, h)), take-length text 2047 (omega (arith, h)))
        refl

  abbrev full : Bool → List ℕ
  full flag = if flag then text ++ printed (2048 - length text) (b':' ∷ b' ' ∷ error) else text

  full_long : (flag : Bool) → length text ≤ length (full flag)
  full_long true =
      omega (arith, length-append text (printed (2048 - length text) (b':' ∷ b' ' ∷ error)))
  full_long false = omega arith

  -- One byte too many at least: a text of 2048 bytes fills the buffer, and the newline does not
  -- fit.
  overflow : (flag : Bool) → 2048 ≤ length text → err_doit false flag text error ≡ fault
  unfolding err_doit print_first
  overflow flag long = elim (ℕ_discrete (length text) 2048) [
    | yes e ↦
        rw
          (
            lt→ltb (length text) 2049 (omega (arith, e)),
            le→not_ltb (length (full flag) + 1) 2049 (omega (arith, e, full_long flag)),
          )
          refl
    | no ne ↦ rw (le→not_ltb (length text) 2049 (omega (arith, long, ne))) refl
  ]

  -- `err_doit` prints the message, followed by the text of the error where that is asked for, cut
  -- off at 2047 bytes in all, and a newline, where `HAVE_VSNPRINTF` is defined or the message has
  -- fewer than 2048 bytes. Else, and only then, it writes beyond its buffer.
  pub err_doit_lem :
      (bounded flag : Bool)
      → ((bounded ≡ true) ⊎ (length text < 2048)
          → err_doit bounded flag text error ≡ ok (message flag text error ++ (10 ∷ [])))
        × (bounded ≡ false → 2048 ≤ length text → err_doit bounded flag text error ≡ fault)
  unfolding err_doit print_first
  err_doit_lem bounded flag =
      (λ h. err_doit_at bounded flag (first bounded h), λ off long. rw off (overflow flag long))
