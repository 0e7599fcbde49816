-- ===== src/Io/Flags.antt =====
-- The flags that `set_nonblock` sets.
use ebot.Base.{
  ℕ, zero, suc, ◌/◌, ◌%◌, ◌^◌, ◌<◌, ◌≡◌, refl, Bool, true, false, List, [], ◌∷◌, ◌++◌, arith,
  replicate, Returns, ok,
}
use ebot.Io.{Answer, value, interrupted, retry, set_nonblock, has_nonblock}

-- Calls that are interrupted `n` times and then give `v`.
abbrev pub at_last : ℕ → ℕ → List Answer
at_last n v = replicate n interrupted ++ (value v ∷ [])

retry_lem : (n v : ℕ) → retry (at_last n v) ≡ ok v
unfolding retry
retry_lem zero v = refl
retry_lem (suc n) v = retry_lem n v

-- `set_nonblock(fd, 1)` sets the flag of a descriptor and leaves the other flags, however often
-- the calls are interrupted before they work.
pub set_nonblock_on :
    (opts n m r : ℕ)
    → opts < 2 ^ 31
    → Returns
        (λ opts'.
          (has_nonblock opts' ≡ true) × (opts' % 2048 ≡ opts % 2048) × (opts' / 4096 ≡ opts / 4096))
        (set_nonblock true (at_last n opts) (at_last m r))
unfolding set_nonblock
set_nonblock_on opts n m r h = rw (retry_lem n opts, retry_lem m r) (ground arith)

-- `set_nonblock(fd, 0)` leaves the flag as it is and sets all others: a descriptor that does not
-- block stays so.
pub set_nonblock_off :
    (opts n m r : ℕ)
    → opts < 2 ^ 31
    → Returns
        (λ opts'.
          (has_nonblock opts' ≡ has_nonblock opts)
          × (opts' % 2048 ≡ 2047)
          × (opts' / 4096 ≡ 1048575))
        (set_nonblock false (at_last n opts) (at_last m r))
unfolding set_nonblock
set_nonblock_off opts n m r h = rw (retry_lem n opts, retry_lem m r) (ground arith)

-- The loops of `set_nonblock` come to an end where `fcntl` works at last.
pub set_nonblock_ends :
    (b : Bool) (opts n m r : ℕ)
    → Returns (λ _. Unit) (set_nonblock b (at_last n opts) (at_last m r))
unfolding set_nonblock
set_nonblock_ends b opts n m r = rw (retry_lem n opts, retry_lem m r) tt
