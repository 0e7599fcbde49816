-- ===== src/Pool/Locked.antt =====
-- The calls of the pool under its mutex, `mpool_get_with_lock` and `mpool_put_with_lock`.
use mathlib.Core.Path.{subst⁻¹}
use ebot.Base.{ℕ, ◌≡◌, refl, true, false, arith, ok, waits, ◌>>=◌}
use ebot.Pool.{Pool, lock, unlock, get, put, get_with_lock, put_with_lock}

abbrev pub hold : Pool → Pool
hold mp = record mp { held = true }

get-unlock : (mp : Pool) → (get (hold mp) >>= λ (p, q). ok (p, unlock q)) ≡ get (unlock mp)
unfolding get unlock
get-unlock mp = ground arith

put-unlock : (mp : Pool) (p : ℕ) → (put (hold mp) p >>= λ q. ok (unlock q)) ≡ put (unlock mp) p
unfolding put unlock
put-unlock mp p = ground arith

get_with_lock-unlock : (mp : Pool) → get_with_lock (unlock mp) ≡ get (unlock mp)
unfolding get_with_lock lock unlock
get_with_lock-unlock mp = get-unlock mp

put_with_lock-unlock : (mp : Pool) (p : ℕ) → put_with_lock (unlock mp) p ≡ put (unlock mp) p
unfolding put_with_lock lock unlock
put_with_lock-unlock mp p = put-unlock mp p

pub with_lock_lem :
    (mp : Pool) (p : ℕ)
    → mp.held ≡ false
    → (get_with_lock mp ≡ get mp) × (put_with_lock mp p ≡ put mp p)
unfolding unlock
with_lock_lem mp p free =
    let self : mp ≡ unlock mp = λ i. record mp { held = free i } in
    subst⁻¹ (λ q. (get_with_lock q ≡ get q) × (put_with_lock q p ≡ put q p)) self
      (get_with_lock-unlock mp, put_with_lock-unlock mp p)

locked_waits :
    (mp : Pool) (p : ℕ) → mp.held ≡ true → (get_with_lock mp ≡ waits) × (put_with_lock mp p ≡ waits)
unfolding get_with_lock put_with_lock lock
locked_waits mp p locked = (rw locked refl, rw locked refl)

-- While another thread has the mutex, `mpool_get_with_lock` and `mpool_put_with_lock` wait. With it
-- free, `mpool_get_with_lock` comes to what `mpool_get` comes to and `mpool_put_with_lock` of any
-- pointer to what `mpool_put` of it comes to, in every case: the result, the pool with its mutex
-- free again, a failed `assert` and a fault too.
pub get_with_lock-eq-get :
    (mp : Pool) (p : ℕ)
    → (mp.held ≡ true → (get_with_lock mp ≡ waits) × (put_with_lock mp p ≡ waits))
      × (mp.held ≡ false → (get_with_lock mp ≡ get mp) × (put_with_lock mp p ≡ put mp p))
get_with_lock-eq-get mp p = (locked_waits mp p, with_lock_lem mp p)
