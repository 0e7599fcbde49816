-- ===== src/Pool/Tests.antt =====
-- The memory pool at concrete pools: runs of the code, and its theorems where their hypotheses
-- hold.
use ebot.Base.{
  true, waits, ℕ, ◌≡◌, refl, false, Option, some, none, List, [], ◌∷◌, arith, length, ◌==◌,
  if◌then◌else◌, Run, Returns, map, ok, fault, ◌>>=◌,
}
use ebot.Pool.{Pool, Slab, new, new_loop, get, put, lock, unlock, get_with_lock, put_with_lock}
use ebot.Pool.Locked.{get_with_lock-eq-get}
use ebot.Pool.Session.{Call, take, give, calls}
use ebot.Pool.Serve.{Served, calls-Steps}
use ebot.Pool.Dump.{dump, line_of, dump_lem}
use ebot.Pool.Valid.{Valid}
use ebot.Pool.Get.{get_single}
use ebot.Pool.New.{new-Valid}

abbrev slab : (used_by : ℕ) → (prev next : ℕ) → Slab
slab n prev next = record { used = n == 1; prev = prev; next = next }

-- Three slabs of eight bytes of data, at 100, 132 and 164, with the flags `a`, `b` and `c`, on the
-- list 164, 132, 100.
abbrev three : (a b c used : ℕ) → Pool
three a b c used = record {
  mem = 100;
  size = 96;
  head = 164;
  tail = 100;
  slab_num = 3;
  slab_size = 8;
  slab_used = used;
  slabs = λ x. if x == 164 then slab c 0 132 else if x == 132 then slab b 164 100 else slab a 132 0;
  held = false;
}

abbrev one : Pool
one = record (three 0 0 0 0) { size = 32; head = 100; slab_num = 1; slabs = λ x. slab 0 0 0 }

all_free-Valid : Valid (three 0 0 0 0) (164 ∷ 132 ∷ 100 ∷ []) []
all_free-Valid = record {
  links = (refl, refl, (refl, refl, (refl, refl, tt)));
  head_at = refl;
  tail_at = refl;
  distinct = omega arith;
  owned = omega arith;
  idle = (refl, (refl, (refl, tt)));
  taken = tt;
  counted = refl;
  few = omega arith;
  placed = omega arith;
  sized = omega arith;
}

all_busy-Valid : Valid (three 1 1 1 3) [] (164 ∷ 132 ∷ 100 ∷ [])
all_busy-Valid = record {
  links = (refl, refl, (refl, refl, (refl, refl, tt)));
  head_at = refl;
  tail_at = refl;
  distinct = omega arith;
  owned = omega arith;
  idle = tt;
  taken = (refl, (refl, (refl, tt)));
  counted = refl;
  few = omega arith;
  placed = omega arith;
  sized = omega arith;
}

one-Valid : Valid one (100 ∷ []) []
one-Valid = record {
  links = (refl, refl, tt);
  head_at = refl;
  tail_at = refl;
  distinct = omega arith;
  owned = omega arith;
  idle = (refl, tt);
  taken = tt;
  counted = refl;
  few = omega arith;
  placed = omega arith;
  sized = omega arith;
}

-- Two calls of `mpool_get` on a new pool of two slabs, a third that fails, one slab put back, and
-- a fourth call that gets it again.
abbrev session : Option Pool → Run (List (Option ℕ))
session none = fault
session (some mp) = do
  (p, mp) ← get mp
  (q, mp) ← get mp
  (r, mp) ← get mp
  mp ← put mp 124
  (s, mp) ← get mp
  ok (p ∷ q ∷ r ∷ s ∷ [])

run-session : (new 2 8 100 >>= session) ≡ ok (some 156 ∷ some 124 ∷ none ∷ some 124 ∷ [])
unfolding new new_loop get put
run-session = refl

new-Valid_example :
    Returns
      (λ r.
        (mp : Pool) × (free : List ℕ) × (r ≡ some mp)
        × Valid mp free []
        × (length free ≡ 2)
        × (mp.held ≡ false))
      (new 2 8 100)
new-Valid_example = new-Valid 2 8 100 (omega arith) (omega arith) (omega arith) (omega arith)

run_get_single : get one ≡ fault
run_get_single = get_single one-Valid

get_with_lock-eq-get_example :
    let mp = three 0 0 0 0 in
    (mp.held ≡ true → (get_with_lock mp ≡ waits) × (put_with_lock mp 188 ≡ waits))
    × (mp.held ≡ false → (get_with_lock mp ≡ get mp) × (put_with_lock mp 188 ≡ put mp 188))
get_with_lock-eq-get_example = get_with_lock-eq-get (three 0 0 0 0) 188

-- All three slabs go out, a fourth call gets nothing, one slab comes back, twice.
abbrev script : List Call
script = take ∷ take ∷ take ∷ take ∷ give 132 ∷ give 132 ∷ []

run-script :
    Returns
      (λ (out, mp). (out ≡ some 188 ∷ some 156 ∷ some 124 ∷ none ∷ []) × (mp.slab_used ≡ 2))
      (calls (three 0 0 0 0) script)
unfolding calls get_with_lock put_with_lock lock unlock get put
run-script = (refl, refl)

calls-Steps_example :
    Returns (Served (164 ∷ 132 ∷ 100 ∷ []) [] script) (calls (three 0 0 0 0) script)
calls-Steps_example =
    calls-Steps (164 ∷ 132 ∷ 100 ∷ []) [] script all_free-Valid refl (omega arith)
      (omega arith, (omega arith, tt))

dump_lem_example :
    dump 4 (three 1 1 1 3) ≡ ok (map (line_of (three 1 1 1 3)) (164 ∷ 132 ∷ 100 ∷ []))
dump_lem_example = dump_lem 4 (three 1 1 1 3) [] (164 ∷ 132 ∷ 100 ∷ []) all_busy-Valid (omega arith)
