-- ===== src/Workers/Pool.antt =====
-- `wpool` as a whole: making, starting and stopping all units.
use ebot.Base.{
  ℕ, zero, suc, ◌+◌, ◌≡◌, ◌≢◌, refl, ap, ◌∙◌, Bool, true, false, none, some, List, [], ◌∷◌, ◌++◌,
  arith, length, map, Returns, Returns-bind, ok, fault, inl, inr, ◌⊎◌, Option-cases, Bool-cases,
  ne→not_==, ℤ, pos, negsuc, not_negative, sym, ◌&&◌, ltb, leb, ltb→lt, le→leb, lt→not_leb,
  not_ltb→le, if◌then◌else◌,
}
use ebot.Ring
use ebot.Ring.{Ringq}
use ebot.Bytes.{int_max}
use ebot.Ring.Locked.{destroy}
use ebot.Ring.Refine.{new-some, new-none}
use ebot.Workers.{
  Wunit, Wpool, Threads, blank, wunit_init, init_units, destory_units, destory, new, exec,
  pool_bytes, start_units, start, lower, stop_units, stop, null,
}

-- All units have the status.
abbrev pub Statuses : ℕ → List Wunit → Type 0
Statuses s [] = Unit
Statuses s (u ∷ us) = (u.status ≡ s) × Statuses s us

-- All units have a thread.
abbrev pub Made : List Wunit → Type 0
Made [] = Unit
Made (u ∷ us) = (u.tid ≢ 0) × Made us

-- The units but for their threads and their status.
abbrev pub parts : List Wunit → List Wunit
parts = map {A = Wunit} (λ u. record u { tid = 0; status = 0 })

abbrev pub iterate : {W : Type 0} → (W → W) → ℕ → W → W
iterate f zero world = world
iterate f (suc n) world = iterate f n (f world)

module _ {W : Type 0} (threads : Threads W)
    (made : (w : W) (u : Wunit)
      → (tid : ℕ) × (w' : W) × (tid ≢ 0) × (threads.create w u ≡ (some tid, w'))) where
  start_units_lem :
      (us : List Wunit) (world : W)
      → let (us', world') = start_units threads us world in
        Made us' × Statuses 1 us' × (parts us' ≡ parts us)
  unfolding start_units
  start_units_lem [] world = (tt, tt, refl)
  start_units_lem (u ∷ us) world =
      let (tid, world', t, e) = made world (record u { status = 1 }) in
      let (some_made, ones, same) = start_units_lem us world' in
      rw e ((t, some_made), (refl, ones), ap (λ l. record u { tid = 0; status = 0 } ∷ l) same)

  -- `Told` says of an event descriptor that it has been written to, and a thread ends where that of
  -- its unit has.
  module _ (Told : W → ℤ → Type 0) (told : (w : W) (efd : ℤ) → Told (threads.signal w efd 15) efd)
      (ends : (w : W) (u : Wunit) → Told w u.efd → Returns (λ _. Unit) (threads.join w u.tid)) where
    lower_lem :
        (s : ℕ) (efd : ℤ) (world : W)
        → ((lower threads s efd world).0 ≡ 0) × (s ≢ 0 → Told (lower threads s efd world).1 efd)
    unfolding lower
    lower_lem zero efd world = (refl, λ ne. absurd (ne refl))
    lower_lem (suc zero) efd world = (refl, λ ne. told world efd)
    lower_lem (suc (suc s)) efd world =
        let (zeroed, heard) = lower_lem (suc s) efd (threads.signal world efd 15) in
        (zeroed, λ ne. heard (λ e. omega (arith, e)))

    stop_units_lem :
        (us : List Wunit) (world : W)
        → Made us
        → Statuses 1 us
        → Returns
            (λ (done, us', world'). (done ≡ true) × Statuses 0 us' × (parts us' ≡ parts us))
            (stop_units threads us world)
    unfolding stop_units
    stop_units_lem [] world h ones = (refl, tt, refl)
    stop_units_lem (u ∷ us) world (t, h) (one, ones) =
        let (zeroed, heard) = lower_lem u.status u.efd world in
        rw (ne→not_== u.tid 0 t) (
          Returns-bind _ _ (threads.join (lower threads u.status u.efd world).1 u.tid) _
            (ends (lower threads u.status u.efd world).1 u (heard (λ e. omega (arith, e, one))))
            (λ world' _.
              Returns-bind _ _ (stop_units threads us world') _ (stop_units_lem us world' h ones)
                (λ (done, us', w) (all, zeros, same).
                  (all, (zeroed, zeros), ap (λ l. record u { tid = 0; status = 0 } ∷ l) same))))

    -- A pool that `wpool_start` has started can be stopped: `wpool_stop` comes back, the units are
    -- the same ones but for their threads, and their status and that of the pool is 0. This is so
    -- where each thread can be made, and comes to its end if the event descriptor of its unit has
    -- been written to.
    pub start-stop :
        (wp : Wpool) (world : W)
        → let (wp', world') = start threads wp world in
          Statuses 1 wp'.units
          × Returns
              (λ (wp'', world'').
                (wp''.status ≡ 0) × Statuses 0 wp''.units × (parts wp''.units ≡ parts wp.units))
              (stop threads wp' world')
    unfolding start stop
    start-stop wp world =
        let (some_made, ones, same) = start_units_lem wp.units world in
        let (units, world') = start_units threads wp.units world in
        (
          ones,
          Returns-bind _ _ (stop_units threads units world') _
              (stop_units_lem units world' some_made ones)
              (λ (done, us, w) (all, zeros, still). (rw all, zeros, still ∙ same)),
        )

-- A unit that `wunit_init` has not finished has no ring, and the others have one.
wunit_init_lem :
    (u : Wunit) (qsz id : ℕ) (efd : ℤ) (malloc_ok : Bool)
    → u.rq ≡ none
    → let (done, u') = wunit_init u qsz id efd malloc_ok in
      ((done ≡ false) × (destroy u'.rq ≡ fault)) ⊎ ((done ≡ true) × (destroy u'.rq ≡ ok tt))
unfolding wunit_init destroy
wunit_init_lem u qsz id (negsuc e) malloc_ok h = inl (refl, rw h)
wunit_init_lem u qsz id (pos efd) malloc_ok h = elim (Option-cases (Ring.new qsz true malloc_ok)) [
  | inl no_ring ↦ rw (wunit_init, no_ring) (inl (refl, refl))
  | inr (rq, ring) ↦ rw (wunit_init, ring) (inr (refl, refl))
]

destory_unfinished :
    (rq_sz : ℕ) (efds : ℕ → ℤ) (mallocs : ℕ → Bool) (k i : ℕ)
    → let (done, us) = init_units rq_sz efds mallocs k i in
      (done ≡ false → destory_units us ≡ fault)
unfolding init_units destory_units
destory_unfinished rq_sz efds mallocs zero i h = cc
destory_unfinished rq_sz efds mallocs (suc k) i h =
    elim (wunit_init_lem blank rq_sz (i + 1) (efds i) (mallocs i) refl) [
      | inl (undone, faults) ↦ rw (undone, faults) refl
      | inr (done, fine) ↦
          let later : (init_units rq_sz efds mallocs k (i + 1)).0 ≡ false = rw done at h in
          rw (done, fine, destory_unfinished rq_sz efds mallocs k (i + 1) later) refl
    ]

-- The system gives what `wpool_new` needs for `k` units from `i` on.
abbrev pub given : (efds : ℕ → ℤ) (mallocs : ℕ → Bool) (k i : ℕ) → Bool
given efds mallocs zero i = true
given efds mallocs (suc k) i = (not_negative (efds i) && mallocs i) && given efds mallocs k (i + 1)

-- The units with their numbers, event descriptors and rings.
abbrev pub fresh_units : (rq_sz : ℕ) (efds : ℕ → ℤ) (k i : ℕ) → List Wunit
fresh_units rq_sz efds zero i = []
fresh_units rq_sz efds (suc k) i =
    record blank { id = i + 1; efd = efds i; rq = Ring.new rq_sz true true }
    ∷ fresh_units rq_sz efds k (i + 1)

one_given :
    (rq_sz id : ℕ) (efd : ℤ) (malloc_ok : Bool)
    → let (done, u) = wunit_init blank rq_sz id efd malloc_ok in
      (done ≡ (not_negative efd && malloc_ok))
      × (done ≡ true → u ≡ record blank { id = id; efd = efd; rq = Ring.new rq_sz true true })
unfolding wunit_init
one_given rq_sz id (negsuc e) b = (refl, λ h. cc)
one_given rq_sz id (pos n) true =
    let (rq, e) = new-some rq_sz true in rw (wunit_init, e) (refl, λ h. refl)
one_given rq_sz id (pos n) false = rw (wunit_init, new-none rq_sz true) (refl, λ h. cc)

units_given :
    (rq_sz : ℕ) (efds : ℕ → ℤ) (mallocs : ℕ → Bool) (k i : ℕ)
    → let (done, us) = init_units rq_sz efds mallocs k i in
      (done ≡ given efds mallocs k i) × (done ≡ true → us ≡ fresh_units rq_sz efds k i)
unfolding init_units
units_given rq_sz efds mallocs zero i = (refl, λ h. refl)
units_given rq_sz efds mallocs (suc k) i =
    let (same, unit) = one_given rq_sz (i + 1) (efds i) (mallocs i) in
    let (later, rest) = units_given rq_sz efds mallocs k (i + 1) in
    elim (Bool-cases (wunit_init blank rq_sz (i + 1) (efds i) (mallocs i)).0) [
      | inl done ↦ rw (done, sym same ∙ done) (later, λ h. (λ j. unit done j ∷ rest h j))
      | inr undone ↦ rw (undone, sym same ∙ undone) (refl, λ h. cc)
    ]

-- `wpool_new` gives a pool with all of its units, each with its number, its event descriptor and a
-- new ring, where the size of the pool is an `int`, there is memory for it, and for each unit there
-- are an event descriptor and memory for its ring. In every other case it runs into undefined
-- behaviour, and so it never gives `NULL`.
pub new_lem :
    (num rq_sz : ℕ) (mem_ok : Bool) (efds : ℕ → ℤ) (mallocs : ℕ → Bool)
    → new num rq_sz mem_ok efds mallocs ≡ (
        if (mem_ok && leb (pool_bytes num) int_max) && given efds mallocs num 0
        then ok (some (record { units = fresh_units rq_sz efds num 0; status = 0 }))
        else fault)
unfolding new destory
new_lem num rq_sz false efds mallocs = refl
new_lem num rq_sz true efds mallocs = elim (Bool-cases (ltb int_max (pool_bytes num))) [
  | inl big ↦ rw (big, lt→not_leb _ _ (ltb→lt _ _ big)) refl
  | inr small ↦
      let (same, units) = units_given rq_sz efds mallocs num 0 in
      let room : leb (pool_bytes num) int_max ≡ true = le→leb _ _ (not_ltb→le _ _ small) in
      elim (Bool-cases (init_units rq_sz efds mallocs num 0).0) [
        | inl done ↦
            rw (small, room, sym same ∙ done, done)
              (λ i. ok (some (record { units = units done i; status = 0 })))
        | inr undone ↦
            rw
              (
                small,
                room,
                sym same ∙ undone,
                undone,
                destory_unfinished rq_sz efds mallocs num 0 undone,
              )
              refl
      ]
]

-- A worker calls its handler once for each time that it finds its status set, and ends when it
-- finds it 0, if the handler comes back each time.
pub exec_lem :
    {W : Type 0} (handler : ℕ) (act : W → W) (statuses rest : List ℕ) (world : W)
    → handler ≢ null
    → exec handler (λ w. ok (act w)) (map suc statuses ++ (0 ∷ rest)) world
      ≡ ok (iterate act (length statuses) world)
unfolding exec
exec_lem handler act [] rest world h = refl
exec_lem handler act (s ∷ statuses) rest world h =
    rw (ne→not_== handler null h) (exec_lem handler act statuses rest (act world) h)
