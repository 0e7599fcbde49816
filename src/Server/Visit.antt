-- ===== src/Server/Visit.antt =====
-- A connection from the pipe to its end, in the reactor that has it.
use mathlib.Core.Quot
use std.Path.{subst}
use ebot.Base.{
  ℕ, ◌+◌, ◌-◌, ◌<◌, ◌≡◌, refl, sym, ap, ◌∙◌, Bool, true, false, List, [], ◌∷◌, ◌++◌, arith, Returns,
  Returns-bind, Returns-map, ◌>>=◌, ℕ_discrete, Bag, bag, insert, tally-append, ne→not_==,
}
use ebot.Event.Marks.{unqueued}
use ebot.Event.{Base, Event, event_read, event_write}
use ebot.Event.System.{Epoll, Obeys, Accepts}
use ebot.Event.Tables.{Agrees}
use ebot.Pool.{Pool, header}
use ebot.Pool.Moves.{Has}
use ebot.Pool.Valid.{Valid}
use ebot.Server.Client.{pipe_callback, piped, hang_up, client_read, client_write}
use ebot.Server.Hangup.{Waits, freed, Parted, hang_up-Parted}
use ebot.Server.Joining.{Joined, pipe_callback-Joined}
use ebot.Server.Types.{Reactor, Net}

-- The tables and the queue are what they were.
abbrev pub AsBefore : {K Q : Type 0} → Base K Q → Base K Q → Type 0
AsBefore eb eb' =
    ((j : ℕ) → (eb'.read_waits j ≡ eb.read_waits j) × (eb'.write_waits j ≡ eb.write_waits j))
    × (eb'.wait_sz ≡ eb.wait_sz)
    × (eb'.event_readies ≡ eb.event_readies)

freed_slab : (s : ℕ) (x : Bag) → freed (s + header) x ≡ insert s x
freed_slab s x =
    let e : s + header - header ≡ s = omega arith in
    rw (ne→not_== (s + header) 0 (λ z. omega (arith, z))) (ap (λ n. insert n x) e)

pub both_freed :
    (r w s t : ℕ) (x : Bag)
    → r ≡ s + header
    → w ≡ t + header
    → freed r (freed w x) ≡ insert s (insert t x)
both_freed r w s t x er ew =
    (λ i. freed (er i) (freed (ew i) x))
    ∙ freed_slab s (freed (t + header) x)
    ∙ ap (insert s) (freed_slab t x)

bag_swap : (s t : ℕ) (xs : List ℕ) → bag (t ∷ s ∷ xs) ≡ bag (s ∷ t ∷ xs)
bag_swap s t xs = Quot.sound λ a. omega arith

pub bag_snoc_snoc :
    (s t : ℕ) (xs : List ℕ) → bag ((xs ++ (s ∷ [])) ++ (t ∷ [])) ≡ insert s (insert t (bag xs))
bag_snoc_snoc s t xs =
    Quot.sound
      λ a. omega (arith, tally-append (xs ++ (s ∷ [])) (t ∷ []) a, tally-append xs (s ∷ []) a)

-- An event that is where it is expected.
pub Waits-at :
    {K Q : Type 0} (eb : Base K Q) (e : Event) (fd x s : ℕ)
    → x ≡ s + header
    → unqueued (eb.events (s + header)) ≡ e
    → e.fd ≡ fd
    → Waits eb e.kide fd x
Waits-at eb e fd x s ex is at =
    subst (Waits eb e.kide fd) (sym ex)
      λ ne. (ap (λ f. f.fd) is ∙ at, ap (λ f. f.kide) is, omega arith)

module _ {K Q W : Type 0} (epoll : Epoll K) (net : Net W) (obeys : Obeys epoll)
    (accepts : Accepts epoll) where
  hang_up-Joined :
      (this fd : ℕ) (base base1 : Base K Q) (mp : Pool) (s t : ℕ) (free busy : List ℕ)
      → fd < base.wait_sz
      → base.read_waits fd ≡ 0
      → base.write_waits fd ≡ 0
      → Joined epoll net this fd (s + header) (t + header) base base1
      → Valid mp free ((busy ++ (s ∷ [])) ++ (t ∷ []))
      → mp.held ≡ false
      → Returns
          (λ (base', mp').
            AsBefore base base' × Agrees epoll base' × Has (bag (s ∷ t ∷ free)) (bag busy) mp')
          (hang_up epoll net base1 mp fd)
  hang_up-Joined this fd base base1 mp s t free busy fits no_read no_write
        (g1, ra, wb, ea, eb, sz, q, ks, evs, others) v h =
      let r = base1.read_waits fd in
      let w = base1.write_waits fd in
      let has : Has (bag free) (freed r (freed w (bag busy))) mp = (
        free,
        (busy ++ (s ∷ [])) ++ (t ∷ []),
        v,
        h,
        refl,
        bag_snoc_snoc s t busy ∙ sym (both_freed r w s t (bag busy) ra wb),
      ) in
      let free_again : freed w (freed r (bag free)) ≡ bag (s ∷ t ∷ free) =
        both_freed w r t s (bag free) wb ra ∙ bag_swap s t free in
      Returns-map
        {P = λ (eb', mp').
          Parted epoll net fd base1 eb' × Has (freed w (freed r (bag free))) (bag busy) mp'}
        (hang_up epoll net base1 mp fd)
        (λ (base2, mp2) ((g2, r2, w2, (sz2, ev2, q2, ks2, o2)), has2). (
          (
            λ j. elim (ℕ_discrete j fd) [
              | yes here ↦ rw here (r2 ∙ sym no_read, w2 ∙ sym no_write)
              | no other ↦
                  ((o2 j other).0 ∙ (others j other).0, (o2 j other).1 ∙ (others j other).1)
            ],
            sz2 ∙ sz,
            q2 ∙ q,
          ),
          g2,
          subst (λ x. Has x (bag busy) mp2) free_again has2,
        ))
        (hang_up-Parted epoll net obeys base1 fd g1 (omega (arith, sz, fits)) mp (bag free)
          (bag busy)
          (Waits-at base1 (event_read fd client_read this) fd r s ra (ap unqueued ea) refl)
          (Waits-at base1 (event_write fd client_write this) fd w t wb (ap unqueued eb) refl) has)

  -- A new connection whose end comes next leaves the reactor and the pool of events as they were:
  -- the tables, which agree with the kernel, and the queue of ready events are the same, and the
  -- same slabs are free. This is so for a descriptor in the arrays that nothing waits for, in a
  -- base for both kinds, with two free slabs.
  pub pipe_callback-hang_up :
      (r : Reactor K Q) (this fd : ℕ) (mp : Pool) (read_ok write_ok : Bool) (s t : ℕ)
      (free busy : List ℕ)
      → Agrees epoll r.base
      → fd < r.base.wait_sz
      → r.base.kides.reads ≡ true
      → r.base.kides.writes ≡ true
      → r.base.read_waits fd ≡ 0
      → r.base.write_waits fd ≡ 0
      → Valid mp (s ∷ t ∷ free) busy
      → mp.held ≡ false
      → Returns
          (λ (base', mp').
            AsBefore r.base base' × Agrees epoll base' × Has (bag (s ∷ t ∷ free)) (bag busy) mp')
          (pipe_callback epoll net r this mp (piped fd) read_ok write_ok >>= λ (r', mp').
            hang_up epoll net r'.base mp' fd)
  pipe_callback-hang_up r this fd mp read_ok write_ok s t free busy g fits reads writes no_read
        no_write v h =
      Returns-bind _ _ (pipe_callback epoll net r this mp (piped fd) read_ok write_ok) _
        (pipe_callback-Joined epoll net obeys accepts r.base this fd g fits reads writes no_read
          no_write r mp read_ok write_ok s t free busy refl v h)
        λ (r1, mp1) (joined, v1, h1).
          hang_up-Joined this fd r.base r1.base mp1 s t free busy fits no_read no_write joined v1 h1
