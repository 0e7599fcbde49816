-- ===== src/Server/Threads/Held.antt =====
-- The slabs of the events that wait in a base.
use ebot.Base.{
  ℕ, zero, suc, ◌-◌, ◌<◌, ◌≤◌, ◌≡◌, ◌≢◌, refl, sym, ap, ◌∙◌, some, List, [], ◌∷◌, arith, ◌==◌,
  get_elem?, set, ℕ_discrete, Bag, insert_comm, times, times-insert_self, Bool-cases, inl, inr,
  ne→not_==,
}
use std.Path.{subst}
use mathlib.Core.Option.{some-injective}
use ebot.Event.{Base, Event, put}
use ebot.Event.Opening.{put_self}
use ebot.Pool.{header}
use ebot.Server.Hangup.{freed}
use ebot.Server.Threads.{Thread}

-- The slabs of what waits for the descriptors below `n`, and those of `x`.
abbrev pub held : {K Q : Type 0} → Base K Q → (n : ℕ) → Bag → Bag
held eb zero x = x
held eb (suc n) x = freed (eb.read_waits n) (freed (eb.write_waits n) (held eb n x))

pub freed_comm : (a b : ℕ) (x : Bag) → freed a (freed b x) ≡ freed b (freed a x)
freed_comm a b x = elim (Bool-cases (a == 0)) [
  | inl za ↦ rw za refl
  | inr na ↦ elim (Bool-cases (b == 0)) [
    | inl zb ↦ rw (na, zb) refl
    | inr nb ↦ rw (na, nb) (insert_comm (a - header) (b - header) x)
  ]
]

-- A base in which nothing waits holds none.
pub held_none :
    {K Q : Type 0} (eb : Base K Q) (n : ℕ) (x : Bag)
    → ((fd : ℕ) → (eb.read_waits fd ≡ 0) × (eb.write_waits fd ≡ 0))
    → held eb n x ≡ x
held_none eb zero x none = refl
held_none eb (suc n) x none =
    (λ i. freed ((none n).0 i) (freed ((none n).1 i) (held eb n x))) ∙ held_none eb n x none

-- Two slabs move past two others.
freed_swap :
    (a b c d : ℕ) (x : Bag)
    → freed a (freed b (freed c (freed d x))) ≡ freed c (freed d (freed a (freed b x)))
freed_swap a b c d x =
    ap (freed a) (freed_comm b c (freed d x))
    ∙ freed_comm a c (freed b (freed d x))
    ∙ ap (λ z. freed c (freed a z)) (freed_comm b d x)
    ∙ ap (freed c) (freed_comm a d (freed b x))

module _ {K Q : Type 0} (eb eb' : Base K Q) (fd : ℕ)
    (off : (j : ℕ)
      → j ≢ fd
      → (eb'.read_waits j ≡ eb.read_waits j) × (eb'.write_waits j ≡ eb.write_waits j)) where
  held_below : (n : ℕ) (x : Bag) → n ≤ fd → held eb' n x ≡ held eb n x
  held_below zero x h = refl
  held_below (suc n) x h =
      let (r, w) = off n (λ e. omega (arith, e, h)) in
      (λ i. freed (r i) (freed (w i) (held_below n x (omega arith) i)))

  -- What two bases have for a descriptor, and the rest, which is the same where they differ in
  -- nothing else.
  pub held_split :
      (n : ℕ) (x : Bag)
      → fd < n
      → (rest : Bag) × (held eb n x ≡ freed (eb.read_waits fd) (freed (eb.write_waits fd) rest))
        × (held eb' n x ≡ freed (eb'.read_waits fd) (freed (eb'.write_waits fd) rest))
  held_split zero x h = absurd (omega arith)
  held_split (suc n) x h = elim (ℕ_discrete n fd) [
    | yes e ↦ (
      held eb n x,
      (λ i. freed (eb.read_waits (e i)) (freed (eb.write_waits (e i)) (held eb n x))),
      (λ i.
          freed (eb'.read_waits (e i))
            (freed (eb'.write_waits (e i)) (held_below n x (omega (arith, e)) i))),
    )
    | no ne ↦
        let (rest, one, two) = held_split n x (omega (arith, h, ne)) in
        let (r, w) = off n ne in
        (
          freed (eb.read_waits n) (freed (eb.write_waits n) rest),
          ap (λ z. freed (eb.read_waits n) (freed (eb.write_waits n) z)) one
              ∙ freed_swap (eb.read_waits n) (eb.write_waits n) (eb.read_waits fd)
                  (eb.write_waits fd) rest,
          (λ i. freed (r i) (freed (w i) (two i)))
              ∙ freed_swap (eb.read_waits n) (eb.write_waits n) (eb'.read_waits fd)
                  (eb'.write_waits fd) rest,
        )
  ]

pub held_events :
    {K Q : Type 0} (eb : Base K Q) (ev : ℕ → Event) (n : ℕ) (x : Bag)
    → held (record eb { events = ev }) n x ≡ held eb n x
held_events eb ev n x =
    held_below eb (record eb { events = ev }) n (λ j ne. (refl, refl)) n x (omega arith)

-- A base without what waits for a descriptor.
abbrev pub without : {K Q : Type 0} → (fd : ℕ) → Base K Q → Base K Q
without fd eb = record eb {
  read_waits = put eb.read_waits fd 0;
  write_waits = put eb.write_waits fd 0;
}

-- What a base has for a descriptor, and what another has for the others.
pub held_at :
    {K Q : Type 0} (eb eb' : Base K Q) (fd n : ℕ) (x : Bag)
    → ((j : ℕ)
        → j ≢ fd
        → (eb'.read_waits j ≡ eb.read_waits j) × (eb'.write_waits j ≡ eb.write_waits j))
    → fd < n
    → held eb' n x
      ≡ freed (eb'.read_waits fd) (freed (eb'.write_waits fd) (held (without fd eb) n x))
held_at eb eb' fd n x off fits =
    let off' : (j : ℕ)
        → j ≢ fd
        → (eb'.read_waits j ≡ (without fd eb).read_waits j)
          × (eb'.write_waits j ≡ (without fd eb).write_waits j) =
      λ j ne. let (r, w) = off j ne in let e = ne→not_== j fd ne in (rw e r, rw e w) in
    let (y, one, two) = held_split (without fd eb) eb' fd off' n x fits in
    let one' : held (without fd eb) n x ≡ y =
      one
      ∙ (λ i. freed (put_self eb.read_waits fd 0 i) (freed (put_self eb.write_waits fd 0 i) y)) in
    two ∙ ap (λ z. freed (eb'.read_waits fd) (freed (eb'.write_waits fd) z)) (sym one')

-- The slabs of all reactors.
abbrev pub total : {K Q : Type 0} → List (Thread K Q) → Bag → Bag
total [] x = x
total (t ∷ ts) x = held t.base t.base.wait_sz (total ts x)

module _ {K Q : Type 0} where
  held-freed :
      (eb : Base K Q) (n a b : ℕ) (x : Bag)
      → held eb n (freed a (freed b x)) ≡ freed a (freed b (held eb n x))
  held-freed eb zero a b x = refl
  held-freed eb (suc n) a b x =
      ap (λ z. freed (eb.read_waits n) (freed (eb.write_waits n) z)) (held-freed eb n a b x)
      ∙ freed_swap (eb.read_waits n) (eb.write_waits n) a b (held eb n x)

  held_comm :
      (eb eb' : Base K Q) (n m : ℕ) (x : Bag) → held eb n (held eb' m x) ≡ held eb' m (held eb n x)
  held_comm eb eb' n zero x = refl
  held_comm eb eb' n (suc m) x =
      held-freed eb n (eb'.read_waits m) (eb'.write_waits m) (held eb' m x)
      ∙ ap (λ z. freed (eb'.read_waits m) (freed (eb'.write_waits m) z)) (held_comm eb eb' n m x)

  -- The slabs of one reactor, and those of the others.
  pub total_split :
      (ts : List (Thread K Q)) (i : ℕ) (t : Thread K Q) (x : Bag)
      → get_elem? ts i ≡ some t
      → (rest : Bag) × (total ts x ≡ held t.base t.base.wait_sz rest)
        × ((t' : Thread K Q) → total (set ts i t') x ≡ held t'.base t'.base.wait_sz rest)
  total_split [] i t x at = cc
  total_split (s ∷ ts) zero t x at =
      let e : s ≡ t = some-injective s t at in
      (total ts x, ap (λ z. held z.base z.base.wait_sz (total ts x)) e, λ t'. refl)
  total_split (s ∷ ts) (suc i) t x at =
      let (rest, one, all) = total_split ts i t x at in
      let n = s.base.wait_sz in
      (
        held s.base n rest,
        ap (held s.base n) one ∙ held_comm s.base t.base n t.base.wait_sz rest,
        λ t'. ap (held s.base n) (all t') ∙ held_comm s.base t'.base n t'.base.wait_sz rest,
      )

-- A slab with an event that waits is among them.
times-freed_self : (a : ℕ) (x : Bag) → a ≢ 0 → 0 < times (a - header) (freed a x)
times-freed_self a x ne = rw (ne→not_== a 0 ne) (times-insert_self (a - header) x)

pub times-freed_both :
    (r w : ℕ) (x : Bag)
    → (r ≢ 0 → 0 < times (r - header) (freed r (freed w x)))
      × (w ≢ 0 → 0 < times (w - header) (freed r (freed w x)))
times-freed_both r w x = (
  (λ ne. times-freed_self r (freed w x) ne),
  (λ ne.
      subst (λ z. 0 < times (w - header) z) (freed_comm w r x) (times-freed_self w (freed r x) ne)),
)
