-- ===== src/Server/Threads/Safe.antt =====
-- Whatever the order in which the threads of the reactors come to the pool of events.
use std.Path.{subst, subst⁻¹}
use ebot.Base.{
  ℕ, zero, suc, ◌-◌, ◌<◌, ◌≡◌, refl, sym, ap, ◌∙◌, ◌⊎◌, inl, inr, Bool, some, List, [], ◌∷◌, length,
  get_elem?, set, Returns-map, Bag, times,
}
use mathlib.Core.Option.{some-injective}
use ebot.Event.{Base, Event}
use ebot.Event.System.{Epoll, Obeys, Accepts}
use ebot.Pool.{Pool, header}
use ebot.Pool.Accounts.{Owns}
use ebot.Server.Threads.{
  Stage, starting, between, joining, parting, Turn, Thread, System, Enabled, act, seen, share, Step,
  moves, Reach, here, later,
}
use ebot.Server.Threads.Acting.{InPlace, Ends, act-Turned}
use ebot.Server.Threads.Held.{held, held_events, total, total_split}
use ebot.Server.Threads.Sound.{Sound, Kept, Sound-Kept, Turned}
use ebot.Server.Types.{Net}

-- Each base is sound, the threads see the same slabs, and these are free, or each in use by one
-- reactor, or among the `others`.
abbrev pub Safe : {K Q : Type 0} → Epoll K → (slabs : List ℕ) → (others : Bag) → System K Q → Type 0
Safe epoll slabs others (ts, pool) =
    (ev : ℕ → Event) × ((i : ℕ) (t : Thread _ _)
      → get_elem? ts i ≡ some t
      → Sound epoll t.base × InPlace t.place t.base × (t.base.events ≡ ev))
    × Owns slabs (total ts others) pool

module _ {K Q : Type 0} where
  InPlace-events :
      (p : Stage) (eb : Base K Q) (ev : ℕ → Event)
      → InPlace p eb
      → InPlace p (record eb { events = ev })
  InPlace-events (starting fd cb) eb ev h = h
  InPlace-events between eb ev h = tt
  InPlace-events (joining fd) eb ev h = h
  InPlace-events (parting fd) eb ev h = h

  total-share :
      (ts : List (Thread K Q)) (ev : ℕ → Event) (x : Bag) → total (share ts ev) x ≡ total ts x
  total-share [] ev x = refl
  total-share (t ∷ ts) ev x =
      held_events t.base ev t.base.wait_sz (total (share ts ev) x)
      ∙ ap (held t.base t.base.wait_sz) (total-share ts ev x)

  share_at :
      (ts : List (Thread K Q)) (ev : ℕ → Event) (i : ℕ) (t : Thread K Q)
      → get_elem? (share ts ev) i ≡ some t
      → (t0 : Thread K Q) × (get_elem? ts i ≡ some t0) × (t ≡ seen ev t0)
  share_at [] ev i t at = cc
  share_at (s ∷ ts) ev zero t at = (s, refl, sym (some-injective _ _ at))
  share_at (s ∷ ts) ev (suc i) t at = share_at ts ev i t at

  set_at :
      (ts : List (Thread K Q)) (i : ℕ) (t' : Thread K Q) (j : ℕ) (t : Thread K Q)
      → get_elem? (set ts i t') j ≡ some t
      → (t ≡ t') ⊎ (get_elem? ts j ≡ some t)
  set_at [] i t' j t at = cc
  set_at (s ∷ ts) zero t' zero t at = inl (sym (some-injective _ _ at))
  set_at (s ∷ ts) zero t' (suc j) t at = inr at
  set_at (s ∷ ts) (suc i) t' zero t at = inr at
  set_at (s ∷ ts) (suc i) t' (suc j) t at = set_at ts i t' j t at

module _ {K Q W : Type 0} (epoll : Epoll K) (net : Net W) (obeys : Obeys epoll)
    (accepts : Accepts epoll) (read_ok write_ok : Bool) (slabs : List ℕ) (others : Bag)
    (more : 1 < length slabs) where
  -- The system behind an access of the thread `i`.
  abbrev next : List (Thread K Q) → ℕ → Thread K Q × Pool → System K Q
  next ts i (t', mp') = (share (set ts i t') (t'.base.events), mp')

  Safe-Turned :
      (ts : List (Thread K Q)) (mp : Pool) (i : ℕ) (t t' : Thread K Q) (mp' : Pool) (ev : ℕ → Event)
      (fine : (j : ℕ) (u : Thread K Q)
        → get_elem? ts j ≡ some u
        → Sound epoll u.base × InPlace u.place u.base × (u.base.events ≡ ev))
      (rest : Bag)
      → total ts others ≡ held t.base t.base.wait_sz rest
      → ((u : Thread K Q) → total (set ts i u) others ≡ held u.base u.base.wait_sz rest)
      → (t.base.events ≡ ev)
      → (v : Sound epoll t.base)
      → Turned epoll t.base v rest slabs t'.base mp' × InPlace t'.place t'.base
      → Safe epoll slabs others (next ts i (t', mp'))
  Safe-Turned ts mp i t t' mp' ev fine rest one all same v ((sound, own, kept), at) =
      let ev' = t'.base.events in
      let kept' : Kept (total ts others) ev ev' = λ a big used.
        kept a big (subst (λ z. 0 < times (a - header) z) one used) ∙ ap (λ f. f a) same in
      (
        ev',
        (λ j u at_u.
            let (u0, at0, is) = share_at (set ts i t') ev' j u at_u in
            subst⁻¹ (λ z. Sound epoll z.base × InPlace z.place z.base × (z.base.events ≡ ev')) is
              (elim (set_at ts i t' j u0 at0) [
                | inl e ↦
                    subst⁻¹
                      (λ z.
                        Sound epoll (seen ev' z).base
                        × InPlace z.place (seen ev' z).base
                        × (ev' ≡ ev'))
                      e (sound, InPlace-events t'.place t'.base ev' at, refl)
                | inr there ↦
                    let (sound0, at0, same0) = fine j u0 there in
                    let (rest0, one0, _) = total_split ts j u0 others there in
                    (
                      Sound-Kept epoll u0.base sound0 rest0 ev' (λ a big used.
                          kept' a big (subst⁻¹ (λ z. 0 < times (a - header) z) one0 used)
                          ∙ ap (λ f. f a) (sym same0)),
                      InPlace-events u0.place u0.base ev' at0,
                      refl,
                    )
              ])),
        subst⁻¹ (λ z. Owns slabs z mp') (total-share (set ts i t') ev' others ∙ all t') own,
      )

  -- One access, seen from all.
  act-Safe :
      (ts : List (Thread K Q)) (mp : Pool) (i : ℕ) (t : Thread K Q) (turn : Turn)
      → Safe epoll slabs others (ts, mp)
      → get_elem? ts i ≡ some t
      → Enabled t.place t turn
      → Ends
          (λ o. Safe epoll slabs others (next ts i o))
          t.place
          mp
          (act epoll net read_ok write_ok t.place t turn mp)
  act-Safe ts mp i t turn (ev, fine, own) at en =
      let (v, place, same) = fine i t at in
      let (rest, one, all) = total_split ts i t others at in
      elim (act-Turned epoll net obeys accepts read_ok write_ok slabs more t.place t turn rest mp v
        place en (subst (λ z. Owns slabs z mp) one own)) [
          | inl r ↦ inl (
              Returns-map
                {P = λ (t', mp').
                  Turned epoll t.base v rest slabs t'.base mp' × InPlace t'.place t'.base}
                (act epoll net read_ok write_ok t.place t turn mp)
                (λ (t', mp') h. Safe-Turned ts mp i t t' mp' ev fine rest one all same v h) r)
          | inr none_left ↦ inr none_left
        ]

  Step-Safe :
      (s s' : System K Q)
      → Step epoll net read_ok write_ok s s'
      → Safe epoll slabs others s
      → Safe epoll slabs others s'
  Step-Safe s s' (moves {ts} {pool} {pool'} {t'} i t turn at en e) safe =
      elim (subst (Ends (λ o. Safe epoll slabs others (next ts i o)) t.place pool) e
        (act-Safe ts pool i t turn safe at en)) [ inl h ↦ h | inr (failed, _, _) ↦ cc ]

  Reach-keeps :
      (s s' : System K Q)
      → Reach epoll net read_ok write_ok s s'
      → Safe epoll slabs others s
      → Safe epoll slabs others s'
  Reach-keeps s s' here safe = safe
  Reach-keeps s s' (later {s'' = s1} r step) safe = Step-Safe _ s' step (Reach-keeps s _ r safe)

  -- However the threads of the reactors come in between each other at the pool of events, a system
  -- that is safe stays so: each slab is free, or one event that waits in one reactor has it, or it
  -- is among the slabs of `others`; the tables of each reactor agree with its kernel, and what
  -- waits for a descriptor in them is still an event for it, of the right kind. And in each state
  -- that is reached, the next access of each thread comes to its end and leaves such a system, or
  -- it is the first one of a thread that finds no slab that is free: then `assert` ends the
  -- program. A client that comes has a descriptor in the arrays for which nothing waits, one that
  -- goes a descriptor in them; the pool has two slabs or more, and the kernel does what it is asked
  -- and takes new entries.
  pub Reach-Safe :
      (s s' : System K Q)
      → Safe epoll slabs others s
      → Reach epoll net read_ok write_ok s s'
      → Safe epoll slabs others s'
        × ((i : ℕ) (t : Thread K Q) (turn : Turn)
            → get_elem? s'.0 i ≡ some t
            → Enabled t.place t turn
            → Ends
                (λ o. Safe epoll slabs others (next s'.0 i o))
                t.place
                s'.1
                (act epoll net read_ok write_ok t.place t turn s'.1))
  Reach-Safe s s' safe r =
      let safe' = Reach-keeps s s' r safe in
      (safe', λ i t turn at en. act-Safe s'.0 s'.1 i t turn safe' at en)
