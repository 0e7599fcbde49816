-- ===== src/Server/Manned.antt =====
-- The units of a server at work: whatever comes in, their rings stay well formed.
use mathlib.Core.Option.{some-injective}
use std.Path.{subst}
use ebot.Base.{
  ℕ, zero, suc, ◌+◌, ◌<◌, ◌≤◌, ◌≡◌, refl, ◌∙◌, true, false, some, List, [], ◌∷◌, ◌++◌, arith,
  length, length-set, get_elem?, get_elem?_below, set, take, Returns, Returns-bind, dec_lt, sym,
}
use ebot.Bytes.{int_max}
use ebot.Event.System.{Epoll}
use ebot.Ring.{Ringq}
use ebot.Ring.Layout.{Holds}
use ebot.Ring.Locked.{push_with_lock, push_with_lock-eq-push}
use ebot.Ring.Push.{push-stored, push-refused, after}
use ebot.Ring.Queue.{used}
use ebot.Server.Client.{hand_over}
use ebot.Server.Types.{Srv, Net}
use ebot.Workers.{Wunit}

-- The unit has a ring that is well formed, and whose lock is free.
abbrev pub Manned : Wunit → Type 0
Manned u =
    (rq : Ringq) × (xs : List (List ℕ)) × (u.rq ≡ some rq)
    × Holds rq xs
    × (rq.use_lock ≡ true)
    × (rq.held ≡ false)

abbrev pub AllManned : List Wunit → Type 0
AllManned [] = Unit
AllManned (u ∷ us) = Manned u × AllManned us

AllManned-get :
    (us : List Wunit) (i : ℕ) (u : Wunit) → AllManned us → get_elem? us i ≡ some u → Manned u
AllManned-get [] i u m e = cc
AllManned-get (v ∷ us) zero u m e = subst Manned (some-injective v u e) m.0
AllManned-get (v ∷ us) (suc i) u m e = AllManned-get us i u m.1 e

AllManned-set :
    (us : List Wunit) (i : ℕ) (u : Wunit) → AllManned us → Manned u → AllManned (set us i u)
AllManned-set [] i u m h = tt
AllManned-set (v ∷ us) zero u m h = (h, m.1)
AllManned-set (v ∷ us) (suc i) u m h = (m.0, AllManned-set us i u m.1 h)

-- An item is stored or refused, and the ring is well formed behind it.
push_with_lock-Manned :
    (u : Wunit) (rq : Ringq) (item : List ℕ) (n : ℕ)
    → Manned u
    → u.rq ≡ some rq
    → n ≤ length item
    → 4 + n ≤ int_max
    → Returns (λ (done, rq'). Manned (record u { rq = some rq' })) (push_with_lock rq item n)
push_with_lock-Manned u rq item n (rq0, xs, has, v0, l0, f0) at enough small =
    let e : rq0 ≡ rq = some-injective rq0 rq (sym has ∙ at) in
    let v : Holds rq xs = subst (λ z. Holds z xs) e v0 in
    let l : rq.use_lock ≡ true = subst (λ z. z.use_lock ≡ true) e l0 in
    let f : rq.held ≡ false = subst (λ z. z.held ≡ false) e f0 in
    rw (push_with_lock-eq-push rq item n l f) (elim (dec_lt (used xs + (4 + n)) rq.size) [
      | yes fits ↦
          let (g, stored, h) = push-stored v item n enough fits in
          rw stored (after rq g n, xs ++ (take n item ∷ []), refl, h, l, f)
      | no full ↦ rw (push-refused v item n (omega arith) small) (rq, xs, refl, v, l, f)
    ])

module _ {K Q W : Type 0} (epoll : Epoll K) (net : Net W) where
  pub hand_over-AllManned :
      (srv : Srv K Q) (id : ℕ) (bytes : List ℕ) (world : W)
      → id < length srv.factory.units
      → AllManned srv.factory.units
      → length bytes ≡ 136
      → Returns
          (λ (srv', world').
            AllManned srv'.factory.units
            × (length srv'.factory.units ≡ length srv.factory.units)
            × (srv'.event_pool ≡ srv.event_pool))
          (hand_over epoll net srv id bytes world)
  unfolding hand_over
  hand_over-AllManned srv id bytes world inside m size =
      let (u, at) = get_elem?_below srv.factory.units id inside in
      let man = AllManned-get srv.factory.units id u m at in
      let (rq, xs, has, v, l, f) = man in
      rw (hand_over, at, has)
        (Returns-bind _ _ (push_with_lock rq bytes 136) _
          (push_with_lock-Manned u rq bytes 136 man has (omega (arith, size)) (omega arith))
          λ (done, rq') man'. (
            AllManned-set srv.factory.units id (record u { rq = some rq' }) m man',
            length-set srv.factory.units id (record u { rq = some rq' }),
            refl,
          ))
