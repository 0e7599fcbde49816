-- ===== src/Server/Handover.antt =====
-- How a package gets from a reactor to a worker.
use ebot.Base.{
  ℕ, ◌+◌, ◌<◌, ◌≤◌, ◌≡◌, refl, ◌∙◌, true, false, some, List, [], ◌∷◌, ◌++◌, arith, length,
  get_elem?, set, take, take-length, ok,
}
use std.Path.{subst}
use ebot.Event.System.{Epoll}
use ebot.Ring.{Ringq}
use ebot.Ring.Layout.{Holds}
use ebot.Ring.Queue.{used}
use ebot.Ring.Push.{push-stored, after}
use ebot.Ring.Locked.{push_with_lock, push_with_lock-eq-push}
use ebot.Server.Client.{hand_over}
use ebot.Server.Pack.{pack, length-pack}
use ebot.Server.Types.{Srv, Net, either_way}
use ebot.Workers.{Wunit}

module _ {K Q W : Type 0} (net : Net W) where
  -- A package of a client's bytes goes behind those in the ring of a unit, and the unit is
  -- signalled.
  pub hand_over-stored :
      (epoll : Epoll K) (srv : Srv K Q) (id fd : ℕ) (bytes : List ℕ) (world : W) (u : Wunit)
      (rq : Ringq) (xs : List (List ℕ))
      → length bytes ≤ 128
      → get_elem? srv.factory.units id ≡ some u
      → u.rq ≡ some rq
      → Holds rq xs
      → rq.use_lock ≡ true
      → rq.held ≡ false
      → used xs + 140 < rq.size
      → (rq' : Ringq) × Holds rq' (xs ++ (pack fd bytes ∷ []))
        × (rq'.use_lock ≡ true)
        × (rq'.held ≡ false)
        × (hand_over epoll net srv id (pack fd bytes) world
            ≡ ok (
              record srv {
                factory = record (srv.factory) {
                  units = set srv.factory.units id (record u { rq = some rq' });
                };
              },
              either_way world (net.efd_write world u.efd 1),
            ))
  unfolding hand_over
  hand_over-stored epoll srv id fd bytes world u rq xs few unit has v locked free room =
      let size : length (pack fd bytes) ≡ 136 = length-pack fd bytes few in
      let (mem, pushed, holds) =
        push-stored v (pack fd bytes) 136 (omega (arith, size)) (omega (arith, room)) in
      let rq' = after rq mem 136 in
      let done : push_with_lock rq (pack fd bytes) 136 ≡ ok (true, rq') =
        push_with_lock-eq-push rq (pack fd bytes) 136 locked free ∙ pushed in
      let whole : take 136 (pack fd bytes) ≡ pack fd bytes =
        take-length (pack fd bytes) 136 (omega (arith, size)) in
      (
        rq',
        subst (λ y. Holds rq' (xs ++ (y ∷ []))) whole holds,
        locked,
        free,
        rw (hand_over, unit, has, done) refl,
      )
