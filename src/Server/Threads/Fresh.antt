-- ===== src/Server/Threads/Fresh.antt =====
-- The threads of a new server, before any of them has come to the pool of events.
use std.Path.{subst⁻¹}
use ebot.Base.{ℕ, suc, ◌<◌, ◌≡◌, refl, ◌∙◌, true, some, List, [], ◌∷◌, get_elem?, Bag}
use ebot.Event.{Event}
use ebot.Event.System.{Epoll}
use ebot.Event.Tables.{Agrees}
use ebot.Pool.{Pool}
use ebot.Pool.Accounts.{Owns}
use ebot.Server.Threads.{Thread, starting}
use ebot.Server.Threads.Acting.{InPlace}
use ebot.Server.Threads.Held.{held_none, total}
use ebot.Server.Threads.Safe.{Safe}
use ebot.Server.Threads.Sound.{Sound}

-- A base in which nothing waits, with a descriptor in its arrays for its first event.
pub record Fresh {K Q : Type 0} (epoll : Epoll K) (ev : ℕ → Event) (t : Thread K Q) : Type 0 where
  pub agrees : Agrees epoll t.base
  pub reads : t.base.kides.reads ≡ true
  pub writes : t.base.kides.writes ≡ true
  pub quiet : (fd : ℕ) → (t.base.read_waits fd ≡ 0) × (t.base.write_waits fd ≡ 0)
  pub events : t.base.events ≡ ev
  pub fd : ℕ
  pub cb : ℕ
  pub place : t.place ≡ starting fd cb
  pub fits : fd < t.base.wait_sz

module _ {K Q : Type 0} (epoll : Epoll K) (ev : ℕ → Event) where
  Fresh-Sound : (t : Thread K Q) → Fresh epoll ev t → Sound epoll t.base
  Fresh-Sound t f = record {
    agrees = f.agrees;
    reads = f.reads;
    writes = f.writes;
    beyond = λ fd big. f.quiet fd;
    to_read = λ fd ne. absurd (ne (f.quiet fd).0);
    to_write = λ fd ne. absurd (ne (f.quiet fd).1);
  }

  total-Fresh :
      (ts : List (Thread K Q)) (x : Bag)
      → ((i : ℕ) (t : Thread K Q) → get_elem? ts i ≡ some t → Fresh epoll ev t)
      → total ts x ≡ x
  total-Fresh [] x all = refl
  total-Fresh (t ∷ ts) x all =
      held_none t.base t.base.wait_sz (total ts x) (all 0 t refl).quiet
      ∙ total-Fresh ts x (λ i u at. all (suc i) u at)

  -- They share the pool safely.
  pub Fresh-Safe :
      (ts : List (Thread K Q)) (mp : Pool) (slabs : List ℕ) (others : Bag)
      → ((i : ℕ) (t : Thread K Q) → get_elem? ts i ≡ some t → Fresh epoll ev t)
      → Owns slabs others mp
      → Safe epoll slabs others (ts, mp)
  Fresh-Safe ts mp slabs others all own = (
    ev,
    (λ i t at.
        let f = all i t at in
        (
          Fresh-Sound t f,
          subst⁻¹ (λ p. InPlace p t.base) f.place (f.fits, (f.quiet f.fd).0, (f.quiet f.fd).1),
          f.events,
        )),
    subst⁻¹ (λ z. Owns slabs z mp) (total-Fresh ts others all) own,
  )
