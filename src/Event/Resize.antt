-- ===== src/Event/Resize.antt =====
-- `_resize_epoll_events`, and descriptors beyond the arrays.
use ebot.Base.{
  ℕ, ◌<◌, ◌≤◌, ◌*◌, ◌≡◌, refl, Bool, true, false, not, none, some, arith, ltb, ◌==◌, if◌then◌else◌,
  fault, inl, inr, Bool-cases, lt→ltb, ltb→lt, le→not_ltb, not_ltb→le,
}
use std.Path.{subst}
use ebot.Event.{Base, resize}
use ebot.Event.Ctl.{add_event}
use ebot.Event.System.{Mask, Epoll, meets}
use ebot.Event.Tables.{Agrees, Entry}

no_input : (b : Bool) (r : ℕ) → b ≡ true → r ≡ 0 → b ≡ not (r == 0) → ⊥
no_input b r t z h = ground arith

module _ {K Q : Type 0} (epoll : Epoll K) where
  resize-Entry :
      (eb : Base K Q) (fd : ℕ)
      → (fd < eb.wait_sz
          → Entry (epoll.interest eb.kernel fd) (eb.read_waits fd) (eb.write_waits fd))
      → eb.wait_sz ≡ eb.epsz
      → (eb.wait_sz ≤ fd → epoll.interest eb.kernel fd ≡ none)
      → Entry
          (epoll.interest eb.kernel fd)
          (if ltb fd eb.epsz then eb.read_waits fd else 0)
          (if ltb fd eb.epsz then eb.write_waits fd else 0)
  resize-Entry eb fd old first new = elim (Bool-cases (ltb fd eb.epsz)) [
    | inl below ↦ rw below (old (omega (arith, first, ltb→lt fd eb.epsz below)))
    | inr above ↦ rw (above, new (omega (arith, first, not_ltb→le fd eb.epsz above))) (refl, refl)
  ]

  -- The first resizing doubles the arrays and keeps what they have, where memory is there; with the
  -- kernel in agreement with the arrays, and without a descriptor beyond them, the larger ones
  -- agree with it too, whatever the memory has that they get.
  pub resize-Agrees :
      (eb : Base K Q)
      → ((fd : ℕ)
          → fd < eb.wait_sz
          → Entry (epoll.interest eb.kernel fd) (eb.read_waits fd) (eb.write_waits fd))
      → eb.wait_sz ≡ eb.epsz
      → ((fd : ℕ) → eb.wait_sz ≤ fd → epoll.interest eb.kernel fd ≡ none)
      → Agrees epoll (resize eb true true).1
        × ((resize eb true true).1.wait_sz ≡ eb.wait_sz * 2)
        × ((fd : ℕ)
            → fd < eb.epsz
            → ((resize eb true true).1.read_waits fd ≡ eb.read_waits fd)
              × ((resize eb true true).1.write_waits fd ≡ eb.write_waits fd))
  unfolding resize
  resize-Agrees eb old first new = (
    record {
      entry = λ fd. resize-Entry eb fd (old fd) first (new fd);
      reads = refl;
      writes = refl;
    },
    refl,
    λ fd h. rw (lt→ltb fd eb.epsz h) (refl, refl),
  )

  -- A resizing forgets the event that waits to read from a descriptor from `epsz` on, which the
  -- kernel still reports: the tables and the kernel disagree.
  pub resize_drops :
      (eb : Base K Q) (fd : ℕ) (m : Mask)
      → eb.epsz ≤ fd
      → epoll.interest eb.kernel fd ≡ some m
      → m.input ≡ true
      → ((resize eb true true).1.read_waits fd ≡ 0) × (Agrees epoll (resize eb true true).1 → ⊥)
  unfolding resize
  resize_drops eb fd m above known input = (
    rw (le→not_ltb fd eb.epsz above),
    λ g.
        let z : ltb fd eb.epsz ≡ false = le→not_ltb fd eb.epsz above in
        let new = (resize eb true true).1 in
        let entry : Entry (some m) (new.read_waits fd) (new.write_waits fd) =
          subst (λ o. Entry o (new.read_waits fd) (new.write_waits fd)) known (g.entry fd) in
        no_input m.input (new.read_waits fd) input (rw z) entry.0,
  )

  -- An event for a descriptor beyond the arrays does not make `ebot_add_event` resize them: the
  -- call reads beyond their end.
  pub add_beyond :
      (eb : Base K Q) (a : ℕ) (read_ok write_ok : Bool)
      → Agrees epoll eb
      → meets (eb.events a).kide eb.kides ≡ true
      → eb.wait_sz ≤ (eb.events a).fd
      → add_event epoll eb a read_ok write_ok ≡ fault
  unfolding add_event
  add_beyond eb a read_ok write_ok g wanted beyond =
      rw (wanted, le→not_ltb (eb.events a).fd eb.read_room (omega (arith, beyond, g.reads)))
