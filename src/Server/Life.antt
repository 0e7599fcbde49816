-- ===== src/Server/Life.antt =====
-- The life of a reactor: clients come and go, in any order.
use std.Path.{subst, subst⁻¹}
use ebot.Base.{
  ℕ, suc, ◌+◌, ◌*◌, ◌<◌, ◌≤◌, ◌≡◌, refl, sym, ap, ◌∙◌, Bool, true, false, List, [], ◌∷◌, ◌++◌,
  arith, Run, Returns, Returns-bind, Returns-map, ok, ◌>>=◌, length, ℕ_discrete, ◌==◌,
  if◌then◌else◌, eq→==, ne→not_==, Bag, bag, insert, same_length,
}
use ebot.Event.{Base}
use ebot.Event.System.{Epoll, Obeys, Accepts}
use ebot.Pool.{Pool, header}
use ebot.Pool.Links.{NotIn}
use ebot.Pool.Valid.{Valid}
use ebot.Server.Arriving.{Serves-Joined}
use ebot.Server.Client.{pipe_callback, piped, hang_up}
use ebot.Server.Clients.{Client, fds, Serves}
use ebot.Server.Joining.{Joined, pipe_callback-Joined}
use ebot.Server.Leaving.{hang_up_client}
use ebot.Server.Types.{Reactor, Net}

-- A new client comes through the pipe, or the connection of one ends.
pub data Turn : Type 0 where
  comes goes : (fd : ℕ) → Turn

module _ {K Q W : Type 0} (epoll : Epoll K) (net : Net W) (this : ℕ) (read_ok write_ok : Bool) where
  unfoldable pub life : List Turn → Reactor K Q → Pool → Run (Reactor K Q × Pool)
  life [] r mp = ok (r, mp)
  life (comes fd ∷ rest) r mp = do
    (r, mp) ← pipe_callback epoll net r this mp (piped fd) read_ok write_ok
    life rest r mp
  life (goes fd ∷ rest) r mp = do
    (base, mp) ← hang_up epoll net r.base mp fd
    life rest (record r { base = base }) mp

-- `fds` without `fd`
abbrev pub without : (fd : ℕ) → List ℕ → List ℕ
without fd [] = []
without fd (x ∷ xs) = if x == fd then xs else x ∷ without fd xs

-- The descriptors that are open behind some turns.
abbrev pub still : List ℕ → List Turn → List ℕ
still opened [] = opened
still opened (comes fd ∷ rest) = still (fd ∷ opened) rest
still opened (goes fd ∷ rest) = still (without fd opened) rest

module _ {K Q : Type 0} (start : Base K Q) (room : ℕ) where
  -- Only a descriptor that is open comes to its end; one that comes is not open, lies in the
  -- arrays, had nothing waiting for it at the start, and does not take the open ones past `room`
  -- slabs.
  abbrev pub Orderly : List ℕ → List Turn → Type 0
  Orderly opened [] = Unit
  Orderly opened (comes fd ∷ rest) =
      NotIn fd opened
      × (fd < start.wait_sz)
      × (start.read_waits fd ≡ 0)
      × (start.write_waits fd ≡ 0)
      × (2 * suc (length opened) ≤ room)
      × Orderly (fd ∷ opened) rest
  Orderly opened (goes fd ∷ rest) = (NotIn fd opened → ⊥) × Orderly (without fd opened) rest

-- A client that is there stands between the others.
find_client :
    (fd : ℕ) (cs : List Client)
    → (NotIn fd (fds cs) → ⊥)
    → (l : List Client) × (c : Client) × (r : List Client) × (cs ≡ l ++ (c ∷ r))
      × (c.fd ≡ fd)
      × (fds (l ++ r) ≡ without fd (fds cs))
find_client fd [] there = absurd (there tt)
find_client fd (c ∷ cs) there = elim (ℕ_discrete c.fd fd) [
  | yes here ↦ ([], c, cs, refl, here, rw (eq→== c.fd fd here))
  | no ne ↦
      let (l, d, r, e, is, w) = find_client fd cs λ out. there (λ z. ne (sym z), out) in
      (c ∷ l, d, r, ap (λ z. c ∷ z) e, is, rw (ne→not_== c.fd fd ne) (ap (λ z. c.fd ∷ z) w))
]

length-without :
    (fd : ℕ) (xs : List ℕ) → (NotIn fd xs → ⊥) → length xs ≡ suc (length (without fd xs))
length-without fd [] there = absurd (there tt)
length-without fd (x ∷ xs) there = elim (ℕ_discrete x fd) [
  | yes here ↦ rw (eq→== x fd here)
  | no ne ↦
      let e = length-without fd xs λ out. there (λ z. ne (sym z), out) in
      rw (ne→not_== x fd ne) (ap suc e)
]

two_of : (f : List ℕ) → 2 ≤ length f → (s : ℕ) × (t : ℕ) × (fs : List ℕ) × (f ≡ s ∷ t ∷ fs)
two_of [] h = absurd (omega arith)
two_of (s ∷ []) h = absurd (omega arith)
two_of (s ∷ t ∷ fs) h = (s, t, fs, refl)

module _ {K Q W : Type 0} (epoll : Epoll K) (net : Net W) (obeys : Obeys epoll)
    (accepts : Accepts epoll) (this : ℕ) (start : Base K Q) (reads : start.kides.reads ≡ true)
    (writes : start.kides.writes ≡ true) (read_ok write_ok : Bool) (others : Bag) (room : ℕ) where
  -- The reactor serves the clients with these descriptors, and what they have not taken of `room`
  -- slabs is free.
  abbrev pub Open : List ℕ → Reactor K Q × Pool → Type 0
  Open opened (r, mp) =
      (cs : List Client) × (free : Bag) × Serves this start epoll cs free others r.base mp
      × (fds cs ≡ opened)
      × ((f : List ℕ) × (bag f ≡ free) × (room ≤ length f + 2 * length opened))

  pipe_callback-Open :
      (opened : List ℕ) (fd : ℕ) (r : Reactor K Q) (mp : Pool)
      → Open opened (r, mp)
      → NotIn fd opened
      → fd < start.wait_sz
      → start.read_waits fd ≡ 0
      → start.write_waits fd ≡ 0
      → 2 * suc (length opened) ≤ room
      → Returns (Open (fd ∷ opened)) (pipe_callback epoll net r this mp (piped fd) read_ok write_ok)
  pipe_callback-Open opened fd r mp (cs, free, sv, is, (g, eg, many)) out fits no_read no_write
        enough =
      let (f, b, v, h, ef, eb) = sv.pool in
      let len : length f ≡ length g = same_length f g (ef ∙ sym eg) in
      let (s, t, fs, e) = two_of f (omega (arith, len, many, enough)) in
      let v' : Valid mp (s ∷ t ∷ fs) b = subst (λ z. Valid mp z b) e v in
      let out' : NotIn fd (fds cs) = subst⁻¹ (NotIn fd) is out in
      let at = sv.elsewhere fd out' in
      Returns-map
        {P = λ (r', mp').
          Joined epoll net this fd (s + header) (t + header) r.base r'.base
          × Valid mp' fs ((b ++ (s ∷ [])) ++ (t ∷ []))
          × (mp'.held ≡ false)}
        (pipe_callback epoll net r this mp (piped fd) read_ok write_ok)
        (λ (r', mp') (joined, w, h'). (
          record { fd = fd; reads = s; writes = t } ∷ cs,
          bag fs,
          Serves-Joined epoll net this start cs others r.base mp fd s t fs b free r'.base mp' sv
              out' fits no_read no_write v' eb joined w h',
          ap (λ z. fd ∷ z) is,
          (fs, refl, omega (arith, len, many, ap length e)),
        ))
        (pipe_callback-Joined epoll net obeys accepts r.base this fd sv.agrees
          (omega (arith, fits, sv.wait_sz)) (ap (λ k. k.reads) sv.kides ∙ reads)
          (ap (λ k. k.writes) sv.kides ∙ writes) (at.0 ∙ no_read) (at.1 ∙ no_write) r mp read_ok
          write_ok s t fs b refl v' h)

  -- A client that is there ends, and two slabs more are free.
  hang_up-Open :
      (opened : List ℕ) (fd : ℕ) (r : Reactor K Q) (mp : Pool)
      → Open opened (r, mp)
      → (NotIn fd opened → ⊥)
      → Returns
          (λ (base', mp'). Open (without fd opened) (record r { base = base' }, mp'))
          (hang_up epoll net r.base mp fd)
  hang_up-Open opened fd r mp (cs, free, sv, is, (g, eg, many)) there =
      let (l, c, rest, e, here, w) = find_client fd cs λ out. there (subst (NotIn fd) is out) in
      Returns-map
        {P = λ (eb', mp').
          Serves this start epoll (l ++ rest) (insert c.writes (insert c.reads free)) others eb' mp'
          × (eb'.events ≡ r.base.events)}
        (hang_up epoll net r.base mp fd)
        (λ (eb', mp') (sv', _). (
          l ++ rest,
          insert c.writes (insert c.reads free),
          sv',
          w ∙ ap (without fd) is,
          (
            c.writes ∷ c.reads ∷ g,
            ap (λ x. insert c.writes (insert c.reads x)) eg,
            omega (arith, many, length-without fd opened there),
          ),
        ))
        (hang_up_client epoll net obeys this start cs l c rest fd free others r.base mp e here sv)

  -- A reactor through which connections come and go holds two events and two slabs for each one
  -- that is open, and no more: from a reactor that serves the clients `opened` the turns return,
  -- and behind them it serves those that are still open. The tables agree with the kernel, the two
  -- events of each client wait and are the ones it came with, the entries of all other descriptors
  -- are those of the base at the start, the slabs in use are the clients' and those that others
  -- had, and the rest of the `room` slabs is free again. It is so in any order of the turns where a
  -- descriptor that comes is not open, lies in the arrays, had nothing waiting and finds the
  -- clients within the room, and where one that goes is open.
  pub life-Open :
      (turns : List Turn) (opened : List ℕ) (r : Reactor K Q) (mp : Pool)
      → Open opened (r, mp)
      → Orderly start room opened turns
      → Returns (Open (still opened turns)) (life epoll net this read_ok write_ok turns r mp)
  unfolding life
  life-Open [] opened r mp o order = o
  life-Open (comes fd ∷ rest) opened r mp o (out, fits, no_read, no_write, enough, order) =
      Returns-bind _ _ (pipe_callback epoll net r this mp (piped fd) read_ok write_ok) _
        (pipe_callback-Open opened fd r mp o out fits no_read no_write enough)
        λ (r', mp') o'. life-Open rest (fd ∷ opened) r' mp' o' order
  life-Open (goes fd ∷ rest) opened r mp o (there, order) =
      Returns-bind _ _ (hang_up epoll net r.base mp fd) _ (hang_up-Open opened fd r mp o there)
        λ (base', mp') o'.
          life-Open rest (without fd opened) (record r { base = base' }) mp' o' order
