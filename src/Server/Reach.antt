-- ===== src/Server/Reach.antt =====
-- From the connections that a server accepts to the reactors that serve them.
use ebot.Base.{
  ℕ, ◌+◌, ◌^◌, ◌<◌, ◌≤◌, ◌≡◌, ◌≢◌, refl, ap, Bool, true, List, [], ◌∷◌, arith, Run, some, Returns,
  Returns-map, ok, ◌>>=◌, length, get_elem?, pos, Bag,
}
use ebot.Bytes.{int_max, int_bytes}
use ebot.Event.{Base}
use ebot.Event.System.{Epoll, Obeys, Accepts}
use ebot.Pool.{Pool}
use ebot.Server.Client.{pipe_callback, piped}
use ebot.Server.Life.{Turn, comes, life, still, Orderly, Open, life-Open}
use ebot.Server.Pack.{int_of}
use ebot.Server.Spread.{Rooms, Arrival, dealt, as_bytes, accept_all, Pipes, Apart, accept_all-dealt}
use ebot.Server.Types.{Reactor, Srv, Net}

abbrev pub all_come : List ℕ → List Turn
all_come [] = []
all_come (fd ∷ rest) = comes fd ∷ all_come rest

int_of-int_bytes : (fd : ℕ) → fd < 2 ^ 31 → int_of (int_bytes fd) ≡ fd
unfolding int_of
int_of-int_bytes fd small = omega (arith, small)

module _ {K Q W : Type 0} (epoll : Epoll K) (net : Net W) (this : ℕ) (read_ok write_ok : Bool) where
  -- The callback of the pipe, as often as there are four bytes to read in it.
  unfoldable pub drain_pipe : List ℕ → Reactor K Q → Pool → Run (Reactor K Q × Pool)
  drain_pipe (a ∷ b ∷ c ∷ d ∷ rest) r mp = do
    (r, mp) ←
        pipe_callback epoll net r this mp (piped (int_of (a ∷ b ∷ c ∷ d ∷ []))) read_ok write_ok
    drain_pipe rest r mp
  drain_pipe _ r mp = ok (r, mp)

  drain_pipe-as_bytes :
      (start : Base K Q) (room : ℕ) (opened xs : List ℕ) (r : Reactor K Q) (mp : Pool)
      → start.wait_sz ≤ 2 ^ 31
      → Orderly start room opened (all_come xs)
      → drain_pipe (as_bytes xs) r mp ≡ life epoll net this read_ok write_ok (all_come xs) r mp
  unfolding drain_pipe life
  drain_pipe-as_bytes start room opened [] r mp few order = refl
  drain_pipe-as_bytes start room opened (fd ∷ rest) r mp few (_, fits, _, _, _, order) =
      rw (int_of-int_bytes fd (omega (arith, fits, few))) (
        ap (λ f. pipe_callback epoll net r this mp (piped fd) read_ok write_ok >>= f)
          (λ i (r', mp'). drain_pipe-as_bytes start room (fd ∷ opened) rest r' mp' few order i))

module _ {K Q W : Type 0} (epoll : Epoll K) (net : Net W) (obeys : Obeys epoll)
    (accepts : Accepts epoll) (this : ℕ) (start : Base K Q) (reads : start.kides.reads ≡ true)
    (writes : start.kides.writes ≡ true) (read_ok write_ok : Bool) (others : Bag) (room : ℕ)
    (pipes : Pipes net) where
  pub accept_all-drain_pipe :
      (arrivals : List Arrival) (srv : Srv K Q) (most k : ℕ) (r : Reactor K Q) (mp : Pool)
      (world : W)
      → srv.setting.max_connections ≡ pos most
      → most < int_max
      → srv.total_conns + length arrivals ≤ most + 1
      → length srv.slave_reactor ≢ 0
      → Apart srv.slave_reactor
      → get_elem? srv.slave_reactor k ≡ some r
      → pipes.holds world r.pipe_out ≡ []
      → Rooms net pipes srv.slave_reactor arrivals world
      → start.wait_sz ≤ 2 ^ 31
      → Open epoll net obeys accepts this start reads writes read_ok write_ok others room [] (r, mp)
      → Orderly start room [] (all_come (dealt (length srv.slave_reactor) k arrivals))
      → Returns
          (λ (srv', world').
            (srv'.total_conns ≡ srv.total_conns + length arrivals)
            × Returns
                (Open epoll net obeys accepts this start reads writes read_ok write_ok others room
                  (still [] (all_come (dealt (length srv.slave_reactor) k arrivals))))
                (drain_pipe epoll net this read_ok write_ok (pipes.holds world' r.pipe_out) r mp))
          (accept_all net srv arrivals world)
  accept_all-drain_pipe arrivals srv most k r mp world limit small few some_reactor apart at empty
        fits sized open_before order =
      let xs = dealt (length srv.slave_reactor) k arrivals in
      Returns-map (accept_all net srv arrivals world)
        (λ (srv', world') (counted, _, held). (
          counted,
          rw
              (
                held k r at,
                empty,
                drain_pipe-as_bytes epoll net this read_ok write_ok start room [] xs r mp sized
                    order,
              )
              (life-Open epoll net obeys accepts this start reads writes read_ok write_ok others
                room (all_come xs) [] r mp open_before order),
        ))
        (accept_all-dealt net pipes arrivals srv most world limit small few some_reactor apart fits)
