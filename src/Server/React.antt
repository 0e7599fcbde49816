-- ===== src/Server/React.antt =====
-- A round of a reactor: `ebot_loop` with the callbacks that the events of a reactor have.
use ebot.Base.{ℕ, Bool, ◌==◌, if◌then◌else◌, Run, ok, fault, ◌>>=◌}
use ebot.Event.{Base}
use ebot.Event.System.{Epoll}
use ebot.Io.{Recv}
use ebot.Server.Client.{
  Piped, client_read, client_write, pipe_read, client_read_callback, client_write_callback,
  pipe_callback,
}
use ebot.Server.Types.{Reactor, Srv, Net}

-- What the callbacks get in a round: `recv` for each descriptor, `read` for the pipe, and whether
-- `realloc` gives memory.
pub record Heard : Type 0 where
  pub recv : ℕ → Recv
  pub piped : Piped
  pub read_ok : Bool
  pub write_ok : Bool

module _ {K Q W : Type 0} (epoll : Epoll K) (net : Net W) where
  -- A call of `e->cb(e->fd, e->arg)` where `arg` is the address of the reactor `r`. No other
  -- callback is ever put into an event of a reactor.
  unfoldable pub react :
      Reactor K Q
      → Heard
      → (cb fd arg : ℕ) → Base K Q × (Srv K Q × W)
      → Run (Base K Q × (Srv K Q × W))
  react r heard cb fd arg (base, (srv, world)) =
      let r : Reactor K Q = record r { base = base } in
      if cb == client_read
      then (do
        (r, srv, world) ← client_read_callback epoll net r srv fd (heard.recv fd) world
        ok (r.base, (srv, world)))
      else if cb == client_write
      then ok (base, (srv, client_write_callback epoll net srv fd world))
      else if cb == pipe_read
      then (do
        (r, pool) ←
            pipe_callback epoll net r arg srv.event_pool heard.piped heard.read_ok heard.write_ok
        ok (r.base, (record srv { event_pool = pool }, world)))
      else fault
