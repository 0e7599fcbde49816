-- ===== src/Chat/Main.antt =====
-- `main` of chat_server_example.c.
use ebot.Base.{ℕ, Bool, none, List, ◌==◌, if◌then◌else◌, Option, Run, ok, exits, ◌>>=◌}
use ebot.Chat.{Connection, store}
use ebot.Event.{Base}
use ebot.Event.Loop.{Waited}
use ebot.Event.System.{Epoll, TailQueue}
use ebot.Io.{Answer}
use ebot.Server.Reactors
use ebot.Server.Reactors.{Threads}
use ebot.Server.Run.{eb_srv_start}
use ebot.Server.Setup.{Means, eb_srv_new, eb_srv_listen}
use ebot.Server.Types.{Srv, Net, on, register_ptr, eb_connect, eb_recv, eb_close, null}
use ebot.Workers

-- The callbacks, as numbers.
abbrev pub on_connect_cb : ℕ
on_connect_cb = 1

abbrev pub on_recv_cb : ℕ
on_recv_cb = 2

abbrev pub on_close_cb : ℕ
on_close_cb = 3

-- `memset(conns, 0, sizeof(MAX_CONN * sizeof(connnection)))` clears the eight bytes of a `size_t`:
-- the two numbers of the first entry. `memory` is what `malloc` gave.
abbrev pub cleared : (memory : ℕ → Connection) → ℕ → Connection
cleared memory = store memory 0 (record (memory 0) { fd = 0; tsz = 0 })

module _ {K Q : Type 0} where
  -- All of `main` in front of `eb_srv_start`. `conns` is the address of the table, or `NULL`, which
  -- fails the `assert`; nobody looks at the result of `eb_srv_listen`.
  unfoldable pub set_up :
      (conns : ℕ) (memory : ℕ → Connection) (this : ℕ)
      → Means K Q
      → (socket : Option ℕ) → (gets sets : List Answer) → (bind_ok listen_ok : Bool)
      → Run ((ℕ → Connection) × Srv K Q)
  set_up conns memory this means socket gets sets bind_ok listen_ok =
      if conns == null then exits else do
        srv ← eb_srv_new none this means
        srv ← eb_srv_listen (register_ptr srv conns) socket gets sets bind_ok listen_ok
        ok (
          cleared memory,
          on (on (on srv eb_connect on_connect_cb) eb_recv on_recv_cb) eb_close on_close_cb,
        )

module _ {K Q W : Type 0} (epoll : Epoll K) (queue : TailQueue Q) (net : Net W)
    (reactor_threads : Reactors.Threads K Q W) (worker_threads : Workers.Threads W)
    (callback : (cb fd arg : ℕ) → Base K Q × W → Run (Base K Q × W)) where
  unfoldable pub main :
      (conns : ℕ) (memory : ℕ → Connection) (this : ℕ)
      → Means K Q
      → (socket : Option ℕ) → (gets sets : List Answer) → (bind_ok listen_ok : Bool) → (ahead : ℕ)
      → (read_ok write_ok : Bool) → (fuel : ℕ) → List Waited
      → W
      → Run (Srv K Q × W)
  main conns memory this means socket gets sets bind_ok listen_ok ahead read_ok write_ok fuel rounds
        world =
      do
        (table, srv) ← set_up conns memory this means socket gets sets bind_ok listen_ok
        eb_srv_start epoll queue net reactor_threads worker_threads callback srv this ahead read_ok
            write_ok fuel rounds world
