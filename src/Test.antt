-- ===== src/Test.antt =====
-- The callbacks of test.c, with what they print, and its `main`.
pub mod Printed
mod Tests
use ebot.Base.{ℕ, zero, suc, Bool, none, some, List, [], ◌∷◌, ◌++◌, Option, Run, ok, fault, ◌>>=◌}
use ebot.Event.{Base}
use ebot.Event.Loop.{Waited}
use ebot.Event.System.{Epoll, TailQueue}
use ebot.Io.{Answer}
use ebot.Server.Reactors
use ebot.Server.Reactors.{Threads}
use ebot.Server.Run.{eb_srv_start}
use ebot.Server.Setup.{Means, eb_srv_new, eb_srv_listen}
use ebot.Server.Types.{Srv, Stream, Net, on, eb_connect, eb_recv, eb_write, eb_close}
use ebot.Workers

-- A line that is printed.
pub data Line : Type 0 where
  client_connected : (fd : ℕ) → Line
  recv_client : (fd : ℕ) (text : List ℕ) → Line
  client_closed : (fd : ℕ) → Line

-- What `%s` prints: the bytes up to a 0. Where there is none it reads beyond the array.
abbrev pub c_string : List ℕ → Option (List ℕ)
c_string [] = none
c_string (zero ∷ rest) = some []
c_string (suc b ∷ rest) = elim (c_string rest) [ none ↦ none | some text ↦ some (suc b ∷ text) ]

unfoldable pub on_connect : Stream → List Line → List Line
on_connect stream lines = lines ++ (client_connected stream.fd ∷ [])

unfoldable pub on_recv : Stream → List Line → Run (List Line)
on_recv stream lines = elim (c_string stream.buf) [
  | none ↦ fault
  | some text ↦ ok (lines ++ (recv_client stream.fd text ∷ []))
]

unfoldable pub on_write : Stream → List Line → List Line
on_write stream lines = lines

unfoldable pub on_close : Stream → List Line → List Line
on_close stream lines = lines ++ (client_closed stream.fd ∷ [])

-- The callbacks, as numbers.
abbrev on_connect_cb : ℕ
on_connect_cb = 1

abbrev on_recv_cb : ℕ
on_recv_cb = 2

abbrev on_write_cb : ℕ
on_write_cb = 3

abbrev on_close_cb : ℕ
on_close_cb = 4

module _ {K Q W : Type 0} (epoll : Epoll K) (queue : TailQueue Q) (net : Net W)
    (reactor_threads : Reactors.Threads K Q W) (worker_threads : Workers.Threads W)
    (callback : (cb fd arg : ℕ) → Base K Q × W → Run (Base K Q × W)) where
  pub main :
      (this : ℕ)
      → Means K Q
      → (socket : Option ℕ) → (gets sets : List Answer) → (bind_ok listen_ok : Bool) → (ahead : ℕ)
      → (read_ok write_ok : Bool) → (fuel : ℕ) → List Waited
      → W
      → Run (Srv K Q × W)
  unfolding on
  main this means socket gets sets bind_ok listen_ok ahead read_ok write_ok fuel rounds world = do
    srv ← eb_srv_new none this means
    srv ← eb_srv_listen srv socket gets sets bind_ok listen_ok
    let srv = on srv eb_connect on_connect_cb
    let srv = on srv eb_recv on_recv_cb
    let srv = on srv eb_write on_write_cb
    let srv = on srv eb_close on_close_cb
    eb_srv_start epoll queue net reactor_threads worker_threads callback srv this ahead read_ok
        write_ok fuel rounds world
