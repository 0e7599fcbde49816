-- ===== src/Chat.antt =====
-- The callbacks of chat_server_example.c, over a table of connections.
pub mod Told
pub mod Main
pub mod Listening
mod Tests
use ebot.Base.{
  ℕ, zero, suc, ◌+◌, Bool, not, ◌&&◌, List, [], ◌∷◌, ◌++◌, length, take, replicate, ltb, leb, ◌==◌,
  if◌then◌else◌, Run, ok, fault,
}
use ebot.Server.Types.{Stream}

-- `connnection`
pub record Connection : Type 0 where
  pub fd : ℕ
  pub tsz : ℕ
  pub temp_buf : List ℕ

-- `MAX_CONN`
abbrev pub max_conn : ℕ
max_conn = 1024

abbrev pub no_connection : Connection
no_connection = record { fd = 0; tsz = 0; temp_buf = replicate 512 0 }

abbrev pub store : (ℕ → Connection) → ℕ → Connection → ℕ → Connection
store conns i c j = if j == i then c else conns j

-- `write` is a `write` to a descriptor, whose result is only printed. `connected`, `closed` and
-- `says` are what `snprintf` makes of the three formats and a descriptor, without the 0 behind.
module _ {W : Type 0} (write : W → ℕ → List ℕ → W) where
  -- The loop over `conns`, from the index `i` on: the bytes go to all but `me`.
  unfoldable pub others : (ℕ → Connection) → (me : ℕ) → List ℕ → (k i : ℕ) → W → W
  others conns me bytes zero i world = world
  others conns me bytes (suc k) i world = others conns me bytes k (i + 1) (
      if not ((conns i).fd == 0) && not ((conns i).fd == me)
      then write world (conns i).fd bytes
      else world)

  unfoldable pub on_connect :
      (connected : ℕ → List ℕ) → Stream → (ℕ → Connection) → W → Run ((ℕ → Connection) × W)
  on_connect connected stream conns world =
      if ltb stream.fd max_conn
      then (let conns = store conns stream.fd (record (conns stream.fd) { fd = stream.fd }) in
          ok (conns, others conns stream.fd (connected stream.fd ++ (0 ∷ [])) max_conn 0 world))
      else fault

  unfoldable pub on_close :
      (closed : ℕ → List ℕ) → Stream → (ℕ → Connection) → W → Run ((ℕ → Connection) × W)
  on_close closed stream conns world =
      if ltb stream.fd max_conn
      then ok (
        store conns stream.fd no_connection,
        others conns stream.fd (closed stream.fd ++ (0 ∷ [])) max_conn 0 world,
      )
      else fault

  -- The 512 bytes of `buf` are 0 behind the two parts; `15 + buf_size` of them are written.
  unfoldable pub on_recv : (says : ℕ → List ℕ) → Stream → (ℕ → Connection) → W → Run W
  on_recv says stream conns world =
      let said = take 14 (says stream.fd) ++ take stream.buf_size stream.buf in
      if leb stream.buf_size (length stream.buf) && leb (length said) 512
      then ok (
          others conns stream.fd (take (15 + stream.buf_size) (said ++ replicate 512 0)) max_conn 0
            world)
      else fault
