-- ===== src/Server/Types.antt =====
-- The types of ebot.h, `reactor` and `struct ebot_srv`, and what the operating system and the
-- user's callbacks do, which is a parameter.
use ebot.Base.{ℕ, ◌+◌, ◌-◌, ◌%◌, ◌^◌, ◌||◌, Option, none, some, List, ltb, ◌==◌, if◌then◌else◌, ℤ}
use ebot.Event.{Base, put}
use ebot.Pool.{Pool}
use ebot.Workers.{Wpool}

abbrev pub null : ℕ
null = 0

-- `STREAM_BUF_SIZE`
abbrev pub stream_buf_size : ℕ
stream_buf_size = 128

-- `eb_stream`. `udata` is the union, as the 64 bits of `u64`.
pub record Stream : Type 0 where
  pub fd : ℕ
  pub buf_size : ℕ
  pub buf : List ℕ
  pub udata : ℕ

-- `eb_event`
abbrev pub eb_connect : ℕ
eb_connect = 0

abbrev pub eb_recv : ℕ
eb_recv = 1

abbrev pub eb_write : ℕ
eb_write = 2

abbrev pub eb_close : ℕ
eb_close = 3

-- `eb_settings`
pub record Settings : Type 0 where
  pub backlog : ℤ
  pub memory_pool_size : ℤ
  pub reactor_num : ℤ
  pub factory_num : ℤ
  pub writer_num : ℤ
  pub max_connections : ℤ
  pub facotry_ringq_size : ℤ
  pub timeout : ℤ

-- `reactor`; `pipe_in` is `pipe[0]`, the end to read from, and `pipe_out` the other.
pub record Reactor (K Q : Type 0) : Type 0 where
  pub id : ℕ
  pub tid : ℕ
  pub base : Base K Q
  pub srv : ℕ
  pub pipe_in : ℕ
  pub pipe_out : ℕ
  pub status : ℕ

-- `struct ebot_srv`; `writer` is never set.
pub record Srv (K Q : Type 0) : Type 0 where
  pub setting : Settings
  pub udata : ℕ
  pub event_pool : Pool
  pub master_base : Base K Q
  pub slave_reactor : List (Reactor K Q)
  pub factory : Wpool
  pub total_conns : ℕ
  pub sfd : ℤ
  pub status : ℕ
  pub callbacks : ℕ → ℕ

-- `write` to an event descriptor or a pipe gives nothing where it fails; `read` of an event
-- descriptor gives nothing as long as it waits. `call` is a call of a callback of the user.
pub record Net (W : Type 0) : Type 0 where
  pub efd_write : W → ℤ → ℕ → Option W
  pub efd_read : W → ℤ → Option W
  pub pipe_write : W → ℕ → List ℕ → Option W
  pub close : W → ℕ → W
  pub call : W → ℕ → Stream → W

-- The world behind a `write` whose failure is only reported.
abbrev pub either_way {ℓ} : {W : Type ℓ} → W → Option W → W
either_way world none = world
either_way world (some world') = world'

module _ {K Q : Type 0} where
  -- `eb_srv_on`; `f` is the callback.
  unfoldable pub on : Srv K Q → (e f : ℕ) → Srv K Q
  on srv e f =
      if (f == null) || ltb eb_close e
      then srv
      else record srv { callbacks = put srv.callbacks e f }

  unfoldable pub register_ptr : Srv K Q → ℕ → Srv K Q
  register_ptr srv p = record srv { udata = p }

  -- The lower half of the union is overwritten.
  unfoldable pub register_u32 : Srv K Q → ℕ → Srv K Q
  register_u32 srv n = record srv { udata = srv.udata - srv.udata % 2 ^ 32 + n }

  unfoldable pub register_u64 : Srv K Q → ℕ → Srv K Q
  register_u64 srv n = record srv { udata = n }
