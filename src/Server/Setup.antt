-- ===== src/Server/Setup.antt =====
-- Making a server: `eb_default_setting`, `eb_srv_new` and `eb_srv_listen`.
use ebot.Base.{
  ℕ, zero, suc, Bool, true, not, Option, none, some, List, map, if◌then◌else◌, Run, ok, exits,
  ◌>>=◌, ℤ, pos, negsuc,
}
use ebot.Event
use ebot.Event.{Base, Event}
use ebot.Io.{Answer, set_nonblock}
use ebot.Pool
use ebot.Pool.{Pool}
use ebot.Server.Reactors.{Given, reactor_pool_new}
use ebot.Server.Types.{Reactor, Srv, Settings, null}
use ebot.Workers
use ebot.Workers.{Wunit, Wpool}

abbrev pub eb_default_setting : Settings
eb_default_setting = record {
  backlog = pos 0;
  memory_pool_size = pos 4096;
  reactor_num = pos 4;
  factory_num = pos 4;
  writer_num = pos 4;
  max_connections = pos 10086;
  facotry_ringq_size = pos 10240;
  timeout = pos 0;
}

-- `sizeof(struct event)`
abbrev pub event_size : ℕ
event_size = 48

-- The handler `eb_srv_factory_exec`, as a number.
abbrev pub factory_exec : ℕ
factory_exec = 1

-- `if (n <= 0) n = 4`
abbrev pub or_four : ℤ → ℕ
or_four (pos zero) = 4
or_four (pos (suc n)) = suc n
or_four (negsuc n) = 4

-- The settings of the user, or the default.
abbrev pub setting_of : Option Settings → Settings
setting_of none = eb_default_setting
setting_of (some s) = s

-- What `eb_srv_new` gets from the system. `pool_mem` is the block of the pool of events, or `NULL`.
pub record Means (K Q : Type 0) : Type 0 where
  pub srv_ok : Bool
  pub pool_mem : ℕ
  pub base_ok : Bool
  pub arrays_ok : Bool
  pub epoll : Option (ℕ × K)
  pub queue : Q
  pub events : ℕ → Event
  pub reactors_ok : Bool
  pub given : ℕ → Given K Q
  pub factory_ok : Bool
  pub efds : ℕ → ℤ
  pub mallocs : ℕ → Bool

-- The result of a call, where `NULL` ends the program.
abbrev pub required {ℓ} : {A : Type ℓ} → Run (Option A) → Run A
required m = do a ← m; elim a [ none ↦ exits | some a ↦ ok a ]

-- The two loops at the end of `eb_srv_new`.
abbrev pub adopt_units : (this : ℕ) → List Wunit → List Wunit
adopt_units this = map {A = Wunit} (λ u. record u { ptr = this; handler = factory_exec })

module _ {K Q : Type 0} where
  abbrev pub adopt_reactors : (this : ℕ) → List (Reactor K Q) → List (Reactor K Q)
  adopt_reactors this = map {A = Reactor K Q} (λ r. record r { srv = this })

  -- `this` is the address of the server. The workers get rings of `1024 * 10` bytes.
  unfoldable pub eb_srv_new : Option Settings → (this : ℕ) → Means K Q → Run (Srv K Q)
  eb_srv_new s this means = if not means.srv_ok then exits else do
    let setting = setting_of s
    event_pool ← required (Pool.new (or_four setting.memory_pool_size) event_size means.pool_mem)
    master_base ←
        required (Event.new 1 means.base_ok means.arrays_ok means.epoll means.queue means.events)
    reactors ← reactor_pool_new (or_four setting.reactor_num) means.reactors_ok means.given
    factory ←
        required (
          Workers.new (or_four setting.factory_num) 10240 means.factory_ok means.efds means.mallocs)
    ok (record {
      setting = setting;
      udata = null;
      event_pool = event_pool;
      master_base = master_base;
      slave_reactor = adopt_reactors this reactors;
      factory = record factory { units = adopt_units this factory.units };
      total_conns = 0;
      sfd = pos 0;
      status = 0;
      callbacks = λ _. null;
    })

  -- `eb_srv_listen`, with what `socket`, `bind` and `listen` give.
  unfoldable pub eb_srv_listen :
      Srv K Q
      → (socket : Option ℕ) → (gets sets : List Answer) → (bind_ok listen_ok : Bool) → Run (Srv K Q)
  eb_srv_listen srv none gets sets bind_ok listen_ok = exits
  eb_srv_listen srv (some sfd) gets sets bind_ok listen_ok = do
    flags ← set_nonblock true gets sets
    if bind_ok then (if listen_ok then ok (record srv { sfd = pos sfd }) else exits) else exits
