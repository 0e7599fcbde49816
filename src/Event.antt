-- ===== src/Event.antt =====
-- The event base of ebot.c: `struct event` and `struct ebot_base`, over an `epoll` instance of the
-- kernel and a `TAILQ`, which are parameters.
pub mod System
pub mod Ctl
pub mod Tables
pub mod Removal
pub mod Opening
pub mod Closing
pub mod Dump
pub mod Loop
pub mod Marks
pub mod Queue
pub mod Waking
pub mod Wanted
pub mod Dispatch
pub mod Resize
pub mod Round
pub mod Instances
mod Tests
use ebot.Base.{
  ℕ, zero, suc, ◌+◌, ◌-◌, ◌*◌, ◌/◌, ◌%◌, Bool, true, false, not, ◌&&◌, ◌||◌, Option, none, some,
  List, [], ◌∷◌, ltb, leb, ◌==◌, if◌then◌else◌, Run, ok, fault, waits, ◌>>=◌,
}
use System.{
  Kinds, Mask, Op, ctl_add, ctl_mod, ctl_del, Epoll, TailQueue, read_only, write_only, meets, null,
}

-- `struct event`. A callback is a number, and `NULL` is 0; `queued` is the flag 0 or 1.
pub record Event : Type 0 where
  pub fd : ℕ
  pub kide : Kinds
  pub queued : Bool
  pub cb : ℕ
  pub arg : ℕ

-- `struct ebot_base`. Events are known by their addresses, at which `events` has them. `read_room`
-- and `write_room` are the entries that the arrays have; `kernel` is what `epfd` stands for.
pub record Base (K Q : Type 0) : Type 0 where
  pub epfd : ℕ
  pub kides : Kinds
  pub epsz : ℕ
  pub wait_sz : ℕ
  pub read_waits : ℕ → ℕ
  pub read_room : ℕ
  pub write_waits : ℕ → ℕ
  pub write_room : ℕ
  pub kernel : K
  pub event_readies : Q
  pub events : ℕ → Event

abbrev pub put {ℓ} : {A : Type ℓ} → (ℕ → A) → ℕ → A → ℕ → A
put f i a j = if j == i then a else f j

abbrev pub event_read : (fd cb arg : ℕ) → Event
event_read fd cb arg = record { fd = fd; kide = read_only; queued = false; cb = cb; arg = arg }

abbrev pub event_write : (fd cb arg : ℕ) → Event
event_write fd cb arg = record { fd = fd; kide = write_only; queued = false; cb = cb; arg = arg }

abbrev pub kinds_of : ℕ → Kinds
kinds_of flags = record { reads = flags % 2 == 1; writes = flags / 2 % 2 == 1 }

-- `EP_SIZE`
abbrev pub ep_size : ℕ
ep_size = 1024

module _ {K Q : Type 0} where
  -- `ebot_new`. `base_ok` says whether `malloc` gives the base, `arrays_ok` whether it gives the
  -- three arrays, and `epoll` is what `epoll_create` gives. Flags beyond `E_READ | E_WRITE` are the
  -- numbers from 4 on. The `err` part reads `base->epevents`, also where there is no base.
  -- `FD_CLOSEONEXEC` on the new descriptor is taken to work.
  unfoldable pub new :
      (flags : ℕ) (base_ok arrays_ok : Bool)
      → Option (ℕ × K)
      → Q
      → (ℕ → Event)
      → Run (Option (Base K Q))
  new flags base_ok arrays_ok none queue events = if ltb flags 4 && base_ok then ok none else fault
  new flags base_ok arrays_ok (some (epfd, kernel)) queue events =
      if ltb flags 4 && base_ok
      then (if arrays_ok
          then ok (
              some (record {
                epfd = epfd;
                kides = kinds_of flags;
                epsz = ep_size;
                wait_sz = ep_size;
                read_waits = λ _. null;
                read_room = ep_size;
                write_waits = λ _. null;
                write_room = ep_size;
                kernel = kernel;
                event_readies = queue;
                events = events;
              }))
          else ok none)
      else fault

  -- `eb->read_waits[fd]` and `eb->write_waits[fd]`
  unfoldable pub read_wait : Base K Q → ℕ → Run ℕ
  read_wait eb fd = if ltb fd eb.read_room then ok (eb.read_waits fd) else fault

  unfoldable pub write_wait : Base K Q → ℕ → Run ℕ
  write_wait eb fd = if ltb fd eb.write_room then ok (eb.write_waits fd) else fault

  unfoldable pub set_read_wait : Base K Q → ℕ → ℕ → Run (Base K Q)
  set_read_wait eb fd e =
      if ltb fd eb.read_room then ok (record eb { read_waits = put eb.read_waits fd e }) else fault

  unfoldable pub set_write_wait : Base K Q → ℕ → ℕ → Run (Base K Q)
  set_write_wait eb fd e =
      if ltb fd eb.write_room
      then ok (record eb { write_waits = put eb.write_waits fd e })
      else fault

  -- The two flags say whether each `realloc` gives memory. The entries from `epsz` on are zeroed,
  -- and where the second call fails the first array is freed and stays in `read_waits`.
  unfoldable pub resize : Base K Q → (read_ok write_ok : Bool) → Bool × Base K Q
  resize eb read_ok write_ok =
      if not read_ok
      then (false, eb)
      else if not write_ok
      then (false, record eb { read_room = 0 })
      else (
        true,
        record eb {
          read_waits = λ i. if ltb i eb.epsz then eb.read_waits i else null;
          read_room = eb.wait_sz * 2;
          write_waits = λ i. if ltb i eb.epsz then eb.write_waits i else null;
          write_room = eb.wait_sz * 2;
          wait_sz = eb.wait_sz * 2;
        },
      )

-- The `int t` of `ebot_loop`, in milliseconds, for a `timeval` or `NULL`.
unfoldable pub wait_time : Option (ℕ × ℕ) → ℕ
wait_time none = 0
wait_time (some (sec, usec)) = sec * 1000 + (usec + 999) / 1000
