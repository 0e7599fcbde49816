-- ===== src/Event/Ctl.antt =====
-- `ebot_add_event` and `ebot_del_event`.
use ebot.Base.{
  ℕ, Bool, true, false, not, ◌&&◌, ◌||◌, Option, none, some, leb, ◌==◌, if◌then◌else◌, Run, ok,
  ◌>>=◌,
}
use ebot.Event.{Base, Event, read_wait, write_wait, set_read_wait, set_write_wait, resize}
use ebot.Event.System.{Mask, Op, ctl_add, ctl_mod, ctl_del, Epoll, meets, null}

-- The `events` of `ebot_add_event`, with `r` and `w` what waits for the descriptor.
abbrev pub add_mask : Event → (r w : ℕ) → Mask
add_mask e r w = record {
  input = e.kide.reads || not (r == null);
  output = e.kide.writes || not (w == null);
  edge = e.kide.reads;
}

abbrev pub add_op : (r w : ℕ) → Op
add_op r w = if not (r == null) || not (w == null) then ctl_mod else ctl_add

-- `rd` and `wd`, with the call that `ebot_del_event` makes.
pub record Plan : Type 0 where
  pub op : Op
  pub mask : Mask
  pub rd : Bool
  pub wd : Bool

abbrev pub del_plan : Event → (r w : ℕ) → Plan
del_plan e r w =
    if e.kide.reads && not (w == null)
    then record {
      op = ctl_mod;
      mask = record { input = false; output = true; edge = false };
      rd = true;
      wd = false;
    }
    else if e.kide.writes && not (r == null)
    then record {
      op = ctl_mod;
      mask = record { input = true; output = false; edge = true };
      rd = false;
      wd = true;
    }
    else record {
      op = ctl_del;
      mask = record { input = e.kide.reads; output = e.kide.writes; edge = false };
      rd = true;
      wd = true;
    }

module _ {K Q : Type 0} (epoll : Epoll K) where
  -- The two assignments to the tables, behind a call of `epoll_ctl` that worked.
  unfoldable pub enlist : Base K Q → (a : ℕ) (r w : ℕ) → Run (Base K Q)
  unfolding set_read_wait set_write_wait
  enlist eb a r w = do
    let e = eb.events a
    eb ← if e.kide.reads && (r == null) then set_read_wait eb e.fd a else ok eb
    if e.kide.writes && (w == null) then set_write_wait eb e.fd a else ok eb

  -- `a` is the address of the event. `read_ok` and `write_ok` say what the two calls of `realloc`
  -- give if they are made; nobody looks at the result of the resizing.
  unfoldable pub add_event : Base K Q → (a : ℕ) (read_ok write_ok : Bool) → Run (Bool × Base K Q)
  unfolding read_wait write_wait resize enlist
  add_event eb a read_ok write_ok =
      let e = eb.events a in
      if not (meets e.kide eb.kides) then ok (false, eb) else (do
        r ← read_wait eb e.fd
        w ← write_wait eb e.fd
        let eb = if leb eb.wait_sz e.fd then (resize eb read_ok write_ok).1 else eb
        elim (epoll.ctl eb.kernel (add_op r w) e.fd (add_mask e r w)) [
          | none ↦ ok (false, eb)
          | some k ↦ (do eb ← enlist (record eb { kernel = k }) a r w; ok (true, eb))
        ])

  -- The two assignments of `NULL`, behind a call of `epoll_ctl` that worked.
  unfoldable pub delist : Base K Q → Plan → ℕ → Run (Base K Q)
  unfolding set_read_wait set_write_wait
  delist eb plan fd = do
    eb ← if plan.rd then set_read_wait eb fd null else ok eb
    if plan.wd then set_write_wait eb fd null else ok eb

  -- What `ebot_del_event` does with the result of `epoll_ctl`.
  unfoldable pub settle : Base K Q → Plan → ℕ → Option K → Run (Bool × Base K Q)
  settle eb plan fd none = ok (false, eb)
  settle eb plan fd (some k) = do eb ← delist (record eb { kernel = k }) plan fd; ok (true, eb)

  unfoldable pub del_event : Base K Q → ℕ → Run (Bool × Base K Q)
  unfolding read_wait write_wait
  del_event eb a = do
    let e = eb.events a
    w ← if e.kide.reads then write_wait eb e.fd else ok null
    r ←
        if e.kide.writes && not (e.kide.reads && not (w == null))
        then read_wait eb e.fd
        else ok null
    let plan = del_plan e r w
    settle eb plan e.fd (epoll.ctl eb.kernel plan.op e.fd plan.mask)
