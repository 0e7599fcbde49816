-- ===== src/Server/Threads/Alone.antt =====
-- A callback is its accesses to the pool of events, one behind the other.
use ebot.Base.{
  List, Option, none, some, ℕ, Bool, true, false, not, ◌≡◌, refl, sym, ◌∙◌, Run, ok, exits, fault,
  waits, ◌>>=◌, if◌then◌else◌,
}
use ebot.Event.{put, Base, event_read, event_write, read_wait, write_wait}
use ebot.Event.System.{Epoll}
use ebot.Pool.{Pool}
use ebot.Server.Client.{watch, retire, hang_up, pipe_callback, piped, client_read, client_write}
use ebot.Server.Threads.{between, joining, parting, comes, goes, Thread, act, finish}
use ebot.Event.Loop.{Waited}
use ebot.Event.System.{TailQueue}
use ebot.Pool.{get_with_lock}
use ebot.Event.Ctl.{add_event}
use ebot.Server.Reactors.{reactor_pool_exec, loop_rounds}
use ebot.Server.Client.{pipe_read}
use ebot.Server.Threads.{starting}
use ebot.Server.Types.{Net, Reactor}

>>=_assoc {ℓ κ μ} :
    {A : Type ℓ} {B : Type κ} {C : Type μ} (m : Run A) (f : A → Run B) (g : B → Run C)
    → ((m >>= f) >>= g) ≡ (m >>= λ a. (f a >>= g))
>>=_assoc (ok a) f g = refl
>>=_assoc exits f g = refl
>>=_assoc fault f g = refl
>>=_assoc waits f g = refl

-- What comes behind a slab that may be missing, and behind a call that may fail.
slab_or {ℓ κ} :
    {B : Type ℓ} {C : Type κ} (m : Run (Option ℕ × Pool)) (f : Pool → ℕ → Run B)
    (g : Pool → ℕ → Run C) (h : C → Run B)
    → ((pool : Pool) (a : ℕ) → f pool a ≡ (g pool a >>= h))
    → (m >>= λ (slab, pool). elim slab [ none ↦ exits | some a ↦ f pool a ])
      ≡ (m >>= λ (slab, pool). elim slab [ none ↦ exits | some a ↦ g pool a ]) >>= h
slab_or (ok (none, pool)) f g h same = refl
slab_or (ok (some a, pool)) f g h same = same pool a
slab_or exits f g h same = refl
slab_or fault f g h same = refl
slab_or waits f g h same = refl

done_or {ℓ κ μ} :
    {A : Type μ} {B : Type ℓ} {C : Type κ} (m : Run (Bool × A)) (g : A → C) (h : C → Run B)
    → (m >>= λ (done, a). if not done then exits else h (g a))
      ≡ (m >>= λ (done, a). if done then ok (g a) else exits) >>= h
done_or (ok (true, a)) g h = refl
done_or (ok (false, a)) g h = refl
done_or exits g h = refl
done_or fault g h = refl
done_or waits g h = refl

>>=_ok {ℓ} : {A : Type ℓ} (m : Run A) → (m >>= λ a. ok a) ≡ m
>>=_ok (ok a) = refl
>>=_ok exits = refl
>>=_ok fault = refl
>>=_ok waits = refl

module _ {K Q W : Type 0} (epoll : Epoll K) (net : Net W) (read_ok write_ok : Bool) where
  abbrev thread_of : (this : ℕ) → Base K Q → Thread K Q
  thread_of this base = record { this = this; base = base; place = between }

  abbrev back_in : Reactor K Q → Thread K Q × Pool → Run (Reactor K Q × Pool)
  back_in r (t, pool) = ok (record r { base = t.base }, pool)

  abbrev base_of : Thread K Q × Pool → Run (Base K Q × Pool)
  base_of (t, pool) = ok (t.base, pool)

  came :
      (r : Reactor K Q) (this fd : ℕ) (o : Bool × Base K Q × Pool)
      → (if not o.0
          then ok (record r { base = o.1 }, o.2)
          else (watch epoll net o.1 o.2 (event_write fd client_write this) read_ok write_ok
              >>= λ (had, base, pool). ok (record r { base = base }, pool)))
        ≡ (finish epoll net read_ok write_ok
              (record { this = this; base = o.1; place = if o.0 then joining fd else between }, o.2)
            >>= back_in r)
  unfolding act
  came r this fd (false, base, pool) = refl
  came r this fd (true, base, pool) = sym (
      >>=_assoc (watch epoll net base pool (event_write fd client_write this) read_ok write_ok)
        (λ (had, base', pool'). ok (record { this = this; base = base'; place = between }, pool'))
        (back_in r))

  went :
      (this fd : ℕ) (o : Base K Q × Pool)
      → (write_wait o.0 fd >>= retire epoll net o.0 o.1) ≡ (
          finish epoll net read_ok write_ok
            (record { this = this; base = o.0; place = parting fd }, o.1)
          >>= base_of)
  unfolding act
  went this fd (base, pool) =
      let m = write_wait base fd >>= retire epoll net base pool in
      sym (
        >>=_assoc m
          (λ (base', pool'). ok (record { this = this; base = base'; place = between }, pool'))
          base_of
        ∙ >>=_ok m)

  -- The first access, and what `finish` does behind it.
  first {ℓ κ} :
      {A : Type ℓ} {B : Type κ} (m : Run A) (f : A → Run B) (g : A → Thread K Q × Pool)
      (h : Thread K Q × Pool → Run B)
      → ((a : A) → f a ≡ (finish epoll net read_ok write_ok (g a) >>= h))
      → (m >>= f) ≡ ((m >>= λ a. ok (g a)) >>= finish epoll net read_ok write_ok >>= h)
  first (ok a) f g h same = same a
  first exits f g h same = refl
  first fault f g h same = refl
  first waits f g h same = refl

  started :
      (queue : TailQueue Q) (callback : (cb fd arg : ℕ) → Base K Q × W → Run (Base K Q × W))
      (r : Reactor K Q) (this fd : ℕ) (pool : Pool) (fuel : ℕ) (rounds : List Waited) (world : W)
      → reactor_pool_exec queue callback epoll r this pool read_ok write_ok fuel rounds world ≡ (
          act epoll net read_ok write_ok
            (starting r.pipe_in pipe_read)
            (thread_of this r.base)
            (comes fd)
            pool
          >>= λ (t, pool).
              (loop_rounds queue callback fuel rounds (t.base, world) >>= λ (base, world).
              ok (record r { base = base }, pool, world)))
  unfolding act reactor_pool_exec
  started queue callback r this fd pool fuel rounds world =
      let h : Thread K Q × Pool → Run (Reactor K Q × Pool × W) = λ (t, pool).
        loop_rounds queue callback fuel rounds (t.base, world) >>= λ (base, world).
        ok (record r { base = base }, pool, world) in
      slab_or (get_with_lock pool) _ _ h λ pool' a.
        done_or
          (add_event epoll
            (record (r.base) { events = put r.base.events a (event_read r.pipe_in pipe_read this) })
            a read_ok write_ok)
          (λ base. (record { this = this; base = base; place = between }, pool')) h

  -- With no other thread in between, `reactor_pool_pipe_callback` with a descriptor from the pipe
  -- comes to what the accesses of its thread come to, one behind the other, and so does the end of
  -- a connection in `reactor_pool_client_read_callback`; and `reactor_pool_exec` comes to what the
  -- first access of its thread comes to, with the loop behind it: in every case, with the same base
  -- and the same pool, or with the same failure.
  pub act-finish :
      (queue : TailQueue Q) (callback : (cb fd arg : ℕ) → Base K Q × W → Run (Base K Q × W))
      (r : Reactor K Q) (this fd : ℕ) (pool : Pool) (fuel : ℕ) (rounds : List Waited) (world : W)
      → (pipe_callback epoll net r this pool (piped fd) read_ok write_ok ≡ (
          act epoll net read_ok write_ok between (thread_of this r.base) (comes fd) pool
          >>= finish epoll net read_ok write_ok
          >>= λ (t, pool). ok (record r { base = t.base }, pool)))
        × (hang_up epoll net r.base pool fd ≡ (
            act epoll net read_ok write_ok between (thread_of this r.base) (goes fd) pool
            >>= finish epoll net read_ok write_ok
            >>= λ (t, pool). ok (t.base, pool)))
        × (reactor_pool_exec queue callback epoll r this pool read_ok write_ok fuel rounds world ≡ (
            act epoll net read_ok write_ok
              (starting r.pipe_in pipe_read)
              (thread_of this r.base)
              (comes fd)
              pool
            >>= λ (t, pool).
                (loop_rounds queue callback fuel rounds (t.base, world) >>= λ (base, world).
                ok (record r { base = base }, pool, world))))
  unfolding act pipe_callback hang_up
  act-finish queue callback r this fd pool fuel rounds world =
      let t = thread_of this r.base in
      let m = watch epoll net r.base pool (event_read fd client_read this) read_ok write_ok in
      let n = read_wait r.base fd >>= retire epoll net r.base pool in
      (
        first m _
            (λ (had, base, pool). (
              record { this = this; base = base; place = if had then joining fd else between },
              pool,
            ))
            (back_in r) (came r this fd),
        sym (
              >>=_assoc (read_wait r.base fd) (retire epoll net r.base pool)
                λ (base, pool). write_wait base fd >>= retire epoll net base pool)
            ∙ first n _
                (λ (base, pool). (record { this = this; base = base; place = parting fd }, pool))
                base_of (went this fd),
        started queue callback r this fd pool fuel rounds world,
      )
