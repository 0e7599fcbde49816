-- ===== src/Server/Threads/Acting.antt =====
-- One access to the pool of events, seen from the thread that makes it.
use ebot.Base.{
  ℕ, ◌<◌, ◌≡◌, refl, ◌⊎◌, inl, inr, Bool, true, none, arith, Run, ok, exits, ◌+◌, List, length,
  Returns, Returns-bind, ◌>>=◌, Bag, Bool-cases,
}
use ebot.Event.{Base, event_read, event_write, read_wait, write_wait}
use ebot.Event.Opening.{ctl_takes, registered-Agrees, add_event-registered}
use ebot.Event.System.{Epoll, Obeys, Accepts, meets}
use ebot.Pool.{Pool, header, get_with_lock}
use ebot.Pool.Accounts.{Owns, get_with_lock-Owns}
use ebot.Server.Client.{watch, retire, client_read, client_write}
use ebot.Server.Threads.{
  Stage, starting, between, joining, parting, Turn, comes, goes, Thread, Enabled, act,
}
use ebot.Server.Threads.Held.{held}
use ebot.Server.Threads.Registering.{Turned-read}
use ebot.Server.Threads.Retiring.{retire_read, retire_write}
use ebot.Server.Threads.Sound.{Sound, Turned}
use ebot.Server.Threads.Watching.{Half, watch_read, watch_write}
use ebot.Server.Types.{Net}

-- What the base has for the descriptor with which the thread is not done.
abbrev pub InPlace : {K Q : Type 0} → Stage → Base K Q → Type 0
InPlace (starting fd cb) eb = (fd < eb.wait_sz) × (eb.read_waits fd ≡ 0) × (eb.write_waits fd ≡ 0)
InPlace between eb = Unit
InPlace (joining fd) eb = Half fd eb
InPlace (parting fd) eb = (fd < eb.wait_sz) × (eb.read_waits fd ≡ 0)

abbrev pub Starts : Stage → Type 0
Starts (starting fd cb) = Unit
Starts _ = ⊥

-- An access comes to its end, but for the `assert` of a thread that starts while
-- `mpool_get_with_lock` gives `NULL`.
abbrev pub Ends :
    {K Q : Type 0} → (Thread K Q × Pool → Type 0) → Stage → Pool → Run (Thread K Q × Pool) → Type 0
Ends R p mp r = Returns R r ⊎ ((r ≡ exits) × Starts p × (get_with_lock mp ≡ ok (none, mp)))

module _ {K Q W : Type 0} (epoll : Epoll K) (net : Net W) (obeys : Obeys epoll)
    (accepts : Accepts epoll) (read_ok write_ok : Bool) (slabs : List ℕ)
    (more : 1 < length slabs) where
  pub act-Turned :
      (p : Stage) (t : Thread K Q) (turn : Turn) (rest : Bag) (mp : Pool) (v : Sound epoll t.base)
      → InPlace p t.base
      → Enabled p t turn
      → Owns slabs (held t.base t.base.wait_sz rest) mp
      → Ends
          (λ (t', mp'). Turned epoll t.base v rest slabs t'.base mp' × InPlace t'.place t'.base)
          p
          mp
          (act epoll net read_ok write_ok p t turn mp)
  unfolding act
  act-Turned (starting fd cb) t turn rest mp v (fits, r0, w0) en own =
      let eb = t.base in
      let e = event_read fd cb t.this in
      let (k, c) = ctl_takes epoll accepts eb e v.agrees r0 w0 in
      let wanted : meets e.kide eb.kides ≡ true = rw v.reads refl in
      elim (get_with_lock-Owns slabs (held eb eb.wait_sz rest) own more) [
        | inl got ↦ inr (rw got refl, tt, got)
        | inr (s, mp', got, own', fresh) ↦
            let g =
              (registered-Agrees epoll eb e (s + header) k v.agrees (λ z. omega (arith, z)) wanted
                c).0 in
            inl (
              rw
                (
                  got,
                  add_event-registered epoll eb e (s + header) read_ok write_ok k v.agrees fits
                      wanted c,
                )
                (
                  Turned-read epoll eb v slabs rest s fd fresh fits cb t.this k mp' own' r0 w0 g,
                  tt,
                ))
      ]
  act-Turned between t (comes fd) rest mp v at (fits, r0, w0) own = inl (
      Returns-bind
        (λ (had, eb', mp'). Turned epoll t.base v rest slabs eb' mp' × (had ≡ true → Half fd eb')) _
        (watch epoll net t.base mp (event_read fd client_read t.this) read_ok write_ok) _
        (watch_read epoll net t.base v slabs rest mp fd t.this read_ok write_ok own more fits
          accepts r0 w0)
        λ (had, base, mp') (turned, half). elim (Bool-cases had) [
          | inl e ↦ rw e (turned, half e)
          | inr e ↦ rw e (turned, tt)
        ])
  act-Turned (joining fd) t turn rest mp v (fits, some_, w0) en own = inl (
      Returns-bind (λ (had, eb', mp'). Turned epoll t.base v rest slabs eb' mp') _
        (watch epoll net t.base mp (event_write fd client_write t.this) read_ok write_ok) _
        (watch_write epoll net t.base v slabs rest mp fd t.this read_ok write_ok own more fits obeys
          some_ w0)
        λ (had, base, mp') turned. (turned, tt))
  act-Turned between t (goes fd) rest mp v at fits own = inl (
      Returns-bind
        (λ (eb', mp').
          Turned epoll t.base v rest slabs eb' mp' × (fd < eb'.wait_sz) × (eb'.read_waits fd ≡ 0))
        _ (read_wait t.base fd >>= retire epoll net t.base mp) _
        (retire_read epoll net obeys t.base v slabs rest mp fd own fits)
        λ (base, mp') (turned, big, r0). (turned, (big, r0)))
  act-Turned (parting fd) t turn rest mp v (fits, r0) en own = inl (
      Returns-bind (λ (eb', mp'). Turned epoll t.base v rest slabs eb' mp') _
        (write_wait t.base fd >>= retire epoll net t.base mp) _
        (retire_write epoll net obeys t.base v slabs rest mp fd own fits r0)
        λ (base, mp') turned. (turned, tt))
