-- ===== src/Server/New.antt =====
-- The server that `eb_srv_new` gives.
use ebot.Base.{
  ℕ, zero, suc, ◌+◌, ◌<◌, ◌^◌, ◌≡◌, refl, ap, ◌∙◌, true, false, Option, some, List, [], ◌∷◌, arith,
  length, Returns, Returns-bind, ok, ℤ, ◌≤◌, le→not_ltb, pos, negsuc, lt→ltb,
}
use ebot.Event
use ebot.Event.{Base, Event}
use ebot.Io.{set_nonblock}
use ebot.Io.Flags.{at_last, set_nonblock_ends}
use ebot.Pool
use ebot.Pool.{Pool}
use ebot.Pool.Valid.{Valid}
use ebot.Pool.New.{new-Valid}
use ebot.Bytes.{int_max}
use ebot.Workers.{pool_bytes}
use ebot.Server.Reactors.{reactors_bytes, Given, make_reactor, make_reactors, reactor_pool_new}
use ebot.Server.Ready.{AllReady, factory_some}
use ebot.Server.Setup.{Means, eb_srv_new, or_four, setting_of, adopt_reactors, event_size, required}
use ebot.Server.Types.{Reactor, Settings}

-- The pool of events of a server that is ready.
pool_some :
    (n mem : ℕ)
    → 0 < n
    → n < 2 ^ 32
    → 0 < mem
    → Returns
        (λ mp. (free : List ℕ) × Valid mp free [] × (length free ≡ n) × (mp.held ≡ false))
        (required (Pool.new n event_size mem))
pool_some n mem some_ few there =
    Returns-bind _ _ (Pool.new n event_size mem) _
      (new-Valid n event_size mem some_ few (omega arith) there)
      (λ r (mp, free, e, valid, count, unheld). rw e (free, valid, count, unheld))

or_four_lem : (n : ℤ) → 0 < or_four n
or_four_lem (pos zero) = omega arith
or_four_lem (pos (suc n)) = omega arith
or_four_lem (negsuc n) = omega arith

module _ {K Q : Type 0} where
  -- What `reactor_pool_new` gets for a reactor, where all calls work at last.
  pub record Works (g : Given K Q) : Type 0 where
    pub base : g.base_ok ≡ true
    pub arrays : g.arrays_ok ≡ true
    pub epfd : ℕ
    pub kernel : K
    pub epoll : g.epoll ≡ some (epfd, kernel)
    pub ends : ℕ × ℕ
    pub pipe : g.pipe ≡ some ends
    pub opts_in : ℕ
    pub opts_out : ℕ
    pub gets_in : g.gets_in ≡ at_last 0 opts_in
    pub sets_in : g.sets_in ≡ at_last 0 0
    pub gets_out : g.gets_out ≡ at_last 0 opts_out
    pub sets_out : g.sets_out ≡ at_last 0 0

  -- The base that `ebot_new` gives.
  abbrev pub fresh_base : (flags epfd : ℕ) → K → Q → (ℕ → Event) → Base K Q
  fresh_base flags epfd k q events = record {
    epfd = epfd;
    kides = Event.kinds_of flags;
    epsz = 1024;
    wait_sz = 1024;
    read_waits = λ _. 0;
    read_room = 1024;
    write_waits = λ _. 0;
    write_room = 1024;
    kernel = k;
    event_readies = q;
    events = events;
  }

  base_some :
      (flags epfd : ℕ) (k : K) (q : Q) (events : ℕ → Event)
      → flags < 4
      → Event.new flags true true (some (epfd, k)) q events
        ≡ ok (some (fresh_base flags epfd k q events))
  unfolding Event.new
  base_some flags epfd k q events h = rw (lt→ltb flags 4 h) refl

  -- A reactor as `reactor_pool_new` leaves it: the base and the pipe are those that it got.
  abbrev pub fresh_reactor : (i srv : ℕ) (g : Given K Q) → Works g → Reactor K Q
  fresh_reactor i srv g w = record {
    id = i + 1;
    tid = 0;
    base = fresh_base 3 w.epfd w.kernel g.queue g.events;
    srv = srv;
    pipe_in = w.ends.0;
    pipe_out = w.ends.1;
    status = 0;
  }

  make_reactor-Works :
      (i : ℕ) (g : Given K Q) (w : Works g)
      → Returns (λ r. r ≡ fresh_reactor i 0 g w) (make_reactor i g)
  unfolding make_reactor
  make_reactor-Works i g w =
      let made = base_some 3 w.epfd w.kernel g.queue g.events (omega arith) in
      rw (w.base, w.arrays, w.epoll, made, w.pipe, w.gets_in, w.sets_in, w.gets_out, w.sets_out)
        (Returns-bind _ _ (set_nonblock true (at_last 0 w.opts_in) (at_last 0 0)) _
          (set_nonblock_ends true w.opts_in 0 0 0)
          (λ x _.
            Returns-bind _ _ (set_nonblock true (at_last 0 w.opts_out) (at_last 0 0)) _
              (set_nonblock_ends true w.opts_out 0 0 0) (λ y _. refl)))

  -- `k` of them from `i` on, which know their server.
  abbrev pub fresh_reactors :
      (k i srv : ℕ) (given : ℕ → Given K Q) → ((i : ℕ) → Works (given i)) → List (Reactor K Q)
  fresh_reactors zero i srv given w = []
  fresh_reactors (suc k) i srv given w =
      fresh_reactor i srv (given i) (w i) ∷ fresh_reactors k (i + 1) srv given w

  make_reactors-Works :
      (given : ℕ → Given K Q) (w : (i : ℕ) → Works (given i)) (k i : ℕ)
      → Returns (λ rs. rs ≡ fresh_reactors k i 0 given w) (make_reactors k i given)
  unfolding make_reactors
  make_reactors-Works given w zero i = refl
  make_reactors-Works given w (suc k) i =
      Returns-bind _ _ (make_reactor i (given i)) _ (make_reactor-Works i (given i) (w i)) (λ r one.
        Returns-bind _ _ (make_reactors k (i + 1) given) _ (make_reactors-Works given w k (i + 1))
          (λ rs e. (λ j. one j ∷ e j)))

  -- What `eb_srv_new` gets, where all calls work and there is memory.
  pub record Plenty (means : Means K Q) : Type 0 where
    pub srv : means.srv_ok ≡ true
    pub pool : 0 < means.pool_mem
    pub base : means.base_ok ≡ true
    pub arrays : means.arrays_ok ≡ true
    pub epfd : ℕ
    pub kernel : K
    pub epoll : means.epoll ≡ some (epfd, kernel)
    pub reactors : means.reactors_ok ≡ true
    pub given : (i : ℕ) → Works (means.given i)
    pub factory : means.factory_ok ≡ true
    pub fds : ℕ → ℕ
    pub efds : (i : ℕ) → means.efds i ≡ pos (fds i)
    pub mallocs : (i : ℕ) → means.mallocs i ≡ true

  adopt_reactors-fresh :
      (this : ℕ) (given : ℕ → Given K Q) (w : (i : ℕ) → Works (given i)) (k i : ℕ)
      → adopt_reactors this (fresh_reactors k i 0 given w) ≡ fresh_reactors k i this given w
  adopt_reactors-fresh this given w zero i = refl
  adopt_reactors-fresh this given w (suc k) i =
      ap (λ l. fresh_reactor i this (given i) (w i) ∷ l)
        (adopt_reactors-fresh this given w k (i + 1))

  pub length-fresh_reactors :
      (k i srv : ℕ) (given : ℕ → Given K Q) (w : (i : ℕ) → Works (given i))
      → length (fresh_reactors k i srv given w) ≡ k
  length-fresh_reactors zero i srv given w = refl
  length-fresh_reactors (suc k) i srv given w = ap suc (length-fresh_reactors k (i + 1) srv given w)

  -- Where all calls work and there is memory, and the sizes of the pools of reactors and workers
  -- are an `int`, `eb_srv_new` comes to its end with a server that is ready: a valid pool with as
  -- many free events, as many reactors, and as many workers as the settings say (or four, where
  -- they say none), each reactor with the next number, its pipe, a base in which nothing waits, and
  -- the server, each worker with the server's handler and an empty ring with a free lock, a base in
  -- which nothing waits, no connection counted and no callback.
  pub new-AllReady :
      (s : Option Settings) (this : ℕ) (means : Means K Q) (p : Plenty means)
      → or_four (setting_of s).memory_pool_size < 2 ^ 32
      → reactors_bytes (or_four (setting_of s).reactor_num) ≤ int_max
      → pool_bytes (or_four (setting_of s).factory_num) ≤ int_max
      → Returns
          (λ srv.
            (free : List ℕ) × Valid srv.event_pool free []
            × (length free ≡ or_four (setting_of s).memory_pool_size)
            × (srv.slave_reactor
                ≡ fresh_reactors (or_four (setting_of s).reactor_num) 0 this means.given p.given)
            × (length srv.factory.units ≡ or_four (setting_of s).factory_num)
            × AllReady this srv.factory.units
            × (srv.event_pool.held ≡ false)
            × (srv.master_base ≡ fresh_base 1 p.epfd p.kernel means.queue means.events)
            × (srv.total_conns ≡ 0)
            × (srv.callbacks ≡ λ _. 0))
          (eb_srv_new s this means)
  unfolding eb_srv_new reactor_pool_new make_reactors
  new-AllReady s this means p few few_reactors few_units =
      let n = or_four (setting_of s).memory_pool_size in
      let base_made = base_some 1 p.epfd p.kernel means.queue means.events (omega arith) in
      let (wp, wp_made, ready, count) =
        factory_some this (or_four (setting_of s).factory_num) means.efds p.fds means.mallocs p.efds
          p.mallocs few_units in
      rw (p.srv, p.base, p.arrays, p.epoll, base_made, p.reactors, p.factory, wp_made)
        (Returns-bind _ _ (required (Pool.new n event_size means.pool_mem)) _
          (pool_some n means.pool_mem (or_four_lem (setting_of s).memory_pool_size) few p.pool)
          (λ pool (free, valid, all, unheld).
            Returns-bind _ _
              (reactor_pool_new (or_four (setting_of s).reactor_num) true means.given) _
              (rw
                (le→not_ltb int_max (reactors_bytes (or_four (setting_of s).reactor_num))
                  few_reactors)
                (make_reactors-Works means.given p.given (or_four (setting_of s).reactor_num) 0))
              (λ rs made. (
                free,
                valid,
                all,
                ap (adopt_reactors this) made
                    ∙ adopt_reactors-fresh this means.given p.given
                        (or_four (setting_of s).reactor_num) 0,
                count,
                ready,
                unheld,
                refl,
                refl,
                refl,
              ))))
