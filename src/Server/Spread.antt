-- ===== src/Server/Spread.antt =====
-- The connections that a server accepts, and the reactors that get them.
use mathlib.Core.List.{append-nil, append_assoc}
use mathlib.Core.Option.{some-injective}
use std.Path.{subst, subst⁻¹}
use ebot.Base.{
  ℕ, ◌+◌, ◌%◌, ◌<◌, ◌≤◌, ◌≡◌, ◌≢◌, refl, sym, ap, ◌∙◌, true, false, none, some, List, [], ◌∷◌, ◌++◌,
  arith, length-append, Run, Returns, Returns-map, Returns-ok, ok, ◌>>=◌, length, get_elem?,
  get_elem?-some, get_elem?_below, ℕ_discrete, ◌==◌, if◌then◌else◌, eq→==, ne→not_==, le→not_ltb,
  pos,
}
use ebot.Bytes.{int_max, int_bytes}
use ebot.Io.{set_nonblock}
use ebot.Io.Flags.{at_last, set_nonblock_ends}
use ebot.Server.Accept.{ebot_srv_accept, connected, exceeds}
use ebot.Server.Types.{Reactor, Srv, Stream, Net, either_way, eb_connect, null}

-- A connection: what `accept` gives, and the flags that `fcntl` gives and takes for it, behind
-- some calls that are interrupted.
pub record Arrival : Type 0 where
  pub fd : ℕ
  pub flags : ℕ
  pub gets : ℕ
  pub sets : ℕ

-- The descriptors that the reactor `k` of `n` gets.
abbrev pub dealt : (n k : ℕ) → List Arrival → List ℕ
dealt n k [] = []
dealt n k (a ∷ rest) = if a.fd % n == k then a.fd ∷ dealt n k rest else dealt n k rest

-- Descriptors, as the bytes that go through a pipe.
abbrev pub as_bytes : List ℕ → List ℕ
as_bytes [] = []
as_bytes (fd ∷ rest) = int_bytes fd ++ as_bytes rest

-- Each reactor has a pipe of its own.
abbrev pub Apart : {K Q : Type 0} → List (Reactor K Q) → Type 0
Apart reactors =
    (i j : ℕ) (r q : _)
    → get_elem? reactors i ≡ some r
    → get_elem? reactors j ≡ some q
    → r.pipe_out ≡ q.pipe_out
    → i ≡ j

module _ {W : Type 0} (net : Net W) where
  -- A pipe takes a few bytes at once, behind those that it has, where it has room for them; one
  -- without room for all of them does not block, and refuses them. The callbacks of the user do not
  -- write to the pipes.
  pub record Pipes : Type 0 where
    pub holds : W → (fd : ℕ) → List ℕ
    pub capacity : ℕ
    pub pipe_write_lem :
        (w : W) (fd : ℕ) (bytes : List ℕ)
        → length bytes ≤ 512
        → length (holds w fd) + length bytes ≤ capacity
        → (w' : W) × (net.pipe_write w fd bytes ≡ some w')
          × (holds w' fd ≡ holds w fd ++ bytes)
          × ((other : ℕ) → other ≢ fd → holds w' other ≡ holds w other)
    pub refuses :
        (w : W) (fd : ℕ) (bytes : List ℕ)
        → length bytes ≤ 512
        → capacity < length (holds w fd) + length bytes
        → net.pipe_write w fd bytes ≡ none
    pub holds-call :
        (w : W) (cb : ℕ) (stream : Stream) (fd : ℕ) → holds (net.call w cb stream) fd ≡ holds w fd

module _ {K Q W : Type 0} (net : Net W) where
  unfoldable pub accept_all : Srv K Q → List Arrival → W → Run (Srv K Q × W)
  accept_all srv [] world = ok (srv, world)
  accept_all srv (a ∷ rest) world = do
    (srv, world) ←
        ebot_srv_accept net srv (some a.fd) (at_last a.gets a.flags) (at_last a.sets 0) world
    accept_all srv rest world

  accept_within :
      (srv : Srv K Q) (a : Arrival) (most : ℕ) (r : Reactor K Q) (world : W)
      → srv.setting.max_connections ≡ pos most
      → most < int_max
      → srv.total_conns ≤ most
      → get_elem? srv.slave_reactor (a.fd % length srv.slave_reactor) ≡ some r
      → ebot_srv_accept net srv (some a.fd) (at_last a.gets a.flags) (at_last a.sets 0) world
        ≡ ok (
          record srv { total_conns = srv.total_conns + 1 },
          connected net srv a.fd
              (either_way world (net.pipe_write world r.pipe_out (int_bytes a.fd))),
        )
  unfolding ebot_srv_accept
  accept_within srv a most r world limit small few there =
      let rsz = length srv.slave_reactor in
      let (flags, e, _) =
        Returns-ok (set_nonblock true (at_last a.gets a.flags) (at_last a.sets 0))
          (set_nonblock_ends true a.flags a.gets a.sets 0) in
      let under : exceeds srv.total_conns srv.setting.max_connections ≡ false =
        rw limit (le→not_ltb most srv.total_conns few) in
      rw
        (
          under,
          e,
          ne→not_== rsz 0 (get_elem?-some srv.slave_reactor (a.fd % rsz) r there),
          there,
          ne→not_== srv.total_conns int_max (λ z. omega (arith, z, few, small)),
        )
        refl

  module _ (pipes : Pipes net) where
    -- The pipe of each reactor has room for the connections that it gets.
    abbrev pub Rooms : List (Reactor K Q) → List Arrival → W → Type 0
    Rooms reactors arrivals world =
        (k : ℕ) (r : Reactor K Q)
        → get_elem? reactors k ≡ some r
        → length (pipes.holds world r.pipe_out ++ as_bytes (dealt (length reactors) k arrivals))
          ≤ pipes.capacity

    -- What the pipes have behind an accepted connection.
    connected-holds :
        (srv : Srv K Q) (fd p q : ℕ) (world : W)
        → length (pipes.holds world p) + 4 ≤ pipes.capacity
        → pipes.holds
            (connected net srv fd (either_way world (net.pipe_write world p (int_bytes fd))))
            q
          ≡ (if p == q then pipes.holds world q ++ int_bytes fd else pipes.holds world q)
    unfolding connected
    connected-holds srv fd p q world fits =
        let (w', e, here, there) = pipes.pipe_write_lem world p (int_bytes fd) (omega arith) fits in
        let called : pipes.holds (connected net srv fd w') q ≡ pipes.holds w' q =
          elim (ℕ_discrete (srv.callbacks eb_connect) null) [
            | yes z ↦ rw (eq→== _ _ z)
            | no z ↦ rw (ne→not_== _ _ z) (pipes.holds-call w' _ _ q)
          ] in
        rw e (
          called ∙ elim (ℕ_discrete p q) [
            | yes z ↦
                rw (eq→== p q z)
                  (subst (λ x. pipes.holds w' x ≡ pipes.holds world x ++ int_bytes fd) z here)
            | no z ↦ rw (ne→not_== p q z) (there q (λ y. z (sym y)))
          ])

    -- A connection within the limit whose reactor has no room in its pipe is lost: it is counted,
    -- and the callback for `EB_CONNECT` is called, but no pipe has its descriptor, and it is not
    -- closed.
    pub accept_full :
        (srv : Srv K Q) (a : Arrival) (most : ℕ) (r : Reactor K Q) (world : W)
        → srv.setting.max_connections ≡ pos most
        → most < int_max
        → srv.total_conns ≤ most
        → get_elem? srv.slave_reactor (a.fd % length srv.slave_reactor) ≡ some r
        → pipes.capacity < length (pipes.holds world r.pipe_out) + 4
        → Returns
            (λ (srv', world').
              (srv'.total_conns ≡ srv.total_conns + 1)
              × (world' ≡ connected net srv a.fd world)
              × ((q : ℕ) → pipes.holds world' q ≡ pipes.holds world q))
            (ebot_srv_accept net srv (some a.fd) (at_last a.gets a.flags) (at_last a.sets 0) world)
    unfolding connected
    accept_full srv a most r world limit small few at full =
        rw
          (
            accept_within srv a most r world limit small few at,
            pipes.refuses world r.pipe_out (int_bytes a.fd) (omega arith) full,
          )
          (
            refl,
            refl,
            λ q. elim (ℕ_discrete (srv.callbacks eb_connect) null) [
              | yes z ↦ rw (eq→== _ _ z) refl
              | no z ↦ rw (ne→not_== _ _ z) (pipes.holds-call world _ _ q)
            ],
          )

    -- The next connection fits in its pipe.
    one_fits :
        (reactors : List (Reactor K Q)) (a : Arrival) (rest : List Arrival) (r : Reactor K Q)
        (world : W)
        → get_elem? reactors (a.fd % length reactors) ≡ some r
        → Rooms reactors (a ∷ rest) world
        → length (pipes.holds world r.pipe_out) + 4 ≤ pipes.capacity
    one_fits reactors a rest r world at fits =
        let k = a.fd % length reactors in
        let here : dealt (length reactors) k (a ∷ rest) ≡ a.fd ∷ dealt (length reactors) k rest =
          rw (eq→== k k refl) refl in
        let tail = as_bytes (dealt (length reactors) k rest) in
        omega (
          arith,
          subst (λ l. length (pipes.holds world r.pipe_out ++ as_bytes l) ≤ pipes.capacity) here
              (fits k r at),
          length-append (pipes.holds world r.pipe_out) (int_bytes a.fd ++ tail),
          length-append (int_bytes a.fd) tail,
        )

    one_more :
        (srv : Srv K Q) (a : Arrival) (rest : List Arrival) (k : ℕ) (r q : Reactor K Q) (world : W)
        → get_elem? srv.slave_reactor (a.fd % length srv.slave_reactor) ≡ some r
        → get_elem? srv.slave_reactor k ≡ some q
        → Apart srv.slave_reactor
        → length (pipes.holds world r.pipe_out) + 4 ≤ pipes.capacity
        → pipes.holds
              (connected net srv a.fd
                (either_way world (net.pipe_write world r.pipe_out (int_bytes a.fd))))
              q.pipe_out
            ++ as_bytes (dealt (length srv.slave_reactor) k rest)
          ≡ pipes.holds world q.pipe_out ++ as_bytes (dealt (length srv.slave_reactor) k (a ∷ rest))
    one_more srv a rest k r q world at atk apart fits =
        let n = length srv.slave_reactor in
        let tail = as_bytes (dealt n k rest) in
        ap (λ x. x ++ tail) (connected-holds srv a.fd r.pipe_out q.pipe_out world fits)
        ∙ elim (ℕ_discrete (a.fd % n) k) [
          | yes z ↦
              let same : r.pipe_out ≡ q.pipe_out =
                ap (λ x. x.pipe_out)
                  (some-injective r q (sym at ∙ ap (get_elem? srv.slave_reactor) z ∙ atk)) in
              rw (eq→== _ _ z, eq→== _ _ same)
                (append_assoc (pipes.holds world q.pipe_out) (int_bytes a.fd) tail)
          | no z ↦
              rw (ne→not_== _ _ z, ne→not_== _ _ (λ e. z (apart (a.fd % n) k r q at atk e))) refl
        ]

    -- Connections within the limit are counted, and each goes to the pipe of its reactor, where the
    -- pipes have room for them.
    pub accept_all-dealt :
        (arrivals : List Arrival) (srv : Srv K Q) (most : ℕ) (world : W)
        → srv.setting.max_connections ≡ pos most
        → most < int_max
        → srv.total_conns + length arrivals ≤ most + 1
        → length srv.slave_reactor ≢ 0
        → Apart srv.slave_reactor
        → Rooms srv.slave_reactor arrivals world
        → Returns
            (λ (srv', world').
              (srv'.total_conns ≡ srv.total_conns + length arrivals)
              × (srv'.slave_reactor ≡ srv.slave_reactor)
              × ((k : ℕ) (r : Reactor K Q)
                  → get_elem? srv.slave_reactor k ≡ some r
                  → pipes.holds world' r.pipe_out
                    ≡ pipes.holds world r.pipe_out
                      ++ as_bytes (dealt (length srv.slave_reactor) k arrivals)))
            (accept_all srv arrivals world)
    unfolding accept_all
    accept_all-dealt [] srv most world limit small few some_reactor apart fits =
        (omega arith, refl, λ k r at. sym (append-nil (pipes.holds world r.pipe_out)))
    accept_all-dealt (a ∷ rest) srv most world limit small few some_reactor apart fits =
        let n = length srv.slave_reactor in
        let (r, at) = get_elem?_below srv.slave_reactor (a.fd % n) (omega (arith, some_reactor)) in
        let one = one_fits srv.slave_reactor a rest r world at fits in
        let w' =
          connected net srv a.fd
            (either_way world (net.pipe_write world r.pipe_out (int_bytes a.fd))) in
        rw (accept_within srv a most r world limit small (omega (arith, few)) at) (
          Returns-map (accept_all (record srv { total_conns = srv.total_conns + 1 }) rest w')
            (λ (srv', world') (counted, same, held). (
              omega (arith, counted),
              same,
              λ k q atk. held k q atk ∙ one_more srv a rest k r q world at atk apart one,
            ))
            (accept_all-dealt rest (record srv { total_conns = srv.total_conns + 1 }) most w' limit
              small (omega (arith, few)) some_reactor apart
              λ k q atk.
                subst⁻¹ (λ l. length l ≤ pipes.capacity)
                  (one_more srv a rest k r q world at atk apart one) (fits k q atk)))
