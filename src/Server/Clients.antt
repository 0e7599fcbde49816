-- ===== src/Server/Clients.antt =====
-- What a reactor holds for its clients: two events each, in slabs of the pool.
use ebot.Base.{ℕ, ◌+◌, ◌<◌, ◌≡◌, List, [], ◌∷◌, Bag, insert}
use ebot.Event.Marks.{unqueued}
use ebot.Event.{Base, event_read, event_write}
use ebot.Event.System.{Epoll}
use ebot.Event.Tables.{Agrees}
use ebot.Pool.{Pool, header}
use ebot.Pool.Links.{NotIn, Distinct}
use ebot.Pool.Moves.{Has}
use ebot.Server.Client.{client_read, client_write}

-- A client: its descriptor, and the slabs of its event to read and its event to write.
pub record Client : Type 0 where
  pub fd : ℕ
  pub reads : ℕ
  pub writes : ℕ

abbrev pub fds : List Client → List ℕ
fds [] = []
fds (c ∷ cs) = c.fd ∷ fds cs

-- The slabs of the clients, with those that others have.
abbrev pub slabs_of : List Client → Bag → Bag
slabs_of [] others = others
slabs_of (c ∷ cs) others = insert c.reads (insert c.writes (slabs_of cs others))

module _ {K Q : Type 0} (this : ℕ) (start : Base K Q) where
  -- Both events of the client wait, in the queue of ready events or not, where nothing waited in
  -- the base `start`.
  pub record Seated (eb : Base K Q) (c : Client) : Type 0 where
    pub fits : c.fd < start.wait_sz
    pub no_read : start.read_waits c.fd ≡ 0
    pub no_write : start.write_waits c.fd ≡ 0
    pub read_at : eb.read_waits c.fd ≡ c.reads + header
    pub write_at : eb.write_waits c.fd ≡ c.writes + header
    pub read_event : unqueued (eb.events (c.reads + header)) ≡ event_read c.fd client_read this
    pub write_event : unqueued (eb.events (c.writes + header)) ≡ event_write c.fd client_write this

  abbrev pub AllSeated : Base K Q → List Client → Type 0
  AllSeated eb [] = Unit
  AllSeated eb (c ∷ cs) = Seated eb c × AllSeated eb cs

  -- A reactor that serves just these clients, with nothing else different from `start`.
  pub record Serves (epoll : Epoll K) (cs : List Client) (free others : Bag) (eb : Base K Q)
      (mp : Pool) : Type 0 where
    pub agrees : Agrees epoll eb
    pub wait_sz : eb.wait_sz ≡ start.wait_sz
    pub kides : eb.kides ≡ start.kides
    pub readies : eb.event_readies ≡ start.event_readies
    pub distinct : Distinct (fds cs)
    pub seated : AllSeated eb cs
    pub elsewhere :
        (j : ℕ)
        → NotIn j (fds cs)
        → (eb.read_waits j ≡ start.read_waits j) × (eb.write_waits j ≡ start.write_waits j)
    pub pool : Has free (slabs_of cs others) mp
