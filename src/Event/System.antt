-- ===== src/Event/System.antt =====
-- What the event base uses and does not implement: sets of flags, the kernel's `epoll`, and the
-- tail queues of <sys/queue.h>.
use ebot.Base.{ℕ, ◌≡◌, ◌≢◌, Bool, true, false, ◌&&◌, ◌||◌, Option, none, some, List, [], ◌∷◌, ◌++◌}
use mathlib.Core.List.{head?}

abbrev pub null : ℕ
null = 0

-- A set of the flags `E_READ` and `E_WRITE`.
pub record Kinds : Type 0 where
  pub reads : Bool
  pub writes : Bool

abbrev pub read_only : Kinds
read_only = record { reads = true; writes = false }

abbrev pub write_only : Kinds
write_only = record { reads = false; writes = true }

abbrev pub read_write : Kinds
read_write = record { reads = true; writes = true }

-- `a & b`, as a test
abbrev pub meets : Kinds → Kinds → Bool
meets a b = (a.reads && b.reads) || (a.writes && b.writes)

-- A set of the flags `EPOLLIN`, `EPOLLOUT` and `EPOLLET`.
pub record Mask : Type 0 where
  pub input : Bool
  pub output : Bool
  pub edge : Bool

-- `EPOLL_CTL_ADD`, `EPOLL_CTL_MOD` and `EPOLL_CTL_DEL`
pub data Op : Type 0 where
  ctl_add ctl_mod ctl_del : Op

-- What a call that works leaves for its descriptor.
abbrev pub registers : Op → Mask → Option Mask
registers ctl_add m = some m
registers ctl_mod m = some m
registers ctl_del m = none

-- `epoll_ctl` gives no new state where it returns -1. The laws are those of epoll_ctl(2): a call
-- that works sets the entry of its descriptor in the interest list and leaves the others alone.
pub record Epoll (K : Type 0) : Type 0 where
  pub ctl : K → Op → ℕ → Mask → Option K
  pub interest : K → ℕ → Option Mask
  pub ctl_self :
      (k : K) (op : Op) (fd : ℕ) (m : Mask) (k' : K)
      → ctl k op fd m ≡ some k'
      → interest k' fd ≡ registers op m
  pub ctl_other :
      (k : K) (op : Op) (fd : ℕ) (m : Mask) (k' : K) (fd' : ℕ)
      → ctl k op fd m ≡ some k'
      → fd' ≢ fd
      → interest k' fd' ≡ interest k fd'

-- The kernel does what is asked of an entry that is there, as epoll_ctl(2) says of a descriptor
-- that is open and in the interest list.
abbrev pub Obeys : {K : Type 0} → Epoll K → Type 0
Obeys {K} epoll =
    (k : K) (op : Op) (fd : ℕ) (m m' : Mask)
    → epoll.interest k fd ≡ some m'
    → op ≢ ctl_add
    → (k' : K) × (epoll.ctl k op fd m ≡ some k')

-- And it takes an entry that is not there yet, as long as it has memory and its limits allow.
abbrev pub Accepts : {K : Type 0} → Epoll K → Type 0
Accepts {K} epoll =
    (k : K) (fd : ℕ) (m : Mask)
    → epoll.interest k fd ≡ none
    → (k' : K) × (epoll.ctl k ctl_add fd m ≡ some k')

abbrev pub Absent : ℕ → List ℕ → Type 0
Absent a [] = Unit
Absent a (x ∷ xs) = (a ≢ x) × Absent a xs

-- The `TAILQ` macros that the code uses, on elements known by their addresses. An element is put in
-- only where it is in no queue, and only the first one is taken out.
pub record TailQueue (Q : Type 0) : Type 0 where
  pub init : Q
  pub insert_tail : Q → ℕ → Q
  pub remove : Q → ℕ → Q
  pub first : Q → Option ℕ
  pub items : Q → List ℕ
  pub items-init : items init ≡ []
  pub items-insert_tail :
      (q : Q) (e : ℕ) → Absent e (items q) → items (insert_tail q e) ≡ items q ++ (e ∷ [])
  pub items-remove : (q : Q) (e : ℕ) (l : List ℕ) → items q ≡ e ∷ l → items (remove q e) ≡ l
  pub first-items : (q : Q) → first q ≡ head? (items q)
