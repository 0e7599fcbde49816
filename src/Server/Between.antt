-- ===== src/Server/Between.antt =====
-- A reactor in the middle of a round: between two calls of callbacks.
use ebot.Base.{
  ℕ, ℕ_discrete, ◌+◌, ◌≡◌, ◌≢◌, refl, sym, ap, ◌∙◌, ◌⊎◌, inl, inr, List, [], ◌∷◌, ◌++◌, Bag,
}
use ebot.Event.{Base, event_read}
use ebot.Event.Marks.{unqueued}
use ebot.Event.System.{Epoll}
use ebot.Event.Tables.{Agrees}
use ebot.Pool.{Pool, header}
use ebot.Pool.Links.{NotIn}
use ebot.Server.Client.{client_read}
use ebot.Server.Clients.{Client, fds, AllSeated, Serves}

-- One of the clients has this descriptor, and its event to read is at `a`.
abbrev pub At : List Client → (a fd : ℕ) → Type 0
At [] a fd = ⊥
At (c ∷ cs) a fd = ((c.reads + header ≡ a) × (c.fd ≡ fd)) ⊎ At cs a fd

-- It stands between the others.
pub At-split :
    (cs : List Client) (a fd : ℕ)
    → At cs a fd
    → (l : List Client) × (c : Client) × (r : List Client) × (cs ≡ l ++ (c ∷ r))
      × (c.reads + header ≡ a)
      × (c.fd ≡ fd)
At-split [] a fd h = elim h [ ]
At-split (c ∷ cs) a fd (inl (e, f)) = ([], c, cs, refl, e, f)
At-split (c ∷ cs) a fd (inr h) =
    let (l, d, r, e, is, f) = At-split cs a fd h in (c ∷ l, d, r, ap (λ z. c ∷ z) e, is, f)

-- Without a client the others are still there, and no more.
pub At-without :
    (l : List Client) (c : Client) (r : List Client) (a fd : ℕ)
    → a ≢ c.reads + header
    → At (l ++ (c ∷ r)) a fd
    → At (l ++ r) a fd
At-without [] c r a fd ne (inl (e, f)) = absurd (ne (sym e))
At-without [] c r a fd ne (inr h) = h
At-without (d ∷ l) c r a fd ne (inl h) = inl h
At-without (d ∷ l) c r a fd ne (inr h) = inr (At-without l c r a fd ne h)

pub At-with :
    (l : List Client) (c : Client) (r : List Client) (a fd : ℕ)
    → At (l ++ r) a fd
    → At (l ++ (c ∷ r)) a fd
At-with [] c r a fd h = inr h
At-with (d ∷ l) c r a fd (inl h) = inl h
At-with (d ∷ l) c r a fd (inr h) = inr (At-with l c r a fd h)

pub At-mid :
    (l : List Client) (c : Client) (r : List Client) (a : ℕ)
    → c.reads + header ≡ a
    → At (l ++ (c ∷ r)) a c.fd
At-mid [] c r a e = inl (e, refl)
At-mid (d ∷ l) c r a e = inr (At-mid l c r a e)

pub At-In : (cs : List Client) (a fd : ℕ) → At cs a fd → NotIn fd (fds cs) → ⊥
At-In [] a fd h out = elim h [ ]
At-In (c ∷ cs) a fd (inl (e, f)) out = out.0 (sym f)
At-In (c ∷ cs) a fd (inr h) out = At-In cs a fd h out.1

pub In-At : (cs : List Client) (fd : ℕ) → (NotIn fd (fds cs) → ⊥) → (a : ℕ) × At cs a fd
In-At [] fd there = absurd (there tt)
In-At (c ∷ cs) fd there = elim (ℕ_discrete c.fd fd) [
  | yes e ↦ (c.reads + header, inl (refl, e))
  | no ne ↦ let (a, h) = In-At cs fd λ out. there (λ z. ne (sym z), out) in (a, inr h)
]

module _ {K Q : Type 0} (this : ℕ) (start : Base K Q) where
  -- What is at the place of a client's event to read.
  pub At-event :
      (eb : Base K Q) (cs : List Client) (a fd : ℕ)
      → AllSeated this start eb cs
      → At cs a fd
      → unqueued (eb.events a) ≡ event_read fd client_read this
  At-event eb [] a fd _ h = elim h [ ]
  At-event eb (c ∷ cs) a fd (s, h) (inl (e, f)) =
      ap (λ x. unqueued (eb.events x)) (sym e)
      ∙ s.read_event
      ∙ ap (λ x. event_read x client_read this) f
  At-event eb (c ∷ cs) a fd (s, h) (inr m) = At-event eb cs a fd h m

  -- The seats do not depend on the flags and the queue.
  AllSeated-same :
      (eb eb' : Base K Q) (cs : List Client)
      → eb'.read_waits ≡ eb.read_waits
      → eb'.write_waits ≡ eb.write_waits
      → ((a : ℕ) → unqueued (eb'.events a) ≡ unqueued (eb.events a))
      → AllSeated this start eb cs
      → AllSeated this start eb' cs
  AllSeated-same eb eb' [] r w e h = tt
  AllSeated-same eb eb' (c ∷ cs) r w e (s, h) = (
    record {
      fits = s.fits;
      no_read = s.no_read;
      no_write = s.no_write;
      read_at = ap (λ f. f c.fd) r ∙ s.read_at;
      write_at = ap (λ f. f c.fd) w ∙ s.write_at;
      read_event = e (c.reads + header) ∙ s.read_event;
      write_event = e (c.writes + header) ∙ s.write_event;
    },
    AllSeated-same eb eb' cs r w e h,
  )

module _ {K Q : Type 0} (epoll : Epoll K) (this : ℕ) (start : Base K Q) where
  -- The base as it would be at the start, with the queue of another.
  abbrev pub with_queue : Base K Q → Base K Q
  with_queue eb = record start { event_readies = eb.event_readies }

  -- `Serves`, whatever the queue of ready events is.
  abbrev pub Serving : List Client → (free others : Bag) → Base K Q → Pool → Type 0
  Serving cs free others eb mp = Serves this (with_queue eb) epoll cs free others eb mp

  AllSeated-queue :
      (eb x y : Base K Q) (cs : List Client)
      → AllSeated this (with_queue x) eb cs
      → AllSeated this (with_queue y) eb cs
  AllSeated-queue eb x y [] h = tt
  AllSeated-queue eb x y (c ∷ cs) (s, h) = (
    record {
      fits = s.fits;
      no_read = s.no_read;
      no_write = s.no_write;
      read_at = s.read_at;
      write_at = s.write_at;
      read_event = s.read_event;
      write_event = s.write_event;
    },
    AllSeated-queue eb x y cs h,
  )

  -- The flags and the queue may change.
  pub Serving-marks :
      (cs : List Client) (free others : Bag) (eb eb' : Base K Q) (mp : Pool)
      → Serving cs free others eb mp
      → Agrees epoll eb'
      → eb'.wait_sz ≡ eb.wait_sz
      → eb'.kides ≡ eb.kides
      → eb'.read_waits ≡ eb.read_waits
      → eb'.write_waits ≡ eb.write_waits
      → ((a : ℕ) → unqueued (eb'.events a) ≡ unqueued (eb.events a))
      → Serving cs free others eb' mp
  Serving-marks cs free others eb eb' mp v g sz ks r w e = record {
    agrees = g;
    wait_sz = sz ∙ v.wait_sz;
    kides = ks ∙ v.kides;
    readies = refl;
    distinct = v.distinct;
    seated =
        AllSeated-queue eb' eb eb' cs
          (AllSeated-same this (with_queue eb) eb eb' cs r w e v.seated);
    elsewhere = λ j out.
        let there = v.elsewhere j out in (ap (λ f. f j) r ∙ there.0, ap (λ f. f j) w ∙ there.1);
    pool = v.pool;
  }

  pub Serving-queue :
      (cs : List Client) (free others : Bag) (eb eb' : Base K Q) (mp : Pool)
      → Serves this (with_queue eb) epoll cs free others eb' mp
      → Serving cs free others eb' mp
  Serving-queue cs free others eb eb' mp v = record {
    agrees = v.agrees;
    wait_sz = v.wait_sz;
    kides = v.kides;
    readies = refl;
    distinct = v.distinct;
    seated = AllSeated-queue eb' eb eb' cs v.seated;
    elsewhere = v.elsewhere;
    pool = v.pool;
  }
