-- ===== src/Server/Arriving.antt =====
-- A client comes to a reactor.
use ebot.Base.{
  ℕ, ◌+◌, ◌<◌, ◌≡◌, ◌≢◌, refl, sym, ap, ◌∙◌, false, List, [], ◌∷◌, ◌++◌, arith, Bag, bag, insert,
  tally, times, times-insert, times-insert_self, tally-times,
}
use ebot.Event.Marks.{unqueued}
use ebot.Event.{Base}
use ebot.Event.System.{Epoll}
use ebot.Pool.{Pool, header}
use ebot.Pool.Accounts.{NotIn-tally}
use ebot.Pool.Links.{NotIn, NotIn-back}
use ebot.Pool.Valid.{Valid}
use ebot.Server.Clients.{Client, fds, slabs_of, AllSeated, Serves}
use ebot.Server.Joining.{Joined}
use ebot.Server.Types.{Net}
use ebot.Server.Visit.{bag_snoc_snoc}

-- The slabs of the clients are in a bag.
abbrev InBag : Bag → List Client → Type 0
InBag x [] = Unit
InBag x (c ∷ cs) = (0 < times c.reads x) × (0 < times c.writes x) × InBag x cs

InBag-insert : (a : ℕ) (x : Bag) (cs : List Client) → InBag x cs → InBag (insert a x) cs
InBag-insert a x [] h = tt
InBag-insert a x (c ∷ cs) (r, w, h) = (
  omega (arith, r, times-insert c.reads a x),
  omega (arith, w, times-insert c.writes a x),
  InBag-insert a x cs h,
)

slabs_of-InBag : (cs : List Client) (others : Bag) → InBag (slabs_of cs others) cs
slabs_of-InBag [] others = tt
slabs_of-InBag (c ∷ cs) others =
    let x = slabs_of cs others in
    (
      times-insert_self c.reads (insert c.writes x),
      omega
          (arith, times-insert_self c.writes x, times-insert c.writes c.reads (insert c.writes x)),
      InBag-insert c.reads (insert c.writes x) cs
          (InBag-insert c.writes x cs (slabs_of-InBag cs others)),
    )

module _ {K Q W : Type 0} (epoll : Epoll K) (net : Net W) (this : ℕ) (start : Base K Q) where
  -- The clients that are there keep their seats.
  AllSeated-Joined :
      (fd s t : ℕ) (x : Bag) (eb eb' : Base K Q) (cs : List Client)
      → ((a : ℕ) → 0 < times a x → (a ≢ s) × (a ≢ t))
      → InBag x cs
      → NotIn fd (fds cs)
      → Joined epoll net this fd (s + header) (t + header) eb eb'
      → AllSeated this start eb cs
      → AllSeated this start eb' cs
  AllSeated-Joined fd s t x eb eb' [] apart held out u h = tt
  AllSeated-Joined fd s t x eb eb' (c ∷ cs) apart (hr, hw, held) out
        (g, ra, wb, ea, ew, sz, q, ks, evs, o) (seat, h) =
      let here = o c.fd (λ e. out.0 (sym e)) in
      let (rs, rt) = apart c.reads hr in
      let (ws, wt) = apart c.writes hw in
      (
        record {
          fits = seat.fits;
          no_read = seat.no_read;
          no_write = seat.no_write;
          read_at = here.0 ∙ seat.read_at;
          write_at = here.1 ∙ seat.write_at;
          read_event =
              ap unqueued
                (evs (c.reads + header) (λ e. rs (omega (arith, e))) (λ e. rt (omega (arith, e))))
              ∙ seat.read_event;
          write_event =
              ap unqueued
                (evs (c.writes + header) (λ e. ws (omega (arith, e))) (λ e. wt (omega (arith, e))))
              ∙ seat.write_event;
        },
        AllSeated-Joined fd s t x eb eb' cs apart held out.1 (g, ra, wb, ea, ew, sz, q, ks, evs, o)
            h,
      )

  module _ (cs : List Client) (others : Bag) (eb : Base K Q) (mp : Pool) (fd s t : ℕ)
      (fs b : List ℕ) where
    -- The slabs that are handed out belong to no client.
    apart_from :
        Valid mp (s ∷ t ∷ fs) b
        → bag b ≡ slabs_of cs others
        → (a : ℕ) → 0 < times a (slabs_of cs others)
        → (a ≢ s) × (a ≢ t)
    apart_from v e a h =
        let there = tally-times b (slabs_of cs others) a e in
        let s_out = NotIn-tally s b (NotIn-back s (t ∷ fs) b v.distinct.0) in
        let t_out = NotIn-tally t b (NotIn-back t fs b v.distinct.1.0) in
        (
          (λ z. omega (arith, h, there, ap (tally b) z, s_out)),
          (λ z. omega (arith, h, there, ap (tally b) z, t_out)),
        )

    pub Serves-Joined :
        (free : Bag) (eb' : Base K Q) (mp' : Pool)
        → Serves this start epoll cs free others eb mp
        → NotIn fd (fds cs)
        → fd < start.wait_sz
        → start.read_waits fd ≡ 0
        → start.write_waits fd ≡ 0
        → Valid mp (s ∷ t ∷ fs) b
        → bag b ≡ slabs_of cs others
        → Joined epoll net this fd (s + header) (t + header) eb eb'
        → Valid mp' fs ((b ++ (s ∷ [])) ++ (t ∷ []))
        → mp'.held ≡ false
        → Serves this start epoll
            (record { fd = fd; reads = s; writes = t } ∷ cs)
            (bag fs)
            others
            eb'
            mp'
    Serves-Joined free eb' mp' sv out fits no_read no_write v e
          (g, ra, wb, ea, ew, sz, q, ks, evs, o) v' h' =
        record {
          agrees = g;
          wait_sz = sz ∙ sv.wait_sz;
          kides = ks ∙ sv.kides;
          readies = q ∙ sv.readies;
          distinct = (out, sv.distinct);
          seated = (
            record {
              fits = fits;
              no_read = no_read;
              no_write = no_write;
              read_at = ra;
              write_at = wb;
              read_event = ap unqueued ea;
              write_event = ap unqueued ew;
            },
            AllSeated-Joined fd s t (slabs_of cs others) eb eb' cs (apart_from v e)
                (slabs_of-InBag cs others) out (g, ra, wb, ea, ew, sz, q, ks, evs, o) sv.seated,
          );
          elsewhere = λ j h.
              let there = sv.elsewhere j h.1 in ((o j h.0).0 ∙ there.0, (o j h.0).1 ∙ there.1);
          pool = (
            fs,
            (b ++ (s ∷ [])) ++ (t ∷ []),
            v',
            h',
            refl,
            bag_snoc_snoc s t b ∙ ap (λ z. insert s (insert t z)) e,
          );
        }
