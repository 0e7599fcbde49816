-- ===== src/Server/Leaving.antt =====
-- A client leaves a reactor.
use std.Path.{subst, subst⁻¹}
use ebot.Base.{
  ℕ, ◌+◌, ◌≡◌, ◌≢◌, refl, sym, ap, ◌∙◌, List, [], ◌∷◌, ◌++◌, arith, Returns, Returns-map,
  ℕ_discrete, Bag, insert, insert_comm,
}
use ebot.Event.Marks.{unqueued}
use ebot.Event.{Base, event_read, event_write}
use ebot.Event.Closing.{Untouched}
use ebot.Event.System.{Epoll, Obeys}
use ebot.Pool.{Pool, header}
use ebot.Pool.Links.{NotIn, Distinct, NotIn-append}
use ebot.Pool.Put.{Distinct-mid}
use ebot.Pool.Moves.{Has}
use ebot.Server.Client.{hang_up, client_read, client_write}
use ebot.Server.Clients.{Client, fds, slabs_of, Seated, AllSeated, Serves}
use ebot.Server.Hangup.{Parted, freed, hang_up-Parted}
use ebot.Server.Types.{Net}
use ebot.Server.Visit.{both_freed, Waits-at}

pub fds-append : (l r : List Client) → fds (l ++ r) ≡ fds l ++ fds r
fds-append [] r = refl
fds-append (c ∷ l) r = ap (λ z. c.fd ∷ z) (fds-append l r)

pub slabs_of_mid :
    (l : List Client) (c : Client) (r : List Client) (others : Bag)
    → slabs_of (l ++ (c ∷ r)) others ≡ insert c.reads (insert c.writes (slabs_of (l ++ r) others))
slabs_of_mid [] c r others = refl
slabs_of_mid (d ∷ l) c r others =
    let x = slabs_of (l ++ r) others in
    ap (λ z. insert d.reads (insert d.writes z)) (slabs_of_mid l c r others)
    ∙ ap (insert d.reads) (insert_comm d.writes c.reads (insert c.writes x))
    ∙ ap (λ z. insert d.reads (insert c.reads z)) (insert_comm d.writes c.writes x)
    ∙ insert_comm d.reads c.reads (insert c.writes (insert d.writes x))
    ∙ ap (insert c.reads) (insert_comm d.reads c.writes (insert d.writes x))

pub NotIn-mid :
    (j : ℕ) (xs : List ℕ) (a : ℕ) (ys : List ℕ)
    → NotIn j (xs ++ ys)
    → j ≢ a
    → NotIn j (xs ++ (a ∷ ys))
NotIn-mid j [] a ys out ne = (ne, out)
NotIn-mid j (x ∷ xs) a ys out ne = (out.0, NotIn-mid j xs a ys out.1 ne)

module _ {K Q : Type 0} (this : ℕ) (start : Base K Q) where
  AllSeated-mid :
      (eb : Base K Q) (l : List Client) (c : Client) (r : List Client)
      → AllSeated this start eb (l ++ (c ∷ r))
      → Seated this start eb c × AllSeated this start eb (l ++ r)
  AllSeated-mid eb [] c r h = h
  AllSeated-mid eb (d ∷ l) c r h = let (s, rest) = AllSeated-mid eb l c r h.1 in (s, (h.0, rest))

  -- The clients at other descriptors keep their seats.
  AllSeated-Untouched :
      (fd : ℕ) (eb eb' : Base K Q) (cs : List Client)
      → NotIn fd (fds cs)
      → Untouched fd eb eb'
      → AllSeated this start eb cs
      → AllSeated this start eb' cs
  AllSeated-Untouched fd eb eb' [] out u h = tt
  AllSeated-Untouched fd eb eb' (c ∷ cs) out (sz, ev, q, ks, o) (s, h) =
      let here = o c.fd (λ e. out.0 (sym e)) in
      (
        record {
          fits = s.fits;
          no_read = s.no_read;
          no_write = s.no_write;
          read_at = here.0 ∙ s.read_at;
          write_at = here.1 ∙ s.write_at;
          read_event = ap (λ f. unqueued (f (c.reads + header))) ev ∙ s.read_event;
          write_event = ap (λ f. unqueued (f (c.writes + header))) ev ∙ s.write_event;
        },
        AllSeated-Untouched fd eb eb' cs out.1 (sz, ev, q, ks, o) h,
      )

module _ {K Q W : Type 0} (epoll : Epoll K) (net : Net W) (obeys : Obeys epoll) (this : ℕ)
    (start : Base K Q) where
  Serves-Parted :
      (l : List Client) (c : Client) (r : List Client) (free free' others : Bag) (eb eb' : Base K Q)
      (mp mp' : Pool)
      → Serves this start epoll (l ++ (c ∷ r)) free others eb mp
      → Parted epoll net c.fd eb eb'
      → Has free' (slabs_of (l ++ r) others) mp'
      → Serves this start epoll (l ++ r) free' others eb' mp'
  Serves-Parted l c r free free' others eb eb' mp mp' v (g, r0, w0, (sz, ev, q, ks, o)) has =
      let d : Distinct (fds l ++ (c.fd ∷ fds r)) =
        subst Distinct (fds-append l (c ∷ r)) v.distinct in
      let (out_l, out_r, rest) = Distinct-mid (fds l) c.fd (fds r) d in
      let e = fds-append l r in
      let out : NotIn c.fd (fds (l ++ r)) =
        subst⁻¹ (NotIn c.fd) e (NotIn-append c.fd (fds l) (fds r) out_l out_r) in
      let (seat, seats) = AllSeated-mid this start eb l c r v.seated in
      record {
        agrees = g;
        wait_sz = sz ∙ v.wait_sz;
        kides = ks ∙ v.kides;
        readies = q ∙ v.readies;
        distinct = subst⁻¹ Distinct e rest;
        seated = AllSeated-Untouched this start c.fd eb eb' (l ++ r) out (sz, ev, q, ks, o) seats;
        elsewhere = λ j h. elim (ℕ_discrete j c.fd) [
          | yes here ↦ rw here (r0 ∙ sym seat.no_read, w0 ∙ sym seat.no_write)
          | no ne ↦
              let there = v.elsewhere j (
                subst⁻¹ (NotIn j) (fds-append l (c ∷ r))
                  (NotIn-mid j (fds l) c.fd (fds r) (subst (NotIn j) e h) ne)) in
              ((o j ne).0 ∙ there.0, (o j ne).1 ∙ there.1)
        ];
        pool = has;
      }

  -- `hang_up` for one of the clients leaves the others, and its slabs are free.
  hang_up-Serves :
      (l : List Client) (c : Client) (r : List Client) (free others : Bag) (eb : Base K Q)
      (mp : Pool)
      → Serves this start epoll (l ++ (c ∷ r)) free others eb mp
      → Returns
          (λ (eb', mp').
            Serves this start epoll (l ++ r) (insert c.writes (insert c.reads free)) others eb' mp'
            × (eb'.events ≡ eb.events))
          (hang_up epoll net eb mp c.fd)
  hang_up-Serves l c r free others eb mp v =
      let seat = (AllSeated-mid this start eb l c r v.seated).0 in
      let rd = eb.read_waits c.fd in
      let wr = eb.write_waits c.fd in
      let x = slabs_of (l ++ r) others in
      let has : Has free (freed rd (freed wr x)) mp =
        subst (λ z. Has free z mp)
          (slabs_of_mid l c r others
            ∙ sym (both_freed rd wr c.reads c.writes x seat.read_at seat.write_at))
          v.pool in
      let again : freed wr (freed rd free) ≡ insert c.writes (insert c.reads free) =
        both_freed wr rd c.writes c.reads free seat.write_at seat.read_at in
      Returns-map
        {P = λ (eb', mp'). Parted epoll net c.fd eb eb' × Has (freed wr (freed rd free)) x mp'}
        (hang_up epoll net eb mp c.fd)
        (λ (eb', mp') (parted, has'). (
          Serves-Parted l c r free _ others eb eb' mp mp' v parted
              (subst (λ z. Has z x mp') again has'),
          parted.3.1,
        ))
        (hang_up-Parted epoll net obeys eb c.fd v.agrees (omega (arith, seat.fits, v.wait_sz)) mp
          free x
          (Waits-at eb (event_read c.fd client_read this) c.fd rd c.reads seat.read_at
            seat.read_event refl)
          (Waits-at eb (event_write c.fd client_write this) c.fd wr c.writes seat.write_at
            seat.write_event refl)
          has)

  -- The same for a client that is found in the list.
  pub hang_up_client :
      (cs l : List Client) (c : Client) (r : List Client) (fd : ℕ) (free others : Bag)
      (eb : Base K Q) (mp : Pool)
      → cs ≡ l ++ (c ∷ r)
      → c.fd ≡ fd
      → Serves this start epoll cs free others eb mp
      → Returns
          (λ (eb', mp').
            Serves this start epoll (l ++ r) (insert c.writes (insert c.reads free)) others eb' mp'
            × (eb'.events ≡ eb.events))
          (hang_up epoll net eb mp fd)
  hang_up_client cs l c r fd free others eb mp e here v =
      subst
        (λ z.
          Returns
            (λ (eb', mp').
              Serves this start epoll (l ++ r) (insert c.writes (insert c.reads free)) others eb'
                mp'
              × (eb'.events ≡ eb.events))
            (hang_up epoll net eb mp z))
        here
        (hang_up-Serves l c r free others eb mp
          (subst (λ z. Serves this start epoll z free others eb mp) e v))
