-- ===== src/Chat/Told.antt =====
-- Whom the callbacks of the chat server tell.
use ebot.Base.{
  ℕ, zero, suc, ◌+◌, ◌-◌, sym, replicate, ◌<◌, ◌≤◌, ◌≡◌, refl, ap, ◌∙◌, Bool, true, not, ◌&&◌, ◌⊎◌,
  List, [], ◌∷◌, ◌++◌, arith, length, take, ltb, leb, ◌==◌, if◌then◌else◌, Returns, ℕ_discrete,
  eq→==, le→leb, lt→ltb, length-append, length-take,
}
use ebot.Chat.{Connection, others, on_connect, on_close, on_recv, max_conn, store}
use ebot.Server.Types.{Stream}

-- What was written, the last first: descriptors with bytes.
abbrev pub Log : Type 0
Log = List (ℕ × List ℕ)

abbrev pub log : Log → ℕ → List ℕ → Log
log l fd bytes = (fd, bytes) ∷ l

-- How often something was written to a descriptor.
abbrev pub times : ℕ → Log → ℕ
times f [] = 0
times f ((fd, bytes) ∷ l) = (if fd == f then 1 else 0) + times f l

-- What was written to a descriptor, the last first.
abbrev pub written : ℕ → Log → List (List ℕ)
written f [] = []
written f ((fd, bytes) ∷ l) = if fd == f then bytes ∷ written f l else written f l

-- Each connection stands at its descriptor.
abbrev pub Own : (ℕ → Connection) → Type 0
Own conns = (i : ℕ) → i < max_conn → ((conns i).fd ≡ 0) ⊎ ((conns i).fd ≡ i)

-- `f` is the descriptor of a connection other than `me`.
abbrev pub hears : (ℕ → Connection) → (me f : ℕ) → Bool
hears conns me f = not (f == 0) && (not (f == me) && ((conns f).fd == f))

times-others :
    (conns : ℕ → Connection) (me f : ℕ) (bytes : List ℕ) (k i : ℕ) (l : Log)
    → Own conns
    → i + k ≤ max_conn
    → times f (others log conns me bytes k i l)
      ≡ (if leb i f && (ltb f (i + k) && hears conns me f) then 1 else 0) + times f l
unfolding others
times-others conns me f bytes zero i l own h = ground arith
times-others conns me f bytes (suc k) i l own h =
    times-others conns me f bytes k (i + 1) _ own (omega arith) ∙ (elim (ℕ_discrete i f) [
      | yes here ↦ ground (arith, own i (omega arith))
      | no other ↦ ground (arith, own i (omega arith))
    ])

written-others :
    (conns : ℕ → Connection) (me f : ℕ) (bytes : List ℕ) (k i : ℕ) (l : Log)
    → Own conns
    → i + k ≤ max_conn
    → written f (others log conns me bytes k i l) ≡ (
        if leb i f && (ltb f (i + k) && hears conns me f) then bytes ∷ written f l else written f l)
unfolding others
written-others conns me f bytes zero i l own h = ground arith
written-others conns me f bytes (suc k) i l own h =
    written-others conns me f bytes k (i + 1) _ own (omega arith) ∙ (elim (ℕ_discrete i f) [
      | yes here ↦ ground (arith, own i (omega arith))
      | no other ↦ ground (arith, own i (omega arith))
    ])

-- All 1024 entries: who hears it gets the bytes once, and no other gets anything.
told_all_once :
    (conns : ℕ → Connection) (me f : ℕ) (bytes : List ℕ) (l : Log)
    → Own conns
    → f < max_conn
    → written f (others log conns me bytes max_conn 0 l)
      ≡ (if hears conns me f then bytes ∷ written f l else written f l)
told_all_once conns me f bytes l own h =
    let low : leb 0 f ≡ true = le→leb 0 f (omega arith) in
    let high : ltb f (0 + max_conn) ≡ true = lt→ltb f (0 + max_conn) (omega (arith, h)) in
    written-others conns me f bytes max_conn 0 l own (omega arith) ∙ rw (low, high) refl

take-replicate : (n m : ℕ) → n ≤ m → take {A = ℕ} n (replicate m 0) ≡ replicate n 0
take-replicate zero m h = refl
take-replicate (suc n) zero h = absurd (omega (arith, h))
take-replicate (suc n) (suc m) h = ap (λ l. 0 ∷ l) (take-replicate n m (omega (arith, h)))

take_front :
    (n : ℕ) (xs ys : List ℕ) → length xs ≤ n → take n (xs ++ ys) ≡ xs ++ take (n - length xs) ys
take_front n [] ys h = ap (λ k. take k ys) (omega arith)
take_front zero (x ∷ xs) ys h = absurd (omega (arith, h))
take_front (suc n) (x ∷ xs) ys h =
    let e : suc n - length (x ∷ xs) ≡ n - length xs = omega arith in
    ap (λ l. x ∷ l) (take_front n xs ys (omega (arith, h)))
    ∙ ap (λ k. x ∷ (xs ++ take k ys)) (sym e)

others_all :
    (conns : ℕ → Connection) (me f : ℕ) (bytes : List ℕ) (l : Log)
    → Own conns
    → f < max_conn
    → times f (others log conns me bytes max_conn 0 l)
      ≡ (if hears conns me f then 1 else 0) + times f l
others_all conns me f bytes l own h =
    let low : leb 0 f ≡ true = le→leb 0 f (omega arith) in
    let high : ltb f (0 + max_conn) ≡ true = lt→ltb f (0 + max_conn) (omega (arith, h)) in
    times-others conns me f bytes max_conn 0 l own (omega arith) ∙ rw (low, high) refl

-- A connection does not hear of itself, so that its own entry has no part in it.
hears_same :
    (conns : ℕ → Connection) (me f : ℕ)
    → hears (store conns me (record (conns me) { fd = me })) me f ≡ hears conns me f
hears_same conns me f = ground arith

module _ (says : ℕ → List ℕ) (stream : Stream) (conns : ℕ → Connection) (l : Log)
    (own : Own conns) where
  pub on_recv_lem :
      stream.buf_size ≤ length stream.buf
      → stream.buf_size ≤ 128
      → Returns
          (λ l'.
            (f : ℕ)
            → f < max_conn
            → let said = take 14 (says stream.fd) ++ take stream.buf_size stream.buf in
              written f l' ≡ (
                if hears conns stream.fd f
                then (said ++ replicate (15 + stream.buf_size - length said) 0) ∷ written f l
                else written f l))
          (on_recv log says stream conns l)
  unfolding on_recv
  on_recv_lem whole few =
      let said = take 14 (says stream.fd) ++ take stream.buf_size stream.buf in
      let short : length said ≤ 512 = omega (
        arith,
        length-append (take 14 (says stream.fd)) (take stream.buf_size stream.buf),
        length-take 14 (says stream.fd),
        length-take stream.buf_size stream.buf,
      ) in
      let within : length said ≤ 15 + stream.buf_size = omega (
        arith,
        length-append (take 14 (says stream.fd)) (take stream.buf_size stream.buf),
        length-take 14 (says stream.fd),
        length-take stream.buf_size stream.buf,
      ) in
      rw (le→leb stream.buf_size (length stream.buf) whole, le→leb (length said) 512 short)
        (λ f h.
          told_all_once conns stream.fd f (take (15 + stream.buf_size) (said ++ replicate 512 0)) l
            own h
          ∙ ap (λ b. if hears conns stream.fd f then b ∷ written f l else written f l)
              (take_front (15 + stream.buf_size) said (replicate 512 0) within
                ∙ ap (λ z. said ++ z)
                    (take-replicate (15 + stream.buf_size - length said) 512 (omega (arith, few)))))

  -- Each connection still stands at its descriptor, `stream.fd` has the entry `fd`, and each other
  -- connection has been told once.
  abbrev pub Leaves : (fd : ℕ) → (ℕ → Connection) × Log → Type 0
  Leaves fd (conns', l') =
      Own conns'
      × ((conns' stream.fd).fd ≡ fd)
      × ((f : ℕ)
          → f < max_conn
          → times f l' ≡ (if hears conns stream.fd f then 1 else 0) + times f l)

  on_close-Own : stream.fd < max_conn → Returns (Leaves 0) (on_close log says stream conns l)
  unfolding on_close
  on_close-Own inside = rw (lt→ltb stream.fd max_conn inside) (
    (λ i h. ground (arith, own i h)),
    rw (eq→== stream.fd stream.fd refl),
    λ f h. others_all conns stream.fd f _ l own h,
  )

  on_connect-Own :
      stream.fd < max_conn → Returns (Leaves stream.fd) (on_connect log says stream conns l)
  unfolding on_connect
  on_connect-Own inside =
      let conns' = store conns stream.fd (record (conns stream.fd) { fd = stream.fd }) in
      let own' : Own conns' = λ i h. ground (arith, own i h) in
      rw (lt→ltb stream.fd max_conn inside) (
        own',
        rw (eq→== stream.fd stream.fd refl),
        λ f h.
            others_all conns' stream.fd f _ l own' h
            ∙ ap (λ b. (if b then 1 else 0) + times f l) (hears_same conns stream.fd f),
      )

  pub table-Own :
      stream.fd < max_conn
      → Returns (Leaves stream.fd) (on_connect log says stream conns l)
        × Returns (Leaves 0) (on_close log says stream conns l)
  table-Own inside = (on_connect-Own inside, on_close-Own inside)
