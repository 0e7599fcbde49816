-- ===== src/Event/Dump.antt =====
-- `ebot_dump`, which prints what waits and what is ready.
use std.Path.{subst⁻¹}
use ebot.Base.{
  ℕ_discrete, eq→==, ne→not_==, ℕ, zero, suc, ◌+◌, ◌<◌, ◌≤◌, ◌≡◌, ◌≢◌, refl, sym, ◌∙◌, Bool, true,
  false, not, ◌&&◌, ◌||◌, Option, none, some, List, [], ◌∷◌, map, arith, ltb, leb, ◌==◌,
  if◌then◌else◌, Run, Returns, Returns-bind, ok, ◌>>=◌, lt→ltb,
}
use ebot.Event.{Base, read_wait, write_wait}
use ebot.Event.System.{Kinds, Mask, Epoll, TailQueue, null}
use ebot.Event.Tables.{Entry, Agrees}

-- One line of the output.
pub record Line : Type 0 where
  pub event : ℕ
  pub kide : Kinds
  pub fd : ℕ
  pub cb : ℕ
  pub arg : ℕ

module _ {K Q : Type 0} where
  abbrev pub line_of : Base K Q → ℕ → Line
  line_of eb a = record {
    event = a;
    kide = (eb.events a).kide;
    fd = (eb.events a).fd;
    cb = (eb.events a).cb;
    arg = (eb.events a).arg;
  }

  -- The loops over the two arrays, from the index `i` on.
  unfoldable pub read_lines : (k i : ℕ) → Base K Q → Run (List Line)
  unfolding read_wait
  read_lines zero i eb = ok []
  read_lines (suc k) i eb = do
    a ← read_wait eb i
    rest ← read_lines k (i + 1) eb
    ok (if not (a == null) && (eb.events a).kide.reads then line_of eb a ∷ rest else rest)

  unfoldable pub write_lines : (k i : ℕ) → Base K Q → Run (List Line)
  unfolding write_wait
  write_lines zero i eb = ok []
  write_lines (suc k) i eb = do
    a ← write_wait eb i
    rest ← write_lines k (i + 1) eb
    ok (if not (a == null) && (eb.events a).kide.writes then line_of eb a ∷ rest else rest)

  -- The lines for what waits to read, for what waits to write, and for what is ready, without the
  -- headings and the line in front of them.
  unfoldable pub dump : TailQueue Q → Base K Q → Run (List Line × List Line × List Line)
  unfolding read_lines write_lines
  dump queue eb = do
    reads ← read_lines eb.wait_sz 0 eb
    writes ← write_lines eb.wait_sz 0 eb
    ok (reads, writes, map (line_of eb) (queue.items eb.event_readies))

-- There is a line for the descriptor.
abbrev pub listed : ℕ → List Line → Bool
listed fd [] = false
listed fd (l ∷ ls) = (l.fd == fd) || listed fd ls

-- Each event waits under its own descriptor, in the array of its kind.
pub record Sorted {K Q : Type 0} (eb : Base K Q) : Type 0 where
  pub reads :
      (fd : ℕ)
      → eb.read_waits fd ≢ 0
      → ((eb.events (eb.read_waits fd)).fd ≡ fd)
        × ((eb.events (eb.read_waits fd)).kide.reads ≡ true)
  pub writes :
      (fd : ℕ)
      → eb.write_waits fd ≢ 0
      → ((eb.events (eb.write_waits fd)).fd ≡ fd)
        × ((eb.events (eb.write_waits fd)).kide.writes ≡ true)

-- What the kernel watches a descriptor for.
abbrev pub watched_input : Option Mask → Bool
watched_input none = false
watched_input (some m) = m.input

abbrev pub watched_output : Option Mask → Bool
watched_output none = false
watched_output (some m) = m.output

Entry-watched :
    (o : Option Mask) (r w : ℕ)
    → Entry o r w
    → (watched_input o ≡ not (r == 0)) × (watched_output o ≡ not (w == 0))
Entry-watched none r w e = ground (arith, e.0, e.1)
Entry-watched (some m) r w e = (e.0, e.1)

-- A line for `i`, if there is one, in front of the lines from `i + 1` on.
listed_here :
    (i k a : ℕ) (b : Bool) (l : Line) (rest : List Line)
    → (a ≢ 0 → (l.fd ≡ i) × (b ≡ true))
    → listed i rest ≡ (leb (i + 1) i && ltb i (i + 1 + k) && not (a == 0))
    → listed i (if not (a == 0) && b then l ∷ rest else rest)
      ≡ (leb i i && ltb i (i + suc k) && not (a == 0))
listed_here i k a b l rest own h = elim (ℕ_discrete a 0) [
  | yes e ↦ rw (eq→== a 0 e) (h ∙ (ground (arith, e)))
  | no ne ↦ rw (ne→not_== a 0 ne, (own ne).1, eq→== l.fd i (own ne).0) (ground arith)
]

listed_other :
    (fd i k a : ℕ) (b : Bool) (l : Line) (rest : List Line) (x : Bool)
    → fd ≢ i
    → (a ≢ 0 → (l.fd ≡ i) × (b ≡ true))
    → listed fd rest ≡ (leb (i + 1) fd && ltb fd (i + 1 + k) && x)
    → listed fd (if not (a == 0) && b then l ∷ rest else rest)
      ≡ (leb i fd && ltb fd (i + suc k) && x)
listed_other fd i k a b l rest x other own h =
    let same : (leb (i + 1) fd && ltb fd (i + 1 + k) && x) ≡ (leb i fd && ltb fd (i + suc k) && x) =
      ground arith in
    elim (ℕ_discrete a 0) [
      | yes e ↦ rw (eq→== a 0 e) (h ∙ same)
      | no ne ↦
          rw (ne→not_== a 0 ne, (own ne).1, ne→not_== l.fd fd (λ z. other (sym z ∙ (own ne).0)))
            (h ∙ same)
    ]

-- The lines from the index `i` on are for the descriptors from `i` on.
listed_step :
    (fd i k : ℕ) (b : Bool) (l : Line) (rest : List Line) (f : ℕ → ℕ)
    → (f i ≢ 0 → (l.fd ≡ i) × (b ≡ true))
    → listed fd rest ≡ (leb (i + 1) fd && ltb fd (i + 1 + k) && not (f fd == 0))
    → listed fd (if not (f i == 0) && b then l ∷ rest else rest)
      ≡ (leb i fd && ltb fd (i + suc k) && not (f fd == 0))
listed_step fd i k b l rest f own h = elim (ℕ_discrete fd i) [
  | yes here ↦
      subst⁻¹
        (λ z.
          listed z rest ≡ (leb (i + 1) z && ltb z (i + 1 + k) && not (f z == 0))
          → listed z (if not (f i == 0) && b then l ∷ rest else rest)
            ≡ (leb i z && ltb z (i + suc k) && not (f z == 0)))
        here (listed_here i k (f i) b l rest own) h
  | no other ↦ listed_other fd i k (f i) b l rest (not (f fd == 0)) other own h
]

module _ {K Q : Type 0} (epoll : Epoll K) (eb : Base K Q) (g : Agrees epoll eb)
    (s : Sorted eb) where
  read_lines-listed :
      (fd k i : ℕ)
      → i + k ≤ eb.wait_sz
      → Returns
          (λ ls. listed fd ls ≡ (leb i fd && ltb fd (i + k) && not (eb.read_waits fd == 0)))
          (read_lines k i eb)
  unfolding read_lines read_wait
  read_lines-listed fd zero i fits = ground arith
  read_lines-listed fd (suc k) i fits =
      let a = eb.read_waits i in
      rw (lt→ltb i eb.read_room (omega (arith, g.reads, fits))) (
        Returns-bind _ _ (read_lines k (i + 1) eb) _
          (read_lines-listed fd k (i + 1) (omega (arith, fits)))
          λ ls h.
            listed_step fd i k (eb.events a).kide.reads (line_of eb a) ls eb.read_waits (s.reads i)
              h)

  write_lines-listed :
      (fd k i : ℕ)
      → i + k ≤ eb.wait_sz
      → Returns
          (λ ls. listed fd ls ≡ (leb i fd && ltb fd (i + k) && not (eb.write_waits fd == 0)))
          (write_lines k i eb)
  unfolding write_lines write_wait
  write_lines-listed fd zero i fits = ground arith
  write_lines-listed fd (suc k) i fits =
      let a = eb.write_waits i in
      rw (lt→ltb i eb.write_room (omega (arith, g.writes, fits))) (
        Returns-bind _ _ (write_lines k (i + 1) eb) _
          (write_lines-listed fd k (i + 1) (omega (arith, fits)))
          λ ls h.
            listed_step fd i k (eb.events a).kide.writes (line_of eb a) ls eb.write_waits
              (s.writes i) h)

  -- `ebot_dump` of a base whose tables agree with the kernel, where each event waits under its own
  -- descriptor in the array of its kind, comes to its end: for a descriptor in the arrays it prints
  -- a read event just where the kernel watches for input, and a write event just where it watches
  -- for output, and it prints what is ready in the order of the queue.
  pub listed-dump :
      (queue : TailQueue Q) (fd : ℕ)
      → fd < eb.wait_sz
      → Returns
          (λ (reads, writes, readies).
            (listed fd reads ≡ watched_input (epoll.interest eb.kernel fd))
            × (listed fd writes ≡ watched_output (epoll.interest eb.kernel fd))
            × (readies ≡ map (line_of eb) (queue.items eb.event_readies)))
          (dump queue eb)
  unfolding dump
  listed-dump queue fd fits =
      let (input, output) =
        Entry-watched (epoll.interest eb.kernel fd) (eb.read_waits fd) (eb.write_waits fd)
          (g.entry fd) in
      let all : (b : Bool) → (leb 0 fd && ltb fd (0 + eb.wait_sz) && b) ≡ b = λ b. ground arith in
      Returns-bind _ _ (read_lines eb.wait_sz 0 eb) _
        (read_lines-listed fd eb.wait_sz 0 (omega arith))
        λ reads hr.
          Returns-bind _ _ (write_lines eb.wait_sz 0 eb) _
            (write_lines-listed fd eb.wait_sz 0 (omega arith))
            λ writes hw. (
              hr ∙ all (not (eb.read_waits fd == 0)) ∙ sym input,
              hw ∙ all (not (eb.write_waits fd == 0)) ∙ sym output,
              refl,
            )
