-- ===== src/Event/Marks.antt =====
-- Lists of events without repetition, whose events have the flag `queued`.
use ebot.Base.{
  ℕ, ◌≡◌, ◌≢◌, sym, true, false, List, [], ◌∷◌, ◌++◌, ◌⊎◌, arith, ◌==◌, inl, inr, ℕ_discrete,
  ne→not_==, eq→==,
}
use ebot.Event.{Event, put}
use ebot.Event.System.{Absent}

abbrev pub Distinct : List ℕ → Type 0
Distinct [] = Unit
Distinct (x ∷ xs) = Absent x xs × Distinct xs

-- An event, but for its flag.
abbrev pub unqueued : Event → Event
unqueued e = record e { queued = false }

-- All elements have the flag.
abbrev pub Marked : (ℕ → Event) → List ℕ → Type 0
Marked events [] = Unit
Marked events (x ∷ xs) = ((events x).queued ≡ true) × Marked events xs

pub Absent-append : (a b : ℕ) (l : List ℕ) → Absent a l → a ≢ b → Absent a (l ++ (b ∷ []))
Absent-append a b [] h ne = (ne, tt)
Absent-append a b (x ∷ xs) (n, h) ne = (n, Absent-append a b xs h ne)

pub append-Absent : (a b : ℕ) (l : List ℕ) → Absent a (l ++ (b ∷ [])) → Absent a l × (a ≢ b)
append-Absent a b [] (n, h) = (tt, n)
append-Absent a b (x ∷ xs) (n, h) = let (rest, ne) = append-Absent a b xs h in ((n, rest), ne)

pub Distinct-append : (b : ℕ) (l : List ℕ) → Absent b l → Distinct l → Distinct (l ++ (b ∷ []))
Distinct-append b [] h d = (tt, tt)
Distinct-append b (x ∷ xs) (n, h) (x_new, d) =
    (Absent-append x b xs x_new (λ e. n (sym e)), Distinct-append b xs h d)

pub Marked-append :
    (events : ℕ → Event) (b : ℕ) (l : List ℕ)
    → Marked events l
    → (events b).queued ≡ true
    → Marked events (l ++ (b ∷ []))
Marked-append events b [] h m = (m, tt)
Marked-append events b (x ∷ xs) (y, h) m = (y, Marked-append events b xs h m)

-- A change of one event leaves the flags of a list that does not have it, and a set flag leaves
-- those of any list.
pub Marked_put :
    (events : ℕ → Event) (b : ℕ) (e : Event) (l : List ℕ)
    → Marked events l
    → Absent b l ⊎ (e.queued ≡ true)
    → Marked (put events b e) l
Marked_put events b e [] h c = tt
Marked_put events b e (x ∷ xs) (y, h) (inl (n, c)) =
    (ground arith, Marked_put events b e xs h (inl c))
Marked_put events b e (x ∷ xs) (y, h) (inr c) = (ground arith, Marked_put events b e xs h (inr c))

pub queued_put :
    (events : ℕ → Event) (a b : ℕ)
    → (put events b (record (events b) { queued = true }) a).queued ≡ false
    → (a ≢ b) × ((events a).queued ≡ false)
queued_put events a b h = elim (ℕ_discrete a b) [
  | yes e ↦ absurd (let z : ((a == b) ≡ true) = eq→== a b e in ground arith)
  | no ne ↦ (ne, (let z : ((a == b) ≡ false) = ne→not_== a b ne in ground arith))
]

pub put_queued :
    (events : ℕ → Event) (a b : ℕ)
    → (put events b (record (events b) { queued = true }) a).queued ≡ true
    → a ≢ b
    → (events a).queued ≡ true
put_queued events a b h ne = let z : ((a == b) ≡ false) = ne→not_== a b ne in ground arith
