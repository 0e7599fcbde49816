-- ===== src/Event/Instances.antt =====
-- A kernel and a queue in which runs of the code can be computed: an interest list that is a
-- function, and a queue that is a list.
use ebot.Base.{
  ℕ, ◌≡◌, ◌≢◌, refl, ap, ◌∙◌, Option, none, some, List, [], ◌∷◌, ◌++◌, arith, ◌==◌, if◌then◌else◌,
  eq→==,
}
use mathlib.Core.List.{head?}
use ebot.Event.{put}
use ebot.Event.System.{
  Mask, Op, ctl_add, ctl_mod, ctl_del, registers, Epoll, TailQueue, Obeys, Accepts,
}

-- The kernel refuses to add an entry twice, and to change or delete one that is not there.
abbrev ctl : (ℕ → Option Mask) → Op → ℕ → Mask → Option (ℕ → Option Mask)
ctl k ctl_add fd m = elim (k fd) [ none ↦ some (put k fd (some m)) | some m' ↦ none ]
ctl k ctl_mod fd m = elim (k fd) [ none ↦ none | some m' ↦ some (put k fd (some m)) ]
ctl k ctl_del fd m = elim (k fd) [ none ↦ none | some m' ↦ some (put k fd none) ]

pub ctl_self :
    (k : ℕ → Option Mask) (op : Op) (fd : ℕ) (m : Mask) (k' : ℕ → Option Mask)
    → ctl k op fd m ≡ some k'
    → k' fd ≡ registers op m
ctl_self k ctl_add fd m k' h = ground arith
ctl_self k ctl_mod fd m k' h = ground arith
ctl_self k ctl_del fd m k' h = ground arith

pub ctl_other :
    (k : ℕ → Option Mask) (op : Op) (fd : ℕ) (m : Mask) (k' : ℕ → Option Mask) (fd' : ℕ)
    → ctl k op fd m ≡ some k'
    → fd' ≢ fd
    → k' fd' ≡ k fd'
ctl_other k ctl_add fd m k' fd' h ne = ground arith
ctl_other k ctl_mod fd m k' fd' h ne = ground arith
ctl_other k ctl_del fd m k' fd' h ne = ground arith

abbrev pub epoll : Epoll (ℕ → Option Mask)
epoll = record { ctl = ctl; interest = λ k. k; ctl_self = ctl_self; ctl_other = ctl_other }

abbrev remove : List ℕ → ℕ → List ℕ
remove [] e = []
remove (x ∷ xs) e = if x == e then xs else x ∷ remove xs e

pub remove-head : (q : List ℕ) (e : ℕ) (l : List ℕ) → q ≡ e ∷ l → remove q e ≡ l
remove-head q e l h = ap (λ z. remove z e) h ∙ rw (eq→== e e refl)

abbrev pub queue : TailQueue (List ℕ)
queue = record {
  init = [];
  insert_tail = λ q e. q ++ (e ∷ []);
  remove = remove;
  first = head?;
  items = λ q. q;
  items-init = refl;
  items-insert_tail = λ q e a. refl;
  items-remove = remove-head;
  first-items = λ q. refl;
}

ctl_there :
    (k : ℕ → Option Mask) (fd : ℕ) (m m' : Mask)
    → k fd ≡ some m'
    → (ctl k ctl_mod fd m ≡ some (put k fd (some m))) × (ctl k ctl_del fd m ≡ some (put k fd none))
ctl_there k fd m m' e = ground (arith, e)

ctl_fresh :
    (k : ℕ → Option Mask) (fd : ℕ) (m : Mask)
    → k fd ≡ none
    → ctl k ctl_add fd m ≡ some (put k fd (some m))
ctl_fresh k fd m e = ground (arith, e)

pub epoll-Obeys : Obeys epoll
epoll-Obeys k ctl_add fd m m' e ne = absurd (ne refl)
epoll-Obeys k ctl_mod fd m m' e ne = (put k fd (some m), (ctl_there k fd m m' e).0)
epoll-Obeys k ctl_del fd m m' e ne = (put k fd none, (ctl_there k fd m m' e).1)

pub epoll-Accepts : Accepts epoll
epoll-Accepts k fd m e = (put k fd (some m), ctl_fresh k fd m e)
