-- ===== src/Event/Wanted.antt =====
-- What `ebot_loop` puts into the queue: nothing but what waits for the ready descriptors.
use std.Path.{subst}
use ebot.Base.{
  ℕ, ◌≡◌, ◌≢◌, refl, sym, ◌∙◌, Bool, true, false, List, [], ◌∷◌, Returns, Returns-map, inl, inr,
  Bool-cases, ℕ_discrete, eq→==, ne→not_==,
}
use ebot.Event.{Base}
use ebot.Event.Loop.{queued_event_readies, enqueue}
use ebot.Event.Queue.{Queued, queue_up_lem}
use ebot.Event.Waking.{Known, Known-same, half, half_lem, enqueue_step}
use ebot.Event.System.{Mask, TailQueue, null}
use ebot.Pool.Links.{All, All-append}

-- The queue and the flags apart, the bases are the same.
abbrev pub Kept : {K Q : Type 0} → Base K Q → Base K Q → Type 0
Kept eb eb' = (eb'.kernel ≡ eb.kernel) × (eb'.wait_sz ≡ eb.wait_sz) × (eb'.kides ≡ eb.kides)

-- What waits for the ready descriptors meets `P`.
abbrev pub Wanted : (P : ℕ → Type 0) → (r w : ℕ → ℕ) → List (ℕ × Mask) → Type 0
Wanted P r w [] = Unit
Wanted P r w ((fd, m) ∷ rest) =
    (m.input ≡ true → r fd ≢ null → P (r fd))
    × (m.output ≡ true → w fd ≢ null → P (w fd))
    × Wanted P r w rest

module _ {K Q : Type 0} (queue : TailQueue Q) (P : ℕ → Type 0) where
  abbrev Only : Base K Q → Base K Q → Type 0
  Only eb eb' = All P (queue.items eb'.event_readies) × Kept eb eb'

  half-Only :
      (eb : Base K Q) (b : Bool) (a : ℕ)
      → Queued queue eb
      → (b ≡ true → a ≢ null → P a)
      → All P (queue.items eb.event_readies)
      → Only eb (half queue eb b a)
  unfolding queued_event_readies
  half-Only eb false a q p h = (h, (refl, refl, refl))
  half-Only eb true a q p h = elim (ℕ_discrete a null) [
    | yes e ↦ rw (eq→== a null e) (h, (refl, refl, refl))
    | no ne ↦ elim (Bool-cases (eb.events a).queued) [
      | inl busy ↦ rw (ne→not_== a null ne, busy) (h, (refl, refl, refl))
      | inr free ↦
          rw (ne→not_== a null ne, free, queue_up_lem queue eb a q ne free)
            (
              All-append P (queue.items eb.event_readies) (a ∷ []) h (p refl ne, tt),
              (refl, refl, refl),
            )
    ]
  ]

  pub enqueue-Only :
      (eb : Base K Q) (l : List (ℕ × Mask))
      → Queued queue eb
      → Known queue eb l
      → Wanted P eb.read_waits eb.write_waits l
      → All P (queue.items eb.event_readies)
      → Returns (Only eb) (enqueue queue eb l)
  unfolding enqueue
  enqueue-Only eb [] q k w h = (h, (refl, refl, refl))
  enqueue-Only eb ((fd, m) ∷ rest) q (kr, kw, k) (pr, pw, w) h =
      let eb1 = half queue eb m.input (eb.read_waits fd) in
      let (g1, _) = half_lem queue eb m.input (eb.read_waits fd) q in
      let (h1, (kernel1, sz1, ks1)) = half-Only eb m.input (eb.read_waits fd) q pr h in
      let eb2 = half queue eb1 m.output (eb.write_waits fd) in
      let (g2, _) = half_lem queue eb1 m.output (eb.write_waits fd) g1.queued in
      let (h2, (kernel2, sz2, ks2)) = half-Only eb1 m.output (eb.write_waits fd) g1.queued pw h1 in
      rw (enqueue_step queue eb fd m rest q kr kw) (
        Returns-map (enqueue queue eb2 rest)
          (λ z (hz, (kernel, sz, ks)).
            (hz, (kernel ∙ kernel2 ∙ kernel1, sz ∙ sz2 ∙ sz1, ks ∙ ks2 ∙ ks1)))
          (enqueue-Only eb2 rest g2.queued
            (Known-same queue eb eb2 rest (g2.read_same ∙ g1.read_same)
              (g2.write_same ∙ g1.write_same) k)
            (subst (λ f. Wanted P f eb2.write_waits rest) (sym (g2.reads ∙ g1.reads))
              (subst (λ f. Wanted P eb.read_waits f rest) (sym (g2.writes ∙ g1.writes)) w))
            h2))
