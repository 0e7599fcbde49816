-- ===== src/Io/Writen.antt =====
-- What leaves in `writen`.
use ebot.Base.{
  ℕ, suc, ◌+◌, ◌-◌, ◌≤◌, ◌≡◌, refl, List, [], ◌∷◌, arith, length, take, ltb, Returns, Returns-if,
  ok, waits, ℤ, pos, negsuc, ltb→lt, take-append-take-drop,
}
use std.Path.{subst}
use ebot.Io.{Sent, took, send_interrupted, send_again, send_pipe, send_error, writen_loop, writen}

-- `send` takes no more than it is given: `left` bytes are left to send.
abbrev pub Fits : List Sent → ℕ → Type 0
Fits [] left = Unit
Fits (took n ∷ rest) left = (n ≤ left) × Fits rest (left - n)
Fits (_ ∷ rest) left = Fits rest left

-- The calls that are not interrupted.
abbrev pub calls : List Sent → ℕ
calls [] = 0
calls (send_interrupted ∷ rest) = calls rest
calls (_ ∷ rest) = suc (calls rest)

-- The bytes that have left are a prefix of the buffer; a number that comes back is their count.
abbrev pub Sends : List ℕ → ℤ × List ℕ → Type 0
Sends buf (pos n, out) = (n ≤ length buf) × (out ≡ take n buf)
Sends buf (negsuc e, out) = (n : ℕ) × (n ≤ length buf) × (out ≡ take n buf)

writen_loop_lem :
    (answers : List Sent) (buf : List ℕ) (total : ℕ)
    → total ≤ length buf
    → Fits answers (length buf - total)
    → length buf - total ≤ calls answers
    → Returns (Sends buf) (writen_loop answers buf total (take total buf))
unfolding writen_loop
writen_loop_lem [] buf total h f c =
    Returns-if (Sends buf) (ltb total (length buf)) waits (ok (pos total, take total buf))
      (λ more. absurd (omega (arith, ltb→lt total (length buf) more, c))) (λ z. (h, refl))
writen_loop_lem (took n ∷ rest) buf total h (few, f) c =
    let left : length buf - total - n ≡ length buf - (total + n) = omega arith in
    Returns-if (Sends buf) (ltb total (length buf)) _ (ok (pos total, take total buf))
      (λ more.
        Returns-if (Sends buf) (ltb 0 n) _ (ok (pos total, take total buf))
          (λ some_bytes. rw (take-append-take-drop total n buf) (
            writen_loop_lem rest buf (total + n) (omega (arith, few, h)) (subst (Fits rest) left f)
              (omega (arith, ltb→lt 0 n some_bytes, c))))
          (λ z. (h, refl)))
      (λ z. (h, refl))
writen_loop_lem (send_interrupted ∷ rest) buf total h f c =
    Returns-if (Sends buf) (ltb total (length buf)) _ (ok (pos total, take total buf))
      (λ more. writen_loop_lem rest buf total h f c) (λ z. (h, refl))
writen_loop_lem (send_again ∷ rest) buf total h f c =
    Returns-if (Sends buf) (ltb total (length buf)) _ (ok (pos total, take total buf))
      (λ more. (h, refl)) (λ z. (h, refl))
writen_loop_lem (send_pipe ∷ rest) buf total h f c =
    Returns-if (Sends buf) (ltb total (length buf)) _ (ok (pos total, take total buf))
      (λ more. (total, h, refl)) (λ z. (h, refl))
writen_loop_lem (send_error ∷ rest) buf total h f c =
    Returns-if (Sends buf) (ltb total (length buf)) _ (ok (pos total, take total buf))
      (λ more. (total, h, refl)) (λ z. (h, refl))

-- `writen` comes to its end as soon as `send`, which takes no more than it is given, has come back,
-- other than interrupted, as often as there are bytes. What it has sent is a prefix of the buffer,
-- and the count it gives is the length of that prefix.
pub writen-Sends :
    (answers : List Sent) (buf : List ℕ)
    → Fits answers (length buf)
    → length buf ≤ calls answers
    → Returns (Sends buf) (writen answers buf)
unfolding writen
writen-Sends answers buf f c =
    let all : length buf ≡ length buf - 0 = omega arith in
    writen_loop_lem answers buf 0 (omega arith) (subst (Fits answers) all f) (omega (arith, c))
