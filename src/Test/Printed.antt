-- ===== src/Test/Printed.antt =====
-- What `on_recv` of test.c prints.
use ebot.Base.{
  ℕ, zero, suc, ◌-◌, ◌<◌, ◌≡◌, ◌≢◌, refl, ap, ◌∙◌, none, some, List, [], ◌∷◌, ◌++◌, arith, length,
  replicate, ok, fault,
}
use ebot.Server.Types.{Stream}
use ebot.Test.{on_recv, recv_client, c_string, Line}

abbrev pub NoZero : List ℕ → Type 0
NoZero [] = Unit
NoZero (b ∷ rest) = (b ≢ 0) × NoZero rest

c_string-padded :
    (bytes : List ℕ) (k : ℕ) → NoZero bytes → c_string (bytes ++ replicate (suc k) 0) ≡ some bytes
c_string-padded [] k h = refl
c_string-padded (zero ∷ rest) k (b, h) = absurd (b refl)
c_string-padded (suc b ∷ rest) k (_, h) = rw (c_string-padded rest k h) refl

c_string-NoZero : (bytes : List ℕ) → NoZero bytes → c_string (bytes ++ []) ≡ none
c_string-NoZero [] h = refl
c_string-NoZero (zero ∷ rest) (b, h) = absurd (b refl)
c_string-NoZero (suc b ∷ rest) (_, h) = rw (c_string-NoZero rest h) refl

-- For a message without a 0, in a buffer of 128 bytes with zeros behind it, `on_recv` of the test
-- program prints the message, whole and nothing else, where it has fewer than 128 bytes; where it
-- has 128, `printf` reads beyond the buffer.
pub on_recv_prints :
    (stream : Stream) (bytes : List ℕ) (lines : List Line)
    → NoZero bytes
    → stream.buf ≡ bytes ++ replicate (128 - length bytes) 0
    → (length bytes < 128 → on_recv stream lines ≡ ok (lines ++ (recv_client stream.fd bytes ∷ [])))
      × (length bytes ≡ 128 → on_recv stream lines ≡ fault)
unfolding on_recv
on_recv_prints stream bytes lines h is = (
  λ few.
      let e : 128 - length bytes ≡ suc (127 - length bytes) = omega (arith, few) in
      let text : c_string stream.buf ≡ some bytes =
        ap c_string (is ∙ ap (λ k. bytes ++ replicate k 0) e)
        ∙ c_string-padded bytes (127 - length bytes) h in
      rw (on_recv, text) refl,
  λ full.
      let e : 128 - length bytes ≡ 0 = omega (arith, full) in
      let text : c_string stream.buf ≡ none =
        ap c_string (is ∙ ap (λ k. bytes ++ replicate k 0) e) ∙ c_string-NoZero bytes h in
      rw (on_recv, text) refl,
)
