-- ===== src/Err/Tests.antt =====
-- A message that fits, and one that does not.
use ebot.Base.{ℕ, ◌<◌, ◌≤◌, ◌≡◌, refl, true, false, ◌⊎◌, List, [], ◌∷◌, ◌++◌, length, ok, fault}
use ebot.Err.{err_doit, err_msg}
use ebot.Err.Buffer.{message, err_doit_lem}

abbrev opened : List ℕ
opened = b'o' ∷ b'n' ∷ []

err_doit_lem_example :
    ((false ≡ true) ⊎ (length opened < 2048)
      → err_doit false true opened (b'E' ∷ []) ≡ ok (message true opened (b'E' ∷ []) ++ (10 ∷ [])))
    × (false ≡ false → 2048 ≤ length opened → err_doit false true opened (b'E' ∷ []) ≡ fault)
err_doit_lem_example = err_doit_lem opened (b'E' ∷ []) false true

run_err_msg :
    err_msg false
      (record {
        tm_hour = 9;
        tm_min = 5;
        tm_sec = 42;
        file = b'e' ∷ [];
        line = b'7' ∷ [];
        func = b'f' ∷ [];
      })
      (b'x' ∷ [])
      []
    ≡ ok (
        b'[' ∷ b'0' ∷ b'9' ∷ b':' ∷ b'0' ∷ b'5' ∷ b':' ∷ b'4' ∷ b'2' ∷ b']' ∷ b' ' ∷ b'e' ∷ b':'
        ∷ b'[' ∷ b'7' ∷ b']' ∷ 9 ∷ b'f' ∷ b':' ∷ b'x' ∷ 10 ∷ [])
unfolding err_msg
run_err_msg = refl
