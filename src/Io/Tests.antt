-- ===== src/Io/Tests.antt =====
-- The loops over system calls at concrete answers.
use ebot.Base.{◌≡◌, refl, true, false, [], ◌∷◌, arith, Returns, ok, pos, ◌/◌, ◌%◌}
use ebot.Io.{
  value, interrupted, set_nonblock, has_nonblock, took, send_interrupted, send_again, writen,
}
use ebot.Io.Flags.{set_nonblock_off}
use ebot.Io.Writen.{Sends, writen-Sends}

run_set_nonblock_off :
    Returns
      (λ o. (has_nonblock o ≡ true) × (o % 2048 ≡ 2047) × (o / 4096 ≡ 1048575))
      (set_nonblock false (value 2050 ∷ []) (interrupted ∷ value 0 ∷ []))
run_set_nonblock_off = set_nonblock_off 2050 0 1 0 (omega arith)

writen-Sends_example :
    Returns
      (Sends (7 ∷ 8 ∷ 9 ∷ []))
      (writen (took 1 ∷ send_interrupted ∷ took 1 ∷ send_again ∷ []) (7 ∷ 8 ∷ 9 ∷ []))
writen-Sends_example =
    writen-Sends (took 1 ∷ send_interrupted ∷ took 1 ∷ send_again ∷ []) (7 ∷ 8 ∷ 9 ∷ [])
      (omega arith, (omega arith, tt)) (omega arith)

run_writen :
    writen (took 1 ∷ send_interrupted ∷ took 1 ∷ send_again ∷ []) (7 ∷ 8 ∷ 9 ∷ [])
    ≡ ok (pos 2, 7 ∷ 8 ∷ [])
unfolding writen
run_writen = refl
