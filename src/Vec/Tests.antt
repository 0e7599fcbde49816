-- ===== src/Vec/Tests.antt =====
-- The growing array at concrete contents.
use ebot.Base.{◌<◌, ℕ, ◌≡◌, refl, [], ◌∷◌, arith, Returns, fault, true, false, ok, ◌>>=◌}
use ebot.Vec.{expand, Vec, init, push, splice, get}
use ebot.Vec.Items.{Sound, items, push-Sound, push_no_memory, splice-Sound}

-- The numbers 0 to 3 in a full array.
abbrev four : Vec ℕ
four = record { elems = λ i. i; room = 4; length = 4; capacity = 4 }

four-Sound : Sound four
four-Sound = record { fits = omega arith; whole = refl }

run_push : Returns (λ v'. Sound v' × (items v' ≡ 0 ∷ 1 ∷ 2 ∷ 3 ∷ 9 ∷ [])) (push four 8 true 9)
run_push = push-Sound four 8 9 four-Sound (omega arith)

push_no_memory_example :
    (expand four 8 false ≡ ok (record four { capacity = 8 }))
    × (4 < 8)
    × (push four 8 false 9 ≡ fault)
push_no_memory_example = push_no_memory four 8 9 four-Sound refl (omega arith)

splice-Sound_example : Returns (λ v'. Sound v' × (items v' ≡ 0 ∷ 3 ∷ [])) (splice four 1 2)
splice-Sound_example = splice-Sound four 1 2 four-Sound (omega arith)

abbrev none_yet : Vec ℕ
none_yet = init (λ i. 0)

run_grow : (do v ← push none_yet 4 true 7; v ← push v 4 true 8; get v 1) ≡ ok 8
unfolding push get
run_grow = refl
