-- ===== src/Vec.antt =====
-- The growing array of ebot.c, `Vec`: `vec_expand`, `vec_splice` and the macros over them.
pub mod Items
mod Tests
use ebot.Base.{
  ℕ, ◌+◌, ◌-◌, ◌*◌, Bool, true, false, ◌&&◌, leb, ltb, ◌==◌, if◌then◌else◌, Run, ok, exits, fault,
  ◌>>=◌,
}
use ebot.Bytes.{int_max}

-- `Vec(T)`, with what stands at each index from `data` on, `elems`. `room` counts the elements that
-- the block at `data` has.
pub record Vec (A : Type 0) : Type 0 where
  pub elems : ℕ → A
  pub room : ℕ
  pub length : ℕ
  pub capacity : ℕ

abbrev pub put_at {ℓ} : {A : Type ℓ} → (ℕ → A) → ℕ → A → ℕ → A
put_at f i a j = if j == i then a else f j

-- The `*capacity == 0 ? 1 : *capacity << 1` of `vec_expand`
abbrev pub grown : ℕ → ℕ
grown capacity = if capacity == 0 then 1 else capacity * 2

module _ {A : Type 0} where
  -- `vec_init`
  abbrev pub init : (ℕ → A) → Vec A
  init elems = record { elems = elems; room = 0; length = 0; capacity = 0 }

  -- `memsz` is the size of an element, and `realloc_ok` says that `realloc` gives memory if it is
  -- called. The number of bytes is an `int`.
  pub expand : Vec A → (memsz : ℕ) (realloc_ok : Bool) → Run (Vec A)
  expand v memsz realloc_ok =
      if ltb v.capacity (v.length + 1)
      then (if ltb int_max (grown v.capacity * memsz)
          then fault
          else if realloc_ok
          then ok (record v { capacity = grown v.capacity; room = grown v.capacity })
          else ok (record v { capacity = grown v.capacity }))
      else ok v

  -- `vec_push`
  pub push : Vec A → (memsz : ℕ) (realloc_ok : Bool) → A → Run (Vec A)
  unfolding expand
  push v memsz realloc_ok val = do
    v ← expand v memsz realloc_ok
    if ltb v.length v.room
        then ok (record v { elems = put_at v.elems v.length val; length = v.length + 1 })
        else fault

  -- `vec_pop`
  pub pop : Vec A → Run (A × Vec A)
  pop v =
      if ltb 0 v.length
      then (if leb v.length v.room
          then ok (v.elems (v.length - 1), record v { length = v.length - 1 })
          else fault)
      else exits

  -- `vec_get`, for a `pos` that is not negative
  pub get : Vec A → ℕ → Run A
  get v pos =
      if ltb pos v.length then (if ltb pos v.room then ok (v.elems pos) else fault) else exits

  -- `vec_clear`
  abbrev pub clear : Vec A → Vec A
  clear v = record v { length = 0 }

  -- The function `vec_splice` and the macro of that name, which also sets the length.
  pub splice : Vec A → (start count : ℕ) → Run (Vec A)
  splice v start count =
      if leb (start + count) v.length && leb v.length v.room
      then ok (record v {
        elems =
            λ i. if leb start i && ltb (i + count) v.length then v.elems (i + count) else v.elems i;
        length = v.length - count;
      })
      else fault
