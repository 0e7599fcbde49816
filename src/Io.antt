-- ===== src/Io.antt =====
-- The calls of the operating system that ebot.c makes in loops or with several outcomes:
-- `set_nonblock`, `readn` and `writen`. What a call gives is an argument.
pub mod Flags
pub mod Writen
mod Tests
use ebot.Base.{
  ℕ, zero, suc, ◌+◌, ◌-◌, ◌/◌, ◌%◌, Bool, true, false, List, [], ◌∷◌, ◌++◌, length, take, drop, ltb,
  ◌==◌, if◌then◌else◌, Run, ok, exits, waits, ◌>>=◌, ℤ, pos, negsuc,
}

-- What one call of `fcntl` gives: a value, `EINTR`, or another error.
pub data Answer : Type 0 where
  value : ℕ → Answer
  interrupted failed : Answer

-- A `do … while` over `fcntl`, with the check behind it. The list has what the calls give.
unfoldable pub retry : List Answer → Run ℕ
retry [] = waits
retry (interrupted ∷ rest) = retry rest
retry (failed ∷ rest) = exits
retry (value n ∷ rest) = ok n

-- `O_NONBLOCK` on Linux
abbrev pub nonblock_flag : ℕ
nonblock_flag = 2048

abbrev pub has_nonblock : ℕ → Bool
has_nonblock opts = opts / nonblock_flag % 2 == 1

-- The result is the flags that the descriptor then has; -1 and the numbers close to it are those
-- close to `2 ^ 32`. The second branch is `opts | ~O_NONBLOCK`.
unfoldable pub set_nonblock : (nonblock : Bool) (gets sets : List Answer) → Run ℕ
set_nonblock nonblock gets sets = do
  opts ← retry gets
  let opts' =
      if nonblock
      then (if has_nonblock opts then opts else opts + nonblock_flag)
      else 4294967295 - (if has_nonblock opts then 0 else nonblock_flag)
  done ← retry sets
  ok opts'

-- What `recv` gives: bytes, none where the peer has closed; no data yet; an error.
pub data Recv : Type 0 where
  got : List ℕ → Recv
  no_data recv_error : Recv

abbrev pub readn : Recv → ℤ
readn (got []) = negsuc 1
readn (got (b ∷ bytes)) = pos (length (b ∷ bytes))
readn no_data = pos 0
readn recv_error = negsuc 0

-- What `send` gives: the number of bytes it took; `EINTR`; `EAGAIN`; `EPIPE`; another error.
pub data Sent : Type 0 where
  took : ℕ → Sent
  send_interrupted send_again send_pipe send_error : Sent

-- The loop of `writen`, with the bytes that have left so far. The list has what the calls of
-- `send` give.
unfoldable pub writen_loop :
    List Sent → (buf : List ℕ) → (total : ℕ) → (out : List ℕ) → Run (ℤ × List ℕ)
writen_loop [] buf total out = if ltb total (length buf) then waits else ok (pos total, out)
writen_loop (answer ∷ rest) buf total out =
    if ltb total (length buf)
    then (elim answer [
      | took n ↦
          if ltb 0 n
          then writen_loop rest buf (total + n) (out ++ take n (drop total buf))
          else ok (pos total, out)
      | send_interrupted ↦ writen_loop rest buf total out
      | send_again ↦ ok (pos total, out)
      | send_pipe ↦ ok (negsuc 1, out)
      | send_error ↦ ok (negsuc 0, out)
    ])
    else ok (pos total, out)

-- `writen` of the whole of `buf`
unfoldable pub writen : List Sent → List ℕ → Run (ℤ × List ℕ)
unfolding writen_loop
writen answers buf = writen_loop answers buf 0 []
