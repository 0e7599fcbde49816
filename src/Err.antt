-- ===== src/Err.antt =====
-- The error functions at the top of ebot.c.
pub mod Buffer
mod Tests
use ebot.Base.{
  ℕ, zero, suc, ◌+◌, ◌-◌, ◌/◌, ◌%◌, ◌<◌, Bool, true, false, not, ◌&&◌, List, [], ◌∷◌, ◌++◌, ltb,
  length, take, if◌then◌else◌, Run, ok, exits, fault, ◌>>=◌,
}

-- `ERR_MAXLINE`
abbrev pub err_maxline : ℕ
err_maxline = 2048

-- `snprintf(s, size, …)` of a text of that many bytes or more puts `size - 1` of them there.
abbrev pub printed : (size : ℕ) → List ℕ → List ℕ
printed zero text = []
printed (suc n) text = take n text

-- `vsprintf` puts the text into `buf` and a 0 behind it, however long it is. `HAVE_VSNPRINTF` is
-- `bounded`.
unfoldable pub print_first : (bounded : Bool) (text : List ℕ) → Run (List ℕ)
print_first bounded text =
    if bounded
    then ok (printed err_maxline text)
    else if ltb (length text) (err_maxline + 1)
    then ok text
    else fault

-- `err_doit`: what `fputs` gets. `text` is what the format and its arguments give, without a 0, and
-- `error` is the text of `errno`. The buffer has `ERR_MAXLINE + 1` bytes.
unfoldable pub err_doit : (bounded errnoflag : Bool) (text error : List ℕ) → Run (List ℕ)
unfolding print_first
err_doit bounded errnoflag text error = do
  buf ← print_first bounded text
  let n = length buf
  let buf = if errnoflag then buf ++ printed (err_maxline - n) (b':' ∷ b' ' ∷ error) else buf
  if ltb (length buf + 1) (err_maxline + 1) then ok (buf ++ (10 ∷ [])) else fault

-- `err_sys_` and `err_msg_`
unfoldable pub err_sys : (bounded : Bool) (text error : List ℕ) → Run (Unit {0})
unfolding err_doit
err_sys bounded text error = do line ← err_doit bounded true text error; exits

unfoldable pub err_msg_ : (bounded : Bool) (text error : List ℕ) → Run (List ℕ)
unfolding err_doit
err_msg_ bounded text error = err_doit bounded false text error

-- `%02d` of a number below 100.
abbrev pub two_digits : ℕ → List ℕ
two_digits n = (b'0' + n / 10) ∷ (b'0' + n % 10) ∷ []

-- Where a message comes from and when: the `struct tm`, `__FILE__`, `__LINE__` and `__func__`.
pub record Place : Type 0 where
  pub tm_hour : ℕ
  pub tm_min : ℕ
  pub tm_sec : ℕ
  pub file : List ℕ
  pub line : List ℕ
  pub func : List ℕ

-- `"[%02d:%02d:%02d] %s:[" _QUOTE(__LINE__) "]\t%s:" fmt`
abbrev pub stamped : Place → List ℕ → List ℕ
stamped at text =
    (b'[' ∷ two_digits at.tm_hour)
    ++ (b':' ∷ two_digits at.tm_min)
    ++ (b':' ∷ two_digits at.tm_sec)
    ++ (b']' ∷ b' ' ∷ at.file)
    ++ (b':' ∷ b'[' ∷ at.line)
    ++ (b']' ∷ 9 ∷ at.func)
    ++ (b':' ∷ text)

-- The macros `err_msg` and `err_exit`.
unfoldable pub err_msg : (bounded : Bool) → Place → (text error : List ℕ) → Run (List ℕ)
unfolding err_msg_
err_msg bounded at text error = err_msg_ bounded (stamped at text) error

unfoldable pub err_exit : (bounded : Bool) → Place → (text error : List ℕ) → Run (Unit {0})
unfolding err_msg
err_exit bounded at text error = do line ← err_msg bounded at text error; exits
