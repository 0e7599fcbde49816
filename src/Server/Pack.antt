-- ===== src/Server/Pack.antt =====
-- `pack_data`, as the bytes that go through the ring of a worker.
use ebot.Base.{
  ℕ, ◌+◌, ◌-◌, ◌<◌, ◌≤◌, ◌^◌, ◌≡◌, List, ◌∷◌, ◌++◌, arith, length, take, drop, replicate,
  length-append, length-replicate, take-append-length, ◌*◌,
}
use ebot.Bytes.{int_bytes}
use ebot.Server.Types.{stream_buf_size}

-- `sizeof(pack_data)`
abbrev pub pack_size : ℕ
pack_size = 136

-- `fd`, `len` and `buf`, whose rest is 0 as in `{fd, 0, {0}}`.
unfoldable pub pack : (fd : ℕ) (bytes : List ℕ) → List ℕ
pack fd bytes =
    int_bytes fd
    ++ (int_bytes (length bytes) ++ (bytes ++ replicate (stream_buf_size - length bytes) 0))

-- The `int` in the first four bytes.
unfoldable pub int_of : List ℕ → ℕ
int_of (a ∷ b ∷ c ∷ d ∷ rest) = a + b * 256 + c * 65536 + d * 16777216
int_of _ = 0

unfoldable pub pack_fd : List ℕ → ℕ
unfolding int_of
pack_fd xs = int_of xs

unfoldable pub pack_len : List ℕ → ℕ
unfolding int_of
pack_len xs = int_of (drop 4 xs)

unfoldable pub pack_buf : List ℕ → List ℕ
pack_buf xs = drop 8 xs

pub length-pack :
    (fd : ℕ) (bytes : List ℕ) → length bytes ≤ 128 → length (pack fd bytes) ≡ pack_size
unfolding pack
length-pack fd bytes h = omega (
  arith,
  length-append bytes (replicate (128 - length bytes) 0),
  length-replicate {A = ℕ} (128 - length bytes) 0,
)

-- What is packed is unpacked, for a descriptor below `2 ^ 31` and at most 128 bytes: the
-- descriptor, the length and the bytes.
pub unpack-pack :
    (fd : ℕ) (bytes : List ℕ)
    → fd < 2 ^ 31
    → length bytes ≤ 128
    → (pack_fd (pack fd bytes) ≡ fd)
      × (pack_len (pack fd bytes) ≡ length bytes)
      × (take (length bytes) (pack_buf (pack fd bytes)) ≡ bytes)
unfolding pack pack_fd pack_len pack_buf
unpack-pack fd bytes small few =
    (omega arith, omega arith, take-append-length bytes (replicate (128 - length bytes) 0))
