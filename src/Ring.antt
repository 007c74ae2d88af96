-- ===== src/Ring.antt =====
-- main.cpp, `read_buf`: a ring of BUF_SZ bytes that the kernel fills and `process_commands` reads.
-- `cur` and `head` count all bytes consumed and received; they index the ring modulo BUF_SZ.
pub mod Laws
use p4fuse.Base.{
  ℕ, zero, suc, ◌+◌, ◌-◌, ◌^◌, ◌++◌, List, [], ◌∷◌, bit_and, min, ◌==◌, ltb, leb, ◌&&◌,
  if◌then◌else◌,
}
use p4fuse.Buffer.{buf_sz}

-- The ring's storage: the byte at each index.
abbrev pub Bytes : Type 0
Bytes = ℕ → ℕ

-- `__builtin_memcpy` out of the ring: the `n` bytes from index `at` on.
abbrev pub load : Bytes → ℕ → ℕ → List ℕ
load buf at zero = []
load buf at (suc n) = buf at ∷ load buf (at + 1) n

-- `copyin_wrap(dst, sz, begin)`: the bytes that `dst` receives.
unfoldable pub copyin_wrap : Bytes → ℕ → ℕ → List ℕ
copyin_wrap read_buf sz start =
    let begin = bit_and start (buf_sz - 1) in
    let first_cp = min sz (buf_sz - begin) in
    load read_buf begin first_cp ++ (if first_cp == sz then [] else load read_buf 0 (sz - first_cp))

pub record Iovec : Type 0 where
  pub base : ℕ
  pub len : ℕ

-- `queue_read()`: the two pieces of the ring that the read submitted to the kernel may fill.
unfoldable pub queue_read : ℕ → ℕ → List Iovec
queue_read cur head =
    let th = bit_and head (buf_sz - 1) in
    record { base = th; len = buf_sz - th } ∷ record { base = 0; len = cur } ∷ []
