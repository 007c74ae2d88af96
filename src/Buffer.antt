-- ===== src/Buffer.antt =====
-- main.cpp, `alloc_chunk`: a bump allocator over the reply buffer `out_buf` of BUF_SZ bytes.
-- `cur_sz` is the first free offset; a chunk is named by its offset, and `NULL` is `none`.
pub mod Laws
use p4fuse.Base.{ℕ, ◌+◌, ◌^◌, Option, none, some, bit_and, add64, sub64, not64, ltb, if◌then◌else◌}

-- `BUF_SZ`
abbrev pub buf_sz : ℕ
buf_sz = 2 ^ 25

-- `(x + align - 1llu) & ~(align - 1llu)`
unfoldable pub align_up : ℕ → ℕ → ℕ
align_up x align = bit_and (sub64 (add64 x align) 1) (not64 (sub64 align 1))

pub record Chunk : Type 0 where
  -- the chunk that the call returns
  pub res : Option ℕ
  -- `cur_sz` after the call
  pub cur_sz : ℕ

unfoldable pub alloc_chunk : ℕ → ℕ → ℕ → Chunk
alloc_chunk save sz align =
    let res = align_up save align in
    let cur_sz = add64 res sz in
    if ltb buf_sz cur_sz
    then record { res = none; cur_sz = save }
    else record { res = some res; cur_sz = cur_sz }
