-- ===== src/Buffer/Laws.antt =====
-- What a caller of `alloc_chunk` may rely on.
use native.Mathlib.Nat.{
  div-one, mul-one, pow-suc, one-le-pow, mul-one, mod-eq_of_lt, div-lt_iff_lt-mul, lt-div-mul-add,
  div-mul-le_self, mul-mod_left,
}
use mathlib.Core.Path.{◌≡⟨◌⟩◌, ◌∎}
use p4fuse.Base.{
  ℕ, zero, suc, ◌+◌, ◌-◌, ◌*◌, ◌/◌, ◌%◌, ◌^◌, ◌≤◌, ◌<◌, ◌≡◌, ap, sym, ◌∙◌, arith, none, some, add64,
  sub64, not64, ltb, Bool-cases, ◌⊎◌, inl, inr,
}
use p4fuse.Base.Bits.{bit_and-ones, bit_and-high}
use p4fuse.Buffer.{buf_sz, align_up, Chunk, alloc_chunk}

pub pow-add : (j k : ℕ) → 2 ^ (j + k) ≡ 2 ^ j * 2 ^ k
pow-add j zero = simp (mul-one (2 ^ j)) (ap (λ t. 2 ^ t) (omega arith))
pow-add j (suc k) =
    2 ^ (j + suc k)
    ≡⟨ ap (λ t. 2 ^ t) (omega arith) ⟩ 2 ^ suc (j + k)
    ≡⟨ omega (arith, pow-suc 2 (j + k), pow-add j k, ap (λ (t : ℕ). 2 ^ j * t) (pow-suc 2 k)) ⟩
      2 ^ j * 2 ^ suc k ∎

-- The powers that split 2 ^ 64.
split_64 : (j k : ℕ) → j + k ≡ 64 → 2 ^ j * 2 ^ k ≡ 2 ^ 64
split_64 j k e = sym (pow-add j k) ∙ ap (λ t. 2 ^ t) e

-- The mask `~(2^k - 1)` keeps the bits above the lowest `k`.
align_mask : (j k : ℕ) → j + k ≡ 64 → not64 (sub64 (2 ^ k) 1) ≡ (2 ^ j - 1) * 2 ^ k
align_mask j k e = omega (
  arith,
  split_64 j k e,
  one-le-pow k 2,
  one-le-pow j 2,
  ap (λ (t : ℕ). t * 2 ^ k) pred_suc,
  le_of_split,
)
  where
    pred_suc : 2 ^ j ≡ (2 ^ j - 1) + 1
    pred_suc = omega (arith, one-le-pow j 2)

    le_of_split : 2 ^ k ≤ 2 ^ 64
    le_of_split = grind (arith, split_64 j k e, one-le-pow j 2)

-- An alignment to `2 ^ k` rounds up to a multiple.
pub align_up_lem :
    (j k x : ℕ)
    → j + k ≡ 64
    → x + 2 ^ k ≤ 2 ^ 64
    → align_up x (2 ^ k) ≡ (x + (2 ^ k - 1)) / 2 ^ k * 2 ^ k
unfolding align_up
align_up_lem j k x e h =
    rw (no_wrap, align_mask j k e, bit_and-high k (x + (2 ^ k - 1)) (2 ^ j - 1), bit_and-ones j q)
      (ap (λ t. t * 2 ^ k) (mod-eq_of_lt small))
  where
    q : ℕ
    q = (x + (2 ^ k - 1)) / 2 ^ k

    no_wrap : sub64 (add64 x (2 ^ k)) 1 ≡ x + (2 ^ k - 1)
    no_wrap = omega (arith, one-le-pow k 2)

    small : q < 2 ^ j
    small =
        (div-lt_iff_lt-mul {k = 2 ^ k} (one-le-pow k 2 (omega arith))).1
          (omega (arith, split_64 j k e, one-le-pow k 2))

-- The alignment 1 changes nothing.
pub align_up-one : (x : ℕ) → x < 2 ^ 63 → align_up x 1 ≡ x
align_up-one x h = align_up_lem 64 0 x (λ i. 64) (omega arith) ∙ rw (div-one, mul-one) (omega arith)

-- What a call does that returns a chunk: the chunk is aligned, starts at most `align - 1` bytes
-- above the old top, and `cur_sz` stands behind it, inside the buffer.
pub record IsFitted (save sz align : ℕ) (c : Chunk) (at : ℕ) : Type 0 where
  pub returns : c.res ≡ some at
  pub top : c.cur_sz ≡ at + sz
  pub inside : at + sz ≤ buf_sz
  pub above : save ≤ at
  pub near : at < save + align
  pub aligned : at % align ≡ 0

-- What a call does that returns NULL: nothing, and the aligned chunk would not fit.
pub record IsRefused (save sz align : ℕ) (c : Chunk) : Type 0 where
  pub null : c.res ≡ none
  pub kept : c.cur_sz ≡ save
  pub too_large : buf_sz < align_up save align + sz

module _ (k : ℕ) (small : k ≤ 12) (save sz : ℕ) (below : save ≤ buf_sz) (fits : sz ≤ 2 ^ 62) where
  -- The largest alignment that is considered is a page.
  pow_le : 2 ^ k ≤ 4096
  pow_le = grind (arith, whole, one-le-pow (12 - k) 2 (omega arith))
    where
      sum : 12 - k + k ≡ 12
      sum = omega arith

      whole : 2 ^ (12 - k) * 2 ^ k ≡ 2 ^ 12
      whole = sym (pow-add (12 - k) k) ∙ ap (λ t. 2 ^ t) sum

  align_up_bounds :
      (save ≤ align_up save (2 ^ k))
      × (align_up save (2 ^ k) < save + 2 ^ k)
      × (align_up save (2 ^ k) % 2 ^ k ≡ 0)
  align_up_bounds = rw (align_up_lem (64 - k) k save (omega arith) (omega (arith, pow_le))) (
    omega
        (arith, lt-div-mul-add {a = x} {b = 2 ^ k} (one-le-pow k 2 (omega arith)), one-le-pow k 2),
    omega (arith, div-mul-le_self x (2 ^ k), one-le-pow k 2 (omega arith)),
    mul-mod_left (x / 2 ^ k) (2 ^ k),
  )
    where
      x : ℕ
      x = save + (2 ^ k - 1)

  -- Every call of `alloc_chunk`, for an alignment of a power of two up to 4096, a top inside the
  -- buffer and a size of at most 2 ^ 62, either returns an aligned chunk inside the buffer, at most
  -- `align - 1` bytes above the old top, or returns NULL and changes nothing, and that only if the
  -- aligned chunk would end outside the buffer.
  pub alloc_chunk_lem :
      let c = alloc_chunk save sz (2 ^ k) in
      IsFitted save sz (2 ^ k) c (align_up save (2 ^ k)) ⊎ IsRefused save sz (2 ^ k) c
  unfolding alloc_chunk
  alloc_chunk_lem = elim (Bool-cases (ltb buf_sz (align_up save (2 ^ k) + sz))) [
    | inl over ↦ inr (ground (arith, align_up_bounds, pow_le))
    | inr fit ↦ inl (ground (arith, align_up_bounds, pow_le))
  ]
