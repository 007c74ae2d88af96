-- ===== src/Ring/Laws.antt =====
-- `copyin_wrap` reads the ring modulo its size, and what `queue_read` offers to the kernel.
use native.Mathlib.Nat.{mod-eq_of_lt, zero-add, sub_self, add-zero, suc-add}
use mathlib.Core.Path.{◌≡⟨◌⟩◌, ◌∎, ap₂}
use mathlib.Core.List.{append-nil}
use p4fuse.Base.{
  ℕ, zero, suc, ◌+◌, ◌-◌, ◌%◌, ◌≤◌, ◌<◌, ◌≡◌, ap, sym, ◌∙◌, arith, ◌==◌, List, [], ◌∷◌, ◌++◌, ◌↔◌,
  ◌⊎◌, ==→≡, if◌then◌else◌, Bool-cases, ==-refl, refl, inl, inr, ltb, ltb→lt, ltb→le,
}
use p4fuse.Base.Bits.{bit_and-ones}
use p4fuse.Buffer.{buf_sz}
use p4fuse.Ring.{Bytes, load, copyin_wrap, Iovec, queue_read}

-- The `n` bytes of the ring from position `at` on, each at its index modulo the size.
abbrev pub window : Bytes → ℕ → ℕ → List ℕ
window buf at zero = []
window buf at (suc n) = buf (at % buf_sz) ∷ window buf (at + 1) n

load-append :
    (buf : Bytes) (at m n : ℕ) → load buf at (m + n) ≡ load buf at m ++ load buf (at + m) n
load-append buf at zero n = rw (zero-add n, add-zero at)
load-append buf at (suc m) n =
    rw (suc-add m n, load-append buf (at + 1) m n)
      (ap (λ t. buf at ∷ load buf (at + 1) m ++ load buf t n) (omega arith))

window-append :
    (buf : Bytes) (at m n : ℕ) → window buf at (m + n) ≡ window buf at m ++ window buf (at + m) n
window-append buf at zero n = rw (zero-add n, add-zero at)
window-append buf at (suc m) n =
    rw (suc-add m n, window-append buf (at + 1) m n)
      (ap (λ t. buf (at % buf_sz) ∷ window buf (at + 1) m ++ window buf t n) (omega arith))

-- Inside the ring's storage, loading is reading the ring.
load-window : (buf : Bytes) (at n : ℕ) → at + n ≤ buf_sz → load buf at n ≡ window buf at n
load-window buf at zero h = refl
load-window buf at (suc n) h =
    rw (mod-eq_of_lt {n = at} {m = buf_sz} (omega arith), load-window buf (at + 1) n (omega arith))

-- Positions that agree modulo the size read the same bytes.
window_mod : (buf : Bytes) (a b n : ℕ) → a % buf_sz ≡ b % buf_sz → window buf a n ≡ window buf b n
window_mod buf a b zero h = refl
window_mod buf a b (suc n) h = rw (h, window_mod buf (a + 1) (b + 1) n (omega arith))

-- The second copy is skipped only where it would be empty.
second_copy :
    (buf : Bytes) (first sz : ℕ)
    → (if first == sz then [] else load buf 0 (sz - first)) ≡ load buf 0 (sz - first)
second_copy buf first sz = elim (Bool-cases (first == sz)) [
  | inl e ↦ rw (e, ==→≡ first sz e, sub_self sz)
  | inr e ↦ rw e
]

-- A window that goes round the end is the rest of the storage and then its beginning.
window_wrap :
    (buf : Bytes) (begin sz : ℕ)
    → let first = buf_sz - begin % buf_sz in
      first ≤ sz
      → sz ≤ buf_sz
      → load buf (begin % buf_sz) first ++ load buf 0 (sz - first) ≡ window buf begin sz
window_wrap buf begin sz h k =
    load buf (begin % buf_sz) first ++ load buf 0 (sz - first)
    ≡⟨ ap₂ ◌++◌ (load-window buf (begin % buf_sz) first (omega arith))
        (load-window buf 0 (sz - first) (omega arith)) ⟩
      window buf (begin % buf_sz) first ++ window buf 0 (sz - first)
    ≡⟨ ap₂ ◌++◌ (window_mod buf (begin % buf_sz) begin first (omega arith))
        (window_mod buf 0 (begin + first) (sz - first) (omega arith)) ⟩
      window buf begin first ++ window buf (begin + first) (sz - first)
    ≡⟨ sym (window-append buf begin first (sz - first)) ⟩ window buf begin (first + (sz - first))
    ≡⟨ ap (window buf begin) (omega arith) ⟩ window buf begin sz ∎
  where
    first : ℕ
    first = buf_sz - begin % buf_sz

-- `copyin_wrap` returns the `sz` bytes of the ring from position `begin` on, going round its end,
-- for any read that is no longer than the ring.
pub copyin_wrap-window :
    (buf : Bytes) (sz begin : ℕ) → sz ≤ buf_sz → copyin_wrap buf sz begin ≡ window buf begin sz
unfolding copyin_wrap
copyin_wrap-window buf sz begin h =
    rw (bit_and-ones 25 begin) (elim (Bool-cases (ltb sz (buf_sz - begin % buf_sz))) [
      | inl whole ↦
          rw (whole, ==-refl sz, append-nil)
            (load-window buf (begin % buf_sz) sz (omega (arith, ltb→lt _ _ whole))
              ∙ window_mod buf (begin % buf_sz) begin sz (omega arith))
      | inr split ↦
          rw (split, second_copy buf (buf_sz - begin % buf_sz) sz)
            (window_wrap buf begin sz (ltb→le _ _ split) h)
    ])

-- An index that one of the pieces covers.
abbrev pub Offered : ℕ → List Iovec → Type 0
Offered i [] = ⊥
Offered i (v ∷ vs) = ((v.base ≤ i) × (i < v.base + v.len)) ⊎ Offered i vs

-- As long as `head` has not gone round the ring, and the next request is not above it, `queue_read`
-- offers the kernel exactly the indices that hold no unread byte.
pub queue_read-Offered :
    (cur head i : ℕ)
    → cur ≤ head
    → head < buf_sz
    → i < buf_sz
    → Offered i (queue_read cur head) ↔ ((i < cur) ⊎ (head ≤ i))
unfolding queue_read
queue_read-Offered cur head i h k l = rw (bit_and-ones 25 head) (ground arith, ground arith)

-- Once the position of the next request has passed the size of the ring, the pieces that
-- `queue_read` offers the kernel cover the index of every unread byte.
pub queue_read-overlap :
    (cur head p : ℕ)
    → buf_sz ≤ cur
    → cur ≤ p
    → p < head
    → Offered (p % buf_sz) (queue_read cur head)
unfolding queue_read
queue_read-overlap cur head p h k l = inr (inl (omega arith))
