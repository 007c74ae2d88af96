-- ===== src/Executor/Reads.antt =====
-- What the reads of executor.cpp may fill.
use native.Mathlib.Nat.{
  mod-lt, mod-eq_of_lt, mod-add-mod, mod-eq-sub-mod, one-le-pow, pow-le-pow_right,
}
use mathlib.Core.Path.{subst}
use p4fuse.Base.Bits.{bit_and-ones}
use p4fuse.Base.{
  ℕ, ◌+◌, ◌-◌, ◌^◌, ◌%◌, ◌<◌, ◌≤◌, ◌≡◌, ◌≢◌, ◌⊎◌, ◌↔◌, refl, sym, ap, ◌∙◌, arith, inl, inr, false,
  some, List, [], ◌∷◌, bit_and, sub64, ◌==◌, ==→≡, ≢→==, ==-refl, ltb, ltb→lt, ltb→le, le→ltb,
  Bool-cases,
}
use p4fuse.Ring.{Iovec}
use p4fuse.Allocator.{FileArena, arena_clear}
use p4fuse.Executor.{queue_arena_read, read_pieces}

-- A sum of less than twice the size, modulo the size.
mod_cases : (s x : ℕ) → x < s + s → ((x < s) × (x % s ≡ x)) ⊎ ((s ≤ x) × (x % s ≡ x - s))
mod_cases s x h = elim (Bool-cases (ltb x s)) [
  | inl e ↦ inl (ltb→lt x s e, mod-eq_of_lt (ltb→lt x s e))
  | inr e ↦
      inr (ltb→le x s e, mod-eq-sub-mod (ltb→le x s e) ∙ mod-eq_of_lt (omega (arith, ltb→le x s e)))
]

-- The index of the position `j` behind `head`.
index_cases :
    (s head j : ℕ)
    → j ≤ s
    → 0 < s
    → ((head % s + j < s) × ((head + j) % s ≡ head % s + j))
      ⊎ ((s ≤ head % s + j) × ((head + j) % s ≡ head % s + j - s))
index_cases s head j h low = elim (mod_cases s (head % s + j) (omega (arith, mod-lt head low))) [
  | inl (k, e) ↦ inl (k, sym (mod-add-mod head s j) ∙ e)
  | inr (k, e) ↦ inr (k, sym (mod-add-mod head s j) ∙ e)
]

-- The bytes of the pieces, and an index that is in none of them.
abbrev pub total : List Iovec → ℕ
total [] = 0
total (v ∷ vs) = v.len + total vs

abbrev pub Avoids : ℕ → List Iovec → Type 0
Avoids i [] = Unit
Avoids i (v ∷ vs) = ((i < v.base) ⊎ (v.base + v.len ≤ i)) × Avoids i vs

-- An index that is in one of them.
abbrev pub Covers : ℕ → List Iovec → Type 0
Covers i [] = ⊥
Covers i (v ∷ vs) = ((v.base ≤ i) × (i < v.base + v.len)) ⊎ Covers i vs

-- The index `p` of the position `j` behind one with the index `h`.
abbrev IsIndex : ℕ → ℕ → ℕ → ℕ → Type 0
IsIndex s h j p = ((h + j < s) × (p ≡ h + j)) ⊎ ((s ≤ h + j) × (p ≡ h + j - s))

-- The pieces are the part of the ring that holds nothing.
record IsFree (s h n : ℕ) (vs : List Iovec) : Type 0 where
  whole : total vs ≡ s - n
  free : (j p : ℕ) → j < n → IsIndex s h j p → Avoids p vs

-- The index of a position that is `n` or more, and less than the size, behind one with the index `h`.
abbrev Gap : ℕ → ℕ → ℕ → ℕ → Type 0
Gap s h n p = (m : ℕ) × (n ≤ m) × (m < s) × IsIndex s h m p

-- The index of such a position.
abbrev pub Unused : ℕ → ℕ → ℕ → ℕ → Type 0
Unused s from to p = (j : ℕ) × (from ≤ j) × (j < to) × (j % s ≡ p)

module _ (s head n p : ℕ) (low : 0 < s) where
  Gap-Unused : Gap s (head % s) n p → Unused s (head + n) (head + s) p
  Gap-Unused (m, least, most, i) =
      (head + m, omega arith, omega arith, omega (arith, i, index_cases s head m (omega arith) low))

  Unused-Gap : Unused s (head + n) (head + s) p → Gap s (head % s) n p
  Unused-Gap (j, least, most, e) = (
    j - head,
    omega arith,
    omega arith,
    omega (
      arith,
      e,
      ap (λ x. x % s) {x = j} {y = head + (j - head)} (omega arith),
      index_cases s head (j - head) (omega arith) low,
    ),
  )

  -- Every index of the ring is one.
  Gap-all : n ≡ 0 → p < s → Gap s (head % s) n p
  Gap-all none_in h = elim (Bool-cases (ltb p (head % s))) [
    | inl e ↦ (
      p + s - head % s,
      omega arith,
      omega (arith, ltb→lt p (head % s) e),
      inr (omega (arith, mod-lt head low), omega (arith, mod-lt head low)),
    )
    | inr e ↦ (
      p - head % s,
      omega arith,
      omega arith,
      inl (omega (arith, ltb→le p (head % s) e), omega (arith, ltb→le p (head % s) e)),
    )
  ]

-- The two pieces behind each other.
abbrev iov : ℕ → ℕ → ℕ → List Iovec
iov s h t = record { base = t; len = sub64 s t } ∷ record { base = 0; len = h } ∷ []

module _ (s h n t : ℕ) (small : s ≤ 2 ^ 62) (low : h < s) (some_in : 0 < n) (room : n < s)
    (e : IsIndex s h n t) where
  read_pieces-IsFree : IsFree s h n (read_pieces s t h (iov s h t))
  read_pieces-IsFree = elim (Bool-cases (h == 0)) [
    | inl zero_h ↦
        rw (zero_h, le→ltb s t (omega (arith, e, ==→≡ h 0 zero_h)))
          (record {
            whole = omega (arith, e, ==→≡ h 0 zero_h);
            free = λ j p k i. (inl (omega (arith, e, i, ==→≡ h 0 zero_h)), tt);
          })
    | inr some_h ↦ rw some_h (elim (Bool-cases (ltb h t)) [
      | inl up ↦ rw up (record {
        whole = omega (arith, e, ltb→lt h t up);
        free = λ j p k i. (
          inl (omega (arith, e, i, ltb→lt h t up)),
          (inr (omega (arith, e, i, ltb→lt h t up)), tt),
        );
      })
      | inr down ↦ rw down (record {
        whole = omega (arith, e, ltb→le h t down);
        free = λ j p k i. (either (ltb→le h t down) j p k i, tt);
      })
    ])
  ]
    where
      either : t ≤ h → (j p : ℕ) → j < n → IsIndex s h j p → (p < t) ⊎ (t + sub64 h t ≤ p)
      either down j p k (inl i) = inr (omega (arith, e, i, down))
      either down j p k (inr i) = inl (omega (arith, e, i, down))

  -- The pieces hold just the other indices.
  read_pieces-Gap : (p : ℕ) → Covers p (read_pieces s t h (iov s h t)) → Gap s h n p
  read_pieces-Gap p = elim (Bool-cases (h == 0)) [
    | inl zero_h ↦
        rw (zero_h, le→ltb s t (omega (arith, e, ==→≡ h 0 zero_h)))
          λ c. elim c [
            | inl (a, b) ↦ (
              p,
              omega (arith, e, ==→≡ h 0 zero_h),
              omega (arith, e, ==→≡ h 0 zero_h),
              inl (omega (arith, e, ==→≡ h 0 zero_h), omega (arith, ==→≡ h 0 zero_h)),
            )
            | inr x ↦ absurd x
          ]
    | inr some_h ↦ rw some_h (elim (Bool-cases (ltb h t)) [
      | inl up ↦ rw up (two (ltb→lt h t up))
      | inr down ↦ rw down (one (ltb→le h t down))
    ])
  ]
    where
      two : h < t → Covers p (iov s h t) → Gap s h n p
      two up (inl (a, b)) =
          (p - h, omega (arith, e), omega (arith, e), inl (omega (arith, e), omega arith))
      two up (inr (inl (a, b))) =
          (p + s - h, omega (arith, e), omega (arith, e), inr (omega arith, omega arith))
      two up (inr (inr x)) = absurd x

      one : t ≤ h → Covers p (record { base = t; len = sub64 h t } ∷ []) → Gap s h n p
      one down (inl (a, b)) =
          (p + s - h, omega (arith, e), omega arith, inr (omega arith, omega arith))
      one down (inr x) = absurd x

  Gap-read_pieces : (p : ℕ) → Gap s h n p → Covers p (read_pieces s t h (iov s h t))
  Gap-read_pieces p (m, least, most, i) = elim (Bool-cases (h == 0)) [
    | inl zero_h ↦
        rw (zero_h, le→ltb s t (omega (arith, e, ==→≡ h 0 zero_h)))
          (inl (omega (arith, e, i, ==→≡ h 0 zero_h), omega (arith, e, i, ==→≡ h 0 zero_h)))
    | inr some_h ↦ rw some_h (elim (Bool-cases (ltb h t)) [
      | inl up ↦ rw up (two (ltb→lt h t up) i)
      | inr down ↦ rw down (one (ltb→le h t down) i)
    ])
  ]
    where
      two : h < t → IsIndex s h m p → Covers p (iov s h t)
      two up (inl i) = inl (omega (arith, e, i), omega (arith, e, i))
      two up (inr i) = inr (inl (omega (arith, e, i), omega (arith, e, i)))

      one : t ≤ h → IsIndex s h m p → Covers p (record { base = t; len = sub64 h t } ∷ [])
      one down i = inl (omega (arith, e, i), omega (arith, e, i))

mask_lem : (k x : ℕ) → 2 ^ k ≤ 2 ^ 62 → bit_and x (sub64 (2 ^ k) 1) ≡ x % 2 ^ k
mask_lem k x h = ap (bit_and x) (ground (arith, one-le-pow k 2)) ∙ bit_and-ones k x

module _ (k : ℕ) (a : FileArena) (small : k ≤ 62) (size : a.total_size ≡ 2 ^ k)
    (order : a.head ≤ a.tail) (room : a.tail - a.head < 2 ^ k) where
  big : a.total_size ≤ 2 ^ 62
  big = rw size (pow-le-pow_right {n = 2} (omega arith) small)

  low : 0 < a.total_size
  low = rw size (one-le-pow k 2 (omega arith))

  mask : (x : ℕ) → bit_and x (sub64 a.total_size 1) ≡ x % a.total_size
  mask x =
      subst (λ s. bit_and x (sub64 s 1) ≡ x % s) (sym size)
        (mask_lem k x (pow-le-pow_right {n = 2} (omega arith) small))

  -- An empty arena starts again from its start.
  empty_read :
      a.head ≡ a.tail
      → queue_arena_read a ≡ some (record { base = 0; len = a.total_size } ∷ [], arena_clear a)
  unfolding queue_arena_read arena_clear
  empty_read e =
      rw
        (
          e,
          ==-refl (bit_and a.tail (sub64 a.total_size 1)),
          ==-refl a.tail,
          le→ltb a.total_size 0 (omega arith),
        )
        (ap (λ n. some (record { base = 0; len = n } ∷ [], arena_clear a)) (omega (arith, big)))

  rest_read :
      a.head % a.total_size ≢ a.tail % a.total_size
      → queue_arena_read a
        ≡ some (
          read_pieces a.total_size
              (a.tail % a.total_size)
              (a.head % a.total_size)
              (iov a.total_size (a.head % a.total_size) (a.tail % a.total_size)),
          a,
        )
  unfolding queue_arena_read
  rest_read ne = rw (mask a.tail, mask a.head, ≢→== _ _ ne) refl

  -- The arena is not full.
  IsIndex-tail :
      IsIndex a.total_size (a.head % a.total_size) (a.tail - a.head) (a.tail % a.total_size)
  IsIndex-tail =
      subst (λ x. IsIndex a.total_size (a.head % a.total_size) (a.tail - a.head) (x % a.total_size))
        {x = a.head + (a.tail - a.head)} (omega arith)
        (index_cases a.total_size a.head (a.tail - a.head) (rw size (omega arith)) low)

  IsIndex-of :
      (i : ℕ)
      → a.head ≤ i
      → i < a.tail
      → IsIndex a.total_size (a.head % a.total_size) (i - a.head) (i % a.total_size)
  IsIndex-of i h l =
      subst (λ x. IsIndex a.total_size (a.head % a.total_size) (i - a.head) (x % a.total_size))
        {x = a.head + (i - a.head)} (omega arith)
        (index_cases a.total_size a.head (i - a.head) (rw size (omega arith)) low)

  -- A read may fill just the bytes that are not in use: in an arena whose size is a power of two of at
  -- most 2 ^ 62, with `head` at most `tail` and less than the size between them, `queue_read` queues a
  -- read of pieces that hold just the indices of the positions from `tail` up to one round behind
  -- `head`. The pieces have as many bytes together as are not in use, none of them holds the index of
  -- a position from `head` to `tail`, and as many bytes are in use behind the call.
  pub queue_arena_read-Avoids :
      (vs : List Iovec) × (a' : FileArena) × (queue_arena_read a ≡ some (vs, a'))
      × (total vs + (a.tail - a.head) ≡ a.total_size)
      × (a'.tail - a'.head ≡ a.tail - a.head)
      × ((i : ℕ) → a.head ≤ i → i < a.tail → Avoids (i % a.total_size) vs)
      × ((p : ℕ) → Covers p vs ↔ Unused a.total_size a.tail (a.head + a.total_size) p)
  unfolding arena_clear
  queue_arena_read-Avoids = elim (Bool-cases (a.head == a.tail)) [
    | inl e ↦ (
      _,
      _,
      empty_read (==→≡ a.head a.tail e),
      omega (arith, ==→≡ a.head a.tail e),
      omega (arith, ==→≡ a.head a.tail e),
      λ i h l. absurd (omega (arith, ==→≡ a.head a.tail e)),
      λ p. (
        λ c. unused p (
            Gap-all a.total_size a.head (a.tail - a.head) p low
              (omega (arith, ==→≡ a.head a.tail e)) (inside p c)),
        λ (j, least, most, q). inl (omega arith, omega (arith, q, mod-lt j low)),
      ),
    )
    | inr ne ↦ held (omega (arith, order, below ne))
  ]
    where
      below : (a.head == a.tail) ≡ false → a.head ≢ a.tail
      below ne q = cc (ne, q, ==-refl a.head)

      inside : (p : ℕ) → Covers p (record { base = 0; len = a.total_size } ∷ []) → p < a.total_size
      inside p (inl (l, h)) = omega arith
      inside p (inr x) = absurd x

      at_tail : a.head + (a.tail - a.head) ≡ a.tail
      at_tail = omega arith

      unused :
          (p : ℕ)
          → Gap a.total_size (a.head % a.total_size) (a.tail - a.head) p
          → Unused a.total_size a.tail (a.head + a.total_size) p
      unused p g =
          subst (λ x. Unused a.total_size x (a.head + a.total_size) p) at_tail
            (Gap-Unused a.total_size a.head (a.tail - a.head) p low g)

      gap :
          (p : ℕ)
          → Unused a.total_size a.tail (a.head + a.total_size) p
          → Gap a.total_size (a.head % a.total_size) (a.tail - a.head) p
      gap p u =
          Unused-Gap a.total_size a.head (a.tail - a.head) p low
            (subst (λ x. Unused a.total_size x (a.head + a.total_size) p) (sym at_tail) u)

      held :
          0 < a.tail - a.head
          → (vs : List Iovec) × (a' : FileArena) × (queue_arena_read a ≡ some (vs, a'))
            × (total vs + (a.tail - a.head) ≡ a.total_size)
            × (a'.tail - a'.head ≡ a.tail - a.head)
            × ((i : ℕ) → a.head ≤ i → i < a.tail → Avoids (i % a.total_size) vs)
            × ((p : ℕ) → Covers p vs ↔ Unused a.total_size a.tail (a.head + a.total_size) p)
      held some_in = (
        _,
        a,
        rest_read (λ q. omega (arith, q, IsIndex-tail, some_in, less)),
        omega (arith, pieces.whole, less),
        refl,
        λ i h l. pieces.free (i - a.head) (i % a.total_size) (omega arith) (IsIndex-of i h l),
        λ p. (
          λ c. unused p (
              read_pieces-Gap a.total_size (a.head % a.total_size) (a.tail - a.head)
                (a.tail % a.total_size) big (mod-lt a.head low) some_in less IsIndex-tail p c),
          λ u.
              Gap-read_pieces a.total_size (a.head % a.total_size) (a.tail - a.head)
                (a.tail % a.total_size) big (mod-lt a.head low) some_in less IsIndex-tail p
                (gap p u),
        ),
      )
        where
          less : a.tail - a.head < a.total_size
          less = rw size room

          pieces : IsFree a.total_size (a.head % a.total_size) (a.tail - a.head) (
              read_pieces a.total_size
                (a.tail % a.total_size)
                (a.head % a.total_size)
                (iov a.total_size (a.head % a.total_size) (a.tail % a.total_size)))
          pieces =
              read_pieces-IsFree a.total_size (a.head % a.total_size) (a.tail - a.head)
                (a.tail % a.total_size) big (mod-lt a.head low) some_in less IsIndex-tail
