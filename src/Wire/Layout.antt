-- ===== src/Wire/Layout.antt =====
-- C structs as bytes: little-endian fields, one after the other, with no padding between them.
use native.Mathlib.Nat.{pow-suc, one-le-pow}
use p4fuse.Base.{
  ℕ, zero, suc, ◌+◌, ◌*◌, ◌/◌, ◌%◌, ◌^◌, ◌<◌, ◌≡◌, refl, ap, arith, List, [], ◌∷◌, ◌++◌, length,
  length-append, take, drop, All,
}

-- The `w` bytes of a field of value `n`, lowest first.
unfoldable pub le : ℕ → ℕ → List ℕ
le zero n = []
le (suc w) n = n % 256 ∷ le w (n / 256)

-- The value that bytes stand for.
unfoldable pub of_le : List ℕ → ℕ
of_le [] = 0
of_le (b ∷ bs) = b + 256 * of_le bs

-- The field of `w` bytes at offset `off`.
unfoldable pub value_at : ℕ → ℕ → List ℕ → ℕ
value_at off w bytes = of_le (take w (drop off bytes))

-- A struct as the width and the value of each field.
abbrev pub Fields : Type 0
Fields = List (ℕ × ℕ)

unfoldable pub pack : Fields → List ℕ
pack [] = []
pack ((w, v) ∷ fs) = le w v ++ pack fs

abbrev pub sizeof : Fields → ℕ
sizeof [] = 0
sizeof ((w, v) ∷ fs) = w + sizeof fs

pub length-le : (w n : ℕ) → length (le w n) ≡ w
unfolding le
length-le zero n = refl
length-le (suc w) n = ap suc (length-le w (n / 256))

pub length-pack : (fs : Fields) → length (pack fs) ≡ sizeof fs
unfolding pack
length-pack [] = refl
length-pack ((w, v) ∷ fs) =
    omega (arith, length-append (le w v) (pack fs), length-le w v, length-pack fs)

-- A field of `w` bytes has a value of `w` bytes.
abbrev pub AreBytes : List ℕ → Type 0
AreBytes bs = All (λ b. b < 256) bs

drop-AreBytes : (n : ℕ) (bs : List ℕ) → AreBytes bs → AreBytes (drop n bs)
drop-AreBytes zero bs h = h
drop-AreBytes (suc n) [] h = tt
drop-AreBytes (suc n) (b ∷ bs) h = drop-AreBytes n bs h.1

of_le-take-lt : (w : ℕ) (bs : List ℕ) → AreBytes bs → of_le (take w bs) < 256 ^ w
unfolding of_le
of_le-take-lt zero bs h = omega arith
of_le-take-lt (suc w) [] h = one-le-pow (suc w) 256 (omega arith)
of_le-take-lt (suc w) (b ∷ bs) h = omega (arith, h.0, of_le-take-lt w bs h.1, pow-suc 256 w)

pub value_at-lt : (off w : ℕ) (bs : List ℕ) → AreBytes bs → value_at off w bs < 256 ^ w
unfolding value_at
value_at-lt off w bs h = of_le-take-lt w (drop off bs) (drop-AreBytes off bs h)
