-- ===== src/Base/Text.antt =====
-- C strings as lists of bytes, without their terminator.
use Prim.Native.Nat.{ℕ, zero, suc, ◌+◌, ◌-◌, ◌*◌, ◌^◌}
use Prim.Native.Char.{code}
use Prim.Native.String.{String}
use mathlib.Core.Bool.{Bool, true, false, ◌&&◌, ◌||◌}
use mathlib.Core.Option.{Option, none, some}
use mathlib.Core.List.{List, [], ◌∷◌}
use p4fuse.Base.Tests.{◌==◌, leb, if◌then◌else◌}

-- The bytes of an ASCII literal.
abbrev pub codes : String → List ℕ
codes String.[] = []
codes (String.◌∷◌ c s) = code c ∷ codes s

-- `strncmp(s, prefix, strlen(prefix)) == 0`
abbrev pub starts_with : List ℕ → List ℕ → Bool
starts_with s [] = true
starts_with [] (c ∷ cs) = false
starts_with (b ∷ s) (c ∷ cs) = b == c && starts_with s cs

-- A string as the byte at each index.
abbrev pub ptr : List ℕ → ℕ → ℕ
ptr [] i = 0
ptr (b ∷ s) zero = b
ptr (b ∷ s) (suc i) = ptr s i

abbrev pub is_space : ℕ → Bool
is_space b = b == 32 || leb 9 b && leb b 13

abbrev pub is_digit : ℕ → Bool
is_digit b = leb b'0' b && leb b b'9'

-- The value of the digits at the front; `none` if there is none.
abbrev pub scan_digits : ℕ → List ℕ → ℕ
scan_digits acc [] = acc
scan_digits acc (b ∷ s) =
    let rest = scan_digits (acc * 10 + (b - b'0')) s in if is_digit b then rest else acc

-- What `%llu` stores for digits of value `v`: the largest u64 if they are too many.
abbrev pub stored_u64 : Bool → ℕ → ℕ
stored_u64 negative v =
    if leb (2 ^ 64) v
    then 2 ^ 64 - 1
    else if negative
    then (if v == 0 then 0 else 2 ^ 64 - v)
    else v

abbrev pub scan_unsigned : Bool → List ℕ → Option ℕ
scan_unsigned negative [] = none
scan_unsigned negative (b ∷ s) =
    if is_digit b then some (stored_u64 negative (scan_digits 0 (b ∷ s))) else none

-- `%llu` of `sscanf`: spaces, a sign, digits.
abbrev pub scan_u64 : List ℕ → Option ℕ
scan_u64 [] = none
scan_u64 (b ∷ s) =
    let rest = scan_u64 s in
    if is_space b
    then rest
    else if b == b'-'
    then scan_unsigned true s
    else if b == b'+'
    then scan_unsigned false s
    else scan_unsigned false (b ∷ s)
