-- ===== src/Client/Given.antt =====
-- The names that the output of a command gives: behind the callbacks, the table holds them.
use mathlib.Core.Path.{subst}
use p4fuse.Base.{
  ℕ, ◌+◌, ◌*◌, ◌^◌, ◌<◌, ◌≡◌, ◌⊎◌, ap, ◌∙◌, inl, inr, arith, true, false, Option, some, List, [],
  ◌∷◌, length, drop, starts_with, codes, All, is_negative,
}
use p4fuse.Inode.Key.{Key}
use p4fuse.Client.{CType, ClientUser, Session, Output, info, text, binary, output_info, run_outputs}
use p4fuse.Client.Keeping.{Keeping, Keeping-le}
use p4fuse.Client.Lines.{IsLine, HasName, with_name}
use p4fuse.Client.Lists.{run_line, output_info-Keeping, run_outputs-Keeping}
use p4fuse.Client.Named.{dir_line-Keeping, file_line, next_line-Keeping}

-- A line of `p4 dirs` with the name, behind the path of `len` bytes.
abbrev pub IsDirLine : ℕ → List ℕ → Output → Type 0
IsDirLine len name (info level line) = (level ≡ b'1') × (drop (4 + len) line ≡ name)
IsDirLine len name _ = ⊥

-- A line of `p4 fstat` with the name of a file, and one with its size or its type.
abbrev pub IsNameLine : ℕ → List ℕ → Output → Type 0
IsNameLine len name (info level line) =
    (level ≡ b'1') × (starts_with line (codes "depotFile ") ≡ true) × (drop (10 + len) line ≡ name)
IsNameLine len name _ = ⊥

abbrev pub IsStatLine : Output → Type 0
IsStatLine (info level line) =
    (level ≡ b'1')
    × ((starts_with line (codes "fileSize ") ≡ true)
        ⊎ (starts_with line (codes "headType ") ≡ true))
IsStatLine _ = ⊥

-- The line that follows.
abbrev IsFirst : (Output → Type 0) → List Output → Type 0
IsFirst P [] = ⊥
IsFirst P (o ∷ os) = P o

-- Somewhere in the output there is such a line.
abbrev pub GivesDir : ℕ → List ℕ → List Output → Type 0
GivesDir len name [] = ⊥
GivesDir len name (o ∷ os) = IsDirLine len name o ⊎ GivesDir len name os

abbrev pub GivesFile : ℕ → List ℕ → List Output → Type 0
GivesFile len name [] = ⊥
GivesFile len name (o ∷ os) =
    (IsNameLine len name o × IsFirst IsStatLine os) ⊎ GivesFile len name os

-- The callbacks end, and the key is in the table.
abbrev pub Holding : ClientUser → ℕ → List ℕ → Option Session → Type 0
Holding u bound name r =
    (n : ℕ) × (s' : Session) × (r ≡ some s') × Keeping (u.id, name) n u bound s'

-- What such a line is known to have.
dir_name :
    (u : ClientUser) (level : ℕ) (line : List ℕ)
    → u.kind ≡ CType.dirs
    → level ≡ b'1'
    → IsLine u.kind u.len (info level line)
    → HasName true (4 + u.len) line
dir_name u level line k l h = rw (k, l) at h

file_name :
    (u : ClientUser) (level : ℕ) (line : List ℕ)
    → u.kind ≡ CType.files
    → level ≡ b'1'
    → starts_with line (codes "depotFile ") ≡ true
    → IsLine u.kind u.len (info level line)
    → HasName true (10 + u.len) line
file_name u level line k l first h = rw (k, l, first) at h

module _ (u : ClientUser) (going : is_negative u.err ≡ false) where
  -- A line that takes the name to the table.
  found_at :
      (bound : ℕ) (name : List ℕ) (os : List Output) (s : Session) (level : ℕ) (line : List ℕ)
      → bound + 3 + 3 * length os < 2 ^ 32
      → All (IsLine u.kind u.len) os
      → level ≡ b'1'
      → (n : ℕ) × ((s1 : Session) × (output_info b'1' line s ≡ some s1)
          × Keeping (u.id, name) n u (bound + 3) s1)
      → Holding u
          (bound + 3 * length (info level line ∷ os))
          name
          (run_outputs (info level line ∷ os) s)
  found_at bound name os s level line room h l (n, (s1, e, g)) =
      go (run_outputs-Keeping (u.id, name) n u (bound + 3) os s1 room h g)
    where
      go :
          (s' : Session) × (run_outputs os s1 ≡ some s')
            × Keeping (u.id, name) n u (bound + 3 + 3 * length os) s'
          → Holding u
              (bound + 3 * length (info level line ∷ os))
              name
              (run_outputs (info level line ∷ os) s)
      go (s', e', g') = (
        n,
        s',
        run_line os s s1 level line (ap (λ v. output_info v line s) l ∙ e) ∙ e',
        Keeping-le (u.id, name) n u (omega arith) g',
      )

  -- The line itself, or one behind it.
  behind :
      (k : Key) (m bound : ℕ) (name : List ℕ) (os : List Output) (s : Session) (level : ℕ)
      (line : List ℕ)
      → bound + 3 < 2 ^ 32
      → IsLine u.kind u.len (info level line)
      → Keeping k m u bound s
      → ((s1 : Session)
          → Keeping k m u (bound + 3) s1
          → Holding u (bound + 3 + 3 * length os) name (run_outputs os s1))
      → Holding u
          (bound + 3 * length (info level line ∷ os))
          name
          (run_outputs (info level line ∷ os) s)
  behind k m bound name os s level line room h g rest =
      go (output_info-Keeping k m u bound s level line room h g)
    where
      go :
          (s1 : Session) × (output_info level line s ≡ some s1) × Keeping k m u (bound + 3) s1
          → Holding u
              (bound + 3 * length (info level line ∷ os))
              name
              (run_outputs (info level line ∷ os) s)
      go (s1, e, g1) = last s1 e (rest s1 g1)
        where
          last :
              (s1 : Session)
              → output_info level line s ≡ some s1
              → Holding u (bound + 3 + 3 * length os) name (run_outputs os s1)
              → Holding u
                  (bound + 3 * length (info level line ∷ os))
                  name
                  (run_outputs (info level line ∷ os) s)
          last s1 e (n, s', e', g') = (
            n,
            s',
            run_line os s s1 level line e ∙ e',
            Keeping-le (u.id, name) n u (omega arith) g',
          )

  pub run_outputs-GivesDir :
      (k : Key) (m bound : ℕ) (name : List ℕ) (os : List Output) (s : Session)
      → u.kind ≡ CType.dirs
      → bound + 3 * length os < 2 ^ 32
      → All (IsLine u.kind u.len) os
      → GivesDir u.len name os
      → Keeping k m u bound s
      → Holding u (bound + 3 * length os) name (run_outputs os s)
  run_outputs-GivesDir k m bound name [] s dirs room h i g = absurd i
  run_outputs-GivesDir k m bound name (info level line ∷ os) s dirs room h (inl (l, i)) g =
      found_at bound name os s level line (omega arith) h.1 l (
        subst
          (λ d.
            (n : ℕ) × ((s1 : Session) × (output_info b'1' line s ≡ some s1)
              × Keeping (u.id, d) n u (bound + 3) s1))
          i
          (dir_line-Keeping k m u bound s g (omega arith) going line dirs
            (dir_name u level line dirs l h.0)))
  run_outputs-GivesDir k m bound name (info level line ∷ os) s dirs room h (inr i) g =
      behind k m bound name os s level line (omega arith) h.0 g
        (λ s1 g1. run_outputs-GivesDir k m (bound + 3) name os s1 dirs (omega arith) h.1 i g1)
  run_outputs-GivesDir k m bound name (text test ∷ os) s dirs room h i g = absurd h.0
  run_outputs-GivesDir k m bound name (binary test ∷ os) s dirs room h i g = absurd h.0

  -- The line with the name of a file, and the one behind it.
  file_at :
      (k : Key) (m bound : ℕ) (name : List ℕ) (o : Output) (os : List Output) (s : Session)
      (level : ℕ) (line : List ℕ)
      → u.kind ≡ CType.files
      → bound + 3 * length (info level line ∷ o ∷ os) < 2 ^ 32
      → All (IsLine u.kind u.len) (info level line ∷ o ∷ os)
      → IsNameLine u.len name (info level line)
      → IsStatLine o
      → Keeping k m u bound s
      → Holding u
          (bound + 3 * length (info level line ∷ o ∷ os))
          name
          (run_outputs (info level line ∷ o ∷ os) s)
  file_at k m bound name (text test) os s level line files room h i j g = absurd j
  file_at k m bound name (binary test) os s level line files room h i j g = absurd j
  file_at k m bound name (info level2 line2) os s level line files room h (l, first, i) (l2, j) g =
      go (
        found_at bound name os (with_name s name) level2 line2 (omega arith) h.1.1 l2
          (next_line-Keeping k m u bound s g (omega arith) going name line2 files short j))
    where
      has : HasName true (10 + u.len) line
      has = file_name u level line files l first h.0

      short : length name < 256
      short = subst (λ d. length d < 256) i has.1

      named_s : output_info level line s ≡ some (with_name s name)
      named_s =
          ap (λ v. output_info v line s) l
          ∙ file_line k m u bound s g (omega arith) going line files first has
          ∙ ap (λ d. some (with_name s d)) i

      go :
          Holding u
            (bound + 3 * length (info level2 line2 ∷ os))
            name
            (run_outputs (info level2 line2 ∷ os) (with_name s name))
          → Holding u
              (bound + 3 * length (info level line ∷ info level2 line2 ∷ os))
              name
              (run_outputs (info level line ∷ info level2 line2 ∷ os) s)
      go (n, s', e, g') = (
        n,
        s',
        run_line (info level2 line2 ∷ os) s (with_name s name) level line named_s ∙ e,
        Keeping-le (u.id, name) n u (omega arith) g',
      )

  pub run_outputs-GivesFile :
      (k : Key) (m bound : ℕ) (name : List ℕ) (os : List Output) (s : Session)
      → u.kind ≡ CType.files
      → bound + 3 * length os < 2 ^ 32
      → All (IsLine u.kind u.len) os
      → GivesFile u.len name os
      → Keeping k m u bound s
      → Holding u (bound + 3 * length os) name (run_outputs os s)
  run_outputs-GivesFile k m bound name [] s files room h i g = absurd i
  run_outputs-GivesFile k m bound name (info level line ∷ []) s files room h (inl (i, j)) g =
      absurd j
  run_outputs-GivesFile k m bound name (info level line ∷ o ∷ os) s files room h (inl (i, j)) g =
      file_at k m bound name o os s level line files room h i j g
  run_outputs-GivesFile k m bound name (info level line ∷ os) s files room h (inr i) g =
      behind k m bound name os s level line (omega arith) h.0 g
        (λ s1 g1. run_outputs-GivesFile k m (bound + 3) name os s1 files (omega arith) h.1 i g1)
  run_outputs-GivesFile k m bound name (text test ∷ os) s files room h i g = absurd h.0
  run_outputs-GivesFile k m bound name (binary test ∷ os) s files room h i g = absurd h.0
