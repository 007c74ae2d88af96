-- ===== src/Client/Lists.antt =====
-- The listing of a directory keeps the inode store.
use mathlib.Core.Path.{subst}
use p4fuse.Base.{
  ℕ, ◌+◌, ◌*◌, ◌^◌, ◌<◌, ◌≡◌, refl, ap, ◌∙◌, inl, inr, arith, Option, some, none, List, [], ◌∷◌,
  length, Bool-cases, All, is_negative, false,
}
use p4fuse.Inode.Key.{Key}
use p4fuse.Inode.Tree.{Tree}
use p4fuse.Inode.Invariant.{IsStore}
use p4fuse.Client.{
  ClientUser, Session, Output, info, text, binary, ◌then_part◌, name_line, size_line, type_line,
  ended, output_info, output, run_outputs,
}
use p4fuse.Client.View.{view}
use p4fuse.Client.Keeping.{Keeping, KeepingPart, Keeping-le, then_part-KeepingPart}
use p4fuse.Client.Lines.{
  IsLine, name_line-KeepingPart, size_line-KeepingPart, type_line-KeepingPart,
}

-- The parts of a line, each with one index more.
module _ (k : Key) (m : ℕ) (u : ClientUser) (bound : ℕ) (s : Session) (level : ℕ) (line : List ℕ)
    (room : bound + 3 < 2 ^ 32) where
  pub with_size :
      KeepingPart k m u (bound + 1) (name_line level line s)
      → KeepingPart k m u (bound + 2) (name_line level line s then_part size_line level line)
  with_size p =
      then_part-KeepingPart k m u (name_line level line s) (size_line level line) (omega arith) p
        (λ s1 g1.
          subst (λ b. KeepingPart k m u b (size_line level line s1)) (omega arith)
            (size_line-KeepingPart k m u (bound + 1) (omega arith) s1 level line g1))

  pub with_type :
      KeepingPart k m u (bound + 2) (name_line level line s then_part size_line level line)
      → KeepingPart k m u
          (bound + 3)
          (name_line level line s then_part size_line level line then_part type_line level line)
  with_type p = then_part-KeepingPart k m u _ (type_line level line) (omega arith) p (λ s2 g2.
      subst (λ b. KeepingPart k m u b (type_line level line s2)) (omega arith)
        (type_line-KeepingPart k m u (bound + 2) (omega arith) s2 level line g2))

  pub whole_line :
      is_negative s.user.err ≡ false
      → KeepingPart k m u
          (bound + 3)
          (name_line level line s then_part size_line level line then_part type_line level line)
      → (s' : Session) × (output_info level line s ≡ some s') × Keeping k m u (bound + 3) s'
  unfolding output_info
  whole_line e (going, s', q, g) = (s', rw e (ap ended q), g)

-- One line takes at most three indices.
pub output_info-Keeping :
    (k : Key) (m : ℕ) (u : ClientUser) (bound : ℕ) (s : Session) (level : ℕ) (line : List ℕ)
    → bound + 3 < 2 ^ 32
    → IsLine u.kind u.len (info level line)
    → Keeping k m u bound s
    → (s' : Session) × (output_info level line s ≡ some s') × Keeping k m u (bound + 3) s'
unfolding output_info
output_info-Keeping k m u bound s level line room h g = elim (Bool-cases (is_negative s.user.err)) [
  | inl e ↦ (s, rw e refl, Keeping-le k m u (omega arith) g)
  | inr e ↦ whole_line k m u bound s level line room e (
      with_type k m u bound s level line room (
        with_size k m u bound s level line room
          (name_line-KeepingPart k m u bound (omega arith) s level line h g)))
]

pub run_line :
    (os : List Output) (s s1 : Session) (level : ℕ) (line : List ℕ)
    → output_info level line s ≡ some s1
    → run_outputs (info level line ∷ os) s ≡ run_outputs os s1
unfolding run_outputs output
run_line os s s1 level line e = ap next e
  where
    next : Option Session → Option Session
    next r = elim r [ none ↦ none | some s' ↦ run_outputs os s' ]

pub run_outputs-Keeping :
    (k : Key) (m : ℕ) (u : ClientUser) (bound : ℕ) (os : List Output) (s : Session)
    → bound + 3 * length os < 2 ^ 32
    → All (IsLine u.kind u.len) os
    → Keeping k m u bound s
    → (s' : Session) × (run_outputs os s ≡ some s') × Keeping k m u (bound + 3 * length os) s'
unfolding run_outputs
run_outputs-Keeping k m u bound [] s room h g = (s, refl, Keeping-le k m u (omega arith) g)
run_outputs-Keeping k m u bound (info level line ∷ os) s room h g =
    go (output_info-Keeping k m u bound s level line (omega arith) h.0 g)
      (λ s' g'. run_outputs-Keeping k m u (bound + 3) os s' (omega arith) h.1 g')
  where
    go :
        (s1 : Session) × (output_info level line s ≡ some s1) × Keeping k m u (bound + 3) s1
        → ((s1 : Session)
            → Keeping k m u (bound + 3) s1
            → (s' : Session) × (run_outputs os s1 ≡ some s')
              × Keeping k m u (bound + 3 + 3 * length os) s')
        → (s' : Session) × (run_outputs (info level line ∷ os) s ≡ some s')
          × Keeping k m u (bound + 3 * length (info level line ∷ os)) s'
    go (s1, e, g1) rest = (
      (rest s1 g1).0,
      run_line os s s1 level line e ∙ (rest s1 g1).1,
      Keeping-le k m u (omega arith) (rest s1 g1).2,
    )
run_outputs-Keeping k m u bound (text test ∷ os) s room h g = absurd h.0
run_outputs-Keeping k m u bound (binary test ∷ os) s room h g = absurd h.0

-- A listing keeps the inode store: on a table that is an inode store and holds a key under the index
-- `m`, for a directory below 2 ^ 31, outputs that are lines, of which each that gives a name
-- reaches the end of the directory's path and has at most 255 bytes behind it, and three free indices
-- for each line, the callbacks run to their end without a fault, the table is an
-- inode store again, and it still holds the key under `m`.
pub run_outputs-IsStore :
    (os : List Output) (s : Session) (tree : Tree) (k : Key) (m : ℕ)
    → IsStore s.table tree
    → view s.table tree k ≡ some m
    → s.user.id < 2 ^ 31
    → s.user.nameid < 256
    → All (IsLine s.user.kind s.user.len) os
    → s.table.id + 3 * length os < 2 ^ 32
    → (s' : Session) × (tree' : Tree) × (run_outputs os s ≡ some s')
      × IsStore s'.table tree'
      × (view s'.table tree' k ≡ some m)
run_outputs-IsStore os s tree k m v held hp small lines room = go (
    run_outputs-Keeping k m s.user s.table.id os s room lines (record {
      tree = tree;
      store = v;
      held = held;
      parent = hp;
      name = small;
      line = refl;
      dir = refl;
      kind = refl;
      err = refl;
      ids = omega arith;
    }))
  where
    go :
        (s' : Session) × (run_outputs os s ≡ some s')
          × Keeping k m s.user (s.table.id + 3 * length os) s'
        → (s' : Session) × (tree' : Tree) × (run_outputs os s ≡ some s')
          × IsStore s'.table tree'
          × (view s'.table tree' k ≡ some m)
    go (s', e, g) = (s', g.tree, e, g.store, g.held)
