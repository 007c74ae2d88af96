-- ===== src/Client/Syncs.antt =====
-- The callbacks while a file is synced: they leave the table alone.
use p4fuse.Base.{
  ℕ, ◌≡◌, refl, ◌∙◌, inl, inr, Option, some, none, List, [], ◌∷◌, length, ◌==◌, Bool-cases,
  is_negative,
}
use p4fuse.Buffer.{alloc_chunk}
use p4fuse.Client.{
  CType, Session, Output, info, text, binary, copied, name_line, size_line, type_line, output_info,
  output_text, output, run_outputs,
}

-- The session has the same object and the same table, if there is one.
abbrev pub SameResult : Session → Option Session → Type 0
SameResult s none = Unit
SameResult s (some s') = (s'.table ≡ s.table) × (s'.user ≡ s.user)

output_info-SameResult :
    (level : ℕ) (line : List ℕ) (s : Session)
    → s.user.kind ≡ CType.sync
    → SameResult s (output_info level line s)
unfolding output_info name_line size_line type_line
output_info-SameResult level line s k = elim (Bool-cases (is_negative s.user.err)) [
  | inl e ↦ rw e (refl, refl)
  | inr e ↦ rw (e, k) (refl, refl)
]

output_text-SameResult : (test : List ℕ) (s : Session) → SameResult s (output_text test s)
unfolding output_text
output_text-SameResult test s = elim (Bool-cases (length test == 0)) [
  | inl e ↦ rw e (refl, refl)
  | inr e ↦ rw e (chosen (alloc_chunk s.cur_sz (length test) 1).res)
]
  where
    chosen :
        (r : Option ℕ)
        → SameResult s
            (copied s (record { res = r; cur_sz = (alloc_chunk s.cur_sz (length test) 1).cur_sz }))
    chosen none = tt
    chosen (some at) = (refl, refl)

output-SameResult :
    (o : Output) (s : Session) → s.user.kind ≡ CType.sync → SameResult s (output o s)
unfolding output
output-SameResult (info level line) s k = output_info-SameResult level line s k
output-SameResult (text test) s k = output_text-SameResult test s
output-SameResult (binary test) s k = output_text-SameResult test s

pub run_outputs-SameResult :
    (os : List Output) (s : Session) → s.user.kind ≡ CType.sync → SameResult s (run_outputs os s)
unfolding run_outputs
run_outputs-SameResult [] s k = (refl, refl)
run_outputs-SameResult (o ∷ os) s k =
    go (output o s) (output-SameResult o s k) (λ s1. run_outputs-SameResult os s1)
  where
    behind :
        (s1 : Session) (r : Option Session)
        → (s1.table ≡ s.table) × (s1.user ≡ s.user)
        → SameResult s1 r
        → SameResult s r
    behind s1 none h e = tt
    behind s1 (some s2) h e = (e.0 ∙ h.0, e.1 ∙ h.1)

    go :
        (r : Option Session)
        → SameResult s r
        → ((s1 : Session) → s1.user.kind ≡ CType.sync → SameResult s1 (run_outputs os s1))
        → SameResult s (elim r [ none ↦ none | some s' ↦ run_outputs os s' ])
    go none h more = tt
    go (some s1) h more = behind s1 (run_outputs os s1) h (more s1 (rw h.1 k))
