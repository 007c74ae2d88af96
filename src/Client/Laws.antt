-- ===== src/Client/Laws.antt =====
-- What the client's callbacks leave alone: the reply buffer but for chunks of text, and the widths
-- of the table's fields.
use p4fuse.Base.{
  ℕ, ◌+◌, ◌^◌, ◌<◌, ◌≤◌, arith, Bool, true, false, Option, none, some, List, [], ◌∷◌, length, u8,
  not, ◌==◌, if◌then◌else◌, Bool-cases, inl, inr, is_negative, scan_u64, drop, ptr, All,
}
use p4fuse.Buffer.{buf_sz, alloc_chunk}
use p4fuse.Buffer.Laws.{alloc_chunk_lem}
use p4fuse.Inode.{Ptr, Table}
use p4fuse.Inode.Bounds.{
  IsSmall, IsSmallResult, set_entry-IsSmall, set_node_name-IsSmall, find_or_insert_path-IsSmall,
}
use p4fuse.Client.{
  ClientUser, Session, Output, info, text, binary, is_dirs, path_offset, overruns, Part, fill_entry,
  entered, store_size, copied, ended, enter_name, enter_file, ◌then_part◌, name_line, size_line,
  type_line, output_info, output_text, output, run_outputs,
}

-- The session behind a step: `cur_sz` has not fallen and stays in the buffer.
pub record Keeps (s s' : Session) : Type 0 where
  pub above : s.cur_sz ≤ s'.cur_sz
  pub room : s'.cur_sz ≤ buf_sz
  pub small : IsSmall s.table → IsSmall s'.table

abbrev pub KeepsResult : Session → Option Session → Type 0
KeepsResult s none = Unit
KeepsResult s (some s') = Keeps s s'

data KeepsPart (s : Session) : Part → Type 0 where
  faulted : KeepsPart s none
  kept : (going : Bool) (s' : Session) → Keeps s s' → KeepsPart s (some (going, s'))

pub Keeps-refl : (s : Session) → s.cur_sz ≤ buf_sz → Keeps s s
Keeps-refl s h = record { above = omega arith; room = h; small = λ k. k }

pub Keeps-trans : {a b c : Session} → Keeps a b → Keeps b c → Keeps a c
Keeps-trans k m = record { above = omega arith; room = m.room; small = λ h. m.small (k.small h) }

after_result :
    {s s' : Session} → Keeps s s' → (r : Option Session) → KeepsResult s' r → KeepsResult s r
after_result k none m = tt
after_result k (some t) m = Keeps-trans k m

-- Only the object and the table change.
Keeps-top :
    (s : Session) (u : ClientUser) (t : Table)
    → s.cur_sz ≤ buf_sz
    → (IsSmall s.table → IsSmall t)
    → Keeps s (record s { user = u; table = t })
Keeps-top s u t h k = record { above = omega arith; room = h; small = k }

after_part : {s s' : Session} {p : Part} → Keeps s s' → KeepsPart s' p → KeepsPart s p
after_part k faulted = faulted
after_part k (kept going t m) = kept going t (Keeps-trans k m)

then_part-KeepsPart :
    (s : Session) (p : Part) (f : Session → Part)
    → KeepsPart s p
    → ((s' : Session) → Keeps s s' → KeepsPart s' (f s'))
    → KeepsPart s (p then_part f)
then_part-KeepsPart s p f faulted go = faulted
then_part-KeepsPart s p f (kept true s' k) go = after_part k (go s' k)
then_part-KeepsPart s p f (kept false s' k) go = kept false s' k

if_KeepsPart :
    (s : Session) (b : Bool) (p q : Part)
    → KeepsPart s p
    → KeepsPart s q
    → KeepsPart s (if b then p else q)
if_KeepsPart s true p q k m = k
if_KeepsPart s false p q k m = m

fill_entry-IsSmall :
    (t : Table) (node id : ℕ) (is_dir : Bool) (name : Ptr) (nameid : ℕ)
    → IsSmall t
    → IsSmall (fill_entry t node id is_dir name nameid)
unfolding fill_entry
fill_entry-IsSmall t node id is_dir name nameid k =
    set_node_name-IsSmall _ node name nameid (set_entry-IsSmall t node _ k (omega arith))

entered-KeepsPart :
    (is_dir : Bool) (s : Session) (made : Option (ℕ × Table))
    → s.cur_sz ≤ buf_sz
    → (IsSmall s.table → IsSmallResult made)
    → KeepsPart s (entered is_dir s made)
entered-KeepsPart is_dir s none h k = faulted
entered-KeepsPart is_dir s (some (node, t)) h k = elim (Bool-cases (not (node == t.id))) [
  | inl old ↦ rw old (kept false _ (Keeps-top s s.user t h k))
  | inr new ↦ rw new (
      if_KeepsPart s (overruns s.user.nameid) none _ faulted (
        kept true _ (
          Keeps-top s _ _ h (λ small.
            fill_entry-IsSmall t node s.user.id is_dir s.user.name s.user.nameid (k small)))))
]

enter_name-KeepsPart :
    (is_dir : Bool) (s : Session) → s.cur_sz ≤ buf_sz → KeepsPart s (enter_name is_dir s)
unfolding enter_name
enter_name-KeepsPart is_dir s h =
    entered-KeepsPart is_dir s _ h
      (find_or_insert_path-IsSmall s.table s.user.id s.user.name (u8 s.user.nameid))

enter_file-KeepsPart : (s : Session) → s.cur_sz ≤ buf_sz → KeepsPart s (enter_file s)
enter_file-KeepsPart s h =
    if_KeepsPart s (s.user.node == 0) _ _ (enter_name-KeepsPart false s h)
      (kept true s (Keeps-refl s h))

name_line-KeepsPart :
    (level : ℕ) (line : List ℕ) (s : Session)
    → s.cur_sz ≤ buf_sz
    → KeepsPart s (name_line level line s)
unfolding name_line
name_line-KeepsPart level line s h =
    if_KeepsPart s _ _ _
      (if_KeepsPart s _ none _ faulted (
        after_part named (
          if_KeepsPart _ (is_dirs s.user.kind) _ _ (enter_name-KeepsPart true _ h)
            (kept true _ (Keeps-refl _ h)))))
      (kept true s (Keeps-refl s h))
  where
    named : Keeps s (record s {
      user = record (s.user) {
        name = ptr (drop (path_offset s.user.kind + s.user.len) line);
        nameid = length (drop (path_offset s.user.kind + s.user.len) line);
        node = 0;
      };
    })
    named = Keeps-top s _ s.table h (λ k. k)

size_line-KeepsPart :
    (level : ℕ) (line : List ℕ) (s : Session)
    → s.cur_sz ≤ buf_sz
    → KeepsPart s (size_line level line s)
unfolding size_line
size_line-KeepsPart level line s h =
    if_KeepsPart s _ _ _
      (then_part-KeepsPart s (enter_file s) _ (enter_file-KeepsPart s h)
        (λ s' k. kept true _ (store (scan_u64 (drop 9 line)) s' k.room)))
      (kept true s (Keeps-refl s h))
  where
    store : (n : Option ℕ) (s' : Session) → s'.cur_sz ≤ buf_sz → Keeps s' (store_size s' n)
    store none s' r = Keeps-refl s' r
    store (some n) s' r =
        Keeps-top s' s'.user _ r (λ k. set_entry-IsSmall s'.table s'.user.node _ k (k s'.user.node))

type_line-KeepsPart :
    (level : ℕ) (line : List ℕ) (s : Session)
    → s.cur_sz ≤ buf_sz
    → KeepsPart s (type_line level line s)
unfolding type_line
type_line-KeepsPart level line s h =
    if_KeepsPart s _ _ _
      (then_part-KeepsPart s (enter_file s) _ (enter_file-KeepsPart s h) (λ s' k. kept true _ (
        Keeps-top s' s'.user _ k.room
          (λ m. set_entry-IsSmall s'.table s'.user.node _ m (m s'.user.node)))))
      (kept true s (Keeps-refl s h))

ended-KeepsResult : (s : Session) (p : Part) → KeepsPart s p → KeepsResult s (ended p)
ended-KeepsResult s p faulted = tt
ended-KeepsResult s p (kept going s' k) = k

output_info-KeepsResult :
    (level : ℕ) (line : List ℕ) (s : Session)
    → s.cur_sz ≤ buf_sz
    → KeepsResult s (output_info level line s)
unfolding output_info
output_info-KeepsResult level line s h = elim (Bool-cases (is_negative s.user.err)) [
  | inl off ↦ rw off (Keeps-refl s h)
  | inr on ↦ rw on (
      ended-KeepsResult s _ (
        then_part-KeepsPart s _ _
          (then_part-KeepsPart s _ _ (name_line-KeepsPart level line s h)
            (λ s' k. size_line-KeepsPart level line s' k.room))
          (λ s' k. type_line-KeepsPart level line s' k.room)))
]

-- A chunk of text is at most as long as an `int` says.
abbrev pub IsOutput : Output → Type 0
IsOutput (info level line) = Unit
IsOutput (text test) = length test < 2 ^ 31
IsOutput (binary test) = length test < 2 ^ 31

copied-KeepsResult :
    (test : List ℕ) (s : Session)
    → s.cur_sz ≤ buf_sz
    → length test < 2 ^ 31
    → KeepsResult s (copied s (alloc_chunk s.cur_sz (length test) 1))
copied-KeepsResult test s h k =
    elim (alloc_chunk_lem 0 (omega arith) s.cur_sz (length test) h (omega arith)) [
      | inl fit ↦ rw fit.returns (record {
        above = omega (arith, fit.top, fit.above);
        room = omega (arith, fit.top, fit.inside);
        small = λ m. m;
      })
      | inr refused ↦ rw refused.null tt
    ]

output_text-KeepsResult :
    (test : List ℕ) (s : Session)
    → s.cur_sz ≤ buf_sz
    → length test < 2 ^ 31
    → KeepsResult s (output_text test s)
unfolding output_text
output_text-KeepsResult test s h k = elim (Bool-cases (length test == 0)) [
  | inl e ↦ rw e (Keeps-refl s h)
  | inr e ↦ rw e (copied-KeepsResult test s h k)
]

output-KeepsResult :
    (o : Output) (s : Session) → s.cur_sz ≤ buf_sz → IsOutput o → KeepsResult s (output o s)
unfolding output
output-KeepsResult (info level line) s h k = output_info-KeepsResult level line s h
output-KeepsResult (text test) s h k = output_text-KeepsResult test s h k
output-KeepsResult (binary test) s h k = output_text-KeepsResult test s h k

-- The output of a command, with texts shorter than 2 ^ 31, moves `cur_sz` up at most, inside the
-- buffer, and stores no name length that does not fit its 8 bits, unless it ends in a fault.
pub run_outputs-KeepsResult :
    (os : List Output) (s : Session)
    → s.cur_sz ≤ buf_sz
    → All IsOutput os
    → KeepsResult s (run_outputs os s)
unfolding run_outputs
run_outputs-KeepsResult [] s h k = Keeps-refl s h
run_outputs-KeepsResult (o ∷ os) s h k =
    go (output o s) (output-KeepsResult o s h k.0) (λ s' m. run_outputs-KeepsResult os s' m k.1)
  where
    go :
        (r : Option Session)
        → KeepsResult s r
        → ((s' : Session) → s'.cur_sz ≤ buf_sz → KeepsResult s' (run_outputs os s'))
        → KeepsResult s (elim r [ none ↦ none | some s' ↦ run_outputs os s' ])
    go none m more = tt
    go (some s') m more = after_result m (run_outputs os s') (more s' m.room)
