-- ===== src/Daemon/Replies.antt =====
-- What single cases of `process_commands` reply.
use native.Mathlib.Nat.{pow-suc, mul_assoc}
use mathlib.Core.Path.{subst}
use p4fuse.Base.{
  ==-refl, Option, none, some, true, ℕ, zero, suc, ◌+◌, ◌*◌, ◌^◌, ◌<◌, ◌≤◌, ◌≡◌, ◌≢◌, ◌⊎◌, inl, inr,
  refl, sym, ap, ◌∙◌, arith, ℤ, pos, negsuc, false, not, ◌&&◌, List, u64, to_u64, is_zero, add32,
  sub32, ◌==◌, ≢→==, if◌then◌else◌, Bool-cases,
}
use p4fuse.Buffer.{buf_sz}
use p4fuse.Inode.{Entry, entry}
use p4fuse.Client.{CType, Session, Output, run_outputs}
use p4fuse.Client.Syncs.{SameResult, run_outputs-SameResult}
use p4fuse.Daemon.State.{Host, Command, Daemon, session, with_session}
use p4fuse.Daemon.Answer.{place_cases}
use p4fuse.Daemon.Files.{getattr_attr, release_entry}
use p4fuse.Daemon.Open.{Link, link_loop, mark_listed, sync_file, open_entry, local_path}
use p4fuse.Daemon.Dirs.{lookup_attr}

-- FUSE_LOOKUP and FUSE_GETATTR give the same attributes of an entry that is not both a directory
-- and a symbolic link.
lookup_attr-getattr_attr :
    (ent : Entry) (n : ℕ)
    → (ent.b_dir && ent.b_sym) ≡ false
    → lookup_attr ent n ≡ getattr_attr ent n
unfolding lookup_attr getattr_attr
lookup_attr-getattr_attr ent n h = ground arith

-- The release undoes the second half of the open.
release_entry-open_entry :
    (host : Host) (path : List ℕ) (ent : Entry)
    → ent.refcnt + 1 < 2 ^ 32
    → ((ent.refcnt ≡ 0) × (ent.opened_file ≡ pos 0))
      ⊎ ((0 < ent.refcnt) × (is_zero ent.opened_file ≡ false))
    → release_entry (open_entry host path ent) ≡ ent
unfolding release_entry open_entry
release_entry-open_entry host path ent h c =
    λ i. record ent { opened_file = file c i; refcnt = count i }
  where
    file_open : ℤ
    file_open =
        if is_zero ent.opened_file && not ent.b_sym
        then host.open_file (local_path path)
        else ent.opened_file

    left : ℕ
    left = sub32 (add32 ent.refcnt 1) 1

    count : left ≡ ent.refcnt
    count = omega arith

    closed : (x : ℤ) → (if not (is_zero x) then pos 0 else x) ≡ pos 0
    closed (pos zero) = refl
    closed (pos (suc n)) = rw (≢→== (suc n) 0 (omega arith)) refl
    closed (negsuc n) = refl

    file :
        ((ent.refcnt ≡ 0) × (ent.opened_file ≡ pos 0))
          ⊎ ((0 < ent.refcnt) × (is_zero ent.opened_file ≡ false))
        → (if left == 0 && not (is_zero file_open) then pos 0 else file_open) ≡ ent.opened_file
    file (inl (r, o)) = rw (count, r) (closed file_open ∙ sym o)
    file (inr (r, o)) = rw (count, ≢→== ent.refcnt 0 (omega arith), o) refl

-- The daemon behind the sync, if there is one, has the entry `node` of `d` marked as listed.
abbrev Marked : Daemon → ℕ → Option Daemon → Type 0
Marked d node none = Unit
Marked d node (some d2) = entry d2.table node ≡ record (entry d.table node) { b_list = true }

sync_file-Marked :
    (host : Host) (d : Daemon) (node : ℕ) (path : List ℕ)
    → Marked d node (sync_file host d node path)
unfolding sync_file
sync_file-Marked host d node path = elim (Bool-cases (entry d.table node).b_list) [
  | inl e ↦ rw e (λ i. record (entry d.table node) { b_list = e i })
  | inr e ↦ rw e (synced (run_outputs os start) (run_outputs-SameResult os start refl))
]
  where
    os : List Output
    os = host.run (Command.sync path)

    d1 : Daemon
    d1 = record (mark_listed d node) { user = record (d.user) { kind = CType.sync } }

    start : Session
    start = session d1

    synced :
        (r : Option Session)
        → SameResult start r
        → Marked d node (elim r [ none ↦ none | some s ↦ some (with_session d1 s) ])
    synced none h = tt
    synced (some s) h = ap (λ t. entry t node) h.0 ∙ rw (==-refl node) refl

-- FUSE_RELEASE behind FUSE_OPEN gives the entry back but for the mark that the file is listed: when
-- the sync of FUSE_OPEN ends in `d2`, then what FUSE_OPEN and FUSE_RELEASE make of the entry there is
-- the entry as it was before the sync, with `bList` set. This holds both for the first reference to
-- a file that is not open and for a further reference to one that is, as long as the counter does
-- not overflow.
pub release_entry-open_entry-sync_file :
    (host : Host) (d d2 : Daemon) (node : ℕ) (path : List ℕ)
    → sync_file host d node path ≡ some d2
    → (entry d.table node).refcnt + 1 < 2 ^ 32
    → (((entry d.table node).refcnt ≡ 0) × ((entry d.table node).opened_file ≡ pos 0))
      ⊎ ((0 < (entry d.table node).refcnt) × (is_zero (entry d.table node).opened_file ≡ false))
    → release_entry (open_entry host path (entry d2.table node))
      ≡ record (entry d.table node) { b_list = true }
release_entry-open_entry-sync_file host d d2 node path e h c =
    ap (λ ent. release_entry (open_entry host path ent)) marked
    ∙ release_entry-open_entry host path (record (entry d.table node) { b_list = true }) h c
  where
    marked : entry d2.table node ≡ record (entry d.table node) { b_list = true }
    marked = subst (Marked d node) e (sync_file-Marked host d node path)

-- The loop of FUSE_READLINK ends, whatever `readlink` returns, when `cur_sz` is inside the buffer:
-- the 64 rounds that the model gives it are never used up, since the text's chunks double and soon
-- do not fit the buffer.
pub link_loop-ends :
    (host : Host) (path : List ℕ) (d : Daemon)
    → d.cur_sz ≤ buf_sz
    → link_loop host path 64 128 d ≢ Link.no_end
unfolding link_loop
link_loop-ends host path d h = rounds 64 128 d h (omega arith) (omega arith)
  where
    rounds :
        (fuel msz : ℕ) (d : Daemon)
        → d.cur_sz ≤ buf_sz
        → msz ≤ 2 ^ 26
        → 2 ^ 26 < msz * 2 ^ fuel
        → link_loop host path fuel msz d ≢ Link.no_end
    rounds zero msz d h k l = absurd (omega arith)
    rounds (suc fuel) msz d h k l = elim (Bool-cases (to_u64 (host.read_link path msz).0 == msz)) [
      | inl e ↦ rw e (elim (place_cases d msz h (omega arith)) [
        | inl none_left ↦ rw none_left (λ b. cc)
        | inr (placed, fits) ↦ rw placed (
            rounds fuel (u64 (msz * 2)) _ fits (omega arith)
              (rw (twice fits) (omega (arith, l, doubled))))
      ])
      | inr e ↦ rw e (λ b. cc)
    ]
      where
        doubled : msz * 2 * 2 ^ fuel ≡ msz * 2 ^ suc fuel
        doubled = mul_assoc msz 2 (2 ^ fuel) ∙ ap (λ t. msz * t) (omega (arith, pow-suc 2 fuel))

        twice : d.cur_sz + msz ≤ buf_sz → u64 (msz * 2) ≡ msz * 2
        twice f = omega arith
