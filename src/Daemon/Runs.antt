-- ===== src/Daemon/Runs.antt =====
-- The cases of `process_commands` that run commands at the server: each answers its request.
use p4fuse.Base.{
  ℕ, zero, suc, ◌+◌, ◌-◌, ◌*◌, ◌^◌, ◌≤◌, inl, inr, refl, arith, Option, none, some, List, length,
  take, u64, to_u64, ◌==◌, Bool-cases, All,
}
use p4fuse.Buffer.{buf_sz}
use p4fuse.Wire.Request.{InHeader}
use p4fuse.Inode.{entry}
use p4fuse.Inode.Path.{build_path}
use p4fuse.Inode.Bounds.{set_entry-IsSmall}
use p4fuse.Client.{CType, ClientUser, Session, run_outputs}
use p4fuse.Client.Laws.{KeepsResult, IsOutput, run_outputs-KeepsResult}
use p4fuse.Daemon.State.{
  Host, Command, Daemon, Outcome, fault, diverged, out_header_size, session, with_session,
}
use p4fuse.Daemon.Answer.{
  Grows, Grows-refl, Grows-trans, Grows-table, Grows-top, Answers, place_cases, reply-Answers,
  with_chunk-Answers, prologue-Answers,
}
use p4fuse.Daemon.Open.{
  mark_listed, sync_file, Link, link_loop, link_reply, readlink_reply, do_readlink, open_entry,
  do_open,
}
use p4fuse.Daemon.Dirs.{run_one, with_kind}

-- The client library hands out chunks of text that are at most as long as an `int` says.
abbrev pub IsHost : Host → Type 0
IsHost host = (c : Command) → All IsOutput (host.run c)

-- What running commands may do: end in a fault, or grow.
pub data GrowsResult (d : Daemon) : Option Daemon → Type 0 where
  faulted : GrowsResult d none
  grown : (d' : Daemon) → Grows d d' → GrowsResult d (some d')

with_session-GrowsResult :
    (d : Daemon) (r : Option Session)
    → KeepsResult (session d) r
    → GrowsResult d (elim r [ none ↦ none | some s ↦ some (with_session d s) ])
with_session-GrowsResult d none k = faulted
with_session-GrowsResult d (some s) k = grown (with_session d s) (record {
  cur = refl;
  head = refl;
  read_buf = refl;
  flight = refl;
  num_rqs = refl;
  above = k.above;
  room = k.room;
  small = k.small;
})

pub run_one-GrowsResult :
    (host : Host) (c : Command) (d : Daemon)
    → IsHost host
    → d.cur_sz ≤ buf_sz
    → GrowsResult d (run_one host c d)
run_one-GrowsResult host c d k h =
    with_session-GrowsResult d (run_outputs (host.run c) (session d))
      (run_outputs-KeepsResult (host.run c) (session d) h (k c))

-- The object `p4u` is no part of what grows.
pub after_user :
    {d : Daemon} {u : ClientUser} {r : Option Daemon}
    → GrowsResult (record d { user = u }) r
    → GrowsResult d r
after_user faulted = faulted
after_user (grown d' g) = grown d' (record {
  cur = g.cur;
  head = g.head;
  read_buf = g.read_buf;
  flight = g.flight;
  num_rqs = g.num_rqs;
  above = g.above;
  room = g.room;
  small = g.small;
})

pub after_grown : {a b : Daemon} {r : Option Daemon} → Grows a b → GrowsResult b r → GrowsResult a r
after_grown g faulted = faulted
after_grown g (grown d' h) = grown d' (Grows-trans g h)

pub mark_listed-Grows : (d : Daemon) (node : ℕ) → d.cur_sz ≤ buf_sz → Grows d (mark_listed d node)
mark_listed-Grows d node h =
    Grows-table d _ d.closed h (λ s. set_entry-IsSmall d.table node _ s (s node))

sync_file-GrowsResult :
    (host : Host) (d : Daemon) (node : ℕ) (path : List ℕ)
    → IsHost host
    → d.cur_sz ≤ buf_sz
    → GrowsResult d (sync_file host d node path)
unfolding sync_file
sync_file-GrowsResult host d node path k h = elim (Bool-cases (entry d.table node).b_list) [
  | inl e ↦ rw e (grown d (Grows-refl h))
  | inr e ↦ rw e (
      after_grown (mark_listed-Grows d node h) (
        after_user (
          run_one-GrowsResult host (Command.sync path) (with_kind (mark_listed d node) CType.sync) k
            h)))
]

-- A case that goes on from the result.
pub Answers-result :
    (d d1 : Daemon) (hdr : InHeader) (r : Option Daemon) (f : Daemon → Outcome)
    → GrowsResult d1 r
    → ((d' : Daemon) → Grows d1 d' → Answers d hdr (f d'))
    → Answers d hdr (elim r [ none ↦ fault | some d' ↦ f d' ])
Answers-result d d1 hdr none f g go = tt
Answers-result d d1 hdr (some d2) f (grown d3 g) go = go d3 g

-- A case that goes on from a path.
pub Answers-path :
    (d : Daemon) (hdr : InHeader) (p : Option (List ℕ)) (f : List ℕ → Outcome)
    → ((path : List ℕ) → Answers d hdr (f path))
    → Answers d hdr (elim p [ none ↦ diverged | some path ↦ f path ])
Answers-path d hdr none f go = tt
Answers-path d hdr (some path) f go = go path

module _ (host : Host) (k : IsHost host) (d : Daemon) (hdr : InHeader)
    (room : d.cur_sz ≤ buf_sz) where
  pub do_open-Answers : Answers d hdr (do_open host d hdr)
  unfolding do_open open_entry
  do_open-Answers = prologue-Answers d hdr 16 _ room (omega arith) (λ d1 g e.
      Answers-path d hdr (build_path d1.table hdr.nodeid) _ (λ path.
        Answers-result d d1 hdr (sync_file host d1 hdr.nodeid (take (length path - 1) path)) _
          (sync_file-GrowsResult host d1 hdr.nodeid _ k g.room)
          (λ d2 g2.
            reply-Answers d hdr _ d.cur_sz _ _ _
              (Grows-trans (Grows-trans g g2)
                (Grows-table d2 _ d2.closed g2.room (λ s. set_entry-IsSmall d2.table _ _ s (s _))))
              (omega arith) (omega (arith, e, g2.above)))))

  -- The header's chunk, if there is one, was free before and is below the top.
  abbrev HasHeader : Option ℕ → Daemon → Type 0
  HasHeader none b = Unit
  HasHeader (some at) b = (d.cur_sz ≤ at) × (at + out_header_size ≤ b.cur_sz)

  later_header :
      (outh : Option ℕ) (b c : Daemon) → b.cur_sz ≤ c.cur_sz → HasHeader outh b → HasHeader outh c
  later_header none b c g h = tt
  later_header (some at) b c g h = (h.0, omega (arith, h.1, g))

  -- The loop on the link's text takes chunks only.
  link_reply-Answers :
      (path : List ℕ) (outh : Option ℕ) (buf fuel msz : ℕ) (b : Daemon)
      → Grows d b
      → HasHeader outh b
      → msz ≤ 2 ^ 62
      → Answers d hdr (link_reply hdr outh buf (link_loop host path fuel msz b))
  unfolding link_loop link_reply
  link_reply-Answers path outh buf zero msz b g h m = tt
  link_reply-Answers path outh buf (suc fuel) msz b g h m =
      elim (Bool-cases (to_u64 (host.read_link path msz).0 == msz)) [
        | inl e ↦ rw e (elim (place_cases b msz g.room m) [
          | inl none_left ↦ rw none_left g
          | inr (placed, fits) ↦ rw placed (
              let up = Grows-top b (b.cur_sz + msz) (omega arith) fits in
              link_reply-Answers path outh buf fuel (u64 (msz * 2))
                (record b { cur_sz = b.cur_sz + msz }) (Grows-trans g up)
                (later_header outh b _ up.above h) (omega arith))
        ])
        | inr e ↦ rw e (end outh h)
      ]
    where
      end :
          (outh : Option ℕ)
          → HasHeader outh b
          → Answers d hdr (
              link_reply hdr outh buf
                (Link.read (host.read_link path msz).0 (host.read_link path msz).1 b))
      end none h = tt
      end (some at) h = reply-Answers d hdr b at _ _ _ g h.0 h.1

  -- Behind the header's chunk.
  readlink_rest :
      (outh : Option ℕ) (d1 : Daemon)
      → Grows d d1
      → HasHeader outh d1
      → Answers d hdr (readlink_reply host hdr outh d1)
  unfolding readlink_reply
  readlink_rest outh d1 g h = Answers-path d hdr (build_path d1.table hdr.nodeid) _ (λ path.
      Answers-result d d1 hdr (sync_file host d1 hdr.nodeid (take (length path - 1) path)) _
        (sync_file-GrowsResult host d1 hdr.nodeid _ k g.room)
        (λ d2 g2. with_chunk-Answers d hdr d2 128 _ (Grows-trans g g2) (omega arith) (λ d3 g3 e3.
          link_reply-Answers _ outh d2.cur_sz 64 128 d3 g3
            (later_header outh d1 d3 (omega (arith, g2.above, e3)) h) (omega arith))))

  pub do_readlink-Answers : Answers d hdr (do_readlink host d hdr)
  unfolding do_readlink
  do_readlink-Answers = elim (place_cases d out_header_size room (omega arith)) [
    | inl e ↦ rw (e, Answers) (readlink_rest none d (Grows-refl room) tt)
    | inr (e, fits) ↦
        rw (e, Answers)
          (readlink_rest (some d.cur_sz) _ (Grows-top d (d.cur_sz + 16) (omega arith) fits)
            (omega arith, omega arith))
  ]
