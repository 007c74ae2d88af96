-- ===== src/Daemon/Cases.antt =====
-- Each case of `process_commands` answers its request.
use p4fuse.Base.{
  ℕ, zero, suc, ◌+◌, ◌-◌, ◌<◌, ◌≤◌, ◌++◌, inl, inr, arith, Bool, true, false, List, [], ◌∷◌,
  bit_and, sub64, ◌==◌, if◌then◌else◌, min,
}
use p4fuse.Buffer.{buf_sz}
use p4fuse.Ring.{Bytes, load, copyin_wrap}
use p4fuse.Wire.Layout.{AreBytes, value_at-lt}
use p4fuse.Wire.Request.{InHeader, decode_read_in}
use p4fuse.Inode.Bounds.{set_entry-IsSmall}
use p4fuse.Daemon.State.{Host, Daemon}
use p4fuse.Daemon.Answer.{
  Grows-refl, Grows-trans, Grows-table, Grows-top, Grows-back, alloc_cases, Answers, reply-Answers,
  with_chunk-Answers, prologue-Answers,
}
use p4fuse.Daemon.Init.{do_init}
use p4fuse.Daemon.Files.{
  do_getattr, do_nosys, do_lseek, do_flush, do_access, do_statfs, do_release, do_read,
  release_entry, statfs_reply,
}

load-AreBytes : (buf : Bytes) (at n : ℕ) → ((i : ℕ) → buf i < 256) → AreBytes (load buf at n)
load-AreBytes buf at zero b = tt
load-AreBytes buf at (suc n) b = (b at, load-AreBytes buf (at + 1) n b)

append-AreBytes : (xs ys : List ℕ) → AreBytes xs → AreBytes ys → AreBytes (xs ++ ys)
append-AreBytes [] ys h k = k
append-AreBytes (x ∷ xs) ys h k = (h.0, append-AreBytes xs ys h.1 k)

copyin_wrap-AreBytes :
    (buf : Bytes) (sz at : ℕ) → ((i : ℕ) → buf i < 256) → AreBytes (copyin_wrap buf sz at)
unfolding copyin_wrap
copyin_wrap-AreBytes buf sz at b =
    append-AreBytes (load buf begin first) (if first == sz then [] else load buf 0 (sz - first))
      (load-AreBytes buf begin first b) (rest (first == sz) (sz - first))
  where
    begin : ℕ
    begin = bit_and at (buf_sz - 1)

    first : ℕ
    first = min sz (buf_sz - begin)

    rest : (c : Bool) (n : ℕ) → AreBytes (if c then [] else load buf 0 n)
    rest true n = tt
    rest false n = load-AreBytes buf 0 n b

module _ (d : Daemon) (hdr : InHeader) (room : d.cur_sz ≤ buf_sz) where
  pub do_init-Answers : (host : Host) → Answers d hdr (do_init host d hdr)
  unfolding do_init
  do_init-Answers host =
      prologue-Answers d hdr 64 _ room (omega arith)
        (λ d' g e. reply-Answers d hdr d' d.cur_sz _ _ _ g (omega arith) (omega (arith, e)))

  pub do_getattr-Answers : Answers d hdr (do_getattr d hdr)
  unfolding do_getattr
  do_getattr-Answers =
      prologue-Answers d hdr 104 _ room (omega arith)
        (λ d' g e. reply-Answers d hdr d' d.cur_sz _ _ _ g (omega arith) (omega (arith, e)))

  pub do_nosys-Answers : Answers d hdr (do_nosys d hdr)
  unfolding do_nosys
  do_nosys-Answers =
      with_chunk-Answers d hdr d 16 _ (Grows-refl room) (omega arith)
        (λ d' g e. reply-Answers d hdr d' d.cur_sz _ _ _ g (omega arith) (omega (arith, e)))

  pub do_lseek-Answers : (host : Host) → Answers d hdr (do_lseek host d hdr)
  unfolding do_lseek
  do_lseek-Answers host =
      prologue-Answers d hdr 8 _ room (omega arith)
        (λ d' g e. reply-Answers d hdr d' d.cur_sz _ _ _ g (omega arith) (omega (arith, e)))

  pub do_flush-Answers : (host : Host) → Answers d hdr (do_flush host d hdr)
  unfolding do_flush
  do_flush-Answers host =
      prologue-Answers d hdr 1 _ room (omega arith)
        (λ d' g e. reply-Answers d hdr d' d.cur_sz _ _ _ g (omega arith) (omega (arith, e)))

  pub do_access-Answers : Answers d hdr (do_access d hdr)
  unfolding do_access
  do_access-Answers =
      prologue-Answers d hdr 1 _ room (omega arith)
        (λ d' g e. reply-Answers d hdr d' d.cur_sz _ _ _ g (omega arith) (omega (arith, e)))

  pub do_release-Answers : Answers d hdr (do_release d hdr)
  unfolding do_release release_entry
  do_release-Answers = prologue-Answers d hdr 1 _ room (omega arith) (λ d' g e.
      reply-Answers d hdr _ d.cur_sz _ _ _
        (Grows-trans g (Grows-table d' _ _ g.room (λ s. set_entry-IsSmall d'.table _ _ s (s _))))
        (omega arith) (omega (arith, e)))

  -- The chunk of the second allocation stands behind the header's.
  pub do_statfs-Answers : Answers d hdr (do_statfs d hdr)
  unfolding do_statfs statfs_reply
  do_statfs-Answers = elim (alloc_cases d.cur_sz 16 room (omega arith)) [
    | inl none_left ↦ elim (alloc_cases d.cur_sz 80 room (omega arith)) [
      | inl e ↦ rw (none_left, e) (Grows-refl room)
      | inr (e, fits) ↦ rw (none_left, e) (Grows-top d _ (omega arith) fits)
    ]
    | inr (placed, inside) ↦ elim (alloc_cases (d.cur_sz + 16) 80 inside (omega arith)) [
      | inl e ↦ rw (placed, e) tt
      | inr (e, fits) ↦
          rw (placed, e)
            (reply-Answers d hdr _ d.cur_sz _ _ _ (Grows-top d _ (omega arith) fits) (omega arith)
              (omega arith))
    ]
  ]

  pub do_read-Answers :
      (host : Host) → ((i : ℕ) → d.read_buf i < 256) → Answers d hdr (do_read host d hdr)
  unfolding do_read decode_read_in
  do_read-Answers host b = prologue-Answers d hdr 1 _ room (omega arith) (λ d' g e.
      with_chunk-Answers d hdr (record d' { cur_sz = sub64 d'.cur_sz 1 }) _ _
        (Grows-back 1 g (omega (arith, e)))
        (omega (arith, value_at-lt 16 4 _ (copyin_wrap-AreBytes d.read_buf 40 _ b)))
        (λ d'' g' e'.
          reply-Answers d hdr d'' d.cur_sz _ _ _ g' (omega arith) (omega (arith, e, e', g.room))))
