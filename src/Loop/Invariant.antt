-- ===== src/Loop/Invariant.antt =====
-- The event loop keeps the daemon's invariant in every order of completions.
use mathlib.Core.Path.{subst}
use p4fuse.Base.{
  ℕ, zero, suc, ◌+◌, ◌-◌, ◌<◌, ◌≡◌, ◌++◌, inl, inr, sym, ◌∙◌, arith, ℤ, pos, ◌&&◌, List, [], ◌∷◌,
  length, length-append, drop, min, ltb, leb, ◌==◌, if◌then◌else◌, Bool-cases, All, ptr, ==→≡,
  sub64, add64, is_negative, to_u64,
}
use p4fuse.Ring.{Bytes, Iovec}
use p4fuse.Daemon.{Host, Message, Outcome}
use p4fuse.Daemon.Runs.{IsHost}
use p4fuse.Daemon.Invariant.{
  Apart, IsDaemon, Apart-≤, Apart-length, IsOutcome, process_commands-IsOutcome,
}
use p4fuse.Loop.{
  Loop, scatter, Turn, goes_on, ends, after_commands, read_done, write_done, Step, on_read,
  on_write, Reach, here, later,
}

-- Without one of the writes.
Apart-without :
    (top : ℕ) (before : List Message) (m : Message) (after : List Message)
    → Apart top (before ++ (m ∷ after))
    → Apart top (before ++ after)
Apart-without top [] m after h = Apart-≤ after (omega (arith, h.0)) h.1
Apart-without top (b ∷ before) m after h = (h.0, Apart-without b.at before m after h.1)

-- In a daemon of the invariant, the completion of any write that is in flight keeps it. So when the
-- completion empties the reply buffer, no write is left that would read from it.
write_done-IsDaemon :
    (before : List Message) (m : Message) (after : List Message) (l : Loop)
    → l.daemon.flight ≡ before ++ (m ∷ after)
    → IsDaemon l.daemon
    → IsDaemon (write_done (before ++ after) l).daemon
unfolding write_done
write_done-IsDaemon before m after l e v = elim (Bool-cases (sub64 l.daemon.num_rqs 1 == 0)) [
  | inl last ↦ record {
    room = rw last (omega arith);
    small = v.small;
    bytes = v.bytes;
    count = one_less;
    apart = rw last (none_left (before ++ after) (sym one_less ∙ ==→≡ _ _ last));
  }
  | inr more ↦ record {
    room = rw more (omega (arith, v.room));
    small = v.small;
    bytes = v.bytes;
    count = one_less;
    apart = rw more (Apart-without l.daemon.cur_sz before m after apart);
  }
]
  where
    apart : Apart l.daemon.cur_sz (before ++ (m ∷ after))
    apart = subst (Apart l.daemon.cur_sz) e v.apart

    one_less : sub64 l.daemon.num_rqs 1 ≡ length (before ++ after)
    one_less =
        rw (v.count, e, length-append before (m ∷ after), length-append before after)
          (omega (
            arith,
            v.room,
            length-append before (m ∷ after),
            Apart-length l.daemon.cur_sz (before ++ (m ∷ after)) apart,
          ))

    none_left : (ms : List Message) → length ms ≡ 0 → Apart 0 ms
    none_left [] h = tt
    none_left (n ∷ ms) h = absurd (omega arith)

-- The bytes of the kernel in the ring.
scatter-bytes :
    (vs : List Iovec) (buf : Bytes) (bytes : List ℕ)
    → ((i : ℕ) → buf i < 256)
    → All (λ b. b < 256) bytes
    → (i : ℕ) → scatter buf vs bytes i < 256
scatter-bytes [] buf bytes h k i = h i
scatter-bytes (v ∷ vs) buf bytes h k i =
    scatter-bytes vs _ (drop v.len bytes) (one buf v bytes h k) (All-drop v.len bytes k) i
  where
    All-drop :
        (n : ℕ) (bytes : List ℕ) → All (λ b. b < 256) bytes → All (λ b. b < 256) (drop n bytes)
    All-drop zero bytes k = k
    All-drop (suc n) [] k = k
    All-drop (suc n) (b ∷ bytes) k = All-drop n bytes k.1

    byte : (bytes : List ℕ) (i : ℕ) → All (λ b. b < 256) bytes → ptr bytes i < 256
    byte [] i k = omega arith
    byte (b ∷ bytes) zero k = k.0
    byte (b ∷ bytes) (suc i) k = byte bytes i k.1

    one :
        (buf : Bytes) (v : Iovec) (bytes : List ℕ)
        → ((i : ℕ) → buf i < 256)
        → All (λ b. b < 256) bytes
        → (i : ℕ)
        → (if leb v.base i && ltb i (v.base + min v.len (length bytes))
            then ptr bytes (i - v.base)
            else buf i)
          < 256
    one buf v bytes h k i =
        elim (Bool-cases (leb v.base i && ltb i (v.base + min v.len (length bytes)))) [
          | inl e ↦ rw e (byte bytes (i - v.base) k)
          | inr e ↦ rw e (h i)
        ]

abbrev IsTurn : Turn → Type 0
IsTurn (goes_on l) = IsDaemon l.daemon
IsTurn (ends o) = Unit

after_commands-IsTurn : (l : Loop) (o : Outcome) → IsOutcome o → IsTurn (after_commands l o)
unfolding after_commands
after_commands-IsTurn l (Outcome.next d) h = h
after_commands-IsTurn l (Outcome.wait d) h = h
after_commands-IsTurn l (Outcome.full d) h = h
after_commands-IsTurn l Outcome.exit h = tt
after_commands-IsTurn l Outcome.fault h = tt
after_commands-IsTurn l Outcome.diverged h = tt

read_done-IsTurn :
    (hosts : ℕ → Host) (fuel : ℕ) (iov : List Iovec) (res : ℤ) (bytes : List ℕ) (l : Loop)
    → ((n : ℕ) → IsHost (hosts n))
    → All (λ b. b < 256) bytes
    → IsDaemon l.daemon
    → IsTurn (read_done hosts fuel iov res bytes l)
unfolding read_done
read_done-IsTurn hosts fuel iov res bytes l k b v = elim (Bool-cases (is_negative res)) [
  | inl e ↦ rw e tt
  | inr e ↦ rw e (elim (Bool-cases l.queue_next) [
    | inl e' ↦ rw e' filled
    | inr e' ↦ rw e' (after_commands-IsTurn _ _ (process_commands-IsOutcome hosts fuel _ k filled))
  ])
]
  where
    filled : IsDaemon (record (l.daemon) {
      read_buf = scatter l.daemon.read_buf iov bytes;
      head = add64 l.daemon.head (to_u64 res);
    })
    filled = record {
      room = v.room;
      small = v.small;
      bytes = scatter-bytes iov l.daemon.read_buf bytes v.bytes b;
      count = v.count;
      apart = v.apart;
    }

Step-IsDaemon : {l m : Loop} → Step l m → IsDaemon l.daemon → IsDaemon m.daemon
Step-IsDaemon (on_read hosts fuel before iov after bytes l m k b e r) v = subst IsTurn r (
    read_done-IsTurn hosts fuel iov (pos (length bytes)) bytes
      (record l { reads = before ++ after }) k b v)
Step-IsDaemon (on_write before msg after l m e r) v =
    subst (λ x. IsDaemon (x.daemon)) (sym r) (write_done-IsDaemon before msg after l e v)

-- In every state that the loop comes to, in any order of the completions: `cur_sz` is inside the
-- reply buffer, stored name lengths fit 8 bits, `num_rqs` counts the writes that are in flight, and
-- the headers of these do not overlap and stand below `cur_sz`, if that is so at the start, and the
-- client library's texts are shorter than 2 ^ 31.
pub Reach-IsDaemon : {l m : Loop} → Reach l m → IsDaemon l.daemon → IsDaemon m.daemon
Reach-IsDaemon here v = v
Reach-IsDaemon (later r s) v = Step-IsDaemon s (Reach-IsDaemon r v)
