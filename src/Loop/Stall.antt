-- ===== src/Loop/Stall.antt =====
-- An order of completions after which the event loop waits for nothing.
use p4fuse.Base.{
  ℕ, ◌%◌, ◌^◌, ◌<◌, ◌≡◌, ◌++◌, ◌∙◌, refl, sym, true, List, [], ◌∷◌, length, All, add64,
}
use p4fuse.Ring.{Iovec}
use p4fuse.Daemon.{Host, Message}
use p4fuse.Daemon.Runs.{IsHost}
use p4fuse.Loop.{Loop, scatter, read_done, write_done, Step, on_read, on_write, Reach, here, later}

-- No completion is to come.
abbrev pub IsStuck : Loop → Type 0
IsStuck l = (m : Loop) → Step l m → ⊥

no_completion : (l : Loop) → l.reads ≡ [] → l.daemon.flight ≡ [] → IsStuck l
no_completion l r f m (on_read hosts fuel before iov after bytes x y k b e s) =
    nil before iov after (sym r ∙ e)
  where
    nil :
        (before : List (List Iovec)) (v : List Iovec) (after : List (List Iovec))
        → [] ≡ before ++ (v ∷ after)
        → ⊥
    nil [] v after h = cc
    nil (b ∷ before) v after h = cc
no_completion l r f m (on_write before msg after x y e s) = nil before msg after (sym f ∙ e)
  where
    nil :
        (before : List Message) (v : Message) (after : List Message)
        → [] ≡ before ++ (v ∷ after)
        → ⊥
    nil [] v after h = cc
    nil (b ∷ before) v after h = cc

-- Where the loop holds requests back, with one read and one write in flight, there is an order of
-- their completions, the read first, after which no completion is to come: nothing submits a read
-- again.
pub queue_next-IsStuck :
    (hosts : ℕ → Host) (l : Loop) (iov : List Iovec) (m : Message) (bytes : List ℕ)
    → ((n : ℕ) → IsHost (hosts n))
    → All (λ b. b < 256) bytes
    → l.queue_next ≡ true
    → l.reads ≡ iov ∷ []
    → l.daemon.flight ≡ m ∷ []
    → (l' : Loop) × Reach l l' × IsStuck l'
unfolding read_done write_done
queue_next-IsStuck hosts l iov m bytes k b q r f =
    (last, later (later here first) second, no_completion last refl refl)
  where
    filled : Loop
    filled = record l {
      daemon = record (l.daemon) {
        read_buf = scatter l.daemon.read_buf iov bytes;
        head = add64 l.daemon.head (length bytes % 2 ^ 64);
      };
      reads = [];
    }

    first : Step l filled
    first = on_read hosts 0 [] iov [] bytes l filled k b r (rw q refl)

    last : Loop
    last = write_done [] filled

    second : Step filled last
    second = on_write [] m [] filled last f refl
