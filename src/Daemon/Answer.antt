-- ===== src/Daemon/Answer.antt =====
-- What every case of `process_commands` does to the daemon's counters and queue.
use p4fuse.Base.{
  ℕ, ◌+◌, ◌^◌, ◌≤◌, ◌≡◌, ◌⊎◌, inl, inr, refl, ap, ◌∙◌, arith, ℤ, none, some, List, ◌∷◌, add64,
  sub64, ltb, Bool-cases,
}
use p4fuse.Buffer.{buf_sz, alloc_chunk}
use p4fuse.Buffer.Laws.{align_up-one}
use p4fuse.Wire.Request.{InHeader}
use p4fuse.Inode.{Table}
use p4fuse.Inode.Bounds.{IsSmall}
use p4fuse.Daemon.State.{
  Daemon, Message, Outcome, next, wait, full, exit, fault, diverged, Body, out_header_size, place,
  prologue, reply, with_chunk,
}

-- The daemon has only taken chunks, or changed its table: the ring, the queue and the counters are
-- as before.
pub record Grows (d d' : Daemon) : Type 0 where
  pub cur : d'.cur ≡ d.cur
  pub head : d'.head ≡ d.head
  pub read_buf : d'.read_buf ≡ d.read_buf
  pub flight : d'.flight ≡ d.flight
  pub num_rqs : d'.num_rqs ≡ d.num_rqs
  pub above : d.cur_sz ≤ d'.cur_sz
  pub room : d'.cur_sz ≤ buf_sz
  pub small : IsSmall d.table → IsSmall d'.table

pub Grows-refl : {d : Daemon} → d.cur_sz ≤ buf_sz → Grows d d
Grows-refl h = record {
  cur = refl;
  head = refl;
  read_buf = refl;
  flight = refl;
  num_rqs = refl;
  above = omega arith;
  room = h;
  small = λ s. s;
}

pub Grows-trans : {a b c : Daemon} → Grows a b → Grows b c → Grows a c
Grows-trans g h = record {
  cur = h.cur ∙ g.cur;
  head = h.head ∙ g.head;
  read_buf = h.read_buf ∙ g.read_buf;
  flight = h.flight ∙ g.flight;
  num_rqs = h.num_rqs ∙ g.num_rqs;
  above = omega arith;
  room = h.room;
  small = λ s. h.small (g.small s);
}

-- Only the table changes, and the descriptors that are closed.
pub Grows-table :
    (d : Daemon) (t : Table) (closed : List ℤ)
    → d.cur_sz ≤ buf_sz
    → (IsSmall d.table → IsSmall t)
    → Grows d (record d { table = t; closed = closed })
Grows-table d t closed h k = record {
  cur = refl;
  head = refl;
  read_buf = refl;
  flight = refl;
  num_rqs = refl;
  above = omega arith;
  room = h;
  small = k;
}

-- The top of the buffer moves.
pub Grows-top :
    (d : Daemon) (cur_sz : ℕ)
    → d.cur_sz ≤ cur_sz
    → cur_sz ≤ buf_sz
    → Grows d (record d { cur_sz = cur_sz })
Grows-top d cur_sz h k = record {
  cur = refl;
  head = refl;
  read_buf = refl;
  flight = refl;
  num_rqs = refl;
  above = h;
  room = k;
  small = λ s. s;
}

-- The request is consumed, and one reply to it is queued: a reply with its id, the header in a
-- part of the buffer that was free before.
pub record Replied (d : Daemon) (hdr : InHeader) (d' : Daemon) : Type 0 where
  pub message : Message
  pub cur : d'.cur ≡ add64 d.cur hdr.len
  pub head : d'.head ≡ d.head
  pub read_buf : d'.read_buf ≡ d.read_buf
  pub flight : d'.flight ≡ message ∷ d.flight
  pub num_rqs : d'.num_rqs ≡ add64 d.num_rqs 1
  pub unique : message.unique ≡ hdr.unique
  pub above : d.cur_sz ≤ message.at
  pub inside : message.at + out_header_size ≤ d'.cur_sz
  pub room : d'.cur_sz ≤ buf_sz
  pub small : IsSmall d.table → IsSmall d'.table

-- A case replies, or stops with the request kept: -2, or the end of the process.
abbrev pub Answers : Daemon → InHeader → Outcome → Type 0
Answers d hdr (next d') = Replied d hdr d'
Answers d hdr (wait d') = ⊥
Answers d hdr (full d') = Grows d d'
Answers d hdr exit = ⊥
Answers d hdr fault = Unit
Answers d hdr diverged = Unit

-- A chunk without alignment starts at the top.
pub place_cases :
    (d : Daemon) (size : ℕ)
    → d.cur_sz ≤ buf_sz
    → size ≤ 2 ^ 62
    → (place d size 1 ≡ none)
      ⊎ ((place d size 1 ≡ some (d.cur_sz, record d { cur_sz = d.cur_sz + size }))
          × (d.cur_sz + size ≤ buf_sz))
unfolding place alloc_chunk
place_cases d size h k = elim (Bool-cases (ltb buf_sz (d.cur_sz + size))) [
  | inl over ↦ inl (ground (arith, align_up-one d.cur_sz (omega arith)))
  | inr fit ↦ inr (ground (arith, align_up-one d.cur_sz (omega arith)))
]

pub place_fits :
    (d : Daemon) (size : ℕ)
    → d.cur_sz + size ≤ buf_sz
    → place d size 1 ≡ some (d.cur_sz, record d { cur_sz = d.cur_sz + size })
unfolding place alloc_chunk
place_fits d size h = ground (arith, align_up-one d.cur_sz (omega arith))

-- The same of `alloc_chunk`.
pub alloc_cases :
    (c size : ℕ)
    → c ≤ buf_sz
    → size ≤ 2 ^ 62
    → (alloc_chunk c size 1 ≡ record { res = none; cur_sz = c })
      ⊎ ((alloc_chunk c size 1 ≡ record { res = some c; cur_sz = c + size }) × (c + size ≤ buf_sz))
unfolding alloc_chunk
alloc_cases c size h k = elim (Bool-cases (ltb buf_sz (c + size))) [
  | inl over ↦ inl (ground (arith, align_up-one c (omega arith)))
  | inr fit ↦ inr (ground (arith, align_up-one c (omega arith)))
]

-- `cur_sz -= n` gives back the end of a chunk.
pub Grows-back :
    {d d' : Daemon} (n : ℕ)
    → Grows d d'
    → d.cur_sz + n ≤ d'.cur_sz
    → Grows d (record d' { cur_sz = sub64 d'.cur_sz n })
Grows-back {d} {d'} n g h = record {
  cur = g.cur;
  head = g.head;
  read_buf = g.read_buf;
  flight = g.flight;
  num_rqs = g.num_rqs;
  above = omega (arith, g.room);
  room = omega (arith, g.room);
  small = g.small;
}

-- A reply from a daemon that has only grown.
pub reply-Answers :
    (d : Daemon) (hdr : InHeader) (d' : Daemon) (at len : ℕ) (error : ℤ) (body : Body)
    → Grows d d'
    → d.cur_sz ≤ at
    → at + out_header_size ≤ d'.cur_sz
    → Answers d hdr (reply d' hdr at len error body)
reply-Answers d hdr d' at len error body g h k = record {
  message = m;
  cur = ap (λ c. add64 c hdr.len) g.cur;
  head = g.head;
  read_buf = g.read_buf;
  flight = ap (λ f. m ∷ f) g.flight;
  num_rqs = ap (λ n. add64 n 1) g.num_rqs;
  unique = refl;
  above = h;
  inside = k;
  room = g.room;
  small = g.small;
}
  where
    m : Message
    m = record { at = at; len = len; error = error; unique = hdr.unique; body = body }

-- A case on a chunk of `size` bytes behind the header.
pub with_chunk-Answers :
    (d : Daemon) (hdr : InHeader) (base : Daemon) (size : ℕ) (f : ℕ → Daemon → Outcome)
    → Grows d base
    → size ≤ 2 ^ 62
    → ((d' : Daemon)
        → Grows d d'
        → d'.cur_sz ≡ base.cur_sz + size
        → Answers d hdr (f base.cur_sz d'))
    → Answers d hdr (with_chunk base (place base size 1) f)
with_chunk-Answers d hdr base size f g k go = elim (place_cases base size g.room k) [
  | inl none_left ↦ rw none_left g
  | inr (e, fits) ↦ rw e (go _ (Grows-trans g (Grows-top base _ (omega arith) fits)) refl)
]

pub prologue-Answers :
    (d : Daemon) (hdr : InHeader) (size : ℕ) (f : ℕ → Daemon → Outcome)
    → d.cur_sz ≤ buf_sz
    → size ≤ 2 ^ 32
    → ((d' : Daemon)
        → Grows d d'
        → d'.cur_sz ≡ d.cur_sz + (out_header_size + size)
        → Answers d hdr (f d.cur_sz d'))
    → Answers d hdr (with_chunk d (prologue d size) f)
unfolding prologue
prologue-Answers d hdr size f h k go =
    with_chunk-Answers d hdr d (out_header_size + size) f (Grows-refl h) (omega arith) go
