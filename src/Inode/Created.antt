-- ===== src/Inode/Created.antt =====
-- What `new_inode` makes: the next id, with the length of its name and room for it.
use mathlib.Core.Path.{subst}
use p4fuse.Base.{
  ℕ, ◌+◌, ◌^◌, ◌<◌, ◌≤◌, ◌≡◌, ◌≢◌, refl, sym, ap, ◌∙◌, inl, inr, arith, Bool, true, false, some,
  leb, ltb, ◌==◌, not, ◌&&◌, u8, u16, Bool-cases, ==-refl, ≢→==,
}
use p4fuse.Inode.Store.{Arena, Table, Entry, entry, set_entry}
use p4fuse.Inode.Arena.{alloc_name}
use p4fuse.Inode.Create.{
  next_lid, next_id, grow_table, free_name, place_name, label_inode, new_inode,
}
use p4fuse.Inode.Names.{IsArena, IsPlaced, alloc_name-IsPlaced}

-- The entry `id` is new in `t'`, with a name of `len` bytes.
pub record Created (t : Table) (id len : ℕ) (t' : Table) : Type 0 where
  pub newest : t'.id ≡ id
  pub others : (m : ℕ) → m ≢ id → entry t' m ≡ entry t m
  pub slen : (entry t' id).slen ≡ len
  pub bytes : t'.str_arena.bytes ≡ t.str_arena.bytes
  pub arena : IsArena t'.str_arena
  pub cur : t.str_arena.cur ≤ t'.str_arena.cur
  pub top : t'.str_arena.cur ≤ t.str_arena.cur + len
  -- a long name's place is above the old ones
  pub place :
      8 < len
      → (t.str_arena.cur ≤ (entry t' id).name_offset)
        × ((entry t' id).name_offset + len ≤ t'.str_arena.cur)

-- The tables differ in their sizes and generation only.
SameStore : Table → Table → Type 0
SameStore t t' = (t'.id ≡ t.id) × (t'.entries ≡ t.entries) × (t'.str_arena ≡ t.str_arena)

next_lid-next : (id : ℕ) → 1 ≤ id → id + 1 < 2 ^ 32 → next_lid 3 id ≡ id + 1
next_lid-next id h k = ground arith

grow_table-SameStore : (t : Table) (id : ℕ) → SameStore t (grow_table t id)
unfolding grow_table SameStore
grow_table-SameStore t id = elim (Bool-cases (leb t.total_inodes id && not (t.total_inodes == 0))) [
  | inl e ↦ rw e (refl, refl, refl)
  | inr e ↦ rw e (refl, refl, refl)
]

free_name-same : (t : Table) (id gen : ℕ) → (entry t id).slen ≤ 8 → free_name t id gen ≡ t
unfolding free_name
free_name-same t id gen h = rw (short, and_false (not (gen == 0))) refl
  where
    short : ltb 8 (entry t id).slen ≡ false
    short = ground arith

    and_false : (b : Bool) → (b && false) ≡ false
    and_false true = refl
    and_false false = refl

-- A short name needs no place; a long one gets the top of the arena.
record HasPlace (t : Table) (id len : ℕ) (t' : Table) : Type 0 where
  same_id : t'.id ≡ t.id
  others : (m : ℕ) → m ≢ id → entry t' m ≡ entry t m
  bytes : t'.str_arena.bytes ≡ t.str_arena.bytes
  arena : IsArena t'.str_arena
  cur : t.str_arena.cur ≤ t'.str_arena.cur
  top : t'.str_arena.cur ≤ t.str_arena.cur + len
  place :
      8 < len
      → (t.str_arena.cur ≤ (entry t' id).name_offset)
        × ((entry t' id).name_offset + len ≤ t'.str_arena.cur)

-- One entry is set.
pub entry-set_other :
    (t : Table) (id : ℕ) (e : Entry) (m : ℕ) → m ≢ id → entry (set_entry t id e) m ≡ entry t m
entry-set_other t id e m n = rw (≢→== m id n) refl

pub entry-set_same : (t : Table) (id : ℕ) (e : Entry) → entry (set_entry t id e) id ≡ e
entry-set_same t id e = rw (==-refl id) refl

place_name-HasPlace :
    (t : Table) (id len : ℕ)
    → len < 256
    → IsArena t.str_arena
    → t.str_arena.cur + len < 2 ^ 40
    → (t' : Table) × (place_name t id len ≡ some t') × HasPlace t id len t'
unfolding place_name
place_name-HasPlace t id len small v room = elim (Bool-cases (ltb 8 len)) [
  | inl long ↦ at_top (alloc_name-IsPlaced 63 len t.str_arena v small room) long
  | inr short ↦ (
    t,
    rw short refl,
    record {
      same_id = refl;
      others = λ m n. refl;
      bytes = refl;
      arena = v;
      cur = omega arith;
      top = omega arith;
      place = λ h. ground arith;
    },
  )
]
  where
    at : Arena → Table
    at b =
        set_entry (record t { str_arena = b }) id
          (record (entry t id) { name_offset = t.str_arena.cur })

    at_top :
        (b : Arena) × (alloc_name 65 t.str_arena len ≡ some (t.str_arena.cur, b))
          × IsPlaced t.str_arena len b
        → ltb 8 len ≡ true
        → (t' : Table) × (place_name t id len ≡ some t') × HasPlace t id len t'
    at_top (b, e, p) long = (
      at b,
      rw (long, e) refl,
      record {
        same_id = refl;
        others = λ m n. entry-set_other (record t { str_arena = b }) id _ m n;
        bytes = p.bytes;
        arena = p.arena;
        cur = omega (arith, p.cur);
        top = omega (arith, p.cur);
        place = λ h. rw (==-refl id) (omega arith, omega (arith, p.cur));
      },
    )

-- The rest of `new_inode`, on a table that has the entries and the arena of `t`.
label_inode-Created :
    (t nt : Table) (id gen len : ℕ)
    → nt.id ≡ id
    → nt.entries ≡ t.entries
    → nt.str_arena ≡ t.str_arena
    → (entry t id).slen ≤ 8
    → len < 256
    → IsArena t.str_arena
    → t.str_arena.cur + len < 2 ^ 40
    → (t' : Table) × (label_inode id gen len
          (place_name (free_name (grow_table nt id) id gen) id len)
        ≡ some (id, t'))
      × Created t id len t'
unfolding SameStore
label_inode-Created t nt id gen len i e a unused small v room =
    finish (place_name-HasPlace t1 id len small (subst IsArena (sym arenas) v) (rw arenas room))
  where
    t1 : Table
    t1 = grow_table nt id

    same : SameStore nt t1
    same = grow_table-SameStore nt id

    entries : t1.entries ≡ t.entries
    entries = same.1 ∙ e

    arenas : t1.str_arena ≡ t.str_arena
    arenas = same.2 ∙ a

    freed : free_name t1 id gen ≡ t1
    freed = free_name-same t1 id gen (rw entries unused)

    finish :
        (t2 : Table) × (place_name t1 id len ≡ some t2) × HasPlace t1 id len t2
        → (t' : Table) × (label_inode id gen len (place_name (free_name t1 id gen) id len)
            ≡ some (id, t'))
          × Created t id len t'
    finish (t2, q, p) = (
      set_entry t2 id (record (entry t2 id) { gen = u16 gen; slen = u8 len }),
      ap (λ x. label_inode id gen len (place_name x id len)) freed ∙ ap (label_inode id gen len) q,
      record {
        newest = p.same_id ∙ same.0 ∙ i;
        others = λ m n. entry-set_other t2 id _ m n ∙ p.others m n ∙ ap (λ es. es m) entries;
        slen = ap (λ x. x.slen) (entry-set_same t2 id _) ∙ omega arith;
        bytes = p.bytes ∙ ap (λ x. x.bytes) arenas;
        arena = p.arena;
        cur = rw (sym arenas) p.cur;
        top = rw (sym arenas) p.top;
        place = λ h.
            rw (entry-set_same t2 id (record (entry t2 id) { gen = u16 gen; slen = u8 len }))
              (rw (sym arenas) ((p.place h).0), (p.place h).1);
      },
    )

-- With room in the table and in the arena, `new_inode` takes the next id, leaves the other entries,
-- and reserves the name above those that are there.
pub new_inode-Created :
    (t : Table) (len : ℕ)
    → 1 ≤ t.id
    → t.id + 1 < 2 ^ 32
    → (entry t (t.id + 1)).slen ≤ 8
    → len < 256
    → IsArena t.str_arena
    → t.str_arena.cur + len < 2 ^ 40
    → (t' : Table) × (new_inode t len ≡ some (t.id + 1, t')) × Created t (t.id + 1) len t'
unfolding new_inode next_id
new_inode-Created t len low high unused small v room =
    subst (λ id. (t' : Table) × (new_inode t len ≡ some (id, t')) × Created t id len t') is_next
      (label_inode-Created t (next_id t).1 (next_lid 3 t.id) (next_id t).1.gen len refl refl refl
        (rw is_next unused) small v room)
  where
    is_next : next_lid 3 t.id ≡ t.id + 1
    is_next = next_lid-next t.id low high
