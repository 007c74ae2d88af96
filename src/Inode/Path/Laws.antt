-- ===== src/Inode/Path/Laws.antt =====
-- `build_path` writes the path of an entry, and `path_size` is its length.
use mathlib.Core.List.{append_assoc, append-nil}
use p4fuse.Base.{
  ℕ, zero, suc, ◌+◌, ◌*◌, ◌^◌, ◌<◌, ◌≤◌, ◌≡◌, ◌≢◌, ◌∙◌, ap, sym, refl, arith, some, List, [], ◌∷◌,
  ◌++◌, length, length-append, ≢→==, add64, All,
}
use p4fuse.Ring.{load}
use p4fuse.Inode.Store.{Ptr, Table, entry, node_name}
use p4fuse.Inode.Path.{size_loop, path_size, name_bytes, build_loop, build_path}

-- The entries from `node` up to the root, in the order of the climb.
abbrev pub Climbs : Table → ℕ → List ℕ → Type 0
Climbs t node [] = node ≡ 0
Climbs t node (n ∷ ns) = (node ≡ n) × (n ≢ 0) × Climbs t (entry t n).parent ns

-- The path along a climb: the names from the root down, each with a slash behind it.
abbrev pub path_of : Table → List ℕ → List ℕ
path_of t [] = []
path_of t (n ∷ ns) = path_of t ns ++ (name_bytes t n ++ b'/' ∷ [])

pub length-load : (buf : Ptr) (at n : ℕ) → length (load buf at n) ≡ n
length-load buf at zero = refl
length-load buf at (suc n) = ap suc (length-load buf (at + 1) n)

length-path_of :
    (t : Table) (n : ℕ) (ns : List ℕ)
    → length (path_of t (n ∷ ns)) ≡ length (path_of t ns) + (entry t n).slen + 1
length-path_of t n ns = omega (
  arith,
  length-append (path_of t ns) (name_bytes t n ++ b'/' ∷ []),
  length-append (name_bytes t n) (b'/' ∷ []),
  length-load (node_name t (entry t n)) 0 (entry t n).slen,
)

build_loop-path_of :
    (t : Table) (ns : List ℕ) (fuel node : ℕ) (done : List ℕ)
    → Climbs t node ns
    → length ns < fuel
    → build_loop t fuel node done ≡ some (path_of t ns ++ done)
unfolding build_loop
build_loop-path_of t ns zero node done c h = absurd (omega arith)
build_loop-path_of t [] (suc fuel) node done c h = rw c
build_loop-path_of t (n ∷ ns) (suc fuel) node done c h =
    rw (c.0, ≢→== n 0 c.1)
      (build_loop-path_of t ns fuel (entry t n).parent (name_bytes t n ++ b'/' ∷ done) c.2
          (omega arith)
        ∙ ap some (
            ap (λ r. path_of t ns ++ r) (sym (append_assoc (name_bytes t n) (b'/' ∷ []) done))
            ∙ sym (append_assoc (path_of t ns) (name_bytes t n ++ b'/' ∷ []) done)))

size_loop-path_of :
    (t : Table) (ns : List ℕ) (fuel node path : ℕ)
    → Climbs t node ns
    → length ns < fuel
    → path + length (path_of t ns) < 2 ^ 64
    → size_loop t fuel node path ≡ some (path + length (path_of t ns))
unfolding size_loop
size_loop-path_of t ns zero node path c h b = absurd (omega arith)
size_loop-path_of t [] (suc fuel) node path c h b = rw c (ap some (omega arith))
size_loop-path_of t (n ∷ ns) (suc fuel) node path c h b =
    rw (c.0, ≢→== n 0 c.1, fits)
      (size_loop-path_of t ns fuel (entry t n).parent _ c.2 (omega arith)
          (omega (arith, length-path_of t n ns))
        ∙ ap some (omega (arith, length-path_of t n ns)))
  where
    fits : add64 path (1 + (entry t n).slen) ≡ path + (1 + (entry t n).slen)
    fits = omega (arith, length-path_of t n ns)

-- The names on a climb are entries' names, so the path is short.
path_of_bound :
    (t : Table) (ns : List ℕ)
    → All (λ n. (entry t n).slen < 256) ns
    → length (path_of t ns) ≤ 256 * length ns
path_of_bound t [] a = omega arith
path_of_bound t (n ∷ ns) a = omega (arith, length-path_of t n ns, path_of_bound t ns a.1)

-- For an entry whose parents lead up to entry 0 in fewer than 2 ^ 32 steps, with names of at most
-- 255 bytes, `build_path` writes the names from the root down, each with a slash behind it, and
-- `path_size` is the number of these bytes: `build_path` fills exactly the buffer that its caller
-- reserves.
pub build_path-path_size :
    (t : Table) (node : ℕ) (ns : List ℕ)
    → Climbs t node ns
    → length ns < 2 ^ 32
    → All (λ n. (entry t n).slen < 256) ns
    → (build_path t node ≡ some (path_of t ns)) × (path_size t node ≡ some (length (path_of t ns)))
unfolding build_path path_size
build_path-path_size t node ns c h a = (
  build_loop-path_of t ns (2 ^ 32) node [] c h ∙ ap some (append-nil (path_of t ns)),
  size_loop-path_of t ns (2 ^ 32) node 0 c h (omega (arith, path_of_bound t ns a))
      ∙ ap some (omega arith),
)
