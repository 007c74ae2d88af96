-- ===== src/Wire/Opcode.antt =====
-- fuse_kernel.h, `enum fuse_opcode`, with the source's names and values.
use p4fuse.Base.{
  ℕ, ◌≡◌, refl, Option, none, some, true, List, [], ◌∷◌, ◌==◌, if◌then◌else◌, Bool-cases, inl, inr,
  sym, ◌∙◌, ap, ==→≡,
}

pub data Opcode : Type 0 where
  lookup forget getattr setattr readlink symlink mknod mkdir unlink rmdir rename link : Opcode
  fuse_open read write statfs release fsync setxattr getxattr listxattr removexattr flush : Opcode
  init opendir readdir releasedir fsyncdir getlk setlk setlkw access create interrupt bmap : Opcode
  destroy ioctl poll notify_reply batch_forget fallocate readdirplus rename2 lseek : Opcode
  copy_file_range setupmapping removemapping syncfs tmpfile cuse_init : Opcode
  cuse_init_bswap_reserved init_bswap_reserved : Opcode

abbrev pub value : Opcode → ℕ
value lookup = 1
value forget = 2
value getattr = 3
value setattr = 4
value readlink = 5
value symlink = 6
value mknod = 8
value mkdir = 9
value unlink = 10
value rmdir = 11
value rename = 12
value link = 13
value fuse_open = 14
value read = 15
value write = 16
value statfs = 17
value release = 18
value fsync = 20
value setxattr = 21
value getxattr = 22
value listxattr = 23
value removexattr = 24
value flush = 25
value init = 26
value opendir = 27
value readdir = 28
value releasedir = 29
value fsyncdir = 30
value getlk = 31
value setlk = 32
value setlkw = 33
value access = 34
value create = 35
value interrupt = 36
value bmap = 37
value destroy = 38
value ioctl = 39
value poll = 40
value notify_reply = 41
value batch_forget = 42
value fallocate = 43
value readdirplus = 44
value rename2 = 45
value lseek = 46
value copy_file_range = 47
value setupmapping = 48
value removemapping = 49
value syncfs = 50
value tmpfile = 51
value cuse_init = 4096
value cuse_init_bswap_reserved = 1048576
value init_bswap_reserved = 436207616

abbrev opcodes : List Opcode
opcodes =
    lookup ∷ forget ∷ getattr ∷ setattr ∷ readlink ∷ symlink ∷ mknod ∷ mkdir ∷ unlink ∷ rmdir
    ∷ rename ∷ link ∷ fuse_open ∷ read ∷ write ∷ statfs ∷ release ∷ fsync ∷ setxattr ∷ getxattr
    ∷ listxattr ∷ removexattr ∷ flush ∷ init ∷ opendir ∷ readdir ∷ releasedir ∷ fsyncdir ∷ getlk
    ∷ setlk ∷ setlkw ∷ access ∷ create ∷ interrupt ∷ bmap ∷ destroy ∷ ioctl ∷ poll ∷ notify_reply
    ∷ batch_forget ∷ fallocate ∷ readdirplus ∷ rename2 ∷ lseek ∷ copy_file_range ∷ setupmapping
    ∷ removemapping ∷ syncfs ∷ tmpfile ∷ cuse_init ∷ cuse_init_bswap_reserved ∷ init_bswap_reserved
    ∷ []

-- The first opcode of a list that has the value `n`.
abbrev find_value : ℕ → List Opcode → Option Opcode
find_value n [] = none
find_value n (o ∷ os) = if value o == n then some o else find_value n os

-- The case of `switch (hdr.opcode)` that a number selects; `none` is a number of no enumerator.
unfoldable pub of_value : ℕ → Option Opcode
of_value n = find_value n opcodes

-- Each enumerator is found by its value.
of_value-value : (o : Opcode) → of_value (value o) ≡ some o
unfolding of_value
of_value-value lookup = refl
of_value-value forget = refl
of_value-value getattr = refl
of_value-value setattr = refl
of_value-value readlink = refl
of_value-value symlink = refl
of_value-value mknod = refl
of_value-value mkdir = refl
of_value-value unlink = refl
of_value-value rmdir = refl
of_value-value rename = refl
of_value-value link = refl
of_value-value fuse_open = refl
of_value-value read = refl
of_value-value write = refl
of_value-value statfs = refl
of_value-value release = refl
of_value-value fsync = refl
of_value-value setxattr = refl
of_value-value getxattr = refl
of_value-value listxattr = refl
of_value-value removexattr = refl
of_value-value flush = refl
of_value-value init = refl
of_value-value opendir = refl
of_value-value readdir = refl
of_value-value releasedir = refl
of_value-value fsyncdir = refl
of_value-value getlk = refl
of_value-value setlk = refl
of_value-value setlkw = refl
of_value-value access = refl
of_value-value create = refl
of_value-value interrupt = refl
of_value-value bmap = refl
of_value-value destroy = refl
of_value-value ioctl = refl
of_value-value poll = refl
of_value-value notify_reply = refl
of_value-value batch_forget = refl
of_value-value fallocate = refl
of_value-value readdirplus = refl
of_value-value rename2 = refl
of_value-value lseek = refl
of_value-value copy_file_range = refl
of_value-value setupmapping = refl
of_value-value removemapping = refl
of_value-value syncfs = refl
of_value-value tmpfile = refl
of_value-value cuse_init = refl
of_value-value cuse_init_bswap_reserved = refl
of_value-value init_bswap_reserved = refl

value_picked : (n : ℕ) (p o : Opcode) → some p ≡ some o → (value p == n) ≡ true → value o ≡ n
value_picked n p o h e = ap value (sym same) ∙ ==→≡ (value p) n e
  where
    same : p ≡ o
    same = cc

-- What is found has the value.
find_value-value : (n : ℕ) (os : List Opcode) (o : Opcode) → find_value n os ≡ some o → value o ≡ n
find_value-value n [] o h = cc
find_value-value n (p ∷ os) o h = elim (Bool-cases (value p == n)) [
  | inl e ↦ value_picked n p o (rw e at h) e
  | inr e ↦ find_value-value n os o (rw e at h)
]

-- An opcode that is found for a number has that number as its value.
value-of_value : (n : ℕ) (o : Opcode) → of_value n ≡ some o → value o ≡ n
unfolding of_value
value-of_value n o h = find_value-value n opcodes o h
