-- ===== src/Older/Links.antt =====
-- diff.cpp, FUSE_OPEN on a symbolic link.
use native.Mathlib.Nat.{mul_assoc, pow-suc}
use p4fuse.Base.{
  ℕ, zero, suc, ◌+◌, ◌*◌, ◌^◌, ◌<◌, ◌≤◌, ◌≡◌, refl, ap, ◌∙◌, inl, inr, arith, ℤ, pos, true, false,
  some, List, u64, is_negative, is_zero, to_u64, ◌==◌, ≢→==,
}
use p4fuse.Buffer.{buf_sz}
use p4fuse.Wire.Request.{InHeader}
use p4fuse.Inode.{entry}
use p4fuse.Daemon.{Host, Daemon, full, place}
use p4fuse.Daemon.Answer.{place_cases}
use p4fuse.Older.Open.{LinkText, text_loop, Opened, older_open_loop, older_open_file}

-- `readlink` on a link of `n` bytes, for every buffer that has room for them.
abbrev pub IsLink : Host → List ℕ → ℕ → List ℕ → Type 0
IsLink host path n text = (size : ℕ) → n < size → host.read_link path size ≡ (pos n, text)

module _ (host : Host) (path : List ℕ) (n : ℕ) (text : List ℕ) (short : n < 128)
    (link : IsLink host path n text) where
  differs : (msz : ℕ) → 128 ≤ msz → (to_u64 (host.read_link path msz).0 == msz) ≡ false
  differs msz h = rw (link msz (omega arith)) (≢→== (to_u64 (pos n)) msz (λ e. omega arith))

  succeeds : (msz : ℕ) → 128 ≤ msz → is_negative (host.read_link path msz).0 ≡ false
  succeeds msz h = rw (link msz (omega arith)) refl

  rounds :
      (fuel msz : ℕ) (d : Daemon)
      → d.cur_sz ≤ buf_sz
      → 128 ≤ msz
      → msz ≤ 2 ^ 26
      → 2 ^ 26 < msz * 2 ^ fuel
      → (d' : Daemon) × (text_loop host path fuel msz d ≡ LinkText.no_room d')
  unfolding text_loop
  rounds zero msz d h least k l = absurd (omega arith)
  rounds (suc fuel) msz d h least k l = elim (place_cases d msz h (omega arith)) [
    | inl none_left ↦ (d, rw (differs msz least, none_left) refl)
    | inr (placed, fits) ↦
        rw (differs msz least, placed, succeeds msz least)
          (rounds fuel (u64 (msz * 2)) _ fits (rw (twice fits) (omega arith)) (omega arith)
            (rw (twice fits) (omega (arith, l, doubled))))
  ]
    where
      doubled : msz * 2 * 2 ^ fuel ≡ msz * 2 ^ suc fuel
      doubled = mul_assoc msz 2 (2 ^ fuel) ∙ ap (λ t. msz * t) (omega (arith, pow-suc 2 fuel))

      twice : d.cur_sz + msz ≤ buf_sz → u64 (msz * 2) ≡ msz * 2
      twice f = omega arith

  -- The inner loop fills the buffer of replies.
  pub text_loop-no_room :
      (d : Daemon)
      → d.cur_sz ≤ buf_sz
      → (d' : Daemon) × (text_loop host path 64 128 d ≡ LinkText.no_room d')
  text_loop-no_room d h = rounds 64 128 d h (omega arith) (omega arith) (omega arith)

-- The outer loop ends with it.
older_open_loop-full :
    (host : Host) (hdr : InHeader) (outh : ℕ) (path : List ℕ) (fuel msz : ℕ) (files : ℤ)
    (d d' : Daemon)
    → is_negative files ≡ true
    → text_loop host path 64 msz d ≡ LinkText.no_room d'
    → older_open_loop host hdr outh path (suc fuel) msz files d ≡ Opened.stops (full d')
unfolding older_open_loop
older_open_loop-full host hdr outh path fuel msz files d d' h e = rw (h, e) refl

-- FUSE_OPEN of the older daemon does not open a symbolic link: if the path cannot be opened, is a
-- link to a text of less than 128 bytes, no descriptor is stored, and `cur_sz` is inside the buffer,
-- then the loops end with -2, for a full buffer, since the inner one runs until the text is as long
-- as the buffer.
pub older_open_file-full :
    (host : Host) (hdr : InHeader) (outh : ℕ) (path : List ℕ) (n : ℕ) (text : List ℕ) (d : Daemon)
    → n < 128
    → IsLink host path n text
    → d.cur_sz ≤ buf_sz
    → is_negative (host.open_file path) ≡ true
    → is_zero (entry d.table hdr.nodeid).opened_file ≡ true
    → (d' : Daemon) × (older_open_file host hdr outh path d ≡ Opened.stops (full d'))
unfolding older_open_file
older_open_file-full host hdr outh path n text d short link h fails closed =
    elim (place_cases d 128 h (omega arith)) [
      | inl none_left ↦ (d, rw (closed, none_left, fails) refl)
      | inr (placed, fits) ↦
          stopped
            (text_loop-no_room host path n text short link (record d { cur_sz = d.cur_sz + 128 })
              fits)
            placed
    ]
  where
    stopped :
        (d1 : Daemon) × (text_loop host path 64 128 (record d { cur_sz = d.cur_sz + 128 })
            ≡ LinkText.no_room d1)
        → place d 128 1 ≡ some (d.cur_sz, record d { cur_sz = d.cur_sz + 128 })
        → (d' : Daemon) × (older_open_file host hdr outh path d ≡ Opened.stops (full d'))
    stopped (d1, e) placed = (
      d1,
      rw (closed, placed)
          (older_open_loop-full host hdr outh path 63 128 (host.open_file path) _ d1 fails e),
    )
