-- ===== src/Tests/Olders.antt =====
-- The theorems on the older daemon, applied to small states.
use p4fuse.Base.{◌≡◌, refl, arith, negsuc, codes}
use p4fuse.Daemon.{Host, Daemon, full}
use p4fuse.Older.Open.{Opened, older_open_file}
use p4fuse.Older.Links.{older_open_file-full}
use p4fuse.Tests.Daemons.{host, busy, header}

-- A disk on which only links stand.
abbrev links : Host
links = record host { open_file = λ path. negsuc 39 }

older_open_file-full_example :
    (d' : Daemon) × (older_open_file links header 0 (codes "a/depot/ln") busy
      ≡ Opened.stops (full d'))
older_open_file-full_example =
    older_open_file-full links header 0 (codes "a/depot/ln") 2 (codes "to") busy (omega arith)
      (λ size h. refl) (omega arith) refl refl
