-- ===== src/Tests/Forgets.antt =====
-- The event loop on one FUSE_FORGET request.
use mathlib.Core.Path.{subst}
use p4fuse.Base.{ℕ, ◌≡◌, refl, arith, pos, false, List, [], ◌∷◌, codes}
use p4fuse.Ring.{copyin_wrap, queue_read}
use p4fuse.Wire.Opcode.{of_value}
use p4fuse.Wire.Layout.{value_at, of_le}
use p4fuse.Wire.Request.{decode_in_header}
use p4fuse.Client.View.{same_key}
use p4fuse.Daemon.{Host, Daemon, next}
use p4fuse.Daemon.Files.{do_ignore}
use p4fuse.Daemon.Commands.{dispatch, header_at, turn, process_commands}
use p4fuse.Daemon.Holds.{Holds}
use p4fuse.Daemon.Listers.{IsServer}
use p4fuse.Daemon.Turns.{AreLow}
use p4fuse.Loop.{Loop, goes_on, after_commands, read_done, Step, here, later, on_read}
use p4fuse.Loop.Numbers.{with_bytes, Reach-Holds}
use p4fuse.Tests.Samples.{depot, depot_tree}
use p4fuse.Tests.Daemons.{host, busy}
use p4fuse.Tests.Inserts.{depot-IsStore}

-- The request: 48 bytes, the opcode 2, the node 1.
abbrev request : List ℕ
request =
    48 ∷ 0 ∷ 0 ∷ 0 ∷ 2 ∷ 0 ∷ 0 ∷ 0 ∷ 7 ∷ 0 ∷ 0 ∷ 0 ∷ 0 ∷ 0 ∷ 0 ∷ 0 ∷ 1 ∷ 0 ∷ 0 ∷ 0 ∷ 0 ∷ 0 ∷ 0 ∷ 0
    ∷ 0 ∷ 0 ∷ 0 ∷ 0 ∷ 0 ∷ 0 ∷ 0 ∷ 0 ∷ 0 ∷ 0 ∷ 0 ∷ 0 ∷ 0 ∷ 0 ∷ 0 ∷ 0 ∷ 1 ∷ 0 ∷ 0 ∷ 0 ∷ 0 ∷ 0 ∷ 0 ∷ 0
    ∷ []

abbrev silent : Host
silent = record host { run = λ c. [] }

abbrev idle : Loop
idle = record { daemon = busy; queue_next = false; reads = queue_read 0 0 ∷ [] }

abbrev fed : Daemon
fed = with_bytes busy (queue_read 0 0) (pos 48) request

abbrev forgotten : Daemon
forgotten = record fed { cur = 48 }

abbrev passed : Loop
passed = record { daemon = forgotten; queue_next = false; reads = queue_read 0 48 ∷ [] }

first_turn : turn silent fed ≡ next forgotten
unfolding turn header_at dispatch do_ignore of_value copyin_wrap queue_read decode_in_header
    value_at of_le
first_turn = refl

handled :
    read_done (λ n. silent) 2 (queue_read 0 0) (pos 48) request (record idle { reads = [] })
    ≡ goes_on passed
unfolding read_done after_commands process_commands turn header_at dispatch do_ignore of_value
    copyin_wrap queue_read decode_in_header value_at of_le
handled = refl

low : AreLow (λ n. silent) 2 fed
unfolding header_at copyin_wrap queue_read decode_in_header value_at of_le
low = (
  λ e. omega arith,
  λ d' e. subst (AreLow (λ n. silent) 1) (next_of first_turn e) (λ e. absurd cc, λ d'' e. tt),
)
  where
    next_of : {d d' : Daemon} → turn silent fed ≡ next d → turn silent fed ≡ next d' → d ≡ d'
    next_of h e = cc

abbrev read_request : Step idle passed
read_request =
    on_read (λ n. silent) 2 [] (queue_read 0 0) [] request idle passed (λ n c. tt) (omega arith)
      refl handled

served : (n : ℕ) → IsServer 1 silent
served n = record {
  dirs = λ path. tt;
  files = λ path. tt;
  few_dirs = λ path. omega arith;
  few_files = λ path. omega arith;
}

-- The table holds the link "ln" of the directory 2 under 4.
before : Holds (2, codes "ln") 4 5 depot 0
unfolding same_key
before = record {
  tree = depot_tree;
  store = depot-IsStore;
  held = refl;
  name = omega arith;
  ids = omega arith;
}

Reach-Holds_example : Holds (2, codes "ln") 4 17 passed.daemon.table 0
Reach-Holds_example =
    Reach-Holds (2, codes "ln") 4 1 5 (later here read_request) (tt, (served, low)) (omega arith)
      before
