-- ===== src/Pool.antt =====
-- threadpool.cpp, tp.hpp and exec.hpp: threads that run Perforce commands for the event loop. The
-- build leaves them out.
pub mod Results
pub mod Counts
pub mod Actions
pub mod Waiting
use p4fuse.Base.{
  ℕ, zero, suc, ◌+◌, ◌^◌, ◌%◌, Bool, true, false, ◌&&◌, not, Option, none, some, List, [], ◌∷◌,
  length, drop, u8, u32, sub64, ◌==◌, ltb, if◌then◌else◌, codes, starts_with, ptr,
}
use p4fuse.Ring.{Bytes}

-- `action_e`, `msgtype_e` and `ftype_e`
pub data ActionE : Type 0 where
  waiting finished list sync : ActionE

pub data MsgtypeE : Type 0 where
  read_cmd write_cmd sync_finished enum_finished enum_progress init_open open_failed : MsgtypeE

abbrev pub regfile : ℕ
regfile = 1

abbrev pub symlink : ℕ
symlink = 2

abbrev pub directory : ℕ
directory = 3

-- `NodeRes`, with its bit fields of 60, 1 and 3 bits.
pub record NodeRes : Type 0 where
  pub size : ℕ
  pub b_dir : Bool
  pub kind : ℕ
  pub len : ℕ
  pub name : Bytes

-- NUM_RESULTS
abbrev pub num_results : ℕ
num_results = 2 ^ 8

-- `ThreadContext`, with the member `bDir` of its `AsyncClient`, and the messages that the thread has
-- queued to its parent's ring, the last one first.
pub record ThreadContext : Type 0 where
  pub filename : Bytes
  pub len : ℕ
  pub unique : ℕ
  pub action : ActionE
  pub b_dir : Bool
  pub result : ℕ → NodeRes
  pub num_res : ℕ
  pub inode : ℕ
  pub queued : List MsgtypeE

-- `queue_thr_message`
abbrev pub queue_thr_message : MsgtypeE → ThreadContext → ThreadContext
queue_thr_message value tc = record tc { queued = value ∷ tc.queued }

-- What the parent stores in `num_res` to wake a thread that has queued the messages, if it does. The
-- messages tell one wake from the next: the thread queues `enum_progress` before each.
abbrev pub Parent : Type 0
Parent = List MsgtypeE → Option ℕ

-- The end of `inc_result_num` behind a full array: `old` is what the parent stored. The thread waits
-- for ever if there is no such value, or if it is the one that the thread waits on.
abbrev pub woken_result : Option ℕ → ThreadContext → Option (ℕ × ThreadContext)
woken_result none tc = none
woken_result (some old) tc =
    if old == num_results + 1 then none else some (old, record tc { num_res = u32 (old + 1) })

-- `inc_result_num(tc)`
unfoldable pub inc_result_num : Parent → ThreadContext → Option (ℕ × ThreadContext)
inc_result_num woken tc =
    let old = tc.num_res in
    let tc1 = record tc { num_res = u32 (old + 1) } in
    if old == num_results
    then (let tc2 = queue_thr_message MsgtypeE.enum_progress tc1 in
        woken_result (woken tc2.queued) tc2)
    else some (old, tc1)

-- What the client library hands to `OutputInfo` and to `OutputStat`: of the dictionary, the texts of
-- "depotFile" and "headType", and the value of "fileSize" if it is there.
pub data AsyncOutput : Type 0 where
  info : ℕ → List ℕ → AsyncOutput
  stat : List ℕ → List ℕ → Option ℕ → AsyncOutput

abbrev pub set_result : ThreadContext → ℕ → NodeRes → ThreadContext
set_result tc idx nr = record tc { result = λ i. if i == idx then nr else tc.result i }

-- `__builtin_memcpy(nr->name, filename, nr->len)`
abbrev pub copy_name : Bytes → ℕ → List ℕ → Bytes
copy_name name len filename = λ i. if ltb i len then ptr filename i else name i

-- The end of `OutputStat` on the result `idx`; without a size the result is left as it was.
abbrev pub stat_result : ThreadContext → ℕ → List ℕ → List ℕ → Option ℕ → ThreadContext
stat_result tc idx filenm types none = tc
stat_result tc idx filenm types (some size) =
    let nr = tc.result idx in
    set_result tc idx (record nr {
      len = u8 (length filenm);
      name = copy_name nr.name (u8 (length filenm)) filenm;
      size = size % 2 ^ 60;
      kind = if starts_with types (codes "symlink") then symlink else regfile;
    })

-- The end of `OutputInfo` on the result `idx`.
abbrev pub info_result : ThreadContext → ℕ → List ℕ → ThreadContext
info_result tc idx filename =
    let nr = tc.result idx in
    set_result tc idx (record nr {
      len = u8 (length filename);
      name = copy_name nr.name (u8 (length filename)) filename;
      kind = directory;
    })

-- `OutputInfo(level, data)` and `OutputStat(dict)`
unfoldable pub async_output : Parent → AsyncOutput → ThreadContext → Option ThreadContext
async_output woken (info level line) tc =
    if not (level == b'1' && tc.b_dir) then some tc else elim (inc_result_num woken tc) [
      | none ↦ none
      | some (idx, tc1) ↦ some (info_result tc1 idx (drop 4 line))
    ]
async_output woken (stat depot_file head_type file_size) tc = elim (inc_result_num woken tc) [
  | none ↦ none
  | some (idx, tc1) ↦ some (stat_result tc1 idx (drop tc.len depot_file) head_type file_size)
]

-- `tc->p4c.Run(…, &tc->p4u)`, for the output that the server makes of the command.
unfoldable pub async_outputs : Parent → List AsyncOutput → ThreadContext → Option ThreadContext
async_outputs woken [] tc = some tc
async_outputs woken (o ∷ os) tc = elim (async_output woken o tc) [
  | none ↦ none
  | some tc1 ↦ async_outputs woken os tc1
]

abbrev pub set_filename : ThreadContext → ℕ → ℕ → ThreadContext
set_filename tc at c = record tc { filename = λ i. if i == at then c else tc.filename i }

-- The commands of a thread, with the path in `filename`, which ends before the first 0.
pub data AsyncCommand : Type 0 where
  dirs fstat sync : Bytes → AsyncCommand

module _ (run : AsyncCommand → List AsyncOutput) (woken : Parent) where
  -- `case action_e::list`
  unfoldable pub list_action : ThreadContext → Option ThreadContext
  list_action tc =
      let tc1 = set_filename (set_filename tc tc.len b'*') (tc.len + 1) 0 in
      elim (async_outputs woken (run (AsyncCommand.dirs tc1.filename))
        (record tc1 { b_dir = true })) [
          | none ↦ none
          | some tc2 ↦
              elim (async_outputs woken (run (AsyncCommand.fstat tc1.filename))
                (record tc2 { b_dir = false })) [
                  | none ↦ none
                  | some tc3 ↦ some (
                      queue_thr_message MsgtypeE.enum_finished
                        (record tc3 { action = ActionE.finished }))
                ]
        ]

  -- `case action_e::sync`, which has no `break` at its end.
  unfoldable pub sync_action : ThreadContext → Option ThreadContext
  sync_action tc =
      let tc1 = record (set_filename tc (sub64 tc.len 1) 0) { num_res = 0 } in
      elim (async_outputs woken (run (AsyncCommand.sync tc1.filename)) tc1) [
        | none ↦ none
        | some tc2 ↦
            some
              (queue_thr_message MsgtypeE.sync_finished (record tc2 { action = ActionE.finished }))
      ]

  -- `switch(action)` in `thread_main`
  unfoldable pub run_action : ActionE → ThreadContext → Option ThreadContext
  run_action ActionE.sync tc = elim (sync_action tc) [ none ↦ none | some tc1 ↦ list_action tc1 ]
  run_action ActionE.list tc = list_action tc
  run_action _ tc = some tc

-- MAX_RETRIES
abbrev pub max_retries : ℕ
max_retries = 100

-- What `tp_wait_for_nval` does to the outside: it stores a value in `*wait`, or makes its system call.
pub data WaitEvent : Type 0 where
  store_wait : ℕ → WaitEvent
  futex_call : WaitEvent

-- The end of a round: the two stores and the call between them, the last one first.
abbrev pub end_round : List WaitEvent → List WaitEvent
end_round es = store_wait 0 ∷ futex_call ∷ store_wait 1 ∷ es

-- `tp_wait_for_nval(loc, wait, val)`, on the values that the loads of `loc` give one after the other,
-- from the load `at` on, with `tries` of the inner loop left: the value, and what was done to the
-- outside, behind `done`. A round of the fuel is a load.
unfoldable pub tp_wait_for_nval :
    (ℕ → ℕ) → ℕ → ℕ → ℕ → ℕ → List WaitEvent → Option (ℕ × List WaitEvent)
tp_wait_for_nval loads val zero at tries done = none
tp_wait_for_nval loads val (suc fuel) at tries done =
    let last = tries == 1 in
    let rest =
      tp_wait_for_nval loads val fuel (at + 1) (if last then max_retries else sub64 tries 1)
        (if last then end_round done else done) in
    if loads at == val then rest else some (loads at, done)
