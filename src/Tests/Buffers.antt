-- ===== src/Tests/Buffers.antt =====
-- The theorems on the buffers and on the ring, applied to small inputs.
use p4fuse.Base.{◌+◌, ◌-◌, ◌%◌, ◌^◌, ◌≡◌, ◌⊎◌, ◌<◌, ◌≤◌, ◌↔◌, arith}
use p4fuse.Buffer.{align_up, alloc_chunk, buf_sz}
use p4fuse.Buffer.Laws.{IsFitted, IsRefused, alloc_chunk_lem}
use p4fuse.Ring.{copyin_wrap, queue_read}
use p4fuse.Ring.Laws.{window, copyin_wrap-window, Offered, queue_read-Offered, queue_read-overlap}

alloc_chunk_lem_example :
    IsFitted 13 24 (2 ^ 3) (alloc_chunk 13 24 (2 ^ 3)) (align_up 13 (2 ^ 3))
    ⊎ IsRefused 13 24 (2 ^ 3) (alloc_chunk 13 24 (2 ^ 3))
alloc_chunk_lem_example = alloc_chunk_lem 3 (omega arith) 13 24 (omega arith) (omega arith)

copyin_wrap-window_example : copyin_wrap (λ i. i) 3 (2 ^ 25 - 1) ≡ window (λ i. i) (2 ^ 25 - 1) 3
copyin_wrap-window_example = copyin_wrap-window (λ i. i) 3 (2 ^ 25 - 1) (omega arith)

queue_read-Offered_example : Offered 9 (queue_read 4 9) ↔ ((9 < 4) ⊎ (9 ≤ 9))
queue_read-Offered_example = queue_read-Offered 4 9 9 (omega arith) (omega arith) (omega arith)

queue_read-overlap_example : Offered ((buf_sz + 3) % buf_sz) (queue_read (buf_sz + 1) (buf_sz + 9))
queue_read-overlap_example =
    queue_read-overlap (buf_sz + 1) (buf_sz + 9) (buf_sz + 3) (omega arith) (omega arith)
      (omega arith)
