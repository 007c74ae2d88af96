-- ===== src/Pool/Actions.antt =====
-- The actions of a thread end, and stay inside the array of results.
use p4fuse.Base.{ℕ, ◌<◌, ◌≤◌, ◌≡◌, Option, some, List, ◌∷◌}
use p4fuse.Pool.{ActionE, ThreadContext, AsyncOutput, AsyncCommand, MsgtypeE, num_results}

module _ (run : AsyncCommand → List AsyncOutput) (w : List MsgtypeE → ℕ)
    (low : (q : List MsgtypeE) → w q < num_results) where
  -- A thread behind its action, from the results of `tc`.
  abbrev Ends : MsgtypeE → ThreadContext → Option ThreadContext → Type 0
  Ends value tc r =
      (tc' : ThreadContext) × (qs : List MsgtypeE) × (r ≡ some tc')
      × (tc'.action ≡ ActionE.finished)
      × (tc'.queued ≡ value ∷ qs)
      × (tc'.num_res ≤ num_results)
      × ((i : ℕ) → num_results ≤ i → tc'.result i ≡ tc.result i)
