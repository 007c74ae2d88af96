-- ===== src/Pool/Results.antt =====
-- The results that a command leaves: which fit the array, and that more than these need the parent.
use p4fuse.Base.{
  ℕ, ◌+◌, ◌<◌, ◌≤◌, ◌≡◌, ◌≢◌, ◌⊎◌, refl, ap, ◌∙◌, arith, inl, inr, Bool, ◌&&◌, Option, some, none,
  List, [], ◌∷◌, ◌==◌, ==→≡, ≢→==, Bool-cases, if◌then◌else◌, drop,
}
use p4fuse.Pool.{
  Parent, ThreadContext, AsyncOutput, info, stat, NodeRes, MsgtypeE, num_results, inc_result_num,
  set_result, stat_result, info_result, async_output, async_outputs, woken_result,
}

-- The number of results that the output takes, with `b_dir` set or not.
abbrev pub results : Bool → List AsyncOutput → ℕ
results b [] = 0
results b (info level line ∷ os) = (if level == b'1' && b then 1 else 0) + results b os
results b (stat depot_file head_type file_size ∷ os) = 1 + results b os

-- A result is filled: the counter is the same, and so are the other results.
pub record Filled (tc : ThreadContext) (idx : ℕ) (tc' : ThreadContext) : Type 0 where
  pub num_res : tc'.num_res ≡ tc.num_res
  pub b_dir : tc'.b_dir ≡ tc.b_dir
  pub queued : tc'.queued ≡ tc.queued
  pub others : (i : ℕ) → i ≢ idx → tc'.result i ≡ tc.result i

set_result-Filled :
    (tc : ThreadContext) (idx : ℕ) (nr : NodeRes) → Filled tc idx (set_result tc idx nr)
set_result-Filled tc idx nr = record {
  num_res = refl;
  b_dir = refl;
  queued = refl;
  others = λ i ne. rw (≢→== i idx ne) refl;
}

stat_result-Filled :
    (tc : ThreadContext) (idx : ℕ) (filenm types : List ℕ) (size : Option ℕ)
    → Filled tc idx (stat_result tc idx filenm types size)
stat_result-Filled tc idx filenm types none = record {
  num_res = refl;
  b_dir = refl;
  queued = refl;
  others = λ i ne. refl;
}
stat_result-Filled tc idx filenm types (some size) = set_result-Filled tc idx _

-- What a callback does: nothing, or one result.
module _ (woken : Parent) (o : AsyncOutput) (tc : ThreadContext) where
  pub record Passes : Type 0 where
    pub count : results tc.b_dir (o ∷ []) ≡ 0
    pub result : async_output woken o tc ≡ some tc

  pub record Takes : Type 0 where
    pub count : results tc.b_dir (o ∷ []) ≡ 1
    pub fills :
        (idx : ℕ) (tc1 : ThreadContext)
        → inc_result_num woken tc ≡ some (idx, tc1)
        → (tc' : ThreadContext) × (async_output woken o tc ≡ some tc') × Filled tc1 idx tc'
    pub waits : inc_result_num woken tc ≡ none → async_output woken o tc ≡ none

pub async_output-cases :
    (woken : Parent) (o : AsyncOutput) (tc : ThreadContext) → Passes woken o tc ⊎ Takes woken o tc
unfolding async_output
async_output-cases woken (info level line) tc = elim (Bool-cases (level == b'1' && tc.b_dir)) [
  | inl taken ↦ inr (record {
    count = rw taken refl;
    fills = λ idx tc1 e.
        (info_result tc1 idx (drop 4 line), rw (taken, e) refl, set_result-Filled tc1 idx _);
    waits = λ e. rw (taken, e) refl;
  })
  | inr skipped ↦ inl (record { count = rw skipped refl; result = rw skipped refl })
]
async_output-cases woken (stat depot_file head_type file_size) tc = inr (record {
  count = refl;
  fills = λ idx tc1 e. (
    stat_result tc1 idx (drop tc.len depot_file) head_type file_size,
    rw (e, async_output) refl,
    stat_result-Filled tc1 idx (drop tc.len depot_file) head_type file_size,
  );
  waits = λ e. rw (e, async_output) refl;
})

-- The next result, or none behind a full array.
pub inc_result_num-cases :
    (woken : Parent) (tc : ThreadContext)
    → tc.num_res ≤ 256
    → ((tc.num_res < 256)
        × (inc_result_num woken tc ≡ some (tc.num_res, record tc { num_res = tc.num_res + 1 })))
      ⊎ ((tc.num_res ≡ 256)
          × (inc_result_num woken tc
              ≡ woken_result
                  (woken (MsgtypeE.enum_progress ∷ tc.queued))
                  (record tc { num_res = 257; queued = MsgtypeE.enum_progress ∷ tc.queued })))
unfolding inc_result_num
inc_result_num-cases woken tc h = elim (Bool-cases (tc.num_res == num_results)) [
  | inl full ↦ inr (==→≡ _ _ full, rw (full, ==→≡ _ _ full) refl)
  | inr more ↦
      inl (
        ground arith,
        rw more (ap (λ n. some (tc.num_res, record tc { num_res = n })) (omega arith)),
      )
]

-- The callbacks on an array that the parent empties.
record Fits (tc tc' : ThreadContext) : Type 0 where
  count : tc'.num_res ≤ 256
  beyond : (i : ℕ) → 256 ≤ i → tc'.result i ≡ tc.result i

async_output-Fits :
    (w : List MsgtypeE → ℕ) (o : AsyncOutput) (tc : ThreadContext)
    → ((q : List MsgtypeE) → w q < 256)
    → tc.num_res ≤ 256
    → (tc' : ThreadContext) × (async_output (λ q. some (w q)) o tc ≡ some tc') × Fits tc tc'
async_output-Fits w o tc low h = elim (async_output-cases (λ q. some (w q)) o tc) [
  | inl p ↦ (tc, p.result, record { count = h; beyond = λ i k. refl })
  | inr t ↦ elim (inc_result_num-cases (λ q. some (w q)) tc h) [
    | inl (less, e) ↦ filled (tc.num_res) _ less (omega arith) (λ i. refl) (t.fills _ _ e)
    | inr (full, e) ↦
        filled v emptied (low _) (omega (arith, low (MsgtypeE.enum_progress ∷ tc.queued)))
          (λ i. refl) (t.fills v emptied (e ∙ woken))
  ]
]
  where
    v : ℕ
    v = w (MsgtypeE.enum_progress ∷ tc.queued)

    emptied : ThreadContext
    emptied = record tc { num_res = v + 1; queued = MsgtypeE.enum_progress ∷ tc.queued }

    woken :
        woken_result
          (some v)
          (record tc { num_res = 257; queued = MsgtypeE.enum_progress ∷ tc.queued })
        ≡ some (v, emptied)
    woken = rw (≢→== v 257 (λ q. omega (arith, q, low (MsgtypeE.enum_progress ∷ tc.queued)))) (
        ap (λ n. some (v, record emptied { num_res = n }))
          (omega (arith, low (MsgtypeE.enum_progress ∷ tc.queued))))

    filled :
        (idx : ℕ) (tc1 : ThreadContext)
        → idx < 256
        → tc1.num_res ≤ 256
        → ((i : ℕ) → tc1.result i ≡ tc.result i)
        → (tc' : ThreadContext) × (async_output (λ q. some (w q)) o tc ≡ some tc')
          × Filled tc1 idx tc'
        → (tc' : ThreadContext) × (async_output (λ q. some (w q)) o tc ≡ some tc') × Fits tc tc'
    filled idx tc1 k n same (tc', e, f) = (
      tc',
      e,
      record {
        count = rw f.num_res n;
        beyond = λ i far. f.others i (λ q. omega (arith, q, far, k)) ∙ same i;
      },
    )

-- Where the parent resets the counter to less than NUM_RESULTS whenever the array is full, a
-- command ends, whatever it puts out, and only the array of NUM_RESULTS results is written, if the
-- counter is at most NUM_RESULTS at the start, which then holds at the end.
pub async_outputs-bounded :
    (w : List MsgtypeE → ℕ) (os : List AsyncOutput) (tc : ThreadContext)
    → ((q : List MsgtypeE) → w q < num_results)
    → tc.num_res ≤ num_results
    → (tc' : ThreadContext) × (async_outputs (λ q. some (w q)) os tc ≡ some tc')
      × (tc'.num_res ≤ num_results)
      × ((i : ℕ) → num_results ≤ i → tc'.result i ≡ tc.result i)
unfolding async_outputs
async_outputs-bounded w [] tc low h = (tc, refl, h, λ i k. refl)
async_outputs-bounded w (o ∷ os) tc low h =
    go (async_output-Fits w o tc low h) (λ tc1. async_outputs-bounded w os tc1 low)
  where
    go :
        (tc1 : ThreadContext) × (async_output (λ q. some (w q)) o tc ≡ some tc1) × Fits tc tc1
        → ((tc1 : ThreadContext)
            → tc1.num_res ≤ num_results
            → (tc' : ThreadContext) × (async_outputs (λ q. some (w q)) os tc1 ≡ some tc')
              × (tc'.num_res ≤ num_results)
              × ((i : ℕ) → num_results ≤ i → tc'.result i ≡ tc1.result i))
        → (tc' : ThreadContext) × (async_outputs (λ q. some (w q)) (o ∷ os) tc ≡ some tc')
          × (tc'.num_res ≤ num_results)
          × ((i : ℕ) → num_results ≤ i → tc'.result i ≡ tc.result i)
    go (tc1, e, f) rest = (r.0, rw (e, async_outputs) (r.1), r.2, λ i k. r.3 i k ∙ f.beyond i k)
      where
        r :
            (tc' : ThreadContext) × (async_outputs (λ q. some (w q)) os tc1 ≡ some tc')
            × (tc'.num_res ≤ num_results)
            × ((i : ℕ) → num_results ≤ i → tc'.result i ≡ tc1.result i)
        r = rest tc1 f.count
