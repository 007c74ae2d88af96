-- ===== src/Pool/Waiting.antt =====
-- The wait for another value ends with the first one that differs.
use p4fuse.Base.{
  ℕ, zero, suc, ◌+◌, ◌-◌, ◌/◌, ◌<◌, ◌≤◌, ◌≡◌, ◌≢◌, sym, ap, ◌∙◌, arith, inl, inr, true, Option,
  some, List, [], ◌==◌, ==-refl, ==→≡, ≢→==, Bool-cases, sub64,
}
use p4fuse.Pool.{WaitEvent, end_round, max_retries, tp_wait_for_nval}

-- The events of `k` rounds, behind `es`.
abbrev pub rounds : ℕ → List WaitEvent → List WaitEvent
rounds zero es = es
rounds (suc k) es = rounds k (end_round es)

returned :
    {v w k l : ℕ} (done : List WaitEvent)
    → v ≡ w
    → k ≡ l
    → ◌≡◌ {A = Option (ℕ × List WaitEvent)} (some (v, rounds k done)) (some (w, rounds l done))
returned done p q = λ i. some (p i, rounds (q i) done)

-- With `tries` loads left in the round.
wait_from :
    (loads : ℕ → ℕ) (val fuel at tries : ℕ) (done : List WaitEvent) (n : ℕ)
    → 1 ≤ tries
    → tries ≤ 100
    → n < fuel
    → ((i : ℕ) → i < n → loads (at + i) ≡ val)
    → loads (at + n) ≢ val
    → tp_wait_for_nval loads val fuel at tries done
      ≡ some (loads (at + n), rounds ((n + (100 - tries)) / 100) done)
unfolding tp_wait_for_nval
wait_from loads val zero at tries done n low high enough before found = absurd (omega arith)
wait_from loads val (suc fuel) at tries done zero low high enough before found =
    rw (≢→== (loads at) val (λ e. found (ap loads (omega arith) ∙ e)))
      (returned {k = 0} {l = (0 + (100 - tries)) / 100} done (ap loads (omega arith)) (omega arith))
wait_from loads val (suc fuel) at tries done (suc n) low high enough before found =
    rw same (elim (Bool-cases (tries == 1)) [
      | inl e ↦ rw e (
          wait_from loads val fuel (at + 1) 100 (end_round done) n (omega arith) (omega arith)
            (omega arith) before1 found1
          ∙ returned {k = suc ((n + (100 - 100)) / 100)} {l = (suc n + (100 - tries)) / 100} done
              next (omega (arith, ==→≡ tries 1 e)))
      | inr e ↦ rw e (
          wait_from loads val fuel (at + 1) (sub64 tries 1) done n (ground arith) (ground arith)
            (omega arith) before1 found1
          ∙ returned {k = (n + (100 - sub64 tries 1)) / 100} {l = (suc n + (100 - tries)) / 100}
              done next (ground arith))
    ])
  where
    same : (loads at == val) ≡ true
    same = rw (ap loads {x = at} {y = at + 0} (omega arith) ∙ before 0 (omega arith)) (==-refl val)

    next : loads (at + 1 + n) ≡ loads (at + suc n)
    next = ap loads (omega arith)

    before1 : (i : ℕ) → i < n → loads (at + 1 + i) ≡ val
    before1 i h = ap loads {y = at + suc i} (omega arith) ∙ before (suc i) (omega arith)

    found1 : loads (at + 1 + n) ≢ val
    found1 e = found (sym next ∙ e)

-- `tp_wait_for_nval` ends: if the load `n` is the first that gives another value than `val`, then it
-- returns this value, and for each hundred of the loads before it stores 1 in `*wait`, makes one
-- system call, and stores 0 there, in this order and nothing else; a fuel of n + 1 is enough.
pub tp_wait_for_nval-ends :
    (loads : ℕ → ℕ) (val fuel n : ℕ)
    → n < fuel
    → ((i : ℕ) → i < n → loads i ≡ val)
    → loads n ≢ val
    → tp_wait_for_nval loads val fuel 0 max_retries [] ≡ some (loads n, rounds (n / 100) [])
tp_wait_for_nval-ends loads val fuel n enough before found =
    wait_from loads val fuel 0 100 [] n (omega arith) (omega arith) enough
      (λ i h. ap loads {y = i} (omega arith) ∙ before i h)
      (λ e. found (ap loads {y = 0 + n} (omega arith) ∙ e))
    ∙ returned {k = (n + (100 - 100)) / 100} {l = n / 100} [] (ap loads (omega arith)) (omega arith)
