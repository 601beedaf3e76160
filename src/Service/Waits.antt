-- ===== src/Service/Waits.antt =====
-- The loops of src/service.rs and src/main.rs that wait for a flag.
use manta_indexer.Prelude.{
  ℕ, zero, suc, ◌+◌, ◌<◌, ◌≡◌, refl, sym, ap, ◌∙◌, Bool, true, false, [], ◌∷◌, append-nil,
  append_assoc, replicate, arith,
}
use manta_indexer.Service.Calls.{Startup, done, callee, sleep, attempt-true, wait_while, bind-done}
use manta_indexer.Service.Opened.{later}

module _ (test : ℕ → Bool) where
  -- The loop goes on at the looks before the `k`-th from `n` on, and ends there.
  pub record LooksUntil (n k : ℕ) : Type 0 where
    pub waits : (j : ℕ) → j < k → test (n + j) ≡ true
    pub over : test (n + k) ≡ false

  LooksUntil-later : (n k : ℕ) → LooksUntil n (suc k) → LooksUntil (n + 1) k
  LooksUntil-later n k ends = record {
    waits = λ j before. ap test (omega arith) ∙ ends.waits (suc j) (omega (arith, before));
    over = ap test (omega arith) ∙ ends.over;
  }

module _ (test : ℕ → Bool) (seconds : ℕ) where
  -- It sleeps once for each look at which it goes on.
  pub wait_while-ends :
      (fuel n k : ℕ) (s : Startup)
      → k < fuel
      → LooksUntil test n k
      → wait_while test seconds fuel n s ≡ (done tt, later s (replicate k (sleep seconds)))
  unfolding wait_while
  wait_while-ends zero n k s enough ends = absurd (omega arith)
  wait_while-ends (suc fuel) n zero s enough ends =
      let here : test n ≡ false = ap test (omega arith) ∙ ends.over in
      rw here (ap (λ l. (done tt, record s { calls = l })) (sym (append-nil s.calls)))
  wait_while-ends (suc fuel) n (suc k) s enough ends =
      let here : test n ≡ true = ap test (omega arith) ∙ ends.waits 0 (omega arith) in
      rw here (
        bind-done _ _ (attempt-true callee (sleep seconds) s refl)
        ∙ wait_while-ends fuel (n + 1) k _ (omega (arith, enough)) (LooksUntil-later test n k ends)
        ∙ ap (λ l. (done tt, record s { calls = l }))
            (append_assoc s.calls (sleep seconds ∷ []) (replicate k (sleep seconds))))
