-- ===== src/Iapyx/Controller/Waiting.antt =====
-- When `wait_for_pending_transactions` of iapyx/src/controller.rs comes back.
use vit_testing.Prelude.{
  ℕ, zero, suc, ◌+◌, ◌^◌, ◌≤◌, ◌<◌, ◌≡◌, ◌≢◌, refl, ◌∙◌, false, List, [], ◌∷◌, Result, ok, err,
  lt→ltb, arith, ◌⊎◌, inl, inr,
}
use vit_testing.Mock.Run.{Run, returns}
use vit_testing.Iapyx.Controller.{
  WalletLib, ControllerError, is_empty, Logs, settle, wait_from, wait_for_pending_transactions,
}

module _ (l : WalletLib) (answers : ℕ → Logs l) where
  abbrev Outcome : Type 0
  Outcome = Run (Result (ControllerError l) (Unit {0}) × l.Wallet)

  -- The wallet at the start of a later round, if none of those before returned.
  unfoldable pub after : ℕ → ℕ → l.Wallet → l.Wallet
  after zero round w = w
  after (suc k) round w =
      after k (suc round) (settle l (answers round) (l.pending_transactions w) w)

  wait_from-no_error :
      (rounds round limit : ℕ) (w w' : l.Wallet) (e : ControllerError l)
      → 0 < limit
      → wait_from l rounds answers round limit w ≢ returns (err e, w')
  unfolding wait_from
  wait_from-no_error zero round limit w w' e h q = cc
  wait_from-no_error (suc r) round limit w w' e h q = ground (
    arith,
    wait_from-no_error r (suc round) (limit + 1)
        (settle l (answers round) (l.pending_transactions w) w) w' e,
  )

  -- However long the transactions stay pending, waiting for them never ends with the error that they
  -- were pending for too long.
  pub wait_for_pending_transactions-no_error :
      (rounds : ℕ) (w w' : l.Wallet) (e : ControllerError l)
      → wait_for_pending_transactions l rounds answers w ≢ returns (err e, w')
  unfolding wait_for_pending_transactions
  wait_for_pending_transactions-no_error rounds w w' e =
      wait_from-no_error rounds 0 60 w w' e (omega arith)

  wait_from-empty :
      (rounds round limit : ℕ) (w : l.Wallet)
      → 0 < limit
      → l.pending_transactions w ≡ []
      → wait_from l (suc rounds) answers round limit w ≡ returns (ok tt, w)
  unfolding wait_from
  wait_from-empty rounds round limit w h e = ground arith

  empty-cases : (ids : List l.FragmentId) → (ids ≡ []) ⊎ (is_empty ids ≡ false)
  empty-cases [] = inl refl
  empty-cases (i ∷ ids) = inr refl

  wait_from-busy :
      (rounds round limit : ℕ) (w : l.Wallet)
      → 0 < limit
      → limit + 1 < 2 ^ 31
      → is_empty (l.pending_transactions w) ≡ false
      → wait_from l (suc rounds) answers round limit w
        ≡ wait_from l rounds answers
            (suc round)
            (limit + 1)
            (settle l (answers round) (l.pending_transactions w) w)
  unfolding wait_from
  wait_from-busy rounds round limit w h b e = ground (arith, lt→ltb (limit + 1) (2 ^ 31) b)

  -- Waiting comes back with the wallet of a round in which nothing is pending.
  ComesBack : ℕ → ℕ → ℕ → l.Wallet → Type 0
  ComesBack k round limit w =
      (j : ℕ) × (j ≤ k)
      × (wait_from l (suc k) answers round limit w ≡ returns (ok tt, after j round w))
      × (l.pending_transactions (after j round w) ≡ [])

  wait_from-returns :
      (k round limit : ℕ) (w : l.Wallet)
      → 0 < limit
      → limit + k < 2 ^ 31
      → l.pending_transactions (after k round w) ≡ []
      → ComesBack k round limit w
  unfolding after ComesBack
  wait_from-returns zero round limit w h b e =
      (0, omega arith, wait_from-empty 0 round limit w h e, e)
  wait_from-returns (suc k) round limit w h b e = elim (empty-cases (l.pending_transactions w)) [
    | inl n ↦ (0, omega arith, wait_from-empty (suc k) round limit w h n, n)
    | inr n ↦
        let w' = settle l (answers round) (l.pending_transactions w) w in
        let (j, le, run, none_left) =
          wait_from-returns k (suc round) (limit + 1) w' (omega arith) (omega arith) e in
        (
          suc j,
          omega arith,
          wait_from-busy (suc k) round limit w h (omega arith) n ∙ run,
          none_left,
        )
  ]

  -- If by some round the answers of the backend have settled all that is pending, and the limit can be
  -- counted up to there in 32 bits, waiting comes back without an error, in that round or one
  -- before it, with the wallet of that round, in which nothing is pending.
  pub wait_for_pending_transactions-returns :
      (k : ℕ) (w : l.Wallet)
      → 60 + k < 2 ^ 31
      → l.pending_transactions (after k 0 w) ≡ []
      → (j : ℕ) × (j ≤ k)
        × (wait_for_pending_transactions l (suc k) answers w ≡ returns (ok tt, after j 0 w))
        × (l.pending_transactions (after j 0 w) ≡ [])
  unfolding wait_for_pending_transactions ComesBack
  wait_for_pending_transactions-returns k w b e = wait_from-returns k 0 60 w (omega arith) b e
