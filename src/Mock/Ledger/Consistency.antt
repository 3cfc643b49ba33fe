-- ===== src/Mock/Ledger/Consistency.antt =====
-- Whatever is done to the ledger state of vitup/src/mock/ledger_state.rs, its logs stay those of the
-- fragments that it received.
use mathlib.Core.List.{map-append}
use vit_testing.Prelude.{
  ℕ, ◌≡◌, refl, ◌∙◌, ap, sym, none, some, List, [], ◌∷◌, map, Result, ok, arith, Option-cases, inl,
  inr,
}
use vit_testing.Mock.Chain.{Chain, LogLaws}
use vit_testing.Mock.Run.{
  Run, returns, ◌>>=◌, returns-injective, >>=-eq-returns, unwrap, unwrap-eq-returns,
}
use vit_testing.Mock.Ledger.{
  FragmentRecieveStrategy, reject, accept, pending, no_override, LedgerState, curr_block_date,
  message, set_fragment_strategy, set_status_for_recent_fragment, modify_last, override_status, new,
}
use vit_testing.Mock.Ledger.Logs.{after_message, message-eq-returns}
use mathlib.Core.Path.{subst}
use mathlib.Core.Option.{some-injective}

-- The calls that change the state, with the hash that the test generator gives to each.
pub data Call (c : Chain) : Type 0 where
  message_call : c.Hash → c.Fragment → Call c
  strategy_call : FragmentRecieveStrategy → Call c
  recent_call : c.Hash → FragmentRecieveStrategy → Call c

module _ (c : Chain) where
  unfoldable pub call : ℕ → Call c → LedgerState c → Run (LedgerState c)
  call rounds (message_call block fragment) s = do
    (_, s') ← message c rounds block fragment s
    returns s'
  call rounds (strategy_call strategy) s = returns (set_fragment_strategy c strategy s)
  call rounds (recent_call block strategy) s =
      set_status_for_recent_fragment c rounds block strategy s

  unfoldable pub calls : ℕ → List (Call c) → LedgerState c → Run (LedgerState c)
  unfolding call
  calls rounds [] s = returns s
  calls rounds (k ∷ ks) s = do s' ← call rounds k s; calls rounds ks s'

  -- Log by log and fragment by fragment, the same ids.
  abbrev pub IsConsistent : LedgerState c → Type 0
  IsConsistent s = map c.log_id s.fragment_logs ≡ map c.fragment_id s.received_fragments

  new-IsConsistent :
      (config : c.Block0Configuration) (bin : List ℕ) (start : ℕ)
      (ledger : Result c.LedgerError c.Ledger) (s : LedgerState c)
      → new c config bin start ledger ≡ ok s
      → IsConsistent s
  unfolding new
  new-IsConsistent config bin start ledger s h = ground arith

  module _ (f : c.FragmentLog → c.FragmentLog) (x y : c.FragmentLog) (ls : List c.FragmentLog) where
    modify_last-none : modify_last c f (y ∷ ls) ≡ none → modify_last c f (x ∷ y ∷ ls) ≡ none
    unfolding modify_last
    modify_last-none e = rw e

    modify_last-some :
        (zs : List c.FragmentLog)
        → modify_last c f (y ∷ ls) ≡ some zs
        → modify_last c f (x ∷ y ∷ ls) ≡ some (x ∷ zs)
    unfolding modify_last
    modify_last-some zs e = rw e

  module _ (laws : LogLaws c) where
    after_message-IsConsistent :
        (block : c.Hash) (fragment : c.Fragment) (s : LedgerState c)
        → IsConsistent s
        → IsConsistent (after_message c block fragment s)
    after_message-IsConsistent block fragment s h =
        simp (map-append, laws.id_modify, laws.id_new, h)

    log_id-override_status :
        (block : c.Hash) (date : c.BlockDate) (strategy : FragmentRecieveStrategy)
        (log : c.FragmentLog)
        → c.log_id (override_status c block date strategy log) ≡ c.log_id log
    unfolding override_status
    log_id-override_status block date reject log = laws.id_modify _ log
    log_id-override_status block date accept log = laws.id_modify _ log
    log_id-override_status block date pending log = laws.id_modify _ log
    log_id-override_status block date no_override log = refl

    map-modify_last :
        (f : c.FragmentLog → c.FragmentLog)
        → ((l : c.FragmentLog) → c.log_id (f l) ≡ c.log_id l)
        → (ls : List c.FragmentLog) {ks : List c.FragmentLog} → modify_last c f ls ≡ some ks
        → map c.log_id ks ≡ map c.log_id ls
    unfolding modify_last
    map-modify_last f same [] h = cc
    map-modify_last f same (x ∷ []) {ks} h =
        ap (map c.log_id) (sym (some-injective _ _ h)) ∙ ap (λ i. i ∷ []) (same x)
    map-modify_last f same (x ∷ y ∷ ls) {ks} h = elim (Option-cases (modify_last c f (y ∷ ls))) [
      | inl e ↦ cc (modify_last-none f x y ls e)
      | inr (zs, e) ↦
          ap (map c.log_id) (sym (some-injective _ _ (sym (modify_last-some f x y ls zs e) ∙ h)))
          ∙ ap (λ is. c.log_id x ∷ is) (map-modify_last f same (y ∷ ls) e)
    ]

    recent-IsConsistent :
        (rounds : ℕ) (block : c.Hash) (strategy : FragmentRecieveStrategy) (s : LedgerState c)
        {s' : LedgerState c}
        → set_status_for_recent_fragment c rounds block strategy s ≡ returns s'
        → IsConsistent s
        → IsConsistent s'
    unfolding set_status_for_recent_fragment
    recent-IsConsistent rounds block strategy s {s'} e h =
        let (date, _, e₁) = >>=-eq-returns (curr_block_date c rounds s) _ e in
        let update = override_status c block date strategy in
        let (logs, e₂, e₃) = >>=-eq-returns (unwrap (modify_last c update s.fragment_logs)) _ e₁ in
        subst IsConsistent (returns-injective (record s { fragment_logs = logs }) s' e₃) (
          map-modify_last update (log_id-override_status block date strategy) s.fragment_logs
            (unwrap-eq-returns _ logs e₂)
          ∙ h)

    message-IsConsistent :
        (rounds : ℕ) (block : c.Hash) (fragment : c.Fragment) (s : LedgerState c)
        {s' : LedgerState c}
        → call rounds (message_call block fragment) s ≡ returns s'
        → IsConsistent s
        → IsConsistent s'
    unfolding call
    message-IsConsistent rounds block fragment s {s'} e h =
        let (out, e₁, e₂) = >>=-eq-returns (message c rounds block fragment s) _ e in
        let e₃ : out.1 ≡ after_message c block fragment s =
          ap (λ x. x.1) (message-eq-returns c rounds block fragment s e₁) in
        subst IsConsistent (sym e₃ ∙ returns-injective out.1 s' e₂)
          (after_message-IsConsistent block fragment s h)

    call-IsConsistent :
        (rounds : ℕ) (k : Call c) (s : LedgerState c) {s' : LedgerState c}
        → call rounds k s ≡ returns s'
        → IsConsistent s
        → IsConsistent s'
    unfolding set_fragment_strategy
    call-IsConsistent rounds (message_call block fragment) s e h =
        message-IsConsistent rounds block fragment s e h
    call-IsConsistent rounds (strategy_call strategy) s {s'} e h =
        subst IsConsistent
          (returns-injective (set_fragment_strategy c strategy s) s' (unfold call in e)) h
    call-IsConsistent rounds (recent_call block strategy) s {s'} e h =
        recent-IsConsistent rounds block strategy s {s' = s'} (unfold call in e) h

    calls-keep :
        (rounds : ℕ) (ks : List (Call c)) (s : LedgerState c) {s' : LedgerState c}
        → calls rounds ks s ≡ returns s'
        → IsConsistent s
        → IsConsistent s'
    unfolding calls
    calls-keep rounds [] s {s'} e h = subst IsConsistent (returns-injective s s' e) h
    calls-keep rounds (k ∷ ks) s e h =
        let (s₁, e₁, e₂) = >>=-eq-returns (call rounds k s) _ e in
        calls-keep rounds ks s₁ e₂ (call-IsConsistent rounds k s e₁ h)

    -- If a fragment log keeps its id, then from a new ledger state, whatever messages, strategies
    -- and overrides follow, as long as the calls return there is one log for each received
    -- fragment, in the same order and of its id.
    pub calls-IsConsistent :
        (config : c.Block0Configuration) (bin : List ℕ) (start : ℕ)
        (ledger : Result c.LedgerError c.Ledger) (s : LedgerState c) (rounds : ℕ)
        (ks : List (Call c)) (s' : LedgerState c)
        → new c config bin start ledger ≡ ok s
        → calls rounds ks s ≡ returns s'
        → IsConsistent s'
    calls-IsConsistent config bin start ledger s rounds ks s' n e =
        calls-keep rounds ks s e (new-IsConsistent config bin start ledger s n)
