-- ===== src/Mock/Ledger/Logs.antt =====
-- What `message` of vitup/src/mock/ledger_state.rs does to the logs and the ledger, and what
-- `statuses` shows of it.
use vit_testing.Prelude.{
  ℕ, suc, ◌<◌, ◌+◌, ◌≡◌, refl, ◌∙◌, [], ◌∷◌, ◌++◌, Result, ok, err, lt→ltb, sym,
}
use vit_testing.Mock.Chain.{Chain, FragmentStatus, rejected, in_a_block}
use vit_testing.Mock.Run.{returns, returns-injective, >>=-eq-returns}
use vit_testing.Mock.Ledger.{
  FragmentRecieveStrategy, reject, accept, pending, no_override, LedgerState, curr_block_date,
  set_fragment_status, message,
}
use vit_testing.Mock.Ledger.Clock.{
  block0_ns, slot_ns, curr_block_date_lem, curr_block_date-eq-returns,
}

module _ (c : Chain) where
  -- Block 0 is earlier than one slot after the start of the mock.
  abbrev pub IsFresh : LedgerState c → Type 0
  IsFresh s = block0_ns c s < s.start_time + slot_ns c s

  -- The date at which the mock applies fragments.
  abbrev pub date_of : LedgerState c → c.BlockDate
  date_of s = c.shift_slot (c.slots_per_epoch s.block0_configuration) 0

  curr_block_date-fresh :
      (r : ℕ) (s : LedgerState c) → IsFresh s → curr_block_date c (suc r) s ≡ returns (date_of s)
  curr_block_date-fresh r s h = curr_block_date_lem c r s ∙ rw (lt→ltb _ _ h)

  -- What the ledger says of a fragment.
  abbrev pub verdict_of : LedgerState c → c.Fragment → Result c.LedgerError c.Ledger
  verdict_of s fragment =
      c.apply_fragment s.ledger (c.get_ledger_parameters s.ledger) fragment (date_of s)

  -- The status that a strategy gives to a fragment, from the ledger's verdict.
  abbrev pub status_for :
      FragmentRecieveStrategy
      → Result c.LedgerError c.Ledger
      → c.Hash
      → c.BlockDate
      → FragmentStatus c.BlockDate c.Hash
  status_for reject v block date = rejected "Force reject by mock"
  status_for accept v block date = in_a_block date block
  status_for pending v block date = FragmentStatus.pending
  status_for no_override (ok _) block date = in_a_block date block
  status_for no_override (err e) block date = rejected (c.error_to_string e)

  -- The ledger moves on only where no strategy overrides its verdict.
  abbrev pub ledger_for :
      FragmentRecieveStrategy → Result c.LedgerError c.Ledger → c.Ledger → c.Ledger
  ledger_for no_override (ok l) old = l
  ledger_for _ _ old = old

  abbrev pub after_message : c.Hash → c.Fragment → LedgerState c → LedgerState c
  after_message block fragment s = record s {
    received_fragments = s.received_fragments ++ fragment ∷ [];
    fragment_logs =
        s.fragment_logs
        ++ c.modify (status_for s.fragment_strategy (verdict_of s fragment) block (date_of s))
            (c.new_log (c.fragment_id fragment))
          ∷ [];
    ledger = ledger_for s.fragment_strategy (verdict_of s fragment) s.ledger;
  }

  set_fragment_status-fresh :
      (r : ℕ) (block : c.Hash) (log : c.FragmentLog) (strategy : FragmentRecieveStrategy)
      (v : Result c.LedgerError c.Ledger) (s : LedgerState c)
      → IsFresh s
      → set_fragment_status c (suc r) block log strategy v s
        ≡ returns (
          c.modify (status_for strategy v block (date_of s)) log,
          record s { ledger = ledger_for strategy v s.ledger },
        )
  unfolding set_fragment_status
  set_fragment_status-fresh r block log no_override (ok l) s h =
      rw (curr_block_date-fresh r (record s { ledger = l }) h)
  set_fragment_status-fresh r block log no_override (err e) s h = refl
  set_fragment_status-fresh r block log reject v s h = rw (curr_block_date-fresh r s h)
  set_fragment_status-fresh r block log accept v s h = rw (curr_block_date-fresh r s h)
  set_fragment_status-fresh r block log pending v s h = rw (curr_block_date-fresh r s h)

  -- If block 0 is earlier than one slot after the start of the mock and there is a round to run,
  -- `message` returns the id of the fragment, notes the fragment, appends one log with the status
  -- of the strategy, or of the ledger's verdict where no strategy overrides it, and moves the
  -- ledger on only in that last case and if the verdict is good.
  pub message_lem :
      (r : ℕ) (block : c.Hash) (fragment : c.Fragment) (s : LedgerState c)
      → IsFresh s
      → message c (suc r) block fragment s
        ≡ returns (c.fragment_id fragment, after_message block fragment s)
  unfolding message
  message_lem r block fragment s h =
      let received = record s { received_fragments = s.received_fragments ++ fragment ∷ [] } in
      rw (
        curr_block_date-fresh r received h,
        set_fragment_status-fresh r block (c.new_log (c.fragment_id fragment)) s.fragment_strategy
            (verdict_of s fragment) received h,
      )

  message-date :
      (rounds : ℕ) (block : c.Hash) (fragment : c.Fragment) (s : LedgerState c)
      {out : c.FragmentId × LedgerState c}
      → message c rounds block fragment s ≡ returns out
      → (date : c.BlockDate) × (curr_block_date c rounds
            (record s { received_fragments = s.received_fragments ++ fragment ∷ [] })
          ≡ returns date)
  unfolding message
  message-date rounds block fragment s h =
      let (date, e, _) = >>=-eq-returns (curr_block_date c rounds _) _ h in (date, e)

  -- However many rounds it has, a `message` that returns has returned the id of the fragment and
  -- appended the log of the strategy, or of the ledger's verdict where no strategy overrides it, as
  -- `after_message` says.
  pub message-eq-returns :
      (rounds : ℕ) (block : c.Hash) (fragment : c.Fragment) (s : LedgerState c)
      {out : c.FragmentId × LedgerState c}
      → message c rounds block fragment s ≡ returns out
      → out ≡ (c.fragment_id fragment, after_message block fragment s)
  message-eq-returns rounds block fragment s {out} h =
      let (date, e) = message-date rounds block fragment s h in
      let (r, more, fresh) = curr_block_date-eq-returns c rounds _ e in
      returns-injective out (c.fragment_id fragment, after_message block fragment s)
        (sym h ∙ rw more (message_lem r block fragment s fresh))
