-- ===== src/Mock/Ledger/Statuses.antt =====
-- What `statuses` of vitup/src/mock/ledger_state.rs shows.
use mathlib.Core.Logic.{ite}
use mathlib.Core.Path.{subst}
use vit_testing.Prelude.{
  ℕ, String, ◌≡◌, ◌∙◌, ap, sym, Option, none, some, List, [], ◌∷◌, ◌++◌, map, filter, arith,
  if◌then◌else◌, eq_iff, true,
}
use vit_testing.Mock.Chain.{Chain, LogLaws, FragmentStatus}
use vit_testing.Mock.Run.{returns}
use vit_testing.Mock.Ledger.{LedgerState, message, statuses, contains_id, get}
use vit_testing.Mock.Ledger.Logs.{
  after_message, message-eq-returns, status_for, verdict_of, date_of,
}

module _ (c : Chain) where
  -- The status in the last log of an id.
  unfoldable pub latest :
      c.FragmentId → List c.FragmentLog → Option (FragmentStatus c.BlockDate c.Hash)
  latest i [] = none
  latest i (l ∷ ls) = elim (latest i ls) [
    | some w ↦ some w
    | none ↦ ite (c.id_discrete (c.log_id l) i) (some (c.log_status l)) none
  ]

  -- The text of an id belongs to that id alone.
  abbrev pub IsFaithful : Type 0
  IsFaithful = (i j : c.FragmentId) → c.id_to_string i ≡ c.id_to_string j → i ≡ j

  module _ (faithful : IsFaithful) (ids : List c.FragmentId) where
    abbrev entries : List c.FragmentLog → List (String × FragmentStatus c.BlockDate c.Hash)
    entries ls =
        map (λ x. (c.id_to_string (c.log_id x), c.log_status x))
          (filter (λ x. contains_id c ids (c.log_id x)) ls)

    get-entries :
        (i : c.FragmentId) (ls : List c.FragmentLog)
        → get c (c.id_to_string i) (entries ls)
          ≡ (if contains_id c ids i then latest i ls else none)
    unfolding get latest
    get-entries i [] = ground arith
    get-entries i (l ∷ ls) = ground (
      arith,
      get-entries i ls,
      faithful (c.log_id l) i,
      eq_iff (c.id_to_string (c.log_id l)) (c.id_to_string i),
    )

  latest-append :
      (i : c.FragmentId) (ls : List c.FragmentLog) (l : c.FragmentLog)
      → c.log_id l ≡ i
      → latest i (ls ++ l ∷ []) ≡ some (c.log_status l)
  unfolding latest
  latest-append i [] l h = ground arith
  latest-append i (k ∷ ls) l h = ground (arith, latest-append i ls l h)

  -- If the text of an id belongs to that id alone, a query shows of each id that it names the
  -- status in the last log of that id, and of no other id anything.
  pub statuses_lem :
      (faithful : IsFaithful) (ids : List c.FragmentId) (s : LedgerState c) (i : c.FragmentId)
      → get c (c.id_to_string i) (statuses c ids s)
        ≡ (if contains_id c ids i then latest i s.fragment_logs else none)
  unfolding statuses
  statuses_lem faithful ids s i = get-entries faithful ids i s.fragment_logs

  contains_id_self : (i : c.FragmentId) → contains_id c (i ∷ []) i ≡ true
  unfolding contains_id
  contains_id_self i = ground arith

  statuses-after_message :
      (laws : LogLaws c) (faithful : IsFaithful) (block : c.Hash) (fragment : c.Fragment)
      (s : LedgerState c)
      → get c
          (c.id_to_string (c.fragment_id fragment))
          (statuses c (c.fragment_id fragment ∷ []) (after_message c block fragment s))
        ≡ some (status_for c s.fragment_strategy (verdict_of c s fragment) block (date_of c s))
  statuses-after_message laws faithful block fragment s =
      let i = c.fragment_id fragment in
      statuses_lem faithful (i ∷ []) (after_message c block fragment s) i
      ∙ rw (contains_id_self i) (
          latest-append i s.fragment_logs _ (laws.id_modify _ (c.new_log i) ∙ laws.id_new i)
          ∙ ap some (laws.status_modify _ i))

  -- If the text of an id belongs to that id alone and a fragment log keeps its id and takes its
  -- first status, then after a message that returned, a query for the id that it returned shows the
  -- status of the mock's strategy, or of the ledger's verdict where no strategy overrides it,
  -- whatever was sent before.
  pub statuses-message :
      (laws : LogLaws c) (faithful : IsFaithful) (rounds : ℕ) (block : c.Hash)
      (fragment : c.Fragment) (s s' : LedgerState c) (i : c.FragmentId)
      → message c rounds block fragment s ≡ returns (i, s')
      → get c (c.id_to_string i) (statuses c (i ∷ []) s')
        ≡ some (status_for c s.fragment_strategy (verdict_of c s fragment) block (date_of c s))
  statuses-message laws faithful rounds block fragment s s' i m =
      subst
        (λ o.
          get c (c.id_to_string o.0) (statuses c (o.0 ∷ []) o.1)
          ≡ some (status_for c s.fragment_strategy (verdict_of c s fragment) block (date_of c s)))
        (sym (message-eq-returns c rounds block fragment s m))
        (statuses-after_message laws faithful block fragment s)
