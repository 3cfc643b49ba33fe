-- ===== src/Mock/Rest/Query.antt =====
-- The handlers under `v0` and `v1` of vitup/src/mock/rest.rs.
use mathlib.Core.Bool.{decide}
use vit_testing.Prelude.{
  ℕ, String, Bool, Option, none, some, List, [], ◌∷◌, map, filter, find, get_elem?, suc,
  if◌then◌else◌,
}
use vit_testing.Prelude.Int.{ℤ, ◌==ℤ◌}
use vit_testing.Prelude.Text.{codes, split_on}
use vit_testing.Mock.Chain.{Chain}
use vit_testing.Mock.Run
use vit_testing.Mock.Run.{Run, returns, panics, unwrap}
use vit_testing.Mock.Ledger
use vit_testing.Mock.Ledger.{LedgerState}
use vit_testing.Mock.Context
use vit_testing.Mock.Context.{Context, Message, Part, text, int}
use vit_testing.Mock.Server.{
  Handler, ◌>>=◌, ◌>>◌, pure, fail, crash, with_lock, acquire, held, release,
}
use vit_testing.Mock.Rest.Defs.{
  Codec, Rejection, rejection, account_does_not_exist, not_found, block0_reply, plans_reply,
  id_reply, ids_reply, statuses_reply, fragment_logs_reply, debug_reply, challenges_reply,
  challenge_reply, proposals_reply, proposal_reply, fund_reply, settings_reply, account_reply,
  Moment, Serving, reads, logs, enter,
}

-- `map(f).collect::<Result<_, _>>()`
unfoldable pub traverse : {A B : Type 0} → (A → Option B) → List A → Option (List B)
traverse f [] = some []
traverse f (x ∷ xs) = elim (f x) [
  | none ↦ none
  | some y ↦ elim (traverse f xs) [ none ↦ none | some ys ↦ some (y ∷ ys) ]
]

-- `unwrap` outside any guard, and `ok_or_else(..)?`.
abbrev pub or_crash : {X E A : Type 0} → Option A → Handler X E A
or_crash none = crash
or_crash (some a) = pure a

abbrev pub or_fail : {X E A : Type 0} → E → Option A → Handler X E A
or_fail e none = fail e
or_fail e (some a) = pure a

module _ (c : Chain) where
  abbrev pub is_id : c.FragmentId → c.FragmentId → Bool
  is_id i j = decide (c.id_discrete j i)

  -- `hex::decode(message).unwrap()`, then `Fragment::deserialize(..).unwrap()`
  decode : Codec c → String → Option c.Fragment
  decode codec message = elim (codec.decode_hex message) [
    | none ↦ none
    | some bytes ↦ codec.decode_fragment bytes
  ]

  label : (ℕ → c.Hash) → ℕ → List c.Fragment → List (c.Hash × c.Fragment)
  label blocks n [] = []
  label blocks n (f ∷ fs) = (blocks n, f) ∷ label blocks (suc n) fs

  -- The loop of `post_fragments`, with a hash for each fragment.
  unfoldable pub send_all : ℕ → List (c.Hash × c.Fragment) → LedgerState c → Run (LedgerState c)
  send_all rounds [] l = returns l
  send_all rounds ((block, fragment) ∷ rest) l =
      Run.◌>>=◌ (Ledger.message c rounds block fragment l) (λ r. send_all rounds rest r.1)

module _ {c : Chain} {Rest : Type 0} where
  -- A statement that changes the ledger.
  abbrev pub on_ledger :
      {A : Type 0}
      → (LedgerState c → Run (A × LedgerState c))
      → Handler (Context c Rest) Rejection A
  on_ledger f = with_lock λ x.
      Run.map (λ r. (r.0, record x { state = record x.state { ledger_state = r.1 } }))
        (f x.state.ledger_state)

module _ {c : Chain} (codec : Codec c) (Rest : Type 0) where
  -- The guard of `context_lock` is still held where the mutex is locked again.
  unfoldable pub get_active_vote_plans : Moment c → Serving codec Rest
  get_active_vote_plans m = do
    acquire
    held (λ x. (tt, Context.log m.first (text "get_active_vote_plans" ∷ []) x))
    available ← held (λ x. (x.state.available, x))
    if available
        then (do
          vp ← reads (λ x. c.active_vote_plans x.state.ledger_state.ledger)
          release
          pure (plans_reply vp))
        else (do logs m.second (text "unavailability mode is on" ∷ []); fail rejection)

  -- Neither logged nor refused in the mode of unavailability.
  unfoldable pub debug_message : String → Serving codec Rest
  debug_message id_hex = do
    id ← or_fail (not_found (text id_hex ∷ [])) (codec.parse_id (codes id_hex))
    fragments ← reads (λ x. x.state.ledger_state.received_fragments)
    fragment ←
        or_fail (not_found (text (c.id_to_string id) ∷ []))
          (find (λ f. is_id c id (c.fragment_id f)) fragments)
    pure (debug_reply (codec.debug_fragment fragment))

  unfoldable pub post_message : Moment c → List ℕ → Serving codec Rest
  post_message m message = elim (codec.decode_fragment message) [
    | none ↦ (do
      logs m.first (
          text "post_message with wrong fragment. Reason '"
          ∷ text (codec.decode_error message)
          ∷ text "'..."
          ∷ [])
      fail rejection)
    | some fragment ↦ (do
      enter m
          (text "post_message " ∷ text (c.id_to_string (c.fragment_id fragment)) ∷ text "..." ∷ [])
      id ← on_ledger (Ledger.message c m.rounds m.block fragment)
      pure (id_reply id))
  ]

  -- Each message has its own hash; the fragments are sent under one guard.
  unfoldable pub post_fragments : Moment c → (ℕ → c.Hash) → List String → Serving codec Rest
  unfolding traverse send_all decode label
  post_fragments m blocks messages = do
    enter m (text "post_fragments" ∷ [])
    fragments ← or_crash (traverse (decode c codec) messages)
    on_ledger (λ l. Run.map (λ l'. (tt, l')) (send_all c m.rounds (label c blocks 0 fragments) l))
    pure (ids_reply (map c.fragment_id fragments))

  unfoldable pub get_fragment_statuses : Moment c → String → Serving codec Rest
  unfolding traverse
  get_fragment_statuses m fragment_ids = do
    enter m (text "get_fragment_statuses " ∷ text fragment_ids ∷ text "..." ∷ [])
    ids ← or_crash (traverse codec.parse_id (split_on b',' (codes fragment_ids)))
    statuses ← reads (λ x. Ledger.statuses c ids x.state.ledger_state)
    pure (statuses_reply statuses)

  unfoldable pub get_fragment_logs : Moment c → Serving codec Rest
  get_fragment_logs m = do
    enter m (text "get_fragment_logs" ∷ [])
    fragment_logs ← reads (λ x. x.state.ledger_state.fragment_logs)
    pure (fragment_logs_reply fragment_logs)

  unfoldable pub get_challenges : Moment c → Serving codec Rest
  get_challenges m = do
    enter m (text "get_challenges" ∷ [])
    challenges ← reads (λ x. x.state.vit_state.challenges)
    pure (challenges_reply challenges)

  unfoldable pub get_challenge_by_id : Moment c → ℤ → Serving codec Rest
  get_challenge_by_id m id = do
    enter m (text "get_challenge_by_id " ∷ int id ∷ text " ..." ∷ [])
    found ← reads (λ x. find (λ ch. ch.id ==ℤ id) x.state.vit_state.challenges)
    challenge ← or_fail (not_found (int id ∷ [])) found
    proposals ←
        reads (λ x. filter (λ p. p.challenge_id ==ℤ challenge.id) x.state.vit_state.proposals)
    pure (challenge_reply challenge proposals)

  unfoldable pub get_all_proposals : Moment c → Serving codec Rest
  get_all_proposals m = do
    enter m (text "get_all_proposals" ∷ [])
    proposals ← reads (λ x. x.state.vit_state.proposals)
    pure (proposals_reply proposals)

  -- `unwrap` while the guard of the statement is alive. Two integers print alike if they are equal.
  unfoldable pub get_proposal : Moment c → ℤ → Serving codec Rest
  get_proposal m id = do
    enter m (text "get_proposal " ∷ int id ∷ text " ..." ∷ [])
    proposal ← with_lock λ x.
        Run.map (λ p. (p, x))
          (unwrap (find (λ p. p.internal_id ==ℤ id) x.state.vit_state.proposals))
    pure (proposal_reply proposal)

  -- The guard is gone when `unwrap` runs.
  unfoldable pub get_fund_by_id : Moment c → ℤ → Serving codec Rest
  get_fund_by_id m id = do
    enter m (text "get_fund_by_id " ∷ int id ∷ text " ..." ∷ [])
    funds ← reads (λ x. x.state.vit_state.funds)
    fund ← or_crash (find (λ f. f.id ==ℤ id) funds)
    pure (fund_reply fund)

  unfoldable pub get_fund : Moment c → Serving codec Rest
  get_fund m = do
    enter m (text "get_fund ..." ∷ [])
    funds ← reads (λ x. x.state.vit_state.funds)
    fund ← or_crash (get_elem? funds 0)
    pure (fund_reply fund)

  unfoldable pub get_settings : Moment c → Serving codec Rest
  get_settings m = do
    enter m (text "get_settings..." ∷ [])
    settings ←
        with_lock λ x. Run.map (λ d. (d, x)) (Ledger.settings c m.rounds x.state.ledger_state)
    pure (settings_reply settings)

  -- `parse_account_id` unwraps while the guard of the statement is alive.
  unfoldable pub get_account : Moment c → String → Serving codec Rest
  get_account m account_bech32 = do
    enter m (text "get_account " ∷ text account_bech32 ∷ text "..." ∷ [])
    found ← with_lock λ x.
        Run.map (λ i. (codec.get_state (c.accounts x.state.ledger_state.ledger) i, x))
          (unwrap (codec.parse_account account_bech32))
    account_state ← or_fail account_does_not_exist found
    pure (account_reply account_state)

  unfoldable pub get_block0 : Moment c → Serving codec Rest
  get_block0 m = do
    logs m.first (text "get_block0" ∷ [])
    bin ← reads (λ x. x.state.ledger_state.block0_bin)
    pure (block0_reply bin)
