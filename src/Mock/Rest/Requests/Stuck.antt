-- ===== src/Mock/Rest/Requests/Stuck.antt =====
-- The handlers of vitup/src/mock/rest.rs on a mutex that cannot be locked.
use vit_testing.Prelude.{
  ◌&&◌, if◌then◌else◌, ℕ, String, Bool, true, false, ◌≡◌, ◌≢◌, inl, inr, refl, ap, ◌∙◌, Option,
  none, some, List, [], ◌∷◌, Option-cases, find,
}
use vit_testing.Prelude.Text.{codes}
use vit_testing.Mock.Chain.{Chain}
use vit_testing.Mock.Run.{Run}
use vit_testing.Mock.Context.{Context, Message, text}
use vit_testing.Mock.Server.{
  Server, Lock, unlocked, locked, poisoned, Handler, Outcome, done, rejects, crashes, hangs, ◌>>=◌,
  with_lock, acquire, continue, fail, pure,
}
use vit_testing.Mock.Rest.Defs.{
  Codec, Rejection, rejection, not_found, Moment, Serving, logs, reads, enter, debug_reply,
}
use vit_testing.Mock.Rest.Query
use vit_testing.Mock.Rest.Control
use vit_testing.Tokens.{Tokens}
use vit_testing.Mock.Rest.Requests.{
  Query, active_vote_plans, fragment_logs, challenges, all_proposals, fund, settings, block0, debug,
  message, fragments, fragment_statuses, challenge_by_id, proposal, fund_by_id, account, Command,
  list_logs, clear_logs, reset_mock, set_available, set_fund_id, set_version, set_strategy, Request,
  health, version, api, control, query, command, handle, token_filter,
}

-- What becomes of a handler that asks for a mutex that is not free: it waits for good or panics.
unfoldable pub lost : {E A : Type 0} → Lock → Outcome E A
lost locked = hangs
lost _ = crashes

-- A handler that ends like this and leaves the server as it is.
unfoldable pub IsStuck : {X E A : Type 0} → Handler X E A → Server X → Type 0
IsStuck h s = h s ≡ (lost s.lock, s)

module _ {X A : Type 0} (E : Type 0) where
  with_lock-IsStuck :
      (f : X → Run (A × X)) (x : X) (l : Lock)
      → l ≢ unlocked
      → IsStuck {E = E} (with_lock f) (record { context = x; lock = l })
  unfolding IsStuck lost with_lock
  with_lock-IsStuck f x unlocked b = elim (b refl) [ ]
  with_lock-IsStuck f x locked b = refl
  with_lock-IsStuck f x poisoned b = refl

module _ {X : Type 0} (E : Type 0) where
  acquire-IsStuck :
      (x : X) (l : Lock) → l ≢ unlocked → IsStuck {E = E} acquire (record { context = x; lock = l })
  unfolding IsStuck lost acquire
  acquire-IsStuck x unlocked b = elim (b refl) [ ]
  acquire-IsStuck x locked b = refl
  acquire-IsStuck x poisoned b = refl

module _ {X E A B : Type 0} where
  continue-lost :
      (l : Lock) (k : A → Handler X E B) (s : Server X) → continue (lost l) k s ≡ (lost l, s)
  unfolding lost
  continue-lost unlocked k s = refl
  continue-lost locked k s = refl
  continue-lost poisoned k s = refl

  bind :
      (m : Handler X E A) (k : A → Handler X E B) (s : Server X) → IsStuck m s → IsStuck (m >>= k) s
  unfolding IsStuck
  bind m k s run = ap (λ r. continue r.0 k r.1) run ∙ continue-lost s.lock k s

  bind_done :
      (m : Handler X E A) (k : A → Handler X E B) (s s' : Server X) (a : A) {o : Outcome E B}
      → m s ≡ (done a, s')
      → k a s' ≡ (o, s)
      → (m >>= k) s ≡ (o, s)
  bind_done m k s s' a run run' = ap (λ r. continue r.0 k r.1) run ∙ run'

  bind_rejected :
      (m : Handler X E A) (k : A → Handler X E B) (s : Server X) (e : E)
      → m s ≡ (rejects e, s)
      → (m >>= k) s ≡ (rejects e, s)
  bind_rejected m k s e run = ap (λ r. continue r.0 k r.1) run

module _ {c : Chain} {Rest : Type 0} where
  authorize_token-IsStuck :
      (tokens : Tokens) (t : String) (a : tokens.ApiToken) (x : Context c Rest) (l : Lock)
      → tokens.from_string t ≡ some a
      → l ≢ unlocked
      → IsStuck (Control.authorize_token tokens t) (record { context = x; lock = l })
  unfolding IsStuck Control.authorize_token lost with_lock
  authorize_token-IsStuck tokens t a x unlocked h b = elim (b refl) [ ]
  authorize_token-IsStuck tokens t a x locked h b = (rw (h, Control.authorize_token))
  authorize_token-IsStuck tokens t a x poisoned h b = (rw (h, Control.authorize_token))

-- A text that is not read.
is_none : {A : Type 0} → Option A → Bool
is_none none = true
is_none (some _) = false

-- What is refused before the mutex is asked for: a control request without a token that can be read,
-- where the server filters by it, and the message of an id that cannot be read.
module _ {c : Chain} (codec : Codec c) (tokens : Tokens) where
  is_unread : Option String → Bool
  unfolding is_none
  is_unread none = true
  is_unread (some token) = is_none (tokens.from_string token)

  unfoldable pub is_refused : {Rest : Type 0} → Bool → Request c Rest → Bool
  unfolding is_unread is_none
  is_refused is_token_enabled (control header k) = is_token_enabled && is_unread header
  is_refused is_token_enabled (api (debug id)) = is_none (codec.parse_id (codes id))
  is_refused is_token_enabled r = false

module _ {c : Chain} (codec : Codec c) (Rest : Type 0) (x : Context c Rest) (l : Lock)
    (b : l ≢ unlocked) where
  abbrev server : Server (Context c Rest)
  server = record { context = x; lock = l }

  abbrev wrong_fragment : List ℕ → Message
  wrong_fragment bytes =
      text "post_message with wrong fragment. Reason '"
      ∷ text (codec.decode_error bytes)
      ∷ text "'..."
      ∷ []

  enter-IsStuck :
      (m : Moment c) (e : Message) (k : Unit {0} → Serving codec Rest)
      → IsStuck (enter m e >>= k) server
  enter-IsStuck m e k = bind _ k server (bind _ _ server (with_lock-IsStuck Rejection _ x l b))

  abbrev debugged : c.FragmentId → List c.Fragment → Serving codec Rest
  debugged i received = do
    fragment ←
        Query.or_fail (not_found (text (c.id_to_string i) ∷ []))
          (find (λ f. Query.is_id c i (c.fragment_id f)) received)
    pure (debug_reply (codec.debug_fragment fragment))

  message-IsStuck :
      (m : Moment c) (bytes : List ℕ) → IsStuck (Query.post_message codec Rest m bytes) server
  unfolding Query.post_message
  message-IsStuck m bytes = elim (Option-cases (codec.decode_fragment bytes)) [
    | inl h ↦
        rw (h, Query.post_message)
          (bind (logs m.first (wrong_fragment bytes)) (λ _. fail rejection) server
            (with_lock-IsStuck Rejection _ x l b))
    | inr (f, h) ↦ rw (h, Query.post_message) (enter-IsStuck m _ _)
  ]

  -- The end of a request, by whether it is refused before the mutex is asked for.
  unfoldable pub Ends : Bool → Serving codec Rest → Type 0
  Ends refused h =
      (e : Rejection) × (h server ≡ (if refused then (rejects e, server) else (lost l, server)))

  stuck-Ends : (h : Serving codec Rest) → IsStuck h server → Ends false h
  unfolding Ends IsStuck
  stuck-Ends h run = (rejection, run)

  debug-Ends :
      (id : String) → Ends (is_none (codec.parse_id (codes id))) (Query.debug_message codec Rest id)
  unfolding Query.debug_message is_none Ends
  debug-Ends id = elim (Option-cases (codec.parse_id (codes id))) [
    | inl h ↦ (not_found (text id ∷ []), (rw (h, Query.debug_message)))
    | inr (i, h) ↦
        rw (h, Query.debug_message)
          (unfold IsStuck in
            (
              rejection,
              bind (reads {c = c} (λ y. y.state.ledger_state.received_fragments)) (debugged i)
                  server (with_lock-IsStuck Rejection _ x l b),
            ))
  ]

  query-Ends :
      (tokens : Tokens) (enabled : Bool) (m : Moment c) (q : Query c)
      → Ends (is_refused codec tokens {Rest = Rest} enabled (api q)) (query codec Rest tokens m q)
  unfolding is_refused query Query.get_fragment_logs Query.get_challenges Query.get_all_proposals
      Query.get_fund Query.get_settings Query.post_fragments Query.get_fragment_statuses
      Query.get_challenge_by_id Query.get_proposal Query.get_fund_by_id Query.get_account
      Query.get_active_vote_plans Query.get_block0
  query-Ends tokens enabled m active_vote_plans =
      stuck-Ends _ (bind _ _ server (acquire-IsStuck Rejection x l b))
  query-Ends tokens enabled m block0 =
      stuck-Ends _ (bind _ _ server (with_lock-IsStuck Rejection _ x l b))
  query-Ends tokens enabled m (debug id) = debug-Ends id
  query-Ends tokens enabled m (message bytes) = stuck-Ends _ (message-IsStuck m bytes)
  query-Ends tokens enabled m fragment_logs = stuck-Ends _ (enter-IsStuck m _ _)
  query-Ends tokens enabled m challenges = stuck-Ends _ (enter-IsStuck m _ _)
  query-Ends tokens enabled m all_proposals = stuck-Ends _ (enter-IsStuck m _ _)
  query-Ends tokens enabled m fund = stuck-Ends _ (enter-IsStuck m _ _)
  query-Ends tokens enabled m settings = stuck-Ends _ (enter-IsStuck m _ _)
  query-Ends tokens enabled m (fragments blocks messages) = stuck-Ends _ (enter-IsStuck m _ _)
  query-Ends tokens enabled m (fragment_statuses ids) = stuck-Ends _ (enter-IsStuck m _ _)
  query-Ends tokens enabled m (challenge_by_id id) = stuck-Ends _ (enter-IsStuck m _ _)
  query-Ends tokens enabled m (proposal id) = stuck-Ends _ (enter-IsStuck m _ _)
  query-Ends tokens enabled m (fund_by_id id) = stuck-Ends _ (enter-IsStuck m _ _)
  query-Ends tokens enabled m (account id) = stuck-Ends _ (enter-IsStuck m _ _)

  command-IsStuck :
      (tokens : Tokens) (k : Command c Rest) → IsStuck (command codec Rest tokens k) server
  unfolding command Control.logs_get Control.logs_clear Control.command_reset_mock
      Control.command_available Control.command_fund_id Control.command_version
      Control.command_strategy
  command-IsStuck tokens (list_logs format) = bind _ _ server (with_lock-IsStuck Rejection _ x l b)
  command-IsStuck tokens clear_logs = bind _ _ server (with_lock-IsStuck Rejection _ x l b)
  command-IsStuck tokens (reset_mock r u t) = bind _ _ server (with_lock-IsStuck Rejection _ x l b)
  command-IsStuck tokens (set_available a) = bind _ _ server (with_lock-IsStuck Rejection _ x l b)
  command-IsStuck tokens (set_fund_id i) = bind _ _ server (with_lock-IsStuck Rejection _ x l b)
  command-IsStuck tokens (set_version v) = bind _ _ server (with_lock-IsStuck Rejection _ x l b)
  command-IsStuck tokens (set_strategy t) = bind _ _ server (with_lock-IsStuck Rejection _ x l b)

  control-Ends :
      (tokens : Tokens) (enabled : Bool) (header : Option String) (k : Command c Rest)
      → Ends
          (enabled && is_unread codec tokens header)
          (token_filter codec Rest tokens enabled header >>= λ _. command codec Rest tokens k)
  unfolding token_filter is_unread is_none Ends Control.authorize_token
  control-Ends tokens false header k = stuck-Ends _ (command-IsStuck tokens k)
  control-Ends tokens true none k = (rejection, refl)
  control-Ends tokens true (some t) k = elim (Option-cases (tokens.from_string t)) [
    | inl h ↦ (
      rejection,
      rw h (
          bind_rejected (Control.authorize_token tokens t) (λ _. command codec Rest tokens k) server
            rejection (rw (h, Control.authorize_token))),
    )
    | inr (a, h) ↦ rw h (
        stuck-Ends _ (
          bind (Control.authorize_token tokens t) (λ _. command codec Rest tokens k) server
            (authorize_token-IsStuck tokens t a x l h b)))
  ]

  pub handle-Ends :
      (tokens : Tokens) (enabled : Bool) (m : Moment c) (r : Request c Rest)
      → r ≢ health
      → Ends (is_refused codec tokens enabled r) (handle codec Rest tokens enabled m r)
  unfolding handle is_refused Control.get_version
  handle-Ends tokens enabled m health n = elim (n refl) [ ]
  handle-Ends tokens enabled m version n =
      stuck-Ends _ (bind _ _ server (with_lock-IsStuck Rejection _ x l b))
  handle-Ends tokens enabled m (api q) n = query-Ends tokens enabled m q
  handle-Ends tokens enabled m (control header k) n = control-Ends tokens enabled header k
