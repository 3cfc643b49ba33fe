-- ===== src/Mock/Rest/Requests/Availability.antt =====
-- What a client of vitup/src/mock/rest.rs gets in the mode of unavailability.
use vit_testing.Prelude.{◌∷◌, inl, inr, Option-cases, ℕ, Bool, false, ◌≡◌, refl, ap, List, []}
use vit_testing.Mock.Chain.{Chain}
use vit_testing.Mock.Context
use vit_testing.Mock.Context.{Context, Message, text}
use vit_testing.Mock.Server.{unlocked, rejects, ◌>>=◌, with_lock}
use vit_testing.Mock.Rest.Defs.{Codec, rejection, Moment, Serving, enter}
use vit_testing.Mock.Rest.Query
use vit_testing.Tokens.{Tokens}
use vit_testing.Mock.Rest.Requests
use vit_testing.Mock.Rest.Requests.{
  Query, active_vote_plans, fragment_logs, challenges, all_proposals, fund, settings, block0, debug,
  message, fragments, fragment_statuses, challenge_by_id, proposal, fund_by_id, account, api,
  Response, internal_error, serve, query, handle,
}

-- The requests that look at the mode: all but three.
unfoldable pub IsGuarded : {c : Chain} → Query c → Type 0
IsGuarded active_vote_plans = ⊥
IsGuarded block0 = ⊥
IsGuarded (debug _) = ⊥
IsGuarded _ = Unit {0}

module _ {c : Chain} {Rest : Type 0} where
  -- A handler that is refused and leaves the state of the mock alone.
  unfoldable IsRefused : {codec : Codec c} → Serving codec Rest → Context c Rest → Type 0
  IsRefused h x =
      (x' : Context c Rest) × (h (record { context = x; lock = unlocked })
        ≡ (rejects rejection, record { context = x'; lock = unlocked }))
      × (x'.state ≡ x.state)

  enter-IsRefused :
      {codec : Codec c} (m : Moment c) (e : Message) (k : Unit {0} → Serving codec Rest)
      (x : Context c Rest)
      → x.state.available ≡ false
      → IsRefused (enter m e >>= k) x
  unfolding IsRefused with_lock Context.log
  enter-IsRefused m e k x off = (
    Context.log m.second (text "unavailability mode is on" ∷ []) (Context.log m.first e x),
    (rw off),
    refl,
  )

  message-IsRefused :
      (codec : Codec c) (m : Moment c) (bytes : List ℕ) (x : Context c Rest)
      → x.state.available ≡ false
      → IsRefused (Query.post_message codec Rest m bytes) x
  unfolding Query.post_message IsRefused with_lock Context.log
  message-IsRefused codec m bytes x off = elim (Option-cases (codec.decode_fragment bytes)) [
    | inl h ↦ (
      Context.log m.first
          (text "post_message with wrong fragment. Reason '"
            ∷ text (codec.decode_error bytes)
            ∷ text "'..."
            ∷ [])
          x,
      (rw (h, Query.post_message)),
      refl,
    )
    | inr (f, h) ↦ rw (h, Query.post_message) (enter-IsRefused m _ _ x off)
  ]

  query-IsRefused :
      (codec : Codec c) (tokens : Tokens) (m : Moment c) (q : Query c) (x : Context c Rest)
      → IsGuarded q
      → x.state.available ≡ false
      → IsRefused (query codec Rest tokens m q) x
  unfolding IsGuarded query Query.get_fragment_logs Query.get_challenges Query.get_all_proposals
      Query.get_fund Query.get_settings Query.post_fragments Query.get_fragment_statuses
      Query.get_challenge_by_id Query.get_proposal Query.get_fund_by_id Query.get_account
  query-IsRefused codec tokens m active_vote_plans x g off = elim g [ ]
  query-IsRefused codec tokens m block0 x g off = elim g [ ]
  query-IsRefused codec tokens m (debug id) x g off = elim g [ ]
  query-IsRefused codec tokens m (message bytes) x g off = message-IsRefused codec m bytes x off
  query-IsRefused codec tokens m fragment_logs x g off = enter-IsRefused m _ _ x off
  query-IsRefused codec tokens m challenges x g off = enter-IsRefused m _ _ x off
  query-IsRefused codec tokens m all_proposals x g off = enter-IsRefused m _ _ x off
  query-IsRefused codec tokens m fund x g off = enter-IsRefused m _ _ x off
  query-IsRefused codec tokens m settings x g off = enter-IsRefused m _ _ x off
  query-IsRefused codec tokens m (fragments blocks messages) x g off = enter-IsRefused m _ _ x off
  query-IsRefused codec tokens m (fragment_statuses ids) x g off = enter-IsRefused m _ _ x off
  query-IsRefused codec tokens m (challenge_by_id id) x g off = enter-IsRefused m _ _ x off
  query-IsRefused codec tokens m (proposal id) x g off = enter-IsRefused m _ _ x off
  query-IsRefused codec tokens m (fund_by_id id) x g off = enter-IsRefused m _ _ x off
  query-IsRefused codec tokens m (account id) x g off = enter-IsRefused m _ _ x off

module _ {c : Chain} (codec : Codec c) (Rest : Type 0) (tokens : Tokens) where
  -- In the mode of unavailability, a request under `v0` or `v1` other than the active vote plans,
  -- the first block and the debug message gets the error 500, whatever it carries; the state of the
  -- mock is left as it was and the mutex is free again.
  pub serve-unavailable :
      (is_token_enabled : Bool) (m : Moment c) (q : Query c) (x : Context c Rest)
      → IsGuarded q
      → x.state.available ≡ false
      → (x' : Context c Rest) × (serve codec Rest tokens is_token_enabled m
            (api q)
            (record { context = x; lock = unlocked })
          ≡ (internal_error, record { context = x'; lock = unlocked }))
        × (x'.state ≡ x.state)
  unfolding serve handle IsRefused
  serve-unavailable is_token_enabled m q x g off =
      let (x', run, same) = query-IsRefused codec tokens m q x g off in
      (x', ap (λ r. (Requests.respond codec Rest tokens r.0, r.1)) run, same)
