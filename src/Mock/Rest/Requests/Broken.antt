-- ===== src/Mock/Rest/Requests/Broken.antt =====
-- How the mutex of vitup/src/mock/rest.rs is lost, and what a client then gets.
use vit_testing.Prelude.{
  Bool, true, false, ◌≡◌, ◌≢◌, inl, inr, refl, ap, ◌∙◌, if◌then◌else◌, none, [], ◌∷◌, Bool-cases,
  find,
}
use vit_testing.Prelude.Int.{ℤ, ◌==ℤ◌}
use vit_testing.Mock.Chain.{Chain}
use vit_testing.Mock.Context
use vit_testing.Mock.Context.{Context, Message, text}
use vit_testing.Mock.Server.{
  Server, Lock, unlocked, locked, poisoned, Outcome, rejects, with_lock, acquire,
}
use vit_testing.Mock.Rest.Defs.{Codec, Rejection, Reply, Moment}
use vit_testing.Mock.Rest.Query
use vit_testing.Tokens.{Tokens}
use vit_testing.Mock.Rest.Requests
use vit_testing.Mock.Rest.Requests.{
  active_vote_plans, proposal, Request, health, api, Response, replied, internal_error, closed,
  silence, serve, query, handle,
}
use vit_testing.Mock.Rest.Requests.Stuck.{lost, is_refused, Ends, handle-Ends}

-- What a client gets where the mutex is asked for and is not free.
unfoldable pub unanswered :
    {c : Chain} {codec : Codec c} {Rest : Type 0} → Lock → Response codec Rest
unanswered locked = silence
unanswered _ = closed

module _ {c : Chain} (codec : Codec c) (Rest : Type 0) (tokens : Tokens) where
  respond-lost : (l : Lock) → Requests.respond codec Rest tokens (lost l) ≡ unanswered l
  unfolding lost unanswered
  respond-lost unlocked = refl
  respond-lost locked = refl
  respond-lost poisoned = refl

  finished :
      (refused : Bool) (e : Rejection) (x : Context c Rest) (l : Lock)
      → (let s : Server (Context c Rest) = record { context = x; lock = l } in
          let o : Outcome Rejection (Reply codec Rest) × Server (Context c Rest) =
            if refused then (rejects e, s) else (lost l, s) in
          ◌≡◌ {A = Response codec Rest × Server (Context c Rest)}
            (Requests.respond codec Rest tokens o.0, o.1)
            (if refused then internal_error else unanswered l, s))
  finished true e x l = refl
  finished false e x l = ap (λ r. (r, record { context = x; lock = l })) (respond-lost l)

  -- Once the mutex is poisoned or is locked by a request that hangs, no request of the model but the
  -- health check is answered from the context: a control request whose token is missing or cannot be
  -- read, where the server filters by it, and a debug message with an id that cannot be read get the
  -- error 500; any other gets a closed connection from a poisoned mutex and nothing from a locked one.
  -- The server stays as it is.
  pub serve-broken :
      (enabled : Bool) (m : Moment c) (r : Request c Rest) (x : Context c Rest) (l : Lock)
      → l ≢ unlocked
      → r ≢ health
      → serve codec Rest tokens enabled m r (record { context = x; lock = l }) ≡ (
        if is_refused codec tokens enabled r then internal_error else unanswered l,
        record { context = x; lock = l },
      )
  unfolding serve Ends
  serve-broken enabled m r x l b n =
      let (e, run) = handle-Ends codec Rest x l b tokens enabled m r n in
      ap (λ o. (Requests.respond codec Rest tokens o.0, o.1)) run
      ∙ finished (is_refused codec tokens enabled r) e x l

  active_vote_plans-locks :
      (enabled : Bool) (m : Moment c) (x : Context c Rest)
      → (x' : Context c Rest) × (serve codec Rest tokens enabled m
            (api active_vote_plans)
            (record { context = x; lock = unlocked })
          ≡ (silence, record { context = x'; lock = locked }))
  unfolding serve handle query Query.get_active_vote_plans acquire with_lock Context.log
  active_vote_plans-locks enabled m x = (
    Context.log m.first (text "get_active_vote_plans" ∷ []) x,
    elim (Bool-cases x.state.available) [ inl on ↦ (rw on) | inr off ↦ (rw off) ],
  )

  -- A request for the active vote plans is never answered, available or not, and after it no request of
  -- the model but the health check is: what is refused before the mutex is asked for gets the error 500,
  -- and any other request nothing.
  pub active_vote_plans-last :
      (enabled : Bool) (m n : Moment c) (r : Request c Rest) (x : Context c Rest)
      → r ≢ health
      → let (response, s') =
          serve codec Rest tokens enabled m
            (api active_vote_plans)
            (record { context = x; lock = unlocked }) in
        (response ≡ silence)
        × ((serve codec Rest tokens enabled n r s').0
            ≡ (if is_refused codec tokens enabled r then internal_error else silence))
  unfolding unanswered
  active_vote_plans-last enabled m n r x h =
      let (x', run) = active_vote_plans-locks enabled m x in
      rw run ((refl, ap (λ o. o.0) (serve-broken enabled n r x' locked (λ e. cc) h)))

  proposal-poisons :
      (enabled : Bool) (m : Moment c) (i : ℤ) (x : Context c Rest)
      → x.state.available ≡ true
      → find (λ p. p.internal_id ==ℤ i) x.state.vit_state.proposals ≡ none
      → (x' : Context c Rest) × (serve codec Rest tokens enabled m
            (api (proposal i))
            (record { context = x; lock = unlocked })
          ≡ (closed, record { context = x'; lock = poisoned }))
  unfolding serve handle query Query.get_proposal Context.log with_lock
  proposal-poisons enabled m i x on h = (
    Context.log m.first (text "get_proposal " ∷ Context.int i ∷ text " ..." ∷ []) x,
    (rw (on, h)),
  )

  -- A request for a proposal that the mock does not have closes the connection, and after it no request
  -- of the model but the health check is answered: what is refused before the mutex is asked for gets
  -- the error 500, and any other request a closed connection.
  pub proposal-last :
      (enabled : Bool) (m n : Moment c) (i : ℤ) (r : Request c Rest) (x : Context c Rest)
      → x.state.available ≡ true
      → find (λ p. p.internal_id ==ℤ i) x.state.vit_state.proposals ≡ none
      → r ≢ health
      → let (response, s') =
          serve codec Rest tokens enabled m
            (api (proposal i))
            (record { context = x; lock = unlocked }) in
        (response ≡ closed)
        × ((serve codec Rest tokens enabled n r s').0
            ≡ (if is_refused codec tokens enabled r then internal_error else closed))
  unfolding unanswered
  proposal-last enabled m n i r x on missing h =
      let (x', run) = proposal-poisons enabled m i x on missing in
      rw run ((refl, ap (λ o. o.0) (serve-broken enabled n r x' poisoned (λ e. cc) h)))
