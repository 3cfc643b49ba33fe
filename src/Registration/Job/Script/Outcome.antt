-- ===== src/Registration/Job/Script/Outcome.antt =====
-- What `start` in registration-service/src/job/mod.rs returns.
use mathlib.Core.Option
use mathlib.Core.Path.{fun_ext, subst}
use vit_testing.Prelude.{ℕ, ◌≡◌, refl, ap, some, List, Result, ok, err, arith}
use vit_testing.Prelude.Text.{Text}
use vit_testing.Registration.Context.{Request, JobOutputInfo}
use vit_testing.Registration.Job.{Error, get_funds, get_slot_no}
use vit_testing.Registration.Job.Script.{
  Command, Effect, Tools, VoteRegistrationJob, Script, ◌>>=◌, lift, Failure, panicked, or_error,
  or_failed, payment_address_command, submit_command, qr_command, query_command,
  registration_command, save_keys, register, submit, start, status, output,
}
use vit_testing.Registration.Job.Script.Order.{payment_address, or_error-or_empty}

>>=-eq-ok :
    {A B : Type 0} (m : Script A) (f : A → Script B) (b : B) (t u : List Effect)
    → (m >>= f) t ≡ (ok b, u)
    → (a : A) × (s : List Effect) × (m t ≡ (ok a, s)) × (f a s ≡ (ok b, u))
>>=-eq-ok {A} m f b t u h = go (m t) refl
  where
    go :
        (r : Result Failure A × List Effect)
        → m t ≡ r
        → (a : A) × (s : List Effect) × (m t ≡ (ok a, s)) × (f a s ≡ (ok b, u))
    go (ok a, s) e = (a, s, e, rw (e, ◌>>=◌) at h)
    go (err x, s) e = absurd (let k = rw (e, ◌>>=◌) at h in cc k)

lift-eq-ok :
    {A : Type 0} (r : Result Failure A) (a : A) (t u : List Effect)
    → lift r t ≡ (ok a, u)
    → r ≡ ok a
lift-eq-ok r a t u h = ap (λ x. x.0) h

ok-injective : {A : Type 0} (a b : A) → ◌≡◌ {A = Result Failure A} (ok a) (ok b) → a ≡ b
ok-injective a b h = cc

or_failed-ok : {A : Type 0} (r : Result Error A) (a : A) → or_failed r ≡ ok a → r ≡ ok a
or_failed-ok (ok b) a h = ap ok (ok-injective b a h)
or_failed-ok (err e) a h = cc

module _ (tools : Tools) (job : VoteRegistrationJob) where
  -- What the tools printed for the funds and the slot of `info`.
  pub record Reported (info : JobOutputInfo) : Type 0 where
    pub utxo : List Text
    pub registered : List Text
    pub asked : tools.output (query_command tools job (payment_address tools job)) ≡ some utxo
    pub funds : get_funds utxo ≡ ok info.funds
    pub signed :
        tools.output (registration_command tools job (payment_address tools job)) ≡ some registered
    pub slot_no : get_slot_no registered ≡ ok info.slot_no

  output-eq-ok :
      (c : Command) (ls : List Text) (t u : List Effect)
      → output tools job c t ≡ (ok ls, u)
      → tools.output c ≡ some ls
  unfolding output
  output-eq-ok c ls t u h = ground arith

  register-Reported :
      (info : JobOutputInfo) (t u : List Effect)
      → register tools job t ≡ (ok info, u)
      → Reported info
  unfolding register
  register-Reported info t u h =
      let (_, s₁, _, h₁) = >>=-eq-ok (status tools job _) _ info t u h in
      let (address, s₀, e₀, h₀) =
        >>=-eq-ok (lift (or_error panicked (tools.read_file _))) _ info s₁ u h₁ in
      let same : address ≡ payment_address tools job =
        or_error-or_empty panicked _ address (lift-eq-ok _ address s₁ s₀ e₀) in
      let (utxo, s₂, e₂, h₂) = >>=-eq-ok (output tools job _) _ info s₀ u h₀ in
      let (funds, s₃, e₃, h₃) = >>=-eq-ok (lift (or_failed (get_funds utxo))) _ info s₂ u h₂ in
      let (registered, s₄, e₄, h₄) = >>=-eq-ok (output tools job _) _ info s₃ u h₃ in
      let (slot_no, s₅, e₅, h₅) =
        >>=-eq-ok (lift (or_failed (get_slot_no registered))) _ info s₄ u h₄ in
      subst Reported (ok-injective _ info (lift-eq-ok _ info s₅ u h₅)) (record {
        utxo = utxo;
        registered = registered;
        asked =
            subst (λ a. tools.output (query_command tools job a) ≡ some utxo) same
              (output-eq-ok _ utxo s₀ s₂ e₂);
        funds = or_failed-ok (get_funds utxo) funds (lift-eq-ok _ funds s₂ s₃ e₃);
        signed =
            subst (λ a. tools.output (registration_command tools job a) ≡ some registered) same
              (output-eq-ok _ registered s₃ s₄ e₄);
        slot_no = or_failed-ok (get_slot_no registered) slot_no (lift-eq-ok _ slot_no s₄ s₅ e₅);
      })

  submit-info :
      (i info : JobOutputInfo) (t u : List Effect) → submit tools job i t ≡ (ok info, u) → i ≡ info
  unfolding submit status
  submit-info i info t u h = ground arith

  -- What the job returns was reported: the funds are read from what the query printed, and the
  -- slot from what the registration printed.
  pub start-Reported :
      (request : Request) (info : JobOutputInfo) (t u : List Effect)
      → start tools job request t ≡ (ok info, u)
      → Reported info
  unfolding start
  start-Reported request info t u h =
      let (_, s₁, _, h₁) = >>=-eq-ok (save_keys tools job request) _ info t u h in
      let (i, s₂, e₂, h₂) = >>=-eq-ok (register tools job) _ info s₁ u h₁ in
      subst (Reported) (submit-info i info s₂ u h₂) (register-Reported i s₁ s₂ e₂)

  -- The tools with other exit codes.
  abbrev pub recoded : (ℕ → ℕ) → Tools
  recoded f = record tools { status = λ c. Option.map f (tools.status c) }

  status-recoded : (f : ℕ → ℕ) (c : Command) → status (recoded f) job c ≡ status tools job c
  unfolding status
  status-recoded f c = fun_ext (λ t. ground arith)

  -- The exit codes of the tools make no difference: whatever they are, the job returns the same and
  -- does the same, also after a submission that was refused.
  pub start-recoded :
      (f : ℕ → ℕ) (request : Request) (t : List Effect)
      → start (recoded f) job request t ≡ start tools job request t
  unfolding start register submit
  start-recoded f request t = rw (
    status-recoded f (payment_address_command tools job),
    status-recoded f (submit_command tools job),
    status-recoded f (qr_command tools job),
  )
