-- ===== src/Registration/Job/Script/Order.antt =====
-- The order of the effects of `start` in registration-service/src/job/mod.rs.
use mathlib.Core.List.{append_assoc, append-nil}
use vit_testing.Prelude.{
  String, ◌≡◌, refl, ◌∙◌, ap, sym, Option, none, some, List, [], ◌∷◌, ◌++◌, Result, ok, err,
  Option-cases, inl, inr,
}
use vit_testing.Registration.Context.{Request, JobOutputInfo}
use vit_testing.Registration.Job.{io_error, serialization_error, get_funds, get_slot_no}
use vit_testing.Registration.Job.Script.{
  Arg, path, Command, CardanoKeyTemplate, payment_signing_key, payment_verification_key,
  stake_signing_key, stake_verification_key, Effect, write, run, Tools, VoteRegistrationJob, Script,
  ◌>>=◌, lift, Failure, failed, panicked, or_error, or_failed, write_content, write_to_file, status,
  output, payment_address_command, query_command, registration_command, submit_command, qr_command,
  save_keys, register, submit, start,
}

-- From the trace `t` the script does all of the plan and returns, or it does a beginning of the
-- plan and ends there.
pub data Follows {A : Type 0} (m : Script A) (plan t : List Effect) : Type 0 where
  done : (a : A) → m t ≡ (ok a, t ++ plan) → Follows m plan t
  broken :
      (e : Failure) (p s : List Effect) → m t ≡ (err e, t ++ p) → p ++ s ≡ plan → Follows m plan t

module _ {A B : Type 0} where
  broken-bind :
      (m : Script A) (f : A → Script B) (e : Failure) (t t' : List Effect)
      → m t ≡ (err e, t')
      → (m >>= f) t ≡ (err e, t')
  broken-bind m f e t t' h = rw (h, ◌>>=◌)

  done-bind :
      (m : Script A) (f : A → Script B) (a : A) (t t' : List Effect)
      → m t ≡ (ok a, t')
      → (m >>= f) t ≡ f a t'
  done-bind m f a t t' h = rw (h, ◌>>=◌)

  Follows-after :
      (m : Script A) (f : A → Script B) (p q t : List Effect) (a : A)
      → m t ≡ (ok a, t ++ p)
      → Follows (f a) q (t ++ p)
      → Follows (m >>= f) (p ++ q) t
  Follows-after m f p q t a h (done b k) =
      done b (done-bind m f a t (t ++ p) h ∙ k ∙ ap (λ x. (ok b, x)) (append_assoc t p q))
  Follows-after m f p q t a h (broken e q' s k l) =
      broken e (p ++ q') s
        (done-bind m f a t (t ++ p) h ∙ k ∙ ap (λ x. (err e, x)) (append_assoc t p q'))
        (append_assoc p q' s ∙ ap (λ x. p ++ x) l)

  Follows-bind :
      (m : Script A) (f : A → Script B) (p q t : List Effect)
      → Follows m p t
      → ((a : A) → Follows (f a) q (t ++ p))
      → Follows (m >>= f) (p ++ q) t
  Follows-bind m f p q t (done a h) k = Follows-after m f p q t a h (k a)
  Follows-bind m f p q t (broken e p' s h l) k =
      broken e p' (s ++ q) (broken-bind m f e t (t ++ p') h)
        (sym (append_assoc p' s q) ∙ ap (λ x. x ++ q) l)

Follows-lift : {A : Type 0} (r : Result Failure A) (t : List Effect) → Follows (lift r) [] t
Follows-lift (ok a) t = done a (rw append-nil)
Follows-lift (err e) t = broken e [] [] (rw append-nil) refl

-- A step that only reads a result has no effect of its own.
Follows-read :
    {A B : Type 0} (r : Result Failure A) (f : A → Script B) (plan t : List Effect)
    → ((a : A) → r ≡ ok a → Follows (f a) plan t)
    → Follows (lift r >>= f) plan t
Follows-read (ok a) f plan t k = k a refl
Follows-read (err e) f plan t k = broken e [] plan (rw append-nil) refl

pub or_empty : Option String → String
or_empty none = ""
or_empty (some s) = s

pub or_error-or_empty :
    (e : Failure) (o : Option String) (s : String) → or_error e o ≡ ok s → s ≡ or_empty o
unfolding or_empty
or_error-or_empty e none s h = cc
or_error-or_empty e (some a) s h = cc

-- A step that goes on with a text, if there is one.
Follows-given :
    {B : Type 0} (o : Option String) (f : String → Script B) (plan t : List Effect)
    → Follows (f (or_empty o)) plan t
    → Follows (lift (or_error panicked o) >>= f) plan t
unfolding or_empty
Follows-given none f plan t k = broken panicked [] plan (rw append-nil) refl
Follows-given (some a) f plan t k = k

module _ (tools : Tools) (job : VoteRegistrationJob) where
  abbrev in_dir : String → Arg
  in_dir name = path job.working_dir name

  Follows-write_content :
      (content : String) (p : Arg) (t : List Effect)
      → Follows (write_content tools job content p) (write p content ∷ []) t
  unfolding write_content
  Follows-write_content content p t = elim (Option-cases (tools.can_write p)) [
    | inl h ↦ broken (failed io_error) (write p content ∷ []) [] (rw h) refl
    | inr (u, h) ↦ done u (rw h)
  ]

  Follows-status : (c : Command) (t : List Effect) → Follows (status tools job c) (run c ∷ []) t
  unfolding status
  Follows-status c t = elim (Option-cases (tools.status c)) [
    | inl h ↦ broken (failed io_error) (run c ∷ []) [] (rw h) refl
    | inr (code, h) ↦ done tt (rw h)
  ]

  Follows-output : (c : Command) (t : List Effect) → Follows (output tools job c) (run c ∷ []) t
  unfolding output
  Follows-output c t = elim (Option-cases (tools.output c)) [
    | inl h ↦ broken (failed io_error) (run c ∷ []) [] (rw h) refl
    | inr (ls, h) ↦ done ls (rw h)
  ]

  -- The text of a key's file.
  abbrev pub saved : CardanoKeyTemplate → String
  saved key = or_empty (tools.to_json key)

  Follows-write_to_file :
      (key : CardanoKeyTemplate) (p : Arg) (t : List Effect)
      → Follows (write_to_file tools job key p) (write p (saved key) ∷ []) t
  unfolding write_to_file
  Follows-write_to_file key p t =
      Follows-read (or_error (failed serialization_error) (tools.to_json key))
        (λ content. write_content tools job content p) (write p (saved key) ∷ []) t
        λ content h.
          rw (← or_error-or_empty (failed serialization_error) (tools.to_json key) content h)
            (Follows-write_content content p t)

  -- The generated keys and the address that is read back.
  abbrev pub private_key : String
  private_key = or_empty (tools.generate_key job.jcli)

  abbrev pub public_key : String
  public_key = or_empty (tools.public_key job.jcli private_key)

  abbrev pub payment_address : String
  payment_address = or_empty (tools.read_file (in_dir "payment.addr"))

  abbrev pub key_plan : Request → List Effect
  key_plan request =
      write (in_dir "payment.skey") (saved (payment_signing_key request.payment_skey))
      ∷ write (in_dir "payment.vkey") (saved (payment_verification_key request.payment_vkey))
      ∷ write (in_dir "stake.skey") (saved (stake_signing_key request.stake_skey))
      ∷ write (in_dir "stake.vkey") (saved (stake_verification_key request.stake_vkey))
      ∷ write (in_dir "catalyst-vote.skey") private_key
      ∷ write (in_dir "catalyst-vote.pkey") public_key
      ∷ []

  abbrev pub register_plan : List Effect
  register_plan =
      run (payment_address_command tools job)
      ∷ run (query_command tools job payment_address)
      ∷ run (registration_command tools job payment_address)
      ∷ []

  abbrev pub submit_plan : List Effect
  submit_plan = run (submit_command tools job) ∷ run (qr_command tools job) ∷ []

  Follows-save_keys :
      (request : Request) (t : List Effect)
      → Follows (save_keys tools job request) (key_plan request) t
  unfolding save_keys
  Follows-save_keys request t =
      Follows-bind _ _ (write _ _ ∷ []) _ _ (Follows-write_to_file _ _ _) λ _.
        Follows-bind _ _ (write _ _ ∷ []) _ _ (Follows-write_to_file _ _ _) λ _.
          Follows-bind _ _ (write _ _ ∷ []) _ _ (Follows-write_to_file _ _ _) λ _.
            Follows-bind _ _ (write _ _ ∷ []) _ _ (Follows-write_to_file _ _ _) λ _.
              Follows-given (tools.generate_key job.jcli) _ _ _ (
                Follows-bind _ _ (write _ _ ∷ []) _ _ (Follows-write_content _ _ _) λ _.
                  Follows-given (tools.public_key job.jcli private_key) _ _ _
                    (Follows-write_content _ _ _))

  Follows-register : (t : List Effect) → Follows (register tools job) register_plan t
  unfolding register
  Follows-register t = Follows-bind _ _ (run _ ∷ []) _ _ (Follows-status _ _) λ _.
      Follows-given (tools.read_file (in_dir "payment.addr")) _ _ _ (
        Follows-bind _ _ (run _ ∷ []) _ _ (Follows-output _ _) λ utxo.
          Follows-read (or_failed (get_funds utxo)) _ _ _ λ funds _.
            Follows-bind _ _ (run _ ∷ []) _ _ (Follows-output _ _) λ registered.
              Follows-read (or_failed (get_slot_no registered)) _ _ _ λ slot_no _. Follows-lift _ _)

  Follows-submit :
      (info : JobOutputInfo) (t : List Effect) → Follows (submit tools job info) submit_plan t
  unfolding submit
  Follows-submit info t =
      Follows-bind _ _ (run _ ∷ []) _ _ (Follows-status _ _)
        λ _. Follows-bind _ _ (run _ ∷ []) [] _ (Follows-status _ _) λ _. Follows-lift _ _

  -- The job keeps to its order: keys, then funds and registration, then submission and QR code. It
  -- does all of this and returns, or it does a beginning of it and ends there, by an error or a panic.
  pub start-Follows :
      (request : Request) (t : List Effect)
      → Follows (start tools job request) (key_plan request ++ (register_plan ++ submit_plan)) t
  unfolding start
  start-Follows request t =
      Follows-bind _ _ (key_plan request) _ t (Follows-save_keys request t)
        λ _. Follows-bind _ _ register_plan _ _ (Follows-register _) λ info. Follows-submit info _
