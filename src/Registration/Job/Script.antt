-- ===== src/Registration/Job/Script.antt =====
-- `VoteRegistrationJob` of registration-service/src/job/mod.rs and `arg_network` of utils.rs: the
-- builder, and the script of `start` as the list of what it does to the outside, which answers
-- through `Tools`.
pub mod Order
pub mod Outcome
use vit_testing.Prelude.{
  ℕ, String, Option, none, some, List, [], ◌∷◌, ◌++◌, Result, ok, err, map_err,
}
use vit_testing.Prelude.Text.{Text}
use vit_testing.Registration.Context.{Request, JobOutputInfo, NetworkType, mainnet, testnet}
use vit_testing.Registration.Job.{Error, io_error, serialization_error, get_funds, get_slot_no}

-- A word of a command line: a literal, a number, or `Path::new(dir).join(name)`.
pub data Arg : Type 0 where
  word : String → Arg
  number : ℕ → Arg
  path : String → String → Arg

pub record Command : Type 0 where
  pub program : String
  pub args : List Arg

-- `CardanoKeyTemplate`
pub record CardanoKeyTemplate : Type 0 where
  pub type : String
  pub description : String
  pub cbor_hex : String

abbrev pub payment_signing_key : String → CardanoKeyTemplate
payment_signing_key cbor_hex = record {
  type = "PaymentSigningKeyShelley_ed25519";
  description = "Payment Signing Key";
  cbor_hex = cbor_hex;
}

abbrev pub payment_verification_key : String → CardanoKeyTemplate
payment_verification_key cbor_hex = record {
  type = "PaymentVerificationKeyShelley_ed25519";
  description = "Payment Verification Key";
  cbor_hex = cbor_hex;
}

abbrev pub stake_signing_key : String → CardanoKeyTemplate
stake_signing_key cbor_hex = record {
  type = "StakeSigningKeyShelley_ed25519";
  description = "Stake Signing Key";
  cbor_hex = cbor_hex;
}

abbrev pub stake_verification_key : String → CardanoKeyTemplate
stake_verification_key cbor_hex = record {
  type = "StakeVerificationKeyShelley_ed25519";
  description = "Stake Verification Key";
  cbor_hex = cbor_hex;
}

-- What a job does to the outside.
pub data Effect : Type 0 where
  write : Arg → String → Effect
  run : Command → Effect

-- What the libraries and the outside answer: `none` of a write or a run is an IO error, and that of a
-- key or of a file that is read is a panic; the exit code of a command is a number.
pub record Tools : Type 0 where
  pub to_json : CardanoKeyTemplate → Option String
  pub can_write : Arg → Option (Unit {0})
  pub generate_key : String → Option String
  pub public_key : String → String → Option String
  pub status : Command → Option ℕ
  pub output : Command → Option (List Text)
  pub read_file : Arg → Option String

pub record VoteRegistrationJob : Type 0 where
  pub jcli : String
  pub cardano_cli : String
  pub voter_registration : String
  pub vit_kedqr : String
  pub network : NetworkType
  pub working_dir : String

-- `Default`, with which the builder begins.
abbrev pub default_job : VoteRegistrationJob
default_job = record {
  jcli = "jcli";
  cardano_cli = "cardano-cli";
  voter_registration = "voter-registration";
  vit_kedqr = "vit-kedqr";
  network = mainnet;
  working_dir = ".";
}

unfoldable pub arg_network : NetworkType → List Arg
arg_network mainnet = word "--mainnet" ∷ []
arg_network (testnet magic) = word "--testnet-magic" ∷ number magic ∷ []

-- A job ends early with an error or a panic.
pub data Failure : Type 0 where
  failed : Error → Failure
  panicked : Failure

-- A fallible script that leaves a trace of its effects.
abbrev pub Script : Type 0 → Type 0
Script A = List Effect → Result Failure A × List Effect

abbrev continue : {A B : Type 0} → Result Failure A → (A → Script B) → Script B
continue (ok a) f t = f a t
continue (err e) f t = (err e, t)

infixl 5 ◌>>=◌ ◌>>◌
abbrev pub ◌>>=◌ : {A B : Type 0} → Script A → (A → Script B) → Script B
◌>>=◌ m f t = let (r, t') = m t in continue r f t'

abbrev pub ◌>>◌ : {A B : Type 0} → Script A → Script B → Script B
m >> n = m >>= λ _. n

abbrev or_error : {A : Type 0} → Failure → Option A → Result Failure A
or_error e none = err e
or_error e (some a) = ok a

abbrev pub lift : {A : Type 0} → Result Failure A → Script A
lift r t = (r, t)

-- `?`
abbrev or_failed : {A : Type 0} → Result Error A → Result Failure A
or_failed r = map_err failed r

module _ (tools : Tools) (job : VoteRegistrationJob) where
  open job use {jcli, cardano_cli, voter_registration, vit_kedqr, network, working_dir}

  abbrev file : String → Arg
  file name = path working_dir name

  -- `write_content`
  write_content : String → Arg → Script (Unit {0})
  write_content content p t =
      (or_error (failed io_error) (tools.can_write p), t ++ write p content ∷ [])

  -- `command.status()?`, whose exit code is dropped.
  status : Command → Script (Unit {0})
  status c t =
      (elim (tools.status c) [ none ↦ err (failed io_error) | some _ ↦ ok tt ], t ++ run c ∷ [])

  -- `command.output()?.as_multi_line()`
  output : Command → Script (List Text)
  output c t = (or_error (failed io_error) (tools.output c), t ++ run c ∷ [])

  -- `CardanoKeyTemplate::write_to_file`
  write_to_file : CardanoKeyTemplate → Arg → Script (Unit {0})
  write_to_file key p = do
    content ← lift (or_error (failed serialization_error) (tools.to_json key))
    write_content content p

  abbrev pub payment_address_command : Command
  payment_address_command = record {
    program = cardano_cli;
    args =
        word "address"
        ∷ word "build"
        ∷ word "--verification-key-file"
        ∷ file "payment.vkey"
        ∷ word "--out-file"
        ∷ file "payment.addr"
        ∷ arg_network network;
  }

  abbrev pub query_command : String → Command
  query_command payment_address = record {
    program = cardano_cli;
    args =
        (word "query" ∷ word "utxo" ∷ word "--mary-era" ∷ arg_network network)
        ++ word "--address" ∷ word payment_address ∷ [];
  }

  abbrev pub registration_command : String → Command
  registration_command payment_address = record {
    program = voter_registration;
    args =
        (word "--payment-signing-key"
          ∷ file "payment.skey"
          ∷ word "--payment-address"
          ∷ word payment_address
          ∷ word "--stake-signing-key"
          ∷ file "stake.skey"
          ∷ word "--vote-public-key"
          ∷ file "catalyst-vote.pkey"
          ∷ arg_network network)
        ++ word "--mary-era"
          ∷ word "--cardano-mode"
          ∷ word "--sign"
          ∷ word "--out-file"
          ∷ file "vote-registration.tx"
          ∷ [];
  }

  abbrev pub submit_command : Command
  submit_command = record {
    program = cardano_cli;
    args =
        (word "transaction" ∷ word "submit" ∷ word "--cardano-mode" ∷ arg_network network)
        ++ word "--tx-file" ∷ file "vote-registration.tx" ∷ [];
  }

  -- The pin is 1234.
  abbrev pub qr_command : Command
  qr_command = record {
    program = vit_kedqr;
    args =
        word "--pin"
        ∷ word "1234"
        ∷ word "--input"
        ∷ file "catalyst-vote.skey"
        ∷ word "--output"
        ∷ file "qrcode_pin_1234.png"
        ∷ [];
  }

  -- The keys of the request and the generated ones, saved to the working directory.
  save_keys : Request → Script (Unit {0})
  unfolding write_content write_to_file
  save_keys request = do
    write_to_file (payment_signing_key request.payment_skey) (file "payment.skey")
    write_to_file (payment_verification_key request.payment_vkey) (file "payment.vkey")
    write_to_file (stake_signing_key request.stake_skey) (file "stake.skey")
    write_to_file (stake_verification_key request.stake_vkey) (file "stake.vkey")
    private_key ← lift (or_error panicked (tools.generate_key jcli))
    write_content private_key (file "catalyst-vote.skey")
    public_key ← lift (or_error panicked (tools.public_key jcli private_key))
    write_content public_key (file "catalyst-vote.pkey")

  -- From the saved keys to the signed transaction: the funds and the slot.
  register : Script JobOutputInfo
  unfolding status output
  register = do
    status payment_address_command
    payment_address ← lift (or_error panicked (tools.read_file (file "payment.addr")))
    utxo ← output (query_command payment_address)
    funds ← lift (or_failed (get_funds utxo))
    registered ← output (registration_command payment_address)
    slot_no ← lift (or_failed (get_slot_no registered))
    lift (ok (record { slot_no = slot_no; funds = funds }))

  submit : JobOutputInfo → Script JobOutputInfo
  unfolding status
  submit info = do status submit_command; status qr_command; lift (ok info)

  -- `start`
  unfoldable pub start : Request → Script JobOutputInfo
  unfolding save_keys register submit
  start request = do save_keys request; info ← register; submit info
