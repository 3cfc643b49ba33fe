-- ===== src/Vitup/Setup/Qr.antt =====
-- `dump_qrs` of vitup/src/setup/start/quick/builder.rs: the QR codes of the wallets.
pub mod Readable
use vit_testing.Prelude.{
  ℕ, zero, suc, ◌-◌, Bool, true, false, not, Option, none, some, List, [], ◌∷◌, ◌++◌, filter,
  Result, ok, err, ◌==◌, ltb, ◌&&◌, if◌then◌else◌,
}
use vit_testing.Prelude.Text.{text_eq, Text, codes, is_digit, starts_with}
use vit_testing.Prelude.Text.Decimal.{decimal}
use vit_testing.Mock.Run.{Run, returns, panics, ◌>>=◌, unwrap}
use vit_testing.Vitup.Initials.{
  Alias, above, below, named, Template, Initial, zero_funds_count, zero_funds_pin,
}
use vit_testing.Vitup.Setup.{Crates, QuickVitBackendSettingsBuilder}

-- A QR code that is written: the name of its file in the folder `qr-codes`, and the pin's bytes.
pub record QrFile : Type 0 where
  pub name : Text
  pub pin : List ℕ

-- The controller of jormungandr, with the wallets' keys and the aliases of their templates, and what
-- the file system answers. Saving the code of a wallet gives no error.
pub record World : Type 0 where
  pub wallets : List (Text × Text)
  pub has_wallet : Text → Bool
  pub creates_folder : Bool
  pub saves_image : Text → Bool

pub data DumpError : Type 0 where
  io_error no_wallet image_error : DumpError

-- `to_digit(10).unwrap() as u8`
to_digit : ℕ → Run ℕ
to_digit c = if is_digit c then returns (c - b'0') else panics

unfoldable pub pin_to_bytes : Text → Run (List ℕ)
unfolding to_digit
pin_to_bytes [] = returns []
pin_to_bytes (c ∷ pin) = do d ← to_digit c; ds ← pin_to_bytes pin; returns (d ∷ ds)

-- The alias as it is formatted.
unfoldable pub alias_text : Alias → Text
alias_text (above i threshold) =
    codes "wallet_" ++ (decimal i ++ (codes "_above_" ++ decimal threshold))
alias_text (below i threshold) =
    codes "wallet_" ++ (decimal i ++ (codes "_below_" ++ decimal threshold))
alias_text (named name) = codes "wallet_" ++ codes name

-- The pin of the first template with the alias.
find_pin : Text → List Template → Option Text
unfolding alias_text text_eq
find_pin alias [] = none
find_pin alias (t ∷ ts) =
    if text_eq (alias_text t.alias) alias then some (codes t.pin) else find_pin alias ts

-- `{alias}_{pin}.png`
unfoldable pub wallet_png : Text → Text → Text
wallet_png alias pin = alias ++ (b'_' ∷ (pin ++ codes ".png"))

-- `zero_funds_{i}_{pin}.png`
unfoldable pub zero_funds_png : ℕ → Text → Text
zero_funds_png i pin = codes "zero_funds_" ++ (decimal i ++ (b'_' ∷ (pin ++ codes ".png")))

-- The wallets but those of the committee, by their keys.
unfoldable pub voters : List (Text × Text) → List Text
voters [] = []
voters ((key, alias) ∷ ws) =
    let rest = voters ws in if starts_with (codes "committee") alias then rest else key ∷ rest

dump_wallets :
    World → List Template → List Text → List QrFile → Run (Result DumpError (List QrFile))
unfolding find_pin wallet_png
dump_wallets world templates [] files = returns (ok files)
dump_wallets world templates (alias ∷ aliases) files =
    if world.has_wallet alias
    then (do
      pin ← unwrap (find_pin alias templates)
      bytes ← pin_to_bytes pin
      dump_wallets world templates aliases
          (files ++ record { name = wallet_png alias pin; pin = bytes } ∷ []))
    else returns (err no_wallet)

-- `count` codes from the given index on.
dump_zero_funds : World → Text → ℕ → ℕ → List QrFile → Run (Result DumpError (List QrFile))
unfolding zero_funds_png
dump_zero_funds world pin i zero files = returns (ok files)
dump_zero_funds world pin i (suc count) files = do
  bytes ← pin_to_bytes pin
  let png = zero_funds_png i pin
  let rest =
      dump_zero_funds world pin (suc i) count (files ++ record { name = png; pin = bytes } ∷ [])
  if world.saves_image png then rest else returns (err image_error)

dump_initials : World → Option (List Initial) → List QrFile → Run (Result DumpError (List QrFile))
unfolding dump_zero_funds
dump_initials world none files = returns (ok files)
dump_initials world (some initials) files =
    let count = zero_funds_count initials in
    if ltb 0 count
    then (do
      pin ← unwrap (zero_funds_pin initials)
      dump_zero_funds world (codes pin) 1 count files)
    else returns (ok files)

or_return :
    {A B : Type 0} → Result DumpError A → (A → Run (Result DumpError B)) → Run (Result DumpError B)
or_return (ok a) f = f a
or_return (err e) f = returns (err e)

module _ (crates : Crates) where
  -- The files that are written, if all goes well.
  unfoldable pub dump_qrs :
      World
      → List Template
      → QuickVitBackendSettingsBuilder crates
      → Run (Result DumpError (List QrFile))
  unfolding voters dump_wallets dump_initials or_return
  dump_qrs world templates b =
      if world.creates_folder
      then (do
        dumped ← dump_wallets world templates (voters world.wallets) []
        or_return dumped (dump_initials world b.parameters.initials))
      else returns (err io_error)
