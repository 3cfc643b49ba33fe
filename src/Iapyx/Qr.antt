-- ===== src/Iapyx/Qr.antt =====
-- iapyx/src/qr/mod.rs: how the pin of a QR code is found, and how QR codes are read.
pub mod Pin
pub mod Reading
use mathlib.Core.List.{reverse}
use vit_testing.Prelude.{
  ℕ, zero, suc, ◌-◌, Bool, true, false, Option, none, some, List, [], ◌∷◌, ◌++◌, take, Result, ok,
  err, map_err, if◌then◌else◌,
}
use vit_testing.Prelude.Text.{Text, is_digit}
use vit_testing.Prelude.Text.Paths.{file_stem}
use vit_testing.Mock.Run.{Run, returns, panics, ◌>>=◌, unwrap}

pub data PinReadMode : Type 0 where
  global : Text → PinReadMode
  read_from_file_name : PinReadMode

unfoldable pub new : Bool → Text → PinReadMode
new true pin = read_from_file_name
new false pin = global pin

-- The image and chain crates: opening an image and decoding the keys in it with the bytes of a pin.
pub record Images : Type 1 where
  pub Image : Type 0
  pub SecretKey : Type 0
  pub ImageError : Type 0
  pub KeyQrCodeError : Type 0
  pub open_image : Text → Result ImageError Image
  pub decode : Image → List ℕ → Result KeyQrCodeError (List SecretKey)

-- The errors that the reader gives; the others of the enum are never made.
pub data PinReadError (images : Images) : Type 0 where
  unable_to_detect_file_name : Text → PinReadError images
  unable_to_decode_qr : images.KeyQrCodeError → PinReadError images
  unable_to_open_image : images.ImageError → PinReadError images

-- `to_digit(10).unwrap()`
unfoldable pub to_digit : ℕ → Run ℕ
to_digit c = if is_digit c then returns (c - b'0') else panics

unfoldable pub pin_to_bytes : Text → Run (List ℕ)
unfolding to_digit
pin_to_bytes [] = returns []
pin_to_bytes (c ∷ pin) = do d ← to_digit c; ds ← pin_to_bytes pin; returns (d ∷ ds)

-- The last four characters.
unfoldable pub last_four : Text → Text
last_four s = reverse (take 4 (reverse s))

unfoldable pub first {ℓ} : {A : Type ℓ} → List A → Option A
first [] = none
first (x ∷ _) = some x

module _ (images : Images) where
  pin_of_stem : Text → Option Text → Result (PinReadError images) Text
  unfolding last_four
  pin_of_stem path none = err (unable_to_detect_file_name path)
  pin_of_stem path (some stem) = ok (last_four stem)

  unfoldable pub get_pin : PinReadMode → Text → Result (PinReadError images) Text
  unfolding pin_of_stem
  get_pin (global pin) path = ok pin
  get_pin read_from_file_name path = pin_of_stem path (file_stem path)

  -- `?` in a call that can panic.
  or_return :
      {A B : Type 0}
      → Result (PinReadError images) A
      → (A → Run (Result (PinReadError images) B))
      → Run (Result (PinReadError images) B)
  or_return (ok a) f = f a
  or_return (err e) f = returns (err e)

  -- The first of the decoded keys.
  first_secret : List images.SecretKey → Run (Result (PinReadError images) images.SecretKey)
  unfolding first
  first_secret secrets = do secret ← unwrap (first secrets); returns (ok secret)

  decode_with :
      Result images.ImageError images.Image
      → List ℕ
      → Run (Result (PinReadError images) images.SecretKey)
  unfolding or_return first_secret
  decode_with opened pin =
      or_return (map_err unable_to_open_image opened)
        (λ img. or_return (map_err unable_to_decode_qr (images.decode img pin)) first_secret)

  unfoldable pub read_qr : PinReadMode → Text → Run (Result (PinReadError images) images.SecretKey)
  unfolding or_return decode_with
  read_qr mode qr =
      or_return (get_pin mode qr)
        (λ pin. do bytes ← pin_to_bytes pin; decode_with (images.open_image qr) bytes)

  push_first : List images.SecretKey → List images.SecretKey → Run (List images.SecretKey)
  unfolding first
  push_first secrets decoded = do secret ← unwrap (first decoded); returns (secrets ++ secret ∷ [])

  -- `unwrap` on a failure to decode ends the program, or is caught.
  push_decoded :
      Bool
      → List images.SecretKey
      → Result images.KeyQrCodeError (List images.SecretKey)
      → Run (List images.SecretKey)
  unfolding push_first
  push_decoded stop_at_fail secrets (ok decoded) = push_first secrets decoded
  push_decoded true secrets (err e) = panics
  push_decoded false secrets (err e) = returns secrets

  push_opened :
      Bool
      → List images.SecretKey
      → List ℕ
      → Result images.ImageError images.Image
      → Run (List images.SecretKey)
  unfolding push_decoded
  push_opened stop_at_fail secrets pin (ok img) =
      push_decoded stop_at_fail secrets (images.decode img pin)
  push_opened stop_at_fail secrets pin (err e) = returns secrets

  push_with_pin :
      Bool
      → List images.SecretKey
      → Text
      → Result (PinReadError images) Text
      → Run (List images.SecretKey)
  unfolding push_opened
  push_with_pin stop_at_fail secrets qr (ok pin) = do
    bytes ← pin_to_bytes pin
    push_opened stop_at_fail secrets bytes (images.open_image qr)
  push_with_pin stop_at_fail secrets qr (err e) = returns secrets

  -- The loop of `read_qrs`, with the secrets so far.
  read_from : PinReadMode → Bool → List images.SecretKey → List Text → Run (List images.SecretKey)
  unfolding push_with_pin
  read_from mode stop_at_fail secrets [] = returns secrets
  read_from mode stop_at_fail secrets (qr ∷ qrs) = do
    secrets' ← push_with_pin stop_at_fail secrets qr (get_pin mode qr)
    read_from mode stop_at_fail secrets' qrs

  unfoldable pub read_qrs : PinReadMode → List Text → Bool → Run (List images.SecretKey)
  unfolding read_from
  read_qrs mode qrs stop_at_fail = read_from mode stop_at_fail [] qrs
