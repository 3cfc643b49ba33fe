-- ===== src/Iapyx/Qr/Reading.antt =====
-- Reading many QR codes of iapyx/src/qr/mod.rs, set against reading each.
use vit_testing.Prelude.{
  ℕ, false, ◌≡◌, refl, sym, ap, ◌∙◌, List, [], ◌∷◌, ◌++◌, Result, ok, err, map_err,
}
use mathlib.Core.List.{append_assoc, append-nil}
use vit_testing.Prelude.Text.{Text}
use vit_testing.Mock.Run as Run
use vit_testing.Mock.Run.{Run, returns, panics, running, ◌>>=◌}
use vit_testing.Iapyx.Qr.{
  PinReadMode, Images, PinReadError, or_return, first, first_secret, decode_with, get_pin,
  pin_to_bytes, read_qr, read_qrs, push_first, push_decoded, push_opened, push_with_pin, read_from,
}

-- What was read, in a list, or nothing for an error.
unfoldable pub kept : {E K : Type 0} → Result E K → List K
kept (ok k) = k ∷ []
kept (err e) = []

-- Each in turn, until one panics; those that give errors are left out.
unfoldable pub collect : {E K A : Type 0} → (A → Run (Result E K)) → List A → Run (List K)
unfolding kept
collect f [] = returns []
collect f (a ∷ rest) = do r ← f a; ks ← collect f rest; returns (kept r ++ ks)

module _ (images : Images) where
  -- What is read, behind the secrets so far.
  abbrev behind :
      List images.SecretKey
      → Run (Result (PinReadError images) images.SecretKey)
      → Run (List images.SecretKey)
  behind secrets = Run.map (λ r. secrets ++ kept r)

  push_decoded-behind :
      (secrets : List images.SecretKey) (r : Result images.KeyQrCodeError (List images.SecretKey))
      → push_decoded images false secrets r
        ≡ behind secrets
            (or_return images (map_err PinReadError.unable_to_decode_qr r) (first_secret images))
  unfolding push_decoded push_first or_return first_secret first kept
  push_decoded-behind secrets (err e) = ap returns (sym (append-nil secrets))
  push_decoded-behind secrets (ok []) = refl
  push_decoded-behind secrets (ok (k ∷ ks)) = refl

  push_opened-behind :
      (secrets : List images.SecretKey) (pin : List ℕ) (r : Result images.ImageError images.Image)
      → push_opened images false secrets pin r ≡ behind secrets (decode_with images r pin)
  unfolding push_opened decode_with or_return kept
  push_opened-behind secrets pin (err e) = ap returns (sym (append-nil secrets))
  push_opened-behind secrets pin (ok img) = push_decoded-behind secrets (images.decode img pin)

  push_bytes-behind :
      (secrets : List images.SecretKey) (qr : Text) (bytes : Run (List ℕ))
      → (bytes >>= λ b. push_opened images false secrets b (images.open_image qr))
        ≡ behind secrets (bytes >>= decode_with images (images.open_image qr))
  push_bytes-behind secrets qr (returns b) = push_opened-behind secrets b (images.open_image qr)
  push_bytes-behind secrets qr panics = refl
  push_bytes-behind secrets qr running = refl

  push_with_pin-behind :
      (secrets : List images.SecretKey) (qr : Text) (pin : Result (PinReadError images) Text)
      → push_with_pin images false secrets qr pin
        ≡ behind secrets (
            or_return images pin
              (λ p. do bytes ← pin_to_bytes p; decode_with images (images.open_image qr) bytes))
  unfolding push_with_pin or_return kept
  push_with_pin-behind secrets qr (err e) = ap returns (sym (append-nil secrets))
  push_with_pin-behind secrets qr (ok pin) = push_bytes-behind secrets qr (pin_to_bytes pin)

  then-behind :
      (secrets : List images.SecretKey) (m : Run (Result (PinReadError images) images.SecretKey))
      (go : List images.SecretKey → Run (List images.SecretKey))
      (rest : Run (List images.SecretKey))
      → ((ks : List images.SecretKey) → go ks ≡ Run.map (λ t. ks ++ t) rest)
      → (behind secrets m >>= go)
        ≡ Run.map (λ t. secrets ++ t) (m >>= λ r. rest >>= λ t. returns (kept r ++ t))
  then-behind secrets panics go rest h = refl
  then-behind secrets running go rest h = refl
  then-behind secrets (returns r) go panics h = h (secrets ++ kept r)
  then-behind secrets (returns r) go running h = h (secrets ++ kept r)
  then-behind secrets (returns r) go (returns t) h =
      h (secrets ++ kept r) ∙ ap returns (append_assoc secrets (kept r) t)

  read_from-collect :
      (mode : PinReadMode) (secrets : List images.SecretKey) (qrs : List Text)
      → read_from images mode false secrets qrs
        ≡ Run.map (λ t. secrets ++ t) (collect (read_qr images mode) qrs)
  unfolding read_from collect read_qr
  read_from-collect mode secrets [] = ap returns (sym (append-nil secrets))
  read_from-collect mode secrets (qr ∷ qrs) =
      ap (λ m. m >>= λ ks. read_from images mode false ks qrs)
        (push_with_pin-behind secrets qr (get_pin images mode qr))
      ∙ then-behind secrets (read_qr images mode qr) _ (collect (read_qr images mode) qrs)
          (λ ks. read_from-collect mode ks qrs)

map-id : {A : Type 0} (m : Run A) → Run.map (λ t. t) m ≡ m
map-id (returns a) = refl
map-id panics = refl
map-id running = refl

-- Reading many QR codes without stopping at a failure gives the keys that reading each one gives, in
-- order and without those that give an error; it panics where reading one of them does.
pub read_qrs-collect :
    (images : Images) (mode : PinReadMode) (qrs : List Text)
    → read_qrs images mode qrs false ≡ collect (read_qr images mode) qrs
unfolding read_qrs
read_qrs-collect images mode qrs = read_from-collect images mode [] qrs ∙ map-id _
