-- ===== src/Vitup/Setup/Qr/Readable.antt =====
-- The QR codes that vitup/src/setup/start/quick/builder.rs writes, as iapyx/src/qr/mod.rs reads them.
use mathlib.Core.Path.{subst}
use mathlib.Core.List.{append_assoc}
use mathlib.Core.Option.{some-injective}
use vit_testing.Prelude.{
  ℕ, zero, suc, ◌+◌, Bool, true, false, ◌≡◌, inl, inr, refl, sym, ap, ◌∙◌, String, Option, none,
  some, List, [], ◌∷◌, ◌++◌, length, length-append, All, All-append, Result, ok, err, ◌==◌, ltb,
  ltb→ge, Bool-cases, if◌then◌else◌, arith,
}
use vit_testing.Prelude.Text.{text_eq, Text, codes, is_digit}
use vit_testing.Prelude.Text.Decimal.{decimal}
use vit_testing.Prelude.Text.Paths.Laws.{Lacks}
use vit_testing.Mock.Run.{Run, returns, ◌>>=◌, >>=-eq-returns, unwrap, unwrap-eq-returns}
use vit_testing.Iapyx.Qr as Reader
use vit_testing.Iapyx.Qr.{Images, read_from_file_name, get_pin}
use vit_testing.Iapyx.Qr.Pin.{with_pin, get_pin_iff}
use vit_testing.Vitup.Initials.{
  Template, Initial, above_threshold, below_threshold, zero_funds, wallet, external,
  zero_funds_count, zero_funds_pin,
}
use vit_testing.Vitup.Setup.{Crates, QuickVitBackendSettingsBuilder}
use vit_testing.Vitup.Setup.Qr.{
  QrFile, World, DumpError, io_error, no_wallet, image_error, to_digit, pin_to_bytes, alias_text,
  find_pin, wallet_png, zero_funds_png, voters, dump_wallets, dump_zero_funds, dump_initials,
  or_return, dump_qrs,
}

-- In the given folder, the reader finds a pin in the name of the file, and it has the bytes that the
-- code was written with.
abbrev pub IsReadable : Images → Text → QrFile → Type 0
IsReadable images folder f =
    (pin : Text) × (get_pin images read_from_file_name (folder ++ f.name) ≡ ok pin)
    × (Reader.pin_to_bytes pin ≡ returns f.pin)

pin_to_bytes-same : (pin : Text) → Reader.pin_to_bytes pin ≡ pin_to_bytes pin
unfolding pin_to_bytes to_digit Reader.pin_to_bytes Reader.to_digit
pin_to_bytes-same [] = refl
pin_to_bytes-same (c ∷ pin) = rw (pin_to_bytes-same pin)

to_digit-not_slash : (c d : ℕ) → to_digit c ≡ returns d → (c == b'/') ≡ false
unfolding to_digit is_digit
to_digit-not_slash c d h = ground arith

-- A pin with bytes is made of digits.
pin_to_bytes-Lacks :
    (pin : Text) (bytes : List ℕ) → pin_to_bytes pin ≡ returns bytes → Lacks b'/' pin
unfolding pin_to_bytes
pin_to_bytes-Lacks [] bytes h = tt
pin_to_bytes-Lacks (c ∷ pin) bytes h =
    let (d, e, h₁) = >>=-eq-returns (to_digit c) _ h in
    let (ds, r, _) = >>=-eq-returns (pin_to_bytes pin) _ h₁ in
    (to_digit-not_slash c d e, pin_to_bytes-Lacks pin ds r)

or_return-ok :
    {A B : Type 0} (r : Result DumpError A) (f : A → Run (Result DumpError B)) (b : B)
    → or_return r f ≡ returns (ok b)
    → (a : A) × (r ≡ ok a) × (f a ≡ returns (ok b))
unfolding or_return
or_return-ok (ok a) f b h = (a, refl, h)
or_return-ok (err e) f b h = cc

find_pin-four :
    (alias : Text) (templates : List Template) (pin : Text)
    → All (λ t. length (codes t.pin) ≡ 4) templates
    → find_pin alias templates ≡ some pin
    → length pin ≡ 4
unfolding find_pin
find_pin-four alias [] pin four h = cc
find_pin-four alias (t ∷ ts) pin four h = elim (Bool-cases (text_eq (alias_text t.alias) alias)) [
  | inl e ↦ ap length (sym (some-injective _ _ (rw e at h))) ∙ four.0
  | inr e ↦ find_pin-four alias ts pin four.1 (rw e at h)
]

ok-injective :
    (E A : Type 0) (a b : A) → ◌≡◌ {A = Run (Result E A)} (returns (ok a)) (returns (ok b)) → a ≡ b
ok-injective E A a b h = cc

-- What returns is not what comes with an error.
guarded :
    {A : Type 0} (test : Bool) (m : Run (Result DumpError A)) (e : DumpError) (out : A)
    → (if test then m else returns (err e)) ≡ returns (ok out)
    → m ≡ returns (ok out)
guarded true m e out h = h
guarded false m e out h = cc

-- How many wallets without funds each initial that asks for such wallets has.
unfoldable pub zero_counts : List Initial → List ℕ
zero_counts [] = []
zero_counts (zero_funds n _ ∷ is) = n ∷ zero_counts is
zero_counts (_ ∷ is) = zero_counts is

unfoldable pub first_or_zero : List ℕ → ℕ
first_or_zero [] = 0
first_or_zero (n ∷ _) = n

-- The wallets without funds that get a code: those of the first such initial alone.
unfoldable pub coded_zero_funds : Option (List Initial) → ℕ
coded_zero_funds none = 0
coded_zero_funds (some initials) = first_or_zero (zero_counts initials)

zero_funds_count-first : (is : List Initial) → zero_funds_count is ≡ first_or_zero (zero_counts is)
unfolding zero_funds_count zero_counts first_or_zero
zero_funds_count-first [] = refl
zero_funds_count-first (zero_funds n pin ∷ is) = refl
zero_funds_count-first (above_threshold n pin ∷ is) = zero_funds_count-first is
zero_funds_count-first (below_threshold n pin ∷ is) = zero_funds_count-first is
zero_funds_count-first (wallet name funds pin ∷ is) = zero_funds_count-first is
zero_funds_count-first (external address funds ∷ is) = zero_funds_count-first is

module _ (images : Images) (folder : Text) where
  with_pin-IsReadable :
      (front pin : Text) (f : QrFile)
      → folder ++ f.name ≡ with_pin front pin
      → pin_to_bytes pin ≡ returns f.pin
      → length pin ≡ 4
      → IsReadable images folder f
  with_pin-IsReadable front pin f e h l = (
    pin,
    ap (get_pin images read_from_file_name) e
        ∙ (get_pin_iff images front pin (pin_to_bytes-Lacks pin f.pin h)).1 l,
    pin_to_bytes-same pin ∙ h,
  )

  wallet_png-IsReadable :
      (alias pin : Text) (bytes : List ℕ)
      → pin_to_bytes pin ≡ returns bytes
      → length pin ≡ 4
      → IsReadable images folder (record { name = wallet_png alias pin; pin = bytes })
  unfolding wallet_png
  wallet_png-IsReadable alias pin bytes h l =
      with_pin-IsReadable (folder ++ alias) pin _ (sym (append_assoc folder alias _)) h l

  zero_funds_png-IsReadable :
      (i : ℕ) (pin : Text) (bytes : List ℕ)
      → pin_to_bytes pin ≡ returns bytes
      → length pin ≡ 4
      → IsReadable images folder (record { name = zero_funds_png i pin; pin = bytes })
  unfolding zero_funds_png
  zero_funds_png-IsReadable i pin bytes h l =
      let front = codes "zero_funds_" ++ decimal i in
      with_pin-IsReadable (folder ++ front) pin _
        (ap (λ t. folder ++ t) (sym (append_assoc (codes "zero_funds_") (decimal i) _))
          ∙ sym (append_assoc folder front _))
        h l

  abbrev AllReadable : List QrFile → Type 0
  AllReadable = All (IsReadable images folder)

  push-AllReadable :
      (files : List QrFile) (f : QrFile)
      → AllReadable files
      → IsReadable images folder f
      → AllReadable (files ++ f ∷ [])
  push-AllReadable files f h r = All-append (IsReadable images folder) files (f ∷ []) h (r, tt)

  unchanged-AllReadable :
      (files out : List QrFile) (n : ℕ)
      → n ≡ 0
      → ◌≡◌ {A = Run (Result DumpError (List QrFile))} (returns (ok files)) (returns (ok out))
      → AllReadable files
      → AllReadable out × (length out ≡ length files + n)
  unchanged-AllReadable files out n z h r =
      let e = ok-injective DumpError (List QrFile) files out h in
      (subst AllReadable e r, omega (arith, ap length e))

  dump_wallets-AllReadable :
      (world : World) (templates : List Template) (aliases : List Text) (files out : List QrFile)
      → All (λ t. length (codes t.pin) ≡ 4) templates
      → dump_wallets world templates aliases files ≡ returns (ok out)
      → AllReadable files
      → AllReadable out × (length out ≡ length files + length aliases)
  unfolding dump_wallets
  dump_wallets-AllReadable world templates [] files out four h r =
      unchanged-AllReadable files out 0 refl h r
  dump_wallets-AllReadable world templates (alias ∷ aliases) files out four h r =
      let m = guarded (world.has_wallet alias) _ no_wallet out h in
      let (pin, p, h₁) = >>=-eq-returns (unwrap (find_pin alias templates)) _ m in
      let (bytes, q, h₂) = >>=-eq-returns (pin_to_bytes pin) _ h₁ in
      let four_pin = find_pin-four alias templates pin four (unwrap-eq-returns _ pin p) in
      let f : QrFile = record { name = wallet_png alias pin; pin = bytes } in
      let files' = push-AllReadable files f r (wallet_png-IsReadable alias pin bytes q four_pin) in
      let (rest, n) =
        dump_wallets-AllReadable world templates aliases (files ++ f ∷ []) out four h₂ files' in
      (rest, omega (arith, n, length-append files (f ∷ [])))

  dump_zero_funds-AllReadable :
      (world : World) (pin : Text) (i count : ℕ) (files out : List QrFile)
      → length pin ≡ 4
      → dump_zero_funds world pin i count files ≡ returns (ok out)
      → AllReadable files
      → AllReadable out × (length out ≡ length files + count)
  unfolding dump_zero_funds
  dump_zero_funds-AllReadable world pin i zero files out four h r =
      unchanged-AllReadable files out 0 refl h r
  dump_zero_funds-AllReadable world pin i (suc count) files out four h r =
      let (bytes, q, h₁) = >>=-eq-returns (pin_to_bytes pin) _ h in
      let h₂ = guarded (world.saves_image (zero_funds_png i pin)) _ image_error out h₁ in
      let f : QrFile = record { name = zero_funds_png i pin; pin = bytes } in
      let files' = push-AllReadable files f r (zero_funds_png-IsReadable i pin bytes q four) in
      let (rest, n) =
        dump_zero_funds-AllReadable world pin (suc i) count (files ++ f ∷ []) out four h₂ files' in
      (rest, omega (arith, n, length-append files (f ∷ [])))

  dump_initials-AllReadable :
      (world : World) (initials : Option (List Initial)) (files out : List QrFile)
      → ((is : List Initial) (pin : String)
          → initials ≡ some is
          → zero_funds_pin is ≡ some pin
          → length (codes pin) ≡ 4)
      → dump_initials world initials files ≡ returns (ok out)
      → AllReadable files
      → AllReadable out × (length out ≡ length files + coded_zero_funds initials)
  unfolding dump_initials coded_zero_funds
  dump_initials-AllReadable world none files out four h r =
      unchanged-AllReadable files out 0 refl h r
  dump_initials-AllReadable world (some initials) files out four h r =
      elim (Bool-cases (ltb 0 (zero_funds_count initials))) [
        | inl e ↦
            let h' : (unwrap (zero_funds_pin initials) >>= λ pin.
            dump_zero_funds world (codes pin) 1 (zero_funds_count initials) files)
                ≡ returns (ok out) =
              rw e at h in
            let (pin, p, h₁) = >>=-eq-returns (unwrap (zero_funds_pin initials)) _ h' in
            let (all, n) =
              dump_zero_funds-AllReadable world (codes pin) 1 (zero_funds_count initials) files out
                (four initials pin refl (unwrap-eq-returns _ pin p)) h₁ r in
            (all, n ∙ ap (λ k. length files + k) (zero_funds_count-first initials))
        | inr e ↦
            unchanged-AllReadable files out (first_or_zero (zero_counts initials))
              (sym (zero_funds_count-first initials)
                ∙ omega (arith, ltb→ge 0 (zero_funds_count initials) e))
              (rw e at h) r
      ]

-- Where each pin of the templates and that of the wallets without funds has four characters, every QR
-- code that `dump_qrs` writes is one that the reader finds the pin of in the name of the file, in
-- whatever folder, with the bytes that the code was written with; there is one code for each wallet
-- that is not of the committee, and one for each wallet without funds of the first initial that asks
-- for such wallets; further such initials get no codes.
pub dump_qrs-IsReadable :
    (images : Images) (folder : Text) (crates : Crates) (world : World) (templates : List Template)
    (b : QuickVitBackendSettingsBuilder crates) (files : List QrFile)
    → All (λ t. length (codes t.pin) ≡ 4) templates
    → ((is : List Initial) (pin : String)
        → b.parameters.initials ≡ some is
        → zero_funds_pin is ≡ some pin
        → length (codes pin) ≡ 4)
    → dump_qrs crates world templates b ≡ returns (ok files)
    → All (IsReadable images folder) files
      × (length files ≡ length (voters world.wallets) + coded_zero_funds b.parameters.initials)
unfolding dump_qrs
dump_qrs-IsReadable images folder crates world templates b files four zero_four h =
    let h₁ = guarded world.creates_folder _ io_error files h in
    let (dumped, d, h₂) =
      >>=-eq-returns (dump_wallets world templates (voters world.wallets) []) _ h₁ in
    let (first, e, h₃) = or_return-ok dumped (dump_initials world b.parameters.initials) files h₂ in
    let wallets =
      dump_wallets-AllReadable images folder world templates (voters world.wallets) [] first four
        (d ∙ ap returns e) tt in
    let all =
      dump_initials-AllReadable images folder world b.parameters.initials first files zero_four h₃
        wallets.0 in
    (all.0, omega (arith, all.1, wallets.1))
