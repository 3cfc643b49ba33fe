-- ===== src/Prelude/Text/Decimal.antt =====
-- Numbers as `Display` writes them: decimal digits with no leading zeros.
use Prim.Native.Nat.{ℕ, zero, suc, ◌+◌, ◌-◌, ◌*◌, ◌/◌, ◌%◌, ◌<◌}
use mathlib.Core.Path.{◌≡◌, refl, sym, ap, ◌∙◌}
use mathlib.Core.List.{[], ◌∷◌, ◌++◌}
use native.Mathlib.Omega.{arith}
use vit_testing.Prelude.Lists.{All-append}
use vit_testing.Prelude.Tests.{ltb, if◌then◌else◌}
use vit_testing.Prelude.Text.{Text, is_digit}
use vit_testing.Prelude.Text.Laws.{IsDigits, value_from}

-- The digits of a number that has at most `fuel` of them.
decimal_from : ℕ → ℕ → Text
decimal_from zero n = []
decimal_from (suc fuel) n =
    let front = decimal_from fuel (n / 10) in
    if ltb n 10 then (b'0' + n) ∷ [] else front ++ ((b'0' + n % 10) ∷ [])

unfoldable pub decimal : ℕ → Text
unfolding decimal_from
decimal n = decimal_from (suc n) n

digit-IsDigits : (d : ℕ) → d < 10 → IsDigits ((b'0' + d) ∷ [])
unfolding is_digit
digit-IsDigits d h = (ground arith, tt)

decimal_from-IsDigits : (fuel n : ℕ) → IsDigits (decimal_from fuel n)
unfolding decimal_from
decimal_from-IsDigits zero n = tt
decimal_from-IsDigits (suc fuel) n = ground (
  arith,
  digit-IsDigits n,
  All-append _ (decimal_from fuel (n / 10)) ((b'0' + n % 10) ∷ [])
      (decimal_from-IsDigits fuel (n / 10)) (digit-IsDigits (n % 10) (omega arith)),
)

pub decimal-IsDigits : (n : ℕ) → IsDigits (decimal n)
unfolding decimal
decimal-IsDigits n = decimal_from-IsDigits (suc n) n

value_from-append :
    (acc : ℕ) (s : Text) (c : ℕ) → value_from acc (s ++ c ∷ []) ≡ value_from acc s * 10 + (c - b'0')
unfolding value_from
value_from-append acc [] c = refl
value_from-append acc (d ∷ s) c = value_from-append (acc * 10 + (d - b'0')) s c

value_from-decimal_from : (fuel n : ℕ) → n < fuel → value_from 0 (decimal_from fuel n) ≡ n
unfolding decimal_from value_from
value_from-decimal_from zero n h = absurd (omega arith)
value_from-decimal_from (suc fuel) n h = ground (
  arith,
  value_from-decimal_from fuel (n / 10),
  value_from-append 0 (decimal_from fuel (n / 10)) (b'0' + n % 10),
)

pub value_from-decimal : (n : ℕ) → value_from 0 (decimal n) ≡ n
unfolding decimal
value_from-decimal n = value_from-decimal_from (suc n) n (omega arith)

pub decimal-injective : (m n : ℕ) → decimal m ≡ decimal n → m ≡ n
decimal-injective m n h = sym (value_from-decimal m) ∙ (ap (value_from 0) h ∙ value_from-decimal n)
