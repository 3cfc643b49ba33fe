-- ===== src/Vitup/Initials.antt =====
-- vitup/src/config/initials.rs: the wallets that a backend begins with. Arithmetic that overflows
-- panics, as it does in a debug build.
pub mod Templates
use vit_testing.Prelude.{
  ℕ, zero, suc, ◌+◌, ◌-◌, ◌^◌, String, Option, none, some, List, [], ◌∷◌, ◌++◌, ltb, leb,
  if◌then◌else◌,
}
use vit_testing.Mock.Run.{Run, returns, panics, ◌>>=◌, checked}

pub data Initial : Type 0 where
  above_threshold below_threshold zero_funds : ℕ → String → Initial
  wallet : String → ℕ → String → Initial
  external : String → ℕ → Initial

-- A formatted alias, as its parts: the index and the threshold, or the name.
pub data Alias : Type 0 where
  above below : ℕ → ℕ → Alias
  named : String → Alias

-- An entry of the map of templates: a template with its pin; the discrimination is that of all.
pub record Template : Type 0 where
  pub alias : Alias
  pub value : ℕ
  pub pin : String

-- `ExternalWalletTemplate`; the alias is the number in it.
pub record ExternalTemplate : Type 0 where
  pub index : ℕ
  pub value : ℕ
  pub address : String

-- The generator of the rand crate.
pub record Rng : Type 1 where
  pub Seed : Type 0
  pub gen_range : ℕ → ℕ → Seed → ℕ × Seed

unfoldable pub zero_funds_count : List Initial → ℕ
zero_funds_count [] = 0
zero_funds_count (zero_funds n _ ∷ _) = n
zero_funds_count (_ ∷ is) = zero_funds_count is

unfoldable pub zero_funds_pin : List Initial → Option String
zero_funds_pin [] = none
zero_funds_pin (zero_funds _ pin ∷ _) = some pin
zero_funds_pin (_ ∷ is) = zero_funds_pin is

-- What an initial adds to the sum of `count`.
unfoldable pub wallets_of : Initial → ℕ
wallets_of (zero_funds n _) = n
wallets_of (below_threshold n _) = n
wallets_of (above_threshold n _) = n
wallets_of (wallet _ _ _) = 1
wallets_of (external _ _) = 0

-- The sum is a usize of 64 bits.
unfoldable pub count_from : ℕ → List Initial → Run ℕ
unfolding wallets_of
count_from sum [] = returns sum
count_from sum (i ∷ is) = do sum' ← checked (sum + wallets_of i); count_from sum' is

unfoldable pub count : List Initial → Run ℕ
count is = count_from 0 is

unfoldable pub new_above_threshold : ℕ → String → List Initial
new_above_threshold n pin = above_threshold n pin ∷ []

unfoldable pub default_initials : List Initial
default_initials = above_threshold 10 "1234" ∷ []

-- The alias has the place among all initials, from 1.
external_from : ℕ → List Initial → List ExternalTemplate
external_from index [] = []
external_from index (external address funds ∷ is) =
    record { index = index + 1; value = funds; address = address } ∷ external_from (suc index) is
external_from index (_ ∷ is) = external_from (suc index) is

unfoldable pub external_templates : List Initial → List ExternalTemplate
unfolding external_from
external_templates is = external_from 0 is

abbrev pub grace_value : ℕ
grace_value = 1

module _ (rng : Rng) where
  -- The variables of `templates`; an entry stands behind those inserted before it.
  pub record Progress : Type 0 where
    pub seed : rng.Seed
    pub above_threshold_index : ℕ
    pub below_threshold_index : ℕ
    pub templates : List Template

  -- `rand.gen_range(GRACE_VALUE..=threshold - GRACE_VALUE)`, which panics on an empty range.
  draw : ℕ → rng.Seed → Run (ℕ × rng.Seed)
  draw threshold seed =
      if ltb threshold (grace_value + grace_value)
      then panics
      else returns (rng.gen_range grace_value (threshold - grace_value) seed)

  add_u64 : ℕ → ℕ → Run ℕ
  add_u64 a b = if ltb (a + b) (2 ^ 64) then returns (a + b) else panics

  -- The indices are of type i32.
  next_index : ℕ → Run ℕ
  next_index index = if ltb (index + 1) (2 ^ 31) then returns (index + 1) else panics

  unfoldable pub add_above : ℕ → ℕ → String → Progress → Run Progress
  unfolding next_index draw add_u64
  add_above threshold zero pin s = returns s
  add_above threshold (suc n) pin s = do
    index ← next_index s.above_threshold_index
    (value, seed) ← draw threshold s.seed
    funds ← add_u64 threshold value
    add_above threshold n pin (record s {
      seed = seed;
      above_threshold_index = index;
      templates =
          s.templates ++ record { alias = above index threshold; value = funds; pin = pin } ∷ [];
    })

  -- A drawn value is below the threshold, so `threshold - value` does not underflow.
  unfoldable pub add_below : ℕ → ℕ → String → Progress → Run Progress
  unfolding next_index draw
  add_below threshold zero pin s = returns s
  add_below threshold (suc n) pin s = do
    index ← next_index s.below_threshold_index
    (value, seed) ← draw threshold s.seed
    add_below threshold n pin (record s {
      seed = seed;
      below_threshold_index = index;
      templates =
          s.templates
          ++ record { alias = below index threshold; value = threshold - value; pin = pin } ∷ [];
    })

  unfoldable pub add_initial : ℕ → Initial → Progress → Run Progress
  unfolding add_above add_below
  add_initial threshold (above_threshold n pin) s = add_above threshold n pin s
  add_initial threshold (below_threshold n pin) s = add_below threshold n pin s
  add_initial threshold (wallet name funds pin) s = returns (record s {
    templates = s.templates ++ record { alias = named name; value = funds; pin = pin } ∷ [];
  })
  add_initial threshold _ s = returns s

  unfoldable pub add_initials : ℕ → List Initial → Progress → Run Progress
  unfolding add_initial
  add_initials threshold [] s = returns s
  add_initials threshold (i ∷ is) s = do
    s' ← add_initial threshold i s
    add_initials threshold is s'

  unfoldable pub templates : ℕ → rng.Seed → List Initial → Run (List Template)
  unfolding add_initials
  templates threshold seed is = do
    s ← add_initials threshold is (record {
      seed = seed;
      above_threshold_index = 0;
      below_threshold_index = 0;
      templates = [];
    })
    returns s.templates
