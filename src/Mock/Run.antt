-- ===== src/Mock/Run.antt =====
-- How a call can end: it returns, it panics, or it has not returned after the rounds it was given.
use vit_testing.Prelude.{
  ℕ, ◌^◌, ◌<◌, Option, none, some, ◌≡◌, ◌≢◌, refl, ap, ltb, lt→ltb, if◌then◌else◌,
}

pub data Run {ℓ} (A : Type ℓ) : Type ℓ where
  returns : A → Run A
  panics : Run A
  running : Run A

infixl 5 ◌>>=◌
abbrev pub ◌>>=◌ {ℓ κ} : {A : Type ℓ} {B : Type κ} → Run A → (A → Run B) → Run B
returns a >>= f = f a
panics >>= f = panics
running >>= f = running

-- `unwrap`
abbrev pub unwrap {ℓ} : {A : Type ℓ} → Option A → Run A
unwrap none = panics
unwrap (some a) = returns a

pub returns-injective {ℓ} : {A : Type ℓ} (a b : A) → returns a ≡ returns b → a ≡ b
returns-injective a b h = cc

pub returns-ne-running {ℓ} : {A : Type ℓ} (a : A) → returns a ≢ running
returns-ne-running a h = cc

pub >>=-eq-returns {ℓ κ} :
    {A : Type ℓ} {B : Type κ} (m : Run A) (f : A → Run B) {b : B}
    → (m >>= f) ≡ returns b
    → (a : A) × (m ≡ returns a) × (f a ≡ returns b)
>>=-eq-returns (returns a) f h = (a, refl, h)
>>=-eq-returns panics f h = cc
>>=-eq-returns running f h = cc

pub unwrap-eq-returns {ℓ} : {A : Type ℓ} (o : Option A) (a : A) → unwrap o ≡ returns a → o ≡ some a
unwrap-eq-returns none a h = cc
unwrap-eq-returns (some b) a h = ap some (returns-injective b a h)

abbrev pub map {ℓ κ} : {A : Type ℓ} {B : Type κ} → (A → B) → Run A → Run B
map f (returns a) = returns (f a)
map f panics = panics
map f running = running

-- Arithmetic on u64 in a debug build.
abbrev pub checked : ℕ → Run ℕ
checked n = if ltb n (2 ^ 64) then returns n else panics

pub checked-eq-returns : (n : ℕ) → n < 2 ^ 64 → checked n ≡ returns n
checked-eq-returns n h = rw (lt→ltb n (2 ^ 64) h)
