-- ===== src/Web.antt =====
-- The crate reqwest, for the clients of the services: what a request is answered.
pub mod Prefix
use vit_testing.Prelude.{
  some, none, List, [], ◌∷◌, ◌++◌, ◌&&◌, ◌||◌, ◌==◌, leb, ◌≡◌, ℕ, String, Bool, true, false, Option,
  Result, ok, err,
}
use vit_testing.Prelude.Text.{Text, codes, contains, is_digit}

pub data Method : Type 0 where
  get post : Method

unfoldable pub same_method : Method → Method → Bool
same_method get get = true
same_method post post = true
same_method _ _ = false

-- The token is that of the header API-Token.
pub record Request : Type 0 where
  pub method : Method
  pub url : Text
  pub api_token : Option String
  pub body : Option Text

pub record Web : Type 1 where
  pub Response : Type 0
  pub Error : Type 0
  pub send : Request → Result Error Response
  pub status : Response → ℕ
  pub text : Response → Result Error Text

-- `?`
infixl 5 ◌|>◌
unfoldable pub ◌|>◌ : {E A B : Type 0} → Result E A → (A → Result E B) → Result E B
ok a |> f = f a
err e |> f = err e

-- The crate url, by which reqwest reads a URL: the path that is asked of the server with the given
-- address, if the text is an absolute URL that leads there.
pub record Urls : Type 0 where
  pub path_at : Text → Text → Option Text

-- A plain character: a letter, a digit, a dash, an underscore or a slash. A URL takes it as it is.
unfoldable pub is_clean : ℕ → Bool
unfolding is_digit
is_clean c =
    is_digit c
    || (leb b'a' c && leb c b'z')
    || (leb b'A' c && leb c b'Z')
    || (c == b'-')
    || (c == b'_')
    || (c == b'/')

unfoldable pub all_clean : Text → Bool
unfolding is_clean
all_clean [] = true
all_clean (c ∷ s) = is_clean c && all_clean s

-- A path of such characters behind the address is asked of the server as it stands.
abbrev pub KeepsPaths : Urls → Text → Type 0
KeepsPaths urls address =
    (path : Text)
    → all_clean path ≡ true
    → urls.path_at address (address ++ (b'/' ∷ path)) ≡ some (b'/' ∷ path)

-- What has no colon has no scheme, and is no absolute URL.
abbrev pub RefusesRelative : Urls → Text → Type 0
RefusesRelative urls address =
    (text : Text) → contains (codes ":") text ≡ false → urls.path_at address text ≡ none
