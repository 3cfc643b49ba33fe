-- ===== src/Tokens.antt =====
-- The token manager of jortestkit, which the three servers use: `none` is a rejected text.
pub mod Filter
use vit_testing.Prelude.{String, Bool, Option}

pub record Tokens : Type 1 where
  pub ApiToken : Type 0
  pub ApiTokenManager : Type 0
  pub from_string : String → Option ApiToken
  pub manager : String → Option ApiTokenManager
  pub is_token_valid : ApiTokenManager → ApiToken → Bool
