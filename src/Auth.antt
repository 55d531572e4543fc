-- ===== src/Auth.antt =====
-- src/auth.rs: the claims of a join token, and when a token is accepted. jsonwebtoken's `decode`, which
-- checks the signature and the expiry, is a parameter.
pub mod Tokens
use ababilx_chat_sfu.Shared.{
  String, Bool, true, ◌||◌, ℤ, Result, ok, err, if◌then◌else◌, ◌==◌, string_Eq,
}
use ababilx_chat_sfu.Shared.Texts.{trim}

pub record JoinClaims : Type 0 where
  pub sub : String
  pub room : String
  pub call_id : String
  pub name : String
  pub avatar_url : String
  pub exp : ℤ

-- The kind of jsonwebtoken's error is a text.
pub data AuthError : Type 0 where
  invalid : String → AuthError
  incomplete_claims : AuthError

is_incomplete : JoinClaims → Bool
is_incomplete c = c.sub == "" || c.room == "" || c.call_id == ""

checked : Result String JoinClaims → Result AuthError JoinClaims
unfolding is_incomplete
checked (err kind) = err (invalid kind)
checked (ok c) = if is_incomplete c then err incomplete_claims else ok c

-- `decode` takes the token and the secret.
unfoldable pub verify :
    (decode : String → String → Result String JoinClaims) (token secret : String)
    → Result AuthError JoinClaims
unfolding checked
verify decode token secret = checked (decode (trim token) secret)
