-- ===== src/Api/Accounts.antt =====
-- backend/app/auth/security.py, and what the endpoints of backend/app/api/auth.py share. bcrypt and
-- PyJWT are a parameter; times are in seconds.
pub mod Signup
pub mod Login
pub mod Tokens
pub mod Lockout
use bandcamp_curate.Base.{
  ℕ, suc, ◌+◌, ◌*◌, Bool, true, false, ◌&&◌, not, Option, none, some, List, [], ◌∷◌, ◌++◌, ◌==◌,
  ltb, leb, if◌then◌else◌, Text, decimal, same_text, find, any, where_rows, is_some, Result, ok,
  raise,
}
use bandcamp_curate.Urls.{strip}
use bandcamp_curate.Curation.Scoring.{Floats}
use bandcamp_curate.Scans.Tables.{Scan, ScanStatus, User, Store, get_user}
use bandcamp_curate.Scans.Queue.{create_collection_scan}
use bandcamp_curate.Api.Ownership.{scalar_one_or_none}
use bandcamp_curate.Api.Feed.{is_collection}

pub record Claims : Type 0 where
  pub sub : Text
  pub iat : ℕ
  pub exp : ℕ

-- `bcrypt.hashpw` with a fresh salt and `bcrypt.checkpw`, which may raise ValueError; `jwt.encode`,
-- and the subject that `jwt.decode` gives at a time, if it raises no InvalidTokenError and there is
-- one; `int`, where it gives the id of a row that there may be.
pub record Crypto : Type 0 where
  pub hashpw : ℕ → Text → Option Text
  pub checkpw : Text → Text → Option Bool
  pub encode : Text → Claims → Text
  pub decode : ℕ → Text → Text → Option Text
  pub to_int : Text → Option ℕ

pub record AuthSettings : Type 0 where
  pub secret_key : Text
  pub token_ttl_days : ℕ
  pub invite_code : Text
  pub login_max_attempts : ℕ
  pub login_lockout_minutes : ℕ

-- The refusals, by their status: 503, 403, 400, 409, 401 and 429; MultipleResultsFound is 500.
pub data Denied : Type 0 where
  unconfigured forbidden bad_request taken unauthorized locked_out server_error : Denied

pub data Reply {ℓ} (A : Type ℓ) : Type ℓ where
  granted : A → Reply A
  denied : Denied → Reply A

abbrev pub empty : Text → Bool
empty [] = true
empty (c ∷ s) = false

-- `hash_password` and `verify_password`
unfoldable pub hash_password : Crypto → ℕ → Text → Option Text
hash_password k salt password = k.hashpw salt password

unfoldable pub verify_password : Crypto → Text → Text → Bool
verify_password k password hash = elim (k.checkpw password hash) [ none ↦ false | some b ↦ b ]

unfoldable pub create_access_token : Crypto → AuthSettings → ℕ → ℕ → Text
create_access_token k settings now user_id =
    k.encode settings.secret_key
      (record { sub = decimal user_id; iat = now; exp = now + settings.token_ttl_days * 86400 })

abbrev unauthorized_unless {ℓ} : {A : Type ℓ} → Option A → Reply A
unauthorized_unless none = denied unauthorized
unauthorized_unless (some a) = granted a

-- The user of a token's subject.
unfoldable pub user_of_sub : Crypto → Option Text → List User → Option User
unfolding get_user
user_of_sub k none users = none
user_of_sub k (some sub) users = elim (k.to_int sub) [ none ↦ none | some id ↦ get_user id users ]

unfoldable pub get_current_user : Crypto → AuthSettings → ℕ → Option Text → List User → Reply User
unfolding user_of_sub
get_current_user k settings now none users = denied unauthorized
get_current_user k settings now (some token) users =
    unauthorized_unless (user_of_sub k (k.decode now settings.secret_key token) users)

unfoldable pub named : Text → User → Bool
unfolding same_text
named username u = same_text u.username username
