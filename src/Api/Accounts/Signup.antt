-- ===== src/Api/Accounts/Signup.antt =====
-- `signup` of backend/app/api/auth.py.
use bandcamp_curate.Base.{
  ℕ, suc, not, Option, none, some, List, [], ◌∷◌, ◌++◌, if◌then◌else◌, Text, same_text, any,
  where_rows, Result, ok, raise,
}
use bandcamp_curate.Urls.{strip}
use bandcamp_curate.Curation.Scoring.{Floats}
use bandcamp_curate.Scans.Tables.{User, Store}
use bandcamp_curate.Scans.Queue.{create_collection_scan}
use bandcamp_curate.Api.Ownership.{scalar_one_or_none}
use bandcamp_curate.Api.Accounts.{
  Crypto, AuthSettings, Denied, unconfigured, forbidden, bad_request, taken, server_error, Reply,
  granted, denied, empty, hash_password, create_access_token, named,
}

pub record SignupIn : Type 0 where
  pub username : Text
  pub password : Text
  pub bandcamp_fan_url : Text
  pub invite_code : Text

-- The checks of `signup` before it reads the database, in their order.
unfoldable pub signup_checks : AuthSettings → SignupIn → Option Denied
unfolding same_text strip
signup_checks settings p =
    if empty settings.secret_key
    then some unconfigured
    else if empty settings.invite_code
    then some forbidden
    else if not (same_text p.invite_code settings.invite_code)
    then some forbidden
    else if empty (strip p.username)
    then some bad_request
    else if empty p.password
    then some bad_request
    else if empty (strip p.bandcamp_fan_url)
    then some bad_request
    else none

unfoldable pub new_user : ℕ → Text → Text → Text → User
new_user id username password_hash url = record {
  id = id;
  username = username;
  password_hash = password_hash;
  bandcamp_fan_url = some url;
  fan_id = none;
  failed_login_attempts = 0;
  locked_until = none;
}

module _ {fl : Floats} where
  -- The insert and its flush: the unique index on the user name.
  unfoldable pub insert_user : Crypto → AuthSettings → ℕ → User → Store fl → Reply Text × Store fl
  unfolding named create_collection_scan create_access_token
  insert_user k settings now u st =
      if any (named u.username) st.users
      then (denied taken, st)
      else (let (_, st') =
            create_collection_scan u.id
              (record st { users = st.users ++ u ∷ []; next_user_id = suc st.next_user_id }) in
          (granted (create_access_token k settings now u.id), st'))

  -- From the hash, which a password of more than 72 bytes has not.
  unfoldable pub with_hash :
      Crypto → AuthSettings → ℕ → SignupIn → Option Text → Store fl → Reply Text × Store fl
  unfolding new_user insert_user strip
  with_hash k settings now p none st = (denied bad_request, st)
  with_hash k settings now p (some hash) st =
      insert_user k settings now
        (new_user st.next_user_id (strip p.username) hash (strip p.bandcamp_fan_url)) st

  -- After the check for the name.
  unfoldable pub register :
      Crypto
      → AuthSettings
      → ℕ
      → ℕ
      → SignupIn
      → Result (Option User)
      → Store fl
      → Reply Text × Store fl
  unfolding hash_password with_hash
  register k settings now salt p (raise e) st = (denied server_error, st)
  register k settings now salt p (ok (some u)) st = (denied taken, st)
  register k settings now salt p (ok none) st =
      with_hash k settings now p (hash_password k salt p.password) st

  -- `signup`, with the users that its check for the name saw.
  unfoldable pub signup :
      Crypto → AuthSettings → ℕ → ℕ → SignupIn → List User → Store fl → Reply Text × Store fl
  unfolding signup_checks named scalar_one_or_none register strip
  signup k settings now salt p read st = elim (signup_checks settings p) [
    | some d ↦ (denied d, st)
    | none ↦
        register k settings now salt p
          (scalar_one_or_none (where_rows (named (strip p.username)) read)) st
  ]
