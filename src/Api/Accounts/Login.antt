-- ===== src/Api/Accounts/Login.antt =====
-- `login` and `me` of backend/app/api/auth.py.
use bandcamp_curate.Base.{
  ℕ, ◌+◌, ◌*◌, Bool, false, ◌&&◌, not, Option, none, some, List, [], ◌∷◌, ◌==◌, ltb, leb,
  if◌then◌else◌, Text, find, where_rows, is_some, Result, ok, raise,
}
use bandcamp_curate.Urls.{strip}
use bandcamp_curate.Curation.Scoring.{Floats}
use bandcamp_curate.Scans.Tables.{Scan, ScanStatus, User, Store}
use bandcamp_curate.Api.Ownership.{scalar_one_or_none}
use bandcamp_curate.Api.Feed.{is_collection}
use bandcamp_curate.Api.Accounts.{
  Crypto, AuthSettings, unconfigured, unauthorized, locked_out, server_error, Reply, granted,
  denied, empty, verify_password, create_access_token, named,
}

unfoldable pub update_user : ℕ → (User → User) → List User → List User
update_user id f [] = []
update_user id f (u ∷ users) =
    let rest = update_user id f users in if u.id == id then f u ∷ rest else u ∷ rest

-- `locked_until > now`
unfoldable pub is_locked : ℕ → User → Bool
is_locked now u = elim u.locked_until [ none ↦ false | some t ↦ ltb now t ]

-- The attributes that a wrong password and a right one assign, from the row that was read.
unfoldable pub failed_once : AuthSettings → ℕ → User → User → User
failed_once settings now seen u = record u {
  failed_login_attempts = seen.failed_login_attempts + 1;
  locked_until =
      if leb settings.login_max_attempts (seen.failed_login_attempts + 1)
      then some (now + settings.login_lockout_minutes * 60)
      else u.locked_until;
}

unfoldable pub cleared : User → User
cleared u = record u { failed_login_attempts = 0; locked_until = none }

pub record MeOut : Type 0 where
  pub id : ℕ
  pub username : Text
  pub bandcamp_fan_url : Option Text
  pub has_crawled : Bool
  pub collection_scan : Option (ℕ × ScanStatus)

abbrev scan_out : Option Scan → Option (ℕ × ScanStatus)
scan_out none = none
scan_out (some s) = some (s.id, s.status)

module _ {fl : Floats} where
  unfoldable pub write_user : ℕ → (User → User) → Store fl → Store fl
  unfolding update_user
  write_user id f st = record st { users = update_user id f st.users }

  -- The password is looked at only where the account is not locked.
  unfoldable pub login_as :
      Crypto → AuthSettings → ℕ → Text → User → Store fl → Reply Text × Store fl
  unfolding is_locked verify_password failed_once cleared write_user create_access_token
  login_as k settings now password u st =
      if is_locked now u
      then (denied locked_out, st)
      else if not (verify_password k password u.password_hash)
      then (denied unauthorized, write_user u.id (failed_once settings now u) st)
      else (granted (create_access_token k settings now u.id), write_user u.id cleared st)

  unfoldable pub login_found :
      Crypto → AuthSettings → ℕ → Text → Result (Option User) → Store fl → Reply Text × Store fl
  unfolding login_as
  login_found k settings now password (raise e) st = (denied server_error, st)
  login_found k settings now password (ok none) st = (denied unauthorized, st)
  login_found k settings now password (ok (some u)) st = login_as k settings now password u st

  -- `login`, with the users that its query saw.
  unfoldable pub login :
      Crypto → AuthSettings → ℕ → Text → Text → List User → Store fl → Reply Text × Store fl
  unfolding named scalar_one_or_none login_found strip
  login k settings now username password read st =
      if empty settings.secret_key
      then (denied unconfigured, st)
      else login_found k settings now password
          (scalar_one_or_none (where_rows (named (strip username)) read)) st

  -- `me`
  unfoldable pub me : User → Store fl → MeOut
  unfolding is_collection
  me u st = record {
    id = u.id;
    username = u.username;
    bandcamp_fan_url = u.bandcamp_fan_url;
    has_crawled = is_some u.fan_id;
    collection_scan =
        scan_out (find (λ (s : Scan). (s.user_id == u.id) && is_collection s.kind) st.scans);
  }
