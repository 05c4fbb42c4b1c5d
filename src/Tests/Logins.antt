-- ===== src/Tests/Logins.antt =====
-- An account, and the theorems on backend/app/auth/security.py and backend/app/api/auth.py for it.
-- The cryptography keeps passwords and tokens in the clear here.
use bandcamp_curate.Base.{
  ℕ, Bool, ◌+◌, ◌-◌, ◌*◌, ◌<◌, ◌≡◌, refl, ap, true, none, some, [], ◌∷◌, Option, Text, codes,
  decimal, same_text, same_text_refl, ltb, leb, ◌&&◌, ◌≤◌, if◌then◌else◌, arith,
}
use bandcamp_curate.Scans.Tables.{User, Store, get_user}
use bandcamp_curate.Urls.{strip}
use bandcamp_curate.Api.Ownership.{scalar_one_or_none}
use bandcamp_curate.Api.Accounts.{
  verify_password, named, verify_password, Crypto, Claims, AuthSettings, locked_out, granted,
  denied, create_access_token, get_current_user,
}
use bandcamp_curate.Api.Accounts.Signup.{SignupIn, signup}
use bandcamp_curate.Api.Accounts.Login.{login}
use bandcamp_curate.Api.Accounts.Lockout.{
  Found, Wrong, Failures, guesses, guesses-lock, at_once, at_once-Failures,
}
use bandcamp_curate.Api.Accounts.Tokens.{signup-login}
use bandcamp_curate.Tests.Ranks.{whole}
use bandcamp_curate.Tests.Feedback.{store}

abbrev number : ℕ → Text → ℕ
number acc [] = acc
number acc (c ∷ s) = number (acc * 10 + (c - 48)) s

abbrev read_token : ℕ → Text → Option Text
read_token t [] = none
read_token t (iat ∷ []) = none
read_token t (iat ∷ exp ∷ sub) = if leb iat t && ltb t exp then some sub else none

abbrev matching : Text → Text → Option Bool
matching password [] = none
matching password (salt ∷ hash) = some (same_text password hash)

abbrev clear : Crypto
clear = record {
  hashpw = λ salt password. some (salt ∷ password);
  checkpw = λ password hash. matching password hash;
  encode = λ key c. c.iat ∷ c.exp ∷ c.sub;
  decode = λ t key token. read_token t token;
  to_int = λ t. some (number 0 t);
}

abbrev settings : AuthSettings
settings = record {
  secret_key = codes "key";
  token_ttl_days = 30;
  invite_code = codes "invite";
  login_max_attempts = 2;
  login_lockout_minutes = 15;
}

abbrev request : SignupIn
request = record {
  username = codes "ann ";
  password = codes "word";
  bandcamp_fan_url = codes "https://bandcamp.com/ann";
  invite_code = codes "invite";
}

checks_own :
    (salt : ℕ) (hash : Text)
    → clear.hashpw salt request.password ≡ some hash
    → clear.checkpw request.password hash ≡ some true
checks_own salt [] h = ground (arith, h)
checks_own salt (c ∷ hash) h =
    let same : hash ≡ request.password = ground (arith, h) in
    rw same (ap (λ b. some b) (same_text_refl request.password))

reads_own :
    (t : ℕ) (c : Claims)
    → c.iat ≤ t
    → t < c.exp
    → clear.decode t settings.secret_key (clear.encode settings.secret_key c) ≡ some c.sub
reads_own t c issued h = ground (arith, issued, h)

reads_id : clear.to_int (decimal store.next_user_id) ≡ some store.next_user_id
unfolding decimal
reads_id = refl

free_id : get_user store.next_user_id store.users ≡ none
unfolding get_user
free_id = refl

signs_up : (signup clear settings 1000 7 request [] store).0 ≡ granted (1000 ∷ 2593000 ∷ codes "10")
unfolding signup decimal
signs_up = refl

signup-login_example :
    ((login clear settings 5000 request.username request.password
        (signup clear settings 1000 7 request [] store).1.users
        (signup clear settings 1000 7 request [] store).1).0
      ≡ granted (create_access_token clear settings 5000 10))
    × ((u : User) × (u.username ≡ strip request.username)
        × (u.id ≡ 10)
        × (get_current_user clear settings 6000
              (some (1000 ∷ 2593000 ∷ codes "10"))
              (signup clear settings 1000 7 request [] store).1.users
            ≡ granted u))
signup-login_example =
    signup-login clear settings request 1000 5000 6000 7 [] (1000 ∷ 2593000 ∷ codes "10") store
      checks_own reads_own reads_id free_id (omega arith) (omega arith) signs_up

abbrev ann : User
ann = record {
  id = 10;
  username = codes "ann";
  password_hash = 7 ∷ codes "word";
  bandcamp_fan_url = none;
  fan_id = none;
  failed_login_attempts = 0;
  locked_until = none;
}

abbrev with_ann : Store whole
with_ann = record store { users = ann ∷ [] }

ann-Found : Found (codes "ann") ann with_ann.users
unfolding scalar_one_or_none named strip same_text
ann-Found = refl

word-Wrong : (t : ℕ) → Wrong clear ann.password_hash (t, codes "x")
unfolding verify_password same_text
word-Wrong t = refl

guesses-lock_example :
    login clear settings 200
      (codes "ann")
      (codes "word")
      (guesses clear settings
        (codes "ann")
        ((100, codes "x") ∷ (110, codes "x") ∷ [])
        with_ann).users
      (guesses clear settings (codes "ann") ((100, codes "x") ∷ (110, codes "x") ∷ []) with_ann)
    ≡ (
      denied locked_out,
      guesses clear settings (codes "ann") ((100, codes "x") ∷ (110, codes "x") ∷ []) with_ann,
    )
guesses-lock_example =
    guesses-lock clear settings (codes "ann") ((100, codes "x") ∷ []) (110, codes "x") 200
      (codes "word") ann with_ann refl ann-Found refl refl (word-Wrong 100, tt) (word-Wrong 110)
      (omega arith)

at_once-Failures_example : Failures clear settings (codes "ann") ann 1 (
    at_once clear settings
      (codes "ann")
      ((100, codes "x") ∷ (100, codes "x") ∷ [])
      with_ann.users
      with_ann)
at_once-Failures_example =
    at_once-Failures clear settings (codes "ann") (100, codes "x") ((100, codes "x") ∷ []) ann
      with_ann.users 0 with_ann refl ann-Found refl (word-Wrong 100, (word-Wrong 100, tt))
      (ann, refl, ann-Found, refl)
