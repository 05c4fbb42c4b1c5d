-- ===== src/Api/Accounts/Lockout.antt =====
-- Guessing passwords (backend/app/api/auth.py).
use bandcamp_curate.Base.{
  sym, ◌++◌, ℕ, ◌+◌, ◌*◌, ◌<◌, true, false, none, some, List, [], ◌∷◌, ◌≡◌, refl, ◌==◌, ==_iff, leb,
  if◌then◌else◌, Text, length, All, where_rows, ok, map, arith,
}
use bandcamp_curate.Urls.{strip}
use bandcamp_curate.Curation.Scoring.{Floats}
use bandcamp_curate.Scans.Tables.{User, Store}
use bandcamp_curate.Api.Ownership.{scalar_one_or_none}
use bandcamp_curate.Api.Accounts.{
  Crypto, AuthSettings, locked_out, denied, empty, named, verify_password,
}
use bandcamp_curate.Api.Accounts.Login.{
  update_user, is_locked, failed_once, write_user, login_as, login_found, login,
}

-- The row that a query by a user name gives.
abbrev pub Found : Text → User → List User → Type 0
Found username u users =
    scalar_one_or_none (where_rows (named (strip username)) users) ≡ ok (some u)

changed : ℕ → (User → User) → User → User
changed id f u = if u.id == id then f u else u

where_rows-update_user :
    (name : Text) (id : ℕ) (f : User → User) (users : List User)
    → ((u : User) → (f u).username ≡ u.username)
    → where_rows (named name) (update_user id f users)
      ≡ map (changed id f) (where_rows (named name) users)
unfolding update_user changed named
where_rows-update_user name id f [] keep = refl
where_rows-update_user name id f (u ∷ users) keep =
    ground (arith, where_rows-update_user name id f users keep, keep u)

only_changed :
    (f : User → User) (rows : List User) (u : User)
    → scalar_one_or_none rows ≡ ok (some u)
    → scalar_one_or_none (map (changed u.id f) rows) ≡ ok (some (f u))
unfolding scalar_one_or_none changed
only_changed f [] u h = ground (arith, h)
only_changed f (v ∷ []) u h = ground (arith, h, ==_iff v.id u.id)
only_changed f (v ∷ w ∷ rows) u h = ground (arith, h)

-- A write to the row that was found is found by the same name.
Found-update_user :
    (username : Text) (f : User → User) (u : User) (users : List User)
    → ((v : User) → (f v).username ≡ v.username)
    → Found username u users
    → Found username (f u) (update_user u.id f users)
Found-update_user username f u users keep found =
    rw (where_rows-update_user (strip username) u.id f users keep)
      (only_changed f (where_rows (named (strip username)) users) u found)

-- A guess: its time and the password. It is wrong for a hash.
abbrev pub Wrong : Crypto → Text → ℕ × Text → Type 0
Wrong k hash g = verify_password k g.1 hash ≡ false

not_locked : (now : ℕ) (u : User) → u.locked_until ≡ none → is_locked now u ≡ false
unfolding is_locked
not_locked now u free = rw free refl

failed_once-locks :
    (settings : AuthSettings) (last now : ℕ) (u : User)
    → u.failed_login_attempts + 1 ≡ settings.login_max_attempts
    → now < last + settings.login_lockout_minutes * 60
    → is_locked now (failed_once settings last u u) ≡ true
unfolding is_locked failed_once
failed_once-locks settings last now u limit soon =
    let reached : leb settings.login_max_attempts (u.failed_login_attempts + 1) ≡ true =
      ground (arith, limit) in
    rw reached (ground (arith, soon))

failed_once_open :
    (settings : AuthSettings) (now : ℕ) (u : User)
    → u.locked_until ≡ none
    → u.failed_login_attempts + 1 < settings.login_max_attempts
    → (failed_once settings now u u).locked_until ≡ none
unfolding failed_once
failed_once_open settings now u free below =
    let not_yet : leb settings.login_max_attempts (u.failed_login_attempts + 1) ≡ false =
      ground (arith, below) in
    rw not_yet free

module _ {fl : Floats} (k : Crypto) (settings : AuthSettings) (username : Text) where
  -- Guesses one after the other.
  unfoldable pub guesses : List (ℕ × Text) → Store fl → Store fl
  unfolding login
  guesses [] st = st
  guesses (g ∷ gs) st = guesses gs (login k settings g.0 username g.1 st.users st).1

  -- A wrong guess at an account that is not locked is written to the row that was found.
  login-Wrong :
      (g : ℕ × Text) (u : User) (st : Store fl)
      → empty settings.secret_key ≡ false
      → Found username u st.users
      → is_locked g.0 u ≡ false
      → Wrong k u.password_hash g
      → (login k settings g.0 username g.1 st.users st).1
        ≡ write_user u.id (failed_once settings g.0 u) st
  unfolding login login_found login_as
  login-Wrong g u st on found free wrong = rw (on, found, free, wrong) refl

  failed_once-Found :
      (g : ℕ × Text) (u : User) (st : Store fl)
      → empty settings.secret_key ≡ false
      → Found username u st.users
      → is_locked g.0 u ≡ false
      → Wrong k u.password_hash g
      → Found username
          (failed_once settings g.0 u u)
          (login k settings g.0 username g.1 st.users st).1.users
  unfolding write_user failed_once
  failed_once-Found g u st on found free wrong =
      rw (login-Wrong g u st on found free wrong)
        (Found-update_user username (failed_once settings g.0 u) u st.users (λ v. refl) found)

  login-locked :
      (now : ℕ) (password : Text) (u : User) (st : Store fl)
      → empty settings.secret_key ≡ false
      → Found username u st.users
      → is_locked now u ≡ true
      → login k settings now username password st.users st ≡ (denied locked_out, st)
  unfolding login login_found login_as
  login-locked now password u st on found locked = rw (on, found, locked) refl

  -- With one process at a time: for an account that is not locked, with so many failures that these
  -- wrong guesses and one more reach the limit, the guesses leave it open and the one more locks it:
  -- until `login_lockout_minutes` after it, every login to the account is refused, whatever the
  -- password, also the right one, and nothing is written.
  pub guesses-lock :
      (gs : List (ℕ × Text)) (last : ℕ × Text) (now : ℕ) (password : Text) (u : User)
      (st : Store fl)
      → empty settings.secret_key ≡ false
      → Found username u st.users
      → u.locked_until ≡ none
      → u.failed_login_attempts + length gs + 1 ≡ settings.login_max_attempts
      → All (Wrong k u.password_hash) gs
      → Wrong k u.password_hash last
      → now < last.0 + settings.login_lockout_minutes * 60
      → login k settings now username password
          (guesses (gs ++ last ∷ []) st).users
          (guesses (gs ++ last ∷ []) st)
        ≡ (denied locked_out, guesses (gs ++ last ∷ []) st)
  unfolding guesses failed_once
  guesses-lock [] last now password u st on found free limit wrong wrong_last soon =
      let open_now : is_locked last.0 u ≡ false = not_locked last.0 u free in
      login-locked now password (failed_once settings last.0 u u)
        (login k settings last.0 username last.1 st.users st).1 on
        (failed_once-Found last u st on found open_now wrong_last)
        (failed_once-locks settings last.0 now u (ground (arith, limit)) soon)
  guesses-lock (g ∷ gs) last now password u st on found free limit wrong wrong_last soon =
      let open_now : is_locked g.0 u ≡ false = not_locked g.0 u free in
      guesses-lock gs last now password (failed_once settings g.0 u u)
        (login k settings g.0 username g.1 st.users st).1 on
        (failed_once-Found g u st on found open_now wrong.0)
        (failed_once_open settings g.0 u free (ground (arith, limit))) (ground (arith, limit))
        wrong.1 wrong_last soon

  -- Guesses at once: each request has read the users before any of them writes.
  unfoldable pub at_once : List (ℕ × Text) → List User → Store fl → Store fl
  unfolding login
  at_once [] read st = st
  at_once (g ∷ gs) read st = at_once gs read (login k settings g.0 username g.1 read st).1

  -- The account as it stands after guesses at once, by its failures.
  abbrev pub Failures : User → ℕ → Store fl → Type 0
  Failures u n st =
      (v : User) × (v.id ≡ u.id) × Found username v st.users × (v.failed_login_attempts ≡ n)

  login_stale-Failures :
      (g : ℕ × Text) (u : User) (read : List User) (n : ℕ) (st : Store fl)
      → empty settings.secret_key ≡ false
      → Found username u read
      → is_locked g.0 u ≡ false
      → Wrong k u.password_hash g
      → Failures u n st
      → Failures u (u.failed_login_attempts + 1) (login k settings g.0 username g.1 read st).1
  unfolding login login_found login_as write_user failed_once
  login_stale-Failures g u read n st on seen free wrong (v, same, found, count) =
      let write = failed_once settings g.0 u in
      rw (on, seen, free, wrong, sym same)
        (write v, refl, Found-update_user username write v st.users (λ w. refl) found, refl)

  -- Requests that read the users before any of them writes, each with a wrong password for an
  -- account that is not locked then: however many they are, the account has one failure more.
  pub at_once-Failures :
      (g : ℕ × Text) (gs : List (ℕ × Text)) (u : User) (read : List User) (n : ℕ) (st : Store fl)
      → empty settings.secret_key ≡ false
      → Found username u read
      → u.locked_until ≡ none
      → All (Wrong k u.password_hash) (g ∷ gs)
      → Failures u n st
      → Failures u (u.failed_login_attempts + 1) (at_once (g ∷ gs) read st)
  unfolding at_once
  at_once-Failures g [] u read n st on seen free wrong before =
      login_stale-Failures g u read n st on seen (not_locked g.0 u free) wrong.0 before
  at_once-Failures g (h ∷ gs) u read n st on seen free wrong before =
      at_once-Failures h gs u read (u.failed_login_attempts + 1)
        (login k settings g.0 username g.1 read st).1 on seen free wrong.1
        (login_stale-Failures g u read n st on seen (not_locked g.0 u free) wrong.0 before)
