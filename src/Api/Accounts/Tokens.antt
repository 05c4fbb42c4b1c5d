-- ===== src/Api/Accounts/Tokens.antt =====
-- Who signs up can log in and is recognised (backend/app/api/auth.py, backend/app/auth/security.py).
use bandcamp_curate.Base.{
  ◌<◌, ◌≤◌, ℕ, ◌+◌, ◌*◌, true, false, Option, none, some, List, [], ◌∷◌, ◌++◌, ◌≡◌, refl, ◌==◌,
  ==_iff, Text, decimal, any, find-append_none, where_rows, where_rows-append, where_rows_none,
  same_text_refl, Result, ok, raise, arith, Bool-cases, Option-cases, inl, inr,
}
use bandcamp_curate.Urls.{strip}
use bandcamp_curate.Curation.Scoring.{Floats}
use bandcamp_curate.Scans.Tables.{User, Store, get_user}
use bandcamp_curate.Scans.Queue.{create_collection_scan, add_scan}
use bandcamp_curate.Api.Ownership.{scalar_one_or_none}
use bandcamp_curate.Api.Accounts.{
  Crypto, Claims, AuthSettings, Reply, granted, empty, named, hash_password, verify_password,
  create_access_token, get_current_user, user_of_sub,
}
use bandcamp_curate.Api.Accounts.Signup.{
  with_hash, SignupIn, signup_checks, new_user, insert_user, register, signup,
}
use bandcamp_curate.Api.Accounts.Login.{is_locked, login_as, login_found, login}
use bandcamp_curate.Api.Accounts.Lockout.{Found}

-- Only the new row has the name.
Found-new_user :
    (username : Text) (id : ℕ) (hash url : Text) (users : List User)
    → any (named (strip username)) users ≡ false
    → Found username
        (new_user id (strip username) hash url)
        (users ++ new_user id (strip username) hash url ∷ [])
unfolding named new_user scalar_one_or_none
Found-new_user username id hash url users unused =
    rw
      (
        where_rows-append (named (strip username)) users
            (new_user id (strip username) hash url ∷ []),
        where_rows_none (named (strip username)) users unused,
        same_text_refl (strip username),
      )
      refl

get_user-new_user :
    (id : ℕ) (username hash url : Text) (users : List User)
    → get_user id users ≡ none
    → get_user id (users ++ new_user id username hash url ∷ [])
      ≡ some (new_user id username hash url)
unfolding get_user new_user
get_user-new_user id username hash url users fresh = ground (
  arith,
  find-append_none (λ (u : User). u.id == id) users (new_user id username hash url ∷ []) fresh,
  ==_iff id id,
)

login-right :
    {fl : Floats} (k : Crypto) (settings : AuthSettings) (now : ℕ) (username password : Text)
    (u : User) (read : List User) (st : Store fl)
    → empty settings.secret_key ≡ false
    → Found username u read
    → is_locked now u ≡ false
    → k.checkpw password u.password_hash ≡ some true
    → (login k settings now username password read st).0
      ≡ granted (create_access_token k settings now u.id)
unfolding login login_found login_as verify_password
login-right k settings now username password u read st on found free right =
    rw (on, found, free, right, verify_password) refl

get_current_user-granted :
    (k : Crypto) (settings : AuthSettings) (t : ℕ) (token sub : Text) (id : ℕ) (u : User)
    (users : List User)
    → k.decode t settings.secret_key token ≡ some sub
    → k.to_int sub ≡ some id
    → get_user id users ≡ some u
    → get_current_user k settings t (some token) users ≡ granted u
unfolding get_current_user user_of_sub
get_current_user-granted k settings t token sub id u users decoded int there =
    rw decoded (rw (int, user_of_sub) (rw there refl))

signup_checks-configured :
    (settings : AuthSettings) (p : SignupIn)
    → signup_checks settings p ≡ none
    → empty settings.secret_key ≡ false
unfolding signup_checks
signup_checks-configured settings p h = ground (arith, h)

module _ {fl : Floats} (k : Crypto) (settings : AuthSettings) (p : SignupIn) where
  -- What a signup that grants a token leaves.
  abbrev Registered : ℕ → ℕ → Store fl → Reply Text × Store fl → Type 0
  Registered now salt st r =
      (hash : Text) × (k.hashpw salt p.password ≡ some hash)
      × (any (named (strip p.username)) st.users ≡ false)
      × (r.1.users
          ≡ st.users
            ++ new_user st.next_user_id (strip p.username) hash (strip p.bandcamp_fan_url) ∷ [])
      × (r.0 ≡ granted (create_access_token k settings now st.next_user_id))

  insert_user-Registered :
      (now salt : ℕ) (hash token : Text) (st : Store fl)
      → k.hashpw salt p.password ≡ some hash
      → (insert_user k settings now
          (new_user st.next_user_id (strip p.username) hash (strip p.bandcamp_fan_url))
          st).0
        ≡ granted token
      → Registered now salt st (
          insert_user k settings now
            (new_user st.next_user_id (strip p.username) hash (strip p.bandcamp_fan_url))
            st)
  unfolding insert_user new_user create_collection_scan add_scan
  insert_user-Registered now salt hash token st hashed h =
      elim (Bool-cases (any (named (strip p.username)) st.users)) [
        | inl e ↦ ground (arith, h, e)
        | inr e ↦ rw e (hash, hashed, refl, refl, refl)
      ]

  with_hash-Registered :
      (now salt : ℕ) (hash : Option Text) (token : Text) (st : Store fl)
      → k.hashpw salt p.password ≡ hash
      → (with_hash k settings now p hash st).0 ≡ granted token
      → Registered now salt st (with_hash k settings now p hash st)
  unfolding with_hash
  with_hash-Registered now salt none token st hashed h = ground (arith, h)
  with_hash-Registered now salt (some hash) token st hashed h =
      insert_user-Registered now salt hash token st hashed h

  register-Registered :
      (now salt : ℕ) (found : Result (Option User)) (token : Text) (st : Store fl)
      → (register k settings now salt p found st).0 ≡ granted token
      → Registered now salt st (register k settings now salt p found st)
  unfolding register hash_password
  register-Registered now salt (raise e) token st h = ground (arith, h)
  register-Registered now salt (ok (some u)) token st h = ground (arith, h)
  register-Registered now salt (ok none) token st h =
      with_hash-Registered now salt (k.hashpw salt p.password) token st refl h

  signup-Registered :
      (now salt : ℕ) (read : List User) (token : Text) (st : Store fl)
      → (signup k settings now salt p read st).0 ≡ granted token
      → Registered now salt st (signup k settings now salt p read st)
  unfolding signup
  signup-Registered now salt read token st h = elim (Option-cases (signup_checks settings p)) [
    | inr (d, e) ↦ ground (arith, h, e)
    | inl e ↦
        let found = scalar_one_or_none (where_rows (named (strip p.username)) read) in
        let granted_it : (register k settings now salt p found st).0 ≡ granted token =
          ground (arith, h, e) in
        rw (e, signup) (register-Registered now salt found token st granted_it)
  ]

  signup-configured :
      (now salt : ℕ) (read : List User) (token : Text) (st : Store fl)
      → (signup k settings now salt p read st).0 ≡ granted token
      → empty settings.secret_key ≡ false
  unfolding signup
  signup-configured now salt read token st h = elim (Option-cases (signup_checks settings p)) [
    | inr (d, e) ↦ ground (arith, h, e)
    | inl e ↦ signup_checks-configured settings p e
  ]

  -- A signup that grants a token has made an account that its token belongs to, and that the same
  -- name and password log in to: whatever its check for the name had seen, where bcrypt accepts the
  -- password for its hash, the sequence gives an id that no row has, PyJWT reads a token back from
  -- the time of its issue until it expires, and `int` reads the id back. The token is accepted from
  -- its issue until it expires.
  pub signup-login :
      (now later read_at salt : ℕ) (read : List User) (token : Text) (st : Store fl)
      → ((salt' : ℕ) (hash : Text)
          → k.hashpw salt' p.password ≡ some hash
          → k.checkpw p.password hash ≡ some true)
      → ((t : ℕ) (c : Claims)
          → c.iat ≤ t
          → t < c.exp
          → k.decode t settings.secret_key (k.encode settings.secret_key c) ≡ some c.sub)
      → k.to_int (decimal st.next_user_id) ≡ some st.next_user_id
      → get_user st.next_user_id st.users ≡ none
      → now ≤ read_at
      → read_at < now + settings.token_ttl_days * 86400
      → (signup k settings now salt p read st).0 ≡ granted token
      → ((login k settings later p.username p.password
            (signup k settings now salt p read st).1.users
            (signup k settings now salt p read st).1).0
          ≡ granted (create_access_token k settings later st.next_user_id))
        × ((u : User) × (u.username ≡ strip p.username)
            × (u.id ≡ st.next_user_id)
            × (get_current_user k settings read_at
                  (some token)
                  (signup k settings now salt p read st).1.users
                ≡ granted u))
  unfolding create_access_token get_current_user user_of_sub is_locked new_user
  signup-login now later read_at salt read token st checks reads int fresh late soon h =
      let (hash, hashed, unused, table, tok) = signup-Registered now salt read token st h in
      let url = strip p.bandcamp_fan_url in
      let u = new_user st.next_user_id (strip p.username) hash url in
      let written : token ≡ create_access_token k settings now st.next_user_id =
        ground (arith, h, tok) in
      (
        login-right k settings later p.username p.password u _
            (signup k settings now salt p read st).1 (signup-configured now salt read token st h)
            (rw table (Found-new_user p.username st.next_user_id hash url st.users unused)) refl
            (checks salt hash hashed),
        (
          u,
          refl,
          refl,
          get_current_user-granted k settings read_at token (decimal st.next_user_id)
              st.next_user_id u (signup k settings now salt p read st).1.users
              (rw written (
                reads read_at
                  (record {
                    sub = decimal st.next_user_id;
                    iat = now;
                    exp = now + settings.token_ttl_days * 86400;
                  })
                  late soon))
              int
              (rw table
                (get_user-new_user st.next_user_id (strip p.username) hash url st.users fresh)),
        ),
      )
