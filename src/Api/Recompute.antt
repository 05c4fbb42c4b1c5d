-- ===== src/Api/Recompute.antt =====
-- The endpoint `recompute` of backend/app/api/feed.py, with the cooldown that it keeps in memory.
pub mod Stamps
pub mod Cooldown
use bandcamp_curate.Base.{
  ℕ, ◌+◌, ◌-◌, Bool, true, false, not, Option, none, some, List, [], ◌∷◌, ◌==◌, ltb, if◌then◌else◌,
  where_rows, find, Result, ok, raise, Error, integrity, not_found, invalid, unsupported, exceeded,
  incomplete, multiple_results, internal,
}
use bandcamp_curate.Curation.Scoring.{Floats}
use bandcamp_curate.Scans.Tables.{Scan, Store, get_scan}

-- `_last_recompute_at`, a dict from users to times.
pub record Stamp : Type 0 where
  pub user : ℕ
  pub stamp : ℕ

unfoldable pub last_of : ℕ → List Stamp → Option ℕ
last_of user [] = none
last_of user (s ∷ stamps) =
    let rest = last_of user stamps in if s.user == user then some s.stamp else rest

-- `dict.pop(user, None)`
unfoldable pub pop_last : ℕ → List Stamp → List Stamp
pop_last user [] = []
pop_last user (s ∷ stamps) =
    let rest = pop_last user stamps in if s.user == user then rest else s ∷ rest

unfoldable pub put_last : ℕ → ℕ → List Stamp → List Stamp
unfolding pop_last
put_last user now stamps = record { user = user; stamp = now } ∷ pop_last user stamps

-- The roll back.
unfoldable pub restore_last : ℕ → Option ℕ → List Stamp → List Stamp
unfolding pop_last put_last
restore_last user none stamps = pop_last user stamps
restore_last user (some t) stamps = put_last user t stamps

-- The answers: 200 with the number of items, 404, 429 with Retry-After, or the exception.
pub data Reply : Type 0 where
  computed : ℕ → Reply
  missing : Reply
  too_recent : ℕ → Reply
  failed : Error → Reply

-- `owner is None or owner != current_user.id`, where a scan is given.
unfoldable pub foreign_scan : ℕ → Option ℕ → List Scan → Bool
unfolding get_scan
foreign_scan user none scans = false
foreign_scan user (some scan_id) scans = elim (get_scan scan_id scans) [
  | none ↦ true
  | some s ↦ not (s.user_id == user)
]

-- The exceptions of `curate` that are ValueErrors.
unfoldable pub is_value_error : Error → Bool
is_value_error not_found = true
is_value_error invalid = true
is_value_error _ = false

-- `remaining > 0` since the last call.
unfoldable pub cooling : ℕ → ℕ → Option ℕ → Bool
cooling cooldown now none = false
cooling cooldown now (some t) = ltb now (t + cooldown)

-- `int(remaining) + 1`
unfoldable pub retry_after : ℕ → ℕ → Option ℕ → ℕ
retry_after cooldown now none = 0
retry_after cooldown now (some t) = t + cooldown - now + 1

module _ {fl : Floats} where
  -- After `curate`: its number of items, or its exception.
  unfoldable pub after_curate :
      ℕ → ℕ → Option ℕ → Result ℕ × Store fl → List Stamp → Reply × List Stamp × Store fl
  unfolding is_value_error restore_last
  after_curate cooldown user previous (ok n, st) stamps = (computed n, stamps, st)
  after_curate cooldown user previous (raise e, st) stamps =
      if is_value_error e
      then (missing, (if ltb 0 cooldown then restore_last user previous stamps else stamps), st)
      else (failed e, stamps, st)

  -- `curate` is the argument `work`.
  unfoldable pub recompute :
      ℕ
      → ℕ
      → ℕ
      → Option ℕ
      → (Store fl → Result ℕ × Store fl)
      → List Stamp
      → Store fl
      → Reply × List Stamp × Store fl
  unfolding foreign_scan last_of cooling retry_after put_last after_curate
  recompute cooldown now user scan_id work stamps st =
      let previous = last_of user stamps in
      if foreign_scan user scan_id st.scans
      then (missing, stamps, st)
      else if not (ltb 0 cooldown)
      then after_curate cooldown user none (work st) stamps
      else if cooling cooldown now previous
      then (too_recent (retry_after cooldown now previous), stamps, st)
      else after_curate cooldown user previous (work st) (put_last user now stamps)
