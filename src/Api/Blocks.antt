-- ===== src/Api/Blocks.antt =====
-- backend/app/api/blacklist.py. The time and the session's user are arguments; a handler answers with
-- its result and the tables as it leaves them.
pub mod Lifting
pub mod Listing
pub mod Lasting
use bandcamp_curate.Base.{
  ℕ, suc, Bool, true, false, ◌&&◌, not, Option, none, some, List, [], ◌∷◌, ◌++◌, ◌==◌, leb, ltb,
  if◌then◌else◌, Text, find, where_rows, opt_is, Result, ok, raise, invalid, not_found,
}
use bandcamp_curate.Curation.Tables.{
  BandKind, artist, label, unknown, TargetType, Band, Blocked, Library,
}
use bandcamp_curate.Curation.Scoring.{Floats}
use bandcamp_curate.Scans.Tables.{Store}
use bandcamp_curate.Api.Ownership.{scalar_one_or_none, text_or, in_band, pruned, bumped}

pub record BlockIn : Type 0 where
  pub band_id : ℕ
  pub reason : Option Text
  pub expires_at : Option ℕ

pub record BlacklistOut : Type 0 where
  pub id : ℕ
  pub band_id : ℕ
  pub band_name : Option Text
  pub band_url : Option Text
  pub reason : Option Text
  pub expires_at : Option ℕ

-- The validator `_expires_at_must_be_future`.
unfoldable pub in_future : ℕ → Option ℕ → Bool
in_future now none = true
in_future now (some t) = not (leb t now)

unfoldable pub target_type_of : BandKind → TargetType
target_type_of artist = TargetType.artist
target_type_of label = TargetType.label
target_type_of unknown = TargetType.artist

unfoldable pub get_band : ℕ → List Band → Option Band
get_band band_id = find (λ b. b.id == band_id)

-- The rows of a user for a band.
unfoldable pub is_entry : ℕ → ℕ → Blocked → Bool
is_entry user band b = (b.user_id == user) && opt_is b.band_id band

unfoldable pub new_block : ℕ → ℕ → Band → BlockIn → Blocked
unfolding target_type_of
new_block id user band p = record {
  id = id;
  user_id = user;
  album_id = none;
  track_id = none;
  target_type = target_type_of band.kind;
  band_id = some band.id;
  active = true;
  reason = p.reason;
  expires_at = p.expires_at;
}

-- A payload's reason replaces the entry's if it is not empty.
unfoldable pub reactivated : BlockIn → Blocked → Blocked
unfolding text_or
reactivated p b = record b {
  active = true;
  expires_at = p.expires_at;
  reason = text_or p.reason b.reason;
}

unfoldable pub update_block : ℕ → (Blocked → Blocked) → List Blocked → List Blocked
update_block id f [] = []
update_block id f (b ∷ rows) =
    let rest = update_block id f rows in if b.id == id then f b ∷ rest else b ∷ rest

-- The entry as it is added or changed, with the tables.
unfoldable pub write_block : ℕ → Band → BlockIn → Option Blocked → Library → Blocked × Library
unfolding new_block reactivated update_block
write_block user band p none lib =
    let b = new_block lib.next_block_id user band p in
    (b, record lib { blacklist = lib.blacklist ++ b ∷ []; next_block_id = suc lib.next_block_id })
write_block user band p (some b) lib =
    (reactivated p b, record lib { blacklist = update_block b.id (reactivated p) lib.blacklist })

unfoldable pub block_answer : Band → Blocked → BlacklistOut
block_answer band b = record {
  id = b.id;
  band_id = band.id;
  band_name = band.name;
  band_url = band.url;
  reason = b.reason;
  expires_at = b.expires_at;
}

-- `ORDER BY bands.name`, in the collation of the database.
unfoldable pub place_block :
    (Option Text → Option Text → Bool) → BlacklistOut → List BlacklistOut → List BlacklistOut
place_block earlier r [] = r ∷ []
place_block earlier r (s ∷ rows) =
    let rest = place_block earlier r rows in
    if earlier s.band_name r.band_name then s ∷ rest else r ∷ s ∷ rows

-- The `WHERE` of `list_blocked`.
unfoldable pub is_listed : ℕ → ℕ → Blocked → Bool
is_listed now user b =
    (b.user_id == user) && (b.active && elim b.expires_at [ none ↦ true | some t ↦ ltb now t ])

-- The join of a user's listed blocks and `bands`, in that order.
unfoldable pub blocked_rows :
    (Option Text → Option Text → Bool) → ℕ → ℕ → List Band → List Blocked → List BlacklistOut
unfolding is_listed get_band block_answer place_block
blocked_rows earlier now user bands [] = []
blocked_rows earlier now user bands (b ∷ blocks) =
    let rest = blocked_rows earlier now user bands blocks in
    if is_listed now user b
    then elim b.band_id [
      | none ↦ rest
      | some band_id ↦ elim (get_band band_id bands) [
        | none ↦ rest
        | some band ↦ place_block earlier (block_answer band b) rest
      ]
    ]
    else rest

unfoldable pub list_blocked :
    (Option Text → Option Text → Bool) → ℕ → ℕ → Library → List BlacklistOut
unfolding blocked_rows
list_blocked earlier now user lib = blocked_rows earlier now user lib.bands lib.blacklist

module _ {fl : Floats} where
  -- What is committed: the entry, and the band out of the feed.
  unfoldable pub commit_block :
      ℕ → Band → BlockIn → Option Blocked → Store fl → Result BlacklistOut × Store fl
  unfolding write_block block_answer pruned in_band
  commit_block user band p entry st =
      let written = write_block user band p entry st.library in
      (
        ok (block_answer band written.0),
        pruned user (in_band band.id st.library) (record st { library = written.1 }),
      )

  unfoldable pub block_entry :
      ℕ → Band → BlockIn → Result (Option Blocked) → Store fl → Result BlacklistOut × Store fl
  unfolding commit_block
  block_entry user band p (raise e) st = (raise e, st)
  block_entry user band p (ok entry) st = commit_block user band p entry st

  -- `block` with the rows that its query of the entry saw.
  unfoldable pub block_from :
      ℕ → ℕ → BlockIn → List Blocked → Store fl → Result BlacklistOut × Store fl
  unfolding in_future get_band is_entry scalar_one_or_none block_entry
  block_from now user p read st =
      if not (in_future now p.expires_at)
      then (raise invalid, st)
      else elim (get_band p.band_id st.library.bands) [
        | none ↦ (raise not_found, st)
        | some band ↦
            block_entry user band p (scalar_one_or_none (where_rows (is_entry user band.id) read))
              st
      ]

  -- With nobody else writing.
  unfoldable pub block : ℕ → ℕ → BlockIn → Store fl → Result BlacklistOut × Store fl
  unfolding block_from
  block now user p st = block_from now user p st.library.blacklist st

  unfoldable pub deactivate : ℕ → Store fl → Store fl
  unfolding update_block
  deactivate id st = record st {
    library = record (st.library) {
      blacklist = update_block id (λ b. record b { active = false }) st.library.blacklist;
    };
  }

  unfoldable pub lift : ℕ → ℕ → Result (Option Blocked) → Store fl → Result ℕ × Store fl
  unfolding deactivate bumped
  lift user band_id (raise e) st = (raise e, st)
  lift user band_id (ok none) st = (raise not_found, st)
  lift user band_id (ok (some b)) st = (ok band_id, bumped user (deactivate b.id st))

  unfoldable pub unblock : ℕ → ℕ → Store fl → Result ℕ × Store fl
  unfolding is_entry scalar_one_or_none lift
  unblock user band_id st =
      lift user band_id
        (scalar_one_or_none
          (where_rows (λ b. is_entry user band_id b && b.active) st.library.blacklist))
        st
