-- ===== src/Scans/Tables.antt =====
-- The rows of `scans`, `scan_seeds`, `users` and `recommendations` (backend/app/db/models.py), and
-- how they are read and written by id.
pub mod Rows
use bandcamp_curate.Base.{
  false, true, ℕ, Bool, Option, List, [], ◌∷◌, ◌==◌, if◌then◌else◌, Text, find, Error,
}
use bandcamp_curate.Frontier.Tables.{Table}
use bandcamp_curate.Crawl.Database.{Usage}
use bandcamp_curate.Curation.Tables.{Library}
use bandcamp_curate.Curation.Scoring.{Floats, ItemType, ScoredItem}
use bandcamp_curate.Curation.Ranking.{Stats}

-- `ScanKind`
pub data ScanKind : Type 0 where
  collection custom : ScanKind

-- `ScanStatus`
pub data ScanStatus : Type 0 where
  draft queued running done error : ScanStatus

unfoldable pub same_scan_status : ScanStatus → ScanStatus → Bool
same_scan_status draft draft = true
same_scan_status queued queued = true
same_scan_status running running = true
same_scan_status done done = true
same_scan_status error error = true
same_scan_status _ _ = false

-- A heartbeat as it stands in the JSON: a time, or a text that is none.
pub data Beat : Type 0 where
  at : ℕ → Beat
  unreadable : Beat

-- The keys of `Scan.stats` that the code writes; a missing key is `none`. `curation` stands for the
-- keys of `stats_out`, which are written together.
pub record ScanStats : Type 0 where
  pub slices_run : Option ℕ
  pub last_slice_at : Option Beat
  pub recommendations : Option ℕ
  pub credits : Option ℕ
  pub curation : Option Stats

-- A row of `scans`. The exception stands for its text in `error`.
pub record Scan : Type 0 where
  pub id : ℕ
  pub user_id : ℕ
  pub name : Text
  pub kind : ScanKind
  pub status : ScanStatus
  pub error_text : Option Error
  pub last_run_at : Option ℕ
  pub recompute_generation : ℕ
  pub stats : ScanStats

pub record ScanSeed : Type 0 where
  pub scan_id : ℕ
  pub url : Text
  pub seed_type : ItemType
  pub resolved_album_id : Option ℕ
  pub resolved_track_id : Option ℕ

pub record User : Type 0 where
  pub id : ℕ
  pub username : Text
  pub password_hash : Text
  pub bandcamp_fan_url : Option Text
  pub fan_id : Option ℕ
  pub failed_login_attempts : ℕ
  pub locked_until : Option ℕ

pub record Recommendation (fl : Floats) : Type 0 where
  pub scan_id : ℕ
  pub item : ScoredItem fl

-- The tables that a scan reads and writes; `fans` are the ids of the table of that name.
pub record Store (fl : Floats) : Type 0 where
  pub scans : List Scan
  pub next_scan_id : ℕ
  pub seeds : List ScanSeed
  pub users : List User
  pub next_user_id : ℕ
  pub fans : List ℕ
  pub recommendations : List (Recommendation fl)
  pub frontier : Table
  pub usage : List Usage
  pub library : Library

-- `session.get(Scan, …)`, `session.get(User, …)`
unfoldable pub get_scan : ℕ → List Scan → Option Scan
get_scan scan_id = find (λ s. s.id == scan_id)

unfoldable pub get_user : ℕ → List User → Option User
get_user user_id = find (λ u. u.id == user_id)

-- A change of the attributes of one row, committed.
unfoldable pub update_scan : ℕ → (Scan → Scan) → List Scan → List Scan
update_scan scan_id f [] = []
update_scan scan_id f (s ∷ scans) =
    let rest = update_scan scan_id f scans in if s.id == scan_id then f s ∷ rest else s ∷ rest

unfoldable pub write_scan : {fl : Floats} → ℕ → (Scan → Scan) → Store fl → Store fl
unfolding update_scan
write_scan scan_id f st = record st { scans = update_scan scan_id f st.scans }
