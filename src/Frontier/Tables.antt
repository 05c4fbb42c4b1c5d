-- ===== src/Frontier/Tables.antt =====
-- The rows of `crawl_frontier`, and how rows are read and written by id.
use bandcamp_curate.Base.{
  ℕ, ◌≡◌, Bool, true, false, ◌&&◌, Option, List, [], ◌∷◌, ◌==◌, if◌then◌else◌, Text, same_text,
  find,
}

-- `CrawlKind`
pub data CrawlKind : Type 0 where
  fan_collection album track supporters : CrawlKind

-- `CrawlStatus`
pub data CrawlStatus : Type 0 where
  pending in_progress done error : CrawlStatus

-- A test of kinds, as the `==` of two string enums.
unfoldable pub same_kind : CrawlKind → CrawlKind → Bool
same_kind fan_collection fan_collection = true
same_kind album album = true
same_kind track track = true
same_kind supporters supporters = true
same_kind _ _ = false

unfoldable pub same_status : CrawlStatus → CrawlStatus → Bool
same_status pending pending = true
same_status in_progress in_progress = true
same_status done done = true
same_status error error = true
same_status _ _ = false

-- The resume bookmark, `{"fan_id": …, "collection": …, "wishlist": …, "follows": …}`.
pub record Cursor : Type 0 where
  pub fan_id : ℕ
  pub collection : Option Text
  pub wishlist : Option Text
  pub follows : Option Text

-- A row of `crawl_frontier`.
pub record Entry : Type 0 where
  pub id : ℕ
  pub scan_id : ℕ
  pub url : Text
  pub kind : CrawlKind
  pub status : CrawlStatus
  pub attempts : ℕ
  pub priority : ℕ
  pub depth : ℕ
  pub last_error : Option Text
  pub timeout_count : ℕ
  pub cursor : Option Cursor
  pub updated_at : ℕ

-- The table: its rows, the next value of the id sequence, and the ids that the foreign key
-- `scan_id` may point at.
pub record Table : Type 0 where
  pub rows : List Entry
  pub next_id : ℕ
  pub scans : List ℕ

-- The unique key (scan_id, url, kind).
unfoldable pub has_key : ℕ → Text → CrawlKind → Entry → Bool
has_key scan_id url kind e = e.scan_id == scan_id && (same_text e.url url && same_kind e.kind kind)

-- `get_by_id`
unfoldable pub get_by_id : ℕ → List Entry → Option Entry
get_by_id entry_id = find (λ e. e.id == entry_id)

-- `UPDATE … WHERE id = entry_id`.
unfoldable pub update_row : ℕ → (Entry → Entry) → List Entry → List Entry
update_row entry_id f [] = []
update_row entry_id f (e ∷ rows) =
    let rest = update_row entry_id f rows in if e.id == entry_id then f e ∷ rest else e ∷ rest

-- An update that leaves the key of the row alone.
pub record KeepsKey (f : Entry → Entry) : Type 0 where
  pub id_kept : (e : Entry) → (f e).id ≡ e.id
  pub scan_kept : (e : Entry) → (f e).scan_id ≡ e.scan_id
  pub url_kept : (e : Entry) → (f e).url ≡ e.url
  pub kind_kept : (e : Entry) → (f e).kind ≡ e.kind
