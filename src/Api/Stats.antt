-- ===== src/Api/Stats.antt =====
-- The endpoint `stats` of backend/app/api/feed.py.
use bandcamp_curate.Base.{
  ℕ, Bool, not, Option, none, some, List, ◌&&◌, ◌==◌, count_rows, length, Result, ok, ◌>>=◌,
}
use bandcamp_curate.Crawl.Database.{requests_used_by_scan}
use bandcamp_curate.Curation.Tables.{FanItem, Follow, Like}
use bandcamp_curate.Curation.ColdStart.{ColdStartDiagnostics, cold_start_diagnostics}
use bandcamp_curate.Curation.Scoring.{Floats}
use bandcamp_curate.Scans.Tables.{Scan, User, Store, get_scan}
use bandcamp_curate.Scans.Curate.{get_me, seeds_of}
use bandcamp_curate.Api.Feed.{resolve_scan_id, of_feed}

-- `cold_start` is `none` where there is no scan or the user has no fan yet.
pub record StatsOut : Type 0 where
  pub recommendations : ℕ
  pub fans : ℕ
  pub neighbours : ℕ
  pub albums : ℕ
  pub tracks : ℕ
  pub my_owned : ℕ
  pub my_wishlist : ℕ
  pub follows : ℕ
  pub liked : ℕ
  pub requests_used : ℕ
  pub request_budget : ℕ
  pub cold_start : Option ColdStartDiagnostics
  pub recompute_generation : Option ℕ

-- `if me is not None`: a count of rows of the user's fan, or 0.
unfoldable pub count_mine : {A : Type 0} → (ℕ → A → Bool) → Option ℕ → List A → ℕ
count_mine test none rows = 0
count_mine test (some me) rows = count_rows (test me) rows

unfoldable pub count_others : Option ℕ → List ℕ → ℕ
count_others none fans = length fans
count_others (some me) fans = count_rows (λ f. not (f == me)) fans

unfoldable pub used_by : Option ℕ → {fl : Floats} → Store fl → ℕ
unfolding requests_used_by_scan
used_by none st = 0
used_by (some sid) st = requests_used_by_scan sid st.usage

unfoldable pub scan_of_feed : Option ℕ → List Scan → Option Scan
unfolding get_scan
scan_of_feed none scans = none
scan_of_feed (some sid) scans = get_scan sid scans

abbrev generation_of : Option Scan → Option ℕ
generation_of none = none
generation_of (some s) = some s.recompute_generation

module _ {fl : Floats} where
  -- The diagnostics of the scan, where there is one and the user has a fan; `get_me` may raise.
  unfoldable pub cold_start_of :
      ℕ → User → Option ℕ → Option Scan → Store fl → Result (Option ColdStartDiagnostics)
  unfolding get_me seeds_of cold_start_diagnostics
  cold_start_of now user none scan st = ok none
  cold_start_of now user (some fan) none st = ok none
  cold_start_of now user (some fan) (some scan) st = get_me user st.fans >>= λ me.
      ok (some (cold_start_diagnostics now me user.id (seeds_of scan st.seeds) st.library))

  unfoldable pub stats_out : ℕ → User → Option ℕ → Store fl → Option ColdStartDiagnostics → StatsOut
  unfolding count_mine count_others used_by scan_of_feed of_feed
  stats_out budget user sid st cold_start =
      let lib = st.library in
      record {
        recommendations = count_rows (of_feed sid) st.recommendations;
        fans = length st.fans;
        neighbours = count_others user.fan_id st.fans;
        albums = length lib.albums;
        tracks = length lib.tracks;
        my_owned =
            count_mine (λ me (i : FanItem). (i.fan_id == me) && not i.is_wishlist) user.fan_id
              lib.fan_items;
        my_wishlist =
            count_mine (λ me (i : FanItem). (i.fan_id == me) && i.is_wishlist) user.fan_id
              lib.fan_items;
        follows = count_mine (λ me (f : Follow). f.fan_id == me) user.fan_id lib.follows;
        liked = count_rows (λ (l : Like). l.user_id == user.id) lib.likes;
        requests_used = used_by sid st;
        request_budget = budget;
        cold_start = cold_start;
        recompute_generation = generation_of (scan_of_feed sid st.scans);
      }

  unfoldable pub stats : ℕ → ℕ → User → Option ℕ → Store fl → Result StatsOut
  unfolding resolve_scan_id scan_of_feed cold_start_of stats_out
  stats now budget user scan_id st = resolve_scan_id user.id scan_id st.scans >>= λ sid.
      cold_start_of now user user.fan_id (scan_of_feed sid st.scans) st >>= λ cold_start.
      ok (stats_out budget user sid st cold_start)
