-- ===== src/Scans/Curate.antt =====
-- `get_me`, `curate` for a scan and `store_recommendations` of backend/app/curation/engine.py, and `_resolve_seeds` of backend/app/crawl/scan_service.py.
pub mod Replaces
use bandcamp_curate.Base.{
  ℕ, ◌+◌, Bool, true, false, ◌&&◌, not, Option, none, some, List, [], ◌∷◌, ◌++◌, map, ◌==◌, ltb,
  if◌then◌else◌, Text, same_text, contains, where_rows, length, Result, ok, raise, invalid,
  not_found,
}
use bandcamp_curate.Curation.Tables.{Release, Library}
use bandcamp_curate.Curation.Neighbours.{Seeds}
use bandcamp_curate.Curation.Scoring.{Floats, ItemType, ScoredItem}
use bandcamp_curate.Curation.Ranking.{Request, Stats, compute_recommendations}
use bandcamp_curate.Scans.Tables.{
  collection, custom, Scan, ScanSeed, User, Recommendation, Store, get_scan, get_user, write_scan,
}

-- `Album.url == seed.url`
abbrev url_is : Text → Release → Bool
url_is url r = elim r.url [ none ↦ false | some u ↦ same_text u url ]

-- `ORDER BY id DESC`, the first: the id of the newest release of a URL.
unfoldable pub newest : Text → List Release → Option ℕ
newest url [] = none
newest url (r ∷ releases) = elim (newest url releases) [
  | none ↦ if url_is url r then some r.id else none
  | some id ↦ if url_is url r && ltb id r.id then some r.id else some id
]

-- `resolved_…_id is None` is asked first.
abbrev keep_or : Option ℕ → Option ℕ → Option ℕ
keep_or none found = found
keep_or (some id) found = some id

-- One round of the loop, by the seed's type.
unfoldable pub resolve_as : ItemType → Library → ScanSeed → ScanSeed
unfolding newest
resolve_as ItemType.album lib seed = record seed {
  resolved_album_id = keep_or seed.resolved_album_id (newest seed.url lib.albums);
}
resolve_as ItemType.track lib seed = record seed {
  resolved_track_id = keep_or seed.resolved_track_id (newest seed.url lib.tracks);
}

abbrev pub of_scan : ℕ → ScanSeed → Bool
of_scan scan_id seed = seed.scan_id == scan_id

unfoldable pub resolve_seeds : {fl : Floats} → ℕ → Store fl → Store fl
unfolding resolve_as
resolve_seeds scan_id st = record st {
  seeds =
      map (λ (s : ScanSeed). if of_scan scan_id s then resolve_as s.seed_type st.library s else s)
        st.seeds;
}

-- `get_me`: the id of the user's fan row.
unfoldable pub get_me : User → List ℕ → Result ℕ
get_me user fans = elim user.fan_id [
  | none ↦ raise invalid
  | some fan ↦ if contains fan fans then ok fan else raise invalid
]

-- The seeds that `_seed_ids` reads, by the scan's kind.
unfoldable pub seeds_of : Scan → List ScanSeed → Seeds
seeds_of scan seeds = elim scan.kind [
  | collection ↦ Seeds.collection
  | custom ↦
      Seeds.custom
        (map (λ (s : ScanSeed). s.resolved_album_id) (where_rows (of_scan scan.id) seeds))
        (map (λ (s : ScanSeed). s.resolved_track_id) (where_rows (of_scan scan.id) seeds))
]

-- The settings and arguments that `curate` hands on.
pub record CurateArgs : Type 0 where
  pub now : ℕ
  pub limit : Option ℕ
  pub exclude_seed_tags : List ℕ
  pub min_co_owners : ℕ
  pub weighted : Bool

unfoldable pub request_of : CurateArgs → ℕ → Scan → List ScanSeed → Request
unfolding seeds_of
request_of args me scan seeds = record {
  now = args.now;
  me = me;
  user = scan.user_id;
  seeds = seeds_of scan seeds;
  limit = args.limit;
  one_per_band = true;
  exclude_seed_tags = args.exclude_seed_tags;
  min_co_owners = args.min_co_owners;
  weighted = args.weighted;
}

module _ {fl : Floats} where
  -- `store_recommendations`
  unfoldable pub store_recommendations : List (ScoredItem fl) → ℕ → Store fl → ℕ × Store fl
  unfolding write_scan
  store_recommendations scored scan_id st =
      let st' =
        write_scan scan_id (λ s. record s { recompute_generation = s.recompute_generation + 1 })
          (record st {
            recommendations =
                where_rows (λ (r : Recommendation fl). not (r.scan_id == scan_id))
                  st.recommendations
                ++ map (λ i. record { scan_id = scan_id; item = i }) scored;
          }) in
      (length scored, st')

  -- `compute_recommendations` and the store, for the user's own fan or the exception of `get_me`.
  unfoldable pub curate_as :
      CurateArgs → ℕ → Scan → Store fl → Result ℕ → Result (List (ScoredItem fl) × Stats) × Store fl
  unfolding request_of compute_recommendations store_recommendations
  curate_as args scan_id scan st (raise e) = (raise e, st)
  curate_as args scan_id scan st (ok me) =
      let (scored, stats) =
        compute_recommendations fl (request_of args me scan st.seeds) st.library in
      let (_, st') = store_recommendations scored scan_id st in (ok (scored, stats), st')

  -- `curate` with a scan id: the ranking and its statistics, or the exception.
  unfoldable pub curate :
      CurateArgs → ℕ → Store fl → Result (List (ScoredItem fl) × Stats) × Store fl
  unfolding get_scan get_user get_me curate_as
  curate args scan_id st = elim (get_scan scan_id st.scans) [
    | none ↦ (raise not_found, st)
    | some scan ↦ elim (get_user scan.user_id st.users) [
      | none ↦ (raise not_found, st)
      | some user ↦ curate_as args scan_id scan st (get_me user st.fans)
    ]
  ]
