-- ===== src/Graph/Ingest/Supporters.antt =====
-- The ingests of supporters in backend/app/bandcamp/mapper.py.
use bandcamp_curate.Base.{ℕ, ◌+◌, Bool, List, [], ◌∷◌, Result, ok, raise}
use bandcamp_curate.Graph.Tables.{FanRow, Graph, Workers, ParsedSupporter}
use bandcamp_curate.Graph.Fans.{get_or_create_supporter_fan}
use bandcamp_curate.Graph.Edges.{add_album_supporter, add_track_supporter}
use bandcamp_curate.Graph.Ingest.{counted}

-- `SupporterIngestCounts`
pub record SupporterIngestCounts : Type 0 where
  pub supporters : ℕ
  pub fans : ℕ

-- One round of the loop over supporters, after the fan: `support` adds the edge.
unfoldable pub after_fan :
    Result (FanRow × Bool) × Graph
    → (ℕ → Graph → Bool × Graph)
    → SupporterIngestCounts
    → (SupporterIngestCounts → Graph → Result SupporterIngestCounts × Graph)
    → Result SupporterIngestCounts × Graph
after_fan (raise e, g) support n next = (raise e, g)
after_fan (ok (fan, created), g) support n next =
    let (added, g') = support fan.id g in
    next (record { supporters = n.supporters + counted added; fans = n.fans + counted created }) g'

unfoldable pub ingest_supporters :
    Workers
    → (ℕ → Graph → Bool × Graph)
    → List ParsedSupporter
    → SupporterIngestCounts
    → Graph
    → Result SupporterIngestCounts × Graph
unfolding get_or_create_supporter_fan after_fan
ingest_supporters w support [] n g = (ok n, g)
ingest_supporters w support (ps ∷ rest) n g =
    after_fan (get_or_create_supporter_fan w ps.fan_id ps.username ps.name g) support n
      (ingest_supporters w support rest)

abbrev nobody : SupporterIngestCounts
nobody = record { supporters = 0; fans = 0 }

-- `ingest_album_supporters` and `ingest_track_supporters`, for the id of the row.
unfoldable pub ingest_album_supporters :
    Workers → ℕ → List ParsedSupporter → Graph → Result SupporterIngestCounts × Graph
unfolding ingest_supporters add_album_supporter
ingest_album_supporters w a supporters g =
    ingest_supporters w (add_album_supporter w a) supporters nobody g

unfoldable pub ingest_track_supporters :
    Workers → ℕ → List ParsedSupporter → Graph → Result SupporterIngestCounts × Graph
unfolding ingest_supporters add_track_supporter
ingest_track_supporters w t supporters g =
    ingest_supporters w (add_track_supporter w t) supporters nobody g
