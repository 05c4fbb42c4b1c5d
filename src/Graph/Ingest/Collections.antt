-- ===== src/Graph/Ingest/Collections.antt =====
-- `ingest_fan_collection` of backend/app/bandcamp/mapper.py: a fan page and its embedded lists at once.
use bandcamp_curate.Base.{ℕ, Bool, true, false, Option, some, if◌then◌else◌, Result, ok, raise}
use bandcamp_curate.Graph.Tables.{FanRow, FanCollection, Graph, Workers}
use bandcamp_curate.Graph.Fans.{get_or_create_fan}
use bandcamp_curate.Graph.Ingest.{ingest_items_batch, ingest_follows_batch}

-- `IngestCounts`
pub record IngestCounts : Type 0 where
  pub fan_items : ℕ
  pub wishlist_items : ℕ
  pub follows : ℕ
  pub fan_id : Option ℕ

-- After the fan; the loops are those of the batches.
unfoldable pub ingest_lists :
    Workers → FanCollection → Bool → Result FanRow × Graph → Graph → Result IngestCounts × Graph
unfolding ingest_items_batch ingest_follows_batch
ingest_lists w fc is_me (raise e, g) before = (raise e, before)
ingest_lists w fc is_me (ok fan, g) before =
    let (n, g₁) = ingest_items_batch w fan.id false fc.items g in
    let (m, g₂) = ingest_items_batch w fan.id true fc.wishlist g₁ in
    let (k, g₃) = ingest_follows_batch w fan.id fc.follows g₂ in
    if is_me
    then (ok (record { fan_items = n; wishlist_items = m; follows = k; fan_id = some fan.id }), g₃)
    else (ok (record { fan_items = n; wishlist_items = 0; follows = 0; fan_id = some fan.id }), g₁)

unfoldable pub ingest_fan_collection :
    Workers → FanCollection → Bool → Graph → Result IngestCounts × Graph
unfolding ingest_lists get_or_create_fan
ingest_fan_collection w fc is_me g =
    ingest_lists w fc is_me
      (get_or_create_fan w fc.fan.fan_id fc.fan.username fc.fan.name fc.fan.url is_me g) g
