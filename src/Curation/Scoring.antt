-- ===== src/Curation/Scoring.antt =====
-- `compute_recommendations` of backend/app/curation/engine.py up to the sort: the candidates of the
-- neighbours, the exclusions, the floor and the score. Python's floats, with `log1p` and the
-- weights, are a parameter; ids of tags stand for their names.
pub mod Bounds
use bandcamp_curate.Base.{
  ℕ, zero, suc, ◌+◌, Bool, true, false, ◌&&◌, ◌||◌, not, Option, none, some, List, [], ◌∷◌, ◌++◌,
  map, ◌==◌, ltb, if◌then◌else◌, Text, any, contains, length,
}
use bandcamp_curate.Curation.Tables.{Release, FanItem, Link, Library, scalar_set, opt_in}
use bandcamp_curate.Curation.Exclusions.{Exclusions, excluded, build_exclusions}
use bandcamp_curate.Curation.Neighbours.{
  Seeds, seed_ids, scan_neighbours, my_owned_ids, neighbour_overlap, effective_tags, tag_profile,
  seed_tag_provenance, track_only,
}

-- The float operations of the score.
pub record Floats : Type 1 where
  pub F : Type 0
  pub add : F → F → F
  pub mul : F → F → F
  pub of_int : ℕ → F
  pub log1p : ℕ → F
  pub w_co_owner : F
  pub w_tag_affinity : F
  pub w_tag_affinity_weighted : F
  pub less : F → F → Bool

pub data ItemType : Type 0 where
  album track : ItemType

-- A row of the join of `fan_items` and `albums` or `tracks`.
pub record Pair : Type 0 where
  pub item : ℕ
  pub band_id : Option ℕ
  pub url : Option Text
  pub fan_id : ℕ

-- An entry of `album_owners` with that of `album_meta`.
pub record Candidate : Type 0 where
  pub item : ℕ
  pub band_id : Option ℕ
  pub url : Option Text
  pub owners : List ℕ

-- The join of one fan item and the releases.
unfoldable pub pairs_of : ℕ → Option ℕ → List Release → List Pair
pairs_of fan item [] = []
pairs_of fan none (r ∷ releases) = []
pairs_of fan (some i) (r ∷ releases) =
    let rest = pairs_of fan (some i) releases in
    if r.id == i
    then record { item = i; band_id = r.band_id; url = r.url; fan_id = fan } ∷ rest
    else rest

unfoldable pub owner_pairs : List ℕ → (FanItem → Option ℕ) → List FanItem → List Release → List Pair
unfolding pairs_of
owner_pairs neighbours item [] releases = []
owner_pairs neighbours item (i ∷ items) releases =
    let rest = owner_pairs neighbours item items releases in
    if contains i.fan_id neighbours then pairs_of i.fan_id (item i) releases ++ rest else rest

-- `setdefault(item, set()).add(fan)` and the meta of the last row.
unfoldable pub add_pair : Pair → List Candidate → List Candidate
add_pair p [] =
    record { item = p.item; band_id = p.band_id; url = p.url; owners = p.fan_id ∷ [] } ∷ []
add_pair p (c ∷ rest) =
    let later = add_pair p rest in
    if c.item == p.item
    then record c {
      band_id = p.band_id;
      url = p.url;
      owners = if contains p.fan_id c.owners then c.owners else c.owners ++ p.fan_id ∷ [];
    }
      ∷ rest
    else c ∷ later

unfoldable pub group_pairs : List Pair → List Candidate → List Candidate
unfolding add_pair
group_pairs [] acc = acc
group_pairs (p ∷ pairs) acc = group_pairs pairs (add_pair p acc)

-- What the scoring of one scan reads besides the candidates.
pub record Context : Type 0 where
  pub exclusions : Exclusions
  pub exclude_seed_tags : List ℕ
  pub min_co_owners : ℕ
  pub weighted : Bool
  pub overlap : ℕ → ℕ
  pub profile : ℕ → ℕ

unfoldable pub tag_affinity : (ℕ → ℕ) → List ℕ → ℕ
tag_affinity profile [] = 0
tag_affinity profile (t ∷ ts) = profile t + tag_affinity profile ts

module _ (fl : Floats) where
  open fl use {F, add, mul, of_int, log1p, w_co_owner, w_tag_affinity, w_tag_affinity_weighted}

  -- `ScoredItem`; its id is `album_id` or `track_id`, by the type.
  pub record ScoredItem : Type 0 where
    pub item_type : ItemType
    pub ident : ℕ
    pub score : F
    pub band_id : Option ℕ
    pub co_owners : ℕ
    pub affinity : ℕ
    pub seed_tags : List ℕ

  -- `_damped_overlap_weight`
  unfoldable pub damped_overlap_weight : ℕ → F
  damped_overlap_weight overlap = add (of_int 1) (log1p overlap)

  unfoldable pub sum_weights : (ℕ → ℕ) → List ℕ → F
  unfolding damped_overlap_weight
  sum_weights overlap [] = of_int 0
  sum_weights overlap (f ∷ owners) =
      add (damped_overlap_weight (overlap f)) (sum_weights overlap owners)

  -- `_co_owner_weight`
  unfoldable pub co_owner_weight : Context → List ℕ → F
  unfolding sum_weights
  co_owner_weight ctx owners =
      if ctx.weighted then sum_weights ctx.overlap owners else of_int (length owners)

  unfoldable pub tag_term : Bool → ℕ → F
  tag_term weighted affinity =
      if weighted
      then mul w_tag_affinity_weighted (log1p affinity)
      else mul w_tag_affinity (of_int affinity)

  unfoldable pub score_of : Context → Candidate → List ℕ → F
  unfolding co_owner_weight tag_term tag_affinity
  score_of ctx c tags =
      add (mul w_co_owner (co_owner_weight ctx c.owners))
        (tag_term ctx.weighted (tag_affinity ctx.profile tags))

  -- Whether the loop passes a candidate over before the floor.
  unfoldable pub out_of_scope : Context → List ℕ → List ℕ → Candidate → Bool
  unfolding excluded
  out_of_scope ctx ids seed_tags c =
      excluded ids ctx.exclusions c.item c.band_id c.url
      || any (λ t. contains t seed_tags) ctx.exclude_seed_tags

  unfoldable pub scored_item :
      Context → ItemType → (ℕ → List ℕ) → (ℕ → List ℕ) → Candidate → ScoredItem
  unfolding score_of
  scored_item ctx type tags prov c = record {
    item_type = type;
    ident = c.item;
    score = score_of ctx c (tags c.item);
    band_id = c.band_id;
    co_owners = length c.owners;
    affinity = tag_affinity ctx.profile (tags c.item);
    seed_tags = prov c.item;
  }

  -- The loop over the candidates of one type: what is scored, and the two counters.
  unfoldable pub score_candidates :
      Context
      → ItemType
      → List ℕ
      → (ℕ → List ℕ)
      → (ℕ → List ℕ)
      → List Candidate
      → List ScoredItem × ℕ × ℕ
  unfolding out_of_scope scored_item
  score_candidates ctx type ids tags prov [] = ([], 0, 0)
  score_candidates ctx type ids tags prov (c ∷ rest) =
      let (scored, candidates, filtered) = score_candidates ctx type ids tags prov rest in
      if out_of_scope ctx ids (prov c.item) c
      then (scored, candidates, filtered)
      else if ltb (length c.owners) ctx.min_co_owners
      then (scored, suc candidates, suc filtered)
      else (scored_item ctx type tags prov c ∷ scored, suc candidates, filtered)
