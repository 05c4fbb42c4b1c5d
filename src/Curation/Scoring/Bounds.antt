-- ===== src/Curation/Scoring/Bounds.antt =====
-- What `compute_recommendations` scores: the counters, the floor and the exclusions.
use bandcamp_curate.Base.{
  Bool, inr, inl, arith, sym, ap, ◌∙◌, not, ◌&&◌, ◌==◌, ==_iff, ◌++◌, Text, Option, none, some,
  any-append_right, All-append, All-weaken, ℕ, ◌+◌, true, false, List, [], ◌∷◌, All, length, ◌≡◌,
  refl, leb, ltb, any, contains, Bool-cases,
}
use bandcamp_curate.Urls.{url_host}
use bandcamp_curate.Curation.Tables.{Release, FanItem, opt_in}
use bandcamp_curate.Curation.Exclusions.{host_in, excluded}
use bandcamp_curate.Curation.Scoring.{
  Floats, ItemType, ScoredItem, Context, Candidate, Pair, pairs_of, owner_pairs, add_pair,
  group_pairs, score_candidates, out_of_scope, scored_item,
}

-- Every candidate that is in scope is either scored or counted as cut by the floor.
pub score_candidates-counts :
    (fl : Floats) (ctx : Context) (type : ItemType) (ids : List ℕ) (tags prov : ℕ → List ℕ)
    (cs : List Candidate)
    → length (score_candidates fl ctx type ids tags prov cs).0
        + (score_candidates fl ctx type ids tags prov cs).2
      ≡ (score_candidates fl ctx type ids tags prov cs).1
unfolding score_candidates
score_candidates-counts fl ctx type ids tags prov [] = refl
score_candidates-counts fl ctx type ids tags prov (c ∷ cs) =
    ground (arith, score_candidates-counts fl ctx type ids tags prov cs)

-- A release of an id that is not on a storefront of a followed band.
abbrev pub hosted_elsewhere : List Text → ℕ → Release → Bool
hosted_elsewhere hosts id r = (r.id == id) && not (host_in (url_host r.url) hosts)

-- An item that may be shown: enough owners, of the type's id, band and storefront not excluded, and
-- none of the genres that the user has switched off.
unfoldable pub Admissible :
    (fl : Floats) → Context → ItemType → List ℕ → List Release → ScoredItem fl → Type 0
Admissible fl ctx type ids releases s =
    (leb ctx.min_co_owners s.co_owners ≡ true)
    × (s.item_type ≡ type)
    × (contains s.ident ids ≡ false)
    × (opt_in s.band_id ctx.exclusions.band_ids ≡ false)
    × (any (λ t. contains t s.seed_tags) ctx.exclude_seed_tags ≡ false)
    × (any (hosted_elsewhere ctx.exclusions.band_hosts s.ident) releases ≡ true)

-- A candidate has the id and the URL of a release.
abbrev IsRelease : List Release → Candidate → Type 0
IsRelease releases c =
    (before after : List Release) × (r : Release) × (releases ≡ before ++ r ∷ after)
    × (r.id ≡ c.item)
    × (r.url ≡ c.url)

hosted :
    (hosts : List Text) (releases : List Release) (c : Candidate)
    → IsRelease releases c
    → host_in (url_host c.url) hosts ≡ false
    → any (hosted_elsewhere hosts c.item) releases ≡ true
hosted hosts releases c (before, after, r, split, same, url) free =
    let outside : host_in (url_host r.url) hosts ≡ false = rw url free in
    rw split (
      any-append_right (hosted_elsewhere hosts c.item) before (r ∷ after)
        (ground (arith, ==_iff r.id c.item, same, outside)))

scored_item-Admissible :
    (fl : Floats) (ctx : Context) (type : ItemType) (ids : List ℕ) (tags prov : ℕ → List ℕ)
    (releases : List Release) (c : Candidate)
    → IsRelease releases c
    → out_of_scope fl ctx ids (prov c.item) c ≡ false
    → ltb (length c.owners) ctx.min_co_owners ≡ false
    → Admissible fl ctx type ids releases (scored_item fl ctx type tags prov c)
unfolding Admissible out_of_scope scored_item excluded
scored_item-Admissible fl ctx type ids tags prov releases c there scope enough = (
  ground arith,
  refl,
  ground arith,
  ground arith,
  ground arith,
  hosted ctx.exclusions.band_hosts releases c there (ground (arith, scope)),
)

pub score_candidates-Admissible :
    (fl : Floats) (ctx : Context) (type : ItemType) (ids : List ℕ) (tags prov : ℕ → List ℕ)
    (releases : List Release) (cs : List Candidate)
    → All (IsRelease releases) cs
    → All (Admissible fl ctx type ids releases) (score_candidates fl ctx type ids tags prov cs).0
unfolding score_candidates
score_candidates-Admissible fl ctx type ids tags prov releases [] there = tt
score_candidates-Admissible fl ctx type ids tags prov releases (c ∷ cs) there =
    let ih = score_candidates-Admissible fl ctx type ids tags prov releases cs there.1 in
    elim (Bool-cases (out_of_scope fl ctx ids (prov c.item) c)) [
      | inl out ↦ rw (out) ih
      | inr scope ↦ elim (Bool-cases (ltb (length c.owners) ctx.min_co_owners)) [
        | inl low ↦ rw (scope, low) ih
        | inr enough ↦
            rw (scope, enough)
              (scored_item-Admissible fl ctx type ids tags prov releases c there.0 scope enough, ih)
      ]
    ]

-- A row of the join has the id and the URL of a release.
abbrev Joined : List Release → Pair → Type 0
Joined releases p =
    (before after : List Release) × (r : Release) × (releases ≡ before ++ r ∷ after)
    × (r.id ≡ p.item)
    × (r.url ≡ p.url)

Joined-cons :
    (r : Release) (releases : List Release) (p : Pair) → Joined releases p → Joined (r ∷ releases) p
Joined-cons r releases p (before, after, x, split, id, url) =
    (r ∷ before, after, x, ap (λ xs. r ∷ xs) split, id, url)

pairs_of-Joined :
    (fan : ℕ) (item : Option ℕ) (releases : List Release)
    → All (Joined releases) (pairs_of fan item releases)
unfolding pairs_of
pairs_of-Joined fan item [] = tt
pairs_of-Joined fan none (r ∷ releases) = tt
pairs_of-Joined fan (some i) (r ∷ releases) =
    let later =
      All-weaken (Joined releases) (Joined (r ∷ releases)) (Joined-cons r releases) _
        (pairs_of-Joined fan (some i) releases) in
    elim (Bool-cases (r.id == i)) [
      | inl hit ↦ rw hit (([], releases, r, refl, (==_iff r.id i).0 hit, refl), later)
      | inr miss ↦ rw miss later
    ]

owner_pairs-Joined :
    (neighbours : List ℕ) (item : FanItem → Option ℕ) (items : List FanItem)
    (releases : List Release)
    → All (Joined releases) (owner_pairs neighbours item items releases)
unfolding owner_pairs
owner_pairs-Joined neighbours item [] releases = tt
owner_pairs-Joined neighbours item (i ∷ items) releases =
    let ih = owner_pairs-Joined neighbours item items releases in
    elim (Bool-cases (contains i.fan_id neighbours)) [
      | inl near ↦ rw near (
          All-append (Joined releases) (pairs_of i.fan_id (item i) releases) _
            (pairs_of-Joined i.fan_id (item i) releases) ih)
      | inr far ↦ rw far ih
    ]

add_pair-IsRelease :
    (releases : List Release) (p : Pair) (cs : List Candidate)
    → Joined releases p
    → All (IsRelease releases) cs
    → All (IsRelease releases) (add_pair p cs)
unfolding add_pair
add_pair-IsRelease releases p [] there h = (there, tt)
add_pair-IsRelease releases p (c ∷ cs) there h = elim (Bool-cases (c.item == p.item)) [
  | inl same ↦
      let (before, after, r, split, id, url) = there in
      rw same ((before, after, r, split, id ∙ sym ((==_iff c.item p.item).0 same), url), h.1)
  | inr other ↦ rw other (h.0, add_pair-IsRelease releases p cs there h.1)
]

pub group_pairs-IsRelease :
    (releases : List Release) (pairs : List Pair) (cs : List Candidate)
    → All (Joined releases) pairs
    → All (IsRelease releases) cs
    → All (IsRelease releases) (group_pairs pairs cs)
unfolding group_pairs
group_pairs-IsRelease releases [] cs there h = h
group_pairs-IsRelease releases (p ∷ pairs) cs there h =
    group_pairs-IsRelease releases pairs (add_pair p cs) there.1
      (add_pair-IsRelease releases p cs there.0 h)

-- The candidates of a ranking are releases.
pub candidates-IsRelease :
    (neighbours : List ℕ) (item : FanItem → Option ℕ) (items : List FanItem)
    (releases : List Release)
    → All (IsRelease releases) (group_pairs (owner_pairs neighbours item items releases) [])
candidates-IsRelease neighbours item items releases =
    group_pairs-IsRelease releases (owner_pairs neighbours item items releases) []
      (owner_pairs-Joined neighbours item items releases) tt
