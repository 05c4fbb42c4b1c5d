-- ===== src/Graph/Collection/Edges.antt =====
-- `_add_fan_item` of backend/app/bandcamp/mapper.py as a change of the edges: which edge it adds or
-- changes.
use bandcamp_curate.Base.{
  sym, false, inr, inl, Option-cases, not, ◌∷◌, ◌++◌, if◌then◌else◌, [], ◌∷◌, is_some, ◌++◌, any,
  List, ℕ, ◌≡◌, refl, ap, Bool, true, ◌&&◌, Option, none, some, ◌==◌, ==_iff, arith,
}
use bandcamp_curate.Curation.Scoring.{ItemType, album, track}
use bandcamp_curate.Graph.Keyed.{update_first, add_edge_or_false}
use bandcamp_curate.Graph.Tables.{alone, FanItemRow}
use bandcamp_curate.Graph.Edges.{add_fan_item, same_type, same_ref, is_item, observe}
use bandcamp_curate.Graph.Collection.{merge, edge_of, is_edge, album_slot, track_slot}

abbrev pub same_edge : ℕ → ItemType → ℕ → ℕ → ItemType → ℕ → Bool
same_edge f t i f' t' i' = (f == f') && (same_type t t' && (i == i'))

same_ref_lem : (a b : Option ℕ) → same_ref a b ≡ true → a ≡ b
unfolding same_ref
same_ref_lem none none h = refl
same_ref_lem none (some b) h = absurd (ground arith)
same_ref_lem (some a) none h = absurd (ground arith)
same_ref_lem (some a) (some b) h = ground arith

same_ref_refl : (a : Option ℕ) → same_ref a a ≡ true
unfolding same_ref
same_ref_refl none = refl
same_ref_refl (some a) = ground arith

same_type_refl : (t : ItemType) → same_type t t ≡ true
unfolding same_type
same_type_refl album = refl
same_type_refl track = refl

pub same_type_lem : (t t' : ItemType) → same_type t t' ≡ true → t ≡ t'
unfolding same_type
same_type_lem album album h = refl
same_type_lem album track h = absurd (ground arith)
same_type_lem track album h = absurd (ground arith)
same_type_lem track track h = refl

-- The columns of an edge.
edge_columns :
    (f : ℕ) (t : ItemType) (i : ℕ) (r : FanItemRow)
    → is_edge f t i r ≡ true
    → ((r.fan_id ≡ f) × (r.item_type ≡ t))
      × ((r.album_id ≡ album_slot t i) × (r.track_id ≡ track_slot t i))
unfolding is_edge is_item
edge_columns f t i r h = (
  (ground arith, same_type_lem r.item_type t (ground arith)),
  (
    same_ref_lem r.album_id (album_slot t i) (ground arith),
    same_ref_lem r.track_id (track_slot t i) (ground arith),
  ),
)

slots :
    (t : ItemType) (i : ℕ) (t' : ItemType) (i' : ℕ)
    → (same_type t t'
        && (same_ref (album_slot t i) (album_slot t' i')
            && same_ref (track_slot t i) (track_slot t' i')))
      ≡ (same_type t t' && (i == i'))
unfolding same_type same_ref
slots album i album i' = ground arith
slots album i track i' = refl
slots track i album i' = refl
slots track i track i' = refl

edge_exact :
    (f : ℕ) (t : ItemType) (i : ℕ) (f' : ℕ) (t' : ItemType) (i' : ℕ) (r : FanItemRow)
    → is_edge f t i r ≡ true
    → is_edge f' t' i' r ≡ same_edge f t i f' t' i'
unfolding is_edge is_item same_type same_ref
edge_exact f t i f' t' i' r h =
    let ((fan, type), (a, tr)) = edge_columns f t i r h in
    rw (fan, type, a, tr) (ap (λ b. (f == f') && b) (slots t i t' i'))

edge_same :
    (f : ℕ) (t : ItemType) (i : ℕ) (f' : ℕ) (t' : ItemType) (i' : ℕ) (r : FanItemRow)
    → same_edge f t i f' t' i' ≡ true
    → is_edge f' t' i' r ≡ is_edge f t i r
unfolding is_edge is_item same_type same_ref
edge_same f t i f' t' i' r h = ground (arith, same_type_lem t t', ==_iff f f', ==_iff i i')

observe-edge :
    (f : ℕ) (t : ItemType) (i : ℕ) (w : Bool) (r : FanItemRow)
    → is_edge f t i (observe w r) ≡ is_edge f t i r
unfolding is_edge is_item observe
observe-edge f t i w r = refl

abbrev edge : ℕ → ItemType → ℕ → Bool → FanItemRow
edge f t i w = record {
  fan_id = f;
  item_type = t;
  album_id = album_slot t i;
  track_id = track_slot t i;
  is_wishlist = w;
}

new_edge : (f : ℕ) (t : ItemType) (i : ℕ) (w : Bool) → is_edge f t i (edge f t i w) ≡ true
unfolding is_edge is_item
new_edge f t i w = ground (
  arith,
  same_type_refl t,
  same_ref_refl (album_slot t i),
  same_ref_refl (track_slot t i),
  ==_iff f f,
)

module _ (f : ℕ) (t : ItemType) (i : ℕ) (w : Bool) (f' : ℕ) (t' : ItemType) (i' : ℕ) where
  wish-update_first :
      (rows : List FanItemRow) (o : Bool)
      → edge_of f t rows (some i) ≡ some o
      → edge_of f' t' (update_first (is_edge f t i) (observe w) rows) (some i')
        ≡ (if same_edge f t i f' t' i' then some (o && w) else edge_of f' t' rows (some i'))
  unfolding edge_of update_first observe
  wish-update_first [] o h = absurd (ground arith)
  wish-update_first (r ∷ rows) o h = ground (
    arith,
    wish-update_first rows o,
    edge_exact f t i f' t' i' r,
    edge_same f t i f' t' i' r,
    observe-edge f' t' i' w r,
  )

  wish-snoc :
      (rows : List FanItemRow)
      → edge_of f t rows (some i) ≡ none
      → edge_of f' t' (rows ++ edge f t i w ∷ []) (some i')
        ≡ (if same_edge f t i f' t' i' then some w else edge_of f' t' rows (some i'))
  unfolding edge_of
  wish-snoc [] h = ground (arith, new_edge f t i w, edge_exact f t i f' t' i' (edge f t i w))
  wish-snoc (r ∷ rows) h =
      ground (arith, wish-snoc rows, edge_exact f t i f' t' i' r, edge_same f t i f' t' i' r)

any-edge :
    (f : ℕ) (t : ItemType) (i : ℕ) (rows : List FanItemRow)
    → any (is_edge f t i) rows ≡ is_some (edge_of f t rows (some i))
unfolding edge_of
any-edge f t i [] = refl
any-edge f t i (r ∷ rows) = ground (arith, any-edge f t i rows)

twice {ℓ} :
    {A : Type ℓ} (b : Bool) (x y z : A)
    → (if b then x else if b then y else z) ≡ (if b then x else z)
twice true x y z = refl
twice false x y z = refl

abbrev added : ℕ → ItemType → ℕ → Bool → List FanItemRow → Bool × List FanItemRow
added f t i w rows =
    if is_some (edge_of f t rows (some i))
    then (false, update_first (is_edge f t i) (observe w) rows)
    else (true, rows ++ edge f t i w ∷ [])

add_fan_item-added :
    (f : ℕ) (t : ItemType) (i : ℕ) (w : Bool) (rows : List FanItemRow)
    → add_fan_item alone f t (album_slot t i) (track_slot t i) w rows ≡ added f t i w rows
unfolding add_fan_item add_edge_or_false is_edge
add_fan_item-added f t i w rows =
    rw (sym (any-edge f t i rows)) (twice (any (is_edge f t i) rows) _ _ _)

pub add_fan_item-at :
    (f : ℕ) (t : ItemType) (i : ℕ) (w : Bool) (rows : List FanItemRow) (f' : ℕ) (t' : ItemType)
    (i' : ℕ)
    → edge_of f' t' (add_fan_item alone f t (album_slot t i) (track_slot t i) w rows).1 (some i')
      ≡ (if same_edge f t i f' t' i'
          then some (merge (edge_of f t rows (some i)) w)
          else edge_of f' t' rows (some i'))
unfolding merge
add_fan_item-at f t i w rows f' t' i' = elim (Option-cases (edge_of f t rows (some i))) [
  | inl gone ↦
      ground (arith, gone, add_fan_item-added f t i w rows, wish-snoc f t i w f' t' i' rows)
  | inr (o, found) ↦
      ground
        (arith, found, add_fan_item-added f t i w rows, wish-update_first f t i w f' t' i' rows o)
]

pub add_fan_item-new :
    (f : ℕ) (t : ItemType) (i : ℕ) (w : Bool) (rows : List FanItemRow)
    → (add_fan_item alone f t (album_slot t i) (track_slot t i) w rows).0
      ≡ not (is_some (edge_of f t rows (some i)))
add_fan_item-new f t i w rows = ground (arith, add_fan_item-added f t i w rows)
