-- ===== src/Graph/Collection/Laws.antt =====
-- Laws of a fan's collection: what a page does to it at one item, and twice the same page.
use bandcamp_curate.Base.{
  ℕ, ◌≡◌, refl, Bool, true, false, Option, none, some, List, [], ◌∷◌, if◌then◌else◌, any, arith,
  is_some,
}
use bandcamp_curate.Curation.Scoring.{ItemType, album, track}
use bandcamp_curate.Graph.Tables.{ParsedItem}
use bandcamp_curate.Graph.Edges.{same_type}
use bandcamp_curate.Graph.Collection.{Collection, merge, is_of, collect, collect_all, count_new}

collect-at :
    (fan : ℕ) (w : Bool) (item : ParsedItem) (old : Collection) (f c : ℕ) (t : ItemType)
    → collect fan w item old f t c
      ≡ (if is_of f t c fan item then some (merge (old f t c) w) else old f t c)
unfolding collect
collect-at fan w item old f c t = refl

merge_twice : (o : Option Bool) (w : Bool) → merge (some (merge o w)) w ≡ merge o w
unfolding merge
merge_twice none true = refl
merge_twice none false = refl
merge_twice (some true) true = refl
merge_twice (some true) false = refl
merge_twice (some false) true = refl
merge_twice (some false) false = refl

-- A page marks the items that it names, once each, and leaves the others.
pub collect_all-at :
    (fan : ℕ) (w : Bool) (items : List ParsedItem) (old : Collection) (f c : ℕ) (t : ItemType)
    → collect_all fan w items old f t c
      ≡ (if any (is_of f t c fan) items then some (merge (old f t c) w) else old f t c)
unfolding collect_all
collect_all-at fan w [] old f c t = refl
collect_all-at fan w (item ∷ items) old f c t = ground (
  arith,
  collect_all-at fan w items (collect fan w item old) f c t,
  collect-at fan w item old f c t,
  merge_twice (old f t c) w,
)

same_type_refl : (t : ItemType) → same_type t t ≡ true
unfolding same_type
same_type_refl album = refl
same_type_refl track = refl

is_of_itself : (fan : ℕ) (item : ParsedItem) → is_of fan item.item_type item.item_id fan item ≡ true
unfolding is_of same_type
is_of_itself fan item = ground (arith, same_type_refl item.item_type)

-- An item that is recorded counts as known.
pub count_new-known :
    (fan : ℕ) (w : Bool) (items : List ParsedItem) (old : Collection)
    → ((item : ParsedItem)
        → any (is_of fan item.item_type item.item_id fan) items ≡ true
        → is_some (old fan item.item_type item.item_id) ≡ true)
    → count_new fan w items old ≡ 0
unfolding count_new
count_new-known fan w [] old h = refl
count_new-known fan w (item ∷ items) old h =
    let later =
      count_new-known fan w items (collect fan w item old)
        (λ it m. ground (arith, h it, m, collect-at fan w item old fan it.item_id it.item_type)) in
    ground (arith, later, h item, is_of_itself fan item)

-- The same page again has nothing new.
pub count_new-again :
    (fan : ℕ) (w v : Bool) (items : List ParsedItem) (old : Collection)
    → count_new fan v items (collect_all fan w items old) ≡ 0
count_new-again fan w v items old =
    count_new-known fan v items (collect_all fan w items old)
      (λ it m. ground (arith, m, collect_all-at fan w items old fan it.item_id it.item_type))

pub collect_all-again :
    (fan : ℕ) (w : Bool) (items : List ParsedItem) (old : Collection) (f : ℕ) (t : ItemType) (c : ℕ)
    → collect_all fan w items (collect_all fan w items old) f t c
      ≡ collect_all fan w items old f t c
collect_all-again fan w items old f t c = ground (
  arith,
  collect_all-at fan w items (collect_all fan w items old) f c t,
  collect_all-at fan w items old f c t,
  merge_twice (old f t c) w,
)
