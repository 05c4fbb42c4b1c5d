-- ===== src/Api/Collection/Whole.antt =====
-- The lists of a collection (backend/app/api/collection.py) against the rows of the tables.
use bandcamp_curate.Base.{
  count_rows-sort_rows, sort_rows-IsOrdered, length-sort_rows, sort_rows, IsOrdered, ◌∙◌, ℕ, zero,
  suc, ◌≤◌, ◌<◌, Bool, true, false, ◌||◌, Option, none, some, List, [], ◌∷◌, ◌≡◌, refl, map, ap,
  ltb, Text, count_rows, length, take, ok, arith,
}
use bandcamp_curate.Curation.Tables.{Library}
use bandcamp_curate.Scans.Tables.{User}
use bandcamp_curate.Api.Collection.{
  sort_rows, max_items, CollectionItemOut, CollectionOut, Edge, Collation, item_row, artist_key,
  title_key, comes_before, items_query, items, owned_edges, wished_edges, liked_edges, fan_sections,
  sections, collection,
}

-- A list of a collection: the first `limit` of all rows of the section, in order, each as often as
-- it is in the table.
pub record IsSection (c : Collation) (lib : Library) (limit : ℕ) (edges : List Edge)
    (rows : List CollectionItemOut) : Type 0 where
  pub all : List CollectionItemOut
  pub cut : rows ≡ take limit all
  pub ordered : IsOrdered (comes_before c) all
  pub counted :
      (test : CollectionItemOut → Bool)
      → count_rows test all ≡ count_rows test (map (item_row lib) edges)

-- The rows of a section for a user with or without a Bandcamp fan.
unfoldable pub of_fan : (ℕ → Library → List Edge) → Option ℕ → Library → List Edge
of_fan edges none lib = []
of_fan edges (some me) lib = edges me lib

pub record IsCollection (c : Collation) (user : User) (limit : ℕ) (lib : Library)
    (out : CollectionOut) : Type 0 where
  pub owned : IsSection c lib limit (of_fan owned_edges user.fan_id lib) out.owned
  pub wishlist : IsSection c lib limit (of_fan wished_edges user.fan_id lib) out.wishlist
  pub liked : IsSection c lib limit (liked_edges user.id lib) out.liked
  pub truncated : out.truncated ≡ (
      (ltb limit (length (of_fan owned_edges user.fan_id lib))
        || ltb limit (length (of_fan wished_edges user.fan_id lib)))
      || ltb limit (length (liked_edges user.id lib)))

take_nil : {A : Type 0} (n : ℕ) → ◌≡◌ {A = List A} [] (take n [])
take_nil zero = refl
take_nil (suc n) = refl

take-take : {A : Type 0} (n : ℕ) (xs : List A) → take n (take (suc n) xs) ≡ take n xs
take-take zero xs = refl
take-take (suc n) [] = refl
take-take (suc n) (x ∷ xs) = ap (◌∷◌ x) (take-take n xs)

ltb-length-take :
    {A : Type 0} (n : ℕ) (xs : List A) → ltb n (length (take (suc n) xs)) ≡ ltb n (length xs)
ltb-length-take n [] = refl
ltb-length-take zero (x ∷ xs) = ground arith
ltb-length-take (suc n) (x ∷ xs) = ground (arith, ltb-length-take n xs)

length-map : {A B : Type 0} (f : A → B) (xs : List A) → length (map f xs) ≡ length xs
length-map f [] = refl
length-map f (x ∷ xs) = omega (arith, length-map f xs)

take-length_le : {A : Type 0} (n : ℕ) (xs : List A) → length xs ≤ n → take n xs ≡ xs
take-length_le zero [] h = refl
take-length_le zero (x ∷ xs) h = absurd (omega arith)
take-length_le (suc n) [] h = refl
take-length_le (suc n) (x ∷ xs) h = ap (◌∷◌ x) (take-length_le n xs (omega arith))

-- A section within the limit is shown whole.
pub items_short :
    (c : Collation) (lib : Library) (limit : ℕ) (edges : List Edge)
    → length edges ≤ limit
    → (items c lib limit edges).0 ≡ sort_rows (comes_before c) (map (item_row lib) edges)
unfolding items items_query
items_short c lib limit edges h =
    let rows = sort_rows (comes_before c) (map (item_row lib) edges) in
    take-take limit rows
    ∙ take-length_le limit rows (
        rw
          (
            length-sort_rows (comes_before c) (map (item_row lib) edges),
            length-map (item_row lib) edges,
          )
          h)

no_rows : {c : Collation} (lib : Library) (limit : ℕ) → IsSection c lib limit [] []
unfolding IsOrdered
no_rows lib limit = record { all = []; cut = take_nil limit; ordered = tt; counted = λ test. refl }

module _ (c : Collation) (asym : (a b : Text) → c.before a b ≡ true → c.before b a ≡ false) where
  comes_before-asym :
      (a b : CollectionItemOut) → comes_before c a b ≡ true → comes_before c b a ≡ false
  unfolding comes_before
  comes_before-asym a b h =
      ground
        (arith, h, asym (artist_key c a) (artist_key c b), asym (title_key c a) (title_key c b))

  items-IsSection :
      (lib : Library) (limit : ℕ) (edges : List Edge)
      → IsSection c lib limit edges (items c lib limit edges).0
  unfolding items items_query
  items-IsSection lib limit edges = record {
    all = sort_rows (comes_before c) (map (item_row lib) edges);
    cut = take-take limit (sort_rows (comes_before c) (map (item_row lib) edges));
    ordered = sort_rows-IsOrdered (comes_before c) comes_before-asym (map (item_row lib) edges);
    counted = λ test. count_rows-sort_rows (comes_before c) test (map (item_row lib) edges);
  }

  items-cut :
      (lib : Library) (limit : ℕ) (edges : List Edge)
      → (items c lib limit edges).1 ≡ ltb limit (length edges)
  unfolding items items_query
  items-cut lib limit edges = rw (
    ltb-length-take limit (sort_rows (comes_before c) (map (item_row lib) edges)),
    length-sort_rows (comes_before c) (map (item_row lib) edges),
    length-map (item_row lib) edges,
  )

  -- A fan of a user, or none, is an argument of its own here.
  fan_sections-owned :
      (lib : Library) (limit : ℕ) (fan : Option ℕ)
      → IsSection c lib limit (of_fan owned_edges fan lib) (fan_sections c lib limit fan).0
  unfolding fan_sections of_fan
  fan_sections-owned lib limit none = no_rows lib limit
  fan_sections-owned lib limit (some me) = items-IsSection lib limit (owned_edges me lib)

  fan_sections-wished :
      (lib : Library) (limit : ℕ) (fan : Option ℕ)
      → IsSection c lib limit (of_fan wished_edges fan lib) (fan_sections c lib limit fan).1
  unfolding fan_sections of_fan
  fan_sections-wished lib limit none = no_rows lib limit
  fan_sections-wished lib limit (some me) = items-IsSection lib limit (wished_edges me lib)

  fan_sections-cut :
      (lib : Library) (limit : ℕ) (fan : Option ℕ)
      → (fan_sections c lib limit fan).2 ≡ (
          ltb limit (length (of_fan owned_edges fan lib))
          || ltb limit (length (of_fan wished_edges fan lib)))
  unfolding fan_sections of_fan
  fan_sections-cut lib limit none = ground arith
  fan_sections-cut lib limit (some me) =
      rw (items-cut lib limit (owned_edges me lib), items-cut lib limit (wished_edges me lib))

  -- With an order of texts that puts no two texts before each other, and a limit from 1 to
  -- MAX_ITEMS: the endpoint answers with three lists. Each is the first `limit` rows of a list that
  -- is ordered by artist and title and has every row of its section as often as the table does:
  -- what the user's fan owns, what the fan wishes for (both empty for a user without a fan), and
  -- what the user likes. `truncated` is true just if a section has more than `limit` rows.
  pub collection-IsCollection :
      (user : User) (limit : ℕ) (lib : Library)
      → 0 < limit
      → limit ≤ max_items
      → (out : CollectionOut) × (collection c user limit lib ≡ ok out)
        × IsCollection c user limit lib out
  unfolding collection sections
  collection-IsCollection user limit lib positive bounded = (
    sections c user limit lib,
    ground arith,
    record {
      owned = fan_sections-owned lib limit user.fan_id;
      wishlist = fan_sections-wished lib limit user.fan_id;
      liked = items-IsSection lib limit (liked_edges user.id lib);
      truncated =
          rw
            (fan_sections-cut lib limit user.fan_id, items-cut lib limit (liked_edges user.id lib));
    },
  )
