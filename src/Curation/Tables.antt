-- ===== src/Curation/Tables.antt =====
-- The rows that backend/app/curation/engine.py and the endpoints read (backend/app/db/models.py), by
-- the columns that they read. Albums and tracks have the same columns.
use bandcamp_curate.Base.{ℕ, Bool, false, Option, none, some, List, [], ◌∷◌, Text, contains}

-- `BandKind`
pub data BandKind : Type 0 where
  artist label unknown : BandKind

-- `albums`, `tracks`
pub record Release : Type 0 where
  pub id : ℕ
  pub band_id : Option ℕ
  pub url : Option Text
  pub title : Option Text
  pub art_id : Option ℕ

pub record Band : Type 0 where
  pub id : ℕ
  pub url : Option Text
  pub name : Option Text
  pub kind : BandKind

pub record FanItem : Type 0 where
  pub fan_id : ℕ
  pub album_id : Option ℕ
  pub track_id : Option ℕ
  pub is_wishlist : Bool

pub record Follow : Type 0 where
  pub fan_id : ℕ
  pub band_id : ℕ

-- `TargetType`
pub data TargetType : Type 0 where
  artist label album track : TargetType

-- `blacklist`
pub record Blocked : Type 0 where
  pub id : ℕ
  pub user_id : ℕ
  pub album_id : Option ℕ
  pub track_id : Option ℕ
  pub target_type : TargetType
  pub band_id : Option ℕ
  pub active : Bool
  pub reason : Option Text
  pub expires_at : Option ℕ

-- `item_type` says which of the two ids there is.
pub record Like : Type 0 where
  pub id : ℕ
  pub user_id : ℕ
  pub album_id : Option ℕ
  pub track_id : Option ℕ

-- A pair of a link table: `album_supporters`, `track_supporters`, `album_tags`, `track_tags`,
-- `band_tags`.
pub record Link : Type 0 where
  pub owner : ℕ
  pub target : ℕ

-- `tags`
pub record Tag : Type 0 where
  pub id : ℕ
  pub name : Text

-- The tables, and the sequences of the two that the endpoints insert into.
pub record Library : Type 0 where
  pub albums : List Release
  pub tracks : List Release
  pub bands : List Band
  pub fan_items : List FanItem
  pub follows : List Follow
  pub blacklist : List Blocked
  pub likes : List Like
  pub album_supporters : List Link
  pub track_supporters : List Link
  pub album_tags : List Link
  pub track_tags : List Link
  pub band_tags : List Link
  pub tags : List Tag
  pub next_block_id : ℕ
  pub next_like_id : ℕ

-- `_scalar_set`: the values of a column without the missing ones. A set is a list, read only
-- through membership.
unfoldable pub scalar_set {ℓ} : {A : Type ℓ} → (A → Option ℕ) → List A → List ℕ
scalar_set column [] = []
scalar_set column (r ∷ rows) =
    let rest = scalar_set column rows in elim (column r) [ none ↦ rest | some n ↦ n ∷ rest ]

-- Membership of a value that may be missing: `None` is in no set of numbers.
abbrev pub opt_in : Option ℕ → List ℕ → Bool
opt_in none ns = false
opt_in (some n) ns = contains n ns
