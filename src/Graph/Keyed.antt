-- ===== src/Graph/Keyed.antt =====
-- Tables with a unique key and an id from a sequence, and tables of edges: the check-then-insert of
-- backend/app/bandcamp/mapper.py (`_insert_or_reselect`, `_add_edge_or_false`). What other workers
-- commit between the SELECT and the INSERT is the argument `others`.
pub mod Laws
use bandcamp_curate.Base.{
  ℕ, suc, Bool, true, false, none, some, List, [], ◌∷◌, ◌++◌, if◌then◌else◌, find, any,
}

pub record Keyed (A : Type 0) : Type 0 where
  pub rows : List A
  pub next_id : ℕ

module _ {A : Type 0} where
  -- A change of the row that the SELECT returned.
  unfoldable pub update_first : (A → Bool) → (A → A) → List A → List A
  update_first is_key f [] = []
  update_first is_key f (r ∷ rows) =
      let rest = update_first is_key f rows in if is_key r then f r ∷ rows else r ∷ rest

  -- `_insert_or_reselect`, where the key that it selects by is the only unique one: the insert fails
  -- where the key is taken, and then the row is there to select. The row, the table and whether the
  -- row is new.
  unfoldable pub insert_or_reselect : (A → Bool) → (ℕ → A) → Keyed A → A × Keyed A
  insert_or_reselect is_key build k = elim (find is_key k.rows) [
    | some r ↦ (r, k)
    | none ↦ (
      build k.next_id,
      record k { rows = k.rows ++ build k.next_id ∷ []; next_id = suc k.next_id },
    )
  ]

  -- A `get_or_create_…`: an existing row is enriched.
  unfoldable pub get_or_create :
      (A → Bool) → (A → A) → (ℕ → A) → (Keyed A → Keyed A) → Keyed A → A × Keyed A
  unfolding update_first insert_or_reselect
  get_or_create is_key enrich build others k = elim (find is_key k.rows) [
    | some r ↦ (enrich r, record k { rows = update_first is_key enrich k.rows })
    | none ↦ insert_or_reselect is_key build (others k)
  ]

  -- `_add_edge_or_false` after the SELECT that found no edge: the insert fails where another worker
  -- has added it.
  unfoldable pub add_edge_or_false : (A → Bool) → A → List A → Bool × List A
  add_edge_or_false is_edge edge rows =
      if any is_edge rows then (false, rows) else (true, rows ++ edge ∷ [])

  -- An edge is added if it is absent.
  unfoldable pub add_edge : (A → Bool) → A → (List A → List A) → List A → Bool × List A
  unfolding add_edge_or_false
  add_edge is_edge edge others rows =
      if any is_edge rows then (false, rows) else add_edge_or_false is_edge edge (others rows)
