-- ===== src/Frontier/Rows.antt =====
-- Facts on rows by id and by key, for the proofs about backend/app/crawl/frontier.py.
use bandcamp_curate.Base.{
  ℕ, ◌≡◌, refl, Bool, true, none, List, [], ◌∷◌, arith, ◌==◌, if◌then◌else◌, Text, same_text,
  same_text_iff, find, count_rows,
}
use mathlib.Core.Option
use bandcamp_curate.Frontier.Tables.{
  CrawlKind, Entry, KeepsKey, has_key, same_kind, get_by_id, update_row,
}

pub same_kind_symm : (j k : CrawlKind) → same_kind j k ≡ same_kind k j
unfolding same_kind
same_kind_symm j k = ground arith

pub same_kind→≡ : (j k : CrawlKind) → same_kind j k ≡ true → j ≡ k
unfolding same_kind
same_kind→≡ j k h = ground arith

pub same_kind_refl : (k : CrawlKind) → same_kind k k ≡ true
unfolding same_kind
same_kind_refl k = ground arith

pub same_text_symm : (s t : Text) → same_text s t ≡ same_text t s
same_text_symm s t = ground (arith, same_text_iff s t, same_text_iff t s)

-- The key test of one row at the key of another.
abbrev pub same_key : Entry → Entry → Bool
same_key a b = has_key a.scan_id a.url a.kind b

pub same_key_symm : (a b : Entry) → same_key a b ≡ same_key b a
unfolding has_key
same_key_symm a b = ground (arith, same_text_symm a.url b.url, same_kind_symm a.kind b.kind)

module _ (f : Entry → Entry) (k : KeepsKey f) where
  -- A read by id after an update by id.
  pub get_by_id-update_row :
      (i j : ℕ) (rows : List Entry)
      → get_by_id i (update_row j f rows)
        ≡ (if i == j then Option.map f (get_by_id i rows) else get_by_id i rows)
  unfolding get_by_id update_row
  get_by_id-update_row i j [] = ground arith
  get_by_id-update_row i j (e ∷ rows) = ground (arith, get_by_id-update_row i j rows, k.id_kept e)

  -- The key tests do not see an update.
  pub find_key-update_row :
      (s : ℕ) (u : Text) (c : CrawlKind) (j : ℕ) (rows : List Entry)
      → find (has_key s u c) rows ≡ none
      → find (has_key s u c) (update_row j f rows) ≡ none
  unfolding update_row has_key
  find_key-update_row s u c j [] h = refl
  find_key-update_row s u c j (e ∷ rows) h =
      ground (arith, find_key-update_row s u c j rows, k.scan_kept e, k.url_kept e, k.kind_kept e)

  pub get_none-update_row :
      (i j : ℕ) (rows : List Entry)
      → get_by_id i rows ≡ none
      → get_by_id i (update_row j f rows) ≡ none
  unfolding get_by_id
  get_none-update_row i j rows h = ground (arith, get_by_id-update_row i j rows)

  pub size-update_row :
      (s j : ℕ) (rows : List Entry)
      → count_rows (λ e. e.scan_id == s) (update_row j f rows)
        ≡ count_rows (λ e. e.scan_id == s) rows
  unfolding update_row
  size-update_row s j [] = refl
  size-update_row s j (e ∷ rows) = ground (arith, size-update_row s j rows, k.scan_kept e)
