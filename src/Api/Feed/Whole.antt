-- ===== src/Api/Feed/Whole.antt =====
-- The pages of a feed are the feed (backend/app/api/feed.py).
use bandcamp_curate.Base.{
  ℕ, zero, suc, ◌+◌, ◌*◌, ◌≤◌, Option, List, [], ◌∷◌, ◌++◌, ◌≡◌, refl, ◌∙◌, sym, ap, subst, length,
  length-where_rows, take, where_rows, count_rows, ok, arith,
}
use bandcamp_curate.Curation.Tables.{Library}
use bandcamp_curate.Curation.Scoring.{Floats}
use bandcamp_curate.Scans.Tables.{Recommendation, Store}
use bandcamp_curate.Api.Feed.{
  Filters, Sort, resolve_scan_id, scan_generation, selected, place_row, order_rows,
  recommendations_count,
}
use bandcamp_curate.Api.Feed.Pages.{drop, ranked, row_out, feed_rows, page_of, RecommendationOut}

append_nil {ℓ} : {A : Type ℓ} (xs : List A) → xs ++ [] ≡ xs
append_nil [] = refl
append_nil (x ∷ xs) = ap (λ ys. x ∷ ys) (append_nil xs)

drop_nil {ℓ} : {A : Type ℓ} (n : ℕ) → drop {A = A} n [] ≡ []
drop_nil zero = refl
drop_nil (suc n) = refl

take_nil {ℓ} : {A : Type ℓ} (n : ℕ) → take {A = A} n [] ≡ []
take_nil zero = refl
take_nil (suc n) = refl

zero_plus : (n : ℕ) → 0 + n ≡ n
zero_plus n = omega arith

plus_zero : (n : ℕ) → n + 0 ≡ n
plus_zero n = omega arith

suc_plus : (m n : ℕ) → suc m + n ≡ suc (m + n)
suc_plus m n = omega arith

plus_suc : (m n : ℕ) → m + suc n ≡ m + 1 + n
plus_suc m n = omega arith

zero_times : (n : ℕ) → 0 * n ≡ 0
zero_times n = omega arith

suc_times : (k n : ℕ) → suc k * n ≡ k * n + n
suc_times k n = ground arith

drop-drop {ℓ} : {A : Type ℓ} (m n : ℕ) (xs : List A) → drop n (drop m xs) ≡ drop (m + n) xs
drop-drop zero n xs = rw (zero_plus n) refl
drop-drop (suc m) n [] = rw (suc_plus m n) (drop_nil n)
drop-drop (suc m) n (x ∷ xs) = rw (suc_plus m n) (drop-drop m n xs)

take_all {ℓ} : {A : Type ℓ} (n : ℕ) (xs : List A) → length xs ≤ n → take n xs ≡ xs
take_all zero [] h = refl
take_all zero (x ∷ xs) h = ground arith
take_all (suc n) [] h = refl
take_all (suc n) (x ∷ xs) h = ap (λ ys. x ∷ ys) (take_all n xs (omega (arith, h)))

module _ (fl : Floats) (fold : ℕ → ℕ) (round_2 : fl.F → fl.F) where
  length-place_row :
      (sort : Sort) (r : Recommendation fl) (rows : List (Recommendation fl))
      → length (place_row sort r rows) ≡ suc (length rows)
  unfolding place_row
  length-place_row sort r [] = refl
  length-place_row sort r (s ∷ rows) = ground (arith, length-place_row sort r rows)

  length-order_rows :
      (sort : Sort) (rows : List (Recommendation fl)) → length (order_rows sort rows) ≡ length rows
  unfolding order_rows
  length-order_rows sort [] = refl
  length-order_rows sort (r ∷ rows) =
      ground (arith, length-place_row sort r (order_rows sort rows), length-order_rows sort rows)

  length-ranked :
      (lib : Library) (generation offset : ℕ) (rows : List (Recommendation fl))
      → length (ranked fl fold round_2 lib generation offset rows) ≡ length rows
  unfolding ranked
  length-ranked lib generation offset [] = refl
  length-ranked lib generation offset (r ∷ rows) =
      ground (arith, length-ranked lib generation (offset + 1) rows)

  -- A page of `m + n` rows is a page of `m` and the page of `n` after it.
  ranked-split :
      (lib : Library) (generation offset m n : ℕ) (rows : List (Recommendation fl))
      → ranked fl fold round_2 lib generation offset (take (m + n) rows)
        ≡ ranked fl fold round_2 lib generation offset (take m rows)
          ++ ranked fl fold round_2 lib generation (offset + m) (take n (drop m rows))
  unfolding ranked
  ranked-split lib generation offset zero n rows = rw (zero_plus n, plus_zero offset) refl
  ranked-split lib generation offset (suc m) n [] = rw (suc_plus m n, take_nil n) refl
  ranked-split lib generation offset (suc m) n (r ∷ rows) =
      rw (suc_plus m n, plus_suc offset m)
        (ap (λ ys. row_out fl fold round_2 lib generation (offset + 1) r.item ∷ ys)
          (ranked-split lib generation (offset + 1) m n rows))

  ranked-split_first :
      (lib : Library) (generation m n : ℕ) (rows : List (Recommendation fl))
      → ranked fl fold round_2 lib generation 0 (take (m + n) rows)
        ≡ ranked fl fold round_2 lib generation 0 (take m rows)
          ++ ranked fl fold round_2 lib generation m (take n (drop m rows))
  ranked-split_first lib generation m n rows =
      subst
        (λ z.
          ranked fl fold round_2 lib generation 0 (take (m + n) rows)
          ≡ ranked fl fold round_2 lib generation 0 (take m rows)
            ++ ranked fl fold round_2 lib generation z (take n (drop m rows)))
        (zero_plus m) (ranked-split lib generation 0 m n rows)

  -- The first `k` pages of `n` rows, one after the other.
  unfoldable pub pages :
      Filters → Sort → Option ℕ → ℕ → ℕ → Store fl → List (RecommendationOut fl fold round_2)
  unfolding page_of
  pages f sort sid n zero st = []
  pages f sort sid n (suc k) st =
      pages f sort sid n k st ++ page_of fl fold round_2 f sort sid n (k * n) st

  pages-page_of :
      (f : Filters) (sort : Sort) (sid : Option ℕ) (n k : ℕ) (st : Store fl)
      → pages f sort sid n k st ≡ page_of fl fold round_2 f sort sid (k * n) 0 st
  unfolding pages page_of ranked
  pages-page_of f sort sid n zero st = rw (zero_times n) refl
  pages-page_of f sort sid n (suc k) st =
      rw (suc_times k n, pages-page_of f sort sid n k st)
        (sym (
          ranked-split_first st.library (scan_generation sid st.scans) (k * n) n
            (feed_rows fl fold round_2 f sort sid st)))

  length-feed_rows :
      (user : ℕ) (f : Filters) (sort : Sort) (scan_id sid : Option ℕ) (c : ℕ) (st : Store fl)
      → resolve_scan_id user scan_id st.scans ≡ ok sid
      → recommendations_count fold user f scan_id st ≡ ok c
      → length (feed_rows fl fold round_2 f sort sid st) ≡ c
  unfolding feed_rows recommendations_count
  length-feed_rows user f sort scan_id sid c st resolved counted =
      let test = selected {fl = fl} fold f sid st.library in
      let counts : count_rows test st.recommendations ≡ c = ground (arith, counted, resolved) in
      ground (
        arith,
        counts,
        length-order_rows sort (where_rows test st.recommendations),
        length-where_rows test st.recommendations,
      )

  -- A user who reads the pages of a feed one after the other until the number that the count gives
  -- is reached has read the feed: every selected row once, in the order of the feed, with the ranks
  -- from 1 on, and as many rows as the count says.
  pub pages_whole :
      (user : ℕ) (f : Filters) (sort : Sort) (scan_id sid : Option ℕ) (n k c : ℕ) (st : Store fl)
      → resolve_scan_id user scan_id st.scans ≡ ok sid
      → recommendations_count fold user f scan_id st ≡ ok c
      → c ≤ k * n
      → (pages f sort sid n k st
          ≡ ranked fl fold round_2 st.library
              (scan_generation sid st.scans)
              0
              (feed_rows fl fold round_2 f sort sid st))
        × (length (pages f sort sid n k st) ≡ c)
  unfolding page_of
  pages_whole user f sort scan_id sid n k c st resolved counted enough =
      let rows = feed_rows fl fold round_2 f sort sid st in
      let long : length rows ≡ c = length-feed_rows user f sort scan_id sid c st resolved counted in
      let all : take (k * n) rows ≡ rows = take_all (k * n) rows (rw long enough) in
      rw (pages-page_of f sort sid n k st, all)
        (refl, length-ranked st.library (scan_generation sid st.scans) 0 rows ∙ long)
