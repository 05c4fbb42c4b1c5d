-- ===== src/Api/Scans/Deletion.antt =====
-- What the deletion of a scan leaves (backend/app/api/scans.py).
use bandcamp_curate.Base.{
  ℕ, Bool, true, false, not, Option, none, some, List, [], ◌∷◌, ◌≡◌, refl, ◌==◌, ◌⊎◌, inl, inr, All,
  where_rows, opt_is, Result, ok, raise, Error, not_found, unsupported, arith, Bool-cases,
}
use bandcamp_curate.Frontier.Tables.{Entry}
use bandcamp_curate.Crawl.Database.{Usage}
use bandcamp_curate.Curation.Scoring.{Floats}
use bandcamp_curate.Scans.Tables.{Scan, Store, get_scan}
use bandcamp_curate.Scans.Curate.{of_scan}
use bandcamp_curate.Api.Feed.{is_collection}
use bandcamp_curate.Api.Scans.{delete_found, rec_of, drop_scan, delete_scan}

All-where_rows-not {ℓ} :
    {A : Type ℓ} (test : A → Bool) (xs : List A)
    → All (λ x. test x ≡ false) (where_rows (λ x. not (test x)) xs)
All-where_rows-not test [] = tt
All-where_rows-not test (x ∷ xs) = elim (Bool-cases (test x)) [
  | inl e ↦ rw e (All-where_rows-not test xs)
  | inr e ↦ rw e (e, All-where_rows-not test xs)
]

where_rows-where_rows {ℓ} :
    {A : Type ℓ} (test other : A → Bool) (xs : List A)
    → ((x : A) → other x ≡ true → test x ≡ false)
    → where_rows other (where_rows (λ x. not (test x)) xs) ≡ where_rows other xs
where_rows-where_rows test other [] apart = refl
where_rows-where_rows test other (x ∷ xs) apart =
    ground (arith, where_rows-where_rows test other xs apart, λ (e : other x ≡ true). apart x e)

abbrev pub entry_of : ℕ → Entry → Bool
entry_of scan_id e = e.scan_id == scan_id

abbrev pub usage_of : ℕ → Usage → Bool
usage_of scan_id u = opt_is u.scan_id scan_id

usage_apart : (i j : ℕ) (o : Option ℕ) → (i == j) ≡ false → opt_is o j ≡ true → opt_is o i ≡ false
usage_apart i j none apart h = refl
usage_apart i j (some n) apart h = ground (arith, apart, h)

module _ {fl : Floats} where
  -- No row of any table is the scan's.
  unfoldable pub Absent : ℕ → Store fl → Type 0
  Absent i st =
      All (λ (s : Scan). (s.id == i) ≡ false) st.scans
      × All (λ r. rec_of i r ≡ false) st.recommendations
      × All (λ e. entry_of i e ≡ false) st.frontier.rows
      × All (λ u. usage_of i u ≡ false) st.usage
      × All (λ s. of_scan i s ≡ false) st.seeds

  -- The rows of a scan in every table are the same.
  unfoldable pub Kept : ℕ → Store fl → Store fl → Type 0
  Kept j st st' =
      (where_rows (λ (s : Scan). s.id == j) st'.scans ≡ where_rows (λ s. s.id == j) st.scans)
      × (where_rows (rec_of j) st'.recommendations ≡ where_rows (rec_of j) st.recommendations)
      × (where_rows (entry_of j) st'.frontier.rows ≡ where_rows (entry_of j) st.frontier.rows)
      × (where_rows (usage_of j) st'.usage ≡ where_rows (usage_of j) st.usage)
      × (where_rows (of_scan j) st'.seeds ≡ where_rows (of_scan j) st.seeds)

  drop_scan-Absent : (i : ℕ) (st : Store fl) → Absent i (drop_scan i st)
  unfolding Absent drop_scan
  drop_scan-Absent i st = (
    All-where_rows-not (λ (s : Scan). s.id == i) st.scans,
    All-where_rows-not (rec_of i) st.recommendations,
    All-where_rows-not (entry_of i) st.frontier.rows,
    All-where_rows-not (usage_of i) st.usage,
    All-where_rows-not (of_scan i) st.seeds,
  )

  drop_scan-Kept : (i j : ℕ) (st : Store fl) → (i == j) ≡ false → Kept j st (drop_scan i st)
  unfolding Kept drop_scan
  drop_scan-Kept i j st apart = (
    where_rows-where_rows (λ (s : Scan). s.id == i) (λ s. s.id == j) st.scans
        (λ s h. ground (arith, apart, h)),
    where_rows-where_rows (rec_of i) (rec_of j) st.recommendations
        (λ r h. ground (arith, apart, h)),
    where_rows-where_rows (entry_of i) (entry_of j) st.frontier.rows
        (λ e h. ground (arith, apart, h)),
    where_rows-where_rows (usage_of i) (usage_of j) st.usage
        (λ u h. usage_apart i j u.scan_id apart h),
    where_rows-where_rows (of_scan i) (of_scan j) st.seeds (λ s h. ground (arith, apart, h)),
  )

  unchanged : (j : ℕ) (st : Store fl) → Kept j st st
  unfolding Kept
  unchanged j st = (refl, refl, refl, refl, refl)

  -- What a deletion may end with.
  unfoldable pub Deleted : ℕ → Store fl → Result ℕ × Store fl → Type 0
  Deleted i st out =
      (out.0 ≡ ok i) × Absent i out.1 ⊎ ((e : Error) × (out.0 ≡ raise e) × (out.1 ≡ st))

  delete_found-Deleted :
      (i j user : ℕ) (found : Option Scan) (st : Store fl)
      → (i == j) ≡ false
      → Deleted i st (delete_found i user found st) × Kept j st (delete_found i user found st).1
  unfolding delete_found Deleted
  delete_found-Deleted i j user none st apart = (inr (not_found, refl, refl), unchanged j st)
  delete_found-Deleted i j user (some s) st apart = elim (Bool-cases (s.user_id == user)) [
    | inr f ↦ rw f (inr (not_found, refl, refl), unchanged j st)
    | inl f ↦ elim (Bool-cases (is_collection s.kind)) [
      | inl c ↦ rw (f, c) (inr (unsupported, refl, refl), unchanged j st)
      | inr c ↦ rw (f, c) (inl (refl, drop_scan-Absent i st), drop_scan-Kept i j st apart)
    ]
  ]

  -- A deletion of a scan is refused and changes nothing, or no row of any table is the scan's any
  -- more; either way the rows of every other scan are in every table as they were.
  pub delete_scan-Deleted :
      (i j user : ℕ) (st : Store fl)
      → (i == j) ≡ false
      → Deleted i st (delete_scan i user st) × Kept j st (delete_scan i user st).1
  unfolding delete_scan
  delete_scan-Deleted i j user st apart =
      delete_found-Deleted i j user (get_scan i st.scans) st apart
