-- ===== src/Curation/Ranking/Excluded.antt =====
-- What the excluded bands of a user mean for the user's rankings (backend/app/curation/engine.py).
use bandcamp_curate.Base.{
  ℕ, true, false, ◌||◌, Option, none, some, List, ◌++◌, ◌≡◌, refl, ◌==◌, ==_iff, ◌⊎◌, inl, inr,
  any-append, contains, opt_is, where_rows, All, All-weaken, arith,
}
use bandcamp_curate.Curation.Tables.{Follow, Blocked, Library, scalar_set, opt_in}
use bandcamp_curate.Curation.Exclusions.{my_blocks, liked_bands, build_exclusions}
use bandcamp_curate.Curation.Scoring.{Floats, ScoredItem}
use bandcamp_curate.Curation.Scoring.Bounds.{Admissible}
use bandcamp_curate.Curation.Ranking.{Request, contexts, compute_recommendations}
use bandcamp_curate.Curation.Ranking.Admissible.{Shown, compute_recommendations-Shown}

contains-part :
    (n : ℕ) (ws xs ys zs : List ℕ)
    → (contains n xs || (contains n ys || contains n zs)) ≡ true
    → contains n (ws ++ (xs ++ (ys ++ zs))) ≡ true
contains-part n ws xs ys zs h = ground (
  arith,
  any-append (λ m. m == n) ws (xs ++ (ys ++ zs)),
  any-append (λ m. m == n) xs (ys ++ zs),
  any-append (λ m. m == n) ys zs,
)

-- A band is excluded where it is blocked or where a liked album or track is the band's.
pub build_exclusions-band :
    (now me user : ℕ) (lib : Library) (band : ℕ)
    → (contains band (scalar_set (λ (b : Blocked). b.band_id) (my_blocks now user lib)) ≡ true)
      ⊎ ((contains band (liked_bands (λ l. l.album_id) user lib.likes lib.albums) ≡ true)
          ⊎ (contains band (liked_bands (λ l. l.track_id) user lib.likes lib.tracks) ≡ true))
    → contains band (build_exclusions now me user lib).band_ids ≡ true
unfolding build_exclusions
build_exclusions-band now me user lib band h =
    contains-part band
      (scalar_set (λ (f : Follow). some f.band_id) (where_rows (λ f. f.fan_id == me) lib.follows))
      (scalar_set (λ (b : Blocked). b.band_id) (my_blocks now user lib))
      (liked_bands (λ l. l.album_id) user lib.likes lib.albums)
      (liked_bands (λ l. l.track_id) user lib.likes lib.tracks) (ground arith)

-- An item of no band of a list.
excluded-band :
    (band : ℕ) (bands : List ℕ) (o : Option ℕ)
    → contains band bands ≡ true
    → opt_in o bands ≡ false
    → opt_is o band ≡ false
excluded-band band bands none inside outside = refl
excluded-band band bands (some n) inside outside = ground (arith, ==_iff n band)

-- A user's later rankings have no item of a band that is excluded.
pub compute_recommendations-without :
    (fl : Floats) (q : Request) (lib : Library) (band : ℕ)
    → contains band (build_exclusions q.now q.me q.user lib).band_ids ≡ true
    → All
        (λ (s : ScoredItem fl). opt_is s.band_id band ≡ false)
        (compute_recommendations fl q lib).0
unfolding Shown Admissible contexts
compute_recommendations-without fl q lib band inside =
    All-weaken (Shown fl (contexts q lib) lib) (λ s. opt_is s.band_id band ≡ false)
      (λ s shown. elim shown [
        | inl a ↦ excluded-band band _ s.band_id inside a.3
        | inr t ↦ excluded-band band _ s.band_id inside t.3
      ])
      (compute_recommendations fl q lib).0 (compute_recommendations-Shown fl q lib)
