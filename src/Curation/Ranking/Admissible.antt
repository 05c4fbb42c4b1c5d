-- ===== src/Curation/Ranking/Admissible.antt =====
-- Everything that `compute_recommendations` of backend/app/curation/engine.py returns may be shown.
use bandcamp_curate.Base.{
  inr, inl, ◌⊎◌, ℕ, zero, suc, Option, none, some, List, [], ◌∷◌, All, All-append, take, Bool-cases,
}
use bandcamp_curate.Curation.Tables.{Library, opt_in}
use bandcamp_curate.Curation.Scoring.{Floats, ScoredItem, Context, album, track}
use bandcamp_curate.Curation.Scoring.Bounds.{
  Admissible, score_candidates-Admissible, candidates-IsRelease,
}
use bandcamp_curate.Curation.Ranking.{
  score_albums, score_tracks, Request, contexts, ranks_before, place, sort_scored, keep_top,
  limited, score_all, add_seen, compute_recommendations,
}

module _ (fl : Floats) (P : ScoredItem fl → Type 0) where
  All-place :
      (s : ScoredItem fl) (ts : List (ScoredItem fl)) → P s → All P ts → All P (place fl s ts)
  unfolding place
  All-place s [] hs hts = (hs, tt)
  All-place s (t ∷ ts) hs hts = elim (Bool-cases (ranks_before fl t s)) [
    | inl h ↦ rw h (hts.0, All-place s ts hs hts.1)
    | inr h ↦ rw h (hs, hts)
  ]

  All-sort_scored : (ss : List (ScoredItem fl)) → All P ss → All P (sort_scored fl ss)
  unfolding sort_scored
  All-sort_scored [] h = tt
  All-sort_scored (s ∷ ss) h = All-place s (sort_scored fl ss) h.0 (All-sort_scored ss h.1)

  All-keep_top :
      (seen : List ℕ) (ss : List (ScoredItem fl)) → All P ss → All P (keep_top fl seen ss)
  unfolding keep_top
  All-keep_top seen [] h = tt
  All-keep_top seen (s ∷ ss) h =
      let ih = All-keep_top (add_seen s.band_id seen) ss h.1 in
      elim (Bool-cases (opt_in s.band_id seen)) [ inl e ↦ rw e ih | inr e ↦ rw e (h.0, ih) ]

  All-take : (n : ℕ) (ss : List (ScoredItem fl)) → All P ss → All P (take n ss)
  All-take zero ss h = tt
  All-take (suc n) [] h = tt
  All-take (suc n) (s ∷ ss) h = (h.0, All-take n ss h.1)

  All-limited :
      (limit : Option ℕ) (ss : List (ScoredItem fl)) → All P ss → All P (limited fl limit ss)
  unfolding limited
  All-limited none ss h = h
  All-limited (some zero) ss h = h
  All-limited (some (suc n)) ss h = All-take (suc n) ss h

  All-map :
      (Q : ScoredItem fl → Type 0)
      → ((s : ScoredItem fl) → Q s → P s)
      → (ss : List (ScoredItem fl)) → All Q ss
      → All P ss
  All-map Q f [] h = tt
  All-map Q f (s ∷ ss) h = (f s h.0, All-map Q f ss h.1)

-- A recommended album or track.
unfoldable pub Shown : (fl : Floats) → Context → Library → ScoredItem fl → Type 0
Shown fl ctx lib s =
    Admissible fl ctx album ctx.exclusions.album_ids lib.albums s
    ⊎ Admissible fl ctx track ctx.exclusions.track_ids lib.tracks s

score_albums-Shown :
    (fl : Floats) (q : Request) (lib : Library)
    → All (Shown fl (contexts q lib) lib) (score_albums fl q lib).0
unfolding score_albums Shown
score_albums-Shown fl q lib =
    All-map fl (Shown fl (contexts q lib) lib)
      (Admissible fl (contexts q lib) album (contexts q lib).exclusions.album_ids lib.albums)
      (λ s. inl) _
      (score_candidates-Admissible fl (contexts q lib) album (contexts q lib).exclusions.album_ids _
        _ lib.albums _ (candidates-IsRelease _ (λ i. i.album_id) lib.fan_items lib.albums))

score_tracks-Shown :
    (fl : Floats) (q : Request) (lib : Library)
    → All (Shown fl (contexts q lib) lib) (score_tracks fl q lib).0
unfolding score_tracks Shown
score_tracks-Shown fl q lib =
    All-map fl (Shown fl (contexts q lib) lib)
      (Admissible fl (contexts q lib) track (contexts q lib).exclusions.track_ids lib.tracks)
      (λ s. inr) _
      (score_candidates-Admissible fl (contexts q lib) track (contexts q lib).exclusions.track_ids _
        _ lib.tracks _ (candidates-IsRelease _ (λ i. i.track_id) lib.fan_items lib.tracks))

score_all-Shown :
    (fl : Floats) (q : Request) (lib : Library)
    → All (Shown fl (contexts q lib) lib) (score_all fl q lib).0
unfolding score_all
score_all-Shown fl q lib =
    All-append (Shown fl (contexts q lib) lib) (score_albums fl q lib).0 (score_tracks fl q lib).0
      (score_albums-Shown fl q lib) (score_tracks-Shown fl q lib)

pub compute_recommendations-Shown :
    (fl : Floats) (q : Request) (lib : Library)
    → All (Shown fl (contexts q lib) lib) (compute_recommendations fl q lib).0
unfolding compute_recommendations
compute_recommendations-Shown fl q lib =
    let P = Shown fl (contexts q lib) lib in
    let sorted = All-sort_scored fl P (score_all fl q lib).0 (score_all-Shown fl q lib) in
    All-limited fl P q.limit _ (elim (Bool-cases q.one_per_band) [
      | inl e ↦ rw e (All-keep_top fl P [] _ sorted)
      | inr e ↦ rw e sorted
    ])
