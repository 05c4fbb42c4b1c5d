-- ===== src/Curation/Ranking/Descending.antt =====
-- The order of the ranking (backend/app/curation/engine.py) by the score alone.
use bandcamp_curate.Base.{
  ℕ, zero, suc, true, false, Option, none, some, List, [], ◌∷◌, ◌≡◌, take, All, All-weaken, arith,
  Bool-cases, inl, inr,
}
use bandcamp_curate.Curation.Tables.{Library, opt_in}
use bandcamp_curate.Curation.Scoring.{Floats, ScoredItem}
use bandcamp_curate.Curation.Ranking.{
  Request, ranks_before, place, sort_scored, add_seen, keep_top, limited, score_all,
  compute_recommendations,
}

-- What `<` is on floats that are no NaN: no two are below each other, and who is not below a float
-- that is not below a third is not below the third.
pub record IsOrder (fl : Floats) : Type 0 where
  pub asym : (a b : fl.F) → fl.less a b ≡ true → fl.less b a ≡ false
  pub trans : (a b c : fl.F) → fl.less a b ≡ false → fl.less b c ≡ false → fl.less a c ≡ false

-- No item has a lower score than one behind it.
unfoldable pub Descends : (fl : Floats) → List (ScoredItem fl) → Type 0
Descends fl [] = Unit
Descends fl (s ∷ ss) =
    All (λ (t : ScoredItem fl). fl.less s.score t.score ≡ false) ss × Descends fl ss

All-keep_top :
    (fl : Floats) (P : ScoredItem fl → Type 0) (seen : List ℕ) (ss : List (ScoredItem fl))
    → All P ss
    → All P (keep_top fl seen ss)
unfolding keep_top
All-keep_top fl P seen [] h = tt
All-keep_top fl P seen (s ∷ ss) h =
    let rest = All-keep_top fl P (add_seen s.band_id seen) ss h.1 in
    elim (Bool-cases (opt_in s.band_id seen)) [ inl e ↦ rw e rest | inr e ↦ rw e (h.0, rest) ]

keep_top-Descends :
    (fl : Floats) (seen : List ℕ) (ss : List (ScoredItem fl))
    → Descends fl ss
    → Descends fl (keep_top fl seen ss)
unfolding keep_top Descends
keep_top-Descends fl seen [] h = tt
keep_top-Descends fl seen (s ∷ ss) h =
    let seen' = add_seen s.band_id seen in
    let rest = keep_top-Descends fl seen' ss h.1 in
    elim (Bool-cases (opt_in s.band_id seen)) [
      | inl e ↦ rw e rest
      | inr e ↦ rw e (
        All-keep_top fl (λ (t : ScoredItem fl). fl.less s.score t.score ≡ false) seen' ss h.0,
        rest,
      )
    ]

All-take : {A : Type 0} (P : A → Type 0) (n : ℕ) (xs : List A) → All P xs → All P (take n xs)
All-take P zero xs h = tt
All-take P (suc n) [] h = tt
All-take P (suc n) (x ∷ xs) h = (h.0, All-take P n xs h.1)

take-Descends :
    (fl : Floats) (n : ℕ) (ss : List (ScoredItem fl)) → Descends fl ss → Descends fl (take n ss)
unfolding Descends
take-Descends fl zero ss h = tt
take-Descends fl (suc n) [] h = tt
take-Descends fl (suc n) (s ∷ ss) h = (
  All-take (λ (t : ScoredItem fl). fl.less s.score t.score ≡ false) n ss h.0,
  take-Descends fl n ss h.1,
)

limited-Descends :
    (fl : Floats) (limit : Option ℕ) (ss : List (ScoredItem fl))
    → Descends fl ss
    → Descends fl (limited fl limit ss)
unfolding limited
limited-Descends fl none ss h = h
limited-Descends fl (some zero) ss h = h
limited-Descends fl (some (suc n)) ss h = take-Descends fl (suc n) ss h

All-place :
    (fl : Floats) (P : ScoredItem fl → Type 0) (s : ScoredItem fl) (ts : List (ScoredItem fl))
    → P s
    → All P ts
    → All P (place fl s ts)
unfolding place
All-place fl P s [] p h = (p, tt)
All-place fl P s (t ∷ ts) p h = elim (Bool-cases (ranks_before fl t s)) [
  | inl e ↦ rw e (h.0, All-place fl P s ts p h.1)
  | inr e ↦ rw e (p, h)
]

module _ (fl : Floats) (o : IsOrder fl) where
  -- Who ranks before an item has no lower score, and who does not has no higher one.
  ranks_before-less :
      (t s : ScoredItem fl) → ranks_before fl t s ≡ true → fl.less t.score s.score ≡ false
  unfolding ranks_before
  ranks_before-less t s h = ground (arith, h, o.asym s.score t.score)

  ranks_before-not_less :
      (t s : ScoredItem fl) → ranks_before fl t s ≡ false → fl.less s.score t.score ≡ false
  unfolding ranks_before
  ranks_before-not_less t s h = ground (arith, h)

  place-Descends :
      (s : ScoredItem fl) (ts : List (ScoredItem fl)) → Descends fl ts → Descends fl (place fl s ts)
  unfolding place Descends
  place-Descends s [] h = (tt, tt)
  place-Descends s (t ∷ ts) h = elim (Bool-cases (ranks_before fl t s)) [
    | inl e ↦ rw e (
      All-place fl (λ (u : ScoredItem fl). fl.less t.score u.score ≡ false) s ts
          (ranks_before-less t s e) h.0,
      place-Descends s ts h.1,
    )
    | inr e ↦
        let top = ranks_before-not_less t s e in
        let below =
          All-weaken (λ (u : ScoredItem fl). fl.less t.score u.score ≡ false)
            (λ (u : ScoredItem fl). fl.less s.score u.score ≡ false)
            (λ u. o.trans s.score t.score u.score top) ts h.0 in
        rw e ((top, below), h)
  ]

  sort_scored-Descends : (ss : List (ScoredItem fl)) → Descends fl (sort_scored fl ss)
  unfolding sort_scored Descends
  sort_scored-Descends [] = tt
  sort_scored-Descends (s ∷ ss) = place-Descends s (sort_scored fl ss) (sort_scored-Descends ss)

  -- In a ranking no item has a lower score than one behind it, also after one item per band and the
  -- limit.
  pub compute_recommendations-Descends :
      (q : Request) (lib : Library) → Descends fl (compute_recommendations fl q lib).0
  unfolding compute_recommendations
  compute_recommendations-Descends q lib =
      let sorted = sort_scored fl (score_all fl q lib).0 in
      let down = sort_scored-Descends (score_all fl q lib).0 in
      elim (Bool-cases q.one_per_band) [
        | inl e ↦ rw e (
            limited-Descends fl q.limit (keep_top fl [] sorted)
              (keep_top-Descends fl [] sorted down))
        | inr e ↦ rw e (limited-Descends fl q.limit sorted down)
      ]
