-- ===== src/Api/Feed/Fresh.antt =====
-- A client that holds a cached page asks with its tag (backend/app/api/feed.py,
-- backend/app/curation/generation.py).
use bandcamp_curate.Base.{
  ◌⊎◌, List, ok, ◌∙◌, ap, if◌then◌else◌, append-cancel, same_text_refl, ℕ, ◌+◌, Bool, true, false,
  some, ◌≡◌, codes, decimal, decimal-injective_within, Text, same_text, same_text_iff, contains,
  arith, Bool-cases, inl, inr,
}
use bandcamp_curate.Curation.Scoring.{Floats, ScoredItem}
use bandcamp_curate.Scans.Tables.{Scan, Store, get_scan}
use bandcamp_curate.Curation.Tables.{Blocked}
use bandcamp_curate.Api.Ownership.{user_scan_ids, in_band}
use bandcamp_curate.Api.Likes.{LikeIn, LikeOut, like, dismissed}
use bandcamp_curate.Api.Likes.Lasting.{like-Pruned}
use bandcamp_curate.Api.Blocks.{BlockIn, BlacklistOut, block_from}
use bandcamp_curate.Api.Blocks.Lasting.{block_from-Pruned}
use bandcamp_curate.Api.Ownership.Pruning.{Pruned}
use bandcamp_curate.Api.Feed.{Filters, Sort, generation_etag, scan_generation}
use bandcamp_curate.Api.Feed.Pages.{Response, respond, page, not_modified, page_of, matches}

-- Two tags of one scan are the same just if the generations are.
generation_etag-injective :
    (i g h : ℕ) → generation_etag (some i) g ≡ generation_etag (some i) h → g ≡ h
unfolding generation_etag
generation_etag-injective i g h e =
    decimal-injective_within (codes "-") 34 g h
      (append-cancel (decimal i) (append-cancel (codes "\"gen-") e))

generation_etag_changed :
    (i g : ℕ) → same_text (generation_etag (some i) g) (generation_etag (some i) (g + 1)) ≡ false
generation_etag_changed i g =
    elim (Bool-cases (same_text (generation_etag (some i) g) (generation_etag (some i) (g + 1)))) [
      | inr e ↦ e
      | inl e ↦ ground (
        arith,
        generation_etag-injective i g (g + 1)
            ((same_text_iff (generation_etag (some i) g) (generation_etag (some i) (g + 1))).0 e),
      )
    ]

module _ (fl : Floats) (fold : ℕ → ℕ) (round_2 : fl.F → fl.F) where
  -- What is sent for a scan at a generation, by whether the tag of the client is the scan's.
  abbrev pub sent : Filters → Sort → ℕ → ℕ → ℕ → ℕ → Bool → Store fl → Response fl fold round_2
  sent f sort i generation limit offset true st =
      page (generation_etag (some i) (generation + 1))
        (page_of fl fold round_2 f sort (some i) limit offset st)
  sent f sort i generation limit offset false st =
      not_modified (generation_etag (some i) generation)

  -- The answer to a tag, by the scan's generation and whether the tag is the scan's.
  answer_at : Filters → Sort → ℕ → ℕ → ℕ → ℕ → Bool → Store fl → Response fl fold round_2
  answer_at f sort i generation limit offset same st =
      if same
      then not_modified (generation_etag (some i) generation)
      else page (generation_etag (some i) generation)
          (page_of fl fold round_2 f sort (some i) limit offset st)

  respond-answer_at :
      (f : Filters) (sort : Sort) (t : Text) (i generation limit offset : ℕ) (same : Bool)
      (st : Store fl)
      → scan_generation (some i) st.scans ≡ generation
      → same_text t (generation_etag (some i) generation) ≡ same
      → respond fl fold round_2 f sort (some t) (some i) limit offset st
        ≡ answer_at f sort i generation limit offset same st
  unfolding respond matches answer_at
  respond-answer_at f sort t i generation limit offset same st now e =
      ap
        (λ g.
          if same_text t (generation_etag (some i) g)
          then not_modified (generation_etag (some i) g)
          else page (generation_etag (some i) g)
              (page_of fl fold round_2 f sort (some i) limit offset st))
        now
      ∙ ap (λ b. answer_at f sort i generation limit offset b st) e

  respond-Pruned :
      (user : ℕ) (test : ScoredItem fl → Bool) (i : ℕ) (s : Scan) (st st' : Store fl) (f : Filters)
      (sort : Sort) (limit offset : ℕ)
      → get_scan i st.scans ≡ some s
      → Pruned user test i st st'
      → respond fl fold round_2 f sort
          (some (generation_etag (some i) s.recompute_generation))
          (some i)
          limit
          offset
          st'
        ≡ sent f sort i s.recompute_generation limit offset
            (contains i (user_scan_ids user st.scans))
            st'
  unfolding Pruned answer_at scan_generation
  respond-Pruned user test i s st st' f sort limit offset here changed =
      let g = s.recompute_generation in
      elim (Bool-cases (contains i (user_scan_ids user st.scans))) [
        | inl own ↦ rw own (
            respond-answer_at f sort (generation_etag (some i) g) i (g + 1) limit offset false st'
              (ground (arith, changed.1, here, own)) (generation_etag_changed i g))
        | inr other ↦ rw other (
            respond-answer_at f sort (generation_etag (some i) g) i g limit offset true st'
              (ground (arith, changed.1, here, other))
              (same_text_refl (generation_etag (some i) g)))
      ]

  -- What a like or a block of a user leaves, when it is answered.
  abbrev pub Answered : ℕ → Store fl → Store fl → Type 0
  Answered user st st' =
      ((p : LikeIn) × (out : LikeOut) × ((like user p st).0 ≡ ok out) × (st' ≡ (like user p st).1))
      ⊎ ((now : ℕ) × (p : BlockIn) × (read : List Blocked) × (out : BlacklistOut) × ((block_from now
              user p read st).0
            ≡ ok out)
          × (st' ≡ (block_from now user p read st).1))

  Answered-Pruned :
      (user i : ℕ) (st st' : Store fl)
      → Answered user st st'
      → (test : ScoredItem fl → Bool) × Pruned user test i st st'
  Answered-Pruned user i st st' (inl (p, out, h, left)) =
      (dismissed p st.library, rw left (like-Pruned user p i st out h))
  Answered-Pruned user i st st' (inr (now, p, read, out, h, left)) =
      (in_band p.band_id st.library, rw left (block_from-Pruned now user p read i st out h))

  -- When a like of a user is answered, or a block, whatever rows its query saw: a client that asks
  -- for a scan of the user with the tag that it got before is sent the rows as they are now, with
  -- another tag; a client that asks for a scan that is not the user's is still told that nothing has
  -- changed.
  pub respond-Answered :
      (user i : ℕ) (s : Scan) (st st' : Store fl) (f : Filters) (sort : Sort) (limit offset : ℕ)
      → get_scan i st.scans ≡ some s
      → Answered user st st'
      → respond fl fold round_2 f sort
          (some (generation_etag (some i) s.recompute_generation))
          (some i)
          limit
          offset
          st'
        ≡ sent f sort i s.recompute_generation limit offset
            (contains i (user_scan_ids user st.scans))
            st'
  respond-Answered user i s st st' f sort limit offset here answered =
      let (test, changed) = Answered-Pruned user i st st' answered in
      respond-Pruned user test i s st st' f sort limit offset here changed
