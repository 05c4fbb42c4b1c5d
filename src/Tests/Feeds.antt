-- ===== src/Tests/Feeds.antt =====
-- A user who reads the feed, and the theorems on backend/app/api/feed.py for that user.
use bandcamp_curate.Base.{
  inl, ℕ, ◌+◌, ◌&&◌, ◌≡◌, refl, false, none, some, [], ◌∷◌, ◌==◌, leb, if◌then◌else◌, codes, length,
  contains, Result, ok, raise, integrity, arith,
}
use bandcamp_curate.Api.Ownership.{user_scan_ids}
use bandcamp_curate.Api.Likes.{like}
use bandcamp_curate.Api.Patterns.{substring_pattern, any_end, ilike}
use bandcamp_curate.Api.Patterns.Literal.{begins_with, ilike-substring_pattern}
use bandcamp_curate.Api.Feed.{
  Filters, Sort, resolve_scan_id, recommendations_count, scan_generation, generation_etag,
}
use bandcamp_curate.Api.Feed.Pages.{ranked, feed_rows, respond}
use bandcamp_curate.Api.Feed.Whole.{pages, pages_whole}
use bandcamp_curate.Api.Feed.Fresh.{sent, respond-Answered}
use bandcamp_curate.Api.Recompute.{
  computed, foreign_scan, cooling, last_of, is_value_error, recompute,
}
use bandcamp_curate.Api.Recompute.Cooldown.{
  Call, Refused, run_calls, stamps_of, recompute-Refused, recompute_failures,
}
use bandcamp_curate.Scans.Tables.{Store, get_scan}
use bandcamp_curate.Tests.Ranks.{whole}
use bandcamp_curate.Tests.Feedback.{store, scan_of, liked_album, like_out, like_works}

abbrev every : Filters
every = record {
  item_type = none;
  tag = [];
  exclude_tag = [];
  tag_contains = [];
  exclude_tag_contains = [];
  label_id = [];
  exclude_label_id = [];
}

-- Upper-case letters are folded to lower case.
abbrev fold : ℕ → ℕ
fold c = if leb 65 c && leb c 90 then c + 32 else c

abbrev same : ℕ → ℕ
same n = n

resolves : resolve_scan_id 9 (some 1) store.scans ≡ ok (some 1)
unfolding resolve_scan_id
resolves = refl

counts : recommendations_count fold 9 every (some 1) store ≡ ok 2
unfolding recommendations_count
counts = refl

pages_whole_example :
    (pages whole fold same every Sort.score (some 1) 1 2 store
      ≡ ranked whole fold same store.library
          (scan_generation (some 1) store.scans)
          0
          (feed_rows whole fold same every Sort.score (some 1) store))
    × (length (pages whole fold same every Sort.score (some 1) 1 2 store) ≡ 2)
pages_whole_example =
    pages_whole whole fold same 9 every Sort.score (some 1) (some 1) 1 2 2 store resolves counts
      (omega arith)

found : get_scan 1 store.scans ≡ some (scan_of 1 9)
unfolding get_scan
found = refl

respond-Answered_example :
    respond whole fold same every Sort.score
      (some (generation_etag (some 1) 4))
      (some 1)
      50
      0
      (like 9 liked_album store).1
    ≡ sent whole fold same every Sort.score 1 4 50 0
        (contains 1 (user_scan_ids 9 store.scans))
        (like 9 liked_album store).1
respond-Answered_example =
    respond-Answered whole fold same 9 1 (scan_of 1 9) store (like 9 liked_album store).1 every
      Sort.score 50 0 found (inl (liked_album, like_out, like_works, refl))

-- `100%` is searched for as it stands.
ilike-substring_pattern_example :
    ilike fold false (substring_pattern (codes "0%_")) (codes "a 100%_B")
    ≡ any_end (begins_with fold (codes "0%_")) (codes "a 100%_B")
ilike-substring_pattern_example = ilike-substring_pattern fold (codes "0%_") (codes "a 100%_B")

abbrev counted_work : Store whole → Result ℕ × Store whole
counted_work st = (ok 7, st)

abbrev broken_work : Store whole → Result ℕ × Store whole
broken_work st = (raise integrity, st)

abbrev call_at : ℕ → (Store whole → Result ℕ × Store whole) → Call whole
call_at now work = record { now = now; user = 9; scan_id = some 1; work = work }

computes : (recompute 30 100 9 (some 1) counted_work [] store).0 ≡ computed 7
unfolding recompute
computes = refl

recompute-Refused_example :
    Refused
      (recompute 30 120 9
        (some 1)
        counted_work
        (run_calls 30 (call_at 100 counted_work ∷ call_at 110 counted_work ∷ []) ([], store)).0
        (run_calls 30 (call_at 100 counted_work ∷ call_at 110 counted_work ∷ []) ([], store)).1)
      (run_calls 30 (call_at 100 counted_work ∷ call_at 110 counted_work ∷ []) ([], store))
recompute-Refused_example =
    recompute-Refused 30 7 (call_at 100 counted_work) (call_at 120 counted_work)
      (call_at 110 counted_work ∷ []) [] store (omega arith) computes refl (omega arith)

own_scan : foreign_scan 9 (some 1) store.scans ≡ false
unfolding foreign_scan
own_scan = refl

first_call : cooling 30 100 (last_of 9 []) ≡ false
unfolding last_of cooling
first_call = refl

recompute_failures_example :
    last_of 9 (stamps_of (recompute 30 100 9 (some 1) broken_work [] store))
    ≡ (if is_value_error integrity then last_of 9 [] else if 9 == 9 then some 100 else last_of 9 [])
recompute_failures_example =
    recompute_failures 30 9 (call_at 100 broken_work) integrity [] store store (omega arith)
      own_scan first_call refl
