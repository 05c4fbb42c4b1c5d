-- ===== src/Crawl/Visit/Whole.antt =====
-- `crawl_fan_collection` (backend/app/crawl/service.py) from its opening to what it returns: the
-- bookmark in the entry's row.
use bandcamp_curate.Base.{
  subst, sym, ℕ, ◌≡◌, refl, true, false, Option, none, some, Result, ok, raise, Option-cases, inl,
  inr, find, Bool-cases,
}
use bandcamp_curate.Frontier.Tables.{Cursor, Table}
use bandcamp_curate.Graph.Tables.{FanCollection, FanRow, Graph}
use bandcamp_curate.Graph.Fans.{has_fan_id}
use bandcamp_curate.Crawl.Database.{CrawlOutcome}
use bandcamp_curate.Crawl.Fanout.{FollowedBands}
use bandcamp_curate.Crawl.Visit.{
  Clients, Visit, VisitArgs, snapshot, absorb, absorb_follows, checkpoint, visit_pages,
}
use bandcamp_curate.Crawl.Visit.Collection.{
  absorb_mine, after_first, with_fan, open_page, resume, open_visit, outcome_of, after_open,
  start_tokens, first_tokens, filter_of, crawl_fan_collection,
}
use bandcamp_curate.Crawl.Visit.Bookmark.{
  Marked, Bookmarked, absorb-Bookmarked, checkpoint-Marked, visit_pages-Bookmarked,
}

-- An outcome's cursor is the bookmark of the tokens.
abbrev pub Returned : {N : Type 0} → Result CrawlOutcome × Visit N → Type 0
Returned (raise e, s) = Unit {0}
Returned (ok o, s) = o.cursor ≡ snapshot s.tokens

module _ {N : Type 0} (a : VisitArgs) (entry : ℕ) (own : a.entry ≡ some entry)
    (followed : FollowedBands) where
  absorb_mine-Bookmarked :
      (fan : FanRow) (page : FanCollection) (s : Visit N)
      → Bookmarked a entry own s
      → Bookmarked a entry own (absorb_mine a followed fan page s).1
  unfolding absorb_mine absorb_follows checkpoint
  absorb_mine-Bookmarked fan page s h =
      let s' = (absorb a followed fan.id true page.wishlist s.tokens s).1 in
      elim (Bool-cases a.is_me) [
        | inl me ↦ rw me (checkpoint-Marked a entry own s'.frontier s'.tokens)
        | inr other ↦ rw other h
      ]

  after_first-Bookmarked :
      (fan : FanRow) (page : FanCollection) (before : Visit N) (r : Result (Unit {0}) × Visit N)
      → Bookmarked a entry own before
      → Bookmarked a entry own r.1
      → Bookmarked a entry own (after_first a followed fan page before r).1
  unfolding after_first
  after_first-Bookmarked fan page before (raise e, s) h k = h
  after_first-Bookmarked fan page before (ok u, s) h k = absorb_mine-Bookmarked fan page s k

  with_fan-Bookmarked :
      (page : FanCollection) (before : Visit N) (r : Result FanRow × Graph)
      → Bookmarked a entry own before
      → Bookmarked a entry own (with_fan a followed page before r).1
  unfolding with_fan
  with_fan-Bookmarked page before (raise e, g) h = h
  with_fan-Bookmarked page before (ok fan, g) h =
      after_first-Bookmarked fan page before
        (absorb a followed fan.id false page.items (first_tokens a.is_me page)
          (record before { graph = g }))
        h
        (absorb-Bookmarked a entry own followed fan.id false page.items (first_tokens a.is_me page)
          (record before { graph = g }) h)

  open_page-Bookmarked :
      (r : Result FanCollection × N) (s : Visit N)
      → Bookmarked a entry own s
      → Bookmarked a entry own (open_page a followed r s).1
  unfolding open_page
  open_page-Bookmarked (raise e, net) s h = h
  open_page-Bookmarked (ok page, net) s h = with_fan-Bookmarked page (record s { net = net }) _ h

  resume-same : (c : Cursor) (s : Visit N) → (resume c s).1 ≡ s
  unfolding resume
  resume-same c s = elim (Option-cases (find (has_fan_id c.fan_id) s.graph.fans.rows)) [
    | inl gone ↦ rw (gone, resume) refl
    | inr (fan, found) ↦ rw (found, resume) refl
  ]

  open_visit-Bookmarked :
      (clients : Clients N) (cursor : Option Cursor) (s : Visit N)
      → Bookmarked a entry own s
      → Bookmarked a entry own (open_visit clients a followed cursor s).1
  unfolding open_visit
  open_visit-Bookmarked clients none s h = open_page-Bookmarked (clients.fan_page a.url s.net) s h
  open_visit-Bookmarked clients (some c) s h = rw (resume-same c s) h

  outcome-Returned :
      (fan : FanRow) (r : Result ℕ × Visit N)
      → Bookmarked a entry own r.1
      → Returned (outcome_of a fan r) × Bookmarked a entry own (outcome_of a fan r).1
  unfolding outcome_of
  outcome-Returned fan (raise e, s) h = (tt, h)
  outcome-Returned fan (ok left, s) h = (refl, h)

  after_open-Bookmarked :
      (clients : Clients N) (r : Result FanRow × Visit N)
      → Bookmarked a entry own r.1
      → Returned (after_open clients a followed r)
        × Bookmarked a entry own (after_open clients a followed r).1
  unfolding after_open
  after_open-Bookmarked clients (raise e, s) h = (tt, h)
  after_open-Bookmarked clients (ok fan, s) h =
      outcome-Returned fan (visit_pages clients a followed fan.id a.pages_per_visit s)
        (visit_pages-Bookmarked a entry own clients followed fan.id a.pages_per_visit s h)

-- A visit for an entry of the frontier, first or resumed from the cursor of the entry's row, where a
-- cursor has a token: what is committed when it returns or raises has in the entry's row the bookmark
-- of the tokens that the visit came to, and that is the cursor that a returned outcome has.
pub crawl_fan_collection-Bookmarked :
    (N : Type 0) (clients : Clients N) (a : VisitArgs) (entry : ℕ) (own : a.entry ≡ some entry)
    (frontier : Table) (g : Graph) (net : N)
    → snapshot (start_tokens a.cursor) ≡ a.cursor
    → Marked entry a.cursor frontier.rows
    → Returned (crawl_fan_collection clients a frontier g net)
      × Bookmarked a entry own (crawl_fan_collection clients a frontier g net).1
unfolding crawl_fan_collection
crawl_fan_collection-Bookmarked N clients a entry own frontier g net c h =
    let followed = filter_of a.depth a.seed_fan_id g in
    let s : Visit N = record {
      frontier = frontier;
      graph = g;
      net = net;
      tokens = start_tokens a.cursor;
      ingested = 0;
      enqueued = 0;
      skips = 0;
    } in
    after_open-Bookmarked a entry own followed clients (open_visit clients a followed a.cursor s) (
      open_visit-Bookmarked a entry own followed clients a.cursor s
        (subst (λ x. Marked entry x frontier.rows) (sym c) h))
