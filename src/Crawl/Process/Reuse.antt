-- ===== src/Crawl/Process/Reuse.antt =====
-- When `process_entry` (backend/app/crawl/runner.py) goes to the network.
use bandcamp_curate.Base.{
  sym, ap, ◌∙◌, same_text, same_text_iff, ==_iff, ◌==◌, ◌&&◌, not, Option-cases, ◌⊎◌, subst, ◌++◌,
  [], ◌∷◌, All, ℕ, ◌≡◌, refl, Bool, true, false, Option, none, some, List, Result, ok, raise,
  Bool-cases, inl, inr, arith,
}
use bandcamp_curate.Frontier.Tables.{
  CrawlKind, fan_collection, album, track, supporters, Entry, Table, CrawlStatus, done, same_kind,
  same_status,
}
use bandcamp_curate.Frontier.Rows.{same_kind→≡, same_kind_refl}
use bandcamp_curate.Frontier.Marks.{completed_elsewhere}
use bandcamp_curate.Graph.Tables.{FanRow, Graph, ParsedSupporter, ParsedAlbum, ParsedTrackPage}
use bandcamp_curate.Graph.Ingest.Supporters.{SupporterIngestCounts}
use bandcamp_curate.Crawl.Database.{CrawlOutcome}
use bandcamp_curate.Crawl.Fanout.{FollowedBands}
use bandcamp_curate.Crawl.Replay.{FanCounts}
use bandcamp_curate.Crawl.Visit.{Clients, Visit, VisitArgs}
use bandcamp_curate.Crawl.Visit.Collection.{
  filter_of, start_tokens, open_visit, outcome_of, after_open, crawl_fan_collection,
}
use bandcamp_curate.Crawl.Pages.{
  LoadedPage, SupporterPage, PageClients, PageArgs, CrawlState, finish_page, after_ingest,
  after_supporters, with_row, on_album_page, on_track_page, crawl_album, crawl_track,
}
use bandcamp_curate.Crawl.Process.{
  visit_args, page_args, ProcessArgs, is_owner_page, store_of, is_reusable, replayed,
  reused_outcome, after_replay, reuse_if_already_crawled, crawl_by_kind, process_entry,
}

-- What an outcome says of reuse.
abbrev pub Says : {S : Type 0} → Bool → Result CrawlOutcome × S → Type 0
Says b (raise e, s) = Unit {0}
Says b (ok o, s) = o.reused ≡ b

-- A row for the page of an entry that another scan has completed.
abbrev pub DoneElsewhere : Entry → Entry → Type 0
DoneElsewhere e r =
    (r.url ≡ e.url) × (r.kind ≡ e.kind) × (¬ (r.scan_id ≡ e.scan_id)) × (r.status ≡ done)

abbrev pub SomeElsewhere : Entry → List Entry → Type 0
SomeElsewhere e rows =
    (before after : List Entry) × (r : Entry) × (rows ≡ before ++ r ∷ after) × DoneElsewhere e r

abbrev elsewhere_test : Entry → Entry → Bool
elsewhere_test e r =
    same_text r.url e.url
    && (same_kind r.kind e.kind && (not (r.scan_id == e.scan_id) && same_status r.status done))

same_status-done : (s : CrawlStatus) → same_status s done ≡ true → s ≡ done
unfolding same_status
same_status-done s h = ground (arith, h)

elsewhere_test-true : (e r : Entry) → elsewhere_test e r ≡ true → DoneElsewhere e r
elsewhere_test-true e r h = (
  (same_text_iff r.url e.url).0 (ground (arith, h)),
  same_kind→≡ r.kind e.kind (ground (arith, h)),
  λ same. ground (arith, h, same, ==_iff r.scan_id e.scan_id),
  same_status-done r.status (ground (arith, h)),
)

elsewhere_test-false : (e r : Entry) → elsewhere_test e r ≡ false → ¬ DoneElsewhere e r
unfolding same_status
elsewhere_test-false e r h (url, kind, other, status) =
    let text : same_text r.url e.url ≡ true = (same_text_iff r.url e.url).1 url in
    let kinds : same_kind r.kind e.kind ≡ true = rw kind (same_kind_refl e.kind) in
    let finished : same_status r.status done ≡ true = rw status refl in
    ground (arith, h, text, kinds, finished, ==_iff r.scan_id e.scan_id, other)

completed_elsewhere-row :
    (e : Entry) (rows : List Entry)
    → (SomeElsewhere e rows × (completed_elsewhere e.url e.kind e.scan_id rows ≡ true))
      ⊎ (All (λ r. ¬ DoneElsewhere e r) rows
          × (completed_elsewhere e.url e.kind e.scan_id rows ≡ false))
unfolding completed_elsewhere
completed_elsewhere-row e [] = inr (tt, refl)
completed_elsewhere-row e (r ∷ rows) = elim (Bool-cases (elsewhere_test e r)) [
  | inl hit ↦ inl (([], rows, r, refl, elsewhere_test-true e r hit), rw hit refl)
  | inr miss ↦ elim (completed_elsewhere-row e rows) [
    | inl ((before, after, x, split, there), seen) ↦
        inl ((r ∷ before, after, x, ap (λ xs. r ∷ xs) split, there), rw miss seen)
    | inr (others, unseen) ↦ inr ((elsewhere_test-false e r miss, others), rw miss unseen)
  ]
]

is_owner_page-cases :
    (a : ProcessArgs) (e : Entry)
    → ((a.seed.url ≡ some e.url) × (is_owner_page a e ≡ true))
      ⊎ ((¬ (a.seed.url ≡ some e.url)) × (is_owner_page a e ≡ false))
unfolding is_owner_page
is_owner_page-cases a e = elim (Option-cases a.seed.url) [
  | inl without ↦ inr (λ own. ground (arith, without, own), rw without refl)
  | inr (url, has) ↦ elim (Bool-cases (same_text e.url url)) [
    | inl same ↦
        inl (has ∙ ap (λ u. some u) (sym ((same_text_iff e.url url).0 same)), rw (has, same) refl)
    | inr differs ↦ inr (
      λ own.
          let same : e.url ≡ url = ground (arith, has, own) in
          ground (arith, differs, (same_text_iff e.url url).1 same),
      rw (has, differs) refl,
    )
  ]
]

module _ {N : Type 0} where
  outcome-fresh :
      (a : VisitArgs) (fan : FanRow) (r : Result ℕ × Visit N) → Says false (outcome_of a fan r)
  unfolding outcome_of
  outcome-fresh a fan (raise e, s) = tt
  outcome-fresh a fan (ok left, s) = refl

  after_open-fresh :
      (clients : Clients N) (a : VisitArgs) (followed : FollowedBands) (r : Result FanRow × Visit N)
      → Says false (after_open clients a followed r)
  unfolding after_open
  after_open-fresh clients a followed (raise e, s) = tt
  after_open-fresh clients a followed (ok fan, s) = outcome-fresh a fan _

  store-fresh : (r : Result CrawlOutcome × Visit N) → Says false r → Says false (store_of r)
  store-fresh (raise e, s) h = h
  store-fresh (ok o, s) h = h

  finish-fresh :
      (a : PageArgs) (kind : CrawlKind) (n m : ℕ) (g : Graph) (s : CrawlState N)
      (r : Result FanCounts × Table)
      → Says false (finish_page a kind n m g s r)
  unfolding finish_page
  finish-fresh a kind n m g s (raise e, t) = tt
  finish-fresh a kind n m g s (ok c, t) = refl

  ingest-fresh :
      (a : PageArgs) (kind : CrawlKind) (n : ℕ) (l : List ParsedSupporter) (s : CrawlState N)
      (r : Result SupporterIngestCounts × Graph)
      → Says false (after_ingest a kind n l s r)
  unfolding after_ingest
  ingest-fresh a kind n l s (raise e, g) = tt
  ingest-fresh a kind n l s (ok c, g) = finish-fresh a kind n c.supporters g s _

  supporters-fresh :
      (a : PageArgs) (kind : CrawlKind) (n : ℕ)
      (ingest : List ParsedSupporter → Graph → Result SupporterIngestCounts × Graph)
      (s : CrawlState N) (r : Result (List ParsedSupporter) × N)
      → Says false (after_supporters a kind n ingest s r)
  unfolding after_supporters
  supporters-fresh a kind n ingest s (raise e, net) = tt
  supporters-fresh a kind n ingest s (ok l, net) = ingest-fresh a kind n l _ _

  row-fresh :
      (clients : PageClients N) (a : PageArgs) (kind : CrawlKind) (n : ℕ) (p : SupporterPage)
      (ingest : ℕ → List ParsedSupporter → Graph → Result SupporterIngestCounts × Graph)
      (row : Option ℕ) (s : CrawlState N)
      → Says false (with_row clients a kind n p ingest row s)
  unfolding with_row
  row-fresh clients a kind n p ingest none s = tt
  row-fresh clients a kind n p ingest (some id) s = supporters-fresh a kind n (ingest id) s _

  album-fresh :
      (clients : PageClients N) (a : PageArgs) (s : CrawlState N)
      (r : Result (LoadedPage ParsedAlbum) × N)
      → Says false (on_album_page clients a s r)
  unfolding on_album_page
  album-fresh clients a s (raise e, net) = tt
  album-fresh clients a s (ok p, net) = row-fresh clients a album _ p.supporters _ _ _

  track-fresh :
      (clients : PageClients N) (a : PageArgs) (s : CrawlState N)
      (r : Result (LoadedPage ParsedTrackPage) × N)
      → Says false (on_track_page clients a s r)
  unfolding on_track_page
  track-fresh clients a s (raise e, net) = tt
  track-fresh clients a s (ok p, net) = row-fresh clients a track _ p.supporters _ _ _

  kind-fresh :
      (fans : Clients N) (pages : PageClients N) (a : ProcessArgs) (e : Entry) (kind : CrawlKind)
      (s : CrawlState N)
      → Says false (crawl_by_kind fans pages a e kind s)
  unfolding crawl_by_kind crawl_fan_collection crawl_album crawl_track page_args
  kind-fresh fans pages a e fan_collection s =
      let v = visit_args a e in
      let followed = filter_of v.depth v.seed_fan_id s.graph in
      let start : Visit N = record {
        frontier = s.frontier;
        graph = s.graph;
        net = s.net;
        tokens = start_tokens v.cursor;
        ingested = 0;
        enqueued = 0;
        skips = 0;
      } in
      store-fresh (crawl_fan_collection fans v s.frontier s.graph s.net)
        (after_open-fresh fans v followed (open_visit fans v followed v.cursor start))
  kind-fresh fans pages a e album s =
      album-fresh pages (page_args a e) s (pages.album_page e.url s.net)
  kind-fresh fans pages a e track s =
      track-fresh pages (page_args a e) s (pages.track_page e.url s.net)
  kind-fresh fans pages a e supporters s = tt

  replay-reused :
      (e : Entry) (s : CrawlState N) (r : Result FanCounts × Table)
      → Says true (after_replay e s r)
        × (((after_replay e s r).1.net ≡ s.net) × ((after_replay e s r).1.graph ≡ s.graph))
  unfolding after_replay reused_outcome
  replay-reused e s (raise x, t) = (tt, (refl, refl))
  replay-reused e s (ok n, t) = (refl, (refl, refl))

  process_entry-replay :
      (fans : Clients N) (pages : PageClients N) (a : ProcessArgs) (e : Entry) (s : CrawlState N)
      → is_reusable a e s.frontier ≡ true
      → process_entry fans pages a e s ≡ after_replay e s (replayed a e s.graph s.frontier)
  unfolding process_entry reuse_if_already_crawled
  process_entry-replay fans pages a e s h = rw (h, process_entry) refl

  process_entry-crawl :
      (fans : Clients N) (pages : PageClients N) (a : ProcessArgs) (e : Entry) (s : CrawlState N)
      → is_reusable a e s.frontier ≡ false
      → process_entry fans pages a e s ≡ crawl_by_kind fans pages a e e.kind s
  unfolding process_entry reuse_if_already_crawled
  process_entry-crawl fans pages a e s h = rw (h, process_entry) refl

  -- The page of the scan's owner is crawled, whatever other scans have crawled, and as the owner's.
  pub process_entry-owner :
      (fans : Clients N) (pages : PageClients N) (a : ProcessArgs) (e : Entry) (s : CrawlState N)
      → is_owner_page a e ≡ true
      → (process_entry fans pages a e s ≡ crawl_by_kind fans pages a e e.kind s)
        × ((visit_args a e).is_me ≡ true)
  unfolding is_reusable visit_args
  process_entry-owner fans pages a e s h =
      (process_entry-crawl fans pages a e s (ground (arith, h)), h)

  -- The two cases of an entry and its rows, and what `process_entry` then comes to.
  unfoldable pub Reused :
      ProcessArgs → Entry → CrawlState N → Result CrawlOutcome × CrawlState N → Type 0
  Reused a e s out =
      ((¬ (a.seed.url ≡ some e.url))
        × SomeElsewhere e s.frontier.rows
        × Says true out
        × (out.1.net ≡ s.net)
        × (out.1.graph ≡ s.graph))
      ⊎ (((a.seed.url ≡ some e.url) ⊎ All (λ r. ¬ DoneElsewhere e r) s.frontier.rows)
          × Says false out)

  process_entry-Says :
      (fans : Clients N) (pages : PageClients N) (a : ProcessArgs) (e : Entry) (s : CrawlState N)
      → Says (is_reusable a e s.frontier) (process_entry fans pages a e s)
        × (is_reusable a e s.frontier ≡ true
            → ((process_entry fans pages a e s).1.net ≡ s.net)
              × ((process_entry fans pages a e s).1.graph ≡ s.graph))
  process_entry-Says fans pages a e s = elim (Bool-cases (is_reusable a e s.frontier)) [
    | inl seen ↦ rw (process_entry-replay fans pages a e s seen) (
        let (says, rest) = replay-reused e s (replayed a e s.graph s.frontier) in
        (rw seen says, λ _. rest))
    | inr fresh ↦
        rw (process_entry-crawl fans pages a e s fresh)
          (rw fresh (kind-fresh fans pages a e e.kind s), λ h. absurd (ground (arith, h, fresh)))
  ]

  -- For every entry, one of two cases holds. Either the page is not the page of the scan's owner and
  -- a row of another scan for it, of the same kind, is done: then an outcome of `process_entry` says
  -- that it is reused, and neither the network nor the graph is touched, also where the replay
  -- raises. Or it is the owner's page, or no row is such a row: then an outcome says that it is not
  -- reused.
  pub process_entry-Reused :
      (fans : Clients N) (pages : PageClients N) (a : ProcessArgs) (e : Entry) (s : CrawlState N)
      → Reused a e s (process_entry fans pages a e s)
  unfolding Reused is_reusable
  process_entry-Reused fans pages a e s =
      let (says, rest) = process_entry-Says fans pages a e s in
      elim (is_owner_page-cases a e) [
        | inl (mine, own) ↦ inr (
          inl mine,
          subst (λ b. Says b (process_entry fans pages a e s)) (ground (arith, own)) says,
        )
        | inr (others, foreign) ↦ elim (completed_elsewhere-row e s.frontier.rows) [
          | inl (row, seen) ↦
              let reusable : is_reusable a e s.frontier ≡ true = ground (arith, foreign, seen) in
              let kept = rest reusable in
              inl (
                others,
                row,
                subst (λ b. Says b (process_entry fans pages a e s)) reusable says,
                kept.0,
                kept.1,
              )
          | inr (none_is, unseen) ↦ inr (
            inr none_is,
            subst (λ b. Says b (process_entry fans pages a e s)) (ground (arith, foreign, unseen))
                says,
          )
        ]
      ]
