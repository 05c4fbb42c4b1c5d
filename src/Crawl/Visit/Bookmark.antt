-- ===== src/Crawl/Visit/Bookmark.antt =====
-- The bookmark that `crawl_fan_collection` (backend/app/crawl/service.py) commits with every page.
use bandcamp_curate.Base.{
  ◌+◌, ℕ, ◌≡◌, refl, ap, Bool, true, false, Option, none, some, List, [], ◌∷◌, ◌==◌, ==_iff, Text,
  Result, ok, raise, arith, same_text_iff, Bool-cases, inl, inr, All,
}
use bandcamp_curate.Frontier.Tables.{Cursor, Entry, Table, update_row}
use bandcamp_curate.Graph.Tables.{ParsedItem}
use bandcamp_curate.Graph.Ingest.{ingest_items_batch}
use bandcamp_curate.Crawl.Fanout.{FollowedBands, Counts, enqueue_items, next_token}
use bandcamp_curate.Crawl.Visit.{
  Clients, Page, Visit, VisitArgs, snapshot, bookmark, checkpoint_at, fetched, absorb,
  absorb_follows, after_fanout, checkpoint, same_cursor, same_token, page_through,
  page_through_mine, and_then, visit_pages, collection_step, wishlist_step, follows_step,
}
use bandcamp_curate.Crawl.Visit.Loops.{page_through-always}

same_token_lem : (s t : Option Text) → same_token s t ≡ true → s ≡ t
same_token_lem none none h = refl
same_token_lem none (some t) h = absurd (ground arith)
same_token_lem (some s) none h = absurd (ground arith)
same_token_lem (some s) (some t) h = ap some ((same_text_iff s t).0 h)

same_columns :
    (c d : Cursor)
    → c.fan_id ≡ d.fan_id
    → c.collection ≡ d.collection
    → c.wishlist ≡ d.wishlist
    → c.follows ≡ d.follows
    → c ≡ d
same_columns c d f a b e =
    λ i. record { fan_id = f i; collection = a i; wishlist = b i; follows = e i }

same_cursor_lem : (c d : Option Cursor) → same_cursor c d ≡ true → c ≡ d
same_cursor_lem none none h = refl
same_cursor_lem none (some d) h = absurd (ground arith)
same_cursor_lem (some c) none h = absurd (ground arith)
same_cursor_lem (some c) (some d) h = ap some (
    same_columns c d ((==_iff c.fan_id d.fan_id).0 (ground arith))
      (same_token_lem c.collection d.collection (ground arith))
      (same_token_lem c.wishlist d.wishlist (ground arith))
      (same_token_lem c.follows d.follows (ground arith)))

bookmark-cursor : (now : ℕ) (c : Option Cursor) (e : Entry) → (bookmark now c e).cursor ≡ c
unfolding bookmark
bookmark-cursor now c e = ground (arith, same_cursor_lem e.cursor c)

-- The rows of the entry that is being worked on have the bookmark.
abbrev pub Marked : ℕ → Option Cursor → List Entry → Type 0
Marked entry c = All (λ (e : Entry). (e.id == entry) ≡ true → e.cursor ≡ c)

update-Marked :
    (now entry : ℕ) (c : Option Cursor) (rows : List Entry)
    → Marked entry c (update_row entry (bookmark now c) rows)
unfolding update_row
update-Marked now entry c [] = tt
update-Marked now entry c (e ∷ rows) = elim (Bool-cases (e.id == entry)) [
  | inl is ↦ rw is (λ _. bookmark-cursor now c e, update-Marked now entry c rows)
  | inr other ↦ rw other (λ h. absurd (ground (arith, h, other)), update-Marked now entry c rows)
]

pub checkpoint-Marked :
    (a : VisitArgs) (entry : ℕ) (own : a.entry ≡ some entry) (t : Table) (c : Cursor)
    → Marked entry (snapshot c) (checkpoint_at a.now a.entry (snapshot c) t).rows
unfolding checkpoint_at
checkpoint-Marked a entry own t c = rw own (update-Marked a.now entry (snapshot c) t.rows)

module _ {N : Type 0} (a : VisitArgs) (entry : ℕ) (own : a.entry ≡ some entry) where
  -- The bookmark that the table holds is that of the tokens.
  abbrev pub Bookmarked : Visit N → Type 0
  Bookmarked s = Marked entry (snapshot s.tokens) s.frontier.rows

  after_fanout-Bookmarked :
      (before s : Visit N) (r : Result Counts × Table)
      → Bookmarked before
      → Bookmarked (after_fanout a before s r).1
  unfolding after_fanout checkpoint
  after_fanout-Bookmarked before s (raise e, t) h = h
  after_fanout-Bookmarked before s (ok n, t) h = checkpoint-Marked a entry own t s.tokens

  pub absorb-Bookmarked :
      (followed : FollowedBands) (fan : ℕ) (w : Bool) (batch : List ParsedItem) (c : Cursor)
      (s : Visit N)
      → Bookmarked s
      → Bookmarked (absorb a followed fan w batch c s).1
  unfolding absorb checkpoint
  absorb-Bookmarked followed fan true batch c s h = checkpoint-Marked a entry own s.frontier c
  absorb-Bookmarked followed fan false batch c s h =
      let (n, g) = ingest_items_batch a.workers fan false batch s.graph in
      after_fanout-Bookmarked s (record s { graph = g; tokens = c; ingested = s.ingested + n })
        (enqueue_items a.now a.setting a.scan_id a.depth a.max_depth followed batch s.frontier) h

  fetched-Bookmarked :
      {A : Type 0} (r : Result (Page A) × N) (next : Page A → Visit N → Result (Unit {0}) × Visit N)
      (s : Visit N)
      → Bookmarked s
      → ((p : Page A) (s' : Visit N) → Bookmarked s' → Bookmarked (next p s').1)
      → Bookmarked (fetched r next s).1
  unfolding fetched
  fetched-Bookmarked (raise e, net) next s h k = h
  fetched-Bookmarked (ok p, net) next s h k = k p (record s { net = net }) h

  mine-Bookmarked :
      (is_me : Bool) (step : Text → Visit N → Result (Unit {0}) × Visit N)
      (stream : Cursor → Option Text)
      → ((token : Text) (s : Visit N) → Bookmarked s → Bookmarked (step token s).1)
      → (n : ℕ) (s : Visit N) → Bookmarked s
      → Bookmarked (page_through_mine is_me step stream n s).1
  unfolding page_through_mine
  mine-Bookmarked true step stream kept n s h =
      page_through-always step stream Bookmarked kept n s h
  mine-Bookmarked false step stream kept n s h = h

  and_then-Bookmarked :
      (r : Result ℕ × Visit N) (next : ℕ → Visit N → Result ℕ × Visit N)
      → Bookmarked r.1
      → ((n : ℕ) (s : Visit N) → Bookmarked s → Bookmarked (next n s).1)
      → Bookmarked (and_then r next).1
  unfolding and_then
  and_then-Bookmarked (raise e, s) next h k = h
  and_then-Bookmarked (ok n, s) next h k = k n s h

  module _ (clients : Clients N) (followed : FollowedBands) (fan : ℕ) (token : Text) (s : Visit N)
      (h : Bookmarked s) where
    collection-Bookmarked : Bookmarked (collection_step clients a followed fan token s).1
    unfolding collection_step
    collection-Bookmarked =
        fetched-Bookmarked (clients.collection s.tokens.fan_id token s.net)
          (λ p s'.
            absorb a followed fan false p.batch
              (record (s'.tokens) { collection = next_token (some token) p.token p.more }) s')
          s h
          (λ p s'.
            absorb-Bookmarked followed fan false p.batch
              (record (s'.tokens) { collection = next_token (some token) p.token p.more }) s')

    wishlist-Bookmarked : Bookmarked (wishlist_step clients a followed fan token s).1
    unfolding wishlist_step
    wishlist-Bookmarked =
        fetched-Bookmarked (clients.wishlist s.tokens.fan_id token s.net)
          (λ p s'.
            absorb a followed fan true p.batch
              (record (s'.tokens) { wishlist = next_token (some token) p.token p.more }) s')
          s h
          (λ p s'.
            absorb-Bookmarked followed fan true p.batch
              (record (s'.tokens) { wishlist = next_token (some token) p.token p.more }) s')

    follows-Bookmarked : Bookmarked (follows_step clients a followed fan token s).1
    unfolding follows_step absorb_follows checkpoint
    follows-Bookmarked =
        fetched-Bookmarked (clients.follows s.tokens.fan_id token s.net)
          (λ p s'.
            absorb_follows a fan p.batch
              (record (s'.tokens) { follows = next_token (some token) p.token p.more }) s')
          s h
          (λ p s' h'.
            checkpoint-Marked a entry own s'.frontier
              (record (s'.tokens) { follows = next_token (some token) p.token p.more }))

  -- Where the entry's row holds the bookmark of the tokens that the loops start with, it holds that
  -- of the tokens that they come to, whatever the clients do, also where a fetch or an enqueue
  -- raises: what is committed is never ahead of the bookmark, nor behind it.
  pub visit_pages-Bookmarked :
      (clients : Clients N) (followed : FollowedBands) (fan budget : ℕ) (s : Visit N)
      → Bookmarked s
      → Bookmarked (visit_pages clients a followed fan budget s).1
  unfolding visit_pages
  visit_pages-Bookmarked clients followed fan budget s h =
      let coll = collection_step clients a followed fan in
      let wish = wishlist_step clients a followed fan in
      let foll = follows_step clients a followed fan in
      and_then-Bookmarked (page_through coll (λ c. c.collection) budget s)
        (λ left s₁.
          and_then (page_through_mine a.is_me wish (λ c. c.wishlist) left s₁)
            (page_through_mine a.is_me foll (λ c. c.follows)))
        (page_through-always coll (λ c. c.collection) Bookmarked
          (collection-Bookmarked clients followed fan) budget s h)
        (λ left s₁ h₁.
          and_then-Bookmarked (page_through_mine a.is_me wish (λ c. c.wishlist) left s₁)
            (page_through_mine a.is_me foll (λ c. c.follows))
            (mine-Bookmarked a.is_me wish (λ c. c.wishlist)
              (wishlist-Bookmarked clients followed fan) left s₁ h₁)
            (mine-Bookmarked a.is_me foll (λ c. c.follows)
              (follows-Bookmarked clients followed fan)))
