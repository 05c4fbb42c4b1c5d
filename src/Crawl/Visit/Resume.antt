-- ===== src/Crawl/Visit/Resume.antt =====
-- The three loops of `crawl_fan_collection` (backend/app/crawl/service.py) in slices: what a visit
-- leaves, the next one takes up.
use bandcamp_curate.Base.{
  subst, [], ◌∷◌, arith, ◌+◌, ℕ, ◌+◌, ◌≡◌, refl, Bool, true, false, Option, none, some, List, Text,
  Result, ok, raise, inl, inr, ◌⊎◌,
}
use bandcamp_curate.Frontier.Tables.{Cursor}
use bandcamp_curate.Graph.Tables.{ParsedItem}
use bandcamp_curate.Graph.Ingest.{ingest_items_batch}
use bandcamp_curate.Crawl.Fanout.{enqueue_items, next_token, FollowedBands, Counts}
use bandcamp_curate.Crawl.Visit.{
  is_live, Table, Clients, Page, Visit, VisitArgs, live, snapshot, fetched, absorb, absorb_follows,
  after_fanout, checkpoint, page_through, page_through_mine, and_then, visit_pages, collection_step,
  wishlist_step, follows_step,
}
use bandcamp_curate.Crawl.Visit.Loops.{
  After-both, After-map, After, Keeps, IsLoop, AfterRound, seq, seq-IsLoop, seq-Keeps,
  page_through-IsLoop, page_through-Keeps,
}

-- Where the account is somebody else's, a list that only the owner's visit pages has ended.
abbrev pub MineEnded : Bool → Option Text → Type 0
MineEnded true token = live token ≡ none
MineEnded false token = Unit {0}

live-is_live : (t : Option Text) → live t ≡ none → is_live t ≡ false
live-is_live none h = refl
live-is_live (some []) h = refl
live-is_live (some (c ∷ s)) h = absurd (ground arith)

dead-snapshot :
    (c : Cursor)
    → live c.collection ≡ none
    → live c.wishlist ≡ none
    → live c.follows ≡ none
    → snapshot c ≡ none
unfolding snapshot
dead-snapshot c h k l =
    ground (arith, live-is_live c.collection h, live-is_live c.wishlist k, live-is_live c.follows l)

module _ {N : Type 0} where
  mine-IsLoop :
      (is_me : Bool) (step : Text → Visit N → Result (Unit {0}) × Visit N)
      (stream : Cursor → Option Text)
      → IsLoop (page_through_mine is_me step stream) (λ s. MineEnded is_me (stream s.tokens))
  unfolding page_through_mine and_then
  mine-IsLoop true step stream = page_through-IsLoop step stream
  mine-IsLoop false step stream = record {
    spent = λ s. refl;
    more = λ n m s. refl;
    stops = λ n s. inr tt;
    idle = λ n s h. refl;
  }

  pub mine-Keeps :
      (is_me : Bool) (step : Text → Visit N → Result (Unit {0}) × Visit N)
      (stream : Cursor → Option Text) (P : Visit N → Type 0)
      → ((token : Text) (s : Visit N) → P s → AfterRound P (step token s))
      → Keeps P (page_through_mine is_me step stream)
  unfolding page_through_mine
  mine-Keeps true step stream P kept = page_through-Keeps step stream P kept
  mine-Keeps false step stream P kept = λ n s h. h

  fetched-AfterRound :
      {A : Type 0} (P : Visit N → Type 0) (r : Result (Page A) × N)
      (next : Page A → Visit N → Result (Unit {0}) × Visit N) (s : Visit N)
      → ((p : Page A) (net : N) → AfterRound P (next p (record s { net = net })))
      → AfterRound P (fetched r next s)
  unfolding fetched
  fetched-AfterRound P (raise e, net) next s h = tt
  fetched-AfterRound P (ok p, net) next s h = h p net

  after_fanout-tokens :
      (P : Cursor → Type 0) (a : VisitArgs) (before s : Visit N) (r : Result Counts × Table)
      → P s.tokens
      → AfterRound (λ s'. P s'.tokens) (after_fanout a before s r)
  unfolding after_fanout checkpoint
  after_fanout-tokens P a before s (raise e, t) h = tt
  after_fanout-tokens P a before s (ok n, t) h = h

  pub absorb-tokens :
      (P : Cursor → Type 0) (a : VisitArgs) (followed : FollowedBands) (fan : ℕ) (w : Bool)
      (batch : List ParsedItem) (c : Cursor) (s : Visit N)
      → P c
      → AfterRound (λ s'. P s'.tokens) (absorb a followed fan w batch c s)
  unfolding absorb checkpoint
  absorb-tokens P a followed fan true batch c s h = h
  absorb-tokens P a followed fan false batch c s h =
      let (n, g) = ingest_items_batch a.workers fan false batch s.graph in
      after_fanout-tokens P a s (record s { graph = g; tokens = c; ingested = s.ingested + n })
        (enqueue_items a.now a.setting a.scan_id a.depth a.max_depth followed batch s.frontier) h

  module _ (clients : Clients N) (a : VisitArgs) (followed : FollowedBands) (fan : ℕ) where
    -- A page of a list sets the token of its list only.
    pub collection-others :
        (P : Option Text → Option Text → Type 0) (token : Text) (s : Visit N)
        → P s.tokens.wishlist s.tokens.follows
        → AfterRound
            (λ s'. P s'.tokens.wishlist s'.tokens.follows)
            (collection_step clients a followed fan token s)
    unfolding collection_step
    collection-others P token s h =
        fetched-AfterRound (λ s'. P s'.tokens.wishlist s'.tokens.follows)
          (clients.collection s.tokens.fan_id token s.net) _ s
          (λ p net.
            absorb-tokens (λ c. P c.wishlist c.follows) a followed fan false p.batch
              (record (s.tokens) { collection = next_token (some token) p.token p.more })
              (record s { net = net }) h)

    pub wishlist-others :
        (P : Option Text → Option Text → Type 0) (token : Text) (s : Visit N)
        → P s.tokens.collection s.tokens.follows
        → AfterRound
            (λ s'. P s'.tokens.collection s'.tokens.follows)
            (wishlist_step clients a followed fan token s)
    unfolding wishlist_step absorb checkpoint
    wishlist-others P token s h =
        fetched-AfterRound (λ s'. P s'.tokens.collection s'.tokens.follows)
          (clients.wishlist s.tokens.fan_id token s.net) _ s (λ p net. h)

    pub follows-others :
        (P : Option Text → Option Text → Type 0) (token : Text) (s : Visit N)
        → P s.tokens.collection s.tokens.wishlist
        → AfterRound
            (λ s'. P s'.tokens.collection s'.tokens.wishlist)
            (follows_step clients a followed fan token s)
    unfolding follows_step absorb_follows checkpoint
    follows-others P token s h =
        fetched-AfterRound (λ s'. P s'.tokens.collection s'.tokens.wishlist)
          (clients.follows s.tokens.fan_id token s.net) _ s (λ p net. h)

    abbrev pub Ended : Visit N → Type 0
    Ended s =
        (live s.tokens.collection ≡ none)
        × (MineEnded a.is_me s.tokens.wishlist × MineEnded a.is_me s.tokens.follows)

    visit_pages-IsLoop : IsLoop (visit_pages clients a followed fan) Ended
    unfolding visit_pages
    visit_pages-IsLoop =
        let coll = page_through (collection_step clients a followed fan) (λ c. c.collection) in
        let wish =
          page_through_mine a.is_me (wishlist_step clients a followed fan) (λ c. c.wishlist) in
        let foll =
          page_through_mine a.is_me (follows_step clients a followed fan) (λ c. c.follows) in
        let c_end = λ (s : Visit N). live s.tokens.collection ≡ none in
        let w_end = λ (s : Visit N). MineEnded a.is_me s.tokens.wishlist in
        let f_end = λ (s : Visit N). MineEnded a.is_me s.tokens.follows in
        seq-IsLoop coll (seq wish foll) c_end (λ s. w_end s × f_end s)
          (page_through-IsLoop (collection_step clients a followed fan) (λ c. c.collection))
          (seq-IsLoop wish foll w_end f_end
            (mine-IsLoop a.is_me (wishlist_step clients a followed fan) (λ c. c.wishlist))
            (mine-IsLoop a.is_me (follows_step clients a followed fan) (λ c. c.follows))
            (mine-Keeps a.is_me (follows_step clients a followed fan) (λ c. c.follows) w_end
              (follows-others (λ c w. MineEnded a.is_me w))))
          (seq-Keeps wish foll c_end
            (mine-Keeps a.is_me (wishlist_step clients a followed fan) (λ c. c.wishlist) c_end
              (wishlist-others (λ c f. live c ≡ none)))
            (mine-Keeps a.is_me (follows_step clients a followed fan) (λ c. c.follows) c_end
              (follows-others (λ c w. live c ≡ none))))

    -- A visit's pages and then more from where it stopped, with what it left of its budget, are the
    -- pages of one visit with the longer budget: the same tables, bookmark and counts, or the same
    -- error.
    pub visit_pages-more :
        (n m : ℕ) (s : Visit N)
        → and_then
            (visit_pages clients a followed fan n s)
            (λ left s'. visit_pages clients a followed fan (left + m) s')
          ≡ visit_pages clients a followed fan (n + m) s
    visit_pages-more = visit_pages-IsLoop.more

    -- No lists but the collection, where the account is somebody else's.
    abbrev pub OwnLists : Visit N → Type 0
    OwnLists s = (live s.tokens.wishlist ≡ none) × (live s.tokens.follows ≡ none)

    pub parked : (s : Visit N) → (a.is_me ≡ true) ⊎ OwnLists s → Ended s → snapshot s.tokens ≡ none
    unfolding snapshot
    parked s (inr (w, f)) (c, _) = rw (dead-snapshot s.tokens c w f) refl
    parked s (inl me) (c, (w, f)) =
        rw
          (dead-snapshot s.tokens c (subst (λ b. MineEnded b s.tokens.wishlist) me w)
            (subst (λ b. MineEnded b s.tokens.follows) me f))
          refl

    not_mine-Keeps :
        (is_me : Bool) (step : Text → Visit N → Result (Unit {0}) × Visit N)
        (stream : Cursor → Option Text) (P : Visit N → Type 0)
        → is_me ≡ false
        → Keeps P (page_through_mine is_me step stream)
    unfolding page_through_mine
    not_mine-Keeps true step stream P h = absurd (ground arith)
    not_mine-Keeps false step stream P h = λ n s k. k

    pub others-Keeps : a.is_me ≡ false → Keeps OwnLists (visit_pages clients a followed fan)
    unfolding visit_pages
    others-Keeps h =
        let coll = page_through (collection_step clients a followed fan) (λ c. c.collection) in
        let wish =
          page_through_mine a.is_me (wishlist_step clients a followed fan) (λ c. c.wishlist) in
        let foll =
          page_through_mine a.is_me (follows_step clients a followed fan) (λ c. c.follows) in
        seq-Keeps coll (seq wish foll) OwnLists
          (page_through-Keeps (collection_step clients a followed fan) (λ c. c.collection) OwnLists
            (collection-others (λ w f. (live w ≡ none) × (live f ≡ none))))
          (seq-Keeps wish foll OwnLists
            (not_mine-Keeps a.is_me (wishlist_step clients a followed fan) (λ c. c.wishlist)
              OwnLists h)
            (not_mine-Keeps a.is_me (follows_step clients a followed fan) (λ c. c.follows) OwnLists
              h))

    -- A visit's loops that raise nothing have spent the budget or leave no bookmark, where the
    -- account is the owner's or only the collection is paged.
    pub visit_pages-parks :
        (budget : ℕ) (s : Visit N)
        → (a.is_me ≡ true) ⊎ ((a.is_me ≡ false) × OwnLists s)
        → After
            (λ left s'. (left ≡ 0) ⊎ (snapshot s'.tokens ≡ none))
            (visit_pages clients a followed fan budget s)
    visit_pages-parks n s (inl me) =
        After-map (visit_pages clients a followed fan n s) (λ left s'. (left ≡ 0) ⊎ Ended s')
          (λ left s'. (left ≡ 0) ⊎ (snapshot s'.tokens ≡ none)) (visit_pages-IsLoop.stops n s)
          (λ left s' h. elim h [ inl nil ↦ inl nil | inr end ↦ inr (parked s' (inl me) end) ])
    visit_pages-parks n s (inr (other, own)) =
        After-map (visit_pages clients a followed fan n s)
          (λ left s'. OwnLists s' × ((left ≡ 0) ⊎ Ended s'))
          (λ left s'. (left ≡ 0) ⊎ (snapshot s'.tokens ≡ none))
          (After-both (visit_pages clients a followed fan n s) (λ left s'. OwnLists s')
            (λ left s'. (left ≡ 0) ⊎ Ended s') (others-Keeps other n s own)
            (visit_pages-IsLoop.stops n s))
          (λ left s' (o, h). elim h [ inl nil ↦ inl nil | inr end ↦ inr (parked s' (inr o) end) ])
