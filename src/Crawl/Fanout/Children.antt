-- ===== src/Crawl/Fanout/Children.antt =====
-- The rows that `_enqueue_items` of backend/app/crawl/service.py adds, from its items.
use bandcamp_curate.Base.{
  ℕ, ◌+◌, ◌<◌, ◌≡◌, refl, ◌∙◌, ap, sym, ◌⊎◌, inl, inr, Bool, true, false, Option, none, some, List,
  [], ◌∷◌, ◌++◌, All, All-weaken, Text, Result, ok, raise, Bool-cases, Option-cases, arith,
}
use bandcamp_curate.Urls.{kind_for_url, url_host}
use bandcamp_curate.Frontier.Tables.{CrawlKind, pending, Entry, Table}
use bandcamp_curate.Frontier.Enqueue.{Job, new_row, enqueue}
use bandcamp_curate.Frontier.Valid.{Ending, added, kept, refused, enqueue_raced-Ending}
use bandcamp_curate.Graph.Tables.{ParsedItem}
use bandcamp_curate.Curation.Tables.{opt_in}
use bandcamp_curate.Curation.Exclusions.{host_in}
use bandcamp_curate.Crawl.Fanout.{
  FollowedBands, covers, Lead, nowhere, skipped, page, lead_by, lead_of, within_depth, child_job,
  Counts, add_enqueued, after_enqueue, take_lead, enqueue_loop, enqueue_items,
}

-- The items of the page have this one among them.
abbrev pub Among {ℓ} : {A : Type ℓ} → A → List A → Type ℓ
Among {A} x xs = (before after : List A) × (xs ≡ before ++ x ∷ after)

-- A new row of a scan for the children of a page at a depth: PENDING, one level below, without
-- priority, for the URL of an item, of the kind that the URL names, of no followed band and on no
-- storefront of one.
abbrev pub IsChild : ℕ → ℕ → FollowedBands → List ParsedItem → Entry → Type 0
IsChild scan_id depth followed items e =
    (e.status ≡ pending)
    × (e.scan_id ≡ scan_id)
    × (e.depth ≡ depth + 1)
    × (e.priority ≡ 0)
    × (item : ParsedItem) × Among item items
    × (item.url ≡ some e.url)
    × (kind_for_url e.url ≡ some e.kind)
    × (opt_in item.band.bandcamp_id followed.band_ids ≡ false)
    × (host_in (url_host item.url) followed.hosts ≡ false)

-- There is no depth limit, or the page is above it.
abbrev pub IsAbove : ℕ → Option ℕ → Type 0
IsAbove depth max_depth =
    (max_depth ≡ none) ⊎ ((limit : ℕ) × (max_depth ≡ some limit) × (depth < limit))

-- The rows are those of before, and new ones of which P holds.
abbrev pub Grown : (Entry → Type 0) → Table → Table → Type 0
Grown P t t' = (new : List Entry) × (t'.rows ≡ t.rows ++ new) × All P new

append-nil {ℓ} : {A : Type ℓ} (xs : List A) → xs ≡ xs ++ []
append-nil [] = refl
append-nil (x ∷ xs) = ap (λ ys. x ∷ ys) (append-nil xs)

append-snoc {ℓ} :
    {A : Type ℓ} (xs : List A) (y : A) (ys : List A) → (xs ++ y ∷ []) ++ ys ≡ xs ++ y ∷ ys
append-snoc [] y ys = refl
append-snoc (x ∷ xs) y ys = ap (λ zs. x ∷ zs) (append-snoc xs y ys)

Grown-refl : (P : Entry → Type 0) (t : Table) → Grown P t t
Grown-refl P t = ([], append-nil t.rows, tt)

Grown-Ending :
    (P : Entry → Type 0) (now : ℕ) (job : Job) {seen : List Entry} {t t' : Table} {cap : Bool}
    {r : Result Bool} (t'' : Table)
    → ((id : ℕ) → P (new_row now id job))
    → Ending now seen t job cap r t'
    → Grown P t' t''
    → Grown P t t''
Grown-Ending P now job {t = t} t'' new (added _ _ _ _) (rows, split, there) = (
  new_row now t.next_id job ∷ rows,
  split ∙ append-snoc t.rows (new_row now t.next_id job) rows,
  (new t.next_id, there),
)
Grown-Ending P now job t'' new (kept _) grown = grown
Grown-Ending P now job t'' new (refused _ _ _ _) grown = grown

module _ (P : Entry → Type 0) (now : ℕ) (setting : Option ℕ) (scan_id depth : ℕ) where
  after_enqueue-Grown :
      (r : Result Bool × Table) (n : Counts) (next : Counts → Table → Result Counts × Table)
      → ((m : Counts) (t : Table) → Grown P t (next m t).1)
      → Grown P r.1 (after_enqueue r n next).1
  unfolding after_enqueue
  after_enqueue-Grown (raise e, t) n next step = Grown-refl P t
  after_enqueue-Grown (ok b, t) n next step = step (add_enqueued b n) t

  take_lead-Grown :
      (lead : Lead) (n : Counts) (t : Table) (next : Counts → Table → Result Counts × Table)
      → ((url : Text) (kind : CrawlKind) (id : ℕ)
          → lead ≡ page url kind
          → P (new_row now id (child_job scan_id depth url kind)))
      → ((m : Counts) (t' : Table) → Grown P t' (next m t').1)
      → Grown P t (take_lead now setting scan_id depth lead n t next).1
  unfolding take_lead enqueue
  take_lead-Grown nowhere n t next new step = step _ t
  take_lead-Grown skipped n t next new step = step _ t
  take_lead-Grown (page url kind) n t next new step =
      let job = child_job scan_id depth url kind in
      Grown-Ending P now job (after_enqueue (enqueue now setting t job) n next).1
        (λ id. new url kind id refl) (enqueue_raced-Ending now setting none t.rows t job)
        (after_enqueue-Grown (enqueue now setting t job) n next step)

  -- What the rows of a page are made of, for the items of the page.
  abbrev Leads : FollowedBands → ParsedItem → Type 0
  Leads followed item =
      (url : Text) (kind : CrawlKind) (id : ℕ)
      → lead_of followed item ≡ page url kind
      → P (new_row now id (child_job scan_id depth url kind))

  enqueue_loop-Grown :
      (followed : FollowedBands) (items : List ParsedItem) (n : Counts) (t : Table)
      → All (Leads followed) items
      → Grown P t (enqueue_loop now setting scan_id depth followed items n t).1
  unfolding enqueue_loop
  enqueue_loop-Grown followed [] n t new = Grown-refl P t
  enqueue_loop-Grown followed (item ∷ items) n t new =
      take_lead-Grown (lead_of followed item) n t
        (enqueue_loop now setting scan_id depth followed items) new.0
        (λ m t'. enqueue_loop-Grown followed items m t' new.1)

All-Among {ℓ} : {A : Type ℓ} (xs : List A) → All (λ x. Among x xs) xs
All-Among [] = tt
All-Among (x ∷ xs) = (
  ([], xs, refl),
  All-weaken (λ y. Among y xs) (λ y. Among y (x ∷ xs))
      (λ y (before, after, split). (x ∷ before, after, ap (λ ys. x ∷ ys) split)) xs (All-Among xs),
)

lead_by-page :
    (covered : Bool) (url url' : Text) (found : Option CrawlKind) (kind : CrawlKind)
    → lead_by covered url found ≡ page url' kind
    → (covered ≡ false) × (url ≡ url') × (found ≡ some kind)
lead_by-page covered url url' none kind h = absurd (ground (arith, h))
lead_by-page true url url' (some k) kind h = absurd (ground (arith, h))
lead_by-page false url url' (some k) kind h = (refl, ground (arith, h), ground (arith, h))

lead_of-page :
    (followed : FollowedBands) (item : ParsedItem) (url : Text) (kind : CrawlKind)
    → lead_of followed item ≡ page url kind
    → (item.url ≡ some url) × (kind_for_url url ≡ some kind) × (covers followed item ≡ false)
unfolding lead_of
lead_of-page followed item url kind h = elim (Option-cases item.url) [
  | inl without ↦ absurd (ground (arith, h, without))
  | inr ([], has) ↦ absurd (ground (arith, h, has))
  | inr (c ∷ rest, has) ↦
      let led : lead_by (covers followed item) (c ∷ rest) (kind_for_url (c ∷ rest))
          ≡ page url kind =
        ground (arith, h, has) in
      let (free, same, names) =
        lead_by-page (covers followed item) (c ∷ rest) url (kind_for_url (c ∷ rest)) kind led in
      (has ∙ ap (λ u. some u) same, ap kind_for_url (sym same) ∙ names, free)
]

above :
    (depth : ℕ) (max_depth : Option ℕ)
    → within_depth depth max_depth ≡ true
    → IsAbove depth max_depth
unfolding within_depth
above depth none h = inl refl
above depth (some limit) h = inr (limit, refl, ground (arith, h))

child :
    (now scan_id depth : ℕ) (followed : FollowedBands) (items : List ParsedItem) (item : ParsedItem)
    → Among item items
    → (url : Text) (kind : CrawlKind) (id : ℕ) → lead_of followed item ≡ page url kind
    → IsChild scan_id depth followed items (new_row now id (child_job scan_id depth url kind))
unfolding new_row child_job covers
child now scan_id depth followed items item among url kind id lead =
    let (has, names, free) = lead_of-page followed item url kind lead in
    (
      refl,
      refl,
      omega arith,
      refl,
      item,
      among,
      has,
      names,
      ground (arith, free),
      ground (arith, free),
    )

-- `_enqueue_items` leaves the rows as they were and adds only children of the page, after them; it
-- adds none where there is a depth limit and the page is not above it.
pub enqueue_items-Grown :
    (now : ℕ) (setting : Option ℕ) (scan_id depth : ℕ) (max_depth : Option ℕ)
    (followed : FollowedBands) (items : List ParsedItem) (t : Table)
    → Grown
        (λ e. IsAbove depth max_depth × IsChild scan_id depth followed items e)
        t
        (enqueue_items now setting scan_id depth max_depth followed items t).1
unfolding enqueue_items
enqueue_items-Grown now setting scan_id depth max_depth followed items t =
    let P = λ (e : Entry). IsAbove depth max_depth × IsChild scan_id depth followed items e in
    elim (Bool-cases (within_depth depth max_depth)) [
      | inr far ↦ rw far (Grown-refl P t)
      | inl near ↦ rw near (
          enqueue_loop-Grown P now setting scan_id depth followed items _ t (
            All-weaken (λ item. Among item items) _
              (λ item among url kind id lead. (
                above depth max_depth near,
                child now scan_id depth followed items item among url kind id lead,
              ))
              items (All-Among items)))
    ]
