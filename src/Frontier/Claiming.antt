-- ===== src/Frontier/Claiming.antt =====
-- What `claim_next` and the closing operations of backend/app/crawl/frontier.py promise their caller.
use bandcamp_curate.Base.{
  sym, ◌&&◌, subst, find_sound, ℕ, suc, zero, ◌<◌, ◌≡◌, refl, ◌⊎◌, inl, inr, Bool, true, false,
  none, some, List, [], ◌∷◌, arith, ◌==◌, Bool-cases, Option-cases, All, ==_iff, ◌∙◌, Text, ap,
  count_rows,
}
use bandcamp_curate.Frontier.Tables.{
  CrawlKind, pending, in_progress, Entry, Table, same_status, get_by_id, update_row,
}
use bandcamp_curate.Frontier.Claim.{
  Others, alone, unlocked, eligible, before, next_entry, claimed, cas, try_claims, claim_next,
  claim_attempts,
}
use bandcamp_curate.Frontier.Marks.{mark_retryable, on_retryable, pending_count}
use bandcamp_curate.Frontier.Rows.{get_by_id-update_row}
use bandcamp_curate.Frontier.Interleaving.{claimed-KeepsKey, cas_cases, on_retryable-KeepsKey}
use bandcamp_curate.Frontier.Valid.{IsValid, update_row-IsValid}
use bandcamp_curate.Frontier.Order.{In, next_entry_least, next_entry-none, try_claims_quiet}

-- With no other crawler, a claim takes an eligible row before which no eligible row comes, marks it
-- and counts the attempt; it returns nothing, and changes nothing, only if no row is eligible.
pub claim_next_quiet :
    (now stale_after scan_id : ℕ) (kinds : List CrawlKind) (t : Table)
    → IsValid t
    → ((claim_next now stale_after scan_id kinds alone t ≡ (none, t))
        × All (λ f. eligible now stale_after scan_id kinds f ≡ false) t.rows)
      ⊎ ((e : Entry) × In e t.rows
          × (eligible now stale_after scan_id kinds e ≡ true)
          × All (λ f. eligible now stale_after scan_id kinds f ≡ true → before f e ≡ false) t.rows
          × (claim_next now stale_after scan_id kinds alone t
              ≡ (some (claimed now e), record t { rows = update_row e.id (claimed now) t.rows })))
unfolding claim_next
claim_next_quiet now stale_after scan_id kinds t v =
    elim (Option-cases (next_entry now stale_after scan_id kinds t.rows)) [
      | inl empty ↦ inl (
        unfold try_claims in ground (arith, empty),
        next_entry-none now stale_after scan_id kinds t.rows empty,
      )
      | inr (e, found) ↦
          let (inside, pass, least) =
            next_entry_least now stale_after scan_id kinds t.rows e found in
          inr (
            e,
            inside,
            pass,
            least,
            rw (try_claims_quiet now stale_after scan_id kinds 7 t.rows e v.distinct found),
          )
    ]

get_by_id_id : (i : ℕ) (rows : List Entry) {e : Entry} → get_by_id i rows ≡ some e → e.id ≡ i
unfolding get_by_id
get_by_id_id i rows h = (==_iff _ i).0 (find_sound (λ x. x.id == i) rows h)

won_row :
    (now : ℕ) (entry c : Entry) (rows : List Entry)
    → (cas now entry rows).1 ≡ true
    → get_by_id entry.id (cas now entry rows).0 ≡ some c
    → (c.id ≡ entry.id)
      × (c.status ≡ in_progress)
      × (c.updated_at ≡ now)
      × (get_by_id c.id (cas now entry rows).0 ≡ some c)
won_row now entry c rows w at = elim (cas_cases now entry rows) [
  | inl lost ↦ absurd (cc)
  | inr (e, read, same, won) ↦
      let row : get_by_id entry.id (cas now entry rows).0 ≡ some (claimed now e) = rw won (
        get_by_id-update_row (claimed now) (claimed-KeepsKey now) entry.id entry.id rows
        ∙ rw ((==_iff entry.id entry.id).1 refl) (rw read)) in
      let this : claimed now e ≡ c = ground (arith, row, at) in
      let id : e.id ≡ entry.id = get_by_id_id entry.id rows read in
      subst
        (λ z.
          (z.id ≡ entry.id)
          × (z.status ≡ in_progress)
          × (z.updated_at ≡ now)
          × (get_by_id z.id (cas now entry rows).0 ≡ some z))
        this
        (unfold claimed in
          (
            id,
            refl,
            refl,
            subst (λ i. get_by_id i (cas now entry rows).0 ≡ some (claimed now e)) (sym id) row,
          ))
]

try_claims_sound :
    (now stale_after scan_id : ℕ) (kinds : List CrawlKind) (others : Others) (n : ℕ)
    (rows : List Entry) (c : Entry)
    → (try_claims now stale_after scan_id kinds others n rows).0 ≡ some c
    → (c.status ≡ in_progress)
      × (c.updated_at ≡ now)
      × (get_by_id c.id (try_claims now stale_after scan_id kinds others n rows).1 ≡ some c)
unfolding try_claims
try_claims_sound now stale_after scan_id kinds others zero rows c h = cc
try_claims_sound now stale_after scan_id kinds others (suc n) rows c h =
    elim (Option-cases
      (next_entry now stale_after scan_id kinds (unlocked (others.locked n) rows))) [
        | inl empty ↦ absurd (ground (arith, empty, h))
        | inr (entry, found) ↦ ground (
          arith,
          found,
          h,
          won_row now entry c (others.commits n rows),
          try_claims_sound now stale_after scan_id kinds others n
              (cas now entry (others.commits n rows)).0 c,
        )
      ]

-- Whatever other crawlers commit between its reads and its updates, a claim that returns an entry
-- returns a row of the table as the claim leaves it, IN_PROGRESS and touched now.
pub claim_next_sound :
    (now stale_after scan_id : ℕ) (kinds : List CrawlKind) (others : Others) (t : Table) (c : Entry)
    → (claim_next now stale_after scan_id kinds others t).0 ≡ some c
    → (c.status ≡ in_progress)
      × (c.updated_at ≡ now)
      × (get_by_id c.id (claim_next now stale_after scan_id kinds others t).1.rows ≡ some c)
unfolding claim_next
claim_next_sound now stale_after scan_id kinds others t c h =
    try_claims_sound now stale_after scan_id kinds others claim_attempts t.rows c h

-- A row of the list that passes is counted.
count_rows-In :
    (test : Entry → Bool) (e : Entry) (rows : List Entry)
    → In e rows
    → test e ≡ true
    → 0 < count_rows test rows
count_rows-In test e [] h p = absurd h
count_rows-In test e (x ∷ rows) (inl same) p =
    let pass : test x ≡ true = ap test same ∙ p in ground (arith, pass)
count_rows-In test e (x ∷ rows) (inr inside) p = ground (arith, count_rows-In test e rows inside p)

In-get_by_id : (i : ℕ) (rows : List Entry) (e : Entry) → get_by_id i rows ≡ some e → In e rows
unfolding get_by_id
In-get_by_id i [] e h = cc
In-get_by_id i (x ∷ rows) e h = elim (Bool-cases (x.id == i)) [
  | inl hit ↦ inl (ground (arith, h, hit))
  | inr other ↦ inr (In-get_by_id i rows e (ground (arith, h, other)))
]

All-In {ℓ} : (P : Entry → Type ℓ) (e : Entry) (rows : List Entry) → All P rows → In e rows → P e
All-In P e [] a h = absurd h
All-In P e (x ∷ rows) a (inl same) = subst P same a.0
All-In P e (x ∷ rows) a (inr inside) = All-In P e rows a.1 inside

-- A claim with no other crawler returns an entry if some row is eligible.
pub claim_next_live :
    (now stale_after scan_id : ℕ) (kinds : List CrawlKind) (t : Table) (f : Entry)
    → IsValid t
    → In f t.rows
    → eligible now stale_after scan_id kinds f ≡ true
    → (c : Entry) × ((claim_next now stale_after scan_id kinds alone t).0 ≡ some c)
claim_next_live now stale_after scan_id kinds t f v inside pass =
    elim (claim_next_quiet now stale_after scan_id kinds t v) [
      | inl (empty, cut) ↦
          let no : eligible now stale_after scan_id kinds f ≡ false =
            All-In (λ x. eligible now stale_after scan_id kinds x ≡ false) f t.rows cut inside in
          absurd (ground (arith, no, pass))
      | inr (e, _, _, _, won) ↦ (claimed now e, ap (λ r. r.0) won)
    ]

put_back_eligible :
    (now later stale_after : ℕ) (note : Text) (e : Entry)
    → (eligible later stale_after e.scan_id [] (on_retryable now note e) ≡ true)
unfolding eligible on_retryable same_status
put_back_eligible now later stale_after note e = ground arith

put_back_pending :
    (now : ℕ) (note : Text) (e : Entry)
    → ((on_retryable now note e).scan_id == e.scan_id
        && (same_status (on_retryable now note e).status pending && true))
      ≡ true
unfolding on_retryable same_status
put_back_pending now note e = ground arith

-- An entry that is put back after a recoverable failure keeps its bookmark, is counted as pending
-- in its scan, and the next claim of that scan with no other crawler returns an entry.
pub mark_retryable_visible :
    (now later stale_after id : ℕ) (note : Text) (t : Table) (e : Entry)
    → IsValid t
    → get_by_id id t.rows ≡ some e
    → let t' = mark_retryable now id note t in
      (get_by_id id t'.rows ≡ some (on_retryable now note e))
      × ((on_retryable now note e).cursor ≡ e.cursor)
      × (0 < pending_count none e.scan_id t'.rows)
      × ((c : Entry) × ((claim_next later stale_after e.scan_id [] alone t').0 ≡ some c))
unfolding mark_retryable pending_count
mark_retryable_visible now later stale_after id note t e v at =
    let f = on_retryable now note in
    let rows = update_row id f t.rows in
    let row : get_by_id id rows ≡ some (f e) =
      get_by_id-update_row f (on_retryable-KeepsKey now note) id id t.rows
      ∙ rw ((==_iff id id).1 refl) (rw at) in
    let inside = In-get_by_id id rows (f e) row in
    (
      row,
      unfold on_retryable in refl,
      count_rows-In _ (f e) rows inside (put_back_pending now note e),
      claim_next_live later stale_after e.scan_id [] (record t { rows = rows }) (f e)
          (update_row-IsValid f (on_retryable-KeepsKey now note) id t v) inside
          (put_back_eligible now later stale_after note e),
    )
