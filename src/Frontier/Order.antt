-- ===== src/Frontier/Order.antt =====
-- Which row `claim_next` of backend/app/crawl/frontier.py takes, and that it takes one.
use bandcamp_curate.Base.{
  subst, ℕ, suc, ◌≡◌, refl, ◌⊎◌, inl, inr, Bool, true, false, none, some, List, [], ◌∷◌, arith,
  Bool-cases, Option-cases, All, where_rows, ==_iff,
}
use bandcamp_curate.Frontier.Tables.{CrawlKind, Entry, same_status, get_by_id, update_row}
use bandcamp_curate.Frontier.Claim.{
  alone, eligible, before, best, next_entry, claimed, cas, try_claims,
}
use bandcamp_curate.Frontier.Rows.{get_by_id-update_row}
use bandcamp_curate.Frontier.Interleaving.{claimed-KeepsKey}
use bandcamp_curate.Frontier.Valid.{Distinct}

-- The order of the claim is a strict one.
pub before_irrefl : (a : Entry) → before a a ≡ false
unfolding before
before_irrefl a = ground arith

pub before_trans : (a b c : Entry) → before a b ≡ true → before b c ≡ true → before a c ≡ true
unfolding before
before_trans a b c p q = ground arith

-- Two rows that the order does not tell apart have one id.
pub before_total : (a b : Entry) → before a b ≡ false → before b a ≡ false → a.id ≡ b.id
unfolding before
before_total a b p q = ground arith

-- No row of the list comes before `e`.
abbrev pub IsLeast : Entry → List Entry → Type 0
IsLeast e = All (λ f. before f e ≡ false)

-- The row is one of the list.
abbrev pub In : Entry → List Entry → Type 0
In e [] = ⊥
In e (x ∷ rows) = (x ≡ e) ⊎ In e rows

IsLeast-before :
    (a b : Entry) (rows : List Entry) → before a b ≡ true → IsLeast b rows → IsLeast a rows
IsLeast-before a b [] p h = tt
IsLeast-before a b (f ∷ rows) p h =
    (ground (arith, h.0, before_trans f a b), IsLeast-before a b rows p h.1)

before_weaken : (a b f : Entry) → before a b ≡ false → before f a ≡ false → before f b ≡ false
unfolding before
before_weaken a b f p q = ground arith

IsLeast-weaken :
    (e f : Entry) (rows : List Entry) → before f e ≡ false → IsLeast f rows → IsLeast e rows
IsLeast-weaken e f [] p h = tt
IsLeast-weaken e f (g ∷ rows) p h = (before_weaken f e g p h.0, IsLeast-weaken e f rows p h.1)

best-none : (rows : List Entry) → best rows ≡ none → rows ≡ []
unfolding best
best-none [] h = refl
best-none (e ∷ rows) h = ground arith

-- `LIMIT 1` returns a row of the list before which none comes.
best-IsLeast : (rows : List Entry) (e : Entry) → best rows ≡ some e → In e rows × IsLeast e rows
unfolding best
best-IsLeast [] e h = cc
best-IsLeast (x ∷ rows) e h = elim (Option-cases (best rows)) [
  | inl empty ↦
      let same : x ≡ e = ground (arith, h, empty) in
      let nil = best-none rows empty in (inl same, (rw (← same) (before_irrefl x), rw nil tt))
  | inr (f, found) ↦
      let (inside, least) = best-IsLeast rows f found in
      elim (Bool-cases (before f x)) [
        | inl earlier ↦
            let same : f ≡ e = ground (arith, h, found, earlier) in
            subst (λ z. In z (x ∷ rows) × IsLeast z (x ∷ rows)) same
              (inr inside, (ground (arith, before_trans x f x, before_irrefl x, earlier), least))
        | inr later ↦
            let same : x ≡ e = ground (arith, h, found, later) in
            subst (λ z. In z (x ∷ rows) × IsLeast z (x ∷ rows)) same
              (inl refl, (before_irrefl x, IsLeast-weaken x f rows later least))
      ]
]

module _ (test : Entry → Bool) where
  In-cons :
      (e x : Entry) (rows : List Entry)
      → test x ≡ true
      → (In e (where_rows test rows) → In e rows × (test e ≡ true))
      → In e (x ∷ where_rows test rows)
      → In e (x ∷ rows) × (test e ≡ true)
  In-cons e x rows pass rest (inl same) = (inl same, subst (λ z. test z ≡ true) same pass)
  In-cons e x rows pass rest (inr inside) = (inr (rest inside).0, (rest inside).1)

  In-where_rows :
      (e : Entry) (rows : List Entry) → In e (where_rows test rows) → In e rows × (test e ≡ true)
  In-where_rows e [] h = absurd h
  In-where_rows e (x ∷ rows) h = elim (Bool-cases (test x)) [
    | inl pass ↦ In-cons e x rows pass (In-where_rows e rows) (rw pass at h)
    | inr cut ↦ let (inside, good) = In-where_rows e rows (rw cut at h) in (inr inside, good)
  ]

  IsLeast-where_rows :
      (e : Entry) (rows : List Entry)
      → IsLeast e (where_rows test rows)
      → All (λ f. test f ≡ true → before f e ≡ false) rows
  IsLeast-where_rows e [] h = tt
  IsLeast-where_rows e (x ∷ rows) h = elim (Bool-cases (test x)) [
    | inl pass ↦
        let h' : IsLeast e (x ∷ where_rows test rows) = rw pass at h in
        (λ _. h'.0, IsLeast-where_rows e rows h'.1)
    | inr cut ↦ (λ p. cc, IsLeast-where_rows e rows (rw cut at h))
  ]

  where_rows_nil : (rows : List Entry) → where_rows test rows ≡ [] → All (λ f. test f ≡ false) rows
  where_rows_nil [] h = tt
  where_rows_nil (x ∷ rows) h = elim (Bool-cases (test x)) [
    | inl pass ↦ absurd (ground (arith, h, pass))
    | inr cut ↦ (cut, where_rows_nil rows (rw cut at h))
  ]

get_by_id-In :
    (e : Entry) (rows : List Entry) → Distinct rows → In e rows → get_by_id e.id rows ≡ some e
unfolding get_by_id
get_by_id-In e [] d h = absurd h
get_by_id-In e (x ∷ rows) d (inl same) = ground (arith, same)
get_by_id-In e (x ∷ rows) d (inr inside) =
    ground (arith, get_by_id-In e rows d.2 inside, d.1, ==_iff x.id e.id)

-- What the claim's query finds: an eligible row of the table before which no eligible row comes, by
-- priority, then by fewer attempts, then by id.
pub next_entry_least :
    (now stale_after scan_id : ℕ) (kinds : List CrawlKind) (rows : List Entry) (e : Entry)
    → next_entry now stale_after scan_id kinds rows ≡ some e
    → In e rows
      × (eligible now stale_after scan_id kinds e ≡ true)
      × All (λ f. eligible now stale_after scan_id kinds f ≡ true → before f e ≡ false) rows
unfolding next_entry
next_entry_least now stale_after scan_id kinds rows e h =
    let test = eligible now stale_after scan_id kinds in
    let (found, least) = best-IsLeast (where_rows test rows) e h in
    let (inside, pass) = In-where_rows test e rows found in
    (inside, pass, IsLeast-where_rows test e rows least)

pub next_entry-none :
    (now stale_after scan_id : ℕ) (kinds : List CrawlKind) (rows : List Entry)
    → next_entry now stale_after scan_id kinds rows ≡ none
    → All (λ f. eligible now stale_after scan_id kinds f ≡ false) rows
unfolding next_entry
next_entry-none now stale_after scan_id kinds rows h =
    where_rows_nil (eligible now stale_after scan_id kinds) rows (best-none _ h)

-- With nobody in between, the first attempt of a claim takes the row that the query finds.
pub try_claims_quiet :
    (now stale_after scan_id : ℕ) (kinds : List CrawlKind) (n : ℕ) (rows : List Entry) (e : Entry)
    → Distinct rows
    → next_entry now stale_after scan_id kinds rows ≡ some e
    → try_claims now stale_after scan_id kinds alone (suc n) rows
      ≡ (some (claimed now e), update_row e.id (claimed now) rows)
unfolding try_claims cas same_status
try_claims_quiet now stale_after scan_id kinds n rows e d h =
    let (inside, pass, least) = next_entry_least now stale_after scan_id kinds rows e h in
    let at = get_by_id-In e rows d inside in
    ground (
      arith,
      h,
      at,
      get_by_id-update_row (claimed now) (claimed-KeepsKey now) e.id e.id rows,
      ==_iff e.id e.id,
    )
