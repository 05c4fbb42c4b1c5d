-- ===== src/Api/Blocks/Lifting.antt =====
-- How blocks end by hand (backend/app/api/blacklist.py).
use bandcamp_curate.Base.{
  ap, ℕ, ◌≤◌, Bool, true, false, ◌&&◌, none, some, List, [], ◌∷◌, ◌++◌, ◌⊎◌, ◌≡◌, refl, sym, ==_iff,
  any, count_rows, count_rows-append, where_rows, Result, ok, raise, not_found, multiple_results,
  arith, Bool-cases, inl, inr,
}
use bandcamp_curate.Curation.Tables.{Band, Blocked}
use bandcamp_curate.Curation.Scoring.{Floats}
use bandcamp_curate.Scans.Tables.{Store}
use bandcamp_curate.Api.Ownership.Single.{
  of_two, scalar_one_or_none-cases, unseen_none, where_rows_empty,
}
use bandcamp_curate.Api.Ownership.{scalar_one_or_none, bumped, pruned}
use bandcamp_curate.Api.Blocks.{
  block, in_future, get_band, block_entry, BlockIn, BlacklistOut, is_entry, new_block, update_block,
  write_block, commit_block, block_from, deactivate, lift, unblock,
}
use bandcamp_curate.Api.Blocks.Lasting.{block_from-answered, block_from-band}

-- A row that blocks the band until it is lifted, whether it has ended or not.
abbrev pub active_entry : ℕ → ℕ → Blocked → Bool
active_entry user band b = is_entry user band b && b.active

abbrev switched_off : Blocked → Blocked
switched_off b = record b { active = false }

switched_off-stays :
    (user band id : ℕ) (rows : List Blocked)
    → any (active_entry user band) rows ≡ false
    → any (active_entry user band) (update_block id switched_off rows) ≡ false
unfolding update_block
switched_off-stays user band id [] h = refl
switched_off-stays user band id (b ∷ rows) h =
    ground (arith, switched_off-stays user band id rows, h)

only_one {ℓ} :
    {A : Type ℓ} (x : A) (xs : List A) {y : A}
    → scalar_one_or_none (x ∷ xs) ≡ ok (some y)
    → (xs ≡ []) × (x ≡ y)
unfolding scalar_one_or_none
only_one x [] h = (refl, ground (arith, h))
only_one x (z ∷ xs) h = ground (arith, h)

-- The only active row of a band is switched off.
switched_off-only :
    (user band : ℕ) (rows : List Blocked) {b : Blocked}
    → scalar_one_or_none (where_rows (active_entry user band) rows) ≡ ok (some b)
    → any (active_entry user band) (update_block b.id switched_off rows) ≡ false
unfolding update_block
switched_off-only user band [] {b} h = refl
switched_off-only user band (k ∷ rows) {b} h = elim (Bool-cases (active_entry user band k)) [
  | inr f ↦
      let ih = switched_off-only user band rows {b = b} (ground (arith, h, f)) in
      ground (arith, ih, f)
  | inl f ↦
      let (none_left, same) =
        only_one k (where_rows (active_entry user band) rows) {y = b} (ground (arith, h, f)) in
      let rest =
        switched_off-stays user band b.id rows
          (where_rows_empty (active_entry user band) rows none_left) in
      ground (arith, rest, ap (λ (c : Blocked). c.id) same, ==_iff k.id b.id)
]

new_block-active :
    (id user : ℕ) (band : Band) (p : BlockIn)
    → active_entry user band.id (new_block id user band p) ≡ true
unfolding new_block is_entry
new_block-active id user band p = ground (arith, ==_iff user user, ==_iff band.id band.id)

two_rows {ℓ} :
    {A : Type ℓ} (test : A → Bool) (xs : List A) (a b : A)
    → test a ≡ true
    → test b ≡ true
    → 2 ≤ count_rows test ((xs ++ a ∷ []) ++ b ∷ [])
two_rows test xs a b ha hb =
    ground
      (arith, count_rows-append test (xs ++ a ∷ []) (b ∷ []), count_rows-append test xs (a ∷ []))

module _ {fl : Floats} where
  -- What `unblock` may end with: the band has no active row of the user's any more, or the error of
  -- the query, or 404 without an active row; after an error the tables are as they were.
  unfoldable pub Lifted : ℕ → ℕ → Store fl → Result ℕ × Store fl → Type 0
  Lifted user band st out =
      ((out.0 ≡ ok band) × (any (active_entry user band) out.1.library.blacklist ≡ false))
      ⊎ (((out.0 ≡ raise not_found) × (any (active_entry user band) st.library.blacklist ≡ false)
            ⊎ (out.0 ≡ raise multiple_results)
              × (2 ≤ count_rows (active_entry user band) st.library.blacklist))
          × (out.1 ≡ st))

  pub unblock-Lifted : (user band : ℕ) (st : Store fl) → Lifted user band st (unblock user band st)
  unfolding unblock Lifted lift deactivate bumped
  unblock-Lifted user band st =
      let rows = st.library.blacklist in
      elim (scalar_one_or_none-cases (active_entry user band) rows) [
        | inl (e, left) ↦ rw e (inr (inl (refl, left), refl))
        | inr (inl (b, e)) ↦ rw e (inl (refl, switched_off-only user band rows {b = b} e))
        | inr (inr (e, two)) ↦ rw e (inr (inr (refl, two), refl))
      ]

  unblock_of_two :
      (user band : ℕ) (st : Store fl)
      → 2 ≤ count_rows (active_entry user band) st.library.blacklist
      → unblock user band st ≡ (raise multiple_results, st)
  unfolding unblock lift
  unblock_of_two user band st two =
      rw (of_two (active_entry user band) st.library.blacklist two) refl

  -- The row that a block adds from a query that saw no entry.
  block_from-adds :
      (now user : ℕ) (p : BlockIn) (read : List Blocked) (st : Store fl) (out : BlacklistOut)
      → (block_from now user p read st).0 ≡ ok out
      → any (is_entry user p.band_id) read ≡ false
      → (b : Blocked) × ((block_from now user p read st).1.library.blacklist
          ≡ st.library.blacklist ++ b ∷ [])
        × (active_entry user p.band_id b ≡ true)
  unfolding commit_block pruned
  block_from-adds now user p read st out h unseen =
      let (band, entry, same, queried, written) = block_from-answered now user p read st out h in
      let fresh : entry ≡ none =
        unseen_none (is_entry user band.id) read (rw same unseen) queried in
      (
        new_block st.library.next_block_id user band p,
        rw (written, fresh, write_block) refl,
        rw (sym same) (new_block-active st.library.next_block_id user band p),
      )

  block_of_two :
      (now user : ℕ) (p : BlockIn) (st : Store fl) {band : Band}
      → get_band p.band_id st.library.bands ≡ some band
      → in_future now p.expires_at ≡ true
      → 2 ≤ count_rows (is_entry user band.id) st.library.blacklist
      → block now user p st ≡ (raise multiple_results, st)
  unfolding block block_from block_entry
  block_of_two now user p st {band} known future two =
      rw (known, future, of_two (is_entry user band.id) st.library.blacklist two) refl

  -- Two blocks of a band by one user, each from a read of the table that saw no entry of it, as two
  -- concurrent requests do, leave two active rows of the band or more: an unblock of the band by the
  -- user then raises, and so does a block of it with an end in the future or none, at any time, and
  -- neither changes anything.
  pub blocked_twice :
      (now user : ℕ) (p : BlockIn) (read read' : List Blocked) (st : Store fl)
      (out out' : BlacklistOut) (later : ℕ) (q : BlockIn)
      → (block_from now user p read st).0 ≡ ok out
      → any (is_entry user p.band_id) read ≡ false
      → (block_from now user p read' (block_from now user p read st).1).0 ≡ ok out'
      → any (is_entry user p.band_id) read' ≡ false
      → q.band_id ≡ p.band_id
      → in_future later q.expires_at ≡ true
      → let st'' = (block_from now user p read' (block_from now user p read st).1).1 in
        (2 ≤ count_rows (active_entry user p.band_id) st''.library.blacklist)
        × (unblock user p.band_id st'' ≡ (raise multiple_results, st''))
        × (block later user q st'' ≡ (raise multiple_results, st''))
  blocked_twice now user p read read' st out out' later q h unseen h' unseen' same future =
      let st' = (block_from now user p read st).1 in
      let (b, added, on) = block_from-adds now user p read st out h unseen in
      let (b', added', on') = block_from-adds now user p read' st' out' h' unseen' in
      let st'' = (block_from now user p read' st').1 in
      let two : 2 ≤ count_rows (active_entry user p.band_id) st''.library.blacklist =
        rw (added', added)
          (two_rows (active_entry user p.band_id) st.library.blacklist b b' on on') in
      let two_entries : 2 ≤ count_rows (is_entry user p.band_id) st''.library.blacklist =
        rw (added', added)
          (two_rows (is_entry user p.band_id) st.library.blacklist b b' (ground (arith, on))
            (ground (arith, on'))) in
      let (band, same_id, known) = block_from-band now user p read' st' out' h' in
      (
        two,
        unblock_of_two user p.band_id st'' two,
        block_of_two later user q st'' {band = band} (rw same known) future
            (rw same_id two_entries),
      )
