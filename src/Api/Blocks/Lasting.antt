-- ===== src/Api/Blocks/Lasting.antt =====
-- What a block does to the feed, at once and until it ends, and what an unblock does
-- (backend/app/api/blacklist.py and backend/app/curation/engine.py).
use bandcamp_curate.Base.{
  ℕ, Bool, true, false, ◌&&◌, Option, none, some, List, [], ◌∷◌, ◌≡◌, refl, sym, ◌∙◌, ◌==◌, ==_iff,
  find_sound, any, any_last, contains, where_rows, opt_is, Result, ok, raise, All, arith,
  Bool-cases, Option-cases, inl, inr,
}
use bandcamp_curate.Curation.Tables.{Band, Blocked, Library, scalar_set}
use bandcamp_curate.Curation.Exclusions.{in_force, my_blocks}
use bandcamp_curate.Curation.Scoring.{Floats, ScoredItem}
use bandcamp_curate.Curation.Ranking.{Request, compute_recommendations}
use bandcamp_curate.Curation.Ranking.Excluded.{
  build_exclusions-band, compute_recommendations-without,
}
use bandcamp_curate.Scans.Tables.{Store}
use bandcamp_curate.Api.Ownership.Single.{scalar_one_or_none-any}
use bandcamp_curate.Api.Ownership.{scalar_one_or_none, pruned, in_band}
use bandcamp_curate.Api.Ownership.Pruning.{Pruned, pruned-Pruned}
use bandcamp_curate.Api.Blocks.{
  BlockIn, BlacklistOut, in_future, get_band, is_entry, new_block, reactivated, update_block,
  write_block, commit_block, block_entry, block_from, block,
}

-- A row that blocks the band now.
abbrev blocking : ℕ → ℕ → ℕ → Blocked → Bool
blocking now user band b = in_force now user b && opt_is b.band_id band

my_blocks-contains :
    (now user band : ℕ) (rows : List Blocked)
    → any (blocking now user band) rows ≡ true
    → contains band (scalar_set (λ (b : Blocked). b.band_id) (where_rows (in_force now user) rows))
      ≡ true
unfolding scalar_set
my_blocks-contains now user band [] h = ground arith
my_blocks-contains now user band (b ∷ rows) h =
    let ih = my_blocks-contains now user band rows in
    elim (Bool-cases (in_force now user b)) [
      | inl f ↦ elim (Option-cases b.band_id) [
        | inl c ↦ rw (f, c) (ih (ground (arith, h, c)))
        | inr (m, c) ↦ rw (f, c) (ground (arith, h, ih, c))
      ]
      | inr f ↦ rw f (ih (ground (arith, h, f)))
    ]

update_block-any :
    (now user band id : ℕ) (p : BlockIn) (rows : List Blocked)
    → in_future now p.expires_at ≡ true
    → any (λ b. (b.id == id) && is_entry user band b) rows ≡ true
    → any (blocking now user band) (update_block id (reactivated p) rows) ≡ true
unfolding update_block reactivated is_entry in_force in_future
update_block-any now user band id p [] later h = ground arith
update_block-any now user band id p (b ∷ rows) later h = elim (Option-cases p.expires_at) [
  | inl e ↦ ground (arith, update_block-any now user band id p rows later, e)
  | inr (t, e) ↦ ground (arith, update_block-any now user band id p rows later, e)
]

write_block-any :
    (now user : ℕ) (band : Band) (p : BlockIn) (entry : Option Blocked) (lib : Library)
    → in_future now p.expires_at ≡ true
    → scalar_one_or_none (where_rows (is_entry user band.id) lib.blacklist) ≡ ok entry
    → any (blocking now user band.id) (write_block user band p entry lib).1.blacklist ≡ true
unfolding write_block new_block in_force in_future
write_block-any now user band p none lib later h =
    any_last (blocking now user band.id) lib.blacklist _ (elim (Option-cases p.expires_at) [
      | inl e ↦ ground (arith, e, ==_iff user user, ==_iff band.id band.id)
      | inr (t, e) ↦ ground (arith, e, ==_iff user user, ==_iff band.id band.id)
    ])
write_block-any now user band p (some b) lib later h =
    update_block-any now user band.id b.id p lib.blacklist later (
      scalar_one_or_none-any (is_entry user band.id) (λ c. c.id == b.id) lib.blacklist h
        (ground (arith, ==_iff b.id b.id)))

module _ {fl : Floats} where
  commit_block-bands :
      (user : ℕ) (band : Band) (p : BlockIn) (entry : Option Blocked) (st : Store fl) (n : ℕ)
      → get_band n (commit_block user band p entry st).1.library.bands ≡ get_band n st.library.bands
  unfolding commit_block write_block pruned
  commit_block-bands user band p none st n = refl
  commit_block-bands user band p (some b) st n = refl

  block_entry-answered :
      (user : ℕ) (band : Band) (p : BlockIn) (found : Result (Option Blocked)) (st : Store fl)
      (out : BlacklistOut)
      → (block_entry user band p found st).0 ≡ ok out
      → (entry : Option Blocked) × (found ≡ ok entry)
        × ((block_entry user band p found st).1 ≡ (commit_block user band p entry st).1)
  unfolding block_entry
  block_entry-answered user band p (raise e) st out h = ground (arith, h)
  block_entry-answered user band p (ok entry) st out h = (entry, refl, refl)

  -- An answer comes with the band and what the query of the entry gave.
  pub block_from-answered :
      (now user : ℕ) (p : BlockIn) (read : List Blocked) (st : Store fl) (out : BlacklistOut)
      → (block_from now user p read st).0 ≡ ok out
      → (band : Band) × (entry : Option Blocked) × (band.id ≡ p.band_id)
        × (scalar_one_or_none (where_rows (is_entry user band.id) read) ≡ ok entry)
        × ((block_from now user p read st).1 ≡ (commit_block user band p entry st).1)
  unfolding block_from get_band
  block_from-answered now user p read st out h = elim (Bool-cases (in_future now p.expires_at)) [
    | inr e ↦ ground (arith, h, e)
    | inl e ↦ elim (Option-cases (get_band p.band_id st.library.bands)) [
      | inl f ↦ ground (arith, h, e, f)
      | inr (band, f) ↦
          let found = scalar_one_or_none (where_rows (is_entry user band.id) read) in
          let answered : (block_entry user band p found st).0 ≡ ok out = ground (arith, h, e, f) in
          let (entry, queried, written) = block_entry-answered user band p found st out answered in
          (
            band,
            entry,
            ground (arith, find_sound (λ (b : Band). b.id == p.band_id) st.library.bands f),
            queried,
            rw (e, f) written,
          )
    ]
  ]

  -- An answer comes with the band, which is in the table of bands afterwards too.
  pub block_from-band :
      (now user : ℕ) (p : BlockIn) (read : List Blocked) (st : Store fl) (out : BlacklistOut)
      → (block_from now user p read st).0 ≡ ok out
      → (band : Band) × (band.id ≡ p.band_id)
        × (get_band p.band_id (block_from now user p read st).1.library.bands ≡ some band)
  unfolding block_from get_band
  block_from-band now user p read st out h = elim (Bool-cases (in_future now p.expires_at)) [
    | inr e ↦ ground (arith, h, e)
    | inl e ↦ elim (Option-cases (get_band p.band_id st.library.bands)) [
      | inl f ↦ ground (arith, h, e, f)
      | inr (band, f) ↦
          let found = scalar_one_or_none (where_rows (is_entry user band.id) read) in
          let answered : (block_entry user band p found st).0 ≡ ok out = ground (arith, h, e, f) in
          let (entry, queried, written) = block_entry-answered user band p found st out answered in
          (
            band,
            ground (arith, find_sound (λ (b : Band). b.id == p.band_id) st.library.bands f),
            rw (e, f, written) (commit_block-bands user band p entry st p.band_id ∙ f),
          )
    ]
  ]

  -- When a block is answered, whatever rows its query of the entry saw: every scan of the user has
  -- lost the items of the band and has a new generation; a scan that is not the user's has its items
  -- and its generation as before.
  pub block_from-Pruned :
      (now user : ℕ) (p : BlockIn) (read : List Blocked) (i : ℕ) (st : Store fl)
      (out : BlacklistOut)
      → (block_from now user p read st).0 ≡ ok out
      → Pruned user (in_band p.band_id st.library) i st (block_from now user p read st).1
  unfolding commit_block Pruned
  block_from-Pruned now user p read i st out h =
      let (band, entry, same, queried, written) = block_from-answered now user p read st out h in
      rw (written, sym same)
        (pruned-Pruned user (in_band band.id st.library) i
          (record st { library = (write_block user band p entry st.library).1 }))

  -- When a block is answered, no item of the band is in any ranking that is computed for the user
  -- from the tables that it leaves, with any request at a time before the block ends.
  pub block-lasting :
      (now user : ℕ) (p : BlockIn) (q : Request) (st : Store fl) (out : BlacklistOut)
      → (block now user p st).0 ≡ ok out
      → q.user ≡ user
      → in_future q.now p.expires_at ≡ true
      → All
          (λ (s : ScoredItem fl). opt_is s.band_id p.band_id ≡ false)
          (compute_recommendations fl q (block now user p st).1.library).0
  unfolding commit_block pruned block my_blocks
  block-lasting now user p q st out h own later =
      let (band, entry, same, queried, written) =
        block_from-answered now user p st.library.blacklist st out h in
      rw (written, sym same)
        (compute_recommendations-without fl q _ band.id (
          build_exclusions-band q.now q.me q.user _ band.id (
            inl (
              my_blocks-contains q.now q.user band.id _
                (rw own (write_block-any q.now user band p entry st.library later queried))))))
