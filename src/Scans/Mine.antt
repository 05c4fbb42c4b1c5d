-- ===== src/Scans/Mine.antt =====
-- `ensure_collection_scan` and `curate` without a scan of backend/app/curation/engine.py: the ranking
-- of a user's own collection. The scans stand in the order of their ids.
use bandcamp_curate.Base.{
  ℕ, Bool, true, false, ◌&&◌, ◌≡◌, refl, Option, none, some, List, [], ◌∷◌, ◌==◌, ==_iff, codes,
  find, find-append_none, find_sound, Result, ok, raise, arith,
}
use bandcamp_curate.Curation.Scoring.{Floats, ScoredItem}
use bandcamp_curate.Curation.Ranking.{Stats}
use bandcamp_curate.Scans.Tables.{collection, custom, done, Scan, User, Store}
use bandcamp_curate.Scans.Queue.{new_scan, add_scan}
use bandcamp_curate.Scans.Curate.{CurateArgs, get_me, curate_as, curate}

-- A scan of the user's collection.
unfoldable pub is_mine : ℕ → Scan → Bool
is_mine user s = (s.user_id == user) && elim s.kind [ collection ↦ true | custom ↦ false ]

module _ {fl : Floats} where
  unfoldable pub ensured : ℕ → Option Scan → Store fl → Scan × Store fl
  unfolding new_scan add_scan
  ensured user (some s) st = (s, st)
  ensured user none st =
      let s = record (new_scan st.next_scan_id user (codes "My collection") collection) {
        status = done;
      } in
      (s, add_scan s st)

  unfoldable pub ensure_collection_scan : ℕ → Store fl → Scan × Store fl
  unfolding is_mine ensured
  ensure_collection_scan user st = ensured user (find (is_mine user) st.scans) st

  -- What an exception rolls back.
  unfoldable pub rolled_back :
      Store fl
      → Result (List (ScoredItem fl) × Stats) × Store fl
      → Result (List (ScoredItem fl) × Stats) × Store fl
  rolled_back st (raise e, st') = (raise e, st)
  rolled_back st (ok r, st') = (ok r, st')

  -- `curate` with the scan that is given, or with the one of the user's collection.
  unfoldable pub curate_for :
      CurateArgs → Option ℕ → User → Store fl → Result (List (ScoredItem fl) × Stats) × Store fl
  unfolding ensure_collection_scan curate curate_as get_me rolled_back
  curate_for args (some scan_id) user st = curate args scan_id st
  curate_for args none user st =
      let (s, st') = ensure_collection_scan user.id st in
      rolled_back st (curate_as args s.id s st' (get_me user st'.fans))

  ensured-again :
      (user : ℕ) (found : Option Scan) (st : Store fl)
      → find (is_mine user) st.scans ≡ found
      → (is_mine user (ensured user found st).0 ≡ true)
        × (ensured user
              (find (is_mine user) (ensured user found st).1.scans)
              (ensured user found st).1
            ≡ ((ensured user found st).0, (ensured user found st).1))
  unfolding ensured new_scan add_scan
  ensured-again user (some s) st h = (find_sound (is_mine user) st.scans h, rw h refl)
  ensured-again user none st h =
      let s : Scan = (ensured user none st).0 in
      let mine : is_mine user s ≡ true = unfold is_mine in ground (arith, ==_iff user user) in
      (mine, ground (arith, find-append_none (is_mine user) st.scans (s ∷ []) h, mine))

  -- The scan that is ensured is a collection scan of the user, and it is the one that a second call
  -- finds, which changes nothing: a user never gets two.
  pub ensure_collection_scan-again :
      (user : ℕ) (st : Store fl)
      → (is_mine user (ensure_collection_scan user st).0 ≡ true)
        × (ensure_collection_scan user (ensure_collection_scan user st).1
            ≡ ((ensure_collection_scan user st).0, (ensure_collection_scan user st).1))
  unfolding ensure_collection_scan
  ensure_collection_scan-again user st = ensured-again user (find (is_mine user) st.scans) st refl
