-- ===== src/Api/Blocks/Listing.antt =====
-- The Blocked panel and the curation agree (backend/app/api/blacklist.py,
-- backend/app/curation/engine.py).
use bandcamp_curate.Base.{
  ℕ, Bool, ◌||◌, Option, some, List, [], ◌∷◌, ◌≡◌, refl, ◌==◌, ==_iff, Text, find_sound, any,
  contains, where_rows, arith, Bool-cases, Option-cases, inl, inr,
}
use bandcamp_curate.Curation.Tables.{Band, Blocked, Library, scalar_set}
use bandcamp_curate.Curation.Exclusions.{in_force, my_blocks}
use bandcamp_curate.Api.Blocks.{
  BlacklistOut, get_band, is_listed, block_answer, place_block, blocked_rows, list_blocked,
}

-- The two conditions, of the panel and of the exclusions, are one.
is_listed-in_force : (now user : ℕ) (b : Blocked) → is_listed now user b ≡ in_force now user b
unfolding is_listed in_force
is_listed-in_force now user b = refl

abbrev for_band : ℕ → BlacklistOut → Bool
for_band band r = r.band_id == band

any-place_block :
    (earlier : Option Text → Option Text → Bool) (test : BlacklistOut → Bool) (r : BlacklistOut)
    (rows : List BlacklistOut)
    → any test (place_block earlier r rows) ≡ (test r || any test rows)
unfolding place_block
any-place_block earlier test r [] = refl
any-place_block earlier test r (s ∷ rows) = ground (arith, any-place_block earlier test r rows)

listed-blocked :
    (earlier : Option Text → Option Text → Bool) (now user band : ℕ) (bands : List Band)
    (blocks : List Blocked) {b : Band}
    → get_band band bands ≡ some b
    → any (for_band band) (blocked_rows earlier now user bands blocks)
      ≡ contains band
          (scalar_set (λ (b : Blocked). b.band_id) (where_rows (in_force now user) blocks))
unfolding blocked_rows scalar_set block_answer get_band
listed-blocked earlier now user band bands [] known = refl
listed-blocked earlier now user band bands (k ∷ blocks) {b} known =
    let ih = listed-blocked earlier now user band bands blocks {b = b} known in
    rw (is_listed-in_force now user k) (elim (Bool-cases (in_force now user k)) [
      | inr f ↦ rw f ih
      | inl f ↦ elim (Option-cases k.band_id) [
        | inl c ↦ rw (f, c) ih
        | inr (m, c) ↦ elim (Option-cases (get_band m bands)) [
          | inl g ↦ rw (f, c, g) (ground (arith, ih, g, known, ==_iff m band))
          | inr (a, g) ↦
              rw (f, c, g, any-place_block earlier (for_band band))
                (ground (
                  arith,
                  ih,
                  ==_iff a.id m,
                  ==_iff m band,
                  ==_iff a.id band,
                  find_sound (λ (a : Band). a.id == m) bands g,
                ))
        ]
      ]
    ])

-- A band that is in the table of bands is listed as blocked just if a block of it keeps it out of
-- the user's rankings: the condition of the panel's query and that of the exclusions agree.
pub list_blocked-my_blocks :
    (earlier : Option Text → Option Text → Bool) (now user band : ℕ) (lib : Library) {b : Band}
    → get_band band lib.bands ≡ some b
    → any (for_band band) (list_blocked earlier now user lib)
      ≡ contains band (scalar_set (λ (b : Blocked). b.band_id) (my_blocks now user lib))
unfolding list_blocked my_blocks
list_blocked-my_blocks earlier now user band lib {b} known =
    listed-blocked earlier now user band lib.bands lib.blacklist {b = b} known
