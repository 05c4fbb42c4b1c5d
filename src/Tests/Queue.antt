-- ===== src/Tests/Queue.antt =====
-- Two entries of one scan, and the theorems on the frontier for them.
use bandcamp_curate.Base.{
  same_text, ◌<◌, ◌≡◌, refl, ◌⊎◌, true, false, none, some, [], ◌∷◌, All, codes, any, arith,
}
use bandcamp_curate.Frontier.Tables.{
  album, fan_collection, pending, in_progress, Entry, Table, get_by_id, update_row, has_key,
  same_kind, same_status,
}
use bandcamp_curate.Frontier.Enqueue.{enqueue_raced, resolve_cap, at_cap, Job}
use bandcamp_curate.Frontier.Claim.{alone, eligible, before, claimed, cas, claim_next}
use bandcamp_curate.Frontier.Marks.{mark_retryable, on_retryable, pending_count}
use bandcamp_curate.Frontier.Valid.{IsValid, Ending, enqueue_raced-Ending}
use bandcamp_curate.Frontier.Interleaving.{take, finish, run, apply}
use bandcamp_curate.Frontier.Exclusive.{gives_back, cas-exclusive}
use bandcamp_curate.Frontier.Order.{In}
use bandcamp_curate.Frontier.Claiming.{claim_next_quiet, mark_retryable_visible}

abbrev pub album_entry : Entry
album_entry = record {
  id = 1;
  scan_id = 5;
  url = codes "https://x.y/album/z";
  kind = album;
  status = pending;
  attempts = 0;
  priority = 10;
  depth = 1;
  last_error = none;
  timeout_count = 0;
  cursor = none;
  updated_at = 0;
}

abbrev pub fan_entry : Entry
fan_entry = record {
  id = 2;
  scan_id = 5;
  url = codes "https://x.y/fan";
  kind = fan_collection;
  status = pending;
  attempts = 0;
  priority = 100;
  depth = 0;
  last_error = none;
  timeout_count = 0;
  cursor = none;
  updated_at = 0;
}

abbrev pub two_entries : Table
two_entries = record { rows = album_entry ∷ fan_entry ∷ []; next_id = 3; scans = 5 ∷ [] }

abbrev album_job : Job
album_job = record {
  scan_id = 5;
  url = codes "https://x.y/album/w";
  kind = album;
  priority = 10;
  depth = 1;
}

pub two_entries-IsValid : IsValid two_entries
unfolding has_key same_kind get_by_id same_text
two_entries-IsValid = record {
  distinct = (refl, refl, (refl, refl, tt));
  ids_below = (omega arith, (omega arith, tt));
  owned = (refl, (refl, tt));
}

enqueue_raced-Ending_example :
    Ending 1 [] two_entries album_job
      (at_cap (resolve_cap none (some 4)) 5 [])
      (enqueue_raced 1 (some 4) none [] two_entries album_job).0
      (enqueue_raced 1 (some 4) none [] two_entries album_job).1
enqueue_raced-Ending_example = enqueue_raced-Ending 1 (some 4) none [] two_entries album_job

claim_next_quiet_example :
    ((claim_next 9 3 5 [] alone two_entries ≡ (none, two_entries))
      × All (λ f. eligible 9 3 5 [] f ≡ false) two_entries.rows)
    ⊎ ((e : Entry) × In e two_entries.rows
        × (eligible 9 3 5 [] e ≡ true)
        × All (λ f. eligible 9 3 5 [] f ≡ true → before f e ≡ false) two_entries.rows
        × (claim_next 9 3 5 [] alone two_entries ≡ (
          some (claimed 9 e),
          record two_entries { rows = update_row e.id (claimed 9) two_entries.rows },
        )))
claim_next_quiet_example = claim_next_quiet 9 3 5 [] two_entries two_entries-IsValid

abbrev pub fan_claimed : Entry
fan_claimed = record fan_entry { status = in_progress; attempts = 1; updated_at = 9 }

pub claimed_fan : (claim_next 9 3 5 [] alone two_entries).0 ≡ some fan_claimed
unfolding claim_next same_status before update_row
claimed_fan = refl

album_eligible : eligible 9 3 5 [] album_entry ≡ true
unfolding eligible same_status
album_eligible = refl

pub album_found : get_by_id 1 two_entries.rows ≡ some album_entry
unfolding get_by_id
album_found = refl

mark_retryable_visible_example :
    let t' = mark_retryable 7 1 (codes "TimeoutError") two_entries in
    (get_by_id 1 t'.rows ≡ some (on_retryable 7 (codes "TimeoutError") album_entry))
    × ((on_retryable 7 (codes "TimeoutError") album_entry).cursor ≡ album_entry.cursor)
    × (0 < pending_count none 5 t'.rows)
    × ((c : Entry) × ((claim_next 9 3 5 [] alone t').0 ≡ some c))
mark_retryable_visible_example =
    mark_retryable_visible 7 9 3 1 (codes "TimeoutError") two_entries album_entry
      two_entries-IsValid album_found

album_won : (cas 4 album_entry two_entries.rows).1 ≡ true
unfolding cas same_status
album_won = refl

fan_writes-quiet : any (gives_back 1) (take 5 fan_entry ∷ finish 6 2 ∷ []) ≡ false
unfolding gives_back
fan_writes-quiet = refl

cas-exclusive_example :
    (cas 8 album_entry
      (run none
        (take 5 fan_entry ∷ finish 6 2 ∷ [])
        (apply none (take 4 album_entry) two_entries)).rows).1
    ≡ false
cas-exclusive_example =
    cas-exclusive none 4 8 album_entry two_entries (take 5 fan_entry ∷ finish 6 2 ∷ []) refl
      album_won fan_writes-quiet
