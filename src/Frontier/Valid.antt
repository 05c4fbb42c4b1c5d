-- ===== src/Frontier/Valid.antt =====
-- The invariant of the table behind backend/app/crawl/frontier.py: ids and keys are unique, ids are
-- below the sequence, and every row belongs to a scan.
use bandcamp_curate.Base.{
  ℕ, suc, ◌<◌, ◌≡◌, refl, ◌∙◌, ◌⊎◌, is_some, Result, ok, raise, integrity, Bool, true, false,
  Option, none, some, List, [], ◌∷◌, ◌++◌, arith, ◌==◌, find, All, All-append, contains,
  find-append_none, Bool-cases, inl, inr,
}
use bandcamp_curate.Frontier.Tables.{Entry, Table, KeepsKey, has_key, get_by_id, update_row}
use bandcamp_curate.Frontier.Enqueue.{
  Job, new_row, lookup_job, insert, resolve_cap, at_cap, enqueue_raced,
}
use bandcamp_curate.Frontier.Rows.{same_key_symm, find_key-update_row, get_none-update_row}

-- No later row has the key or the id of an earlier one.
abbrev pub Distinct : List Entry → Type 0
Distinct [] = Unit
Distinct (e ∷ rows) =
    (find (has_key e.scan_id e.url e.kind) rows ≡ none)
    × (get_by_id e.id rows ≡ none)
    × Distinct rows

abbrev pub IdsBelow : ℕ → List Entry → Type 0
IdsBelow n = All (λ e. e.id < n)

abbrev pub Owned : List ℕ → List Entry → Type 0
Owned scans = All (λ e. contains e.scan_id scans ≡ true)

pub record IsValid (t : Table) : Type 0 where
  pub distinct : Distinct t.rows
  pub ids_below : IdsBelow t.next_id t.rows
  pub owned : Owned t.scans t.rows

IdsBelow-mono : (n m : ℕ) (rows : List Entry) → n < m → IdsBelow n rows → IdsBelow m rows
IdsBelow-mono n m [] h b = tt
IdsBelow-mono n m (e ∷ rows) h b = (omega arith, IdsBelow-mono n m rows h b.1)

-- An id that is not below is nobody's.
get_none_of_below : (n : ℕ) (rows : List Entry) → IdsBelow n rows → get_by_id n rows ≡ none
unfolding get_by_id
get_none_of_below n [] b = refl
get_none_of_below n (e ∷ rows) b = ground (arith, get_none_of_below n rows b.1, b.0)

Distinct-append :
    (rows : List Entry) (e : Entry)
    → find (has_key e.scan_id e.url e.kind) rows ≡ none
    → get_by_id e.id rows ≡ none
    → Distinct rows
    → Distinct (rows ++ e ∷ [])
unfolding get_by_id
Distinct-append [] e key id d = (refl, refl, tt)
Distinct-append (r ∷ rows) e key id d = (
  find-append_none (has_key r.scan_id r.url r.kind) rows (e ∷ []) d.0
      ∙ ground (arith, same_key_symm r e),
  find-append_none (λ x. x.id == r.id) rows (e ∷ []) d.1 ∙ ground arith,
  Distinct-append rows e (ground arith) (ground arith) d.2,
)

-- The table that a successful insert leaves.
abbrev pub inserted : ℕ → Table → Job → Table
inserted now t job = record t {
  rows = t.rows ++ new_row now t.next_id job ∷ [];
  next_id = suc t.next_id;
}

-- An insert succeeds only on a free key and an existing scan.
pub insert-some :
    (now : ℕ) (t : Table) (job : Job) {t' : Table}
    → insert now t job ≡ some t'
    → (lookup_job job t.rows ≡ none)
      × (contains job.scan_id t.scans ≡ true)
      × (t' ≡ inserted now t job)
unfolding insert
insert-some now t job e = ground arith

inserted-IsValid :
    (now : ℕ) (t : Table) (job : Job)
    → lookup_job job t.rows ≡ none
    → contains job.scan_id t.scans ≡ true
    → IsValid t
    → IsValid (inserted now t job)
unfolding new_row lookup_job
inserted-IsValid now t job free scan v = record {
  distinct =
      Distinct-append t.rows (new_row now t.next_id job) free
        (get_none_of_below t.next_id t.rows v.ids_below) v.distinct;
  ids_below =
      All-append (λ e. e.id < suc t.next_id) t.rows (new_row now t.next_id job ∷ [])
        (IdsBelow-mono t.next_id (suc t.next_id) t.rows (omega arith) v.ids_below)
        (omega arith, tt);
  owned =
      All-append (λ e. contains e.scan_id t.scans ≡ true) t.rows (new_row now t.next_id job ∷ [])
        v.owned (scan, tt);
}

-- The three ways that an enqueue ends.
pub data Ending (now : ℕ) (seen : List Entry) (t : Table) (job : Job) (cap : Bool)
    : Result Bool → Table → Type 0 where
  added :
      lookup_job job seen ≡ none
      → cap ≡ false
      → lookup_job job t.rows ≡ none
      → contains job.scan_id t.scans ≡ true
      → Ending now seen t job cap (ok true) (inserted now t job)
  kept :
      (is_some (lookup_job job seen) ≡ true)
        ⊎ ((cap ≡ true) ⊎ (is_some (lookup_job job t.rows) ≡ true))
      → Ending now seen t job cap (ok false) t
  refused :
      lookup_job job seen ≡ none
      → cap ≡ false
      → lookup_job job t.rows ≡ none
      → contains job.scan_id t.scans ≡ false
      → Ending now seen t job cap (raise integrity) t

-- An enqueue adds the row only where its key is neither in the rows that it read nor in the table,
-- the cap is not reached and the scan exists; it answers False and changes nothing where the key is
-- in either or the cap is reached; else, for a scan that does not exist, it raises and changes
-- nothing.
pub enqueue_raced-Ending :
    (now : ℕ) (setting override : Option ℕ) (seen : List Entry) (t : Table) (job : Job)
    → Ending now seen t job
        (at_cap (resolve_cap override setting) job.scan_id seen)
        (enqueue_raced now setting override seen t job).0
        (enqueue_raced now setting override seen t job).1
unfolding enqueue_raced insert
enqueue_raced-Ending now setting override seen t job = grind (arith, added, kept, refused)

Ending-IsValid :
    {now : ℕ} {seen : List Entry} {t : Table} {job : Job} {cap : Bool} {r : Result Bool}
    {t' : Table}
    → Ending now seen t job cap r t'
    → IsValid t
    → IsValid t'
Ending-IsValid (added _ _ free scan) v = inserted-IsValid _ _ _ free scan v
Ending-IsValid (kept _) v = v
Ending-IsValid (refused _ _ _ _) v = v

-- Whatever the check before it read, an enqueue keeps the invariant: the constraint decides.
pub enqueue_raced-IsValid :
    (now : ℕ) (setting override : Option ℕ) (seen : List Entry) (t : Table) (job : Job)
    → IsValid t
    → IsValid (enqueue_raced now setting override seen t job).1
enqueue_raced-IsValid now setting override seen t job v =
    Ending-IsValid (enqueue_raced-Ending now setting override seen t job) v

module _ (f : Entry → Entry) (k : KeepsKey f) where
  Distinct-update_row : (j : ℕ) (rows : List Entry) → Distinct rows → Distinct (update_row j f rows)
  unfolding update_row
  Distinct-update_row j [] d = tt
  Distinct-update_row j (e ∷ rows) d =
      let key = find_key-update_row f k e.scan_id e.url e.kind j rows d.0 in
      let id = get_none-update_row f k e.id j rows d.1 in
      let rest = Distinct-update_row j rows d.2 in
      elim (Bool-cases (e.id == j)) [
        | inl hit ↦
            rw hit (rw (k.scan_kept e, k.url_kept e, k.kind_kept e, k.id_kept e) (key, id, rest))
        | inr other ↦ rw other (key, id, rest)
      ]

  IdsBelow-update_row :
      (n j : ℕ) (rows : List Entry) → IdsBelow n rows → IdsBelow n (update_row j f rows)
  unfolding update_row
  IdsBelow-update_row n j [] b = tt
  IdsBelow-update_row n j (e ∷ rows) b =
      ground (arith, IdsBelow-update_row n j rows b.1, k.id_kept e)

  Owned-update_row :
      (s : List ℕ) (j : ℕ) (rows : List Entry) → Owned s rows → Owned s (update_row j f rows)
  unfolding update_row
  Owned-update_row s j [] o = tt
  Owned-update_row s j (e ∷ rows) o =
      let rest = Owned-update_row s j rows o.1 in
      elim (Bool-cases (e.id == j)) [
        | inl hit ↦ rw hit (rw (k.scan_kept e) (o.0, rest))
        | inr other ↦ rw other (o.0, rest)
      ]

  -- An update that leaves the keys alone keeps the invariant.
  pub update_row-IsValid :
      (j : ℕ) (t : Table) → IsValid t → IsValid (record t { rows = update_row j f t.rows })
  update_row-IsValid j t v = record {
    distinct = Distinct-update_row j t.rows v.distinct;
    ids_below = IdsBelow-update_row t.next_id j t.rows v.ids_below;
    owned = Owned-update_row t.scans j t.rows v.owned;
  }
