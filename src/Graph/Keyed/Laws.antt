-- ===== src/Graph/Keyed/Laws.antt =====
-- A keyed table as a map from keys to ids, and what `get_or_create` does to the map.
use bandcamp_curate.Base.{
  ℕ, suc, ◌<◌, ◌≤◌, ◌≡◌, refl, ◌∙◌, ap, Bool, Option, none, some, List, [], ◌∷◌, ◌++◌, ◌==◌, ==_iff,
  if◌then◌else◌, find, opt_is, arith, Option-cases, inl, inr,
}
use mathlib.Core.Option
use bandcamp_curate.Graph.Keyed.{Keyed, update_first, insert_or_reselect, get_or_create}

module _ {A : Type 0} (id : A → ℕ) (key : A → Option ℕ) where
  abbrev pub key_is : ℕ → A → Bool
  key_is b r = opt_is (key r) b

  -- The id of the row of a key.
  unfoldable pub id_of : ℕ → Keyed A → Option ℕ
  id_of b k = Option.map id (find (key_is b) k.rows)

  -- Ids are below the sequence, and no two keys have one row.
  pub record IsKeyed (k : Keyed A) : Type 0 where
    pub below : (b i : ℕ) → id_of b k ≡ some i → i < k.next_id
    pub one_key : (b c i : ℕ) → id_of b k ≡ some i → id_of c k ≡ some i → b ≡ c

  -- What is known of the table and the row afterwards: the row of the key is there, with the id that
  -- it had or the next one, and all other keys have the rows that they had.
  pub record Done (b : ℕ) (k : Keyed A) (r : A × Keyed A) : Type 0 where
    pub map_lem : (c : ℕ) → id_of c r.1 ≡ (if b == c then some (id r.0) else id_of c k)
    pub same : (i : ℕ) → id_of b k ≡ some i → (id r.0 ≡ i) × (r.1.next_id ≡ k.next_id)
    pub fresh : id_of b k ≡ none → (id r.0 ≡ k.next_id) × (r.1.next_id ≡ suc k.next_id)

  -- The row's id is below the sequence afterwards, and is nobody else's.
  pub own_id :
      (b : ℕ) (k : Keyed A) (r : A × Keyed A)
      → Done b k r
      → IsKeyed k
      → ((id r.0 < r.1.next_id) × (k.next_id ≤ r.1.next_id))
        × ((c : ℕ) → id_of c k ≡ some (id r.0) → b ≡ c)
  own_id b k r d v = elim (Option-cases (id_of b k)) [
    | inl gone ↦
        let (at, next) = d.fresh gone in
        (
          (ground (arith, at, next), ground (arith, next)),
          λ c h. absurd (ground (arith, v.below c (id r.0) h, at)),
        )
    | inr (i, found) ↦
        let (at, next) = d.same i found in
        (
          (ground (arith, at, next, v.below b i found), ground (arith, next)),
          λ c h. v.one_key b c i found (h ∙ ap some at),
        )
  ]

  pub Done-IsKeyed : (b : ℕ) (k : Keyed A) (r : A × Keyed A) → Done b k r → IsKeyed k → IsKeyed r.1
  Done-IsKeyed b k r d v =
      let ((low, grows), own) = own_id b k r d v in
      record {
        below = λ c i h. ground (arith, d.map_lem c, v.below c i, h);
        one_key = λ c e i h h'. ground (
          arith,
          d.map_lem c,
          d.map_lem e,
          h,
          h',
          v.one_key c e i,
          own c,
          own e,
          ==_iff b c,
          ==_iff b e,
        );
      }

  module _ (b : ℕ) (enrich : A → A) (build : ℕ → A) (same_id : (r : A) → id (enrich r) ≡ id r)
      (same_key : (r : A) → key (enrich r) ≡ key r) (new_id : (n : ℕ) → id (build n) ≡ n)
      (new_key : (n : ℕ) → key (build n) ≡ some b) where
    find-update_first :
        (c : ℕ) (rows : List A)
        → Option.map id (find (key_is c) (update_first (key_is b) enrich rows))
          ≡ Option.map id (find (key_is c) rows)
    unfolding update_first
    find-update_first c [] = refl
    find-update_first c (r ∷ rows) = ground (arith, find-update_first c rows, same_id r, same_key r)

    -- A row with the key of another is not its row.
    find-snoc :
        (c : ℕ) (rows : List A) (n : ℕ)
        → find (key_is b) rows ≡ none
        → Option.map id (find (key_is c) (rows ++ build n ∷ []))
          ≡ (if b == c then some n else Option.map id (find (key_is c) rows))
    find-snoc c [] n h = ground (arith, new_id n, new_key n)
    find-snoc c (r ∷ rows) n h = ground (arith, find-snoc c rows n)

    get_or_create-found :
        (k : Keyed A) (r : A)
        → find (key_is b) k.rows ≡ some r
        → get_or_create (key_is b) enrich build (λ k. k) k
          ≡ (enrich r, record k { rows = update_first (key_is b) enrich k.rows })
    unfolding get_or_create
    get_or_create-found k r h = rw (h, get_or_create)

    get_or_create-new :
        (k : Keyed A)
        → find (key_is b) k.rows ≡ none
        → get_or_create (key_is b) enrich build (λ k. k) k ≡ (
          build k.next_id,
          record k { rows = k.rows ++ build k.next_id ∷ []; next_id = suc k.next_id },
        )
    unfolding get_or_create insert_or_reselect
    get_or_create-new k h = ground (arith, h)

    pub get_or_create-Done :
        (k : Keyed A) → Done b k (get_or_create (key_is b) enrich build (λ k. k) k)
    unfolding id_of
    get_or_create-Done k = elim (Option-cases (find (key_is b) k.rows)) [
      | inl gone ↦ rw (get_or_create-new k gone) (record {
        map_lem = λ c. find-snoc c k.rows k.next_id gone ∙ ground (arith, new_id k.next_id);
        same = λ i h. absurd (ground (arith, gone, h));
        fresh = λ h. (new_id k.next_id, refl);
      })
      | inr (r, found) ↦ rw (get_or_create-found k r found) (record {
        map_lem = λ c. find-update_first c k.rows ∙ ground (arith, found, same_id r, ==_iff b c);
        same = λ i h. (ground (arith, found, h, same_id r), refl);
        fresh = λ h. absurd (ground (arith, found, h));
      })
    ]
