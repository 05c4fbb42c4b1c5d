-- ===== src/Curation/Sizes/Labels.antt =====
-- The labels of the size report (backend/app/curation/engine.py), as texts.
use bandcamp_curate.Base.{
  any-append, some, ◌≢◌, ℕ, ◌≤◌, ◌<◌, Bool, true, false, ◌&&◌, List, [], ◌∷◌, ◌++◌, ◌≡◌, refl, ltb,
  Text, codes, decimal, decimal-digits, decimal-injective, same_text, same_text_iff, any, All,
  arith, Bool-cases, inl, inr,
}
use bandcamp_curate.Curation.Sizes.Columns.{no_repeats}
use bandcamp_curate.Curation.Sizes.{last_of, top_label, size_bucket_order, range_label, labels_from}

-- Each bound is greater than the one before it.
unfoldable pub ascending : List ℕ → Bool
ascending [] = true
ascending (b ∷ []) = true
ascending (b ∷ c ∷ bounds) = ltb b c && ascending (c ∷ bounds)

-- Where two numbers end in a text is where its first character that is no digit stands.
split_digits :
    (s t : Text) (c d : ℕ) (u v : Text)
    → All (λ x. 48 ≤ x) s
    → All (λ x. 48 ≤ x) t
    → c < 48
    → d < 48
    → s ++ c ∷ u ≡ t ++ d ∷ v
    → (c ≡ d) × (u ≡ v)
split_digits [] [] c d u v hs ht hc hd h = ground (arith, h)
split_digits [] (y ∷ t) c d u v hs ht hc hd h = ground (arith, h, ht.0)
split_digits (x ∷ s) [] c d u v hs ht hc hd h = ground (arith, h, hs.0)
split_digits (x ∷ s) (y ∷ t) c d u v hs ht hc hd h =
    split_digits s t c d u v hs.1 ht.1 hc hd (ground (arith, h))

range_label-upper : (lo b lo' b' : ℕ) → range_label lo b ≡ range_label lo' b' → b ≡ b'
unfolding range_label
range_label-upper lo b lo' b' h =
    decimal-injective b b'
      (split_digits (decimal lo) (decimal lo') 45 45 (decimal b) (decimal b') (decimal-digits lo)
        (decimal-digits lo') (omega arith) (omega arith) h).1

range_label-top : (lo b top : ℕ) → range_label lo b ≢ decimal top ++ codes "+"
unfolding range_label
range_label-top lo b top h =
    let same : ◌≡◌ {A = ℕ} 45 43 =
      (split_digits (decimal lo) (decimal top) 45 43 (decimal b) [] (decimal-digits lo)
        (decimal-digits top) (omega arith) (omega arith) h).0 in
    omega arith

-- A range below others is none of them.
any-labels_from :
    (lo b from : ℕ) (bounds : List ℕ)
    → b ≤ from
    → ascending (from ∷ bounds) ≡ true
    → any (same_text (range_label lo b)) (labels_from from bounds) ≡ false
unfolding labels_from ascending
any-labels_from lo b from [] le up = refl
any-labels_from lo b from (c ∷ bounds) le up =
    let less : from < c = ground (arith, up) in
    let rest = any-labels_from lo b c bounds (omega arith) (ground (arith, up)) in
    elim (Bool-cases (same_text (range_label lo b) (range_label from c))) [
      | inl e ↦
          let same =
            range_label-upper lo b from c
              ((same_text_iff (range_label lo b) (range_label from c)).0 e) in
          absurd (omega (arith, same))
      | inr e ↦ ground (arith, e, rest)
    ]

ascending_rest : (b : ℕ) (bounds : List ℕ) → ascending (b ∷ bounds) ≡ true → ascending bounds ≡ true
unfolding ascending
ascending_rest b [] up = refl
ascending_rest b (c ∷ bounds) up = ground (arith, up)

no_repeats-labels_from :
    (lo top : ℕ) (bounds : List ℕ)
    → ascending bounds ≡ true
    → no_repeats (labels_from lo bounds ++ (decimal top ++ codes "+") ∷ []) ≡ true
unfolding no_repeats labels_from
no_repeats-labels_from lo top [] up = refl
no_repeats-labels_from lo top (b ∷ bounds) up =
    let l = range_label lo b in
    let plus = decimal top ++ codes "+" in
    let differs : same_text l plus ≡ false = elim (Bool-cases (same_text l plus)) [
      | inl e ↦ absurd (range_label-top lo b top ((same_text_iff l plus).0 e))
      | inr e ↦ e
    ] in
    ground (
      arith,
      any-append (same_text l) (labels_from b bounds) (plus ∷ []),
      any-labels_from lo b b bounds (omega arith) up,
      differs,
      no_repeats-labels_from b top bounds (ascending_rest b bounds up),
    )

-- Buckets whose bounds ascend have labels, and no two of them are the same text.
pub size_bucket_order_distinct :
    (b : ℕ) (bounds : List ℕ)
    → ascending (b ∷ bounds) ≡ true
    → (labels : List Text) × (size_bucket_order (b ∷ bounds) ≡ some labels)
      × (no_repeats labels ≡ true)
unfolding size_bucket_order top_label
size_bucket_order_distinct b bounds up = (
  labels_from 0 (b ∷ bounds) ++ (decimal (last_of b bounds) ++ codes "+") ∷ [],
  refl,
  no_repeats-labels_from 0 (last_of b bounds) (b ∷ bounds) up,
)
