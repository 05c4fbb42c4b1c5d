-- ===== src/Crawl/Visit/Loops.antt =====
-- Loops that spend a budget of pages (backend/app/crawl/service.py, `crawl_fan_collection`): what it
-- takes for a loop to go on from where it stopped, and that loops in sequence do.
use bandcamp_curate.Base.{
  ℕ, zero, suc, ◌+◌, ◌≡◌, refl, ◌∙◌, sym, ap, Option, none, some, Text, Result, ok, raise, arith,
  Option-cases, inl, inr, ◌⊎◌,
}
use bandcamp_curate.Frontier.Tables.{Cursor}
use bandcamp_curate.Crawl.Visit.{Visit, live, after_round, page_through, and_then}

abbrev pub Loop : Type 0 → Type 0
Loop N = ℕ → Visit N → Result ℕ × Visit N

module _ {N : Type 0} where
  -- What holds of a result that is no error.
  abbrev pub After : (ℕ → Visit N → Type 0) → Result ℕ × Visit N → Type 0
  After P (raise e, s) = Unit {0}
  After P (ok left, s) = P left s

  abbrev pub Keeps : (Visit N → Type 0) → Loop N → Type 0
  Keeps P run = (n : ℕ) (s : Visit N) → P s → After (λ left s'. P s') (run n s)

  -- A loop that goes on from where it stopped, with what is left of the budget and more; it stops
  -- with the budget spent or at its end.
  pub record IsLoop (run : Loop N) (End : Visit N → Type 0) : Type 0 where
    pub spent : (s : Visit N) → run 0 s ≡ (ok 0, s)
    pub more :
        (n m : ℕ) (s : Visit N) → and_then (run n s) (λ left s'. run (left + m) s') ≡ run (n + m) s
    pub stops : (n : ℕ) (s : Visit N) → After (λ left s'. (left ≡ 0) ⊎ End s') (run n s)
    pub idle : (n : ℕ) (s : Visit N) → End s → run n s ≡ (ok n, s)

  -- Continuations that agree where they are called.
  and_then-cong :
      (r : Result ℕ × Visit N) (P : ℕ → Visit N → Type 0) (f g : Loop N)
      → After P r
      → ((n : ℕ) (s : Visit N) → P n s → f n s ≡ g n s)
      → and_then r f ≡ and_then r g
  unfolding and_then
  and_then-cong (raise e, s) P f g h k = refl
  and_then-cong (ok n, s) P f g h k = k n s h

  and_then_assoc :
      (r : Result ℕ × Visit N) (f g : Loop N)
      → and_then (and_then r f) g ≡ and_then r (λ n s. and_then (f n s) g)
  unfolding and_then
  and_then_assoc (raise e, s) f g = refl
  and_then_assoc (ok n, s) f g = refl

  pub After-and_then :
      (r : Result ℕ × Visit N) (f : Loop N) (P Q : ℕ → Visit N → Type 0)
      → After P r
      → ((n : ℕ) (s : Visit N) → P n s → After Q (f n s))
      → After Q (and_then r f)
  unfolding and_then
  After-and_then (raise e, s) f P Q h k = tt
  After-and_then (ok n, s) f P Q h k = k n s h

  pub After-map :
      (r : Result ℕ × Visit N) (P Q : ℕ → Visit N → Type 0)
      → After P r
      → ((n : ℕ) (s : Visit N) → P n s → Q n s)
      → After Q r
  After-map (raise e, s) P Q h k = tt
  After-map (ok n, s) P Q h k = k n s h

  pub After-both :
      (r : Result ℕ × Visit N) (P Q : ℕ → Visit N → Type 0)
      → After P r
      → After Q r
      → After (λ n s. P n s × Q n s) r
  After-both (raise e, s) P Q h k = tt
  After-both (ok n, s) P Q h k = (h, k)

  abbrev pub seq : Loop N → Loop N → Loop N
  seq f g n s = and_then (f n s) g

  pub seq-Keeps : (f g : Loop N) (P : Visit N → Type 0) → Keeps P f → Keeps P g → Keeps P (seq f g)
  seq-Keeps f g P p q n s h =
      After-and_then (f n s) g (λ left s'. P s') (λ left s'. P s') (p n s h)
        (λ n' s' h'. q n' s' h')

  module _ (f g : Loop N) (E F : Visit N → Type 0) (l : IsLoop f E) (k : IsLoop g F)
      (kept : Keeps E g) where
    -- The second loop and then both again, from where the first has stopped.
    seq_again :
        (m n : ℕ) (s : Visit N)
        → (n ≡ 0) ⊎ E s
        → and_then (g n s) (λ left s'. seq f g (left + m) s') ≡ and_then (f (n + m) s) g
    unfolding and_then
    seq_again m n s (inl nil) = rw (nil, k.spent s) refl
    seq_again m n s (inr end) =
        and_then-cong (g n s) (λ left s'. E s') (λ left s'. seq f g (left + m) s')
          (λ left s'. g (left + m) s') (kept n s end)
          (λ left s' e. ap (λ r. and_then r g) (l.idle (left + m) s' e))
        ∙ (k.more n m s ∙ sym (ap (λ r. and_then r g) (l.idle (n + m) s end)))

    seq_stops :
        (n : ℕ) (s : Visit N)
        → (n ≡ 0) ⊎ E s
        → After (λ left s'. (left ≡ 0) ⊎ (E s' × F s')) (g n s)
    seq_stops n s (inl nil) = rw (nil, k.spent s) (inl refl)
    seq_stops n s (inr end) =
        After-map (g n s) (λ left s'. E s' × ((left ≡ 0) ⊎ F s'))
          (λ left s'. (left ≡ 0) ⊎ (E s' × F s'))
          (After-both (g n s) (λ left s'. E s') (λ left s'. (left ≡ 0) ⊎ F s') (kept n s end)
            (k.stops n s))
          (λ left s' (e, h). elim h [ inl nil ↦ inl nil | inr end' ↦ inr (e, end') ])

    pub seq-IsLoop : IsLoop (seq f g) (λ s. E s × F s)
    unfolding and_then
    seq-IsLoop = record {
      spent = λ s. rw (l.spent s) (k.spent s);
      more = λ n m s.
          and_then_assoc (f n s) g (λ left s'. seq f g (left + m) s')
          ∙ (and_then-cong (f n s) (λ left s'. (left ≡ 0) ⊎ E s')
                (λ left s'. and_then (g left s') (λ left' s''. seq f g (left' + m) s''))
                (λ left s'. and_then (f (left + m) s') g) (l.stops n s) (seq_again m)
              ∙ (sym (and_then_assoc (f n s) (λ left s'. f (left + m) s') g)
                  ∙ ap (λ r. and_then r g) (l.more n m s)));
      stops = λ n s.
          After-and_then (f n s) g (λ left s'. (left ≡ 0) ⊎ E s')
            (λ left s'. (left ≡ 0) ⊎ (E s' × F s')) (l.stops n s) seq_stops;
      idle = λ n s (e, e'). rw (l.idle n s e) (k.idle n s e');
    }

-- What holds of a round that is no error.
abbrev pub AfterRound : {N : Type 0} → (Visit N → Type 0) → Result (Unit {0}) × Visit N → Type 0
AfterRound P (raise e, s) = Unit {0}
AfterRound P (ok u, s) = P s

module _ {N : Type 0} (step : Text → Visit N → Result (Unit {0}) × Visit N)
    (stream : Cursor → Option Text) where
  round_more :
      (r : Result (Unit {0}) × Visit N) (f g : Visit N → Result ℕ × Visit N) (k : Loop N)
      → ((s : Visit N) → and_then (f s) k ≡ g s)
      → and_then (after_round r f) k ≡ after_round r g
  unfolding and_then
  round_more (raise e, s) f g k eq = refl
  round_more (ok u, s) f g k eq = eq s

  pub page_through-idle :
      (n : ℕ) (s : Visit N)
      → live (stream s.tokens) ≡ none
      → page_through step stream n s ≡ (ok n, s)
  unfolding page_through
  page_through-idle zero s h = refl
  page_through-idle (suc n) s h = rw (h, page_through) refl

  pub page_through-turn :
      (n : ℕ) (s : Visit N) (token : Text)
      → live (stream s.tokens) ≡ some token
      → page_through step stream (suc n) s ≡ after_round (step token s) (page_through step stream n)
  unfolding page_through
  page_through-turn n s token h = rw (h, page_through) refl

  page_through-more :
      (n m : ℕ) (s : Visit N)
      → and_then (page_through step stream n s) (λ left s'. page_through step stream (left + m) s')
        ≡ page_through step stream (n + m) s
  unfolding page_through and_then
  page_through-more zero m s = refl
  page_through-more (suc n) m s = elim (Option-cases (live (stream s.tokens))) [
    | inl gone ↦ rw (page_through-idle (suc n) s gone) refl
    | inr (token, found) ↦ rw (page_through-turn n s token found) (
        round_more (step token s) (page_through step stream n) (page_through step stream (n + m))
          (λ left s'. page_through step stream (left + m) s') (page_through-more n m)
        ∙ (sym (page_through-turn (n + m) s token found)
            ∙ ap (λ k. page_through step stream k s) {x = suc (n + m)} (ground arith)))
  ]

  pub round-After :
      (r : Result (Unit {0}) × Visit N) (f : Visit N → Result ℕ × Visit N) (P : Visit N → Type 0)
      (Q : ℕ → Visit N → Type 0)
      → AfterRound P r
      → ((s : Visit N) → P s → After Q (f s))
      → After Q (after_round r f)
  round-After (raise e, s) f P Q h k = tt
  round-After (ok u, s) f P Q h k = k s h

  any_round : (r : Result (Unit {0}) × Visit N) → AfterRound (λ s. Unit {0}) r
  any_round (raise e, s) = tt
  any_round (ok u, s) = tt

  page_through-stops :
      (n : ℕ) (s : Visit N)
      → After
          (λ left s'. (left ≡ 0) ⊎ (live (stream s'.tokens) ≡ none))
          (page_through step stream n s)
  unfolding page_through
  page_through-stops zero s = inl refl
  page_through-stops (suc n) s = elim (Option-cases (live (stream s.tokens))) [
    | inl gone ↦ rw (page_through-idle (suc n) s gone) (inr gone)
    | inr (token, found) ↦ rw (page_through-turn n s token found) (
        round-After (step token s) (page_through step stream n) (λ s'. Unit {0})
          (λ left s'. (left ≡ 0) ⊎ (live (stream s'.tokens) ≡ none)) (any_round (step token s))
          (λ s' _. page_through-stops n s'))
  ]

  pub page_through-IsLoop : IsLoop (page_through step stream) (λ s. live (stream s.tokens) ≡ none)
  unfolding page_through
  page_through-IsLoop = record {
    spent = λ s. refl;
    more = page_through-more;
    stops = page_through-stops;
    idle = page_through-idle;
  }

  -- What every round keeps, the loop keeps.
  pub page_through-Keeps :
      (P : Visit N → Type 0)
      → ((token : Text) (s : Visit N) → P s → AfterRound P (step token s))
      → Keeps P (page_through step stream)
  unfolding page_through
  page_through-Keeps P kept zero s h = h
  page_through-Keeps P kept (suc n) s h = elim (Option-cases (live (stream s.tokens))) [
    | inl gone ↦ rw (page_through-idle (suc n) s gone) h
    | inr (token, found) ↦ rw (page_through-turn n s token found) (
        round-After (step token s) (page_through step stream n) P (λ left s'. P s') (kept token s h)
          (page_through-Keeps P kept n))
  ]

  -- What every round keeps, also where it raises, the loop keeps, also where it raises.
  round_always :
      (P : Visit N → Type 0) (r : Result (Unit {0}) × Visit N) (f : Visit N → Result ℕ × Visit N)
      → P r.1
      → ((s : Visit N) → P s → P (f s).1)
      → P (after_round r f).1
  round_always P (raise e, s) f h k = h
  round_always P (ok u, s) f h k = k s h

  pub page_through-always :
      (P : Visit N → Type 0)
      → ((token : Text) (s : Visit N) → P s → P (step token s).1)
      → (n : ℕ) (s : Visit N) → P s
      → P (page_through step stream n s).1
  unfolding page_through
  page_through-always P kept zero s h = h
  page_through-always P kept (suc n) s h = elim (Option-cases (live (stream s.tokens))) [
    | inl gone ↦ rw (page_through-idle (suc n) s gone) h
    | inr (token, found) ↦ rw (page_through-turn n s token found) (
        round_always P (step token s) (page_through step stream n) (kept token s h)
          (page_through-always P kept n))
  ]
