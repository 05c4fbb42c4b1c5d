-- ===== src/Api/Recompute/Cooldown.antt =====
-- The cooldown of backend/app/api/feed.py over any sequence of calls.
use bandcamp_curate.Base.{
  Error, ℕ, ◌+◌, ◌≤◌, ◌<◌, true, false, Option, some, List, [], ◌∷◌, ◌==◌, ==_iff, ltb,
  if◌then◌else◌, ◌≡◌, refl, subst, ◌⊎◌, inl, inr, Result, ok, raise, arith, Bool-cases,
}
use bandcamp_curate.Curation.Scoring.{Floats}
use bandcamp_curate.Scans.Tables.{Store}
use bandcamp_curate.Api.Recompute.Stamps.{last_of-put_last, last_of-restore_last}
use bandcamp_curate.Api.Recompute.{
  is_value_error, Error, Stamp, last_of, put_last, Reply, computed, missing, too_recent,
  foreign_scan, cooling, retry_after, after_curate, recompute,
}

-- A user who has called at `since` or later.
abbrev Called : ℕ → ℕ → List Stamp → Type 0
Called user since stamps = (t : ℕ) × (last_of user stamps ≡ some t) × (since ≤ t)

-- A request of somebody, at some time, for some scan, with what `curate` does then.
pub record Call (fl : Floats) : Type 0 where
  pub now : ℕ
  pub user : ℕ
  pub scan_id : Option ℕ
  pub work : Store fl → Result ℕ × Store fl

module _ {fl : Floats} where
  abbrev pub stamps_of : Reply × List Stamp × Store fl → List Stamp
  stamps_of r = r.1

  -- The state after a sequence of calls.
  unfoldable pub run_calls : ℕ → List (Call fl) → List Stamp × Store fl → List Stamp × Store fl
  unfolding recompute
  run_calls cooldown [] s = s
  run_calls cooldown (c ∷ calls) (stamps, st) =
      let (_, stamps', st') = recompute cooldown c.now c.user c.scan_id c.work stamps st in
      run_calls cooldown calls (stamps', st')

  after_curate-last :
      (cooldown user now v : ℕ) (done : Result ℕ × Store fl) (stamps : List Stamp)
      → last_of v (
            stamps_of
              (after_curate cooldown user (last_of user stamps) done (put_last user now stamps)))
          ≡ last_of v stamps
        ⊎ last_of v (
            stamps_of
              (after_curate cooldown user (last_of user stamps) done (put_last user now stamps)))
          ≡ last_of v (put_last user now stamps)
  unfolding after_curate
  after_curate-last cooldown user now v (ok n, st) stamps = inr refl
  after_curate-last cooldown user now v (raise e, st) stamps =
      ground (arith, last_of-restore_last user now v (last_of user stamps) stamps refl)

  accepted-Called :
      (cooldown since v now user : ℕ) (done : Result ℕ × Store fl) (stamps : List Stamp) (t : ℕ)
      → last_of v stamps ≡ some t
      → since ≤ t
      → cooling cooldown now (last_of user stamps) ≡ false
      → Called v since (
          stamps_of
            (after_curate cooldown user (last_of user stamps) done (put_last user now stamps)))
  unfolding cooling
  accepted-Called cooldown since v now user done stamps t last late warm =
      elim (after_curate-last cooldown user now v done stamps) [
        | inl e ↦ (t, rw e last, late)
        | inr e ↦ elim (Bool-cases (v == user)) [
          | inr other ↦
              (t, ground (arith, e, last, last_of-put_last user now v stamps, other), late)
          | inl own ↦ (
            now,
            ground (arith, e, last_of-put_last user now v stamps, own),
            (let mine : last_of user stamps ≡ some t =
                  subst (λ u. last_of u stamps ≡ some t) ((==_iff v user).0 own) last in
                let passed : ltb now (t + cooldown) ≡ false =
                  subst (λ o. cooling cooldown now o ≡ false) mine warm in
                ground (arith, passed, late)),
          )
        ]
      ]

  -- A call of anybody leaves a user's window at least as late.
  recompute-Called :
      (cooldown since v : ℕ) (c : Call fl) (stamps : List Stamp) (st : Store fl)
      → 0 < cooldown
      → Called v since stamps
      → Called v since (stamps_of (recompute cooldown c.now c.user c.scan_id c.work stamps st))
  unfolding recompute
  recompute-Called cooldown since v c stamps st on (t, last, late) =
      let kept : Called v since stamps = (t, last, late) in
      elim (Bool-cases (foreign_scan c.user c.scan_id st.scans)) [
        | inl e ↦ rw e kept
        | inr e ↦ elim (Bool-cases (ltb 0 cooldown)) [
          | inr off ↦ ground (arith, on, off)
          | inl o ↦ elim (Bool-cases (cooling cooldown c.now (last_of c.user stamps))) [
            | inl cold ↦ rw (e, o, cold) kept
            | inr warm ↦
                rw (e, o, warm)
                  (accepted-Called cooldown since v c.now c.user (c.work st) stamps t last late
                    warm)
          ]
        ]
      ]

  run_calls-Called :
      (cooldown since v : ℕ) (calls : List (Call fl)) (stamps : List Stamp) (st : Store fl)
      → 0 < cooldown
      → Called v since stamps
      → Called v since (run_calls cooldown calls (stamps, st)).0
  unfolding run_calls
  run_calls-Called cooldown since v [] stamps st on called = called
  run_calls-Called cooldown since v (c ∷ calls) stamps st on called =
      run_calls-Called cooldown since v calls _ _ on
        (recompute-Called cooldown since v c stamps st on called)

  after_curate-computed :
      (cooldown user now n : ℕ) (previous : Option ℕ) (done : Result ℕ × Store fl)
      (stamps : List Stamp)
      → (after_curate cooldown user previous done (put_last user now stamps)).0 ≡ computed n
      → Called user now
          (stamps_of (after_curate cooldown user previous done (put_last user now stamps)))
  unfolding after_curate
  after_curate-computed cooldown user now n previous (ok m, st) stamps h =
      (now, ground (arith, last_of-put_last user now user stamps, ==_iff user user), omega arith)
  after_curate-computed cooldown user now n previous (raise e, st) stamps h = ground (arith, h)

  recompute-computed :
      (cooldown n : ℕ) (c : Call fl) (stamps : List Stamp) (st : Store fl)
      → 0 < cooldown
      → (recompute cooldown c.now c.user c.scan_id c.work stamps st).0 ≡ computed n
      → Called c.user c.now (stamps_of (recompute cooldown c.now c.user c.scan_id c.work stamps st))
  unfolding recompute
  recompute-computed cooldown n c stamps st on h =
      elim (Bool-cases (foreign_scan c.user c.scan_id st.scans)) [
        | inl e ↦ ground (arith, h, e)
        | inr e ↦ elim (Bool-cases (ltb 0 cooldown)) [
          | inr off ↦ ground (arith, on, off)
          | inl o ↦ elim (Bool-cases (cooling cooldown c.now (last_of c.user stamps))) [
            | inl cold ↦ ground (arith, h, e, o, cold)
            | inr warm ↦
                rw (e, o, warm)
                  (after_curate-computed cooldown c.user c.now n (last_of c.user stamps) (c.work st)
                    stamps (ground (arith, h, e, o, warm)))
          ]
        ]
      ]

  -- A refusal: 404 or 429, with nothing changed.
  abbrev pub Refused : Reply × List Stamp × Store fl → List Stamp × Store fl → Type 0
  Refused r s = ((r.0 ≡ missing) ⊎ ((n : ℕ) × (r.0 ≡ too_recent n))) × (r.1 ≡ s.0) × (r.2 ≡ s.1)

  cooling-Refused :
      (cooldown since : ℕ) (c : Call fl) (s : List Stamp × Store fl)
      → 0 < cooldown
      → Called c.user since s.0
      → c.now < since + cooldown
      → Refused (recompute cooldown c.now c.user c.scan_id c.work s.0 s.1) s
  unfolding recompute cooling
  cooling-Refused cooldown since c s on (t, last, late) soon =
      let cold : cooling cooldown c.now (last_of c.user s.0) ≡ true =
        rw last (ground (arith, soon, late)) in
      elim (Bool-cases (foreign_scan c.user c.scan_id s.1.scans)) [
        | inl e ↦ rw e (inl refl, refl, refl)
        | inr e ↦ elim (Bool-cases (ltb 0 cooldown)) [
          | inr off ↦ ground (arith, on, off)
          | inl o ↦
              rw (e, o, cold)
                (inr (retry_after cooldown c.now (last_of c.user s.0), refl), refl, refl)
        ]
      ]

  -- With a cooldown: once a call of a user has computed, no call of that user less than the cooldown
  -- later computes or runs `curate`, whatever calls of anybody come in between, at whatever times
  -- and with whatever results and exceptions of `curate`; it is refused and changes nothing.
  pub recompute-Refused :
      (cooldown n : ℕ) (c later : Call fl) (between : List (Call fl)) (stamps : List Stamp)
      (st : Store fl)
      → 0 < cooldown
      → (recompute cooldown c.now c.user c.scan_id c.work stamps st).0 ≡ computed n
      → later.user ≡ c.user
      → later.now < c.now + cooldown
      → Refused
          (recompute cooldown later.now later.user later.scan_id later.work
            (run_calls cooldown (c ∷ between) (stamps, st)).0
            (run_calls cooldown (c ∷ between) (stamps, st)).1)
          (run_calls cooldown (c ∷ between) (stamps, st))
  unfolding run_calls
  recompute-Refused cooldown n c later between stamps st on h same soon =
      let s = run_calls cooldown (c ∷ between) (stamps, st) in
      let called =
        run_calls-Called cooldown c.now c.user between _ _ on
          (recompute-computed cooldown n c stamps st on h) in
      cooling-Refused cooldown c.now later s on (rw same called) soon

  -- With a cooldown, for a call that reaches `curate` and an exception of `curate`: after a
  -- ValueError everybody's last call is as it was, so that the caller may try again; after any other
  -- exception the caller's last call is this one, so that the caller is refused for the cooldown.
  pub recompute_failures :
      (cooldown v : ℕ) (c : Call fl) (e : Error) (stamps : List Stamp) (st st' : Store fl)
      → 0 < cooldown
      → foreign_scan c.user c.scan_id st.scans ≡ false
      → cooling cooldown c.now (last_of c.user stamps) ≡ false
      → c.work st ≡ (raise e, st')
      → last_of v (stamps_of (recompute cooldown c.now c.user c.scan_id c.work stamps st)) ≡ (
          if is_value_error e
          then last_of v stamps
          else if v == c.user
          then some c.now
          else last_of v stamps)
  unfolding recompute after_curate
  recompute_failures cooldown v c e stamps st st' on own warm raised =
      let o : ltb 0 cooldown ≡ true = ground (arith, on) in
      rw (own, o, warm, raised)
        (elim (Bool-cases (is_value_error e)) [
          | inl value ↦
              rw (value, o)
                (last_of-restore_last c.user c.now v (last_of c.user stamps) stamps refl)
          | inr other ↦ rw other (last_of-put_last c.user c.now v stamps)
        ])
