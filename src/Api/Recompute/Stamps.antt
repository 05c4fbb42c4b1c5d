-- ===== src/Api/Recompute/Stamps.antt =====
-- Reading the times of the last calls (backend/app/api/feed.py).
use bandcamp_curate.Base.{
  ℕ, Option, none, some, List, [], ◌∷◌, ◌≡◌, ◌==◌, ==_iff, if◌then◌else◌, arith,
}
use bandcamp_curate.Api.Recompute.{Stamp, last_of, pop_last, put_last, restore_last}

last_of-pop_last :
    (user v : ℕ) (stamps : List Stamp)
    → last_of v (pop_last user stamps) ≡ (if v == user then none else last_of v stamps)
unfolding last_of pop_last
last_of-pop_last user v [] = ground arith
last_of-pop_last user v (s ∷ stamps) =
    ground
      (arith, last_of-pop_last user v stamps, ==_iff s.user user, ==_iff v user, ==_iff s.user v)

pub last_of-put_last :
    (user now v : ℕ) (stamps : List Stamp)
    → last_of v (put_last user now stamps) ≡ (if v == user then some now else last_of v stamps)
unfolding put_last last_of
last_of-put_last user now v stamps =
    ground (arith, last_of-pop_last user v stamps, ==_iff user v, ==_iff v user)

-- After the roll back everybody's last call is as it was before the stamp.
pub last_of-restore_last :
    (user now v : ℕ) (previous : Option ℕ) (stamps : List Stamp)
    → last_of user stamps ≡ previous
    → last_of v (restore_last user previous (put_last user now stamps)) ≡ last_of v stamps
unfolding restore_last
last_of-restore_last user now v none stamps e =
    let there : v ≡ user → last_of v stamps ≡ none = λ (h : v ≡ user). rw h e in
    ground (
      arith,
      last_of-pop_last user v (put_last user now stamps),
      last_of-put_last user now v stamps,
      there,
      ==_iff v user,
    )
last_of-restore_last user now v (some t) stamps e =
    let there : v ≡ user → last_of v stamps ≡ some t = λ (h : v ≡ user). rw h e in
    ground (
      arith,
      last_of-put_last user t v (put_last user now stamps),
      last_of-put_last user now v stamps,
      there,
      ==_iff v user,
    )
