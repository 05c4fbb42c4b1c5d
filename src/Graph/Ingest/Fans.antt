-- ===== src/Graph/Ingest/Fans.antt =====
-- The rows of fans in backend/app/bandcamp/mapper.py, where an album page named the fan without an
-- id (`get_or_create_supporter_fan`), and the fan's own page gives it later (`get_or_create_fan`).
use bandcamp_curate.Base.{
  suc, ℕ, ◌≡◌, refl, Bool, true, false, Option, none, List, [], ◌∷◌, ◌++◌, Text, find, any,
  same_text_refl, ok, raise, integrity, arith, Option-cases, Bool-cases, inl, inr,
}
use bandcamp_curate.Graph.Tables.{FanRow, Graph, alone}
use bandcamp_curate.Graph.Fans.{
  clashes, insert_fan, new_fan, new_supporter, supporter_test, get_or_create_fan,
  get_or_create_supporter_fan, has_fan_id, has_username,
}

any-clash :
    (new : FanRow) (rows : List FanRow) (r : FanRow)
    → clashes new r ≡ true
    → any (clashes new) (rows ++ r ∷ []) ≡ true
any-clash new [] r h = ground (arith, h)
any-clash new (q ∷ rows) r h = ground (arith, any-clash new rows r h)

find-other :
    (n : ℕ) (rows : List FanRow) (r : FanRow)
    → find (has_fan_id n) rows ≡ none
    → r.bandcamp_fan_id ≡ none
    → find (has_fan_id n) (rows ++ r ∷ []) ≡ none
find-other n [] r h k = ground (arith, k)
find-other n (q ∷ rows) r h k = ground (arith, find-other n rows r)

abbrev with_supporter : Text → Option Text → Graph → Graph
with_supporter username name g = record g {
  fans = record {
    rows = g.fans.rows ++ new_supporter none username name g.fans.next_id ∷ [];
    next_id = suc g.fans.next_id;
  };
}

supporter-added :
    (username : Text) (name : Option Text) (g : Graph)
    → find (has_username username) g.fans.rows ≡ none
    → any (clashes (new_supporter none username name g.fans.next_id)) g.fans.rows ≡ false
    → get_or_create_supporter_fan alone none username name g
      ≡ (ok (new_supporter none username name g.fans.next_id, true), with_supporter username name g)
unfolding get_or_create_supporter_fan supporter_test insert_fan
supporter-added username name g absent free = ground (arith, absent, free)

fan-raises :
    (fan_id : ℕ) (username : Text) (name url : Option Text) (is_me : Bool) (g : Graph)
    → find (has_fan_id fan_id) g.fans.rows ≡ none
    → any (clashes (new_fan fan_id username name url is_me g.fans.next_id)) g.fans.rows ≡ true
    → get_or_create_fan alone fan_id username name url is_me g ≡ (raise integrity, g)
unfolding get_or_create_fan insert_fan
fan-raises fan_id username name url is_me g gone taken = ground (arith, gone, taken)

-- Where a page has created a fan by the user name alone, and no row has the fan's id, the fan's own
-- page cannot be recorded: the insert clashes on the user name, no row has the id, and the error is
-- raised.
pub get_or_create_fan-clash :
    (fan_id : ℕ) (username : Text) (name own_name url : Option Text) (is_me : Bool) (g : Graph)
    (r : FanRow)
    → find (has_fan_id fan_id) g.fans.rows ≡ none
    → (get_or_create_supporter_fan alone none username name g).0 ≡ ok (r, true)
    → let g' = (get_or_create_supporter_fan alone none username name g).1 in
      get_or_create_fan alone fan_id username own_name url is_me g' ≡ (raise integrity, g')
unfolding get_or_create_supporter_fan supporter_test insert_fan new_supporter new_fan clashes
get_or_create_fan-clash fan_id username name own_name url is_me g r gone h =
    elim (Option-cases (find (has_username username) g.fans.rows)) [
      | inr (q, found) ↦ absurd (ground (arith, h, found))
      | inl absent ↦
          elim (Bool-cases
            (any (clashes (new_supporter none username name g.fans.next_id)) g.fans.rows)) [
              | inl taken ↦ absurd (ground (arith, h, absent, taken))
              | inr free ↦ rw (supporter-added username name g absent free) (
                  fan-raises fan_id username own_name url is_me (with_supporter username name g)
                    (find-other fan_id g.fans.rows _ gone refl)
                    (any-clash (new_fan fan_id username own_name url is_me (suc g.fans.next_id))
                      g.fans.rows _ (ground (arith, same_text_refl username))))
            ]
    ]
