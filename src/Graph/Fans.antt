-- ===== src/Graph/Fans.antt =====
-- The `get_or_create_…` of fans in backend/app/bandcamp/mapper.py.
use bandcamp_curate.Base.{
  ℕ, suc, Bool, true, false, ◌||◌, Option, none, some, List, [], ◌∷◌, ◌++◌, if◌then◌else◌, Text,
  codes, same_text, find, any, is_some, opt_is, Result, ok, raise, integrity,
}
use bandcamp_curate.Graph.Keyed.{Keyed, update_first}
use bandcamp_curate.Graph.Tables.{FanRow, Graph, Workers}
use bandcamp_curate.Graph.Entities.{fill_text}

-- A fan has three unique keys: the Bandcamp id, the user name and the URL.
unfoldable pub clashes : FanRow → FanRow → Bool
clashes new r =
    (elim new.bandcamp_fan_id [ none ↦ false | some n ↦ opt_is r.bandcamp_fan_id n ])
    || (same_text r.username new.username || same_text r.url new.url)

-- `_insert_or_reselect` of a fan: where one of the keys is taken, the row that `is_key` selects, or
-- the error, if there is none.
unfoldable pub insert_fan :
    (FanRow → Bool) → (ℕ → FanRow) → Keyed FanRow → Result FanRow × Keyed FanRow
unfolding clashes
insert_fan is_key build k =
    let new = build k.next_id in
    if any (clashes new) k.rows
    then (elim (find is_key k.rows) [ some r ↦ ok r | none ↦ raise integrity ], k)
    else (ok new, record k { rows = k.rows ++ new ∷ []; next_id = suc k.next_id })

abbrev pub has_fan_id : ℕ → FanRow → Bool
has_fan_id n r = opt_is r.bandcamp_fan_id n

abbrev pub has_username : Text → FanRow → Bool
has_username u r = same_text r.username u

-- `https://bandcamp.com/<username>`
abbrev pub home : Text → Text
home username = codes "https://bandcamp.com/" ++ username

-- `url or …`
abbrev url_or_home : Option Text → Text → Text
url_or_home (some (c ∷ s)) username = c ∷ s
url_or_home _ username = home username

unfoldable pub enrich_fan : Option Text → Bool → FanRow → FanRow
unfolding fill_text
enrich_fan name is_me r = record r { is_me = r.is_me || is_me; name = fill_text name r.name }

unfoldable pub new_fan : ℕ → Text → Option Text → Option Text → Bool → ℕ → FanRow
new_fan fan_id username name url is_me id = record {
  id = id;
  bandcamp_fan_id = some fan_id;
  username = username;
  url = url_or_home url username;
  name = name;
  is_me = is_me;
}

-- `get_or_create_fan`: the id of the row.
unfoldable pub get_or_create_fan :
    Workers → ℕ → Text → Option Text → Option Text → Bool → Graph → Result FanRow × Graph
unfolding enrich_fan new_fan insert_fan update_first
get_or_create_fan w fan_id username name url is_me g = elim (find (has_fan_id fan_id) g.fans.rows) [
  | some r ↦
      let rows = update_first (has_fan_id fan_id) (enrich_fan name is_me) g.fans.rows in
      (ok (enrich_fan name is_me r), record g { fans = record (g.fans) { rows = rows } })
  | none ↦
      let (r, fans) =
        insert_fan (has_fan_id fan_id) (new_fan fan_id username name url is_me)
          (w.to_fans g.fans) in
      (r, record g { fans = fans })
]

-- The SELECT by the fan id, where it is known, then by the user name: the test of the row that is
-- found.
unfoldable pub supporter_test : Option ℕ → Text → List FanRow → FanRow → Bool
supporter_test none username rows = has_username username
supporter_test (some n) username rows =
    if is_some (find (has_fan_id n) rows) then has_fan_id n else has_username username

-- `if fan_id is not None and fan.bandcamp_fan_id is None`
abbrev backfill : Option ℕ → Option ℕ → Option ℕ
backfill new none = new
backfill new (some n) = some n

unfoldable pub enrich_supporter : Option ℕ → Option Text → FanRow → FanRow
unfolding fill_text
enrich_supporter fan_id name r = record r {
  bandcamp_fan_id = backfill fan_id r.bandcamp_fan_id;
  name = fill_text name r.name;
}

unfoldable pub new_supporter : Option ℕ → Text → Option Text → ℕ → FanRow
new_supporter fan_id username name id = record {
  id = id;
  bandcamp_fan_id = fan_id;
  username = username;
  url = home username;
  name = name;
  is_me = false;
}

-- `get_or_create_supporter_fan`: the row, and whether it counts as created (also where another worker
-- created it meanwhile).
unfoldable pub get_or_create_supporter_fan :
    Workers → Option ℕ → Text → Option Text → Graph → Result (FanRow × Bool) × Graph
unfolding supporter_test enrich_supporter new_supporter insert_fan update_first
get_or_create_supporter_fan w fan_id username name g =
    let test = supporter_test fan_id username g.fans.rows in
    elim (find test g.fans.rows) [
      | some r ↦
          let rows = update_first test (enrich_supporter fan_id name) g.fans.rows in
          (
            ok (enrich_supporter fan_id name r, false),
            record g { fans = record (g.fans) { rows = rows } },
          )
      | none ↦
          let (r, fans) =
            insert_fan (has_username username) (new_supporter fan_id username name)
              (w.to_fans g.fans) in
          (elim r [ ok row ↦ ok (row, true) | raise e ↦ raise e ], record g { fans = fans })
    ]
