-- ===== src/Curation/Exclusions.antt =====
-- `build_exclusions` of backend/app/curation/engine.py: what is already in the user's world.
use bandcamp_curate.Base.{
  ℕ, Bool, true, false, ◌&&◌, ◌||◌, Option, none, some, List, [], ◌∷◌, ◌++◌, ◌==◌, ltb,
  if◌then◌else◌, Text, any, contains, where_rows, same_text, opt_is,
}
use bandcamp_curate.Urls.{url_host}
use bandcamp_curate.Curation.Tables.{
  Release, Band, FanItem, Follow, Blocked, Like, Library, scalar_set, opt_in,
}

pub record Exclusions : Type 0 where
  pub album_ids : List ℕ
  pub track_ids : List ℕ
  pub band_ids : List ℕ
  pub band_hosts : List Text

-- The hosts of URLs, without those that have none (or an empty one, which no URL has).
unfoldable pub hosts_of : List (Option Text) → List Text
unfolding url_host
hosts_of [] = []
hosts_of (u ∷ urls) =
    let rest = hosts_of urls in elim (url_host u) [ none ↦ rest | some h ↦ h ∷ rest ]

-- The URLs of the bands that a fan follows: the join of `follows` and `bands`.
unfoldable pub followed_urls : ℕ → List Follow → List Band → List (Option Text)
followed_urls fan follows [] = []
followed_urls fan follows (b ∷ bands) =
    let rest = followed_urls fan follows bands in
    if any (λ (f : Follow). (f.fan_id == fan) && (f.band_id == b.id)) follows
    then b.url ∷ rest
    else rest

-- `active AND (expires_at IS NULL OR expires_at > now)`, for one user.
unfoldable pub in_force : ℕ → ℕ → Blocked → Bool
in_force now user b =
    (b.user_id == user) && (b.active && elim b.expires_at [ none ↦ true | some t ↦ ltb now t ])

-- The bands of the releases that are liked: the join of `likes` and a table of releases.
unfoldable pub liked_bands : (Like → Option ℕ) → ℕ → List Like → List Release → List ℕ
unfolding scalar_set
liked_bands item user likes releases =
    scalar_set (λ (r : Release). r.band_id)
      (where_rows
        (λ (r : Release). any (λ (l : Like). (l.user_id == user) && opt_is (item l) r.id) likes)
        releases)

-- The three tables of a user's and a fan's own rows.
unfoldable pub my_items : ℕ → Library → List FanItem
my_items me lib = where_rows (λ i. i.fan_id == me) lib.fan_items

unfoldable pub my_blocks : ℕ → ℕ → Library → List Blocked
unfolding in_force
my_blocks now user lib = where_rows (in_force now user) lib.blacklist

unfoldable pub my_likes : ℕ → Library → List Like
my_likes user lib = where_rows (λ l. l.user_id == user) lib.likes

unfoldable pub build_exclusions : ℕ → ℕ → ℕ → Library → Exclusions
unfolding my_items my_blocks my_likes scalar_set liked_bands followed_urls hosts_of
build_exclusions now me user lib =
    let items = my_items me lib in
    let blocks = my_blocks now user lib in
    let liked = my_likes user lib in
    record {
      album_ids =
          scalar_set (λ (i : FanItem). i.album_id) items
          ++ (scalar_set (λ (b : Blocked). b.album_id) blocks
              ++ scalar_set (λ (l : Like). l.album_id) liked);
      track_ids =
          scalar_set (λ (i : FanItem). i.track_id) items
          ++ (scalar_set (λ (b : Blocked). b.track_id) blocks
              ++ scalar_set (λ (l : Like). l.track_id) liked);
      band_ids =
          scalar_set (λ (f : Follow). some f.band_id) (where_rows (λ f. f.fan_id == me) lib.follows)
          ++ (scalar_set (λ (b : Blocked). b.band_id) blocks
              ++ (liked_bands (λ l. l.album_id) user lib.likes lib.albums
                  ++ liked_bands (λ l. l.track_id) user lib.likes lib.tracks));
      band_hosts = hosts_of (followed_urls me lib.follows lib.bands);
    }

-- `url_host(url) in excl.band_hosts`
unfoldable pub host_in : Option Text → List Text → Bool
host_in none hosts = false
host_in (some h) hosts = any (λ g. same_text g h) hosts

-- `_excluded_album`, `_excluded_track`, by the ids of the kind.
unfoldable pub excluded : List ℕ → Exclusions → ℕ → Option ℕ → Option Text → Bool
unfolding host_in url_host
excluded ids excl item band_id url =
    contains item ids || (opt_in band_id excl.band_ids || host_in (url_host url) excl.band_hosts)
