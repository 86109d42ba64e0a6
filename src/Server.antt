-- ===== src/Server.antt =====
-- src/ms_server.c: the resources of the server. A resource has the url that it stands for, a number
-- that the players' urls have in its place, and a count of those who asked for it.
mod Tests
pub mod Nodes
pub mod References
pub mod Urls
pub mod Start
use libms.Base.{
  ℕ, ◌+◌, ◌-◌, ◌%◌, ◌^◌, ◌<◌, ◌≡◌, ◌≢◌, Bool, true, false, not, ◌&&◌, Option, none, some, List, [],
  ◌∷◌, ◌++◌, All, length, take, starts_with, ltb, ◌==◌, if◌then◌else◌, Outcome, ok, ◌>>=◌, to_int,
  sub64,
}
use libms.Queue.{Found, find_at, node_of, with_node, without_node, Apart}

-- `struct ms_resource`. A url is known by a number: two urls have the same one where `mg_strcmp`
-- finds them equal. The name is never set.
pub record Resource : Type 0 where
  pub id : ℕ
  pub ref : ℕ
  pub origin_url : ℕ

-- `enum ms_server_status`
pub data Status : Type 0 where
  idle starting running : Status

-- `s_server`, `s_server_status` and `s_base_url_id`, as far as resources need them.
pub record Server : Type 0 where
  pub status : Status
  pub port : ℕ
  pub base_url_id : ℕ
  pub resources : List Resource

abbrev pub is_running : Status → Bool
is_running idle = false
is_running starting = false
is_running running = true

-- `has_prefix`: something must follow the prefix.
unfoldable pub has_prefix : List ℕ → List ℕ → Bool
has_prefix uri prefix = ltb (length prefix) (length uri) && starts_with prefix uri

-- "http://127.0.0.1:" and "/stream/"
abbrev pub local_host : List ℕ
local_host =
    104 ∷ 116 ∷ 116 ∷ 112 ∷ 58 ∷ 47 ∷ 47 ∷ 49 ∷ 50 ∷ 55 ∷ 46 ∷ 48 ∷ 46 ∷ 48 ∷ 46 ∷ 49 ∷ 58 ∷ []

abbrev pub stream_prefix : List ℕ
stream_prefix = 47 ∷ 115 ∷ 116 ∷ 114 ∷ 101 ∷ 97 ∷ 109 ∷ 47 ∷ []

-- '/'
abbrev pub slash : ℕ
slash = 47

-- The loop of `get_play_url` from `p` on; `start` is what it found so far.
unfoldable pub start_from : List ℕ → List ℕ → List ℕ
start_from start [] = start
start_from start (c ∷ p) = start_from (if c == slash then p else start) p

-- What `snprintf` writes of its text into so many bytes; the last of them is 0.
abbrev pub snprintf : ℕ → List ℕ → List ℕ
snprintf size text = take (size - 1) text

-- Whether a resource has that number, or that url.
abbrev pub has_id : ℕ → Resource → Bool
has_id id r = r.id == id

abbrev pub has_url : ℕ → Resource → Bool
has_url url r = r.origin_url == url

unfoldable pub ms_find_resource_by_id : Server → ℕ → Option Resource
ms_find_resource_by_id s id =
    if not (is_running s.status) then none else node_of (find_at (has_id id) s.resources)

-- One reference less; the resource is freed with the last.
unfoldable pub drop_ref : Found Resource → List Resource
drop_ref z =
    let ref : ℕ = (z.node.ref + 2 ^ 32 - 1) % 2 ^ 32 in
    if ref == 0 then without_node z else with_node z (record z.node { ref = ref })

-- The result is 0 or, for `none`, -1.
unfoldable pub ms_remove_resource : Server → ℕ → Option Server
ms_remove_resource s id =
    if not (is_running s.status) then none else elim (find_at (has_id id) s.resources) [
      | none ↦ some s
      | some z ↦ some (record s { resources = drop_ref z })
    ]

-- `decimal` is what "%d" prints, and `path_of` the path that `mg_parse_uri` finds in a url.
module _ (decimal path_of : ℕ → List ℕ) where
  -- Without its host, which a player asks.
  unfoldable pub play_path : Resource → List ℕ
  play_path r =
      stream_prefix
      ++ (decimal r.id ++ (slash ∷ start_from (path_of r.origin_url) (path_of r.origin_url)))

  unfoldable pub get_play_url : ℕ → Resource → ℕ → List ℕ
  get_play_url port r play_url_len =
      snprintf (sub64 play_url_len 1) (local_host ++ (decimal port ++ play_path r))

  -- The result is -1, or 0 with the url for players and the number of the resource.
  unfoldable pub ms_generate_resource : Server → ℕ → ℕ → Outcome (Option (List ℕ × ℕ) × Server)
  ms_generate_resource s url play_url_len =
      if not (is_running s.status) then ok (none, s) else elim (find_at (has_url url) s.resources) [
        | some z ↦ (do
          ref ← to_int (z.node.ref + 1)
          let r : Resource = record z.node { ref = ref }
          ok (
            some (get_play_url s.port r play_url_len, r.id),
            record s { resources = with_node z r },
          ))
        | none ↦ (do
          id ← to_int (s.base_url_id + 1)
          let r : Resource = record { id = id; ref = 1; origin_url = url }
          ok (
            some (get_play_url s.port r play_url_len, id),
            record s { base_url_id = id; resources = s.resources ++ (r ∷ []) },
          ))
      ]

module _ (decimal : ℕ → List ℕ) where
  -- Whether a resource is the one that a request names.
  unfoldable pub is_requested : List ℕ → Resource → Bool
  is_requested uri r = has_prefix uri (stream_prefix ++ (decimal r.id ++ (slash ∷ [])))

  unfoldable pub ms_find_resource : Server → List ℕ → Option Resource
  ms_find_resource s uri =
      if not (is_running s.status) then none else node_of (find_at (is_requested uri) s.resources)

-- Numbers and urls are different, the numbers are used up to `base_url_id`, and each resource has
-- been asked for.
pub record IsValid (s : Server) : Type 0 where
  pub ids : Apart (λ r. r.id) s.resources
  pub urls : Apart (λ r. r.origin_url) s.resources
  pub used : All (λ r. (0 < r.ref) × (r.ref < 2 ^ 31) × (r.id < s.base_url_id + 1)) s.resources
