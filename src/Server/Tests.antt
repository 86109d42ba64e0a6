-- ===== src/Server/Tests.antt =====
-- A server with two resources, and the theorems at concrete inputs.
use libms.Base.{
  ℕ, zero, suc, ◌≡◌, ◌≢◌, ◌⊎◌, refl, none, some, List, [], ◌∷◌, ◌++◌, All, ok, sub64, arith,
}
use libms.Queue.{find_at}
use libms.Server.{
  Resource, Server, Status, slash, snprintf, local_host, start_from, get_play_url,
  ms_generate_resource, ms_remove_resource, ms_find_resource, ms_find_resource_by_id, drop_ref,
  IsValid,
}
use libms.Server.Nodes.{Counted}
use libms.Server.References.{ms_generate_resource-Counted, ms_remove_resource-Counted}
use libms.Server.Urls.{IsDecimal, name_of, ms_find_resource-ms_generate_resource}

-- Numbers printed with one stroke for each unit.
abbrev strokes : ℕ → List ℕ
strokes zero = []
strokes (suc n) = 49 ∷ strokes n

strokes-no_slash : (n : ℕ) → All (λ c. c ≢ slash) (strokes n)
strokes-no_slash zero = tt
strokes-no_slash (suc n) = ((λ e. omega arith), strokes-no_slash n)

strokes-different : (m n : ℕ) → strokes m ≡ strokes n → m ≡ n
strokes-different zero zero e = refl
strokes-different zero (suc n) e = absurd (cc)
strokes-different (suc m) zero e = absurd (cc)
strokes-different (suc m) (suc n) e =
    let rest : strokes m ≡ strokes n = cc in omega (arith, strokes-different m n rest)

strokes-IsDecimal : IsDecimal strokes
strokes-IsDecimal = record { no_slash = strokes-no_slash; different = strokes-different }

-- The path "/a/b" of every url but 0, which has "/a/".
abbrev path_of : ℕ → List ℕ
path_of zero = 47 ∷ 97 ∷ 47 ∷ []
path_of (suc url) = 47 ∷ 97 ∷ 47 ∷ 98 ∷ []

abbrev server : Server
server = record {
  status = Status.running;
  port = 3;
  base_url_id = 2;
  resources =
      record { id = 1; ref = 1; origin_url = 5 } ∷ record { id = 2; ref = 3; origin_url = 7 } ∷ [];
}

server-IsValid : IsValid server
server-IsValid = record {
  ids = (((λ e. omega arith), tt), (tt, tt));
  urls = (((λ e. omega arith), tt), (tt, tt));
  used = ((omega arith, omega arith, omega arith), ((omega arith, omega arith, omega arith), tt));
}

abbrev film : Resource
film = record { id = 2; ref = 3; origin_url = 7 }

film-named : name_of strokes path_of strokes-IsDecimal film ≢ []
unfolding start_from
film-named e = absurd (cc)

ms_generate_resource-Counted_example :
    (s' : Server) × (r : Resource) × (ms_generate_resource strokes path_of server 7 60
      ≡ ok (some (get_play_url strokes path_of 3 r 60, r.id), s'))
    × (ms_find_resource_by_id s' r.id ≡ some r)
    × (r.origin_url ≡ 7)
    × Counted 7 server s'
    × IsValid s'
ms_generate_resource-Counted_example =
    ms_generate_resource-Counted strokes path_of server 7 60 server-IsValid refl
      (omega arith, (omega arith, tt)) (omega arith)

ms_remove_resource-Counted_example :
    ((ms_find_resource_by_id server 1 ≡ none) × (ms_remove_resource server 1 ≡ some server))
    ⊎ ((s' : Server) × (r : Resource) × (ms_find_resource_by_id server 1 ≡ some r)
        × (ms_remove_resource server 1 ≡ some s')
        × Counted r.origin_url s' server
        × IsValid s')
ms_remove_resource-Counted_example = ms_remove_resource-Counted server 1 server-IsValid refl

ms_find_resource-ms_generate_resource_example :
    (s' : Server) × (id : ℕ) × (path : List ℕ) × (r : Resource) × (ms_generate_resource strokes
        path_of server 7 60
      ≡ ok (some (snprintf (sub64 60 1) (local_host ++ (strokes 3 ++ path)), id), s'))
    × (ms_find_resource strokes s' path ≡ some r)
    × (r.origin_url ≡ 7)
ms_find_resource-ms_generate_resource_example =
    ms_find_resource-ms_generate_resource strokes path_of strokes-IsDecimal server 7 60
      server-IsValid refl (omega arith, (omega arith, tt)) (omega arith) film-named

-- The first resource was asked for once, and is freed.
remove_last : ms_remove_resource server 1 ≡ some (record server { resources = film ∷ [] })
unfolding ms_remove_resource find_at drop_ref
remove_last = refl
