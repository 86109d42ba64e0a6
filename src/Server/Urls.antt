-- ===== src/Server/Urls.antt =====
-- The urls that src/ms_server.c gives to players, and what it makes of a request for one.
use libms.Base.{
  ℕ, ◌+◌, ◌<◌, ◌≡◌, ◌≢◌, inl, inr, refl, sym, ap, ◌∙◌, fun_ext, subst, true, false, not, none, some,
  List, [], ◌∷◌, ◌++◌, All, length, length-append, starts_with, ◌==◌, if◌then◌else◌, Bool-cases, ok,
  int_max, sub64, arith,
}
use libms.Queue.{find_at, node_of, find_at-cases}
use libms.Server.{
  Resource, Server, Status, is_running, has_id, has_prefix, slash, snprintf, local_host,
  stream_prefix, start_from, play_path, is_requested, ms_find_resource, ms_find_resource_by_id,
  get_play_url, ms_generate_resource, IsValid,
}
use libms.Server.References.{ms_generate_resource-Counted}

-- A path that ends with a slash has no file name.
start_from-trailing : (start xs : List ℕ) → start_from start (xs ++ (slash ∷ [])) ≡ []
unfolding start_from
start_from-trailing start [] = refl
start_from-trailing start (c ∷ xs) =
    start_from-trailing (if c == slash then xs ++ (slash ∷ []) else start) xs

starts_with-append : (pre xs ys : List ℕ) → starts_with (pre ++ xs) (pre ++ ys) ≡ starts_with xs ys
starts_with-append [] xs ys = refl
starts_with-append (c ∷ pre) xs ys =
    let e : (c == c) ≡ true = ground arith in rw e (starts_with-append pre xs ys)

-- What stands before the first slash is the same.
starts_with-slash :
    (a b rest : List ℕ)
    → All (λ c. c ≢ slash) a
    → All (λ c. c ≢ slash) b
    → starts_with (a ++ (slash ∷ [])) (b ++ (slash ∷ rest)) ≡ true
    → a ≡ b
starts_with-slash [] [] rest _ _ _ = refl
starts_with-slash [] (d ∷ b) rest _ (n, _) e = absurd (n (ground arith))
starts_with-slash (c ∷ a) [] rest (n, _) _ e = absurd (n (ground arith))
starts_with-slash (c ∷ a) (d ∷ b) rest (_, ns) (_, ms) e =
    let same : c ≡ d = ground arith in
    let tail : starts_with (a ++ (slash ∷ [])) (b ++ (slash ∷ rest)) ≡ true = ground arith in
    rw same (ap (λ xs. d ∷ xs) (starts_with-slash a b rest ns ms tail))

nonempty : (xs : List ℕ) → xs ≢ [] → 0 < length xs
nonempty [] n = absurd (n refl)
nonempty (x ∷ xs) n = omega arith

-- What the numbers of the C library are printed as: digits, and different for different numbers.
pub record IsDecimal (decimal : ℕ → List ℕ) : Type 0 where
  pub no_slash : (n : ℕ) → All (λ c. c ≢ slash) (decimal n)
  pub different : (m n : ℕ) → decimal m ≡ decimal n → m ≡ n

module _ (decimal path_of : ℕ → List ℕ) (laws : IsDecimal decimal) where
  -- The file name in a resource's url.
  abbrev pub name_of : Resource → List ℕ
  name_of r = start_from (path_of r.origin_url) (path_of r.origin_url)

  starts_with-play_path :
      (r q : Resource)
      → starts_with (stream_prefix ++ (decimal q.id ++ (slash ∷ []))) (play_path decimal path_of r)
        ≡ has_id r.id q
  unfolding play_path
  starts_with-play_path r q =
      let uri : List ℕ = decimal r.id ++ (slash ∷ name_of r) in
      let rest : List ℕ = decimal q.id ++ (slash ∷ []) in
      starts_with-append stream_prefix rest uri ∙ elim (Bool-cases (starts_with rest uri)) [
        | inl e ↦
            let same : q.id ≡ r.id = laws.different q.id r.id (
              starts_with-slash (decimal q.id) (decimal r.id) (name_of r) (laws.no_slash q.id)
                (laws.no_slash r.id) e) in
            e ∙ ground arith
        | inr e ↦
            let other : q.id ≢ r.id = λ same.
              let t : starts_with rest uri ≡ true =
                ap (λ n. starts_with (decimal n ++ (slash ∷ [])) uri) same
                ∙ starts_with-append (decimal r.id) (slash ∷ []) (slash ∷ name_of r) in
              absurd (cc) in
            e ∙ ground arith
      ]

  length-play_path :
      (r q : Resource)
      → q.id ≡ r.id
      → length (play_path decimal path_of r)
        ≡ length (stream_prefix ++ (decimal q.id ++ (slash ∷ []))) + length (name_of r)
  unfolding play_path
  length-play_path r q same = rw same (
      omega (
        arith,
        length-append stream_prefix (decimal r.id ++ (slash ∷ name_of r)),
        length-append stream_prefix (decimal r.id ++ (slash ∷ [])),
        length-append (decimal r.id) (slash ∷ name_of r),
        length-append (decimal r.id) (slash ∷ []),
      ))

  is_requested-has_id :
      (r q : Resource)
      → name_of r ≢ []
      → is_requested decimal (play_path decimal path_of r) q ≡ has_id r.id q
  unfolding is_requested has_prefix
  is_requested-has_id r q named =
      rw (starts_with-play_path r q) (elim (Bool-cases (has_id r.id q)) [
        | inr e ↦ ground arith
        | inl e ↦
            let same : q.id ≡ r.id = ground arith in
            let longer : 0 < length (name_of r) = nonempty (name_of r) named in
            ground (arith, length-play_path r q same)
      ])

  is_requested-nameless :
      (r q : Resource)
      → name_of r ≡ []
      → is_requested decimal (play_path decimal path_of r) q ≡ false
  unfolding is_requested has_prefix
  is_requested-nameless r q nameless =
      rw (starts_with-play_path r q) (elim (Bool-cases (has_id r.id q)) [
        | inr e ↦ ground arith
        | inl e ↦
            let same : q.id ≡ r.id = ground arith in
            let none_left : length (name_of r) ≡ 0 = ap length nameless in
            ground (arith, length-play_path r q same)
      ])

  -- Where numbers are printed without a slash, and different ones differently: behind its host,
  -- the url for players of a resource with a file name finds on every server what the number of
  -- the resource finds there.
  pub ms_find_resource-play_path :
      (s : Server) (r : Resource)
      → name_of r ≢ []
      → ms_find_resource decimal s (play_path decimal path_of r) ≡ ms_find_resource_by_id s r.id
  unfolding ms_find_resource ms_find_resource_by_id
  ms_find_resource-play_path s r named =
      ap (λ test. if not (is_running s.status) then none else node_of (find_at test s.resources))
        (fun_ext (λ q. is_requested-has_id r q named))

  -- Where numbers are printed without a slash, and different ones differently: if the path of
  -- its url ends with a slash, the url for players of a resource finds nothing, on any server.
  pub ms_find_resource-trailing :
      (s : Server) (r : Resource) (dirs : List ℕ)
      → path_of r.origin_url ≡ dirs ++ (slash ∷ [])
      → ms_find_resource decimal s (play_path decimal path_of r) ≡ none
  unfolding ms_find_resource
  ms_find_resource-trailing s r dirs e =
      let nameless : name_of r ≡ [] = rw e (start_from-trailing (dirs ++ (slash ∷ [])) dirs) in
      elim (find_at-cases (is_requested decimal (play_path decimal path_of r)) s.resources) [
        | inl (n, _) ↦ ground (arith, n)
        | inr (z, _, (_, t, _)) ↦ let f = is_requested-nameless r z.node nameless in absurd (cc)
      ]

  -- Where numbers are printed without a slash, and different ones differently: a running server
  -- with valid resources, of which none has as many references as an `int` can count and not all
  -- numbers are used, answers for a url whose path has a file name with a text that is the host,
  -- the port and a path, cut to the given length; a request for this path finds the url.
  pub ms_find_resource-ms_generate_resource :
      (s : Server) (url play_url_len : ℕ)
      → IsValid s
      → s.status ≡ Status.running
      → All (λ r. r.ref < int_max) s.resources
      → s.base_url_id < int_max
      → start_from (path_of url) (path_of url) ≢ []
      → (s' : Server) × (id : ℕ) × (path : List ℕ) × (r : Resource) × (ms_generate_resource decimal
            path_of s url play_url_len
          ≡ ok (
            some (snprintf (sub64 play_url_len 1) (local_host ++ (decimal s.port ++ path)), id),
            s',
          ))
        × (ms_find_resource decimal s' path ≡ some r)
        × (r.origin_url ≡ url)
  unfolding get_play_url
  ms_find_resource-ms_generate_resource s url play_url_len v up few free named =
      let (s', r, e, found, same, _, _) =
        ms_generate_resource-Counted decimal path_of s url play_url_len v up few free in
      (
        s',
        r.id,
        play_path decimal path_of r,
        r,
        e,
        ms_find_resource-play_path s' r
              (subst (λ u. start_from (path_of u) (path_of u) ≢ []) (sym same) named)
            ∙ found,
        same,
      )
