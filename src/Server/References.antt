-- ===== src/Server/References.antt =====
-- The resources of src/ms_server.c count who asked for a url.
use libms.Base.{
  ℕ, ◌+◌, ◌<◌, ◌≡◌, ◌⊎◌, inl, inr, refl, sym, ap, ◌∙◌, false, not, none, some, List, [], ◌∷◌, ◌++◌,
  All, ok, to_int, int_max, arith,
}
use libms.Queue.{with_node, find_at-cases, All-middle}
use libms.Server.{
  Resource, Server, Status, is_running, has_id, has_url, ms_find_resource_by_id, drop_ref,
  ms_remove_resource, get_play_url, ms_generate_resource, IsValid,
}
use libms.Server.Nodes.{
  refs-append, with_ref-IsValid, refs-found, find_by_id-with_ref, fresh-IsValid, find_by_id-fresh,
  drop_ref-IsValid, Counted,
}

module _ (decimal path_of : ℕ → List ℕ) where
  -- A running server with valid resources, of which none has as many references as an `int` can
  -- count and not all numbers are used, gives a resource for any url: its number finds that url,
  -- the url has one reference more and no other url has, and the resources stay valid.
  pub ms_generate_resource-Counted :
      (s : Server) (url play_url_len : ℕ)
      → IsValid s
      → s.status ≡ Status.running
      → All (λ r. r.ref < int_max) s.resources
      → s.base_url_id < int_max
      → (s' : Server) × (r : Resource) × (ms_generate_resource decimal path_of s url play_url_len
          ≡ ok (some (get_play_url decimal path_of s.port r play_url_len, r.id), s'))
        × (ms_find_resource_by_id s' r.id ≡ some r)
        × (r.origin_url ≡ url)
        × Counted url s s'
        × IsValid s'
  unfolding ms_generate_resource ms_find_resource_by_id
  ms_generate_resource-Counted s url play_url_len v up few free =
      let on : not (is_running s.status) ≡ false = ap (λ x. not (is_running x)) up in
      elim (find_at-cases (has_url url) s.resources) [
        | inl (n, new) ↦
            let r : Resource = record { id = s.base_url_id + 1; ref = 1; origin_url = url } in
            let id : to_int (s.base_url_id + 1) ≡ ok (s.base_url_id + 1) = ground arith in
            (
              record s { base_url_id = s.base_url_id + 1; resources = s.resources ++ (r ∷ []) },
              r,
              rw (on, n, id) refl,
              rw (on, find_by_id-fresh s url v) refl,
              refl,
              (λ u. refs-append u s.resources (r ∷ []) ∙ omega arith),
              fresh-IsValid s url v new,
            )
        | inr (z, e, found) ↦
            let r : Resource = record z.node { ref = z.node.ref + 1 } in
            let (_, same, _) = found in
            let (whole, _, _) = found in
            let all : All (λ q. q.ref < int_max) (with_node z z.node) = rw⁻¹ whole few in
            let (_, below, _) = All-middle (λ q. q.ref < int_max) z.before z.node z.after all in
            let ref : to_int (z.node.ref + 1) ≡ ok (z.node.ref + 1) = ground arith in
            let s' : Server = record s { resources = with_node z r } in
            (
              s',
              r,
              rw (on, e, ref) refl,
              rw (on, find_by_id-with_ref s v (has_url url) z (z.node.ref + 1) found) refl,
              ground arith,
              (λ u. let sum = refs-found s v (has_url url) z (r ∷ z.after) found u in ground arith),
              with_ref-IsValid s v (has_url url) z (z.node.ref + 1) found (omega arith)
                  (omega arith),
            )
      ]

-- A running server with valid resources keeps them valid when one is given back. With the number
-- of none nothing changes; else the url of that number has one reference less, and no other url
-- has.
pub ms_remove_resource-Counted :
    (s : Server) (id : ℕ)
    → IsValid s
    → s.status ≡ Status.running
    → ((ms_find_resource_by_id s id ≡ none) × (ms_remove_resource s id ≡ some s))
      ⊎ ((s' : Server) × (r : Resource) × (ms_find_resource_by_id s id ≡ some r)
          × (ms_remove_resource s id ≡ some s')
          × Counted r.origin_url s' s
          × IsValid s')
unfolding ms_find_resource_by_id ms_remove_resource
ms_remove_resource-Counted s id v up =
    let on : not (is_running s.status) ≡ false = ap (λ x. not (is_running x)) up in
    elim (find_at-cases (has_id id) s.resources) [
      | inl (n, _) ↦ inl (rw (on, n) refl, rw (on, n) refl)
      | inr (z, e, found) ↦
          let (v', less) = drop_ref-IsValid s (has_id id) z v found in
          inr (
            record s { resources = drop_ref z },
            z.node,
            rw (on, e) refl,
            rw (on, e) refl,
            (λ u. sym (less u)),
            v',
          )
    ]
