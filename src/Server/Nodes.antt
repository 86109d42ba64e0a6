-- ===== src/Server/Nodes.antt =====
-- The lists of resources of src/ms_server.c with one node changed, and the references that they count.
use libms.Base.{
  ℕ, ◌+◌, ◌-◌, ◌%◌, ◌^◌, ◌<◌, ◌≡◌, refl, ap, Bool, false, some, List, [], ◌∷◌, ◌++◌, All, All-map,
  ◌==◌, if◌then◌else◌, if_cases, arith,
}
use libms.Queue.{
  Found, find_at, with_node, without_node, IsFound, find_at-with_node, All-middle, All-join, Apart,
  Apart-with_node, Apart-without_node, Apart-snoc, Apart-before,
}
use libms.Server.{Resource, Server, has_id, has_url, drop_ref, IsValid}

-- How many references a url has.
abbrev pub refs : ℕ → List Resource → ℕ
refs url [] = 0
refs url (r ∷ rs) = (if r.origin_url == url then r.ref else 0) + refs url rs

pub refs-append :
    (url : ℕ) (xs ys : List Resource) → refs url (xs ++ ys) ≡ refs url xs + refs url ys
refs-append url [] ys = omega arith
refs-append url (r ∷ xs) ys = omega (arith, refs-append url xs ys)

module _ (s : Server) (v : IsValid s) where
  abbrev IsUsed : ℕ → Resource → Type 0
  IsUsed base r = (0 < r.ref) × (r.ref < 2 ^ 31) × (r.id < base + 1)

  -- A node of the list with another count.
  pub with_ref-IsValid :
      (test : Resource → Bool) (z : Found Resource) (ref : ℕ)
      → IsFound test s.resources z
      → 0 < ref
      → ref < 2 ^ 31
      → IsValid (record s { resources = with_node z (record z.node { ref = ref }) })
  with_ref-IsValid test z ref (e, _, _) some_left small =
      let ids : Apart (λ r. r.id) (with_node z z.node) = rw⁻¹ e v.ids in
      let urls : Apart (λ r. r.origin_url) (with_node z z.node) = rw⁻¹ e v.urls in
      let used : All (IsUsed s.base_url_id) (with_node z z.node) = rw⁻¹ e v.used in
      let (b, (_, _, k), a) = All-middle (IsUsed s.base_url_id) z.before z.node z.after used in
      record {
        ids =
            Apart-with_node (λ r. r.id) z.before z.node (record z.node { ref = ref }) z.after refl
              ids;
        urls =
            Apart-with_node (λ r. r.origin_url) z.before z.node (record z.node { ref = ref })
              z.after refl urls;
        used =
            All-join (IsUsed s.base_url_id) z.before (record z.node { ref = ref } ∷ z.after) b
              ((some_left, small, k), a);
      }

  pub without_node-IsValid :
      (test : Resource → Bool) (z : Found Resource)
      → IsFound test s.resources z
      → IsValid (record s { resources = without_node z })
  without_node-IsValid test z (e, _, _) =
      let ids : Apart (λ r. r.id) (with_node z z.node) = rw⁻¹ e v.ids in
      let urls : Apart (λ r. r.origin_url) (with_node z z.node) = rw⁻¹ e v.urls in
      let used : All (IsUsed s.base_url_id) (with_node z z.node) = rw⁻¹ e v.used in
      let (b, _, a) = All-middle (IsUsed s.base_url_id) z.before z.node z.after used in
      record {
        ids = Apart-without_node (λ r. r.id) z.before z.node z.after ids;
        urls = Apart-without_node (λ r. r.origin_url) z.before z.node z.after urls;
        used = All-join (IsUsed s.base_url_id) z.before z.after b a;
      }

  -- The node that was found has what its list counts for its url.
  pub refs-found :
      (test : Resource → Bool) (z : Found Resource) (rs : List Resource)
      → IsFound test s.resources z
      → (url : ℕ)
      → refs url (z.before ++ rs) + refs url (z.node ∷ z.after) ≡ refs url s.resources + refs url rs
  refs-found test z rs (e, _, _) url =
      let all : refs url s.resources ≡ refs url (with_node z z.node) = ap (refs url) e in
      omega (arith, refs-append url z.before rs, refs-append url z.before (z.node ∷ z.after))

  -- The node is found again by its number.
  pub find_by_id-with_ref :
      (test : Resource → Bool) (z : Found Resource) (ref : ℕ)
      → IsFound test s.resources z
      → find_at (has_id z.node.id) (with_node z (record z.node { ref = ref }))
        ≡ some (record z { node = record z.node { ref = ref } })
  find_by_id-with_ref test z ref (e, _, _) =
      let ids : Apart (λ r. r.id) (with_node z z.node) = rw⁻¹ e v.ids in
      find_at-with_node (has_id z.node.id) z.before (record z.node { ref = ref }) z.after
        (All-map z.before (λ r n. ground (arith, n))
          (Apart-before (λ r. r.id) z.before z.node z.after ids))
        (ground arith)

-- A new resource behind the others.
pub fresh-IsValid :
    (s : Server) (url : ℕ)
    → IsValid s
    → All (λ r. has_url url r ≡ false) s.resources
    → IsValid (record s {
      base_url_id = s.base_url_id + 1;
      resources =
          s.resources ++ (record { id = s.base_url_id + 1; ref = 1; origin_url = url } ∷ []);
    })
fresh-IsValid s url v new =
    let r : Resource = record { id = s.base_url_id + 1; ref = 1; origin_url = url } in
    record {
      ids =
          Apart-snoc (λ r. r.id) s.resources r
            (All-map s.resources (λ q (_, _, k) e. omega arith) v.used) v.ids;
      urls =
          Apart-snoc (λ r. r.origin_url) s.resources r
            (All-map s.resources (λ q n e. ground (arith, n)) new) v.urls;
      used =
          All-join (IsUsed s v (s.base_url_id + 1)) s.resources (r ∷ [])
            (All-map s.resources (λ q (x, y, k). (x, y, omega arith)) v.used)
            ((omega arith, omega arith, omega arith), tt);
    }

pub find_by_id-fresh :
    (s : Server) (url : ℕ)
    → IsValid s
    → find_at
        (has_id (s.base_url_id + 1))
        (s.resources ++ (record { id = s.base_url_id + 1; ref = 1; origin_url = url } ∷ []))
      ≡ some (record {
        before = s.resources;
        node = record { id = s.base_url_id + 1; ref = 1; origin_url = url };
        after = [];
      })
find_by_id-fresh s url v =
    find_at-with_node (has_id (s.base_url_id + 1)) s.resources
      (record { id = s.base_url_id + 1; ref = 1; origin_url = url }) []
      (All-map s.resources (λ q (_, _, k). ground arith) v.used) (ground arith)

-- The count of each url is what it was, and one more for that one.
abbrev pub Counted : ℕ → Server → Server → Type 0
Counted url s s' = (u : ℕ) → refs u s'.resources ≡ refs u s.resources + (if url == u then 1 else 0)

-- What is left of a resource that lost a reference.
pub drop_ref-IsValid :
    (s : Server) (test : Resource → Bool) (z : Found Resource)
    → IsValid s
    → IsFound test s.resources z
    → IsValid (record s { resources = drop_ref z })
      × ((u : ℕ)
          → refs u (drop_ref z) + (if z.node.origin_url == u then 1 else 0) ≡ refs u s.resources)
unfolding drop_ref
drop_ref-IsValid s test z v (e, t, b) =
    let used : All (IsUsed s v s.base_url_id) (with_node z z.node) = rw⁻¹ e v.used in
    let (_, (some_left, small, _), _) =
      All-middle (IsUsed s v s.base_url_id) z.before z.node z.after used in
    let ref : ℕ = (z.node.ref + 2 ^ 32 - 1) % 2 ^ 32 in
    let less : ref + 1 ≡ z.node.ref = omega arith in
    let r : Resource = record z.node { ref = ref } in
    if_cases
      (λ rs.
        IsValid (record s { resources = rs })
        × ((u : ℕ) → refs u rs + (if z.node.origin_url == u then 1 else 0) ≡ refs u s.resources))
      (ref == 0) (without_node z) (with_node z r)
      (λ last. (
        without_node-IsValid s v test z (e, t, b),
        λ u.
            let sum = refs-found s v test z z.after (e, t, b) u in
            let one : ref ≡ 0 = ground arith in ground arith,
      ))
      (λ more. (
        with_ref-IsValid s v test z ref (e, t, b) (ground arith) (omega arith),
        λ u. let sum = refs-found s v test z (r ∷ z.after) (e, t, b) u in ground arith,
      ))
