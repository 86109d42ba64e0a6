-- ===== src/Queue.antt =====
-- Searches of a list with QUEUE_FOREACH of include/queue.h, and lists with different keys.
use libms.Base.{
  ℕ, ◌≡◌, ◌≢◌, ◌⊎◌, inl, inr, refl, sym, ap, Bool, true, false, Option, none, some, List, [], ◌∷◌,
  ◌++◌, ◌∙◌, All, Any, Bool-cases, if◌then◌else◌,
}

-- Where a search stopped: the node, and what stands before and behind it.
pub record Found (A : Type 0) : Type 0 where
  pub before : List A
  pub node : A
  pub after : List A

module _ {A : Type 0} where
  abbrev pub push_before : A → Option (Found A) → Option (Found A)
  push_before x none = none
  push_before x (some z) = some (record z { before = x ∷ z.before })

  -- The first node that passes the test.
  unfoldable pub find_at : (A → Bool) → List A → Option (Found A)
  find_at test [] = none
  find_at test (x ∷ xs) =
      if test x
      then some (record { before = []; node = x; after = xs })
      else push_before x (find_at test xs)

  abbrev pub node_of : Option (Found A) → Option A
  node_of none = none
  node_of (some z) = some z.node

  -- The whole list, with another node at that place.
  abbrev pub with_node : Found A → A → List A
  with_node z x = z.before ++ (x ∷ z.after)

  -- QUEUE_REMOVE of the node.
  abbrev pub without_node : Found A → List A
  without_node z = z.before ++ z.after

  -- What a search finds in a list.
  abbrev pub IsFound : (A → Bool) → List A → Found A → Type 0
  IsFound test xs z =
      (xs ≡ with_node z z.node) × (test z.node ≡ true) × All (λ x. test x ≡ false) z.before

  pub find_at-cases :
      (test : A → Bool) (xs : List A)
      → ((find_at test xs ≡ none) × All (λ x. test x ≡ false) xs)
        ⊎ ((z : Found A) × (find_at test xs ≡ some z) × IsFound test xs z)
  unfolding find_at
  find_at-cases test [] = inl (refl, tt)
  find_at-cases test (x ∷ xs) = elim (Bool-cases (test x)) [
    | inl e ↦ inr (record { before = []; node = x; after = xs }, rw e refl, (refl, e, tt))
    | inr e ↦ elim (find_at-cases test xs) [
      | inl (n, h) ↦ inl (rw (e, n) refl, (e, h))
      | inr (z, r, (s, t, h)) ↦
          inr (record z { before = x ∷ z.before }, rw (e, r) refl, (ap (λ ys. x ∷ ys) s, t, (e, h)))
    ]
  ]

  pub find_at-with_node :
      (test : A → Bool) (before : List A) (x : A) (after : List A)
      → All (λ y. test y ≡ false) before
      → test x ≡ true
      → find_at test (before ++ (x ∷ after))
        ≡ some (record { before = before; node = x; after = after })
  unfolding find_at
  find_at-with_node test [] x after _ e = rw e refl
  find_at-with_node test (y ∷ before) x after (h, hs) e =
      rw (h, find_at-with_node test before x after hs e) refl

  pub All-middle :
      (P : A → Type 0) (before : List A) (x : A) (after : List A)
      → All P (before ++ (x ∷ after))
      → All P before × P x × All P after
  All-middle P [] x after (h, hs) = (tt, h, hs)
  All-middle P (y ∷ before) x after (h, hs) =
      let (b, p, a) = All-middle P before x after hs in ((h, b), p, a)

  pub All-join : (P : A → Type 0) (xs ys : List A) → All P xs → All P ys → All P (xs ++ ys)
  All-join P [] ys _ k = k
  All-join P (x ∷ xs) ys (h, hs) k = (h, All-join P xs ys hs k)

  pub Any-append : (P : A → Type 0) (xs ys : List A) → Any P xs → Any P (xs ++ ys)
  Any-append P [] ys m = absurd m
  Any-append P (x ∷ xs) ys (inl h) = inl h
  Any-append P (x ∷ xs) ys (inr m) = inr (Any-append P xs ys m)

  pub Any-last : (P : A → Type 0) (xs : List A) (x : A) → P x → Any P (xs ++ (x ∷ []))
  Any-last P [] x h = inl h
  Any-last P (y ∷ xs) x h = inr (Any-last P xs x h)

  pub Any-middle :
      (P : A → Type 0) (xs : List A) (x : A) (ys : List A) → P x → Any P (xs ++ (x ∷ ys))
  Any-middle P [] x ys h = inl h
  Any-middle P (y ∷ xs) x ys h = inr (Any-middle P xs x ys h)

  -- The keys are different.
  abbrev pub Apart : (A → ℕ) → List A → Type 0
  Apart key [] = Unit
  Apart key (x ∷ xs) = All (λ y. key y ≢ key x) xs × Apart key xs

  module _ (key : A → ℕ) where
    pub Apart-with_node :
        (before : List A) (x y : A) (after : List A)
        → key y ≡ key x
        → Apart key (before ++ (x ∷ after))
        → Apart key (before ++ (y ∷ after))
    Apart-with_node [] x y after e (h, hs) = (rw e h, hs)
    Apart-with_node (z ∷ before) x y after e (h, hs) =
        let (b, p, a) = All-middle (λ w. key w ≢ key z) before x after h in
        (
          All-join (λ w. key w ≢ key z) before (y ∷ after) b ((λ k. p (sym e ∙ k)), a),
          Apart-with_node before x y after e hs,
        )

    pub Apart-without_node :
        (before : List A) (x : A) (after : List A)
        → Apart key (before ++ (x ∷ after))
        → Apart key (before ++ after)
    Apart-without_node [] x after (_, hs) = hs
    Apart-without_node (z ∷ before) x after (h, hs) =
        let (b, _, a) = All-middle (λ w. key w ≢ key z) before x after h in
        (All-join (λ w. key w ≢ key z) before after b a, Apart-without_node before x after hs)

    pub Apart-snoc :
        (xs : List A) (x : A)
        → All (λ y. key y ≢ key x) xs
        → Apart key xs
        → Apart key (xs ++ (x ∷ []))
    Apart-snoc [] x _ _ = (tt, tt)
    Apart-snoc (y ∷ xs) x (n, ns) (h, hs) =
        (All-join (λ w. key w ≢ key y) xs (x ∷ []) h ((λ e. n (sym e)), tt), Apart-snoc xs x ns hs)

    -- The nodes before another one do not have its key.
    pub Apart-before :
        (before : List A) (x : A) (after : List A)
        → Apart key (before ++ (x ∷ after))
        → All (λ y. key y ≢ key x) before
    Apart-before [] x after _ = tt
    Apart-before (z ∷ before) x after (h, hs) =
        let (_, p, _) = All-middle (λ w. key w ≢ key z) before x after h in
        ((λ e. p (sym e)), Apart-before before x after hs)
