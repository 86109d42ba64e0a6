-- ===== src/Task/Nearest.antt =====
-- What `nearest_pipe` and `nearest_reader` find.
use mathlib.Core.Option.{some-injective}
use libms.Base.{
  subst, ℕ, ◌≤◌, ◌≡◌, refl, ◌⊎◌, inl, inr, true, false, Option, none, some, List, [], ◌∷◌, All, Any,
  ltb, leb, arith, Bool-cases,
}
use libms.Task.{
  Reader, Pipe, Direction, ahead, behind, on_side, nearer, nearest_from, reader_pos, pipe_pos,
  nearest_pipe, nearest_reader,
}

-- `a` lies on the side of `b` that is searched, `b` included.
abbrev pub OnSide : Direction → ℕ → ℕ → Type 0
OnSide ahead a b = b ≤ a
OnSide behind a b = a ≤ b

-- Of two positions on that side, `a` is at least as near as `b`.
abbrev pub Near : Direction → ℕ → ℕ → Type 0
Near ahead a b = a ≤ b
Near behind a b = b ≤ a

Near-refl : (d : Direction) (a : ℕ) → Near d a a
Near-refl ahead a = omega arith
Near-refl behind a = omega arith

Near-trans : (d : Direction) (a b c : ℕ) → Near d a b → Near d b c → Near d a c
Near-trans ahead a b c h k = omega arith
Near-trans behind a b c h k = omega arith

on_side-OnSide :
    (d : Direction) (a b : ℕ)
    → ((on_side d a b ≡ true) × OnSide d a b) ⊎ ((on_side d a b ≡ false) × ¬ OnSide d a b)
on_side-OnSide ahead a b = elim (Bool-cases (leb b a)) [
  | inl e ↦ inl (e, ground arith)
  | inr e ↦ inr (e, λ h. ground arith)
]
on_side-OnSide behind a b = elim (Bool-cases (leb a b)) [
  | inl e ↦ inl (e, ground arith)
  | inr e ↦ inr (e, λ h. ground arith)
]

nearer-Near :
    (d : Direction) (a b : ℕ)
    → ((nearer d a b ≡ true) × Near d a b) ⊎ ((nearer d a b ≡ false) × Near d b a)
nearer-Near ahead a b = elim (Bool-cases (ltb a b)) [
  | inl e ↦ inl (e, ground arith)
  | inr e ↦ inr (e, ground arith)
]
nearer-Near behind a b = elim (Bool-cases (ltb b a)) [
  | inl e ↦ inl (e, ground arith)
  | inr e ↦ inr (e, ground arith)
]

module _ {A : Type 0} (key : A → ℕ) (pos : ℕ) (d : Direction) where
  -- With nothing found no element is on the side; what is found is one of the list, is on the
  -- side, and none on the side is nearer.
  abbrev pub IsNearest : List A → Option A → Type 0
  IsNearest xs none = All (λ x. ¬ OnSide d (key x) pos) xs
  IsNearest xs (some a) =
      Any (λ x. x ≡ a) xs
      × OnSide d (key a) pos
      × All (λ x. OnSide d (key x) pos → Near d (key a) (key x)) xs

  -- The loop, begun with an element found before.
  abbrev NearestFrom : Option A → List A → Option A → Type 0
  NearestFrom none xs r = IsNearest xs r
  NearestFrom (some c) xs none = ⊥
  NearestFrom (some c) xs (some a) =
      ((c ≡ a) ⊎ Any (λ x. x ≡ a) xs)
      × OnSide d (key a) pos
      × All (λ x. OnSide d (key x) pos → Near d (key a) (key x)) xs
      × Near d (key a) (key c)

  NearestFrom-skip :
      (x : A) (curr : Option A) (xs : List A) (r : Option A)
      → ¬ OnSide d (key x) pos
      → NearestFrom curr xs r
      → NearestFrom curr (x ∷ xs) r
  NearestFrom-skip x none xs none h b = (h, b)
  NearestFrom-skip x none xs (some a) h (i, l, m) = (inr i, l, ((λ k. absurd (h k)), m))
  NearestFrom-skip x (some c) xs none h b = b
  NearestFrom-skip x (some c) xs (some a) h (inl e, l, m, k) =
      (inl e, l, ((λ n. absurd (h n)), m), k)
  NearestFrom-skip x (some c) xs (some a) h (inr i, l, m, k) =
      (inr (inr i), l, ((λ n. absurd (h n)), m), k)

  -- The element is taken, as the first or as a nearer one.
  NearestFrom-take :
      (x : A) (curr : Option A) (xs : List A) (r : Option A)
      → ((c : A) → curr ≡ some c → Near d (key x) (key c))
      → NearestFrom (some x) xs r
      → NearestFrom curr (x ∷ xs) r
  NearestFrom-take x curr xs none h b = absurd b
  NearestFrom-take x none xs (some a) h (i, l, m, k) = (i, l, ((λ _. k), m))
  NearestFrom-take x (some c) xs (some a) h (i, l, m, k) =
      (inr i, l, ((λ _. k), m), Near-trans d (key a) (key x) (key c) k (h c refl))

  -- The one found before is at least as near.
  NearestFrom-pass :
      (x c : A) (xs : List A) (r : Option A)
      → Near d (key c) (key x)
      → NearestFrom (some c) xs r
      → NearestFrom (some c) (x ∷ xs) r
  NearestFrom-pass x c xs none h b = b
  NearestFrom-pass x c xs (some a) h (inl e, l, m, k) =
      (inl e, l, ((λ _. Near-trans d (key a) (key c) (key x) k h), m), k)
  NearestFrom-pass x c xs (some a) h (inr i, l, m, k) =
      (inr (inr i), l, ((λ _. Near-trans d (key a) (key c) (key x) k h), m), k)

  abbrev Fits : Option A → Type 0
  Fits none = Unit
  Fits (some c) = OnSide d (key c) pos

  nearest_from-NearestFrom :
      (curr : Option A) (xs : List A)
      → Fits curr
      → NearestFrom curr xs (nearest_from key pos d curr xs)
  unfolding nearest_from
  nearest_from-NearestFrom none [] f = tt
  nearest_from-NearestFrom (some c) [] f = (inl refl, f, tt, Near-refl d (key c))
  nearest_from-NearestFrom none (x ∷ xs) f = elim (on_side-OnSide d (key x) pos) [
    | inl (e, s) ↦
        rw (e, nearest_from)
          (NearestFrom-take x none xs _ (λ c n. cc) (nearest_from-NearestFrom (some x) xs s))
    | inr (e, s) ↦
        rw (e, nearest_from) (NearestFrom-skip x none xs _ s (nearest_from-NearestFrom none xs tt))
  ]
  nearest_from-NearestFrom (some c) (x ∷ xs) f = elim (on_side-OnSide d (key x) pos) [
    | inl (e, s) ↦ elim (nearer-Near d (key x) (key c)) [
      | inl (n, near) ↦
          rw (e, n, nearest_from)
            (NearestFrom-take x (some c) xs _
              (λ c' p. subst (λ z. Near d (key x) (key z)) (some-injective c c' p) near)
              (nearest_from-NearestFrom (some x) xs s))
      | inr (n, near) ↦
          rw (e, n, nearest_from)
            (NearestFrom-pass x c xs _ near (nearest_from-NearestFrom (some c) xs f))
    ]
    | inr (e, s) ↦
        rw (e, nearest_from)
          (NearestFrom-skip x (some c) xs _ s (nearest_from-NearestFrom (some c) xs f))
  ]

pub nearest_pipe-IsNearest :
    (pipes : List Pipe) (pos : ℕ) (d : Direction)
    → IsNearest pipe_pos pos d pipes (nearest_pipe pipes pos d)
unfolding nearest_pipe
nearest_pipe-IsNearest pipes pos d = nearest_from-NearestFrom pipe_pos pos d none pipes tt

pub nearest_reader-IsNearest :
    (readers : List Reader) (pos : ℕ) (d : Direction)
    → IsNearest reader_pos pos d readers (nearest_reader readers pos d)
unfolding nearest_reader
nearest_reader-IsNearest readers pos d = nearest_from-NearestFrom reader_pos pos d none readers tt
