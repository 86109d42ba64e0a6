-- ===== src/Base/Lists.antt =====
-- Lists measured by native numbers, under the library's names.
use Prim.Native.Nat.{ℕ, zero, suc, ◌≤◌, ◌+◌, ◌-◌}
use mathlib.Core.Bool.{Bool, true, false, ◌&&◌}
use libms.Base.Tests.{◌==◌}
use mathlib.Core.Path.{◌≡◌, refl, ap, subst}
use mathlib.Core.Logic.{◌⊎◌, inl, inr}
use mathlib.Core.List.{List, [], ◌∷◌, ◌++◌}
use native.Mathlib.Omega.{arith}

zero_add : (a : ℕ) → 0 + a ≡ a
zero_add a = omega arith

add_zero : (a : ℕ) → a + 0 ≡ a
add_zero a = omega arith

sub_zero : (a : ℕ) → a - 0 ≡ a
sub_zero a = omega arith

suc_add : (a b : ℕ) → suc a + b ≡ suc (a + b)
suc_add a b = omega arith

add_suc : (a b : ℕ) → a + suc b ≡ a + 1 + b
add_suc a b = omega arith

sub_suc : (a b : ℕ) → suc a - suc b ≡ a - b
sub_suc a b = omega arith

module _ {ℓ} {A : Type ℓ} where
  abbrev pub take : ℕ → List A → List A
  take zero xs = []
  take (suc n) [] = []
  take (suc n) (x ∷ xs) = x ∷ take n xs

  abbrev pub drop : ℕ → List A → List A
  drop zero xs = xs
  drop (suc n) [] = []
  drop (suc n) (x ∷ xs) = drop n xs

  pub take-drop : (n : ℕ) (xs : List A) → take n xs ++ drop n xs ≡ xs
  take-drop zero xs = refl
  take-drop (suc n) [] = refl
  take-drop (suc n) (x ∷ xs) = ap (λ ys. x ∷ ys) (take-drop n xs)

  abbrev pub length : List A → ℕ
  length [] = 0
  length (x ∷ xs) = suc (length xs)

  pub length-append : (xs ys : List A) → length (xs ++ ys) ≡ length xs + length ys
  length-append [] ys = omega arith
  length-append (x ∷ xs) ys = omega (arith, length-append xs ys)

  pub length-take : (n : ℕ) (xs : List A) → n ≤ length xs → length (take n xs) ≡ n
  length-take zero xs h = refl
  length-take (suc n) [] h = omega arith
  length-take (suc n) (x ∷ xs) h = omega (arith, length-take n xs (omega arith))

  pub length-drop : (n : ℕ) (xs : List A) → n ≤ length xs → length (drop n xs) + n ≡ length xs
  length-drop zero xs h = omega arith
  length-drop (suc n) [] h = omega arith
  length-drop (suc n) (x ∷ xs) h = omega (arith, length-drop n xs (omega arith))

  pub take-all : (n : ℕ) (xs : List A) → length xs ≤ n → take n xs ≡ xs
  take-all zero [] h = refl
  take-all zero (x ∷ xs) h = absurd (omega arith)
  take-all (suc n) [] h = refl
  take-all (suc n) (x ∷ xs) h = ap (λ ys. x ∷ ys) (take-all n xs (omega arith))

  pub drop-all : (n : ℕ) (xs : List A) → length xs ≤ n → drop n xs ≡ []
  drop-all zero [] h = refl
  drop-all zero (x ∷ xs) h = absurd (omega arith)
  drop-all (suc n) [] h = refl
  drop-all (suc n) (x ∷ xs) h = drop-all n xs (omega arith)

  -- The values of a function from a position on.
  abbrev pub slice : (ℕ → A) → ℕ → ℕ → List A
  slice f p zero = []
  slice f p (suc n) = f p ∷ slice f (p + 1) n

  pub length-slice : (f : ℕ → A) (p n : ℕ) → length (slice f p n) ≡ n
  length-slice f p zero = refl
  length-slice f p (suc n) = omega (arith, length-slice f (p + 1) n)

  pub slice-add : (f : ℕ → A) (p m n : ℕ) → slice f p (m + n) ≡ slice f p m ++ slice f (p + m) n
  slice-add f p zero n = rw (zero_add n, add_zero p) refl
  slice-add f p (suc m) n =
      rw (suc_add m n, add_suc p m) (ap (λ ys. f p ∷ ys) (slice-add f (p + 1) m n))

  pub take-slice : (f : ℕ → A) (p m n : ℕ) → m ≤ n → take m (slice f p n) ≡ slice f p m
  take-slice f p zero n h = refl
  take-slice f p (suc m) zero h = absurd (omega arith)
  take-slice f p (suc m) (suc n) h = ap (λ ys. f p ∷ ys) (take-slice f (p + 1) m n (omega arith))

  pub drop-slice : (f : ℕ → A) (p m n : ℕ) → m ≤ n → drop m (slice f p n) ≡ slice f (p + m) (n - m)
  drop-slice f p zero n h = rw (add_zero p, sub_zero n) refl
  drop-slice f p (suc m) zero h = absurd (omega arith)
  drop-slice f p (suc m) (suc n) h =
      rw (add_suc p m, sub_suc n m) (drop-slice f (p + 1) m n (omega arith))

-- Predicates on lists by recursion: they compute to tuples and sums.
abbrev pub All {ℓ} : {A : Type ℓ} → (A → Type 0) → List A → Type 0
All P [] = Unit
All P (x ∷ xs) = P x × All P xs

abbrev pub Any {ℓ} : {A : Type ℓ} → (A → Type 0) → List A → Type 0
Any P [] = ⊥
Any P (x ∷ xs) = P x ⊎ Any P xs

module _ {A : Type 0} where
  pub All-map : {P Q : A → Type 0} (xs : List A) → ((x : A) → P x → Q x) → All P xs → All Q xs
  All-map [] f h = tt
  All-map (x ∷ xs) f (h, hs) = (f x h, All-map xs f hs)

  -- An element with one property has the other.
  pub Any-All : {P Q : A → Type 0} (xs : List A) → Any P xs → All Q xs → (x : A) × P x × Q x
  Any-All [] a _ = elim a [ ]
  Any-All (x ∷ xs) (inl p) (q, _) = (x, p, q)
  Any-All (x ∷ xs) (inr a) (_, qs) = Any-All xs a qs

  pub All-mem : (P : A → Type 0) (a : A) (xs : List A) → Any (λ x. x ≡ a) xs → All P xs → P a
  All-mem P a [] m h = elim m [ ]
  All-mem P a (x ∷ xs) (inl e) (h, _) = subst P e h
  All-mem P a (x ∷ xs) (inr m) (_, hs) = All-mem P a xs m hs

  pub Any-map : {P Q : A → Type 0} (xs : List A) → ((x : A) → P x → Q x) → Any P xs → Any Q xs
  Any-map [] f a = elim a [ ]
  Any-map (x ∷ xs) f (inl h) = inl (f x h)
  Any-map (x ∷ xs) f (inr h) = inr (Any-map xs f h)

  pub All-All : {P : A → Type 0} (xs : List A) → ((x : A) → P x) → All P xs
  All-All [] f = tt
  All-All (x ∷ xs) f = (f x, All-All xs f)

-- `memcmp` with the bytes of a prefix.
abbrev pub starts_with : List ℕ → List ℕ → Bool
starts_with [] bytes = true
starts_with (c ∷ cs) [] = false
starts_with (c ∷ cs) (b ∷ bytes) = c == b && starts_with cs bytes
