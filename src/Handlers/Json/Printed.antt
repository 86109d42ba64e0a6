-- ===== src/Handlers/Json/Printed.antt =====
-- The calls of `snprintf` in src/ms_server_handler.c that write behind each other, and what the buffer
-- holds of them.
use mathlib.Core.List.{append_assoc, append-nil}
use libms.Base.{
  ℕ, zero, suc, ◌-◌, ◌≡◌, refl, sym, ap, ◌∙◌, List, [], ◌∷◌, ◌++◌, take, length, map, arith,
}
use libms.Handlers.Json.{bytes, print, print_all}

-- Texts with commas between them.
abbrev pub commas : List (List ℕ) → List ℕ
commas [] = []
commas (x ∷ []) = x
commas (x ∷ y ∷ xs) = x ++ (bytes "," ++ commas (y ∷ xs))

abbrev pub concat : List (List ℕ) → List ℕ
concat [] = []
concat (x ∷ xs) = x ++ concat xs

take-print :
    (n : ℕ) (xs ys : List ℕ) → take n xs ++ take (n - length (take n xs)) ys ≡ take n (xs ++ ys)
take-print zero xs ys = let none_left : 0 - 0 ≡ 0 = omega arith in ap (λ k. take k ys) none_left
take-print (suc n) [] ys =
    let all_left : suc n - 0 ≡ suc n = omega arith in ap (λ k. take k ys) all_left
take-print (suc n) (x ∷ xs) ys =
    let left : suc n - suc (length (take n xs)) ≡ n - length (take n xs) = omega arith in
    ap (λ zs. x ∷ zs) (ap (λ k. take n xs ++ take k ys) left ∙ take-print n xs ys)

pub take-nil : (n : ℕ) → ◌≡◌ {A = List ℕ} (take n []) []
take-nil zero = refl
take-nil (suc n) = refl

module _ (capacity : ℕ) where
  -- What was cut goes on cut.
  abbrev pub cut : List ℕ → List ℕ
  cut = take (capacity - 1)

  pub print-cut : (xs ys : List ℕ) → print capacity (cut xs) ys ≡ cut (xs ++ ys)
  unfolding print
  print-cut xs ys = take-print (capacity - 1) xs ys

  pub print_all-cut :
      (xs : List ℕ) (texts : List (List ℕ))
      → print_all capacity (cut xs) texts ≡ cut (xs ++ concat texts)
  unfolding print_all
  print_all-cut xs [] = ap cut (sym (append-nil xs))
  print_all-cut xs (text ∷ texts) =
      ap (λ js. print_all capacity js texts) (print-cut xs text)
      ∙ print_all-cut (xs ++ text) texts
      ∙ ap cut (append_assoc xs text (concat texts))

-- The members behind the first, each with its comma.
unfoldable pub behind : {A : Type 0} → (A → List ℕ) → List A → List ℕ
behind text [] = []
behind text (x ∷ xs) = bytes "," ++ (text x ++ behind text xs)

pub commas-map :
    {A : Type 0} (text : A → List ℕ) (x : A) (xs : List A)
    → text x ++ behind text xs ≡ commas (map text (x ∷ xs))
unfolding behind
commas-map text x [] = append-nil (text x)
commas-map text x (y ∷ xs) = ap (λ zs. text x ++ (bytes "," ++ zs)) (commas-map text y xs)

-- Five parts, one behind the other.
pub five :
    (xs a b c d e : List ℕ)
    → (((((xs ++ a) ++ b) ++ c) ++ d) ++ e) ≡ xs ++ (a ++ (b ++ (c ++ (d ++ e))))
five xs a b c d e =
    append_assoc (((xs ++ a) ++ b) ++ c) d e
    ∙ append_assoc ((xs ++ a) ++ b) c (d ++ e)
    ∙ append_assoc (xs ++ a) b (c ++ (d ++ e))
    ∙ append_assoc xs a (b ++ (c ++ (d ++ e)))

-- It goes on after what was written, and is cut where the buffer ends.
abbrev pub Prints : {A : Type 0} → ℕ → (List ℕ → A → List ℕ) → (A → List ℕ) → Type 0
Prints {A} capacity fill text =
    (xs : List ℕ) (a : A) → fill (cut capacity xs) a ≡ cut capacity (xs ++ text a)
