-- ===== src/Methods/RoundTrip.antt =====
-- The request methods of src/ms_common.c there and back.
use Prim.Native.String.{String}
use libms.Base.{
  ℕ, zero, suc, ◌≤◌, ◌<◌, ◌≡◌, refl, Bool, true, ◌&&◌, List, [], ◌∷◌, ◌==◌, length, arith, dec_lt,
}
use libms.Methods.{method_map, http_unknown, elem_at, ms_http_method_str, ms_http_method_enum}

-- A test at every number below a bound.
abbrev all_below : (ℕ → Bool) → ℕ → Bool
all_below test zero = true
all_below test (suc n) = test n && all_below test n

all_below_lem : (test : ℕ → Bool) (n m : ℕ) → all_below test n ≡ true → m < n → test m ≡ true
all_below_lem test zero m e h = absurd (omega arith)
all_below_lem test (suc n) m e h = elim (dec_lt m n) [
  | yes l ↦ all_below_lem test n m (ground arith) l
  | no l ↦ let last : m ≡ n = omega arith in rw last (ground arith)
]

all_methods : all_below (λ n. ms_http_method_enum (ms_http_method_str n) == n) 34 ≡ true
unfolding ms_http_method_enum ms_http_method_str
all_methods = refl

-- The text of each method but MS_HTTP_UNKNOWN is read back as that method.
pub ms_http_method_enum-ms_http_method_str :
    (m : ℕ) → m < 34 → ms_http_method_enum (ms_http_method_str m) ≡ m
ms_http_method_enum-ms_http_method_str m h =
    let e =
      all_below_lem (λ n. ms_http_method_enum (ms_http_method_str n) == n) 34 m all_methods h in
    ground arith

elem_at-behind : (xs : List (ℕ × String)) (i : ℕ) (v : String) → length xs ≤ i → elem_at xs i v ≡ v
elem_at-behind [] i v h = refl
elem_at-behind ((num, string) ∷ xs) zero v h = absurd (omega arith)
elem_at-behind ((num, string) ∷ xs) (suc i) v h = elem_at-behind xs i v (omega arith)

-- MS_HTTP_UNKNOWN is written as every number beyond the table is.
pub ms_http_method_str-unknown :
    (m : ℕ) → 35 ≤ m → ms_http_method_str m ≡ ms_http_method_str http_unknown
unfolding ms_http_method_str
ms_http_method_str-unknown m h = elem_at-behind method_map m "<unknown>" h
