-- ===== src/MemStorage/Close/Once.antt =====
-- What `storage_close` of src/ms_mem_storage.c frees, and how often.
use libms.Base.{
  ℕ, zero, suc, ◌+◌, ◌*◌, ◌-◌, ◌≤◌, ◌<◌, ◌≡◌, ◌⊎◌, inl, inr, refl, ap, ◌∙◌, Bool, true, false,
  Option, none, some, List, [], ◌∷◌, ◌++◌, ok, arith, dec_lt, Option-cases, ◌==◌, ltb,
}
use libms.MemStorage.{Buf, Block, MemStorage, block_num}
use libms.MemStorage.View.{piece_at, IsValid, piece_at-block, piece_at-none}
use libms.MemStorage.Close.{Freed, free_buf, close_pieces, close_blocks, storage_close}

abbrev pub one_more_if : Bool → ℕ → ℕ
one_more_if true n = n + 1
one_more_if false n = n

one_more_if-sum : (b : Bool) (n m : ℕ) → one_more_if b (n + m) ≡ one_more_if b n + m
one_more_if-sum true n m = omega arith
one_more_if-sum false n m = refl

-- How often the buffer of a piece is freed.
abbrev pub is_piece : ℕ → Freed → Bool
is_piece k (Freed.piece_buf j) = j == k
is_piece k (Freed.block_at j) = false
is_piece k Freed.block_table = false
is_piece k Freed.whole_storage = false

unfoldable pub frees_of : ℕ → List Freed → ℕ
frees_of k [] = 0
frees_of k (x ∷ xs) = one_more_if (is_piece k x) (frees_of k xs)

-- How many buffers there are at a piece.
abbrev pub buffers : Option Buf → ℕ
buffers none = 0
buffers (some b) = 1

frees_of-append :
    (k : ℕ) (xs ys : List Freed) → frees_of k (xs ++ ys) ≡ frees_of k xs + frees_of k ys
unfolding frees_of
frees_of-append k [] ys = omega arith
frees_of-append k (x ∷ xs) ys =
    ap (one_more_if (is_piece k x)) (frees_of-append k xs ys)
    ∙ one_more_if-sum (is_piece k x) (frees_of k xs) (frees_of k ys)

frees_of-other :
    (o : Option Buf) (j k : ℕ) (rest : List Freed)
    → (j == k) ≡ false
    → frees_of k (free_buf o j rest) ≡ frees_of k rest
unfolding frees_of
frees_of-other none j k rest other = refl
frees_of-other (some x) j k rest other = rw other refl

frees_of-own :
    (o : Option Buf) (j k : ℕ) (rest : List Freed)
    → (j == k) ≡ true
    → frees_of k rest ≡ 0
    → frees_of k (free_buf o j rest) ≡ buffers o
unfolding frees_of
frees_of-own none j k rest this no_more = no_more
frees_of-own (some x) j k rest this no_more = rw (this, no_more) refl

close_pieces-others :
    (block : Block) (b i n k : ℕ)
    → (k < b * 128 + i) ⊎ (b * 128 + i + n ≤ k)
    → frees_of k (close_pieces block b i n) ≡ 0
unfolding frees_of close_pieces
close_pieces-others block b i zero k out = refl
close_pieces-others block b i (suc n) k out =
    let rest : frees_of k (close_pieces block b (i + 1) n) ≡ 0 =
      close_pieces-others block b (i + 1) n k
        (elim out [ inl l ↦ inl (omega arith) | inr l ↦ inr (omega arith) ]) in
    let other : (b * 128 + i == k) ≡ false = elim out [
      | inl l ↦ ground arith
      | inr l ↦ ground arith
    ] in
    frees_of-other (block i) (b * 128 + i) k (close_pieces block b (i + 1) n) other ∙ rest

close_pieces-own :
    (block : Block) (b i n j k : ℕ)
    → i ≤ j
    → j < i + n
    → k ≡ b * 128 + j
    → frees_of k (close_pieces block b i n) ≡ buffers (block j)
unfolding frees_of close_pieces
close_pieces-own block b i zero j k from to at = absurd (omega arith)
close_pieces-own block b i (suc n) j k from to at = elim (dec_lt i j) [
  | yes l ↦
      let rest = close_pieces-own block b (i + 1) n j k (omega arith) (omega arith) at in
      let other : (b * 128 + i == k) ≡ false = ground arith in
      frees_of-other (block i) (b * 128 + i) k (close_pieces block b (i + 1) n) other ∙ rest
  | no n' ↦
      let here : i ≡ j = omega arith in
      let rest : frees_of k (close_pieces block b (i + 1) n) ≡ 0 =
        close_pieces-others block b (i + 1) n k (inl (omega arith)) in
      let this : (b * 128 + i == k) ≡ true = ground arith in
      frees_of-own (block i) (b * 128 + i) k (close_pieces block b (i + 1) n) this rest
      ∙ ap (λ m. buffers (block m)) here
]

-- Of the pieces of these blocks each is freed as often as it has a buffer, and no other one.
abbrev FreesBlocks : MemStorage → ℕ → ℕ → List Freed → Type 0
FreesBlocks st b n freed =
    ((k : ℕ) → (k < b * 128) ⊎ ((b + n) * 128 ≤ k) → frees_of k freed ≡ 0)
    × ((k : ℕ) → b * 128 ≤ k → k < (b + n) * 128 → frees_of k freed ≡ buffers (piece_at st k))

close_blocks-FreesBlocks :
    (st : MemStorage) (b n : ℕ)
    → b + n ≤ st.allocated
    → (freed : List Freed) × (close_blocks st b n ≡ ok freed) × FreesBlocks st b n freed
unfolding close_blocks frees_of
close_blocks-FreesBlocks st b zero fits =
    ([], refl, ((λ k out. refl), (λ k from to. absurd (omega arith))))
close_blocks-FreesBlocks st b (suc n) fits =
    let (rest, done, (others, own)) = close_blocks-FreesBlocks st (b + 1) n (omega arith) in
    let room : ltb b st.allocated ≡ true = ground arith in
    elim (Option-cases (st.blocks b)) [
      | inl e ↦ (
        rest,
        simp (room, e, done),
        (
          (λ k out. others k (elim out [ inl l ↦ inl (omega arith) | inr l ↦ inr (omega arith) ])),
          (λ k from to. elim (dec_lt k ((b + 1) * 128)) [
            | yes l ↦
                let none_there : piece_at st k ≡ none = piece_at-none st b k e (omega arith) in
                rw none_there (others k (inl l))
            | no l ↦ own k (omega arith) (omega arith)
          ]),
        ),
      )
      | inr (block, e) ↦
          let pieces : List Freed = close_pieces block b 0 128 in
          let sum : (k : ℕ)
              → frees_of k (pieces ++ (Freed.block_at b ∷ rest))
                ≡ frees_of k pieces + frees_of k rest =
            λ k. frees_of-append k pieces (Freed.block_at b ∷ rest) in
          (
            pieces ++ (Freed.block_at b ∷ rest),
            simp (room, e, done),
            (
              (λ k out.
                  let a =
                    close_pieces-others block b 0 128 k
                      (elim out [ inl l ↦ inl (omega arith) | inr l ↦ inr (omega arith) ]) in
                  let c =
                    others k (elim out [ inl l ↦ inl (omega arith) | inr l ↦ inr (omega arith) ]) in
                  rw (sum k, a, c) refl),
              (λ k from to. elim (dec_lt k ((b + 1) * 128)) [
                | yes l ↦
                    let j : ℕ = k - b * 128 in
                    let at : k ≡ b * 128 + j = omega arith in
                    let a = close_pieces-own block b 0 128 j k (omega arith) (omega arith) at in
                    let c = others k (inl l) in
                    rw (sum k, a, c, piece_at-block st b j k block e (omega arith) at) (omega arith)
                | no l ↦
                    let a = close_pieces-others block b 0 128 k (inr (omega arith)) in
                    let c = own k (omega arith) (omega arith) in omega (arith, sum k, a, c)
              ]),
            ),
          )
    ]

-- Closing a valid storage ends with no fault and frees the buffer of each piece once if there is
-- one, and not at all if there is none.
pub storage_close-frees_of :
    (st : MemStorage)
    → IsValid st
    → (freed : List Freed) × (storage_close st ≡ ok freed)
      × ((k : ℕ) → frees_of k freed ≡ buffers (piece_at st k))
unfolding storage_close frees_of
storage_close-frees_of st v =
    let (freed, done, (others, own)) =
      close_blocks-FreesBlocks st 0 (block_num st.estimate_size) (omega (arith, v.entries)) in
    (
      freed ++ (Freed.block_table ∷ Freed.whole_storage ∷ []),
      simp done,
      λ k.
          frees_of-append k freed (Freed.block_table ∷ Freed.whole_storage ∷ [])
          ∙ add_zero (frees_of k freed)
          ∙ elim (dec_lt k (block_num st.estimate_size * 128)) [
            | yes l ↦ own k (omega arith) (omega arith)
            | no l ↦ elim (Option-cases (piece_at st k)) [
              | inl e ↦ rw e (others k (inr (omega arith)))
              | inr (x, e) ↦ absurd (omega (arith, v.inside k x e))
            ]
          ],
    )
  where
    add_zero : (n : ℕ) → n + 0 ≡ n
    add_zero n = omega arith
