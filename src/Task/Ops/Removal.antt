-- ===== src/Task/Ops/Removal.antt =====
-- `remove_reader` leaves only the pipes that the readers still need.
use mathlib.Core.List.{append_assoc, append-nil}
use libms.Base.{
  ℕ, ◌≡◌, ◌≢◌, inl, inr, refl, sym, ap, ◌∙◌, subst, Bool, List, [], ◌∷◌, ◌++◌, All, Any, All-map,
  All-All, Any-map, if◌then◌else◌, arith,
}
use libms.Storage.{Storage}
use libms.Task.{Reader, Pipe, Task}
use libms.Task.Dispatch.{remove_pipe, close_pipe, max_cache}
use libms.Task.Dispatch.Pipes.{IsNeeded, dispatch_pipe-IsNeeded}
use libms.Task.Ops.{is_empty, unlink_reader, dispatch_pipes, without_reader, remove_reader}

-- The pipes have different addresses.
abbrev pub Distinct : List Pipe → Type 0
Distinct [] = Unit
Distinct (p ∷ pipes) = All (λ q. q.id ≢ p.id) pipes × Distinct pipes

-- None of the later pipes is one of the earlier.
abbrev Apart : List Pipe → List Pipe → Type 0
Apart kept = All (λ p. All (λ q. q.id ≢ p.id) kept)

All-drop :
    (P : Pipe → Type 0) (kept : List Pipe) (p : Pipe) (rest : List Pipe)
    → All P (kept ++ (p ∷ rest))
    → All P (kept ++ rest)
All-drop P [] p rest (_, h) = h
All-drop P (q ∷ kept) p rest (h, hs) = (h, All-drop P kept p rest hs)

Any-drop :
    (kept : List Pipe) (p q : Pipe) (rest : List Pipe)
    → p ≢ q
    → Any (λ x. x ≡ q) (kept ++ (p ∷ rest))
    → Any (λ x. x ≡ q) (kept ++ rest)
Any-drop [] p q rest off (inl e) = absurd (off e)
Any-drop [] p q rest off (inr m) = m
Any-drop (x ∷ kept) p q rest off (inl e) = inl e
Any-drop (x ∷ kept) p q rest off (inr m) = inr (Any-drop kept p q rest off m)

Any-insert :
    (kept : List Pipe) (p q : Pipe) (rest : List Pipe)
    → Any (λ x. x ≡ q) (kept ++ rest)
    → Any (λ x. x ≡ q) (kept ++ (p ∷ rest))
Any-insert [] p q rest m = inr m
Any-insert (x ∷ kept) p q rest (inl e) = inl e
Any-insert (x ∷ kept) p q rest (inr m) = inr (Any-insert kept p q rest m)

All-snoc :
    (P : Pipe → Type 0) (kept : List Pipe) (p : Pipe) → All P kept → P p → All P (kept ++ (p ∷ []))
All-snoc P [] p _ h = (h, tt)
All-snoc P (q ∷ kept) p (k, ks) h = (k, All-snoc P kept p ks h)

Apart-snoc :
    (kept : List Pipe) (p : Pipe) (rest : List Pipe)
    → Apart kept rest
    → All (λ q. q.id ≢ p.id) rest
    → Apart (kept ++ (p ∷ [])) rest
Apart-snoc kept p [] _ _ = tt
Apart-snoc kept p (q ∷ rest) (a, later) (d, ds) =
    (All-snoc _ kept p a (λ e. d (sym e)), Apart-snoc kept p rest later ds)

remove_pipe-here :
    (kept : List Pipe) (p : Pipe) (rest : List Pipe)
    → All (λ q. q.id ≢ p.id) kept
    → remove_pipe p.id (kept ++ (p ∷ rest)) ≡ kept ++ rest
unfolding remove_pipe
remove_pipe-here [] p rest _ = ground arith
remove_pipe-here (q ∷ kept) p rest (n, ns) = ground (arith, remove_pipe-here kept p rest ns)

-- With one pipe less the others are needed as before.
IsNeeded-drop :
    (max : ℕ) (readers : List Reader) (kept : List Pipe) (p : Pipe) (rest : List Pipe) (pipe : Pipe)
    → IsNeeded max pipe (kept ++ (p ∷ rest)) readers
    → IsNeeded max pipe (kept ++ rest) readers
IsNeeded-drop max readers kept p rest pipe (alone, any) = (
  All-drop _ kept p rest alone,
  Any-map readers (λ r (l, m, c). (l, m, All-drop _ kept p rest c)) any,
)

module _ {S : Type 0} (ops : Storage S) where
  abbrev AllNeeded : Task S → List Pipe → Type 0
  AllNeeded t = All (λ p. IsNeeded (max_cache ops t) p t.pipes t.readers)

  -- What the sweep keeps, and that it leaves no pipe that is not needed.
  abbrev pub Swept : Task S → Task S → Type 0
  Swept t t' =
      (t'.readers ≡ t.readers)
      × (t'.storage ≡ t.storage)
      × (t'.close_ts ≡ t.close_ts)
      × AllNeeded t' t'.pipes
      × ((q : Pipe) → Any (λ p. p ≡ q) t'.pipes → Any (λ p. p ≡ q) t.pipes)

  closed_pipes :
      (t : Task S) (kept : List Pipe) (p : Pipe) (rest : List Pipe)
      → t.pipes ≡ kept ++ (p ∷ rest)
      → All (λ q. q.id ≢ p.id) kept
      → (close_pipe t p).pipes ≡ kept ++ rest
  unfolding close_pipe
  closed_pipes t kept p rest e a = ap (remove_pipe p.id) e ∙ remove_pipe-here kept p rest a

  IsNeeded-still :
      (t : Task S) (kept : List Pipe) (p : Pipe) (rest : List Pipe) (q : Pipe)
      → t.pipes ≡ kept ++ (p ∷ rest)
      → (close_pipe t p).pipes ≡ kept ++ rest
      → IsNeeded (max_cache ops t) q t.pipes t.readers
      → IsNeeded (max_cache ops (close_pipe t p)) q (close_pipe t p).pipes (close_pipe t p).readers
  unfolding close_pipe
  IsNeeded-still t kept p rest q e e' h =
      subst (λ ps. IsNeeded (max_cache ops t) q ps t.readers) (sym e')
        (IsNeeded-drop (max_cache ops t) t.readers kept p rest q
          (subst (λ ps. IsNeeded (max_cache ops t) q ps t.readers) e h))

  sweep :
      (rest kept : List Pipe) (t : Task S)
      → t.pipes ≡ kept ++ rest
      → Apart kept rest
      → Distinct rest
      → AllNeeded t kept
      → Swept t (dispatch_pipes ops t rest)
  unfolding dispatch_pipes close_pipe
  sweep [] kept t e _ _ n =
      (refl, refl, refl, subst (AllNeeded t) (sym (e ∙ append-nil kept)) n, (λ q m. m))
  sweep (p ∷ rest) kept t e (a, later) (d, ds) n = elim (dispatch_pipe-IsNeeded ops t p) [
    | inl (k, need) ↦
        subst (λ (z : Task S × Bool). Swept t (dispatch_pipes ops z.0 rest)) (sym k)
          (sweep rest (kept ++ (p ∷ [])) t (e ∙ sym (append_assoc kept (p ∷ []) rest))
            (Apart-snoc kept p rest later d) ds (All-snoc _ kept p n need))
    | inr (k, _) ↦
        let e' = closed_pipes t kept p rest e a in
        let (readers, storage, ts, needed, old) =
          sweep rest kept (close_pipe t p) e' later ds
            (All-map kept (λ q h. IsNeeded-still t kept p rest q e e' h) n) in
        subst (λ (z : Task S × Bool). Swept t (dispatch_pipes ops z.0 rest)) (sym k)
          (
            readers,
            storage,
            ts,
            needed,
            λ q m.
                subst (Any (λ x. x ≡ q)) (sym e)
                  (Any-insert kept p q rest (subst (Any (λ x. x ≡ q)) e' (old q m))),
          )
  ]

  -- A pipe that is needed when the sweep begins is needed at its turn.
  sweep_keeps :
      (rest kept : List Pipe) (t : Task S) (q : Pipe)
      → t.pipes ≡ kept ++ rest
      → Apart kept rest
      → Distinct rest
      → IsNeeded (max_cache ops t) q t.pipes t.readers
      → Any (λ p. p ≡ q) t.pipes
      → Any (λ p. p ≡ q) (dispatch_pipes ops t rest).pipes
  unfolding dispatch_pipes close_pipe
  sweep_keeps [] kept t q e _ _ need m = m
  sweep_keeps (p ∷ rest) kept t q e (a, later) (d, ds) need m =
      elim (dispatch_pipe-IsNeeded ops t p) [
        | inl (k, _) ↦
            subst (λ (z : Task S × Bool). Any (λ x. x ≡ q) (dispatch_pipes ops z.0 rest).pipes)
              (sym k)
              (sweep_keeps rest (kept ++ (p ∷ [])) t q (e ∙ sym (append_assoc kept (p ∷ []) rest))
                (Apart-snoc kept p rest later d) ds need m)
        | inr (k, idle) ↦
            let e' = closed_pipes t kept p rest e a in
            let off : p ≢ q = λ i.
              idle (subst (λ z. IsNeeded (max_cache ops t) z t.pipes t.readers) (sym i) need) in
            subst (λ (z : Task S × Bool). Any (λ x. x ≡ q) (dispatch_pipes ops z.0 rest).pipes)
              (sym k)
              (sweep_keeps rest kept (close_pipe t p) q e' later ds
                (IsNeeded-still t kept p rest q e e' need)
                (subst (Any (λ x. x ≡ q)) (sym e')
                  (Any-drop kept p q rest off (subst (Any (λ x. x ≡ q)) e m))))
      ]

  -- With pipes of different addresses, `remove_reader` takes the reader out and then closes pipes
  -- only: each pipe that is left is needed by the readers that are left, beside the pipes that
  -- are left, and each pipe that was needed by these readers at first is left.
  pub remove_reader-Swept :
      (now : ℕ) (t : Task S) (reader : Reader)
      → Distinct t.pipes
      → Swept (without_reader now t reader) (remove_reader ops now t reader)
        × ((q : Pipe)
            → Any (λ p. p ≡ q) t.pipes
            → IsNeeded (max_cache ops t) q t.pipes (unlink_reader reader.id t.readers)
            → Any (λ p. p ≡ q) (remove_reader ops now t reader).pipes)
  unfolding remove_reader without_reader
  remove_reader-Swept now t reader d = (
    sweep t.pipes [] (without_reader now t reader) refl (All-All t.pipes (λ _. tt)) d tt,
    (λ q m need.
        sweep_keeps t.pipes [] (without_reader now t reader) q refl (All-All t.pipes (λ _. tt)) d
          need m),
  )

  none_needed :
      (max : ℕ) (all pipes : List Pipe) → All (λ p. IsNeeded max p all []) pipes → pipes ≡ []
  none_needed max all [] _ = refl
  none_needed max all (p ∷ pipes) ((_, a), _) = elim a [ ]

  -- With pipes of different addresses, `remove_reader` of the only reader closes every pipe and
  -- keeps the time.
  pub remove_reader-last :
      (now : ℕ) (t : Task S) (reader : Reader)
      → Distinct t.pipes
      → unlink_reader reader.id t.readers ≡ []
      → ((remove_reader ops now t reader).pipes ≡ [])
        × ((remove_reader ops now t reader).close_ts ≡ now)
  unfolding without_reader
  remove_reader-last now t reader d e =
      let ((readers, _, ts, needed, _), _) = remove_reader-Swept now t reader d in
      let t' = remove_reader ops now t reader in
      (
        none_needed (max_cache ops t') t'.pipes t'.pipes (
            subst (λ rs. All (λ p. IsNeeded (max_cache ops t') p t'.pipes rs) t'.pipes)
              (readers ∙ e) needed),
        ts ∙ ap (λ rs. if is_empty rs then now else t.close_ts) e,
      )
