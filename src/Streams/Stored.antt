-- ===== src/Streams/Stored.antt =====
-- `on_recv` of src/ms_task.c on the storage of src/ms_mem_storage.c: bytes of the file come in.
use libms.Base.{
  ℕ, ◌+◌, ◌-◌, ◌/◌, ◌%◌, ◌^◌, ◌≤◌, ◌<◌, ◌≡◌, ◌⊎◌, inl, inr, sym, ap, ◌∙◌, subst, none, some, List,
  All, ◌==◌, ◌&&◌, leb, ltb, if◌then◌else◌, ok, arith, Bool-cases, true, Option,
}
use libms.Task.{Task, reader_pos}
use libms.Task.Events.{store, hold_pos}
use libms.MemStorage.{Buf, MemStorage, piece_unit_size}
use libms.MemStorage.View.{byte_at}
use libms.MemStorage.Write.Bytes.{storage_write-byte_at}
use libms.MemStorage.Clear.Evicts.{Evicted, clear_buffer_for-Evicted}
use libms.MemStorage.Interface.{mem_storage}
use libms.Streams.Backed.{IsBacked, some-injective}

-- A byte that is left is the one that was there.
Evicted-byte_at :
    (holds : List ℕ) (st st' : MemStorage) (i b : ℕ)
    → Evicted holds st st'
    → byte_at st' i ≡ some b
    → byte_at st i ≡ some b
unfolding byte_at
Evicted-byte_at holds st st' i b e h = elim (e.pieces (i / piece_unit_size)) [
  | inl same ↦
      subst
        (λ (o : Option Buf).
          elim o [ none ↦ none | some c ↦ some (c (i % piece_unit_size)) ] ≡ some b)
        same h
  | inr (gone, _, _) ↦
      let lost : none ≡ some b =
        subst
          (λ (o : Option Buf).
            elim o [ none ↦ none | some c ↦ some (c (i % piece_unit_size)) ] ≡ some b)
          gone h in
      absurd (cc)
]

module _ (malloc : ℕ → Buf) (buf : Buf) (now : ℕ) (f : ℕ → ℕ) where
  -- What a write leaves is of the file.
  written_byte :
      (st st' : MemStorage) (pos len i b : ℕ)
      → ((j c : ℕ) → j < st.estimate_size → byte_at st j ≡ some c → c ≡ f j)
      → i < st.estimate_size
      → byte_at st' i
        ≡ (if leb pos i && ltb i (pos + len) then some (f (pos + (i - pos))) else byte_at st i)
      → byte_at st' i ≡ some b
      → b ≡ f i
  written_byte st st' pos len i b old l e h = elim (Bool-cases (leb pos i && ltb i (pos + len))) [
    | inl inside ↦
        let new : byte_at st' i ≡ some (f (pos + (i - pos))) =
          e ∙ ap (λ t. if t then some (f (pos + (i - pos))) else byte_at st i) inside in
        let le : pos ≤ i = ground arith in
        some-injective b (f (pos + (i - pos))) (sym h ∙ new) ∙ ap f (omega arith)
    | inr outside ↦
        let same : byte_at st' i ≡ byte_at st i =
          e ∙ ap (λ t. if t then some (f (pos + (i - pos))) else byte_at st i) outside in
        old i b l (sym same ∙ h)
  ]

  -- On a task whose valid storage of at most 2 GiB caches only bytes of the file, with no reader
  -- beyond its size: bytes of the file that come in at the beginning of a piece, in whole pieces
  -- or up to the estimated size, and inside it, are stored with no fault, all this stays so, and
  -- each of them is cached then.
  pub store-IsBacked :
      (t : Task MemStorage) (pos len : ℕ)
      → IsBacked malloc buf now f t
      → pos % piece_unit_size ≡ 0
      → (pos + len ≡ t.storage.estimate_size) ⊎ (len % piece_unit_size ≡ 0)
      → pos + len ≤ t.storage.estimate_size
      → (t' : Task MemStorage) × (store (mem_storage malloc) t (λ i. f (pos + i)) pos len ≡ ok t')
        × IsBacked malloc buf now f t'
        × ((i : ℕ) → pos ≤ i → i < pos + len → byte_at t'.storage i ≡ some (f i))
  unfolding store
  store-IsBacked t pos len b aligned whole fits =
      let holds : List ℕ = hold_pos t.readers in
      let (st, cleared, v, ev) = clear_buffer_for-Evicted holds t.storage len b.valid b.small in
      let (st', wrote, bytes, v', size) =
        storage_write-byte_at malloc (λ i. f (pos + i)) len pos st v aligned
          (subst (λ n. (pos + len ≡ n) ⊎ (len % piece_unit_size ≡ 0)) (sym ev.estimate) whole)
          (omega (arith, fits, ev.estimate)) in
      let all : (len == len) ≡ true = ground arith in
      let same : st'.estimate_size ≡ t.storage.estimate_size = size ∙ ev.estimate in
      (
        record t { storage = st' },
        simp (store, cleared, wrote, all),
        record {
          valid = v';
          small = subst (λ n. n ≤ 2 ^ 31) (sym same) b.small;
          bytes = λ i c l h.
              written_byte st st' pos len i c
                (λ j d m k.
                  b.bytes j d (omega (arith, m, ev.estimate))
                    (Evicted-byte_at holds t.storage st j d ev k))
                (omega (arith, l, size)) (bytes i (omega (arith, l, size))) h;
          inside = subst (λ n. All (λ r. reader_pos r ≤ n) t.readers) (sym same) b.inside;
        },
        λ i le l. bytes i (omega (arith, fits, ev.estimate)) ∙ ground (arith, ap f),
      )
