-- ===== src/Streams/Backed.antt =====
-- The task of src/ms_task.c on the storage of src/ms_mem_storage.c keeps what a session relies on.
use libms.Base.{
  ℕ, zero, suc, ◌+◌, ◌-◌, ◌^◌, ◌≤◌, ◌<◌, ◌≡◌, inl, inr, refl, sym, ap, ap₂, ◌∙◌, subst, none, some,
  ◌⊎◌, ◌/◌, List, [], ◌∷◌, All, slice, ok, ◌==◌, if_cases, arith,
}
use libms.Task.{Reader, Task, reader_pos}
use libms.Task.Dispatch.{create_pipe_for, dispatch_reader, end_of}
use libms.Task.Dispatch.Readers.{aligned, dispatch_reader-IsServed}
use libms.Task.Ops.{dispatch_readers, task_read, get_task_filesize}
use libms.TaskOps.{TaskOps, IsTask}
use libms.MemStorage.{Buf, MemStorage, piece_unit_size, get_filesize, get_estimate_size}
use libms.MemStorage.View.{IsValid, byte_at, piece_at}
use libms.MemStorage.Read.{storage_read}
use libms.MemStorage.Read.Prefix.{storage_read-Ends}
use libms.MemStorage.Interface.{mem_storage, mem_storage-IsStorage, mem_storage-InOrder}
use libms.Streams.{set_reader, task_ops}

slice-same :
    (g h : ℕ → ℕ) (a b n : ℕ)
    → ((i : ℕ) → i < n → g (a + i) ≡ h (b + i))
    → slice g a n ≡ slice h b n
slice-same g h a b zero e = refl
slice-same g h a b (suc n) e =
    let here : g a ≡ h b = ap g (omega arith) ∙ e 0 (omega arith) ∙ ap h (omega arith) in
    ap₂ (λ x xs. x ∷ xs) here
      (slice-same g h (a + 1) (b + 1) n
        (λ i l. ap g (omega arith) ∙ e (i + 1) (omega arith) ∙ ap h (omega arith)))

pub some-injective : (a b : ℕ) → some a ≡ some b → a ≡ b
some-injective a b e = cc

module _ (malloc : ℕ → Buf) (buf : Buf) (now : ℕ) (f : ℕ → ℕ) where
  -- The storage is valid and holds bytes of the file, and no reader is beyond its size.
  pub record IsBacked (t : Task MemStorage) : Type 0 where
    pub valid : IsValid t.storage
    pub small : t.storage.estimate_size ≤ 2 ^ 31
    pub bytes : (i b : ℕ) → i < t.storage.estimate_size → byte_at t.storage i ≡ some b → b ≡ f i
    pub inside : All (λ r. reader_pos r ≤ t.storage.estimate_size) t.readers

  set_reader-inside :
      (n : ℕ) (r : Reader) (readers : List Reader)
      → reader_pos r ≤ n
      → All (λ q. reader_pos q ≤ n) readers
      → All (λ q. reader_pos q ≤ n) (set_reader r readers)
  unfolding set_reader
  set_reader-inside n r [] le _ = tt
  set_reader-inside n r (q ∷ readers) le (h, hs) =
      if_cases (All (λ p. reader_pos p ≤ n)) (q.id == r.id) (r ∷ set_reader r readers)
        (q ∷ set_reader r readers) (λ _. (le, set_reader-inside n r readers le hs))
        (λ _. (h, set_reader-inside n r readers le hs))

  pub filesize-estimate : (st : MemStorage) → IsValid st → get_filesize st ≤ st.estimate_size
  unfolding get_filesize
  filesize-estimate st v = elim v.known [ inl e ↦ omega arith | inr e ↦ omega arith ]

  -- Only pipes are opened.
  abbrev pub SameBut : Task MemStorage → Task MemStorage → Type 0
  SameBut t t' = (t'.storage ≡ t.storage) × (t'.readers ≡ t.readers) × (t'.code ≡ t.code)

  create_pipe_for-SameBut :
      (t : Task MemStorage) (pos len : ℕ) → SameBut t (create_pipe_for t pos len)
  unfolding create_pipe_for
  create_pipe_for-SameBut t pos len =
      if_cases (SameBut t) (t.code == 0) _ t (λ _. (refl, refl, refl)) (λ _. (refl, refl, refl))

  dispatch_reader-SameBut :
      (t : Task MemStorage) (r : Reader)
      → IsValid t.storage
      → t.storage.estimate_size ≤ 2 ^ 31
      → reader_pos r ≤ t.storage.estimate_size
      → (t' : Task MemStorage) × (dispatch_reader (mem_storage malloc) t r ≡ ok t') × SameBut t t'
  unfolding get_estimate_size
  dispatch_reader-SameBut t r v small le =
      let ops = mem_storage malloc in
      let (len, t', _, e, or) =
        dispatch_reader-IsServed ops t r (mem_storage-IsStorage malloc)
          (mem_storage-InOrder malloc t.storage v small) (inr le) in
      (
        t',
        e,
        elim or [
          | inl (same, _) ↦
              (ap (λ u. u.storage) same, ap (λ u. u.readers) same, ap (λ u. u.code) same)
          | inr (same, _) ↦
              let next = reader_pos r + len in
              let (s, rs, c) =
                create_pipe_for-SameBut t (aligned next) (end_of ops t r - aligned next) in
              (
                ap (λ u. u.storage) same ∙ s,
                ap (λ u. u.readers) same ∙ rs,
                ap (λ u. u.code) same ∙ c,
              )
        ],
      )

  dispatch_readers-SameBut :
      (t : Task MemStorage) (readers : List Reader)
      → IsValid t.storage
      → t.storage.estimate_size ≤ 2 ^ 31
      → All (λ r. reader_pos r ≤ t.storage.estimate_size) readers
      → (t' : Task MemStorage) × (dispatch_readers (mem_storage malloc) t readers ≡ ok t')
        × SameBut t t'
  unfolding dispatch_readers
  dispatch_readers-SameBut t [] v small _ = (t, refl, (refl, refl, refl))
  dispatch_readers-SameBut t (r ∷ readers) v small (h, hs) =
      let (t', e, (s, rs, c)) = dispatch_reader-SameBut t r v small h in
      let (t'', e', (s', rs', c')) =
        dispatch_readers-SameBut t' readers (subst IsValid (sym s) v)
          (subst (λ st. st.estimate_size ≤ 2 ^ 31) (sym s) small)
          (subst (λ st. All (λ r. reader_pos r ≤ st.estimate_size) readers) (sym s) hs) in
      (t'', rw (dispatch_readers, e) e', (s' ∙ s, rs' ∙ rs, c' ∙ c))

  IsBacked-SameBut : (t t' : Task MemStorage) → IsBacked t → SameBut t t' → IsBacked t'
  IsBacked-SameBut t t' b (s, rs, _) = record {
    valid = subst IsValid (sym s) b.valid;
    small = subst (λ st. st.estimate_size ≤ 2 ^ 31) (sym s) b.small;
    bytes =
        subst (λ st. (i b : ℕ) → i < st.estimate_size → byte_at st i ≡ some b → b ≡ f i) (sym s)
          b.bytes;
    inside =
        subst (λ st. All (λ r. reader_pos r ≤ st.estimate_size) t'.readers) (sym s)
          (subst (All (λ r. reader_pos r ≤ t.storage.estimate_size)) (sym rs) b.inside);
  }

  -- So many bytes are the longest cached stretch from the position on, as far as it is asked for:
  -- these are cached, as the bytes of the file, and the piece with the next one is not.
  abbrev pub IsPrefix : MemStorage → ℕ → ℕ → ℕ → Type 0
  IsPrefix st pos len n =
      (n ≤ len)
      × ((i : ℕ) → i < n → byte_at st (pos + i) ≡ some (f (pos + i)))
      × ((n ≡ len) ⊎ (piece_at st ((pos + n) / piece_unit_size) ≡ none))

  -- Inside the file a task reads bytes of the file.
  pub read-slice :
      (t : Task MemStorage) (pos len : ℕ)
      → IsBacked t
      → pos + len ≤ get_filesize t.storage
      → (t' : Task MemStorage) × (n : ℕ) × (TaskOps.read
            (task_ops (mem_storage malloc) buf now)
            t
            pos
            len
          ≡ ok (t', slice f pos n))
        × IsPrefix t.storage pos len n
        × IsBacked t'
        × SameBut t t'
  unfolding task_read task_ops
  read-slice t pos len b le =
      let (t', e, (s, rs, c)) = dispatch_readers-SameBut t t.readers b.valid b.small b.inside in
      let backed = IsBacked-SameBut t t' b (s, rs, c) in
      let fits : pos + len ≤ t.storage.estimate_size =
        omega (arith, le, filesize-estimate t.storage b.valid) in
      let (r, done, copied, ended) = storage_read-Ends pos len t.storage buf b.valid fits in
      let done' : storage_read pos len t'.storage buf ≡ ok r =
        ap (λ st. storage_read pos len st buf) s ∙ done in
      let same : slice r.out 0 r.read ≡ slice f pos r.read = slice-same r.out f 0 pos r.read (λ i l.
        ap r.out (omega arith)
        ∙ b.bytes (pos + i) (r.out i) (omega (arith, copied.count)) (copied.bytes i l)) in
      let cached : (i : ℕ) → i < r.read → byte_at t.storage (pos + i) ≡ some (f (pos + i)) = λ i l.
        let here = copied.bytes i l in
        here ∙ ap some (b.bytes (pos + i) (r.out i) (omega (arith, copied.count)) here) in
      (
        t',
        r.read,
        simp (task_read, e, done', same),
        (copied.count, cached, elim ended [ inl all ↦ inl all | inr (_, stuck) ↦ inr stuck ]),
        backed,
        (s, rs, c),
      )

  pub sync-IsBacked :
      (t : Task MemStorage) (r : Reader)
      → IsBacked t
      → reader_pos r ≤ get_filesize t.storage
      → IsBacked (TaskOps.sync (task_ops (mem_storage malloc) buf now) t r)
  unfolding task_ops
  sync-IsBacked t r b le = record {
    valid = b.valid;
    small = b.small;
    bytes = b.bytes;
    inside =
        set_reader-inside t.storage.estimate_size r t.readers
          (omega (arith, le, filesize-estimate t.storage b.valid)) b.inside;
  }

  -- On a task whose valid storage of at most 2 GiB caches only bytes of the file, with no reader
  -- beyond its size: if a reader, moved to a position up to the file size, reads inside the
  -- file, the read ends with no fault and gives the bytes of the file from the position on, as
  -- many as are cached there up to the length that is asked for, and fewer than that only if the
  -- piece with the next byte is not cached. The storage stays as it is, the readers too but for
  -- the one that moved, and all of the above holds again.
  pub read-sync :
      (t : Task MemStorage) (r : Reader) (pos len : ℕ)
      → IsBacked t
      → reader_pos r ≤ get_filesize t.storage
      → pos + len ≤ get_filesize t.storage
      → (t' : Task MemStorage) × (n : ℕ) × (TaskOps.read
            (task_ops (mem_storage malloc) buf now)
            (TaskOps.sync (task_ops (mem_storage malloc) buf now) t r)
            pos
            len
          ≡ ok (t', slice f pos n))
        × IsPrefix t.storage pos len n
        × IsBacked t'
        × (t'.storage ≡ t.storage)
        × (t'.readers ≡ set_reader r t.readers)
  unfolding task_ops
  read-sync t r pos len b le fits =
      let synced : Task MemStorage = record t { readers = set_reader r t.readers } in
      let (t', n, e, prefix, b', (s, rs, _)) =
        read-slice synced pos len (sync-IsBacked t r b le) fits in
      (t', n, e, prefix, b', s, rs)

  -- The task on the memory storage is a task as a session relies on it, where a state in order is
  -- one that is backed.
  unfoldable pub task_ops-IsTask : IsTask (task_ops (mem_storage malloc) buf now) f
  unfolding task_ops get_task_filesize
  task_ops-IsTask = record {
    InOrder = IsBacked;
    sync-InOrder = sync-IsBacked;
    sync-filesize = λ t r. refl;
    read-slice = λ t pos len b le.
        let (t', n, e, (some_bytes, _, _), b', (s, _, _)) = read-slice t pos len b le in
        (t', n, e, some_bytes, b', ap get_filesize s);
  }
