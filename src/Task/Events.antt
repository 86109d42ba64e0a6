-- ===== src/Task/Events.antt =====
-- The callbacks of src/ms_task.c that a pipe calls. What the readers do on their side is a
-- parameter: they may call the task.
pub mod Holds
use libms.Base.{
  ℕ, ◌+◌, Bool, true, false, Option, none, some, List, [], ◌∷◌, map, length, ◌==◌, if◌then◌else◌,
  Outcome, ok, ◌>>=◌, ◌>>◌, ms_assert,
}
use libms.Storage.{Storage}
use libms.Task.{Reader, Pipe, Task, reader_pos}
use libms.Task.Dispatch.{close_pipe, dispatch_pipe}
use libms.Task.Ops.{dispatch_readers}

-- `hold_pos[index] = …` with the `index` that stays 0.
abbrev set_head : ℕ → List ℕ → List ℕ
set_head v [] = []
set_head v (_ ∷ hold_pos) = v ∷ hold_pos

-- The second loop of `on_recv`.
unfoldable pub fill_hold_pos : List ℕ → List Reader → List ℕ
fill_hold_pos hold_pos [] = hold_pos
fill_hold_pos hold_pos (reader ∷ rest) = fill_hold_pos (set_head (reader_pos reader) hold_pos) rest

-- One position for each reader, zeros at first.
abbrev pub unset : Reader → ℕ
unset _ = 0

unfoldable pub hold_pos : List Reader → List ℕ
unfolding fill_hold_pos
hold_pos readers = fill_hold_pos (map unset readers) readers

-- The functions of `struct ms_ireader`.
pub record Callbacks (S : Type 0) : Type 0 where
  pub on_filesize : Reader → ℕ → Task S → Outcome (Task S)
  pub on_content_size_from : Reader → ℕ → ℕ → Task S → Outcome (Task S)
  pub on_recv : Reader → ℕ → ℕ → Task S → Outcome (Task S)
  pub on_error : Reader → ℕ → Task S → Outcome (Task S)

module _ {S : Type 0} where
  -- A loop that calls every reader.
  unfoldable pub each_reader :
      (Reader → Task S → Outcome (Task S)) → List Reader → Task S → Outcome (Task S)
  each_reader f [] t = ok t
  each_reader f (reader ∷ rest) t = do t' ← f reader t; each_reader f rest t'

  -- An empty location is `none`.
  unfoldable pub on_redirect : Task S → Option ℕ → Task S
  on_redirect t location = record t { redirect_url = location }

  -- What `on_recv` does with the storage.
  unfoldable pub store : Storage S → Task S → (ℕ → ℕ) → ℕ → ℕ → Outcome (Task S)
  store ops t buf pos len = do
    cleared ← Storage.clear_buffer_for ops t.storage len (hold_pos t.readers)
    (storage, write) ← Storage.write ops cleared buf pos len
    ms_assert (write == len)
    ok (record t { storage = storage })

  unfoldable pub on_pipe_complete : Storage S → Task S → Pipe → Outcome (Task S)
  on_pipe_complete ops t pipe = dispatch_readers ops (close_pipe t pipe) t.readers

  module _ (ops : Storage S) (readers : Callbacks S) where
    unfoldable pub on_filesize : Task S → ℕ → Outcome (Task S)
    on_filesize t filesize = do
      storage ← Storage.set_filesize ops t.storage filesize
      each_reader (λ r. Callbacks.on_filesize readers r filesize) t.readers
          (record t { storage = storage })

    unfoldable pub on_content_size : Task S → Pipe → ℕ → ℕ → Outcome (Task S)
    on_content_size t pipe pos size = do
      storage ←
          (if pipe.req_len == 0
            then Storage.set_filesize ops t.storage (pos + size)
            else Storage.set_content_size ops t.storage pos size)
      each_reader (λ r. Callbacks.on_content_size_from readers r pos size) t.readers
          (record t { storage = storage })

    unfoldable pub on_recv : Task S → Pipe → (ℕ → ℕ) → ℕ → ℕ → Outcome (Task S)
    on_recv t pipe buf pos len = do
      t' ← store ops t buf pos len
      t'' ← each_reader (λ r. Callbacks.on_recv readers r pos len) t'.readers t'
      ok (dispatch_pipe ops t'' pipe).0

    unfoldable pub on_close : Task S → Pipe → ℕ → Outcome (Task S)
    on_close t pipe code =
        let t' : Task S = close_pipe (if code == 0 then t else record t { code = code }) pipe in
        if t'.code == 0
        then ok t'
        else each_reader (λ r. Callbacks.on_error readers r code) t'.readers t'
