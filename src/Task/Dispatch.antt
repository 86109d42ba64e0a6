-- ===== src/Task/Dispatch.antt =====
-- `create_pipe_for`, `dispatch_reader` and `dispatch_pipe` of src/ms_task.c.
pub mod Pipes
pub mod Readers
pub mod Served
use libms.Base.{
  ℕ, ◌+◌, ◌-◌, ◌%◌, ◌/◌, Bool, true, false, ◌&&◌, not, Option, none, some, List, [], ◌∷◌, ◌++◌, ltb,
  leb, ◌==◌, if◌then◌else◌, Outcome, ok, ◌>>=◌,
}
use libms.Storage.{Storage}
use libms.MemStorage.{piece_unit_size}
use libms.Task.{
  Reader, Pipe, Task, Direction, ahead, behind, reader_pos, nearest_pipe, nearest_reader,
}

-- The pipe that `ms_http_pipe_create` returns.
unfoldable pub http_pipe_create : ℕ → ℕ → ℕ → ℕ → Pipe
http_pipe_create id url pos len = record {
  id = id;
  url = url;
  pos = pos;
  len = if ltb 0 len then len else 0;
  req_len = if ltb 0 len then len else 0;
}

-- `QUEUE_REMOVE` by the pipe's address.
unfoldable pub remove_pipe : ℕ → List Pipe → List Pipe
remove_pipe id [] = []
remove_pipe id (p ∷ pipes) = if p.id == id then pipes else p ∷ remove_pipe id pipes

-- The loop of `dispatch_pipe`: another pipe stands where this one stands.
unfoldable pub has_other_at : Pipe → List Pipe → Bool
has_other_at pipe [] = false
has_other_at pipe (temp ∷ rest) =
    if not (temp.id == pipe.id) && temp.pos == pipe.pos then true else has_other_at pipe rest

module _ {S : Type 0} where
  -- The redirected url is used once there is one.
  abbrev pub pipe_url : Task S → ℕ
  pipe_url t = elim t.redirect_url [ none ↦ t.url | some u ↦ u ]

  -- The new pipe goes to the end of the list. Its `connect` is the network's.
  unfoldable pub create_pipe_for : Task S → ℕ → ℕ → Task S
  create_pipe_for t pos len =
      if t.code == 0
      then record t {
        pipes = t.pipes ++ (http_pipe_create t.fresh (pipe_url t) pos len ∷ []);
        fresh = t.fresh + 1;
      }
      else t

  -- `QUEUE_REMOVE(&pipe->node)` and `pipe->close(pipe)`.
  unfoldable pub close_pipe : Task S → Pipe → Task S
  close_pipe t pipe = record t { pipes = remove_pipe pipe.id t.pipes }

  -- The end of `dispatch_reader`; the test of the pipe that is already there comes before.
  unfoldable pub open_at : Task S → ℕ → ℕ → Task S
  open_at t end pos =
      if leb end pos && not (end == 0)
      then t
      else create_pipe_for t pos (if ltb 0 end then end - pos else 0)

  -- Another pipe is between the reader and the pipe.
  unfoldable pub has_pipe_between : Task S → Pipe → Reader → Bool
  has_pipe_between t pipe r =
      if ltb 0 pipe.pos
      then elim (nearest_pipe t.pipes (pipe.pos - 1) behind) [
        | none ↦ false
        | some near ↦ leb (reader_pos r) near.pos
      ]
      else false

  module _ (ops : Storage S) where
    abbrev pub max_cache : Task S → ℕ
    max_cache t = Storage.max_cache_len ops t.storage

    abbrev pub estimate : Task S → ℕ
    estimate t = Storage.get_estimate_size ops t.storage

    -- `end`
    abbrev pub end_of : Task S → Reader → ℕ
    end_of t r =
        let end : ℕ = reader_pos r + max_cache t in if ltb (estimate t) end then estimate t else end

    -- `dispatch_reader` behind the search in the cache: `pos` is where the cache ends.
    unfoldable pub fetch_from : Task S → Reader → ℕ → Task S
    fetch_from t r pos =
        let end : ℕ = end_of t r in
        if ltb 0 pos && pos == end
        then t
        else let aligned : ℕ = pos - pos % piece_unit_size in
          elim (nearest_pipe t.pipes aligned ahead) [
            | some near ↦ if near.pos == aligned then t else open_at t end aligned
            | none ↦ open_at t end aligned
          ]

    unfoldable pub dispatch_reader : Task S → Reader → Outcome (Task S)
    dispatch_reader t r =
        if ltb 0 (estimate t)
        then (do
          (cached_pos, cached_len) ← Storage.cached_from ops t.storage (reader_pos r)
          ok (
              if cached_pos == reader_pos r && leb (max_cache t / 2) cached_len
              then t
              else fetch_from t r (
                  if cached_pos == reader_pos r && ltb 0 cached_len
                  then reader_pos r + cached_len
                  else reader_pos r)))
        else ok (fetch_from t r (reader_pos r))

    -- The answer is whether the pipe was closed.
    unfoldable pub dispatch_pipe : Task S → Pipe → Task S × Bool
    dispatch_pipe t pipe =
        if has_other_at pipe t.pipes
        then (close_pipe t pipe, true)
        else elim (nearest_reader t.readers pipe.pos behind) [
          | none ↦ (close_pipe t pipe, true)
          | some r ↦
              if leb (reader_pos r + max_cache t) pipe.pos
              then (close_pipe t pipe, true)
              else if has_pipe_between t pipe r
              then (close_pipe t pipe, true)
              else (t, false)
        ]
