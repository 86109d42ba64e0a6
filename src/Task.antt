-- ===== src/Task.antt =====
-- src/ms_task.c: the state of a task, which downloads one url for its readers through pipes, and
-- the searches among them.
pub mod Dispatch
pub mod Nearest
mod Tests
pub mod Ops
pub mod Events
use libms.Base.{
  ℕ, ◌+◌, Bool, true, false, Option, none, some, List, [], ◌∷◌, ltb, leb, if◌then◌else◌,
}

-- `struct ms_ireader`, with its address.
pub record Reader : Type 0 where
  pub id : ℕ
  pub pos : ℕ
  pub len : ℕ
  pub sending : ℕ

-- `struct ms_ipipe`, with its address and what its `get_…` functions return.
pub record Pipe : Type 0 where
  pub id : ℕ
  pub url : ℕ
  pub pos : ℕ
  pub len : ℕ
  pub req_len : ℕ

-- `struct ms_task`. A url is known by a number, and `none` is the
-- empty redirect; `fresh` is the address of the next pipe.
pub record Task (S : Type 0) : Type 0 where
  pub storage : S
  pub url : ℕ
  pub redirect_url : Option ℕ
  pub readers : List Reader
  pub pipes : List Pipe
  pub close_ts : ℕ
  pub code : ℕ
  pub fresh : ℕ

-- `direction`, 1 or -1.
pub data Direction : Type 0 where
  ahead behind : Direction

-- `direction * (a - b) >= 0`
abbrev pub on_side : Direction → ℕ → ℕ → Bool
on_side ahead a b = leb b a
on_side behind a b = leb a b

-- `direction * (a - b) < 0`
abbrev pub nearer : Direction → ℕ → ℕ → Bool
nearer ahead a b = ltb a b
nearer behind a b = ltb b a

-- The loop of `nearest_pipe` and `nearest_reader`, over the position that each looks at.
module _ {A : Type 0} (key : A → ℕ) (pos : ℕ) (direction : Direction) where
  abbrev pub closer : A → Option A → Option A
  closer a none = some a
  closer a (some c) = if nearer direction (key a) (key c) then some a else some c

  unfoldable pub nearest_from : Option A → List A → Option A
  nearest_from curr [] = curr
  nearest_from curr (a ∷ rest) =
      nearest_from (if on_side direction (key a) pos then closer a curr else curr) rest

-- Where a reader goes on reading.
abbrev pub reader_pos : Reader → ℕ
reader_pos r = r.pos + r.sending

abbrev pub pipe_pos : Pipe → ℕ
pipe_pos p = p.pos

unfoldable pub nearest_pipe : List Pipe → ℕ → Direction → Option Pipe
unfolding nearest_from
nearest_pipe pipes pos direction = nearest_from pipe_pos pos direction none pipes

unfoldable pub nearest_reader : List Reader → ℕ → Direction → Option Reader
unfolding nearest_from
nearest_reader readers pos direction = nearest_from reader_pos pos direction none readers
