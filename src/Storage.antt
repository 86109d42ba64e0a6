-- ===== src/Storage.antt =====
-- `struct ms_istorage` of src/ms_server.h: the operations that a task has of its storage, and what
-- it relies on of them.
use libms.Base.{ℕ, ◌≤◌, ◌≡◌, List, Outcome, ok}

-- The function pointers that a task calls. A buffer is the byte at each offset; `read` gives the
-- filled buffer and the count.
pub record Storage (S : Type 0) : Type 0 where
  pub get_filesize : S → ℕ
  pub set_filesize : S → ℕ → Outcome S
  pub get_estimate_size : S → ℕ
  pub set_content_size : S → ℕ → ℕ → Outcome S
  pub get_completed_size : S → ℕ
  pub cached_from : S → ℕ → Outcome (ℕ × ℕ)
  pub write : S → (ℕ → ℕ) → ℕ → ℕ → Outcome (S × ℕ)
  pub read : S → (ℕ → ℕ) → ℕ → ℕ → Outcome ((ℕ → ℕ) × ℕ)
  pub max_cache_len : S → ℕ
  pub clear_buffer_for : S → ℕ → List ℕ → Outcome S

-- What an implementation promises of a state that is in order: the search up to the estimated
-- size ends with an answer, and the cache has room for two bytes at least.
pub record IsStorage {S : Type 0} (ops : Storage S) : Type 1 where
  pub InOrder : S → Type 0
  pub cached_from-ok :
      (s : S) (from : ℕ)
      → InOrder s
      → from ≤ Storage.get_estimate_size ops s
      → (pos : ℕ) × (len : ℕ) × (Storage.cached_from ops s from ≡ ok (pos, len))
  pub max_cache_len-positive : (s : S) → 2 ≤ Storage.max_cache_len ops s
