-- ===== src/Preloader.antt =====
-- src/ms_preloader.c: a reader with no player, which only makes its task download. Its callbacks do
-- nothing.
use libms.Base.{ℕ, ◌-◌, Bool, ◌&&◌, ltb, ◌==◌, if◌then◌else◌}
use libms.Storage.{Storage}
use libms.Task.{Reader, Task}
use libms.Task.Ops.{get_task_filesize}

-- `struct ms_preloader`: its reader, and the url of the task that it points to.
pub record Preloader : Type 0 where
  pub reader : Reader
  pub url : ℕ

-- Whether its task has that url.
abbrev pub is_on : ℕ → Preloader → Bool
is_on url p = p.url == url

module _ {S : Type 0} (ops : Storage S) where
  -- `ms_preloader_open`, with its address; a length of 0 stands for the whole file.
  unfoldable pub ms_preloader_open : ℕ → Task S → ℕ → Preloader
  ms_preloader_open id t len =
      let filesize : ℕ = get_task_filesize ops t in
      record {
        reader = record {
          id = id;
          pos = 0;
          len = if len == 0 && ltb 0 filesize then filesize - 0 else len;
          sending = 0;
        };
        url = t.url;
      }
