-- ===== src/Server/Start.antt =====
-- `ms_start`, `ms_stop` and `ms_asnyc_start` of src/ms_server.c: the search for a port, and the
-- status of the server as it starts and stops.
mod Tests
pub mod Port
pub mod Threads
use libms.Base.{
  ℕ, zero, suc, ◌+◌, ◌%◌, ◌^◌, ◌≡◌, Bool, true, false, Option, none, some, List, ◌∷◌, ltb,
  if◌then◌else◌, Outcome, ok, fault, Fault,
}
use libms.Queue.{Found, with_node, without_node}
use libms.Server.{Status, idle, starting, running}

-- `++current_port` of a `short`, as the pattern of its bits.
unfoldable pub next_port : ℕ → ℕ
next_port port = (port + 1) % 2 ^ 16

-- `current_port < http_port + 100`, a comparison of `int` values.
unfoldable pub is_candidate : ℕ → ℕ → Bool
is_candidate http_port port = ltb ((port + 2 ^ 15) % 2 ^ 16) ((http_port + 2 ^ 15) % 2 ^ 16 + 100)

-- The loop over ports, so many rounds at most; `mg_bind` says whether a port could be had.
unfoldable pub search_port : (ℕ → Bool) → ℕ → ℕ → ℕ → Outcome (Option ℕ)
search_port mg_bind http_port zero port = fault Fault.out_of_fuel
search_port mg_bind http_port (suc fuel) port =
    let rest : Outcome (Option ℕ) = search_port mg_bind http_port fuel (next_port port) in
    if is_candidate http_port port then if mg_bind port then ok (some port) else rest else ok none

-- Where a thread of the server is: it looks for a port, or it polls.
pub data Phase : Type 0 where
  binding polling : Phase

-- `s_server_status` and `s_exit_flag`, with the threads in `server_thread`, the newest first.
pub record Life : Type 0 where
  pub status : Status
  pub exit_flag : Bool
  pub threads : List Phase

unfoldable pub ms_asnyc_start : Life → Life
ms_asnyc_start l = elim l.status [
  | idle ↦ record l { status = starting; threads = binding ∷ l.threads }
  | starting ↦ l
  | running ↦ l
]

-- What `ms_start` does in a thread once its search for a port has ended.
unfoldable pub ms_start : Life → Found Phase → Option ℕ → Life
ms_start l z none = record l { threads = without_node z }
ms_start l z (some port) = record l { status = running; threads = with_node z polling }

unfoldable pub ms_stop : Life → Life
ms_stop l = record l { exit_flag = true }

-- `ms_start` behind its loop.
unfoldable pub leave : Life → Found Phase → Life
leave l z = record l { status = idle; threads = without_node z }

-- What may happen, one after the other; it is any of the threads that goes on.
pub data Step : Life → Life → Type 0 where
  asked : (l : Life) → Step l (ms_asnyc_start l)
  searched :
      (l : Life) (z : Found Phase) (port : Option ℕ)
      → l.threads ≡ with_node z binding
      → Step l (ms_start l z port)
  stopped : (l : Life) → Step l (ms_stop l)
  left :
      (l : Life) (z : Found Phase)
      → l.threads ≡ with_node z polling
      → l.exit_flag ≡ true
      → Step l (leave l z)

pub data Steps (l : Life) : Life → Type 0 where
  here : Steps l l
  later : (m n : Life) → Steps l m → Step m n → Steps l n
