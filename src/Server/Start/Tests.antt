-- ===== src/Server/Start/Tests.antt =====
-- Ports and a server that starts, and the theorems at concrete inputs.
use libms.Base.{ℕ, ◌≡◌, refl, Bool, false, some, [], ◌∷◌, ◌==◌, ok, arith}
use libms.Server.{idle, starting, running}
use libms.Server.Start.{
  binding, polling, Life, search_port, next_port, is_candidate, ms_asnyc_start, ms_start, asked,
  searched, Steps, here, later,
}
use libms.Server.Start.Port.{Ends, search_port-First}
use libms.Server.Start.Threads.{InStep, Steps-InStep}

-- Only port 8082 can be had.
abbrev one_free : ℕ → Bool
one_free port = port == 8082

search_port-First_example : Ends one_free 8080 8080 100 (search_port one_free 8080 101 8080)
search_port-First_example = search_port-First one_free 8080 (omega arith)

third_port : search_port one_free 8080 101 8080 ≡ ok (some 8082)
unfolding search_port next_port is_candidate
third_port = refl

abbrev off : Life
off = record { status = idle; exit_flag = false; threads = [] }

abbrev on_its_way : Life
on_its_way = record { status = starting; exit_flag = false; threads = binding ∷ [] }

abbrev up : Life
up = record { status = running; exit_flag = false; threads = polling ∷ [] }

-- It is asked to start twice, and then a port is found.
start-Steps : Steps off up
unfolding ms_asnyc_start ms_start
start-Steps =
    later on_its_way up
      (later on_its_way on_its_way (later off on_its_way here (asked off)) (asked on_its_way))
      (searched on_its_way (record { before = []; node = binding; after = [] }) (some 8082) refl)

Steps-InStep_example : InStep running (polling ∷ [])
Steps-InStep_example = Steps-InStep off up refl start-Steps
