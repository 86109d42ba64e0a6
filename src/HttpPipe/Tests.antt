-- ===== src/HttpPipe/Tests.antt =====
-- A buffer as the network library documents it, and the theorems at concrete inputs.
use libms.Base.{
  ℕ, ◌+◌, ◌*◌, ◌/◌, ◌≤◌, ◌≡◌, refl, Bool, true, false, none, some, List, [], ◌∷◌, ◌++◌, length,
  drop, leb, le→leb, if◌then◌else◌, arith,
}
use libms.HttpPipe.{
  Mbuf, Call, HttpPipe, HttpMessage, http_reply, closed, ms_http_pipe_create, pipe_connect,
}
use libms.HttpPipe.Handler.{
  pipe_handler, when_open, on_reply, on_redirect_reply, redirect_to, when_redirecting,
}
use libms.HttpPipe.Handler.Requests.{requests}
use libms.HttpPipe.Handler.Redirects.{Reachable, begun, event, Reachable-requests}
use libms.HttpPipe.Chunks.{IsMbuf, Waiting}
use libms.HttpPipe.Bodies.{Received, recv_bodies-Received}

-- The capacity and the bytes.
abbrev buffer : Mbuf (ℕ × List ℕ)
buffer = record {
  init = λ size. (size, []);
  bytes = λ (_, xs). xs;
  size = λ (n, _). n;
  append = λ (n, xs) ys.
      (if leb (length xs + length ys) n then n else (length xs + length ys) * 3 / 2, xs ++ ys);
  remove = λ (n, xs) k. (n, drop k xs);
}

drop-all : (xs : List ℕ) → drop (length xs) xs ≡ []
drop-all [] = refl
drop-all (x ∷ xs) = drop-all xs

buffer-IsMbuf : IsMbuf buffer
buffer-IsMbuf = record {
  bytes-append = λ m xs. refl;
  size-append = λ (n, xs) ys h. rw (le→leb (length xs + length ys) n h) refl;
  bytes-remove = λ (n, xs). drop-all xs;
  size-remove = λ m n. refl;
}

-- The owner closes nothing.
abbrev never : Call → Bool
never _ = false

-- A pipe for the last five bytes of a file, from the second piece on.
abbrev five : HttpPipe (ℕ × List ℕ)
unfolding ms_http_pipe_create
five = ms_http_pipe_create buffer never 7 16384 5

five-Waiting : Waiting buffer never five
unfolding ms_http_pipe_create
five-Waiting = ((refl, ground arith, refl), λ e. omega arith)

recv_bodies-Received_example :
    Received buffer never buffer-IsMbuf five ((1 ∷ 2 ∷ []) ∷ (3 ∷ 4 ∷ 5 ∷ []) ∷ [])
unfolding ms_http_pipe_create
recv_bodies-Received_example =
    recv_bodies-Received buffer never buffer-IsMbuf five ((1 ∷ 2 ∷ []) ∷ (3 ∷ 4 ∷ 5 ∷ []) ∷ [])
      five-Waiting (ground arith, (ground arith, tt)) (ground arith)

-- The server answers with a redirect to another url, and the connection is closed.
abbrev moved : HttpMessage
moved = record {
  resp_code = 302;
  body = [];
  content_range = none;
  content_length = none;
  location = some 8;
}

abbrev begin : HttpPipe (ℕ × List ℕ)
unfolding pipe_connect ms_http_pipe_create
begin = pipe_connect buffer never five

abbrev told : HttpPipe (ℕ × List ℕ)
unfolding pipe_connect ms_http_pipe_create
told = record begin { url = 8; redirect_time = 1; redirecting = true; close_immediately = true }

abbrev again : HttpPipe (ℕ × List ℕ)
unfolding pipe_connect ms_http_pipe_create
again = pipe_connect buffer never (record told { redirecting = false })

again-Reachable : Reachable buffer never again
unfolding pipe_connect ms_http_pipe_create pipe_handler when_open on_reply on_redirect_reply
    redirect_to when_redirecting
again-Reachable =
    event 0 told again closed (event 0 begin told (http_reply moved) (begun 7 16384 5) refl) refl

Reachable-requests_example : requests again.calls ≤ 4
Reachable-requests_example = Reachable-requests buffer never again again-Reachable
