-- ===== src/HttpPipe/Handler.antt =====
-- `pipe_handler` of src/ms_http_pipe.c. What `get_filesize` answers is an argument.
pub mod Requests
pub mod Redirects
use libms.Base.{
  ℕ, suc, ◌+◌, Bool, true, false, ◌||◌, Option, none, some, List, [], ◌∷◌, ltb, ◌==◌, if◌then◌else◌,
  Outcome, ok, fault, Fault, ◌>>=◌, ◌>>◌, ms_assert,
}
use libms.HttpPipe.{
  Mbuf, Call, on_header, on_filesize, on_content_size, on_redirect, on_complete, on_close, HttpPipe,
  HttpMessage, Event, connected, http_chunk, http_reply, closed, other_event, max_redirect_time,
  is_success, is_redirect, callback, pipe_connect, recv_body,
}

-- What the code takes for given in a reply: a missing range is a null pointer.
abbrev pub content_range_of : HttpMessage → Outcome ℕ
content_range_of hm = elim hm.content_range [ none ↦ fault Fault.null_pointer | some n ↦ ok n ]

abbrev pub asserted : Option ℕ → Outcome ℕ
asserted none = fault Fault.assert_failed
asserted (some n) = ok n

module _ {M : Type 0} (mbuf : Mbuf M) (react : Call → Bool) where
  -- The size of the file and of the content, taken from the first chunk.
  unfoldable pub take_sizes : HttpPipe M → HttpMessage → Outcome (HttpPipe M)
  take_sizes st hm = do
    filesize ← content_range_of hm
    size ← asserted hm.content_length
    let st' : HttpPipe M =
        if ltb 0 filesize then callback mbuf react (on_filesize filesize) st else st
    ok (callback mbuf react (on_content_size st'.req_pos size) (record st' { len = size }))

  unfoldable pub on_first_chunk : ℕ → HttpPipe M → HttpMessage → Outcome (HttpPipe M)
  on_first_chunk filesize st hm =
      let st' : HttpPipe M = record (callback mbuf react on_header st) {
        on_content_called = true;
      } in
      if filesize == 0 || st'.len == 0 then take_sizes st' hm else ok st'

  unfoldable pub on_chunk : ℕ → HttpPipe M → HttpMessage → Outcome (HttpPipe M)
  on_chunk filesize st hm =
      if is_success hm.resp_code
      then (do
        st' ← (if st.on_content_called then ok st else on_first_chunk filesize st hm)
        elim hm.body [ [] ↦ ok st' | x ∷ body ↦ recv_body mbuf react st' (x ∷ body) ])
      else ok st

  unfoldable pub redirect_to : HttpPipe M → ℕ → ℕ → HttpPipe M
  redirect_to st code location =
      let st' : HttpPipe M = record st { url = location } in
      let st'' : HttpPipe M =
        if code == 301 || code == 308
        then callback mbuf react (on_redirect location) st'
        else st' in
      record st'' { redirecting = true; close_immediately = true }

  unfoldable pub on_redirect_reply : HttpPipe M → HttpMessage → Outcome (HttpPipe M)
  on_redirect_reply st hm =
      let st' : HttpPipe M = record st { redirect_time = st.redirect_time + 1 } in
      if ltb max_redirect_time st'.redirect_time
      then ok (callback mbuf react (on_close 310) st')
      else (asserted hm.location >>= λ location. ok (redirect_to st' hm.resp_code location))

  unfoldable pub on_reply : HttpPipe M → HttpMessage → Outcome (HttpPipe M)
  on_reply st hm =
      if is_redirect hm.resp_code
      then on_redirect_reply st hm
      else if is_success hm.resp_code
      then ok (callback mbuf react on_complete st)
      else ok (callback mbuf react (on_close hm.resp_code) st)

  unfoldable pub on_closed : HttpPipe M → HttpPipe M
  on_closed st =
      let st' : HttpPipe M = callback mbuf react (on_close 502) st in
      if st'.closing then record st' { freed = true } else st'

  unfoldable pub when_closing : HttpPipe M → Event → Outcome (HttpPipe M)
  when_closing st ev =
      ms_assert st.close_immediately
      >> ok (elim ev [ closed ↦ record st { freed = true } | _ ↦ st ])

  unfoldable pub when_redirecting : HttpPipe M → Event → HttpPipe M
  when_redirecting st ev = elim ev [
    | closed ↦ pipe_connect mbuf react (record st { redirecting = false })
    | _ ↦ st
  ]

  unfoldable pub when_open : ℕ → HttpPipe M → Event → Outcome (HttpPipe M)
  when_open filesize st (connected status) =
      ok (if status == 0 then st else callback mbuf react (on_close 502) st)
  when_open filesize st (http_chunk hm) = on_chunk filesize st hm
  when_open filesize st (http_reply hm) = on_reply st hm
  when_open filesize st closed = ok (on_closed st)
  when_open filesize st other_event = ok st

  unfoldable pub pipe_handler : ℕ → HttpPipe M → Event → Outcome (HttpPipe M)
  pipe_handler filesize st ev =
      if st.closing
      then when_closing st ev
      else if st.redirecting
      then ok (when_redirecting st ev)
      else when_open filesize st ev
