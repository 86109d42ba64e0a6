-- ===== src/HttpPipe/Handler/Redirects.antt =====
-- How many requests a pipe makes.
use libms.Base.{
  ℕ, ◌+◌, ◌≤◌, ◌≡◌, inl, inr, refl, ap, subst, Bool, true, false, ◌||◌, none, some, [], ◌∷◌, ltb,
  ◌==◌, if◌then◌else◌, Outcome, ok, fault, ms_assert, arith, Bool-cases, Option-cases,
}
use libms.HttpPipe.{
  Mbuf, Call, on_redirect, on_complete, on_close, connect_http, HttpPipe, HttpMessage, Event,
  connected, http_chunk, http_reply, closed, other_event, ms_http_pipe_create, callback,
  pipe_connect, pipe_close, is_redirect, is_success,
}
use libms.HttpPipe.Handler.{
  on_chunk, redirect_to, on_redirect_reply, on_reply, on_closed, when_closing, when_redirecting,
  when_open, pipe_handler,
}
use libms.HttpPipe.Handler.Requests.{
  requests, requests-append, Same, Same-if, callback-Same, SameOk, SameOk-bind, on_chunk-Same,
}

module _ {M : Type 0} (mbuf : Mbuf M) (react : Call → Bool) where
  -- With the request that a redirect waits for.
  abbrev pending : Bool → ℕ
  pending true = 1
  pending false = 0

  abbrev Bounded : HttpPipe M → Type 0
  Bounded st =
      (requests st.calls + pending st.redirecting ≤ 1 + st.redirect_time)
      × (requests st.calls + pending st.redirecting ≤ 4)

  abbrev BoundedOk : Outcome (HttpPipe M) → Type 0
  BoundedOk (ok st) = Bounded st
  BoundedOk (fault e) = Unit

  Same-Bounded : (st st' : HttpPipe M) → Bounded st → Same mbuf react st st' → Bounded st'
  Same-Bounded st st' (h, k) (a, b, c) = let p = ap pending b in (omega arith, omega arith)

  SameOk-Bounded :
      (st : HttpPipe M) (m : Outcome (HttpPipe M))
      → Bounded st
      → SameOk mbuf react st m
      → BoundedOk m
  SameOk-Bounded st (ok st') b s = Same-Bounded st st' b s
  SameOk-Bounded st (fault e) b s = tt

  redirect_to-Bounded :
      (st : HttpPipe M) (code location : ℕ)
      → requests st.calls ≤ st.redirect_time
      → requests st.calls ≤ 3
      → Bounded (redirect_to mbuf react st code location)
  unfolding redirect_to
  redirect_to-Bounded st code location h k =
      let st' : HttpPipe M = record st { url = location } in
      let (e, _, t) =
        Same-if mbuf react st' (callback mbuf react (on_redirect location) st') st'
          (code == 301 || code == 308) (callback-Same mbuf react (on_redirect location) st' refl)
          (refl, refl, refl) in
      (omega arith, omega arith)

  on_redirect_reply-Bounded :
      (st : HttpPipe M) (hm : HttpMessage)
      → st.redirecting ≡ false
      → Bounded st
      → BoundedOk (on_redirect_reply mbuf react st hm)
  unfolding on_redirect_reply
  on_redirect_reply-Bounded st hm r (h, k) =
      let p = ap pending r in
      elim (Bool-cases (ltb 3 (st.redirect_time + 1))) [
        | inl e ↦ rw e (
            let (c, b, t) =
              callback-Same mbuf react (on_close 310)
                (record st { redirect_time = st.redirect_time + 1 }) refl in
            let q = ap pending b in (omega arith, omega arith))
        | inr e ↦ rw e (elim (Option-cases hm.location) [
          | inl n ↦ rw n tt
          | inr (location, n) ↦ rw n (
              redirect_to-Bounded (record st { redirect_time = st.redirect_time + 1 }) hm.resp_code
                location (omega arith) (ground arith))
        ])
      ]

  BoundedOk-if :
      (x y : Outcome (HttpPipe M)) (b : Bool)
      → BoundedOk x
      → BoundedOk y
      → BoundedOk (if b then x else y)
  BoundedOk-if x y true h k = h
  BoundedOk-if x y false h k = k

  BoundedOk-cases :
      (x y : Outcome (HttpPipe M)) (b : Bool)
      → (b ≡ true → BoundedOk x)
      → (b ≡ false → BoundedOk y)
      → BoundedOk (if b then x else y)
  BoundedOk-cases x y true h k = h refl
  BoundedOk-cases x y false h k = k refl

  callback-Bounded :
      (c : Call) (st : HttpPipe M)
      → requests (c ∷ []) ≡ 0
      → Bounded st
      → Bounded (callback mbuf react c st)
  callback-Bounded c st z b =
      Same-Bounded st (callback mbuf react c st) b (callback-Same mbuf react c st z)

  on_reply-Bounded :
      (st : HttpPipe M) (hm : HttpMessage)
      → st.redirecting ≡ false
      → Bounded st
      → BoundedOk (on_reply mbuf react st hm)
  unfolding on_reply
  on_reply-Bounded st hm r b =
      BoundedOk-if (on_redirect_reply mbuf react st hm) _ (is_redirect hm.resp_code)
        (on_redirect_reply-Bounded st hm r b)
        (BoundedOk-if (ok (callback mbuf react on_complete st))
          (ok (callback mbuf react (on_close hm.resp_code) st)) (is_success hm.resp_code)
          (callback-Bounded on_complete st refl b)
          (callback-Bounded (on_close hm.resp_code) st refl b))

  on_closed-Bounded : (st : HttpPipe M) → Bounded st → Bounded (on_closed mbuf react st)
  unfolding on_closed
  on_closed-Bounded st b =
      let st' = callback mbuf react (on_close 502) st in
      Same-Bounded st' (if st'.closing then record st' { freed = true } else st')
        (callback-Bounded (on_close 502) st refl b)
        (Same-if mbuf react st' (record st' { freed = true }) st' st'.closing (refl, refl, refl)
          (refl, refl, refl))

  when_redirecting-Bounded :
      (st : HttpPipe M) (ev : Event)
      → st.redirecting ≡ true
      → Bounded st
      → Bounded (when_redirecting mbuf react st ev)
  unfolding when_redirecting pipe_connect
  when_redirecting-Bounded st closed r (h, k) =
      let p = ap pending r in
      let one =
        requests-append st.calls (
          connect_http st.url st.pos (if ltb 0 st.len then some (st.pos + st.len) else none)
          ∷ []) in
      (omega arith, omega arith)
  when_redirecting-Bounded st (connected _) r b = b
  when_redirecting-Bounded st (http_chunk _) r b = b
  when_redirecting-Bounded st (http_reply _) r b = b
  when_redirecting-Bounded st other_event r b = b

  still :
      (st : HttpPipe M) (ev : Event)
      → Same mbuf react st (elim ev [ closed ↦ record st { freed = true } | _ ↦ st ])
  still st closed = (refl, refl, refl)
  still st (connected _) = (refl, refl, refl)
  still st (http_chunk _) = (refl, refl, refl)
  still st (http_reply _) = (refl, refl, refl)
  still st other_event = (refl, refl, refl)

  when_closing-Bounded :
      (st : HttpPipe M) (ev : Event) → Bounded st → BoundedOk (when_closing mbuf react st ev)
  unfolding when_closing
  when_closing-Bounded st ev b = SameOk-Bounded st (when_closing mbuf react st ev) b (
      SameOk-bind mbuf react st (ms_assert st.close_immediately)
        (λ _. ok (elim ev [ closed ↦ record st { freed = true } | _ ↦ st ])) (λ _. still st ev))

  when_open-Bounded :
      (filesize : ℕ) (st : HttpPipe M) (ev : Event)
      → st.redirecting ≡ false
      → Bounded st
      → BoundedOk (when_open mbuf react filesize st ev)
  unfolding when_open
  when_open-Bounded filesize st (connected status) r b =
      Same-Bounded st (if status == 0 then st else callback mbuf react (on_close 502) st) b (
        Same-if mbuf react st st (callback mbuf react (on_close 502) st) (status == 0)
          (refl, refl, refl) (callback-Same mbuf react (on_close 502) st refl))
  when_open-Bounded filesize st (http_chunk hm) r b =
      SameOk-Bounded st (on_chunk mbuf react filesize st hm) b
        (on_chunk-Same mbuf react filesize st hm)
  when_open-Bounded filesize st (http_reply hm) r b = on_reply-Bounded st hm r b
  when_open-Bounded filesize st closed r b = on_closed-Bounded st b
  when_open-Bounded filesize st other_event r b = b

  pipe_handler-Bounded :
      (filesize : ℕ) (st : HttpPipe M) (ev : Event)
      → Bounded st
      → BoundedOk (pipe_handler mbuf react filesize st ev)
  unfolding pipe_handler
  pipe_handler-Bounded filesize st ev b =
      BoundedOk-cases (when_closing mbuf react st ev)
        (if st.redirecting
          then ok (when_redirecting mbuf react st ev)
          else when_open mbuf react filesize st ev)
        st.closing (λ _. when_closing-Bounded st ev b)
        (λ _.
          BoundedOk-cases (ok (when_redirecting mbuf react st ev))
            (when_open mbuf react filesize st ev) st.redirecting
            (λ r. when_redirecting-Bounded st ev r b) (λ r. when_open-Bounded filesize st ev r b))

  -- The states of a pipe: it is created and connected, and then events come, and the owner may close
  -- it at any time.
  pub data Reachable : HttpPipe M → Type 0 where
    begun :
        (url pos len : ℕ)
        → Reachable (pipe_connect mbuf react (ms_http_pipe_create mbuf react url pos len))
    event :
        (filesize : ℕ) (st st' : HttpPipe M) (ev : Event)
        → Reachable st
        → pipe_handler mbuf react filesize st ev ≡ ok st'
        → Reachable st'
    closing : (st : HttpPipe M) → Reachable st → Reachable (pipe_close mbuf react st)

  Reachable-Bounded : (st : HttpPipe M) → Reachable st → Bounded st
  unfolding pipe_connect ms_http_pipe_create pipe_close
  Reachable-Bounded st (begun url pos len) = (omega arith, omega arith)
  Reachable-Bounded st (event filesize st' st'' ev r e) =
      subst BoundedOk e (pipe_handler-Bounded filesize st' ev (Reachable-Bounded st' r))
  Reachable-Bounded st (closing st' r) = Reachable-Bounded st' r

  -- A pipe makes at most four requests, the first one and three for redirects, whatever events come.
  pub Reachable-requests : (st : HttpPipe M) → Reachable st → requests st.calls ≤ 4
  Reachable-requests st r = let (_, h) = Reachable-Bounded st r in omega arith
