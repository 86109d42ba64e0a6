-- ===== src/HttpPipe.antt =====
-- src/ms_http_pipe.c: one HTTP request of a task, whose body it hands on in whole pieces.
pub mod Chunks
pub mod Moves
pub mod Delivery
pub mod Bodies
pub mod Handler
mod Tests
use libms.Base.{
  ℕ, ◌+◌, ◌-◌, ◌%◌, Bool, true, false, not, ◌&&◌, ◌||◌, Option, none, some, List, [], ◌∷◌, ◌++◌,
  length, take, drop, ltb, ◌==◌, if◌then◌else◌, Outcome, ok, fault, Fault, ◌>>=◌, ◌>>◌, ms_assert,
}
use libms.MemStorage.{piece_unit_size}

-- The buffers of the network library, as far as a pipe uses them: `len` is the length of the bytes
-- and `size` the capacity.
pub record Mbuf (M : Type 0) : Type 0 where
  pub init : ℕ → M
  pub bytes : M → List ℕ
  pub size : M → ℕ
  pub append : M → List ℕ → M
  pub remove : M → ℕ → M

-- What is called from here: the callbacks of the owner, and the request of a connection with the
-- first and the last byte of its range.
pub data Call : Type 0 where
  on_header : Call
  on_filesize : ℕ → Call
  on_content_size : ℕ → ℕ → Call
  on_recv : List ℕ → ℕ → Call
  on_redirect : ℕ → Call
  on_complete : Call
  on_close : ℕ → Call
  connect_http : ℕ → ℕ → Option ℕ → Call

-- `struct ms_http_pipe` with the flags of its connection, whether it was freed, and the calls made
-- so far.
pub record HttpPipe (M : Type 0) : Type 0 where
  pub closing : Bool
  pub buf : M
  pub req_pos : ℕ
  pub req_len : ℕ
  pub pos : ℕ
  pub len : ℕ
  pub url : ℕ
  pub redirect_time : ℕ
  pub redirecting : Bool
  pub on_content_called : Bool
  pub close_immediately : Bool
  pub freed : Bool
  pub calls : List Call

-- What a pipe reads of a `struct http_message`: `Content-Range` by the file size that is parsed from
-- it, 0 if there is none.
pub record HttpMessage : Type 0 where
  pub resp_code : ℕ
  pub body : List ℕ
  pub content_range : Option ℕ
  pub content_length : Option ℕ
  pub location : Option ℕ

pub data Event : Type 0 where
  connected : ℕ → Event
  http_chunk : HttpMessage → Event
  http_reply : HttpMessage → Event
  closed : Event
  other_event : Event

abbrev pub max_redirect_time : ℕ
max_redirect_time = 3

abbrev pub is_success : ℕ → Bool
is_success code = code == 200 || code == 206

abbrev pub is_redirect : ℕ → Bool
is_redirect code = code == 301 || code == 302 || code == 307 || code == 308

-- `react` says in which callbacks the owner closes the pipe.
module _ {M : Type 0} (mbuf : Mbuf M) (react : Call → Bool) where
  -- `ms_http_pipe_create`
  unfoldable pub ms_http_pipe_create : ℕ → ℕ → ℕ → HttpPipe M
  ms_http_pipe_create url pos len = record {
    closing = false;
    buf = Mbuf.init mbuf piece_unit_size;
    req_pos = pos;
    req_len = len;
    pos = pos;
    len = len;
    url = url;
    redirect_time = 0;
    redirecting = false;
    on_content_called = false;
    close_immediately = false;
    freed = false;
    calls = [];
  }

  -- `pipe_close`, in a callback that may or may not call it.
  abbrev pub pipe_close_if : Bool → HttpPipe M → HttpPipe M
  pipe_close_if closes st = record st {
    closing = closes || st.closing;
    close_immediately = closes || st.close_immediately;
  }

  unfoldable pub pipe_close : HttpPipe M → HttpPipe M
  pipe_close st = pipe_close_if true st

  unfoldable pub callback : Call → HttpPipe M → HttpPipe M
  callback c st = pipe_close_if (react c) (record st { calls = st.calls ++ (c ∷ []) })

  -- The connection is a new one, with its flags unset.
  unfoldable pub pipe_connect : HttpPipe M → HttpPipe M
  pipe_connect st = record st {
    on_content_called = false;
    close_immediately = false;
    calls =
        st.calls
        ++ (connect_http st.url st.pos (if ltb 0 st.len then some (st.pos + st.len) else none)
            ∷ []);
  }

  abbrev pub buf_bytes : HttpPipe M → List ℕ
  buf_bytes st = Mbuf.bytes mbuf st.buf

  abbrev pub buf_len : HttpPipe M → ℕ
  buf_len st = length (buf_bytes st)

  -- The position moves on before the owner gets the bytes.
  unfoldable pub deliver : List ℕ → HttpPipe M → HttpPipe M
  deliver bytes st = callback (on_recv bytes st.pos) (record st { pos = st.pos + length bytes })

  unfoldable pub deliver_buf : HttpPipe M → HttpPipe M
  deliver_buf st =
      let st' : HttpPipe M = deliver (buf_bytes st) st in
      record st' { buf = Mbuf.remove mbuf st'.buf (buf_len st') }

  abbrev pub append_buf : List ℕ → HttpPipe M → HttpPipe M
  append_buf bytes st = record st { buf = Mbuf.append mbuf st.buf bytes }

  -- `data_size` of the first part: what the buffer has room for.
  abbrev pub fill_size : HttpPipe M → List ℕ → ℕ
  fill_size st body =
      let room : ℕ = Mbuf.size mbuf st.buf - buf_len st in
      if ltb (length body) room then length body else room

  -- The buffer is filled, and handed on once it is full.
  unfoldable pub fill_buf : HttpPipe M → List ℕ → HttpPipe M
  fill_buf st body =
      let st' : HttpPipe M = append_buf (take (fill_size st body) body) st in
      if Mbuf.size mbuf st'.buf == buf_len st' then deliver_buf st' else st'

  -- The whole pieces of the rest are handed on, and what is left goes to the buffer.
  unfoldable pub pass_pieces : HttpPipe M → List ℕ → HttpPipe M
  pass_pieces st rest =
      let data_size : ℕ = length rest % piece_unit_size in
      let recv : ℕ = length rest - data_size in
      let st' : HttpPipe M = if ltb 0 recv then deliver (take recv rest) st else st in
      append_buf (drop recv rest) st'

  unfoldable pub pass_rest : HttpPipe M → List ℕ → HttpPipe M
  pass_rest st rest = if ltb 0 (length rest) then pass_pieces st rest else st

  -- The last bytes of the request.
  unfoldable pub finish : HttpPipe M → HttpPipe M
  finish st = if st.pos + buf_len st == st.req_pos + st.len then deliver_buf st else st

  unfoldable pub recv_body : HttpPipe M → List ℕ → Outcome (HttpPipe M)
  recv_body st body = do
    ms_assert (st.pos % piece_unit_size == 0)
    ok (
        finish (
          if ltb 0 (buf_len st) || ltb (length body) piece_unit_size
          then pass_rest (fill_buf st body) (drop (fill_size st body) body)
          else pass_rest st body))
