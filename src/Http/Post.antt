-- ===== src/Http/Post.antt =====
-- A POST of wrapper/src/transport_http.c, from the connection to the queued messages.
pub mod Outcomes
pub mod Delivery
pub mod Total
pub mod Chunks
pub mod Plain
use mcpbridge.Base.{
  ℕ, zero, suc, ◌+◌, ◌-◌, Bytes, codes, Bool, true, false, not, ◌&&◌, ◌||◌, Option, none, some,
  List, [], ◌∷◌, ◌++◌, ltb, leb, ◌==◌, if◌then◌else◌, length, take, drop,
}
use mcpbridge.CLib.{decimal}
use mcpbridge.Transport.{Errno, estale, eproto, emsgsize, ebadf}
use mcpbridge.Http.Sse.{sse_parser_init}
use mcpbridge.Http.State.{HttpSelf, http_enqueue}
use mcpbridge.Http.Input.{Input}
use mcpbridge.Http.Response.{
  HttpResponse, HeadResult, head_read, head_failed, read_until_headers_done, parse_response_headers,
  session_size,
}
use mcpbridge.Http.Body.{BodyCtx, BodyResult, read_response_body}
use mcpbridge.Http.Connect.{
  Attempt, Connecting, connected, connect_failed, still_trying, tcp_connect_with_backoff,
}

-- What the network and the clock do during a POST.
pub record Exchange : Type 0 where
  pub now : ℕ
  pub attempts : List Attempt
  -- What `write_all_fd` comes to for the header and for the body; `none` is 0.
  pub header_written : Option Errno
  pub body_written : Option Errno
  pub answer : Input

abbrev line_end : Bytes
line_end = b'\r' ∷ b'\n' ∷ []

abbrev session_line : Bytes → Bytes
session_line [] = []
session_line (b ∷ bs) = codes "MCP-Session-Id: " ++ ((b ∷ bs) ++ line_end)

-- The text of the header.
unfoldable pub request_header : HttpSelf → ℕ → Bytes
request_header h body_len =
    codes "POST "
    ++ (h.url.path
        ++ (codes " HTTP/1.1"
            ++ (line_end
                ++ (codes "Host: "
                    ++ (h.url.host
                        ++ (codes ":"
                            ++ (decimal h.url.port
                                ++ (line_end
                                    ++ (codes "Content-Type: application/json"
                                        ++ (line_end
                                            ++ (codes "Accept: application/json, text/event-stream"
                                                ++ (line_end
                                                    ++ (codes "MCP-Protocol-Version: 2025-11-25"
                                                        ++ (line_end
                                                            ++ (session_line h.session_id
                                                            ++ (codes "Content-Length: "
                                                            ++ (decimal body_len
                                                            ++ (line_end
                                                            ++ (codes "Connection: close"
                                                            ++ (line_end
                                                            ++ line_end))))))))))))))))))))

-- `sizeof(header)`
abbrev pub header_size : ℕ
header_size = 1024

-- `sizeof(hdr_buf)`
abbrev pub head_buf_size : ℕ
head_buf_size = 4096

-- The transport afterwards, the error, `none` for 0, and what was written to the connection.
pub record PostResult : Type 0 where
  pub self : HttpSelf
  pub error : Option Errno
  pub written : Bytes

-- `while (m > 0 && …)`: the body without the CRs and LFs at its end.
unfoldable pub strip_line_ends : Bytes → Bytes
strip_line_ends [] = []
strip_line_ends (ch ∷ r) = elim (strip_line_ends r) [
  | [] ↦ if ch == b'\n' || ch == b'\r' then [] else ch ∷ []
  | (b ∷ t) ↦ ch ∷ b ∷ t
]

-- Behind `read_response_body`: the error, and the message of a plain JSON body.
unfoldable pub finish_body : BodyCtx → Option Errno → HttpSelf × Option Errno
unfolding strip_line_ends http_enqueue
finish_body b (some e) = (b.h, some e)
finish_body b none =
    if b.json_overflow || (b.is_sse && b.sse.overflow)
    then (b.h, some eproto)
    else if not b.is_sse && ltb 0 (length b.json_buf)
    then (http_enqueue b.h (strip_line_ends b.json_buf), none)
    else (b.h, none)

unfoldable pub body_ctx : HttpSelf → Bool → BodyCtx
body_ctx h is_sse = record {
  h = h;
  is_sse = is_sse;
  sse = sse_parser_init;
  json_buf = [];
  json_cap = 0;
  json_overflow = false;
}

-- A response's session id, if it has one.
unfoldable pub capture_session : HttpSelf → Bytes → HttpSelf
capture_session h [] = h
capture_session h (b ∷ bs) = record h { session_id = take (session_size - 1) (b ∷ bs) }

-- Behind `read_response_body`.
abbrev pub with_body : Option BodyResult → Option (HttpSelf × Option Errno)
with_body none = none
with_body (some (b, rc)) = some (finish_body b rc)

-- Behind the head: `none` is the end of the fuel.
unfoldable pub handle_response :
    HttpSelf → HttpResponse → Input → Bytes → Option (HttpSelf × Option Errno)
handle_response h resp i initial =
    let in_session = ltb 0 (length h.session_id) in
    let h' = capture_session h resp.session_id in
    let body = with_body (read_response_body resp i initial (body_ctx h' resp.is_sse)) in
    if ltb resp.status 200 || leb 300 resp.status
    then if leb 400 resp.status && ltb resp.status 500 && in_session
      then some (record h { session_id = [] }, some estale)
      else some (h, some eproto)
    else body

-- Behind `parse_response_headers`.
abbrev pub with_response :
    HttpSelf → Input → Bytes → Option HttpResponse → Option (HttpSelf × Option Errno)
with_response h i initial none = some (h, some eproto)
with_response h i initial (some resp) = handle_response h resp i initial

-- Behind `read_until_headers_done`.
abbrev pub with_head : HttpSelf → Option HeadResult → Option (HttpSelf × Option Errno)
with_head h none = none
with_head h (some (head_failed e)) = some (h, some e)
with_head h (some (head_read buf header_end i)) =
    with_response h i (drop header_end buf) (parse_response_headers (take header_end buf))

-- From the head of the answer.
unfoldable pub read_answer : HttpSelf → Input → Option (HttpSelf × Option Errno)
read_answer h answer = with_head h (read_until_headers_done head_buf_size answer)

abbrev pub deadline_of : HttpSelf → ℕ → ℕ
deadline_of h now = if ltb 0 h.call_timeout_ms then now + h.call_timeout_ms else 0

abbrev with_written : Bytes → Option (HttpSelf × Option Errno) → Option PostResult
with_written w none = none
with_written w (some (h, e)) = some (record { self = h; error = e; written = w })

-- On the connection.
unfoldable pub post_connected : HttpSelf → Bytes → Exchange → Option PostResult
post_connected h body x =
    let header = request_header h (length body) in
    let answered = with_written (header ++ body) (read_answer h x.answer) in
    let body_sent : Option PostResult = elim x.body_written [
      | some e ↦ some (record { self = h; error = some e; written = header })
      | none ↦ answered
    ] in
    if leb header_size (length header)
    then some (record { self = h; error = some emsgsize; written = [] })
    else elim x.header_written [
      | some e ↦ some (record { self = h; error = some e; written = [] })
      | none ↦ if ltb 0 (length body) then body_sent else answered
    ]

-- Behind `tcp_connect_with_backoff`: `none` while no attempt has connected or failed for good.
abbrev pub with_connection : HttpSelf → Bytes → Exchange → Connecting → Option PostResult
with_connection h body x still_trying = none
with_connection h body x (connect_failed e) =
    some (record { self = h; error = some e; written = [] })
with_connection h body x connected = post_connected h body x

unfoldable pub http_post_once : HttpSelf → Bytes → Exchange → Option PostResult
http_post_once h body x =
    with_connection h body x (tcp_connect_with_backoff (deadline_of h x.now) 0 x.attempts).1

-- The message without a newline at its end.
unfoldable pub strip_newline : Bytes → Bytes
strip_newline [] = []
strip_newline (b ∷ []) = if b == b'\n' then [] else b ∷ []
strip_newline (b ∷ c ∷ r) = b ∷ strip_newline (c ∷ r)

unfoldable pub http_send : HttpSelf → Bytes → Exchange → Option PostResult
http_send h bytes x =
    let posted = http_post_once h (strip_newline bytes) x in
    if h.started then posted else some (record { self = h; error = some ebadf; written = [] })
