-- ===== src/Http/Post/Outcomes.antt =====
-- What a POST of wrapper/src/transport_http.c comes to once there is an answer.
use mcpbridge.Base.{
  ℕ, suc, ◌≤◌, ◌<◌, ◌≡◌, refl, ap, sym, ◌∙◌, inl, inr, Bytes, Bool, true, false, ◌&&◌, none, some,
  [], ◌∷◌, ◌++◌, ltb, leb, if◌then◌else◌, length, take, drop, take-append, drop-append, arith,
  Bool-cases,
}
use mcpbridge.Transport.{estale, eproto}
use mcpbridge.Http.State.{HttpSelf}
use mcpbridge.Http.Input.{Input, bytes_of}
use mcpbridge.Http.Response.{
  HttpResponse, head_read, header_end_of, read_until_headers_done, parse_response_headers,
}
use mcpbridge.Http.Response.Until.{read_until_headers_done-finds}
use mcpbridge.Http.Connect.{connected, tcp_connect_with_backoff}
use mcpbridge.Http.Post.{
  Exchange, request_header, header_size, head_buf_size, handle_response, read_answer, deadline_of,
  with_written, with_response, with_head, with_connection, post_connected, http_post_once,
}

-- The request is written, and the answer has a head of `n` bytes that says `resp`.
pub record IsAnswered (h : HttpSelf) (body : Bytes) (x : Exchange) (n : ℕ) (resp : HttpResponse)
    : Type 0 where
  pub joined : (tcp_connect_with_backoff (deadline_of h x.now) 0 x.attempts).1 ≡ connected
  pub header_fits : length (request_header h (length body)) < header_size
  pub header_sent : x.header_written ≡ none
  pub body_sent : x.body_written ≡ none
  pub head_ends : header_end_of (bytes_of x.answer) ≡ some n
  pub head_fits : n ≤ head_buf_size
  pub head_says : parse_response_headers (take n (bytes_of x.answer)) ≡ some resp

-- What is read of the body with the head, and what is left of the answer.
pub record Handled (h : HttpSelf) (body : Bytes) (x : Exchange) (n : ℕ) (resp : HttpResponse)
    : Type 0 where
  pub initial : Bytes
  pub left : Input
  pub whole_body : initial ++ bytes_of left ≡ drop n (bytes_of x.answer)
  pub handled :
      http_post_once h body x
      ≡ with_written (request_header h (length body) ++ body) (handle_response h resp left initial)

leb-false : (a b : ℕ) → b < a → leb a b ≡ false
leb-false a b h = ground arith

ltb-zero : (n : ℕ) → ltb 0 (suc n) ≡ true
ltb-zero n = ground arith

read_answer_lem :
    (h : HttpSelf) (i : Input) (buf : Bytes) (n : ℕ) (left : Input) (resp : HttpResponse)
    → read_until_headers_done head_buf_size i ≡ some (head_read buf n left)
    → parse_response_headers (take n buf) ≡ some resp
    → read_answer h i ≡ handle_response h resp left (drop n buf)
unfolding read_answer
read_answer_lem h i buf n left resp found says =
    ap (with_head h) found ∙ ap (with_response h left (drop n buf)) says

post_connected_lem :
    (h : HttpSelf) (body : Bytes) (x : Exchange)
    → length (request_header h (length body)) < header_size
    → x.header_written ≡ none
    → x.body_written ≡ none
    → post_connected h body x
      ≡ with_written (request_header h (length body) ++ body) (read_answer h x.answer)
unfolding post_connected
post_connected_lem h [] x fits header_sent body_sent =
    rw (leb-false header_size (length (request_header h 0)) fits) (rw header_sent refl)
post_connected_lem h (b ∷ bs) x fits header_sent body_sent =
    rw (leb-false header_size (length (request_header h (length (b ∷ bs)))) fits)
      (rw header_sent (rw body_sent (rw (ltb-zero (length bs)) refl)))

pub answered :
    (h : HttpSelf) (body : Bytes) (x : Exchange) (n : ℕ) (resp : HttpResponse)
    → IsAnswered h body x n resp
    → Handled h body x n resp
unfolding http_post_once
answered h body x n resp v =
    let (buf, left, found, whole, inside, small) =
      read_until_headers_done-finds head_buf_size n x.answer v.head_ends v.head_fits in
    let front : take n buf ≡ take n (bytes_of x.answer) =
      sym (take-append n buf (bytes_of left) inside) ∙ ap (take n) whole in
    let says = ap parse_response_headers front ∙ v.head_says in
    record {
      initial = drop n buf;
      left = left;
      whole_body = sym (drop-append n buf (bytes_of left) inside) ∙ ap (drop n) whole;
      handled =
          ap (with_connection h body x) v.joined
          ∙ post_connected_lem h body x v.header_fits v.header_sent v.body_sent
          ∙ ap (with_written (request_header h (length body) ++ body))
              (read_answer_lem h x.answer buf n left resp found says);
    }

abbrev pub is_success : HttpResponse → Bool
is_success resp = leb 200 resp.status && ltb resp.status 300

-- A 4xx answer to a request within a session.
abbrev pub is_stale : HttpSelf → HttpResponse → Bool
is_stale h resp = leb 400 resp.status && ltb resp.status 500 && ltb 0 (length h.session_id)

refused_response :
    (h : HttpSelf) (resp : HttpResponse) (i : Input) (initial : Bytes)
    → is_success resp ≡ false
    → handle_response h resp i initial
      ≡ some (
          if is_stale h resp then (record h { session_id = [] }, some estale) else (h, some eproto))
unfolding handle_response
refused_response h resp i initial e = elim (Bool-cases (is_stale h resp)) [
  | inl stale ↦ ground (arith, e, stale)
  | inr other ↦ ground (arith, e, other)
]

refused_written :
    (w : Bytes) (h : HttpSelf) (stale : Bool)
    → with_written w
        (some (if stale then (record h { session_id = [] }, some estale) else (h, some eproto)))
      ≡ some (record {
        self = if stale then record h { session_id = [] } else h;
        error = some (if stale then estale else eproto);
        written = w;
      })
refused_written w h true = refl
refused_written w h false = refl

-- An answer without success never counts as one, whatever its body: a 4xx answer within a session
-- is reported as ESTALE and the session id is forgotten, every other one is EPROTO and changes
-- nothing; nothing is queued. This is for a request that is written and an answer whose head ends
-- within the 4096 bytes for it and is accepted.
pub http_post_once-refused :
    (h : HttpSelf) (body : Bytes) (x : Exchange) (n : ℕ) (resp : HttpResponse)
    → IsAnswered h body x n resp
    → is_success resp ≡ false
    → http_post_once h body x
      ≡ some (record {
        self = if is_stale h resp then record h { session_id = [] } else h;
        error = some (if is_stale h resp then estale else eproto);
        written = request_header h (length body) ++ body;
      })
http_post_once-refused h body x n resp v e =
    let r = answered h body x n resp v in
    let w = request_header h (length body) ++ body in
    r.handled
    ∙ ap (with_written w) (refused_response h resp r.left r.initial e)
    ∙ refused_written w h (is_stale h resp)
