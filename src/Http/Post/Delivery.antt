-- ===== src/Http/Post/Delivery.antt =====
-- What a successful POST of wrapper/src/transport_http.c puts into the queue.
use mcpbridge.Base.{
  ℕ, ◌≤◌, ◌≡◌, refl, ap, ◌∙◌, Bytes, Bool, true, false, Option, none, some, List, ◌++◌, leb,
  if◌then◌else◌, length, take, drop, flatten, arith, length-take,
}
use mcpbridge.Transport.{Errno}
use mcpbridge.Http.Buffer.{body_max}
use mcpbridge.Http.Sse.{Sse}
use mcpbridge.Http.State.{HttpSelf}
use mcpbridge.Http.Input.{Input, bytes_of}
use mcpbridge.Http.Response.{HttpResponse}
use mcpbridge.Http.Body.{BodyCtx, BodyResult, read_response_body}
use mcpbridge.Http.Body.Framing.{accept_all, cut_short, read_response_body-by_length}
use mcpbridge.Http.Body.Events.{with_sse, events_of, received, IsFresh, sse_pieces}
use mcpbridge.Http.Post.{
  Exchange, request_header, finish_body, body_ctx, capture_session, with_body, handle_response,
  with_written, http_post_once,
}
use mcpbridge.Http.Post.Outcomes.{IsAnswered, Handled, answered, is_success}

leb-true : (a b : ℕ) → a ≤ b → leb a b ≡ true
leb-true a b h = ground arith

accepted_response :
    (h : HttpSelf) (resp : HttpResponse) (i : Input) (initial : Bytes)
    → is_success resp ≡ true
    → handle_response h resp i initial
      ≡ with_body (
          read_response_body resp i initial
            (body_ctx (capture_session h resp.session_id) resp.is_sse))
unfolding handle_response
accepted_response h resp i initial ok = ground (arith, ok)

-- What a body context becomes in a POST.
pub posted :
    (h : HttpSelf) (body : Bytes) (x : Exchange) (n : ℕ) (resp : HttpResponse)
    (r : HttpSelf × Option Errno)
    → (v : Handled h body x n resp) → is_success resp ≡ true
    → with_body (
        read_response_body resp v.left v.initial
          (body_ctx (capture_session h resp.session_id) resp.is_sse))
      ≡ some r
    → http_post_once h body x
      ≡ some (record { self = r.0; error = r.1; written = request_header h (length body) ++ body })
posted h body x n resp r v ok e =
    let w = request_header h (length body) ++ body in
    v.handled ∙ ap (with_written w) (accepted_response h resp v.left v.initial ok ∙ e)

finish_sse :
    (b : BodyCtx) (p : Sse × HttpSelf)
    → b.is_sse ≡ true
    → b.json_overflow ≡ false
    → p.0.overflow ≡ false
    → finish_body (with_sse b p) none ≡ (p.1, none)
unfolding finish_body
finish_sse b (s, h) stream fine room = ground (arith, stream, fine, room)

body_ctx-IsFresh : (h : HttpSelf) (is_sse : Bool) → is_sse ≡ true → IsFresh (body_ctx h is_sse)
unfolding body_ctx
body_ctx-IsFresh h is_sse e = record { stream = e; unread = refl }

pub body_ctx_fine : (h : HttpSelf) (is_sse : Bool) → (body_ctx h is_sse).json_overflow ≡ false
unfolding body_ctx
body_ctx_fine h is_sse = refl

pub body_ctx_self : (h : HttpSelf) (is_sse : Bool) → (body_ctx h is_sse).h ≡ h
unfolding body_ctx
body_ctx_self h is_sse = refl

-- The transport for the answer to a POST, and the body context.
abbrev pub joined_self : HttpSelf → HttpResponse → HttpSelf
joined_self h resp = capture_session h resp.session_id

abbrev pub fresh_body : HttpSelf → HttpResponse → BodyCtx
fresh_body h resp = body_ctx (joined_self h resp) resp.is_sse

pub events_posted :
    (h : HttpSelf) (body : Bytes) (x : Exchange) (n : ℕ) (resp : HttpResponse) (ps : List Bytes)
    (text : Bytes) (v : Handled h body x n resp)
    → is_success resp ≡ true
    → resp.is_sse ≡ true
    → flatten ps ≡ text
    → length text ≤ body_max
    → read_response_body resp v.left v.initial (fresh_body h resp)
      ≡ some (accept_all (fresh_body h resp) ps, none)
    → http_post_once h body x
      ≡ some (record {
        self = received (joined_self h resp) (events_of text);
        error = none;
        written = request_header h (length body) ++ body;
      })
events_posted h body x n resp ps text v ok stream all small reported =
    let h' = joined_self h resp in
    let b = fresh_body h resp in
    let fits : length (flatten ps) ≤ body_max = rw all small in
    let (s, pieces, room) = sse_pieces b ps (body_ctx-IsFresh h' resp.is_sse stream) fits in
    let same : received b.h (events_of (flatten ps)) ≡ received h' (events_of text) =
      ap (λ g. received g (events_of (flatten ps))) (body_ctx_self h' resp.is_sse)
      ∙ ap (λ t. received h' (events_of t)) all in
    posted h body x n resp (received h' (events_of text), none) v ok
      (ap with_body (reported ∙ ap (λ c. some (c, none)) pieces)
        ∙ ap some (
            finish_sse b (s, received b.h (events_of (flatten ps)))
              (body_ctx-IsFresh h' resp.is_sse stream).stream (body_ctx_fine h' resp.is_sse) room)
        ∙ ap (λ g. some (g, none)) same)

pub whole_length :
    {h : HttpSelf} {body : Bytes} {x : Exchange} {n : ℕ} {resp : HttpResponse} (need : ℕ)
    (r : Handled h body x n resp) (b : BodyCtx) (ps : List Bytes)
    → need ≤ length (drop n (bytes_of x.answer))
    → ◌≡◌ {A = Option BodyResult}
        (some (
          accept_all b ps,
          if leb need (length (r.initial ++ bytes_of r.left))
              then none
              else some (cut_short r.left),
        ))
        (some (accept_all b ps, none))
whole_length need r b ps there =
    let enough : leb need (length (r.initial ++ bytes_of r.left)) ≡ true =
      leb-true need _ (rw r.whole_body there) in
    ap (λ t. some (accept_all b ps, if t then none else some (cut_short r.left))) enough

-- An event stream of a given length is delivered whole: the messages are those of its events,
-- behind what was queued before, in order, with nothing lost. This is for an answer, read as
-- IsAnswered says, of success, that is not chunked, whose Content-Length is at most
-- HTTP_BODY_MAX, with as many bytes behind the head, for any reads that bring it.
pub http_post_once-events :
    (h : HttpSelf) (body : Bytes) (x : Exchange) (n need : ℕ) (resp : HttpResponse)
    → IsAnswered h body x n resp
    → is_success resp ≡ true
    → resp.is_sse ≡ true
    → resp.is_chunked ≡ false
    → resp.content_length ≡ some need
    → need ≤ length (drop n (bytes_of x.answer))
    → need ≤ body_max
    → http_post_once h body x
      ≡ some (record {
        self = received (joined_self h resp) (events_of (take need (drop n (bytes_of x.answer))));
        error = none;
        written = request_header h (length body) ++ body;
      })
http_post_once-events h body x n need resp v ok stream plain known there fits =
    let r = answered h body x n resp v in
    let rest = drop n (bytes_of x.answer) in
    let b = fresh_body h resp in
    let (ps, taken, reported) =
      read_response_body-by_length resp need r.left r.initial b plain known in
    let all : flatten ps ≡ take need rest = taken ∙ ap (take need) r.whole_body in
    let small : length (take need rest) ≤ body_max =
      omega (arith, fits, length-take need rest there) in
    events_posted h body x n resp ps (take need rest) r ok stream all small
      (reported ∙ whole_length need r b ps there)
