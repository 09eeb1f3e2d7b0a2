-- ===== src/Http/Post/Plain.antt =====
-- Plain bodies in a POST of wrapper/src/transport_http.c.
use mcpbridge.Base.{
  ℕ, ◌≤◌, ◌<◌, ◌≡◌, ap, ◌∙◌, Bytes, Bool, true, false, none, some, [], ◌∷◌, ◌++◌, length, take,
  drop, flatten, arith, length-take,
}
use mcpbridge.Transport.{eproto}
use mcpbridge.Http.Buffer.{body_max}
use mcpbridge.Http.State.{HttpSelf, http_enqueue}
use mcpbridge.Http.Input.{bytes_of}
use mcpbridge.Http.Response.{HttpResponse}
use mcpbridge.Http.Body.{BodyCtx}
use mcpbridge.Http.Body.Framing.{accept_all, read_response_body-by_length}
use mcpbridge.Http.Body.Events.{json_pieces, json_over}
use mcpbridge.Http.Post.{
  Exchange, request_header, strip_line_ends, finish_body, body_ctx, with_body, http_post_once,
}
use mcpbridge.Http.Post.Outcomes.{IsAnswered, answered, is_success}
use mcpbridge.Http.Post.Delivery.{
  joined_self, fresh_body, posted, whole_length, body_ctx_fine, body_ctx_self,
}

finish_json :
    (h : HttpSelf) (is_sse : Bool) (text : Bytes) (room : ℕ)
    → is_sse ≡ false
    → finish_body (record (body_ctx h is_sse) { json_buf = text; json_cap = room }) none
      ≡ (http_enqueue h (strip_line_ends text), none)
unfolding body_ctx finish_body strip_line_ends http_enqueue
finish_json h is_sse [] room json = ground (arith, json)
finish_json h is_sse (b ∷ bs) room json = ground (arith, json)

finish_full : (b : BodyCtx) → b.json_overflow ≡ true → finish_body b none ≡ (b.h, some eproto)
unfolding finish_body
finish_full b full = ground (arith, full)

-- A plain body of a given length is delivered as one message, without the line ends behind it.
pub http_post_once-message :
    (h : HttpSelf) (body : Bytes) (x : Exchange) (n need : ℕ) (resp : HttpResponse)
    → IsAnswered h body x n resp
    → is_success resp ≡ true
    → resp.is_sse ≡ false
    → resp.is_chunked ≡ false
    → resp.content_length ≡ some need
    → need ≤ length (drop n (bytes_of x.answer))
    → need ≤ body_max
    → http_post_once h body x
      ≡ some (record {
        self =
            http_enqueue
              (joined_self h resp)
              (strip_line_ends (take need (drop n (bytes_of x.answer))));
        error = none;
        written = request_header h (length body) ++ body;
      })
unfolding body_ctx
http_post_once-message h body x n need resp v ok json plain known there fits =
    let r = answered h body x n resp v in
    let h' = joined_self h resp in
    let rest = drop n (bytes_of x.answer) in
    let b = fresh_body h resp in
    let (ps, taken, reported) =
      read_response_body-by_length resp need r.left r.initial b plain known in
    let all : flatten ps ≡ take need rest = taken ∙ ap (take need) r.whole_body in
    let small : length (flatten ps) ≤ body_max =
      rw all (omega (arith, fits, length-take need rest there)) in
    let (room, pieces) =
      json_pieces b ps json (body_ctx_fine h' resp.is_sse) (omega (arith, small)) in
    posted h body x n resp (http_enqueue h' (strip_line_ends (take need rest)), none) r ok
      (ap with_body (reported ∙ whole_length need r b ps there ∙ ap (λ c. some (c, none)) pieces)
        ∙ ap some (finish_json h' resp.is_sse (flatten ps) room json)
        ∙ ap (λ t. some (http_enqueue h' (strip_line_ends t), none)) all)

-- A plain body above HTTP_BODY_MAX is never delivered in part: the POST fails with EPROTO and
-- queues nothing. This is for an answer, read as IsAnswered says, of success, that is neither
-- chunked nor an event stream, with a Content-Length above the bound and as many bytes behind the
-- head, for any reads that bring it.
pub http_post_once-too_long :
    (h : HttpSelf) (body : Bytes) (x : Exchange) (n need : ℕ) (resp : HttpResponse)
    → IsAnswered h body x n resp
    → is_success resp ≡ true
    → resp.is_sse ≡ false
    → resp.is_chunked ≡ false
    → resp.content_length ≡ some need
    → need ≤ length (drop n (bytes_of x.answer))
    → body_max < need
    → http_post_once h body x
      ≡ some (record {
        self = joined_self h resp;
        error = some eproto;
        written = request_header h (length body) ++ body;
      })
unfolding body_ctx
http_post_once-too_long h body x n need resp v ok json plain known there over =
    let r = answered h body x n resp v in
    let h' = joined_self h resp in
    let rest = drop n (bytes_of x.answer) in
    let b = fresh_body h resp in
    let (ps, taken, reported) =
      read_response_body-by_length resp need r.left r.initial b plain known in
    let all : flatten ps ≡ take need rest = taken ∙ ap (take need) r.whole_body in
    let long : body_max < length (flatten ps) =
      rw all (omega (arith, over, length-take need rest there)) in
    let (full, quiet) = json_over b ps json (omega (arith, long)) (omega arith) in
    posted h body x n resp (h', some eproto) r ok
      (ap with_body (reported ∙ whole_length need r b ps there)
        ∙ ap some (
            finish_full (accept_all b ps) full
            ∙ ap (λ g. (g, some eproto)) (quiet ∙ body_ctx_self h' resp.is_sse)))
