-- ===== src/Http/Post/Chunks.antt =====
-- Chunked event streams in a POST of wrapper/src/transport_http.c.
use mathlib.Core.List.{map}
use mcpbridge.Base.{
  ℕ, ◌≤◌, ◌<◌, ◌≡◌, refl, ap, sym, ◌∙◌, Bytes, true, none, some, List, [], ◌∷◌, ◌++◌, length, drop,
  flatten,
}
use mcpbridge.Mcp.Reader.Lines.{NoNewline}
use mcpbridge.Http.Buffer.{body_max}
use mcpbridge.Http.Sse.{Sse, sse_parser_feed}
use mcpbridge.Http.Sse.Pieces.{sse_feeds, feed-append}
use mcpbridge.Http.Chunk.{chunk_dec_init, chunk_size, line_size, ended}
use mcpbridge.Http.Chunk.Decode.{Chunk, AllChunks, encode, bodies, chunk_feeds-encode}
use mcpbridge.Http.Chunk.Pieces.{chunk_feeds}
use mcpbridge.Http.Chunk.Map.{with_context, chunk_feeds_with}
use mcpbridge.Http.State.{HttpSelf, http_enqueue}
use mcpbridge.Http.Input.{bytes_of}
use mcpbridge.Http.Response.{HttpResponse}
use mcpbridge.Http.Body.{body_accept}
use mcpbridge.Http.Body.Framing.{accept_all}
use mcpbridge.Http.Body.Chunked.{verdict, read_response_body-chunked}
use mcpbridge.Http.Body.Events.{with_sse, sse_sink, accept-sse, accept_all-sse, events_of, received}
use mcpbridge.Http.Post.{Exchange, request_header, body_ctx, http_post_once}
use mcpbridge.Http.Post.Outcomes.{IsAnswered, answered, is_success}
use mcpbridge.Http.Post.Delivery.{joined_self, fresh_body, events_posted}

-- The chunks of an event stream.
bodies_fed :
    (s : Sse) (h : HttpSelf) (ks : List Chunk)
    → bodies sse_sink (s, h) ks ≡ sse_feeds http_enqueue s h (map (λ k. k.body) ks)
unfolding sse_feeds
bodies_fed s h [] = refl
bodies_fed s h (k ∷ ks) =
    let (s', h') = sse_parser_feed http_enqueue s h k.body in bodies_fed s' h' ks

-- A chunked event stream is delivered whole, as the events of the bytes in its chunks, behind
-- what was queued before: for an answer, read as IsAnswered says, of success, of chunks and a
-- last one behind the head, whatever follows them, with at most HTTP_BODY_MAX bytes in the
-- chunks, and for any reads that bring it.
pub http_post_once-chunked_events :
    (h : HttpSelf) (body : Bytes) (x : Exchange) (n : ℕ) (resp : HttpResponse) (ks : List Chunk)
    (last rest : Bytes)
    → IsAnswered h body x n resp
    → is_success resp ≡ true
    → resp.is_sse ≡ true
    → resp.is_chunked ≡ true
    → AllChunks ks
    → NoNewline last
    → length last < line_size
    → chunk_size last ≡ some 0
    → drop n (bytes_of x.answer) ≡ encode ks (last ++ b'\n' ∷ rest)
    → length (flatten (map (λ k. k.body) ks)) ≤ body_max
    → http_post_once h body x
      ≡ some (record {
        self = received (joined_self h resp) (events_of (flatten (map (λ k. k.body) ks)));
        error = none;
        written = request_header h (length body) ++ body;
      })
unfolding body_ctx
http_post_once-chunked_events h body x n resp ks last rest v ok stream chunked vs line short
      none_left e small =
    let r = answered h body x n resp v in
    let b = fresh_body h resp in
    let qs = map (λ k. k.body) ks in
    let (ps, taken, reported) = read_response_body-chunked resp r.left r.initial b chunked in
    let (d, over) =
      chunk_feeds-encode sse_sink (λ c y z. feed-append http_enqueue c.0 c.1 y z) (b.sse, b.h) ks
        last rest ps vs line short none_left (taken ∙ r.whole_body ∙ e) in
    let decoded : chunk_feeds body_accept chunk_dec_init b ps
        ≡ ended d (with_sse b (bodies sse_sink (b.sse, b.h) ks)) =
      chunk_feeds_with (with_sse b) sse_sink body_accept (λ p bytes. accept-sse b p bytes stream)
        chunk_dec_init (b.sse, b.h) ps
      ∙ ap (with_context (with_sse b)) over in
    let fed : with_sse b (bodies sse_sink (b.sse, b.h) ks) ≡ accept_all b qs =
      ap (with_sse b) (bodies_fed b.sse b.h ks) ∙ sym (accept_all-sse b b.sse b.h qs stream) in
    events_posted h body x n resp qs (flatten qs) r ok stream refl small
      (reported ∙ ap (verdict r.left) decoded ∙ ap (λ c. some (c, none)) fed)
