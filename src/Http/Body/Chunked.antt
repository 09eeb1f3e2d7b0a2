-- ===== src/Http/Body/Chunked.antt =====
-- Where a chunked body ends, and what `read_response_body` of wrapper/src/transport_http.c then reports.
use mcpbridge.Base.{
  ℕ, zero, suc, ◌+◌, ◌<◌, ◌≡◌, ◌≢◌, refl, ap, sym, ◌∙◌, ◌⊎◌, inl, inr, Bytes, true, Option, none,
  some, List, [], ◌∷◌, ◌++◌, length, length-append, flatten, arith, Option-cases,
}
use mcpbridge.Transport.{eproto}
use mcpbridge.Http.Chunk.{
  ChunkDec, chunk_dec_init, chunk_size, Outcome, wants_more, ended, malformed, Round, next, stop,
  begin_chunk, size_byte, crlf_byte, data_bytes, chunk_round, at_end, chunk_loop, chunk_dec_feed,
}
use mcpbridge.Http.Chunk.Bytewise.{State-cases}
use mcpbridge.Http.Chunk.Pieces.{chunk_feeds}
use mcpbridge.Http.Input.{Input, bytes_of, brings, ends, read_some_lem}
use mcpbridge.Http.Response.{HttpResponse}
use mcpbridge.Http.Body.Framing.{cut_short}
use mcpbridge.Http.Body.{
  BodyCtx, body_accept, BodyResult, read_size, after_feed, chunked_loop, chunked_body,
  read_response_body,
}

-- What the decoder's end means for the body.
abbrev pub verdict : Input → Outcome BodyCtx → Option BodyResult
verdict i (wants_more _ b) = some (b, some (cut_short i))
verdict i (ended _ b) = some (b, none)
verdict i (malformed _ b) = some (b, some eproto)

-- A decoder that is not done.
abbrev Open : Outcome BodyCtx → Type 0
Open o = (d : ChunkDec) (b : BodyCtx) → o ≡ wants_more d b → at_end body_accept d b ≡ wants_more d b

at_end-Open : (d : ChunkDec) (b : BodyCtx) → Open (at_end body_accept d b)
at_end-Open d b d' b' h = elim (State-cases d.state) [
  | inl e ↦ ground (arith, e, h)
  | inr (inl e) ↦ ground (arith, e, h)
  | inr (inr (inl e)) ↦ ground (arith, e, h)
  | inr (inr (inr e)) ↦ ground (arith, e, h)
]

abbrev Final : Round BodyCtx → Type 0
Final r = (d : ChunkDec) (b : BodyCtx) → r ≢ stop (wants_more d b)

chunk_round-Final :
    (d : ChunkDec) (b : BodyCtx) (ch : ℕ) (rest : Bytes)
    → Final (chunk_round body_accept d b ch rest)
unfolding chunk_round size_byte begin_chunk crlf_byte data_bytes
chunk_round-Final d b ch rest d' b' h = elim (Option-cases (chunk_size d.line)) [
  | inl gone ↦ ground (arith, h, gone)
  | inr (n, e) ↦ ground (arith, h, e)
]

round_Open :
    (f : ℕ) (r : Round BodyCtx)
    → Final r
    → ((d : ChunkDec) (b : BodyCtx) (bs : Bytes) → Open (chunk_loop body_accept f d b bs))
    → Open (elim r as (λ _. Outcome BodyCtx) [
      | next d b rest ↦ chunk_loop body_accept f d b rest
      | stop o ↦ o
    ])
round_Open f (next d b rest) last ih = ih d b rest
round_Open f (stop o) last ih = λ d b h. absurd (last d b (ap stop h))

chunk_loop-Open :
    (f : ℕ) (d : ChunkDec) (b : BodyCtx) (bs : Bytes) → Open (chunk_loop body_accept f d b bs)
unfolding chunk_loop
chunk_loop-Open zero d b bs = at_end-Open d b
chunk_loop-Open (suc f) d b [] = at_end-Open d b
chunk_loop-Open (suc f) d b (ch ∷ bs) =
    round_Open f (chunk_round body_accept d b ch bs) (chunk_round-Final d b ch bs)
      (λ d' b' bs'. chunk_loop-Open f d' b' bs')

Outcome-cases :
    (o : Outcome BodyCtx)
    → ((d : ChunkDec) × (b : BodyCtx) × (o ≡ wants_more d b))
      ⊎ ((d : ChunkDec) × (b : BodyCtx) × (o ≡ ended d b))
      ⊎ ((d : ChunkDec) × (b : BodyCtx) × (o ≡ malformed d b))
Outcome-cases (wants_more d b) = inl (d, b, refl)
Outcome-cases (ended d b) = inr (inl (d, b, refl))
Outcome-cases (malformed d b) = inr (inr (d, b, refl))

-- The pieces that bring a chunked body.
record Chunked (whole : Bytes) (i : Input) (dec : ChunkDec) (b : BodyCtx)
    (result : Option BodyResult) : Type 0 where
  pub pieces : List Bytes
  pub taken : flatten pieces ≡ whole
  pub reported : result ≡ verdict i (chunk_feeds body_accept dec b pieces)

feed-Open : (d : ChunkDec) (b : BodyCtx) (bs : Bytes) → Open (chunk_dec_feed body_accept d b bs)
unfolding chunk_dec_feed
feed-Open d b bs = chunk_loop-Open (length bs) d b bs

-- A call, and the loop behind it.
one_call :
    (i : Input) (dec : ChunkDec) (b : BodyCtx) (bytes : Bytes)
    (k : ChunkDec → BodyCtx → Option BodyResult)
    → ((d : ChunkDec) (c : BodyCtx)
        → at_end body_accept d c ≡ wants_more d c
        → Chunked (bytes_of i) i d c (k d c))
    → Chunked (bytes ++ bytes_of i) i dec b (after_feed (chunk_dec_feed body_accept dec b bytes) k)
unfolding chunk_feeds
one_call i dec b bytes k rest = elim (Outcome-cases (chunk_dec_feed body_accept dec b bytes)) [
  | inl (d, c, e) ↦
      let r = rest d c (feed-Open dec b bytes d c e) in
      record {
        pieces = bytes ∷ r.pieces;
        taken = ap (◌++◌ bytes) r.taken;
        reported = ground (arith, e, r.reported);
      }
  | inr (inl (d, c, e)) ↦ record {
    pieces = bytes ∷ i.runs;
    taken = refl;
    reported = ground (arith, e);
  }
  | inr (inr (d, c, e)) ↦ record {
    pieces = bytes ∷ i.runs;
    taken = refl;
    reported = ground (arith, e);
  }
]

chunked_loop-Chunked :
    (f : ℕ) (i : Input) (dec : ChunkDec) (b : BodyCtx)
    → length (bytes_of i) < f
    → at_end body_accept dec b ≡ wants_more dec b
    → Chunked (bytes_of i) i dec b (chunked_loop f i dec b)
unfolding chunked_loop
chunked_loop-Chunked zero i dec b h o = absurd (omega arith)
chunked_loop-Chunked (suc f) i dec b h o = elim (read_some_lem read_size i (omega arith)) [
  | ends nothing e ↦ elim (Option-cases i.failure) [
    | inl closed ↦ record {
      pieces = [];
      taken = sym nothing;
      reported = unfold chunk_feeds in ground (arith, e, closed, o);
    }
    | inr (err, broken) ↦ record {
      pieces = [];
      taken = sym nothing;
      reported = unfold chunk_feeds in ground (arith, e, broken, o);
    }
  ]
  | brings bytes more e rest some_read bounded ↦
      let i' = record i { runs = more } in
      let size : length (bytes_of i) ≡ length bytes + length (flatten more) =
        ap length rest ∙ length-append bytes (flatten more) in
      let r =
        one_call i' dec b bytes (chunked_loop f i')
          (λ d c u. chunked_loop-Chunked f i' d c (omega (arith, size, some_read, h)) u) in
      record {
        pieces = r.pieces;
        taken = r.taken ∙ sym rest;
        reported = ground (arith, e, r.reported);
      }
]

chunked_body-Chunked :
    (i : Input) (initial : Bytes) (b : BodyCtx)
    → Chunked (initial ++ bytes_of i) i chunk_dec_init b (chunked_body i initial b)
unfolding chunked_body chunk_dec_init
chunked_body-Chunked i [] b =
    chunked_loop-Chunked (suc (length (bytes_of i))) i chunk_dec_init b (omega arith) refl
chunked_body-Chunked i (c ∷ cs) b =
    one_call i chunk_dec_init b (c ∷ cs) (chunked_loop (suc (length (bytes_of i))) i)
      (λ d b' u. chunked_loop-Chunked (suc (length (bytes_of i))) i d b' (omega arith) u)

-- A chunked body, also one with a Content-Length: the result is what the decoder makes of the bytes
-- behind the head, in some pieces. It is a success when the decoder is done, EPROTO when it refuses
-- them, and else ECONNABORTED or the error that ends the input.
pub read_response_body-chunked :
    (resp : HttpResponse) (i : Input) (initial : Bytes) (b : BodyCtx)
    → resp.is_chunked ≡ true
    → (ps : List Bytes) × (flatten ps ≡ initial ++ bytes_of i)
      × (read_response_body resp i initial b
          ≡ verdict i (chunk_feeds body_accept chunk_dec_init b ps))
unfolding read_response_body
read_response_body-chunked resp i initial b chunked =
    let r = chunked_body-Chunked i initial b in
    (r.pieces, r.taken, ground (arith, chunked, r.reported))
