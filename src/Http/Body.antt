-- ===== src/Http/Body.antt =====
-- The body of a response, in wrapper/src/transport_http.c. The body context holds the transport `h`
-- itself, which the functions here hand on.
pub mod Framing
pub mod Chunked
pub mod Events
use mcpbridge.Base.{
  ℕ, zero, suc, ◌+◌, ◌-◌, Bytes, Bool, true, false, Option, none, some, List, [], ◌∷◌, ◌++◌, ltb,
  leb, ◌==◌, if◌then◌else◌, length, take,
}
use mcpbridge.Transport.{Errno, econnaborted, eproto}
use mcpbridge.Http.Buffer.{body_buf_grow}
use mcpbridge.Http.Sse.{Sse, sse_parser_init, sse_parser_feed}
use mcpbridge.Http.Chunk.{
  ChunkDec, chunk_dec_init, Outcome, wants_more, ended, malformed, chunk_dec_feed,
}
use mcpbridge.Http.State.{HttpSelf, http_enqueue}
use mcpbridge.Http.Input.{Input, bytes_of, ReadResult, got, eof, read_failed, read_some}
use mcpbridge.Http.Response.{HttpResponse}

pub record BodyCtx : Type 0 where
  pub h : HttpSelf
  pub is_sse : Bool
  pub sse : Sse
  pub json_buf : Bytes
  pub json_cap : ℕ
  pub json_overflow : Bool

-- `sse_to_queue` is `http_enqueue`.
unfoldable pub body_accept : BodyCtx → Bytes → BodyCtx
unfolding sse_parser_feed http_enqueue
body_accept b bytes =
    let (sse', h') = sse_parser_feed http_enqueue b.sse b.h bytes in
    if b.is_sse
    then record b { sse = sse'; h = h' }
    else if b.json_overflow
    then b
    else elim (body_buf_grow b.json_cap (length b.json_buf + length bytes)) [
      | none ↦ record b { json_overflow = true }
      | some room ↦ record b { json_buf = b.json_buf ++ bytes; json_cap = room }
    ]

-- The body context afterwards, and the error; `none` is 0.
abbrev pub BodyResult : Type 0
BodyResult = BodyCtx × Option Errno

-- `sizeof(buf)`
abbrev pub read_size : ℕ
read_size = 8192

-- What a call of the decoder leads to.
abbrev pub after_feed :
    Outcome BodyCtx → (ChunkDec → BodyCtx → Option BodyResult) → Option BodyResult
after_feed (wants_more dec b) more = more dec b
after_feed (ended _ b) more = some (b, none)
after_feed (malformed _ b) more = some (b, some eproto)

-- The loop over the chunks; the end of the fuel is `none`, here and below.
unfoldable pub chunked_loop : ℕ → Input → ChunkDec → BodyCtx → Option BodyResult
unfolding read_some chunk_dec_feed body_accept
chunked_loop zero i dec b = none
chunked_loop (suc f) i dec b = elim (read_some read_size i) [
  | eof ↦ some (b, some econnaborted)
  | read_failed e ↦ some (b, some e)
  | got bytes i' ↦ after_feed (chunk_dec_feed body_accept dec b bytes) (chunked_loop f i')
]

-- The loop over `need` bytes.
unfoldable pub length_loop : ℕ → Input → ℕ → BodyCtx → Option BodyResult
unfolding read_some body_accept
length_loop f i zero b = some (b, none)
length_loop zero i (suc n) b = none
length_loop (suc f) i (suc n) b =
    elim (read_some (if ltb (suc n) read_size then suc n else read_size) i) [
      | eof ↦ some (b, some econnaborted)
      | read_failed e ↦ some (b, some e)
      | got bytes i' ↦ length_loop f i' (suc n - length bytes) (body_accept b bytes)
    ]

-- The loop up to the end of the file.
unfoldable pub eof_loop : ℕ → Input → BodyCtx → Option BodyResult
unfolding read_some body_accept
eof_loop zero i b = none
eof_loop (suc f) i b = elim (read_some read_size i) [
  | eof ↦ some (b, none)
  | read_failed e ↦ some (b, some e)
  | got bytes i' ↦ eof_loop f i' (body_accept b bytes)
]

-- `if (initial_len > 0)`
abbrev pub accept_initial : BodyCtx → Bytes → BodyCtx
accept_initial b [] = b
accept_initial b (c ∷ cs) = body_accept b (c ∷ cs)

unfoldable pub chunked_body : Input → Bytes → BodyCtx → Option BodyResult
unfolding chunked_loop
chunked_body i [] b = chunked_loop (suc (length (bytes_of i))) i chunk_dec_init b
chunked_body i (c ∷ cs) b =
    after_feed (chunk_dec_feed body_accept chunk_dec_init b (c ∷ cs))
      (chunked_loop (suc (length (bytes_of i))) i)

unfoldable pub length_body : Input → ℕ → Bytes → BodyCtx → Option BodyResult
unfolding length_loop
length_body i need initial b =
    let n = if ltb (length initial) need then length initial else need in
    let b' = elim initial as (λ _. BodyCtx) [ [] ↦ b | _ ↦ body_accept b (take n initial) ] in
    length_loop (suc (length (bytes_of i))) i (need - n) b'

-- A read brings a byte at least, so a unit of fuel for each byte to come is enough, and one for the end.
unfoldable pub read_response_body : HttpResponse → Input → Bytes → BodyCtx → Option BodyResult
unfolding chunked_body length_body eof_loop
read_response_body resp i initial b =
    let by_length : Option BodyResult = elim resp.content_length [
      | some need ↦ length_body i need initial b
      | none ↦ eof_loop (suc (length (bytes_of i))) i (accept_initial b initial)
    ] in
    if resp.is_chunked then chunked_body i initial b else by_length
