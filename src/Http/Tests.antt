-- ===== src/Http/Tests.antt =====
-- Runs of the HTTP transport of wrapper/src/transport_http.c on concrete input.
use mathlib.Core.List.{map}
use mcpbridge.Base.{
  ℕ, zero, suc, ◌≤◌, ◌<◌, ◌≡◌, refl, ap, sym, ◌⊎◌, Bytes, codes, bytes_eq, true, false, none, some,
  List, [], ◌∷◌, ◌++◌, append_assoc, append-nil, length-append, length, take, drop, arith,
}
use mcpbridge.CLib.{
  c_string, cut_at, contains, skip_space, read_digits, strtol, decimal, decimal_loop,
}
use mcpbridge.Transport.{econnrefused, estale, eproto}
use mcpbridge.Mcp.Reader.{split_newline}
use mcpbridge.Mcp.Reader.Lines.{split_lines, NoNewline}
use mcpbridge.Http.Sse.{sse_parser_init, strip_cr}
use mcpbridge.Http.Sse.Events.{without_cr, events, with_line, data_value}
use mcpbridge.Http.Sse.Handling.{deliver}
use mcpbridge.Http.Sse.Pieces.{sse_feeds}
use mcpbridge.Http.Sse.Refine.{sse_feeds-events}
use mcpbridge.Http.Chunk.{ChunkDec, chunk_dec_init, ended, chunk_size}
use mcpbridge.Http.Chunk.Decode.{Chunk, AllChunks, encode, chunk_feeds-encode}
use mcpbridge.Http.Chunk.Pieces.{chunk_feeds}
use mcpbridge.Http.Url.{
  HttpUrl, head_of, http_url_parse, http_url_parse-local, split_host, is_local_host, url_tail,
  port_part, path_part,
}
use mcpbridge.Http.State.{HttpSelf, http_pump, enqueue_all, not_empty, http_pump-in_order}
use mcpbridge.Http.Input.{bytes_of}
use mcpbridge.Http.Response.{
  HttpResponse, header_end_of, ci_eq, trim_front, trim_end, trim, status_line, header_field,
  header_line, one_line, header_loop, no_response, parse_response_headers, session_size,
}
use mcpbridge.Http.Response.Bounds.{crlf, parse_response_headers-bounds}
use mcpbridge.Http.Body.Events.{received, events_of}
use mcpbridge.Http.Connect.{Attempt, next_sleep, tcp_connect_with_backoff}
use mcpbridge.Http.Post.{Exchange, request_header, http_post_once}
use mcpbridge.Http.Post.Outcomes.{IsAnswered, http_post_once-refused}
use mcpbridge.Http.Post.Delivery.{joined_self, http_post_once-events}
use mcpbridge.Http.Post.Chunks.{http_post_once-chunked_events}
use mcpbridge.Http.Post.Plain.{http_post_once-too_long}

-- A transport within a session, with a message that waits.
abbrev self : HttpSelf
self = record {
  url = record { host = codes "localhost"; port = 8080; path = codes "/mcp" };
  session_id = codes "s1";
  started = true;
  call_timeout_ms = 1000;
  wake = some 0;
  queue = codes "a" ∷ [];
}

abbrev ping : Bytes
ping = codes "{}"

abbrev tried : List Attempt
tried = record { failure = some econnrefused; now = 10 } ∷ record { failure = none; now = 120 } ∷ []

-- An exchange in which the server answers in these runs.
abbrev exchange : List Bytes → Exchange
exchange runs = record {
  now = 5;
  attempts = tried;
  header_written = none;
  body_written = none;
  answer = record { runs = runs; failure = none };
}

abbrev stream_head : Bytes
stream_head =
    codes "HTTP/1.1 200 OK\r\nContent-Type: text/event-stream\r\nContent-Length: 19\r\n\r\n"

abbrev stream_answer : List Bytes
stream_answer = (stream_head ++ codes "data: x") ∷ codes "\n\ndata: yz\n\n" ∷ []

abbrev stream_response : HttpResponse
stream_response = record {
  status = 200;
  is_sse = true;
  content_length = some 19;
  is_chunked = false;
  session_id = [];
}

stream_answer-IsAnswered : IsAnswered self ping (exchange stream_answer) 72 stream_response
unfolding tcp_connect_with_backoff next_sleep request_header decimal decimal_loop header_end_of
    bytes_eq parse_response_headers no_response header_loop one_line status_line header_line
    header_field trim trim_front trim_end ci_eq c_string cut_at contains strtol skip_space
    read_digits
stream_answer-IsAnswered = record {
  joined = refl;
  header_fits = ground arith;
  header_sent = refl;
  body_sent = refl;
  head_ends = refl;
  head_fits = omega arith;
  head_says = refl;
}

http_post_once-events_example :
    http_post_once self ping (exchange stream_answer)
    ≡ some (record {
      self =
          received
            (joined_self self stream_response)
            (events_of (take 19 (drop 72 (bytes_of (exchange stream_answer).answer))));
      error = none;
      written = request_header self 2 ++ ping;
    })
http_post_once-events_example =
    http_post_once-events self ping (exchange stream_answer) 72 19 stream_response
      stream_answer-IsAnswered refl refl refl refl (omega arith) (omega arith)

stream_events :
    events_of (take 19 (drop 72 (bytes_of (exchange stream_answer).answer)))
    ≡ codes "x" ∷ codes "yz" ∷ []
unfolding events with_line data_value bytes_eq without_cr split_newline split_lines
stream_events = refl

abbrev chunked_head : Bytes
chunked_head =
    codes
      "HTTP/1.1 200 OK\r\nContent-Type: text/event-stream\r\nTransfer-Encoding: chunked\r\nMcp-Session-Id: s2\r\n\r\n"

abbrev two_chunks : List Chunk
two_chunks =
    record { size_line = codes "5\r"; body = codes "data:" }
    ∷ record { size_line = codes "4;x"; body = codes " z\n\n" }
    ∷ []

two_chunks-AllChunks : AllChunks two_chunks
unfolding split_newline chunk_size strip_cr c_string cut_at strtol skip_space read_digits
two_chunks-AllChunks = (
  record { on_line = refl; short_line = omega arith; right_size = refl; not_empty = omega arith },
  (
    record { on_line = refl; short_line = omega arith; right_size = refl; not_empty = omega arith },
    _,
  ),
)

abbrev chunked_answer : List Bytes
chunked_answer =
    (chunked_head ++ codes "5\r\nda") ∷ codes "ta:\r\n4;x\n z\n\n\r" ∷ codes "\n0\r\n\r\n" ∷ []

abbrev chunked_response : HttpResponse
chunked_response = record {
  status = 200;
  is_sse = true;
  content_length = none;
  is_chunked = true;
  session_id = codes "s2";
}

chunked_answer-IsAnswered : IsAnswered self ping (exchange chunked_answer) 100 chunked_response
unfolding tcp_connect_with_backoff next_sleep request_header decimal decimal_loop header_end_of
    bytes_eq parse_response_headers no_response header_loop one_line status_line header_line
    header_field trim trim_front trim_end ci_eq c_string cut_at contains strtol skip_space
    read_digits
chunked_answer-IsAnswered = record {
  joined = refl;
  header_fits = ground arith;
  header_sent = refl;
  body_sent = refl;
  head_ends = refl;
  head_fits = omega arith;
  head_says = refl;
}

chunked_body :
    drop 100 (bytes_of (exchange chunked_answer).answer)
    ≡ encode two_chunks (codes "0\r" ++ b'\n' ∷ codes "\r\n")
unfolding encode
chunked_body = refl

last_chunk : chunk_size (codes "0\r") ≡ some 0
unfolding chunk_size strip_cr c_string cut_at strtol skip_space read_digits
last_chunk = refl

last_line : NoNewline (codes "0\r")
unfolding split_newline
last_line = refl

http_post_once-chunked_events_example :
    http_post_once self ping (exchange chunked_answer)
    ≡ some (record {
      self = received (joined_self self chunked_response) (events_of (codes "data: z\n\n"));
      error = none;
      written = request_header self 2 ++ ping;
    })
http_post_once-chunked_events_example =
    http_post_once-chunked_events self ping (exchange chunked_answer) 100 chunked_response
      two_chunks (codes "0\r") (codes "\r\n") chunked_answer-IsAnswered refl refl refl
      two_chunks-AllChunks last_line (omega arith) last_chunk chunked_body (omega arith)

-- The server has lost the session.
abbrev stale_answer : List Bytes
stale_answer = codes "HTTP/1.1 404 Not Found\r\n\r\n" ∷ []

abbrev stale_response : HttpResponse
stale_response = record {
  status = 404;
  is_sse = false;
  content_length = none;
  is_chunked = false;
  session_id = [];
}

stale_answer-IsAnswered : IsAnswered self ping (exchange stale_answer) 26 stale_response
unfolding tcp_connect_with_backoff next_sleep request_header decimal decimal_loop header_end_of
    bytes_eq parse_response_headers no_response header_loop one_line status_line header_line
    header_field trim trim_front trim_end ci_eq c_string cut_at contains strtol skip_space
    read_digits
stale_answer-IsAnswered = record {
  joined = refl;
  header_fits = ground arith;
  header_sent = refl;
  body_sent = refl;
  head_ends = refl;
  head_fits = omega arith;
  head_says = refl;
}

http_post_once-refused_example :
    http_post_once self ping (exchange stale_answer)
    ≡ some (record {
      self = record self { session_id = [] };
      error = some estale;
      written = request_header self 2 ++ ping;
    })
http_post_once-refused_example =
    http_post_once-refused self ping (exchange stale_answer) 26 stale_response
      stale_answer-IsAnswered refl

-- The messages in the order in which they come.
abbrev collect : List Bytes → Bytes → List Bytes
collect c m = c ++ m ∷ []

sse_feeds-events_example :
    ((sse_feeds collect sse_parser_init [] (codes "data: a\nda" ∷ codes "ta:b\n\n" ∷ [])).1
      ≡ deliver collect []
          (events [] (map without_cr (split_lines (codes "data: a\ndata:b\n\n")).0)).0)
    × ((sse_feeds collect sse_parser_init []
          (codes "data: a\nda" ∷ codes "ta:b\n\n" ∷ [])).0.overflow
        ≡ false)
sse_feeds-events_example =
    sse_feeds-events collect [] (codes "data: a\nda" ∷ codes "ta:b\n\n" ∷ []) (omega arith)

two_pieces : events_of (codes "data: a\ndata:b\n\n") ≡ codes "a\nb" ∷ []
unfolding events with_line data_value bytes_eq without_cr split_newline split_lines
two_pieces = refl

abbrev append_all : Bytes → Bytes → Bytes
append_all c m = c ++ m

chunk_feeds-encode_example :
    (d : ChunkDec) × (chunk_feeds append_all chunk_dec_init []
        (encode two_chunks (codes "0\r" ++ b'\n' ∷ []) ∷ [])
      ≡ ended d (codes "data: z\n\n"))
chunk_feeds-encode_example =
    chunk_feeds-encode append_all (λ c x y. sym (append_assoc c x y)) [] two_chunks (codes "0\r") []
      (encode two_chunks (codes "0\r" ++ b'\n' ∷ []) ∷ []) two_chunks-AllChunks last_line
      (omega arith) last_chunk (append-nil (encode two_chunks (codes "0\r" ++ b'\n' ∷ [])))

abbrev waiting : HttpSelf
waiting = record self { queue = codes "a" ∷ codes "b" ∷ []; wake = some 2 }

http_pump-in_order_example :
    http_pump
      (λ h' c' m. (h', collect c' m))
      5
      (enqueue_all waiting (codes "c" ∷ [] ∷ codes "d" ∷ []))
      []
    ≡ some (
      record waiting { queue = []; wake = some 0 },
      codes "a" ∷ codes "b" ∷ codes "c" ∷ codes "d" ∷ [],
    )
unfolding not_empty
http_pump-in_order_example = http_pump-in_order collect waiting [] (codes "c" ∷ [] ∷ codes "d" ∷ [])

abbrev parsed_url : HttpUrl
parsed_url = record { host = codes "localhost"; port = 19419; path = codes "/mcp" }

url_parses : http_url_parse (some (codes "http://localhost:19419/mcp")) ≡ some parsed_url
unfolding http_url_parse bytes_eq split_host is_local_host url_tail port_part path_part strtol
    skip_space read_digits
url_parses = refl

http_url_parse-local_example :
    ((parsed_url.host ≡ codes "localhost") ⊎ (parsed_url.host ≡ codes "127.0.0.1"))
    × (1 ≤ parsed_url.port)
    × (parsed_url.port ≤ 65535)
    × (head_of parsed_url.path ≡ b'/')
    × (length parsed_url.path < 256)
http_url_parse-local_example =
    http_url_parse-local (some (codes "http://localhost:19419/mcp")) parsed_url url_parses

-- The address is refused with brackets and without them.
six_refused :
    (http_url_parse (some (codes "http://::1/mcp")) ≡ none)
    × (http_url_parse (some (codes "http://[::1]:80/mcp")) ≡ none)
unfolding http_url_parse bytes_eq split_host is_local_host url_tail port_part path_part
six_refused = (refl, refl)

stale_head :
    (contains crlf (take 26 (bytes_of (exchange stale_answer).answer)) ≡ true)
    × (parse_response_headers (take 26 (bytes_of (exchange stale_answer).answer))
        ≡ some stale_response)
unfolding tcp_connect_with_backoff next_sleep request_header decimal decimal_loop header_end_of
    bytes_eq parse_response_headers no_response header_loop one_line status_line header_line
    header_field trim trim_front trim_end ci_eq c_string cut_at contains strtol skip_space
    read_digits
stale_head = (refl, refl)

parse_response_headers-bounds_example :
    (100 ≤ stale_response.status)
    × (stale_response.status ≤ 599)
    × (length stale_response.session_id < session_size)
parse_response_headers-bounds_example =
    parse_response_headers-bounds (take 26 (bytes_of (exchange stale_answer).answer)) stale_response
      stale_head.0 stale_head.1

-- A body that is one byte too long.
abbrev zeros : ℕ → Bytes
zeros zero = []
zeros (suc n) = 0 ∷ zeros n

length-zeros : (n : ℕ) → length (zeros n) ≡ n
length-zeros zero = refl
length-zeros (suc n) = ap suc (length-zeros n)

abbrev long_head : Bytes
long_head = codes "HTTP/1.1 200 OK\r\nContent-Length: 4194305\r\n\r\n"

abbrev long_response : HttpResponse
long_response = record {
  status = 200;
  is_sse = false;
  content_length = some 4194305;
  is_chunked = false;
  session_id = [];
}

long_answer :
    (n : ℕ) → IsAnswered self ping (exchange ((long_head ++ zeros n) ∷ [])) 44 long_response
unfolding tcp_connect_with_backoff next_sleep request_header decimal decimal_loop header_end_of
    bytes_eq parse_response_headers no_response header_loop one_line status_line header_line
    header_field trim trim_front trim_end ci_eq c_string cut_at contains strtol skip_space
    read_digits
long_answer n = record {
  joined = refl;
  header_fits = ground arith;
  header_sent = refl;
  body_sent = refl;
  head_ends = refl;
  head_fits = omega arith;
  head_says = refl;
}

long_there :
    (n : ℕ) → n ≤ length (drop 44 (bytes_of (exchange ((long_head ++ zeros n) ∷ [])).answer))
long_there n = omega (arith, length-append (zeros n) [], length-zeros n)

http_post_once-too_long_example :
    http_post_once self ping (exchange ((long_head ++ zeros 4194305) ∷ []))
    ≡ some (record {
      self = joined_self self long_response;
      error = some eproto;
      written = request_header self 2 ++ ping;
    })
http_post_once-too_long_example =
    http_post_once-too_long self ping (exchange ((long_head ++ zeros 4194305) ∷ [])) 44 4194305
      long_response (long_answer 4194305) refl refl refl refl (long_there 4194305) (omega arith)
