-- ===== src/Http/Response.antt =====
-- The head of a response, in wrapper/src/transport_http.c. A `char *` into the header block is the
-- text up to its NUL.
pub mod Bounds
pub mod Until
use mcpbridge.Base.{
  ℕ, zero, suc, ◌+◌, ◌-◌, ◌%◌, ◌^◌, Bytes, codes, bytes_eq, Bool, true, false, ◌&&◌, ◌||◌, Option,
  none, some, List, [], ◌∷◌, ◌++◌, ltb, leb, ◌==◌, if◌then◌else◌, length, take, drop,
}
use mcpbridge.Base.Int.{ℤ, pos, negsuc}
use mcpbridge.CLib.{c_string, cut_at, contains, to_lower, starts_with, strtol}
use mcpbridge.Transport.{Errno, emsgsize, econnaborted}
use mcpbridge.Http.Chunk.{not_negative}
use mcpbridge.Http.Input.{Input, ReadResult, got, eof, read_failed, read_some}

-- `content_length` is `none` for -1; `session_id` is empty for "".
pub record HttpResponse : Type 0 where
  pub status : ℕ
  pub is_sse : Bool
  pub content_length : Option ℕ
  pub is_chunked : Bool
  pub session_id : Bytes

unfoldable pub ci_eq : Bytes → Bytes → Bool
ci_eq (a ∷ s) (b ∷ t) = if to_lower a == to_lower b then ci_eq s t else false
ci_eq [] [] = true
ci_eq _ _ = false

abbrev is_blank : ℕ → Bool
is_blank ch = ch == b' ' || ch == b'\t'

abbrev is_blank_or_end : ℕ → Bool
is_blank_or_end ch = is_blank ch || ch == b'\r' || ch == b'\n'

unfoldable pub trim_front : Bytes → Bytes
trim_front [] = []
trim_front (ch ∷ r) = if is_blank ch then trim_front r else ch ∷ r

-- The text without the blanks, CRs and LFs at its end.
unfoldable pub trim_end : Bytes → Bytes
trim_end [] = []
trim_end (ch ∷ r) = elim (trim_end r) [
  | [] ↦ if is_blank_or_end ch then [] else ch ∷ []
  | (b ∷ t) ↦ ch ∷ b ∷ t
]

unfoldable pub trim : Bytes → Bytes
unfolding trim_front trim_end
trim s = trim_end (trim_front s)

abbrev pub crlf_crlf : Bytes
crlf_crlf = b'\r' ∷ b'\n' ∷ b'\r' ∷ b'\n' ∷ []

-- The scan of the buffer for CRLF-CRLF: the number of bytes up to its end.
unfoldable pub header_end_of : Bytes → Option ℕ
header_end_of [] = none
header_end_of (b ∷ r) =
    if starts_with crlf_crlf (b ∷ r)
    then some 4
    else elim (header_end_of r) [ none ↦ none | some n ↦ some (suc n) ]

pub data HeadResult : Type 0 where
  -- The buffer, the end of the head in it, and what is still to be read.
  head_read : Bytes → ℕ → Input → HeadResult
  head_failed : Errno → HeadResult

-- The loop, with the bytes that it has; `none` is the end of the fuel.
unfoldable pub head_loop : ℕ → ℕ → Bytes → Input → Option HeadResult
unfolding header_end_of read_some
head_loop zero buf_cap buf i = none
head_loop (suc f) buf_cap buf i =
    if leb buf_cap (length buf)
    then some (head_failed emsgsize)
    else elim (read_some (buf_cap - length buf) i) [
      | eof ↦ some (head_failed econnaborted)
      | read_failed e ↦ some (head_failed e)
      | got bytes i' ↦
          let have = buf ++ bytes in
          let more = head_loop f buf_cap have i' in
          elim (header_end_of have) [ none ↦ more | some n ↦ some (head_read have n i') ]
    ]

-- A round adds a byte at least to a buffer of `buf_cap` bytes.
unfoldable pub read_until_headers_done : ℕ → Input → Option HeadResult
unfolding head_loop
read_until_headers_done buf_cap i = head_loop (suc buf_cap) buf_cap [] i

-- `(int)` of a long, as its 32 bits; a negative number is at least 2 ^ 31.
abbrev to_int : ℤ → ℕ
to_int (pos n) = n % 2 ^ 32
to_int (negsuc n) = 2 ^ 32 - 1 - n % 2 ^ 32

unfoldable pub no_response : HttpResponse
no_response = record {
  status = 0;
  is_sse = false;
  content_length = none;
  is_chunked = false;
  session_id = [];
}

-- The line "HTTP/1.1 200 OK"; `none` is EPROTO.
unfoldable pub status_line : HttpResponse → Bytes → Option HttpResponse
status_line out line = elim (cut_at b' ' line) [
  | none ↦ none
  | some (_, behind) ↦
      let status = to_int (strtol 10 behind).0 in
      if ltb status 100 || ltb 599 status then none else some (record out { status = status })
]

-- `sizeof(out->session_id)`
abbrev pub session_size : ℕ
session_size = 128

unfoldable pub header_field : HttpResponse → Bytes → Bytes → HttpResponse
unfolding ci_eq
header_field out name value =
    if ci_eq name (codes "Content-Length")
    then elim (not_negative (strtol 10 value)) [
      | none ↦ out
      | some n ↦ record out { content_length = some n }
    ]
    else if ci_eq name (codes "Transfer-Encoding")
    then (if contains (codes "chunked") value then record out { is_chunked = true } else out)
    else if ci_eq name (codes "Content-Type")
    then (if contains (codes "text/event-stream") value then record out { is_sse = true } else out)
    else if ci_eq name (codes "MCP-Session-Id") || ci_eq name (codes "Mcp-Session-Id")
    then record out { session_id = take (session_size - 1) value }
    else out

-- A line behind the first; one without a colon changes nothing, also an empty one.
unfoldable pub header_line : HttpResponse → Bytes → HttpResponse
unfolding trim header_field
header_line out line = elim (cut_at b':' line) [
  | none ↦ out
  | some (name, behind) ↦ header_field out name (trim behind)
]

unfoldable pub one_line : Bool → HttpResponse → Bytes → Option HttpResponse
unfolding status_line header_line
one_line first out line =
    if first then status_line out (c_string line) else some (header_line out (c_string line))

-- The loop, with the bytes of the line that it is in; a line ends at CRLF.
unfoldable pub header_loop : Bool → HttpResponse → Bytes → Bytes → Option HttpResponse
unfolding one_line
header_loop first out line [] = some out
header_loop first out line (a ∷ []) = some out
header_loop first out line (a ∷ b ∷ r) =
    let inside = header_loop first out (line ++ a ∷ []) (b ∷ r) in
    let behind : Option HttpResponse = elim (one_line first out line) [
      | none ↦ none
      | some out' ↦ header_loop false out' [] r
    ] in
    if a == b'\r' && b == b'\n' then behind else inside

-- `none` is EPROTO.
unfoldable pub parse_response_headers : Bytes → Option HttpResponse
unfolding header_loop no_response
parse_response_headers hdr = header_loop true no_response [] hdr
