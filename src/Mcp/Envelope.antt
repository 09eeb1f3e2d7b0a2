-- ===== src/Mcp/Envelope.antt =====
-- `scan_parse_int64`, `scan_skip_bom` and `scan_envelope` of wrapper/src/mcp.c.
pub mod Int64
use mcpbridge.Base.{
  ℕ, zero, suc, ◌+◌, ◌-◌, ◌*◌, ◌/◌, Bytes, codes, Bool, true, false, not, ◌&&◌, Option, none, some,
  [], ◌∷◌, ltb, leb, ◌==◌, if◌then◌else◌, length, take, drop,
}
use mcpbridge.Base.Int.{ℤ, pos, negsuc}
use mcpbridge.CLib.{c_string}
use mcpbridge.Mcp.Message.{
  McpId, absent, int, string, Msg, ParseError, bad_json, not_object, bad_id, bad_method, incoherent,
  classify_envelope,
}
use mcpbridge.Mcp.Scan.{
  ScanCur, nesting_limit, advance, peek_is, is_digit, number_starts, scan_ws, scan_key_is,
  scan_string, scan_number,
}
use mcpbridge.Mcp.Values.{scan_any}

abbrev pub uint64_max : ℕ
uint64_max = 0xffff_ffff_ffff_ffff

abbrev pub int64_max : ℕ
int64_max = 0x7fff_ffff_ffff_ffff

-- The digit loop, on a `uint64_t` accumulator; `none` at a byte that is no digit and on overflow.
unfoldable pub digits_from : ℕ → Bytes → Option ℕ
digits_from acc [] = some acc
digits_from acc (ch ∷ r) =
    let d = ch - b'0' in
    let more = digits_from (acc * 10 + d) r in
    if not (is_digit ch) then none else if ltb ((uint64_max - d) / 10) acc then none else more

abbrev pub starts_with_digit : Bytes → Bool
starts_with_digit [] = false
starts_with_digit (ch ∷ _) = is_digit ch

-- What the sign makes of the accumulator. `-(n + 1)` is `negsuc n`.
abbrev pub signed : Bool → Option ℕ → Option ℤ
signed neg none = none
signed true (some zero) = some (pos 0)
signed true (some (suc n)) = if ltb (int64_max + 1) (suc n) then none else some (negsuc n)
signed false (some n) = if ltb int64_max n then none else some (pos n)

unfoldable pub scan_parse_int64 : Bytes → Option ℤ
unfolding digits_from
scan_parse_int64 [] = none
scan_parse_int64 (ch ∷ r) =
    let neg = ch == b'-' in
    let rest = if neg then r else ch ∷ r in
    if not (starts_with_digit rest) then none else signed neg (digits_from 0 rest)

abbrev starts_with_bom : Bytes → Bool
starts_with_bom (a ∷ b ∷ c ∷ _) = a == 0xef && b == 0xbb && c == 0xbf
starts_with_bom _ = false

unfoldable pub scan_skip_bom : ScanCur → ScanCur
scan_skip_bom c = if starts_with_bom c.rest then record c { rest = drop 3 c.rest } else c

-- The local variables of `scan_envelope`. `id` and `method` are meaningful under `has_id` and
-- `has_method`; the texts are slices of the line still, with their lengths, and not C strings.
pub record Fields : Type 0 where
  pub seen_id : Bool
  pub seen_method : Bool
  pub seen_result : Bool
  pub seen_error : Bool
  pub has_id : Bool
  pub has_method : Bool
  pub has_result : Bool
  pub has_error : Bool
  pub id : McpId
  pub method : Bytes
  pub fallback : Bool

unfoldable pub no_fields : Fields
no_fields = record {
  seen_id = false;
  seen_method = false;
  seen_result = false;
  seen_error = false;
  has_id = false;
  has_method = false;
  has_result = false;
  has_error = false;
  id = absent;
  method = [];
  fallback = false;
}

-- Which branch reads the value: `take && is_id`, `take && is_method`, or neither.
pub data Reading : Type 0 where
  reads_id reads_method skips : Reading

abbrev pub id_key : Bytes
id_key = codes "id"

abbrev pub method_key : Bytes
method_key = codes "method"

abbrev pub result_key : Bytes
result_key = codes "result"

abbrev pub error_key : Bytes
error_key = codes "error"

unfoldable pub note_key : Fields → Bytes → Bool → Fields × Reading
note_key s key key_esc =
    let is = λ (lit : Bytes). not key_esc && scan_key_is key lit in
    if is id_key && not s.seen_id
    then (record s { seen_id = true }, reads_id)
    else if is method_key && not s.seen_method
    then (record s { seen_method = true }, reads_method)
    else if is result_key && not s.seen_result
    then (record s { seen_result = true; has_result = true }, skips)
    else if is error_key && not s.seen_error
    then (record s { seen_error = true; has_error = true }, skips)
    else (s, skips)

-- A step of the scan, or the code with which the function returns.
pub data Step {ℓ} (A : Type ℓ) : Type ℓ where
  go : A → Step A
  fail : ParseError → Step A

-- The branches that validate a value of the wrong type before they refuse it.
abbrev refuse_value : ScanCur → ParseError → Step (Fields × ScanCur)
refuse_value c e = elim (scan_any c) [ none ↦ fail bad_json | some _ ↦ fail e ]

unfoldable pub read_string_id : Fields → ScanCur → Step (Fields × ScanCur)
read_string_id s c = elim (scan_string c) [
  | none ↦ fail bad_json
  | some v ↦ go (
    if v.has_esc
        then record s { fallback = true }
        else record s { has_id = true; id = string v.inner },
    v.cur,
  )
]

-- The bytes from `nstart` to the cursor.
abbrev between : ScanCur → ScanCur → Bytes
between start end = take (length start.rest - length end.rest) start.rest

abbrev number_id : Fields → Option ℤ → Fields
number_id s none = record s { fallback = true }
number_id s (some n) = record s { has_id = true; id = int n }

unfoldable pub read_number_id : Fields → ScanCur → Step (Fields × ScanCur)
unfolding scan_parse_int64
read_number_id s c = elim (scan_number c) [
  | none ↦ fail bad_json
  | some (end, non_int) ↦ go (
    if non_int
        then record s { fallback = true }
        else number_id s (scan_parse_int64 (between c end)),
    end,
  )
]

unfoldable pub read_value : Reading → Fields → ScanCur → Step (Fields × ScanCur)
unfolding read_string_id read_number_id
read_value reads_id s c =
    if peek_is c b'"'
    then read_string_id s c
    else if number_starts c.rest
    then read_number_id s c
    else refuse_value c bad_id
read_value reads_method s c =
    if not (peek_is c b'"') then refuse_value c bad_method else elim (scan_string c) [
      | none ↦ fail bad_json
      | some v ↦ go (
        if v.has_esc
            then record s { fallback = true }
            else record s { has_method = true; method = v.inner },
        v.cur,
      )
    ]
read_value skips s c = elim (scan_any c) [ none ↦ fail bad_json | some end ↦ go (s, end) ]

-- One round of the loop up to the value, which it reads too.
unfoldable pub envelope_member : Fields → ScanCur → Step (Fields × ScanCur)
unfolding note_key read_value scan_ws
envelope_member s c = elim (scan_string (scan_ws c)) [
  | none ↦ fail bad_json
  | some k ↦
      let s' = if k.has_esc then record s { fallback = true } else s in
      let at = scan_ws k.cur in
      let (noted, reading) = note_key s' k.inner k.has_esc in
      if not (peek_is at b':')
      then fail bad_json
      else read_value reading noted (scan_ws (advance at))
]

unfoldable pub envelope_loop : ℕ → Fields → ScanCur → Step Fields
unfolding envelope_member
envelope_loop zero s c = fail bad_json
envelope_loop (suc f) s c = elim (envelope_member s c) [
  | fail e ↦ fail e
  | go (s', end) ↦
      let at = scan_ws end in
      elim (peek_is at b',') [
        | true ↦ envelope_loop f s' (advance at)
        | false ↦ if peek_is at b'}' then go s' else fail bad_json
      ]
]

-- What `scan_envelope` returns; `fallback` is SCAN_FALLBACK.
pub data Scanned : Type 0 where
  scanned : Msg → Scanned
  fallback : Scanned
  refused : ParseError → Scanned

-- The copies that go into the message end with a NUL and are read as C strings from there on.
abbrev stored_id : McpId → McpId
stored_id (string s) = string (c_string s)
stored_id id = id

unfoldable pub envelope_result : Bytes → Fields → Scanned
envelope_result bytes s =
    if s.fallback
    then fallback
    else elim (classify_envelope s.has_id s.has_method s.has_result s.has_error) [
      | none ↦ refused incoherent
      | some (kind, is_error) ↦ scanned (record {
        kind = kind;
        id = if s.has_id then stored_id s.id else absent;
        method = if s.has_method then some (c_string s.method) else none;
        raw = bytes;
        is_error = is_error;
      })
    ]

abbrev after_loop : Bytes → Step Fields → Scanned
after_loop bytes (go s) = envelope_result bytes s
after_loop bytes (fail e) = refused e

-- The object's bytes from `{` on. The depth there is 0, below the limit.
abbrev envelope_object : Bytes → ScanCur → Scanned
envelope_object bytes c =
    let entered = scan_ws (advance (record c { depth = c.depth + 1 })) in
    if leb nesting_limit c.depth
    then refused bad_json
    else if peek_is entered b'}'
    then refused incoherent
    else after_loop bytes (envelope_loop (suc (length entered.rest)) no_fields entered)

unfoldable pub scan_envelope : Bytes → Scanned
unfolding scan_ws scan_skip_bom envelope_loop envelope_result
scan_envelope bytes =
    let c = scan_ws (scan_skip_bom (record { rest = bytes; depth = 0 })) in
    if not (peek_is c b'{')
    then elim (scan_any c) [ none ↦ refused bad_json | some _ ↦ refused not_object ]
    else envelope_object bytes c
