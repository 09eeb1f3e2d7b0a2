-- ===== src/Mcp/Scan.antt =====
-- The validating scanner of wrapper/src/mcp.c. A cursor is the bytes from `p` to `end` with the
-- depth; a scan that returns 0 is `none`. Calls nest as deep as the input is long, so the scanners
-- of values run on fuel; `value_fuel` is what `scan_envelope` gives them.
pub mod Progress
use mcpbridge.Base.{
  ℕ, zero, suc, ◌+◌, ◌-◌, ◌*◌, Bytes, bytes_eq, Bool, true, false, not, ◌&&◌, ◌||◌, Option, none,
  some, [], ◌∷◌, ltb, leb, ◌==◌, if◌then◌else◌, length, take, drop,
}

pub record ScanCur : Type 0 where
  pub rest : Bytes
  pub depth : ℕ

abbrev pub nesting_limit : ℕ
nesting_limit = 1000

abbrev pub tail : Bytes → Bytes
tail [] = []
tail (_ ∷ r) = r

-- `p++`
abbrev pub advance : ScanCur → ScanCur
advance c = record c { rest = tail c.rest }

abbrev head_is : Bytes → ℕ → Bool
head_is [] b = false
head_is (x ∷ _) b = x == b

-- `scan_peek(c) == b`
abbrev pub peek_is : ScanCur → ℕ → Bool
peek_is c b = head_is c.rest b

abbrev pub is_digit : ℕ → Bool
is_digit ch = leb b'0' ch && leb ch b'9'

unfoldable pub skip_ws : Bytes → Bytes
skip_ws [] = []
skip_ws (x ∷ r) = if leb x 32 then skip_ws r else x ∷ r

unfoldable pub scan_ws : ScanCur → ScanCur
unfolding skip_ws
scan_ws c = record c { rest = skip_ws c.rest }

unfoldable pub scan_key_is : Bytes → Bytes → Bool
scan_key_is s lit = (length s == length lit) && bytes_eq s lit

abbrev hex_digit : ℕ → Option ℕ
hex_digit ch =
    if is_digit ch
    then some (ch - b'0')
    else if leb b'a' ch && leb ch b'f'
    then some (ch - b'a' + 10)
    else if leb b'A' ch && leb ch b'F'
    then some (ch - b'A' + 10)
    else none

-- The loop of `scan_hex_value`: `rounds` digits are left, `v` is read. `(v << 4) | d` is the sum,
-- since `d` is below 16.
hex_from : ℕ → ℕ → Bytes → Option ℕ
hex_from zero v bs = some v
hex_from (suc rounds) v [] = none
hex_from (suc rounds) v (ch ∷ r) = elim (hex_digit ch) [
  | none ↦ none
  | some d ↦ hex_from rounds (v * 16 + d) r
]

unfoldable pub scan_hex_value : Bytes → Option ℕ
unfolding hex_from
scan_hex_value bs = hex_from 4 0 bs

abbrev is_simple_escape : ℕ → Bool
is_simple_escape e =
    e == b'"'
    || e == b'\\'
    || e == b'/'
    || e == b'b'
    || e == b'f'
    || e == b'n'
    || e == b'r'
    || e == b't'

-- The low half of a surrogate pair, with the bytes from the `\` on.
low_surrogate : Bytes → Option Bytes
low_surrogate bs =
    if ltb (length bs) 6 || not (head_is bs b'\\') || not (head_is (tail bs) b'u')
    then none
    else elim (scan_hex_value (drop 2 bs)) [
      | none ↦ none
      | some lo ↦ if ltb lo 0xdc00 || ltb 0xdfff lo then none else some (drop 6 bs)
    ]

-- `case 'u'`, with the bytes behind the `u`.
unicode_escape : Bytes → Option Bytes
unfolding low_surrogate
unicode_escape bs = if ltb (length bs) 4 then none else elim (scan_hex_value bs) [
  | none ↦ none
  | some cp ↦
      if leb 0xd800 cp && leb cp 0xdbff
      then low_surrogate (drop 4 bs)
      else if leb 0xdc00 cp && leb cp 0xdfff
      then none
      else some (drop 4 bs)
]

-- One escape, with the bytes behind the `\`: what is left behind it.
unfoldable pub scan_escape : Bytes → Option Bytes
unfolding unicode_escape
scan_escape [] = none
scan_escape (e ∷ r) =
    if is_simple_escape e then some r else if e == b'u' then unicode_escape r else none

pub data StringByte : Type 0 where
  quote backslash plain : StringByte

abbrev pub string_byte : ℕ → StringByte
string_byte ch = if ch == b'"' then quote else if ch == b'\\' then backslash else plain

-- The loop of `scan_string`: the bytes from the closing quote on, and whether an escape was seen.
unfoldable pub string_loop : ℕ → Bytes → Bool → Option (Bytes × Bool)
unfolding scan_escape
string_loop zero bs esc = none
string_loop (suc f) [] esc = none
string_loop (suc f) (ch ∷ r) esc = elim (string_byte ch) [
  | quote ↦ some (ch ∷ r, esc)
  | plain ↦ string_loop f r esc
  | backslash ↦ elim (scan_escape r) [ none ↦ none | some r' ↦ string_loop f r' true ]
]

-- What `scan_string` leaves in its out parameters, and the cursor behind the string.
pub record ScannedString : Type 0 where
  pub inner : Bytes
  pub has_esc : Bool
  pub cur : ScanCur

unfoldable pub scan_string : ScanCur → Option ScannedString
unfolding string_loop
scan_string c =
    if not (peek_is c b'"')
    then none
    else let start = tail c.rest in
      elim (string_loop (suc (length start)) start false) [
        | none ↦ none
        | some (at, esc) ↦ some (record {
          inner = take (length start - length at) start;
          has_esc = esc;
          cur = record c { rest = tail at };
        })
      ]

pub record ScannedNumber : Type 0 where
  pub rest : Bytes
  pub digit : Bool
  pub non_int : Bool

unfoldable pub number_loop : Bytes → Bool → Bool → ScannedNumber
number_loop [] digit non_int = record { rest = []; digit = digit; non_int = non_int }
number_loop (ch ∷ r) digit non_int =
    let marks_float = ch == b'.' || ch == b'e' || ch == b'E' in
    let more = number_loop r (digit || is_digit ch) (non_int || marks_float) in
    if is_digit ch || marks_float || ch == b'+' || ch == b'-'
    then more
    else record { rest = ch ∷ r; digit = digit; non_int = non_int }

abbrev pub number_starts : Bytes → Bool
number_starts [] = false
number_starts (ch ∷ _) = ch == b'-' || is_digit ch

-- The cursor behind the number, and `saw_non_int`.
unfoldable pub scan_number : ScanCur → Option (ScanCur × Bool)
unfolding number_loop
scan_number c =
    let n = number_loop c.rest false false in
    if not (number_starts c.rest)
    then none
    else if n.digit
    then some (record c { rest = n.rest }, n.non_int)
    else none

unfoldable pub scan_literal : ScanCur → Bytes → Option ScanCur
scan_literal c lit =
    if ltb (length c.rest) (length lit)
    then none
    else if bytes_eq (take (length lit) c.rest) lit
    then some (record c { rest = drop (length lit) c.rest })
    else none
