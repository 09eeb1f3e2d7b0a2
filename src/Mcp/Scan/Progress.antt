-- ===== src/Mcp/Scan/Progress.antt =====
-- The scanners of wrapper/src/mcp.c move forward: what a scan leaves is shorter than what it found.
use mcpbridge.Base.{
  ℕ, zero, suc, ◌≤◌, ◌<◌, ◌≡◌, inl, inr, Bytes, Bool, true, false, Option-cases, some, [], ◌∷◌,
  ◌==◌, ◌||◌, length, drop, length-drop, arith,
}
use mcpbridge.Mcp.Scan.{
  ScanCur, tail, head_is, is_digit, skip_ws, scan_ws, low_surrogate, unicode_escape, scan_hex_value,
  scan_escape, string_loop, ScannedString, scan_string, number_starts, number_loop, scan_number,
  scan_literal,
}

pub length-tail : (bs : Bytes) → length (tail bs) ≤ length bs
length-tail [] = omega arith
length-tail (x ∷ r) = omega arith

pub length-skip_ws : (bs : Bytes) → length (skip_ws bs) ≤ length bs
unfolding skip_ws
length-skip_ws [] = omega arith
length-skip_ws (x ∷ r) = ground (arith, length-skip_ws r)

pub length-scan_ws : (c : ScanCur) → length (scan_ws c).rest ≤ length c.rest
unfolding scan_ws
length-scan_ws c = length-skip_ws c.rest

low_surrogate-shrinks : (bs r : Bytes) → low_surrogate bs ≡ some r → length r ≤ length bs
unfolding low_surrogate
low_surrogate-shrinks bs r h = elim (Option-cases (scan_hex_value (drop 2 bs))) [
  | inl gone ↦ ground (arith, gone, h)
  | inr (lo, e) ↦ ground (arith, e, h, length-drop 6 bs)
]

unicode_escape-shrinks : (bs r : Bytes) → unicode_escape bs ≡ some r → length r ≤ length bs
unfolding unicode_escape
unicode_escape-shrinks bs r h = elim (Option-cases (scan_hex_value bs)) [
  | inl gone ↦ ground (arith, gone, h)
  | inr (cp, e) ↦ ground (arith, e, h, length-drop 4 bs, low_surrogate-shrinks (drop 4 bs) r)
]

scan_escape-shrinks : (bs r : Bytes) → scan_escape bs ≡ some r → length r ≤ length bs
unfolding scan_escape
scan_escape-shrinks [] r h = ground (arith, h)
scan_escape-shrinks (e ∷ bs) r h = ground (arith, h, unicode_escape-shrinks bs r)

string_loop-shrinks :
    (f : ℕ) (bs : Bytes) (esc : Bool) (at : Bytes) (e : Bool)
    → string_loop f bs esc ≡ some (at, e)
    → length at ≤ length bs
unfolding string_loop
string_loop-shrinks zero bs esc at e h = ground (arith, h)
string_loop-shrinks (suc f) [] esc at e h = ground (arith, h)
string_loop-shrinks (suc f) (ch ∷ r) esc at e h = elim (Option-cases (scan_escape r)) [
  | inl gone ↦ ground (arith, h, gone, string_loop-shrinks f r esc at e)
  | inr (r', g) ↦ ground (
    arith,
    h,
    g,
    string_loop-shrinks f r esc at e,
    string_loop-shrinks f r' true at e,
    scan_escape-shrinks r r' g,
  )
]

pub tail-shorter : (bs : Bytes) (b : ℕ) → head_is bs b ≡ true → length (tail bs) < length bs
tail-shorter [] b h = ground (arith, h)
tail-shorter (x ∷ r) b h = omega arith

pub scan_string-shrinks :
    (c : ScanCur) (s : ScannedString) → scan_string c ≡ some s → length s.cur.rest < length c.rest
unfolding scan_string
scan_string-shrinks c s h =
    let start = tail c.rest in
    elim (Option-cases (string_loop (suc (length start)) start false)) [
      | inl gone ↦ ground (arith, h, gone)
      | inr ((at, esc), g) ↦ ground (
        arith,
        h,
        g,
        length-tail at,
        tail-shorter c.rest b'"',
        string_loop-shrinks (suc (length start)) start false at esc g,
      )
    ]

number_loop-shrinks : (bs : Bytes) (d n : Bool) → length (number_loop bs d n).rest ≤ length bs
unfolding number_loop
number_loop-shrinks [] d n = omega arith
number_loop-shrinks (ch ∷ r) d n =
    let marks = ch == b'.' || ch == b'e' || ch == b'E' in
    ground (arith, number_loop-shrinks r (d || is_digit ch) (n || marks))

number_loop-starts :
    (bs : Bytes) → number_starts bs ≡ true → length (number_loop bs false false).rest < length bs
unfolding number_loop
number_loop-starts [] h = ground (arith, h)
number_loop-starts (ch ∷ r) h =
    let marks = ch == b'.' || ch == b'e' || ch == b'E' in
    ground (arith, h, number_loop-shrinks r (false || is_digit ch) (false || marks))

pub scan_number-shrinks :
    (c c' : ScanCur) (b : Bool) → scan_number c ≡ some (c', b) → length c'.rest < length c.rest
unfolding scan_number
scan_number-shrinks c c' b h = ground (arith, h, number_loop-starts c.rest)

pub scan_literal-shrinks :
    (c c' : ScanCur) (b : ℕ) (lit : Bytes)
    → scan_literal c (b ∷ lit) ≡ some c'
    → length c'.rest < length c.rest
unfolding scan_literal
scan_literal-shrinks c c' b lit h = ground (arith, h, length-drop (suc (length lit)) c.rest)
