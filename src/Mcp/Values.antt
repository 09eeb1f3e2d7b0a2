-- ===== src/Mcp/Values.antt =====
-- `scan_value`, `scan_array` and `scan_object` of wrapper/src/mcp.c. A call, and a round of a loop,
-- costs a unit of fuel.
pub mod Progress
pub mod Fuel
use mcpbridge.Base.{
  ℕ, zero, suc, ◌+◌, ◌-◌, ◌*◌, Bytes, codes, Bool, not, ◌||◌, Option, none, some, [], ◌∷◌, leb,
  ◌==◌, if◌then◌else◌, length,
}
use mcpbridge.Mcp.Scan.{
  ScanCur, nesting_limit, advance, peek_is, is_digit, scan_ws, ScannedString, scan_string,
  scan_number, scan_literal,
}

-- The test ladder of `scan_value` on the byte that it sees.
pub data Lead : Type 0 where
  null_lead false_lead true_lead string_lead number_lead array_lead object_lead no_lead : Lead

abbrev pub lead : Bytes → Lead
lead [] = no_lead
lead (ch ∷ _) =
    if ch == b'n'
    then null_lead
    else if ch == b'f'
    then false_lead
    else if ch == b't'
    then true_lead
    else if ch == b'"'
    then string_lead
    else if ch == b'-' || is_digit ch
    then number_lead
    else if ch == b'['
    then array_lead
    else if ch == b'{'
    then object_lead
    else no_lead

-- The head of `scan_array` and `scan_object`, up to their loop.
pub data Opening : Type 0 where
  refused : Opening
  empty inside : ScanCur → Opening

unfoldable pub open_container : ℕ → ℕ → ScanCur → Opening
unfolding scan_ws
open_container opener closer c =
    let entered = scan_ws (advance (record c { depth = c.depth + 1 })) in
    if not (peek_is c opener)
    then refused
    else if leb nesting_limit c.depth
    then refused
    else if peek_is entered closer
    then empty (advance (record entered { depth = entered.depth - 1 }))
    else inside entered

-- What stands behind an element: a comma, the closing bracket, or neither.
pub data Separator : Type 0 where
  comma closed : ScanCur → Separator
  neither : Separator

unfoldable pub separator : ℕ → ScanCur → Separator
separator closer c =
    if peek_is c b','
    then comma (advance c)
    else if peek_is c closer
    then closed (advance (record c { depth = c.depth - 1 }))
    else neither

-- A key with its colon, and the white space around them, in front of a value.
unfoldable pub member_key : ScanCur → Option ScanCur
unfolding scan_ws
member_key c = elim (scan_string (scan_ws c)) [
  | none ↦ none
  | some k ↦ let at = scan_ws k.cur in if peek_is at b':' then some (scan_ws (advance at)) else none
]

abbrev pub string_end : Option ScannedString → Option ScanCur
string_end none = none
string_end (some s) = some s.cur

abbrev pub number_end : Option (ScanCur × Bool) → Option ScanCur
number_end none = none
number_end (some (c, _)) = some c

unfoldable mutual
  unfolding scan_ws

  pub scan_value : ℕ → ScanCur → Option ScanCur
  scan_value zero c = none
  scan_value (suc f) c = elim (lead c.rest) [
    | null_lead ↦ scan_literal c (codes "null")
    | false_lead ↦ scan_literal c (codes "false")
    | true_lead ↦ scan_literal c (codes "true")
    | string_lead ↦ string_end (scan_string c)
    | number_lead ↦ number_end (scan_number c)
    | array_lead ↦ scan_array f c
    | object_lead ↦ scan_object f c
    | no_lead ↦ none
  ]

  pub scan_array : ℕ → ScanCur → Option ScanCur
  scan_array zero c = none
  scan_array (suc f) c = elim (open_container b'[' b']' c) [
    | refused ↦ none
    | empty c' ↦ some c'
    | inside c' ↦ scan_elements f c'
  ]

  pub scan_elements : ℕ → ScanCur → Option ScanCur
  scan_elements zero c = none
  scan_elements (suc f) c = elim (scan_value f (scan_ws c)) [
    | none ↦ none
    | some c' ↦ elim (separator b']' (scan_ws c')) [
      | comma next ↦ scan_elements f next
      | closed end ↦ some end
      | neither ↦ none
    ]
  ]

  pub scan_object : ℕ → ScanCur → Option ScanCur
  scan_object zero c = none
  scan_object (suc f) c = elim (open_container b'{' b'}' c) [
    | refused ↦ none
    | empty c' ↦ some c'
    | inside c' ↦ scan_members f c'
  ]

  pub scan_members : ℕ → ScanCur → Option ScanCur
  scan_members zero c = none
  scan_members (suc f) c = elim (member_key c) [
    | none ↦ none
    | some at ↦ elim (scan_value f at) [
      | none ↦ none
      | some c' ↦ elim (separator b'}' (scan_ws c')) [
        | comma next ↦ scan_members f next
        | closed end ↦ some end
        | neither ↦ none
      ]
    ]
  ]

-- Each byte of a value is reached through at most three calls.
abbrev pub value_fuel : ScanCur → ℕ
value_fuel c = 3 * length c.rest + 3

unfoldable pub scan_any : ScanCur → Option ScanCur
unfolding scan_value member_key
scan_any c = scan_value (value_fuel c) c
