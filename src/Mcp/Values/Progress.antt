-- ===== src/Mcp/Values/Progress.antt =====
-- The scanners of values of wrapper/src/mcp.c move forward, whatever their fuel.
use mcpbridge.Base.{
  ℕ, zero, suc, ◌≤◌, ◌<◌, ◌≡◌, refl, inl, inr, codes, Bool, Option-cases, Option, none, some,
  length, arith,
}
use mcpbridge.Mcp.Scan.{
  ScanCur, tail, scan_ws, skip_ws, ScannedString, scan_string, scan_number, scan_literal,
}
use mcpbridge.Mcp.Scan.Progress.{
  length-scan_ws, length-skip_ws, length-tail, tail-shorter, scan_string-shrinks,
  scan_number-shrinks, scan_literal-shrinks,
}
use mcpbridge.Mcp.Values.{
  Lead, null_lead, false_lead, true_lead, string_lead, number_lead, array_lead, object_lead,
  no_lead, lead, Opening, refused, empty, inside, open_container, Separator, comma, closed, neither,
  separator, member_key, string_end, number_end, scan_value, scan_array, scan_elements, scan_object,
  scan_members, value_fuel, scan_any,
}

abbrev pub left : ScanCur → ℕ
left c = length c.rest

abbrev pub end_of : Opening → Option ScanCur
end_of refused = none
end_of (empty c) = some c
end_of (inside c) = some c

pub open-shrinks :
    (opener closer : ℕ) (c c' : ScanCur)
    → end_of (open_container opener closer c) ≡ some c'
    → left c' < left c
unfolding open_container
open-shrinks opener closer c c' h = ground (
  arith,
  h,
  tail-shorter c.rest opener,
  length-skip_ws (tail c.rest),
  length-tail (skip_ws (tail c.rest)),
)

abbrev pub behind : Separator → Option ScanCur
behind (comma c) = some c
behind (closed c) = some c
behind neither = none

pub separator-shrinks :
    (closer : ℕ) (c c' : ScanCur) → behind (separator closer c) ≡ some c' → left c' < left c
unfolding separator
separator-shrinks closer c c' h =
    ground (arith, h, tail-shorter c.rest closer, tail-shorter c.rest b',')

pub member_key-shrinks : (c c' : ScanCur) → member_key c ≡ some c' → left c' < left c
unfolding member_key
member_key-shrinks c c' h = elim (Option-cases (scan_string (scan_ws c))) [
  | inl gone ↦ ground (arith, h, gone)
  | inr (k, e) ↦ ground (
    arith,
    h,
    e,
    scan_string-shrinks (scan_ws c) k e,
    length-skip_ws c.rest,
    length-skip_ws k.cur.rest,
    length-tail (skip_ws k.cur.rest),
    length-skip_ws (tail (skip_ws k.cur.rest)),
  )
]

-- The rounds of `Values`, by what they branch on.
abbrev pub value_by : ℕ → ScanCur → Lead → Option ScanCur
value_by f c l = elim l [
  | null_lead ↦ scan_literal c (codes "null")
  | false_lead ↦ scan_literal c (codes "false")
  | true_lead ↦ scan_literal c (codes "true")
  | string_lead ↦ string_end (scan_string c)
  | number_lead ↦ number_end (scan_number c)
  | array_lead ↦ scan_array f c
  | object_lead ↦ scan_object f c
  | no_lead ↦ none
]

-- A container's body, and the round behind a value, by what reads the rest.
abbrev pub body_by : (ScanCur → Option ScanCur) → Opening → Option ScanCur
body_by more o = elim o [ refused ↦ none | empty c' ↦ some c' | inside c' ↦ more c' ]

abbrev pub next_by : (ScanCur → Option ScanCur) → Separator → Option ScanCur
next_by more s = elim s [ comma next ↦ more next | closed end ↦ some end | neither ↦ none ]

abbrev pub behind_by : ℕ → (ScanCur → Option ScanCur) → Option ScanCur → Option ScanCur
behind_by closer more o = elim o [
  | none ↦ none
  | some c' ↦ next_by more (separator closer (scan_ws c'))
]

-- What a scan leaves is shorter.
abbrev pub Moves : (ScanCur → Option ScanCur) → Type 0
Moves scan = (c c' : ScanCur) → scan c ≡ some c' → left c' < left c

body-Moves :
    (more : ScanCur → Option ScanCur) (o : Opening) (c c' : ScanCur)
    → Moves more
    → ((d : ScanCur) → end_of o ≡ some d → left d < left c)
    → body_by more o ≡ some c'
    → left c' < left c
body-Moves more refused c c' m k h = cc
body-Moves more (empty d) c c' m k h = k c' h
body-Moves more (inside d) c c' m k h = omega (arith, m d c' h, k d refl)

next-Moves :
    (more : ScanCur → Option ScanCur) (s : Separator) (c c' : ScanCur)
    → Moves more
    → ((d : ScanCur) → behind s ≡ some d → left d < left c)
    → next_by more s ≡ some c'
    → left c' < left c
next-Moves more (comma d) c c' m k h = omega (arith, m d c' h, k d refl)
next-Moves more (closed d) c c' m k h = k c' h
next-Moves more neither c c' m k h = cc

behind-Moves :
    (closer : ℕ) (more : ScanCur → Option ScanCur) (o : Option ScanCur) (c c' : ScanCur)
    → Moves more
    → ((d : ScanCur) → o ≡ some d → left d ≤ left c)
    → behind_by closer more o ≡ some c'
    → left c' < left c
behind-Moves closer more none c c' m k h = cc
behind-Moves closer more (some d) c c' m k h = omega (
  arith,
  next-Moves more (separator closer (scan_ws d)) (scan_ws d) c' m
      (separator-shrinks closer (scan_ws d)) h,
  length-scan_ws d,
  k d refl,
)

-- A member behind its key.
abbrev pub member_by :
    (ScanCur → Option ScanCur) → (ScanCur → Option ScanCur) → Option ScanCur → Option ScanCur
member_by value more o = elim o [ none ↦ none | some at ↦ behind_by b'}' more (value at) ]

member-Moves :
    (value more : ScanCur → Option ScanCur) (o : Option ScanCur) (c c' : ScanCur)
    → Moves value
    → Moves more
    → ((d : ScanCur) → o ≡ some d → left d < left c)
    → member_by value more o ≡ some c'
    → left c' < left c
member-Moves value more none c c' v m k h = cc
member-Moves value more (some at) c c' v m k h =
    behind-Moves b'}' more (value at) c c' m (λ d e. omega (arith, v at d e, k at refl)) h

pub record AllMove (f : ℕ) : Type 0 where
  pub value_moves : Moves (scan_value f)
  pub array_moves : Moves (scan_array f)
  pub elements_moves : Moves (scan_elements f)
  pub object_moves : Moves (scan_object f)
  pub members_moves : Moves (scan_members f)

string_end-Moves :
    (c c' : ScanCur) (o : Option ScannedString)
    → ((s : ScannedString) → o ≡ some s → left s.cur < left c)
    → string_end o ≡ some c'
    → left c' < left c
string_end-Moves c c' none k h = cc
string_end-Moves c c' (some s) k h = ground (arith, h, k s refl)

number_end-Moves :
    (c c' : ScanCur) (o : Option (ScanCur × Bool))
    → ((d : ScanCur) (b : Bool) → o ≡ some (d, b) → left d < left c)
    → number_end o ≡ some c'
    → left c' < left c
number_end-Moves c c' none k h = cc
number_end-Moves c c' (some (d, b)) k h = ground (arith, h, k d b refl)

value-Moves :
    (f : ℕ) (l : Lead) (c c' : ScanCur) → AllMove f → value_by f c l ≡ some c' → left c' < left c
value-Moves f null_lead c c' a h = scan_literal-shrinks c c' _ _ h
value-Moves f false_lead c c' a h = scan_literal-shrinks c c' _ _ h
value-Moves f true_lead c c' a h = scan_literal-shrinks c c' _ _ h
value-Moves f string_lead c c' a h = string_end-Moves c c' (scan_string c) (scan_string-shrinks c) h
value-Moves f number_lead c c' a h = number_end-Moves c c' (scan_number c) (scan_number-shrinks c) h
value-Moves f array_lead c c' a h = a.array_moves c c' h
value-Moves f object_lead c c' a h = a.object_moves c c' h
value-Moves f no_lead c c' a h = cc

pub all_move : (f : ℕ) → AllMove f
unfolding scan_value
all_move zero = record {
  value_moves = λ c c' h. cc;
  array_moves = λ c c' h. cc;
  elements_moves = λ c c' h. cc;
  object_moves = λ c c' h. cc;
  members_moves = λ c c' h. cc;
}
all_move (suc f) =
    let a = all_move f in
    record {
      value_moves = λ c c' h. value-Moves f (lead c.rest) c c' a h;
      array_moves = λ c c' h.
          body-Moves (scan_elements f) (open_container b'[' b']' c) c c' a.elements_moves
            (open-shrinks b'[' b']' c) h;
      elements_moves = λ c c' h.
          behind-Moves b']' (scan_elements f) (scan_value f (scan_ws c)) c c' a.elements_moves
            (λ d e. omega (arith, a.value_moves (scan_ws c) d e, length-scan_ws c)) h;
      object_moves = λ c c' h.
          body-Moves (scan_members f) (open_container b'{' b'}' c) c c' a.members_moves
            (open-shrinks b'{' b'}' c) h;
      members_moves = λ c c' h.
          member-Moves (scan_value f) (scan_members f) (member_key c) c c' a.value_moves
            a.members_moves (member_key-shrinks c) h;
    }

-- What a successful scan of a value leaves is shorter than what it found.
pub scan_any-moves : (c c' : ScanCur) → scan_any c ≡ some c' → left c' < left c
unfolding scan_any
scan_any-moves c c' h = (all_move (value_fuel c)).value_moves c c' h
