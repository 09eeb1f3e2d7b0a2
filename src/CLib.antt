-- ===== src/CLib.antt =====
-- The functions of the C library that wrapper/src applies to text, in the C locale. A C string is
-- the list of its bytes, without the NUL that ends it.
use mcpbridge.Base.{
  ℕ, zero, suc, ◌+◌, ◌-◌, ◌*◌, ◌/◌, ◌%◌, Bytes, bytes_eq, Bool, true, false, ◌&&◌, ◌||◌, Option,
  none, some, [], ◌∷◌, leb, ltb, ◌==◌, if◌then◌else◌, length, take,
}
use mcpbridge.Base.Int.{ℤ, pos, negsuc}

abbrev pub is_space : ℕ → Bool
is_space ch = ch == b' ' || leb 9 ch && leb ch 13

-- The bytes in front of the first NUL.
unfoldable pub c_string : Bytes → Bytes
c_string [] = []
c_string (ch ∷ r) = if ch == 0 then [] else ch ∷ c_string r

-- `strcmp(a, b) == 0`
abbrev pub strcmp_eq : Bytes → Bytes → Bool
strcmp_eq a b = bytes_eq (c_string a) (c_string b)

-- `strchr`, for a character that is not NUL: what stands in front of it and behind it.
unfoldable pub cut_at : ℕ → Bytes → Option (Bytes × Bytes)
cut_at b [] = none
cut_at b (ch ∷ r) =
    if ch == b
    then some ([], r)
    else elim (cut_at b r) [ none ↦ none | some (front, back) ↦ some (ch ∷ front, back) ]

abbrev pub starts_with : Bytes → Bytes → Bool
starts_with p s = bytes_eq (take (length p) s) p

-- `strstr(s, p) != NULL`
unfoldable pub contains : Bytes → Bytes → Bool
contains p [] = starts_with p []
contains p (ch ∷ r) = starts_with p (ch ∷ r) || contains p r

abbrev pub to_lower : ℕ → ℕ
to_lower ch = if leb b'A' ch && leb ch b'Z' then ch + 32 else ch

-- The value of a digit of base 10 or 16.
abbrev pub digit_value : ℕ → ℕ → Option ℕ
digit_value base ch =
    if leb b'0' ch && leb ch b'9'
    then some (ch - b'0')
    else if base == 10
    then none
    else if leb b'a' ch && leb ch b'f'
    then some (ch - b'a' + 10)
    else if leb b'A' ch && leb ch b'F'
    then some (ch - b'A' + 10)
    else none

unfoldable pub skip_space : Bytes → Bytes
skip_space [] = []
skip_space (ch ∷ r) = if is_space ch then skip_space r else ch ∷ r

-- The value of the digits in front, on top of `acc`, and the text behind them.
unfoldable pub read_digits : ℕ → ℕ → Bytes → ℕ × Bytes
read_digits base acc [] = (acc, [])
read_digits base acc (ch ∷ r) = elim (digit_value base ch) [
  | none ↦ (acc, ch ∷ r)
  | some d ↦ read_digits base (acc * base + d) r
]

abbrev pub starts_with_digit : ℕ → Bytes → Bool
starts_with_digit base [] = false
starts_with_digit base (ch ∷ _) = elim (digit_value base ch) [ none ↦ false | some _ ↦ true ]

abbrev sign_of : Bytes → Bool × Bytes
sign_of [] = (false, [])
sign_of (ch ∷ r) =
    if ch == b'-' then (true, r) else if ch == b'+' then (false, r) else (false, ch ∷ r)

-- "0x" in front of a hexadecimal digit.
abbrev skip_0x : ℕ → Bytes → Bytes
skip_0x base (z ∷ x ∷ h ∷ r) =
    if base == 16 && z == b'0' && (x == b'x' || x == b'X') && starts_with_digit 16 (h ∷ [])
    then h ∷ r
    else z ∷ x ∷ h ∷ r
skip_0x base s = s

abbrev pub long_max : ℕ
long_max = 0x7fff_ffff_ffff_ffff

-- The number with its sign, held at LONG_MIN and LONG_MAX.
abbrev clamped : Bool → ℕ → ℤ
clamped false n = if ltb long_max n then pos long_max else pos n
clamped true zero = pos 0
clamped true (suc n) = if ltb long_max n then negsuc long_max else negsuc n

-- `strtol` for the bases 10 and 16: the value, and the text that `endp` points to; the whole text if
-- there are no digits.
unfoldable pub strtol : ℕ → Bytes → ℤ × Option Bytes
unfolding skip_space read_digits
strtol base s =
    let (neg, unsigned) = sign_of (skip_space s) in
    let digits = skip_0x base unsigned in
    let (n, rest) = read_digits base 0 digits in
    if starts_with_digit base digits then (clamped neg n, some rest) else (pos 0, none)

-- The digits in front of `acc`; as many rounds as the number and one more are enough.
unfoldable pub decimal_loop : ℕ → ℕ → Bytes → Bytes
decimal_loop zero n acc = acc
decimal_loop (suc f) n acc =
    let digit = b'0' + n % 10 in
    let more = decimal_loop f (n / 10) (digit ∷ acc) in if ltb n 10 then digit ∷ acc else more

-- `%zu`, and `%d` of a number that is not negative.
unfoldable pub decimal : ℕ → Bytes
unfolding decimal_loop
decimal n = decimal_loop (suc n) n []
