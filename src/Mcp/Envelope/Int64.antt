-- ===== src/Mcp/Envelope/Int64.antt =====
-- What `scan_parse_int64` of wrapper/src/mcp.c reads: the decimal value of the digits, as far as
-- 64 bits hold it.
use mcpbridge.Base.{
  ℕ, zero, suc, ◌+◌, ◌-◌, ◌*◌, ◌/◌, ◌≤◌, ◌<◌, ◌≡◌, refl, ap, ◌∙◌, inl, inr, Bool, true, false,
  Bool-cases, ◌&&◌, not, ltb, ◌==◌, if◌then◌else◌, Bytes, Option, none, some, [], ◌∷◌, arith,
}
use mcpbridge.Base.Int.{ℤ, pos, negsuc}
use mcpbridge.Mcp.Scan.{is_digit}
use mcpbridge.Mcp.Envelope.{
  uint64_max, int64_max, digits_from, starts_with_digit, signed, scan_parse_int64,
}

-- The value of a run of digits behind a number that is read already.
unfoldable pub value_from : ℕ → Bytes → ℕ
value_from acc [] = acc
value_from acc (ch ∷ r) = value_from (acc * 10 + (ch - b'0')) r

abbrev pub all_digits : Bytes → Bool
all_digits [] = true
all_digits (ch ∷ r) = is_digit ch && all_digits r

value_from-grows : (acc : ℕ) (bs : Bytes) → acc ≤ value_from acc bs
unfolding value_from
value_from-grows acc [] = omega arith
value_from-grows acc (ch ∷ r) = omega (arith, value_from-grows (acc * 10 + (ch - b'0')) r)

-- The test for the overflow is exact.
step_fits : (acc d : ℕ) → d ≤ 9 → acc ≤ (uint64_max - d) / 10 → acc * 10 + d ≤ uint64_max
step_fits acc d small fits = omega arith

step_over : (acc d : ℕ) → d ≤ 9 → (uint64_max - d) / 10 < acc → uint64_max < acc * 10 + d
step_over acc d small over = omega arith

abbrev pub bounded : ℕ → ℕ → Option ℕ
bounded limit v = if ltb limit v then none else some v

digit_small : (ch : ℕ) → is_digit ch ≡ true → ch - b'0' ≤ 9
digit_small ch h = ground arith

digits_split :
    (ch : ℕ) (r : Bytes) → all_digits (ch ∷ r) ≡ true → (is_digit ch ≡ true) × (all_digits r ≡ true)
digits_split ch r h = (ground arith, ground arith)

digits_from_lem :
    (acc : ℕ) (bs : Bytes)
    → acc ≤ uint64_max
    → all_digits bs ≡ true
    → digits_from acc bs ≡ bounded uint64_max (value_from acc bs)
unfolding digits_from value_from
digits_from_lem acc [] h a = ground arith
digits_from_lem acc (ch ∷ r) h a =
    let d = ch - b'0' in
    let (digit, digits) = digits_split ch r a in
    elim (Bool-cases (ltb ((uint64_max - d) / 10) acc)) [
      | inl over ↦ ground (
        arith,
        digit,
        over,
        step_over acc d (digit_small ch digit) (ground arith),
        value_from-grows (acc * 10 + d) r,
      )
      | inr fits ↦ ground (
        arith,
        digit,
        fits,
        digits_from_lem (acc * 10 + d) r (step_fits acc d (digit_small ch digit) (ground arith))
            digits,
      )
    ]

-- The number with the given sign and absolute value.
abbrev pub negated : ℕ → ℤ
negated zero = pos 0
negated (suc n) = negsuc n

signed_plain :
    (v : ℕ) → signed false (bounded uint64_max v) ≡ (if ltb int64_max v then none else some (pos v))
signed_plain v = ground arith

signed_minus :
    (v : ℕ)
    → signed true (bounded uint64_max v)
      ≡ (if ltb (int64_max + 1) v then none else some (negated v))
signed_minus zero = refl
signed_minus (suc n) = ground arith

-- The id reader is exact on decimal numbers: for a digit followed by digits, with a minus sign in
-- front or without, it gives the number that they denote if that lies between INT64_MIN and
-- INT64_MAX, and nothing otherwise, also where the digits overflow 64 bits on the way.
pub scan_parse_int64_lem :
    (ch : ℕ) (r : Bytes)
    → all_digits (ch ∷ r) ≡ true
    → (let v = value_from 0 (ch ∷ r) in
        (scan_parse_int64 (ch ∷ r) ≡ (if ltb int64_max v then none else some (pos v)))
        × (scan_parse_int64 (b'-' ∷ ch ∷ r)
            ≡ (if ltb (int64_max + 1) v then none else some (negated v))))
unfolding scan_parse_int64
scan_parse_int64_lem ch r a =
    let (digit, digits) = digits_split ch r a in
    let read = digits_from_lem 0 (ch ∷ r) (omega arith) a in
    let v = value_from 0 (ch ∷ r) in
    let plain : (ch == b'-') ≡ false = ground (arith, digit) in
    (
      ap
            (λ b.
              if not (starts_with_digit (if b then r else ch ∷ r))
              then none
              else signed b (digits_from 0 (if b then r else ch ∷ r)))
            plain
          ∙ ap (λ b. if not b then none else signed false (digits_from 0 (ch ∷ r))) digit
          ∙ ap (signed false) read
          ∙ signed_plain v,
      ap (λ b. if not b then none else signed true (digits_from 0 (ch ∷ r))) digit
          ∙ ap (signed true) read
          ∙ signed_minus v,
    )
