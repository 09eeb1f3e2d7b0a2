-- ===== src/Mcp/Reader/Lines.antt =====
-- The lines of a byte stream, as the framing of wrapper/src/mcp.h defines them, and the laws of
-- `memchr` on a newline that the reader rests on.
use mcpbridge.Base.{
  ℕ, ◌≡◌, refl, inl, inr, Bytes, Bool-cases, Option-cases, none, some, List, [], ◌∷◌, ◌++◌, ◌==◌,
  if◌then◌else◌, arith,
}
use mcpbridge.Mcp.Reader.{split_newline}

-- A byte that is no newline, in front of a text that is split already.
abbrev pub cons_byte : ℕ → List Bytes × Bytes → List Bytes × Bytes
cons_byte b ([], partial) = ([], b ∷ partial)
cons_byte b (l ∷ ls, partial) = ((b ∷ l) ∷ ls, partial)

-- The complete lines of a text, each without its newline, and the bytes behind the last newline.
unfoldable pub split_lines : Bytes → List Bytes × Bytes
split_lines [] = ([], [])
split_lines (b ∷ bs) =
    let s = split_lines bs in if b == b'\n' then ([] ∷ s.0, s.1) else cons_byte b s

-- A successful split cuts the text at a newline.
pub split_newline_parts :
    (bs l rest : Bytes) → split_newline bs ≡ some (l, rest) → bs ≡ l ++ b'\n' ∷ rest
unfolding split_newline
split_newline_parts [] l rest h = cc
split_newline_parts (b ∷ bs) l rest h = elim (Bool-cases (b == b'\n')) [
  | inl e ↦ ground (arith)
  | inr ne ↦ elim (Option-cases (split_newline bs)) [
    | inl gone ↦ ground arith
    | inr ((l', rest'), e) ↦ ground (arith, split_newline_parts bs l' rest' e)
  ]
]

pub split_lines-none : (bs : Bytes) → split_newline bs ≡ none → split_lines bs ≡ ([], bs)
unfolding split_newline split_lines
split_lines-none [] h = refl
split_lines-none (b ∷ bs) h = elim (Option-cases (split_newline bs)) [
  | inl gone ↦ ground (arith, split_lines-none bs gone)
  | inr ((l', rest'), e) ↦ ground arith
]

pub split_lines-some :
    (bs l rest : Bytes)
    → split_newline bs ≡ some (l, rest)
    → split_lines bs ≡ (l ∷ (split_lines rest).0, (split_lines rest).1)
unfolding split_newline split_lines
split_lines-some [] l rest h = cc
split_lines-some (b ∷ bs) l rest h = elim (Bool-cases (b == b'\n')) [
  | inl e ↦ ground (arith)
  | inr ne ↦ elim (Option-cases (split_newline bs)) [
    | inl gone ↦ ground arith
    | inr ((l', rest'), e) ↦ ground (arith, split_lines-some bs l' rest' e)
  ]
]

abbrev pub NoNewline : Bytes → Type 0
NoNewline bs = split_newline bs ≡ none

-- What stands behind the last newline holds none.
pub split_lines-NoNewline : (bs : Bytes) → NoNewline (split_lines bs).1
unfolding split_newline split_lines
split_lines-NoNewline [] = refl
split_lines-NoNewline (b ∷ bs) = ground (arith, split_lines-NoNewline bs)
