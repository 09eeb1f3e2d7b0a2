-- ===== src/Http/Sse/Events.antt =====
-- The events of a stream of lines, written down without the parser of wrapper/src/transport_http.c: a
-- line loses one CR at its end; the values of `data` fields, each without one leading blank, are put
-- together up to a blank line; comments and the other fields are dropped, and so is an event with no
-- text. A newline stands between a text that is not empty and the value that follows it; where the
-- text so far is empty there is none, though the event-stream format would have one behind an empty
-- first value.
use mcpbridge.Base.{
  ℕ, ◌==◌, ◌≡◌, refl, ap, Bytes, codes, bytes_eq, Option, none, some, List, [], ◌∷◌, ◌++◌,
  if◌then◌else◌, drop, arith,
}
use mcpbridge.CLib.{starts_with, cut_at}
use mcpbridge.Http.Sse.{strip_cr, joint, field_of}

-- A line without one CR at its end.
unfoldable pub without_cr : Bytes → Bytes
without_cr [] = []
without_cr (b ∷ c ∷ r) = b ∷ without_cr (c ∷ r)
without_cr (b ∷ []) = if b == 13 then [] else b ∷ []

-- A value without one blank in front.
abbrev pub without_blank : Bytes → Bytes
without_blank [] = []
without_blank (b ∷ r) = if b == 32 then r else b ∷ r

-- A text and the value behind it.
abbrev pub joined : Bytes → Bytes → Bytes
joined [] value = value
joined (b ∷ text) value = (b ∷ text) ++ 10 ∷ value

-- The value of a `data` field: the field name alone, or with a colon behind it.
unfoldable pub data_value : Bytes → Option Bytes
data_value line =
    if bytes_eq line (codes "data")
    then some []
    else if starts_with (codes "data:") line
    then some (without_blank (drop 5 line))
    else none

-- What a line makes of the text so far, if it is not the blank one.
unfoldable pub with_line : Bytes → Bytes → Bytes
unfolding data_value
with_line text line = elim (data_value line) [ none ↦ text | some value ↦ joined text value ]

-- The text of an event that ends here, if there is any.
abbrev pub finished : Bytes → List Bytes
finished [] = []
finished (b ∷ r) = (b ∷ r) ∷ []

-- The events that the lines complete, from the text so far, and the text behind the last.
unfoldable pub events : Bytes → List Bytes → List Bytes × Bytes
unfolding with_line
events text [] = ([], text)
events text ([] ∷ ls) = let (more, left) = events [] ls in (finished text ++ more, left)
events text ((b ∷ l) ∷ ls) = events (with_line text (b ∷ l)) ls

-- The code looks for the first colon, the format for the prefix.
pub field-data_value :
    (b : ℕ) (r : Bytes)
    → data_value (b ∷ r)
      ≡ (if bytes_eq (field_of (b ∷ r)).0 (codes "data") then some (field_of (b ∷ r)).1 else none)
unfolding data_value cut_at bytes_eq
field-data_value b [] = ground arith
field-data_value b (c ∷ []) = ground arith
field-data_value b (c ∷ d ∷ []) = ground arith
field-data_value b (c ∷ d ∷ e ∷ []) = ground arith
field-data_value b (c ∷ d ∷ e ∷ f ∷ r) = ground arith

pub strip_cr-without_cr : (l : Bytes) → strip_cr l ≡ without_cr l
unfolding strip_cr without_cr
strip_cr-without_cr [] = refl
strip_cr-without_cr (b ∷ []) = refl
strip_cr-without_cr (b ∷ c ∷ r) = ap (λ l. b ∷ l) (strip_cr-without_cr (c ∷ r))

pub joint-joined : (text value : Bytes) → text ++ (joint text ++ value) ≡ joined text value
joint-joined [] value = refl
joint-joined (b ∷ text) value = refl
