-- ===== src/Http/Sse/Sizes.antt =====
-- Sizes and heads of the lines of an event stream, for the parser of wrapper/src/transport_http.c.
use mcpbridge.Base.{
  ℕ, ◌+◌, ◌≤◌, ◌≡◌, refl, Bytes, bytes_eq, false, some, List, [], ◌∷◌, ◌++◌, append-nil, ◌==◌,
  length, arith,
}
use mcpbridge.Mcp.Reader.{split_newline}
use mcpbridge.Mcp.Reader.Lines.{NoNewline}
use mcpbridge.Http.Sse.{joint}
use mcpbridge.Http.Sse.Events.{without_cr, without_blank, data_value, events}

pub length-without_cr : (l : Bytes) → length (without_cr l) ≤ length l
unfolding without_cr
length-without_cr [] = omega arith
length-without_cr (b ∷ []) = ground arith
length-without_cr (b ∷ c ∷ r) = omega (arith, length-without_cr (c ∷ r))

pub length-without_blank : (l : Bytes) → length (without_blank l) ≤ length l
length-without_blank [] = omega arith
length-without_blank (b ∷ r) = ground arith

pub length-data_value : (l v : Bytes) → data_value l ≡ some v → length v + 4 ≤ length l
unfolding data_value bytes_eq
length-data_value [] v h = ground (arith, h)
length-data_value (a ∷ []) v h = ground (arith, h)
length-data_value (a ∷ b ∷ []) v h = ground (arith, h)
length-data_value (a ∷ b ∷ c ∷ []) v h = ground (arith, h)
length-data_value (a ∷ b ∷ c ∷ d ∷ []) v h = ground (arith, h)
length-data_value (a ∷ b ∷ c ∷ d ∷ e ∷ r) v h = ground (arith, h, length-without_blank r)

pub data_value-head : (b : ℕ) (r v : Bytes) → data_value (b ∷ r) ≡ some v → (b == b':') ≡ false
unfolding data_value bytes_eq
data_value-head b [] v h = ground (arith, h)
data_value-head b (c ∷ []) v h = ground (arith, h)
data_value-head b (c ∷ d ∷ []) v h = ground (arith, h)
data_value-head b (c ∷ d ∷ e ∷ []) v h = ground (arith, h)
data_value-head b (c ∷ d ∷ e ∷ f ∷ r) v h = ground (arith, h)

pub length-joint : (t : Bytes) → length (joint t) ≤ 1
length-joint [] = omega arith
length-joint (_ ∷ _) = omega arith

pub split_newline-front :
    (l rest : Bytes) → NoNewline l → split_newline (l ++ b'\n' ∷ rest) ≡ some (l, rest)
unfolding split_newline
split_newline-front [] rest h = refl
split_newline-front (b ∷ l) rest h = ground (arith, split_newline-front l rest)

pub NoNewline-snoc :
    (l : Bytes) (b : ℕ) → NoNewline l → (b == b'\n') ≡ false → NoNewline (l ++ b ∷ [])
unfolding split_newline
NoNewline-snoc [] b h e = ground (arith, e)
NoNewline-snoc (c ∷ l) b h e = ground (arith, NoNewline-snoc l b)

pub events-cons :
    (text l : Bytes) (ls : List Bytes)
    → events text (l ∷ ls) ≡ (
      (events text (l ∷ [])).0 ++ (events (events text (l ∷ [])).1 ls).0,
      (events (events text (l ∷ [])).1 ls).1,
    )
unfolding events
events-cons text [] ls = rw append-nil refl
events-cons text (b ∷ l) ls = refl
