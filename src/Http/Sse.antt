-- ===== src/Http/Sse.antt =====
-- The SSE parser of wrapper/src/transport_http.c. `event_data` is the buffer `data`; the callback
-- changes a value of a type `C`, which stands for what its context points to.
pub mod Events
pub mod Sizes
pub mod Handling
pub mod Pieces
pub mod Refine
pub mod Render
use mcpbridge.Base.{
  ℕ, ◌+◌, Bytes, codes, bytes_eq, Bool, true, false, Option, none, some, List, [], ◌∷◌, ◌++◌, ltb,
  ◌==◌, if◌then◌else◌, length,
}
use mcpbridge.CLib.{cut_at}
use mcpbridge.Http.Buffer.{body_buf_grow}

pub record Sse : Type 0 where
  pub event_data : Bytes
  pub data_cap : ℕ
  pub line : Bytes
  pub line_cap : ℕ
  pub overflow : Bool

unfoldable pub sse_parser_init : Sse
sse_parser_init = record {
  event_data = [];
  data_cap = 0;
  line = [];
  line_cap = 0;
  overflow = false;
}

-- A line without its last byte, if that is a CR.
unfoldable pub strip_cr : Bytes → Bytes
strip_cr [] = []
strip_cr (b ∷ []) = if b == b'\r' then [] else b ∷ []
strip_cr (b ∷ r) = b ∷ strip_cr r

abbrev pub strip_blank : Bytes → Bytes
strip_blank [] = []
strip_blank (b ∷ r) = if b == b' ' then r else b ∷ r

-- The name and the value of a field.
abbrev pub field_of : Bytes → Bytes × Bytes
field_of line = elim (cut_at b':' line) [
  | none ↦ (line, [])
  | some (name, value) ↦ (name, strip_blank value)
]

abbrev pub joint : Bytes → Bytes
joint [] = []
joint (_ ∷ _) = b'\n' ∷ []

unfoldable pub append_data : Sse → Bytes → Sse
append_data s value =
    let longer = s.event_data ++ (joint s.event_data ++ value) in
    elim (body_buf_grow s.data_cap (length longer)) [
      | none ↦ record s { overflow = true }
      | some room ↦ record s { event_data = longer; data_cap = room }
    ]

module _ {C : Type 0} (on_msg : C → Bytes → C) where
  -- The blank line at the end of an event.
  abbrev emit : Sse → C → Sse × C
  emit s c =
      if ltb 0 (length s.event_data)
      then (record s { event_data = [] }, on_msg c s.event_data)
      else (s, c)

  unfoldable pub sse_handle_line : Sse → C → Bytes → Sse × C
  unfolding append_data
  sse_handle_line s c [] = emit s c
  sse_handle_line s c (b ∷ r) =
      let (name, value) = field_of (b ∷ r) in
      if b == b':'
      then (s, c)
      else if bytes_eq name (codes "data")
      then (append_data s value, c)
      else (s, c)

  -- One round of the loop.
  unfoldable pub sse_byte : Sse → C → ℕ → Sse × C
  unfolding sse_handle_line
  sse_byte s c b =
      let (s', c') = sse_handle_line s c (strip_cr s.line) in
      if b == b'\n'
      then (record s' { line = [] }, c')
      else elim (body_buf_grow s.line_cap (length s.line + 1)) [
        | none ↦ (record s { overflow = true }, c)
        | some room ↦ (record s { line = s.line ++ b ∷ []; line_cap = room }, c)
      ]

  unfoldable pub sse_loop : Sse → C → Bytes → Sse × C
  unfolding sse_byte
  sse_loop s c [] = (s, c)
  sse_loop s c (b ∷ bs) =
      let (s', c') = sse_byte s c b in
      let more = sse_loop s' c' bs in if s'.overflow then (s', c') else more

  unfoldable pub sse_parser_feed : Sse → C → Bytes → Sse × C
  unfolding sse_loop
  sse_parser_feed s c bytes = if s.overflow then (s, c) else sse_loop s c bytes
