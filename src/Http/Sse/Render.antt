-- ===== src/Http/Sse/Render.antt =====
-- Messages as a server writes them into an event stream, and as the SSE parser of
-- wrapper/src/transport_http.c reads them back.
use mathlib.Core.List.{map}
use mcpbridge.Base.{
  ◌≤◌, ◌≡◌, ◌≢◌, refl, ap, ◌∙◌, Bytes, codes, bytes_eq, List, [], ◌∷◌, ◌++◌, append_assoc, length,
  flatten,
}
use mcpbridge.Mcp.Reader.{split_newline}
use mcpbridge.Mcp.Reader.Lines.{split_lines, split_lines-some, NoNewline, cons_byte}
use mcpbridge.Http.Buffer.{body_max}
use mcpbridge.Http.Sse.{sse_parser_init}
use mcpbridge.Http.Sse.Events.{without_cr, data_value, with_line, finished, events}
use mcpbridge.Http.Sse.Handling.{deliver}
use mcpbridge.Http.Sse.Pieces.{sse_feeds}
use mcpbridge.Http.Sse.Refine.{sse_feeds-events}
use mcpbridge.Http.Sse.Sizes.{split_newline-front}

-- One event for one message.
unfoldable pub render : Bytes → Bytes
render m = codes "data: " ++ (m ++ codes "\n\n")

unfoldable pub render_all : List Bytes → Bytes
unfolding render
render_all [] = []
render_all (m ∷ ms) = render m ++ render_all ms

-- Text on one line: not empty, without a newline and without a CR at its end.
pub record IsOneLine (m : Bytes) : Type 0 where
  pub not_empty : m ≢ []
  pub no_newline : NoNewline m
  pub no_cr : without_cr m ≡ m

abbrev pub AllOneLine : List Bytes → Type 0
AllOneLine [] = Unit {0}
AllOneLine (m ∷ ms) = IsOneLine m × AllOneLine ms

rendered_lines :
    (m rest : Bytes)
    → IsOneLine m
    → split_lines (render m ++ rest)
      ≡ ((codes "data: " ++ m) ∷ [] ∷ (split_lines rest).0, (split_lines rest).1)
unfolding render split_newline split_lines
rendered_lines m rest v =
    ap
      (λ s.
        cons_byte b'd'
          (cons_byte b'a' (cons_byte b't' (cons_byte b'a' (cons_byte b':' (cons_byte b' ' s))))))
      (ap split_lines (append_assoc m (codes "\n\n") rest)
        ∙ split_lines-some (m ++ b'\n' ∷ b'\n' ∷ rest) m (b'\n' ∷ rest)
            (split_newline-front m (b'\n' ∷ rest) v.no_newline))

event_read :
    (m : Bytes) (ls : List Bytes)
    → IsOneLine m
    → events [] (map without_cr ((codes "data: " ++ m) ∷ [] ∷ ls))
      ≡ (m ∷ (events [] (map without_cr ls)).0, (events [] (map without_cr ls)).1)
unfolding events with_line data_value bytes_eq without_cr
event_read [] ls v = absurd (v.not_empty refl)
event_read (x ∷ r) ls v =
    ap (λ m. (finished m ++ (events [] (map without_cr ls)).0, (events [] (map without_cr ls)).1))
      v.no_cr

all_read :
    (ms : List Bytes)
    → AllOneLine ms
    → events [] (map without_cr (split_lines (render_all ms)).0) ≡ (ms, [])
unfolding render_all split_lines events
all_read [] v = refl
all_read (m ∷ ms) (v, vs) =
    ap (λ s. events [] (map without_cr s.0)) (rendered_lines m (render_all ms) v)
    ∙ event_read m (split_lines (render_all ms)).0 v
    ∙ ap (λ e. (m ∷ e.0, e.1)) (all_read ms vs)

-- What a server writes as events comes out as messages: for messages on one line each, not empty and
-- without a CR at their ends, whose events take at most HTTP_BODY_MAX bytes together, and for any cut
-- of these bytes into pieces, the parser delivers the messages, in order, and nothing else.
pub sse_feeds-render :
    {C : Type 0} (on_msg : C → Bytes → C) (c : C) (ms ps : List Bytes)
    → AllOneLine ms
    → flatten ps ≡ render_all ms
    → length (render_all ms) ≤ body_max
    → (sse_feeds on_msg sse_parser_init c ps).1 ≡ deliver on_msg c ms
sse_feeds-render on_msg c ms ps v e h =
    (sse_feeds-events on_msg c ps (rw e h)).0
    ∙ ap (λ b. deliver on_msg c (events [] (map without_cr (split_lines b).0)).0) e
    ∙ ap (λ s. deliver on_msg c s.0) (all_read ms v)
