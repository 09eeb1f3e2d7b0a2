-- ===== src/Http/Sse/Refine.antt =====
-- The SSE parser of wrapper/src/transport_http.c against the events of the lines that it is fed.
use mathlib.Core.Path.{subst}
use mathlib.Core.List.{map}
use mcpbridge.Base.{
  ℕ, ◌+◌, ◌≤◌, ◌≡◌, refl, ap, sym, ◌∙◌, inl, inr, Bool-cases, Bytes, true, false, List, [], ◌∷◌,
  ◌++◌, append_assoc, append-nil, ◌==◌, length, flatten, length-append, arith, ==_iff,
}
use mcpbridge.Mcp.Reader.{split_newline}
use mcpbridge.Mcp.Reader.Lines.{split_lines, split_lines-none, split_lines-some, NoNewline}
use mcpbridge.Http.Buffer.{body_max, body_buf_grow-fits}
use mcpbridge.Http.Sse.{Sse, sse_parser_init, sse_byte, sse_loop, sse_parser_feed}
use mcpbridge.Http.Sse.Events.{without_cr, events, strip_cr-without_cr}
use mcpbridge.Http.Sse.Sizes.{length-without_cr, split_newline-front, NoNewline-snoc, events-cons}
use mcpbridge.Http.Sse.Handling.{IsRoomy, deliver, deliver-append, handle_line}
use mcpbridge.Http.Sse.Pieces.{sse_feeds, feeds_whole}

-- What a parser makes of some bytes: the events and the rest of the lines that it has then seen.
abbrev seen : Sse → Bytes → List Bytes × Bytes
seen s bytes = events s.event_data (map without_cr (split_lines (s.line ++ bytes)).0)

module _ {C : Type 0} (on_msg : C → Bytes → C) where
  record Fed (s : Sse) (c : C) (bytes : Bytes) (result : Sse × C) : Type 0 where
    delivered : result.1 ≡ deliver on_msg c (seen s bytes).0
    text_left : result.0.event_data ≡ (seen s bytes).1
    line_left : result.0.line ≡ (split_lines (s.line ++ bytes)).1
    stays_roomy : IsRoomy result.0

  -- The rest of the loop, on the state that a round leaves.
  abbrev Rest : Bytes → Type 0
  Rest bs =
      (s : Sse) (c : C)
      → IsRoomy s
      → NoNewline s.line
      → length s.event_data + length s.line + length bs ≤ body_max
      → Fed s c bs (sse_loop on_msg s c bs)

  newline-Fed :
      (s : Sse) (c : C) (b : ℕ) (bs : Bytes)
      → IsRoomy s
      → NoNewline s.line
      → length s.event_data + length s.line + length (b ∷ bs) ≤ body_max
      → (b == b'\n') ≡ true
      → Rest bs
      → Fed s c (b ∷ bs) (sse_loop on_msg s c (b ∷ bs))
  unfolding sse_loop sse_byte split_newline
  newline-Fed s c b bs v n h end rest =
      let l = without_cr s.line in
      let one = handle_line on_msg s c l v (omega (arith, h, length-without_cr s.line)) in
      let s1 = record one.after { line = [] } in
      let first = events s.event_data (l ∷ []) in
      let roomy : IsRoomy s1 = record {
        data_room = one.roomy.data_room;
        line_room = one.roomy.line_room;
        not_over = one.roomy.not_over;
      } in
      let ih =
        rest s1 (deliver on_msg c first.0) roomy refl
          (omega (arith, h, one.grown, length-without_cr s.line)) in
      let step : sse_loop on_msg s c (b ∷ bs) ≡ sse_loop on_msg s1 (deliver on_msg c first.0) bs =
        ground (arith, end, strip_cr-without_cr s.line, one.handled, one.roomy.not_over) in
      let cut : split_lines (s.line ++ b ∷ bs) ≡ (s.line ∷ (split_lines bs).0, (split_lines bs).1) =
        ap (λ x. split_lines (s.line ++ x ∷ bs)) ((==_iff b b'\n').0 end)
        ∙ split_lines-some (s.line ++ b'\n' ∷ bs) s.line bs (split_newline-front s.line bs n) in
      let parts : seen s (b ∷ bs) ≡ (
        first.0 ++ (events first.1 (map without_cr (split_lines bs).0)).0,
        (events first.1 (map without_cr (split_lines bs).0)).1,
      ) =
        ap (λ p. events s.event_data (map without_cr p.0)) cut
        ∙ events-cons s.event_data l (map without_cr (split_lines bs).0) in
      let same : seen s1 bs ≡ events first.1 (map without_cr (split_lines bs).0) =
        ap (λ x. events x (map without_cr (split_lines bs).0)) one.text_kept in
      subst (Fed s c (b ∷ bs)) (sym step) (record {
        delivered =
            ih.delivered
            ∙ ap (λ x. deliver on_msg (deliver on_msg c first.0) x.0) same
            ∙ sym (
                deliver-append on_msg c first.0
                  (events first.1 (map without_cr (split_lines bs).0)).0)
            ∙ ap (λ x. deliver on_msg c x.0) (sym parts);
        text_left = ih.text_left ∙ ap (λ x. x.1) same ∙ ap (λ x. x.1) (sym parts);
        line_left = ih.line_left ∙ ap (λ x. x.1) (sym cut);
        stays_roomy = ih.stays_roomy;
      })

  byte-Fed :
      (s : Sse) (c : C) (b : ℕ) (bs : Bytes)
      → IsRoomy s
      → NoNewline s.line
      → length s.event_data + length s.line + length (b ∷ bs) ≤ body_max
      → (b == b'\n') ≡ false
      → Rest bs
      → Fed s c (b ∷ bs) (sse_loop on_msg s c (b ∷ bs))
  unfolding sse_loop sse_byte
  byte-Fed s c b bs v n h inside rest =
      let (room, grows, covers, more, capped) =
        body_buf_grow-fits s.line_cap (length s.line + 1) v.line_room (omega (arith, h)) in
      let s1 = record s { line = s.line ++ b ∷ []; line_cap = room } in
      let roomy : IsRoomy s1 = record {
        data_room = v.data_room;
        line_room = capped;
        not_over = v.not_over;
      } in
      let ih =
        rest s1 c roomy (NoNewline-snoc s.line b n inside)
          (omega (arith, h, length-append s.line (b ∷ []))) in
      let step : sse_loop on_msg s c (b ∷ bs) ≡ sse_loop on_msg s1 c bs =
        ground (arith, inside, grows, v.not_over) in
      let same : (s.line ++ b ∷ []) ++ bs ≡ s.line ++ b ∷ bs = append_assoc s.line (b ∷ []) bs in
      subst (Fed s c (b ∷ bs)) (sym step) (record {
        delivered =
            ih.delivered
            ∙ ap (λ x. deliver on_msg c (events s.event_data (map without_cr (split_lines x).0)).0)
                same;
        text_left =
            ih.text_left
            ∙ ap (λ x. (events s.event_data (map without_cr (split_lines x).0)).1) same;
        line_left = ih.line_left ∙ ap (λ x. (split_lines x).1) same;
        stays_roomy = ih.stays_roomy;
      })

  loop-Fed :
      (s : Sse) (c : C) (bytes : Bytes)
      → IsRoomy s
      → NoNewline s.line
      → length s.event_data + length s.line + length bytes ≤ body_max
      → Fed s c bytes (sse_loop on_msg s c bytes)
  unfolding sse_loop events
  loop-Fed s c [] v n h =
      let alone : split_lines (s.line ++ []) ≡ ([], s.line) =
        ap split_lines (append-nil s.line) ∙ split_lines-none s.line n in
      record {
        delivered =
            ap (λ p. deliver on_msg c (events s.event_data (map without_cr p.0)).0) (sym alone);
        text_left = ap (λ p. (events s.event_data (map without_cr p.0)).1) (sym alone);
        line_left = ap (λ p. p.1) (sym alone);
        stays_roomy = v;
      }
  loop-Fed s c (b ∷ bs) v n h = elim (Bool-cases (b == b'\n')) [
    | inl end ↦ newline-Fed s c b bs v n h end (λ s' c' v' n' h'. loop-Fed s' c' bs v' n' h')
    | inr inside ↦ byte-Fed s c b bs v n h inside (λ s' c' v' n' h'. loop-Fed s' c' bs v' n' h')
  ]

  -- The parser with its buffers delivers the events of its bytes: a body of at most HTTP_BODY_MAX bytes,
  -- in whatever pieces it arrives, delivers exactly the events of its complete lines, in order, and
  -- nothing overflows. A line loses one CR at its end; the values of the data fields of an event,
  -- without one leading blank each, are put together with a newline in front of a value where the
  -- text so far is not empty; an event with no text is dropped.
  pub sse_feeds-events :
      (c : C) (ps : List Bytes)
      → length (flatten ps) ≤ body_max
      → ((sse_feeds on_msg sse_parser_init c ps).1
          ≡ deliver on_msg c (events [] (map without_cr (split_lines (flatten ps)).0)).0)
        × ((sse_feeds on_msg sse_parser_init c ps).0.overflow ≡ false)
  unfolding sse_parser_init sse_parser_feed split_newline
  sse_feeds-events c ps h =
      let roomy : IsRoomy sse_parser_init = record {
        data_room = omega arith;
        line_room = omega arith;
        not_over = refl;
      } in
      let fed = loop-Fed sse_parser_init c (flatten ps) roomy refl (omega (arith, h)) in
      let whole = feeds_whole on_msg sse_parser_init c ps in
      (ap (λ x. x.1) whole ∙ fed.delivered, ap (λ x. x.0.overflow) whole ∙ fed.stays_roomy.not_over)
