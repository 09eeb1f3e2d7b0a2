-- ===== src/Http/Sse/Handling.antt =====
-- One line of an event stream, in the parser of wrapper/src/transport_http.c.
use mcpbridge.Base.{
  ◌+◌, ◌≤◌, ◌≡◌, refl, inl, inr, Option-cases, List-cases, Bytes, false, List, [], ◌∷◌, ◌++◌,
  length, length-append, arith,
}
use mcpbridge.Http.Buffer.{body_max, body_buf_grow-fits}
use mcpbridge.Http.Sse.{Sse, joint, append_data, sse_handle_line}
use mcpbridge.Http.Sse.Events.{data_value, with_line, events, field-data_value, joint-joined}
use mcpbridge.Http.Sse.Sizes.{length-data_value, data_value-head, length-joint}

-- Both buffers are in their bounds.
pub record IsRoomy (s : Sse) : Type 0 where
  pub data_room : s.data_cap ≤ body_max
  pub line_room : s.line_cap ≤ body_max
  pub not_over : s.overflow ≡ false

module _ {C : Type 0} (on_msg : C → Bytes → C) where
  abbrev pub deliver : C → List Bytes → C
  deliver c [] = c
  deliver c (m ∷ ms) = deliver (on_msg c m) ms

  pub deliver-append :
      (c : C) (ms ns : List Bytes) → deliver c (ms ++ ns) ≡ deliver (deliver c ms) ns
  deliver-append c [] ns = refl
  deliver-append c (m ∷ ms) ns = deliver-append (on_msg c m) ms ns

  -- One line, if its text fits.
  pub record Handled (s : Sse) (c : C) (line : Bytes) : Type 0 where
    pub after : Sse
    pub handled :
        sse_handle_line on_msg s c line ≡ (after, deliver c (events s.event_data (line ∷ [])).0)
    pub text_kept : after.event_data ≡ (events s.event_data (line ∷ [])).1
    pub grown : length after.event_data ≤ length s.event_data + length line
    pub line_kept : after.line ≡ s.line
    pub roomy : IsRoomy after

  pub handle_line :
      (s : Sse) (c : C) (line : Bytes)
      → IsRoomy s
      → length s.event_data + length line ≤ body_max
      → Handled s c line
  unfolding sse_handle_line append_data events with_line
  handle_line s c [] v h = elim (List-cases s.event_data) [
    | inl none_yet ↦ record {
      after = s;
      handled = ground (arith, none_yet);
      text_kept = ground (arith, none_yet);
      grown = omega arith;
      line_kept = refl;
      roomy = v;
    }
    | inr (b, r, e) ↦ record {
      after = record s { event_data = [] };
      handled = ground (arith, e);
      text_kept = ground (arith, e);
      grown = omega arith;
      line_kept = refl;
      roomy = record { data_room = v.data_room; line_room = v.line_room; not_over = v.not_over };
    }
  ]
  handle_line s c (b ∷ r) v h = elim (Option-cases (data_value (b ∷ r))) [
    | inl gone ↦ record {
      after = s;
      handled = ground (arith, gone, field-data_value b r);
      text_kept = ground (arith, gone);
      grown = omega arith;
      line_kept = refl;
      roomy = v;
    }
    | inr (value, e) ↦
        let longer = s.event_data ++ (joint s.event_data ++ value) in
        let size : length longer ≤ length s.event_data + length (b ∷ r) = omega (
          arith,
          length-append s.event_data (joint s.event_data ++ value),
          length-append (joint s.event_data) value,
          length-joint s.event_data,
          length-data_value (b ∷ r) value e,
        ) in
        let (room, grows, covers, more, capped) =
          body_buf_grow-fits s.data_cap (length longer) v.data_room (omega (arith, size)) in
        record {
          after = record s { event_data = longer; data_cap = room };
          handled = ground (arith, e, field-data_value b r, grows, data_value-head b r value e);
          text_kept = ground (arith, e, joint-joined s.event_data value);
          grown = size;
          line_kept = refl;
          roomy = record { data_room = capped; line_room = v.line_room; not_over = v.not_over };
        }
  ]
