-- ===== src/Http/Body/Events.antt =====
-- Event streams and plain bodies, as the body context of wrapper/src/transport_http.c takes them.
use mathlib.Core.List.{map}
use mcpbridge.Base.{
  ℕ, ◌+◌, ◌≤◌, ◌<◌, ◌≡◌, refl, ap, sym, ◌∙◌, inl, inr, Bytes, true, false, Option, none, some, List,
  [], ◌∷◌, ◌++◌, append_assoc, append-nil, length, length-append, flatten, arith, Option-cases,
  Bool-cases,
}
use mcpbridge.Mcp.Reader.Lines.{split_lines}
use mcpbridge.Http.Buffer.{body_max, body_buf_grow, body_buf_grow-none, body_buf_grow-some}
use mcpbridge.Http.Sse.{Sse, sse_parser_init, sse_parser_feed}
use mcpbridge.Http.Sse.Events.{without_cr, with_line, events}
use mcpbridge.Http.Sse.Handling.{deliver}
use mcpbridge.Http.Sse.Pieces.{sse_feeds}
use mcpbridge.Http.Sse.Refine.{sse_feeds-events}
use mcpbridge.Http.State.{HttpSelf, http_enqueue, msg_queue_push}
use mcpbridge.Http.Body.{BodyCtx, body_accept}
use mcpbridge.Http.Body.Framing.{accept_all}

-- The body context with another parser and transport.
abbrev pub with_sse : BodyCtx → Sse × HttpSelf → BodyCtx
with_sse b (s, h) = record b { sse = s; h = h }

abbrev pub sse_sink : Sse × HttpSelf → Bytes → Sse × HttpSelf
sse_sink (s, h) bytes = sse_parser_feed http_enqueue s h bytes

pub accept-sse :
    (b : BodyCtx) (p : Sse × HttpSelf) (bytes : Bytes)
    → b.is_sse ≡ true
    → body_accept (with_sse b p) bytes ≡ with_sse b (sse_sink p bytes)
unfolding body_accept
accept-sse b p bytes e = ground (arith, e)

pub accept_all-sse :
    (b : BodyCtx) (s : Sse) (h : HttpSelf) (ps : List Bytes)
    → b.is_sse ≡ true
    → accept_all (with_sse b (s, h)) ps ≡ with_sse b (sse_feeds http_enqueue s h ps)
unfolding sse_feeds
accept_all-sse b s h [] e = refl
accept_all-sse b s h (p ∷ ps) e =
    let (s', h') = sse_parser_feed http_enqueue s h p in
    ap (λ c. accept_all c ps) (accept-sse b (s, h) p e) ∙ accept_all-sse b s' h' ps e

-- The events of an event stream.
abbrev pub events_of : Bytes → List Bytes
events_of bytes = (events [] (map without_cr (split_lines bytes).0)).0

-- The transport with messages behind those that it has, and a byte in the self-pipe for each.
abbrev pub received : HttpSelf → List Bytes → HttpSelf
received h ms = record h {
  queue = h.queue ++ ms;
  wake = elim h.wake [ none ↦ none | some n ↦ some (n + length ms) ];
}

-- Another queue and another self-pipe.
boxed :
    (h : HttpSelf) {q q' : List Bytes} {w w' : Option ℕ}
    → q ≡ q'
    → w ≡ w'
    → record h { queue = q; wake = w } ≡ record h { queue = q'; wake = w' }
boxed h {q' = q'} {w = w} e g =
    ap (λ x. record h { queue = x; wake = w }) e ∙ ap (λ x. record h { queue = q'; wake = x }) g

received-nil : (h : HttpSelf) → received h [] ≡ h
received-nil h = elim (Option-cases h.wake) [
  | inl closed ↦ boxed h (append-nil h.queue) (ground (arith, closed))
  | inr (n, e) ↦ boxed h (append-nil h.queue) (ground (arith, e))
]

received-cons :
    (h : HttpSelf) (ch : ℕ) (m : Bytes) (ms : List Bytes)
    → received (http_enqueue h (ch ∷ m)) ms ≡ received h ((ch ∷ m) ∷ ms)
unfolding http_enqueue msg_queue_push
received-cons h ch m ms = elim (Option-cases h.wake) [
  | inl closed ↦ boxed h (append_assoc h.queue ((ch ∷ m) ∷ []) ms) (ground (arith, closed))
  | inr (n, e) ↦ boxed h (append_assoc h.queue ((ch ∷ m) ∷ []) ms) (ground (arith, e))
]

enqueue_events :
    (text : Bytes) (ls : List Bytes) (h : HttpSelf)
    → deliver http_enqueue h (events text ls).0 ≡ received h (events text ls).0
unfolding events
enqueue_events text [] h = sym (received-nil h)
enqueue_events [] ([] ∷ ls) h = enqueue_events [] ls h
enqueue_events (ch ∷ m) ([] ∷ ls) h =
    enqueue_events [] ls (http_enqueue h (ch ∷ m)) ∙ received-cons h ch m (events [] ls).0
enqueue_events text ((c ∷ l) ∷ ls) h = enqueue_events (with_line text (c ∷ l)) ls h

-- A body context for an event stream that has seen nothing yet.
pub record IsFresh (b : BodyCtx) : Type 0 where
  pub stream : b.is_sse ≡ true
  pub unread : b.sse ≡ sse_parser_init

pub sse_pieces :
    (b : BodyCtx) (ps : List Bytes)
    → IsFresh b
    → length (flatten ps) ≤ body_max
    → (s : Sse) × (accept_all b ps ≡ with_sse b (s, received b.h (events_of (flatten ps))))
      × (s.overflow ≡ false)
sse_pieces b ps v h =
    let (s, h') = sse_feeds http_enqueue sse_parser_init b.h ps in
    let seen = sse_feeds-events http_enqueue b.h ps h in
    (
      s,
      ap (λ x. accept_all (with_sse b (x, b.h)) ps) v.unread
          ∙ accept_all-sse b sse_parser_init b.h ps v.stream
          ∙ ap (λ x. with_sse b (s, x))
              (seen.0 ∙ enqueue_events [] (map without_cr (split_lines (flatten ps)).0) b.h),
      seen.1,
    )

-- Plain bodies.
pub json_pieces :
    (b : BodyCtx) (ps : List Bytes)
    → b.is_sse ≡ false
    → b.json_overflow ≡ false
    → length b.json_buf + length (flatten ps) ≤ body_max
    → (room : ℕ) × (accept_all b ps
        ≡ record b { json_buf = b.json_buf ++ flatten ps; json_cap = room })
json_pieces b [] plain fine h =
    (b.json_cap, ap (λ x. record b { json_buf = x }) (sym (append-nil b.json_buf)))
json_pieces b (p ∷ ps) plain fine h =
    let size = length-append p (flatten ps) in
    elim (Option-cases (body_buf_grow b.json_cap (length b.json_buf + length p))) [
      | inl refused ↦ absurd (
          omega
            (arith, h, size, body_buf_grow-none b.json_cap (length b.json_buf + length p) refused))
      | inr (room, e) ↦
          let b' = record b { json_buf = b.json_buf ++ p; json_cap = room } in
          let step : body_accept b p ≡ b' = unfold body_accept in ground (arith, plain, fine, e) in
          let (room', ih) =
            json_pieces b' ps plain fine (omega (arith, h, size, length-append b.json_buf p)) in
          (
            room',
            ap (λ c. accept_all c ps) step
                ∙ ih
                ∙ ap (λ x. record b { json_buf = x; json_cap = room' })
                    (append_assoc b.json_buf p (flatten ps)),
          )
    ]

json_full :
    (b : BodyCtx) (ps : List Bytes)
    → b.is_sse ≡ false
    → b.json_overflow ≡ true
    → accept_all b ps ≡ b
json_full b [] plain full = refl
json_full b (p ∷ ps) plain full =
    let step : body_accept b p ≡ b = unfold body_accept in ground (arith, plain, full) in
    ap (λ c. accept_all c ps) step ∙ json_full b ps plain full

-- A plain body above the bound is remembered as such, and nothing is queued.
pub json_over :
    (b : BodyCtx) (ps : List Bytes)
    → b.is_sse ≡ false
    → body_max < length b.json_buf + length (flatten ps)
    → length b.json_buf ≤ body_max
    → ((accept_all b ps).json_overflow ≡ true) × ((accept_all b ps).h ≡ b.h)
json_over b [] plain over small = absurd (omega (arith, over, small))
json_over b (p ∷ ps) plain over small =
    let size = length-append p (flatten ps) in
    let quiet : (body_accept b p).h ≡ b.h = unfold body_accept in ground (arith, plain) in
    elim (Bool-cases b.json_overflow) [
      | inl full ↦
          let same = json_full b (p ∷ ps) plain full in
          (ap (λ c. c.json_overflow) same ∙ full, ap (λ c. c.h) same)
      | inr fine ↦ elim (Option-cases (body_buf_grow b.json_cap (length b.json_buf + length p))) [
        | inl refused ↦
            let b' = record b { json_overflow = true } in
            let step : body_accept b p ≡ b' =
              unfold body_accept in ground (arith, plain, fine, refused) in
            let same = ap (λ c. accept_all c ps) step ∙ json_full b' ps plain refl in
            (ap (λ c. c.json_overflow) same, ap (λ c. c.h) same)
        | inr (room, e) ↦
            let b' = record b { json_buf = b.json_buf ++ p; json_cap = room } in
            let step : body_accept b p ≡ b' =
              unfold body_accept in ground (arith, plain, fine, e) in
            let fits : length b.json_buf + length p ≤ body_max =
              body_buf_grow-some b.json_cap (length b.json_buf + length p) room e in
            let added = length-append b.json_buf p in
            let ih =
              json_over b' ps plain (omega (arith, over, size, added))
                (omega (arith, fits, added)) in
            (
              ap (λ c. (accept_all c ps).json_overflow) step ∙ ih.0,
              ap (λ c. (accept_all c ps).h) step ∙ ih.1,
            )
      ]
    ]
