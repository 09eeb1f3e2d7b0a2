-- ===== src/Http/Sse/Pieces.antt =====
-- An event stream in pieces, in the parser of wrapper/src/transport_http.c.
use mcpbridge.Base.{
  ◌≡◌, ap, sym, ◌∙◌, inl, inr, Bool-cases, Bytes, false, List, [], ◌∷◌, ◌++◌, if◌then◌else◌,
  flatten, arith,
}
use mcpbridge.Http.Sse.{Sse, sse_byte, sse_loop, sse_parser_feed}

module _ {C : Type 0} (on_msg : C → Bytes → C) where
  -- A stop for want of room is kept.
  loop-append :
      (s : Sse) (c : C) (a b : Bytes)
      → s.overflow ≡ false
      → sse_loop on_msg s c (a ++ b)
        ≡ (let (s', c') = sse_loop on_msg s c a in sse_parser_feed on_msg s' c' b)
  unfolding sse_loop sse_parser_feed
  loop-append s c [] b e = ground (arith, e)
  loop-append s c (x ∷ a) b e =
      let (s', c') = sse_byte on_msg s c x in
      elim (Bool-cases s'.overflow) [
        | inl full ↦ ground (arith, full)
        | inr fine ↦ ground (arith, fine, loop-append s' c' a b fine)
      ]

  feed_fine :
      (s : Sse) (c : C) (bytes : Bytes)
      → s.overflow ≡ false
      → sse_parser_feed on_msg s c bytes ≡ sse_loop on_msg s c bytes
  unfolding sse_parser_feed
  feed_fine s c bytes fine = ap (λ o. if o then (s, c) else sse_loop on_msg s c bytes) fine

  pub feed-append :
      (s : Sse) (c : C) (a b : Bytes)
      → sse_parser_feed on_msg s c (a ++ b)
        ≡ (let (s', c') = sse_parser_feed on_msg s c a in sse_parser_feed on_msg s' c' b)
  unfolding sse_parser_feed
  feed-append s c a b = elim (Bool-cases s.overflow) [
    | inl full ↦ ground (arith, full)
    | inr fine ↦
        feed_fine s c (a ++ b) fine
        ∙ loop-append s c a b fine
        ∙ ap (λ x. sse_parser_feed on_msg x.0 x.1 b) (sym (feed_fine s c a fine))
  ]

  -- The pieces in which a body arrives, one after another.
  unfoldable pub sse_feeds : Sse → C → List Bytes → Sse × C
  sse_feeds s c [] = (s, c)
  sse_feeds s c (p ∷ ps) = let (s', c') = sse_parser_feed on_msg s c p in sse_feeds s' c' ps

  -- The cuts between the pieces make no difference, also where the parser stops for want of room.
  pub feeds_whole :
      (s : Sse) (c : C) (ps : List Bytes)
      → sse_feeds s c ps ≡ sse_parser_feed on_msg s c (flatten ps)
  unfolding sse_feeds
  feeds_whole s c [] = unfold sse_parser_feed sse_loop in ground arith
  feeds_whole s c (p ∷ ps) =
      let (s', c') = sse_parser_feed on_msg s c p in
      feeds_whole s' c' ps ∙ sym (feed-append s c p (flatten ps))
