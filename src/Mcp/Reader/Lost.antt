-- ===== src/Mcp/Reader/Lost.antt =====
-- A defect of `mcp_reader_feed` in wrapper/src/mcp.c: the room that a line is given is what the
-- lines in front of it, complete but not popped yet, have left of `max + 1` bytes.
use mcpbridge.Base.{
  ℕ, zero, suc, ◌+◌, ◌<◌, ◌≡◌, refl, ap, ◌∙◌, Bytes, true, false, some, [], ◌∷◌, ◌++◌, ==_iff,
  length, arith, length-append, take-all,
}
use mcpbridge.Mcp.Reader.{
  Reader, live, live_bytes, hard_cap, split_newline, next_chunk, last_newline, discard_tail,
  byte_is, continue, end_drop, feed_round, feed_loop, reader_feed,
}
use mcpbridge.Mcp.Reader.Overflow.{feed_round_over}
use mcpbridge.Mcp.Reader.Lines.{NoNewline}
use mcpbridge.Mcp.Reader.Reserve.{IsValid, length-live_bytes}

split_newline-end : (l : Bytes) → NoNewline l → split_newline (l ++ b'\n' ∷ []) ≡ some (l, [])
unfolding split_newline
split_newline-end [] h = refl
split_newline-end (b ∷ l) h = ground (arith, split_newline-end l)

byte_is-end : (l : Bytes) (b : ℕ) → byte_is (l ++ b ∷ []) (length l) b ≡ true
byte_is-end [] b = (==_iff b b).1 refl
byte_is-end (x ∷ l) b = byte_is-end l b

-- Where the live bytes end in a newline, nothing is discarded.
discard_tail_none :
    (r : Reader) (before : Bytes)
    → IsValid r
    → live_bytes r ≡ before ++ b'\n' ∷ []
    → discard_tail r ≡ r
unfolding discard_tail last_newline
discard_tail_none r before v e =
    let size : live r ≡ suc (length before) =
      omega (arith, length-live_bytes r, ap length e, length-append before (b'\n' ∷ [])) in
    let found : last_newline (live_bytes r) (live r) ≡ some (length before) =
      rw (e, size) (ground (arith, byte_is-end before b'\n')) in
    ground (arith, found, take-all (r.head + length before + 1) r.stored (omega arith))

feed_loop_done : (f : ℕ) (r : Reader) → feed_loop f r [] ≡ r
unfolding feed_loop
feed_loop_done zero r = refl
feed_loop_done (suc f) r = refl

chunk_is_line :
    (bytes l : Bytes)
    → split_newline bytes ≡ some (l, [])
    → next_chunk bytes ≡ (l ++ b'\n' ∷ [], [], true)
unfolding next_chunk
chunk_is_line bytes l e = rw (next_chunk, e)

lost_round :
    (r : Reader) (before l : Bytes) (b : ℕ) (bs : Bytes)
    → IsValid r
    → r.dropping ≡ false
    → live_bytes r ≡ before ++ b'\n' ∷ []
    → split_newline (b ∷ bs) ≡ some (l, [])
    → r.max < live r + length l
    → feed_round r (b ∷ bs) ≡ continue (end_drop r) []
lost_round r before l b bs v d e s over =
    let chunk = chunk_is_line (b ∷ bs) l s in
    let long : hard_cap r < live r + length (next_chunk (b ∷ bs)).0 =
      rw chunk (omega (arith, length-append l (b'\n' ∷ []))) in
    feed_round_over r b bs v d long ∙ rw (chunk, discard_tail_none r before v e)

lost_feed :
    (r : Reader) (before l bytes : Bytes)
    → IsValid r
    → r.dropping ≡ false
    → live_bytes r ≡ before ++ b'\n' ∷ []
    → split_newline bytes ≡ some (l, [])
    → r.max < live r + length l
    → reader_feed r bytes ≡ end_drop r
unfolding reader_feed feed_loop split_newline
lost_feed r before l [] v d e s over = cc
lost_feed r before l (b ∷ bs) v d e s over =
    rw (feed_loop, lost_round r before l b bs v d e s over)
      (feed_loop_done (length bs) (end_drop r))

-- In a well-formed reader that discards nothing and holds text that ends with a newline, a line that
-- is fed whole and whose bytes, with the waiting ones, are more than `max`, is discarded and reported
-- as too long, whatever its own length.
pub line_behind_backlog_lost :
    (r : Reader) (before l : Bytes)
    → IsValid r
    → r.dropping ≡ false
    → live_bytes r ≡ before ++ b'\n' ∷ []
    → NoNewline l
    → r.max < live r + length l
    → reader_feed r (l ++ b'\n' ∷ []) ≡ end_drop r
line_behind_backlog_lost r before l v d e n over =
    lost_feed r before l (l ++ b'\n' ∷ []) v d e (split_newline-end l n) over
