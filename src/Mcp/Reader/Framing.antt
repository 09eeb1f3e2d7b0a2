-- ===== src/Mcp/Reader/Framing.antt =====
-- From bytes to lines: `mcp_reader_feed` and `mcp_reader_pop` of wrapper/src/mcp.c, called in turn as
-- by `drain_reader` of wrapper/src/main.c and `stdio_pump` of wrapper/src/transport_stdio.c.
use mcpbridge.Base.{
  flatten, ℕ, ◌+◌, ◌≤◌, ◌≡◌, refl, sym, ◌∙◌, Bytes, false, List, [], ◌∷◌, ◌++◌, length, arith,
  append_assoc, append-nil,
}
use mcpbridge.Mcp.Reader.{Reader, live, live_bytes, hard_cap, reader_feed, pump_bytes, pump_chunks}
use mcpbridge.Mcp.Reader.Feed.{Fed, feed_fits}
use mcpbridge.Mcp.Reader.Lines.{NoNewline, split_lines, split_lines-NoNewline, split_lines-none}
use mcpbridge.Mcp.Reader.Drain.{Drained, drain_lines-split_lines}
use mcpbridge.Mcp.Reader.Reserve.{IsValid, length-live_bytes}

-- The lines of two texts in a row: the partial line of the first goes on in the second.
split_lines-append :
    (a b : Bytes)
    → split_lines (a ++ b) ≡ (
      (split_lines a).0 ++ (split_lines ((split_lines a).1 ++ b)).0,
      (split_lines ((split_lines a).1 ++ b)).1,
    )
unfolding split_lines
split_lines-append [] b = refl
split_lines-append (x ∷ a) b = ground (arith, split_lines-append a b)

-- Each read fits behind the partial line that it finds.
abbrev pub FitsAll : ℕ → Bytes → List Bytes → Type 0
FitsAll max partial [] = Unit
FitsAll max partial (c ∷ cs) =
    (length partial + length c ≤ max + 1) × FitsAll max (split_lines (partial ++ c)).1 cs

Drained-Fed :
    (r : Reader) (c : Bytes) {partial : Bytes} {r' r'' : Reader}
    → r.dropping ≡ false
    → Fed r c r'
    → Drained r' partial r''
    → Drained r partial r''
Drained-Fed r c d fed left = record {
  valid = left.valid;
  live_left = left.live_left;
  max_kept = left.max_kept ∙ fed.max_kept;
  dropping_kept = left.dropping_kept ∙ fed.dropping_off ∙ sym d;
  overflow_off = left.overflow_off;
}

pump_bytes_lem :
    (r : Reader) (c : Bytes)
    → IsValid r
    → r.dropping ≡ false
    → live r + length c ≤ hard_cap r
    → (r' : Reader) × (pump_bytes r c ≡ ((split_lines (live_bytes r ++ c)).0, r'))
      × Drained r (split_lines (live_bytes r ++ c)).1 r'
unfolding pump_bytes
pump_bytes_lem r c v d fits =
    let fed = feed_fits r c v d fits in
    let (r', e, left) =
      drain_lines-split_lines (live (reader_feed r c) + 2) (reader_feed r c) fed.valid
        (omega arith) in
    (r', rw (← fed.live_appended) e, rw (← fed.live_appended) (Drained-Fed r c d fed left))

-- A well-formed reader that discards nothing and holds no complete line is fed a byte stream in reads
-- and drained after each. However the stream is cut, as long as each read fits behind the partial
-- line that it finds, the lines that come out are the lines of the whole stream, none lost, split
-- or reordered, and the reader is left with the bytes behind the last newline.
pub pump_chunks-split_lines :
    (r : Reader) (chunks : List Bytes)
    → IsValid r
    → r.dropping ≡ false
    → NoNewline (live_bytes r)
    → FitsAll r.max (live_bytes r) chunks
    → ((pump_chunks r chunks).0 ≡ (split_lines (live_bytes r ++ flatten chunks)).0)
      × (live_bytes (pump_chunks r chunks).1 ≡ (split_lines (live_bytes r ++ flatten chunks)).1)
unfolding pump_chunks
pump_chunks-split_lines r [] v d n fits =
    ground (arith, split_lines-none (live_bytes r) n, append-nil (live_bytes r))
pump_chunks-split_lines r (c ∷ cs) v d n (fit, fits) =
    let (r', pumped, left) = pump_bytes_lem r c v d (omega (arith, length-live_bytes r)) in
    let ih =
      pump_chunks-split_lines r' cs left.valid (left.dropping_kept ∙ d)
        (rw left.live_left (split_lines-NoNewline (live_bytes r ++ c)))
        (rw (left.live_left, left.max_kept) fits) in
    ground (
      arith,
      pumped,
      ih,
      left.live_left,
      split_lines-append (live_bytes r ++ c) (flatten cs),
      append_assoc (live_bytes r) c (flatten cs),
    )
