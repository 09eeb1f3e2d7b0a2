-- ===== src/Mcp/Reader/Feed.antt =====
-- `mcp_reader_feed` of wrapper/src/mcp.c on bytes that fit, the invariant, and the line that is lost
-- behind a backlog.
use mcpbridge.Base.{
  ℕ, zero, suc, ◌+◌, ◌≤◌, ◌<◌, ◌≡◌, refl, ap, sym, ◌∙◌, inl, inr, Bytes, false, Option-cases, [],
  ◌∷◌, ◌++◌, length, arith, append_assoc, append-nil, length-append, drop-append,
}
use mcpbridge.Mcp.Reader.{
  Reader, live, live_bytes, hard_cap, split_newline, next_chunk, feed_round, continue, feed_loop,
  reader_feed,
}
use mcpbridge.Mcp.Reader.Reserve.{IsValid, Reserved, length-live_bytes, reserve_fits}
use mcpbridge.Mcp.Reader.Lines.{split_newline_parts}

-- The chunk and the rest are the bytes, and the chunk of a text that is not empty is not empty.
next_chunk_parts :
    (b : ℕ) (bs : Bytes)
    → (b ∷ bs ≡ (next_chunk (b ∷ bs)).0 ++ (next_chunk (b ∷ bs)).1)
      × (0 < length (next_chunk (b ∷ bs)).0)
unfolding next_chunk
next_chunk_parts b bs = elim (Option-cases (split_newline (b ∷ bs))) [
  | inl gone ↦ ground (arith, append-nil (b ∷ bs))
  | inr ((l, rest), e) ↦ ground (
    arith,
    split_newline_parts (b ∷ bs) l rest e,
    append_assoc l (b'\n' ∷ []) rest,
    length-append l (b'\n' ∷ []),
  )
]

-- What a feed that drops nothing makes of a reader.
pub record Fed (r : Reader) (bytes : Bytes) (r' : Reader) : Type 0 where
  pub valid : IsValid r'
  pub live_appended : live_bytes r' ≡ live_bytes r ++ bytes
  pub max_kept : r'.max ≡ r.max
  pub dropping_off : r'.dropping ≡ false
  pub overflow_kept : r'.overflow_pending ≡ r.overflow_pending

abbrev append_chunk : Reader → Bytes → Reader
append_chunk r chunk = record r { stored = r.stored ++ chunk }

Fed-append_chunk :
    (r r' : Reader) (chunk : Bytes)
    → r.dropping ≡ false
    → Reserved r (length chunk) r'
    → Fed r chunk (append_chunk r' chunk)
Fed-append_chunk r r' chunk d v = record {
  valid = record {
    head_le_len = omega (arith, v.valid, length-append r'.stored chunk);
    len_le_cap = omega (arith, v.room, length-append r'.stored chunk);
    cap_le_hard = v.valid.cap_le_hard;
    cap_pos = v.valid.cap_pos;
    hard_fits = v.valid.hard_fits;
  };
  live_appended =
      drop-append r'.head r'.stored chunk v.valid.head_le_len ∙ ap (λ l. l ++ chunk) v.live_kept;
  max_kept = v.max_kept;
  dropping_off = v.dropping_kept ∙ d;
  overflow_kept = v.overflow_kept;
}

-- A round that takes its chunk.
pub feed_round_fits :
    (r : Reader) (b : ℕ) (bs : Bytes)
    → IsValid r
    → r.dropping ≡ false
    → live r + length (next_chunk (b ∷ bs)).0 ≤ hard_cap r
    → (r' : Reader) × (feed_round r (b ∷ bs) ≡ continue r' (next_chunk (b ∷ bs)).1)
      × Fed r (next_chunk (b ∷ bs)).0 r'
unfolding feed_round
feed_round_fits r b bs v d fits =
    let chunk = (next_chunk (b ∷ bs)).0 in
    let (r', e, res) = reserve_fits r (length chunk) v fits in
    (append_chunk r' chunk, ground (arith, e), Fed-append_chunk r r' chunk d res)

Fed-nil : (r : Reader) → IsValid r → r.dropping ≡ false → Fed r [] r
Fed-nil r v d = record {
  valid = v;
  live_appended = sym (append-nil (live_bytes r));
  max_kept = refl;
  dropping_off = d;
  overflow_kept = refl;
}

Fed-trans :
    (r : Reader) (chunk rest : Bytes) {bytes : Bytes} {r' r'' : Reader}
    → bytes ≡ chunk ++ rest
    → Fed r chunk r'
    → Fed r' rest r''
    → Fed r bytes r''
Fed-trans r chunk rest whole a b = record {
  valid = b.valid;
  live_appended =
      b.live_appended
      ∙ ap (λ l. l ++ rest) a.live_appended
      ∙ append_assoc (live_bytes r) chunk rest
      ∙ ap (λ l. live_bytes r ++ l) (sym whole);
  max_kept = b.max_kept ∙ a.max_kept;
  dropping_off = b.dropping_off;
  overflow_kept = b.overflow_kept ∙ a.overflow_kept;
}

feed_loop_fits :
    (f : ℕ) (r : Reader) (bytes : Bytes)
    → length bytes ≤ f
    → IsValid r
    → r.dropping ≡ false
    → live r + length bytes ≤ hard_cap r
    → Fed r bytes (feed_loop f r bytes)
unfolding feed_loop
feed_loop_fits zero r [] h v d fits = Fed-nil r v d
feed_loop_fits zero r (b ∷ bs) h v d fits = absurd (omega arith)
feed_loop_fits (suc f) r [] h v d fits = Fed-nil r v d
feed_loop_fits (suc f) r (b ∷ bs) h v d fits =
    let chunk = (next_chunk (b ∷ bs)).0 in
    let rest = (next_chunk (b ∷ bs)).1 in
    let (whole, pos) = next_chunk_parts b bs in
    let sizes : length (b ∷ bs) ≡ length chunk + length rest =
      ap length whole ∙ length-append chunk rest in
    let (r', e, fed) = feed_round_fits r b bs v d (omega arith) in
    let grown : live r' ≡ live r + length chunk =
      sym (length-live_bytes r')
      ∙ ap length fed.live_appended
      ∙ length-append (live_bytes r) chunk
      ∙ ap (λ (n : ℕ). n + length chunk) (length-live_bytes r) in
    let more =
      feed_loop_fits f r' rest (omega arith) fed.valid fed.dropping_off
        (omega (arith, fed.max_kept)) in
    rw (feed_loop, e) (Fed-trans r chunk rest whole fed more)

-- A feed that fits behind the live bytes appends to them and changes no flag.
pub feed_fits :
    (r : Reader) (bytes : Bytes)
    → IsValid r
    → r.dropping ≡ false
    → live r + length bytes ≤ hard_cap r
    → Fed r bytes (reader_feed r bytes)
unfolding reader_feed
feed_fits r bytes v d fits = feed_loop_fits (length bytes) r bytes (omega arith) v d fits
