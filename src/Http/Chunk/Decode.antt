-- ===== src/Http/Chunk/Decode.antt =====
-- Chunked bodies, as a server sends them and as the decoder of wrapper/src/transport_http.c reads them.
use mcpbridge.Base.{
  ℕ, ◌+◌, ◌<◌, ◌≡◌, refl, ap, sym, ◌∙◌, inl, inr, Bytes, false, some, List, [], ◌∷◌, ◌++◌,
  append_assoc, append-nil, ◌==◌, length, length-append, flatten, Option-cases, arith,
}
use mcpbridge.Mcp.Reader.{split_newline}
use mcpbridge.Mcp.Reader.Lines.{NoNewline}
use mcpbridge.Http.Chunk.{
  want_size, want_data, want_crlf, done, ChunkDec, chunk_dec_init, chunk_size, line_size, Outcome,
  ended, begin_chunk, size_byte, after_data, crlf_byte,
}
use mcpbridge.Http.Chunk.Bytewise.{one_byte, bytewise, data_run}
use mcpbridge.Http.Chunk.Pieces.{chunk_feeds, chunk_feeds-bytewise}

-- A chunk: its size line, with or without a CR at its end, and its bytes.
pub record Chunk : Type 0 where
  pub size_line : Bytes
  pub body : Bytes

pub record IsChunk (k : Chunk) : Type 0 where
  pub on_line : NoNewline k.size_line
  pub short_line : length k.size_line < 64
  pub right_size : chunk_size k.size_line ≡ some (length k.body)
  pub not_empty : 0 < length k.body

abbrev pub AllChunks : List Chunk → Type 0
AllChunks [] = Unit {0}
AllChunks (k ∷ ks) = IsChunk k × AllChunks ks

-- The chunks, and behind them what ends the body.
unfoldable pub encode : List Chunk → Bytes → Bytes
encode [] rest = rest
encode (k ∷ ks) rest = k.size_line ++ b'\n' ∷ (k.body ++ b'\r' ∷ b'\n' ∷ encode ks rest)

NoNewline-cons : (b : ℕ) (l : Bytes) → NoNewline (b ∷ l) → ((b == b'\n') ≡ false) × NoNewline l
unfolding split_newline
NoNewline-cons b l h = elim (Option-cases (split_newline l)) [
  | inl gone ↦ (ground (arith, h), gone)
  | inr ((x, y), e) ↦ (ground (arith, h, e), ground (arith, h, e))
]

module _ {C : Type 0} (sink : C → Bytes → C) where
  abbrev pub bodies : C → List Chunk → C
  bodies c [] = c
  bodies c (k ∷ ks) = bodies (sink c k.body) ks

  size_run :
      (d : ChunkDec) (c : C) (l rest : Bytes)
      → d.state ≡ want_size
      → NoNewline l
      → length d.line + length l < 64
      → bytewise sink d c (l ++ rest) ≡ bytewise sink (record d { line = d.line ++ l }) c rest
  unfolding bytewise one_byte size_byte split_newline
  size_run d c [] rest e n h =
      ap (λ l. bytewise sink (record d { line = l }) c rest) (sym (append-nil d.line))
  size_run d c (b ∷ l) rest e n h =
      let longer = record d { line = d.line ++ b ∷ [] } in
      let (plain, n') = NoNewline-cons b l n in
      let step : bytewise sink d c (b ∷ (l ++ rest)) ≡ bytewise sink longer c (l ++ rest) =
        ground (arith, e, plain) in
      step
      ∙ size_run longer c l rest e n' (omega (arith, length-append d.line (b ∷ [])))
      ∙ ap (λ x. bytewise sink (record d { line = x }) c rest) (append_assoc d.line (b ∷ []) l)

  body_run :
      (additive : (c : C) (x y : Bytes) → sink c (x ++ y) ≡ sink (sink c x) y)
      → (d : ChunkDec) (c : C) (body rest : Bytes) → d.state ≡ want_data
      → d.remaining ≡ length body
      → 0 < length body
      → bytewise sink d c (body ++ rest)
        ≡ bytewise sink (after_data d (length body)) (sink c body) rest
  body_run additive d c [] rest e n p = absurd (omega arith)
  body_run additive d c (x ∷ xs) rest e n p =
      data_run sink additive d c x xs rest e (omega (arith, n))

  -- One chunk, from its size line to its CRLF.
  chunk_run :
      (additive : (c : C) (x y : Bytes) → sink c (x ++ y) ≡ sink (sink c x) y)
      → (d : ChunkDec) (c : C) (k : Chunk) (rest : Bytes) → d.state ≡ want_size
      → d.line ≡ []
      → IsChunk k
      → bytewise sink d c (k.size_line ++ b'\n' ∷ (k.body ++ b'\r' ∷ b'\n' ∷ rest))
        ≡ bytewise sink
            (record d { state = want_size; remaining = 0; line = []; crlf_seen = false })
            (sink c k.body)
            rest
  unfolding bytewise one_byte size_byte begin_chunk
  chunk_run additive d c k rest e l v =
      let behind = b'\r' ∷ b'\n' ∷ rest in
      let tail = k.body ++ behind in
      let d2 = record d { state = want_data; remaining = length k.body; line = [] } in
      let d3 = record d { state = want_crlf; remaining = 0; line = []; crlf_seen = false } in
      let sized : bytewise sink (record d { line = k.size_line }) c (b'\n' ∷ tail)
          ≡ bytewise sink d2 c tail =
        ground (arith, e, v.right_size, v.not_empty) in
      let spent : after_data d2 (length k.body) ≡ d3 = unfold after_data in ground arith in
      let closed : bytewise sink d3 (sink c k.body) behind
          ≡ bytewise sink
              (record d { state = want_size; remaining = 0; line = []; crlf_seen = false })
              (sink c k.body) rest =
        unfold crlf_byte in ground arith in
      size_run d c k.size_line (b'\n' ∷ tail) e v.on_line (omega (arith, v.short_line, ap length l))
      ∙ ap (λ x. bytewise sink (record d { line = x ++ k.size_line }) c (b'\n' ∷ tail)) l
      ∙ sized
      ∙ body_run additive d2 c k.body behind refl refl v.not_empty
      ∙ ap (λ x. bytewise sink x (sink c k.body) behind) spent
      ∙ closed

  module _ (additive : (c : C) (x y : Bytes) → sink c (x ++ y) ≡ sink (sink c x) y) where
    -- Where a chunked body ends, and what the callback has then made of the context.
    Ends : Outcome C → C → Type 0
    Ends o c = (d : ChunkDec) × (o ≡ ended d c)

    chunks_run :
        (d : ChunkDec) (c : C) (ks : List Chunk) (last rest : Bytes)
        → d.state ≡ want_size
        → d.line ≡ []
        → AllChunks ks
        → NoNewline last
        → length last < 64
        → chunk_size last ≡ some 0
        → Ends (bytewise sink d c (encode ks (last ++ b'\n' ∷ rest))) (bodies c ks)
    unfolding encode bytewise one_byte size_byte begin_chunk Ends
    chunks_run d c [] last rest e l v n s z = (
      record d { state = done; remaining = 0; line = [] },
      size_run d c last (b'\n' ∷ rest) e n (omega (arith, s, ap length l))
          ∙ ap (λ x. bytewise sink (record d { line = x ++ last }) c (b'\n' ∷ rest)) l
          ∙ ground (arith, e, z),
    )
    chunks_run d c (k ∷ ks) last rest e l (v, vs) n s z =
        let d' = record d { state = want_size; remaining = 0; line = []; crlf_seen = false } in
        let (d'', ends) = chunks_run d' (sink c k.body) ks last rest refl refl vs n s z in
        (d'', chunk_run additive d c k (encode ks (last ++ b'\n' ∷ rest)) e l v ∙ ends)

    -- A chunked body is decoded exactly, whatever the reads that bring it: the callback gets the
    -- bytes of the chunks, in order, and the decoder is done at the last chunk, whatever comes
    -- behind it. This is for a callback that makes of two pieces one after another what it makes
    -- of both at once, for chunks that are not empty, with size lines below 64 bytes that give
    -- their sizes, and a last one of size 0.
    pub chunk_feeds-encode :
        (c : C) (ks : List Chunk) (last rest : Bytes) (ps : List Bytes)
        → AllChunks ks
        → NoNewline last
        → length last < line_size
        → chunk_size last ≡ some 0
        → flatten ps ≡ encode ks (last ++ b'\n' ∷ rest)
        → (d : ChunkDec) × (chunk_feeds sink chunk_dec_init c ps ≡ ended d (bodies c ks))
    unfolding chunk_dec_init Ends
    chunk_feeds-encode c ks last rest ps vs n s z e =
        let (d, ends) = chunks_run chunk_dec_init c ks last rest refl refl vs n s z in
        (
          d,
          chunk_feeds-bytewise sink additive chunk_dec_init c ps (record { some_left = λ q. cc })
              ∙ ap (bytewise sink chunk_dec_init c) e
              ∙ ends,
        )
