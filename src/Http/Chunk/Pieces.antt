-- ===== src/Http/Chunk/Pieces.antt =====
-- A chunked body in pieces, as the decoder of wrapper/src/transport_http.c reads it.
use mcpbridge.Base.{
  ℕ, ◌≡◌, ◌≢◌, refl, ap, sym, ◌∙◌, inl, inr, Bytes, List, [], ◌∷◌, ◌++◌, length, flatten,
  Option-cases, arith,
}
use mathlib.Core.Path.{subst}
use mcpbridge.Http.Chunk.{
  done, ChunkDec, chunk_size, Outcome, wants_more, ended, malformed, Round, next, stop, begin_chunk,
  size_byte, after_data, crlf_byte, at_end, chunk_dec_feed,
}
use mcpbridge.Http.Chunk.Bytewise.{IsSound, State-cases, one_byte, bytewise, loop-bytewise}

module _ {C : Type 0} (sink : C → Bytes → C) where
  -- The reads of `read_response_body`, until the decoder is done.
  unfoldable pub chunk_feeds : ChunkDec → C → List Bytes → Outcome C
  chunk_feeds d c [] = at_end sink d c
  chunk_feeds d c (p ∷ ps) = elim (chunk_dec_feed sink d c p) [
    | wants_more d' c' ↦ chunk_feeds d' c' ps
    | ended d' c' ↦ ended d' c'
    | malformed d' c' ↦ malformed d' c'
  ]

  -- What follows a call that wants more.
  abbrev and_then : Outcome C → (ChunkDec → C → Outcome C) → Outcome C
  and_then o more = elim o [
    | wants_more d c ↦ more d c
    | ended d c ↦ ended d c
    | malformed d c ↦ malformed d c
  ]

  abbrev resume : Round C → Bytes → Outcome C
  resume r bs = elim r [ next d c _ ↦ bytewise sink d c bs | stop o ↦ o ]

  done_stays :
      (d : ChunkDec) (c : C) (bs : Bytes) → d.state ≡ done → bytewise sink d c bs ≡ ended d c
  unfolding bytewise one_byte
  done_stays d c [] e = ground (arith, e)
  done_stays d c (b ∷ bs) e = ground (arith, e)

  -- A round never stops with more to come.
  abbrev Final : Round C → Type 0
  Final r = (d : ChunkDec) (c : C) → r ≢ stop (wants_more d c)

  one_byte-Final : (d : ChunkDec) (c : C) (b : ℕ) → Final (one_byte sink d c b)
  unfolding one_byte size_byte begin_chunk crlf_byte
  one_byte-Final d c b d' c' h = elim (Option-cases (chunk_size d.line)) [
    | inl gone ↦ ground (arith, h, gone)
    | inr (n, e) ↦ ground (arith, h, e)
  ]

  resume-append :
      (r : Round C) (a b : Bytes)
      → Final r
      → ((d : ChunkDec) (c : C)
          → bytewise sink d c (a ++ b)
            ≡ and_then (bytewise sink d c a) (λ d' c'. bytewise sink d' c' b))
      → resume r (a ++ b) ≡ and_then (resume r a) (λ d' c'. bytewise sink d' c' b)
  resume-append (next d c _) a b f ih = ih d c
  resume-append (stop (wants_more d c)) a b f ih = absurd (f d c refl)
  resume-append (stop (ended d c)) a b f ih = refl
  resume-append (stop (malformed d c)) a b f ih = refl

  bytewise-append :
      (d : ChunkDec) (c : C) (a b : Bytes)
      → bytewise sink d c (a ++ b) ≡ and_then (bytewise sink d c a) (λ d' c'. bytewise sink d' c' b)
  unfolding bytewise
  bytewise-append d c [] b = elim (State-cases d.state) [
    | inl e ↦ ground (arith, e)
    | inr (inl e) ↦ ground (arith, e)
    | inr (inr (inl e)) ↦ ground (arith, e)
    | inr (inr (inr e)) ↦ ground (arith, e, done_stays d c b e)
  ]
  bytewise-append d c (x ∷ a) b =
      resume-append (one_byte sink d c x) a b (one_byte-Final d c x)
        (λ d' c'. bytewise-append d' c' a b)

  -- The decoder stays sound.
  SoundRound : Round C → Type 0
  SoundRound r = (d : ChunkDec) (c : C) (bs : Bytes) → r ≡ next d c bs → IsSound d

  one_byte-SoundRound : (d : ChunkDec) (c : C) (b : ℕ) → SoundRound (one_byte sink d c b)
  unfolding one_byte size_byte begin_chunk crlf_byte after_data SoundRound
  one_byte-SoundRound d c b d' c' bs h = record {
    some_left = λ q. elim (Option-cases (chunk_size d.line)) [
      | inl gone ↦ ground (arith, h, gone, q)
      | inr (n, e) ↦ ground (arith, h, e, q)
    ];
  }

  at_end_same :
      (d : ChunkDec) (c : C) (d' : ChunkDec) (c' : C) → at_end sink d c ≡ wants_more d' c' → d ≡ d'
  at_end_same d c d' c' h = elim (State-cases d.state) [
    | inl e ↦ ground (arith, e, h)
    | inr (inl e) ↦ ground (arith, e, h)
    | inr (inr (inl e)) ↦ ground (arith, e, h)
    | inr (inr (inr e)) ↦ ground (arith, e, h)
  ]

  resume_keeps :
      (r : Round C) (bs : Bytes) (d' : ChunkDec) (c' : C)
      → SoundRound r
      → Final r
      → ((d : ChunkDec) (c : C) → IsSound d → bytewise sink d c bs ≡ wants_more d' c' → IsSound d')
      → resume r bs ≡ wants_more d' c'
      → IsSound d'
  unfolding SoundRound
  resume_keeps (next d c x) bs d' c' s f ih h = ih d c (s d c x refl) h
  resume_keeps (stop o) bs d' c' s f ih h = absurd (f d' c' (ap stop h))

  -- What a call leaves when it wants more.
  bytewise_keeps :
      (d : ChunkDec) (c : C) (bs : Bytes) (d' : ChunkDec) (c' : C)
      → IsSound d
      → bytewise sink d c bs ≡ wants_more d' c'
      → IsSound d'
  unfolding bytewise
  bytewise_keeps d c [] d' c' v h = subst IsSound (at_end_same d c d' c' h) v
  bytewise_keeps d c (b ∷ bs) d' c' v h =
      resume_keeps (one_byte sink d c b) bs d' c' (one_byte-SoundRound d c b) (one_byte-Final d c b)
        (λ e k u g. bytewise_keeps e k bs d' c' u g) h

  module _ (additive : (c : C) (x y : Bytes) → sink c (x ++ y) ≡ sink (sink c x) y) where
    fed :
        (d : ChunkDec) (c : C) (bs : Bytes)
        → IsSound d
        → chunk_dec_feed sink d c bs ≡ bytewise sink d c bs
    unfolding chunk_dec_feed
    fed d c bs v = loop-bytewise sink additive (length bs) d c bs (omega arith) v

    -- What a call comes to, with what follows it.
    resume_feeds :
        (o : Outcome C) (ps : List Bytes)
        → ((d : ChunkDec) (c : C)
            → o ≡ wants_more d c
            → chunk_feeds d c ps ≡ bytewise sink d c (flatten ps))
        → and_then o (λ d c. chunk_feeds d c ps)
          ≡ and_then o (λ d c. bytewise sink d c (flatten ps))
    resume_feeds (wants_more d c) ps ih = ih d c refl
    resume_feeds (ended d c) ps ih = refl
    resume_feeds (malformed d c) ps ih = refl

    -- The decoder reads every body the way the reference does that takes one byte at a time, whatever
    -- the calls that bring the bytes: for a context on which the callback acts additively, and a sound
    -- state of the decoder, as the initial one is.
    pub chunk_feeds-bytewise :
        (d : ChunkDec) (c : C) (ps : List Bytes)
        → IsSound d
        → chunk_feeds d c ps ≡ bytewise sink d c (flatten ps)
    unfolding chunk_feeds bytewise
    chunk_feeds-bytewise d c [] v = refl
    chunk_feeds-bytewise d c (p ∷ ps) v =
        ap (λ o. and_then o (λ d' c'. chunk_feeds d' c' ps)) (fed d c p v)
        ∙ resume_feeds (bytewise sink d c p) ps
            (λ d' c' e. chunk_feeds-bytewise d' c' ps (bytewise_keeps d c p d' c' v e))
        ∙ sym (bytewise-append d c p (flatten ps))
