-- ===== src/Http/Chunk/Map.antt =====
-- The chunk decoder of wrapper/src/transport_http.c does not look at the context of its callback.
use mcpbridge.Base.{
  ℕ, zero, suc, ◌≡◌, refl, ap, ◌∙◌, inl, inr, Bytes, List, [], ◌∷◌, ltb, if◌then◌else◌, length,
  take, drop, arith, Option-cases,
}
use mcpbridge.Http.Chunk.{
  ChunkDec, chunk_size, Outcome, wants_more, ended, malformed, Round, next, stop, begin_chunk,
  size_byte, after_data, crlf_byte, pass_on, data_bytes, chunk_round, at_end, chunk_loop,
  chunk_dec_feed,
}
use mcpbridge.Http.Chunk.Bytewise.{State-cases}
use mcpbridge.Http.Chunk.Pieces.{chunk_feeds}

module _ {A B : Type 0} (g : A → B) where
  abbrev pub with_context : Outcome A → Outcome B
  with_context (wants_more d a) = wants_more d (g a)
  with_context (ended d a) = ended d (g a)
  with_context (malformed d a) = malformed d (g a)

  abbrev round_with : Round A → Round B
  round_with (next d a rest) = next d (g a) rest
  round_with (stop o) = stop (with_context o)

  module _ (f : A → Bytes → A) (k : B → Bytes → B)
      (same : (a : A) (bs : Bytes) → k (g a) bs ≡ g (f a bs)) where
    pass_on_with : (a : A) (bs : Bytes) → pass_on k (g a) bs ≡ g (pass_on f a bs)
    pass_on_with a [] = refl
    pass_on_with a (b ∷ bs) = same a (b ∷ bs)

    at_end_with : (d : ChunkDec) (a : A) → at_end k d (g a) ≡ with_context (at_end f d a)
    at_end_with d a = elim (State-cases d.state) [
      | inl e ↦ ground (arith, e)
      | inr (inl e) ↦ ground (arith, e)
      | inr (inr (inl e)) ↦ ground (arith, e)
      | inr (inr (inr e)) ↦ ground (arith, e)
    ]

    data_with :
        (d : ChunkDec) (a : A) (bytes : Bytes)
        → data_bytes k d (g a) bytes ≡ round_with (data_bytes f d a bytes)
    unfolding data_bytes
    data_with d a bytes =
        let n = if ltb (length bytes) d.remaining then length bytes else d.remaining in
        ap (λ c. next (after_data d n) c (drop n bytes)) (pass_on_with a (take n bytes))

    round_lem :
        (d : ChunkDec) (a : A) (b : ℕ) (rest : Bytes)
        → chunk_round k d (g a) b rest ≡ round_with (chunk_round f d a b rest)
    unfolding chunk_round size_byte begin_chunk crlf_byte
    round_lem d a b rest = elim (Option-cases (chunk_size d.line)) [
      | inl gone ↦ ground (arith, gone, data_with d a (b ∷ rest))
      | inr (n, e) ↦ ground (arith, e, data_with d a (b ∷ rest))
    ]

    then_with :
        (r : Round A) (h : (d : ChunkDec) (a : A) (bs : Bytes) → Outcome A)
        (h' : (d : ChunkDec) (b : B) (bs : Bytes) → Outcome B)
        → ((d : ChunkDec) (a : A) (bs : Bytes) → h' d (g a) bs ≡ with_context (h d a bs))
        → (elim (round_with r) as (λ _. Outcome B) [ next d b bs ↦ h' d b bs | stop o ↦ o ])
          ≡ with_context (elim r as (λ _. Outcome A) [ next d a bs ↦ h d a bs | stop o ↦ o ])
    then_with (next d a bs) h h' e = e d a bs
    then_with (stop o) h h' e = refl

    loop_lem :
        (n : ℕ) (d : ChunkDec) (a : A) (bs : Bytes)
        → chunk_loop k n d (g a) bs ≡ with_context (chunk_loop f n d a bs)
    unfolding chunk_loop
    loop_lem zero d a bs = at_end_with d a
    loop_lem (suc n) d a [] = at_end_with d a
    loop_lem (suc n) d a (b ∷ bs) =
        ap
          (λ r. elim r as (λ _. Outcome B) [
            | next d' b' bs' ↦ chunk_loop k n d' b' bs'
            | stop o ↦ o
          ])
          (round_lem d a b bs)
        ∙ then_with (chunk_round f d a b bs) (chunk_loop f n) (chunk_loop k n) (loop_lem n)

    after_with :
        (o : Outcome A) (ps : List Bytes)
        → ((d : ChunkDec) (a : A) → chunk_feeds k d (g a) ps ≡ with_context (chunk_feeds f d a ps))
        → (elim (with_context o) as (λ _. Outcome B) [
          | wants_more d b ↦ chunk_feeds k d b ps
          | ended d b ↦ ended d b
          | malformed d b ↦ malformed d b
        ])
          ≡ with_context (elim o as (λ _. Outcome A) [
            | wants_more d a ↦ chunk_feeds f d a ps
            | ended d a ↦ ended d a
            | malformed d a ↦ malformed d a
          ])
    after_with (wants_more d a) ps e = e d a
    after_with (ended d a) ps e = refl
    after_with (malformed d a) ps e = refl

    -- Two callbacks that agree along `g` give outcomes that agree along it.
    pub chunk_feeds_with :
        (d : ChunkDec) (a : A) (ps : List Bytes)
        → chunk_feeds k d (g a) ps ≡ with_context (chunk_feeds f d a ps)
    unfolding chunk_feeds chunk_dec_feed
    chunk_feeds_with d a [] = at_end_with d a
    chunk_feeds_with d a (p ∷ ps) =
        ap
          (λ o. elim o as (λ _. Outcome B) [
            | wants_more d' b ↦ chunk_feeds k d' b ps
            | ended d' b ↦ ended d' b
            | malformed d' b ↦ malformed d' b
          ])
          (loop_lem (length p) d a p)
        ∙ after_with (chunk_dec_feed f d a p) ps (λ d' a'. chunk_feeds_with d' a' ps)
