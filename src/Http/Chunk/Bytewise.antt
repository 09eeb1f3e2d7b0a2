-- ===== src/Http/Chunk/Bytewise.antt =====
-- The chunk decoder of wrapper/src/transport_http.c against a reference that reads one byte at a time.
use mcpbridge.Base.{
  ℕ, zero, suc, ◌-◌, ◌≤◌, ◌<◌, ◌≡◌, refl, ap, sym, ◌∙◌, inl, inr, Bytes, true, false, [], ◌∷◌, ◌++◌,
  ltb, if◌then◌else◌, length, take, drop, arith, length-drop, length-take, take-append-drop,
  Option-cases, ◌⊎◌,
}
use mcpbridge.Http.Chunk.{
  ChunkState, want_size, want_data, want_crlf, done, ChunkDec, Outcome, ended, Round, next, stop,
  pass_on, chunk_size, begin_chunk, size_byte, after_data, crlf_byte, data_bytes, chunk_round,
  at_end, chunk_loop,
}

-- The decoder is in a data state only with data left.
pub record IsSound (d : ChunkDec) : Type 0 where
  pub some_left : d.state ≡ want_data → 0 < d.remaining

pub after_data-IsSound : (d : ChunkDec) (n : ℕ) → IsSound (after_data d n)
unfolding after_data
after_data-IsSound d n = record { some_left = λ q. ground (arith, q) }

pub State-cases :
    (s : ChunkState) → (s ≡ want_size) ⊎ (s ≡ want_data) ⊎ (s ≡ want_crlf) ⊎ (s ≡ done)
State-cases want_size = inl refl
State-cases want_data = inr (inl refl)
State-cases want_crlf = inr (inr (inl refl))
State-cases done = inr (inr (inr refl))

module _ {C : Type 0} (sink : C → Bytes → C) where
  unfoldable pub one_byte : ChunkDec → C → ℕ → Round C
  one_byte d c b = elim d.state [
    | want_size ↦ size_byte d c b []
    | want_data ↦ next (after_data d 1) (sink c (b ∷ [])) []
    | want_crlf ↦ crlf_byte d c b []
    | done ↦ stop (ended d c)
  ]

  unfoldable pub bytewise : ChunkDec → C → Bytes → Outcome C
  unfolding one_byte
  bytewise d c [] = at_end sink d c
  bytewise d c (b ∷ bs) = elim (one_byte d c b) [ next d' c' _ ↦ bytewise d' c' bs | stop o ↦ o ]

  module _ (additive : (c : C) (x y : Bytes) → sink c (x ++ y) ≡ sink (sink c x) y) where
    pub data_run :
        (d : ChunkDec) (c : C) (x : ℕ) (xs ys : Bytes)
        → d.state ≡ want_data
        → length (x ∷ xs) ≤ d.remaining
        → bytewise d c ((x ∷ xs) ++ ys)
          ≡ bytewise (after_data d (length (x ∷ xs))) (sink c (x ∷ xs)) ys
    unfolding bytewise
    data_run d c x [] ys e h = ground (arith, e)
    data_run d c x (y ∷ r) ys e h =
        let one : bytewise d c (x ∷ y ∷ (r ++ ys))
            ≡ bytewise (after_data d 1) (sink c (x ∷ [])) (y ∷ (r ++ ys)) =
          ground (arith, e) in
        let still : (after_data d 1).state ≡ want_data = unfold after_data in ground (arith, e) in
        let left : length (y ∷ r) ≤ (after_data d 1).remaining =
          unfold after_data in ground arith in
        let sum : after_data (after_data d 1) (length (y ∷ r)) ≡ after_data d (length (x ∷ y ∷ r)) =
          unfold after_data in ground arith in
        one
        ∙ data_run (after_data d 1) (sink c (x ∷ [])) y r ys still left
        ∙ ap (λ k. bytewise k (sink (sink c (x ∷ [])) (y ∷ r)) ys) sum
        ∙ ap (λ k. bytewise (after_data d (length (x ∷ y ∷ r))) k ys)
            (sym (additive c (x ∷ []) (y ∷ r)))

    -- The rest of the loop.
    abbrev Rest : ℕ → Type 0
    Rest f =
        (d : ChunkDec) (c : C) (bs : Bytes)
        → length bs ≤ f
        → IsSound d
        → chunk_loop sink f d c bs ≡ bytewise d c bs

    size_step :
        (f : ℕ) (d : ChunkDec) (c : C) (b : ℕ) (bs : Bytes)
        → d.state ≡ want_size
        → length bs ≤ f
        → Rest f
        → chunk_loop sink (suc f) d c (b ∷ bs) ≡ bytewise d c (b ∷ bs)
    unfolding chunk_loop bytewise size_byte begin_chunk chunk_round
    size_step f d c b bs e h rest =
        let longer = record d { line = d.line ++ b ∷ [] } in
        let ih = rest longer c bs h (record { some_left = λ q. cc }) in
        elim (Option-cases (chunk_size d.line)) [
          | inl gone ↦ ground (arith, e, gone, ih)
          | inr (zero, g) ↦ ground (arith, e, g, ih)
          | inr (suc n, g) ↦
              let begun = record d { line = []; remaining = suc n; state = want_data } in
              ground (arith, e, g, ih, rest begun c bs h (record { some_left = λ q. omega arith }))
        ]

    crlf_step :
        (f : ℕ) (d : ChunkDec) (c : C) (b : ℕ) (bs : Bytes)
        → d.state ≡ want_crlf
        → length bs ≤ f
        → Rest f
        → chunk_loop sink (suc f) d c (b ∷ bs) ≡ bytewise d c (b ∷ bs)
    unfolding chunk_loop bytewise crlf_byte chunk_round
    crlf_step f d c b bs e h rest = ground (
      arith,
      e,
      rest (record d { crlf_seen = true }) c bs h (record { some_left = λ q. cc }),
      rest (record d { state = want_size; crlf_seen = false }) c bs h
          (record { some_left = λ q. cc }),
    )

    data_bytes_lem :
        (d : ChunkDec) (c : C) (b : ℕ) (bs : Bytes) (k : ℕ)
        → (if ltb (length (b ∷ bs)) d.remaining then length (b ∷ bs) else d.remaining) ≡ suc k
        → data_bytes sink d c (b ∷ bs)
          ≡ next (after_data d (suc k)) (sink c (b ∷ take k bs)) (drop k bs)
    unfolding data_bytes
    data_bytes_lem d c b bs k e =
        ap (λ n. next (after_data d n) (pass_on sink c (take n (b ∷ bs))) (drop n (b ∷ bs))) e

    data_step :
        (f : ℕ) (d : ChunkDec) (c : C) (b : ℕ) (bs : Bytes)
        → d.state ≡ want_data
        → 0 < d.remaining
        → length bs ≤ f
        → Rest f
        → chunk_loop sink (suc f) d c (b ∷ bs) ≡ bytewise d c (b ∷ bs)
    unfolding chunk_loop chunk_round
    data_step f d c b bs e more h rest =
        let n : ℕ = if ltb (length (b ∷ bs)) d.remaining then length (b ∷ bs) else d.remaining in
        let k : ℕ = n - 1 in
        let whole : n ≡ suc k = ground arith in
        let inside : k ≤ length bs = ground arith in
        let size : length (b ∷ take k bs) ≡ suc k = ap suc (length-take k bs inside) in
        let step : chunk_loop sink (suc f) d c (b ∷ bs)
            ≡ chunk_loop sink f (after_data d (suc k)) (sink c (b ∷ take k bs)) (drop k bs) =
          ground (arith, e, data_bytes_lem d c b bs k whole) in
        step
        ∙ rest (after_data d (suc k)) (sink c (b ∷ take k bs)) (drop k bs)
            (omega (arith, length-drop k bs)) (after_data-IsSound d (suc k))
        ∙ ap (λ m. bytewise (after_data d m) (sink c (b ∷ take k bs)) (drop k bs)) (sym size)
        ∙ sym (data_run d c b (take k bs) (drop k bs) e (rw size (ground arith)))
        ∙ ap (λ r. bytewise d c (b ∷ r)) (take-append-drop k bs)

    pub loop-bytewise :
        (f : ℕ) (d : ChunkDec) (c : C) (bs : Bytes)
        → length bs ≤ f
        → IsSound d
        → chunk_loop sink f d c bs ≡ bytewise d c bs
    unfolding chunk_loop bytewise
    loop-bytewise zero d c [] h v = refl
    loop-bytewise zero d c (b ∷ bs) h v = absurd (omega arith)
    loop-bytewise (suc f) d c [] h v = refl
    loop-bytewise (suc f) d c (b ∷ bs) h v = elim (State-cases d.state) [
      | inl size ↦
          size_step f d c b bs size (omega arith)
            (λ d' c' bs' h' v'. loop-bytewise f d' c' bs' h' v')
      | inr (inl data_left) ↦
          data_step f d c b bs data_left (v.some_left data_left) (omega arith)
            (λ d' c' bs' h' v'. loop-bytewise f d' c' bs' h' v')
      | inr (inr (inl crlf)) ↦
          crlf_step f d c b bs crlf (omega arith)
            (λ d' c' bs' h' v'. loop-bytewise f d' c' bs' h' v')
      | inr (inr (inr over)) ↦ unfold chunk_round one_byte in ground (arith, over)
    ]
