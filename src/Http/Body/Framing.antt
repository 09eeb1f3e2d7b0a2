-- ===== src/Http/Body/Framing.antt =====
-- Where a body ends, and what `read_response_body` of wrapper/src/transport_http.c then reports.
use mcpbridge.Base.{
  ℕ, zero, suc, ◌+◌, ◌-◌, ◌≤◌, ◌<◌, ◌≡◌, refl, ap, sym, ◌∙◌, inl, inr, Bytes, true, false, Option,
  none, some, List, [], ◌∷◌, ◌++◌, append-nil, ltb, leb, if◌then◌else◌, length, length-append, take,
  take-append, take-append_past, take-length, flatten, arith, Option-cases, Bool-cases,
}
use mcpbridge.Transport.{Errno, econnaborted}
use mcpbridge.Http.Input.{Input, bytes_of, brings, ends, read_some_lem}
use mcpbridge.Http.Response.{HttpResponse}
use mcpbridge.Http.Body.{
  BodyCtx, body_accept, BodyResult, read_size, length_loop, eof_loop, accept_initial, length_body,
  read_response_body,
}

-- The pieces of a body, one after another.
abbrev pub accept_all : BodyCtx → List Bytes → BodyCtx
accept_all b [] = b
accept_all b (p ∷ ps) = accept_all (body_accept b p) ps

-- The error of an input that ends too early.
abbrev pub cut_short : Input → Errno
cut_short i = elim i.failure [ none ↦ econnaborted | some e ↦ e ]

-- A body of a given length: taken whole, or cut short.
record ByLength (i : Input) (need : ℕ) (b : BodyCtx) (result : Option BodyResult) : Type 0 where
  pub pieces : List Bytes
  pub taken : flatten pieces ≡ take need (bytes_of i)
  pub reported :
      result
      ≡ some
          (accept_all b pieces, if leb need (length (bytes_of i)) then none else some (cut_short i))

by_length :
    (f : ℕ) (i : Input) (need : ℕ) (b : BodyCtx)
    → length (bytes_of i) < f
    → ByLength i need b (length_loop f i need b)
unfolding length_loop
by_length f i zero b h = record { pieces = []; taken = refl; reported = ground arith }
by_length zero i (suc n) b h = absurd (omega arith)
by_length (suc f) i (suc n) b h =
    let want : ℕ = if ltb (suc n) read_size then suc n else read_size in
    elim (read_some_lem want i (ground arith)) [
      | ends nothing e ↦ elim (Option-cases i.failure) [
        | inl closed ↦ record {
          pieces = [];
          taken = rw nothing refl;
          reported = ground (arith, e, nothing, closed);
        }
        | inr (err, broken) ↦ record {
          pieces = [];
          taken = rw nothing refl;
          reported = ground (arith, e, nothing, broken);
        }
      ]
      | brings bytes more e rest some_read bounded ↦
          let i' = record i { runs = more } in
          let within : length bytes ≤ suc n = ground (arith, bounded) in
          let size : length (bytes_of i) ≡ length bytes + length (flatten more) =
            ap length rest ∙ length-append bytes (flatten more) in
          let ih =
            by_length f i' (suc n - length bytes) (body_accept b bytes)
              (omega (arith, size, some_read, h)) in
          let step : length_loop (suc f) i (suc n) b
              ≡ length_loop f i' (suc n - length bytes) (body_accept b bytes) =
            ground (arith, e) in
          let enough : leb (suc n - length bytes) (length (flatten more))
              ≡ leb (suc n) (length (bytes_of i)) =
            ground (arith, size, within) in
          record {
            pieces = bytes ∷ ih.pieces;
            taken =
                ap (◌++◌ bytes) ih.taken
                ∙ sym (take-append_past (suc n) bytes (flatten more) within)
                ∙ ap (take (suc n)) (sym rest);
            reported =
                step
                ∙ ih.reported
                ∙ ap
                    (λ t. some (
                      accept_all (body_accept b bytes) ih.pieces,
                      if t then none else some (cut_short i),
                    ))
                    enough;
          }
    ]

-- The pieces of a body of a given length, and the error.
record Taken (whole : Bytes) (need : ℕ) (b : BodyCtx) (short : Errno) (result : Option BodyResult)
    : Type 0 where
  pub pieces : List Bytes
  pub taken : flatten pieces ≡ take need whole
  pub reported :
      result ≡ some (accept_all b pieces, if leb need (length whole) then none else some short)

length_body_lem :
    (i : Input) (need n : ℕ) (c : ℕ) (cs : Bytes) (b : BodyCtx)
    → (if ltb (length (c ∷ cs)) need then length (c ∷ cs) else need) ≡ n
    → length_body i need (c ∷ cs) b
      ≡ length_loop (suc (length (bytes_of i))) i (need - n) (body_accept b (take n (c ∷ cs)))
unfolding length_body
length_body_lem i need n c cs b e =
    ap (λ k. length_loop (suc (length (bytes_of i))) i (need - k) (body_accept b (take k (c ∷ cs))))
      e

length_body-Taken :
    (i : Input) (need : ℕ) (initial : Bytes) (b : BodyCtx)
    → Taken (initial ++ bytes_of i) need b (cut_short i) (length_body i need initial b)
length_body-Taken i need [] b =
    let r = by_length (suc (length (bytes_of i))) i need b (omega arith) in
    record {
      pieces = r.pieces;
      taken = r.taken;
      reported = unfold length_body in ground (arith, r.reported);
    }
length_body-Taken i need (c ∷ cs) b = elim (Bool-cases (ltb (length (c ∷ cs)) need)) [
  | inl more ↦
      let r =
        by_length (suc (length (bytes_of i))) i (need - length (c ∷ cs)) (body_accept b (c ∷ cs))
          (omega arith) in
      let inside : length (c ∷ cs) ≤ need = ground (arith, more) in
      let enough : leb (need - length (c ∷ cs)) (length (bytes_of i))
          ≡ leb need (length (c ∷ (cs ++ bytes_of i))) =
        ground (arith, inside, length-append cs (bytes_of i)) in
      record {
        pieces = (c ∷ cs) ∷ r.pieces;
        taken =
            ap (◌++◌ (c ∷ cs)) r.taken ∙ sym (take-append_past need (c ∷ cs) (bytes_of i) inside);
        reported =
            length_body_lem i need (length (c ∷ cs)) c cs b (ground (arith, more))
            ∙ ap
                (λ t.
                  length_loop (suc (length (bytes_of i))) i (need - length (c ∷ cs))
                    (body_accept b t))
                (take-length (c ∷ cs))
            ∙ r.reported
            ∙ ap
                (λ t. some (
                  accept_all (body_accept b (c ∷ cs)) r.pieces,
                  if t then none else some (cut_short i),
                ))
                enough;
      }
  | inr fewer ↦
      let inside : need ≤ length (c ∷ cs) = ground (arith, fewer) in
      let spent : need - need ≡ 0 = omega arith in
      let enough : leb need (length (c ∷ (cs ++ bytes_of i))) ≡ true =
        ground (arith, inside, length-append cs (bytes_of i)) in
      record {
        pieces = take need (c ∷ cs) ∷ [];
        taken =
            append-nil (take need (c ∷ cs)) ∙ sym (take-append need (c ∷ cs) (bytes_of i) inside);
        reported =
            length_body_lem i need need c cs b (ground (arith, fewer))
            ∙ ap
                (λ k.
                  length_loop (suc (length (bytes_of i))) i k (body_accept b (take need (c ∷ cs))))
                spent
            ∙ unfold length_loop in
              ap
                (λ t.
                  some (body_accept b (take need (c ∷ cs)), if t then none else some (cut_short i)))
                (sym enough);
      }
]

-- A body without a length.
record UpToEnd (whole : Bytes) (b : BodyCtx) (i : Input) (result : Option BodyResult) : Type 0 where
  pub pieces : List Bytes
  pub taken : flatten pieces ≡ whole
  pub reported : result ≡ some (accept_all b pieces, i.failure)

to_end :
    (f : ℕ) (i : Input) (b : BodyCtx)
    → length (bytes_of i) < f
    → UpToEnd (bytes_of i) b i (eof_loop f i b)
unfolding eof_loop
to_end zero i b h = absurd (omega arith)
to_end (suc f) i b h = elim (read_some_lem read_size i (omega arith)) [
  | ends nothing e ↦ elim (Option-cases i.failure) [
    | inl closed ↦ record { pieces = []; taken = sym nothing; reported = ground (arith, e, closed) }
    | inr (err, broken) ↦ record {
      pieces = [];
      taken = sym nothing;
      reported = ground (arith, e, broken);
    }
  ]
  | brings bytes more e rest some_read bounded ↦
      let i' = record i { runs = more } in
      let size : length (bytes_of i) ≡ length bytes + length (flatten more) =
        ap length rest ∙ length-append bytes (flatten more) in
      let ih = to_end f i' (body_accept b bytes) (omega (arith, size, some_read, h)) in
      let step : eof_loop (suc f) i b ≡ eof_loop f i' (body_accept b bytes) = ground (arith, e) in
      record {
        pieces = bytes ∷ ih.pieces;
        taken = ap (◌++◌ bytes) ih.taken ∙ sym rest;
        reported = step ∙ ih.reported;
      }
]

eof_body-UpToEnd :
    (i : Input) (initial : Bytes) (b : BodyCtx)
    → UpToEnd
        (initial ++ bytes_of i)
        b
        i
        (eof_loop (suc (length (bytes_of i))) i (accept_initial b initial))
eof_body-UpToEnd i [] b = to_end (suc (length (bytes_of i))) i b (omega arith)
eof_body-UpToEnd i (c ∷ cs) b =
    let r = to_end (suc (length (bytes_of i))) i (body_accept b (c ∷ cs)) (omega arith) in
    record {
      pieces = (c ∷ cs) ∷ r.pieces;
      taken = ap (◌++◌ (c ∷ cs)) r.taken;
      reported = r.reported;
    }

-- A body with a Content-Length, and not chunked, whatever the reads bring: the body context takes
-- exactly the first that many bytes of what follows the head, in order, and it is a success if they
-- are all there; if the input ends before, the result is ECONNABORTED, or the error that ends it.
pub read_response_body-by_length :
    (resp : HttpResponse) (need : ℕ) (i : Input) (initial : Bytes) (b : BodyCtx)
    → resp.is_chunked ≡ false
    → resp.content_length ≡ some need
    → (ps : List Bytes) × (flatten ps ≡ take need (initial ++ bytes_of i))
      × (read_response_body resp i initial b
          ≡ some (
            accept_all b ps,
            if leb need (length (initial ++ bytes_of i)) then none else some (cut_short i),
          ))
unfolding read_response_body
read_response_body-by_length resp need i initial b plain known =
    let r = length_body-Taken i need initial b in
    (r.pieces, r.taken, ground (arith, plain, known, r.reported))

-- A body without a length, and not chunked, whatever the reads bring: the body context takes
-- everything that follows the head, and it is a success if the input ends without an error.
pub read_response_body-to_end :
    (resp : HttpResponse) (i : Input) (initial : Bytes) (b : BodyCtx)
    → resp.is_chunked ≡ false
    → resp.content_length ≡ none
    → (ps : List Bytes) × (flatten ps ≡ initial ++ bytes_of i)
      × (read_response_body resp i initial b ≡ some (accept_all b ps, i.failure))
unfolding read_response_body
read_response_body-to_end resp i initial b plain unknown =
    let r = eof_body-UpToEnd i initial b in
    (r.pieces, r.taken, ground (arith, plain, unknown, r.reported))
