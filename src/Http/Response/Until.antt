-- ===== src/Http/Response/Until.antt =====
-- What `read_until_headers_done` of wrapper/src/transport_http.c finds, whatever the reads bring.
use mcpbridge.Base.{
  ℕ, zero, suc, ◌+◌, ◌-◌, ◌≤◌, ◌<◌, ◌≡◌, refl, ap, sym, ◌∙◌, Bytes, bytes_eq, true, false, Option,
  none, some, [], ◌∷◌, ◌++◌, append_assoc, append-nil, leb, length, length-append, take-append,
  flatten, arith, inl, inr, Option-cases, Bool-cases,
}
use mathlib.Core.Option.{some-injective, none-ne-some}
use mcpbridge.CLib.{starts_with}
use mcpbridge.Http.Input.{Input, bytes_of, brings, ends, read_some_lem}
use mcpbridge.Http.Response.{
  crlf_crlf, header_end_of, HeadResult, head_read, head_loop, read_until_headers_done,
}

starts_with-append :
    (x y : Bytes) → 4 ≤ length x → starts_with crlf_crlf (x ++ y) ≡ starts_with crlf_crlf x
starts_with-append x y h = ap (λ t. bytes_eq t crlf_crlf) (take-append 4 x y h)

starts_with-long : (x : Bytes) → starts_with crlf_crlf x ≡ true → 4 ≤ length x
unfolding bytes_eq
starts_with-long [] h = absurd (ground (arith, h))
starts_with-long (a ∷ []) h = absurd (ground (arith, h))
starts_with-long (a ∷ b ∷ []) h = absurd (ground (arith, h))
starts_with-long (a ∷ b ∷ c ∷ []) h = absurd (ground (arith, h))
starts_with-long (a ∷ b ∷ c ∷ d ∷ x) h = omega arith

header_end_of-next :
    (b : ℕ) (x : Bytes)
    → starts_with crlf_crlf (b ∷ x) ≡ false
    → header_end_of (b ∷ x) ≡ (elim (header_end_of x) [ none ↦ none | some n ↦ some (suc n) ])
unfolding header_end_of
header_end_of-next b x h = rw h refl

header_end_of-here :
    (b : ℕ) (x : Bytes) → starts_with crlf_crlf (b ∷ x) ≡ true → header_end_of (b ∷ x) ≡ some 4
unfolding header_end_of
header_end_of-here b x h = rw h refl

-- Where a head ends behind the first byte.
record Later (b : ℕ) (x : Bytes) (n : ℕ) : Type 0 where
  before : ℕ
  behind : header_end_of x ≡ some before
  one_more : n ≡ suc before

later :
    (b : ℕ) (x : Bytes) (n : ℕ)
    → starts_with crlf_crlf (b ∷ x) ≡ false
    → header_end_of (b ∷ x) ≡ some n
    → Later b x n
later b x n not_here h = elim (Option-cases (header_end_of x)) [
  | inl gone ↦ absurd (
      none-ne-some n (
        sym (
          header_end_of-next b x not_here
          ∙ ap (λ o. elim o [ none ↦ none | some k ↦ some (suc k) ]) gone)
        ∙ h))
  | inr (k, e) ↦ record {
    before = k;
    behind = e;
    one_more = some-injective _ _ (
        sym h
        ∙ header_end_of-next b x not_here
        ∙ ap (λ o. elim o [ none ↦ none | some k' ↦ some (suc k') ]) e);
  }
]

header_end_of-bounds : (n : ℕ) (x : Bytes) → header_end_of x ≡ some n → (4 ≤ n) × (n ≤ length x)
unfolding header_end_of
header_end_of-bounds n [] h = absurd (ground (arith, h))
header_end_of-bounds n (b ∷ x) h = elim (Bool-cases (starts_with crlf_crlf (b ∷ x))) [
  | inl here ↦
      let four : n ≡ 4 = some-injective _ _ (sym h ∙ header_end_of-here b x here) in
      (omega (arith, four), omega (arith, four, starts_with-long (b ∷ x) here))
  | inr not_here ↦
      let l = later b x n not_here h in
      let ih = header_end_of-bounds l.before x l.behind in
      (omega (arith, ih.0, l.one_more), omega (arith, ih.1, l.one_more))
]

-- The end of a head in a buffer stays where it is when bytes are added.
header_end_of-front :
    (n : ℕ) (x y : Bytes) → header_end_of x ≡ some n → header_end_of (x ++ y) ≡ some n
header_end_of-front n [] y h = absurd (unfold header_end_of in ground (arith, h))
header_end_of-front n (b ∷ x) y h = elim (Bool-cases (starts_with crlf_crlf (b ∷ x))) [
  | inl here ↦
      header_end_of-here b (x ++ y)
        (starts_with-append (b ∷ x) y (starts_with-long (b ∷ x) here) ∙ here)
      ∙ sym (header_end_of-here b x here)
      ∙ h
  | inr not_here ↦
      let l = later b x n not_here h in
      let long = header_end_of-bounds l.before x l.behind in
      header_end_of-next b (x ++ y)
        (starts_with-append (b ∷ x) y (omega (arith, long.0, long.1)) ∙ not_here)
      ∙ ap (λ o. elim o [ none ↦ none | some k ↦ some (suc k) ])
          (header_end_of-front l.before x y l.behind)
      ∙ ap some (sym l.one_more)
]

-- A buffer with nothing to find ends before the head does.
header_end_of-past :
    (n : ℕ) (x y : Bytes) → header_end_of (x ++ y) ≡ some n → header_end_of x ≡ none → length x < n
header_end_of-past n [] y h none_here = let b = header_end_of-bounds n y h in omega (arith, b.0)
header_end_of-past n (b ∷ x) y h none_here =
    elim (Bool-cases (starts_with crlf_crlf (b ∷ (x ++ y)))) [
      | inl here ↦
          let four : n ≡ 4 = some-injective _ _ (sym h ∙ header_end_of-here b (x ++ y) here) in
          elim (Bool-cases (leb 4 (length (b ∷ x)))) [
            | inl long ↦
                let found =
                  header_end_of-here b x
                    (sym (starts_with-append (b ∷ x) y (ground (arith, long))) ∙ here) in
                absurd (none-ne-some 4 (sym none_here ∙ found))
            | inr short ↦ ground (arith, short, four)
          ]
      | inr not_here ↦
          let l = later b (x ++ y) n not_here h in
          let far = header_end_of-bounds l.before (x ++ y) l.behind in
          elim (Bool-cases (leb 4 (length (b ∷ x)))) [
            | inl long ↦
                let same = sym (starts_with-append (b ∷ x) y (ground (arith, long))) ∙ not_here in
                elim (Option-cases (header_end_of x)) [
                  | inl gone ↦
                      omega (arith, l.one_more, header_end_of-past l.before x y l.behind gone)
                  | inr (k, e) ↦ absurd (
                      none-ne-some (suc k) (
                        sym none_here
                        ∙ header_end_of-next b x same
                        ∙ ap (λ o. elim o [ none ↦ none | some k' ↦ some (suc k') ]) e))
                ]
            | inr short ↦ ground (arith, short, far, l.one_more)
          ]
    ]

-- What the loop has read.
record Found (all : Bytes) (n : ℕ) (buf_cap : ℕ) (result : Option HeadResult) : Type 0 where
  pub buf : Bytes
  pub left : Input
  pub found : result ≡ some (head_read buf n left)
  pub nothing_lost : buf ++ bytes_of left ≡ all
  pub inside : (n ≤ length buf) × (length buf ≤ buf_cap)
  pub ends_so : header_end_of buf ≡ some n

loop-Found :
    (f buf_cap n : ℕ) (buf : Bytes) (i : Input) (all : Bytes)
    → buf ++ bytes_of i ≡ all
    → header_end_of all ≡ some n
    → header_end_of buf ≡ none
    → n ≤ buf_cap
    → buf_cap ≤ length buf + f
    → Found all n buf_cap (head_loop (suc f) buf_cap buf i)
unfolding head_loop
loop-Found zero buf_cap n buf i all whole here none_yet fits fuel =
    absurd (
      omega (arith, header_end_of-past n buf (bytes_of i) (ap header_end_of whole ∙ here) none_yet))
loop-Found (suc f) buf_cap n buf i all whole here none_yet fits fuel =
    let early : length buf < n =
      header_end_of-past n buf (bytes_of i) (ap header_end_of whole ∙ here) none_yet in
    let room : leb buf_cap (length buf) ≡ false = ground (arith, early, fits) in
    elim (read_some_lem (buf_cap - length buf) i (omega (arith, early, fits))) [
      | ends nothing e ↦ absurd (
          none-ne-some n (
            sym none_yet
            ∙ ap header_end_of (sym (append-nil buf) ∙ ap (λ r. buf ++ r) (sym nothing) ∙ whole)
            ∙ here))
      | brings bytes more e rest some_read bounded ↦
          let have = buf ++ bytes in
          let i' = record i { runs = more } in
          let whole' : have ++ bytes_of i' ≡ all =
            append_assoc buf bytes (flatten more) ∙ ap (λ r. buf ++ r) (sym rest) ∙ whole in
          let size = length-append buf bytes in
          elim (Option-cases (header_end_of have)) [
            | inr (m, g) ↦
                let same : m ≡ n = some-injective _ _ (
                  sym (header_end_of-front m have (bytes_of i') g)
                  ∙ ap header_end_of whole'
                  ∙ here) in
                record {
                  buf = have;
                  left = i';
                  found = ground (arith, room, e, g, same);
                  nothing_lost = whole';
                  inside = (
                    omega (arith, same, (header_end_of-bounds m have g).1),
                    omega (arith, size, bounded, early, fits),
                  );
                  ends_so = g ∙ ap some same;
                }
            | inl gone ↦
                let ih =
                  loop-Found f buf_cap n have i' all whole' here gone fits
                    (omega (arith, size, some_read, fuel)) in
                let step : head_loop (suc (suc f)) buf_cap buf i
                    ≡ head_loop (suc f) buf_cap have i' =
                  ground (arith, room, e, gone) in
                record {
                  buf = ih.buf;
                  left = ih.left;
                  found = step ∙ ih.found;
                  nothing_lost = ih.nothing_lost;
                  inside = ih.inside;
                  ends_so = ih.ends_so;
                }
          ]
    ]

-- A head that ends within the buffer is found, whatever the reads bring: the buffer and what is left
-- to read are the whole answer, and the end is that of the first CRLF-CRLF.
pub read_until_headers_done-finds :
    (buf_cap n : ℕ) (i : Input)
    → header_end_of (bytes_of i) ≡ some n
    → n ≤ buf_cap
    → (buf : Bytes) × (left : Input) × (read_until_headers_done buf_cap i
        ≡ some (head_read buf n left))
      × (buf ++ bytes_of left ≡ bytes_of i)
      × (n ≤ length buf)
      × (length buf ≤ buf_cap)
unfolding read_until_headers_done header_end_of
read_until_headers_done-finds buf_cap n i h fits =
    let r = loop-Found buf_cap buf_cap n [] i (bytes_of i) refl h refl fits (omega arith) in
    (r.buf, r.left, r.found, r.nothing_lost, r.inside.0, r.inside.1)
