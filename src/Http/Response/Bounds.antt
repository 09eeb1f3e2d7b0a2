-- ===== src/Http/Response/Bounds.antt =====
-- What `parse_response_headers` of wrapper/src/transport_http.c accepts.
use mcpbridge.Base.{
  ℕ, zero, suc, ◌≤◌, ◌<◌, ◌≡◌, refl, sym, Bytes, bytes_eq, Bool, true, false, ◌&&◌, some, [], ◌∷◌,
  ◌++◌, ◌==◌, length, take, arith, inl, inr, Option-cases, Bool-cases,
}
use mathlib.Core.Path.{subst}
use mcpbridge.CLib.{c_string, contains, cut_at, strtol}
use mathlib.Core.Option.{some-injective}
use mcpbridge.Http.Chunk.{not_negative}
use mcpbridge.Http.Response.{
  HttpResponse, no_response, status_line, session_size, header_field, header_line, trim, one_line,
  header_loop, parse_response_headers,
}

-- In the bounds of its C type; `status` is set once a line is read.
pub record InBounds (first : Bool) (r : HttpResponse) : Type 0 where
  pub status_range : first ≡ false → (100 ≤ r.status) × (r.status ≤ 599)
  pub session_fits : length r.session_id < session_size

length-take_at_most : (n : ℕ) (xs : Bytes) → length (take n xs) ≤ n
length-take_at_most zero xs = omega arith
length-take_at_most (suc n) [] = omega arith
length-take_at_most (suc n) (x ∷ xs) = omega (arith, length-take_at_most n xs)

header_field-InBounds :
    (r : HttpResponse) (name value : Bytes)
    → InBounds false r
    → InBounds false (header_field r name value)
unfolding header_field
header_field-InBounds r name value v = elim (Option-cases (not_negative (strtol 10 value))) [
  | inl gone ↦ record {
    status_range =
        λ _. (ground (arith, gone, v.status_range refl), ground (arith, gone, v.status_range refl));
    session_fits = ground (arith, gone, v.session_fits, length-take_at_most 127 value);
  }
  | inr (n, e) ↦ record {
    status_range =
        λ _. (ground (arith, e, v.status_range refl), ground (arith, e, v.status_range refl));
    session_fits = ground (arith, e, v.session_fits, length-take_at_most 127 value);
  }
]

header_line-InBounds :
    (r : HttpResponse) (line : Bytes) → InBounds false r → InBounds false (header_line r line)
unfolding header_line
header_line-InBounds r line v = elim (Option-cases (cut_at b':' line)) [
  | inl gone ↦
      let same : header_line r line ≡ r = ground (arith, gone) in
      subst (InBounds false) (sym same) v
  | inr ((name, behind), e) ↦
      let field : header_line r line ≡ header_field r name (trim behind) = ground (arith, e) in
      subst (InBounds false) (sym field) (header_field-InBounds r name (trim behind) v)
]

status_line-InBounds :
    (r : HttpResponse) (line : Bytes) (r' : HttpResponse)
    → InBounds true r
    → status_line r line ≡ some r'
    → InBounds false r'
unfolding status_line
status_line-InBounds r line r' v h = elim (Option-cases (cut_at b' ' line)) [
  | inl gone ↦ absurd (ground (arith, gone, h))
  | inr ((name, behind), e) ↦ record {
    status_range = λ _. (ground (arith, e, h), ground (arith, e, h));
    session_fits = ground (arith, e, h, v.session_fits);
  }
]

one_line-InBounds :
    (first : Bool) (r : HttpResponse) (line : Bytes) (r' : HttpResponse)
    → InBounds first r
    → one_line first r line ≡ some r'
    → InBounds false r'
unfolding one_line
one_line-InBounds true r line r' v h = status_line-InBounds r (c_string line) r' v h
one_line-InBounds false r line r' v h =
    subst (InBounds false) (some-injective _ _ h) (header_line-InBounds r (c_string line) v)

header_loop-InBounds :
    (r : HttpResponse) (line rest : Bytes) (r' : HttpResponse)
    → InBounds false r
    → header_loop false r line rest ≡ some r'
    → InBounds false r'
unfolding header_loop
header_loop-InBounds r line [] r' v h = subst (InBounds false) (some-injective _ _ h) v
header_loop-InBounds r line (a ∷ []) r' v h = subst (InBounds false) (some-injective _ _ h) v
header_loop-InBounds r line (a ∷ b ∷ rest) r' v h = elim (Bool-cases (a == b'\r' && b == b'\n')) [
  | inl end ↦ elim (Option-cases (one_line false r line)) [
    | inl gone ↦ absurd (ground (arith, end, gone, h))
    | inr (o, e) ↦
        header_loop-InBounds o [] rest r' (one_line-InBounds false r line o v e)
          (ground (arith, end, e, h))
  ]
  | inr inside ↦ header_loop-InBounds r (line ++ a ∷ []) (b ∷ rest) r' v (ground (arith, inside, h))
]

abbrev pub crlf : Bytes
crlf = b'\r' ∷ b'\n' ∷ []

first_line-InBounds :
    (r : HttpResponse) (line rest : Bytes) (r' : HttpResponse)
    → InBounds true r
    → contains crlf rest ≡ true
    → header_loop true r line rest ≡ some r'
    → InBounds false r'
unfolding header_loop contains bytes_eq
first_line-InBounds r line [] r' v c h = absurd (ground (arith, c))
first_line-InBounds r line (a ∷ []) r' v c h = absurd (ground (arith, c))
first_line-InBounds r line (a ∷ b ∷ rest) r' v c h = elim (Bool-cases (a == b'\r' && b == b'\n')) [
  | inl end ↦ elim (Option-cases (one_line true r line)) [
    | inl gone ↦ absurd (ground (arith, end, gone, h))
    | inr (o, e) ↦
        header_loop-InBounds o [] rest r' (one_line-InBounds true r line o v e)
          (ground (arith, end, e, h))
  ]
  | inr inside ↦
      first_line-InBounds r (line ++ a ∷ []) (b ∷ rest) r' v (ground (arith, inside, c))
        (ground (arith, inside, h))
]

-- Whatever head is accepted, of one line at least: the status is from 100 to 599, and the session id
-- fits into its 128 bytes with its NUL.
pub parse_response_headers-bounds :
    (hdr : Bytes) (r : HttpResponse)
    → contains crlf hdr ≡ true
    → parse_response_headers hdr ≡ some r
    → (100 ≤ r.status) × (r.status ≤ 599) × (length r.session_id < session_size)
unfolding parse_response_headers no_response
parse_response_headers-bounds hdr r c h =
    let v =
      first_line-InBounds no_response [] hdr r
        (record { status_range = λ q. absurd (ground (arith, q)); session_fits = omega arith }) c
        h in
    ((v.status_range refl).0, (v.status_range refl).1, v.session_fits)
