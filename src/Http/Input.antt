-- ===== src/Http/Input.antt =====
-- What wrapper/src/transport_http.c can read from a connection: the runs of bytes in which the answer
-- arrives, and how it ends. `read` brings at most the bytes asked for, of one run; which runs they
-- are is open. `read_some` retries on EINTR, which is not an outcome here.
use mcpbridge.Base.{
  ℕ, ◌≤◌, ◌<◌, ◌≡◌, refl, ap, sym, ◌∙◌, Bytes, Option, none, some, List, [], ◌∷◌, ◌++◌,
  append_assoc, leb, if◌then◌else◌, length, take, drop, flatten, arith, length-take,
  take-append-drop, Bool-cases, inl, inr,
}
use mcpbridge.Transport.{Errno}

pub record Input : Type 0 where
  pub runs : List Bytes
  -- The error at the end; `none` is the end of the file.
  pub failure : Option Errno

-- All bytes to come.
abbrev pub bytes_of : Input → Bytes
bytes_of i = flatten i.runs

pub data ReadResult : Type 0 where
  got : Bytes → Input → ReadResult
  eof : ReadResult
  read_failed : Errno → ReadResult

abbrev pub take_run : ℕ → List Bytes → Option (Bytes × List Bytes)
take_run n [] = none
take_run n ([] ∷ rs) = take_run n rs
take_run n ((b ∷ bs) ∷ rs) =
    if leb (length (b ∷ bs)) n
    then some (b ∷ bs, rs)
    else some (take n (b ∷ bs), drop n (b ∷ bs) ∷ rs)

unfoldable pub read_some : ℕ → Input → ReadResult
read_some n i = elim (take_run n i.runs) [
  | none ↦ elim i.failure [ none ↦ eof | some e ↦ read_failed e ]
  | some (bytes, more) ↦ got bytes (record i { runs = more })
]

-- What a read comes to.
pub data IsRead (n : ℕ) (i : Input) : Type 0 where
  brings :
      (bytes : Bytes) (more : List Bytes)
      → read_some n i ≡ got bytes (record i { runs = more })
      → flatten i.runs ≡ bytes ++ flatten more
      → 0 < length bytes
      → length bytes ≤ n
      → IsRead n i
  ends :
      flatten i.runs ≡ []
      → read_some n i ≡ elim i.failure [ none ↦ eof | some e ↦ read_failed e ]
      → IsRead n i

pub read_some_lem : (n : ℕ) (i : Input) → 0 < n → IsRead n i
unfolding read_some
read_some_lem n i p = at i.runs i.failure
  where
    at : (rs : List Bytes) (f : Option Errno) → IsRead n (record { runs = rs; failure = f })
    at [] f = ends refl refl
    at ([] ∷ rs) f = elim (at rs f) [
      | brings bytes more e s l u ↦ brings bytes more e s l u
      | ends s e ↦ ends s e
    ]
    at ((b ∷ bs) ∷ rs) f = elim (Bool-cases (leb (length (b ∷ bs)) n)) [
      | inl whole ↦
          brings (b ∷ bs) rs (ground (arith, whole)) refl (omega arith) (ground (arith, whole))
      | inr part ↦
          let inside : n ≤ length (b ∷ bs) = ground (arith, part) in
          let cut = length-take n (b ∷ bs) inside in
          brings (take n (b ∷ bs)) (drop n (b ∷ bs) ∷ rs) (ground (arith, part))
            (ap (λ x. x ++ flatten rs) (sym (take-append-drop n (b ∷ bs)))
              ∙ append_assoc (take n (b ∷ bs)) (drop n (b ∷ bs)) (flatten rs))
            (omega (arith, cut)) (omega (arith, cut))
    ]
