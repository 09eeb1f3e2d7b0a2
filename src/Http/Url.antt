-- ===== src/Http/Url.antt =====
-- `http_url_parse` of wrapper/src/transport_http.c. `none` is the return of -1 with EINVAL.
use mathlib.Core.Path.{subst}
use mcpbridge.Base.{
  ℕ, ◌≤◌, ◌<◌, ◌≡◌, refl, ap, sym, ◌⊎◌, inl, inr, Bytes, codes, bytes_eq, bytes_eq_iff, Bool, true,
  false, ◌||◌, Option, none, some, [], ◌∷◌, ltb, leb, ◌==◌, if◌then◌else◌, length, drop, arith,
  Option-cases, Bool-cases,
}
use mcpbridge.Base.Int.{ℤ, pos, negsuc}
use mcpbridge.CLib.{starts_with, strtol}

pub record HttpUrl : Type 0 where
  pub host : Bytes
  pub port : ℕ
  pub path : Bytes

unfoldable pub is_local_host : Bytes → Bool
is_local_host host =
    bytes_eq host (codes "localhost")
    || bytes_eq host (codes "127.0.0.1")
    || bytes_eq host (codes "::1")

-- `sizeof(out->host)`, and of the path.
abbrev pub part_size : ℕ
part_size = 256

-- The host, up to a ':', a '/' or the end, and what follows.
unfoldable pub split_host : Bytes → Bytes × Bytes
split_host [] = ([], [])
split_host (ch ∷ r) =
    let (host, behind) = split_host r in
    if ch == b':' || ch == b'/' then ([], ch ∷ r) else (ch ∷ host, behind)

abbrev valid_port : ℤ × Option Bytes → Option (ℕ × Bytes)
valid_port (_, none) = none
valid_port (negsuc _, some _) = none
valid_port (pos n, some behind) = if n == 0 || ltb 65535 n then none else some (n, behind)

-- The port, 80 without one, and what follows it.
unfoldable pub port_part : Bytes → Option (ℕ × Bytes)
port_part [] = some (80, [])
port_part (ch ∷ r) = if ch == b':' then valid_port (strtol 10 r) else some (80, ch ∷ r)

unfoldable pub path_part : Bytes → Option Bytes
path_part [] = some (b'/' ∷ [])
path_part (ch ∷ r) =
    if ch == b'/' then if leb part_size (length (ch ∷ r)) then none else some (ch ∷ r) else none

-- Behind the host.
unfoldable pub url_tail : Bytes → Bytes → Option HttpUrl
unfolding port_part path_part
url_tail host behind = elim (port_part behind) [
  | none ↦ none
  | some (port, rest) ↦ elim (path_part rest) [
    | none ↦ none
    | some path ↦ some (record { host = host; port = port; path = path })
  ]
]

unfoldable pub http_url_parse : Option Bytes → Option HttpUrl
unfolding split_host is_local_host url_tail
http_url_parse none = none
http_url_parse (some url) =
    let (host, behind) = split_host (drop 7 url) in
    if starts_with (codes "http://") url
    then if length host == 0 || leb part_size (length host)
      then none
      else if is_local_host host
      then url_tail host behind
      else none
    else none

abbrev pub head_of : Bytes → ℕ
head_of [] = 0
head_of (ch ∷ _) = ch

split_host-head : (s : Bytes) → (head_of (split_host s).0 == b':') ≡ false
unfolding split_host
split_host-head [] = refl
split_host-head (ch ∷ r) = ground arith

valid_port-range :
    (v : ℤ × Option Bytes) (port : ℕ) (rest : Bytes)
    → valid_port v ≡ some (port, rest)
    → (1 ≤ port) × (port ≤ 65535)
valid_port-range (z, none) port rest h = absurd (ground (arith, h))
valid_port-range (negsuc n, some behind) port rest h = absurd (ground (arith, h))
valid_port-range (pos n, some behind) port rest h = (ground (arith, h), ground (arith, h))

port_part-range :
    (s : Bytes) (port : ℕ) (rest : Bytes)
    → port_part s ≡ some (port, rest)
    → (1 ≤ port) × (port ≤ 65535)
unfolding port_part
port_part-range [] port rest h = (ground (arith, h), ground (arith, h))
port_part-range (ch ∷ r) port rest h = elim (Bool-cases (ch == b':')) [
  | inl colon ↦ valid_port-range (strtol 10 r) port rest (ground (arith, colon, h))
  | inr other ↦ (ground (arith, other, h), ground (arith, other, h))
]

path_part-slash :
    (s path : Bytes) → path_part s ≡ some path → (head_of path ≡ b'/') × (length path < part_size)
unfolding path_part
path_part-slash [] path h = (ground (arith, h), ground (arith, h))
path_part-slash (ch ∷ r) path h = (ground (arith, h), ground (arith, h))

local_not_six :
    (host : Bytes)
    → is_local_host host ≡ true
    → (head_of host == b':') ≡ false
    → (host ≡ codes "localhost") ⊎ (host ≡ codes "127.0.0.1")
unfolding is_local_host
local_not_six host h c = elim (Bool-cases (bytes_eq host (codes "localhost"))) [
  | inl e ↦ inl ((bytes_eq_iff host (codes "localhost")).0 e)
  | inr n ↦ elim (Bool-cases (bytes_eq host (codes "127.0.0.1"))) [
    | inl e ↦ inr ((bytes_eq_iff host (codes "127.0.0.1")).0 e)
    | inr m ↦
        let six : host ≡ codes "::1" =
          (bytes_eq_iff host (codes "::1")).0 (ground (arith, h, n, m)) in
        absurd (ground (arith, c, ap head_of six))
  ]
]

url_tail-parts :
    (host behind : Bytes) (u : HttpUrl)
    → url_tail host behind ≡ some u
    → (u.host ≡ host)
      × (1 ≤ u.port)
      × (u.port ≤ 65535)
      × (head_of u.path ≡ b'/')
      × (length u.path < part_size)
unfolding url_tail
url_tail-parts host behind u h = elim (Option-cases (port_part behind)) [
  | inl gone ↦ absurd (ground (arith, gone, h))
  | inr ((port, rest), e) ↦ elim (Option-cases (path_part rest)) [
    | inl gone ↦ absurd (ground (arith, gone, e, h))
    | inr (path, g) ↦
        let range = port_part-range behind port rest e in
        let slash = path_part-slash rest path g in
        let whole : record { host = host; port = port; path = path } ≡ u =
          ground (arith, e, g, h) in
        subst
          (λ v.
            (v.host ≡ host)
            × (1 ≤ v.port)
            × (v.port ≤ 65535)
            × (head_of v.path ≡ b'/')
            × (length v.path < part_size))
          whole (refl, range.0, range.1, slash.0, slash.1)
  ]
]

-- Only the local host is accepted, and only by two of its names: whatever text is parsed, the host is
-- "localhost" or "127.0.0.1", never "::1", the port is from 1 to 65535, and the path starts with
-- '/' and fits into its 256 bytes with its NUL.
pub http_url_parse-local :
    (url : Option Bytes) (u : HttpUrl)
    → http_url_parse url ≡ some u
    → ((u.host ≡ codes "localhost") ⊎ (u.host ≡ codes "127.0.0.1"))
      × (1 ≤ u.port)
      × (u.port ≤ 65535)
      × (head_of u.path ≡ b'/')
      × (length u.path < part_size)
unfolding http_url_parse
http_url_parse-local none u h = absurd (ground (arith, h))
http_url_parse-local (some url) u h =
    let (host, behind) = split_host (drop 7 url) in
    let here : is_local_host host ≡ true = ground (arith, h) in
    let parts = url_tail-parts host behind u (ground (arith, h)) in
    (
      subst (λ x. (x ≡ codes "localhost") ⊎ (x ≡ codes "127.0.0.1")) (sym parts.0)
          (local_not_six host here (split_host-head (drop 7 url))),
      parts.1,
      parts.2,
      parts.3,
      parts.4,
    )
