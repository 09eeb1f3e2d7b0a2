-- ===== src/Http/Chunk.antt =====
-- The chunked transfer decoder of wrapper/src/transport_http.c. The callback changes a value of a
-- type `C`, which stands for what its context points to. `remaining` is never negative.
pub mod Bytewise
pub mod Pieces
pub mod Decode
pub mod Map
use mcpbridge.Base.{
  ℕ, zero, suc, ◌+◌, ◌-◌, Bytes, Bool, true, false, ◌&&◌, Option, none, some, List, [], ◌∷◌, ◌++◌,
  ltb, leb, ◌==◌, if◌then◌else◌, length, take, drop,
}
use mcpbridge.Base.Int.{ℤ, pos, negsuc}
use mcpbridge.CLib.{c_string, cut_at, strtol}
use mcpbridge.Http.Sse.{strip_cr}

pub data ChunkState : Type 0 where
  want_size want_data want_crlf done : ChunkState

pub record ChunkDec : Type 0 where
  pub state : ChunkState
  pub remaining : ℕ
  pub line : Bytes
  pub crlf_seen : Bool

unfoldable pub chunk_dec_init : ChunkDec
chunk_dec_init = record { state = want_size; remaining = 0; line = []; crlf_seen = false }

-- `sizeof(c->line)`
abbrev pub line_size : ℕ
line_size = 64

abbrev without_extension : Bytes → Bytes
without_extension line = elim (cut_at b';' line) [ none ↦ line | some (front, _) ↦ front ]

abbrev pub not_negative : ℤ × Option Bytes → Option ℕ
not_negative (_, none) = none
not_negative (pos n, some _) = some n
not_negative (negsuc n, some _) = none

-- The size that a line gives, the line without its newline.
unfoldable pub chunk_size : Bytes → Option ℕ
chunk_size line = not_negative (strtol 16 (without_extension (c_string (strip_cr line))))

-- What a round of the loop, or a call, comes to: it goes on with the bytes left, or the decoder
-- wants more, is done, or has refused the input.
pub data Outcome (C : Type 0) : Type 0 where
  wants_more ended malformed : ChunkDec → C → Outcome C

pub data Round (C : Type 0) : Type 0 where
  next : ChunkDec → C → Bytes → Round C
  stop : Outcome C → Round C

-- The end of a size line.
unfoldable pub begin_chunk : {C : Type 0} → ChunkDec → C → Bytes → Round C
begin_chunk d c rest = elim (chunk_size d.line) [
  | none ↦ stop (malformed d c)
  | some size ↦
      let sized = record d { line = []; remaining = size } in
      if size == 0
      then stop (ended (record sized { state = done }) c)
      else next (record sized { state = want_data }) c rest
]

unfoldable pub size_byte : {C : Type 0} → ChunkDec → C → ℕ → Bytes → Round C
unfolding begin_chunk
size_byte d c b rest =
    if b == b'\n'
    then begin_chunk d c rest
    else if leb line_size (length d.line + 1)
    then stop (malformed d c)
    else next (record d { line = d.line ++ b ∷ [] }) c rest

-- `remaining` after so many bytes of data.
unfoldable pub after_data : ChunkDec → ℕ → ChunkDec
after_data d n =
    let left = d.remaining - n in
    if left == 0
    then record d { remaining = left; state = want_crlf; crlf_seen = false }
    else record d { remaining = left }

unfoldable pub crlf_byte : {C : Type 0} → ChunkDec → C → ℕ → Bytes → Round C
crlf_byte d c b rest =
    if b == b'\r'
    then next (record d { crlf_seen = true }) c rest
    else if b == b'\n' && d.crlf_seen
    then next (record d { state = want_size; crlf_seen = false }) c rest
    else stop (malformed d c)

module _ {C : Type 0} (sink : C → Bytes → C) where
  -- `if (sink != NULL && take > 0)`
  abbrev pub pass_on : C → Bytes → C
  pass_on c [] = c
  pass_on c (b ∷ bs) = sink c (b ∷ bs)

  unfoldable pub data_bytes : ChunkDec → C → Bytes → Round C
  unfolding after_data
  data_bytes d c bytes =
      let n = if ltb (length bytes) d.remaining then length bytes else d.remaining in
      next (after_data d n) (pass_on c (take n bytes)) (drop n bytes)

  -- One round of the loop, with a byte to read.
  unfoldable pub chunk_round : ChunkDec → C → ℕ → Bytes → Round C
  unfolding size_byte data_bytes crlf_byte
  chunk_round d c b rest = elim d.state [
    | want_size ↦ size_byte d c b rest
    | want_data ↦ data_bytes d c (b ∷ rest)
    | want_crlf ↦ crlf_byte d c b rest
    | done ↦ stop (ended d c)
  ]

  -- Behind the loop.
  abbrev pub at_end : ChunkDec → C → Outcome C
  at_end d c = elim d.state [ done ↦ ended d c | _ ↦ wants_more d c ]

  -- In a state that can arise every round reads a byte at least, so a unit of fuel for each byte is
  -- enough.
  unfoldable pub chunk_loop : ℕ → ChunkDec → C → Bytes → Outcome C
  chunk_loop zero d c bytes = at_end d c
  chunk_loop (suc f) d c [] = at_end d c
  chunk_loop (suc f) d c (b ∷ rest) = elim (chunk_round d c b rest) [
    | next d' c' rest' ↦ chunk_loop f d' c' rest'
    | stop o ↦ o
  ]

  unfoldable pub chunk_dec_feed : ChunkDec → C → Bytes → Outcome C
  unfolding chunk_loop
  chunk_dec_feed d c bytes = chunk_loop (length bytes) d c bytes
