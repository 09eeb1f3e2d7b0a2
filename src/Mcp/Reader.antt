-- ===== src/Mcp/Reader.antt =====
-- The streaming line reader of wrapper/src/mcp.c. `stored` holds the bytes `buf[0 .. len)`, so `len`
-- is its length; bytes of `buf` from `len` on are never read. Sums of `size_t` are lengths of
-- arrays in memory and do not wrap; the doubling in `reader_reserve` is written with its wrap.
pub mod Reserve
pub mod Feed
pub mod Lines
pub mod Drain
pub mod Framing
pub mod Overflow
pub mod Lost
use mcpbridge.Base.{
  ℕ, zero, suc, ◌+◌, ◌-◌, ◌*◌, ◌%◌, ◌^◌, Bytes, Bool, true, false, ◌&&◌, ◌||◌, Option, none, some,
  List, [], ◌∷◌, ◌++◌, ltb, leb, ◌==◌, if◌then◌else◌, length, take, drop,
}

pub record Reader : Type 0 where
  pub stored : Bytes
  pub cap : ℕ
  pub head : ℕ
  pub max : ℕ
  pub dropping : Bool
  pub overflow_pending : Bool

-- MCP_LINE_MAX_DEFAULT
abbrev pub line_max_default : ℕ
line_max_default = 4194304

abbrev pub initial_cap : ℕ
initial_cap = 4096

abbrev pub len : Reader → ℕ
len r = length r.stored

-- `buf[head .. len)`
abbrev pub live_bytes : Reader → Bytes
live_bytes r = drop r.head r.stored

-- `reader_live`
abbrev pub live : Reader → ℕ
live r = len r - r.head

abbrev pub hard_cap : Reader → ℕ
hard_cap r = r.max + 1

unfoldable pub reader_init : ℕ → Reader
reader_init max =
    let limit = if max == 0 then line_max_default else max in
    record {
      stored = [];
      cap = if ltb (limit + 1) initial_cap then limit + 1 else initial_cap;
      head = 0;
      max = limit;
      dropping = false;
      overflow_pending = false;
    }

-- `memchr(bytes, '\n', n)`: the bytes in front of the first newline, and those behind it.
unfoldable pub split_newline : Bytes → Option (Bytes × Bytes)
split_newline [] = none
split_newline (b ∷ bs) =
    if b == b'\n'
    then some ([], bs)
    else elim (split_newline bs) [ none ↦ none | some (line, rest) ↦ some (b ∷ line, rest) ]

abbrev byte_is : Bytes → ℕ → ℕ → Bool
byte_is [] i b = false
byte_is (x ∷ xs) zero b = x == b
byte_is (x ∷ xs) (suc i) b = byte_is xs i b

-- The index of the last newline among the first `n` bytes.
unfoldable pub last_newline : Bytes → ℕ → Option ℕ
last_newline p zero = none
last_newline p (suc n) = let rest = last_newline p n in if byte_is p n b'\n' then some n else rest

unfoldable pub reader_compact : Reader → Reader
reader_compact r = if r.head == 0 then r else record r { stored = live_bytes r; head = 0 }

abbrev pub size_mod : ℕ
size_mod = 2 ^ 64

-- `want * 2`, kept at the hard cap when it wraps or passes it.
abbrev pub doubled : ℕ → ℕ → ℕ
doubled want hard =
    let next = want * 2 % size_mod in if ltb next want || ltb hard next then hard else next

-- `while (want < required)`; `none` is its `return 0`, and also the end of the fuel.
unfoldable pub grow_loop : ℕ → ℕ → ℕ → ℕ → Option ℕ
grow_loop zero want required hard = none
grow_loop (suc f) want required hard =
    let more = grow_loop f (doubled want hard) required hard in
    if leb required want then some want else if leb hard want then none else more

-- The capacity that the loop starts from.
abbrev pub first_want : ℕ → ℕ → ℕ
first_want cap hard =
    let want = if ltb cap initial_cap then initial_cap else cap in
    if ltb hard want then hard else want

unfoldable pub reader_reserve : Reader → ℕ → Bool × Reader
unfolding reader_compact
reader_reserve r need =
    let hard = hard_cap r in
    let required = live r + need in
    if leb (len r + need) r.cap
    then (true, r)
    else if ltb 0 r.head && leb required r.cap
    then (true, reader_compact r)
    else if ltb hard required
    then (false, r)
    else elim (grow_loop (suc required) (first_want r.cap hard) required hard) [
      | none ↦ (false, r)
      | some want ↦ (true, record (reader_compact r) { cap = want })
    ]

-- What is left of the buffer when the line in progress is given up.
unfoldable pub discard_tail : Reader → Reader
discard_tail r = elim (last_newline (live_bytes r) (live r)) [
  | some last ↦ record r { stored = take (r.head + last + 1) r.stored }
  | none ↦ record r { stored = take r.head r.stored }
]

-- One round of the loop of `mcp_reader_feed`: it returns, or goes on with the bytes left.
pub data Round : Type 0 where
  return : Reader → Round
  continue : Reader → Bytes → Round

abbrev pub end_drop : Reader → Reader
end_drop r = record r { dropping = false; overflow_pending = true }

-- The branch `if (r->dropping)`.
unfoldable pub drop_round : Reader → Bytes → Round
drop_round r bytes = elim (split_newline bytes) [
  | none ↦ return r
  | some (_, rest) ↦ continue (end_drop r) rest
]

-- A chunk, the bytes behind it, and whether it ends in a newline.
unfoldable pub next_chunk : Bytes → Bytes × Bytes × Bool
next_chunk bytes = elim (split_newline bytes) [
  | none ↦ (bytes, [], false)
  | some (line, rest) ↦ (line ++ b'\n' ∷ [], rest, true)
]

unfoldable pub take_round : Reader → Bytes → Round
take_round r bytes =
    let (chunk, rest, has_newline) = next_chunk bytes in
    let (reserved, r') = reader_reserve r (length chunk) in
    if reserved
    then continue (record r' { stored = r'.stored ++ chunk }) rest
    else if has_newline
    then continue (end_drop (discard_tail r')) rest
    else return (record (discard_tail r') { dropping = true })

unfoldable pub feed_round : Reader → Bytes → Round
unfolding drop_round take_round
feed_round r bytes = if r.dropping then drop_round r bytes else take_round r bytes

-- Every round but the last takes a byte at least, so a unit of fuel for each byte is enough.
unfoldable pub feed_loop : ℕ → Reader → Bytes → Reader
feed_loop zero r bytes = r
feed_loop (suc f) r [] = r
feed_loop (suc f) r (b ∷ bs) = elim (feed_round r (b ∷ bs)) [
  | return r' ↦ r'
  | continue r' rest ↦ feed_loop f r' rest
]

unfoldable pub reader_feed : Reader → Bytes → Reader
unfolding feed_loop
reader_feed r bytes = feed_loop (length bytes) r bytes

pub data Popped : Type 0 where
  line : Bytes → Popped
  empty too_long : Popped

unfoldable pub reader_pop : Reader → Popped × Reader
reader_pop r = elim (split_newline (live_bytes r)) [
  | some (l, _) ↦
      let head' = r.head + (length l + 1) in
      (
        line l,
        if head' == len r then record r { head = 0; stored = [] } else record r { head = head' },
      )
  | none ↦
      if r.overflow_pending then (too_long, record r { overflow_pending = false }) else (empty, r)
]

-- The loop with which `drain_reader` of wrapper/src/main.c takes the lines out of a reader: it goes
-- on past TOO_LONG and ends at EMPTY. A line takes a byte at least and TOO_LONG comes once, so two
-- units of fuel more than the live bytes are enough.
unfoldable pub drain_lines : ℕ → Reader → List Bytes × Reader
drain_lines zero r = ([], r)
drain_lines (suc f) r = elim (reader_pop r).0 [
  | line l ↦ let more = drain_lines f (reader_pop r).1 in (l ∷ more.0, more.1)
  | too_long ↦ drain_lines f (reader_pop r).1
  | empty ↦ ([], (reader_pop r).1)
]

-- One read and the lines that it completes.
unfoldable pub pump_bytes : Reader → Bytes → List Bytes × Reader
pump_bytes r bytes = let r' = reader_feed r bytes in drain_lines (live r' + 2) r'

-- The reads of a connection, one after another.
unfoldable pub pump_chunks : Reader → List Bytes → List Bytes × Reader
pump_chunks r [] = ([], r)
pump_chunks r (c ∷ cs) =
    let (ls, r') = pump_bytes r c in let (more, r'') = pump_chunks r' cs in (ls ++ more, r'')
