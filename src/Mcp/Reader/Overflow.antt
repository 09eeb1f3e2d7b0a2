-- ===== src/Mcp/Reader/Overflow.antt =====
-- `mcp_reader_feed` of wrapper/src/mcp.c where a chunk does not fit: the invariant, and what is
-- discarded.
use native.Mathlib.Decide.{dec_le}
use mcpbridge.Base.{
  ℕ, zero, suc, ◌+◌, ◌≤◌, ◌<◌, ◌≡◌, inl, inr, Bytes, Bool, true, false, Bool-cases, Option-cases,
  none, some, List, [], ◌∷◌, if◌then◌else◌, length, arith, take, length-take_le, le-length-take,
}
use mcpbridge.Mcp.Reader.{
  Reader, live, live_bytes, hard_cap, size_mod, split_newline, next_chunk, last_newline,
  discard_tail, Round, return, continue, end_drop, feed_round, feed_loop, reader_init, reader_feed,
  reader_pop,
}
use mcpbridge.Mcp.Reader.Drain.{pop_line, pop_too_long, pop_empty}
use mcpbridge.Mcp.Reader.Feed.{feed_round_fits}
use mcpbridge.Mcp.Reader.Reserve.{IsValid, reserve_refused}

truncated-IsValid :
    (r : Reader) (n : ℕ) → IsValid r → r.head ≤ n → IsValid (record r { stored = take n r.stored })
truncated-IsValid r n v h = record {
  head_le_len = le-length-take r.head n r.stored h v.head_le_len;
  len_le_cap = omega (arith, v.len_le_cap, length-take_le n r.stored);
  cap_le_hard = v.cap_le_hard;
  cap_pos = v.cap_pos;
  hard_fits = v.hard_fits;
}

discard_tail-IsValid : (r : Reader) → IsValid r → IsValid (discard_tail r)
unfolding discard_tail
discard_tail-IsValid r v = elim (Option-cases (last_newline (live_bytes r) (live r))) [
  | inl gone ↦ rw (discard_tail, gone) (truncated-IsValid r r.head v (omega arith))
  | inr (last, e) ↦ rw (discard_tail, e) (truncated-IsValid r (r.head + last + 1) v (omega arith))
]

flags-IsValid :
    (r : Reader) (d o : Bool)
    → IsValid r
    → IsValid (record r { dropping = d; overflow_pending = o })
flags-IsValid r d o v = record {
  head_le_len = v.head_le_len;
  len_le_cap = v.len_le_cap;
  cap_le_hard = v.cap_le_hard;
  cap_pos = v.cap_pos;
  hard_fits = v.hard_fits;
}

abbrev RoundIsValid : Round → Type 0
RoundIsValid (return r) = IsValid r
RoundIsValid (continue r rest) = IsValid r

-- A round whose chunk is refused gives up the line in progress.
pub feed_round_over :
    (r : Reader) (b : ℕ) (bs : Bytes)
    → IsValid r
    → r.dropping ≡ false
    → hard_cap r < live r + length (next_chunk (b ∷ bs)).0
    → feed_round r (b ∷ bs) ≡ (
        if (next_chunk (b ∷ bs)).2
        then continue (end_drop (discard_tail r)) (next_chunk (b ∷ bs)).1
        else return (record (discard_tail r) { dropping = true }))
unfolding feed_round
feed_round_over r b bs v d over =
    ground (arith, reserve_refused r (length (next_chunk (b ∷ bs)).0) v over)

dropping_ends :
    (r : Reader) (b : ℕ) (bs l rest : Bytes)
    → r.dropping ≡ true
    → split_newline (b ∷ bs) ≡ some (l, rest)
    → feed_round r (b ∷ bs) ≡ continue (end_drop r) rest
unfolding feed_round
dropping_ends r b bs l rest d e = ground arith

dropping_goes_on :
    (r : Reader) (b : ℕ) (bs : Bytes)
    → r.dropping ≡ true
    → split_newline (b ∷ bs) ≡ none
    → feed_round r (b ∷ bs) ≡ return r
unfolding feed_round
dropping_goes_on r b bs d e = ground arith

dropping-IsValid :
    (r : Reader) (b : ℕ) (bs : Bytes)
    → IsValid r
    → r.dropping ≡ true
    → RoundIsValid (feed_round r (b ∷ bs))
dropping-IsValid r b bs v d = elim (Option-cases (split_newline (b ∷ bs))) [
  | inl gone ↦ rw (dropping_goes_on r b bs d gone) v
  | inr ((l, rest), e) ↦ rw (dropping_ends r b bs l rest d e) (flags-IsValid r false true v)
]

over-IsValid :
    (r : Reader) (b : ℕ) (bs : Bytes)
    → IsValid r
    → r.dropping ≡ false
    → hard_cap r < live r + length (next_chunk (b ∷ bs)).0
    → RoundIsValid (feed_round r (b ∷ bs))
over-IsValid r b bs v d over =
    let cut = discard_tail-IsValid r v in
    rw (feed_round_over r b bs v d over) (elim (Bool-cases (next_chunk (b ∷ bs)).2) [
      | inl ends ↦ rw ends (flags-IsValid (discard_tail r) false true cut)
      | inr open_end ↦
          rw open_end (flags-IsValid (discard_tail r) true (discard_tail r).overflow_pending cut)
    ])

feed_round-IsValid :
    (r : Reader) (b : ℕ) (bs : Bytes) → IsValid r → RoundIsValid (feed_round r (b ∷ bs))
feed_round-IsValid r b bs v = elim (Bool-cases r.dropping) [
  | inl d ↦ dropping-IsValid r b bs v d
  | inr d ↦ elim (dec_le (live r + length (next_chunk (b ∷ bs)).0) (hard_cap r)) [
    | yes fits ↦ let (r', e, fed) = feed_round_fits r b bs v d fits in rw e fed.valid
    | no over ↦ over-IsValid r b bs v d (omega arith)
  ]
]

after_round :
    (x : Round) (k : Reader → Bytes → Reader)
    → RoundIsValid x
    → ((r : Reader) (rest : Bytes) → IsValid r → IsValid (k r rest))
    → IsValid (elim x [ return r' ↦ r' | continue r' rest ↦ k r' rest ])
after_round (return r) k v keep = v
after_round (continue r rest) k v keep = keep r rest v

feed_loop-IsValid : (f : ℕ) (r : Reader) (bytes : Bytes) → IsValid r → IsValid (feed_loop f r bytes)
unfolding feed_loop
feed_loop-IsValid zero r bytes v = v
feed_loop-IsValid (suc f) r [] v = v
feed_loop-IsValid (suc f) r (b ∷ bs) v =
    after_round (feed_round r (b ∷ bs)) (feed_loop f) (feed_round-IsValid r b bs v)
      (λ r' rest w. feed_loop-IsValid f r' rest w)

-- The invariant holds of a new reader whose maximum is below 2 ^ 64 - 1.
reader_init-IsValid : (max : ℕ) → max + 1 < size_mod → IsValid (reader_init max)
unfolding reader_init
reader_init-IsValid max h = ground arith

pop-IsValid : (r : Reader) → IsValid r → IsValid (reader_pop r).1
pop-IsValid r v = elim (Option-cases (split_newline (live_bytes r))) [
  | inr ((l, rest), e) ↦ let (r', popped, to) = pop_line r l rest v e in rw popped to.valid
  | inl gone ↦ elim (Bool-cases r.overflow_pending) [
    | inl o ↦ rw (pop_too_long r gone o) (flags-IsValid r r.dropping false v)
    | inr o ↦ rw (pop_empty r gone o) v
  ]
]

-- A call of the reader's interface.
pub data Call : Type 0 where
  feed : Bytes → Call
  pop : Call

abbrev pub call : Reader → Call → Reader
call r (feed bytes) = reader_feed r bytes
call r pop = (reader_pop r).1

abbrev pub calls : Reader → List Call → Reader
calls r [] = r
calls r (c ∷ cs) = calls (call r c) cs

call-IsValid : (r : Reader) (c : Call) → IsValid r → IsValid (call r c)
unfolding reader_feed
call-IsValid r (feed bytes) v = feed_loop-IsValid (length bytes) r bytes v
call-IsValid r pop v = pop-IsValid r v

calls-IsValid : (cs : List Call) (r : Reader) → IsValid r → IsValid (calls r cs)
calls-IsValid [] r v = v
calls-IsValid (c ∷ cs) r v = calls-IsValid cs (call r c) (call-IsValid r c v)

-- After any calls of feed and pop, on any bytes, a reader that was made with a maximum below
-- 2 ^ 64 - 1 satisfies `head <= len <= cap <= max + 1`, so its buffer never outgrows the maximum.
pub reader_bounded :
    (max : ℕ) (cs : List Call) → max + 1 < size_mod → IsValid (calls (reader_init max) cs)
reader_bounded max cs h = calls-IsValid cs (reader_init max) (reader_init-IsValid max h)
