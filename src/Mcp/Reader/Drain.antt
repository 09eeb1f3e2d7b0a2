-- ===== src/Mcp/Reader/Drain.antt =====
-- `mcp_reader_pop` of wrapper/src/mcp.c, called until it returns EMPTY.
use native.Mathlib.Nat.{suc-add}
use mcpbridge.Base.{
  ℕ, zero, suc, ◌+◌, ◌≤◌, ◌≡◌, refl, ap, sym, ◌∙◌, inl, inr, Bytes, true, false, Bool-cases,
  Option-cases, none, some, [], ◌∷◌, ◌++◌, ◌==◌, ==_iff, length, arith, length-append, drop,
  drop-drop,
}
use mcpbridge.Mcp.Reader.{
  Reader, len, live, live_bytes, split_newline, line, empty, too_long, reader_pop, drain_lines,
}
use mcpbridge.Mcp.Reader.Lines.{
  split_lines, split_newline_parts, split_lines-none, split_lines-some,
}
use mcpbridge.Mcp.Reader.Reserve.{IsValid, length-live_bytes}

-- What a pop keeps of a reader, with the live bytes that it leaves.
pub record PoppedTo (r : Reader) (rest : Bytes) (r' : Reader) : Type 0 where
  pub valid : IsValid r'
  pub live_left : live_bytes r' ≡ rest
  pub max_kept : r'.max ≡ r.max
  pub dropping_kept : r'.dropping ≡ r.dropping
  pub overflow_kept : r'.overflow_pending ≡ r.overflow_pending

drop-behind : (l : Bytes) (b : ℕ) (rest : Bytes) → drop (length l + 1) (l ++ b ∷ rest) ≡ rest
drop-behind [] b rest = refl
drop-behind (x ∷ l) b rest = rw suc-add (drop-behind l b rest)

-- The bytes behind the first line of the live bytes, and where they begin.
pub live_behind :
    (r : Reader) (l rest : Bytes)
    → split_newline (live_bytes r) ≡ some (l, rest)
    → (drop (r.head + (length l + 1)) r.stored ≡ rest) × (live r ≡ length l + 1 + length rest)
live_behind r l rest e =
    let parts = split_newline_parts (live_bytes r) l rest e in
    (
      sym (drop-drop r.head (length l + 1) r.stored)
          ∙ ap (drop (length l + 1)) parts
          ∙ drop-behind l b'\n' rest,
      omega (arith, length-live_bytes r, ap length parts, length-append l (b'\n' ∷ rest)),
    )

empty_of_length : {xs : Bytes} → length xs ≡ 0 → xs ≡ []
empty_of_length {xs = []} h = refl
empty_of_length {xs = x ∷ xs} h = absurd (omega arith)

-- A pop finds the first complete line of the live bytes.
pub pop_line :
    (r : Reader) (l rest : Bytes)
    → IsValid r
    → split_newline (live_bytes r) ≡ some (l, rest)
    → (r' : Reader) × (reader_pop r ≡ (line l, r')) × PoppedTo r rest r'
unfolding reader_pop
pop_line r l rest v e =
    let (behind, size) = live_behind r l rest e in
    elim (Bool-cases (r.head + (length l + 1) == len r)) [
      | inl all ↦ (
        record r { head = 0; stored = [] },
        ground arith,
        record {
          valid = record {
            head_le_len = omega arith;
            len_le_cap = omega arith;
            cap_le_hard = v.cap_le_hard;
            cap_pos = v.cap_pos;
            hard_fits = v.hard_fits;
          };
          live_left =
              sym
                (empty_of_length (omega (arith, (==_iff (r.head + (length l + 1)) (len r)).0 all)));
          max_kept = refl;
          dropping_kept = refl;
          overflow_kept = refl;
        },
      )
      | inr more ↦ (
        record r { head = r.head + (length l + 1) },
        ground arith,
        record {
          valid = record {
            head_le_len = omega (arith, v.head_le_len);
            len_le_cap = v.len_le_cap;
            cap_le_hard = v.cap_le_hard;
            cap_pos = v.cap_pos;
            hard_fits = v.hard_fits;
          };
          live_left = behind;
          max_kept = refl;
          dropping_kept = refl;
          overflow_kept = refl;
        },
      )
    ]

-- What draining leaves: the partial line, and no overflow to report.
pub record Drained (r : Reader) (partial : Bytes) (r' : Reader) : Type 0 where
  pub valid : IsValid r'
  pub live_left : live_bytes r' ≡ partial
  pub max_kept : r'.max ≡ r.max
  pub dropping_kept : r'.dropping ≡ r.dropping
  pub overflow_off : r'.overflow_pending ≡ false

pub pop_too_long :
    (r : Reader)
    → split_newline (live_bytes r) ≡ none
    → r.overflow_pending ≡ true
    → reader_pop r ≡ (too_long, record r { overflow_pending = false })
unfolding reader_pop
pop_too_long r e o = ground arith

pub pop_empty :
    (r : Reader)
    → split_newline (live_bytes r) ≡ none
    → r.overflow_pending ≡ false
    → reader_pop r ≡ (empty, r)
unfolding reader_pop
pop_empty r e o = ground arith

quiet : Reader → Reader
quiet r = record r { overflow_pending = false }

Drained-quiet : (r : Reader) → IsValid r → Drained r (live_bytes r) (quiet r)
unfolding quiet
Drained-quiet r v = record {
  valid = record {
    head_le_len = v.head_le_len;
    len_le_cap = v.len_le_cap;
    cap_le_hard = v.cap_le_hard;
    cap_pos = v.cap_pos;
    hard_fits = v.hard_fits;
  };
  live_left = refl;
  max_kept = refl;
  dropping_kept = refl;
  overflow_off = refl;
}

-- With no complete line, the overflow is reported if there is one, and the draining ends.
drain_partial :
    (f : ℕ) (r : Reader)
    → split_newline (live_bytes r) ≡ none
    → drain_lines (suc (suc f)) r ≡ ([], quiet r)
unfolding drain_lines quiet
drain_partial f r e = elim (Bool-cases r.overflow_pending) [
  | inl o ↦ ground (arith, pop_too_long r e o, pop_empty (quiet r) e refl)
  | inr o ↦ ground (arith, pop_empty r e o)
]

drain_line :
    (f : ℕ) (r : Reader) (l : Bytes) {r' : Reader}
    → reader_pop r ≡ (line l, r')
    → drain_lines (suc f) r ≡ (l ∷ (drain_lines f r').0, (drain_lines f r').1)
unfolding drain_lines
drain_line f r l e = ground arith

Drained-trans :
    (r : Reader) (rest : Bytes) {partial : Bytes} {r' r'' : Reader}
    → PoppedTo r rest r'
    → Drained r' partial r''
    → Drained r partial r''
Drained-trans r rest p q = record {
  valid = q.valid;
  live_left = q.live_left;
  max_kept = q.max_kept ∙ p.max_kept;
  dropping_kept = q.dropping_kept ∙ p.dropping_kept;
  overflow_off = q.overflow_off;
}

-- Draining yields the complete lines of the live bytes and leaves what stands behind the last.
pub drain_lines-split_lines :
    (f : ℕ) (r : Reader)
    → IsValid r
    → live r + 2 ≤ f
    → (r' : Reader) × (drain_lines f r ≡ ((split_lines (live_bytes r)).0, r'))
      × Drained r (split_lines (live_bytes r)).1 r'
drain_lines-split_lines zero r v fuel = absurd (omega arith)
drain_lines-split_lines (suc zero) r v fuel = absurd (omega arith)
drain_lines-split_lines (suc (suc f)) r v fuel =
    elim (Option-cases (split_newline (live_bytes r))) [
      | inl gone ↦ (
        quiet r,
        rw (split_lines-none (live_bytes r) gone) (drain_partial f r gone),
        rw (split_lines-none (live_bytes r) gone) (Drained-quiet r v),
      )
      | inr ((l, rest), e) ↦
          let (r', popped, to) = pop_line r l rest v e in
          let shorter : live r ≡ length l + 1 + live r' =
            (live_behind r l rest e).1
            ∙ ap (λ (n : ℕ). length l + 1 + n)
                (ap length (sym to.live_left) ∙ length-live_bytes r') in
          let (r'', drained, left) = drain_lines-split_lines (suc f) r' to.valid (omega arith) in
          let found : split_lines (live_bytes r)
              ≡ (l ∷ (split_lines (live_bytes r')).0, (split_lines (live_bytes r')).1) =
            rw to.live_left (split_lines-some (live_bytes r) l rest e) in
          (
            r'',
            rw found (drain_line (suc f) r l popped ∙ rw drained),
            rw found (Drained-trans r rest to left),
          )
    ]
