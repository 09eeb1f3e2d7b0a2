-- ===== src/Mcp/Reader/Reserve.antt =====
-- `reader_reserve` of wrapper/src/mcp.c: when it finds room, and what it keeps.
use mcpbridge.Base.{
  ℕ, zero, suc, ◌+◌, ◌-◌, ◌≤◌, ◌<◌, ◌≡◌, refl, inl, inr, true, false, ◌&&◌, Bool-cases, some, ltb,
  leb, ◌==◌, ==_iff, length, length-drop, arith,
}
use mcpbridge.Mcp.Reader.{
  Reader, len, live, live_bytes, hard_cap, size_mod, doubled, grow_loop, first_want, reader_compact,
  reader_reserve,
}

-- The invariant of the reader's comment: `head <= len <= cap <= max + 1`, with a buffer that is not
-- empty and a maximum whose hard cap is a `size_t`.
pub record IsValid (r : Reader) : Type 0 where
  pub head_le_len : r.head ≤ len r
  pub len_le_cap : len r ≤ r.cap
  pub cap_le_hard : r.cap ≤ hard_cap r
  pub cap_pos : 0 < r.cap
  pub hard_fits : hard_cap r < size_mod

doubled_bounds :
    (want hard : ℕ)
    → 0 < want
    → want < hard
    → hard < size_mod
    → (want < doubled want hard) × (doubled want hard ≤ hard)
doubled_bounds want hard p h s = ground arith

first_want_bounds :
    (cap hard : ℕ) → 0 < cap → cap ≤ hard → (0 < first_want cap hard) × (first_want cap hard ≤ hard)
first_want_bounds cap hard p h = ground arith

grow_loop_total :
    (f want required hard : ℕ)
    → required - want < f
    → 0 < want
    → want ≤ hard
    → required ≤ hard
    → hard < size_mod
    → (w : ℕ) × (grow_loop f want required hard ≡ some w) × (required ≤ w) × (w ≤ hard) × (0 < w)
unfolding grow_loop
grow_loop_total zero want required hard fuel p wh rh s = absurd (omega arith)
grow_loop_total (suc f) want required hard fuel p wh rh s = elim (Bool-cases (leb required want)) [
  | inl fits ↦ (want, rw fits, ground arith, wh, p)
  | inr short ↦
      let bounds = doubled_bounds want hard p (ground arith) s in
      let (w, e, lo, hi, pos) =
        grow_loop_total f (doubled want hard) required hard (ground arith) (omega arith) bounds.1 rh
          s in
      (w, ground (arith, e), lo, hi, pos)
]

-- The reader with room for `need` more bytes, which holds the same live bytes and flags.
pub record Reserved (r : Reader) (need : ℕ) (r' : Reader) : Type 0 where
  pub valid : IsValid r'
  pub room : len r' + need ≤ r'.cap
  pub live_kept : live_bytes r' ≡ live_bytes r
  pub max_kept : r'.max ≡ r.max
  pub dropping_kept : r'.dropping ≡ r.dropping
  pub overflow_kept : r'.overflow_pending ≡ r.overflow_pending

pub length-live_bytes : (r : Reader) → length (live_bytes r) ≡ live r
length-live_bytes r = length-drop r.head r.stored

-- What compaction does to the parts of a reader.
record Compacted (r : Reader) (r' : Reader) : Type 0 where
  head_zero : r'.head ≡ 0
  live_kept : live_bytes r' ≡ live_bytes r
  len_live : len r' ≡ live r
  cap_kept : r'.cap ≡ r.cap
  max_kept : r'.max ≡ r.max
  dropping_kept : r'.dropping ≡ r.dropping
  overflow_kept : r'.overflow_pending ≡ r.overflow_pending

compact_lem : (r : Reader) → Compacted r (reader_compact r)
unfolding reader_compact
compact_lem r = elim (Bool-cases (r.head == 0)) [
  | inl at_start ↦ rw at_start (record {
    head_zero = (==_iff r.head 0).0 at_start;
    live_kept = refl;
    len_live = omega (arith, (==_iff r.head 0).0 at_start);
    cap_kept = refl;
    max_kept = refl;
    dropping_kept = refl;
    overflow_kept = refl;
  })
  | inr moved ↦ rw moved (record {
    head_zero = refl;
    live_kept = refl;
    len_live = length-live_bytes r;
    cap_kept = refl;
    max_kept = refl;
    dropping_kept = refl;
    overflow_kept = refl;
  })
]

Reserved-here : (r : Reader) (need : ℕ) → IsValid r → len r + need ≤ r.cap → Reserved r need r
Reserved-here r need v room = record {
  valid = v;
  room = room;
  live_kept = refl;
  max_kept = refl;
  dropping_kept = refl;
  overflow_kept = refl;
}

Reserved-compact :
    (r : Reader) (need want : ℕ)
    → IsValid r
    → 0 < want
    → live r + need ≤ want
    → want ≤ hard_cap r
    → Reserved r need (record (reader_compact r) { cap = want })
Reserved-compact r need want v p fits under =
    let c = compact_lem r in
    record {
      valid = record {
        head_le_len = omega (arith, c.head_zero);
        len_le_cap = omega (arith, c.len_live);
        cap_le_hard = omega (arith, c.max_kept);
        cap_pos = p;
        hard_fits = omega (arith, c.max_kept, v.hard_fits);
      };
      room = omega (arith, c.len_live);
      live_kept = c.live_kept;
      max_kept = c.max_kept;
      dropping_kept = c.dropping_kept;
      overflow_kept = c.overflow_kept;
    }

-- In a well-formed reader whose live bytes and the needed ones fit the hard cap, a reservation
-- succeeds: there is room in the reader that it leaves, which is well-formed, and the live bytes, the
-- maximum and the flags are kept.
pub reserve_fits :
    (r : Reader) (need : ℕ)
    → IsValid r
    → live r + need ≤ hard_cap r
    → (r' : Reader) × (reader_reserve r need ≡ (true, r')) × Reserved r need r'
unfolding reader_reserve
reserve_fits r need v fits = elim (Bool-cases (leb (len r + need) r.cap)) [
  | inl room ↦ (r, rw room, Reserved-here r need v (ground arith))
  | inr full ↦ elim (Bool-cases (ltb 0 r.head && leb (live r + need) r.cap)) [
    | inl slide ↦ (
      record (reader_compact r) { cap = r.cap },
      ground arith,
      Reserved-compact r need r.cap v v.cap_pos (ground arith) v.cap_le_hard,
    )
    | inr grow ↦
        let first = first_want_bounds r.cap (hard_cap r) v.cap_pos v.cap_le_hard in
        let (w, e, lo, hi, pos) =
          grow_loop_total (suc (live r + need)) (first_want r.cap (hard_cap r)) (live r + need)
            (hard_cap r) (omega arith) first.0 first.1 fits v.hard_fits in
        (
          record (reader_compact r) { cap = w },
          ground (arith, e),
          Reserved-compact r need w v pos lo hi,
        )
  ]
]

-- In a well-formed reader whose live bytes and the needed ones do not fit the hard cap, a
-- reservation is refused and nothing is changed.
pub reserve_refused :
    (r : Reader) (need : ℕ)
    → IsValid r
    → hard_cap r < live r + need
    → reader_reserve r need ≡ (false, r)
unfolding reader_reserve
reserve_refused r need v over = ground arith
