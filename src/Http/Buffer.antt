-- ===== src/Http/Buffer.antt =====
-- `body_buf_grow` of wrapper/src/transport_http.c. A buffer is its capacity here; the bytes in it
-- stand beside it. The doubling starts below 2 ^ 22 and does not wrap.
use mcpbridge.Base.{
  ℕ, zero, suc, ◌+◌, ◌*◌, ◌≤◌, ◌<◌, ◌≡◌, inl, inr, Bool-cases, Option, none, some, ltb, leb, ◌==◌,
  if◌then◌else◌, arith,
}

-- HTTP_BODY_MAX
abbrev pub body_max : ℕ
body_max = 4194304

-- HTTP_BODY_INITIAL_CAP
abbrev pub body_initial_cap : ℕ
body_initial_cap = 4096

-- `while (new_cap < need)`; `none` is the end of the fuel.
unfoldable pub grow_loop : ℕ → ℕ → ℕ → Option ℕ
grow_loop zero from need = none
grow_loop (suc f) from need =
    let more = grow_loop f (from * 2) need in if ltb from need then more else some from

abbrev pub at_most : ℕ → ℕ → ℕ
at_most bound n = if ltb bound n then bound else n

-- The new capacity; `none` is the return of -1. The capacity grows by one at least in a round.
unfoldable pub body_buf_grow : ℕ → ℕ → Option ℕ
body_buf_grow room need =
    if ltb body_max need
    then none
    else if leb need room
    then some room
    else elim (grow_loop (suc need) (if room == 0 then body_initial_cap else room) need) [
      | none ↦ none
      | some new_cap ↦ some (at_most body_max new_cap)
    ]

grow_loop_total :
    (f from need : ℕ)
    → 1 ≤ from
    → need ≤ from + f
    → (c : ℕ) × (grow_loop (suc f) from need ≡ some c) × (need ≤ c) × (from ≤ c)
unfolding grow_loop
grow_loop_total zero from need p h = (from, ground arith, omega arith, omega arith)
grow_loop_total (suc f) from need p h = elim (Bool-cases (ltb from need)) [
  | inl small ↦
      let (c, e, fits, grown) = grow_loop_total f (from * 2) need (omega arith) (omega arith) in
      (c, rw small e, fits, omega (arith, grown))
  | inr big ↦ (from, rw big, ground (arith, big), omega arith)
]

-- A buffer grows whenever it may: for a need up to HTTP_BODY_MAX and a capacity up to it, the
-- capacity afterwards covers the need, is no smaller than before and stays up to HTTP_BODY_MAX.
pub body_buf_grow-fits :
    (room need : ℕ)
    → room ≤ body_max
    → need ≤ body_max
    → (c : ℕ) × (body_buf_grow room need ≡ some c) × (need ≤ c) × (room ≤ c) × (c ≤ body_max)
unfolding body_buf_grow
body_buf_grow-fits room need capped fits = elim (Bool-cases (leb need room)) [
  | inl enough ↦ (room, ground (arith, enough), ground (arith, enough), omega arith, omega arith)
  | inr short ↦
      let first = if room == 0 then body_initial_cap else room in
      let (c, e, covers, grown) = grow_loop_total need first need (ground arith) (omega arith) in
      (
        at_most body_max c,
        ground (arith, short, e),
        ground (arith, covers),
        ground (arith, grown),
        ground arith,
      )
]

-- It is refused whenever the need is above HTTP_BODY_MAX.
pub body_buf_grow-refuses : (room need : ℕ) → body_max < need → body_buf_grow room need ≡ none
unfolding body_buf_grow
body_buf_grow-refuses room need over = ground arith

-- What is refused is above HTTP_BODY_MAX.
pub body_buf_grow-none : (room need : ℕ) → body_buf_grow room need ≡ none → body_max < need
unfolding body_buf_grow
body_buf_grow-none room need h = elim (Bool-cases (ltb body_max need)) [
  | inl over ↦ ground (arith, over)
  | inr fits ↦
      let first = if room == 0 then body_initial_cap else room in
      let (c, e, covers, grown) = grow_loop_total need first need (ground arith) (omega arith) in
      absurd (ground (arith, fits, e, h))
]

pub body_buf_grow-some : (room need c : ℕ) → body_buf_grow room need ≡ some c → need ≤ body_max
unfolding body_buf_grow
body_buf_grow-some room need c h = ground (arith, h)
