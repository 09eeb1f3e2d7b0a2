-- ===== src/Http/Connect/Deadline.antt =====
-- How long `tcp_connect_with_backoff` of wrapper/src/transport_http.c goes on.
use mcpbridge.Base.{
  ℕ, zero, suc, ◌+◌, ◌-◌, ◌*◌, ◌≤◌, ◌<◌, ◌≡◌, ◌≢◌, inl, inr, true, none, some, List, [], ◌∷◌, ◌++◌,
  ltb, leb, length, arith, Option-cases, Bool-cases,
}
use mcpbridge.Transport.{Errno}
use mcpbridge.Http.Connect.{
  Attempt, connected, still_trying, is_transient, backoff_step, next_sleep,
  tcp_connect_with_backoff,
}

backoff_step-range : (k : ℕ) → (100 ≤ backoff_step k) × (backoff_step k ≤ 5000)
backoff_step-range zero = (omega arith, omega arith)
backoff_step-range (suc zero) = (omega arith, omega arith)
backoff_step-range (suc (suc zero)) = (omega arith, omega arith)
backoff_step-range (suc (suc (suc zero))) = (omega arith, omega arith)
backoff_step-range (suc (suc (suc (suc k)))) = (omega arith, omega arith)

-- Of two attempts the clock shows the sleep between them at least.
abbrev pub Slept : ℕ → ℕ → Attempt → Attempt → Type 0
Slept deadline_ms k a b = elim (next_sleep deadline_ms (backoff_step k) a.now) [
  | none ↦ Unit {0}
  | some step ↦ a.now + step ≤ b.now
]

-- The clock of all attempts, from the one of a number on.
abbrev pub Clocked : ℕ → ℕ → List Attempt → Type 0
Clocked deadline_ms k [] = Unit {0}
Clocked deadline_ms k (a ∷ []) = Unit {0}
Clocked deadline_ms k (a ∷ b ∷ more) =
    Slept deadline_ms k a b × Clocked deadline_ms (suc k) (b ∷ more)

-- What an attempt leads to.
gives_up :
    (deadline_ms k : ℕ) (a : Attempt) (more : List Attempt)
    → 0 < deadline_ms
    → deadline_ms ≤ a.now
    → (tcp_connect_with_backoff deadline_ms k (a ∷ more)).1 ≢ still_trying
unfolding tcp_connect_with_backoff next_sleep
gives_up deadline_ms k a more p over h = elim (Option-cases a.failure) [
  | inl fine ↦ ground (arith, fine, h)
  | inr (e, failed) ↦ ground (arith, failed, over, h)
]

-- The sleep before the deadline is 100 ms at least, or all that is left.
record Sleep (deadline_ms step_ms now : ℕ) : Type 0 where
  sleep : ℕ
  chosen : next_sleep deadline_ms step_ms now ≡ some sleep
  enough : deadline_ms - (now + sleep) ≤ deadline_ms - now - 100

early-Sleep :
    (deadline_ms step_ms now : ℕ)
    → 100 ≤ step_ms
    → now < deadline_ms
    → Sleep deadline_ms step_ms now
unfolding next_sleep
early-Sleep deadline_ms step_ms now h early = elim (Bool-cases (ltb (deadline_ms - now) step_ms)) [
  | inl long ↦ record {
    sleep = deadline_ms - now;
    chosen = ground (arith, long, early);
    enough = omega (arith, early);
  }
  | inr short ↦ record {
    sleep = step_ms;
    chosen = ground (arith, short, early);
    enough = omega (arith, early, h);
  }
]

passes_on :
    (deadline_ms k s : ℕ) (a : Attempt) (more : List Attempt)
    → next_sleep deadline_ms (backoff_step k) a.now ≡ some s
    → (tcp_connect_with_backoff deadline_ms k (a ∷ more)).1 ≡ still_trying
    → (tcp_connect_with_backoff deadline_ms (suc k) more).1 ≡ still_trying
unfolding tcp_connect_with_backoff
passes_on deadline_ms k s a more chosen h = elim (Option-cases a.failure) [
  | inl fine ↦ absurd (ground (arith, fine, h))
  | inr (e, failed) ↦ elim (Bool-cases (is_transient e)) [
    | inl again ↦ ground (arith, failed, again, chosen, h)
    | inr fatal ↦ absurd (ground (arith, failed, fatal, h))
  ]
]

-- With a deadline the connect comes to an end, if the clock shows the sleeps: `rounds` hundreds of
-- milliseconds from the first attempt to the deadline allow for that many attempts more, then it has
-- connected or failed.
pub tcp_connect_with_backoff-ends :
    (deadline_ms k rounds : ℕ) (a : Attempt) (more : List Attempt)
    → 0 < deadline_ms
    → Clocked deadline_ms k (a ∷ more)
    → deadline_ms - a.now ≤ 100 * rounds
    → rounds ≤ length more
    → (tcp_connect_with_backoff deadline_ms k (a ∷ more)).1 ≢ still_trying
tcp_connect_with_backoff-ends deadline_ms k zero a more p c near many =
    gives_up deadline_ms k a more p (omega (arith, near))
tcp_connect_with_backoff-ends deadline_ms k (suc rounds) a [] p c near many =
    absurd (omega (arith, many))
tcp_connect_with_backoff-ends deadline_ms k (suc rounds) a (b ∷ more) p (slept, c) near many =
    elim (Bool-cases (leb deadline_ms a.now)) [
      | inl over ↦ gives_up deadline_ms k a (b ∷ more) p (ground (arith, over))
      | inr early ↦
          let s =
            early-Sleep deadline_ms (backoff_step k) a.now (backoff_step-range k).0
              (ground (arith, early)) in
          let later : a.now + s.sleep ≤ b.now = ground (arith, slept, s.chosen) in
          λ h.
            tcp_connect_with_backoff-ends deadline_ms (suc k) rounds b more p c
              (omega (arith, later, s.enough, near)) (omega (arith, many))
              (passes_on deadline_ms k s.sleep a (b ∷ more) s.chosen h)
    ]

-- Attempts that fail for a reason that may pass.
abbrev pub AllTransient : List Attempt → Type 0
AllTransient [] = Unit {0}
AllTransient (a ∷ more) =
    ((e : Errno) × (a.failure ≡ some e) × (is_transient e ≡ true)) × AllTransient more

-- Without a deadline it never gives up on a failure that may pass: however many there are, in
-- whatever time, the connection behind them is taken, and it has slept once for each of them.
pub tcp_connect_with_backoff-patient :
    (k : ℕ) (before : List Attempt) (a : Attempt) (more : List Attempt)
    → AllTransient before
    → a.failure ≡ none
    → ((tcp_connect_with_backoff 0 k (before ++ a ∷ more)).1 ≡ connected)
      × (length (tcp_connect_with_backoff 0 k (before ++ a ∷ more)).0 ≡ length before)
unfolding tcp_connect_with_backoff next_sleep
tcp_connect_with_backoff-patient k [] a more t fine = (ground (arith, fine), ground (arith, fine))
tcp_connect_with_backoff-patient k (b ∷ before) a more ((e, failed, again), t) fine =
    let ih = tcp_connect_with_backoff-patient (suc k) before a more t fine in
    (ground (arith, failed, again, ih.0), ground (arith, failed, again, ih.1))
