-- ===== src/Http/Connect.antt =====
-- `tcp_connect_with_backoff` of wrapper/src/transport_http.c. The attempts to connect are given with
-- what each comes to and the clock after it; the last one given is the last one made so far.
pub mod Deadline
use mcpbridge.Base.{
  ℕ, zero, suc, ◌+◌, ◌-◌, Bool, true, false, not, ◌&&◌, ◌||◌, Option, none, some, List, [], ◌∷◌,
  ltb, leb, ◌==◌, if◌then◌else◌,
}
use mcpbridge.Transport.{
  Errno, etimedout, econnrefused, ehostunreach, enetunreach, enetdown, eagain, eio,
}

-- `tcp_connect` and then `http_monotonic_ms`.
pub record Attempt : Type 0 where
  -- `none` is a connection.
  pub failure : Option Errno
  pub now : ℕ

pub data Connecting : Type 0 where
  connected : Connecting
  connect_failed : Errno → Connecting
  still_trying : Connecting

abbrev pub is_transient : Errno → Bool
is_transient econnrefused = true
is_transient etimedout = true
is_transient ehostunreach = true
is_transient enetunreach = true
is_transient enetdown = true
is_transient eagain = true
is_transient eio = true
is_transient _ = false

-- `backoff_steps_ms`, with its last entry for every attempt behind.
abbrev pub backoff_step : ℕ → ℕ
backoff_step zero = 100
backoff_step (suc zero) = 500
backoff_step (suc (suc zero)) = 1000
backoff_step (suc (suc (suc zero))) = 2000
backoff_step _ = 5000

-- The step before the next attempt; `none` is the end of the time. A deadline of 0 is none.
unfoldable pub next_sleep : ℕ → ℕ → ℕ → Option ℕ
next_sleep deadline_ms step_ms now =
    if deadline_ms == 0
    then some step_ms
    else if leb deadline_ms now
    then none
    else if ltb (deadline_ms - now) step_ms
    then some (deadline_ms - now)
    else some step_ms

-- The loop from the attempt of a number: the sleeps, and what it has come to.
unfoldable pub tcp_connect_with_backoff : ℕ → ℕ → List Attempt → List ℕ × Connecting
unfolding next_sleep
tcp_connect_with_backoff deadline_ms attempt [] = ([], still_trying)
tcp_connect_with_backoff deadline_ms attempt (a ∷ more) =
    let (sleeps, result) = tcp_connect_with_backoff deadline_ms (suc attempt) more in
    elim a.failure [
      | none ↦ ([], connected)
      | some e ↦
          if not (is_transient e)
          then ([], connect_failed e)
          else elim (next_sleep deadline_ms (backoff_step attempt) a.now) [
            | none ↦ ([], connect_failed etimedout)
            | some step ↦ (step ∷ sleeps, result)
          ]
    ]
