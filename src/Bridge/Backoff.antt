-- ===== src/Bridge/Backoff.antt =====
-- The delay between the attempts to reach the daemon, in wrapper/src/main.c.
use mcpbridge.Base.{
  ℕ, zero, suc, ◌+◌, ◌*◌, ◌^◌, ◌≤◌, ◌≡◌, refl, ap, ◌∙◌, ltb, List, [], ◌∷◌, ◌++◌, length,
  if◌then◌else◌, arith,
}
use mcpbridge.Bridge.{Loop, next_backoff, bump_backoff, reset_backoff}

module _ {E : Type 0} where
  -- One failed attempt after another, with what the clock says at each.
  unfoldable pub attempts : Loop E → List ℕ → Loop E
  attempts c [] = c
  attempts c (now ∷ later) = attempts (bump_backoff c now) later

-- The delay after so many failed attempts in a row.
unfoldable pub delay_after : ℕ → ℕ
delay_after zero = 0
delay_after (suc n) = let d = 1000 * 2 ^ n in if ltb 5000 d then 5000 else d

pow-suc : (n : ℕ) → 2 ^ suc n ≡ 2 * 2 ^ n
pow-suc n = omega arith

pow-pos : (n : ℕ) → 1 ≤ 2 ^ n
pow-pos zero = omega arith
pow-pos (suc n) = omega (arith, pow-suc n, pow-pos n)

next-delay : (n : ℕ) → next_backoff (delay_after n) ≡ delay_after (suc n)
unfolding delay_after
next-delay zero = refl
next-delay (suc n) = ground (arith, pow-suc n, pow-pos n)

module _ {E : Type 0} where
  attempts-from :
      (c : Loop E) (k : ℕ) (times : List ℕ)
      → c.backoff_ms ≡ delay_after k
      → (attempts c times).backoff_ms ≡ delay_after (length times + k)
  unfolding attempts bump_backoff
  attempts-from c k [] h = h ∙ ap delay_after (omega arith)
  attempts-from c k (t ∷ ts) h =
      attempts-from (bump_backoff c t) (suc k) ts (ap next_backoff h ∙ next-delay k)
      ∙ ap delay_after (omega arith)

  attempts-last :
      (c : Loop E) (times : List ℕ) (now : ℕ)
      → attempts c (times ++ now ∷ []) ≡ bump_backoff (attempts c times) now
  unfolding attempts
  attempts-last c [] now = refl
  attempts-last c (t ∷ ts) now = attempts-last (bump_backoff c t) ts now

  -- The delay doubles up to its bound: from a reset, n + 1 failed attempts lead to a delay of the
  -- smaller of 1000 * 2 ^ n and 5000 milliseconds, and the next attempt is due that long after the
  -- last one.
  pub attempts-delay :
      (c : Loop E) (times : List ℕ) (now : ℕ)
      → (let after = attempts (reset_backoff c) (times ++ now ∷ []) in
          let delay = delay_after (length times + 1) in
          (after.backoff_ms ≡ delay) × (after.next_reconnect_at ≡ now + delay))
  unfolding reset_backoff bump_backoff delay_after
  attempts-delay c times now =
      let one_more : suc (length times + 0) ≡ length times + 1 = omega arith in
      let reached : next_backoff (attempts (reset_backoff c) times).backoff_ms
          ≡ delay_after (length times + 1) =
        ap next_backoff (attempts-from (reset_backoff c) 0 times refl)
        ∙ next-delay (length times + 0)
        ∙ ap delay_after one_more in
      (
        ap (λ u. u.backoff_ms) (attempts-last (reset_backoff c) times now) ∙ reached,
        ap (λ u. u.next_reconnect_at) (attempts-last (reset_backoff c) times now)
            ∙ ap (◌+◌ now) reached,
      )
