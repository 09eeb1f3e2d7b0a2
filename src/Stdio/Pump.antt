-- ===== src/Stdio/Pump.antt =====
-- What `stdio_pump` of wrapper/src/transport_stdio.c hands on.
use mcpbridge.Base.{
  ℕ, zero, suc, ◌+◌, ◌≤◌, ◌≡◌, refl, ap, sym, ◌∙◌, inl, inr, Bytes, false, some, ◌∷◌, ◌++◌,
  if◌then◌else◌, length, arith, Option-cases, Bool-cases,
}
use mcpbridge.Transport.{eproto}
use mcpbridge.Mcp.Reader.{Reader, live, live_bytes, split_newline, reader_feed, hard_cap}
use mcpbridge.Mcp.Reader.Feed.{feed_fits}
use mcpbridge.Mcp.Reader.Reserve.{IsValid, length-live_bytes}
use mcpbridge.Mcp.Reader.Lines.{split_lines, split_lines-none, split_lines-some}
use mcpbridge.Mcp.Reader.Drain.{live_behind, pop_line, pop_too_long, pop_empty}
use mcpbridge.Http.Sse.Handling.{deliver}
use mcpbridge.Stdio.{
  StdioSelf, child_bytes, Pumped, progress, pump_failed, after_pops, pop_loop, stdio_pump,
}

module _ {C : Type 0} (on_msg : C → Bytes → C) where
  -- What the pops come to: all complete lines handed on, and what is behind the last kept.
  record Popping (r : Reader) (c : C) (result : (Reader × C) × Pumped) : Type 0 where
    left : Reader
    popped : result ≡ (
      (left, deliver on_msg c (split_lines (live_bytes r)).0),
      if r.overflow_pending then pump_failed eproto else progress,
    )
    partial : live_bytes left ≡ (split_lines (live_bytes r)).1

  pop_loop-Popping :
      (f : ℕ) (r : Reader) (c : C)
      → IsValid r
      → live r + 2 ≤ f
      → Popping r c (pop_loop on_msg f r c)
  unfolding pop_loop
  pop_loop-Popping zero r c v fuel = absurd (omega arith)
  pop_loop-Popping (suc f) r c v fuel = elim (Option-cases (split_newline (live_bytes r))) [
    | inl gone ↦ elim (Bool-cases r.overflow_pending) [
      | inl over ↦ record {
        left = record r { overflow_pending = false };
        popped =
            rw (split_lines-none (live_bytes r) gone)
              (ground (arith, pop_too_long r gone over, over));
        partial = rw (split_lines-none (live_bytes r) gone) refl;
      }
      | inr quiet ↦ record {
        left = r;
        popped =
            rw (split_lines-none (live_bytes r) gone)
              (ground (arith, pop_empty r gone quiet, quiet));
        partial = rw (split_lines-none (live_bytes r) gone) refl;
      }
    ]
    | inr ((l, rest), e) ↦
        let (r', popped, to) = pop_line r l rest v e in
        let shorter : live r ≡ length l + 1 + live r' =
          (live_behind r l rest e).1
          ∙ ap (λ (n : ℕ). length l + 1 + n)
              (ap length (sym to.live_left) ∙ length-live_bytes r') in
        let ih = pop_loop-Popping f r' (on_msg c l) to.valid (omega (arith, shorter, fuel)) in
        let found : split_lines (live_bytes r)
            ≡ (l ∷ (split_lines (live_bytes r')).0, (split_lines (live_bytes r')).1) =
          rw to.live_left (split_lines-some (live_bytes r) l rest e) in
        let step : pop_loop on_msg (suc f) r c ≡ pop_loop on_msg f r' (on_msg c l) =
          ground (arith, popped) in
        record {
          left = ih.left;
          popped =
              step
              ∙ ih.popped
              ∙ ap
                  (λ o. (
                    (ih.left, deliver on_msg (on_msg c l) (split_lines (live_bytes r')).0),
                    if o then pump_failed eproto else progress,
                  ))
                  to.overflow_kept
              ∙ ap
                  (λ s. (
                    (ih.left, deliver on_msg c s.0),
                    if r.overflow_pending then pump_failed eproto else progress,
                  ))
                  (sym found);
          partial = ih.partial ∙ ap (λ s. s.1) (sym found);
        }
  ]

  -- A pump of a started transport hands on exactly the lines that the child has completed: those of
  -- the bytes that wait in its reader and of the bytes that the read brings, in order. What is behind
  -- the last newline waits. This is for a valid reader that reports no line as too long, and for
  -- bytes that fit behind those that wait.
  pub stdio_pump-lines :
      (s : StdioSelf) (fd : ℕ) (r : Reader) (bytes : Bytes) (c : C)
      → s.stdout_fd ≡ some fd
      → s.reader ≡ some r
      → IsValid r
      → r.dropping ≡ false
      → r.overflow_pending ≡ false
      → live r + length bytes ≤ hard_cap r
      → (r' : Reader) × (stdio_pump on_msg s (child_bytes bytes) c ≡ (
        (record s { reader = some r' }, deliver on_msg c (split_lines (live_bytes r ++ bytes)).0),
        progress,
      ))
        × (live_bytes r' ≡ (split_lines (live_bytes r ++ bytes)).1)
  unfolding stdio_pump
  stdio_pump-lines s fd r bytes c started there v d o fits =
      let fed = feed_fits r bytes v d fits in
      let f = reader_feed r bytes in
      let p = pop_loop-Popping (live f + 2) f c fed.valid (omega arith) in
      let step : stdio_pump on_msg s (child_bytes bytes) c
          ≡ after_pops on_msg s (pop_loop on_msg (live f + 2) f c) =
        rw (started, there) refl in
      let quiet : f.overflow_pending ≡ false = fed.overflow_kept ∙ o in
      (
        p.left,
        step
            ∙ ap (after_pops on_msg s) p.popped
            ∙ ap
                (λ t. after_pops on_msg s (
                  (p.left, deliver on_msg c (split_lines (live_bytes f)).0),
                  if t then pump_failed eproto else progress,
                ))
                quiet
            ∙ ap (λ x. after_pops on_msg s ((p.left, deliver on_msg c (split_lines x).0), progress))
                fed.live_appended,
        p.partial ∙ ap (λ x. (split_lines x).1) fed.live_appended,
      )
