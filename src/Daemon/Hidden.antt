-- ===== src/Daemon/Hidden.antt =====
-- Envelopes that `daemon_client_try_read` of wrapper/src/daemon_client.c leaves behind.
use mcpbridge.Base.{
  ℕ, ◌≡◌, ap, ◌∙◌, ◌⊎◌, inl, inr, Bytes, codes, none, some, true, arith, List, ◌∷◌, ◌++◌,
}
use mcpbridge.Mcp.Reader.{Reader, live_bytes, split_newline}
use mcpbridge.Mcp.Reader.Reserve.{IsValid}
use mcpbridge.Mcp.Reader.Lines.{NoNewline}
use mcpbridge.Mcp.Reader.Drain.{PoppedTo, pop_line}
use mcpbridge.Mcp.CJson.{CJson}
use mcpbridge.Dispatch.{World}
use mcpbridge.Bridge.{Outside, Loop}
use mcpbridge.Bridge.Handlers.{no_more, event, reload, daemon_reload}
use mcpbridge.Http.Sse.Sizes.{split_newline-front}
use mcpbridge.Daemon.{
  DaemonJson, DaemonClient, DaemonEnvelope, blank_envelope, SockRead, line_event, first_pop,
  daemon_client_try_read,
}
use mcpbridge.Daemon.Drain.{drain_client, drain-no_more, drain-reload}

module _ {J D : Type 0} (j : DaemonJson J D) where
  -- A line that is waiting is read, whatever the socket has.
  pub try_read_line :
      (dc : DaemonClient) (read : SockRead) (l rest : Bytes)
      → IsValid dc.reader
      → NoNewline l
      → live_bytes dc.reader ≡ l ++ b'\n' ∷ rest
      → (r' : Reader) × (daemon_client_try_read j dc read
          ≡ (line_event j l, record dc { reader = r' }))
        × PoppedTo dc.reader rest r'
  unfolding daemon_client_try_read
  try_read_line dc read l rest v n e =
      let (r', popped, after) =
        pop_line dc.reader l rest v (ap split_newline e ∙ split_newline-front l rest n) in
      (r', ap (first_pop j dc read) popped, after)

  -- A line that is no envelope: it is not JSON, or it has no type that is a string.
  unfoldable pub IsUnreadable : Bytes → Type 0
  IsUnreadable text =
      (j.parse_with_length text ≡ none)
      ⊎ ((env : J) × (j.parse_with_length text ≡ some env)
          × (((j.get_object_item env (codes "t")) ≡ none)
              ⊎ ((t : J) × (j.get_object_item env (codes "t") ≡ some t)
                  × (j.string_value t ≡ none))))

  unread_line : (text : Bytes) → IsUnreadable text → line_event j text ≡ (no_more, blank_envelope)
  unfolding line_event IsUnreadable
  unread_line text (inl no_json) = ground (arith, no_json)
  unread_line text (inr (env, json, inl no_type)) = ground (arith, json, no_type)
  unread_line text (inr (env, json, inr (t, typed, no_string))) =
      ground (arith, json, typed, no_string)

  -- A line that cannot be read as an envelope, because it is no JSON or has no type that is a string,
  -- ends the drain of the daemon's connection, also when a reload stands complete behind it in the
  -- buffer: for a valid reader with both lines in front, the drain reports success after one read,
  -- whatever the socket has, and leaves the world as it is, with the reload in the client's buffer. The
  -- next drain, whenever it comes, starts with that reload, before any byte more from the socket.
  pub try_read-hidden_reload :
      {J' D' E : Type 0} (cj : CJson J' D') (o : Outside E) (w w' : World (Loop E))
      (dc : DaemonClient) (read read' : SockRead) (reads reads' : List SockRead)
      (bad good rest : Bytes) (seq : ℕ) (e : DaemonEnvelope)
      → IsValid dc.reader
      → NoNewline bad
      → NoNewline good
      → live_bytes dc.reader ≡ bad ++ b'\n' ∷ (good ++ b'\n' ∷ rest)
      → IsUnreadable bad
      → line_event j good ≡ (event (reload seq), e)
      → (dc' : DaemonClient) × (dc'' : DaemonClient) × (drain_client j cj o w dc (read ∷ reads)
          ≡ (w, dc', true))
        × (live_bytes dc'.reader ≡ good ++ b'\n' ∷ rest)
        × (drain_client j cj o w' dc' (read' ∷ reads')
            ≡ drain_client j cj o (daemon_reload cj o w' seq) dc'' reads')
        × (live_bytes dc''.reader ≡ rest)
  try_read-hidden_reload cj o w w' dc read read' reads reads' bad good rest seq e v n m whole unread
        known =
      let (r', first, after) = try_read_line dc read bad (good ++ b'\n' ∷ rest) v n whole in
      let dc' = record dc { reader = r' } in
      let (r'', second, last) = try_read_line dc' read' good rest after.valid m after.live_left in
      let ended : daemon_client_try_read j dc read ≡ ((no_more, blank_envelope), dc') =
        first ∙ ap (λ x. (x, dc')) (unread_line bad unread) in
      let dc'' = record dc' { reader = r'' } in
      let found : daemon_client_try_read j dc' read' ≡ ((event (reload seq), e), dc'') =
        second ∙ ap (λ x. (x, dc'')) known in
      (
        dc',
        dc'',
        drain-no_more j cj o w dc dc' read reads blank_envelope ended,
        after.live_left,
        drain-reload j cj o w' dc' dc'' read' reads' seq e found,
        last.live_left,
      )
