-- ===== src/Daemon/Drain.antt =====
-- The loop of `drain_daemon` in wrapper/src/main.c with the client that it reads from: what is left in
-- the client's buffer is there for the next drain.
use mcpbridge.Base.{ℕ, ◌≡◌, refl, ap, Bool, true, false, List, [], ◌∷◌}
use mcpbridge.Mcp.CJson.{CJson}
use mcpbridge.Dispatch.{World}
use mcpbridge.Bridge.{Outside, Loop}
use mcpbridge.Bridge.Handlers.{
  nothing, closed, shutdown, error, hello_ok, register_ok, reload, ReadResult, no_more, read_error,
  event, daemon_reload, drain_daemon,
}
use mcpbridge.Daemon.{DaemonJson, DaemonClient, DaemonEnvelope, SockRead, daemon_client_try_read}

module _ {J D J' D' E : Type 0} (j : DaemonJson J D) (cj : CJson J' D') (o : Outside E) where
  -- A round of the loop behind its read: the flag is `return 0`, and the argument goes on.
  abbrev drain_round :
      World (Loop E)
      → DaemonClient
      → ReadResult
      → (World (Loop E) → World (Loop E) × DaemonClient × Bool)
      → World (Loop E) × DaemonClient × Bool
  drain_round w dc no_more again = (w, dc, true)
  drain_round w dc read_error again = (w, dc, false)
  drain_round w dc (event nothing) again = (w, dc, true)
  drain_round w dc (event closed) again = (w, dc, false)
  drain_round w dc (event shutdown) again = (w, dc, false)
  drain_round w dc (event (reload seq)) again = again (daemon_reload cj o w seq)
  drain_round w dc (event error) again = again w
  drain_round w dc (event hello_ok) again = again w
  drain_round w dc (event register_ok) again = again w

  -- One entry of the list is there for each round: what a read of the socket would come to in it. A
  -- list that ends stands for `return 0` too.
  unfoldable pub drain_client :
      World (Loop E) → DaemonClient → List SockRead → World (Loop E) × DaemonClient × Bool
  drain_client w dc [] = (w, dc, true)
  drain_client w dc (read ∷ reads) =
      let (result, dc') = daemon_client_try_read j dc read in
      drain_round w dc' result.0 (λ w'. drain_client w' dc' reads)

  pub drain-no_more :
      (w : World (Loop E)) (dc dc' : DaemonClient) (read : SockRead) (reads : List SockRead)
      (e : DaemonEnvelope)
      → daemon_client_try_read j dc read ≡ ((no_more, e), dc')
      → drain_client w dc (read ∷ reads) ≡ (w, dc', true)
  unfolding drain_client
  drain-no_more w dc dc' read reads e h =
      ap (λ x. drain_round w x.1 x.0.0 (λ w'. drain_client w' x.1 reads)) h

  pub drain-reload :
      (w : World (Loop E)) (dc dc' : DaemonClient) (read : SockRead) (reads : List SockRead)
      (seq : ℕ) (e : DaemonEnvelope)
      → daemon_client_try_read j dc read ≡ ((event (reload seq), e), dc')
      → drain_client w dc (read ∷ reads) ≡ drain_client (daemon_reload cj o w seq) dc' reads
  unfolding drain_client
  drain-reload w dc dc' read reads seq e h =
      ap (λ x. drain_round w x.1 x.0.0 (λ w'. drain_client w' x.1 reads)) h

  -- What the reads report, one after another.
  unfoldable pub try_reads : DaemonClient → List SockRead → List ReadResult
  try_reads dc [] = []
  try_reads dc (read ∷ reads) =
      let (result, dc') = daemon_client_try_read j dc read in result.0 ∷ try_reads dc' reads

  round-agrees :
      (w : World (Loop E)) (dc : DaemonClient) (r : ReadResult) (rs : List ReadResult)
      (again : World (Loop E) → World (Loop E) × DaemonClient × Bool)
      → ((w' : World (Loop E)) → ((again w').0, (again w').2) ≡ drain_daemon cj o w' rs)
      → ((drain_round w dc r again).0, (drain_round w dc r again).2) ≡ drain_daemon cj o w (r ∷ rs)
  unfolding drain_daemon
  round-agrees w dc no_more rs again h = refl
  round-agrees w dc read_error rs again h = refl
  round-agrees w dc (event nothing) rs again h = refl
  round-agrees w dc (event closed) rs again h = refl
  round-agrees w dc (event shutdown) rs again h = refl
  round-agrees w dc (event (reload seq)) rs again h = h (daemon_reload cj o w seq)
  round-agrees w dc (event error) rs again h = h w
  round-agrees w dc (event hello_ok) rs again h = h w
  round-agrees w dc (event register_ok) rs again h = h w

  -- The loop with the client does what the loop over the results does.
  pub drain_client-drain_daemon :
      (w : World (Loop E)) (dc : DaemonClient) (reads : List SockRead)
      → ((drain_client w dc reads).0, (drain_client w dc reads).2)
        ≡ drain_daemon cj o w (try_reads dc reads)
  unfolding drain_client try_reads drain_daemon
  drain_client-drain_daemon w dc [] = refl
  drain_client-drain_daemon w dc (read ∷ reads) =
      let (result, dc') = daemon_client_try_read j dc read in
      round-agrees w dc' result.0 (try_reads dc' reads) (λ w'. drain_client w' dc' reads)
        (λ w'. drain_client-drain_daemon w' dc' reads)
