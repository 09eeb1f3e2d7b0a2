-- ===== src/Bridge/Effects.antt =====
-- What the loop of wrapper/src/main.c does to the outside, as a list: what is written to which side,
-- the stop and the start of the transport, the acknowledgement to the daemon. The lists use none of
-- the code's functions; the lemmas say that the sends of the sink of main perform them.
use mcpbridge.Base.{
  ℕ, ◌≡◌, refl, ap, ◌∙◌, Bytes, codes, Bool, true, false, not, ◌&&◌, List, [], ◌∷◌, ◌++◌, ◌==◌,
  if◌then◌else◌, arith,
}
use mcpbridge.Fsm.{starting, running}
use mcpbridge.Transport.{sent, send_failed, estale, etimedout}
use mcpbridge.Dispatch.{ok, stale, timeout, World, Dispatch, send_raw_with_newline}
use mcpbridge.Dispatch.Posts.{Post, to_agent, to_child, posted}
use mcpbridge.Bridge.{
  Outside, Loop, sink_with, sink_send_upstream, sink_send_child, acknowledge, note_cycle, main_sink,
}

pub data Effect : Type 0 where
  post : Post → Effect
  ack : ℕ → Effect
  stop start : Effect

unfoldable pub posts : List Post → List Effect
posts [] = []
posts (p ∷ ps) = post p ∷ posts ps

-- The acknowledgement that is due: the daemon is connected, and the number is not 0.
unfoldable pub acks : Bool → ℕ → List Effect
acks connected seq = if connected && not (seq == 0) then ack seq ∷ [] else []

module _ {E : Type 0} (o : Outside E) where
  -- The calls of the outside for the effects of a list, from the first to the last.
  unfoldable pub performed : List Effect → E → E
  performed [] e = e
  performed (post (to_agent b) ∷ es) e = performed es (o.write_stdout e b).0
  performed (post (to_child b) ∷ es) e = performed es (o.transport_send e b).0
  performed (ack seq ∷ es) e = performed es (o.send_reload_ack e seq)
  performed (stop ∷ es) e = performed es (o.transport_stop e)
  performed (start ∷ es) e = performed es (o.transport_start e).0

  pub performed-append :
      (es fs : List Effect) (e : E) → performed (es ++ fs) e ≡ performed fs (performed es e)
  unfolding performed
  performed-append [] fs e = refl
  performed-append (post (to_agent b) ∷ es) fs e = performed-append es fs _
  performed-append (post (to_child b) ∷ es) fs e = performed-append es fs _
  performed-append (ack seq ∷ es) fs e = performed-append es fs _
  performed-append (stop ∷ es) fs e = performed-append es fs _
  performed-append (start ∷ es) fs e = performed-append es fs _

  -- The session runs again after a list of effects: its dispatch object is another's with the queue
  -- empty, and neither an acknowledgement nor the end of a cycle is due.
  pub record HasRecovered (es : List Effect) (d : Dispatch) (e : E) (w : World (Loop E))
      : Type 0 where
    pub is_running_again : w.fsm ≡ running
    pub restored : w.dispatch ≡ record d { queue = [] }
    pub effects : w.host.env ≡ performed es e
    pub nothing_owed : w.host.pending_reload_seq ≡ 0
    pub no_cycle : w.host.autonomous_cycle ≡ false

  -- The sends of the sink of main keep what the daemon is owed.
  pub posted-performed :
      (ps : List Post) (c : Loop E)
      → (let c' = posted (main_sink o) ps c in
          (c'.env ≡ performed (posts ps) c.env)
          × (c'.pending_reload_seq ≡ c.pending_reload_seq)
          × (c'.daemon_connected ≡ c.daemon_connected))
  unfolding posted posts performed main_sink sink_with sink_send_upstream sink_send_child
  posted-performed [] c = (refl, refl, refl)
  posted-performed (to_agent b ∷ ps) c =
      let (env, owed, connected) = posted-performed ps (sink_send_upstream o c b) in
      (
        env ∙ ap (performed (posts ps)) (ground arith),
        owed ∙ ground arith,
        connected ∙ ground arith,
      )
  posted-performed (to_child b ∷ ps) c =
      let (env, owed, connected) = posted-performed ps (sink_send_child o c b).0 in
      (
        env ∙ ap (performed (posts ps)) (ground arith),
        owed ∙ ground arith,
        connected ∙ ground arith,
      )

  -- What follows the drain when RUNNING is entered out of STARTING.
  running_entered :
      (c : Loop E)
      → (let c' = note_cycle o (acknowledge o c running) starting running in
          (c'.env ≡ performed (acks c.daemon_connected c.pending_reload_seq) c.env)
          × (c'.pending_reload_seq ≡ 0)
          × (c'.autonomous_cycle ≡ false))
  unfolding acknowledge note_cycle acks performed
  running_entered c = (ground arith, ground arith, ground arith)

  pub posts-then_running :
      (ps : List Post) (c : Loop E)
      → (let c' =
            note_cycle o (acknowledge o (posted (main_sink o) ps c) running) starting running in
          (c'.env ≡ performed (posts ps ++ acks c.daemon_connected c.pending_reload_seq) c.env)
          × (c'.pending_reload_seq ≡ 0)
          × (c'.autonomous_cycle ≡ false))
  posts-then_running ps c =
      let (env, owed, connected) = posted-performed ps c in
      let (acked, none_owed, no_cycle) = running_entered (posted (main_sink o) ps c) in
      let due = acks c.daemon_connected c.pending_reload_seq in
      (
        rw performed-append (
            acked
            ∙ ap (λ es. performed es (posted (main_sink o) ps c).env) (rw (owed, connected) refl)
            ∙ ap (performed due) env),
        none_owed,
        no_cycle,
      )

  -- What a send to the child returns, by what the transport returns.
  pub child_takes :
      (c : Loop E) (bytes : Bytes)
      → (o.transport_send c.env (bytes ++ codes "\n")).1 ≡ sent
      → (send_raw_with_newline (main_sink o) true c bytes).1 ≡ ok
  unfolding send_raw_with_newline main_sink sink_with sink_send_child
  child_takes c bytes e = ground (arith, e)

  pub child_is_stale :
      (c : Loop E) (bytes : Bytes)
      → (o.transport_send c.env (bytes ++ codes "\n")).1 ≡ send_failed estale
      → (send_raw_with_newline (main_sink o) true c bytes).1 ≡ stale
  unfolding send_raw_with_newline main_sink sink_with sink_send_child
  child_is_stale c bytes e = ground (arith, e)

  pub child_times_out :
      (c : Loop E) (bytes : Bytes)
      → (o.transport_send c.env (bytes ++ codes "\n")).1 ≡ send_failed etimedout
      → (send_raw_with_newline (main_sink o) true c bytes).1 ≡ timeout
  unfolding send_raw_with_newline main_sink sink_with sink_send_child
  child_times_out c bytes e = ground (arith, e)
