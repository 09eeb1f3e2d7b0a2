-- ===== src/Dispatch/Settling.antt =====
-- How the requests in flight come to an end in wrapper/src/dispatch.c: by responses, in
-- `dispatch_on_child`, or by `dispatch_settle_in_flight`.
use mcpbridge.Base.{
  ℕ, suc, ◌+◌, ◌≡◌, refl, ap, ◌∙◌, inl, inr, true, false, Option-cases, List, [], ◌∷◌, ◌++◌, arith,
  length, length-append,
}
use mcpbridge.Fsm.{draining, in_flight_zero}
use mcpbridge.Mcp.Message.{Msg, kind_is_response}
use mcpbridge.Dispatch.{Dispatch, World, Sink, send_raw_with_newline, remove_first, inflight_remove}
use mcpbridge.Dispatch.Child.{settle_response, later_message, dispatch_on_child}

module _ {H : Type 0} (s : Sink H) where
  -- The messages of the child, one after another.
  unfoldable pub child_all : World H → List Msg → World H
  child_all w [] = w
  child_all w (m ∷ ms) = child_all (dispatch_on_child s w m) ms

  -- Their lines, as they are passed on to the agent.
  unfoldable pub passed_on : List Msg → H → H
  passed_on [] h = h
  passed_on (m ∷ ms) h = passed_on ms (send_raw_with_newline s false h m.raw).0

unfoldable pub AllResponses : List Msg → Type 0
AllResponses [] = Unit {0}
AllResponses (m ∷ ms) = (kind_is_response m.kind ≡ true) × AllResponses ms

pub responses-prefix : (ms : List Msg) (m : Msg) → AllResponses (ms ++ m ∷ []) → AllResponses ms
unfolding AllResponses
responses-prefix [] m k = tt
responses-prefix (x ∷ xs) m (k, ks) = (k, responses-prefix xs m ks)

-- The dispatch object after some responses, each with or without an entry of its own.
unfoldable pub settle_responses : Dispatch → List Msg → Dispatch
settle_responses d [] = d
settle_responses d (m ∷ ms) = settle_responses (settle_response d m) ms

-- The session is past its handshake.
pub record IsSettledSession (d : Dispatch) : Type 0 where
  pub is_initialized : d.initialized ≡ true
  pub no_replay : d.replay_pending ≡ false

response-count :
    (d : Dispatch) (m : Msg) (n : ℕ) → d.in_flight ≡ suc n → (settle_response d m).in_flight ≡ n
unfolding settle_response inflight_remove
response-count d m n h = elim (Option-cases (remove_first m.id d.inflight)) [
  | inl gone ↦ ground arith
  | inr (rest, e) ↦ ground (arith, e)
]

response-session :
    (d : Dispatch) (m : Msg) → IsSettledSession d → IsSettledSession (settle_response d m)
unfolding settle_response inflight_remove
response-session d m v = elim (Option-cases (remove_first m.id d.inflight)) [
  | inl gone ↦ record {
    is_initialized = ground (arith, v.is_initialized);
    no_replay = ground (arith, v.no_replay);
  }
  | inr (rest, e) ↦ record {
    is_initialized = ground (arith, e, v.is_initialized);
    no_replay = ground (arith, e, v.no_replay);
  }
]

module _ {H : Type 0} (s : Sink H) where
  -- What one response does before the event that it may raise.
  abbrev pub answered : World H → Msg → World H
  answered w m = record w {
    dispatch = settle_response w.dispatch m;
    host = (send_raw_with_newline s false w.host m.raw).0;
  }

  not_last :
      (w : World H) (m : Msg) (n : ℕ)
      → IsSettledSession w.dispatch
      → kind_is_response m.kind ≡ true
      → w.dispatch.in_flight ≡ suc (suc n)
      → dispatch_on_child s w m ≡ answered w m
  unfolding dispatch_on_child later_message
  not_last w m n v k h =
      ground (arith, v.is_initialized, v.no_replay, response-count w.dispatch m (suc n) h)

  -- With more in flight than there are responses, nothing is raised.
  pub drain-waits :
      (w : World H) (ms : List Msg) (n : ℕ)
      → IsSettledSession w.dispatch
      → AllResponses ms
      → w.dispatch.in_flight ≡ length ms + suc n
      → child_all s w ms
        ≡ record w { dispatch = settle_responses w.dispatch ms; host = passed_on s ms w.host }
  unfolding child_all passed_on AllResponses settle_responses
  drain-waits w [] n v k h = refl
  drain-waits w (x ∷ xs) n v (k, ks) h =
      let left : w.dispatch.in_flight ≡ suc (suc (length xs + n)) = omega (arith, h) in
      ap (λ u. child_all s u xs) (not_last w x (length xs + n) v k left)
      ∙ drain-waits (answered w x) xs n (response-session w.dispatch x v) ks
          (response-count w.dispatch x (suc (length xs + n)) left ∙ omega arith)

  last :
      (w : World H) (m : Msg)
      → IsSettledSession w.dispatch
      → kind_is_response m.kind ≡ true
      → w.fsm ≡ draining
      → w.dispatch.in_flight ≡ 1
      → dispatch_on_child s w m ≡ s.emit_event (answered w m) in_flight_zero
  unfolding dispatch_on_child later_message
  last w m v k r h =
      ground (arith, r, v.is_initialized, v.no_replay, response-count w.dispatch m 0 h)

  -- A drain ends with the last answer and not before: past the handshake and while DRAINING, as many
  -- responses as the count says, whatever their ids are, are all passed on in order, and
  -- IN_FLIGHT_ZERO is raised once, behind the last of them.
  pub drain-completes :
      (w : World H) (ms : List Msg) (m : Msg)
      → w.fsm ≡ draining
      → IsSettledSession w.dispatch
      → AllResponses (ms ++ m ∷ [])
      → w.dispatch.in_flight ≡ length (ms ++ m ∷ [])
      → child_all s w (ms ++ m ∷ [])
        ≡ s.emit_event
            (record w {
              dispatch = settle_responses w.dispatch (ms ++ m ∷ []);
              host = passed_on s (ms ++ m ∷ []) w.host;
            })
            in_flight_zero
  unfolding child_all passed_on AllResponses settle_responses
  drain-completes w [] m r v (k, _) h = last w m v k r h
  drain-completes w (x ∷ xs) m r v (k, ks) h =
      let left : w.dispatch.in_flight ≡ suc (suc (length xs)) =
        omega (arith, h, length-append xs (m ∷ [])) in
      ap (λ u. child_all s u (xs ++ m ∷ [])) (not_last w x (length xs) v k left)
      ∙ drain-completes (answered w x) xs m r (response-session w.dispatch x v) ks
          (response-count w.dispatch x _ h)
