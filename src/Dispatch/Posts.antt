-- ===== src/Dispatch/Posts.antt =====
-- The messages that the dispatch layer of wrapper/src/dispatch.c writes, as a list: which bytes go to
-- which side, in which order. The lists are spelled out here without the code's functions, and the
-- lemmas say that the code's functions write them.
use mcpbridge.Base.{
  ◌≡◌, refl, ap, sym, ◌∙◌, Bytes, codes, true, Option, none, some, List, [], ◌∷◌, ◌++◌, arith,
  bytes_eq,
}
use mcpbridge.Base.Int.{negsuc}
use mcpbridge.Mcp.Build.{build_list_changed, build_error_response}
use mcpbridge.Mcp.CJson.{CJson}
use mcpbridge.Mcp.Message.{McpId, request}
use mcpbridge.Mcp.Parse.{Parsed, parsed, parse_failed, msg_parse}
use mcpbridge.Dispatch.{
  Dispatch, Sink, send_raw_with_newline, send_error, build_backend_data, code_timeout,
  reinit_timeout_message, code_session_reset, session_reset_message,
}
use mcpbridge.Dispatch.Child.{emit_list_changed_upstream, emit_all_list_changed}
use mcpbridge.Dispatch.Recovery.{drain_from, send_notif, drain_entry, drain_entries}

pub data Post : Type 0 where
  to_agent to_child : Bytes → Post

-- The calls of the sink for the messages of a list, from the first to the last.
unfoldable pub posted : {H : Type 0} → Sink H → List Post → H → H
posted s [] h = h
posted s (to_agent b ∷ ps) h = posted s ps (s.send_upstream h b)
posted s (to_child b ∷ ps) h = posted s ps (s.send_child h b).0

-- Queued messages, each a line of its own.
unfoldable pub queue_posts : List Bytes → List Post
queue_posts [] = []
queue_posts (q ∷ qs) = to_child (q ++ codes "\n") ∷ queue_posts qs

-- The cached handshake: the request and, where there is one, the notification.
unfoldable pub handshake_posts : Bytes → Option Bytes → List Post
handshake_posts req none = to_child (req ++ codes "\n") ∷ []
handshake_posts req (some n) = to_child (req ++ codes "\n") ∷ to_child (n ++ codes "\n") ∷ []

unfoldable pub list_changed_posts : List Post
list_changed_posts =
    to_agent (codes "{\"jsonrpc\":\"2.0\",\"method\":\"notifications/tools/list_changed\"}\n")
    ∷ to_agent (codes "{\"jsonrpc\":\"2.0\",\"method\":\"notifications/prompts/list_changed\"}\n")
    ∷ to_agent (codes "{\"jsonrpc\":\"2.0\",\"method\":\"notifications/resources/list_changed\"}\n")
    ∷ []

pub posted-append :
    {H : Type 0} (s : Sink H) (ps qs : List Post) (h : H)
    → posted s (ps ++ qs) h ≡ posted s qs (posted s ps h)
unfolding posted
posted-append s [] qs h = refl
posted-append s (to_agent b ∷ ps) qs h = posted-append s ps qs _
posted-append s (to_child b ∷ ps) qs h = posted-append s ps qs _

module _ {H : Type 0} (s : Sink H) where
  pub drain_from-posts : (qs : List Bytes) (h : H) → drain_from s qs h ≡ posted s (queue_posts qs) h
  unfolding drain_from send_raw_with_newline posted queue_posts
  drain_from-posts [] h = refl
  drain_from-posts (q ∷ qs) h = drain_from-posts qs _

  pub list_changed-posts : (h : H) → emit_all_list_changed s h ≡ posted s list_changed_posts h
  unfolding emit_all_list_changed emit_list_changed_upstream build_list_changed bytes_eq posted
      list_changed_posts
  list_changed-posts h = refl

module _ {J D : Type 0} (cj : CJson J D) where
  -- The error for a request of the queue when the child times out in the handshake, if one can be
  -- built.
  unfoldable pub timeout_post : Option Bytes → List Post
  timeout_post none = []
  timeout_post (some err) = to_agent err ∷ []

  -- A request gets its error, with the code -32001 and the backend's data; a notification, a response
  -- and a line that is not a message get nothing.
  unfoldable pub timeout_answer : Dispatch → Parsed → List Post
  unfolding timeout_post
  timeout_answer d (parse_failed _) = []
  timeout_answer d (parsed m) = elim m.kind [
    | request ↦ timeout_post (
        build_error_response cj m.id (negsuc 32000)
          (codes "mcpbridge: upstream unreachable past timeout during reinit")
          (build_backend_data cj d))
    | _ ↦ []
  ]

  unfoldable pub timeout_answers : Dispatch → List Bytes → List Post
  unfolding timeout_answer
  timeout_answers d [] = []
  timeout_answers d (q ∷ qs) = timeout_answer d (msg_parse cj q) ++ timeout_answers d qs

  -- The answer to a request whose session was reset, if it can be built: the code -32002, no data.
  unfoldable pub reset_answer : McpId → List Post
  reset_answer id =
      elim (build_error_response cj id (negsuc 32001)
        (codes "mcpbridge: upstream session reset during call; please retry") none) [
          | none ↦ []
          | some err ↦ to_agent err ∷ []
        ]

  pub send_error-reset :
      {H : Type 0} (s : Sink H) (id : McpId) (h : H)
      → send_error cj s h id code_session_reset session_reset_message none
        ≡ posted s (reset_answer id) h
  unfolding send_error reset_answer posted session_reset_message
  send_error-reset s id h = ground arith

module _ {J D H : Type 0} (cj : CJson J D) (s : Sink H) where
  pub handshake-posts :
      (req : Bytes) (notif : Option Bytes) (h : H)
      → send_notif cj s (send_raw_with_newline s true h req).0 notif
        ≡ posted s (handshake_posts req notif) h
  unfolding send_raw_with_newline posted handshake_posts
  handshake-posts req none h = refl
  handshake-posts req (some n) h = refl

  entry-posts :
      (d : Dispatch) (p : Parsed) (q : Bytes) (h : H)
      → msg_parse cj q ≡ p
      → drain_entry cj s d true code_timeout reinit_timeout_message q h
        ≡ posted s (timeout_answer cj d p) h
  unfolding drain_entry timeout_answer timeout_post posted send_error reinit_timeout_message
  entry-posts d p q h e = ground (arith, e)

  pub drain_entries-posts :
      (d : Dispatch) (qs : List Bytes) (h : H)
      → drain_entries cj s d true code_timeout reinit_timeout_message qs h
        ≡ posted s (timeout_answers cj d qs) h
  unfolding drain_entries timeout_answers posted
  drain_entries-posts d [] h = refl
  drain_entries-posts d (q ∷ qs) h =
      drain_entries-posts d qs _
      ∙ ap (posted s (timeout_answers cj d qs)) (entry-posts d (msg_parse cj q) q h refl)
      ∙ sym (posted-append s (timeout_answer cj d (msg_parse cj q)) (timeout_answers cj d qs) h)
