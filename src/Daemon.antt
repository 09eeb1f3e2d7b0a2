-- ===== src/Daemon.antt =====
-- wrapper/src/daemon_client.c: the wrapper's end of its connection to the daemon. The socket is an
-- argument of the functions: what its writes, polls and reads come to. `DAEMON_EV_NONE` is `nothing`.
pub mod Hidden
pub mod Drain
use mcpbridge.Base.{
  ℕ, zero, suc, ◌+◌, ◌*◌, ◌%◌, ◌^◌, ◌⊎◌, inl, inr, Bytes, codes, bytes_eq, Bool, true, false,
  Option, none, some, List, [], ◌∷◌, ◌++◌, leb, ◌==◌, if◌then◌else◌, length,
}
use mcpbridge.Base.Int.{ℤ}
use mcpbridge.Transport.{Errno, einval, eproto, etimedout, other_errno}
use mcpbridge.Mcp.Reader.{
  Reader, Popped, line, empty, too_long, reader_init, reader_feed, reader_pop,
}
use mcpbridge.Bridge.Handlers.{
  DaemonEvent, nothing, closed, shutdown, error, hello_ok, register_ok, reload, ReadResult, no_more,
  read_error, event,
}

-- The calls of cJSON. `J` stands for `cJSON *` and `D` for `double`.
pub record DaemonJson (J D : Type 0) : Type 0 where
  pub parse_with_length : Bytes → Option J
  -- `cJSON_GetObjectItemCaseSensitive`
  pub get_object_item : J → Bytes → Option J
  -- `cJSON_IsString` with a `valuestring`, and that string
  pub string_value : J → Option Bytes
  -- `cJSON_IsNumber`, and `valuedouble`
  pub number_value : J → Option D
  pub is_true : J → Bool
  pub create_object : J
  pub add_string_to_object : J → Bytes → Bytes → J
  pub add_number_to_object : J → Bytes → D → J
  pub print_unformatted : J → Option Bytes
  -- `< 0`, and the casts between `double` and `uint64_t`
  pub is_negative : D → Bool
  pub uint64_of_double : D → ℕ
  pub double_of_uint64 : ℕ → D
  -- The cast from `pid_t`, whose values may be negative.
  pub double_of_pid : ℤ → D

pub record DaemonClient : Type 0 where
  pub reader : Reader
  pub next_seq : ℕ

-- `struct daemon_event`, with NULL as `none`.
pub record DaemonEnvelope : Type 0 where
  pub kind : DaemonEvent
  pub seq : ℕ
  pub ack_seq : ℕ
  pub reason : Option Bytes
  pub name : Option Bytes
  pub code : Option Bytes
  pub detail : Option Bytes
  pub config_found : Bool
  pub polling : Bool

abbrev pub blank_envelope : DaemonEnvelope
blank_envelope = record {
  kind = nothing;
  seq = 0;
  ack_seq = 0;
  reason = none;
  name = none;
  code = none;
  detail = none;
  config_found = false;
  polling = false;
}

-- `socket` and `connect` give an error or a connection. `addr.sun_path` has 108 bytes. An error is
-- that of `errno`, with ENAMETOOLONG and those of the socket as `other_errno`.
unfoldable pub daemon_client_new : Option Bytes → Bool → DaemonClient ⊎ Errno
daemon_client_new none connects = inr einval
daemon_client_new (some []) connects = inr einval
daemon_client_new (some (ch ∷ path)) connects =
    if leb 108 (length (ch ∷ path))
    then inr other_errno
    else if connects
    then inl (record { next_seq = 1; reader = reader_init (256 * 1024) })
    else inr other_errno

-- What `poll` and then `read` come to in `read_line_blocking`. EINTR is left out.
pub data Polled : Type 0 where
  poll_timed_out poll_failed read_closed read_broken : Polled
  brought : Bytes → Polled

-- The pops until a line or EMPTY. TOO_LONG comes once at most, so two units of fuel are enough.
unfoldable pub pop_past : ℕ → Reader → Option Bytes × Reader
pop_past zero r = (none, r)
pop_past (suc f) r = elim (reader_pop r).0 [
  | line l ↦ (some l, (reader_pop r).1)
  | too_long ↦ pop_past f (reader_pop r).1
  | empty ↦ (none, (reader_pop r).1)
]

-- What comes of the wait for a line: the line and the polls to come, or an error.
pub data Answered : Type 0 where
  answer : Bytes → List Polled → Answered
  no_answer : Errno → Answered
  -- The list of polls is at its end.
  waiting : Answered

unfoldable pub read_line_blocking : Reader → List Polled → Answered × Reader
unfolding pop_past
read_line_blocking r [] =
    let (l, r') = pop_past 2 r in elim l [ some text ↦ (answer text [], r') | none ↦ (waiting, r') ]
read_line_blocking r (p ∷ ps) =
    let (l, r') = pop_past 2 r in
    let polled : Answered × Reader = elim p [
      | poll_timed_out ↦ (no_answer etimedout, r')
      | poll_failed ↦ (no_answer other_errno, r')
      | read_closed ↦ (no_answer other_errno, r')
      | read_broken ↦ (no_answer other_errno, r')
      | brought bytes ↦ read_line_blocking (reader_feed r' bytes) ps
    ] in
    elim l [ some text ↦ (answer text (p ∷ ps), r') | none ↦ polled ]

-- What the read of `daemon_client_try_read` comes to.
pub data SockRead : Type 0 where
  sock_bytes : Bytes → SockRead
  sock_closed would_block sock_failed : SockRead

-- What the wait for an answer of a type comes to.
pub data Awaited : Type 0 where
  came : List Polled → Awaited
  failed : Errno → Awaited
  pending : Awaited

-- What the handshake comes to.
pub data Shaken : Type 0 where
  shaken still_waiting : Shaken
  refused : Errno → Shaken

-- `next_seq++`
abbrev pub next : DaemonClient → DaemonClient
next dc = record dc { next_seq = (dc.next_seq + 1) % 2 ^ 64 }

module _ {J D : Type 0} (j : DaemonJson J D) where
  abbrev pub json_str : J → Bytes → Option Bytes
  json_str obj key = elim (j.get_object_item obj key) [ none ↦ none | some f ↦ j.string_value f ]

  unfoldable pub json_u64 : J → Bytes → ℕ
  json_u64 obj key = elim (j.get_object_item obj key) [
    | none ↦ 0
    | some f ↦ elim (j.number_value f) [
      | none ↦ 0
      | some d ↦ if j.is_negative d then 0 else j.uint64_of_double d
    ]
  ]

  unfoldable pub json_bool : J → Bytes → Bool
  json_bool obj key = elim (j.get_object_item obj key) [ none ↦ false | some f ↦ j.is_true f ]

  -- The event of an envelope of a type.
  unfoldable pub envelope_event : J → Bytes → DaemonEnvelope
  unfolding json_u64 json_bool
  envelope_event env t =
      let seq = json_u64 env (codes "seq") in
      let start = record blank_envelope { seq = seq; ack_seq = json_u64 env (codes "ack_seq") } in
      if bytes_eq t (codes "hello_ok")
      then record start { kind = hello_ok }
      else if bytes_eq t (codes "register_ok")
      then record start {
        kind = register_ok;
        config_found = json_bool env (codes "config_found");
        polling = json_bool env (codes "polling");
      }
      else if bytes_eq t (codes "reload")
      then record start {
        kind = reload seq;
        name = json_str env (codes "name");
        reason = json_str env (codes "reason");
      }
      else if bytes_eq t (codes "shutdown")
      then record start { kind = shutdown; reason = json_str env (codes "reason") }
      else if bytes_eq t (codes "error")
      then record start {
        kind = error;
        code = json_str env (codes "code");
        detail = json_str env (codes "detail");
      }
      else start

  -- What a line is read as.
  unfoldable pub line_event : Bytes → ReadResult × DaemonEnvelope
  unfolding envelope_event
  line_event text = elim (j.parse_with_length text) [
    | none ↦ (no_more, blank_envelope)
    | some env ↦ elim (json_str env (codes "t")) [
      | none ↦ (no_more, blank_envelope)
      | some t ↦ let e = envelope_event env t in (event e.kind, e)
    ]
  ]

  -- A pop behind the read; the first pop reads only when there is no line.
  abbrev pub popped_event :
      DaemonClient → Popped × Reader → (ReadResult × DaemonEnvelope) × DaemonClient
  popped_event dc (line text, r) = (line_event text, record dc { reader = r })
  popped_event dc (too_long, r) = ((no_more, blank_envelope), record dc { reader = r })
  popped_event dc (empty, r) = ((no_more, blank_envelope), record dc { reader = r })

  -- Behind the first pop.
  abbrev pub first_pop :
      DaemonClient → SockRead → Popped × Reader → (ReadResult × DaemonEnvelope) × DaemonClient
  first_pop dc read (line text, r) = popped_event dc (line text, r)
  first_pop dc read (too_long, r) = popped_event dc (too_long, r)
  first_pop dc (sock_bytes bytes) (empty, r) = popped_event dc (reader_pop (reader_feed r bytes))
  first_pop dc sock_closed (empty, r) =
      ((event closed, record blank_envelope { kind = closed }), record dc { reader = r })
  first_pop dc would_block (empty, r) = ((no_more, blank_envelope), record dc { reader = r })
  first_pop dc sock_failed (empty, r) = ((read_error, blank_envelope), record dc { reader = r })

  unfoldable pub daemon_client_try_read :
      DaemonClient → SockRead → (ReadResult × DaemonEnvelope) × DaemonClient
  unfolding line_event
  daemon_client_try_read dc read = first_pop dc read (reader_pop dc.reader)

  -- The line that is written, if the writes succeed.
  unfoldable pub send_envelope : Bool → J → Option Bytes
  send_envelope written env = elim (j.print_unformatted env) [
    | none ↦ none
    | some text ↦ if written then some (text ++ b'\n' ∷ []) else none
  ]

  abbrev envelope : DaemonClient → Bytes → J
  envelope dc t =
      j.add_number_to_object
        (j.add_number_to_object (j.add_string_to_object j.create_object (codes "t") t) (codes "v")
          (j.double_of_uint64 1))
        (codes "seq") (j.double_of_uint64 dc.next_seq)

  abbrev add_some : J → Bytes → Option Bytes → J
  add_some env key none = env
  add_some env key (some text) = j.add_string_to_object env key text

  unfoldable pub hello : DaemonClient → Bytes → ℤ → J
  hello dc version pid =
      j.add_number_to_object
        (j.add_string_to_object (envelope dc (codes "hello")) (codes "wrapper_version") version)
        (codes "pid") (j.double_of_pid pid)

  -- The pid of the child is -1 with an HTTP backend.
  unfoldable pub register : DaemonClient → Bytes → ℤ → Option Bytes → J
  register dc name child_pid child_binary =
      add_some
        (j.add_number_to_object
          (j.add_string_to_object (envelope dc (codes "register")) (codes "name") name)
          (codes "child_pid") (j.double_of_pid child_pid))
        (codes "child_binary") child_binary

  unfoldable pub daemon_client_send_deregister :
      DaemonClient → Option Bytes → Bool → DaemonClient × Option Bytes
  unfolding send_envelope
  daemon_client_send_deregister dc reason written = (
    next dc,
    send_envelope written (add_some (envelope dc (codes "deregister")) (codes "reason") reason),
  )

  unfoldable pub daemon_client_send_reload_ack :
      DaemonClient → ℕ → Bytes → Option Bytes → Bool → DaemonClient × Option Bytes
  unfolding send_envelope
  daemon_client_send_reload_ack dc ack_seq status detail written =
      let acked =
        j.add_number_to_object (envelope dc (codes "reload_ack")) (codes "ack_seq")
          (j.double_of_uint64 ack_seq) in
      (
        next dc,
        send_envelope written (
            add_some (j.add_string_to_object acked (codes "status") status) (codes "detail")
              detail),
      )

  abbrev is_answer : Bytes → Bytes → Bool
  is_answer t text = elim (j.parse_with_length text) [
    | none ↦ false
    | some env ↦ elim (json_str env (codes "t")) [ none ↦ false | some t' ↦ bytes_eq t' t ]
  ]

  abbrev judged : Bytes → Answered → Awaited
  judged t (answer text more) = if is_answer t text then came more else failed eproto
  judged t (no_answer e) = failed e
  judged t waiting = pending

  -- The wait for an answer of a type.
  unfoldable pub await : Bytes → Reader → List Polled → Awaited × Reader
  unfolding read_line_blocking
  await t r polls = let (a, r') = read_line_blocking r polls in (judged t a, r')

  abbrev pub after_await :
      DaemonClient
      → Awaited × Reader
      → (DaemonClient → List Polled → DaemonClient × Shaken)
      → DaemonClient × Shaken
  after_await dc (came more, r) k = k (record dc { reader = r }) more
  after_await dc (failed e, r) k = (record dc { reader = r }, refused e)
  after_await dc (pending, r) k = (record dc { reader = r }, still_waiting)

  -- `sends` tells whether the writes of the two envelopes succeed. The switch of the socket to
  -- non-blocking reads, which is not fatal, is left out.
  unfoldable pub daemon_client_do_handshake :
      DaemonClient
      → Option Bytes
      → ℤ
      → Option Bytes
      → ℤ
      → Option Bytes
      → Bool × Bool
      → List Polled
      → DaemonClient × Shaken
  unfolding hello register send_envelope await
  daemon_client_do_handshake dc (some version) pid (some name) child_pid child_binary
        (hello_sent, register_sent) polls =
      let registered : DaemonClient → List Polled → DaemonClient × Shaken = λ dc' more.
        elim (send_envelope register_sent (register dc' name child_pid child_binary)) [
          | none ↦ (next dc', refused other_errno)
          | some _ ↦
              after_await (next dc') (await (codes "register_ok") dc'.reader more)
                (λ dc'' _. (dc'', shaken))
        ] in
      elim (send_envelope hello_sent (hello dc version pid)) [
        | none ↦ (next dc, refused other_errno)
        | some _ ↦ after_await (next dc) (await (codes "hello_ok") dc.reader polls) registered
      ]
  daemon_client_do_handshake dc _ pid _ child_pid child_binary sends polls = (dc, refused einval)
