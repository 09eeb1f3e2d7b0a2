-- ===== src/Http/State.antt =====
-- The transport's own state in wrapper/src/transport_http.c, and its queue. The queue is the messages of
-- its nodes from `head` to `tail`. `wake` is the self-pipe: `none` while its descriptors are -1, else
-- the number of bytes in it. A write to it is taken to succeed.
use mcpbridge.Base.{
  zero, ◌≡◌, refl, ap, sym, ◌∙◌, inl, inr, Option-cases, append_assoc, append-nil, arith,
  if◌then◌else◌, length, ℕ, suc, Bytes, Bool, true, false, Option, none, some, List, [], ◌∷◌, ◌++◌,
}
use mcpbridge.Base.Int.{ℤ, pos, negsuc}
use mcpbridge.Transport.{Errno, ealready}
use mcpbridge.Http.Sse.Handling.{deliver}
use mcpbridge.Http.Url.{HttpUrl, http_url_parse}

pub record HttpSelf : Type 0 where
  pub url : HttpUrl
  pub session_id : Bytes
  pub started : Bool
  pub call_timeout_ms : ℕ
  pub wake : Option ℕ
  pub queue : List Bytes

unfoldable pub msg_queue_push : List Bytes → Bytes → List Bytes
msg_queue_push q bytes = q ++ bytes ∷ []

-- The first message and the queue without it; `none` is NULL.
unfoldable pub msg_queue_pop : List Bytes → Option (Bytes × List Bytes)
msg_queue_pop [] = none
msg_queue_pop (m ∷ q) = some (m, q)

unfoldable pub http_enqueue : HttpSelf → Bytes → HttpSelf
unfolding msg_queue_push
http_enqueue h [] = h
http_enqueue h (b ∷ bs) = record h {
  queue = msg_queue_push h.queue (b ∷ bs);
  wake = elim h.wake [ none ↦ none | some n ↦ some (suc n) ];
}

unfoldable pub drain_wake : HttpSelf → HttpSelf
drain_wake h = record h { wake = elim h.wake [ none ↦ none | some _ ↦ some 0 ] }

-- The callback may post again, and so add to the queue that is being emptied.
module _ {C : Type 0} (on_msg : HttpSelf → C → Bytes → HttpSelf × C) where
  -- The loop of `http_pump`; `none` is the end of the fuel.
  unfoldable pub pump_loop : ℕ → HttpSelf → C → Option (HttpSelf × C)
  unfolding msg_queue_pop
  pump_loop zero h c = none
  pump_loop (suc f) h c = elim (msg_queue_pop h.queue) [
    | none ↦ some (h, c)
    | some (m, q) ↦ let (h', c') = on_msg (record h { queue = q }) c m in pump_loop f h' c'
  ]

  unfoldable pub http_pump : ℕ → HttpSelf → C → Option (HttpSelf × C)
  unfolding drain_wake pump_loop
  http_pump f h c = pump_loop f (drain_wake h) c

-- `pipe` gives an error or opens the self-pipe.
unfoldable pub http_start : Option Errno → HttpSelf → HttpSelf × Option Errno
http_start piped h = if h.started then (h, some ealready) else elim piped [
  | some e ↦ (h, some e)
  | none ↦ (record h { wake = some 0; started = true; session_id = [] }, none)
]

unfoldable pub http_stop : HttpSelf → HttpSelf
http_stop h = record h { wake = none; queue = []; started = false; session_id = [] }

-- `none` is NULL with EINVAL.
unfoldable pub transport_http_new : Option Bytes → Option HttpSelf
unfolding http_url_parse
transport_http_new url = elim (http_url_parse url) [
  | none ↦ none
  | some parsed ↦ some (record {
    url = parsed;
    session_id = [];
    started = false;
    call_timeout_ms = 0;
    wake = none;
    queue = [];
  })
]

-- A transport: this one, or one with other operations.
pub data Transport : Type 0 where
  http : HttpSelf → Transport
  other_transport : Transport

unfoldable pub transport_http_set_call_timeout : Option Transport → ℤ → Option Transport
transport_http_set_call_timeout (some (http h)) (pos n) =
    some (http (record h { call_timeout_ms = n }))
transport_http_set_call_timeout (some (http h)) (negsuc _) =
    some (http (record h { call_timeout_ms = 0 }))
transport_http_set_call_timeout t _ = t

pump_loop_whole :
    {C : Type 0} (f : C → Bytes → C) (h : HttpSelf) (c : C) (q : List Bytes)
    → pump_loop (λ h' c' m. (h', f c' m)) (suc (length q)) (record h { queue = q }) c
      ≡ some (record h { queue = [] }, deliver f c q)
unfolding pump_loop msg_queue_pop
pump_loop_whole f h c [] = refl
pump_loop_whole f h c (m ∷ q) = pump_loop_whole f h (f c m) q

-- The messages enqueued one after another.
unfoldable pub enqueue_all : HttpSelf → List Bytes → HttpSelf
enqueue_all h [] = h
enqueue_all h (m ∷ ms) = enqueue_all (http_enqueue h m) ms

-- The messages of a list that are not empty.
unfoldable pub not_empty : List Bytes → List Bytes
not_empty [] = []
not_empty ([] ∷ ms) = not_empty ms
not_empty ((b ∷ bs) ∷ ms) = (b ∷ bs) ∷ not_empty ms

-- The self-pipe without the bytes in it; a closed one stays closed.
abbrev pub emptied : Option ℕ → Option ℕ
emptied none = none
emptied (some _) = some 0

-- A byte more in the self-pipe does not matter then.
one_more : (w : Option ℕ) → emptied (elim w [ none ↦ none | some n ↦ some (suc n) ]) ≡ emptied w
one_more none = refl
one_more (some n) = refl

drained : (h : HttpSelf) → drain_wake h ≡ record h { wake = emptied h.wake }
unfolding drain_wake
drained h = elim (Option-cases h.wake) [
  | inl closed ↦ ground (arith, closed)
  | inr (n, e) ↦ ground (arith, e)
]

drained_behind :
    (h : HttpSelf) (ms : List Bytes)
    → drain_wake (enqueue_all h ms)
      ≡ record h { queue = h.queue ++ not_empty ms; wake = emptied h.wake }
unfolding enqueue_all not_empty http_enqueue msg_queue_push
drained_behind h [] =
    drained h ∙ ap (λ q. record h { queue = q; wake = emptied h.wake }) (sym (append-nil h.queue))
drained_behind h ([] ∷ ms) = drained_behind h ms
drained_behind h ((b ∷ bs) ∷ ms) =
    drained_behind (http_enqueue h (b ∷ bs)) ms
    ∙ ap (λ w. record h { queue = (h.queue ++ (b ∷ bs) ∷ []) ++ not_empty ms; wake = w })
        (one_more h.wake)
    ∙ ap (λ q. record h { queue = q; wake = emptied h.wake })
        (append_assoc h.queue ((b ∷ bs) ∷ []) (not_empty ms))

-- What is enqueued is handed on: after any messages have been enqueued, a pump gives the callback what
-- had waited before and then each of these messages that is not empty, once each and in this order;
-- the queue is empty then, and the self-pipe, if it is open, has no byte in it. This is for a callback
-- that leaves the transport alone; as many rounds as there are messages, and one more, are enough.
pub http_pump-in_order :
    {C : Type 0} (f : C → Bytes → C) (h : HttpSelf) (c : C) (ms : List Bytes)
    → http_pump
        (λ h' c' m. (h', f c' m))
        (suc (length (h.queue ++ not_empty ms)))
        (enqueue_all h ms)
        c
      ≡ some (record h { queue = []; wake = emptied h.wake }, deliver f c (h.queue ++ not_empty ms))
unfolding http_pump
http_pump-in_order f h c ms =
    let q = h.queue ++ not_empty ms in
    ap (λ h'. pump_loop (λ h' c' m. (h', f c' m)) (suc (length q)) h' c) (drained_behind h ms)
    ∙ pump_loop_whole f (record h { wake = emptied h.wake }) c q
