-- ===== src/Stdio.antt =====
-- wrapper/src/transport_stdio.c: the transport to a child process over pipes. The system calls are
-- arguments: what `pipe` and `fork`, the reads, the writes and `waitpid` come to. EINTR is left out,
-- and so is what the child does between fork and exec.
pub mod Pump
mod Tests
use mcpbridge.Base.{
  ℕ, zero, suc, ◌+◌, ◌-◌, Bytes, Bool, true, false, ◌||◌, Option, none, some, List, [], ◌∷◌, ◌++◌,
  if◌then◌else◌, take, drop, length,
}
use mcpbridge.Transport.{Errno, einval, eproto, ebadf, ealready, SendOutcome, sent, send_failed}
use mcpbridge.Mcp.Reader.{
  Reader, Popped, line, empty, too_long, live, reader_init, reader_feed, reader_pop,
}

-- `pid` and the descriptors are `none` for -1; `reader` is `none` unless `reader_live`.
pub record StdioSelf : Type 0 where
  pub cmd : Bytes
  pub argv : List Bytes
  pub pid : Option ℕ
  pub stdin_fd : Option ℕ
  pub stdout_fd : Option ℕ
  pub reader : Option Reader

-- NULL is `none`.
unfoldable pub transport_stdio_new : Option Bytes → Option (List Bytes) → Option StdioSelf
transport_stdio_new (some cmd) (some argv) = some (record {
  cmd = cmd;
  argv = argv;
  pid = none;
  stdin_fd = none;
  stdout_fd = none;
  reader = none;
})
transport_stdio_new _ _ = none

-- The two pipes and the fork: an error, or the parent's ends and the child.
pub data Spawned : Type 0 where
  spawned : ℕ → ℕ → ℕ → Spawned
  spawn_failed : Errno → Spawned

unfoldable pub reader_reset : StdioSelf → StdioSelf
reader_reset s = record s { reader = some (reader_init 0) }

unfoldable pub stdio_start : StdioSelf → Spawned → StdioSelf × Option Errno
unfolding reader_reset
stdio_start s outcome = elim s.pid [
  | some _ ↦ (s, some ealready)
  | none ↦ elim outcome [
    | spawn_failed e ↦ (s, some e)
    | spawned to_child from_child pid ↦ (
      reader_reset
          (record s { stdin_fd = some to_child; stdout_fd = some from_child; pid = some pid }),
      none,
    )
  ]
]

-- What a `waitpid` with WNOHANG comes to.
pub data Waited : Type 0 where
  reaped still_running no_child wait_failed : Waited

-- The loop of `waitpid_with_deadline` for so many steps of 10 ms, and the outcomes to come. A list at
-- its end stands for a child that goes on.
unfoldable pub wait_steps : ℕ → List Waited → Waited × List Waited
wait_steps zero ws = (still_running, ws)
wait_steps (suc f) [] = (still_running, [])
wait_steps (suc f) (reaped ∷ ws) = (reaped, ws)
wait_steps (suc f) (no_child ∷ ws) = (no_child, ws)
wait_steps (suc f) (wait_failed ∷ ws) = (wait_failed, ws)
wait_steps (suc f) (still_running ∷ ws) = wait_steps f ws

pub data Signal : Type 0 where
  sigterm sigkill : Signal

abbrev is_gone : Waited → Bool
is_gone reaped = true
is_gone no_child = true
is_gone _ = false

-- The signals that a child gets: 200 ms for an exit at the end of its input, and 500 ms after SIGTERM.
unfoldable pub stop_signals : List Waited → List Signal
unfolding wait_steps
stop_signals ws =
    let (first, ws') = wait_steps 20 ws in
    let (second, ws'') = wait_steps 50 ws' in
    if is_gone first then [] else if is_gone second then sigterm ∷ [] else sigterm ∷ sigkill ∷ []

unfoldable pub stdio_stop : StdioSelf → List Waited → StdioSelf × List Signal
unfolding stop_signals
stdio_stop s ws = (
  record s { stdin_fd = none; pid = none; stdout_fd = none },
  elim s.pid [ none ↦ [] | some _ ↦ stop_signals ws ],
)

-- What a read of the child's output comes to.
pub data ChildRead : Type 0 where
  child_bytes : Bytes → ChildRead
  child_closed would_block : ChildRead
  read_failed : Errno → ChildRead

-- The return of 1, of 0, and of -1.
pub data Pumped : Type 0 where
  at_eof progress : Pumped
  pump_failed : Errno → Pumped

-- A reader that is there.
abbrev pub reader_of : StdioSelf → Reader
reader_of s = elim s.reader [ none ↦ reader_init 0 | some r ↦ r ]

module _ {C : Type 0} (on_msg : C → Bytes → C) where
  -- The pops. A line takes a byte at least, so a unit of fuel more than the live bytes is enough.
  unfoldable pub pop_loop : ℕ → Reader → C → (Reader × C) × Pumped
  pop_loop zero r c = ((r, c), progress)
  pop_loop (suc f) r c = elim (reader_pop r).0 [
    | empty ↦ (((reader_pop r).1, c), progress)
    | too_long ↦ (((reader_pop r).1, c), pump_failed eproto)
    | line l ↦ pop_loop f (reader_pop r).1 (on_msg c l)
  ]

  abbrev pub after_pops : StdioSelf → (Reader × C) × Pumped → (StdioSelf × C) × Pumped
  after_pops s ((r, c), p) = ((record s { reader = some r }, c), p)

  unfoldable pub stdio_pump : StdioSelf → ChildRead → C → (StdioSelf × C) × Pumped
  unfolding pop_loop
  stdio_pump s read c =
      let s' = record s { reader = some (reader_of s) } in
      elim s.stdout_fd [
        | none ↦ ((s, c), pump_failed ebadf)
        | some _ ↦ elim read [
          | child_closed ↦ ((s', c), at_eof)
          | would_block ↦ ((s', c), progress)
          | read_failed e ↦ ((s', c), pump_failed e)
          | child_bytes bytes ↦
              let fed = reader_feed (reader_of s) bytes in
              after_pops s (pop_loop (live fed + 2) fed c)
        ]
      ]

-- The writes: how many bytes each takes, more than none and at most those left, or an error.
pub data Wrote : Type 0 where
  wrote : ℕ → Wrote
  write_failed : Errno → Wrote

-- What was written, and how it ends; `none` while writes are to come.
unfoldable pub write_loop : Bytes → List Wrote → Bytes × Option SendOutcome
write_loop [] ws = ([], some sent)
write_loop (b ∷ bs) [] = ([], none)
write_loop (b ∷ bs) (write_failed e ∷ ws) = ([], some (send_failed e))
write_loop (b ∷ bs) (wrote n ∷ ws) =
    let (out, end) = write_loop (drop n (b ∷ bs)) ws in (take n (b ∷ bs) ++ out, end)

unfoldable pub stdio_send : StdioSelf → Bytes → List Wrote → Bytes × Option SendOutcome
unfolding write_loop
stdio_send s bytes ws = elim s.stdin_fd [
  | none ↦ ([], some (send_failed ebadf))
  | some _ ↦ write_loop bytes ws
]

-- The return of 1 with the flag, and of 0 or -1 without it.
unfoldable pub transport_stdio_reap : StdioSelf → Waited → StdioSelf × Bool
transport_stdio_reap s w = elim s.pid [
  | none ↦ (s, false)
  | some _ ↦ if is_gone w then (record s { pid = none }, true) else (s, false)
]
