-- ===== src/Transport.antt =====
-- wrapper/src/transport.h: what a transport's operations report. A return of -1 is the `errno` that it
-- sets.
pub data Errno : Type 0 where
  estale etimedout eproto econnaborted econnrefused emsgsize einval ebadf ealready : Errno
  ehostunreach enetunreach enetdown eagain eio other_errno : Errno

-- `transport_send`
pub data SendOutcome : Type 0 where
  sent : SendOutcome
  send_failed : Errno → SendOutcome
