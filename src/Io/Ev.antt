-- ===== src/Io/Ev.antt =====
-- src/io/io.c, src/io/io_libev.c: an operation on a libev watcher.
pub mod Transfer
pub mod Complete
pub mod Poll
use shuttlesock.Base.{
  ℕ, zero, suc, ◌+◌, ◌-◌, ◌*◌, ◌%◌, ◌^◌, Bool, true, false, Option, none, some, List, [], ◌∷◌, ◌==◌,
  ltb, leb, if◌then◌else◌, ◌||◌, ◌&&◌, not, add64, sub64, bind_crash,
}
use shuttlesock.Io.{
  Opcode, op_none, op_readv, op_writev, op_read, op_write, op_sendmsg, op_sendto, op_send,
  op_recvmsg, op_recvfrom, op_recv, op_accept, op_connect, op_close, op_shutdown, Watch, watch_none,
  watch_op_finish, watch_op_retry, poll_read, poll_write, poll_readwrite, Msg, Io, minus_one,
  Handlers, watch_update, run_handler, update_closed, op_cleanup,
}
use shuttlesock.Io.Iovec.{Left, iovec_check_completion}

-- What a system call answers: a result, or -1 with `errno`
pub data Answer : Type 0 where
  ok : ℕ → Answer
  err : ℕ → Answer

abbrev pub eintr : ℕ
eintr = 4

abbrev pub is_eintr : Answer → Bool
is_eintr (ok result) = false
is_eintr (err errno) = errno == eintr

-- EAGAIN and EWOULDBLOCK
abbrev pub eagain : ℕ
eagain = 11

abbrev pub einprogress : ℕ
einprogress = 115

abbrev put_iov : Option Left → Option (Bool × Io)
put_iov none = none
put_iov (some l) = some (l.done, record l.io { buf = l.iov; len = l.iovcnt })

abbrev put_msg : ℕ → Option Left → Option (Bool × Io)
put_msg msg none = none
put_msg msg (some l) = some (
  l.done,
  record l.io {
    msgs = λ a. if a == msg then record { msg_iov = l.iov; msg_iovlen = l.iovcnt } else l.io.msgs a;
  },
)

pub advance : Io → ℕ → Option (Bool × Io)
advance io result =
    if leb result io.len
    then some (io.len - result == 0, record io { buf = add64 io.buf result; len = io.len - result })
    else none

advance_iov : Option ℕ → Io → ℕ → Option (Bool × Io)
advance_iov malloc io result = put_iov (iovec_check_completion malloc io io.buf io.len result)

advance_msg : Option ℕ → Io → ℕ → Option (Bool × Io)
advance_msg malloc io result =
    let m = io.msgs io.buf in
    put_msg io.buf (iovec_check_completion malloc io m.msg_iov m.msg_iovlen result)

-- The `switch` of `shuso_io_op_update_and_check_completion`
pub check_op : Opcode → Option ℕ → Io → ℕ → Option (Bool × Io)
unfolding advance advance_iov advance_msg
check_op op_read malloc io result = advance io result
check_op op_write malloc io result = advance io result
check_op op_sendto malloc io result = advance io result
check_op op_recvfrom malloc io result = advance io result
check_op op_send malloc io result = advance io result
check_op op_recv malloc io result = advance io result
check_op op_readv malloc io result = advance_iov malloc io result
check_op op_writev malloc io result = advance_iov malloc io result
check_op op_recvmsg malloc io result = advance_msg malloc io result
check_op op_sendmsg malloc io result = advance_msg malloc io result
check_op _ malloc io result = some (true, io)

-- `shuso_io_op_update_and_check_completion`, with what `malloc` gives
pub update_and_check_completion : Option ℕ → Io → ℕ → Option (Bool × Io)
unfolding check_op
update_and_check_completion malloc io result = check_op io.opcode malloc io result

abbrev pub is_connect : Opcode → Bool
is_connect op_connect = true
is_connect _ = false

-- How an operation leaves: it waits for its watcher, or the handlers have run; or an assertion has
-- failed.
pub data Outcome : Type 0 where
  waiting : Io → Outcome
  resumed : Io → Outcome
  crashed : Outcome

pub finish : Handlers → Io → ℕ → Outcome
unfolding op_cleanup run_handler
finish h io result =
    let clean = op_cleanup io in
    resumed (run_handler h (record clean { result = add64 clean.result result }))

pub fail : Handlers → Io → ℕ → Outcome
unfolding op_cleanup run_handler
fail h io errno =
    resumed (run_handler h (op_cleanup (record io { result = minus_one; error = errno })))

pub wait_for : Watch → Io → Outcome
unfolding watch_update
wait_for watch io = waiting (watch_update (record io { watch_type = watch }))

abbrev after_check : Handlers → ℕ → Option (Bool × Io) → Outcome
after_check h result none = crashed
after_check h result (some (true, io)) = finish h io result
after_check h result (some (false, io)) =
    wait_for watch_op_retry (record io { result = add64 io.result result })

pub after_ok : Handlers → Option ℕ → Io → ℕ → Outcome
unfolding update_and_check_completion finish wait_for
after_ok h malloc io result =
    if result == 0 || not io.op_repeat_to_completion
    then finish h io result
    else after_check h result (update_and_check_completion malloc io result)

pub after_err : Handlers → Io → ℕ → Outcome
unfolding fail wait_for
after_err h io errno =
    if is_connect io.opcode && (errno == eagain || errno == einprogress)
    then wait_for watch_op_finish io
    else if errno == eagain
    then wait_for watch_op_retry io
    else fail h io errno

-- The end of `shuso_io_ev_operation`, behind the system call
pub after_call : Handlers → Option ℕ → Io → Answer → Outcome
unfolding after_ok after_err update_closed
after_call h malloc io (err errno) = after_err h (update_closed io io.opcode minus_one) errno
after_call h malloc io (ok result) = after_ok h malloc (update_closed io io.opcode result) result

-- `shuso_io_ev_connect` for an operation that waits for its end: `so_error` is the answer for
-- `SO_ERROR` (`ok 0`: no error).
pub finish_connect : Io → Answer → Answer × Io
unfolding watch_update
finish_connect io so_error =
    let stopped = watch_update (record io { watch_type = watch_none }) in
    (
      elim so_error [ ok errno ↦ if errno == 0 then ok 0 else err errno | err errno ↦ err errno ],
      stopped,
    )

-- `sizeof(shuso_sockaddr_t)`, the size of a `struct sockaddr_un`, rounded up
abbrev pub sockaddr_size : ℕ
sockaddr_size = 112

-- The assertions in front of a system call, with `io->len` and `io->sockaddr`; an accept has `len` in a
-- `socklen_t`. The host of a socket that connects is taken to have its address.
abbrev pub call_allowed : Opcode → (len sockaddr : ℕ) → Bool
call_allowed op_none len sockaddr = false
call_allowed op_write len sockaddr = not (len == 0)
call_allowed op_recvfrom len sockaddr = not (sockaddr == 0)
call_allowed op_sendto len sockaddr = not (sockaddr == 0)
call_allowed op_accept len sockaddr = len % 2 ^ 32 == sockaddr_size && not (sockaddr == 0)
call_allowed _ len sockaddr = true

-- `shuso_io_ev_operation`: a system call is made until one is not interrupted. The answers that
-- there will be are given; with none left it stays in its loop.
pub ev_operation : Handlers → Option ℕ → Io → List Answer → Option (Outcome × List Answer)
unfolding after_call
ev_operation h malloc io [] = none
ev_operation h malloc io (a ∷ later) =
    let rest = ev_operation h malloc io later in
    if call_allowed io.opcode io.len io.sockaddr
    then (if is_eintr a then rest else some (after_call h malloc io a, later))
    else some (crashed, a ∷ later)

-- what the watcher reports
pub record Events : Type 0 where
  pub ev_read : Bool
  pub ev_write : Bool

-- `ev_opcode_retry_match_event_type`; `none` is SIGABRT
pub retry_match : Opcode → Events → Option Bool
retry_match op_none ev = none
retry_match op_readv ev = some ev.ev_read
retry_match op_read ev = some ev.ev_read
retry_match op_recvfrom ev = some ev.ev_read
retry_match op_recvmsg ev = some ev.ev_read
retry_match op_recv ev = some ev.ev_read
retry_match op_writev ev = some ev.ev_write
retry_match op_write ev = some ev.ev_write
retry_match op_sendto ev = some ev.ev_write
retry_match op_sendmsg ev = some ev.ev_write
retry_match op_send ev = some ev.ev_write
retry_match op_accept ev = some true
retry_match op_connect ev = some true
retry_match op_close ev = some true
retry_match op_shutdown ev = some true

-- `ev_opcode_finish_match_event_type`
pub finish_match : Opcode → Events → Option Bool
finish_match op_connect ev = some ev.ev_write
finish_match _ ev = none

-- `ev_watch_poll_match_event_type`
pub poll_match : Watch → Events → Bool
poll_match poll_readwrite ev = ev.ev_read || ev.ev_write
poll_match poll_read ev = ev.ev_read
poll_match poll_write ev = not ev.ev_read && ev.ev_write
poll_match _ ev = false

abbrev when_match :
    Option Bool → Io → Option (Outcome × List Answer) → List Answer → Option (Outcome × List Answer)
when_match none io r later = some (crashed, later)
when_match (some true) io r later = r
when_match (some false) io r later = some (waiting io, later)

-- the operation of a connect that has been waiting, which asks for SO_ERROR instead
pub ev_finish_operation : Handlers → Option ℕ → Io → List Answer → Option (Outcome × List Answer)
unfolding finish_connect after_call ev_operation
ev_finish_operation h malloc io [] = none
ev_finish_operation h malloc io (a ∷ later) =
    let (answer, io') = finish_connect io a in
    if is_eintr answer
    then ev_operation h malloc io' later
    else some (after_call h malloc io' answer, later)

-- The `switch` of `shuso_io_ev_watcher_handler`
on_watch : Watch → Handlers → Option ℕ → Io → Events → List Answer → Option (Outcome × List Answer)
unfolding ev_operation ev_finish_operation retry_match finish_match poll_match run_handler
on_watch watch_none h malloc io ev later = some (crashed, later)
on_watch watch_op_finish h malloc io ev later =
    when_match (finish_match io.opcode ev) io (ev_finish_operation h malloc io later) later
on_watch watch_op_retry h malloc io ev later =
    when_match (retry_match io.opcode ev) io
      (ev_operation h malloc (record io { watch_type = watch_none }) later) later
on_watch _ h malloc io ev later =
    if poll_match io.watch_type ev
    then some (resumed (run_handler h (record io { watch_type = watch_none })), later)
    else some (waiting io, later)

-- `shuso_io_ev_watcher_handler`
pub watcher_handler :
    Handlers → Option ℕ → Io → Events → List Answer → Option (Outcome × List Answer)
unfolding on_watch
watcher_handler h malloc io ev later = on_watch io.watch_type h malloc io ev later
