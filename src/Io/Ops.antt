-- ===== src/Io/Ops.antt =====
-- src/io/io.c: the start and the end of an operation, and the functions that start one.
pub mod Whole
pub mod Stop
pub mod Wait
use shuttlesock.Base.{
  ℕ, ◌+◌, ◌*◌, ◌/◌, ◌%◌, ◌^◌, Bool, true, false, Option, none, some, List, not, ◌==◌, if◌then◌else◌,
}
use shuttlesock.Io.{
  Opcode, op_none, op_readv, op_writev, op_read, op_write, op_sendmsg, op_sendto, op_send,
  op_recvmsg, op_recvfrom, op_recv, op_accept, op_connect, op_close, op_shutdown, Watch, watch_none,
  poll_read, poll_write, poll_readwrite, Io, Handlers, minus_one, ecanceled, set_flags,
  watch_update, run_handler, op_cleanup, is_watch_none,
}
use shuttlesock.Io.Ev.{Answer, Outcome, ev_operation, sockaddr_size}

-- What an operation is answered: by `malloc`, if it is called, and by the system calls
pub record World : Type 0 where
  pub handlers : Handlers
  pub malloc : Option ℕ
  pub answers : List Answer

abbrev pub Result : Type 0
Result = Option (Outcome × List Answer)

-- The `switch` of `io_op_run_new`
pub load : Opcode → Io → (ptr len : ℕ) → Io
load op_readv io ptr len = record io { buf = ptr; len = len; sockaddr = 0; flags = 0 }
load op_writev io ptr len = record io { buf = ptr; len = len; sockaddr = 0; flags = 0 }
load op_sendmsg io ptr len = record io { buf = ptr; len = len; sockaddr = 0; flags = 0 }
load op_recvmsg io ptr len = record io { buf = ptr; len = len; sockaddr = 0; flags = 0 }
load op_accept io ptr len = record io { sockaddr = ptr; len = len }
load _ io ptr len = record io { buf = ptr; len = len }

-- `io_op_run_new`, in front of the operation itself
pub prepared : Io → Opcode → (ptr len : ℕ) → (partial registered : Bool) → Io
unfolding load
prepared io op ptr len partial registered =
    let fresh = record io { result = 0; error = 0; op_again = false; opcode = op } in
    record (load op fresh ptr len) {
      op_repeat_to_completion = not partial;
      op_registered_memory_buffer = registered;
    }

-- `io_op_run_new`
pub op_run_new : World → Io → Opcode → (ptr len : ℕ) → (partial registered : Bool) → Result
unfolding prepared
op_run_new w io op ptr len partial registered =
    ev_operation w.handlers w.malloc (prepared io op ptr len partial registered) w.answers

pub connect : World → Io → Result
unfolding op_run_new
connect w io = op_run_new w io op_connect 0 0 false false

-- `how` as `shuso_io_shutdown` computes it, for SHUSO_IO_READ, SHUSO_IO_WRITE, or both
abbrev pub shutdown_how : ℕ → ℕ
shutdown_how rw = if rw == 3 then 2 else if rw == 1 then 0 else if rw == 2 then 1 else 0

pub shutdown : World → Io → (rw : ℕ) → Result
unfolding op_run_new
shutdown w io rw = op_run_new w io op_close 0 (shutdown_how rw) false false

pub close : World → Io → Result
unfolding op_run_new
close w io = op_run_new w io op_close 0 0 false false

pub accept : World → Io → (sockaddr len : ℕ) → Option Result
unfolding op_run_new
accept w io sockaddr len =
    if len == sockaddr_size then some (op_run_new w io op_accept sockaddr len false false) else none

pub writev_partial : World → Io → (iov iovcnt : ℕ) → Result
unfolding op_run_new
writev_partial w io iov iovcnt = op_run_new w io op_writev iov iovcnt true false

pub writev : World → Io → (iov iovcnt : ℕ) → Result
unfolding op_run_new
writev w io iov iovcnt = op_run_new w io op_writev iov iovcnt false false

pub readv_partial : World → Io → (iov iovcnt : ℕ) → Result
unfolding op_run_new
readv_partial w io iov iovcnt = op_run_new w io op_readv iov iovcnt true false

pub readv : World → Io → (iov iovcnt : ℕ) → Result
unfolding op_run_new
readv w io iov iovcnt = op_run_new w io op_readv iov iovcnt false false

abbrev pub addressed : Io → (sockaddr flags : ℕ) → Io
addressed io sockaddr flags = record io { flags = set_flags io.flags flags; sockaddr = sockaddr }

pub sendto_partial : World → Io → (buf len to flags : ℕ) → Result
unfolding op_run_new
sendto_partial w io buf len to flags =
    op_run_new w (addressed io to flags) op_sendto buf len true false

pub sendto : World → Io → (buf len to flags : ℕ) → Result
unfolding op_run_new
sendto w io buf len to flags = op_run_new w (addressed io to flags) op_sendto buf len false false

pub recvfrom_partial : World → Io → (buf len sender flags : ℕ) → Result
unfolding op_run_new
recvfrom_partial w io buf len sender flags =
    op_run_new w (addressed io sender flags) op_recvfrom buf len true false

pub recvfrom : World → Io → (buf len sender flags : ℕ) → Result
unfolding op_run_new
recvfrom w io buf len sender flags =
    op_run_new w (addressed io sender flags) op_recvfrom buf len false false

abbrev pub flagged : Io → ℕ → Io
flagged io flags = record io { flags = set_flags io.flags flags }

pub send_partial : World → Io → (buf len flags : ℕ) → Result
unfolding op_run_new
send_partial w io buf len flags = op_run_new w (flagged io flags) op_send buf len true false

pub send : World → Io → (buf len flags : ℕ) → Result
unfolding op_run_new
send w io buf len flags = op_run_new w (flagged io flags) op_send buf len false false

pub recv_partial : World → Io → (buf len flags : ℕ) → Result
unfolding op_run_new
recv_partial w io buf len flags = op_run_new w (flagged io flags) op_recv buf len true false

pub recv : World → Io → (buf len flags : ℕ) → Result
unfolding op_run_new
recv w io buf len flags = op_run_new w (flagged io flags) op_recv buf len false false

pub write_partial : World → Io → (buf len : ℕ) → Result
unfolding op_run_new
write_partial w io buf len = op_run_new w io op_write buf len true false

pub write : World → Io → (buf len : ℕ) → Result
unfolding op_run_new
write w io buf len = op_run_new w io op_write buf len false false

pub read_partial : World → Io → (buf len : ℕ) → Result
unfolding op_run_new
read_partial w io buf len = op_run_new w io op_read buf len true false

pub read : World → Io → (buf len : ℕ) → Result
unfolding op_run_new
read w io buf len = op_run_new w io op_read buf len false false

pub sendmsg : World → Io → (msg flags : ℕ) → Result
unfolding op_run_new
sendmsg w io msg flags = op_run_new w (flagged io flags) op_sendmsg msg 0 false false

pub recvmsg : World → Io → (msg flags : ℕ) → Result
unfolding op_run_new
recvmsg w io msg flags = op_run_new w (flagged io flags) op_recvmsg msg 0 false false

-- `shuso_io_abort`
pub abort : Io → Io
unfolding op_cleanup watch_update
abort io =
    watch_update
      (record (op_cleanup io) { watch_type = watch_none; error = ecanceled; result = minus_one })

-- `shuso_io_stop`
pub stop : Handlers → Io → Io
unfolding abort
stop h io =
    if is_watch_none io.watch_type
    then abort io
    else abort
        (h.handler (record io { watch_type = watch_none; result = minus_one; error = ecanceled }))

-- `shuso_io_suspend`
pub suspend : Io → Io
unfolding watch_update
suspend io = watch_update (record io { opcode = op_none; watch_type = watch_none })

-- what `shuso_io_wait` watches for
abbrev pub wait_type : ℕ → Watch → Watch
wait_type evflags old =
    if evflags == 3
    then poll_readwrite
    else if evflags == 1
    then poll_read
    else if evflags == 2
    then poll_write
    else old

-- `shuso_io_wait`
pub wait : Io → ℕ → Io
unfolding watch_update
wait io evflags =
    watch_update (record io { watch_type = wait_type evflags io.watch_type; error = 0; result = 0 })
