-- ===== src/Io.antt =====
-- src/io/io.c, src/include/shuttlesock/io.h: what an I/O operation keeps, in the build without
-- io_uring. Pointers and words of a union are numbers, `NULL` being 0; an `ssize_t` is its bit
-- pattern.
pub mod Iovec
pub mod Ev
pub mod Ops
mod Tests
use shuttlesock.Base.{
  ℕ, ◌+◌, ◌-◌, ◌*◌, ◌/◌, ◌%◌, ◌^◌, Bool, true, false, Option, none, some, ◌==◌, if◌then◌else◌, ◌&&◌,
  not,
}

-- `shuso_io_opcode_t`
pub data Opcode : Type 0 where
  op_none : Opcode
  op_readv : Opcode
  op_writev : Opcode
  op_read : Opcode
  op_write : Opcode
  op_sendmsg : Opcode
  op_sendto : Opcode
  op_send : Opcode
  op_recvmsg : Opcode
  op_recvfrom : Opcode
  op_recv : Opcode
  op_accept : Opcode
  op_connect : Opcode
  op_close : Opcode
  op_shutdown : Opcode

-- `shuso_io_watch_type_t`
pub data Watch : Type 0 where
  watch_none : Watch
  watch_op_finish : Watch
  watch_op_retry : Watch
  poll_read : Watch
  poll_write : Watch
  poll_readwrite : Watch

-- `struct iovec`
pub record Iov : Type 0 where
  pub iov_base : ℕ
  pub iov_len : ℕ

-- `struct msghdr`, as far as it is used here
pub record Msg : Type 0 where
  pub msg_iov : ℕ
  pub msg_iovlen : ℕ

-- `shuso_io_t`: `buf` is the union of the data pointers, `sockaddr` that with
-- `incomplete_original_iovec`, `len` that of `iovcnt`, `len` and `intdata`, and `flags` that with
-- `incomplete_temporary_iovec`. `active` is the state of the watcher. The memory
-- that the operations read and write is a part of the state: arrays of `struct iovec`, an element
-- every 16 bytes, and the `struct msghdr`s.
pub record Io : Type 0 where
  pub fd : ℕ
  pub buf : ℕ
  pub sockaddr : ℕ
  pub len : ℕ
  pub flags : ℕ
  pub result : ℕ
  pub error : ℕ
  pub handler_stage : ℕ
  pub closed_read : Bool
  pub closed_write : Bool
  pub active : Bool
  pub opcode : Opcode
  pub watch_type : Watch
  pub op_again : Bool
  pub op_repeat_to_completion : Bool
  pub op_registered_memory_buffer : Bool
  pub iovs : ℕ → Iov
  pub msgs : ℕ → Msg

-- -1 as a `ssize_t`
abbrev pub minus_one : ℕ
minus_one = 2 ^ 64 - 1

abbrev pub ecanceled : ℕ
ecanceled = 125

-- the handlers of the user, a `NULL` error handler being `none`
pub record Handlers : Type 0 where
  pub handler : Io → Io
  pub error_handler : Option (Io → Io)

abbrev pub is_watch_none : Watch → Bool
is_watch_none watch_none = true
is_watch_none _ = false

-- `shuso_io_watch_update`, that is `shuso_io_ev_watch_update`: the watcher is active when there is
-- something to watch for.
unfoldable pub watch_update : Io → Io
watch_update io =
    if is_watch_none io.watch_type && io.active
    then record io { active = false }
    else if not (is_watch_none io.watch_type) && not io.active
    then record io { active = true }
    else io

-- `shuso_io_run_handler`
pub run_handler : Handlers → Io → Io
unfolding watch_update
run_handler h io = elim h.error_handler [
  | none ↦ watch_update (h.handler io)
  | some f ↦
      if io.result == minus_one
      then f (record io { handler_stage = 0 })
      else watch_update (h.handler io)
]

-- `shuso_io_resume_buf`
pub resume_buf : Handlers → Io → (buf len : ℕ) → Io
unfolding run_handler
resume_buf h io buf len = run_handler h (record io { buf = buf; len = len })

-- `shuso_io_resume_msg`: the flags are the low half of their union.
abbrev pub set_flags : ℕ → ℕ → ℕ
set_flags word flags = word / 2 ^ 32 * 2 ^ 32 + flags % 2 ^ 32

pub resume_msg : Handlers → Io → (msg flags : ℕ) → Io
unfolding run_handler
resume_msg h io msg flags =
    run_handler h (record io { buf = msg; flags = set_flags io.flags flags })

-- `shuso_io_update_fd_closed_status_from_op_result`
unfoldable pub update_closed : Io → Opcode → ℕ → Io
update_closed io op_read result = record io { closed_read = result % 2 ^ 32 == 0 }
update_closed io op_readv result = record io { closed_read = result % 2 ^ 32 == 0 }
update_closed io op_recvfrom result = record io { closed_read = result % 2 ^ 32 == 0 }
update_closed io op_recv result = record io { closed_read = result % 2 ^ 32 == 0 }
update_closed io op_recvmsg result = record io { closed_read = result % 2 ^ 32 == 0 }
update_closed io op_write result = record io { closed_write = result % 2 ^ 32 == 0 }
update_closed io op_writev result = record io { closed_write = result % 2 ^ 32 == 0 }
update_closed io op_sendmsg result = record io { closed_write = result % 2 ^ 32 == 0 }
update_closed io op_sendto result = record io { closed_write = result % 2 ^ 32 == 0 }
update_closed io op_send result = record io { closed_write = result % 2 ^ 32 == 0 }
update_closed io _ result = io

-- The `switch` of `shuso_io_op_cleanup`: the temporary array is given back.
unfoldable pub cleanup_op : Opcode → Io → Io
cleanup_op op_readv io = record io { flags = 0 }
cleanup_op op_writev io = record io { flags = 0 }
cleanup_op op_sendmsg io = record io { flags = 0 }
cleanup_op op_recvmsg io = record io { flags = 0 }
cleanup_op _ io = io

-- `shuso_io_op_cleanup`
unfoldable pub op_cleanup : Io → Io
unfolding cleanup_op
op_cleanup io = cleanup_op io.opcode io
