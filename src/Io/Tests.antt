-- ===== src/Io/Tests.antt =====
-- src/io/io.c, src/io/io_libev.c: the theorems on I/O at concrete operations.
use shuttlesock.Base.{◌+◌, ◌≡◌, refl, inl, inr, true, false, none, some, [], ◌∷◌, arith}
use shuttlesock.Io.{Io, op_none, watch_none, poll_read, Handlers}
use shuttlesock.Io.Iovec.{Left, iovec_check_completion}
use shuttlesock.Io.Iovec.Account.{bytes, check_completion-boundary, check_completion-overrun}
use shuttlesock.Io.Iovec.Cut.{Apart, CutAt, check_completion-CutAt}
use shuttlesock.Io.Ev.{ok, err, Events}
use shuttlesock.Io.Ev.Transfer.{Serves}
use shuttlesock.Io.Ops.{World}
use shuttlesock.Io.Ops.Whole.{drive, Completes, a_sendto, start, start-Completes}

-- an idle operation, with buffers of 10 bytes at 4096, 4112 and 4128
abbrev idle : Io
idle = record {
  fd = 3;
  buf = 0;
  sockaddr = 0;
  len = 0;
  flags = 0;
  result = 0;
  error = 0;
  handler_stage = 0;
  closed_read = false;
  closed_write = false;
  active = false;
  opcode = op_none;
  watch_type = watch_none;
  op_again = false;
  op_repeat_to_completion = false;
  op_registered_memory_buffer = false;
  iovs = λ a. record { iov_base = 65536 + a; iov_len = 10 };
  msgs = λ a. record { msg_iov = 0; msg_iovlen = 0 };
}

-- an operation that waits for its descriptor to become readable
abbrev waiting_io : Io
waiting_io = record idle { watch_type = poll_read; active = true }

abbrev no_handlers : Handlers
no_handlers = record { handler = λ io. io; error_handler = none }

abbrev world : World
world = record {
  handlers = no_handlers;
  malloc = none;
  answers = err 4 ∷ ok 3 ∷ err 11 ∷ err 4 ∷ ok 7 ∷ [];
}

world-Serves : Serves 10 world.answers
world-Serves =
    (inl refl, (omega arith, inr (omega arith, (inr refl, (inl refl, (omega arith, inl refl))))))

start-Completes_example :
    Completes no_handlers 4096 10
      (drive 5 no_handlers none (start (a_sendto 8192 0) world idle 4096 10))
start-Completes_example =
    start-Completes 5 (a_sendto 8192 0) world idle 4096 10 refl (omega arith) (omega arith)
      world-Serves (omega arith)

ends_at_boundary :
    iovec_check_completion none idle 4096 3 (bytes idle.iovs 4096 0 1)
    ≡ some (record { done = true; io = idle; iov = 4096; iovcnt = 3 })
ends_at_boundary = check_completion-boundary none idle 4096 3 1 (omega arith)

check_completion-overrun_example :
    iovec_check_completion (some 8192) idle 4096 3 (bytes idle.iovs 4096 0 1 + 4) ≡ none
check_completion-overrun_example =
    check_completion-overrun 8192 idle 4096 3 1 4 refl (omega arith) (omega arith) (omega arith)
      (omega arith)

apart : Apart 8192 4096 3
apart = record { below = omega arith; apart = λ i j hi hj e. omega (arith, hi, hj, e) }

check_completion-CutAt_example :
    (l : Left) × (iovec_check_completion (some 8192) idle 4096 3 4 ≡ some l)
    × CutAt idle 8192 4096 3 4 l
check_completion-CutAt_example =
    check_completion-CutAt 8192 idle 4096 3 4 apart (omega arith) refl (omega arith) (omega arith)

abbrev readable : Events
readable = record { ev_read = true; ev_write = false }
