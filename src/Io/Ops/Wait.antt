-- ===== src/Io/Ops/Wait.antt =====
-- A wait for a descriptor, and its ends: by an event, a suspend or a stop.
use shuttlesock.Base.{ℕ, ◌≡◌, true, false, Option, some, List, if◌then◌else◌}
use shuttlesock.Io.{op_none, watch_none, Io, Handlers, minus_one, ecanceled, run_handler}
use shuttlesock.Io.Ev.{Answer, Events, waiting, resumed, watcher_handler}
use shuttlesock.Io.Ev.Poll.{Interest, evflags, wanted, with_result}
use shuttlesock.Io.Ops.{stop, suspend, wait}
use shuttlesock.Io.Ops.Stop.{Stopped}

-- What an abort leaves as it was
pub record Kept (x y : Io) : Type 0 where
  pub fd : y.fd ≡ x.fd
  pub buf : y.buf ≡ x.buf
  pub len : y.len ≡ x.len
  pub sockaddr : y.sockaddr ≡ x.sockaddr
  pub opcode : y.opcode ≡ x.opcode
  pub handler_stage : y.handler_stage ≡ x.handler_stage
  pub closed_read : y.closed_read ≡ x.closed_read
  pub closed_write : y.closed_write ≡ x.closed_write

-- The ways in which the wait for `i`, in which events `ev` come, can end
pub record WaitEnds (h : Handlers) (malloc : Option ℕ) (io : Io) (i : Interest) (ev : Events)
    (later : List Answer) : Type 0 where
  pub watched : (wait io (evflags i)).active ≡ true
  pub wakes :
      watcher_handler h malloc (wait io (evflags i)) ev later
      ≡ some (
        if wanted i ev
            then resumed (run_handler h (with_result io 0 0))
            else waiting (wait io (evflags i)),
        later,
      )
  pub suspended : suspend (wait io (evflags i)) ≡ record io {
    opcode = op_none;
    watch_type = watch_none;
    active = false;
    result = 0;
    error = 0;
  }
  pub stopped : Stopped (stop h (wait io (evflags i)))
  pub handled : Kept (h.handler (with_result io minus_one ecanceled)) (stop h (wait io (evflags i)))
