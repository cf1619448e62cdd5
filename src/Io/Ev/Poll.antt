-- ===== src/Io/Ev/Poll.antt =====
-- The watcher of a wait for reading, writing or both.
use shuttlesock.Base.{
  ℕ, ◌≡◌, refl, Bool, true, false, Option, some, List, not, ◌||◌, ◌&&◌, if◌then◌else◌,
}
use shuttlesock.Io.{
  Watch, watch_none, poll_read, poll_write, poll_readwrite, Io, Handlers, run_handler,
}
use shuttlesock.Io.Ev.{
  Answer, Outcome, Events, waiting, resumed, watcher_handler, on_watch, poll_match,
}

-- SHUSO_IO_READ, SHUSO_IO_WRITE, or both
pub data Interest : Type 0 where
  in_read : Interest
  in_write : Interest
  in_both : Interest

abbrev pub evflags : Interest → ℕ
evflags in_read = 1
evflags in_write = 2
evflags in_both = 3

-- Whether events are waited for. The watcher reports none but these.
abbrev pub wanted : Interest → Events → Bool
wanted in_read ev = ev.ev_read
wanted in_write ev = not ev.ev_read && ev.ev_write
wanted in_both ev = ev.ev_read || ev.ev_write

abbrev pub poll_of : Interest → Watch
poll_of in_read = poll_read
poll_of in_write = poll_write
poll_of in_both = poll_readwrite

-- `io` with its watcher on, and a result
abbrev pub with_result : Io → (result error : ℕ) → Io
with_result io result error = record io {
  watch_type = watch_none;
  active = true;
  result = result;
  error = error;
}

abbrev pub waits : Io → Watch → Io
waits io w = record io { watch_type = w; active = true; error = 0; result = 0 }

either_way :
    (b : Bool) (x y : Io) (h : Handlers) (later : List Answer)
    → if◌then◌else◌ {A = Option (Outcome × List Answer)} b
        (some (resumed (run_handler h x), later))
        (some (waiting y, later))
      ≡ some (if b then resumed (run_handler h x) else waiting y, later)
either_way true x y h later = refl
either_way false x y h later = refl

pub wakes_eq :
    (h : Handlers) (malloc : Option ℕ) (io : Io) (i : Interest) (ev : Events) (later : List Answer)
    → watcher_handler h malloc (waits io (poll_of i)) ev later
      ≡ some (
        if wanted i ev
            then resumed (run_handler h (with_result io 0 0))
            else waiting (waits io (poll_of i)),
        later,
      )
unfolding watcher_handler on_watch poll_match
wakes_eq h malloc io in_read ev later =
    either_way ev.ev_read (with_result io 0 0) (waits io poll_read) h later
wakes_eq h malloc io in_write ev later =
    either_way (not ev.ev_read && ev.ev_write) (with_result io 0 0) (waits io poll_write) h later
wakes_eq h malloc io in_both ev later =
    either_way (ev.ev_read || ev.ev_write) (with_result io 0 0) (waits io poll_readwrite) h later
