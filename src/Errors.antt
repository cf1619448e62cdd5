-- ===== src/Errors.antt =====
-- src/shuttlesock.c: how a process keeps its last error, logs it, and tells the listeners of the event
-- "error". Messages are known by the allocation that holds them: allocations are numbered from 0 in
-- the order in which they are made.
pub mod Owner
pub mod Capture
mod Tests
use shuttlesock.Base.{
  ℕ, ◌+◌, ◌^◌, Bool, true, false, Option, none, some, List, [], ◌∷◌, ◌++◌, ◌==◌, ltb, not, ◌&&◌,
  if◌then◌else◌, bind_crash,
}

-- `S->error.msg`: NULL, the text in static memory, or an allocation
pub data Msg : Type 0 where
  no_msg : Msg
  out_of_memory : Msg
  allocd : ℕ → Msg

-- `S->error`, with what surrounds it: whether the shared state is past `SHUSO_STATE_CONFIGURING`, the
-- allocations that are live, the number of the next, and the messages that were logged and that
-- were published, the first one first.
pub record Errors : Type 0 where
  pub msg : Msg
  pub error_count : ℕ
  pub error_number : ℕ
  pub static_memory : Bool
  pub do_not_log : Bool
  pub do_not_publish_event : Bool
  pub past_configuring : Bool
  pub live : List ℕ
  pub next_alloc : ℕ
  pub logged : List Msg
  pub published : List Msg

-- A sequence of calls that set an error. Each has the error number, which is 0 but for the
-- functions that end in _errno; whether malloc has memory; and the calls that the listeners of the
-- event make, if it is published.
pub data Calls : Type 0 where
  done : Calls
  set_error : (error_number : ℕ) (malloc : Bool) (listeners rest : Calls) → Calls

abbrev and_cons : ℕ → Option (List ℕ) → Option (List ℕ)
and_cons x none = none
and_cons x (some ys) = some (x ∷ ys)

-- free(): `none` if the allocation is not live
abbrev pub free : ℕ → List ℕ → Option (List ℕ)
free a [] = none
free a (x ∷ xs) = let rest = free a xs in if a == x then some xs else and_cons x rest

-- error_count++ on an int, `none` where it overflows
abbrev pub count_error : Errors → Option Errors
count_error s =
    if ltb (s.error_count + 1) (2 ^ 31)
    then some (record s { error_count = s.error_count + 1 })
    else none

-- the new message
abbrev pub store_msg : Bool → Errors → Errors
store_msg true s = record s {
  msg = allocd s.next_alloc;
  static_memory = false;
  live = s.next_alloc ∷ s.live;
  next_alloc = s.next_alloc + 1;
}
store_msg false s = record s { msg = out_of_memory; static_memory = true }

abbrev pub log_error : Errors → Errors
log_error s = if not s.do_not_log then record s { logged = s.logged ++ s.msg ∷ [] } else s

abbrev with_live : Errors → Option (List ℕ) → Option Errors
with_live s none = none
with_live s (some l) = some (record s { live = l })

-- free_oldmsg, which is NULL if the old message was, or was static; to free memory that malloc did not
-- give is `none`.
abbrev pub free_oldmsg : (old : Msg) (static : Bool) → Errors → Option Errors
free_oldmsg no_msg static s = some s
free_oldmsg old true s = some s
free_oldmsg (allocd a) false s = with_live s (free a s.live)
free_oldmsg out_of_memory false s = none

abbrev stop_publishing : Option Errors → Option Errors
stop_publishing none = none
stop_publishing (some s) = some (record s { do_not_publish_event = false })

abbrev pub publish_error : (listeners : Errors → Option Errors) → Errors → Option Errors
publish_error listeners s =
    if not s.do_not_publish_event && s.past_configuring
    then stop_publishing (
        listeners (record s { do_not_publish_event = true; published = s.published ++ s.msg ∷ [] }))
    else some s

-- `shuso_set_error_internal_vararg`
pub set_error_internal : Bool → (listeners : Errors → Option Errors) → Errors → Option Errors
set_error_internal malloc listeners s = bind_crash (count_error s) λ s1.
    bind_crash (free_oldmsg s.msg s.static_memory (log_error (store_msg malloc s1)))
      (publish_error listeners)

-- `shuso_set_error`, `shuso_set_error_vararg`, `shuso_set_error_errno`, `shuso_set_error_errno_vararg`, one
-- call after another
pub run : Calls → Errors → Option Errors
unfolding set_error_internal
run done s = some s
run (set_error n malloc listeners rest) s =
    bind_crash (set_error_internal malloc (run listeners) (record s { error_number = n }))
      (run rest)

-- `shuso_error_capture_start`, which returns the count of errors
pub error_capture_start : Errors → ℕ × Errors
error_capture_start s = (s.error_count, record s { do_not_publish_event = true; do_not_log = true })

-- `shuso_error_capture_finish`, which returns the last message, or NULL
pub error_capture_finish : ℕ → Errors → Msg × Errors
error_capture_finish prev s = (
  if ltb prev s.error_count then s.msg else no_msg,
  record s { do_not_publish_event = false; do_not_log = false },
)

-- `shuso_last_error`, `shuso_last_errno`, `shuso_error_count`
pub last_error : Errors → Msg
last_error s = s.msg
