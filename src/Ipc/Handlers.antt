-- ===== src/Ipc/Handlers.antt =====
-- src/ipc.c, src/ipc_commands.c: the table of the handlers of IPC messages, an array of 256. A function is known by a
-- number.
pub mod Table
mod Tests
use Prim.Native.String.{String}
use shuttlesock.Base.{
  ℕ, zero, suc, ◌+◌, ◌^◌, ◌%◌, Bool, true, false, Option, none, some, ◌==◌, if◌then◌else◌, ltb, not,
  List, [], ◌∷◌,
}
use shuttlesock.Ipc.Send.{Runstate, configuring}
use shuttlesock.Procs.Check.{Check, passes, fails, aborts, runstate_check}

pub data Fn : Type 0 where
  do_nothing : Fn
  fn : ℕ → Fn

-- `shuso_ipc_handler_t`
pub record Handler : Type 0 where
  pub code : ℕ
  pub receive : Fn
  pub cancel : Fn
  pub name : String

-- `common->ipc_handlers`; an entry is `none` while its name is NULL
abbrev pub Handlers : Type 0
Handlers = ℕ → Option Handler

-- What a registration is called with, the name or the cancel function being `none` for NULL.
pub record Request : Type 0 where
  pub name : Option String
  pub code : ℕ
  pub receive : Fn
  pub cancel : Option Fn

-- SHUTTLESOCK_IPC_CODE_AUTOMATIC, SHUTTLESOCK_IPC_CODE_AUTOMATIC_MIN, SHUTTLESOCK_IPC_CODE_AUTOMATIC_MAX
abbrev pub code_automatic : ℕ
code_automatic = 65535

abbrev pub code_automatic_min : ℕ
code_automatic_min = 20

abbrev pub code_automatic_max : ℕ
code_automatic_max = 255

abbrev pub is_set : Option Handler → Bool
is_set none = false
is_set (some h) = true

-- the loop for an automatic code, from `i` on, in the rounds that are left; the code stays what it is
-- if none is free
pub first_free : (rounds i : ℕ) → Handlers → ℕ
first_free zero i t = code_automatic
first_free (suc n) i t = let rest = first_free n (suc i) t in if is_set (t i) then rest else i

abbrev pub name_or_unnamed : Option String → String
name_or_unnamed none = "(unnamed)"
name_or_unnamed (some s) = s

abbrev pub cancel_or_nothing : Option Fn → Fn
cancel_or_nothing none = do_nothing
cancel_or_nothing (some f) = f

abbrev pub new_handler : Request → ℕ → Handler
new_handler r code = record {
  code = code % 2 ^ 8;
  receive = r.receive;
  cancel = cancel_or_nothing r.cancel;
  name = name_or_unnamed r.name;
}

abbrev pub store_handler : Handlers → ℕ → Handler → Handlers
store_handler t code h c = if c == code then some h else t c

-- What a registration comes to: SIGABRT, an access past the table, NULL with the table left as it is,
-- or the code of the handler.
pub data Added : Type 0 where
  aborted : Added
  out_of_table : Added
  refused : Added
  added : (code : ℕ) → Handlers → Added

abbrev pub add_at : Handlers → Request → ℕ → Added
add_at t r code =
    if not (ltb code 256)
    then out_of_table
    else if is_set (t code)
    then refused
    else added code (store_handler t code (new_handler r code))

abbrev pub when_checked : Check → Added → Added
when_checked passes a = a
when_checked (fails e) a = refused
when_checked aborts a = aborted

-- `shuso_ipc_add_handler`, in the run state that all processes share
pub add_handler : Runstate → Handlers → Request → Added
unfolding first_free
add_handler state t r =
    let free = first_free 236 code_automatic_min t in
    when_checked (runstate_check state configuring none) (
      if r.code == code_automatic
      then if free == code_automatic then refused else add_at t r free
      else add_at t r r.code)

abbrev pub command : String → ℕ → ℕ → Request
command name code f = record { name = some name; code = code; receive = fn f; cancel = none }

-- the handlers of `shuso_ipc_commands_init`, each with the line of src/ipc_commands.c at which its
-- function begins
abbrev pub core_commands : List Request
core_commands =
    command "signal" 1 13
    ∷ command "shutdown" 2 55
    ∷ command "reconfigure" 3 61
    ∷ command "set_log_fd" 5 65
    ∷ command "manager_proxy_message" 11 107
    ∷ command "receive_proxied_message" 12 116
    ∷ command "worker_started" 9 122
    ∷ command "all_workers_started" 8 141
    ∷ command "worker_stopped" 10 159
    ∷ []

abbrev pub and_next :
    Added → (Handlers → Option (Bool × Handlers)) → Handlers → Option (Bool × Handlers)
and_next aborted f t = none
and_next out_of_table f t = none
and_next refused f t = some (false, t)
and_next (added code t') f t = f t'

-- one registration after another, up to one that gives NULL
pub add_all : Runstate → List Request → Handlers → Option (Bool × Handlers)
unfolding add_handler
add_all state [] t = some (true, t)
add_all state (r ∷ rs) t = and_next (add_handler state t r) (add_all state rs) t

-- `shuso_ipc_commands_init`; `none` is SIGABRT or an access past the table
pub commands_init : Runstate → Handlers → Option (Bool × Handlers)
unfolding add_all
commands_init state t = add_all state core_commands t
