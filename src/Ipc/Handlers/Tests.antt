-- ===== src/Ipc/Handlers/Tests.antt =====
-- The table of handlers at concrete inputs.
use shuttlesock.Base.{Bool, true, Option, none, some, ◌≡◌, refl}
use shuttlesock.Ipc.Send.{configuring, configured}
use shuttlesock.Procs.Check.{runstate_check}
use shuttlesock.Ipc.Handlers.{
  fn, Handlers, Request, aborted, add_handler, first_free, code_automatic, commands_init, add_all,
}
use shuttlesock.Ipc.Handlers.Table.{AddedWell, add_handler-Well}

abbrev empty_table : Handlers
empty_table = λ c. none

abbrev automatic : Request
automatic = record { name = some "mine"; code = code_automatic; receive = fn 1; cancel = none }

add_handler-Well_example :
    AddedWell empty_table automatic (add_handler configuring empty_table automatic)
add_handler-Well_example = add_handler-Well empty_table automatic

-- Once the server is configured a registration aborts.
too_late : add_handler configured empty_table automatic ≡ aborted
unfolding add_handler runstate_check first_free
too_late = refl

abbrev outcome : Option (Bool × Handlers) → Option Bool
outcome none = none
outcome (some (b, t)) = some b

commands_once : outcome (commands_init configuring empty_table) ≡ some true
unfolding commands_init add_all add_handler runstate_check first_free
commands_once = refl
