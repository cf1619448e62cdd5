-- ===== src/Modules.antt =====
-- src/module.c: the order in which modules are frozen, initialised and finalised, for the master and for a
-- worker. What a module's function, or the freezing and finalising, which go through Lua, answer is
-- an argument. `S->active_module` is known by the module's place among the modules.
pub mod Loops
pub mod Order
pub mod Worker
mod Tests
use shuttlesock.Base.{
  ℕ, zero, suc, ◌+◌, Bool, true, false, Option, none, some, List, [], ◌∷◌, ◌++◌, ltb, not, ◌&&◌,
  ◌||◌, if◌then◌else◌,
}

-- What an `initialize` or `initialize_worker` returns, and how many errors it sets
pub record Outcome : Type 0 where
  pub ok : Bool
  pub errors : ℕ

-- `shuso_module_t`: its functions, `none` being NULL, and whether it can be frozen and finalised
pub record Module : Type 0 where
  pub initialize : Option Outcome
  pub initialize_worker : Option Outcome
  pub freezes : Bool
  pub finalizes : Bool

-- A call for a module, with its place
pub data Call : Type 0 where
  freeze : ℕ → Call
  initialize : ℕ → Call
  initialize_worker : ℕ → Call
  finalize : ℕ → Call

-- `S->active_module`, `S->error.error_count`, and the calls, the first one first
pub record State : Type 0 where
  pub active : Option ℕ
  pub error_count : ℕ
  pub calls : List Call

abbrev pub set_error : State → Bool × State
set_error s = (false, record s { error_count = s.error_count + 1 })

abbrev pub activate : ℕ → State → State
activate i s = record s { active = some i }

abbrev pub call : Call → State → State
call c s = record s { calls = s.calls ++ c ∷ [] }

-- the loops on `S->common->modules`, which end at the first module that fails
abbrev pub each_module :
    (Module → ℕ → State → Bool × State) → List Module → ℕ → State → Bool × State
each_module f [] i s = (true, s)
each_module f (m ∷ ms) i s =
    let (ok, s') = f m i s in
    let rest = each_module f ms (suc i) s' in if ok then rest else (false, s')

-- the test of an answer, with the errors that are counted before and after
abbrev pub after_call : (before : ℕ) → Bool → State → Bool × State
after_call before ok s = if not ok || ltb before s.error_count then set_error s else (true, s)

abbrev pub add_errors : ℕ → State → State
add_errors n s = record s { error_count = s.error_count + n }

-- a module's function was called by `c`
abbrev answered : Call → Outcome → State → Bool × State
answered c o s = after_call s.error_count o.ok (add_errors o.errors (call c s))

abbrev pub initialize_module : Option Outcome → ℕ → State → Bool × State
initialize_module none i s = (true, s)
initialize_module (some o) i s = answered (initialize i) o (activate i s)

abbrev pub initialize_for_worker : Option Outcome → ℕ → State → Bool × State
initialize_for_worker none i s = (true, s)
initialize_for_worker (some o) i s = answered (initialize_worker i) o s

abbrev pub freeze_step : Module → ℕ → State → Bool × State
freeze_step m i s = (m.freezes, call (freeze i) s)

abbrev pub initialize_step : Module → ℕ → State → Bool × State
initialize_step m i s = initialize_module m.initialize i s

abbrev pub finalize_step : Module → ℕ → State → Bool × State
finalize_step m i s = (m.finalizes, call (finalize i) (activate i s))

abbrev pub worker_step : Module → ℕ → State → Bool × State
worker_step m i s = initialize_for_worker m.initialize_worker i (activate i s)

-- S->active_module = prev_active_module
abbrev pub restore : Option ℕ → State → State
restore active s = record s { active = active }

-- `shuso_worker_initialize_modules`
pub worker_initialize_modules : List Module → State → Bool × State
worker_initialize_modules ms s =
    let (ok, s') = each_module worker_step ms 0 s in
    if not ok then (false, restore s.active s') else (true, s')

abbrev pub finalize_all : Option ℕ → List Module → State → Bool × State
finalize_all prev ms s =
    let (ok, s') = each_module finalize_step ms 0 s in
    if not ok then (false, restore prev s') else (true, restore prev s')

abbrev pub initialize_all : List Module → State → Bool × State
initialize_all ms s =
    let (ok, s') = each_module initialize_step ms 0 s in
    if not ok then (false, restore s.active s') else finalize_all s.active ms s'

-- `shuso_master_initialize_modules`, with whether there is an array of events, or memory for one
pub master_initialize_modules : (events : Bool) → List Module → State → Bool × State
master_initialize_modules events ms s =
    if not events
    then set_error s
    else let (ok, s') = each_module freeze_step ms 0 s in
      if not ok then (false, s') else initialize_all ms s'
