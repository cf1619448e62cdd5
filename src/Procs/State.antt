-- ===== src/Procs/State.antt =====
-- src/shuttlesock.c, src/modules/core/core.c, src/ipc_commands.c: the run states of the processes, which lie in
-- shared memory, and the functions that change them. The answer of `shuso_ipc_send` is an argument;
-- a result `none` is a failed assertion. Listeners of other modules are not modelled.
pub mod Stop
pub mod Steps
pub mod Keep
pub mod Life
mod Tests
use shuttlesock.Base.{
  ℕ, zero, suc, ◌+◌, ◌-◌, Bool, true, false, Option, none, some, List, [], ◌∷◌, ◌++◌, ◌==◌, not,
  ◌&&◌, ◌||◌, if◌then◌else◌,
}
use shuttlesock.Ipc.Send.{
  Process, master, manager, worker, is_worker, is_master, Runstate, dead, stopped, misconfigured,
  configuring, configured, nil, starting, running, stopping, before_starting,
}

abbrev pub is_manager : Process → Bool
is_manager manager = true
is_manager _ = false

abbrev pub is_dead : Runstate → Bool
is_dead dead = true
is_dead _ = false

abbrev pub is_stopped : Runstate → Bool
is_stopped stopped = true
is_stopped _ = false

abbrev pub is_nil : Runstate → Bool
is_nil nil = true
is_nil _ = false

abbrev pub is_running : Runstate → Bool
is_running running = true
is_running _ = false

abbrev pub is_stopping : Runstate → Bool
is_stopping stopping = true
is_stopping _ = false

-- The states; whether a delay of the event "master.stop" or "manager.stop" waits for its timer, and whether the
-- last listener of the event has run, which ends the loop; what `shuso_ipc_send` answers the manager for
-- each worker that is up, in the one round of sends that it makes to all; the processes for which a send of SHUTDOWN was
-- called, whatever it answered, in order; and how often the manager told that all workers run.
pub record Server : Type 0 where
  pub master_state : Runstate
  pub manager_state : Runstate
  pub worker_state : ℕ → Runstate
  pub workers_start : ℕ
  pub workers_end : ℕ
  pub all_workers_running : Bool
  pub master_delayed : Bool
  pub manager_delayed : Bool
  pub master_breaks : Bool
  pub manager_breaks : Bool
  pub worker_sends : ℕ → Bool
  pub sent : List Process
  pub told : ℕ

abbrev pub state_of : Process → Server → Runstate
state_of master s = s.master_state
state_of manager s = s.manager_state
state_of (worker i) s = s.worker_state i

abbrev pub set_worker : (ℕ → Runstate) → ℕ → Runstate → ℕ → Runstate
set_worker w i st j = if j == i then st else w j

abbrev pub send_shutdown : Server → Process → Server
send_shutdown s p = record s { sent = s.sent ++ p ∷ [] }

-- `shuso_workers_count`
abbrev pub workers_count : Server → ℕ
workers_count s = s.workers_end - s.workers_start

-- what `shuso_ipc_send` answers for the `i`-th worker
abbrev pub sends_to : (ℕ → Bool) → (ℕ → Runstate) → ℕ → Bool
sends_to answers w i = not (before_starting (w i)) && answers i

-- `shuso_ipc_send_workers` on `n` workers from `i` on: the processes for which it calls `shuso_ipc_send`, and
-- what it returns
pub ipc_send_workers : (ℕ → Bool) → (n i : ℕ) → (ℕ → Runstate) → List Process × Bool
ipc_send_workers answers zero i w = ([], true)
ipc_send_workers answers (suc n) i w =
    let (later, ret) = ipc_send_workers answers n (suc i) w in
    if sends_to answers w i then (worker i ∷ later, ret) else (worker i ∷ [], false)

-- the loop of `core_manager_try_stop`, on `n` workers from `i` on
pub join_workers : (n i : ℕ) → (ℕ → Runstate) → (ℕ → Runstate) × Bool
join_workers zero i w = (w, true)
join_workers (suc n) i w =
    let w' = if is_stopped (w i) then set_worker w i dead else w in
    let (w'', all_dead) = join_workers n (suc i) w' in (w'', is_dead (w' i) && all_dead)

abbrev pub called_workers : Server → List Process
called_workers s =
    (ipc_send_workers s.worker_sends (workers_count s) s.workers_start s.worker_state).0

abbrev pub begin_manager_stop : Server → Server
begin_manager_stop s =
    if is_running s.manager_state
    then record s { manager_state = stopping; sent = s.sent ++ called_workers s }
    else s

-- the rest of `core_manager_try_stop`, and where it does not ask for a delay `core_manager_stop`
pub join_and_stop : Server → Option Server
unfolding join_workers
join_and_stop s =
    let (w, all_dead) = join_workers (workers_count s) s.workers_start s.worker_state in
    if not (is_stopping s.manager_state)
    then none
    else if all_dead
    then some (record s { worker_state = w; manager_breaks = true })
    else some (record s { worker_state = w; manager_delayed = true })

-- `core_manager_try_stop` and `core_manager_stop`
pub manager_stop_event : Server → Option Server
unfolding join_and_stop
manager_stop_event s = join_and_stop (begin_manager_stop s)

-- whether all workers are dead when the event looks at them, so that it is not delayed
abbrev pub joins_all : Server → Bool
joins_all s = (join_workers (workers_count s) s.workers_start s.worker_state).1

-- what publishing an event returns, given whether a listener interrupts it
abbrev pub published : (whole : Bool) → Option Server → Option (Bool × Server)
published whole none = none
published whole (some s) = some (whole, s)

-- `shuso_stop_manager`
pub stop_manager : (ipc : Bool) → Process → Server → Option (Bool × Server)
unfolding manager_stop_event join_workers
stop_manager ipc master s = some (ipc, send_shutdown s manager)
stop_manager ipc (worker i) s = some (false, s)
stop_manager ipc manager s =
    if is_running s.manager_state
    then published (joins_all s) (manager_stop_event s)
    else some (false, s)

abbrev begin_master_stop : Server → Server
begin_master_stop s0 =
    let s = if is_running s0.master_state then record s0 { master_state = stopping } else s0 in
    if is_running s.manager_state then send_shutdown s manager else s

-- `core_master_try_stop`, and where it does not ask for a delay `core_master_stop`
pub master_stop_event : Server → Server
master_stop_event s0 =
    let s = begin_master_stop s0 in
    if not (is_dead s.manager_state)
    then record s { master_delayed = true }
    else record s { master_breaks = true }

-- `shuso_stop`
pub stop : (ipc : Bool) → Process → Server → Bool × Server
unfolding master_stop_event
stop ipc me s =
    if not (is_running (state_of me s)) && not (is_stopping (state_of me s))
    then (false, s)
    else if not (is_master me)
    then (ipc, send_shutdown s master)
    else if not (is_running s.master_state)
    then (false, s)
    else (true, master_stop_event s)

-- `shuso_stop_worker`, the first process being that which calls it, a worker
pub stop_worker : (ipc : Bool) → (me i : ℕ) → Server → Bool × Server
stop_worker ipc me i s =
    if me == i
    then (
      true,
      if is_running (s.worker_state i)
          then record s { worker_state = set_worker s.worker_state i stopping }
          else s,
    )
    else (ipc, send_shutdown s (worker i))

abbrev pub server_of : Option (Bool × Server) → Option Server
server_of none = none
server_of (some (b, s)) = some s

pub shutdown_at : (ipc : Bool) → Process → Server → Option Server
unfolding stop stop_manager stop_worker
shutdown_at ipc master s = some (stop ipc master s).1
shutdown_at ipc manager s = server_of (stop_manager ipc manager s)
shutdown_at ipc (worker i) s = some (stop_worker ipc i i s).1

-- `shutdown_handle_cb`, the timer that `shutdown_handle` adds
pub shutdown : (ipc : Bool) → Process → Server → Option Server
unfolding shutdown_at
shutdown ipc me s = if is_stopping (state_of me s) then some s else shutdown_at ipc me s

-- the states in `shuso_worker_shutdown`
pub worker_shutdown : ℕ → Server → Option Server
worker_shutdown i s =
    if is_stopping (s.worker_state i)
    then some (record s { worker_state = set_worker s.worker_state i stopped })
    else none

-- the states in `shuso_spawn_worker`
pub spawn_worker : ℕ → Server → Option Server
spawn_worker i s =
    if is_nil (s.worker_state i)
    then some (record s { worker_state = set_worker s.worker_state i starting })
    else none

-- the states in `shuso_run_worker`, up to its loop
pub run_worker : ℕ → Server → Server
run_worker i s = record s { worker_state = set_worker s.worker_state i running }

-- whether `n` workers from `i` on run
pub all_running : (n i : ℕ) → (ℕ → Runstate) → Bool
all_running zero i w = true
all_running (suc n) i w = is_running (w i) && all_running n (suc i) w

-- `worker_started_handle` of the manager
pub worker_started_handle : Server → Server
unfolding all_running
worker_started_handle s =
    if all_running (workers_count s) s.workers_start s.worker_state
    then if not s.all_workers_running
      then record s { all_workers_running = true; told = s.told + 1 }
      else record s { all_workers_running = true }
    else s

-- the end of `shuso_run` after its loop
pub run_ends : Process → Server → Server
run_ends master s = record s { master_state = stopped }
run_ends manager s = record s { manager_state = stopped }
run_ends (worker i) s = s

-- How a child ended, by its wait status: `SHUSO_CHILD_RUNNING`, `SHUSO_CHILD_EXITED`,
-- `SHUSO_CHILD_KILLED`, `SHUSO_CHILD_STOPPED`, or nothing that is known
pub data ChildState : Type 0 where
  child_running : ChildState
  child_exited : ChildState
  child_killed : ChildState
  child_stopped : ChildState
  child_unknown : ChildState

abbrev pub has_ended : ChildState → Bool
has_ended child_exited = true
has_ended child_killed = true
has_ended _ = false

-- `shuso_handle_sigchild` in the master, for a child that is the manager or is not
pub handle_sigchild : (is_the_manager : Bool) → ChildState → Server → Server
unfolding stop
handle_sigchild is_the_manager child s =
    let s' = record s { manager_state = dead } in
    if not (is_the_manager && has_ended child)
    then s
    else if not (is_dead s.manager_state) && is_stopping s.master_state
    then (stop true master s').1
    else s'
