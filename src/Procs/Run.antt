-- ===== src/Procs/Run.antt =====
-- src/shuttlesock.c: what is taken and given back when a process runs and when a worker is
-- initialised, on every path. The answers of what is called are arguments.
pub mod Paths
pub mod Spawn
mod Tests
use shuttlesock.Base.{
  ℕ, zero, suc, ◌+◌, ◌-◌, Bool, true, false, Option, none, some, List, [], ◌∷◌, ◌==◌, not, ◌&&◌,
  ◌||◌, if◌then◌else◌,
}
use shuttlesock.Ipc.Send.{
  Process, master, manager, worker, Runstate, dead, stopped, starting, running, configured,
}
use shuttlesock.Ipc.Channel.{Channel, Held, Answers, shared_create, shared_destroy}
use shuttlesock.Procs.Check.{Check, passes, fails, aborts, runstate_check}

-- A step of a function that goes on while the answers are good: it changes what is held, or the function
-- goes to its label `fail`.
abbrev pub step {ℓ} : {A : Type ℓ} → (ok : Bool) → (A → A) → Bool × A → Bool × A
step ok f (false, a) = (false, a)
step true f (true, a) = (true, f a)
step false f (true, a) = (false, a)

abbrev pub keep {ℓ} : {A : Type ℓ} → A → A
keep a = a

-- What `shuso_initialize_worker` holds: the worker's structure, its channel with the buffers and descriptors of
-- the process, and `shared_ipc_created`, its pool, resolver and Lua state.
pub record WorkerHeld : Type 0 where
  pub worker_state : Bool
  pub channel : Channel
  pub held : Held
  pub shared_ipc_created : Bool
  pub worker_pool : Bool
  pub resolver : Bool
  pub worker_lua : Bool

pub record WorkerAnswers : Type 0 where
  pub calloc : Bool
  pub shared_create : Answers
  pub pool_init : Bool
  pub resolver_init : Bool
  pub lua_create : Bool
  pub lua_initialize : Bool
  pub initialize_modules : Bool

-- before, with the channel as it is in `S->common`
abbrev pub no_worker : Channel → Held → WorkerHeld
no_worker c h = record {
  worker_state = false;
  channel = c;
  held = h;
  shared_ipc_created = false;
  worker_pool = false;
  resolver = false;
  worker_lua = false;
}

abbrev pub with_channel : WorkerHeld → Bool × Channel × Held → Bool × WorkerHeld
with_channel w (created, c, h) =
    (created, record w { channel = c; held = h; shared_ipc_created = created })

-- the steps behind the channel
abbrev pub later_steps : WorkerAnswers → Bool × WorkerHeld → Bool × WorkerHeld
later_steps a r = step a.initialize_modules keep (
    step a.lua_initialize keep (
      step a.lua_create (λ (w : WorkerHeld). record w { worker_lua = true })
        (step a.resolver_init (λ (w : WorkerHeld). record w { resolver = true })
          (step a.pool_init (λ (w : WorkerHeld). record w { worker_pool = true }) r))))

abbrev pub worker_fail : WorkerHeld → WorkerHeld
worker_fail w =
    let (c, h) =
      if w.shared_ipc_created then shared_destroy w.channel w.held else (w.channel, w.held) in
    record {
      channel = c;
      held = h;
      shared_ipc_created = w.shared_ipc_created;
      resolver = if w.resolver then false else w.resolver;
      worker_pool = if w.worker_pool then false else w.worker_pool;
      worker_state = if w.worker_state then false else w.worker_state;
      worker_lua = w.worker_lua;
    }

abbrev pub worker_end : Bool × WorkerHeld → Bool × WorkerHeld
worker_end (true, w) = (true, w)
worker_end (false, w) = (false, worker_fail w)

abbrev pub after_channel :
    WorkerAnswers → WorkerHeld → Option (Bool × Channel × Held) → Option (Bool × WorkerHeld)
after_channel a w none = none
after_channel a w (some r) = some (worker_end (later_steps a (with_channel w r)))

-- `shuso_initialize_worker` for the `i`-th worker, whose state is nil; `none` is the failed assertion of
-- `shuso_ipc_channel_shared_create`.
pub initialize_worker : (i : ℕ) → WorkerAnswers → Channel → Held → Option (Bool × WorkerHeld)
initialize_worker i a c h =
    let w = no_worker c h in
    if not a.calloc
    then some (worker_end (false, w))
    else after_channel a (record w { worker_state = true })
        (shared_create (worker i) c h a.shared_create)

-- What fork gives: -1, the pid of the manager to the master, or 0 to the manager.
pub data Fork : Type 0 where
  no_fork : Fork
  in_master : Fork
  in_manager : Fork

-- What a process holds in `shuso_run`, who it is, and its run state: whether a channel was created. What a
-- creation that fails leaves is told by `shared_create`, and is not part of this.
pub record Running : Type 0 where
  pub master_channel : Bool
  pub manager_channel : Bool
  pub shared_resolver : Bool
  pub me : Process
  pub run_state : Runstate

pub record RunAnswers : Type 0 where
  pub create_master : Bool
  pub create_manager : Bool
  pub resolver_init : Bool
  pub forked : Fork
  pub initialize_workers : Bool
  pub spawn_workers : Bool
  pub io_uring_setup : Bool

abbrev pub is_forked : Fork → Bool
is_forked no_fork = false
is_forked _ = true

abbrev pub forked_as : Fork → Running → Running
forked_as in_manager r = record r { me = manager; run_state = running }
forked_as _ r = r

abbrev pub is_child : Fork → Bool
is_child in_manager = true
is_child _ = false

-- the steps up to the loop
pub run_steps : RunAnswers → Bool × Running
run_steps a = step a.io_uring_setup keep (
    step (not (is_child a.forked) || a.spawn_workers) keep (
      step (not (is_child a.forked) || a.initialize_workers) keep (
        step (is_forked a.forked)
          (λ (r : Running). forked_as a.forked (record r { run_state = running }))
          (step a.resolver_init (λ (r : Running). record r { shared_resolver = true })
            (step a.create_manager (λ (r : Running). record r { manager_channel = true })
              (step a.create_master (λ (r : Running). record r { master_channel = true })
                (
                  true,
                  record {
                    master_channel = false;
                    manager_channel = false;
                    shared_resolver = false;
                    me = master;
                    run_state = starting;
                  },
                )))))))

-- after the loop: `shuso_cleanup_loop` and `shuso_resolver_cleanup`
abbrev pub run_done : Running → Running
run_done r = record r {
  master_channel = false;
  manager_channel = false;
  shared_resolver = false;
  run_state = stopped;
}

-- the label `fail`
abbrev pub run_fail : Running → Running
run_fail r = record r {
  master_channel = if r.master_channel then false else r.master_channel;
  manager_channel = if r.manager_channel then false else r.manager_channel;
  shared_resolver = if r.shared_resolver then false else r.shared_resolver;
  run_state = dead;
}

abbrev pub run_end : Bool × Running → Bool × Running
run_end (true, r) = (true, run_done r)
run_end (false, r) = (false, run_fail r)

-- `shuso_run` in a server that is configured, with `shuso_fork_manager`
pub run : RunAnswers → Bool × Running
unfolding run_steps
run a = run_end (run_steps a)
