-- ===== src/Procs/Run/Tests.antt =====
-- Runs at concrete inputs.
use shuttlesock.Base.{
  Bool, none, some, arith, ◌+◌, ◌≡◌, ◌⊎◌, refl, true, false, [], ◌∷◌, ◌==◌, length,
}
use shuttlesock.Ipc.Send.{dead, stopped}
use shuttlesock.Ipc.Channel.{Channel, Held}
use shuttlesock.Procs.Run.{
  WorkerHeld, WorkerAnswers, initialize_worker, RunAnswers, in_manager, run,
}
use shuttlesock.Procs.Run.Paths.{
  Holds, worker_well, lua_made, worker_kept, initialize_worker-Holds, run-Releases,
}
use shuttlesock.Procs.Run.Spawn.{
  initialize_workers, spawn_from, spawn_workers, spawn_workers-Starts, marked, both, count_true,
}

abbrev fresh_channel : Channel
fresh_channel = record {
  buf = 0;
  fd0 = some 0;
  fd1 = some 0;
  socket_fd0 = some 0;
  socket_fd1 = some 0;
}

abbrev open_fds : Held
open_fds = record { buffers = []; fds = 0 ∷ 1 ∷ 2 ∷ [] }

abbrev bad_module : WorkerAnswers
bad_module = record {
  calloc = true;
  shared_create = record {
    mmap = none;
    calloc = some 64;
    eventfd = some 3;
    socketpair = some (4, 5);
  };
  pool_init = true;
  resolver_init = true;
  lua_create = true;
  lua_initialize = true;
  initialize_modules = false;
}

-- Without sockets, the buffer and the eventfd stay.
abbrev no_sockets : WorkerAnswers
no_sockets = record bad_module {
  shared_create = record { mmap = none; calloc = some 64; eventfd = some 3; socketpair = none };
}

sockets_kept :
    worker_kept no_sockets open_fds ≡ record { buffers = 64 ∷ []; fds = 3 ∷ 0 ∷ 1 ∷ 2 ∷ [] }
sockets_kept = refl

-- The Lua state of a worker whose modules fail is lost.
initialize_worker-Holds_example :
    (r : Bool × WorkerHeld) × (initialize_worker 2 bad_module fresh_channel open_fds ≡ some r)
    × Holds (worker_well bad_module) (lua_made bad_module) (worker_kept bad_module open_fds) r
initialize_worker-Holds_example =
    initialize_worker-Holds 2 bad_module fresh_channel open_fds refl
      (omega arith, omega arith, omega arith)

abbrev bad_workers : RunAnswers
bad_workers = record {
  create_master = true;
  create_manager = true;
  resolver_init = true;
  forked = in_manager;
  initialize_workers = false;
  spawn_workers = true;
  io_uring_setup = true;
}

manager_without_workers :
    ((run bad_workers).1.master_channel ≡ false)
    × ((run bad_workers).1.manager_channel ≡ false)
    × ((run bad_workers).1.shared_resolver ≡ false)
    × ((((run bad_workers).0 ≡ true) × ((run bad_workers).1.run_state ≡ stopped))
        ⊎ (((run bad_workers).0 ≡ false) × ((run bad_workers).1.run_state ≡ dead)))
manager_without_workers = run-Releases bad_workers

-- Of three workers the first is not initialised and the thread of the second does not start: the third runs as the
-- number 2, outside of the range from 0 to 2.
one_of_three :
    spawn_workers 3 (initialize_workers 0 (false ∷ true ∷ true ∷ [])) (true ∷ false ∷ true ∷ [])
    ≡ (false, 2, 2 ∷ [])
unfolding spawn_workers spawn_from initialize_workers
one_of_three = refl

spawn_workers-Starts_example :
    let (ok, workers_end, started) =
      spawn_workers 3
        (initialize_workers 0 (false ∷ true ∷ true ∷ []))
        (true ∷ false ∷ true ∷ []) in
    (started ≡ marked 0 (both (false ∷ true ∷ true ∷ []) (true ∷ false ∷ true ∷ [])))
    × (workers_end + count_true (false ∷ true ∷ true ∷ []) ≡ 3 + length started)
    × (ok ≡ (count_true (false ∷ true ∷ true ∷ []) == length started))
spawn_workers-Starts_example =
    spawn_workers-Starts 0 (false ∷ true ∷ true ∷ []) (true ∷ false ∷ true ∷ []) refl
