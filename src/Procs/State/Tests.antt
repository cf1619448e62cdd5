-- ===== src/Procs/State/Tests.antt =====
-- Run states at concrete inputs.
use shuttlesock.Base.{if◌then◌else◌, ◌==◌, ◌≤◌, ◌≡◌, inl, refl, true, false, some, [], ◌∷◌}
use shuttlesock.Ipc.Send.{manager, worker, nil, running, stopping}
use shuttlesock.Procs.State.{
  Server, state_of, manager_stop_event, join_and_stop, join_workers, ipc_send_workers, stop_manager,
  shutdown, shutdown_at,
}
use shuttlesock.Procs.State.Stop.{ManagerStops, manager_stop_event-Stops, rank}
use shuttlesock.Procs.State.Steps.{shuts_down, here, next, Ordered}
use shuttlesock.Procs.State.Keep.{Started, Reach-Ordered, Started-Ordered, manager_ready}
use shuttlesock.Procs.State.Life.{Step-Later, resumed-ManagerStops}

-- two workers: the first was not started, the second runs
abbrev ready : Server
ready = record {
  master_state = running;
  manager_state = running;
  worker_state = λ i. if i == 0 then nil else running;
  workers_start = 0;
  workers_end = 2;
  all_workers_running = false;
  master_delayed = false;
  manager_delayed = false;
  master_breaks = false;
  manager_breaks = false;
  worker_sends = λ i. true;
  sent = [];
  told = 0;
}

ready-Started : Started ready
ready-Started = record {
  manager_runs = refl;
  not_delayed = refl;
  not_breaking = refl;
  master_not_breaking = refl;
}

manager_stop_event-Stops_example :
    (s' : Server) × (manager_stop_event ready ≡ some s') × ManagerStops ready s'
manager_stop_event-Stops_example = manager_stop_event-Stops ready (inl refl)

-- A worker that was not started is waited for, and the one behind it, which runs, is sent nothing.
waits_for_nil :
    manager_stop_event ready
    ≡ some (record ready { manager_state = stopping; manager_delayed = true; sent = worker 0 ∷ [] })
unfolding manager_stop_event join_and_stop join_workers ipc_send_workers
waits_for_nil = refl

abbrev asked : Server
asked = record ready { manager_state = stopping; manager_delayed = true; sent = worker 0 ∷ [] }

manager_asked : shutdown true manager ready ≡ some asked
unfolding shutdown shutdown_at stop_manager manager_stop_event join_and_stop join_workers
    ipc_send_workers
manager_asked = refl

Reach-Ordered_example : Ordered asked
Reach-Ordered_example =
    Reach-Ordered ready-Started (next here (shuts_down true manager refl manager_asked))

Step-Later_example : rank (state_of manager ready) ≤ rank (state_of manager asked)
Step-Later_example =
    Step-Later (Started-Ordered ready ready-Started) (shuts_down true manager refl manager_asked)
      manager

resumed-ManagerStops_example :
    (t' : Server) × (manager_stop_event (manager_ready asked) ≡ some t')
    × ManagerStops (manager_ready asked) t'
resumed-ManagerStops_example =
    resumed-ManagerStops ready-Started (next here (shuts_down true manager refl manager_asked)) refl
      refl
