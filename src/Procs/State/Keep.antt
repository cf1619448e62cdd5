-- ===== src/Procs/State/Keep.antt =====
-- src/shuttlesock.c, src/modules/core/core.c, src/ipc_commands.c: that each call keeps the order in which processes
-- end.
use shuttlesock.Base.{
  ℕ, ◌≡◌, ◌⊎◌, inl, inr, refl, sym, ap, subst, ◌∙◌, Bool, true, false, Option, none, some,
  if◌then◌else◌, arith,
}
use shuttlesock.Ipc.Send.{
  Process, master, manager, worker, Runstate, dead, stopped, starting, running, stopping,
}
use shuttlesock.Procs.State.{
  Server, state_of, set_worker, manager_stop_event, stop_manager, master_stop_event, stop,
  stop_worker, shutdown, shutdown_at, worker_shutdown, spawn_worker, run_worker,
  worker_started_handle, run_ends, ChildState, handle_sigchild, workers_count, is_dead, is_nil,
  is_running, is_stopping, joins_all, published, server_of,
}
use shuttlesock.Procs.State.Stop.{
  ManagerStops, manager_stop_event-Stops, all_dead, all_dead-set, all_over,
}
use shuttlesock.Procs.State.Steps.{
  Acts, breaks_of, Step, stops, shuts_down, stops_worker, master_resumes, manager_resumes, spawns,
  runs, worker_ends, worker_starts, loop_ends, child_changes, Reach, here, next, Ordered,
}

master_stop_event-Ordered : (s : Server) → Ordered s → Ordered (master_stop_event s)
unfolding master_stop_event
master_stop_event-Ordered s o = ground arith

stop-Ordered : (ipc : Bool) (me : Process) (s : Server) → Ordered s → Ordered (stop ipc me s).1
unfolding stop
stop-Ordered ipc me s o = ground (arith, master_stop_event-Ordered s o)

same_range :
    {s s' : Server}
    → ManagerStops s s'
    → all_dead (workers_count s') s'.workers_start s'.worker_state
      ≡ all_dead (workers_count s) s.workers_start s'.worker_state
same_range r = cc (r.same_start, r.same_end)

-- what the event "manager.stop" keeps
event-Ordered :
    (over : Bool) (s s' : Server)
    → all_over (workers_count s) s.workers_start s.worker_state ≡ over
    → Ordered s
    → s.manager_delayed ≡ false
    → s.manager_breaks ≡ false
    → is_dead s.manager_state ≡ false
    → ManagerStops s s'
    → Ordered s'
event-Ordered true s s' e o d b m r = ground (arith, o, r, same_range r)
event-Ordered false s s' e o d b m r = ground (arith, o, r, same_range r)

set_worker-Ordered :
    (i : ℕ) (st : Runstate) (s : Server)
    → is_dead (s.worker_state i) ≡ false
    → Ordered s
    → Ordered (record s { worker_state = set_worker s.worker_state i st })
set_worker-Ordered i st s h o =
    ground (arith, o, all_dead-set (workers_count s) s.workers_start i s.worker_state st h)

stop_worker-Ordered :
    (ipc : Bool) (me i : ℕ) (s : Server) → Ordered s → Ordered (stop_worker ipc me i s).1
unfolding stop_worker
stop_worker-Ordered ipc me i s o = ground (arith, o, set_worker-Ordered i stopping s)

abbrev OrderedAfter : Option Server → Type 0
OrderedAfter none = Unit
OrderedAfter (some s) = Ordered s

OrderedAfter-some : (o : Option Server) (s : Server) → OrderedAfter o → o ≡ some s → Ordered s
OrderedAfter-some o s h e = subst OrderedAfter e h

manager_stop_event-Ordered :
    (s : Server)
    → Ordered s
    → (s.manager_state ≡ running) ⊎ (s.manager_state ≡ stopping)
    → s.manager_delayed ≡ false
    → s.manager_breaks ≡ false
    → OrderedAfter (manager_stop_event s)
manager_stop_event-Ordered s o r d b = of_stops (manager_stop_event-Stops s r)
  where
    of_stops :
        (s' : Server) × (manager_stop_event s ≡ some s') × ManagerStops s s'
        → OrderedAfter (manager_stop_event s)
    of_stops (s', e, st) =
        subst OrderedAfter (sym e) (event-Ordered _ s s' refl o d b (ground (arith, r)) st)

run_manager-Ordered :
    (s : Server) → s.manager_state ≡ running → Ordered s → OrderedAfter (manager_stop_event s)
run_manager-Ordered s r o =
    manager_stop_event-Ordered s o (inl r) (ground (arith, r, o)) (ground (arith, r, o))

pub running_of : (r : Runstate) → is_running r ≡ true → r ≡ running
running_of r h = ground arith

pub server_of-published : (b : Bool) (o : Option Server) → server_of (published b o) ≡ o
server_of-published b none = refl
server_of-published b (some s) = refl

stop_manager-Ordered :
    (ipc : Bool) (b : Bool) (s : Server)
    → is_running s.manager_state ≡ b
    → Ordered s
    → OrderedAfter (server_of (stop_manager ipc manager s))
unfolding stop_manager
stop_manager-Ordered ipc true s e o =
    subst OrderedAfter
      (sym (
        ap
          (λ b.
            server_of
              (if b then published (joins_all s) (manager_stop_event s) else some (false, s)))
          e
        ∙ server_of-published (joins_all s) (manager_stop_event s)))
      (run_manager-Ordered s (running_of s.manager_state e) o)
stop_manager-Ordered ipc false s e o =
    subst OrderedAfter
      (sym (
        ap
          (λ b.
            server_of
              (if b then published (joins_all s) (manager_stop_event s) else some (false, s)))
          e))
      o

shutdown_at-Ordered :
    (ipc : Bool) (me : Process) (s : Server) → Ordered s → OrderedAfter (shutdown_at ipc me s)
unfolding shutdown_at
shutdown_at-Ordered ipc master s o = stop-Ordered ipc master s o
shutdown_at-Ordered ipc manager s o = stop_manager-Ordered ipc _ s refl o
shutdown_at-Ordered ipc (worker i) s o = stop_worker-Ordered ipc i i s o

shutdown-Ordered :
    (ipc : Bool) (me : Process) (b : Bool) (s : Server)
    → is_stopping (state_of me s) ≡ b
    → Ordered s
    → OrderedAfter (shutdown ipc me s)
unfolding shutdown
shutdown-Ordered ipc me true s e o =
    subst (λ b. OrderedAfter (if b then some s else shutdown_at ipc me s)) (sym e) o
shutdown-Ordered ipc me false s e o =
    subst (λ b. OrderedAfter (if b then some s else shutdown_at ipc me s)) (sym e)
      (shutdown_at-Ordered ipc me s o)

abbrev pub master_ready : Server → Server
master_ready s = record s { master_delayed = false }

abbrev pub manager_ready : Server → Server
manager_ready s = record s { manager_delayed = false }

master_ready-Ordered : (s : Server) → Ordered s → Ordered (master_ready s)
master_ready-Ordered s o = ground (arith, o)

pub manager_ready-Ordered : (s : Server) → Ordered s → Ordered (manager_ready s)
manager_ready-Ordered s o = ground (arith, o)

pub stopping_of : (r : Runstate) → is_stopping r ≡ true → r ≡ stopping
stopping_of r h = ground arith

manager_resumes-Ordered :
    (s : Server)
    → Ordered s
    → is_dead s.manager_state ≡ false
    → s.manager_delayed ≡ true
    → OrderedAfter (manager_stop_event (manager_ready s))
manager_resumes-Ordered s o a d =
    manager_stop_event-Ordered (manager_ready s) (manager_ready-Ordered s o)
      (inr (stopping_of s.manager_state (ground (arith, o, a, d)))) refl (ground (arith, o, d))

spawn_worker-Ordered :
    (i : ℕ) (b : Bool) (s : Server)
    → is_nil (s.worker_state i) ≡ b
    → Ordered s
    → OrderedAfter (spawn_worker i s)
unfolding spawn_worker
spawn_worker-Ordered i true s e o =
    let started = record s { worker_state = set_worker s.worker_state i starting } in
    subst (λ b. OrderedAfter (if b then some started else none)) (sym e)
      (set_worker-Ordered i starting s (ground (arith, e)) o)
spawn_worker-Ordered i false s e o =
    let started = record s { worker_state = set_worker s.worker_state i starting } in
    subst (λ b. OrderedAfter (if b then some started else none)) (sym e) tt

worker_shutdown-Ordered :
    (i : ℕ) (b : Bool) (s : Server)
    → is_stopping (s.worker_state i) ≡ b
    → Ordered s
    → OrderedAfter (worker_shutdown i s)
unfolding worker_shutdown
worker_shutdown-Ordered i true s e o =
    let over = record s { worker_state = set_worker s.worker_state i stopped } in
    subst (λ b. OrderedAfter (if b then some over else none)) (sym e)
      (set_worker-Ordered i stopped s (ground (arith, e)) o)
worker_shutdown-Ordered i false s e o =
    let over = record s { worker_state = set_worker s.worker_state i stopped } in
    subst (λ b. OrderedAfter (if b then some over else none)) (sym e) tt

run_worker-Ordered :
    (i : ℕ) (s : Server) → s.worker_state i ≡ starting → Ordered s → Ordered (run_worker i s)
unfolding run_worker
run_worker-Ordered i s e o = set_worker-Ordered i running s (ap is_dead e) o

worker_started_handle-Ordered : (s : Server) → Ordered s → Ordered (worker_started_handle s)
unfolding worker_started_handle
worker_started_handle-Ordered s o = ground (arith, o)

run_ends-Ordered :
    (me : Process) (s : Server)
    → Acts me s
    → breaks_of me s ≡ true
    → Ordered s
    → Ordered (run_ends me s)
unfolding run_ends
run_ends-Ordered master s a b o = ground (arith, o)
run_ends-Ordered manager s a b o = ground (arith, o, a, b)
run_ends-Ordered (worker i) s a b o = o

handle_sigchild-Ordered :
    (b : Bool) (c : ChildState) (s : Server) → Ordered s → Ordered (handle_sigchild b c s)
unfolding handle_sigchild
handle_sigchild-Ordered b c s o =
    ground (arith, o, stop-Ordered true master (record s { manager_state = dead }))

-- Each call keeps the order in which processes end.
pub Step-Ordered : {s s' : Server} → Step s s' → Ordered s → Ordered s'
Step-Ordered {s} (stops ipc me a e) o = subst Ordered (sym e) (stop-Ordered ipc me s o)
Step-Ordered {s} (shuts_down ipc me a e) o =
    OrderedAfter-some _ _ (shutdown-Ordered ipc me _ s refl o) e
Step-Ordered {s} (stops_worker ipc me i e) o =
    subst Ordered (sym e) (stop_worker-Ordered ipc me i s o)
Step-Ordered {s} (master_resumes d e) o =
    subst Ordered (sym e) (master_stop_event-Ordered (master_ready s) (master_ready-Ordered s o))
Step-Ordered {s} (manager_resumes a d e) o =
    OrderedAfter-some _ _ (manager_resumes-Ordered s o a d) e
Step-Ordered {s} (spawns i e) o = OrderedAfter-some _ _ (spawn_worker-Ordered i _ s refl o) e
Step-Ordered {s} (runs i st e) o = subst Ordered (sym e) (run_worker-Ordered i s st o)
Step-Ordered {s} (worker_ends i e) o =
    OrderedAfter-some _ _ (worker_shutdown-Ordered i _ s refl o) e
Step-Ordered {s} (worker_starts e) o = subst Ordered (sym e) (worker_started_handle-Ordered s o)
Step-Ordered {s} (loop_ends me a b e) o = subst Ordered (sym e) (run_ends-Ordered me s a b o)
Step-Ordered {s} (child_changes b c e) o = subst Ordered (sym e) (handle_sigchild-Ordered b c s o)

-- A server whose manager has started, and no worker was started.
pub record Started (s : Server) : Type 0 where
  pub manager_runs : s.manager_state ≡ running
  pub not_delayed : s.manager_delayed ≡ false
  pub not_breaking : s.manager_breaks ≡ false
  pub master_not_breaking : s.master_breaks ≡ false

pub Started-Ordered : (s : Server) → Started s → Ordered s
Started-Ordered s st = ground (arith, st)

-- From a server whose manager has started, in any order of the calls, the loop of the manager ends only when all
-- its workers are dead, and the loop of the master only when the manager is known to be dead.
pub Reach-Ordered : {s t : Server} → Started s → Reach s t → Ordered t
Reach-Ordered {s} st here = Started-Ordered s st
Reach-Ordered st (next r step) = Step-Ordered step (Reach-Ordered st r)
