-- ===== src/Procs/State/Life.antt =====
-- src/shuttlesock.c, src/modules/core/core.c, src/ipc_commands.c: the order of a process's run states.
use shuttlesock.Base.{
  ℕ, ◌≤◌, ◌≡◌, ◌⊎◌, inl, inr, refl, sym, ap, subst, ◌∙◌, Bool, true, false, Option, none, some,
  if◌then◌else◌, arith,
}
use shuttlesock.Ipc.Send.{
  Process, master, manager, worker, Runstate, dead, stopped, starting, running, stopping,
}
use shuttlesock.Procs.State.{
  Server, state_of, set_worker, manager_stop_event, stop_manager, master_stop_event, stop,
  stop_worker, shutdown, shutdown_at, worker_shutdown, spawn_worker, run_worker,
  worker_started_handle, run_ends, ChildState, handle_sigchild, is_dead, is_nil, is_running,
  is_stopping, joins_all, published, server_of,
}
use shuttlesock.Procs.State.Stop.{ManagerStops, manager_stop_event-Stops, rank}
use shuttlesock.Procs.State.Steps.{
  Acts, Step, stops, shuts_down, stops_worker, master_resumes, manager_resumes, spawns, runs,
  worker_ends, worker_starts, loop_ends, child_changes, Reach, Ordered,
}
use shuttlesock.Procs.State.Keep.{
  manager_ready, running_of, stopping_of, server_of-published, Started, Reach-Ordered,
}

-- No process goes back in its life.
abbrev pub Later : Server → Server → Type 0
Later s s' = (p : Process) → rank (state_of p s) ≤ rank (state_of p s')

Later-refl : (s : Server) → Later s s
Later-refl s p = omega arith

set_worker-Later :
    (i : ℕ) (st : Runstate) (s : Server)
    → rank (s.worker_state i) ≤ rank st
    → Later s (record s { worker_state = set_worker s.worker_state i st })
set_worker-Later i st s h master = omega arith
set_worker-Later i st s h manager = omega arith
set_worker-Later i st s h (worker k) = ground (arith, h)

master_stop_event-Later : (s : Server) → Later s (master_stop_event s)
unfolding master_stop_event
master_stop_event-Later s master = ground arith
master_stop_event-Later s manager = ground arith
master_stop_event-Later s (worker k) = ground arith

stop-Later : (ipc : Bool) (me : Process) (s : Server) → Later s (stop ipc me s).1
unfolding stop
stop-Later ipc me s p = ground (arith, master_stop_event-Later s p)

stop_worker-Later : (ipc : Bool) (me i : ℕ) (s : Server) → Later s (stop_worker ipc me i s).1
unfolding stop_worker
stop_worker-Later ipc me i s p = ground (arith, set_worker-Later i stopping s)

event-Later :
    (s s' : Server)
    → (s.manager_state ≡ running) ⊎ (s.manager_state ≡ stopping)
    → ManagerStops s s'
    → Later s s'
event-Later s s' r m master = ground (arith, m)
event-Later s s' r m manager = ground (arith, m, r)
event-Later s s' r m (worker k) = m.later k

abbrev LaterAfter : Server → Option Server → Type 0
LaterAfter s none = Unit
LaterAfter s (some s') = Later s s'

LaterAfter-some :
    (s : Server) (o : Option Server) (s' : Server) → LaterAfter s o → o ≡ some s' → Later s s'
LaterAfter-some s o s' h e = subst (LaterAfter s) e h

manager_stop_event-Later :
    (s : Server)
    → (s.manager_state ≡ running) ⊎ (s.manager_state ≡ stopping)
    → LaterAfter s (manager_stop_event s)
manager_stop_event-Later s r = of_stops (manager_stop_event-Stops s r)
  where
    of_stops :
        (s' : Server) × (manager_stop_event s ≡ some s') × ManagerStops s s'
        → LaterAfter s (manager_stop_event s)
    of_stops (s', e, m) = subst (LaterAfter s) (sym e) (event-Later s s' r m)

stop_manager-Later :
    (ipc : Bool) (b : Bool) (s : Server)
    → is_running s.manager_state ≡ b
    → LaterAfter s (server_of (stop_manager ipc manager s))
unfolding stop_manager
stop_manager-Later ipc true s e =
    subst (LaterAfter s)
      (sym (
        ap
          (λ b.
            server_of
              (if b then published (joins_all s) (manager_stop_event s) else some (false, s)))
          e
        ∙ server_of-published (joins_all s) (manager_stop_event s)))
      (manager_stop_event-Later s (inl (running_of s.manager_state e)))
stop_manager-Later ipc false s e =
    subst (LaterAfter s)
      (sym (
        ap
          (λ b.
            server_of
              (if b then published (joins_all s) (manager_stop_event s) else some (false, s)))
          e))
      (Later-refl s)

shutdown_at-Later : (ipc : Bool) (me : Process) (s : Server) → LaterAfter s (shutdown_at ipc me s)
unfolding shutdown_at
shutdown_at-Later ipc master s = stop-Later ipc master s
shutdown_at-Later ipc manager s = stop_manager-Later ipc _ s refl
shutdown_at-Later ipc (worker i) s = stop_worker-Later ipc i i s

shutdown-Later :
    (ipc : Bool) (me : Process) (b : Bool) (s : Server)
    → is_stopping (state_of me s) ≡ b
    → LaterAfter s (shutdown ipc me s)
unfolding shutdown
shutdown-Later ipc me true s e =
    subst (λ b. LaterAfter s (if b then some s else shutdown_at ipc me s)) (sym e) (Later-refl s)
shutdown-Later ipc me false s e =
    subst (λ b. LaterAfter s (if b then some s else shutdown_at ipc me s)) (sym e)
      (shutdown_at-Later ipc me s)

spawn_worker-Later :
    (i : ℕ) (b : Bool) (s : Server)
    → is_nil (s.worker_state i) ≡ b
    → LaterAfter s (spawn_worker i s)
unfolding spawn_worker
spawn_worker-Later i true s e =
    let started = record s { worker_state = set_worker s.worker_state i starting } in
    subst (λ b. LaterAfter s (if b then some started else none)) (sym e)
      (set_worker-Later i starting s (ground (arith, e)))
spawn_worker-Later i false s e =
    let started = record s { worker_state = set_worker s.worker_state i starting } in
    subst (λ b. LaterAfter s (if b then some started else none)) (sym e) tt

worker_shutdown-Later :
    (i : ℕ) (b : Bool) (s : Server)
    → is_stopping (s.worker_state i) ≡ b
    → LaterAfter s (worker_shutdown i s)
unfolding worker_shutdown
worker_shutdown-Later i true s e =
    let over = record s { worker_state = set_worker s.worker_state i stopped } in
    subst (λ b. LaterAfter s (if b then some over else none)) (sym e)
      (set_worker-Later i stopped s (ground (arith, e)))
worker_shutdown-Later i false s e =
    let over = record s { worker_state = set_worker s.worker_state i stopped } in
    subst (λ b. LaterAfter s (if b then some over else none)) (sym e) tt

run_worker-Later : (i : ℕ) (s : Server) → s.worker_state i ≡ starting → Later s (run_worker i s)
unfolding run_worker
run_worker-Later i s e = set_worker-Later i running s (ground (arith, e))

worker_started_handle-Later : (s : Server) → Later s (worker_started_handle s)
unfolding worker_started_handle
worker_started_handle-Later s master = ground arith
worker_started_handle-Later s manager = ground arith
worker_started_handle-Later s (worker k) = ground arith

run_ends-Later : (me : Process) (s : Server) → Acts me s → Later s (run_ends me s)
unfolding run_ends
run_ends-Later master s a master = ground (arith, a)
run_ends-Later master s a manager = omega arith
run_ends-Later master s a (worker k) = omega arith
run_ends-Later manager s a master = omega arith
run_ends-Later manager s a manager = ground (arith, a)
run_ends-Later manager s a (worker k) = omega arith
run_ends-Later (worker i) s a p = omega arith

manager_dies : (s : Server) → Later s (record s { manager_state = dead })
manager_dies s master = omega arith
manager_dies s manager = ground arith
manager_dies s (worker k) = omega arith

handle_sigchild-Later : (b : Bool) (c : ChildState) (s : Server) → Later s (handle_sigchild b c s)
unfolding handle_sigchild
handle_sigchild-Later b c s p =
    ground (arith, manager_dies s p, stop-Later true master (record s { manager_state = dead }) p)

after_master_ready : (s t : Server) → Later (record s { master_delayed = false }) t → Later s t
after_master_ready s t h master = h master
after_master_ready s t h manager = h manager
after_master_ready s t h (worker k) = h (worker k)

after_manager_ready : (s t : Server) → Later (manager_ready s) t → Later s t
after_manager_ready s t h master = h master
after_manager_ready s t h manager = h manager
after_manager_ready s t h (worker k) = h (worker k)

-- No call sets a process back: each process goes from nil to starting, running, stopping, stopped and dead,
-- and may skip some of these.
pub Step-Later :
    {s s' : Server}
    → Ordered s
    → Step s s'
    → (p : Process) → rank (state_of p s) ≤ rank (state_of p s')
Step-Later {s} o (stops ipc me a e) = subst (Later s) (sym e) (stop-Later ipc me s)
Step-Later {s} o (shuts_down ipc me a e) = LaterAfter-some s _ _ (shutdown-Later ipc me _ s refl) e
Step-Later {s} o (stops_worker ipc me i e) = subst (Later s) (sym e) (stop_worker-Later ipc me i s)
Step-Later {s} o (master_resumes d e) =
    subst (Later s) (sym e)
      (after_master_ready s _ (master_stop_event-Later (record s { master_delayed = false })))
Step-Later {s} o (manager_resumes a d e) = after_manager_ready s _ (
    LaterAfter-some (manager_ready s) _ _
      (manager_stop_event-Later (manager_ready s)
        (inr (stopping_of s.manager_state (ground (arith, o, a, d)))))
      e)
Step-Later {s} o (spawns i e) = LaterAfter-some s _ _ (spawn_worker-Later i _ s refl) e
Step-Later {s} o (runs i st e) = subst (Later s) (sym e) (run_worker-Later i s st)
Step-Later {s} o (worker_ends i e) = LaterAfter-some s _ _ (worker_shutdown-Later i _ s refl) e
Step-Later {s} o (worker_starts e) = subst (Later s) (sym e) (worker_started_handle-Later s)
Step-Later {s} o (loop_ends me a b e) = subst (Later s) (sym e) (run_ends-Later me s a)
Step-Later {s} o (child_changes b c e) = subst (Later s) (sym e) (handle_sigchild-Later b c s)

-- From a server whose manager has started, in any order of the calls, the manager's assertion that it is stopping
-- does not fail when a delayed "manager.stop" is resumed.
pub resumed-ManagerStops :
    {s t : Server}
    → Started s
    → Reach s t
    → is_dead t.manager_state ≡ false
    → t.manager_delayed ≡ true
    → (t' : Server) × (manager_stop_event (manager_ready t) ≡ some t')
      × ManagerStops (manager_ready t) t'
resumed-ManagerStops {t = t} st r a d =
    let o = Reach-Ordered st r in
    manager_stop_event-Stops (manager_ready t)
      (inr (stopping_of t.manager_state (ground (arith, o, a, d))))
