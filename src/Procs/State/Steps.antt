-- ===== src/Procs/State/Steps.antt =====
-- src/shuttlesock.c, src/modules/core/core.c, src/ipc_commands.c: the calls that change run states as steps, and
-- what holds after any sequence of them.
use shuttlesock.Base.{ℕ, ◌≡◌, Bool, true, false, some, not, ◌&&◌, ◌||◌}
use shuttlesock.Ipc.Send.{Process, master, manager, worker, starting}
use shuttlesock.Procs.State.{
  Server, state_of, manager_stop_event, master_stop_event, stop, stop_worker, shutdown,
  worker_shutdown, spawn_worker, run_worker, worker_started_handle, run_ends, ChildState,
  handle_sigchild, workers_count, is_dead, is_running, is_stopping,
}
use shuttlesock.Procs.State.Stop.{all_dead}

-- The process still takes steps: it does until its end is known.
abbrev pub Acts : Process → Server → Type 0
Acts p s = is_dead (state_of p s) ≡ false

abbrev pub breaks_of : Process → Server → Bool
breaks_of master s = s.master_breaks
breaks_of manager s = s.manager_breaks
breaks_of (worker i) s = false

-- A step is one call: of a process that stops another or itself, of the timers of a delayed event, of the manager for
-- its workers, or of the master when a child changes its state.
pub data Step (s s' : Server) : Type 0 where
  stops : (ipc : Bool) (me : Process) → Acts me s → s' ≡ (stop ipc me s).1 → Step s s'
  shuts_down : (ipc : Bool) (me : Process) → Acts me s → shutdown ipc me s ≡ some s' → Step s s'
  stops_worker : (ipc : Bool) (me i : ℕ) → s' ≡ (stop_worker ipc me i s).1 → Step s s'
  master_resumes :
      s.master_delayed ≡ true
      → s' ≡ master_stop_event (record s { master_delayed = false })
      → Step s s'
  manager_resumes :
      Acts manager s
      → s.manager_delayed ≡ true
      → manager_stop_event (record s { manager_delayed = false }) ≡ some s'
      → Step s s'
  spawns : (i : ℕ) → spawn_worker i s ≡ some s' → Step s s'
  runs : (i : ℕ) → s.worker_state i ≡ starting → s' ≡ run_worker i s → Step s s'
  worker_ends : (i : ℕ) → worker_shutdown i s ≡ some s' → Step s s'
  worker_starts : s' ≡ worker_started_handle s → Step s s'
  loop_ends : (me : Process) → Acts me s → breaks_of me s ≡ true → s' ≡ run_ends me s → Step s s'
  child_changes : (b : Bool) (c : ChildState) → s' ≡ handle_sigchild b c s → Step s s'

pub data Reach (s : Server) : Server → Type 0 where
  here : Reach s s
  next : {t u : Server} → Reach s t → Step t u → Reach s u

-- What is kept: a loop ends only for a reason.
pub record Ordered (s : Server) : Type 0 where
  pub workers_dead :
      (not s.manager_breaks || all_dead (workers_count s) s.workers_start s.worker_state) ≡ true
  pub manager_dead : (not s.master_breaks || is_dead s.manager_state) ≡ true
  pub one_stop : (s.manager_delayed && s.manager_breaks) ≡ false
  pub delayed :
      (not s.manager_delayed || is_stopping s.manager_state || is_dead s.manager_state) ≡ true
  pub fresh :
      (not (is_running s.manager_state) || not s.manager_delayed && not s.manager_breaks) ≡ true
