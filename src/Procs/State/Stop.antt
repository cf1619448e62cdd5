-- ===== src/Procs/State/Stop.antt =====
-- src/shuttlesock.c, src/modules/core/core.c: what holds of the run states in any order of the calls.
use shuttlesock.Base.{
  ℕ, zero, suc, ◌≤◌, ◌<◌, ◌≡◌, ◌⊎◌, inl, inr, refl, ap, ◌∙◌, Bool, true, false, some, List, [], ◌∷◌,
  take, ◌++◌, ◌&&◌, if◌then◌else◌, arith,
}
use shuttlesock.Ipc.Send.{Process, worker, Runstate, dead, stopped, starting, running, stopping}
use shuttlesock.Procs.State.{
  Server, set_worker, join_workers, begin_manager_stop, join_and_stop, manager_stop_event,
  workers_count, is_dead, is_stopped, is_running, is_stopping, ipc_send_workers, sends_to,
  called_workers,
}

-- a worker that a manager that stops waits for
abbrev pub is_over : Runstate → Bool
is_over dead = true
is_over stopped = true
is_over _ = false

-- whether the `n` workers from `i` on are over
abbrev pub all_over : (n i : ℕ) → (ℕ → Runstate) → Bool
all_over zero i w = true
all_over (suc n) i w = is_over (w i) && all_over n (suc i) w

all_over-set :
    (n i k : ℕ) (w : ℕ → Runstate) (st : Runstate)
    → k < i
    → all_over n i (set_worker w k st) ≡ all_over n i w
all_over-set zero i k w st h = refl
all_over-set (suc n) i k w st h = ground (arith, all_over-set n (suc i) k w st)

join_one-over :
    (w : ℕ → Runstate) (i : ℕ) (r : Runstate)
    → w i ≡ r
    → is_dead ((if is_stopped (w i) then set_worker w i dead else w) i) ≡ is_over (w i)
join_one-over w i r e = ground (arith, e)

all_over-join_one :
    (n i : ℕ) (w : ℕ → Runstate)
    → all_over n (suc i) (if is_stopped (w i) then set_worker w i dead else w)
      ≡ all_over n (suc i) w
all_over-join_one n i w = ground (arith, all_over-set n (suc i) i w dead)

join_workers-all_over : (n i : ℕ) (w : ℕ → Runstate) → (join_workers n i w).1 ≡ all_over n i w
unfolding join_workers
join_workers-all_over zero i w = refl
join_workers-all_over (suc n) i w =
    let w' = if is_stopped (w i) then set_worker w i dead else w in
    ap (λ b. is_dead (w' i) && b) (join_workers-all_over n (suc i) w' ∙ all_over-join_one n i w)
    ∙ ap (λ b. b && all_over n (suc i) w) (join_one-over w i (w i) refl)

-- whether the `n` workers from `i` on are dead
abbrev pub all_dead : (n i : ℕ) → (ℕ → Runstate) → Bool
all_dead zero i w = true
all_dead (suc n) i w = is_dead (w i) && all_dead n (suc i) w

pub all_dead-set :
    (n i k : ℕ) (w : ℕ → Runstate) (st : Runstate)
    → is_dead (w k) ≡ false
    → all_dead n i w ≡ true
    → all_dead n i (set_worker w k st) ≡ true
all_dead-set zero i k w st h a = refl
all_dead-set (suc n) i k w st h a = ground (arith, all_dead-set n (suc i) k w st)

-- the loop leaves the workers before it as they are
join_workers-before : (n i k : ℕ) (w : ℕ → Runstate) → k < i → (join_workers n i w).0 k ≡ w k
unfolding join_workers
join_workers-before zero i k w h = refl
join_workers-before (suc n) i k w h =
    join_workers-before n (suc i) k (if is_stopped (w i) then set_worker w i dead else w)
      (omega arith)
    ∙ ground (arith, h)

join_workers-all_dead :
    (n i : ℕ) (w : ℕ → Runstate)
    → all_over n i w ≡ true
    → all_dead n i (join_workers n i w).0 ≡ true
unfolding join_workers
join_workers-all_dead zero i w h = refl
join_workers-all_dead (suc n) i w h =
    let w' = if is_stopped (w i) then set_worker w i dead else w in
    ground (
      arith,
      join_workers-all_dead n (suc i) w',
      all_over-join_one n i w,
      join_one-over w i (w i) refl,
      join_workers-before n (suc i) i w',
    )

-- how far a process is in its life
abbrev pub rank : Runstate → ℕ
rank starting = 1
rank running = 2
rank stopping = 3
rank stopped = 4
rank dead = 5
rank _ = 0

join_workers-rank : (n i k : ℕ) (w : ℕ → Runstate) → rank (w k) ≤ rank ((join_workers n i w).0 k)
unfolding join_workers
join_workers-rank zero i k w = omega arith
join_workers-rank (suc n) i k w =
    let w' = if is_stopped (w i) then set_worker w i dead else w in
    ground (arith, join_workers-rank n (suc i) k w')

-- the workers from `i` on, `n` of them
abbrev pub workers_from : ℕ → ℕ → List ℕ
workers_from zero i = []
workers_from (suc n) i = i ∷ workers_from n (suc i)

-- How many of these numbers are good, from the first on, up to the first that is not
abbrev good_ones : (ℕ → Bool) → List ℕ → ℕ
good_ones good [] = 0
good_ones good (x ∷ xs) = let more = good_ones good xs in if good x then suc more else 0

abbrev pub processes : List ℕ → List Process
processes [] = []
processes (x ∷ xs) = worker x ∷ processes xs

-- Of the `n` workers from `i` on, the first ones that are good, and the next
abbrev pub called_until : (ℕ → Bool) → (n i : ℕ) → List Process
called_until good n i =
    processes (take (suc (good_ones good (workers_from n i))) (workers_from n i))

by_good :
    (good : Bool) (i more : ℕ) (ws : List ℕ) (r : List Process × Bool)
    → r.0 ≡ processes (take (suc more) ws)
    → (if◌then◌else◌ {A = List Process × Bool} good (worker i ∷ r.0, r.1) (worker i ∷ [], false)).0
      ≡ processes (take (suc (if good then suc more else 0)) (i ∷ ws))
by_good true i more ws r e = ap (λ l. worker i ∷ l) e
by_good false i more ws r e = refl

called_workers-called_until :
    (answers : ℕ → Bool) (n i : ℕ) (w : ℕ → Runstate)
    → (ipc_send_workers answers n i w).0 ≡ called_until (sends_to answers w) n i
unfolding ipc_send_workers
called_workers-called_until answers zero i w = refl
called_workers-called_until answers (suc n) i w =
    by_good (sends_to answers w i) i (good_ones (sends_to answers w) (workers_from n (suc i)))
      (workers_from n (suc i)) (ipc_send_workers answers n (suc i) w)
      (called_workers-called_until answers n (suc i) w)

-- What the event "manager.stop" does.
pub record ManagerStops (s s' : Server) : Type 0 where
  pub stops : s'.manager_state ≡ stopping
  pub breaks : s'.manager_breaks ≡ (
      if all_over (workers_count s) s.workers_start s.worker_state then true else s.manager_breaks)
  pub delays : s'.manager_delayed ≡ (
      if all_over (workers_count s) s.workers_start s.worker_state then s.manager_delayed else true)
  pub joined :
      (if all_over (workers_count s) s.workers_start s.worker_state
        then all_dead (workers_count s) s.workers_start s'.worker_state
        else true)
      ≡ true
  pub ordered : s'.sent ≡ (
      if is_running s.manager_state
      then s.sent
        ++ called_until (sends_to s.worker_sends s.worker_state) (workers_count s) s.workers_start
      else s.sent)
  pub later : (k : ℕ) → rank (s.worker_state k) ≤ rank (s'.worker_state k)
  pub same_start : s'.workers_start ≡ s.workers_start
  pub same_end : s'.workers_end ≡ s.workers_end
  pub same_master : s'.master_state ≡ s.master_state
  pub same_master_breaks : s'.master_breaks ≡ s.master_breaks
  pub same_master_delayed : s'.master_delayed ≡ s.master_delayed

-- what the event makes of the state, where the workers are over or are not
abbrev stopped_manager : Bool → Server → Server
stopped_manager over s =
    let w = (join_workers (workers_count s) s.workers_start s.worker_state).0 in
    record s {
      manager_state = stopping;
      sent = if is_running s.manager_state then s.sent ++ called_workers s else s.sent;
      worker_state = w;
      manager_breaks = if over then true else s.manager_breaks;
      manager_delayed = if over then s.manager_delayed else true;
    }

join_and_stop_eq :
    (over : Bool) (s : Server)
    → is_stopping s.manager_state ≡ true
    → (join_workers (workers_count s) s.workers_start s.worker_state).1 ≡ over
    → join_and_stop s
      ≡ some (record s {
        worker_state = (join_workers (workers_count s) s.workers_start s.worker_state).0;
        manager_breaks = if over then true else s.manager_breaks;
        manager_delayed = if over then s.manager_delayed else true;
      })
unfolding join_and_stop
join_and_stop_eq true s r j = ground (arith, r, j)
join_and_stop_eq false s r j = ground (arith, r, j)

begun_eq :
    (s : Server)
    → s.manager_state ≡ running
    → begin_manager_stop s
      ≡ record s { manager_state = stopping; sent = s.sent ++ called_workers s }
begun_eq s r = ground (arith, r)

begun_before : (s : Server) → s.manager_state ≡ stopping → begin_manager_stop s ≡ s
begun_before s r = ground (arith, r)

ordered_eq :
    (over : Bool) (s : Server)
    → s.manager_state ≡ running
    → some (record (stopped_manager over s) { sent = s.sent ++ called_workers s })
      ≡ some (stopped_manager over s)
ordered_eq over s r = ground (arith, r)

stopped_before :
    (over : Bool) (s : Server)
    → s.manager_state ≡ stopping
    → some (record (stopped_manager over s) { manager_state = s.manager_state; sent = s.sent })
      ≡ some (stopped_manager over s)
stopped_before over s r = ground (arith, r)

manager_stop_event_eq :
    (over : Bool) (s : Server)
    → (s.manager_state ≡ running) ⊎ (s.manager_state ≡ stopping)
    → (join_workers (workers_count s) s.workers_start s.worker_state).1 ≡ over
    → manager_stop_event s ≡ some (stopped_manager over s)
unfolding manager_stop_event
manager_stop_event_eq over s (inl r) j =
    let begun = record s { manager_state = stopping; sent = s.sent ++ called_workers s } in
    ap join_and_stop (begun_eq s r) ∙ join_and_stop_eq over begun refl j ∙ ordered_eq over s r
manager_stop_event_eq over s (inr r) j =
    ap join_and_stop (begun_before s r)
    ∙ join_and_stop_eq over s (ap is_stopping r) j
    ∙ stopped_before over s r

joined_dead :
    (over : Bool) (n i : ℕ) (w : ℕ → Runstate)
    → all_over n i w ≡ over
    → (if over then all_dead n i (join_workers n i w).0 else true) ≡ true
joined_dead true n i w e = join_workers-all_dead n i w e
joined_dead false n i w e = refl

stopped_manager-Stops :
    (s : Server)
    → ManagerStops s (stopped_manager (all_over (workers_count s) s.workers_start s.worker_state) s)
stopped_manager-Stops s = record {
  stops = refl;
  breaks = refl;
  delays = refl;
  joined = joined_dead _ (workers_count s) s.workers_start s.worker_state refl;
  ordered =
      ap (λ l. if is_running s.manager_state then s.sent ++ l else s.sent)
        (called_workers-called_until s.worker_sends (workers_count s) s.workers_start
          s.worker_state);
  later = λ k. join_workers-rank (workers_count s) s.workers_start k s.worker_state;
  same_start = refl;
  same_end = refl;
  same_master = refl;
  same_master_breaks = refl;
  same_master_delayed = refl;
}

-- In a manager that runs or stops, no assertion of the event "manager.stop" fails. The manager is then
-- stopping. If it ran, the send of a SHUTDOWN is called for the workers in order, up to and with the first
-- that is not up or whose send fails, and for none behind it. If all workers have stopped or are dead,
-- they are dead afterwards, and the loop ends; if not, the event is delayed.
pub manager_stop_event-Stops :
    (s : Server)
    → (s.manager_state ≡ running) ⊎ (s.manager_state ≡ stopping)
    → (s' : Server) × (manager_stop_event s ≡ some s') × ManagerStops s s'
manager_stop_event-Stops s r = (
  stopped_manager (all_over (workers_count s) s.workers_start s.worker_state) s,
  manager_stop_event_eq _ s r
      (join_workers-all_over (workers_count s) s.workers_start s.worker_state),
  stopped_manager-Stops s,
)
