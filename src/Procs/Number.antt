-- ===== src/Procs/Number.antt =====
-- src/shuttlesock.c, src/log.c: the numbers of processes. `shuso_common_t` holds the master, the manager
-- and `SHUTTLESOCK_MAX_WORKERS` workers in a row; a `shuso_process_t *` is its place in that row, 0
-- being the master's. The number of workers is 256, as src/CMakeLists.txt sets it.
mod Tests
use Prim.Native.String.{String}
use shuttlesock.Base.{
  ℕ, ◌+◌, ◌-◌, ◌<◌, ◌≤◌, Bool, true, false, Option, none, some, not, ◌&&◌, ◌||◌, ◌≡◌, ◌⊎◌, ltb, leb,
  ◌==◌, if◌then◌else◌, arith, ℤ, pos, negsuc, ltz, eqz,
}

-- SHUTTLESOCK_MASTER, SHUTTLESOCK_MANAGER, SHUTTLESOCK_NOPROCESS, SHUTTLESOCK_UNKNOWN_PROCESS
abbrev pub master_num : ℤ
master_num = negsuc 1

abbrev pub manager_num : ℤ
manager_num = negsuc 0

abbrev pub noprocess : ℤ
noprocess = negsuc 2

abbrev pub unknown_process : ℤ
unknown_process = negsuc 403

-- SHUTTLESOCK_MAX_WORKERS
abbrev pub max_workers : ℕ
max_workers = 256

-- `shuso_process_as_string`
pub process_as_string : ℤ → String
process_as_string n =
    if eqz n unknown_process
    then "unknown"
    else if eqz n noprocess
    then "no_process"
    else if eqz n master_num
    then "master"
    else if eqz n manager_num
    then "manager"
    else if not (ltz n (pos 0))
    then "worker"
    else "???"

-- `shuso_is_master`, `shuso_is_manager`, `shuso_is_worker`
pub is_master_num : ℤ → Bool
is_master_num n = eqz n master_num

pub is_manager_num : ℤ → Bool
is_manager_num n = eqz n manager_num

pub is_worker_num : ℤ → Bool
is_worker_num n = not (ltz n (pos 0))

-- `shuso_processes_share_heap`
pub share_heap : ℤ → ℤ → Bool
share_heap a b =
    if (eqz a master_num && not (eqz b master_num)) || (eqz b master_num && not (eqz a master_num))
    then false
    else true

-- `shuso_procnum_valid`, with the numbers that the running workers have
pub procnum_valid : (workers_start workers_end : ℕ) → ℤ → Bool
procnum_valid start end n =
    if ltz n master_num
    then false
    else if not (ltz n (pos 0)) && (ltz n (pos start) || not (ltz n (pos end)))
    then false
    else true

-- &worker[n], for n from -2 on
abbrev pub place : ℤ → ℕ
place (pos n) = n + 2
place (negsuc n) = 1 - n

-- `shuso_process`, `none` being NULL
pub process : ℤ → Option ℕ
process n = if ltz n master_num || ltz (pos max_workers) n then none else some (place n)

-- `shuso_process_to_procnum`
pub process_to_procnum : ℕ → ℤ
process_to_procnum proc =
    if proc == 0
    then master_num
    else if proc == 1
    then master_num
    else if leb 2 proc && ltb proc (2 + max_workers)
    then pos (proc - 2)
    else noprocess

-- What the number of a process names is read back as that number, but for two numbers: that of
-- the manager comes back as the master's, and 256, which is past the last worker and yet names a
-- place, as no process.
pub process_to_procnum-process :
    (n : ℤ) (p : ℕ)
    → process n ≡ some p
    → (process_to_procnum p ≡ n)
      ⊎ ((n ≡ manager_num) × (process_to_procnum p ≡ master_num))
      ⊎ ((n ≡ pos max_workers) × (process_to_procnum p ≡ noprocess))
unfolding process process_to_procnum
process_to_procnum-process (pos n) p h = ground arith
process_to_procnum-process (negsuc n) p h = ground arith

-- A number that is valid, where no more than 256 workers run, names a place in the row of processes,
-- and that place is a worker's just if the number says so.
pub process-valid :
    (start end : ℕ) (n : ℤ)
    → end ≤ max_workers
    → procnum_valid start end n ≡ true
    → (p : ℕ) × (process n ≡ some p) × (p < 2 + max_workers) × (leb 2 p ≡ is_worker_num n)
unfolding procnum_valid process is_worker_num
process-valid start end (pos n) h v = (n + 2, ground arith, ground arith, ground arith)
process-valid start end (negsuc n) h v = (1 - n, ground arith, ground arith, ground arith)

-- Two processes share a heap just if both are the master, or neither is.
pub share_heap_lem :
    (a b : ℤ)
    → share_heap a b
      ≡ (is_master_num a && is_master_num b || not (is_master_num a) && not (is_master_num b))
unfolding share_heap is_master_num
share_heap_lem a b = ground arith
