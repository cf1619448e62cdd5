-- ===== src/Procs/Number/Tests.antt =====
-- Numbers of processes at concrete inputs.
use shuttlesock.Base.{ℕ, ◌+◌, ◌<◌, ◌≡◌, ◌⊎◌, refl, true, some, leb, arith, pos}
use shuttlesock.Procs.Number.{
  process, process_to_procnum, procnum_valid, is_worker_num, max_workers, master_num, manager_num,
  noprocess, process_to_procnum-process, process-valid,
}

manager_place : process manager_num ≡ some 1
unfolding process
manager_place = refl

-- The manager's number is read back as the master's.
manager_number : process_to_procnum 1 ≡ master_num
unfolding process_to_procnum
manager_number = refl

third_worker : process (pos 2) ≡ some 4
unfolding process
third_worker = refl

process_to_procnum-process_example :
    (process_to_procnum 4 ≡ pos 2)
    ⊎ ((pos 2 ≡ manager_num) × (process_to_procnum 4 ≡ master_num))
    ⊎ ((pos 2 ≡ pos max_workers) × (process_to_procnum 4 ≡ noprocess))
process_to_procnum-process_example = process_to_procnum-process (pos 2) 4 third_worker

third_valid : procnum_valid 0 4 (pos 2) ≡ true
unfolding procnum_valid
third_valid = refl

third_has_place :
    (p : ℕ) × (process (pos 2) ≡ some p) × (p < 2 + max_workers) × (leb 2 p ≡ is_worker_num (pos 2))
third_has_place = process-valid 0 4 (pos 2) (omega arith) third_valid
