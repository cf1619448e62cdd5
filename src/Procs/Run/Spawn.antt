-- ===== src/Procs/Run/Spawn.antt =====
-- src/shuttlesock.c: the workers are initialised and then started, one after another.
use shuttlesock.Base.{
  ℕ, suc, ◌+◌, ◌-◌, ◌≤◌, ◌≡◌, refl, ap, ◌∙◌, Bool, true, false, Option, none, some, List, [], ◌∷◌,
  ◌==◌, ◌&&◌, if◌then◌else◌, length, arith,
}

-- The state of a worker that was initialised, with its number, or NULL.
abbrev pub WorkerState : Type 0
WorkerState = Option ℕ

-- `shuso_initialize_workers`: an array with a state for each worker from `start` on, given whether
-- each is initialised; the array itself is there.
unfoldable pub initialize_workers : (start : ℕ) → List Bool → List WorkerState
initialize_workers start [] = []
initialize_workers start (ok ∷ oks) =
    (if ok then some start else none) ∷ initialize_workers (suc start) oks

-- A worker that is started, with its number.
abbrev or_failed : (ok : Bool) → ℕ → ℕ × List ℕ → ℕ × List ℕ
or_failed true w (failed, ws) = (failed, w ∷ ws)
or_failed false w (failed, ws) = (suc failed, ws)

-- the loop of `shuso_spawn_workers`: how many fail, and the workers that are started, given whether each
-- thread is
unfoldable pub spawn_from : List WorkerState → List Bool → ℕ × List ℕ
spawn_from [] oks = (0, [])
spawn_from (none ∷ ws) [] = spawn_from ws []
spawn_from (none ∷ ws) (ok ∷ oks) = spawn_from ws oks
spawn_from (some w ∷ ws) [] = spawn_from ws []
spawn_from (some w ∷ ws) (ok ∷ oks) = or_failed ok w (spawn_from ws oks)

-- `shuso_spawn_workers`: what it returns, `workers_end`, and the workers that are started
unfoldable pub spawn_workers : (workers_end : ℕ) → List WorkerState → List Bool → Bool × ℕ × List ℕ
unfolding spawn_from
spawn_workers workers_end ws oks =
    let (failed, started) = spawn_from ws oks in (failed == 0, workers_end - failed, started)

abbrev pub count_true : List Bool → ℕ
count_true [] = 0
count_true (true ∷ bs) = suc (count_true bs)
count_true (false ∷ bs) = count_true bs

-- each worker is initialised and its thread is started
abbrev pub both : List Bool → List Bool → List Bool
both [] bs = []
both (a ∷ as') [] = false ∷ both as' []
both (a ∷ as') (b ∷ bs) = (a && b) ∷ both as' bs

-- the numbers from `i` on that are marked
abbrev pub marked : (i : ℕ) → List Bool → List ℕ
marked i [] = []
marked i (true ∷ bs) = i ∷ marked (suc i) bs
marked i (false ∷ bs) = marked (suc i) bs

pub started-marked :
    (start : ℕ) (inits spawns : List Bool)
    → length inits ≡ length spawns
    → (spawn_from (initialize_workers start inits) spawns).1 ≡ marked start (both inits spawns)
unfolding initialize_workers spawn_from
started-marked start [] spawns h = refl
started-marked start (i ∷ inits) [] h = absurd (omega arith)
started-marked start (true ∷ inits) (true ∷ spawns) h =
    ap (λ l. start ∷ l) (started-marked (suc start) inits spawns (omega arith))
started-marked start (true ∷ inits) (false ∷ spawns) h =
    started-marked (suc start) inits spawns (omega arith)
started-marked start (false ∷ inits) (s ∷ spawns) h =
    started-marked (suc start) inits spawns (omega arith)

-- workers that are initialised and whose thread is not started
pub failed-count :
    (start : ℕ) (inits spawns : List Bool)
    → length inits ≡ length spawns
    → (spawn_from (initialize_workers start inits) spawns).0 + count_true (both inits spawns)
      ≡ count_true inits
unfolding initialize_workers spawn_from
failed-count start [] spawns h = refl
failed-count start (i ∷ inits) [] h = absurd (omega arith)
failed-count start (true ∷ inits) (true ∷ spawns) h =
    omega (arith, failed-count (suc start) inits spawns)
failed-count start (true ∷ inits) (false ∷ spawns) h =
    omega (arith, failed-count (suc start) inits spawns)
failed-count start (false ∷ inits) (s ∷ spawns) h =
    omega (arith, failed-count (suc start) inits spawns)

length-marked : (i : ℕ) (bs : List Bool) → length (marked i bs) ≡ count_true bs
length-marked i [] = refl
length-marked i (true ∷ bs) = ap suc (length-marked (suc i) bs)
length-marked i (false ∷ bs) = length-marked (suc i) bs

count_true-le : (bs : List Bool) → count_true bs ≤ length bs
count_true-le [] = omega arith
count_true-le (true ∷ bs) = omega (arith, count_true-le bs)
count_true-le (false ∷ bs) = omega (arith, count_true-le bs)

-- The workers that are started are those that were initialised and whose thread could be started. The
-- range of workers shrinks, at its end, by as many as were initialised and not started, wherever these
-- stand in it, and by none for those that were not initialised; the success that is returned does not tell of
-- these either.
pub spawn_workers-Starts :
    (start : ℕ) (inits spawns : List Bool)
    → length inits ≡ length spawns
    → let (ok, workers_end, started) =
        spawn_workers (start + length inits) (initialize_workers start inits) spawns in
      (started ≡ marked start (both inits spawns))
      × (workers_end + count_true inits ≡ start + length inits + length started)
      × (ok ≡ (count_true inits == length started))
unfolding spawn_workers
spawn_workers-Starts start inits spawns h =
    let s = started-marked start inits spawns h in
    let f = failed-count start inits spawns h in
    let l = ap length s ∙ length-marked start (both inits spawns) in
    let c = count_true-le inits in (s, omega (arith, f, l, c), ground (arith, f, l))
