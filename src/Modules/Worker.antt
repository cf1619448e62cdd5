-- ===== src/Modules/Worker.antt =====
-- The initialisation of the modules for a worker.
use shuttlesock.Base.{
  ℕ, suc, ◌≡◌, refl, ap, subst, ◌∙◌, Bool, true, false, Option, none, some, List, [], ◌∷◌, ltb, not,
  ◌||◌, if◌then◌else◌,
}
use shuttlesock.Modules.{
  Outcome, Module, Call, State, each_module, worker_step, restore, worker_initialize_modules,
  initialize_for_worker, set_error, after_call, activate, call, add_errors, initialize_worker,
}
use shuttlesock.Modules.Loops.{
  Stepped, all_well, calls_until, each_module-Stepped, initialized_for_worker,
  initialize_for_worker-Stepped,
}
use shuttlesock.Modules.Order.{initializes_worker, Restored}

-- The place of the last module, `before` if there is none
abbrev pub last_place : List Module → ℕ → Option ℕ → Option ℕ
last_place [] i before = before
last_place (m ∷ ms) i before = last_place ms (suc i) (some i)

worker_step-Stepped :
    (m : Module) (i : ℕ) (s : State)
    → Stepped (initializes_worker m) (initialized_for_worker m i) s (worker_step m i s)
worker_step-Stepped m i s =
    let p = initialize_for_worker-Stepped m.initialize_worker i (activate i s) in
    record { decides = p.decides; calls = p.calls }

after_call-active : (n : ℕ) (ok : Bool) (t : State) → (after_call n ok t).1.active ≡ t.active
after_call-active n ok t = either (not ok || ltb n t.error_count)
  where
    either : (b : Bool) → (if b then set_error t else (true, t)).1.active ≡ t.active
    either true = refl
    either false = refl

worker_step-active :
    (o : Option Outcome) (i : ℕ) (s : State)
    → (initialize_for_worker o i (activate i s)).1.active ≡ some i
worker_step-active none i s = refl
worker_step-active (some o) i s =
    after_call-active s.error_count o.ok
      (add_errors o.errors (call (initialize_worker i) (activate i s)))

-- A loop that is not stopped ends with the last module active.
abbrev ActiveAfter : List Module → ℕ → State → Bool × State → Type 0
ActiveAfter ms i s (true, t) = t.active ≡ last_place ms i s.active
ActiveAfter ms i s (false, t) = Unit

each_module-ActiveAfter :
    (ms : List Module) (i : ℕ) (s : State) → ActiveAfter ms i s (each_module worker_step ms i s)
each_module-ActiveAfter [] i s = refl
each_module-ActiveAfter (m ∷ ms) i s =
    through (worker_step m i s) (each_module worker_step ms (suc i) (worker_step m i s).1)
      (worker_step-active m.initialize_worker i s)
      (each_module-ActiveAfter ms (suc i) (worker_step m i s).1)
  where
    through :
        (r r' : Bool × State)
        → r.1.active ≡ some i
        → ActiveAfter ms (suc i) r.1 r'
        → ActiveAfter (m ∷ ms) i s (if r.0 then r' else (false, r.1))
    through (true, t) (true, u) e a = a ∙ ap (last_place ms (suc i)) e
    through (true, t) (false, u) e a = tt
    through (false, t) r' e a = tt

abbrev worker_end : Option ℕ → Bool × State → Bool × State
worker_end prev (ok, s) = if not ok then (false, restore prev s) else (true, s)

worker_end-Restored :
    (good : Bool) (cs : List Call) (ms : List Module) (s : State) (r : Bool × State)
    → Stepped good cs s r
    → ActiveAfter ms 0 s r
    → Restored good cs
        (if good then last_place ms 0 s.active else s.active)
        s
        (worker_end s.active r)
worker_end-Restored good cs ms s (true, t) p a =
    subst (λ g. Restored g cs (if g then last_place ms 0 s.active else s.active) s (true, t))
      p.decides (record { decides = refl; calls = p.calls; active = a })
worker_end-Restored good cs ms s (false, t) p a =
    subst
      (λ g.
        Restored g cs (if g then last_place ms 0 s.active else s.active) s
          (false, restore s.active t))
      p.decides (record { decides = refl; calls = p.calls; active = refl })

-- For a worker the modules that have an `initialize_worker` are called in their order, up to the first
-- that returns false or sets an error, and true is returned exactly if there is none. After
-- a failure the active module is as it was before; after a success it stays the last module.
pub worker_initialize_modules-Restored :
    (ms : List Module) (s : State)
    → Restored
        (all_well initializes_worker ms)
        (calls_until initializes_worker initialized_for_worker ms 0)
        (if all_well initializes_worker ms then last_place ms 0 s.active else s.active)
        s
        (worker_initialize_modules ms s)
unfolding worker_initialize_modules
worker_initialize_modules-Restored ms s =
    worker_end-Restored (all_well initializes_worker ms)
      (calls_until initializes_worker initialized_for_worker ms 0) ms s
      (each_module worker_step ms 0 s)
      (each_module-Stepped worker_step initializes_worker initialized_for_worker worker_step-Stepped
        ms 0 s)
      (each_module-ActiveAfter ms 0 s)
