-- ===== src/Modules/Tests.antt =====
-- Modules at concrete inputs: a module without functions, one that can be initialised, and one that
-- sets an error.
use shuttlesock.Base.{◌≡◌, refl, true, false, Option, none, some, List, [], ◌∷◌, if◌then◌else◌}
use shuttlesock.Modules.{
  Outcome, Module, State, freeze, initialize, worker_initialize_modules, master_initialize_modules,
}
use shuttlesock.Modules.Loops.{all_well, calls_until, initialized_for_worker}
use shuttlesock.Modules.Order.{
  Restored, initializes_worker, master_calls, master_well, master_initialize_modules-Restored,
}
use shuttlesock.Modules.Worker.{last_place, worker_initialize_modules-Restored}

abbrev module_with : Option Outcome → Module
module_with o = record { initialize = o; initialize_worker = o; freezes = true; finalizes = true }

abbrev three_modules : List Module
three_modules =
    module_with none
    ∷ module_with (some (record { ok = true; errors = 0 }))
    ∷ module_with (some (record { ok = true; errors = 2 }))
    ∷ []

abbrev before : State
before = record { active = some 7; error_count = 4; calls = [] }

-- The module that sets errors is the last that is called, and the error of the failure is counted.
master_fails : master_initialize_modules true three_modules before ≡ (
  false,
  record {
    active = some 7;
    error_count = 7;
    calls = freeze 0 ∷ freeze 1 ∷ freeze 2 ∷ initialize 1 ∷ initialize 2 ∷ [];
  },
)
unfolding master_initialize_modules
master_fails = refl

master_initialize_modules-Restored_example :
    Restored
      (master_well true three_modules)
      (master_calls true three_modules)
      before.active
      before
      (master_initialize_modules true three_modules before)
master_initialize_modules-Restored_example =
    master_initialize_modules-Restored true three_modules before

worker_initialize_modules-Restored_example :
    Restored
      (all_well initializes_worker three_modules)
      (calls_until initializes_worker initialized_for_worker three_modules 0)
      (if all_well initializes_worker three_modules
        then last_place three_modules 0 before.active
        else before.active)
      before
      (worker_initialize_modules three_modules before)
worker_initialize_modules-Restored_example = worker_initialize_modules-Restored three_modules before
