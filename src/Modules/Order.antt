-- ===== src/Modules/Order.antt =====
-- The order of the calls for the modules, and the active module.
use shuttlesock.Base.{
  ℕ, suc, ◌≡◌, refl, sym, ap, subst, ◌∙◌, Bool, true, false, Option, List, [], ◌∷◌, ◌++◌, not, ◌&&◌,
  if◌then◌else◌,
}
use mathlib.Core.List.{append-nil}
use shuttlesock.Modules.{
  Module, Call, freeze, State, each_module, freeze_step, initialize_step, finalize_step, restore,
  master_initialize_modules, initialize_all, finalize_all, call,
}
use shuttlesock.Modules.Loops.{
  well, all_well, calls_until, frozen, initialized, finalized, Stepped, assoc_from,
  each_module-Stepped, freeze_step-Stepped, finalize_step-Stepped, initialize_module-Stepped,
}

abbrev freezes : Module → Bool
freezes m = m.freezes

abbrev initializes : Module → Bool
initializes m = well m.initialize

abbrev finalizes : Module → Bool
finalizes m = m.finalizes

abbrev pub initializes_worker : Module → Bool
initializes_worker m = well m.initialize_worker

abbrev initialize_calls : List Module → List Call
initialize_calls ms =
    calls_until initializes initialized ms 0
    ++ (if all_well initializes ms then calls_until finalizes finalized ms 0 else [])

-- The calls of `shuso_master_initialize_modules`
abbrev pub master_calls : (events : Bool) → List Module → List Call
master_calls events ms =
    if not events
    then []
    else calls_until freezes frozen ms 0
      ++ (if all_well freezes ms then initialize_calls ms else [])

-- Whether `shuso_master_initialize_modules` and its parts succeed
abbrev pub master_well : (events : Bool) → List Module → Bool
master_well events ms =
    events && (all_well freezes ms && (all_well initializes ms && all_well finalizes ms))

-- What a function returns and calls, and that it leaves `prev` as the active module
pub record Restored (good : Bool) (called : List Call) (prev : Option ℕ) (s : State)
    (r : Bool × State) : Type 0 where
  pub decides : r.0 ≡ good
  pub calls : r.1.calls ≡ s.calls ++ called
  pub active : r.1.active ≡ prev

abbrev finalize_end : Option ℕ → Bool × State → Bool × State
finalize_end prev (ok, s) = if not ok then (false, restore prev s) else (true, restore prev s)

finalize_end-Restored :
    (good : Bool) (cs : List Call) (prev : Option ℕ) (s : State) (r : Bool × State)
    → Stepped good cs s r
    → Restored good cs prev s (finalize_end prev r)
finalize_end-Restored good cs prev s (true, t) p = record {
  decides = p.decides;
  calls = p.calls;
  active = refl;
}
finalize_end-Restored good cs prev s (false, t) p = record {
  decides = p.decides;
  calls = p.calls;
  active = refl;
}

-- After a loop that ended with `b`, the rest, or the failure with `prev` put back
rest-Restored :
    (b good rest : Bool) (c cs : List Call) (prev : Option ℕ) (s t : State) (r : Bool × State)
    → b ≡ good
    → t.calls ≡ s.calls ++ c
    → Restored rest cs prev t r
    → Restored
        (good && rest)
        (c ++ (if good then cs else []))
        prev
        s
        (if not b then (false, restore prev t) else r)
rest-Restored true good rest c cs prev s t r d e q =
    subst (λ g. Restored (g && rest) (c ++ (if g then cs else [])) prev s r) d
      (record {
        decides = q.decides;
        calls = q.calls ∙ assoc_from s.calls c cs t.calls e;
        active = q.active;
      })
rest-Restored false good rest c cs prev s t r d e q =
    subst (λ g. Restored (g && rest) (c ++ (if g then cs else [])) prev s (false, restore prev t)) d
      (record {
        decides = refl;
        calls = e ∙ ap (λ l. s.calls ++ l) (sym (append-nil c));
        active = refl;
      })

finalize_all-Restored :
    (prev : Option ℕ) (ms : List Module) (s : State)
    → Restored
        (all_well finalizes ms)
        (calls_until finalizes finalized ms 0)
        prev
        s
        (finalize_all prev ms s)
finalize_all-Restored prev ms s =
    finalize_end-Restored (all_well finalizes ms) (calls_until finalizes finalized ms 0) prev s
      (each_module finalize_step ms 0 s)
      (each_module-Stepped finalize_step finalizes finalized finalize_step-Stepped ms 0 s)

initialize_all-Restored :
    (ms : List Module) (s : State)
    → Restored
        (all_well initializes ms && all_well finalizes ms)
        (initialize_calls ms)
        s.active
        s
        (initialize_all ms s)
initialize_all-Restored ms s =
    let r = each_module initialize_step ms 0 s in
    let p =
      each_module-Stepped initialize_step initializes initialized
        (λ m i s. initialize_module-Stepped m.initialize i s) ms 0 s in
    rest-Restored r.0 (all_well initializes ms) (all_well finalizes ms)
      (calls_until initializes initialized ms 0) (calls_until finalizes finalized ms 0) s.active s
      r.1 (finalize_all s.active ms r.1) p.decides p.calls (finalize_all-Restored s.active ms r.1)

-- Freezing leaves the active module.
freeze-active :
    (ms : List Module) (i : ℕ) (s : State) → (each_module freeze_step ms i s).1.active ≡ s.active
freeze-active [] i s = refl
freeze-active (m ∷ ms) i s =
    either m.freezes (each_module freeze_step ms (suc i) (call (freeze i) s)) (call (freeze i) s)
      (freeze-active ms (suc i) (call (freeze i) s)) refl
  where
    either :
        (b : Bool) (r : Bool × State) (t : State)
        → r.1.active ≡ s.active
        → t.active ≡ s.active
        → (if b then r else (false, t)).1.active ≡ s.active
    either true r t e f = e
    either false r t e f = f

frozen-Restored :
    (b good rest : Bool) (c cs : List Call) (s t : State) (r : Bool × State)
    → b ≡ good
    → t.calls ≡ s.calls ++ c
    → t.active ≡ s.active
    → Restored rest cs t.active t r
    → Restored
        (good && rest)
        (c ++ (if good then cs else []))
        s.active
        s
        (if not b then (false, t) else r)
frozen-Restored true good rest c cs s t r d e f q =
    subst (λ g. Restored (g && rest) (c ++ (if g then cs else [])) s.active s r) d
      (record {
        decides = q.decides;
        calls = q.calls ∙ assoc_from s.calls c cs t.calls e;
        active = q.active ∙ f;
      })
frozen-Restored false good rest c cs s t r d e f q =
    subst (λ g. Restored (g && rest) (c ++ (if g then cs else [])) s.active s (false, t)) d
      (record {
        decides = refl;
        calls = e ∙ ap (λ l. s.calls ++ l) (sym (append-nil c));
        active = f;
      })

-- The master's modules are initialised, and true is returned, exactly if there is an array of events,
-- every module can be frozen, every `initialize` returns true without setting an error, and every
-- module can be finalised. All are frozen before the first is initialised, and all initialised
-- before the first is finalised, each in the order of the modules; what fails is the last call.
-- In every case the active module is as it was before.
pub master_initialize_modules-Restored :
    (events : Bool) (ms : List Module) (s : State)
    → Restored
        (master_well events ms)
        (master_calls events ms)
        s.active
        s
        (master_initialize_modules events ms s)
unfolding master_initialize_modules
master_initialize_modules-Restored false ms s = record {
  decides = refl;
  calls = sym (append-nil s.calls);
  active = refl;
}
master_initialize_modules-Restored true ms s =
    let r = each_module freeze_step ms 0 s in
    let p = each_module-Stepped freeze_step freezes frozen freeze_step-Stepped ms 0 s in
    frozen-Restored r.0 (all_well freezes ms) (all_well initializes ms && all_well finalizes ms)
      (calls_until freezes frozen ms 0) (initialize_calls ms) s r.1 (initialize_all ms r.1)
      p.decides p.calls (freeze-active ms 0 s) (initialize_all-Restored ms r.1)
