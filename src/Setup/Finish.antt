-- ===== src/Setup/Finish.antt =====
-- How the configuration of an instance ends.
use shuttlesock.Base.{
  ◌+◌, ◌≡◌, ◌≢◌, refl, sym, subst, Bool, true, false, Option, none, some, not, ◌&&◌, ◌==◌,
  if◌then◌else◌, arith,
}
use shuttlesock.Setup.{
  Reason, Instance, FinishAnswers, Finished, finish_fail, finish_modules, finish_states,
  finish_slab, after_slab, shared_slab_create, finish_config, after_check, configure_finish,
  default_config, shared_slab_destroy, event_loop, shared_slab, ipc_commands, process_states,
  worker_range,
}
use shuttlesock.Procs.Check.{runstate_check}
use shuttlesock.Ipc.Send.{configuring, configured, misconfigured}

-- Whether the slab is created, and all that comes behind it succeeds
abbrev pub slab_finishes : FinishAnswers → Bool
slab_finishes a =
    a.slab_mmap
    && (a.slab_mutex
        && (a.ipc_commands_init
            && (a.slab_calloc_states
                && ((a.slab_alloc_start && a.slab_alloc_end) && a.master_initialize_modules))))

-- Whether all that `shuso_configure_finish` needs succeeds
abbrev pub finishes : FinishAnswers → Bool
finishes a = a.config_system_generate && (a.default_loop && slab_finishes a)

-- Whether the slab is mapped, and its place stored, if only for a time
abbrev pub stores_slab : FinishAnswers → Bool
stores_slab a = a.config_system_generate && (a.default_loop && a.slab_mmap)

-- How an instance `s` becomes `s'`: it is configured, and the slab is mapped, if `ok`, and
-- misconfigured without a slab if not. The place of the slab is stored if `known`.
pub record Configured (ok known : Bool) (s s' : Instance) : Type 0 where
  pub state : s'.state ≡ (if ok then configured else misconfigured)
  pub slab_mapped : s'.slab_mapped ≡ ok
  pub slab_known : s'.slab_known ≡ known
  pub stray_unmaps : s'.stray_unmaps ≡ s.stray_unmaps
  pub lua : s'.lua ≡ s.lua
  pub external : s'.external ≡ s.external

-- The call returns `ok`, and no assertion fails.
abbrev pub Ends : (ok known : Bool) → Instance → Finished → Type 0
Ends ok known s r =
    (reason : Option Reason) × (s' : Instance) × (r ≡ some (ok, reason, s'))
    × Configured ok known s s'

guard-Ends :
    (b ok known : Bool) (s : Instance) (x y : Finished)
    → Ends false known s y
    → Ends ok known s x
    → Ends (b && ok) known s (if not b then y else x)
guard-Ends true ok known s x y f e = e
guard-Ends false ok known s x y f e = f

-- A step on which it also depends whether the slab's place is known
early-Ends :
    (b ok known : Bool) (s : Instance) (x y : Finished)
    → Ends false false s y
    → Ends ok known s x
    → Ends (b && ok) (b && known) s (if not b then y else x)
early-Ends true ok known s x y f e = e
early-Ends false ok known s x y f e = f

with_message :
    (known : Bool) (s t : Instance) (m : Bool)
    → Configured false known s (record t { state = misconfigured })
    → Configured false known s (record t { state = misconfigured; error_msg = m })
with_message known s t m c = record {
  state = refl;
  slab_mapped = c.slab_mapped;
  slab_known = c.slab_known;
  stray_unmaps = c.stray_unmaps;
  lua = c.lua;
  external = c.external;
}

unmapped :
    (s t : Instance) (m : Bool)
    → Configured true true s (record t { state = configured })
    → Configured false true s
        (shared_slab_destroy (record t { state = misconfigured; error_msg = m }))
unmapped s t m c =
    subst
      (λ x. Configured false true s (
        if x
        then record t { state = misconfigured; error_msg = m; slab_mapped = false }
        else if t.slab_known
        then record t { state = misconfigured; error_msg = m; stray_unmaps = t.stray_unmaps + 1 }
        else record t { state = misconfigured; error_msg = m }))
      (sym c.slab_mapped)
      (record {
        state = refl;
        slab_mapped = refl;
        slab_known = c.slab_known;
        stray_unmaps = c.stray_unmaps;
        lua = c.lua;
        external = c.external;
      })

early_fail-Ends :
    (known : Bool) (a : FinishAnswers) (r : Option Reason) (s t : Instance)
    → Configured false known s (record t { state = misconfigured })
    → Ends false known s (finish_fail a r false t)
early_fail-Ends known a (some r) s t c = (_, _, refl, with_message known s t a.malloc c)
early_fail-Ends known a none s t c = (_, _, refl, with_message known s t a.malloc c)

-- A failure with a mapped slab unmaps it.
late_fail-Ends :
    (a : FinishAnswers) (r : Option Reason) (s t : Instance)
    → Configured true true s (record t { state = configured })
    → Ends false true s (finish_fail a r true t)
late_fail-Ends a (some r) s t c = (some r, _, refl, unmapped s t a.malloc c)
late_fail-Ends a none s t c = (_, _, refl, unmapped s t a.malloc c)

modules-Ends :
    (a : FinishAnswers) (s t : Instance)
    → Configured true true s (record t { state = configured })
    → Ends a.master_initialize_modules true s (finish_modules a t)
modules-Ends a s t c = either a.master_initialize_modules
  where
    either :
        (b : Bool)
        → Ends b true s (
            if not b
            then finish_fail a none true t
            else some (true, none, record t { state = configured }))
    either true = (none, record t { state = configured }, refl, c)
    either false = late_fail-Ends a none s t c

with_pointers :
    (s t : Instance) (x y : Bool)
    → Configured true true s (record t { state = configured })
    → Configured true true s
        (record t { state = configured; states_in_slab = x; range_in_slab = y })
with_pointers s t x y c = record {
  state = refl;
  slab_mapped = c.slab_mapped;
  slab_known = c.slab_known;
  stray_unmaps = c.stray_unmaps;
  lua = c.lua;
  external = c.external;
}

states-Ends :
    (a : FinishAnswers) (s t : Instance)
    → Configured true true s (record t { state = configured })
    → Ends
        (a.slab_calloc_states
          && ((a.slab_alloc_start && a.slab_alloc_end) && a.master_initialize_modules))
        true
        s
        (finish_states a t)
states-Ends a s t c =
    let u = record t { states_in_slab = true } in
    guard-Ends a.slab_calloc_states _ true s _ (finish_fail a (some process_states) true t)
      (late_fail-Ends a (some process_states) s t c)
      (guard-Ends (a.slab_alloc_start && a.slab_alloc_end) _ true s _
        (finish_fail a (some worker_range) true u)
        (late_fail-Ends a (some worker_range) s u (with_pointers s t true t.range_in_slab c))
        (modules-Ends a s (record u { range_in_slab = true }) (with_pointers s t true true c)))

mapped :
    (s t : Instance)
    → Configured false false s (record t { state = misconfigured })
    → Configured true true s
        (record t { slab_mapped = true; slab_known = true; state = configured })
mapped s t c = record {
  state = refl;
  slab_mapped = refl;
  slab_known = refl;
  stray_unmaps = c.stray_unmaps;
  lua = c.lua;
  external = c.external;
}

-- the slab's place is stored, but it is not mapped
known_place :
    (s t : Instance)
    → Configured false false s (record t { state = misconfigured })
    → Configured false true s (record t { slab_known = true; state = misconfigured })
known_place s t c = record {
  state = refl;
  slab_mapped = c.slab_mapped;
  slab_known = refl;
  stray_unmaps = c.stray_unmaps;
  lua = c.lua;
  external = c.external;
}

slab-Ends :
    (mmap mutex : Bool) (a : FinishAnswers) (s t : Instance)
    → Configured false false s (record t { state = misconfigured })
    → Ends
        (mmap
          && (mutex
              && (a.ipc_commands_init
                  && (a.slab_calloc_states
                      && ((a.slab_alloc_start && a.slab_alloc_end)
                          && a.master_initialize_modules)))))
        mmap
        s
        (after_slab a (shared_slab_create mmap mutex t))
slab-Ends false mutex a s t c = early_fail-Ends false a (some shared_slab) s t c
slab-Ends true false a s t c =
    early_fail-Ends true a (some shared_slab) s (record t { slab_known = true }) (known_place s t c)
slab-Ends true true a s t c =
    let u = record t { slab_mapped = true; slab_known = true } in
    guard-Ends a.ipc_commands_init _ true s _ (finish_fail a (some ipc_commands) true u)
      (late_fail-Ends a (some ipc_commands) s u (mapped s t c)) (states-Ends a s u (mapped s t c))

config-Ends :
    (a : FinishAnswers) (s : Instance)
    → a.workers ≢ 0
    → s.slab_mapped ≡ false
    → s.slab_known ≡ false
    → Ends (slab_finishes a) a.slab_mmap s (finish_config a s)
config-Ends a s ne e f =
    let t = record s {
      event_loop = true;
      send_retry_delay = default_config s.send_retry_delay 50;
      send_timeout = default_config s.send_timeout 500;
    } in
    subst (λ b. Ends (slab_finishes a) a.slab_mmap s (if b then none else finish_slab a t))
      (sym some_workers)
      (slab-Ends a.slab_mmap a.slab_mutex a s t (record {
        state = refl;
        slab_mapped = e;
        slab_known = f;
        stray_unmaps = refl;
        lua = refl;
        external = refl;
      }))
  where
    some_workers : (a.workers == 0) ≡ false
    some_workers = ground (arith, ne)

-- An instance that is being configured, and has no slab yet: with a number of workers that is not 0,
-- `shuso_configure_finish` returns, and returns true exactly if all that it needs succeeds. The
-- instance is then configured, and the slab is mapped; if anything fails it is misconfigured,
-- and the slab is not mapped, though its place stays stored if it was.
pub configure_finish-Ends :
    (a : FinishAnswers) (s : Instance)
    → s.state ≡ configuring
    → a.workers ≢ 0
    → s.slab_mapped ≡ false
    → s.slab_known ≡ false
    → Ends (finishes a) (stores_slab a) s (configure_finish a s)
unfolding configure_finish runstate_check
configure_finish-Ends a s st ne e f =
    let c : Configured false false s (record s { state = misconfigured }) = record {
      state = refl;
      slab_mapped = e;
      slab_known = f;
      stray_unmaps = refl;
      lua = refl;
      external = refl;
    } in
    subst
      (λ x.
        Ends (finishes a) (stores_slab a) s (after_check a (runstate_check x configuring none) s))
      (sym st)
      (early-Ends a.config_system_generate _ _ s _ (finish_fail a none false s)
        (early_fail-Ends false a none s s c)
        (early-Ends a.default_loop _ _ s _ (finish_fail a (some event_loop) false s)
          (early_fail-Ends false a (some event_loop) s s c) (config-Ends a s ne e f)))
