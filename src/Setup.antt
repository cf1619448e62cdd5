-- ===== src/Setup.antt =====
-- src/shuttlesock.c: what an instance of the library holds from its creation on, through its
-- configuration, to its end. Whether a callee succeeds is an argument; a result `none` is a failed
-- assertion, or SIGABRT. The texts of errors are known by what they tell.
pub mod Held
pub mod Finish
pub mod Life
mod Tests
use shuttlesock.Base.{ℕ, ◌+◌, Bool, true, false, Option, none, some, not, ◌&&◌, ◌==◌, if◌then◌else◌}
use shuttlesock.Procs.Check.{Check, passes, fails, aborts, runstate_check}
use shuttlesock.Ipc.Send.{Runstate, configuring, configured, misconfigured, nil, dead}

-- The error of `shuso_configure_finish`
pub data Reason : Type 0 where
  event_loop : Reason
  shared_slab : Reason
  ipc_commands : Reason
  process_states : Reason
  worker_range : Reason
  last_error : Reason
  unknown_error : Reason

-- What is allocated: `S->common`, `S`, the resolver's library, the Lua state, the pool, the array of modules,
-- the message of the last error, the event loop; whether the Lua state is the caller's; the
-- state; the delays of IPC in milliseconds, 0 if they are not set; whether the slab is mapped, whether its place is stored
-- in `S->common->shm`, and how often munmap was called for a place that was not mapped; whether the
-- states of the processes and the range of workers point into the slab.
pub record Instance : Type 0 where
  pub common : Bool
  pub self : Bool
  pub resolver : Bool
  pub lua : Bool
  pub external : Bool
  pub pool : Bool
  pub modules_array : Bool
  pub error_msg : Bool
  pub event_loop : Bool
  pub state : Runstate
  pub send_retry_delay : ℕ
  pub send_timeout : ℕ
  pub slab_mapped : Bool
  pub slab_known : Bool
  pub stray_unmaps : ℕ
  pub states_in_slab : Bool
  pub range_in_slab : Bool

abbrev pub nothing : Instance
nothing = record {
  common = false;
  self = false;
  resolver = false;
  lua = false;
  external = false;
  pool = false;
  modules_array = false;
  error_msg = false;
  event_loop = false;
  state = dead;
  send_retry_delay = 0;
  send_timeout = 0;
  slab_mapped = false;
  slab_known = false;
  stray_unmaps = 0;
  states_in_slab = false;
  range_in_slab = false;
}

-- What the callees of `shuso_create_with_lua` answer, and whether adding the core modules makes their array,
-- and leaves a message of an error in memory
pub record CreateAnswers : Type 0 where
  pub calloc_common : Bool
  pub calloc_self : Bool
  pub resolver_global_init : Bool
  pub lua_create : Bool
  pub pool_init : Bool
  pub lua_initialize : Bool
  pub config_system_initialize : Bool
  pub add_core_modules : Bool
  pub makes_array : Bool
  pub leaves_message : Bool

-- the label `fail` of `shuso_create_with_lua`; calloc'ed and not freed is what stays
abbrev pub create_fail : Instance → Bool × Instance
create_fail s = (
  false,
  record s {
    resolver = false;
    pool = false;
    lua = if s.self && s.lua && not s.external then false else s.lua;
    self = false;
    common = false;
  },
)

abbrev pub create_modules : CreateAnswers → Instance → Bool × Instance
create_modules a s0 =
    let s = record s0 { modules_array = a.makes_array; error_msg = a.leaves_message } in
    if a.add_core_modules then (true, s) else create_fail s

abbrev pub create_pool : CreateAnswers → Instance → Bool × Instance
create_pool a s =
    if not a.pool_init
    then create_fail s
    else if not a.lua_initialize
    then create_fail (record s { pool = true })
    else if not a.config_system_initialize
    then create_fail (record s { pool = true })
    else create_modules a (record s { pool = true })

abbrev pub create_lua : (lua : Bool) → CreateAnswers → Instance → Bool × Instance
create_lua true a s = create_pool a (record s { lua = true; external = true; state = configuring })
create_lua false a s =
    if not a.lua_create
    then create_fail s
    else create_pool a (record s { lua = true; state = configuring })

-- `shuso_create_with_lua`, with whether a Lua state is given
pub create_with_lua : (lua : Bool) → CreateAnswers → Bool × Instance
create_with_lua lua a =
    if not a.calloc_common
    then create_fail nothing
    else if not a.calloc_self
    then create_fail (record nothing { common = true; state = nil })
    else if not a.resolver_global_init
    then create_fail (record nothing { common = true; self = true; state = nil })
    else create_lua lua a
        (record nothing { common = true; self = true; resolver = true; state = nil })

-- `shuso_create`
pub create : CreateAnswers → Bool × Instance
unfolding create_with_lua
create a = create_with_lua false a

-- What the callees of `shuso_configure_finish` answer; the number of workers after the configuration was
-- generated; whether there is a last error at a failure without a text of its own; and whether
-- malloc has memory for the error.
pub record FinishAnswers : Type 0 where
  pub config_system_generate : Bool
  pub default_loop : Bool
  pub workers : ℕ
  pub slab_mmap : Bool
  pub slab_mutex : Bool
  pub ipc_commands_init : Bool
  pub slab_calloc_states : Bool
  pub slab_alloc_start : Bool
  pub slab_alloc_end : Bool
  pub master_initialize_modules : Bool
  pub has_last_error : Bool
  pub malloc : Bool

abbrev pub Finished : Type 0
Finished = Option (Bool × Option Reason × Instance)

-- munmap of the slab
abbrev pub shared_slab_destroy : Instance → Instance
shared_slab_destroy s =
    if s.slab_mapped
    then record s { slab_mapped = false }
    else if s.slab_known
    then record s { stray_unmaps = s.stray_unmaps + 1 }
    else s

-- the label `fail`, with `errmsg` and `shm_slab_created`
abbrev pub finish_fail : FinishAnswers → Option Reason → Bool → Instance → Finished
finish_fail a (some r) created s0 =
    let s = record s0 { state = misconfigured; error_msg = a.malloc } in
    some (false, some r, if created then shared_slab_destroy s else s)
finish_fail a none created s0 =
    let s = record s0 { state = misconfigured; error_msg = a.malloc } in
    some (
      false,
      some (if a.has_last_error then last_error else unknown_error),
      if created then shared_slab_destroy s else s,
    )

abbrev pub finish_modules : FinishAnswers → Instance → Finished
finish_modules a s =
    if not a.master_initialize_modules
    then finish_fail a none true s
    else some (true, none, record s { state = configured })

abbrev pub finish_states : FinishAnswers → Instance → Finished
finish_states a s =
    if not a.slab_calloc_states
    then finish_fail a (some process_states) true s
    else if not (a.slab_alloc_start && a.slab_alloc_end)
    then finish_fail a (some worker_range) true (record s { states_in_slab = true })
    else finish_modules a (record s { states_in_slab = true; range_in_slab = true })

-- `shuso_shared_slab_create`, by whether mmap succeeds, and what sets the mutex up. Where only the mutex fails, the
-- slab is unmapped again, but its place stays stored; where mmap fails, the place that is stored has no size,
-- and counts as none.
abbrev pub shared_slab_create : (mmap mutex : Bool) → Instance → Bool × Instance
shared_slab_create false mutex s = (false, s)
shared_slab_create true false s = (false, record s { slab_known = true })
shared_slab_create true true s = (true, record s { slab_mapped = true; slab_known = true })

abbrev pub after_slab : FinishAnswers → Bool × Instance → Finished
after_slab a (false, s) = finish_fail a (some shared_slab) false s
after_slab a (true, s) =
    if not a.ipc_commands_init then finish_fail a (some ipc_commands) true s else finish_states a s

abbrev pub finish_slab : FinishAnswers → Instance → Finished
finish_slab a s = after_slab a (shared_slab_create a.slab_mmap a.slab_mutex s)

-- `set_default_config`
abbrev pub default_config : ℕ → ℕ → ℕ
default_config conf default_val = if conf == 0 then default_val else conf

abbrev pub finish_config : FinishAnswers → Instance → Finished
finish_config a s =
    if a.workers == 0
    then none
    else finish_slab a (record s {
      event_loop = true;
      send_retry_delay = default_config s.send_retry_delay 50;
      send_timeout = default_config s.send_timeout 500;
    })

abbrev pub finish_start : FinishAnswers → Instance → Finished
finish_start a s =
    if not a.config_system_generate
    then finish_fail a none false s
    else if not a.default_loop
    then finish_fail a (some event_loop) false s
    else finish_config a s

abbrev pub after_check : FinishAnswers → Check → Instance → Finished
after_check a passes s = finish_start a s
after_check a aborts s = none
after_check a (fails text) s = some (false, none, record s { error_msg = a.malloc })

-- `shuso_configure_finish`: what it returns, the reason in its error, and the instance; the text of the
-- last error matters only to the text of the check's
pub configure_finish : FinishAnswers → Instance → Finished
unfolding runstate_check
configure_finish a s = after_check a (runstate_check s.state configuring none) s

-- what `shuso_destroy` gives back
abbrev pub destroy_held : (worker : Bool) → Instance → Instance
destroy_held worker s0 =
    let s = shared_slab_destroy (record s0 { lua = false; event_loop = false; pool = false }) in
    record s {
      modules_array = false;
      common = if worker then s.common else false;
      error_msg = false;
      self = false;
      resolver = false;
    }

-- `shuso_destroy` of a process that is a worker or is not
pub destroy : (worker : Bool) → Instance → Option Instance
destroy worker s =
    if s.external then none else if not s.lua then none else some (destroy_held worker s)
