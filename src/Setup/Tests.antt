-- ===== src/Setup/Tests.antt =====
-- Instances at concrete answers.
use shuttlesock.Base.{◌≡◌, ◌≢◌, refl, true, false, some, none, arith}
use shuttlesock.Setup.{
  Instance, CreateAnswers, FinishAnswers, create, create_with_lua, configure_finish, destroy,
}
use shuttlesock.Setup.Held.{Created, creates, created, create_with_lua-Created}
use shuttlesock.Setup.Finish.{Ends, finishes, stores_slab, configure_finish-Ends}
use shuttlesock.Setup.Life.{life, Gone, strays, life-Gone}

abbrev all_created : CreateAnswers
all_created = record {
  calloc_common = true;
  calloc_self = true;
  resolver_global_init = true;
  lua_create = true;
  pool_init = true;
  lua_initialize = true;
  config_system_initialize = true;
  add_core_modules = true;
  makes_array = true;
  leaves_message = false;
}

abbrev modules_fail : CreateAnswers
modules_fail = record all_created { add_core_modules = false; leaves_message = true }

-- The slab has no room for the states of the processes.
abbrev slab_full : FinishAnswers
slab_full = record {
  config_system_generate = true;
  default_loop = true;
  workers = 4;
  slab_mmap = true;
  slab_mutex = true;
  ipc_commands_init = true;
  slab_calloc_states = false;
  slab_alloc_start = true;
  slab_alloc_end = true;
  master_initialize_modules = true;
  has_last_error = false;
  malloc = true;
}

abbrev no_mutex : FinishAnswers
no_mutex = record slab_full { slab_mutex = false }

-- Without a mutex the slab's place is stored, though it is not mapped.
mutex_stray : strays (finishes no_mutex) (stores_slab no_mutex) ≡ 1
mutex_stray = refl

-- The array of modules and the message of the error are not freed.
modules_leak :
    ((create modules_fail).1.modules_array ≡ true) × ((create modules_fail).1.error_msg ≡ true)
unfolding create
modules_leak = (refl, refl)

-- An instance with the caller's Lua state cannot be destroyed.
external_stays : destroy false (create_with_lua true all_created).1 ≡ none
unfolding destroy create_with_lua
external_stays = refl

create_with_lua-Created_example :
    Created
      (creates true modules_fail)
      (created true modules_fail)
      (create_with_lua true modules_fail)
create_with_lua-Created_example = create_with_lua-Created true modules_fail

four_workers : slab_full.workers ≢ 0
four_workers e = ground (arith, e)

configure_finish-Ends_example :
    Ends
      (finishes slab_full)
      (stores_slab slab_full)
      (created false all_created)
      (configure_finish slab_full (created false all_created))
configure_finish-Ends_example =
    configure_finish-Ends slab_full (created false all_created) refl four_workers refl refl

-- munmap is called a second time.
life-Gone_example :
    (s : Instance) × (life all_created slab_full ≡ some s)
    × Gone s (strays (finishes slab_full) (stores_slab slab_full))
life-Gone_example = life-Gone all_created slab_full refl four_workers
