-- ===== src/Procs/Check.antt =====
-- src/shuttlesock.c: the run state as text, and the check that a function makes of the state that all
-- processes share.
use Prim.Native.String.{String}
use shuttlesock.Base.{Bool, true, false, Option, none, some, if◌then◌else◌, ℤ, pos, negsuc}
use shuttlesock.Ipc.Send.{
  Runstate, dead, stopped, misconfigured, configuring, configured, nil, starting, running, stopping,
}

-- the values of `shuso_runstate_t`
pub runstate_value : Runstate → ℤ
runstate_value dead = negsuc 4
runstate_value stopped = negsuc 3
runstate_value misconfigured = negsuc 2
runstate_value configuring = negsuc 1
runstate_value configured = negsuc 0
runstate_value nil = pos 0
runstate_value starting = pos 1
runstate_value running = pos 2
runstate_value stopping = pos 3

abbrev pub same_state : Runstate → Runstate → Bool
same_state dead dead = true
same_state stopped stopped = true
same_state misconfigured misconfigured = true
same_state configuring configuring = true
same_state configured configured = true
same_state nil nil = true
same_state starting starting = true
same_state running running = true
same_state stopping stopping = true
same_state _ _ = false

-- `shuso_runstate_as_string`
pub runstate_as_string : Runstate → String
runstate_as_string dead = "SHUSO_STATE_DEAD"
runstate_as_string stopped = "SHUSO_STATE_STOPPED"
runstate_as_string misconfigured = "SHUSO_STATE_MISCONFIGURED"
runstate_as_string configuring = "SHUSO_STATE_CONFIGURING"
runstate_as_string configured = "SHUSO_STATE_CONFIGURED"
runstate_as_string nil = "SHUSO_STATE_NIL"
runstate_as_string starting = "SHUSO_STATE_STARTING"
runstate_as_string running = "SHUSO_STATE_RUNNING"
runstate_as_string stopping = "SHUSO_STATE_STOPPING"

-- What the check of a run state comes to: it passes, an error with this text is set, or SIGABRT is raised.
pub data Check : Type 0 where
  passes : Check
  fails : String → Check
  aborts : Check

abbrev text_or : Option String → String → String
text_or none s = s
text_or (some e) s = e

-- why a function cannot be called in a state other than its own, given the last error
abbrev refusal : Runstate → (last_error : Option String) → Check
refusal dead e = fails "shuttlesock is already dead"
refusal stopped e = fails "shuttlesock is already stopped"
refusal misconfigured e = fails (text_or e "shuttlesock is misconfigured")
refusal configuring e = fails "shuttlesock is still being configured"
refusal configured e = aborts
refusal nil e = fails "shuttlesock is unset"
refusal starting e = fails "shuttlesock is starting"
refusal running e = fails "shuttlesock is already running"
refusal stopping e = fails "shuttlesock is already stopping"

-- `shuso_runstate_check`, with the error's text behind "failed to ...: "
unfoldable pub runstate_check : (state allowed : Runstate) → (last_error : Option String) → Check
runstate_check state allowed e = if same_state state allowed then passes else refusal state e
