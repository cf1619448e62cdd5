-- ===== src/Ipc/Send.antt =====
-- src/ipc.c, src/ipc_commands.c: what a process does to send a message: to the ring of another
-- process, by way of the manager, or to its own buffer of messages to retry. The calls run alone,
-- as those of the ring do.
pub mod Order
pub mod Step
pub mod Retry
pub mod Fifo
pub mod Proxy
use shuttlesock.Base.{
  ℕ, zero, suc, Bool, true, false, Option, none, some, List, [], ◌∷◌, ◌++◌, ◌==◌, if◌then◌else◌,
  ◌&&◌, ◌||◌,
}
use shuttlesock.Ipc.Ring.{Message, Ring, send_direct}

-- a `procnum`, for a `shuso_process_t *`
pub data Process : Type 0 where
  master : Process
  manager : Process
  worker : ℕ → Process

abbrev pub same_process : Process → Process → Bool
same_process master master = true
same_process manager manager = true
same_process (worker i) (worker j) = i == j
same_process _ _ = false

-- procnum >= SHUTTLESOCK_WORKER
abbrev pub is_worker : Process → Bool
is_worker (worker i) = true
is_worker _ = false

abbrev pub is_master : Process → Bool
is_master master = true
is_master _ = false

-- `shuso_runstate_t`
pub data Runstate : Type 0 where
  dead : Runstate
  stopped : Runstate
  misconfigured : Runstate
  configuring : Runstate
  configured : Runstate
  nil : Runstate
  starting : Runstate
  running : Runstate
  stopping : Runstate

-- state < SHUSO_STATE_STARTING
abbrev pub before_starting : Runstate → Bool
before_starting starting = false
before_starting running = false
before_starting stopping = false
before_starting _ = true

abbrev pub is_starting : Runstate → Bool
is_starting starting = true
is_starting _ = false

-- `shuso_ipc_outbuf_t`, without the link
pub record Outbuf : Type 0 where
  pub dst : Process
  pub msg : Message

-- `shuso_ipc_manager_proxy_msg_t`
pub record ProxyMsg : Type 0 where
  pub code : ℕ
  pub src : Process
  pub dst : Process
  pub pd : ℕ

-- `S` of the sending process: its number, its buffer from `first` on, whether its `send_retry`
-- timer is active; and what the processes share: their states, their rings, the messages in shared
-- memory.
pub record Sender : Type 0 where
  pub procnum : Process
  pub outbuf : List Outbuf
  pub retry_active : Bool
  pub state : Process → Runstate
  pub ring : Process → Ring
  pub shm : ℕ → Option ProxyMsg

abbrev pub store_ring : (Process → Ring) → Process → Ring → Process → Ring
store_ring ring dst b p = if same_process p dst then b else ring p

-- What a call returns; `none` is a failed assertion.
abbrev pub Sent : Type 0
Sent = Option (Bool × Sender)

-- What the allocators answer a call: whether `malloc` has memory, and the address that
-- `shuso_shared_slab_alloc` gives.
pub record Memory : Type 0 where
  pub malloc : Bool
  pub slab : Option ℕ

abbrev pub from_ring : Sender → Process → Option (Bool × Ring) → Sent
from_ring s dst none = none
from_ring s dst (some (done, b)) = some (done, record s { ring = store_ring s.ring dst b })

-- `ipc_send_direct`, to the ring of `dst`
pub direct : Sender → Process → Message → Sent
direct s dst m = from_ring s dst (send_direct (s.ring dst) m)

-- `ipc_send_outbuf_append`
pub outbuf_append : Memory → Sender → Process → Message → Bool × Sender
outbuf_append mem s dst m =
    if mem.malloc
    then (
      true,
      record s { outbuf = s.outbuf ++ record { dst = dst; msg = m } ∷ []; retry_active = true },
    )
    else (false, s)

abbrev pub is_empty {ℓ} : {A : Type ℓ} → List A → Bool
is_empty [] = true
is_empty _ = false

abbrev pub or_append : Memory → Sender → Process → Message → Sent → Sent
or_append mem s dst m none = none
or_append mem s dst m (some (true, s')) = some (true, s')
or_append mem s dst m (some (false, s')) = some (outbuf_append mem s' dst m)

-- The end of `shuso_ipc_send`, behind the test for the manager's part.
pub send_or_buffer : Memory → Sender → Process → Message → Sent
send_or_buffer mem s dst m =
    if (if is_empty s.outbuf then is_starting (s.state dst) else true)
    then some (outbuf_append mem s dst m)
    else or_append mem s dst m (direct s dst m)

-- master to worker, or worker to master
abbrev pub needs_proxy : Process → Process → Bool
needs_proxy src dst = (is_master src && is_worker dst) || (is_worker src && is_master dst)

abbrev pub cmd_manager_proxy_message : ℕ
cmd_manager_proxy_message = 11

abbrev pub cmd_receive_proxied_message : ℕ
cmd_receive_proxied_message = 12

abbrev pub store_shm : (ℕ → Option ProxyMsg) → ℕ → ProxyMsg → ℕ → Option ProxyMsg
store_shm shm a d i = if i == a then some d else shm i

-- `shuso_ipc_send_proxy_via_manager`, where `send` is `shuso_ipc_send`
pub send_proxy_via_manager :
    (Sender → Process → Message → Sent) → Memory → Sender → Process → Message → Sent
send_proxy_via_manager send mem s dst m = elim mem.slab [
  | none ↦ some (false, s)
  | some a ↦
      send
        (record s {
          shm =
              store_shm s.shm a (record { code = m.code; src = s.procnum; dst = dst; pd = m.ptr });
        })
        manager (record { code = cmd_manager_proxy_message; ptr = a })
]

-- `shuso_ipc_send`, where `send` is the call that the proxy makes
pub send_with : (Sender → Process → Message → Sent) → Memory → Sender → Process → Message → Sent
unfolding send_proxy_via_manager
send_with send mem s dst m =
    if before_starting (s.state dst)
    then some (false, s)
    else if needs_proxy s.procnum dst
    then send_proxy_via_manager send mem s dst m
    else send_or_buffer mem s dst m

-- `shuso_ipc_send`. It calls itself at most once, with the manager for destination.
pub ipc_send : Memory → Sender → Process → Message → Sent
ipc_send mem = send_with (send_with (λ s dst m. none) mem) mem

-- The loop of `ipc_send_retry_cb`, from `first` on
pub send_retry : List Outbuf → Sender → Option Sender
send_retry [] s = some (record s { outbuf = [] })
send_retry (cur ∷ rest) s = elim (direct s cur.dst cur.msg) [
  | none ↦ none
  | some (done, s') ↦
      if done
      then send_retry rest (record s' { outbuf = rest })
      else some (record s' { retry_active = true })
]

-- `ipc_send_retry_cb`
pub send_retry_cb : Sender → Option Sender
send_retry_cb s = send_retry s.outbuf s

-- `shuso_ipc_send_workers`, with `workers` the processes from `workers_start` to `workers_end`:
-- the first that fails ends the sending, though not the loop. `mem w` is what the call for worker
-- `w` is answered.
pub send_workers : (ℕ → Memory) → List ℕ → Sender → Message → Sent
send_workers mem [] s m = some (true, s)
send_workers mem (w ∷ ws) s m = elim (ipc_send (mem w) s (worker w) m) [
  | none ↦ none
  | some (done, s') ↦ if done then send_workers mem ws s' m else some (false, s')
]

-- `manager_proxy_message_handle`, with the message's memory at `a`
pub manager_proxy_message_handle : Memory → Sender → ℕ → Option Sender
manager_proxy_message_handle mem s a = elim (same_process s.procnum manager) [
  | false ↦ none
  | true ↦ elim (s.shm a) [
    | none ↦ none
    | some d ↦
        elim (ipc_send mem s d.dst (record { code = cmd_receive_proxied_message; ptr = a })) [
          | none ↦ none
          | some (true, s') ↦ some s'
          | some (false, s') ↦ some (record s' { shm = λ i. if i == a then none else s'.shm i })
        ]
  ]
]

-- `received_proxied_message_handle`: the message that a handler is called with
pub received_proxied_message_handle : Sender → ℕ → Option Message
received_proxied_message_handle s a = elim (s.shm a) [
  | none ↦ none
  | some d ↦ some (record { code = d.code; ptr = d.pd })
]
